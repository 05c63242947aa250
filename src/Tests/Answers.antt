-- ===== src/Tests/Answers.antt =====
-- The theorems on `reply` of src/dhcp.rs, at a request.
use macmapd.Base.{
  ◌⊎◌, ◌≤◌, err, Bool, true, ℕ, ◌≡◌, ◌≢◌, ◌↔◌, refl, false, Option, none, some, [], Bytes, ok,
  ◌>>=◌, ensure, context, index, sub_slice, copy_at, replicate, take, drop, get_or, bytes_eq,
  Returns,
}
use macmapd.Net.{is_unspecified, is_broadcast, is_multicast, ip_eq}
use macmapd.Dhcp.{OptionMap, no_options}
use macmapd.Dhcp.Options.{read_options, option, chunk_loop, chunks, put_chunks}
use macmapd.Dhcp.Parse.{Outcome, ip_option}
use macmapd.Dhcp.Parse.Accepts.{IsPacket}
use macmapd.Dhcp.Stage.{
  boot_mode_mismatch, stage, is_ipxe, route_mode, architecture_name, find_architecture,
  known_architecture, requests, stage_name, user_classes, vendor_architecture,
}
use macmapd.Dhcp.Reply.{Reply, reply, build}
use macmapd.Dhcp.Reply.Answer.{answer, is_malformed_request, reply_message}
use macmapd.Dhcp.Reply.Decision.{answer_iff}
use macmapd.Dhcp.Reply.States.{Answers}
use macmapd.Dhcp.Reply.Contents.{IsRoutes}
use macmapd.Dhcp.Reply.Sent.{IsReply, reply-IsReply}
use macmapd.Dhcp.Reply.ReadBack.{IsRead, reply-IsRead}
use macmapd.Dhcp.Reply.Total.{reply-Returns}
use macmapd.Dhcp.Reply.Body.{
  start, put_answer, boot_file, checked_mask, echo, encode_routes, put_identity, put_lease, put_nak,
  put_parameters, put_routes, put_times,
}
use macmapd.Text.{
  parse_u8, digits_value, from_str_radix, is_ascii_digit, parse_u16, prefix_of, second_piece, split,
  split_once, starts_with, starts_with_char, to_digit,
}
use macmapd.Config.{get_files}
use macmapd.Dhcp.Reply.Finish.{destination, put_relay, seal}
use macmapd.Net.Display.{display}
use macmapd.Net.Parse.{parse_octet, parse_ipv4}
use macmapd.Text.Decimal.{decimal, decimal_digits}
use macmapd.Text.Utf8.{decode, from_utf8}
use macmapd.Config.Validate.{
  validate, check_identifier, has_scheme, has_host, check_addresses, check_routes,
  check_architectures, valid_file,
}
use macmapd.Config.Address.{is_unicast, prefix_mask}
use macmapd.Config.Names.{valid_timezone}
use macmapd.Config.Route.{parse_route}
use macmapd.Text.Utf8.{chars, is_whitespace, is_control}
use macmapd.Text.{is_ascii_alphanumeric}
use macmapd.Dhcp.{response_too_long}
use macmapd.Dhcp.Reply.Errors.{reply-decides}
use macmapd.Tests.Samples.{sample_request, sample_client, sample_config, server_ip}

pub sample-IsPacket : IsPacket sample_request
unfolding replicate take drop
sample-IsPacket = record {
  header_length = refl;
  mac = refl;
  ciaddr = refl;
  giaddr = refl;
  message = refl;
  known = refl;
  requested_ip = refl;
  server_id = refl;
  size = refl;
  architectures = refl;
}

answer_iff_example : (answer sample_request sample_client server_ip ≡ some 5) ↔ (
    (boot_mode_mismatch sample_request sample_client ≡ false)
    × Answers sample_request sample_client server_ip 5)
answer_iff_example = answer_iff sample_request sample_client server_ip 5 sample-IsPacket

reply-Returns_example : Returns (reply sample_request sample_client sample_config server_ip)
reply-Returns_example =
    reply-Returns sample_request sample_client sample_config server_ip sample-IsPacket

-- The reply of an outcome that has one.
abbrev pub sent : Outcome (Option Reply) → Reply
sent (ok (some r)) = r
sent _ = record {
  bytes = [];
  destination = record { ip = server_ip; port = 0 };
  message = 0;
  boot_file = none;
  relay_option_omitted = false;
}

abbrev sample_reply : Reply
unfolding reply
sample_reply = sent (reply sample_request sample_client sample_config server_ip)

sample-sent : reply sample_request sample_client sample_config server_ip ≡ ok (some sample_reply)
unfolding reply ◌>>=◌ ensure is_unspecified is_broadcast is_multicast answer ip_option
    boot_mode_mismatch stage build start sub_slice replicate put_answer route_mode context parse_u8
    drop get_or take copy_at index bytes_eq get_files chunk_loop chunks option put_chunks
    is_malformed_request reply_message boot_file checked_mask echo encode_routes put_identity
    put_lease put_nak put_parameters put_routes put_times destination put_relay seal
    architecture_name find_architecture is_ipxe known_architecture requests stage_name user_classes
    vendor_architecture display parse_octet parse_ipv4 ip_eq decimal decimal_digits decode from_utf8
    digits_value from_str_radix is_ascii_digit parse_u16 prefix_of second_piece split split_once
    starts_with starts_with_char to_digit
sample-sent = refl

reply-IsReply_example :
    (n : ℕ) × (answer sample_request sample_client server_ip ≡ some n)
    × IsReply sample_request sample_client sample_config server_ip n sample_reply
reply-IsReply_example =
    reply-IsReply sample_request sample_client sample_config server_ip sample_reply sample-IsPacket
      sample-sent

reply-IsRead_example :
    (o : OptionMap) × (routes : Bytes) × (read_options (drop 240 sample_reply.bytes) no_options
      ≡ ok o)
    × (sample_reply.message ≢ 6 → IsRoutes sample_request sample_client sample_config routes)
    × IsRead sample_request sample_client sample_config server_ip sample_reply.message routes o
reply-IsRead_example =
    reply-IsRead sample_request sample_client sample_config server_ip sample_reply sample-IsPacket
      sample-sent

abbrev pub any_level : Bytes → Bool
any_level level = true

pub sample_config-valid : validate any_level sample_config ≡ ok tt
unfolding validate ◌>>=◌ ensure is_unspecified check_identifier is_unicast has_scheme starts_with
    has_host chars is_whitespace split_once starts_with_char valid_timezone check_addresses
    check_routes parse_route context parse_ipv4 parse_octet drop prefix_mask check_architectures
    valid_file ip_eq is_broadcast is_multicast decode is_control digits_value from_str_radix
    is_ascii_alphanumeric is_ascii_digit parse_u8 split to_digit
sample_config-valid = refl

reply-decides_example :
    ((a : Option Reply) × (reply sample_request sample_client sample_config server_ip ≡ ok a))
    ⊎ ((m : ℕ) × (576 ≤ m)
        × (reply sample_request sample_client sample_config server_ip ≡ err (response_too_long m)))
unfolding is_unicast
reply-decides_example =
    reply-decides any_level sample_config sample_request sample_client server_ip sample_config-valid
      sample-IsPacket refl
