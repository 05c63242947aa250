-- ===== src/Tests/Exchange.antt =====
-- The theorem on an exchange with src/dhcp.rs, at a DISCOVER and a REQUEST.
use macmapd.Base.{
  ◌∷◌, if◌then◌else◌, ◌==◌, sym, ap, ◌∙◌, ◌⊎◌, ◌≤◌, err, ℕ, ◌≡◌, refl, none, some, [], ok, ◌>>=◌,
  ensure, context, index, sub_slice, copy_at, replicate, take, drop, get_or, bytes_eq,
}
use macmapd.Net.{is_unspecified, is_broadcast, is_multicast, ip_eq}
use macmapd.Dhcp.{OptionMap, no_options}
use macmapd.Dhcp.Options.{read_options, option, chunk_loop, chunks, put_chunks}
use macmapd.Dhcp.Parse.{Outcome, ip_option}
use macmapd.Dhcp.Parse.Accepts.{IsPacket}
use macmapd.Dhcp.Stage.{
  boot_mode_mismatch, stage, is_ipxe, route_mode, architecture_name, find_architecture,
  known_architecture, requests, stage_name, user_classes, vendor_architecture,
}
use macmapd.Dhcp.Reply.{Reply, reply, build}
use macmapd.Dhcp.Reply.Answer.{answer, is_malformed_request, reply_message}
use macmapd.Dhcp.Reply.Body.{
  start, put_answer, boot_file, checked_mask, echo, encode_routes, put_identity, put_lease, put_nak,
  put_parameters, put_routes, put_times,
}
use macmapd.Text.{
  parse_u8, digits_value, from_str_radix, is_ascii_digit, parse_u16, prefix_of, second_piece, split,
  split_once, starts_with, starts_with_char, to_digit,
}
use macmapd.Config.{get_files}
use macmapd.Dhcp.Reply.Finish.{destination, put_relay, seal}
use macmapd.Net.Display.{display}
use macmapd.Net.Parse.{parse_octet, parse_ipv4}
use macmapd.Text.Decimal.{decimal, decimal_digits}
use macmapd.Text.Utf8.{decode, from_utf8}
use macmapd.Config.Address.{is_unicast}
use macmapd.Dhcp.{response_too_long}
use macmapd.Tests.Samples.{sample_request, sample_client, sample_config, server_ip}
use macmapd.Base.Ensures.{ok_inj}
use macmapd.Dhcp.{Packet}
use macmapd.Dhcp.Options.{read_loop, read_value}
use macmapd.Dhcp.Handshake.{your_address, Selects, IsAck, Selects-IsAck}
use macmapd.Tests.Answers.{sent, any_level, sample-IsPacket, sample_config-valid}

abbrev discover_options : OptionMap
discover_options k = if k == 53 then some (1 ∷ []) else none

abbrev discover : Packet
discover = record sample_request { message = 1; options = discover_options }

discover-IsPacket : IsPacket discover
unfolding replicate take drop
discover-IsPacket = record {
  header_length = refl;
  mac = refl;
  ciaddr = refl;
  giaddr = refl;
  message = refl;
  known = refl;
  requested_ip = refl;
  server_id = refl;
  size = refl;
  architectures = refl;
}

abbrev offer : Reply
offer = sent (reply discover sample_client sample_config server_ip)

abbrev options_of : Outcome OptionMap → OptionMap
options_of (ok o) = o
options_of _ = no_options

abbrev found : OptionMap
found = options_of (read_options (drop 240 offer.bytes) no_options)

-- The run of the DISCOVER, and what the client reads in the OFFER.
offered :
    (reply discover sample_client sample_config server_ip ≡ ok (some offer))
    × (read_options (drop 240 offer.bytes) no_options ≡ ok found)
    × (found 54 ≡ some (10 ∷ 0 ∷ 0 ∷ 2 ∷ []))
    × (some (your_address offer) ≡ sample_request.options 50)
unfolding reply ◌>>=◌ ensure is_unspecified is_broadcast is_multicast answer ip_option
    boot_mode_mismatch stage build start sub_slice replicate put_answer route_mode context parse_u8
    drop get_or take copy_at index bytes_eq get_files chunk_loop chunks option put_chunks
    is_malformed_request reply_message boot_file checked_mask echo encode_routes put_identity
    put_lease put_nak put_parameters put_routes put_times destination put_relay seal
    architecture_name find_architecture is_ipxe known_architecture requests stage_name user_classes
    vendor_architecture display parse_octet parse_ipv4 ip_eq decimal decimal_digits decode from_utf8
    digits_value from_str_radix is_ascii_digit parse_u16 prefix_of second_piece split split_once
    starts_with starts_with_char to_digit read_options read_loop read_value
offered = (refl, refl, refl, refl)

-- The REQUEST with what the client reads in the OFFER.
sample-Selects : Selects offer sample_request
unfolding boot_mode_mismatch stage architecture_name find_architecture is_ipxe known_architecture
    requests stage_name user_classes vendor_architecture is_unspecified ip_eq context get_or index
    sub_slice bytes_eq drop take ◌>>=◌ ensure
sample-Selects =
    let (_, reads, named, address) = offered in
    record {
      is_request = refl;
      no_address = refl;
      address = sym address;
      server = λ o e. sym named ∙ ap (λ (t : OptionMap). t 54) (ok_inj (sym reads ∙ e));
    }

Selects-IsAck_example :
    ((ack : Reply) × IsAck sample_client sample_config server_ip sample_request offer ack)
    ⊎ ((m : ℕ) × (576 ≤ m)
        × (reply sample_request sample_client sample_config server_ip ≡ err (response_too_long m)))
unfolding is_unicast boot_mode_mismatch stage architecture_name find_architecture is_ipxe
    known_architecture requests stage_name user_classes vendor_architecture get_or index sub_slice
    bytes_eq drop take ◌>>=◌ ensure context
Selects-IsAck_example =
    Selects-IsAck any_level sample_config sample_client server_ip discover sample_request offer
      sample_config-valid refl discover-IsPacket refl offered.0 sample-IsPacket sample-Selects refl
