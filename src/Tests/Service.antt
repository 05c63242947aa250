-- ===== src/Tests/Service.antt =====
-- The theorems on the state of the program, at a poll, a datagram and a command line.
use macmapd.Base.{
  ◌⊎◌, List, true, ◌∷◌, ascii, ◌≡◌, refl, Option, none, some, [], Bytes, ok, ◌>>=◌, ensure, context,
  index, sub_slice, copy_at, replicate, take, drop, get_or, bytes_eq, Returns,
}
use macmapd.Net.{is_unspecified, is_broadcast, is_multicast, ip_eq}
use macmapd.Dhcp.Options.{read_options, option, chunk_loop, chunks, put_chunks}
use macmapd.Dhcp.Parse.{Outcome, ip_option}
use macmapd.Dhcp.Stage.{
  boot_mode_mismatch, stage, is_ipxe, route_mode, architecture_name, find_architecture,
  known_architecture, requests, stage_name, user_classes, vendor_architecture,
}
use macmapd.Dhcp.Reply.{reply, build}
use macmapd.Dhcp.Reply.Answer.{answer, is_malformed_request, reply_message}
use macmapd.Dhcp.Reply.Body.{
  start, put_answer, boot_file, checked_mask, echo, encode_routes, put_identity, put_lease, put_nak,
  put_parameters, put_routes, put_times,
}
use macmapd.Text.{
  parse_u8, digits_value, from_str_radix, is_ascii_digit, parse_u16, prefix_of, second_piece, split,
  split_once, starts_with, starts_with_char, to_digit,
}
use macmapd.Config.{get_files}
use macmapd.Dhcp.Reply.Finish.{destination, put_relay, seal}
use macmapd.Net.Display.{display}
use macmapd.Net.Parse.{parse_octet, parse_ipv4}
use macmapd.Text.Decimal.{decimal, decimal_digits}
use macmapd.Text.Utf8.{decode, from_utf8}
use macmapd.Tests.Samples.{sample_client, sample_config, server_ip}
use macmapd.Base.Map.{get, insert}
use macmapd.Clients.{Clients}
use macmapd.Clients.Table.{Row}
use macmapd.Dhcp.Options.{read_loop, read_value}
use macmapd.Dhcp.Parse.{parse, read_overload, check_options, read_ip, xid}
use macmapd.Runtime.{Shared, new_shared}
use macmapd.Runtime.Requests.{
  record_request, count_request, prune, retain, record_response, record_duration, labels_eq,
}
use macmapd.Runtime.Sync.{not_found, Response, no_cache, poll, sync_round, load}
use macmapd.Runtime.Reachable.{IsSynced, Reaches, started, polled, Reaches-IsSynced}
use macmapd.Runtime.Retention.{Keeps, poll-Keeps}
use macmapd.Dhcp.{message_name}
use macmapd.Server.{Handled, handle, handle_packet, decide, send, respond, labels}
use macmapd.Server.Laws.{IsServed, handle-IsServed, handle-Returns}
use macmapd.Main.{parse_args, default_path}
use macmapd.Main.Commands.{
  Command, check, at_path, render, last_path, asks_check, parse_args-render,
}
use macmapd.Tests.Samples.{sample_mac, client_ip}
use macmapd.Tests.Wire.{datagram}

abbrev gone : Response
gone = record { status = 404; content_length = none; etag = none; modified = none; chunks = [] }

abbrev no_rows : Bytes → List (Option Row)
no_rows text = []

poll-Keeps_example :
    ((poll no_rows (some gone) true 7 new_shared no_cache).result ≡ ok tt)
    ⊎ Keeps new_shared no_cache (poll no_rows (some gone) true 7 new_shared no_cache)
poll-Keeps_example = poll-Keeps no_rows (some gone) true 7 new_shared no_cache

-- The saved table, a poll that fails, and a datagram.
abbrev loaded : Shared
loaded = load no_rows not_found new_shared

after_poll :
    Reaches no_rows
      (sync_round no_rows (some gone) true 7 (loaded, no_cache)).0
      (sync_round no_rows (some gone) true 7 (loaded, no_cache)).1
after_poll = polled (some gone) true 7 (started not_found)

Reaches-IsSynced_example :
    IsSynced no_rows
      (sync_round no_rows (some gone) true 7 (loaded, no_cache)).0
      (sync_round no_rows (some gone) true 7 (loaded, no_cache)).1
Reaches-IsSynced_example =
    Reaches-IsSynced no_rows (sync_round no_rows (some gone) true 7 (loaded, no_cache)).0
      (sync_round no_rows (some gone) true 7 (loaded, no_cache)).1 after_poll

abbrev one_client : Clients
one_client = record {
  records = (sample_mac, sample_client) ∷ [];
  by_ip = (client_ip, sample_mac) ∷ [];
}

abbrev serving : Shared
serving = record new_shared { snapshot = some one_client }

handle-Returns_example : Returns (handle sample_config server_ip 9 true datagram serving)
handle-Returns_example = handle-Returns sample_config server_ip 9 true datagram serving

abbrev outcome_of : Outcome Handled → Handled
outcome_of (ok h) = h
outcome_of _ = record { shared = new_shared; sent = none }

abbrev served_one : Handled
served_one = outcome_of (handle sample_config server_ip 9 true datagram serving)

datagram-handled : handle sample_config server_ip 9 true datagram serving ≡ ok served_one
unfolding handle handle_packet decide send respond labels message_name record_request count_request
    prune retain record_response record_duration labels_eq parse read_overload check_options read_ip
    xid read_options read_loop read_value get insert reply ◌>>=◌ ensure is_unspecified is_broadcast
    is_multicast answer ip_option boot_mode_mismatch stage build start sub_slice replicate
    put_answer route_mode context parse_u8 drop get_or take copy_at index bytes_eq get_files
    chunk_loop chunks option put_chunks is_malformed_request reply_message boot_file checked_mask
    echo encode_routes put_identity put_lease put_nak put_parameters put_routes put_times
    destination put_relay seal architecture_name find_architecture is_ipxe known_architecture
    requests stage_name user_classes vendor_architecture display parse_octet parse_ipv4 ip_eq
    decimal decimal_digits decode from_utf8 digits_value from_str_radix is_ascii_digit parse_u16
    prefix_of second_piece split split_once starts_with starts_with_char to_digit
datagram-handled = refl

handle-IsServed_example : IsServed sample_config server_ip datagram serving served_one
handle-IsServed_example =
    handle-IsServed sample_config server_ip 9 true datagram serving served_one datagram-handled

abbrev commands : List Command
commands = at_path (ascii "a") ∷ check ∷ at_path (ascii "b") ∷ []

parse_args-render_example :
    parse_args (render commands) ≡ ok (some (last_path default_path commands, asks_check commands))
parse_args-render_example = parse_args-render commands
