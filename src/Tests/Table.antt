-- ===== src/Tests/Table.antt =====
-- The theorems on src/clients.rs, at a table of one client.
use macmapd.Base.{
  ◌≡◌, refl, Option, some, List, [], ◌∷◌, Bytes, ok, ◌>>=◌, ensure, context, map_err, bytes_eq,
  get_or,
}
use macmapd.Base.Map.{get, contains_key, insert}
use macmapd.Net.{is_unspecified, is_multicast, is_broadcast, ip_eq}
use macmapd.Net.Parse.{parse_ipv4, parse_octet}
use macmapd.Text.{
  parse_u8, parse_u16, digits_value, from_str_radix, is_ascii_digit, is_ascii_alphanumeric, split,
  split_once, starts_with, starts_with_char, ends_with_char, without_suffix, to_digit,
}
use macmapd.Config.Address.{prefix_mask, is_unicast}
use macmapd.Config.Names.{valid_label, valid_hostname}
use macmapd.Clients.{Clients}
use macmapd.Clients.Row.{parse_client, parse_mac, parse_octets, is_unicast_mac, check_subnet}
use macmapd.Clients.Row.Shape.{IsClient}
use macmapd.Clients.Row.Accepts.{parse_client-IsClient}
use macmapd.Clients.Table.{
  Row, header, parse, parse_rows, add_row, add_client, is_header, fields_eq, no_clients,
}
use macmapd.Clients.Table.Contents.{Holds, parse-Holds}
use macmapd.Tests.Samples.{sample_client, sample_row, sample_mac, client_ip}

sample-reads : parse_client sample_row ≡ ok sample_client
unfolding parse_client ◌>>=◌ ensure context bytes_eq get_or is_unspecified is_multicast is_broadcast
    ip_eq parse_ipv4 parse_octet parse_u8 parse_u16 digits_value from_str_radix is_ascii_digit
    is_ascii_alphanumeric split split_once starts_with starts_with_char ends_with_char
    without_suffix to_digit prefix_mask is_unicast valid_label valid_hostname parse_mac parse_octets
    is_unicast_mac check_subnet
sample-reads = refl

parse_client-IsClient_example : IsClient sample_client
parse_client-IsClient_example = parse_client-IsClient sample_row sample_client sample-reads

-- A reader that finds a header and one row in every file.
abbrev pub read_two : Bytes → List (Option Row)
read_two text =
    some (record { fields = header; position = some 1 })
    ∷ some (record { fields = sample_row; position = some 2 })
    ∷ []

abbrev pub one_client : Clients
one_client = record {
  records = (sample_mac, sample_client) ∷ [];
  by_ip = (client_ip, sample_mac) ∷ [];
}

pub two-parsed : parse read_two [] ≡ ok one_client
unfolding parse parse_rows add_row add_client is_header fields_eq ◌>>=◌ ensure bytes_eq get insert
    map_err contains_key
two-parsed = rw sample-reads refl

parse-Holds_example : Holds no_clients 0 (read_two []) one_client
parse-Holds_example = parse-Holds read_two [] one_client two-parsed
