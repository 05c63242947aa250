-- ===== src/Clients/Table/Total.antt =====
-- That `Clients::parse` of src/clients.rs comes back for every table: nothing in it panics.
use macmapd.Base.{
  ℕ, Option, none, some, List, [], ◌∷◌, Bytes, Result, ok, err, panic, stuck, map_err, ◌+◌,
}
use macmapd.Base.Ensures.{
  Total, Total-ok, Total-err, Total-ensure, Total-last, Total-if, Total-context, Total-bind,
}
use macmapd.Text.{split, parse_u8, parse_u16, from_str_radix}
use macmapd.Net.{Ipv4Addr}
use macmapd.Net.Parse.{parse_ipv4}
use macmapd.Clients.{Client, Clients, field_count, bytes_Eq, ip_Eq}
use macmapd.Clients.Row.{parse_octets, is_unicast_mac, parse_mac, check_subnet, parse_client}
use macmapd.Clients.Table.{
  Row, add_client, add_row, is_header, parse_rows, parse, csv_line, line_of, csv_record, no_clients,
}

pub Total-map_err {ℓ} :
    {E F : Type 0} {A : Type ℓ} (f : E → F) (r : Result E A) → Total r → Total (map_err f r)
unfolding map_err
Total-map_err f (ok a) t = Total-ok a
Total-map_err f (err e) t = Total-err (f e)
Total-map_err f panic t = absurd t.returns
Total-map_err f stuck t = absurd t.returns

parse_octets-Total : (parts : List Bytes) → Total (parse_octets parts)
unfolding parse_octets
parse_octets-Total [] = Total-ok []
parse_octets-Total (part ∷ parts) =
    Total-context (from_str_radix 255 16 part) _ _
      λ byte _. Total-bind _ _ (parse_octets-Total parts) λ bytes _. Total-ok (byte ∷ bytes)

parse_mac-Total : (text : Bytes) → Total (parse_mac text)
unfolding parse_mac
parse_mac-Total text = Total-ensure _ _ _ λ _.
    Total-bind _ _ (parse_octets-Total (split b':' text))
      λ mac _. Total-ensure (is_unicast_mac mac) _ _ λ _. Total-ok mac

check_subnet-Total :
    (ip : Ipv4Addr) (p : ℕ) (gateway : Ipv4Addr) → Total (check_subnet ip p gateway)
unfolding check_subnet
check_subnet-Total ip p gateway =
    Total-ensure _ _ _
      λ _. Total-ensure _ _ _ λ _. Total-ensure _ _ _ λ _. Total-ensure _ _ _ λ _. Total-last _ _

parse_client-Total : (row : List Bytes) → Total (parse_client row)
unfolding parse_client
parse_client-Total (r0 ∷ r1 ∷ r2 ∷ r3 ∷ r4 ∷ r5 ∷ r6 ∷ r7 ∷ r8 ∷ []) = Total-ensure _ _ _ λ _.
    Total-ensure _ _ _ λ _. Total-ensure _ _ _ λ _. Total-ensure _ _ _ λ _.
      Total-context (parse_u16 r4) _ _ λ mtu _. Total-ensure _ _ _ λ _.
        Total-bind _ _ (parse_mac-Total r5) λ mac _. Total-context (parse_ipv4 r6) _ _ λ ip _.
          Total-context (parse_u8 r7) _ _ λ p _. Total-ensure _ _ _ λ _.
            Total-context (parse_ipv4 r8) _ _
              λ gateway _. Total-bind _ _ (check_subnet-Total ip p gateway) λ u _. Total-ok _
parse_client-Total _ = Total-err field_count

add_client-Total :
    (line : ℕ) (client : Client) (clients : Clients) → Total (add_client line client clients)
unfolding add_client
add_client-Total line client clients = Total-ensure _ _ _ λ _. Total-ensure _ _ _ λ _. Total-ok _

add_row-Total : (index : ℕ) (row : Row) (clients : Clients) → Total (add_row index row clients)
unfolding add_row
add_row-Total index row clients =
    Total-if (is_header index row) _ _ (λ _. Total-ok clients)
      λ _.
        Total-bind _ _
          (Total-map_err (csv_line (line_of index row.position)) (parse_client row.fields)
            (parse_client-Total row.fields))
          λ client _. add_client-Total _ client clients

parse_rows-Total :
    (index : ℕ) (clients : Clients) (rows : List (Option Row))
    → Total (parse_rows index clients rows)
unfolding parse_rows
parse_rows-Total index clients [] = Total-ok clients
parse_rows-Total index clients (none ∷ rows) = Total-err (csv_record (index + 1))
parse_rows-Total index clients (some row ∷ rows) =
    Total-bind _ _ (add_row-Total index row clients)
      λ next _. parse_rows-Total (index + 1) next rows

pub parse-Total :
    (read_csv : Bytes → List (Option Row)) (text : Bytes) → Total (parse read_csv text)
unfolding parse
parse-Total read_csv text = parse_rows-Total 0 no_clients (read_csv text)
