-- ===== src/Clients/Table.antt =====
-- `Clients::parse` of src/clients.rs, over the rows that the `csv` reader returns.
pub mod Contents
pub mod Total
use macmapd.Base.{
  ℕ, ◌+◌, ◌≡◌, Bool, true, false, ◌&&◌, not, Option, none, some, List, [], ◌∷◌, Bytes, ascii,
  bytes_eq, ◌==◌, if◌then◌else◌, Result, ok, err, ◌>>=◌, ◌>>◌, ensure, map_err,
}
use macmapd.Base.Map.{get, contains_key, insert}
use macmapd.Net.{Ipv4Addr}
use macmapd.Clients.{Client, Clients, ClientError, bytes_Eq, ip_Eq}
use macmapd.Clients.Row.{parse_client}

-- A `StringRecord`: its fields, and the line that `position` gives.
pub record Row : Type 0 where
  pub fields : List Bytes
  pub position : Option ℕ

pub data TableError : Type 0 where
  csv_record : ℕ → TableError
  csv_line : ℕ → ClientError → TableError
  duplicate_mac : ℕ → TableError
  duplicate_ip : ℕ → Ipv4Addr → TableError

abbrev pub header : List Bytes
header =
    ascii "location"
    ∷ ascii "hostname"
    ∷ ascii "domain"
    ∷ ascii "boot_type"
    ∷ ascii "mtu"
    ∷ ascii "mac"
    ∷ ascii "ip"
    ∷ ascii "prefix_length"
    ∷ ascii "gateway"
    ∷ []

-- `row.iter().eq([…])`.
unfoldable pub fields_eq : List Bytes → List Bytes → Bool
fields_eq [] [] = true
fields_eq [] (y ∷ ys) = false
fields_eq (x ∷ xs) [] = false
fields_eq (x ∷ xs) (y ∷ ys) = bytes_eq x y && fields_eq xs ys

abbrev pub line_of : ℕ → Option ℕ → ℕ
line_of index none = index + 1
line_of index (some line) = line

abbrev pub no_clients : Clients
no_clients = record { records = []; by_ip = [] }

unfoldable pub add_client : ℕ → Client → Clients → Result TableError Clients
add_client line client clients = do
  ensure (not (contains_key clients.records client.mac)) (duplicate_mac line)
  ensure (not (contains_key clients.by_ip client.ip)) (duplicate_ip line client.ip)
  ok (record {
    by_ip = insert client.ip client.mac clients.by_ip;
    records = insert client.mac client clients.records;
  })

unfoldable pub is_header : ℕ → Row → Bool
is_header index row = index == 0 && fields_eq row.fields header

-- One round of the loop.
unfoldable pub add_row : ℕ → Row → Clients → Result TableError Clients
add_row index row clients = if is_header index row then ok clients else do
  let line = line_of index row.position
  client ← map_err (csv_line line) (parse_client row.fields)
  add_client line client clients

-- `none` is a row that the reader could not read.
unfoldable pub parse_rows : ℕ → Clients → List (Option Row) → Result TableError Clients
parse_rows index clients [] = ok clients
parse_rows index clients (none ∷ rows) = err (csv_record (index + 1))
parse_rows index clients (some row ∷ rows) = do
  next ← add_row index row clients
  parse_rows (index + 1) next rows

-- The reader of the `csv` crate, with `has_headers(false)`, `comment('#')` and `trim(All)`.
module _ (read_csv : Bytes → List (Option Row)) where
  unfoldable pub parse : Bytes → Result TableError Clients
  parse text = parse_rows 0 no_clients (read_csv text)
