-- ===== src/Dhcp/Dump.antt =====
-- The packet log of src/dhcp.rs. This file has `classless_routes`, the text of option 121.
pub mod Routes
pub mod Values
pub mod Safe
pub mod Packet
pub mod Area
pub mod Shown
use macmapd.Base.{
  ℕ, zero, suc, ◌+◌, ◌-◌, ◌/◌, Option, none, some, List, [], ◌∷◌, ◌++◌, Bytes, length, drop, take,
  slice, replicate, get_or, ltb, ascii, if◌then◌else◌,
}
use macmapd.Text.Decimal.{decimal}
use macmapd.Net.{Ipv4Addr}
use macmapd.Net.Display.{display}

-- `Ipv4Addr::from` of four bytes.
abbrev pub addr_of : Bytes → Ipv4Addr
addr_of bytes = record {
  a = get_or bytes 0 0;
  b = get_or bytes 1 0;
  c = get_or bytes 2 0;
  d = get_or bytes 3 0;
}

-- `format!("{}/{}:{}", …)`.
abbrev pub route_text : Ipv4Addr → ℕ → Ipv4Addr → Bytes
route_text network prefix gateway =
    display network ++ (b'/' ∷ (decimal prefix ++ (b':' ∷ display gateway)))

abbrev pub network_of : ℕ → Bytes → Ipv4Addr
network_of len tail = addr_of (take len tail ++ replicate (4 - len) 0)

abbrev pub push_text : Bytes → Option (List Bytes) → Option (List Bytes)
push_text text none = none
push_text text (some texts) = some (text ∷ texts)

-- Each round takes a byte at least.
unfoldable pub route_texts : ℕ → Bytes → Option (List Bytes)
route_texts fuel [] = some []
route_texts zero (prefix ∷ tail) = none
route_texts (suc fuel) (prefix ∷ tail) =
    let len = (prefix + 7) / 8 in
    let next = route_texts fuel (drop (len + 4) tail) in
    if ltb 32 prefix
    then none
    else if ltb (length tail) (len + 4)
    then none
    else push_text (route_text (network_of len tail) prefix (addr_of (slice len (len + 4) tail)))
        next

-- `texts.join(separator)`.
unfoldable pub join : Bytes → List Bytes → Bytes
join separator [] = []
join separator (text ∷ []) = text
join separator (text ∷ next ∷ rest) = text ++ (separator ++ join separator (next ∷ rest))

abbrev pub joined : Option (List Bytes) → Option Bytes
joined none = none
joined (some texts) = some (join (ascii ", ") texts)

unfoldable pub classless_routes : Bytes → Option Bytes
unfolding route_texts join
classless_routes value = joined (route_texts (length value) value)
