-- ===== src/Clients/Row.antt =====
-- `parse_client` of src/clients.rs. A row is its list of fields.
pub mod Shape
pub mod Accepts
use macmapd.Base.{
  ℕ, ◌≡◌, Bool, true, false, ◌&&◌, ◌||◌, not, none, some, List, [], ◌∷◌, Bytes, ascii, bytes_eq,
  length, is_empty, all, leb, ltb, ◌==◌, bit_and, bit_or, get_or, if◌then◌else◌, Result, ok, err,
  ◌>>=◌, ◌>>◌, ensure, context,
}
use macmapd.Text.{split, parse_u8, parse_u16, from_str_radix}
use macmapd.Net.{Ipv4Addr, to_u32, ip_eq}
use macmapd.Net.Parse.{parse_ipv4}
use macmapd.Config.Address.{prefix_mask, not32, is_unicast}
use macmapd.Config.Names.{valid_hostname}
use macmapd.Clients.{
  Client, ClientError, field_count, location, hostname, domain, boot_type, mtu_number, mtu_range,
  mac_shape, mac_octet, mac_unicast, ip_address, prefix_number, prefix_range, gateway_address,
  unicast, same_subnet, ip_reserved, gateway_reserved, same_address,
}

-- `*byte = u8::from_str_radix(part, 16)?` for each part.
unfoldable pub parse_octets : List Bytes → Result ClientError Bytes
parse_octets [] = ok []
parse_octets (part ∷ parts) = do
  byte ← context (from_str_radix 255 16 part) mac_octet
  bytes ← parse_octets parts
  ok (byte ∷ bytes)

-- `mac != [0; 6] && mac[0] & 1 == 0`.
unfoldable pub is_unicast_mac : Bytes → Bool
is_unicast_mac mac =
    not (bytes_eq mac (0 ∷ 0 ∷ 0 ∷ 0 ∷ 0 ∷ 0 ∷ [])) && bit_and (get_or mac 0 0) 1 == 0

unfoldable pub parse_mac : Bytes → Result ClientError Bytes
parse_mac text = do
  let pieces = split b':' text
  ensure (length pieces == 6 && all (λ part. length part == 2) pieces) mac_shape
  mac ← parse_octets pieces
  ensure (is_unicast_mac mac) mac_unicast
  ok mac

-- The checks of an address and its gateway against their subnet.
unfoldable pub check_subnet : Ipv4Addr → ℕ → Ipv4Addr → Result ClientError (Unit {0})
check_subnet ip prefix_length gateway = do
  ensure (is_unicast ip && is_unicast gateway) unicast
  let mask = prefix_mask prefix_length
  let network = bit_and (to_u32 ip) mask
  let broadcast = bit_or network (not32 mask)
  let inside = λ (x : ℕ). not (x == network) && not (x == broadcast)
  ensure (bit_and (to_u32 gateway) mask == network) same_subnet
  ensure (not (ltb prefix_length 31) || inside (to_u32 ip)) ip_reserved
  ensure (not (ltb prefix_length 31) || inside (to_u32 gateway)) gateway_reserved
  ensure (not (ip_eq ip gateway)) same_address

unfoldable pub parse_client : List Bytes → Result ClientError Client
parse_client (r0 ∷ r1 ∷ r2 ∷ r3 ∷ r4 ∷ r5 ∷ r6 ∷ r7 ∷ r8 ∷ []) = do
  ensure (not (is_empty r0) && leb (length r0) 64) location
  ensure (valid_hostname r1) hostname
  ensure (valid_hostname r2) domain
  ensure (bytes_eq r3 (ascii "bios") || bytes_eq r3 (ascii "uefi")) boot_type
  mtu ← context (parse_u16 r4) mtu_number
  ensure (leb 68 mtu) mtu_range
  mac ← parse_mac r5
  ip ← context (parse_ipv4 r6) ip_address
  prefix_length ← context (parse_u8 r7) prefix_number
  ensure (leb 1 prefix_length && leb prefix_length 31) prefix_range
  gateway ← context (parse_ipv4 r8) gateway_address
  check_subnet ip prefix_length gateway
  ok (record {
    location = r0;
    mac = mac;
    boot_type = r3;
    hostname = r1;
    domain = r2;
    mtu = mtu;
    ip = ip;
    prefix_length = prefix_length;
    gateway = gateway;
  })
parse_client _ = err field_count
