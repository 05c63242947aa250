-- ===== src/Clients.antt =====
-- src/clients.rs: the client table that is read from a CSV file.
pub mod Row
pub mod Table
use macmapd.Base.{ℕ, ◌≡◌, Bool, Bytes, bytes_eq, bytes_eq_iff}
use macmapd.Base.Map.{Eq, Map}
use macmapd.Net.{Ipv4Addr, ip_eq, ip_eq_iff}

-- `mac` is a `[u8; 6]`.
pub record Client : Type 0 where
  pub location : Bytes
  pub mac : Bytes
  pub boot_type : Bytes
  pub hostname : Bytes
  pub domain : Bytes
  pub mtu : ℕ
  pub ip : Ipv4Addr
  pub prefix_length : ℕ
  pub gateway : Ipv4Addr

pub record Clients : Type 0 where
  pub records : Map Bytes Client
  pub by_ip : Map Ipv4Addr Bytes

instance abbrev pub bytes_Eq : Eq Bytes
bytes_Eq = record { beq = bytes_eq; beq_iff = bytes_eq_iff }

instance abbrev pub ip_Eq : Eq Ipv4Addr
ip_Eq = record { beq = ip_eq; beq_iff = ip_eq_iff }

-- The messages of `parse_client`, in the order of the source.
pub data ClientError : Type 0 where
  field_count location hostname domain boot_type mtu_number mtu_range : ClientError
  mac_shape mac_octet mac_unicast ip_address prefix_number prefix_range : ClientError
  gateway_address unicast same_subnet ip_reserved gateway_reserved same_address : ClientError
