-- ===== src/Dhcp.antt =====
-- src/dhcp.rs: reading requests and writing replies.
pub mod Options
pub mod Parse
pub mod Stage
pub mod Reply
pub mod Dump
pub mod Handshake
use macmapd.Base.{ascii, ℕ, Option, none, some, List, ◌++◌, [], Bytes, ◌==◌, if◌then◌else◌}
use macmapd.Net.{Ipv4Addr}

-- A `BTreeMap<u8, Vec<u8>>`; it is only looked up, never iterated.
abbrev pub OptionMap : Type 0
OptionMap = ℕ → Option Bytes

abbrev pub no_options : OptionMap
no_options code = none

abbrev pub or_default : Option Bytes → Bytes
or_default none = []
or_default (some v) = v

-- `options.entry(code).or_default().extend_from_slice(value)`.
abbrev pub extend_entry : OptionMap → ℕ → Bytes → OptionMap
extend_entry options code value k =
    if k == code then some (or_default (options k) ++ value) else options k

-- `header` holds the 236 bytes before the magic cookie.
pub record Packet : Type 0 where
  pub header : Bytes
  pub options : OptionMap
  pub mac : Bytes
  pub message : ℕ
  pub ciaddr : Ipv4Addr
  pub giaddr : Ipv4Addr

-- The messages of `ensure!`, `context` and `?`.
pub data DhcpError : Type 0 where
  missing_option_length : DhcpError
  truncated_option option_length : ℕ → DhcpError
  short_packet not_bootrequest bad_cookie bad_overload bad_architectures : DhcpError
  missing_message unsupported_message : DhcpError
  bad_server route_syntax route_prefix route_range route_network : DhcpError
  response_too_long : ℕ → DhcpError

unfoldable pub message_name : ℕ → Bytes
message_name value =
    if value == 1
    then ascii "discover"
    else if value == 2
    then ascii "offer"
    else if value == 3
    then ascii "request"
    else if value == 4
    then ascii "decline"
    else if value == 5
    then ascii "ack"
    else if value == 6
    then ascii "nak"
    else if value == 7
    then ascii "release"
    else if value == 8
    then ascii "inform"
    else ascii "unknown"
