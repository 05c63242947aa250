-- ===== src/Dhcp/Parse.antt =====
-- `Packet::parse`, `ip_option` and `xid` of src/dhcp.rs.
pub mod Accepts
use macmapd.Base.{
  ℕ, ◌+◌, Bool, true, ◌&&◌, not, Option, none, some, List, [], ◌∷◌, Bytes, bytes_eq, length,
  is_empty, any, get_or, leb, ◌==◌, ◌%◌, bit_and, if◌then◌else◌, index, sub_slice, from_be32,
  Result, ok, err, panic, ◌>>=◌, ◌>>◌, ensure, context,
}
use macmapd.Net.{Ipv4Addr}
use macmapd.Dhcp.{
  OptionMap, Packet, DhcpError, no_options, option_length, short_packet, not_bootrequest,
  bad_cookie, bad_overload, bad_architectures, missing_message, unsupported_message,
}
use macmapd.Dhcp.Options.{read_options}

abbrev pub Outcome : Type 0 → Type 0
Outcome A = Result DhcpError A

abbrev pub magic_cookie : Bytes
magic_cookie = 99 ∷ 130 ∷ 83 ∷ 99 ∷ []

-- `if overload[0] & bit != 0 { read_options(&bytes[from..to], …)?; }`.
unfoldable pub read_field : Bytes → ℕ → ℕ → Bool → OptionMap → Outcome OptionMap
read_field bytes from to wanted options =
    if wanted then (do area ← sub_slice bytes from to; read_options area options) else ok options

-- Option 52 says that the boot file field, the server name field, or both hold options too.
unfoldable pub read_overload : Bytes → OptionMap → Option Bytes → Outcome OptionMap
unfolding read_field
read_overload bytes options none = ok options
read_overload bytes options (some overload) = do
  ensure (length overload == 1 && (leb 1 (get_or overload 0 0) && leb (get_or overload 0 0) 3))
      bad_overload
  with_file ← read_field bytes 108 236 (not (bit_and (get_or overload 0 0) 1 == 0)) options
  read_field bytes 44 108 (not (bit_and (get_or overload 0 0) 2 == 0)) with_file

abbrev pub has_length : ℕ → Option Bytes → Bool
has_length len none = true
has_length len (some value) = length value == len

abbrev pub is_architectures : Option Bytes → Bool
is_architectures none = true
is_architectures (some arch) = not (is_empty arch) && length arch % 2 == 0

unfoldable pub check_options : OptionMap → Outcome (Unit {0})
check_options options = do
  ensure (has_length 1 (options 53)) (option_length 53)
  ensure (has_length 4 (options 50)) (option_length 50)
  ensure (has_length 4 (options 54)) (option_length 54)
  ensure (has_length 2 (options 57)) (option_length 57)
  ensure (is_architectures (options 93)) bad_architectures

abbrev pub first : Option Bytes → Option ℕ
first (some (b ∷ bs)) = some b
first _ = none

unfoldable pub read_ip : Bytes → ℕ → Outcome Ipv4Addr
read_ip bytes at = do
  ip ← sub_slice bytes at (at + 4)
  ok (record { a = get_or ip 0 0; b = get_or ip 1 0; c = get_or ip 2 0; d = get_or ip 3 0 })

unfoldable pub parse : Bytes → Outcome Packet
unfolding read_overload check_options read_ip
parse bytes = do
  ensure (leb 240 (length bytes)) short_packet
  op ← index bytes 0
  htype ← index bytes 1
  hlen ← index bytes 2
  ensure (op == 1 && htype == 1 && hlen == 6) not_bootrequest
  cookie ← sub_slice bytes 236 240
  ensure (bytes_eq cookie magic_cookie) bad_cookie
  area ← sub_slice bytes 240 (length bytes)
  plain ← read_options area no_options
  options ← read_overload bytes plain (plain 52)
  check_options options
  message ← context (first (options 53)) missing_message
  ensure (any (λ m. m == message) (1 ∷ 3 ∷ 4 ∷ 7 ∷ 8 ∷ [])) unsupported_message
  header ← sub_slice bytes 0 236
  mac ← sub_slice bytes 28 34
  ciaddr ← read_ip bytes 12
  giaddr ← read_ip bytes 24
  ok (record {
    header = header;
    options = options;
    mac = mac;
    message = message;
    ciaddr = ciaddr;
    giaddr = giaddr;
  })

-- An option of four bytes, as an address.
abbrev pub as_ip : Option Bytes → Option Ipv4Addr
as_ip (some (a ∷ b ∷ c ∷ d ∷ [])) = some (record { a = a; b = b; c = c; d = d })
as_ip _ = none

unfoldable pub ip_option : Packet → ℕ → Option Ipv4Addr
ip_option packet code = as_ip (packet.options code)

-- `u32::from_be_bytes(self.header[4..8])`.
unfoldable pub xid : Packet → Outcome ℕ
xid packet = do
  field ← sub_slice packet.header 4 8
  ok (from_be32 (get_or field 0 0) (get_or field 1 0) (get_or field 2 0) (get_or field 3 0))
