-- ===== src/Dhcp/Reply/Body.antt =====
-- The middle of `reply`: the fixed header and the options that depend on the client.
use macmapd.Base.{
  ℕ, ◌+◌, ◌-◌, ◌*◌, ◌/◌, ◌%◌, ◌^◌, Bool, true, ◌&&◌, Option, none, some, List, [], ◌∷◌, ◌++◌, Bytes,
  ascii, bytes_eq, length, be16, be32, replicate, copy_at, sub_slice, leb, ltb, ◌==◌, if◌then◌else◌,
  ok, ◌>>=◌, ◌>>◌, ensure, context, bit_or, index,
}
use macmapd.Text.{split_once, parse_u8}
use macmapd.Net.{Ipv4Addr, octets, is_unspecified}
use macmapd.Net.Display.{display}
use macmapd.Net.Parse.{parse_ipv4}
use macmapd.Clients.{Client}
use macmapd.Config.{Config, BootFiles, get_files}
use macmapd.Dhcp.{Packet, route_syntax, route_prefix, route_range, route_network}
use macmapd.Dhcp.Options.{option}
use macmapd.Dhcp.Parse.{Outcome, magic_cookie}
use macmapd.Dhcp.Stage.{
  Stage, ipxe, stage, is_firmware, architecture_name, requests, RouteMode, classless, default,
  route_mode,
}

-- `packet.header[from..to]` copied to the same place.
unfoldable pub echo : Packet → ℕ → ℕ → Bytes → Outcome Bytes
echo packet from to bytes = do
  field ← sub_slice packet.header from to
  ok (copy_at from field bytes)

-- The 240 bytes in front of the options: xid, flags and `ciaddr`, `giaddr` and `chaddr` are the
-- request's.
unfoldable pub start : Packet → Outcome Bytes
unfolding echo
start packet = do
  let empty = replicate 240 0
  b₁ ← echo packet 4 8 (copy_at 0 (2 ∷ 1 ∷ 6 ∷ []) empty)
  b₂ ← echo packet 10 16 b₁
  b₃ ← echo packet 24 44 b₂
  ok (copy_at 236 magic_cookie b₃)

-- Message type, server identifier, and the client identifier if there is one.
abbrev pub put_optional : Bytes → ℕ → Option Bytes → Bytes
put_optional out code none = out
put_optional out code (some value) = option out code value

unfoldable pub put_identity : Packet → ℕ → Ipv4Addr → Bytes → Bytes
put_identity packet message server out =
    put_optional (option (option out 53 (message ∷ [])) 54 (octets server)) 61 (packet.options 61)

-- The lease: all but an INFORM get an address and its times.
unfoldable pub put_times : ℕ → Bytes → Bytes
put_times lease out =
    if leb 8 lease
    then option (option out 58 (be32 (lease / 2))) 59 (be32 (lease * 7 / 8 % 2 ^ 32))
    else out

unfoldable pub put_lease : Packet → Client → ℕ → Bytes → Bytes
unfolding put_times
put_lease packet client lease out =
    if packet.message == 8
    then out
    else put_times lease (option (copy_at 16 (octets client.ip) out) 51 (be32 lease))

-- `u32::MAX.checked_shl(32 - u32::from(prefix)).unwrap_or(0)`.
unfoldable pub checked_mask : ℕ → ℕ
checked_mask prefix =
    let k = (2 ^ 32 + 32 - prefix) % 2 ^ 32 in if ltb k 32 then (2 ^ 32 - 1) * 2 ^ k % 2 ^ 32 else 0

abbrev pub all_octets : List Ipv4Addr → Bytes
all_octets [] = []
all_octets (ip ∷ ips) = octets ip ++ all_octets ips

unfoldable pub put_parameters : Packet → Client → Config → Bytes → Bytes
unfolding checked_mask
put_parameters packet client config out =
    let b₁ = option out 1 (be32 (checked_mask client.prefix_length)) in
    let b₂ = option b₁ 12 client.hostname in
    let b₃ = option b₂ 15 client.domain in
    let b₄ = option b₃ 26 (be16 client.mtu) in
    let b₅ = if requests packet 101 then option b₄ 101 config.client_options.timezone else b₄ in
    option (option b₅ 6 (all_octets config.client_options.dns)) 42
      (all_octets config.client_options.ntp)

-- The value of option 121, route by route.
unfoldable pub encode_routes : List Bytes → Ipv4Addr → Bytes → Outcome Bytes
encode_routes [] gateway routes = ok routes
encode_routes (route ∷ rest) gateway routes = do
  (net_text, prefix_text) ← context (split_once (ascii "/") route) route_syntax
  prefix ← context (parse_u8 prefix_text) route_prefix
  ensure (leb 1 prefix && leb prefix 32) route_range
  net ← context (parse_ipv4 net_text) route_network
  significant ← sub_slice (octets net) 0 ((prefix + 7) / 8)
  encode_routes rest gateway (routes ++ (prefix ∷ (significant ++ octets gateway)))

abbrev pub put_routes_by : RouteMode → Client → Config → Bytes → Outcome Bytes
put_routes_by default client config out = ok (option out 3 (octets client.gateway))
put_routes_by classless client config out = do
  routes ← encode_routes config.client_options.classless_routes client.gateway []
  ok (option out 121 routes)

unfoldable pub put_routes : Packet → Client → Config → Bytes → Outcome Bytes
unfolding encode_routes
put_routes packet client config out = put_routes_by (route_mode packet) client config out

-- The boot file that the stage and the client's boot type choose.
abbrev file_of : Stage → Client → Option BootFiles → Option Bytes
file_of s client none = none
file_of ipxe client (some files) = files.ipxe_file
file_of _ client (some files) =
    if bytes_eq client.boot_type (ascii "bios") then files.bios_file else files.uefi_file

abbrev wants_file : Stage → Bool
wants_file ipxe = true
wants_file s = is_firmware s

unfoldable pub boot_file : Packet → Client → Config → Option Bytes
boot_file packet client config =
    let (s, architecture) = stage packet in
    if wants_file s
    then file_of s client (get_files config.boot.architectures (architecture_name architecture))
    else none

-- `siaddr`, the `file` field if the name fits it, and options 66 and 67.
abbrev pub put_file : Config → Option Bytes → Bytes → Bytes
put_file config none out = out
put_file config (some file) out =
    let server = config.boot.tftp_server in
    let b₁ = copy_at 20 (octets server) out in
    let b₂ = if ltb (length file) 128 then copy_at 108 file b₁ else b₁ in
    option (option b₂ 66 (display server)) 67 file

-- The branch `message != 6`.
unfoldable pub put_answer : Packet → Client → Config → Bytes → Outcome Bytes
unfolding put_lease put_parameters put_routes boot_file
put_answer packet client config out = do
  let b₁ = put_lease packet client config.dhcp.lease_seconds out
  b₂ ← put_routes packet client config (put_parameters packet client config b₁)
  ok (put_file config (boot_file packet client config) b₂)

-- The branch of a NAK: no `ciaddr`, and a relay is told to broadcast.
unfoldable pub put_nak : Packet → Bytes → Outcome Bytes
put_nak packet out = do
  let cleared = copy_at 12 (0 ∷ 0 ∷ 0 ∷ 0 ∷ []) out
  if is_unspecified packet.giaddr
      then ok cleared
      else do flags ← index cleared 10; ok (copy_at 10 (bit_or flags 0x80 ∷ []) cleared)
