-- ===== src/Dhcp/Reply/Finish.antt =====
-- The end of `reply`: the relay's option, the size limit, padding and the destination.
use macmapd.Base.{
  ℕ, ◌+◌, ◌-◌, ◌*◌, ◌/◌, Bool, true, false, not, Option, none, some, [], ◌∷◌, ◌++◌, Bytes, length,
  replicate, max, leb, ltb, ◌==◌, if◌then◌else◌, from_be16, index, ok, ◌>>=◌, ◌>>◌, ensure,
}
use macmapd.Net.{Ipv4Addr, is_unspecified, broadcast}
use macmapd.Dhcp.{Packet, response_too_long}
use macmapd.Dhcp.Options.{option}
use macmapd.Dhcp.Parse.{Outcome}

pub record SocketAddrV4 : Type 0 where
  pub ip : Ipv4Addr
  pub port : ℕ

-- Option 57, at least 576.
abbrev pub maximum_of : Option Bytes → Outcome ℕ
maximum_of none = ok 576
maximum_of (some v) = do high ← index v 0; low ← index v 1; ok (max (from_be16 high low) 576)

-- The relay's option is sent back to the relay whole, or not at all; the flag says that it was
-- left out.
abbrev pub put_relay_value : ℕ → Option Bytes → Bytes → Bytes × Bool
put_relay_value maximum none out = (out, false)
put_relay_value maximum (some relay) out =
    let encoded_size = length relay + (length relay + 254) / 255 * 2 in
    if ltb (length out + encoded_size) maximum then (option out 82 relay, false) else (out, true)

unfoldable pub put_relay : Packet → ℕ → Bytes → Bytes × Bool
put_relay packet maximum out =
    if is_unspecified packet.giaddr
    then (out, false)
    else put_relay_value maximum (packet.options 82) out

-- `bytes.push(255)`, the size check, and `bytes.resize(max(len, 300), 0)`.
unfoldable pub seal : ℕ → Bytes → Outcome Bytes
seal maximum out = do
  let bytes = out ++ (255 ∷ [])
  ensure (leb (length bytes) maximum) (response_too_long maximum)
  ok (bytes ++ replicate (300 - length bytes) 0)

unfoldable pub destination : Packet → ℕ → SocketAddrV4
destination packet message =
    if not (is_unspecified packet.giaddr)
    then record { ip = packet.giaddr; port = 67 }
    else if message == 6
    then record { ip = broadcast; port = 68 }
    else if not (is_unspecified packet.ciaddr)
    then record { ip = packet.ciaddr; port = 68 }
    else record { ip = broadcast; port = 68 }
