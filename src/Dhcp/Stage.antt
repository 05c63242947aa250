-- ===== src/Dhcp/Stage.antt =====
-- `Packet::stage`, `route_mode` and `boot_mode_mismatch` of src/dhcp.rs.
pub mod Laws
use macmapd.Base.{
  ℕ, zero, suc, Bool, true, false, ◌&&◌, ◌||◌, not, Option, none, some, List, [], ◌∷◌, Bytes, ascii,
  bytes_eq, length, any, take, drop, leb, ltb, ◌==◌, if◌then◌else◌, from_be16,
}
use macmapd.Text.{starts_with, second_piece, prefix_of, parse_u16}
use macmapd.Text.Utf8.{from_utf8}
use macmapd.Clients.{Client}
use macmapd.Dhcp.{Packet, or_default}

-- The names of the boot stages and of the architectures.
pub data Stage : Type 0 where
  bios uefi ipxe os unknown : Stage

pub data Architecture : Type 0 where
  x86_64 arm64 unknown : Architecture

unfoldable pub stage_name : Stage → Bytes
stage_name bios = ascii "bios"
stage_name uefi = ascii "uefi"
stage_name ipxe = ascii "ipxe"
stage_name os = ascii "os"
stage_name Stage.unknown = ascii "unknown"

unfoldable pub architecture_name : Architecture → Bytes
architecture_name x86_64 = ascii "x86_64"
architecture_name arm64 = ascii "arm64"
architecture_name Architecture.unknown = ascii "unknown"

-- The architecture codes that are known.
unfoldable pub known_architecture : ℕ → Option (Stage × Architecture)
known_architecture v =
    if v == 0
    then some (bios, x86_64)
    else if v == 7 || v == 9
    then some (uefi, x86_64)
    else if v == 11
    then some (uefi, arm64)
    else none

-- Option 93: the first pair of bytes that is known.
unfoldable pub find_architecture : Bytes → Option (Stage × Architecture)
unfolding known_architecture
find_architecture (a ∷ b ∷ rest) = elim (known_architecture (from_be16 a b)) [
  | some found ↦ some found
  | none ↦ find_architecture rest
]
find_architecture _ = none

-- The loop over the user classes, each with its length in front.
abbrev class_is_ipxe : ℕ → Bytes → Bool
class_is_ipxe len rest = bytes_eq (take len rest) (ascii "iPXE")

unfoldable pub user_classes : ℕ → Bytes → Bool → Bool
unfolding bytes_eq
user_classes fuel [] found = found
user_classes zero (len ∷ rest) found = found
user_classes (suc fuel) (len ∷ rest) found =
    let next = user_classes fuel (drop len rest) (found || class_is_ipxe len rest) in
    if ltb (length rest) len then found else next

-- Each round takes a byte at least.
unfoldable pub is_ipxe : Bytes → Bool
unfolding user_classes
is_ipxe user = user_classes (length user) user (bytes_eq user (ascii "iPXE"))

abbrev and_then {ℓ κ} : {A : Type ℓ} {B : Type κ} → Option A → (A → Option B) → Option B
and_then none f = none
and_then (some a) f = f a

-- The architecture behind `Arch:` in the vendor class.
unfoldable pub vendor_architecture : Bytes → Option (Stage × Architecture)
unfolding known_architecture from_utf8 second_piece prefix_of parse_u16
vendor_architecture vendor = and_then (from_utf8 vendor) λ s.
    and_then (second_piece (ascii "Arch:") s)
      λ piece. and_then (prefix_of 5 piece) λ digits. and_then (parse_u16 digits) known_architecture

abbrev architectures_of : Option Bytes → Option (Stage × Architecture)
architectures_of none = none
architectures_of (some values) = find_architecture values

-- `arch.or(fallback).unwrap_or(("unknown", "unknown"))`.
abbrev detect : Option (Stage × Architecture) → Option (Stage × Architecture) → Stage × Architecture
detect (some a) fallback = a
detect none (some b) = b
detect none none = (Stage.unknown, Architecture.unknown)

abbrev is_found {ℓ} : {A : Type ℓ} → Option A → Bool
is_found none = false
is_found (some a) = true

unfoldable pub stage : Packet → Stage × Architecture
unfolding is_ipxe find_architecture vendor_architecture starts_with
stage packet =
    let ipxe_class = is_ipxe (or_default (packet.options 77)) in
    let arch = architectures_of (packet.options 93) in
    let vendor = or_default (packet.options 60) in
    let pxe = starts_with (ascii "PXEClient") vendor in
    let detected = detect arch (vendor_architecture vendor) in
    if ipxe_class || pxe || is_found arch
    then (if ipxe_class then (ipxe, detected.1) else detected)
    else (os, (detect arch none).1)

-- `matches!(stage, "bios" | "uefi")`.
abbrev pub is_firmware : Stage → Bool
is_firmware bios = true
is_firmware uefi = true
is_firmware _ = false

-- `self.options.get(&55).is_some_and(|v| v.contains(&code))`.
unfoldable pub requests : Packet → ℕ → Bool
requests packet code = any (λ c. c == code) (or_default (packet.options 55))

pub data RouteMode : Type 0 where
  classless default : RouteMode

unfoldable pub route_mode : Packet → RouteMode
unfolding requests
route_mode packet =
    if not (is_firmware (stage packet).0) && requests packet 121 then classless else default

unfoldable pub boot_mode_mismatch : Packet → Client → Bool
unfolding stage_name
boot_mode_mismatch packet client =
    is_firmware (stage packet).0 && not (bytes_eq (stage_name (stage packet).0) client.boot_type)
