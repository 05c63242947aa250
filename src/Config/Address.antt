-- ===== src/Config/Address.antt =====
-- `prefix_mask` and `is_unicast` of src/config.rs, and what they compute.
use macmapd.Base.{
  ℕ, ◌+◌, ◌-◌, ◌*◌, ◌/◌, ◌%◌, ◌^◌, ◌≤◌, ◌<◌, ◌≡◌, ◌≢◌, ◌↔◌, refl, ap, ◌∙◌, Bool, true, not, ◌&&◌,
  ltb, ◌==◌, ==_iff, if◌then◌else◌, arith, bit_and, IsU32,
}
use macmapd.Base.Bits.{holds_below, holds_below→holds, and-high_mask}
use macmapd.Net.{Ipv4Addr, is_unspecified, is_multicast, is_broadcast, unspecified}

-- `u32::MAX << k` for a shift amount of type `u8`; the hardware reads its five low bits.
abbrev pub shl_max : ℕ → ℕ
shl_max k = (2 ^ 32 - 1) * 2 ^ (k % 32) % 2 ^ 32

-- `32 - prefix` is a subtraction of `u8`.
unfoldable pub prefix_mask : ℕ → ℕ
prefix_mask prefix = if prefix == 0 then 0 else shl_max ((32 + 256 - prefix) % 256)

-- `!x` on `u32`.
abbrev pub not32 : ℕ → ℕ
not32 x = 2 ^ 32 - 1 - x

unfoldable pub is_unicast : Ipv4Addr → Bool
unfolding is_unspecified is_multicast is_broadcast
is_unicast ip =
    not (is_unspecified ip) && not (is_multicast ip) && not (is_broadcast ip) && ltb ip.a 240

mask_check : ℕ → Bool
unfolding prefix_mask
mask_check p = prefix_mask p == (2 ^ p - 1) * 2 ^ (32 - p)

mask_checks : (p : ℕ) → p < 33 → mask_check p ≡ true
unfolding mask_check holds_below
mask_checks = holds_below→holds _ 33 refl

-- A mask has `p` ones above `32 - p` zeros.
prefix_mask_lem : (p : ℕ) → p ≤ 32 → prefix_mask p ≡ (2 ^ p - 1) * 2 ^ (32 - p)
unfolding mask_check
prefix_mask_lem p h = (==_iff _ _).0 (mask_checks p (omega arith))

host_check : ℕ → Bool
unfolding prefix_mask
host_check p = not32 (prefix_mask p) == 2 ^ (32 - p) - 1

host_checks : (p : ℕ) → p < 33 → host_check p ≡ true
unfolding host_check holds_below
host_checks = holds_below→holds _ 33 refl

pub not32-prefix_mask : (p : ℕ) → p ≤ 32 → not32 (prefix_mask p) ≡ 2 ^ (32 - p) - 1
unfolding host_check
not32-prefix_mask p h = (==_iff _ _).0 (host_checks p (omega arith))

width_check : ℕ → Bool
width_check p = 2 ^ p * 2 ^ (32 - p) == 2 ^ 32

width_checks : (p : ℕ) → p < 33 → width_check p ≡ true
unfolding width_check holds_below
width_checks = holds_below→holds _ 33 refl

width_split : (p : ℕ) → p ≤ 32 → 2 ^ p * 2 ^ (32 - p) ≡ 2 ^ 32
unfolding width_check
width_split p h = (==_iff _ _).0 (width_checks p (omega arith))

-- For a 32-bit address and a prefix of at most 32 bits, masking with `prefix_mask` rounds the address
-- down to a multiple of the size of its network.
pub and-prefix_mask :
    (x p : ℕ) → IsU32 x → p ≤ 32 → bit_and x (prefix_mask p) ≡ x / 2 ^ (32 - p) * 2 ^ (32 - p)
and-prefix_mask x p hx hp =
    ap (bit_and x) (prefix_mask_lem p hp)
    ∙ and-high_mask (32 - p) p x (omega (arith, width_split p hp))

-- Exactly the addresses below 224.0.0.0, but for 0.0.0.0, are unicast.
is_unicast_iff : (ip : Ipv4Addr) → (is_unicast ip ≡ true) ↔ ((ip ≢ unspecified) × (ip.a < 224))
unfolding is_unicast
is_unicast_iff ip = ground arith
