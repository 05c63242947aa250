-- ===== src/Net.antt =====
-- `std::net::Ipv4Addr` as the program uses it: four octets, their value as a `u32`, the address
-- classes, and the printed form.
pub mod Display
pub mod Parse
pub mod RoundTrip
pub mod Bounds
use macmapd.Base.{
  ℕ, ◌+◌, ◌*◌, ◌≡◌, ◌↔◌, true, Bool, ◌&&◌, leb, ◌==◌, Bytes, [], ◌∷◌, IsByte, arith, from_be32,
}

pub record Ipv4Addr : Type 0 where
  pub a : ℕ
  pub b : ℕ
  pub c : ℕ
  pub d : ℕ

-- The invariant of the type `[u8; 4]`.
pub record IsAddr (ip : Ipv4Addr) : Type 0 where
  pub a_byte : IsByte ip.a
  pub b_byte : IsByte ip.b
  pub c_byte : IsByte ip.c
  pub d_byte : IsByte ip.d

abbrev pub octets : Ipv4Addr → Bytes
octets ip = ip.a ∷ ip.b ∷ ip.c ∷ ip.d ∷ []

-- `u32::from(ip)`.
abbrev pub to_u32 : Ipv4Addr → ℕ
to_u32 ip = from_be32 ip.a ip.b ip.c ip.d

abbrev pub unspecified : Ipv4Addr
unspecified = record { a = 0; b = 0; c = 0; d = 0 }

abbrev pub broadcast : Ipv4Addr
broadcast = record { a = 255; b = 255; c = 255; d = 255 }

unfoldable pub ip_eq : Ipv4Addr → Ipv4Addr → Bool
ip_eq x y = x.a == y.a && x.b == y.b && x.c == y.c && x.d == y.d

unfoldable pub is_unspecified : Ipv4Addr → Bool
unfolding ip_eq
is_unspecified ip = ip_eq ip unspecified

unfoldable pub is_broadcast : Ipv4Addr → Bool
unfolding ip_eq
is_broadcast ip = ip_eq ip broadcast

-- 224.0.0.0/4.
unfoldable pub is_multicast : Ipv4Addr → Bool
is_multicast ip = leb 224 ip.a && leb ip.a 239

pub ip_eq_refl : (x : Ipv4Addr) → ip_eq x x ≡ true
unfolding ip_eq
ip_eq_refl x = ground arith

pub ip_eq_iff : (x y : Ipv4Addr) → (ip_eq x y ≡ true) ↔ (x ≡ y)
unfolding ip_eq
ip_eq_iff x y = ground arith
