-- ===== src/Config/Route/Laws.antt =====
-- What `parse_route` of src/config.rs accepts, and its reading of printed networks.
use macmapd.Base.{
  ℕ, ◌-◌, ◌%◌, ◌^◌, ◌≤◌, ◌<◌, ◌≡◌, refl, ap, sym, ◌∙◌, Bool, true, false, ◌&&◌, Option, none, some,
  ◌∷◌, ◌++◌, Bytes, leb, leb→le, le→leb, ◌==◌, ==_iff, bit_and, ok, ◌>>=◌, ensure, context, arith,
  and-eq-true,
}
use macmapd.Base.Ensures.{Ensures, Ensures-ok, Ensures-ensure, Ensures-context}
use macmapd.Base.Bits.{and-low_mask, holds_below, holds_below→holds}
use macmapd.Text.{parse_u8}
use macmapd.Text.Decimal.{decimal}
use macmapd.Text.Split.{split_once-append}
use macmapd.Net.{Ipv4Addr, IsAddr, to_u32}
use macmapd.Net.Display.{display}
use macmapd.Net.Parse.{parse_ipv4}
use macmapd.Net.Bounds.{parse_ipv4-IsAddr}
use macmapd.Net.RoundTrip.{parse_ipv4-display, lacks-display}
use macmapd.Config.Address.{prefix_mask, not32, not32-prefix_mask}
use macmapd.Config.Route.{parse_route}

-- A network in canonical form: a prefix of 1 to 32 bits, and no host bit set.
pub record IsNetwork (net : Ipv4Addr) (prefix : ℕ) : Type 0 where
  pub is_addr : IsAddr net
  pub least : 1 ≤ prefix
  pub most : prefix ≤ 32
  pub no_host_bits : to_u32 net % 2 ^ (32 - prefix) ≡ 0

host_bits_lem : (x p : ℕ) → p ≤ 32 → bit_and x (not32 (prefix_mask p)) ≡ x % 2 ^ (32 - p)
host_bits_lem x p h = ap (bit_and x) (not32-prefix_mask p h) ∙ and-low_mask (32 - p) x

network :
    (n : Ipv4Addr) (p : ℕ)
    → IsAddr n
    → (leb 1 p && leb p 32) ≡ true
    → (bit_and (to_u32 n) (not32 (prefix_mask p)) == 0) ≡ true
    → IsNetwork n p
network n p h range clear =
    let (lo, hi) = and-eq-true (leb 1 p) (leb p 32) range in
    let hi' : p ≤ 32 = leb→le p 32 hi in
    record {
      is_addr = h;
      least = leb→le 1 p lo;
      most = hi';
      no_host_bits = sym (host_bits_lem (to_u32 n) p hi') ∙ (==_iff _ 0).0 clear;
    }

parse_route-Ensures : (route : Bytes) → Ensures (λ r. IsNetwork r.0 r.1) (parse_route route)
unfolding parse_route
parse_route-Ensures route = Ensures-context _ _ _ λ (a, b) _.
    Ensures-context (parse_ipv4 a) _ _ λ n address. Ensures-context (parse_u8 b) _ _ λ p _.
      Ensures-ensure (leb 1 p && leb p 32) _ _ λ range.
        Ensures-ensure (bit_and (to_u32 n) (not32 (prefix_mask p)) == 0) _ _
          λ clear. Ensures-ok (network n p (parse_ipv4-IsAddr a address) range clear)

-- What `parse_route` returns is a network in canonical form.
pub parse_route-IsNetwork :
    (route : Bytes) (net : Ipv4Addr) (prefix : ℕ)
    → parse_route route ≡ ok (net, prefix)
    → IsNetwork net prefix
parse_route-IsNetwork route net prefix = (parse_route-Ensures route).at (net, prefix)

prefix_check : ℕ → Bool
unfolding parse_u8 decimal
prefix_check p = elim (parse_u8 (decimal p)) [ none ↦ false | some q ↦ q == p ]

prefix_checks : (p : ℕ) → p < 33 → prefix_check p ≡ true
unfolding prefix_check holds_below
prefix_checks = holds_below→holds _ 33 refl

parse_u8-decimal : (p : ℕ) → p ≤ 32 → parse_u8 (decimal p) ≡ some p
parse_u8-decimal p h =
    from_check (parse_u8 (decimal p)) refl (unfold prefix_check in prefix_checks p (omega arith))
  where
    from_check :
        (o : Option ℕ)
        → parse_u8 (decimal p) ≡ o
        → elim o [ none ↦ false | some q ↦ q == p ] ≡ true
        → parse_u8 (decimal p) ≡ some p
    from_check none e h = cc
    from_check (some q) e h = ground arith

-- Every canonical network is read back from its printed form.
pub parse_route-display :
    (net : Ipv4Addr) (prefix : ℕ)
    → IsNetwork net prefix
    → parse_route (display net ++ b'/' ∷ decimal prefix) ≡ ok (net, prefix)
unfolding parse_route ◌>>=◌ ensure context
parse_route-display net prefix h =
    rw (split_once-append (display net) (decimal prefix) (lacks-display net h.is_addr)) (
      rw (
        parse_ipv4-display net h.is_addr,
        parse_u8-decimal prefix h.most,
        host_bits_lem (to_u32 net) prefix h.most,
        le→leb 1 prefix h.least,
        le→leb prefix 32 h.most,
        h.no_host_bits,
      ))
