-- ===== src/Dhcp/Dump/Routes.antt =====
-- Option 121 of src/dhcp.rs, from the routes of the configuration to the text of the log.
use mathlib.Core.Path.{subst}
use native.Mathlib.Nat.{mod-eq_of_lt, mod-mod_of_dvd, dvd_of_mod-eq-zero}
use macmapd.Base.{
  ℕ, zero, suc, ascii, ◌+◌, ◌-◌, ◌*◌, ◌/◌, ◌%◌, ◌^◌, ◌≤◌, ◌<◌, ◌≡◌, refl, sym, ap, ◌∙◌, true, false,
  some, List, [], ◌∷◌, ◌++◌, Bytes, All, length, length-append, length-slice, drop, take, slice,
  replicate, get_or, ltb, ◌==◌, ==_iff, arith, drop-append_exact, take-append_exact, append_assoc,
  Bool, ok,
}
use macmapd.Base.Bits.{two_pow_pos, holds_below, holds_below→holds}
use macmapd.Net.{Ipv4Addr, IsAddr, octets, to_u32}
use macmapd.Config.Route.Laws.{IsNetwork, parse_route-IsNetwork}
use macmapd.Config.Validate.Parts.{IsRoute}
use macmapd.Base.Ensures.{ok_inj}
use macmapd.Dhcp.Reply.Body.{encode_routes}
use macmapd.Dhcp.Reply.Routes.{descriptor, descriptors, encode_routes-descriptors}
use macmapd.Dhcp.Dump.{addr_of, route_text, push_text, route_texts, join, joined, classless_routes}

-- For prefix lengths in a range, the size of a network is a multiple of that of its whole octets.
multiple_check : ℕ → Bool
multiple_check p = 2 ^ (32 - p) % 2 ^ (32 - 8 * ((p + 7) / 8)) == 0

multiple_checks : (p : ℕ) → p < 33 → multiple_check p ≡ true
unfolding multiple_check holds_below
multiple_checks = holds_below→holds _ 33 refl

whole_octets : (x p : ℕ) → p ≤ 32 → x % 2 ^ (32 - p) ≡ 0 → x % 2 ^ (32 - 8 * ((p + 7) / 8)) ≡ 0
unfolding multiple_check
whole_octets x p h e =
    let divides =
      dvd_of_mod-eq-zero (2 ^ (32 - 8 * ((p + 7) / 8)))
        ((==_iff _ 0).0 (multiple_checks p (omega arith))) in
    sym (mod-mod_of_dvd (2 ^ (32 - 8 * ((p + 7) / 8))) x divides)
    ∙ ap (λ (t : ℕ). t % 2 ^ (32 - 8 * ((p + 7) / 8))) e
    ∙ mod-eq_of_lt (two_pow_pos (32 - 8 * ((p + 7) / 8)))

-- The octets behind the significant ones are zero.
padded :
    (net : Ipv4Addr) (k : ℕ)
    → IsAddr net
    → 1 ≤ k
    → k ≤ 4
    → to_u32 net % 2 ^ (32 - 8 * k) ≡ 0
    → addr_of (take k (octets net) ++ replicate (4 - k) 0) ≡ net
unfolding take replicate get_or
padded net zero h lo hi e = absurd (omega arith)
padded net (suc zero) h lo hi e = ground arith
padded net (suc (suc zero)) h lo hi e = ground arith
padded net (suc (suc (suc zero))) h lo hi e = ground arith
padded net (suc (suc (suc (suc zero)))) h lo hi e = refl
padded net (suc (suc (suc (suc (suc k))))) h lo hi e = absurd (omega arith)

abbrev pub texts : (routes : List Bytes) → All IsRoute routes → Ipv4Addr → List Bytes
texts [] h gateway = []
texts (route ∷ routes) h gateway = route_text h.0.net h.0.prefix gateway ∷ texts routes h.1 gateway

length-take_octets : (k : ℕ) (net : Ipv4Addr) → k ≤ 4 → length (slice 0 k (octets net)) ≡ k
length-take_octets k net h = length-slice 0 k (octets net) h ∙ omega arith

front_lem : (k : ℕ) (xs : Bytes) → slice 0 k xs ≡ take k xs
unfolding drop
front_lem k xs = let e : k - 0 ≡ k = omega arith in ap (λ (t : ℕ). take t xs) e

four :
    (gateway : Ipv4Addr) (rest : Bytes) (n : ℕ)
    → n ≡ 4
    → addr_of (take n (octets gateway ++ rest)) ≡ gateway
unfolding take get_or
four gateway rest n e = rw e refl

-- A route with the octets `front`.
read_front :
    (front : Bytes) (gateway : Ipv4Addr) (prefix : ℕ) (rest : Bytes) (fuel : ℕ)
    → prefix ≤ 32
    → length front ≡ (prefix + 7) / 8
    → route_texts (suc fuel) (prefix ∷ ((front ++ octets gateway) ++ rest))
      ≡ push_text
          (route_text (addr_of (front ++ replicate (4 - (prefix + 7) / 8) 0)) prefix gateway)
          (route_texts fuel rest)
unfolding route_texts
read_front front gateway prefix rest fuel hi n =
    let k : ℕ = (prefix + 7) / 8 in
    let tail : Bytes = (front ++ octets gateway) ++ rest in
    let split : tail ≡ front ++ (octets gateway ++ rest) =
      append_assoc front (octets gateway) rest in
    let short : ltb 32 prefix ≡ false = ground arith in
    let m = length-append front (octets gateway) in
    let l = length-append (front ++ octets gateway) rest in
    let long : ltb (length tail) (k + 4) ≡ false = ground (arith, m, l, n) in
    let taken : take k tail ≡ front =
      ap (take k) split ∙ take-append_exact front (octets gateway ++ rest) k (sym n) in
    let given : addr_of (slice k (k + 4) tail) ≡ gateway =
      ap (λ (t : Bytes). addr_of (take (k + 4 - k) t))
        (ap (drop k) split ∙ drop-append_exact front (octets gateway ++ rest) k (sym n))
      ∙ four gateway rest (k + 4 - k) (omega arith) in
    let behind : drop (k + 4) tail ≡ rest =
      drop-append_exact (front ++ octets gateway) rest (k + 4) (omega (arith, m, n)) in
    rw (short, long, taken, given, behind) refl

read_one :
    (net gateway : Ipv4Addr) (prefix : ℕ) (rest : Bytes) (fuel : ℕ)
    → IsNetwork net prefix
    → route_texts (suc fuel) (descriptor net prefix gateway ++ rest)
      ≡ push_text (route_text net prefix gateway) (route_texts fuel rest)
read_one net gateway prefix rest fuel h =
    let k : ℕ = (prefix + 7) / 8 in
    let lo = h.least in
    let hi = h.most in
    let front : Bytes = slice 0 k (octets net) in
    let n = length-take_octets k net (omega arith) in
    let whole =
      padded net k h.is_addr (omega arith) (omega arith)
        (whole_octets (to_u32 net) prefix hi h.no_host_bits) in
    let same : front ≡ take k (octets net) = front_lem k (octets net) in
    read_front front gateway prefix rest fuel hi n
    ∙ ap (λ (t : Ipv4Addr). push_text (route_text t prefix gateway) (route_texts fuel rest))
        (ap (λ (t : Bytes). addr_of (t ++ replicate (4 - k) 0)) same ∙ whole)

read_all :
    (routes : List Bytes) (gateway : Ipv4Addr) (h : All IsRoute routes) (fuel : ℕ)
    → length (descriptors routes h gateway) ≤ fuel
    → route_texts fuel (descriptors routes h gateway) ≡ some (texts routes h gateway)
unfolding route_texts
read_all [] gateway h fuel le = refl
read_all (route ∷ routes) gateway h zero le = absurd (omega arith)
read_all (route ∷ routes) gateway h (suc fuel) le =
    let network = parse_route-IsNetwork route h.0.net h.0.prefix h.0.reads in
    let n =
      length-append (descriptor h.0.net h.0.prefix gateway) (descriptors routes h.1 gateway) in
    read_one h.0.net gateway h.0.prefix (descriptors routes h.1 gateway) fuel network
    ∙ ap (push_text (route_text h.0.net h.0.prefix gateway))
        (read_all routes gateway h.1 fuel (omega (arith, n)))

-- For routes that the configuration's check accepts, the value that `reply` puts into option 121 is
-- printed by the log as exactly these routes, each with its network, prefix length and the client's
-- gateway: no octet of a network is lost in the encoding.
pub classless_routes-descriptors :
    (routes : List Bytes) (gateway : Ipv4Addr) (h : All IsRoute routes) (value : Bytes)
    → encode_routes routes gateway [] ≡ ok value
    → classless_routes value ≡ some (join (ascii ", ") (texts routes h gateway))
unfolding classless_routes
classless_routes-descriptors routes gateway h value e =
    let same : descriptors routes h gateway ≡ value =
      ok_inj (sym (encode_routes-descriptors routes gateway [] h) ∙ e) in
    subst
      (λ (v : Bytes).
        joined (route_texts (length v) v) ≡ some (join (ascii ", ") (texts routes h gateway)))
      same
      (ap joined (read_all routes gateway h (length (descriptors routes h gateway)) (omega arith)))
