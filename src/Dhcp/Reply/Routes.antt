-- ===== src/Dhcp/Reply/Routes.antt =====
-- The subnet mask and the classless routes that a reply of src/dhcp.rs gives to a client.
use macmapd.Base.{
  ℕ, ◌+◌, ◌/◌, ◌≤◌, ◌<◌, ◌≡◌, refl, sym, ap, ◌∙◌, Bool, true, List, [], ◌∷◌, ◌++◌, some, Bytes, All,
  ascii, slice, append_assoc, append-nil, leb, leb→le, ◌&&◌, ◌==◌, ==_iff, bit_and, ok, ◌>>=◌,
  ensure, context, sub_slice-ok, arith, and-eq-true,
}
use macmapd.Base.Bits.{holds_below, holds_below→holds}
use macmapd.Base.Ensures.{Ensures, Ensures-ok, Ensures-ensure, Ensures-context}
use macmapd.Text.{split_once, parse_u8}
use macmapd.Net.{Ipv4Addr, octets, to_u32}
use macmapd.Net.Parse.{parse_ipv4}
use macmapd.Config.Address.{prefix_mask, not32}
use macmapd.Config.Route.{parse_route}
use macmapd.Config.Validate.Parts.{IsRoute}
use macmapd.Dhcp.{DhcpError}
use macmapd.Dhcp.Reply.Body.{checked_mask, encode_routes}

same_mask : ℕ → Bool
unfolding prefix_mask checked_mask
same_mask p = checked_mask p == prefix_mask p

same_masks : (p : ℕ) → p < 33 → same_mask p ≡ true
unfolding same_mask holds_below
same_masks = holds_below→holds _ 33 refl

-- The mask of a reply and the mask of the configuration's checks are computed in two ways, and are
-- the same for every prefix length up to 32.
pub checked_mask-prefix_mask : (p : ℕ) → p ≤ 32 → checked_mask p ≡ prefix_mask p
unfolding same_mask
checked_mask-prefix_mask p h = (==_iff _ _).0 (same_masks p (omega arith))

-- A route of RFC 3442: the prefix length, the octets of the network that it covers, the router.
abbrev pub descriptor : Ipv4Addr → ℕ → Ipv4Addr → Bytes
descriptor net prefix gateway = prefix ∷ (slice 0 ((prefix + 7) / 8) (octets net) ++ octets gateway)

abbrev pub descriptors : (routes : List Bytes) → All IsRoute routes → Ipv4Addr → Bytes
descriptors [] h gateway = []
descriptors (route ∷ routes) h gateway =
    descriptor h.0.net h.0.prefix gateway ++ descriptors routes h.1 gateway

unchecked :
    (route : Bytes) (rest : List Bytes) (gateway : Ipv4Addr) (done a b : Bytes) (n : Ipv4Addr)
    (p : ℕ)
    → split_once (ascii "/") route ≡ some (a, b)
    → parse_ipv4 a ≡ some n
    → parse_u8 b ≡ some p
    → (leb 1 p && leb p 32) ≡ true
    → encode_routes (route ∷ rest) gateway done
      ≡ encode_routes rest gateway (done ++ descriptor n p gateway)
unfolding encode_routes ◌>>=◌ context ensure
unchecked route rest gateway done a b n p split address number range =
    let most = leb→le p 32 (and-eq-true (leb 1 p) (leb p 32) range).1 in
    rw
      (
        split,
        number,
        range,
        address,
        sub_slice-ok {E = DhcpError} (octets n) 0 ((p + 7) / 8) (omega arith) (omega arith),
      )
      refl

encode_one :
    (route : Bytes) (rest : List Bytes) (gateway : Ipv4Addr) (done : Bytes)
    → Ensures
        (λ r.
          encode_routes (route ∷ rest) gateway done
          ≡ encode_routes rest gateway (done ++ descriptor r.0 r.1 gateway))
        (parse_route route)
unfolding parse_route
encode_one route rest gateway done = Ensures-context _ _ _ λ (a, b) split.
    Ensures-context (parse_ipv4 a) _ _ λ n address. Ensures-context (parse_u8 b) _ _ λ p number.
      Ensures-ensure (leb 1 p && leb p 32) _ _ λ range.
        Ensures-ensure (bit_and (to_u32 n) (not32 (prefix_mask p)) == 0) _ _
          λ clear. Ensures-ok (unchecked route rest gateway done a b n p split address number range)

-- For routes that the configuration's check accepts, option 121 is the concatenation of their
-- RFC 3442 descriptors, in their order.
pub encode_routes-descriptors :
    (routes : List Bytes) (gateway : Ipv4Addr) (done : Bytes) (h : All IsRoute routes)
    → encode_routes routes gateway done ≡ ok (done ++ descriptors routes h gateway)
unfolding encode_routes
encode_routes-descriptors [] gateway done h = ap ok (sym (append-nil done))
encode_routes-descriptors (route ∷ routes) gateway done h =
    (encode_one route routes gateway done).at (h.0.net, h.0.prefix) h.0.reads
    ∙ encode_routes-descriptors routes gateway (done ++ descriptor h.0.net h.0.prefix gateway) h.1
    ∙ ap ok
        (append_assoc done (descriptor h.0.net h.0.prefix gateway) (descriptors routes h.1 gateway))
