-- ===== src/Clients/Row/Shape.antt =====
-- What a row must satisfy to become a client.
use macmapd.Base.{
  ℕ, suc, ◌+◌, ◌-◌, ◌/◌, ◌%◌, ◌^◌, ◌≤◌, ◌<◌, ◌≡◌, ◌≢◌, ◌⊎◌, refl, sym, ap, ◌∙◌, true, false, ◌&&◌,
  ◌||◌, not, List, [], ◌∷◌, Bytes, IsByte, IsU32, ascii, bytes_eq, bytes_eq_iff, length, is_empty,
  All, ltb, ◌==◌, ==_iff, bit_and, bit_or, get_or, arith, and-eq-true,
}
use macmapd.Base.Bits.{byte-and-one, or-low_mask, two_pow_pos}
use macmapd.Base.Ensures.{
  Ensures, Ensures-ok, Ensures-ensure, Ensures-context, Ensures-bind, Ensures-last,
}
use macmapd.Text.{split, from_str_radix}
use macmapd.Text.Bounds.{from_str_radix-le}
use native.Mathlib.Nat.{div-add-mod', mul-mod_left, eq_of_mul-eq-mul_right}
use macmapd.Net.{Ipv4Addr, IsAddr, to_u32, ip_eq, ip_eq_iff}
use macmapd.Config.Address.{prefix_mask, not32, is_unicast, and-prefix_mask, not32-prefix_mask}
use macmapd.Config.Names.{valid_hostname}
use macmapd.Clients.{Client}
use macmapd.Clients.Row.{parse_octets, is_unicast_mac, parse_mac, check_subnet}

-- A unicast Ethernet address.
pub record IsMac (mac : Bytes) : Type 0 where
  pub six : length mac ≡ 6
  pub bytes : All IsByte mac
  pub nonzero : mac ≢ 0 ∷ 0 ∷ 0 ∷ 0 ∷ 0 ∷ 0 ∷ []
  pub even : get_or mac 0 0 % 2 ≡ 0

-- An address that a host of a network with `k` host bits may have.
abbrev pub IsHost : ℕ → ℕ → Type 0
IsHost k x = (x % 2 ^ k ≢ 0) × (x % 2 ^ k + 1 ≢ 2 ^ k)

-- A client's address, prefix and gateway fit together.
pub record IsSubnet (ip : Ipv4Addr) (prefix : ℕ) (gateway : Ipv4Addr) : Type 0 where
  pub ip_addr : IsAddr ip
  pub gateway_addr : IsAddr gateway
  pub least : 1 ≤ prefix
  pub most : prefix ≤ 31
  pub ip_unicast : is_unicast ip ≡ true
  pub gateway_unicast : is_unicast gateway ≡ true
  pub same_network : to_u32 gateway / 2 ^ (32 - prefix) ≡ to_u32 ip / 2 ^ (32 - prefix)
  pub ip_host : prefix < 31 → IsHost (32 - prefix) (to_u32 ip)
  pub gateway_host : prefix < 31 → IsHost (32 - prefix) (to_u32 gateway)
  pub distinct : ip ≢ gateway

pub record IsClient (c : Client) : Type 0 where
  pub location_some : is_empty c.location ≡ false
  pub location_short : length c.location ≤ 64
  pub hostname : valid_hostname c.hostname ≡ true
  pub domain : valid_hostname c.domain ≡ true
  pub boot_type : (c.boot_type ≡ ascii "bios") ⊎ (c.boot_type ≡ ascii "uefi")
  pub mtu_least : 68 ≤ c.mtu
  pub mtu_most : c.mtu ≤ 65535
  pub mac : IsMac c.mac
  pub subnet : IsSubnet c.ip c.prefix_length c.gateway

parse_octets-Ensures :
    (parts : List Bytes)
    → Ensures (λ mac. (length mac ≡ length parts) × All IsByte mac) (parse_octets parts)
unfolding parse_octets
parse_octets-Ensures [] = Ensures-ok (refl, tt)
parse_octets-Ensures (part ∷ parts) = Ensures-context (from_str_radix 255 16 part) _ _ λ byte e.
    Ensures-bind (parse_octets parts) _ λ bytes e₂.
      let (n, small) = (parse_octets-Ensures parts).at bytes e₂ in
      let fits : byte ≤ 255 = from_str_radix-le 255 16 part e in
      Ensures-ok (ap suc n, (omega arith, small))

head-IsByte : (mac : Bytes) → All IsByte mac → IsByte (get_or mac 0 0)
unfolding get_or
head-IsByte [] h = omega arith
head-IsByte (x ∷ xs) h = h.0

octets-IsMac :
    (mac : Bytes) → length mac ≡ 6 → All IsByte mac → is_unicast_mac mac ≡ true → IsMac mac
unfolding is_unicast_mac
octets-IsMac mac n small u =
    let (nonzero, even) = and-eq-true (not (bytes_eq mac _)) (bit_and (get_or mac 0 0) 1 == 0) u in
    record {
      six = n;
      bytes = small;
      nonzero = λ e. ground (arith, (bytes_eq_iff mac (0 ∷ 0 ∷ 0 ∷ 0 ∷ 0 ∷ 0 ∷ [])).1 e);
      even = sym (byte-and-one (get_or mac 0 0) (head-IsByte mac small)) ∙ (==_iff _ 0).0 even;
    }

pub parse_mac-Ensures : (text : Bytes) → Ensures IsMac (parse_mac text)
unfolding parse_mac
parse_mac-Ensures text = Ensures-ensure (length (split b':' text) == 6 && _) _ _ λ shape.
    Ensures-bind (parse_octets (split b':' text)) _ λ mac e.
      Ensures-ensure (is_unicast_mac mac) _ _ λ u.
        let (n, small) = (parse_octets-Ensures (split b':' text)).at mac e in
        let six = (==_iff _ 6).0 (and-eq-true (length (split b':' text) == 6) _ shape).0 in
        Ensures-ok (octets-IsMac mac (n ∙ six) small u)

addr-IsU32 : (ip : Ipv4Addr) → IsAddr ip → IsU32 (to_u32 ip)
addr-IsU32 ip h = omega arith

-- The two reserved addresses of the network of `x`, as the code computes them.
network_lem : (x p : ℕ) → IsU32 x → p ≤ 31 → bit_and x (prefix_mask p) + x % 2 ^ (32 - p) ≡ x
network_lem x p hx hp = rw (and-prefix_mask x p hx (omega arith)) (div-add-mod' x (2 ^ (32 - p)))

broadcast_lem :
    (x p : ℕ)
    → IsU32 x
    → p ≤ 31
    → bit_or (bit_and x (prefix_mask p)) (not32 (prefix_mask p))
      ≡ bit_and x (prefix_mask p) + (2 ^ (32 - p) - 1)
broadcast_lem x p hx hp =
    rw (not32-prefix_mask p (omega arith), and-prefix_mask x p hx (omega arith))
      (or-low_mask (32 - p) _ (mul-mod_left (x / 2 ^ (32 - p)) (2 ^ (32 - p))))

-- `x` is neither the network's address nor its broadcast address.
inside-IsHost :
    (x p network broadcast : ℕ)
    → network + x % 2 ^ (32 - p) ≡ x
    → broadcast ≡ network + (2 ^ (32 - p) - 1)
    → (not (ltb p 31) || not (x == network) && not (x == broadcast)) ≡ true
    → p < 31
    → IsHost (32 - p) x
inside-IsHost x p network broadcast e f h lt = ground (arith, two_pow_pos (32 - p))

not_same : (x y : Ipv4Addr) → not (ip_eq x y) ≡ true → x ≢ y
not_same x y h e = ground (arith, (ip_eq_iff x y).1 e)

same-network :
    (x y p : ℕ)
    → IsU32 x
    → IsU32 y
    → p ≤ 31
    → bit_and y (prefix_mask p) ≡ bit_and x (prefix_mask p)
    → y / 2 ^ (32 - p) ≡ x / 2 ^ (32 - p)
same-network x y p hx hy hp e =
    let k : ℕ = 2 ^ (32 - p) in
    eq_of_mul-eq-mul_right k (two_pow_pos (32 - p)) (y / k) (x / k)
      (sym (and-prefix_mask y p hy (omega arith)) ∙ e ∙ and-prefix_mask x p hx (omega arith))

pub check_subnet-Ensures :
    (ip : Ipv4Addr) (p : ℕ) (gateway : Ipv4Addr)
    → IsAddr ip
    → IsAddr gateway
    → 1 ≤ p
    → p ≤ 31
    → Ensures (λ _. IsSubnet ip p gateway) (check_subnet ip p gateway)
unfolding check_subnet
check_subnet-Ensures ip p gateway ia ga lo hi =
    let hx = addr-IsU32 ip ia in
    let hy = addr-IsU32 gateway ga in
    Ensures-ensure (is_unicast ip && is_unicast gateway) _ _ λ both. Ensures-ensure _ _ _ λ same.
      Ensures-ensure _ _ _ λ ip_ok. Ensures-ensure _ _ _ λ gateway_ok.
        Ensures-last (not (ip_eq ip gateway)) _ λ differ.
          let (iu, gu) = and-eq-true (is_unicast ip) (is_unicast gateway) both in
          let e =
            (==_iff (bit_and (to_u32 gateway) (prefix_mask p))
                (bit_and (to_u32 ip) (prefix_mask p))).0
              same in
          record {
            ip_addr = ia;
            gateway_addr = ga;
            least = lo;
            most = hi;
            ip_unicast = iu;
            gateway_unicast = gu;
            same_network = same-network (to_u32 ip) (to_u32 gateway) p hx hy hi e;
            ip_host =
                inside-IsHost (to_u32 ip) p _ _ (network_lem (to_u32 ip) p hx hi)
                  (broadcast_lem (to_u32 ip) p hx hi) ip_ok;
            gateway_host =
                inside-IsHost (to_u32 gateway) p _ _
                  (ap (λ (t : ℕ). t + to_u32 gateway % 2 ^ (32 - p)) (sym e)
                    ∙ network_lem (to_u32 gateway) p hy hi)
                  (broadcast_lem (to_u32 ip) p hx hi) gateway_ok;
            distinct = not_same ip gateway differ;
          }
