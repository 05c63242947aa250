-- ===== src/Dhcp/Reply/Codes.antt =====
-- Which codes the parts of a reply of src/dhcp.rs hold, and what a code's value in a list of parts is.
use macmapd.Base.{
  ℕ, ◌*◌, ◌/◌, ◌%◌, ◌^◌, ◌≡◌, ◌≢◌, refl, ap, ◌∙◌, Bool, true, false, ◌&&◌, not, Option, none, some,
  [], ◌∷◌, ◌++◌, Bytes, All, leb, ◌==◌, if◌then◌else◌, be32, and-eq-true, arith, append-nil,
}
use macmapd.Net.{Ipv4Addr, is_unspecified}
use macmapd.Clients.{Client}
use macmapd.Config.{Config}
use macmapd.Dhcp.{Packet}
use macmapd.Dhcp.Options.Fields.{Fields, values, values-append, IsCode}
use macmapd.Dhcp.Stage.{RouteMode, classless, default, route_mode, requests}
use macmapd.Dhcp.Reply.Body.{boot_file, all_octets}
use macmapd.Dhcp.Reply.Contents.{answer_fields, relay_fields, relay_value_fields}
use macmapd.Dhcp.Reply.Steps.{
  identity_fields, lease_fields, parameter_fields, route_field, file_fields,
}

-- The codes of the options, as a test on each.
abbrev pub codes : (ℕ → Bool) → Fields → Bool
codes t [] = true
codes t ((code, value) ∷ rest) = t code && codes t rest

codes-append : (t : ℕ → Bool) (a b : Fields) → codes t (a ++ b) ≡ (codes t a && codes t b)
codes-append t [] b = refl
codes-append t ((code, value) ∷ a) b = ground (arith, codes-append t a b)

pub values-nil : (k : ℕ) (f : Fields) → codes (λ c. not (k == c)) f ≡ true → values k f ≡ []
values-nil k [] h = refl
values-nil k ((code, value) ∷ f) h =
    let (a, b) = and-eq-true (not (k == code)) _ h in ground (arith, values-nil k f b)

abbrev pub is_code : ℕ → Bool
is_code c = not (c == 0) && not (c == 255)

pub codes-All : (f : Fields) → codes is_code f ≡ true → All IsCode f
codes-All [] h = tt
codes-All ((code, value) ∷ f) h =
    let (a, b) = and-eq-true (is_code code) _ h in
    let nonzero : code ≢ 0 = ground arith in
    let not_end : code ≢ 255 = ground arith in ((nonzero, not_end), codes-All f b)

pub codes-both :
    (t : ℕ → Bool) (a b : Fields) → codes t a ≡ true → codes t b ≡ true → codes t (a ++ b) ≡ true
codes-both t a b h k = codes-append t a b ∙ rw (h, k) refl

pub values-left :
    (k : ℕ) (a b : Fields) → codes (λ c. not (k == c)) b ≡ true → values k (a ++ b) ≡ values k a
values-left k a b h =
    values-append k a b
    ∙ ap (λ (t : Bytes). values k a ++ t) (values-nil k b h)
    ∙ append-nil (values k a)

pub values-right :
    (k : ℕ) (a b : Fields) → codes (λ c. not (k == c)) a ≡ true → values k (a ++ b) ≡ values k b
values-right k a b h = values-append k a b ∙ ap (λ (t : Bytes). t ++ values k b) (values-nil k a h)

pub values-middle :
    (k : ℕ) (a b c : Fields)
    → codes (λ c. not (k == c)) a ≡ true
    → codes (λ c. not (k == c)) c ≡ true
    → values k ((a ++ b) ++ c) ≡ values k b
values-middle k a b c h j = values-left k (a ++ b) c j ∙ values-right k a b h

pub codes-if :
    (t : ℕ → Bool) (b : Bool) (f g : Fields)
    → codes t f ≡ true
    → codes t g ≡ true
    → codes t (if b then f else g) ≡ true
codes-if t true f g h k = h
codes-if t false f g h k = k

pub codes-optional :
    (t : ℕ → Bool) (c : ℕ) (o : Option Bytes)
    → t c ≡ true
    → codes t (elim o [ none ↦ [] | some v ↦ (c, v) ∷ [] ]) ≡ true
codes-optional t c none h = refl
codes-optional t c (some v) h = rw h refl

codes-relay :
    (t : ℕ → Bool) (o : Option Bytes) (omitted : Bool)
    → t 82 ≡ true
    → codes t (relay_value_fields o omitted) ≡ true
codes-relay t none omitted h = refl
codes-relay t (some v) true h = refl
codes-relay t (some v) false h = rw h refl

pub codes-route :
    (t : ℕ → Bool) (mode : RouteMode) (client : Client) (routes : Bytes)
    → t 3 ≡ true
    → t 121 ≡ true
    → codes t (route_field mode client routes) ≡ true
codes-route t default client routes a b = rw a refl
codes-route t classless client routes a b = rw b refl

pub codes-file :
    (t : ℕ → Bool) (config : Config) (file : Option Bytes)
    → t 66 ≡ true
    → t 67 ≡ true
    → codes t (file_fields config file) ≡ true
codes-file t config none a b = refl
codes-file t config (some file) a b = rw (a, b) refl

-- A test of all the codes that a part of the reply can hold.
module _ (p : Packet) (client : Client) (config : Config) (t : ℕ → Bool) where
  pub identity-codes :
      (server : Ipv4Addr) (n : ℕ)
      → t 53 ≡ true
      → t 54 ≡ true
      → t 61 ≡ true
      → codes t (identity_fields p n server) ≡ true
  identity-codes server n a b c = rw (a, b) (codes-optional t 61 (p.options 61) c)

  pub lease-codes :
      (lease : ℕ) → t 51 ≡ true → t 58 ≡ true → t 59 ≡ true → codes t (lease_fields p lease) ≡ true
  lease-codes lease a b c =
      let times =
        codes-if t (leb 8 lease) ((58, be32 (lease / 2)) ∷ (59, be32 (lease * 7 / 8 % 2 ^ 32)) ∷ [])
          [] (rw (b, c) refl) refl in
      codes-if t (p.message == 8) [] _ refl (rw a times)

  pub parameter-codes :
      t 1 ≡ true
      → t 12 ≡ true
      → t 15 ≡ true
      → t 26 ≡ true
      → t 101 ≡ true
      → t 6 ≡ true
      → t 42 ≡ true
      → codes t (parameter_fields p client config) ≡ true
  parameter-codes a b c d e f g =
      let zone : Fields = (101, config.client_options.timezone) ∷ [] in
      let servers : Fields =
        (6, all_octets config.client_options.dns)
        ∷ (42, all_octets config.client_options.ntp)
        ∷ [] in
      let wanted = codes-if t (requests p 101) zone [] (rw e refl) refl in
      rw (a, b, c, d, codes-append t (if requests p 101 then zone else []) servers, wanted, f, g)
        refl

  pub relay-codes : (omitted : Bool) → t 82 ≡ true → codes t (relay_fields p omitted) ≡ true
  relay-codes omitted a =
      codes-if t (is_unspecified p.giaddr) [] _ refl (codes-relay t (p.options 82) omitted a)

  -- All that an OFFER or an ACK holds behind its identity.
  pub answer-codes :
      (routes : Bytes)
      → t 51 ≡ true
      → t 58 ≡ true
      → t 59 ≡ true
      → t 1 ≡ true
      → t 12 ≡ true
      → t 15 ≡ true
      → t 26 ≡ true
      → t 101 ≡ true
      → t 6 ≡ true
      → t 42 ≡ true
      → t 3 ≡ true
      → t 121 ≡ true
      → t 66 ≡ true
      → t 67 ≡ true
      → codes t (answer_fields p client config routes) ≡ true
  answer-codes routes a b c d e f g h i j k l m n =
      let lease = lease_fields p config.dhcp.lease_seconds in
      let parameters = parameter_fields p client config in
      let route = route_field (route_mode p) client routes in
      let file = file_fields config (boot_file p client config) in
      codes-both t (lease ++ parameters) (route ++ file)
        (codes-both t lease parameters (lease-codes config.dhcp.lease_seconds a b c)
          (parameter-codes d e f g h i j))
        (codes-both t route file (codes-route t (route_mode p) client routes k l)
          (codes-file t config (boot_file p client config) m n))
