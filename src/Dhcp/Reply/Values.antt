-- ===== src/Dhcp/Reply/Values.antt =====
-- The values that the options of a reply of src/dhcp.rs have for a reader.
use macmapd.Base.{
  ℕ, ◌*◌, ◌/◌, ◌%◌, ◌^◌, ◌≡◌, refl, ap, ◌∙◌, Bool, true, ◌&&◌, not, Option, none, some, [], ◌∷◌,
  ◌++◌, Bytes, Bool-cases, inl, inr, leb, ◌==◌, if◌then◌else◌, be32, and-eq-true, append-nil,
}
use macmapd.Net.{Ipv4Addr, octets}
use macmapd.Clients.{Client}
use macmapd.Config.{Config}
use macmapd.Dhcp.{Packet, no_options}
use macmapd.Dhcp.Options.Fields.{Fields, add_all, values, entry, add_all-entry}
use macmapd.Dhcp.Stage.{RouteMode, classless, default, route_mode, requests}
use macmapd.Dhcp.Reply.Body.{boot_file, checked_mask, all_octets}
use macmapd.Dhcp.Reply.Contents.{answer_fields, relay_fields}
use macmapd.Dhcp.Reply.Steps.{
  identity_fields, lease_fields, parameter_fields, route_field, file_fields,
}
use macmapd.Dhcp.Reply.Fixed.{reply_fields}
use macmapd.Dhcp.Reply.Codes.{
  codes, is_code, codes-both, codes-if, codes-route, codes-file, identity-codes, lease-codes,
  parameter-codes, relay-codes, answer-codes, codes-optional, values-left, values-right,
  values-middle, values-nil,
}

abbrev pub file_value : Option Bytes → Bytes
file_value none = []
file_value (some file) = file

abbrev pub gateway_value : RouteMode → Client → Bytes
gateway_value default client = octets client.gateway
gateway_value classless client = []

abbrev pub routes_value : RouteMode → Bytes → Bytes
routes_value default routes = []
routes_value classless routes = routes

gateway_value_lem :
    (mode : RouteMode) (client : Client) (routes : Bytes)
    → values 3 (route_field mode client routes) ≡ gateway_value mode client
gateway_value_lem default client routes = refl
gateway_value_lem classless client routes = refl

routes_value_lem :
    (mode : RouteMode) (client : Client) (routes : Bytes)
    → values 121 (route_field mode client routes) ≡ routes_value mode routes
routes_value_lem default client routes = refl
routes_value_lem classless client routes = append-nil routes

file_value_lem :
    (config : Config) (file : Option Bytes) → values 67 (file_fields config file) ≡ file_value file
file_value_lem config none = refl
file_value_lem config (some file) = append-nil file

module _ (p : Packet) (client : Client) (config : Config) (server : Ipv4Addr) (n : ℕ)
    (routes : Bytes) (omitted : Bool) where
  abbrev pub lease : Fields
  lease = lease_fields p config.dhcp.lease_seconds

  abbrev pub parameters : Fields
  parameters = parameter_fields p client config

  abbrev pub route : Fields
  route = route_field (route_mode p) client routes

  abbrev pub file : Fields
  file = file_fields config (boot_file p client config)

  abbrev pub body : Fields
  body = if n == 6 then [] else answer_fields p client config routes

  pub reply-codes : codes is_code (reply_fields p client config server n routes omitted) ≡ true
  reply-codes =
      let a = identity-codes p client config is_code server n refl refl refl in
      let e = relay-codes p client config is_code omitted refl in
      let m =
        answer-codes p client config is_code routes refl refl refl refl refl refl refl refl refl
          refl refl refl refl refl in
      let b = codes-if is_code (n == 6) [] (answer_fields p client config routes) refl m in
      let identity = identity_fields p n server in
      codes-both is_code (identity ++ body) (relay_fields p omitted)
        (codes-both is_code identity body a b) e

  -- An option that only the answer's part can hold.
  body-values :
      (k : ℕ)
      → (not (k == 53) && (not (k == 54) && (not (k == 61) && not (k == 82)))) ≡ true
      → values k (reply_fields p client config server n routes omitted) ≡ values k body
  body-values k h =
      let (a, h₁) = and-eq-true (not (k == 53)) _ h in
      let (b, h₂) = and-eq-true (not (k == 54)) _ h₁ in
      let (c, d) = and-eq-true (not (k == 61)) (not (k == 82)) h₂ in
      values-middle k (identity_fields p n server) body (relay_fields p omitted)
        (identity-codes p client config (λ c. not (k == c)) server n a b c)
        (relay-codes p client config (λ c. not (k == c)) omitted d)

  -- What the answer's four parts hold for a code that the other three do not.
  lease-values :
      (k : ℕ)
      → codes (λ c. not (k == c)) parameters ≡ true
      → codes (λ c. not (k == c)) (route ++ file) ≡ true
      → values k (answer_fields p client config routes) ≡ values k lease
  lease-values k a b = values-left k (lease ++ parameters) _ b ∙ values-left k lease parameters a

  parameter-values :
      (k : ℕ)
      → codes (λ c. not (k == c)) lease ≡ true
      → codes (λ c. not (k == c)) (route ++ file) ≡ true
      → values k (answer_fields p client config routes) ≡ values k parameters
  parameter-values k a b = values-middle k lease parameters (route ++ file) a b

  route-values :
      (k : ℕ)
      → codes (λ c. not (k == c)) (lease ++ parameters) ≡ true
      → codes (λ c. not (k == c)) file ≡ true
      → values k (answer_fields p client config routes) ≡ values k route
  route-values k a b = values-right k (lease ++ parameters) _ a ∙ values-left k route file b

  file-values :
      (k : ℕ)
      → codes (λ c. not (k == c)) (lease ++ parameters) ≡ true
      → codes (λ c. not (k == c)) route ≡ true
      → values k (answer_fields p client config routes) ≡ values k file
  file-values k a b = values-right k (lease ++ parameters) _ a ∙ values-right k route file b

  -- A code that only the answer's part can hold, by what that part holds.
  pub answer-read :
      (k : ℕ) (v : Bytes)
      → (not (k == 53) && (not (k == 54) && (not (k == 61) && not (k == 82)))) ≡ true
      → values k (answer_fields p client config routes) ≡ v
      → add_all no_options (reply_fields p client config server n routes omitted) k
        ≡ (if n == 6 then none else entry none v)
  answer-read k v h e =
      add_all-entry (reply_fields p client config server n routes omitted) no_options k
      ∙ ap (entry none) (body-values k h)
      ∙ elim (Bool-cases (n == 6)) [ inl six ↦ rw six refl | inr other ↦ rw (other, e) refl ]

  abbrev pub identifier : Fields
  identifier = elim (p.options 61) [ none ↦ [] | some id ↦ (61, id) ∷ [] ]

  -- A code that only the identity can hold.
  identity-value :
      (k : ℕ)
      → codes (λ c. not (k == c)) (answer_fields p client config routes) ≡ true
      → not (k == 82) ≡ true
      → values k (reply_fields p client config server n routes omitted)
        ≡ values k (identity_fields p n server)
  identity-value k a b =
      values-left k (identity_fields p n server ++ body) (relay_fields p omitted)
        (relay-codes p client config (λ c. not (k == c)) omitted b)
      ∙ values-left k (identity_fields p n server) body
          (codes-if (λ c. not (k == c)) (n == 6) [] (answer_fields p client config routes) refl a)

  pub message-value : values 53 (reply_fields p client config server n routes omitted) ≡ n ∷ []
  message-value =
      identity-value 53
        (answer-codes p client config (λ c. not (53 == c)) routes refl refl refl refl refl refl refl
          refl refl refl refl refl refl refl)
        refl
      ∙ ap (λ (t : Bytes). n ∷ t)
          (values-nil 53 identifier (codes-optional (λ c. not (53 == c)) 61 (p.options 61) refl))

  pub server-value :
      values 54 (reply_fields p client config server n routes omitted) ≡ octets server
  server-value =
      identity-value 54
        (answer-codes p client config (λ c. not (54 == c)) routes refl refl refl refl refl refl refl
          refl refl refl refl refl refl refl)
        refl
      ∙ ap (λ (t : Bytes). octets server ++ t)
          (values-nil 54 identifier (codes-optional (λ c. not (54 == c)) 61 (p.options 61) refl))

  route_and_file-codes :
      (t : ℕ → Bool)
      → t 3 ≡ true
      → t 121 ≡ true
      → t 66 ≡ true
      → t 67 ≡ true
      → codes t (route ++ file) ≡ true
  route_and_file-codes t a b c d =
      codes-both t route file (codes-route t (route_mode p) client routes a b)
        (codes-file t config (boot_file p client config) c d)

  lease_and_parameter-codes :
      (t : ℕ → Bool)
      → t 51 ≡ true
      → t 58 ≡ true
      → t 59 ≡ true
      → t 1 ≡ true
      → t 12 ≡ true
      → t 15 ≡ true
      → t 26 ≡ true
      → t 101 ≡ true
      → t 6 ≡ true
      → t 42 ≡ true
      → codes t (lease ++ parameters) ≡ true
  lease_and_parameter-codes t a b c d e f g h i j =
      codes-both t lease parameters (lease-codes p client config t config.dhcp.lease_seconds a b c)
        (parameter-codes p client config t d e f g h i j)

  pub lease-value :
      values 51 (answer_fields p client config routes)
      ≡ (if p.message == 8 then [] else be32 config.dhcp.lease_seconds)
  lease-value =
      let seconds = config.dhcp.lease_seconds in
      lease-values 51
        (parameter-codes p client config (λ c. not (51 == c)) refl refl refl refl refl refl refl)
        (route_and_file-codes (λ c. not (51 == c)) refl refl refl refl)
      ∙ elim (Bool-cases (p.message == 8)) [
        | inl inform ↦ rw inform refl
        | inr other ↦ rw other (
            ap (λ (t : Bytes). be32 seconds ++ t)
              (values-nil 51
                (if leb 8 seconds
                  then (58, be32 (seconds / 2)) ∷ (59, be32 (seconds * 7 / 8 % 2 ^ 32)) ∷ []
                  else [])
                (codes-if (λ c. not (51 == c)) (leb 8 seconds) _ [] refl refl)))
      ]

  pub mask-value :
      values 1 (answer_fields p client config routes) ≡ be32 (checked_mask client.prefix_length)
  mask-value =
      let zone : Fields =
        if requests p 101 then (101, config.client_options.timezone) ∷ [] else [] in
      let servers : Fields =
        (6, all_octets config.client_options.dns)
        ∷ (42, all_octets config.client_options.ntp)
        ∷ [] in
      parameter-values 1
        (lease-codes p client config (λ c. not (1 == c)) config.dhcp.lease_seconds refl refl refl)
        (route_and_file-codes (λ c. not (1 == c)) refl refl refl refl)
      ∙ ap (λ (t : Bytes). be32 (checked_mask client.prefix_length) ++ t)
          (values-nil 1 (zone ++ servers) (
            codes-both (λ c. not (1 == c)) zone servers
              (codes-if (λ c. not (1 == c)) (requests p 101) _ [] refl refl) refl))

  pub gateway-value :
      values 3 (answer_fields p client config routes) ≡ gateway_value (route_mode p) client
  gateway-value =
      route-values 3
        (lease_and_parameter-codes (λ c. not (3 == c)) refl refl refl refl refl refl refl refl refl
          refl)
        (codes-file (λ c. not (3 == c)) config (boot_file p client config) refl refl)
      ∙ gateway_value_lem (route_mode p) client routes

  pub routes-value :
      values 121 (answer_fields p client config routes) ≡ routes_value (route_mode p) routes
  routes-value =
      route-values 121
        (lease_and_parameter-codes (λ c. not (121 == c)) refl refl refl refl refl refl refl refl
          refl refl)
        (codes-file (λ c. not (121 == c)) config (boot_file p client config) refl refl)
      ∙ routes_value_lem (route_mode p) client routes

  pub file-value :
      values 67 (answer_fields p client config routes) ≡ file_value (boot_file p client config)
  file-value =
      file-values 67
        (lease_and_parameter-codes (λ c. not (67 == c)) refl refl refl refl refl refl refl refl refl
          refl)
        (codes-route (λ c. not (67 == c)) (route_mode p) client routes refl refl)
      ∙ file_value_lem config (boot_file p client config)
