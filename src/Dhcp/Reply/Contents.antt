-- ===== src/Dhcp/Reply/Contents.antt =====
-- What each step of `reply` of src/dhcp.rs does to the header and adds to the options.
use macmapd.Base.{
  ℕ, ◌+◌, ◌≤◌, ◌≡◌, refl, sym, ap, ◌∙◌, Bool, true, false, Option, none, some, [], ◌∷◌, ◌++◌, Bytes,
  length, length-copy_at, index-ok, get_or-append_left, copy_at, Bool-cases, inl, inr, ltb,
  if◌then◌else◌, ok, ◌>>=◌, arith, ◌/◌, ◌*◌, bit_or, get_or, index, append_assoc, append-nil,
}
use macmapd.Base.Ensures.{Ensures, Ensures-ok, Ensures-bind}
use macmapd.Net.{octets, is_unspecified}
use macmapd.Clients.{Client}
use macmapd.Config.{Config}
use macmapd.Dhcp.{Packet, DhcpError}
use macmapd.Dhcp.Options.{option}
use macmapd.Dhcp.Options.Fields.{Fields, encode_all}
use macmapd.Dhcp.Stage.{RouteMode, classless, default, route_mode}
use macmapd.Dhcp.Reply.Shape.{IsShape, option-IsShape, copy_at-IsShape}
use macmapd.Dhcp.Reply.Body.{
  encode_routes, put_routes, put_routes_by, boot_file, put_answer, put_nak,
}
use macmapd.Dhcp.Reply.Finish.{put_relay, put_relay_value}
use macmapd.Dhcp.Reply.Steps.{
  cast, file_fields, file_header, lease_fields, lease_header, parameter_fields, put_file-Puts,
  put_lease-Puts, put_parameters-Puts, route_field, then_Puts,
}

-- The routes that option 121 carries.
abbrev pub IsRoutes : Packet → Client → Config → Bytes → Type 0
IsRoutes p client config routes =
    route_mode p ≡ classless
    → encode_routes config.client_options.classless_routes client.gateway [] ≡ ok routes

put_routes_by-Ensures :
    (mode : RouteMode) (client : Client) (config : Config) (out : Bytes) {h : Bytes} {fs : Fields}
    → IsShape out h fs
    → Ensures
        (λ b.
          (routes : Bytes) × (mode ≡ classless
            → encode_routes config.client_options.classless_routes client.gateway [] ≡ ok routes)
          × IsShape b h (fs ++ route_field mode client routes))
        (put_routes_by mode client config out)
put_routes_by-Ensures default client config out s =
    Ensures-ok ([], λ e. cc, option-IsShape 3 (octets client.gateway) s)
put_routes_by-Ensures classless client config out s =
    Ensures-bind _ _ λ routes e. Ensures-ok (routes, λ _. e, option-IsShape 121 routes s)

abbrev pub answer_fields : Packet → Client → Config → Bytes → Fields
answer_fields p client config routes =
    (lease_fields p config.dhcp.lease_seconds ++ parameter_fields p client config)
    ++ (route_field (route_mode p) client routes ++ file_fields config (boot_file p client config))

abbrev pub answer_header : Packet → Client → Config → Bytes → Bytes
answer_header p client config h =
    file_header config (boot_file p client config) (lease_header p client h)

pub put_answer-Ensures :
    (p : Packet) (client : Client) (config : Config) (out : Bytes) {h : Bytes} {fs : Fields}
    → IsShape out h fs
    → Ensures
        (λ b.
          (routes : Bytes) × IsRoutes p client config routes
          × IsShape b
              (answer_header p client config h)
              (fs ++ answer_fields p client config routes))
        (put_answer p client config out)
unfolding put_answer put_routes
put_answer-Ensures p client config out {h} {fs} s =
    let before =
      then_Puts (put_lease-Puts p client config.dhcp.lease_seconds)
        (put_parameters-Puts p client config) in
    Ensures-bind _ _ λ b e.
      let (routes, read, t) =
        (put_routes_by-Ensures (route_mode p) client config _ (before.shape s)).at b e in
      let a : Fields =
        lease_fields p config.dhcp.lease_seconds ++ parameter_fields p client config in
      let r = route_field (route_mode p) client routes in
      let file = boot_file p client config in
      let f = file_fields config file in
      let same = append_assoc (fs ++ a) r f ∙ append_assoc fs a (r ++ f) in
      Ensures-ok (routes, read, cast same ((put_file-Puts config file).shape t))

-- A NAK has no `ciaddr`, and sets the broadcast flag for a relay.
abbrev pub nak_header : Packet → Bytes → Bytes
nak_header p h =
    let cleared = copy_at 12 (0 ∷ 0 ∷ 0 ∷ 0 ∷ []) h in
    if is_unspecified p.giaddr
    then cleared
    else copy_at 10 (bit_or (get_or cleared 10 0) 0x80 ∷ []) cleared

pub put_nak-eq :
    (p : Packet) (out : Bytes) → 16 ≤ length out → put_nak p out ≡ ok (nak_header p out)
unfolding put_nak ◌>>=◌
put_nak-eq p out long =
    let cleared = copy_at 12 (0 ∷ 0 ∷ 0 ∷ 0 ∷ []) out in
    let n = length-copy_at 12 (0 ∷ 0 ∷ 0 ∷ 0 ∷ []) out (omega arith) in
    let e : index {E = DhcpError} cleared 10 ≡ ok (get_or cleared 10 0) =
      index-ok cleared 10 (omega (arith, n)) in
    elim (Bool-cases (is_unspecified p.giaddr)) [ inl u ↦ rw u refl | inr u ↦ rw (u, e) refl ]

pub nak_header-IsShape :
    (p : Packet) (out : Bytes) {h : Bytes} {fs : Fields}
    → IsShape out h fs
    → IsShape (nak_header p out) (nak_header p h) fs
nak_header-IsShape p out {h} {fs} s =
    let cleared = copy_at-IsShape 12 (0 ∷ 0 ∷ 0 ∷ 0 ∷ []) (omega arith) s in
    let front = copy_at 12 (0 ∷ 0 ∷ 0 ∷ 0 ∷ []) h in
    let same : get_or (copy_at 12 (0 ∷ 0 ∷ 0 ∷ 0 ∷ []) out) 10 0 ≡ get_or front 10 0 =
      ap (λ (t : Bytes). get_or t 10 0) cleared.bytes
      ∙ get_or-append_left front (encode_all fs) 10 0 (omega (arith, cleared.length_h)) in
    elim (Bool-cases (is_unspecified p.giaddr)) [
      | inl u ↦ rw u cleared
      | inr u ↦ rw (u, same) (copy_at-IsShape 10 _ (omega arith) cleared)
    ]

-- The relay's option, if it is sent back.
abbrev pub relay_value_fields : Option Bytes → Bool → Fields
relay_value_fields none omitted = []
relay_value_fields (some relay) omitted = if omitted then [] else (82, relay) ∷ []

abbrev pub relay_fields : Packet → Bool → Fields
relay_fields p omitted =
    if is_unspecified p.giaddr then [] else relay_value_fields (p.options 82) omitted

relay_choice-IsShape :
    (fits : Bool) (relay : Bytes) (out : Bytes) {h : Bytes} {fs : Fields}
    → IsShape out h fs
    → let r : Bytes × Bool = if fits then (option out 82 relay, false) else (out, true) in
      IsShape r.0 h (fs ++ (if r.1 then [] else (82, relay) ∷ []))
relay_choice-IsShape true relay out s = option-IsShape 82 relay s
relay_choice-IsShape false relay out {h} {fs} s = cast (sym (append-nil fs)) s

put_relay_value-IsShape :
    (maximum : ℕ) (relay : Option Bytes) (out : Bytes) {h : Bytes} {fs : Fields}
    → IsShape out h fs
    → IsShape
        (put_relay_value maximum relay out).0
        h
        (fs ++ relay_value_fields relay (put_relay_value maximum relay out).1)
put_relay_value-IsShape maximum none out {h} {fs} s = cast (sym (append-nil fs)) s
put_relay_value-IsShape maximum (some relay) out s =
    relay_choice-IsShape
      (ltb (length out + (length relay + (length relay + 254) / 255 * 2)) maximum) relay out s

pub put_relay-IsShape :
    (p : Packet) (maximum : ℕ) (out : Bytes) {h : Bytes} {fs : Fields}
    → IsShape out h fs
    → IsShape (put_relay p maximum out).0 h (fs ++ relay_fields p (put_relay p maximum out).1)
unfolding put_relay
put_relay-IsShape p maximum out {h} {fs} s = elim (Bool-cases (is_unspecified p.giaddr)) [
  | inl u ↦ rw u (cast (sym (append-nil fs)) s)
  | inr u ↦ rw u (put_relay_value-IsShape maximum (p.options 82) out s)
]
