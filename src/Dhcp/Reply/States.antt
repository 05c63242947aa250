-- ===== src/Dhcp/Reply/States.antt =====
-- The client states of RFC 2131 in which a DHCPREQUEST to src/dhcp.rs is sent.
use mathlib.Core.Path.{subst}
use macmapd.Base.{
  ℕ, ◌≡◌, ◌≢◌, refl, sym, ap, ◌∙◌, Bool, true, false, ◌&&◌, ◌||◌, not, Option, none, some,
  if◌then◌else◌, Bytes, [], ◌∷◌, arith,
}
use macmapd.Net.{Ipv4Addr, ip_eq_iff, ip_eq_refl, is_unspecified}
use macmapd.Clients.{Client}
use macmapd.Dhcp.{Packet}
use macmapd.Dhcp.Parse.{ip_option, as_ip, has_length}
use macmapd.Dhcp.Reply.Answer.{is_malformed_request, differs, or_ciaddr, has_option}

-- A DHCPREQUEST for an address, by the state of the client that sends it.
pub data Asks (packet : Packet) (server : Ipv4Addr) : Ipv4Addr → Type 0 where
  selecting :
      {ip : Ipv4Addr}
      → is_unspecified packet.ciaddr ≡ true
      → ip_option packet 54 ≡ some server
      → ip_option packet 50 ≡ some ip
      → Asks packet server ip
  init_reboot :
      {ip : Ipv4Addr}
      → is_unspecified packet.ciaddr ≡ true
      → packet.options 54 ≡ none
      → ip_option packet 50 ≡ some ip
      → Asks packet server ip
  renewing :
      is_unspecified packet.ciaddr ≡ false
      → packet.options 54 ≡ none
      → packet.options 50 ≡ none
      → Asks packet server packet.ciaddr

-- What the server answers: an OFFER (2), an ACK (5) or a NAK (6).
pub data Answers (packet : Packet) (client : Client) (server : Ipv4Addr) : ℕ → Type 0 where
  offers :
      packet.message ≡ 1
      → differs (ip_option packet 54) server ≡ false
      → Answers packet client server 2
  acknowledges : packet.message ≡ 3 → Asks packet server client.ip → Answers packet client server 5
  refuses :
      {ip : Ipv4Addr}
      → packet.message ≡ 3
      → Asks packet server ip
      → ip ≢ client.ip
      → Answers packet client server 6
  informs :
      packet.message ≡ 8
      → differs (ip_option packet 54) server ≡ false
      → is_unspecified packet.ciaddr ≡ false
      → Answers packet client server 5

as_ip_lem :
    (v : Bytes) → has_length 4 (some v) ≡ true → (ip : Ipv4Addr) × (as_ip (some v) ≡ some ip)
as_ip_lem (a ∷ b ∷ c ∷ d ∷ []) h = (record { a = a; b = b; c = c; d = d }, refl)
as_ip_lem [] h = absurd (ground arith)
as_ip_lem (a ∷ []) h = absurd (ground arith)
as_ip_lem (a ∷ b ∷ []) h = absurd (ground arith)
as_ip_lem (a ∷ b ∷ c ∷ []) h = absurd (ground arith)
as_ip_lem (a ∷ b ∷ c ∷ d ∷ e ∷ xs) h = absurd (ground arith)

or_ciaddr-some :
    (o : Option Ipv4Addr) (ciaddr x : Ipv4Addr) {ip : Ipv4Addr}
    → o ≡ some x
    → or_ciaddr o ciaddr ≡ some ip
    → o ≡ some ip
or_ciaddr-some (some y) ciaddr x e r = r
or_ciaddr-some none ciaddr x e r = cc

same_server :
    (o : Option Ipv4Addr) (server x : Ipv4Addr)
    → o ≡ some x
    → differs o server ≡ false
    → o ≡ some server
same_server (some y) server x e d = ap some ((ip_eq_iff y server).0 (ground arith))
same_server none server x e d = cc

unless_eq_some :
    (u : Bool) (x : Ipv4Addr) {ip : Ipv4Addr}
    → ◌≡◌ {A = Option Ipv4Addr} (if u then none else some x) (some ip)
    → (u ≡ false) × (x ≡ ip)
unless_eq_some true x r = cc
unless_eq_some false x r = (refl, cc)

abbrev is_given : Option Bytes → Bool
is_given none = false
is_given (some v) = true

has_option-eq :
    (p : Packet) (k : ℕ) {o : Option Bytes} → p.options k ≡ o → has_option p k ≡ is_given o
has_option-eq p k e = ap is_given e

-- A well-formed request names both options and no address of its own, or no server.
malformed_lem :
    (p : Packet) (u i o : Bool)
    → is_unspecified p.ciaddr ≡ u
    → has_option p 54 ≡ i
    → has_option p 50 ≡ o
    → is_malformed_request p ≡ (not u && (o || i) || i && not o)
unfolding is_malformed_request
malformed_lem p u i o eu ei eo = rw (eu, ei, eo)

asked_unset : (u i : Bool) → (not u && (true || i) || i && not true) ≡ false → u ≡ true
asked_unset u i h = ground arith

names_no_address : (u : Bool) → (not u && (false || true) || true && not false) ≡ false → ⊥
names_no_address u h = ground arith

-- The options apart from the packet: `i` and `o` are its options 54 and 50.
pub is_malformed_request-Asks :
    (p : Packet) (server : Ipv4Addr) (i o : Option Bytes) {ip : Ipv4Addr}
    → p.options 54 ≡ i
    → p.options 50 ≡ o
    → has_length 4 i ≡ true
    → has_length 4 o ≡ true
    → differs (as_ip i) server ≡ false
    → is_malformed_request p ≡ false
    → or_ciaddr (as_ip o) p.ciaddr ≡ some ip
    → Asks p server ip
unfolding ip_option is_malformed_request
is_malformed_request-Asks p server none none ei eo hi ho d m r =
    let (set, same) = unless_eq_some (is_unspecified p.ciaddr) p.ciaddr r in
    subst (Asks p server) same (renewing set ei eo)
is_malformed_request-Asks p server none (some v) ei eo hi ho d m r =
    let (x, read) = as_ip_lem v ho in
    let e = malformed_lem p _ _ _ refl (has_option-eq p 54 ei) (has_option-eq p 50 eo) in
    init_reboot (asked_unset _ false (sym e ∙ m)) ei
      (ap as_ip eo ∙ or_ciaddr-some _ p.ciaddr x read r)
is_malformed_request-Asks p server (some w) none ei eo hi ho d m r =
    let e = malformed_lem p _ _ _ refl (has_option-eq p 54 ei) (has_option-eq p 50 eo) in
    absurd (names_no_address (is_unspecified p.ciaddr) (sym e ∙ m))
is_malformed_request-Asks p server (some w) (some v) ei eo hi ho d m r =
    let (x, read) = as_ip_lem v ho in
    let (y, read_y) = as_ip_lem w hi in
    let e = malformed_lem p _ _ _ refl (has_option-eq p 54 ei) (has_option-eq p 50 eo) in
    selecting (asked_unset _ true (sym e ∙ m)) (ap as_ip ei ∙ same_server _ server y read_y d)
      (ap as_ip eo ∙ or_ciaddr-some _ p.ciaddr x read r)

as_ip_given : (o : Option Bytes) {ip : Ipv4Addr} → as_ip o ≡ some ip → is_given o ≡ true
as_ip_given none e = cc
as_ip_given (some v) e = refl

pub asked :
    (p : Packet) (server : Ipv4Addr) {ip : Ipv4Addr}
    → Asks p server ip
    → (differs (ip_option p 54) server ≡ false)
      × (is_malformed_request p ≡ false)
      × (or_ciaddr (ip_option p 50) p.ciaddr ≡ some ip)
unfolding ip_option
asked p server (selecting u s r) = (
  rw (s, ip_eq_refl server),
  malformed_lem p true true true u (as_ip_given _ s) (as_ip_given _ r),
  rw r refl,
)
asked p server (init_reboot u s r) = (
  rw s refl,
  malformed_lem p true false true u (has_option-eq p 54 s) (as_ip_given _ r),
  rw r refl,
)
asked p server (renewing u s r) = (
  rw s refl,
  malformed_lem p false false false u (has_option-eq p 54 s) (has_option-eq p 50 r),
  rw (r, u) refl,
)
