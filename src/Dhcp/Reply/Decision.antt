-- ===== src/Dhcp/Reply/Decision.antt =====
-- Which requests `reply` of src/dhcp.rs answers, and how, by the client states of RFC 2131.
use mathlib.Core.Path.{subst}
use macmapd.Base.{
  ℕ, ◌≡◌, ◌↔◌, ◌⊎◌, inl, inr, refl, Bool, true, false, ◌&&◌, not, Option, none, some, ◌==◌,
  if◌then◌else◌, Bool-cases, ==_iff, arith,
}
use macmapd.Net.{Ipv4Addr, ip_eq, ip_eq_iff, ip_eq_refl}
use macmapd.Clients.{Client}
use macmapd.Dhcp.{Packet}
use macmapd.Dhcp.Parse.{ip_option}
use macmapd.Dhcp.Parse.Accepts.{IsPacket}
use macmapd.Dhcp.Stage.{boot_mode_mismatch}
use macmapd.Dhcp.Reply.Answer.{answer, reply_message, is_malformed_request, differs, ack_or_nak}
use macmapd.Dhcp.Reply.States.{
  acknowledges, offers, refuses, informs, Answers, Asks, asked, is_malformed_request-Asks,
}

unless-eq-some :
    (b : Bool) (o : Option ℕ) {n : ℕ}
    → (if b then none else o) ≡ some n
    → (b ≡ false) × (o ≡ some n)
unless-eq-some true o e = cc
unless-eq-some false o e = (refl, e)

-- The value of an `if` chain tells which of its tests held.
chosen :
    (one three eight set : Bool) (o : Option ℕ) {n : ℕ}
    → (if one then some 2 else if three then o else if eight && set then some 5 else none) ≡ some n
    → ((one ≡ true) × (2 ≡ n))
      ⊎ ((three ≡ true) × (o ≡ some n))
      ⊎ ((eight ≡ true) × (set ≡ true) × (5 ≡ n))
chosen true three eight set o e = inl (refl, cc)
chosen false true eight set o e = inr (inl (refl, e))
chosen false false true true o e = inr (inr (refl, refl, cc))
chosen false false true false o e = cc
chosen false false false set o e = cc

chosen_ack :
    (m : Bool) (o : Option Ipv4Addr) (x : Ipv4Addr) {n : ℕ}
    → (if m then none else ack_or_nak o x) ≡ some n
    → (m ≡ false) × (ip : Ipv4Addr) × (o ≡ some ip) × ((if ip_eq ip x then 5 else 6) ≡ n)
chosen_ack true o x e = cc
chosen_ack false none x e = cc
chosen_ack false (some ip) x e = (refl, ip, refl, cc)

ack_or_nak-Answers :
    (p : Packet) (client : Client) (server ip : Ipv4Addr) (same : Bool) {n : ℕ}
    → p.message ≡ 3
    → Asks p server ip
    → ip_eq ip client.ip ≡ same
    → (if same then 5 else 6) ≡ n
    → Answers p client server n
ack_or_nak-Answers p client server ip true three a s e =
    subst (Answers p client server) e
      (acknowledges three (subst (Asks p server) ((ip_eq_iff ip client.ip).0 s) a))
ack_or_nak-Answers p client server ip false three a s e = subst (Answers p client server) e (
    refuses three a
      λ same. let t : ip_eq ip client.ip ≡ true = (ip_eq_iff ip client.ip).1 same in cc)

not-false : {b : Bool} → not b ≡ true → b ≡ false
not-false {b} h = ground arith

reply_message-Answers :
    (p : Packet) (client : Client) (server : Ipv4Addr) {n : ℕ}
    → IsPacket p
    → differs (ip_option p 54) server ≡ false
    → reply_message p client ≡ some n
    → Answers p client server n
unfolding reply_message ip_option
reply_message-Answers p client server w d e =
    elim (chosen (p.message == 1) (p.message == 3) (p.message == 8) _ _ e) [
      | inl (one, n) ↦ subst (Answers p client server) n (offers ((==_iff p.message 1).0 one) d)
      | inr (inl (three, f)) ↦
          let (m, ip, r, n) = chosen_ack (is_malformed_request p) _ client.ip f in
          let a =
            is_malformed_request-Asks p server _ _ refl refl w.server_id w.requested_ip d m r in
          ack_or_nak-Answers p client server ip _ ((==_iff p.message 3).0 three) a refl n
      | inr (inr (eight, set, n)) ↦
          subst (Answers p client server) n
            (informs ((==_iff p.message 8).0 eight) d (not-false set))
    ]

Answers-reply_message :
    (p : Packet) (client : Client) (server : Ipv4Addr) {n : ℕ}
    → Answers p client server n
    → (differs (ip_option p 54) server ≡ false) × (reply_message p client ≡ some n)
unfolding reply_message ip_option
Answers-reply_message p client server (offers m d) = (d, rw m refl)
Answers-reply_message p client server (informs m d u) = (d, rw (m, u) refl)
Answers-reply_message p client server (acknowledges m a) =
    let (d, f, r) = asked p server a in (d, rw (m, f, r, ip_eq_refl client.ip) refl)
Answers-reply_message p client server (refuses {ip} m a other) =
    let (d, f, r) = asked p server a in
    let t : ip_eq ip client.ip ≡ false = elim (Bool-cases (ip_eq ip client.ip)) [
      | inl s ↦ absurd (other ((ip_eq_iff ip client.ip).0 s))
      | inr s ↦ s
    ] in
    (d, rw (m, f, r, t) refl)

-- A request is answered with the message `n` just when the client's firmware fits its boot type and
-- the client is in a state of RFC 2131 in which `n` is the answer: an OFFER of a DISCOVER, an ACK
-- of a request for the client's configured address, a NAK of a request for another one, and an ACK
-- of an INFORM with an address; the request names no other server.
pub answer_iff :
    (p : Packet) (client : Client) (server : Ipv4Addr) (n : ℕ)
    → IsPacket p
    → (answer p client server ≡ some n)
      ↔ ((boot_mode_mismatch p client ≡ false) × Answers p client server n)
unfolding answer
answer_iff p client server n w = (
  λ e.
      let (d, f) = unless-eq-some (differs (ip_option p 54) server) _ e in
      let (b, g) = unless-eq-some (boot_mode_mismatch p client) _ f in
      (b, reply_message-Answers p client server w d g),
  λ (b, a). let (d, e) = Answers-reply_message p client server a in rw (d, b) e,
)
