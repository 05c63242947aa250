-- ===== src/Server/Laws.antt =====
-- What the loop of `serve` of src/dhcp.rs does to the shared state, and to whom it answers.
use mathlib.Core.Path.{subst}
use macmapd.Base.{
  ℕ, ◌≡◌, refl, ap, ◌∙◌, Bool, true, false, Option, none, some, Bytes, ok, err, panic, stuck,
  Returns, arith, Total-sub_slice, Bool-cases, inl, inr,
}
use macmapd.Base.Ensures.{Ensures, Ensures-ok, Ensures-bind, Total, Total-ok, Total-bind}
use macmapd.Net.{Ipv4Addr}
use macmapd.Config.{Config}
use macmapd.Clients.{Client}
use macmapd.Dhcp.{Packet}
use macmapd.Dhcp.Parse.{Outcome, parse, xid}
use macmapd.Dhcp.Parse.Accepts.{IsPacket, parse-IsPacket, parse-Returns}
use macmapd.Dhcp.Stage.{boot_mode_mismatch}
use macmapd.Dhcp.Reply.{Reply}
use macmapd.Dhcp.Reply.Total.{reply-Returns}
use macmapd.Runtime.{Shared, bump}
use macmapd.Runtime.Requests.{record_request, record_response, record_duration}
use macmapd.Server.{
  Handled, malformed, find_client, labels, decide, send, respond, handle_packet, handle_parsed,
  handle,
}
use macmapd.Server.Due.{IsDue, decide-IsDue, decide-Same, responses_after}

-- What one datagram does.
pub record Serves (config : Config) (server : Ipv4Addr) (p : Packet) (client : Option Client)
    (s : Shared) (h : Handled) : Type 0 where
  pub snapshot : h.shared.snapshot ≡ s.snapshot
  pub requests : h.shared.requests ≡ s.requests
  pub responses : h.shared.responses ≡ responses_after h.sent s.responses
  pub due : (r : Reply) → h.sent ≡ some r → IsDue config server p client r

send-Serves :
    (sent omitted : Bool) (config : Config) (server : Ipv4Addr) (p : Packet)
    (client : Option Client) (s : Shared) (r : Reply)
    → r.relay_option_omitted ≡ omitted
    → IsDue config server p client r
    → Serves config server p client s (send sent r s)
unfolding send record_response
send-Serves true true config server p client s r e d = rw e (record {
  snapshot = refl;
  requests = refl;
  responses = refl;
  due = λ t same. let one : r ≡ t = cc in subst (IsDue config server p client) one d;
})
send-Serves true false config server p client s r e d = rw e (record {
  snapshot = refl;
  requests = refl;
  responses = refl;
  due = λ t same. let one : r ≡ t = cc in subst (IsDue config server p client) one d;
})
send-Serves false true config server p client s r e d =
    rw e (record { snapshot = refl; requests = refl; responses = refl; due = λ t same. cc })
send-Serves false false config server p client s r e d =
    rw e (record { snapshot = refl; requests = refl; responses = refl; due = λ t same. cc })

respond-Ensures :
    (sent : Bool) (config : Config) (server : Ipv4Addr) (p : Packet) (client : Option Client)
    (s : Shared) (o : Outcome (Option Reply))
    → ((r : Reply) → o ≡ ok (some r) → IsDue config server p client r)
    → Ensures (Serves config server p client s) (respond sent s o)
unfolding respond
respond-Ensures sent config server p client s (ok none) d =
    Ensures-ok (record { snapshot = refl; requests = refl; responses = refl; due = λ t same. cc })
respond-Ensures sent config server p client s (ok (some r)) d =
    Ensures-ok (send-Serves sent r.relay_option_omitted config server p client s r refl (d r refl))
respond-Ensures sent config server p client s (err e) d =
    Ensures-ok (record { snapshot = refl; requests = refl; responses = refl; due = λ t same. cc })
respond-Ensures sent config server p client s panic d = record { at = λ a e. cc }
respond-Ensures sent config server p client s stuck d = record { at = λ a e. cc }

-- The effect of a datagram on the state, and what is sent for it.
pub record IsServed (config : Config) (server : Ipv4Addr) (datagram : Bytes) (s : Shared)
    (h : Handled) : Type 0 where
  pub snapshot : h.shared.snapshot ≡ s.snapshot
  pub requests : h.shared.requests ≡ bump s.requests
  pub responses : h.shared.responses ≡ responses_after h.sent s.responses
  pub due :
      (r : Reply)
      → h.sent ≡ some r
      → (p : Packet) × (parse datagram ≡ ok p)
        × IsDue config server p (find_client s.snapshot p.mac) r

handle_packet-Ensures :
    (config : Config) (server : Ipv4Addr) (now : ℕ) (sent : Bool) (datagram : Bytes) (p : Packet)
    (s : Shared)
    → parse datagram ≡ ok p
    → Ensures (IsServed config server datagram s) (handle_packet config server now sent p s)
unfolding handle_packet record_request record_duration
handle_packet-Ensures config server now sent datagram p s parsed =
    let client = find_client s.snapshot p.mac in
    let recorded = record_request now (labels p client) s in
    let same = decide-Same config server p client recorded in
    Ensures-bind _ _ λ x _. Ensures-bind _ _ λ handled e.
      let served =
        (respond-Ensures sent config server p client (decide config server p client recorded).0
            (decide config server p client recorded).1
            (decide-IsDue config server p client recorded)).at
          handled e in
      Ensures-ok (record {
        snapshot = served.snapshot ∙ same.snapshot;
        requests = served.requests ∙ same.requests;
        responses = served.responses ∙ ap (responses_after handled.sent) same.responses;
        due = λ r is_sent. (p, parsed, served.due r is_sent);
      })

handle_parsed-Ensures :
    (config : Config) (server : Ipv4Addr) (now : ℕ) (sent : Bool) (datagram : Bytes) (s : Shared)
    (o : Outcome Packet)
    → parse datagram ≡ o
    → Ensures (IsServed config server datagram s) (handle_parsed config server now sent s o)
unfolding malformed record_request
handle_parsed-Ensures config server now sent datagram s (ok p) e =
    handle_packet-Ensures config server now sent datagram p s e
handle_parsed-Ensures config server now sent datagram s (err x) e =
    Ensures-ok (record { snapshot = refl; requests = refl; responses = refl; due = λ t same. cc })
handle_parsed-Ensures config server now sent datagram s panic e = record { at = λ a same. cc }
handle_parsed-Ensures config server now sent datagram s stuck e = record { at = λ a same. cc }

-- Each datagram counts as one request, and as one response just when a reply goes out; it leaves the
-- client table alone; and a reply goes out only for a datagram that parses, to a client of the
-- current table whose firmware fits its boot type, and it is the one that `reply` computes.
pub handle-IsServed :
    (config : Config) (server : Ipv4Addr) (now : ℕ) (sent : Bool) (datagram : Bytes) (s : Shared)
    (h : Handled)
    → handle config server now sent datagram s ≡ ok h
    → IsServed config server datagram s h
unfolding handle
handle-IsServed config server now sent datagram s h =
    (handle_parsed-Ensures config server now sent datagram s (parse datagram) refl).at h

decide-Returns :
    (config : Config) (server : Ipv4Addr) (p : Packet) (client : Option Client) (s : Shared)
    → IsPacket p
    → Returns (decide config server p client s).1
unfolding decide
decide-Returns config server p none s w = tt
decide-Returns config server p (some c) s w = elim (Bool-cases (boot_mode_mismatch p c)) [
  | inl t ↦ rw t tt
  | inr f ↦ rw f (reply-Returns p c config server w)
]

respond-Total :
    (sent : Bool) (s : Shared) (o : Outcome (Option Reply)) → Returns o → Total (respond sent s o)
unfolding respond
respond-Total sent s (ok none) h = Total-ok _
respond-Total sent s (ok (some r)) h = Total-ok _
respond-Total sent s (err e) h = Total-ok _
respond-Total sent s panic h = absurd h
respond-Total sent s stuck h = absurd h

xid-Total : (p : Packet) → IsPacket p → Total (xid p)
unfolding xid
xid-Total p w =
    let n = w.header_length in
    Total-bind _ _ (Total-sub_slice p.header 4 8 (omega arith) (omega arith)) λ field _. Total-ok _

handle_packet-Total :
    (config : Config) (server : Ipv4Addr) (now : ℕ) (sent : Bool) (p : Packet) (s : Shared)
    → IsPacket p
    → Total (handle_packet config server now sent p s)
unfolding handle_packet
handle_packet-Total config server now sent p s w =
    let client = find_client s.snapshot p.mac in
    let recorded = record_request now (labels p client) s in
    Total-bind _ _ (xid-Total p w) λ x _.
      Total-bind _ _
        (respond-Total sent (decide config server p client recorded).0
          (decide config server p client recorded).1
          (decide-Returns config server p client recorded w))
        λ handled _. Total-ok _

handle_parsed-Total :
    (config : Config) (server : Ipv4Addr) (now : ℕ) (sent : Bool) (datagram : Bytes) (s : Shared)
    (o : Outcome Packet)
    → parse datagram ≡ o
    → Returns o
    → Total (handle_parsed config server now sent s o)
handle_parsed-Total config server now sent datagram s (ok p) e h =
    handle_packet-Total config server now sent p s (parse-IsPacket datagram p e)
handle_parsed-Total config server now sent datagram s (err x) e h = Total-ok _
handle_parsed-Total config server now sent datagram s panic e h = absurd h
handle_parsed-Total config server now sent datagram s stuck e h = absurd h

-- The loop goes on after any datagram: whatever the bytes, the configuration, the client table and
-- the counters are, and whether or not the reply can be sent, nothing panics.
pub handle-Returns :
    (config : Config) (server : Ipv4Addr) (now : ℕ) (sent : Bool) (datagram : Bytes) (s : Shared)
    → Returns (handle config server now sent datagram s)
unfolding handle
handle-Returns config server now sent datagram s =
    (handle_parsed-Total config server now sent datagram s (parse datagram) refl
      (parse-Returns datagram)).returns
