-- ===== src/Server/Loop/Runs.antt =====
-- What the loop of `serve` of src/dhcp.rs does with any sequence of datagrams.
use mathlib.Core.Path.{subst}
use macmapd.Base.{
  not, ℕ, zero, suc, ◌≡◌, refl, ap, ◌∙◌, Bool, true, false, Option, none, some, List, [], ◌∷◌,
  Bytes, All, ◌>>=◌, ◌&&◌, length, if◌then◌else◌,
}
use macmapd.Base.Yields.{Yields, Yields-ok, Yields-bind}
use macmapd.Net.{Ipv4Addr}
use macmapd.Config.{Config}
use macmapd.Clients.Table.{Row}
use macmapd.Dhcp.Parse.{Outcome}
use macmapd.Dhcp.Reply.{Reply}
use macmapd.Runtime.{Shared, bump}
use macmapd.Runtime.Sync.{RemoteCache}
use macmapd.Runtime.Reachable.{Reaches}
use macmapd.Server.{explicit}
use macmapd.Server.Laws.{handle-IsServed}
use macmapd.Server.Known.{IsKnown, Reaches-IsKnown}
use macmapd.Server.Loop.{
  Arrival, broken, arrived, Served, sent_first, server_of, serve_loop, Socket, ready, events,
  needs_pktinfo, serve,
}
use mathlib.Core.List.{Memᴰ}
use mathlib.Core.List.Memᴰ.{head, tail}
use macmapd.Server.Due.{responses_after}
use macmapd.Server.Loop.Total.{handled}

-- The datagrams that are handled: those before an error of the socket.
abbrev pub received : List Arrival → ℕ
received [] = 0
received (broken ∷ arrivals) = 0
received (arrived now sent local datagram ∷ arrivals) = suc (received arrivals)

abbrev pub breaks : List Arrival → Bool
breaks [] = false
breaks (broken ∷ arrivals) = true
breaks (arrived now sent local datagram ∷ arrivals) = breaks arrivals

-- A counter after `k` additions.
abbrev pub counted : ℕ → ℕ → ℕ
counted zero n = n
counted (suc k) n = counted k (bump n)

-- A reply that was sent for one of the datagrams.
pub record IsAnswer (config : Config) (arrivals : List Arrival) (r : Reply) : Type 0 where
  pub now : ℕ
  pub sent : Bool
  pub local : Ipv4Addr
  pub datagram : Bytes
  pub there : Memᴰ (arrived now sent local datagram) arrivals
  pub known : IsKnown config (server_of (explicit config) local) datagram r

-- A run of the loop.
pub record IsLoop (read_csv : Bytes → List (Option Row)) (config : Config) (arrivals : List Arrival)
    (s : Shared) (c : RemoteCache) (served : Served) : Type 0 where
  pub reached : Reaches read_csv served.shared c
  pub answers : All (IsAnswer config arrivals) served.replies
  pub requests : served.shared.requests ≡ counted (received arrivals) s.requests
  pub responses : served.shared.responses ≡ counted (length served.replies) s.responses
  pub ended : served.ended ≡ breaks arrivals

later :
    (config : Config) (arrivals : List Arrival) (a : Arrival) (replies : List Reply)
    → All (IsAnswer config arrivals) replies
    → All (IsAnswer config (a ∷ arrivals)) replies
later config arrivals a [] h = tt
later config arrivals a (r ∷ replies) h =
    let i = h.0 in
    (
      record {
        now = i.now;
        sent = i.sent;
        local = i.local;
        datagram = i.datagram;
        there = tail i.there;
        known = i.known;
      },
      later config arrivals a replies h.1,
    )

first_answer :
    (config : Config) (now : ℕ) (sent : Bool) (local : Ipv4Addr) (datagram : Bytes)
    (arrivals : List Arrival) (o : Option Reply) (replies : List Reply)
    → ((r : Reply) → o ≡ some r → IsKnown config (server_of (explicit config) local) datagram r)
    → All (IsAnswer config arrivals) replies
    → All (IsAnswer config (arrived now sent local datagram ∷ arrivals)) (sent_first o replies)
first_answer config now sent local datagram arrivals none replies h k =
    later config arrivals (arrived now sent local datagram) replies k
first_answer config now sent local datagram arrivals (some r) replies h k = (
  record {
    now = now;
    sent = sent;
    local = local;
    datagram = datagram;
    there = head refl;
    known = h r refl;
  },
  later config arrivals (arrived now sent local datagram) replies k,
)

pub counted_after :
    (o : Option Reply) (replies : List Reply) (n : ℕ)
    → counted (length replies) (responses_after o n) ≡ counted (length (sent_first o replies)) n
counted_after none replies n = refl
counted_after (some r) replies n = refl

serve_loop-IsLoop :
    (read_csv : Bytes → List (Option Row)) (config : Config) (arrivals : List Arrival) (s : Shared)
    (c : RemoteCache)
    → Reaches read_csv s c
    → Yields (IsLoop read_csv config arrivals s c) (serve_loop config arrivals s)
unfolding serve_loop ◌>>=◌
serve_loop-IsLoop read_csv config [] s c r =
    Yields-ok
      (record { reached = r; answers = tt; requests = refl; responses = refl; ended = refl })
serve_loop-IsLoop read_csv config (broken ∷ arrivals) s c r =
    Yields-ok
      (record { reached = r; answers = tt; requests = refl; responses = refl; ended = refl })
serve_loop-IsLoop read_csv config (arrived now sent local datagram ∷ arrivals) s c r =
    let server = server_of (explicit config) local in
    let (h, e) = handled config server now sent datagram s in
    let (reached, known) = Reaches-IsKnown read_csv config server now sent datagram s c h r e in
    let effect = handle-IsServed config server now sent datagram s h e in
    let rest = serve_loop-IsLoop read_csv config arrivals h.shared c reached in
    rw e (
      Yields-bind (serve_loop config arrivals h.shared) _ rest λ served l. Yields-ok (record {
        reached = l.reached;
        answers =
            first_answer config now sent local datagram arrivals h.sent served.replies known
              l.answers;
        requests = l.requests ∙ ap (counted (received arrivals)) effect.requests;
        responses =
            l.responses
            ∙ ap (counted (length served.replies)) effect.responses
            ∙ counted_after h.sent served.replies s.responses;
        ended = l.ended;
      }))

if_started :
    (t : Bool) {o : Option (Outcome Served)} {r : Outcome Served}
    → (if t then none else o) ≡ some r
    → o ≡ some r
if_started true e = cc
if_started false e = e

-- If the server starts in a state that the program reaches, it handles any sequence of datagrams to
-- its end without a panic, and stops only at an error of its socket; the state that it leaves is
-- reached too; every reply that it sends answers one of the datagrams and goes to a well-formed
-- client of the table with the MAC address of that datagram; and the counters have grown by one for
-- each datagram and by one for each reply.
pub serve-IsLoop :
    (read_csv : Bytes → List (Option Row)) (config : Config) (socket : Socket)
    (arrivals : List Arrival) (s : Shared) (c : RemoteCache) (r : Outcome Served)
    → Reaches read_csv s c
    → serve config socket arrivals s ≡ some r
    → Yields (IsLoop read_csv config (events socket.named arrivals) (ready s) c) r
unfolding serve
serve-IsLoop read_csv config socket arrivals s c r reached e =
    let e₁ = if_started (not socket.bound) e in
    let e₂ = if_started (not socket.broadcast) e₁ in
    let e₃ = if_started (needs_pktinfo (explicit config) && not socket.enabled) e₂ in
    let same : serve_loop config (events socket.named arrivals) (ready s) ≡ r = cc in
    subst (Yields (IsLoop read_csv config (events socket.named arrivals) (ready s) c)) same (
      serve_loop-IsLoop read_csv config (events socket.named arrivals) (ready s) c
        (Reaches.served reached refl))
