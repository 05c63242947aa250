-- ===== src/Server/Loop.antt =====
-- `serve` of src/dhcp.rs as a whole, on Linux: its start, the address of the server, and the loop
-- over what the socket brings; with `receive_pktinfo`. Whether a system call succeeds, and what it
-- gives, is part of the events.
pub mod Total
pub mod Runs
use macmapd.Base.{
  ℕ, Bool, true, false, not, ◌&&◌, Option, none, some, List, [], ◌∷◌, Bytes, ok, err, ◌>>=◌, Result,
  if◌then◌else◌,
}
use macmapd.Net.{Ipv4Addr}
use macmapd.Config.{Config}
use macmapd.Dhcp.Parse.{Outcome}
use macmapd.Dhcp.Reply.{Reply}
use macmapd.Runtime.{Shared}
use macmapd.Server.{explicit, Handled, handle}

-- A control message: `IP_PKTINFO` of `IPPROTO_IP` with the local address, or another one.
pub data Control : Type 0 where
  pktinfo : Ipv4Addr → Control
  other : Control

-- What `readable` and `recvmsg` bring. An IPv4 sender is `AF_INET`.
pub data Attempt : Type 0 where
  not_readable would_block failed : Attempt
  message : Bool → List Control → Bytes → Attempt

pub data ReceiveError : Type 0 where
  io non_ipv4_sender missing_metadata : ReceiveError

-- The loop over the control messages.
unfoldable pub local_address : Bool → List Control → Result ReceiveError Ipv4Addr
local_address ipv4 [] = err missing_metadata
local_address ipv4 (pktinfo ip ∷ controls) = if ipv4 then ok ip else err non_ipv4_sender
local_address ipv4 (other ∷ controls) = local_address ipv4 controls

-- A datagram with the address that it came in on.
abbrev pub with_address :
    Bytes → Result ReceiveError Ipv4Addr → Result ReceiveError (Ipv4Addr × Bytes)
with_address datagram result = do ip ← result; ok (ip, datagram)

-- The result, or none as long as the loop waits.
unfoldable pub receive_pktinfo : List Attempt → Option (Result ReceiveError (Ipv4Addr × Bytes))
unfolding local_address
receive_pktinfo [] = none
receive_pktinfo (not_readable ∷ attempts) = some (err io)
receive_pktinfo (would_block ∷ attempts) = receive_pktinfo attempts
receive_pktinfo (failed ∷ attempts) = some (err io)
receive_pktinfo (message ipv4 controls datagram ∷ attempts) =
    some (with_address datagram (local_address ipv4 controls))

-- What the next round of the loop receives, with the clock, and whether a reply can be sent then.
pub data Arrival : Type 0 where
  broken : Arrival
  arrived : (now : ℕ) (sent : Bool) (local : Ipv4Addr) (datagram : Bytes) → Arrival

-- The loop: the state, the replies in order, and whether an error of the socket ended it.
pub record Served : Type 0 where
  pub shared : Shared
  pub replies : List Reply
  pub ended : Bool

abbrev pub sent_first : Option Reply → List Reply → List Reply
sent_first none replies = replies
sent_first (some reply) replies = reply ∷ replies

abbrev pub server_of : Option Ipv4Addr → Ipv4Addr → Ipv4Addr
server_of none local = local
server_of (some server) local = server

unfoldable pub serve_loop : Config → List Arrival → Shared → Outcome Served
serve_loop config [] shared = ok (record { shared = shared; replies = []; ended = false })
serve_loop config (broken ∷ arrivals) shared =
    ok (record { shared = shared; replies = []; ended = true })
serve_loop config (arrived now sent local datagram ∷ arrivals) shared = do
  let server = server_of (explicit config) local
  handled ← handle config server now sent datagram shared
  served ← serve_loop config arrivals handled.shared
  ok (record served { replies = sent_first handled.sent served.replies })

-- The start; the fields say which of the socket's calls succeed.
pub record Socket : Type 0 where
  pub bound : Bool
  pub broadcast : Bool
  pub enabled : Bool
  pub named : Bool

abbrev pub needs_pktinfo : Option Ipv4Addr → Bool
needs_pktinfo none = true
needs_pktinfo (some ip) = false

abbrev pub ready : Shared → Shared
ready shared = record shared { dhcp_ready = true }

abbrev pub events : Bool → List Arrival → List Arrival
events named arrivals = if named then arrivals else broken ∷ []

-- None if the server does not start. Without a local address to log, it stops before its loop.
unfoldable pub serve : Config → Socket → List Arrival → Shared → Option (Outcome Served)
unfolding serve_loop
serve config socket arrivals shared =
    if not socket.bound
    then none
    else if not socket.broadcast
    then none
    else if needs_pktinfo (explicit config) && not socket.enabled
    then none
    else some (serve_loop config (events socket.named arrivals) (ready shared))
