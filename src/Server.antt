-- ===== src/Server.antt =====
-- `serve` of src/dhcp.rs: what its loop does with one datagram. The clock, the datagram, the address
-- that it came in on, and whether it can be answered on the socket are arguments. The log is left
-- out.
pub mod Due
pub mod Laws
pub mod Known
pub mod Loop
use macmapd.Base.{
  ℕ, Bool, true, false, Option, none, some, Bytes, ascii, ◌==◌, if◌then◌else◌, ok, err, panic,
  stuck, ◌>>=◌, ◌>>◌,
}
use macmapd.Base.Map.{get}
use macmapd.Net.{Ipv4Addr, is_unspecified}
use macmapd.Config.{Config}
use macmapd.Clients.{Client, Clients, bytes_Eq}
use macmapd.Dhcp.{Packet, message_name}
use macmapd.Dhcp.Parse.{Outcome, parse, xid}
use macmapd.Dhcp.Stage.{
  stage, stage_name, RouteMode, classless, default, route_mode, boot_mode_mismatch,
}
use macmapd.Dhcp.Reply.{Reply, reply}
use macmapd.Runtime.{Shared, RequestLabels, bump}
use macmapd.Runtime.Requests.{record_request, record_response, record_duration}

-- `config.dhcp.server_identifier.or_else(…)`; without it, the address that a datagram came in on.
unfoldable pub explicit : Config → Option Ipv4Addr
explicit config = elim config.dhcp.server_identifier [
  | some ip ↦ some ip
  | none ↦ if is_unspecified config.dhcp.listen_ip then none else some config.dhcp.listen_ip
]

-- The state after a datagram, and the reply that was sent.
pub record Handled : Type 0 where
  pub shared : Shared
  pub sent : Option Reply

abbrev pub invalid_labels : RequestLabels
invalid_labels = record {
  location = ascii "unknown";
  hostname = ascii "unknown";
  stage = ascii "unknown";
  route = ascii "unknown";
  message = ascii "invalid";
}

unfoldable pub malformed : ℕ → Shared → Handled
malformed now shared =
    let recorded = record_request now invalid_labels shared in
    record { shared = record recorded { errors = bump recorded.errors }; sent = none }

abbrev pub find_client : Option Clients → Bytes → Option Client
find_client none mac = none
find_client (some clients) mac = get clients.records mac

abbrev route_name : RouteMode → Bytes
route_name classless = ascii "classless"
route_name default = ascii "default"

abbrev location_of : Option Client → Bytes
location_of none = ascii "unknown"
location_of (some client) = client.location

abbrev hostname_of : Option Client → Bytes
hostname_of none = ascii "unknown"
hostname_of (some client) = client.hostname

unfoldable pub labels : Packet → Option Client → RequestLabels
labels packet client = record {
  location = location_of client;
  hostname = hostname_of client;
  stage = stage_name (stage packet).0;
  route = route_name (route_mode packet);
  message = message_name packet.message;
}

-- The outcome for a packet, with the counters of the branches that do not call `reply`.
unfoldable pub decide :
    Config → Ipv4Addr → Packet → Option Client → Shared → Shared × Outcome (Option Reply)
decide config server packet none shared = (record shared { unknown = bump shared.unknown }, ok none)
decide config server packet (some client) shared =
    if boot_mode_mismatch packet client
    then (record shared { boot_mode_mismatches = bump shared.boot_mode_mismatches }, ok none)
    else (shared, reply packet client config server)

-- Sending a reply.
unfoldable pub send : Bool → Reply → Shared → Handled
send sent response shared =
    let warned =
      if response.relay_option_omitted
      then record shared { errors = bump shared.errors }
      else shared in
    if sent
    then record {
      shared = record_response (message_name response.message) warned;
      sent = some response;
    }
    else record { shared = record warned { errors = bump warned.errors }; sent = none }

-- `match outcome { … }`.
unfoldable pub respond : Bool → Shared → Outcome (Option Reply) → Outcome Handled
respond sent shared (ok none) = ok (record { shared = shared; sent = none })
respond sent shared (ok (some response)) = ok (send sent response shared)
respond sent shared (err e) =
    ok (record { shared = record shared { errors = bump shared.errors }; sent = none })
respond sent shared panic = panic
respond sent shared stuck = stuck

unfoldable pub handle_packet : Config → Ipv4Addr → ℕ → Bool → Packet → Shared → Outcome Handled
handle_packet config server now sent packet shared = do
  let client = find_client shared.snapshot packet.mac
  let recorded = record_request now (labels packet client) shared
  _ ← xid packet
  let (decided, outcome) = decide config server packet client recorded
  handled ← respond sent decided outcome
  ok (record { shared = record_duration handled.shared; sent = handled.sent })

abbrev pub handle_parsed : Config → Ipv4Addr → ℕ → Bool → Shared → Outcome Packet → Outcome Handled
handle_parsed config server now sent shared (ok packet) =
    handle_packet config server now sent packet shared
handle_parsed config server now sent shared (err e) = ok (malformed now shared)
handle_parsed config server now sent shared panic = panic
handle_parsed config server now sent shared stuck = stuck

unfoldable pub handle : Config → Ipv4Addr → ℕ → Bool → Bytes → Shared → Outcome Handled
handle config server now sent datagram shared =
    handle_parsed config server now sent shared (parse datagram)
