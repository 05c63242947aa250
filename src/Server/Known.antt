-- ===== src/Server/Known.antt =====
-- To whom the running program answers: the loop of `serve` of src/dhcp.rs in the states that the
-- synchronizer of src/runtime.rs reaches.
use macmapd.Base.{ℕ, ◌≡◌, refl, Bool, false, Option, none, some, List, Bytes, ok}
use macmapd.Net.{Ipv4Addr}
use macmapd.Config.{Config}
use macmapd.Clients.{Client, Clients, bytes_Eq}
use macmapd.Clients.Row.Shape.{IsClient}
use macmapd.Clients.Table.{Row}
use macmapd.Clients.Table.Contents.{IsConsistent}
use macmapd.Dhcp.{Packet}
use macmapd.Dhcp.Parse.{parse}
use macmapd.Dhcp.Stage.{boot_mode_mismatch}
use macmapd.Dhcp.Reply.{Reply, reply}
use macmapd.Runtime.{Shared}
use macmapd.Runtime.Sync.{RemoteCache}
use macmapd.Runtime.Reachable.{Reaches, served, Reaches-IsSynced}
use macmapd.Server.{Handled, handle, find_client}
use macmapd.Server.Laws.{handle-IsServed}

-- A reply to a packet for a well-formed client with the packet's MAC.
pub record IsKnown (config : Config) (server : Ipv4Addr) (datagram : Bytes) (r : Reply)
    : Type 0 where
  pub packet : Packet
  pub client : Client
  pub parsed : parse datagram ≡ ok packet
  pub same_mac : client.mac ≡ packet.mac
  pub is_client : IsClient client
  pub fits : boot_mode_mismatch packet client ≡ false
  pub made : reply packet client config server ≡ ok (some r)

find_client-IsConsistent :
    (o : Option Clients) (mac : Bytes) (c : Client)
    → ((cs : Clients) → o ≡ some cs → IsConsistent cs)
    → find_client o mac ≡ some c
    → (c.mac ≡ mac) × IsClient c
find_client-IsConsistent none mac c h e = cc
find_client-IsConsistent (some cs) mac c h e =
    let (same, is_client, found) = (h cs refl).by_mac mac c e in (same, is_client)

-- In every state that the program reaches, a datagram leads to another such state; and what is sent
-- for it is the reply that `reply` computes for a well-formed client of the table whose MAC address
-- is the packet's.
pub Reaches-IsKnown :
    (read_csv : Bytes → List (Option Row)) (config : Config) (server : Ipv4Addr) (now : ℕ)
    (sent : Bool) (datagram : Bytes) (s : Shared) (c : RemoteCache) (h : Handled)
    → Reaches read_csv s c
    → handle config server now sent datagram s ≡ ok h
    → Reaches read_csv h.shared c
      × ((r : Reply) → h.sent ≡ some r → IsKnown config server datagram r)
Reaches-IsKnown read_csv config server now sent datagram s c h reached e =
    let effect = handle-IsServed config server now sent datagram s h e in
    (
      served reached effect.snapshot,
      λ r is_sent.
          let (p, parsed, due) = effect.due r is_sent in
          let consistent = (Reaches-IsSynced read_csv s c reached).consistent in
          let (same, is_client) =
            find_client-IsConsistent s.snapshot p.mac due.known consistent due.found in
          record {
            packet = p;
            client = due.known;
            parsed = parsed;
            same_mac = same;
            is_client = is_client;
            fits = due.fits;
            made = due.made;
          },
    )
