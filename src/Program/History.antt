-- ===== src/Program/History.antt =====
-- What the running program of src/main.rs has read and whom it has answered, after a history.
use mathlib.Core.List.{Memᴰ}
use mathlib.Core.List.Memᴰ.{tail}
use macmapd.Base.{
  ℕ, suc, false, ◌≡◌, ap, Bool, Option, some, List, [], ◌∷◌, ◌++◌, Bytes, All, length, ok,
}
use macmapd.Base.Map.{get}
use macmapd.Net.{Ipv4Addr}
use macmapd.Config.{Config}
use macmapd.Clients.{Client, Clients, bytes_Eq}
use macmapd.Clients.Row.Shape.{IsClient}
use macmapd.Clients.Table.{Row, parse}
use macmapd.Dhcp.{Packet}
use macmapd.Dhcp.Parse
use macmapd.Dhcp.Stage.{boot_mode_mismatch}
use macmapd.Dhcp.Reply.{Reply, reply}
use macmapd.Runtime.Sync.{found, Response, read_body}
use macmapd.Server.{explicit}
use macmapd.Server.Loop.{server_of}
use macmapd.Server.Loop.Runs.{counted}
use macmapd.Program.{TaskEvent, loaded, polled, listening, received, scraped, Running}

-- The bytes of a table that the program got by then: from the state file, or from a response.
pub data HasRead (past : List TaskEvent) (bytes : Bytes) : Type 0 where
  from_file : Memᴰ (loaded (found bytes)) past → HasRead past bytes
  from_remote :
      (response : Response) (saved : Bool) (now : ℕ)
      → Memᴰ (polled (some response) saved now) past
      → read_body response ≡ ok bytes
      → HasRead past bytes

abbrev pub requests_in : List TaskEvent → ℕ
requests_in [] = 0
requests_in (loaded saved ∷ past) = requests_in past
requests_in (polled response saved now ∷ past) = requests_in past
requests_in (listening ∷ past) = requests_in past
requests_in (received now sent local datagram ∷ past) = suc (requests_in past)
requests_in (scraped texts now instant ∷ past) = requests_in past

module _ (read_csv : Bytes → List (Option Row)) where
  -- A table that the program got by then.
  pub record IsOurs (past : List TaskEvent) (cs : Clients) : Type 0 where
    pub bytes : Bytes
    pub has_read : HasRead past bytes
    pub parsed : parse read_csv bytes ≡ ok cs

  HasRead-later :
      (e : TaskEvent) (past : List TaskEvent) (bytes : Bytes)
      → HasRead past bytes
      → HasRead (e ∷ past) bytes
  HasRead-later e past bytes (from_file m) = from_file (tail m)
  HasRead-later e past bytes (from_remote response saved now m b) =
      from_remote response saved now (tail m) b

  pub IsOurs-later :
      (e : TaskEvent) (past : List TaskEvent) (cs : Clients) → IsOurs past cs → IsOurs (e ∷ past) cs
  IsOurs-later e past cs o = record {
    bytes = o.bytes;
    has_read = HasRead-later e past o.bytes o.has_read;
    parsed = o.parsed;
  }

module _ (read_csv : Bytes → List (Option Row)) (config : Config) where
  -- A reply that was sent for a datagram, to a client of a table that the program had got before it.
  pub record IsAnswer (past : List TaskEvent) (r : Reply) : Type 0 where
    pub later : List TaskEvent
    pub before : List TaskEvent
    pub now : ℕ
    pub sent : Bool
    pub local : Ipv4Addr
    pub datagram : Bytes
    pub split : past ≡ later ++ (received now sent local datagram ∷ before)
    pub packet : Packet
    pub is_packet : macmapd.Dhcp.Parse.parse datagram ≡ ok packet
    pub table : Clients
    pub is_ours : IsOurs read_csv before table
    pub client : Client
    pub listed : get table.records packet.mac ≡ some client
    pub is_client : IsClient client
    pub fits : boot_mode_mismatch packet client ≡ false
    pub made : reply packet client config (server_of (explicit config) local) ≡ ok (some r)

  -- The world after a history.
  pub record IsTraced (past : List TaskEvent) (w : Running) : Type 0 where
    pub table : (cs : Clients) → w.shared.snapshot ≡ some cs → IsOurs read_csv past cs
    pub answers : All (IsAnswer past) w.replies
    pub requests : w.shared.requests ≡ counted (requests_in past) 0
    pub responses : w.shared.responses ≡ counted (length w.replies) 0

  IsAnswer-later :
      (e : TaskEvent) (past : List TaskEvent) (r : Reply) → IsAnswer past r → IsAnswer (e ∷ past) r
  IsAnswer-later e past r a = record {
    later = e ∷ a.later;
    before = a.before;
    now = a.now;
    sent = a.sent;
    local = a.local;
    datagram = a.datagram;
    split = ap (λ t. e ∷ t) a.split;
    packet = a.packet;
    is_packet = a.is_packet;
    table = a.table;
    is_ours = a.is_ours;
    client = a.client;
    listed = a.listed;
    is_client = a.is_client;
    fits = a.fits;
    made = a.made;
  }

  pub answers_later :
      (e : TaskEvent) (past : List TaskEvent) (replies : List Reply)
      → All (IsAnswer past) replies
      → All (IsAnswer (e ∷ past)) replies
  answers_later e past [] h = tt
  answers_later e past (r ∷ replies) h =
      (IsAnswer-later e past r h.0, answers_later e past replies h.1)
