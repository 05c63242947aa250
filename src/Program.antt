-- ===== src/Program.antt =====
-- The running program: the tasks that `main` of src/main.rs starts beside each other on one `Shared`,
-- `run_sync`, `serve` and `serve_http`, as one sequence of what they do. A datagram, a round of the
-- synchronizer and a scrape are each one step: `serve` reads the snapshot once for a datagram, and
-- `poll` replaces it at once. What `serve` and the synchronizer count is theirs alone. A
-- panic of any task is the result of the whole, since `main` waits for all of them in one task.
pub mod History
pub mod Answers
use macmapd.Base.{ℕ, Bool, Option, List, [], ◌∷◌, Bytes, ok, ◌>>=◌}
use macmapd.Net.{Ipv4Addr}
use macmapd.Config.{Config}
use macmapd.Clients.Table.{Row}
use macmapd.Dhcp.Parse.{Outcome}
use macmapd.Dhcp.Reply.{Reply}
use macmapd.Runtime.{Shared, new_shared}
use macmapd.Runtime.Sync.{Saved, Response, RemoteCache, no_cache, load_task, sync_task}
use macmapd.Runtime.Metrics.{Texts, metrics}
use macmapd.Server.{explicit, handle}
use macmapd.Server.Loop.{ready, sent_first, server_of}

-- What a task does next: the synchronizer loads the saved table or ends a round, the DHCP server
-- opens its socket or handles a datagram, and the HTTP server answers a scrape.
pub data TaskEvent : Type 0 where
  loaded : (saved : Saved) → TaskEvent
  polled : (response : Option Response) (saved : Bool) (now : ℕ) → TaskEvent
  listening : TaskEvent
  received : (now : ℕ) (sent : Bool) (local : Ipv4Addr) (datagram : Bytes) → TaskEvent
  scraped : (texts : Texts) (now instant : ℕ) → TaskEvent

-- The replies are those that were sent, the latest first.
pub record Running : Type 0 where
  pub shared : Shared
  pub cache : RemoteCache
  pub replies : List Reply

abbrev pub new_program : Running
new_program = record { shared = new_shared; cache = no_cache; replies = [] }

module _ (read_csv : Bytes → List (Option Row)) (config : Config) where
  unfoldable pub program_step : TaskEvent → Running → Outcome Running
  program_step (loaded saved) w = do
    shared ← load_task read_csv saved w.shared
    ok (record w { shared = shared })
  program_step (polled response saved now) w = do
    next ← sync_task read_csv response saved now (w.shared, w.cache)
    ok (record w { shared = next.0; cache = next.1 })
  program_step listening w = ok (record w { shared = ready w.shared })
  program_step (received now sent local datagram) w = do
    handled ← handle config (server_of (explicit config) local) now sent datagram w.shared
    ok (record w { shared = handled.shared; replies = sent_first handled.sent w.replies })
  program_step (scraped texts now instant) w =
      ok (record w { shared = (metrics texts now instant w.shared).0 })

  -- A history, the latest event first.
  unfoldable pub run_program : List TaskEvent → Outcome Running
  unfolding program_step
  run_program [] = ok new_program
  run_program (event ∷ past) = do w ← run_program past; program_step event w
