-- ===== src/Runtime/Persist/Restart.antt =====
-- The synchronizer of src/runtime.rs on a disk: polls that save tables, crashes at any moment, and
-- restarts that load what is there.
use mathlib.Core.List.{Memᴰ}
use macmapd.Base.{
  ◌≡◌, ℕ, Bool, true, false, Option, none, some, List, Bytes, ◌==◌, if◌then◌else◌, ok, Result,
}
use macmapd.Clients.{Clients}
use macmapd.Clients.Table.{Row}
use macmapd.Runtime.{Shared, new_shared, table, csv_utf8}
use macmapd.Runtime.Sync.{
  Saved, found, not_found, failed, Response, RemoteCache, Sync, no_cache, is_body, parse_as,
  read_body, sync_round, load,
}
use macmapd.Runtime.Persist.{contents, Disk, PersistError, Persisted, System, persist_blocking}

-- `tokio::fs::read`, which may fail on a file that is there.
abbrev pub saved_of : Bool → Option Bytes → Saved
saved_of readable none = not_found
saved_of true (some bytes) = found bytes
saved_of false (some bytes) = failed

abbrev pub accepted : Bytes → Sync Clients → Option Bytes
accepted bytes (ok clients) = some bytes
accepted bytes _ = none

abbrev pub new_body : (Bytes → Sync Clients) → RemoteCache → Sync Bytes → Option Bytes
new_body parse cache (ok bytes) =
    if is_body cache.body bytes then none else accepted bytes (parse bytes)
new_body parse cache _ = none

abbrev pub succeeded : Result PersistError (Unit {0}) → Bool
succeeded (ok u) = true
succeeded _ = false

-- The program with its disk.
pub record World : Type 0 where
  pub shared : Shared
  pub cache : RemoteCache
  pub disk : Disk

module _ (read_csv : Bytes → List (Option Row)) where
  -- What `poll` hands to `persist`.
  unfoldable pub to_save : Option Response → RemoteCache → Option Bytes
  to_save none cache = none
  to_save (some response) cache =
      if response.status == 304
      then none
      else new_body (parse_as read_csv table csv_utf8) cache (read_body response)

module _ (read_csv : Bytes → List (Option Row)) (name : Bytes) where
  abbrev pub persisted : System → Option Bytes → Disk → Option Persisted
  persisted system none disk = none
  persisted system (some bytes) disk = some (persist_blocking system (some name) bytes disk)

  abbrev pub after_poll : Option Response → ℕ → World → Option Persisted → World
  after_poll response now w none =
      let (shared, cache) = sync_round read_csv response true now (w.shared, w.cache) in
      record { shared = shared; cache = cache; disk = w.disk }
  after_poll response now w (some p) =
      let (shared, cache) =
        sync_round read_csv response (succeeded p.result) now (w.shared, w.cache) in
      record { shared = shared; cache = cache; disk = p.disk }

  -- One round of the loop of `run_sync` with its disk.
  unfoldable pub disk_round : Option Response → System → ℕ → World → World
  disk_round response system now w =
      after_poll response now w (persisted system (to_save read_csv response w.cache) w.disk)

  -- The start of the program.
  unfoldable pub boot : Bool → Disk → World
  boot readable disk = record {
    shared = load read_csv (saved_of readable (contents (disk name))) new_shared;
    cache = no_cache;
    disk = disk;
  }

  -- The worlds that the program reaches from a disk: it polls, is killed between two polls or at any
  -- moment while it saves a table, starts again, and serves. The index says whether the state file
  -- could be read at the last start.
  pub data Lives (first : Disk) : Bool → World → Type 0 where
    booted : (readable : Bool) → Lives first readable (boot readable first)
    polled :
        {r : Bool} {w : World} (response : Option Response) (system : System) (now : ℕ)
        → Lives first r w
        → Lives first r (disk_round response system now w)
    killed :
        {r : Bool} {w : World} {p : Persisted} {disk : Disk} (readable : Bool)
        (response : Option Response) (system : System)
        → Lives first r w
        → persisted system (to_save read_csv response w.cache) w.disk ≡ some p
        → Memᴰ disk p.seen
        → Lives first readable (boot readable disk)
    restarted :
        {r : Bool} {w : World} (readable : Bool)
        → Lives first r w
        → Lives first readable (boot readable w.disk)
    served :
        {r : Bool} {w : World} (shared : Shared)
        → Lives first r w
        → shared.snapshot ≡ w.shared.snapshot
        → Lives first r (record w { shared = shared })
