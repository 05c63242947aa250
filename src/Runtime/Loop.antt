-- ===== src/Runtime/Loop.antt =====
-- `run_sync` of src/runtime.rs as a whole: the saved table, the HTTP client, and the rounds of the
-- loop, each with what it brings. `built` says whether `polling_client` gives a client.
use macmapd.Base.{
  ok, ◌>>=◌, ℕ, ◌≡◌, refl, Bool, true, false, Option, some, List, [], ◌∷◌, Bytes, if◌then◌else◌,
}
use macmapd.Base.Yields.{Yields, Yields-ok}
use macmapd.Clients.Table.{Row}
use macmapd.Runtime.{Shared, SyncError, new_shared, no_client}
use macmapd.Runtime.Sync.{Saved, Response, RemoteCache, Sync, no_cache, load, load_task, sync_task}
use macmapd.Runtime.Total.{load_task-ok, sync_task-ok}
use macmapd.Runtime.Reachable.{Reaches, started, polled, served}

-- What a round brings: the response, whether the table can be saved, and the clock.
pub record Round : Type 0 where
  pub response : Option Response
  pub saved : Bool
  pub now : ℕ

-- The state that the task leaves, and whether it still runs.
pub record Synced : Type 0 where
  pub shared : Shared
  pub cache : RemoteCache
  pub running : Bool

unfoldable pub client_error : Shared → Shared
client_error shared = record shared {
  status = record shared.status { last_error = some no_client };
}

module _ (read_csv : Bytes → List (Option Row)) where
  -- The loop has no end of its own: after the rounds it still runs.
  unfoldable pub sync_loop : List Round → Shared × RemoteCache → Sync Synced
  sync_loop [] (shared, cache) = ok (record { shared = shared; cache = cache; running = true })
  sync_loop (round ∷ rounds) w = do
    next ← sync_task read_csv round.response round.saved round.now w
    sync_loop rounds next

  unfoldable pub run_sync : Bool → Saved → List Round → Shared → Sync Synced
  unfolding sync_loop client_error
  run_sync built saved rounds shared = do
    loaded ← load_task read_csv saved shared
    let looped = sync_loop rounds (loaded, no_cache)
    if built
        then looped
        else ok (record { shared = client_error loaded; cache = no_cache; running = false })

  -- A task that still runs, or one that had no client.
  pub record IsRunning (built : Bool) (saved : Saved) (w : Synced) : Type 0 where
    pub reached : Reaches read_csv w.shared w.cache
    pub running : w.running ≡ built
    pub kept : built ≡ false → w.shared.snapshot ≡ (load read_csv saved new_shared).snapshot

  sync_loop-IsRunning :
      (saved : Saved) (rounds : List Round) (s : Shared) (c : RemoteCache)
      → Reaches read_csv s c
      → Yields (IsRunning true saved) (sync_loop rounds (s, c))
  unfolding sync_loop ◌>>=◌
  sync_loop-IsRunning saved [] s c r =
      Yields-ok (record { reached = r; running = refl; kept = λ e. absurd cc })
  sync_loop-IsRunning saved (round ∷ rounds) s c r =
      rw (sync_task-ok read_csv {E = SyncError} round.response round.saved round.now s c)
        (sync_loop-IsRunning saved rounds _ _ (polled round.response round.saved round.now r))

  -- Whether or not there is an HTTP client, whatever the state file holds, whatever the responses
  -- are and however often a download cannot be saved, nothing in the task panics: it ends only
  -- without a client, with the saved table in service, and otherwise still runs after any number of
  -- rounds; and the state that it leaves is one that the program reaches.
  pub run_sync-IsRunning :
      (built : Bool) (saved : Saved) (rounds : List Round)
      → Yields (IsRunning built saved) (run_sync built saved rounds new_shared)
  unfolding run_sync client_error ◌>>=◌
  run_sync-IsRunning true saved rounds =
      rw (load_task-ok read_csv {E = SyncError} saved new_shared)
        (sync_loop-IsRunning saved rounds (load read_csv saved new_shared) no_cache (started saved))
  run_sync-IsRunning false saved rounds =
      let r = served {t = client_error (load read_csv saved new_shared)} (started saved) refl in
      rw (load_task-ok read_csv {E = SyncError} saved new_shared)
        (Yields-ok (record { reached = r; running = refl; kept = λ e. refl }))
