-- ===== src/Runtime/Persist/Survives.antt =====
-- That the program of src/runtime.rs, once it has a table, always has one.
use mathlib.Core.Path.{subst}
use mathlib.Core.List.{Memᴰ}
use macmapd.Base.{
  ◌≡◌, refl, sym, ◌∙◌, ℕ, Bool, true, false, Option, none, some, List, Bytes, ◌==◌, ok, err, panic,
  stuck, Bool-cases, inl, inr,
}
use macmapd.Clients.{Clients}
use macmapd.Clients.Table.{Row}
use macmapd.Runtime.{Shared}
use macmapd.Runtime.Sync.{
  Response, RemoteCache, Sync, Polled, is_body, read_body, sync_round, load, store, store_parsed,
  activate, poll, finish,
}
use macmapd.Runtime.Persist.{contents, Disk, Persisted, System, persist_blocking}
use macmapd.Runtime.Persist.Restart.{
  succeeded, World, to_save, persisted, after_poll, disk_round, boot, Lives, booted, polled, killed,
  restarted, served,
}
use macmapd.Runtime.Persist.Serving.{IsGood, persist-AllGood, to_save-IsGood}

pub record HasTable (s : Shared) : Type 0 where
  pub clients : Clients
  pub live : s.snapshot ≡ some clients

module _ (read_csv : Bytes → List (Option Row)) where
  store_parsed-HasTable :
      (saved : Bool) (now : ℕ) (response : Response) (bytes : Bytes) (r : Sync Clients) (s : Shared)
      (c : RemoteCache)
      → HasTable s
      → let p : Polled = store_parsed read_csv saved now response bytes r s c in HasTable p.shared
  unfolding activate
  store_parsed-HasTable true now response bytes (ok cs) s c h = record { clients = cs; live = refl }
  store_parsed-HasTable false now response bytes (ok cs) s c h = record {
    clients = h.clients;
    live = h.live;
  }
  store_parsed-HasTable saved now response bytes (err e) s c h = h
  store_parsed-HasTable saved now response bytes panic s c h = h
  store_parsed-HasTable saved now response bytes stuck s c h = h

  store-HasTable :
      (saved : Bool) (now : ℕ) (response : Response) (body : Sync Bytes) (s : Shared)
      (c : RemoteCache)
      → HasTable s
      → let p : Polled = store read_csv saved now response body s c in HasTable p.shared
  unfolding store
  store-HasTable saved now response (ok bytes) s c h = elim (Bool-cases (is_body c.body bytes)) [
    | inl same ↦ rw same h
    | inr other ↦ rw other (store_parsed-HasTable saved now response bytes _ s c h)
  ]
  store-HasTable saved now response (err e) s c h = h
  store-HasTable saved now response panic s c h = h
  store-HasTable saved now response stuck s c h = h

  finish-HasTable :
      (now : ℕ) (r : Sync (Unit {0})) (s : Shared) → HasTable s → HasTable (finish read_csv now r s)
  unfolding finish
  finish-HasTable now (ok u) s h = record { clients = h.clients; live = h.live }
  finish-HasTable now (err e) s h = record { clients = h.clients; live = h.live }
  finish-HasTable now panic s h = h
  finish-HasTable now stuck s h = h

  poll-HasTable :
      (response : Option Response) (saved : Bool) (now : ℕ) (s : Shared) (c : RemoteCache)
      → HasTable s
      → HasTable (poll read_csv response saved now s c).shared
  unfolding poll
  poll-HasTable none saved now s c h = h
  poll-HasTable (some response) saved now s c h = elim (Bool-cases (response.status == 304)) [
    | inl cached ↦ rw cached h
    | inr new ↦ rw new (store-HasTable saved now response (read_body response) s c h)
  ]

  round-HasTable :
      (response : Option Response) (saved : Bool) (now : ℕ) (s : Shared) (c : RemoteCache)
      → HasTable s
      → HasTable (sync_round read_csv response saved now (s, c)).0
  unfolding sync_round
  round-HasTable response saved now s c h =
      finish-HasTable now (poll read_csv response saved now s c).result
        (poll read_csv response saved now s c).shared (poll-HasTable response saved now s c h)

  module _ (name : Bytes) where
    -- The state file can be loaded, and a table is being served if it was read at the last start.
    pub record IsServing (readable : Bool) (w : World) : Type 0 where
      pub file : IsGood read_csv (contents (w.disk name))
      pub table : readable ≡ true → HasTable w.shared

    booted_table :
        (disk : Disk)
        → IsGood read_csv (contents (disk name))
        → HasTable (boot read_csv name true disk).shared
    unfolding boot load
    booted_table disk h = rw (h.there, h.loads) (record { clients = h.clients; live = refl })

    boot-IsServing :
        (readable : Bool) (disk : Disk)
        → IsGood read_csv (contents (disk name))
        → IsServing readable (boot read_csv name readable disk)
    unfolding boot
    boot-IsServing true disk h = record { file = h; table = λ e. booted_table disk h }
    boot-IsServing false disk h = record { file = h; table = λ e. absurd cc }

    saved-IsServing :
        (r : Bool) (response : Option Response) (system : System) (now : ℕ) (w : World)
        (out : Option Bytes)
        → to_save read_csv response w.cache ≡ out
        → IsServing r w
        → IsServing r
            (after_poll read_csv name response now w (persisted read_csv name system out w.disk))
    saved-IsServing r response system now w none e h = record {
      file = h.file;
      table = λ t. round-HasTable response true now w.shared w.cache (h.table t);
    }
    saved-IsServing r response system now w (some bytes) e h =
        let p = persist_blocking system (some name) bytes w.disk in
        let good =
          persist-AllGood read_csv name system bytes w.disk h.file
            (to_save-IsGood read_csv response w.cache bytes e) in
        record {
          file = good.at_end;
          table =
              λ t. round-HasTable response (succeeded p.result) now w.shared w.cache (h.table t);
        }

    killed_disk :
        (response : Option Response) (system : System) (w : World) (out : Option Bytes)
        {p : Persisted} (disk : Disk)
        → to_save read_csv response w.cache ≡ out
        → persisted read_csv name system out w.disk ≡ some p
        → Memᴰ disk p.seen
        → IsGood read_csv (contents (w.disk name))
        → IsGood read_csv (contents (disk name))
    killed_disk response system w none disk e f m h = absurd cc
    killed_disk response system w (some bytes) {p} disk e f m h =
        let good =
          persist-AllGood read_csv name system bytes w.disk h
            (to_save-IsGood read_csv response w.cache bytes e) in
        let same : persist_blocking system (some name) bytes w.disk ≡ p = cc in
        good.seen disk (subst (λ (q : Persisted). Memᴰ disk q.seen) (sym same) m)

-- If the state file holds a table that can be loaded when the program is started first, then the
-- file always does: whatever the remote server answers, whichever file operations fail, and however
-- often the program is killed, between two polls or in the middle of saving a table, and started
-- again. And whenever the last start could read the file, a table is served from then on.
pub Lives-IsServing :
    (read_csv : Bytes → List (Option Row)) (name : Bytes) (first : Disk) (r : Bool) (w : World)
    → IsGood read_csv (contents (first name))
    → Lives read_csv name first r w
    → IsServing read_csv name r w
unfolding disk_round
Lives-IsServing read_csv name first _ _ h (booted readable) =
    boot-IsServing read_csv name readable first h
Lives-IsServing read_csv name first r _ h (polled {w = w} response system now l) =
    saved-IsServing read_csv name r response system now w (to_save read_csv response w.cache) refl
      (Lives-IsServing read_csv name first r w h l)
Lives-IsServing read_csv name first _ _ h
      (killed {r} {w} {p} {disk} readable response system l e m) =
    boot-IsServing read_csv name readable disk (
      killed_disk read_csv name response system w (to_save read_csv response w.cache) disk refl e m
        (Lives-IsServing read_csv name first r w h l).file)
Lives-IsServing read_csv name first _ _ h (restarted {r} {w} readable l) =
    boot-IsServing read_csv name readable w.disk (Lives-IsServing read_csv name first r w h l).file
Lives-IsServing read_csv name first r _ h (served {w = w} shared l same) =
    let before = Lives-IsServing read_csv name first r w h l in
    record {
      file = before.file;
      table = λ t.
          let table = before.table t in
          record { clients = table.clients; live = same ∙ table.live };
    }
