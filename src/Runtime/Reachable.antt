-- ===== src/Runtime/Reachable.antt =====
-- The states that the synchronizer of src/runtime.rs reaches.
use mathlib.Core.Path.{subst}
use macmapd.Base.{
  ℕ, ◌≡◌, inl, inr, refl, sym, ap, ◌∙◌, Bool, true, false, Option, none, some, List, Bytes,
  bytes_eq→eq, Bool-cases, ok, err, panic, stuck, context-then-eq-ok, ensure-then-eq-ok, ◌==◌,
}
use macmapd.Text.Utf8.{from_utf8, decode}
use macmapd.Clients.{Clients}
use macmapd.Clients.Table.{Row, TableError, parse}
use macmapd.Clients.Table.Contents.{IsConsistent, parse-Holds, map_err-eq-ok}
use macmapd.Runtime.{
  Shared, SyncError, new_shared, table, csv_utf8, saved_size, saved_table, saved_utf8,
}
use macmapd.Runtime.Sync.{
  Saved, Response, RemoteCache, store_parsed, load_parsed, Sync, Polled, no_cache, is_body,
  parse_as, activate, store, poll, read_body, finish, sync_round, load, found, not_found, failed,
  parse_saved, state_read_error,
}

-- The snapshot is the parsed body of the cache, once there is one, and every snapshot is a
-- consistent table.
pub record IsSynced (read_csv : Bytes → List (Option Row)) (s : Shared) (c : RemoteCache)
    : Type 0 where
  pub from_cache :
      (bytes : Bytes)
      → c.body ≡ some bytes
      → (cs : Clients) × (parse read_csv bytes ≡ ok cs) × (s.snapshot ≡ some cs)
  pub consistent : (cs : Clients) → s.snapshot ≡ some cs → IsConsistent cs

pub is_body→eq : (o : Option Bytes) (bytes : Bytes) → is_body o bytes ≡ true → o ≡ some bytes
is_body→eq none bytes h = cc
is_body→eq (some body) bytes h = ap some (bytes_eq→eq body bytes h)

decoded-eq-some :
    (o : Option Bytes) (bytes text : Bytes)
    → ◌≡◌ {A = Option Bytes} (elim o [ none ↦ none | some cs ↦ some bytes ]) (some text)
    → text ≡ bytes
decoded-eq-some none bytes text h = cc
decoded-eq-some (some cs) bytes text h = cc

-- `from_utf8` gives its argument back.
from_utf8-eq-some : (bytes text : Bytes) → from_utf8 bytes ≡ some text → text ≡ bytes
unfolding from_utf8
from_utf8-eq-some bytes text h = decoded-eq-some (decode bytes) bytes text h

module _ (read_csv : Bytes → List (Option Row)) where
  pub parse_as-eq-ok :
      (wrap : TableError → SyncError) (e : SyncError) (bytes : Bytes) (cs : Clients)
      → parse_as read_csv wrap e bytes ≡ ok cs
      → parse read_csv bytes ≡ ok cs
  unfolding parse_as
  parse_as-eq-ok wrap e bytes cs h =
      let (text, decoded, parsed) = context-then-eq-ok (from_utf8 bytes) e _ h in
      let p = map_err-eq-ok wrap (parse read_csv text) parsed in
      subst (λ t. parse read_csv t ≡ ok cs) (from_utf8-eq-some bytes text decoded) p

  activate-IsSynced :
      (saved : Bool) (now : ℕ) (response : Response) (bytes : Bytes) (cs : Clients) (s : Shared)
      (c : RemoteCache)
      → parse read_csv bytes ≡ ok cs
      → IsSynced read_csv s c
      → IsSynced read_csv
          (activate read_csv saved now response bytes cs s c).shared
          (activate read_csv saved now response bytes cs s c).cache
  unfolding activate
  activate-IsSynced true now response bytes cs s c e h = record {
    from_cache = λ b same.
        let same_bytes : bytes ≡ b = cc in
        (cs, subst (λ t. parse read_csv t ≡ ok cs) same_bytes e, refl);
    consistent = λ d same.
        let same_table : cs ≡ d = cc in
        subst IsConsistent same_table (parse-Holds read_csv bytes cs e).consistent;
  }
  activate-IsSynced false now response bytes cs s c e h = record {
    from_cache = h.from_cache;
    consistent = h.consistent;
  }

  parsed-IsSynced :
      (saved : Bool) (now : ℕ) (response : Response) (bytes : Bytes) (s : Shared) (c : RemoteCache)
      (r : Sync Clients)
      → parse_as read_csv table csv_utf8 bytes ≡ r
      → IsSynced read_csv s c
      → let p : Polled = store_parsed read_csv saved now response bytes r s c in
        IsSynced read_csv p.shared p.cache
  parsed-IsSynced saved now response bytes s c (ok cs) e h =
      activate-IsSynced saved now response bytes cs s c (parse_as-eq-ok table csv_utf8 bytes cs e) h
  parsed-IsSynced saved now response bytes s c (err x) e h = h
  parsed-IsSynced saved now response bytes s c panic e h = h
  parsed-IsSynced saved now response bytes s c stuck e h = h

  store-IsSynced :
      (saved : Bool) (now : ℕ) (response : Response) (body : Sync Bytes) (s : Shared)
      (c : RemoteCache)
      → IsSynced read_csv s c
      → IsSynced read_csv
          (store read_csv saved now response body s c).shared
          (store read_csv saved now response body s c).cache
  unfolding store
  store-IsSynced saved now response (ok bytes) s c h = elim (Bool-cases (is_body c.body bytes)) [
    | inl same ↦ rw same (record {
      from_cache = λ b e. h.from_cache b (is_body→eq c.body bytes same ∙ e);
      consistent = h.consistent;
    })
    | inr other ↦ rw other (parsed-IsSynced saved now response bytes s c _ refl h)
  ]
  store-IsSynced saved now response (err e) s c h = h
  store-IsSynced saved now response panic s c h = h
  store-IsSynced saved now response stuck s c h = h

  finish-IsSynced :
      (now : ℕ) (r : Sync (Unit {0})) (s : Shared) (c : RemoteCache)
      → IsSynced read_csv s c
      → IsSynced read_csv (finish read_csv now r s) c
  unfolding finish
  finish-IsSynced now (ok u) s c h = record { from_cache = h.from_cache; consistent = h.consistent }
  finish-IsSynced now (err e) s c h = record {
    from_cache = h.from_cache;
    consistent = h.consistent;
  }
  finish-IsSynced now panic s c h = h
  finish-IsSynced now stuck s c h = h

  pub poll-IsSynced :
      (response : Option Response) (saved : Bool) (now : ℕ) (s : Shared) (c : RemoteCache)
      → IsSynced read_csv s c
      → IsSynced read_csv
          (poll read_csv response saved now s c).shared
          (poll read_csv response saved now s c).cache
  unfolding poll
  poll-IsSynced none saved now s c h = h
  poll-IsSynced (some response) saved now s c h = elim (Bool-cases (response.status == 304)) [
    | inl cached ↦ rw cached h
    | inr new ↦ rw new (store-IsSynced saved now response (read_body response) s c h)
  ]

  pub parse_saved-eq-ok :
      (bytes : Bytes) (cs : Clients)
      → parse_saved read_csv bytes ≡ ok cs
      → parse read_csv bytes ≡ ok cs
  unfolding parse_saved
  parse_saved-eq-ok bytes cs h =
      let (short, e) =
        ensure-then-eq-ok _ saved_size (parse_as read_csv saved_table saved_utf8 bytes) h in
      parse_as-eq-ok saved_table saved_utf8 bytes cs e

  loaded-IsSynced :
      (bytes : Bytes) (r : Sync Clients)
      → parse_saved read_csv bytes ≡ r
      → IsSynced read_csv (load_parsed read_csv r new_shared) no_cache
  unfolding state_read_error
  loaded-IsSynced bytes (ok cs) e =
      let parsed = parse_saved-eq-ok bytes cs e in
      record {
        from_cache = λ b same. cc;
        consistent = λ d same.
            let same_table : cs ≡ d = cc in
            subst IsConsistent same_table (parse-Holds read_csv bytes cs parsed).consistent;
      }
  loaded-IsSynced bytes (err x) e = record { from_cache = λ b same. cc; consistent = λ d same. cc }
  loaded-IsSynced bytes panic e = record { from_cache = λ b same. cc; consistent = λ d same. cc }
  loaded-IsSynced bytes stuck e = record { from_cache = λ b same. cc; consistent = λ d same. cc }

  no_clients-IsSynced : (t : Shared) → t.snapshot ≡ none → IsSynced read_csv t no_cache
  no_clients-IsSynced t e = record { from_cache = λ b same. cc; consistent = λ d same. cc }

  load-IsSynced : (saved : Saved) → IsSynced read_csv (load read_csv saved new_shared) no_cache
  unfolding load state_read_error
  load-IsSynced (found bytes) = loaded-IsSynced bytes (parse_saved read_csv bytes) refl
  load-IsSynced not_found = no_clients-IsSynced _ refl
  load-IsSynced failed = no_clients-IsSynced _ refl

-- The states of the program: the synchronizer loads the saved table and then polls for ever, while
-- the other tasks change what they like but the snapshot.
pub data Reaches (read_csv : Bytes → List (Option Row)) : Shared → RemoteCache → Type 0 where
  started : (saved : Saved) → Reaches read_csv (load read_csv saved new_shared) no_cache
  polled :
      {s : Shared} {c : RemoteCache} (response : Option Response) (saved : Bool) (now : ℕ)
      → Reaches read_csv s c
      → Reaches read_csv
          (sync_round read_csv response saved now (s, c)).0
          (sync_round read_csv response saved now (s, c)).1
  served :
      {s t : Shared} {c : RemoteCache}
      → Reaches read_csv s c
      → t.snapshot ≡ s.snapshot
      → Reaches read_csv t c

-- In every state that the program reaches, whatever the server sends, the disk does and the other
-- tasks do between two polls, the snapshot is a consistent table of well-formed clients, and once a
-- download is cached, the snapshot is the parsed table of exactly that download.
pub Reaches-IsSynced :
    (read_csv : Bytes → List (Option Row)) (s : Shared) (c : RemoteCache)
    → Reaches read_csv s c
    → IsSynced read_csv s c
unfolding sync_round
Reaches-IsSynced read_csv _ _ (started saved) = load-IsSynced read_csv saved
Reaches-IsSynced read_csv _ _ (polled {s} {c} response saved now r) =
    finish-IsSynced read_csv now (poll read_csv response saved now s c).result
      (poll read_csv response saved now s c).shared (poll read_csv response saved now s c).cache
      (poll-IsSynced read_csv response saved now s c (Reaches-IsSynced read_csv s c r))
Reaches-IsSynced read_csv _ _ (served {s} {t} {c} r same) =
    let h = Reaches-IsSynced read_csv s c r in
    record {
      from_cache = λ b e. let (cs, parsed, live) = h.from_cache b e in (cs, parsed, same ∙ live);
      consistent = λ cs e. h.consistent cs (sym same ∙ e);
    }
