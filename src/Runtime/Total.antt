-- ===== src/Runtime/Total.antt =====
-- That the synchronizer of src/runtime.rs never panics: what it computes on a response and on the
-- saved file comes back, so that its task goes on.
use macmapd.Base.{
  ℕ, ◌≡◌, refl, true, false, Bool, Option, none, some, List, [], ◌∷◌, ◌++◌, Bytes, Result, ok, err,
  panic, stuck, Bool-cases, inl, inr, ◌==◌, ◌>>=◌,
}
use macmapd.Base.Ensures.{Total, Total-ok, Total-err, Total-ensure, Total-context}
use macmapd.Text.Utf8.{from_utf8}
use macmapd.Clients.{Clients}
use macmapd.Clients.Table.{Row, TableError, parse}
use macmapd.Clients.Table.Total.{parse-Total, Total-map_err}
use macmapd.Runtime.{
  Shared, SyncError, chunk, not_cached, fetch, save, table, csv_utf8, saved_table, saved_utf8,
}
use macmapd.Runtime.Sync.{
  Saved, found, not_found, failed, Response, RemoteCache, Sync, read_chunks, read_body, is_body,
  parse_as, activate, store_parsed, store, unchanged, poll, sync_round, goes_on, sync_task,
  parse_saved, load, load_task,
}

read_chunks-Total :
    (bytes : Bytes) (chunks : List (Option Bytes)) → Total (read_chunks bytes chunks)
unfolding read_chunks
read_chunks-Total bytes [] = Total-ok bytes
read_chunks-Total bytes (none ∷ chunks) = Total-err chunk
read_chunks-Total bytes (some piece ∷ chunks) =
    Total-ensure _ _ _ λ _. read_chunks-Total (bytes ++ piece) chunks

read_body-Total : (response : Response) → Total (read_body response)
unfolding read_body
read_body-Total response =
    Total-ensure _ _ _
      λ _. Total-ensure _ _ _ λ _. Total-ensure _ _ _ λ _. read_chunks-Total [] response.chunks

-- A task goes on behind what comes back.
goes_on-ok :
    {E A : Type 0} (r : Sync A) → Total r → ◌≡◌ {A = Result E (Unit {0})} (goes_on r) (ok tt)
unfolding goes_on
goes_on-ok (ok a) t = refl
goes_on-ok (err e) t = refl
goes_on-ok panic t = absurd t.returns
goes_on-ok stuck t = absurd t.returns

module _ (read_csv : Bytes → List (Option Row)) where
  parse_as-Total :
      (wrap : TableError → SyncError) (e : SyncError) (bytes : Bytes)
      → Total (parse_as read_csv wrap e bytes)
  unfolding parse_as
  parse_as-Total wrap e bytes =
      Total-context (from_utf8 bytes) _ _
        λ text _. Total-map_err wrap (parse read_csv text) (parse-Total read_csv text)

  store_parsed-Total :
      (saved : Bool) (now : ℕ) (response : Response) (bytes : Bytes) (r : Sync Clients) (s : Shared)
      (c : RemoteCache)
      → Total r
      → Total (store_parsed read_csv saved now response bytes r s c).result
  unfolding activate
  store_parsed-Total true now response bytes (ok cs) s c t = Total-ok tt
  store_parsed-Total false now response bytes (ok cs) s c t = Total-err save
  store_parsed-Total saved now response bytes (err e) s c t = Total-err e
  store_parsed-Total saved now response bytes panic s c t = absurd t.returns
  store_parsed-Total saved now response bytes stuck s c t = absurd t.returns

  store-Total :
      (saved : Bool) (now : ℕ) (response : Response) (body : Sync Bytes) (s : Shared)
      (c : RemoteCache)
      → Total body
      → Total (store read_csv saved now response body s c).result
  unfolding store
  store-Total saved now response (ok bytes) s c t = elim (Bool-cases (is_body c.body bytes)) [
    | inl same ↦ rw same (Total-ok tt)
    | inr other ↦
        rw other
          (store_parsed-Total saved now response bytes _ s c (parse_as-Total table csv_utf8 bytes))
  ]
  store-Total saved now response (err e) s c t = Total-err e
  store-Total saved now response panic s c t = absurd t.returns
  store-Total saved now response stuck s c t = absurd t.returns

  unchanged-Total :
      (etag modified body : Option Bytes)
      → Total (unchanged read_csv (record { etag = etag; modified = modified; body = body }))
  unchanged-Total etag modified none = Total-err not_cached
  unchanged-Total etag modified (some bytes) = Total-ok tt

  poll-Total :
      (response : Option Response) (saved : Bool) (now : ℕ) (s : Shared) (c : RemoteCache)
      → Total (poll read_csv response saved now s c).result
  unfolding poll
  poll-Total none saved now s c = Total-err fetch
  poll-Total (some response) saved now s c = elim (Bool-cases (response.status == 304)) [
    | inl cached ↦ rw cached (unchanged-Total c.etag c.modified c.body)
    | inr new ↦
        rw new (store-Total saved now response (read_body response) s c (read_body-Total response))
  ]

  -- A round ends, and leaves the state of `sync_round`.
  pub sync_task-ok :
      {E : Type 0} (response : Option Response) (saved : Bool) (now : ℕ) (s : Shared)
      (c : RemoteCache)
      → sync_task read_csv {E = E} response saved now (s, c)
        ≡ ok (sync_round read_csv response saved now (s, c))
  unfolding sync_task ◌>>=◌
  sync_task-ok {E} response saved now s c =
      rw
        (goes_on-ok {E = E} (poll read_csv response saved now s c).result
          (poll-Total response saved now s c))
        refl

  parse_saved-Total : (bytes : Bytes) → Total (parse_saved read_csv bytes)
  unfolding parse_saved
  parse_saved-Total bytes = Total-ensure _ _ _ λ _. parse_as-Total saved_table saved_utf8 bytes

  -- The start ends, and leaves the state of `load`.
  pub load_task-ok :
      {E : Type 0} (saved : Saved) (s : Shared)
      → load_task read_csv {E = E} saved s ≡ ok (load read_csv saved s)
  unfolding load_task ◌>>=◌
  load_task-ok {E} (found bytes) s =
      rw (goes_on-ok {E = E} (parse_saved read_csv bytes) (parse_saved-Total bytes)) refl
  load_task-ok not_found s = refl
  load_task-ok failed s = refl
