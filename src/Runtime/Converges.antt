-- ===== src/Runtime/Converges.antt =====
-- What one good answer of the remote server does to the synchronizer of src/runtime.rs.
use macmapd.Base.{
  ℕ, ◌≡◌, refl, sym, ap, ◌∙◌, true, false, Option, none, some, List, Bytes, ◌==◌, ok, Bool-cases,
  inl, inr,
}
use macmapd.Base.Ensures.{ok_inj}
use macmapd.Clients.{Clients}
use macmapd.Clients.Table.{Row}
use macmapd.Runtime.{Shared, table, csv_utf8}
use macmapd.Runtime.Sync.{
  Response, RemoteCache, Polled, is_body, parse_as, read_body, sync_round, store, activate, poll,
  finish,
}
use macmapd.Runtime.Reachable.{IsSynced, Reaches, Reaches-IsSynced, is_body→eq, parse_as-eq-ok}

-- A round that brought the table `cs` of the download `bytes`.
pub record IsFresh (now : ℕ) (bytes : Bytes) (cs : Clients) (w : Shared × RemoteCache)
    : Type 0 where
  pub snapshot : w.0.snapshot ≡ some cs
  pub last_success : w.0.status.last_success ≡ some now
  pub last_error : w.0.status.last_error ≡ none
  pub body : w.1.body ≡ some bytes

module _ (read_csv : Bytes → List (Option Row)) where
  record IsStored (bytes : Bytes) (cs : Clients) (p : Polled) : Type 0 where
    result : p.result ≡ ok tt
    snapshot : p.shared.snapshot ≡ some cs
    body : p.cache.body ≡ some bytes

  store-IsStored :
      (now : ℕ) (response : Response) (bytes : Bytes) (cs : Clients) (s : Shared) (c : RemoteCache)
      → IsSynced read_csv s c
      → parse_as read_csv table csv_utf8 bytes ≡ ok cs
      → IsStored bytes cs (store read_csv true now response (ok bytes) s c)
  unfolding store activate
  store-IsStored now response bytes cs s c h e = elim (Bool-cases (is_body c.body bytes)) [
    | inl same ↦
        let (live, parsed, there) = h.from_cache bytes (is_body→eq c.body bytes same) in
        let same_table : live ≡ cs =
          ok_inj (sym parsed ∙ parse_as-eq-ok read_csv table csv_utf8 bytes cs e) in
        rw same (record { result = refl; snapshot = there ∙ ap some same_table; body = refl })
    | inr other ↦ rw (other, e) (record { result = refl; snapshot = refl; body = refl })
  ]

  finish-IsFresh :
      (now : ℕ) (bytes : Bytes) (cs : Clients) (p : Polled)
      → IsStored bytes cs p
      → IsFresh now bytes cs (finish read_csv now p.result p.shared, p.cache)
  unfolding finish
  finish-IsFresh now bytes cs p h =
      rw (h.result)
        (record { snapshot = h.snapshot; last_success = refl; last_error = refl; body = h.body })

-- Whatever happened before, one answer of the remote server with a table that can be read, and that
-- can be saved, is enough: after this round exactly its table is served, the round is recorded as
-- the last success, and no error is left.
pub Reaches-IsFresh :
    (read_csv : Bytes → List (Option Row)) (now : ℕ) (response : Response) (bytes : Bytes)
    (cs : Clients) (s : Shared) (c : RemoteCache)
    → Reaches read_csv s c
    → (response.status == 304) ≡ false
    → read_body response ≡ ok bytes
    → parse_as read_csv table csv_utf8 bytes ≡ ok cs
    → IsFresh now bytes cs (sync_round read_csv (some response) true now (s, c))
unfolding sync_round poll
Reaches-IsFresh read_csv now response bytes cs s c r new body parsed =
    let stored =
      store-IsStored read_csv now response bytes cs s c (Reaches-IsSynced read_csv s c r) parsed in
    rw (new, body)
      (finish-IsFresh read_csv now bytes cs (store read_csv true now response (ok bytes) s c)
        stored)
