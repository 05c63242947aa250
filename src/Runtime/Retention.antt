-- ===== src/Runtime/Retention.antt =====
-- What a failed poll of src/runtime.rs does to the state.
use macmapd.Base.{
  ℕ, ◌≡◌, ◌⊎◌, inl, inr, refl, Bool, true, false, Option, none, some, List, Bytes, Bool-cases, ok,
  err, panic, stuck, ◌==◌,
}
use macmapd.Clients.{Clients}
use macmapd.Clients.Table.{Row}
use macmapd.Runtime.{Shared}
use macmapd.Runtime.Sync.{
  Response, RemoteCache, store_parsed, Sync, Polled, is_body, activate, store, poll, read_body,
}

-- What a poll that fails keeps.
pub record Keeps (s : Shared) (c : RemoteCache) (p : Polled) : Type 0 where
  pub cache : p.cache ≡ c
  pub snapshot : p.shared.snapshot ≡ s.snapshot
  pub status : p.shared.status ≡ s.status

module _ (read_csv : Bytes → List (Option Row)) where
  store_parsed-Keeps :
      (saved : Bool) (now : ℕ) (response : Response) (bytes : Bytes) (r : Sync Clients) (s : Shared)
      (c : RemoteCache)
      → let p : Polled = store_parsed read_csv saved now response bytes r s c in
        (p.result ≡ ok tt) ⊎ Keeps s c p
  unfolding activate
  store_parsed-Keeps true now response bytes (ok cs) s c = inl refl
  store_parsed-Keeps false now response bytes (ok cs) s c =
      inr (record { cache = refl; snapshot = refl; status = refl })
  store_parsed-Keeps saved now response bytes (err e) s c =
      inr (record { cache = refl; snapshot = refl; status = refl })
  store_parsed-Keeps saved now response bytes panic s c =
      inr (record { cache = refl; snapshot = refl; status = refl })
  store_parsed-Keeps saved now response bytes stuck s c =
      inr (record { cache = refl; snapshot = refl; status = refl })

  store-Keeps :
      (saved : Bool) (now : ℕ) (response : Response) (body : Sync Bytes) (s : Shared)
      (c : RemoteCache)
      → let p : Polled = store read_csv saved now response body s c in
        (p.result ≡ ok tt) ⊎ Keeps s c p
  unfolding store
  store-Keeps saved now response (ok bytes) s c = elim (Bool-cases (is_body c.body bytes)) [
    | inl same ↦ rw same (inl refl)
    | inr other ↦ rw other (store_parsed-Keeps saved now response bytes _ s c)
  ]
  store-Keeps saved now response (err e) s c =
      inr (record { cache = refl; snapshot = refl; status = refl })
  store-Keeps saved now response panic s c =
      inr (record { cache = refl; snapshot = refl; status = refl })
  store-Keeps saved now response stuck s c =
      inr (record { cache = refl; snapshot = refl; status = refl })

  -- A poll either succeeds, or leaves the cache, the snapshot and the status as they were: a failed
  -- download, an error status, a table that does not parse and a file that cannot be written lose
  -- nothing.
  pub poll-Keeps :
      (response : Option Response) (saved : Bool) (now : ℕ) (s : Shared) (c : RemoteCache)
      → ((poll read_csv response saved now s c).result ≡ ok tt)
        ⊎ Keeps s c (poll read_csv response saved now s c)
  unfolding poll
  poll-Keeps none saved now s c = inr (record { cache = refl; snapshot = refl; status = refl })
  poll-Keeps (some response) saved now s c = elim (Bool-cases (response.status == 304)) [
    | inl cached ↦ rw cached (inr (record { cache = refl; snapshot = refl; status = refl }))
    | inr new ↦ rw new (store-Keeps saved now response (read_body response) s c)
  ]
