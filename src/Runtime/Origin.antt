-- ===== src/Runtime/Origin.antt =====
-- Where the table in service comes from: what `load` and a round of the loop of src/runtime.rs do to
-- the snapshot and to the counters of the DHCP server.
use macmapd.Base.{
  ℕ, ◌≡◌, ◌⊎◌, inl, inr, refl, Bool, true, false, Option, none, some, List, Bytes, Bool-cases, ok,
  err, panic, stuck, ◌==◌,
}
use macmapd.Clients.{Clients}
use macmapd.Clients.Table.{Row, parse}
use macmapd.Runtime.{Shared, table, csv_utf8}
use macmapd.Runtime.Sync.{
  Saved, found, not_found, failed, Response, RemoteCache, Sync, store_parsed, load_parsed, is_body,
  parse_as, parse_saved, activate, store, poll, read_body, finish, sync_round, load,
  state_read_error,
}
use macmapd.Runtime.Reachable.{parse_as-eq-ok, parse_saved-eq-ok}

module _ (read_csv : Bytes → List (Option Row)) where
  -- The step from `s` to `t` reads a table in bytes that satisfy `P` at most, and counts neither
  -- requests nor responses.
  pub record Brings (P : Bytes → Type 0) (s t : Shared) : Type 0 where
    pub snapshot :
        (t.snapshot ≡ s.snapshot)
        ⊎ ((bytes : Bytes) × (cs : Clients) × P bytes
            × (parse read_csv bytes ≡ ok cs)
            × (t.snapshot ≡ some cs))
    pub requests : t.requests ≡ s.requests
    pub responses : t.responses ≡ s.responses

  -- Only the status and the other counters change.
  kept :
      (P : Bytes → Type 0) (s t : Shared)
      → t.snapshot ≡ s.snapshot
      → t.requests ≡ s.requests
      → t.responses ≡ s.responses
      → Brings P s t
  kept P s t e f g = record { snapshot = inl e; requests = f; responses = g }

  activate-Brings :
      (saved : Bool) (now : ℕ) (response : Response) (bytes : Bytes) (cs : Clients) (s : Shared)
      (c : RemoteCache)
      → read_body response ≡ ok bytes
      → parse read_csv bytes ≡ ok cs
      → Brings
          (λ b. read_body response ≡ ok b)
          s
          (activate read_csv saved now response bytes cs s c).shared
  unfolding activate
  activate-Brings true now response bytes cs s c b e = record {
    snapshot = inr (bytes, cs, b, e, refl);
    requests = refl;
    responses = refl;
  }
  activate-Brings false now response bytes cs s c b e = kept _ s _ refl refl refl

  parsed-Brings :
      (saved : Bool) (now : ℕ) (response : Response) (bytes : Bytes) (r : Sync Clients) (s : Shared)
      (c : RemoteCache)
      → read_body response ≡ ok bytes
      → parse_as read_csv table csv_utf8 bytes ≡ r
      → Brings
          (λ b. read_body response ≡ ok b)
          s
          (store_parsed read_csv saved now response bytes r s c).shared
  parsed-Brings saved now response bytes (ok cs) s c b e =
      activate-Brings saved now response bytes cs s c b
        (parse_as-eq-ok read_csv table csv_utf8 bytes cs e)
  parsed-Brings saved now response bytes (err x) s c b e = kept _ s s refl refl refl
  parsed-Brings saved now response bytes panic s c b e = kept _ s s refl refl refl
  parsed-Brings saved now response bytes stuck s c b e = kept _ s s refl refl refl

  store-Brings :
      (saved : Bool) (now : ℕ) (response : Response) (body : Sync Bytes) (s : Shared)
      (c : RemoteCache)
      → read_body response ≡ body
      → Brings
          (λ b. read_body response ≡ ok b)
          s
          (store read_csv saved now response body s c).shared
  unfolding store
  store-Brings saved now response (ok bytes) s c e = elim (Bool-cases (is_body c.body bytes)) [
    | inl same ↦ rw same (kept _ s s refl refl refl)
    | inr other ↦ rw other (parsed-Brings saved now response bytes _ s c e refl)
  ]
  store-Brings saved now response (err x) s c e = kept _ s s refl refl refl
  store-Brings saved now response panic s c e = kept _ s s refl refl refl
  store-Brings saved now response stuck s c e = kept _ s s refl refl refl

  -- The bodies that a response carries.
  abbrev pub HasBody : Option Response → Bytes → Type 0
  HasBody response bytes = (r : Response) × (response ≡ some r) × (read_body r ≡ ok bytes)

  poll-Brings :
      (response : Option Response) (saved : Bool) (now : ℕ) (s : Shared) (c : RemoteCache)
      → Brings (HasBody response) s (poll read_csv response saved now s c).shared
  unfolding poll
  poll-Brings none saved now s c = kept _ s s refl refl refl
  poll-Brings (some response) saved now s c = elim (Bool-cases (response.status == 304)) [
    | inl cached ↦ rw cached (kept _ s s refl refl refl)
    | inr new ↦ rw new (carried (store-Brings saved now response (read_body response) s c refl))
  ]
    where
      carried :
          {t : Shared}
          → Brings (λ b. read_body response ≡ ok b) s t
          → Brings (HasBody (some response)) s t
      carried b = record {
        snapshot = elim b.snapshot [
          | inl same ↦ inl same
          | inr (bytes, cs, body, parsed, is) ↦ inr (bytes, cs, (response, refl, body), parsed, is)
        ];
        requests = b.requests;
        responses = b.responses;
      }

  finish-Brings :
      (P : Bytes → Type 0) (now : ℕ) (r : Sync (Unit {0})) (s t : Shared)
      → Brings P s t
      → Brings P s (finish read_csv now r t)
  unfolding finish
  finish-Brings P now (ok u) s t b = record {
    snapshot = b.snapshot;
    requests = b.requests;
    responses = b.responses;
  }
  finish-Brings P now (err e) s t b = record {
    snapshot = b.snapshot;
    requests = b.requests;
    responses = b.responses;
  }
  finish-Brings P now panic s t b = b
  finish-Brings P now stuck s t b = b

  -- A round puts the table of its response in service, or keeps the one that is there.
  pub sync_round-Brings :
      (response : Option Response) (saved : Bool) (now : ℕ) (s : Shared) (c : RemoteCache)
      → Brings (HasBody response) s (sync_round read_csv response saved now (s, c)).0
  unfolding sync_round
  sync_round-Brings response saved now s c =
      finish-Brings (HasBody response) now (poll read_csv response saved now s c).result s
        (poll read_csv response saved now s c).shared (poll-Brings response saved now s c)

  loaded-Brings :
      (bytes : Bytes) (r : Sync Clients) (s : Shared)
      → parse_saved read_csv bytes ≡ r
      → Brings (λ b. found bytes ≡ found b) s (load_parsed read_csv r s)
  unfolding state_read_error
  loaded-Brings bytes (ok cs) s e = record {
    snapshot = inr (bytes, cs, refl, parse_saved-eq-ok read_csv bytes cs e, refl);
    requests = refl;
    responses = refl;
  }
  loaded-Brings bytes (err x) s e = kept _ s _ refl refl refl
  loaded-Brings bytes panic s e = kept _ s s refl refl refl
  loaded-Brings bytes stuck s e = kept _ s s refl refl refl

  -- So does the start, with the saved table.
  pub load-Brings :
      (saved : Saved) (s : Shared) → Brings (λ b. saved ≡ found b) s (load read_csv saved s)
  unfolding load state_read_error
  load-Brings (found bytes) s = loaded-Brings bytes (parse_saved read_csv bytes) s refl
  load-Brings not_found s = kept _ s s refl refl refl
  load-Brings failed s = kept _ s _ refl refl refl
