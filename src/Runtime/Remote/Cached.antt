-- ===== src/Runtime/Remote/Cached.antt =====
-- What a successful poll of src/runtime.rs leaves in its cache, where the server is honest.
use mathlib.Core.Path.{subst}
use macmapd.Base.{
  ℕ, ◌≡◌, inl, inr, refl, sym, ap, ◌∙◌, Bool, true, false, ◌&&◌, not, Option, none, some, List, [],
  ◌∷◌, ◌++◌, Bytes, ◌==◌, ==_iff, leb, ltb, length, ◌+◌, ok, err, panic, stuck, ensure-then-eq-ok,
  Bool-cases, append_assoc, append-nil,
}
use macmapd.Base.Ensures.{ok_inj}
use macmapd.Clients.{Clients}
use macmapd.Clients.Table.{Row}
use macmapd.Runtime.{Shared, not_cached, csv_size, http_error, unexpected_status, table, csv_utf8}
use macmapd.Runtime.Sync.{
  Response, RemoteCache, Polled, Sync, fits, max_csv_bytes, read_chunks, read_body, remember,
  is_body, parse_as, store, store_parsed, activate, poll,
}
use macmapd.Runtime.Remote.{Request, request_of, IsWhole, empty, piece, IsHonest}

-- A body that was read came whole, behind what was there.
read_chunks-IsWhole :
    (chunks : List (Option Bytes)) (acc bytes : Bytes)
    → read_chunks acc chunks ≡ ok bytes
    → (rest : Bytes) × IsWhole chunks rest × (acc ++ rest ≡ bytes)
unfolding read_chunks
read_chunks-IsWhole [] acc bytes e = ([], empty, append-nil acc ∙ ok_inj e)
read_chunks-IsWhole (none ∷ chunks) acc bytes e = cc
read_chunks-IsWhole (some next ∷ chunks) acc bytes e =
    let (short, e₁) =
      ensure-then-eq-ok (leb (length acc + length next) max_csv_bytes) csv_size
        (read_chunks (acc ++ next) chunks) e in
    let (rest, whole, same) = read_chunks-IsWhole chunks (acc ++ next) bytes e₁ in
    (next ++ rest, piece next whole, sym (append_assoc acc next rest) ∙ same)

-- A body that was read is that of a 200.
record IsBody (response : Response) (bytes : Bytes) : Type 0 where
  is_ok : response.status ≡ 200
  whole : IsWhole response.chunks bytes

read_body-IsBody :
    (response : Response) (bytes : Bytes) → read_body response ≡ ok bytes → IsBody response bytes
unfolding read_body
read_body-IsBody response bytes e =
    let (a, e₁) =
      ensure-then-eq-ok (not (leb 400 response.status && ltb response.status 600))
        (http_error response.status) _ e in
    let (b, e₂) =
      ensure-then-eq-ok (response.status == 200) (unexpected_status response.status) _ e₁ in
    let (c, e₃) =
      ensure-then-eq-ok (fits response.content_length) csv_size (read_chunks [] response.chunks)
        e₂ in
    let (rest, whole, same) = read_chunks-IsWhole response.chunks [] bytes e₃ in
    record {
      is_ok = (==_iff response.status 200).0 b;
      whole = subst (IsWhole response.chunks) same whole;
    }

module _ (read_csv : Bytes → List (Option Row)) where
  -- What a successful store was made of.
  record IsKept (response : Response) (r : Sync Bytes) (p : Polled) : Type 0 where
    bytes : Bytes
    read : r ≡ ok bytes
    cache : p.cache ≡ remember read_csv response bytes

  store_parsed-IsKept :
      (saved : Bool) (now : ℕ) (response : Response) (bytes : Bytes) (r : Sync Clients) (s : Shared)
      (c : RemoteCache)
      → let p : Polled = store_parsed read_csv saved now response bytes r s c in
        p.result ≡ ok tt → p.cache ≡ remember read_csv response bytes
  unfolding activate
  store_parsed-IsKept true now response bytes (ok cs) s c e = refl
  store_parsed-IsKept false now response bytes (ok cs) s c e = absurd cc
  store_parsed-IsKept saved now response bytes (err x) s c e = absurd cc
  store_parsed-IsKept saved now response bytes panic s c e = absurd cc
  store_parsed-IsKept saved now response bytes stuck s c e = absurd cc

  store-IsKept :
      (saved : Bool) (now : ℕ) (response : Response) (r : Sync Bytes) (s : Shared) (c : RemoteCache)
      → (store read_csv saved now response r s c).result ≡ ok tt
      → IsKept response r (store read_csv saved now response r s c)
  unfolding store
  store-IsKept saved now response (ok bytes) s c e = elim (Bool-cases (is_body c.body bytes)) [
    | inl same ↦ rw same (record { bytes = bytes; read = refl; cache = refl })
    | inr other ↦
        let stored = rw other at e in
        rw other (record {
          bytes = bytes;
          read = refl;
          cache =
              store_parsed-IsKept saved now response bytes (parse_as read_csv table csv_utf8 bytes)
                s c stored;
        })
  ]
  store-IsKept saved now response (err x) s c e = absurd cc
  store-IsKept saved now response panic s c e = absurd cc
  store-IsKept saved now response stuck s c e = absurd cc

  module _ (Validates : Option Bytes → Option Bytes → Bytes → Type 0) where
    -- The validators of the cache are those of its body.
    pub record IsValidated (c : RemoteCache) : Type 0 where
      pub validates : (bytes : Bytes) → c.body ≡ some bytes → Validates c.etag c.modified bytes

    -- A poll whose cache holds what the server has.
    pub record IsUpToDate (content : Bytes) (c : RemoteCache) : Type 0 where
      pub body : c.body ≡ some content
      pub validates : Validates c.etag c.modified content

    module _ (content : Bytes) (answer : Request → Response)
        (honest : IsHonest Validates content answer) where
      cached :
          (c : RemoteCache) (o : Option Bytes)
          → c.body ≡ o
          → (answer (request_of c)).status ≡ 304
          → IsValidated c
          → ◌≡◌ {A = Sync (Unit {0})} (elim o [ none ↦ err not_cached | some body ↦ ok tt ]) (ok tt)
          → IsUpToDate content c
      unfolding request_of
      cached c none e status v done = absurd cc
      cached c (some bytes) e status v done =
          let same = honest.unchanged (request_of c) bytes status (v.validates bytes e) in
          record {
            body = e ∙ ap some same;
            validates = subst (Validates c.etag c.modified) same (v.validates bytes e);
          }

      kept :
          (c : RemoteCache) (p : Polled)
          → IsKept (answer (request_of c)) (read_body (answer (request_of c))) p
          → IsUpToDate content p.cache
      kept c p k =
          let q = request_of c in
          let b = read_body-IsBody (answer q) k.bytes k.read in
          let same = honest.body q k.bytes b.is_ok b.whole in
          record {
            body = ap (λ (t : RemoteCache). t.body) k.cache ∙ ap some same;
            validates =
                subst (λ (t : RemoteCache). Validates t.etag t.modified content) (sym k.cache)
                  (honest.validators q b.is_ok);
          }

      pub poll-IsUpToDate :
          (saved : Bool) (now : ℕ) (s : Shared) (c : RemoteCache)
          → IsValidated c
          → let p : Polled = poll read_csv (some (answer (request_of c))) saved now s c in
            p.result ≡ ok tt → IsUpToDate content p.cache
      unfolding poll
      poll-IsUpToDate saved now s c v done =
          let response = answer (request_of c) in
          elim (Bool-cases (response.status == 304)) [
            | inl old ↦
                let ended = rw old at done in
                rw old (cached c c.body refl ((==_iff response.status 304).0 old) v ended)
            | inr new ↦
                let ended = rw new at done in
                rw new (
                  kept c (store read_csv saved now response (read_body response) s c)
                    (store-IsKept saved now response (read_body response) s c ended))
          ]
