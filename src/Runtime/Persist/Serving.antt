-- ===== src/Runtime/Persist/Serving.antt =====
-- The table of clients of src/runtime.rs across crashes and restarts.
use mathlib.Core.Path.{subst}
use mathlib.Core.List.{Memᴰ}
use mathlib.Core.List.Memᴰ.{head, tail}
use macmapd.Base.{
  ◌≡◌, ◌≤◌, ◌+◌, ◌⊎◌, inl, inr, refl, sym, ap, Bool, true, false, ◌&&◌, not, Option, none, some,
  List, [], ◌∷◌, ◌++◌, Bytes, All, ◌==◌, leb, ltb, le→leb, leb→le, length, length-append, ok, err,
  panic, stuck, ◌>>=◌, arith, context, map_err, Bool-cases, ensure-then-eq-ok, context-then-eq-ok,
  ensure,
}
use macmapd.Base.Ensures.{ok_inj}
use macmapd.Text.Utf8.{from_utf8}
use macmapd.Clients.{Clients}
use macmapd.Clients.Table.{Row, TableError, parse}
use macmapd.Clients.Table.Contents.{map_err-eq-ok}
use macmapd.Runtime.{
  SyncError, table, csv_utf8, csv_size, saved_utf8, saved_table, http_error, unexpected_status,
}
use macmapd.Runtime.Sync.{
  Response, RemoteCache, Sync, is_body, parse_as, read_body, read_chunks, fits, max_csv_bytes,
  parse_saved,
}
use macmapd.Runtime.Persist.{
  contents, Disk, PersistError, Persisted, System, persist_blocking, no_directory, refused,
  temp_name,
}
use macmapd.Runtime.Persist.Steps.{flushed_file, IsEither}
use macmapd.Runtime.Persist.Atomic.{persist_blocking-IsSaved}
use macmapd.Runtime.Persist.Restart.{accepted, new_body, to_save}

read_chunks-fits :
    (chunks : List (Option Bytes)) (acc bytes : Bytes)
    → length acc ≤ max_csv_bytes
    → read_chunks acc chunks ≡ ok bytes
    → length bytes ≤ max_csv_bytes
unfolding read_chunks
read_chunks-fits [] acc bytes h e = subst (λ (t : Bytes). length t ≤ max_csv_bytes) (ok_inj e) h
read_chunks-fits (none ∷ chunks) acc bytes h e = cc
read_chunks-fits (some piece ∷ chunks) acc bytes h e =
    let (short, rest) =
      ensure-then-eq-ok (leb (length acc + length piece) max_csv_bytes) csv_size
        (read_chunks (acc ++ piece) chunks) e in
    let n = leb→le (length acc + length piece) max_csv_bytes short in
    read_chunks-fits chunks (acc ++ piece) bytes (omega (arith, n, length-append acc piece)) rest

read_body-fits :
    (response : Response) (bytes : Bytes)
    → read_body response ≡ ok bytes
    → length bytes ≤ max_csv_bytes
unfolding read_body
read_body-fits response bytes e =
    let (a, e₁) =
      ensure-then-eq-ok (not (leb 400 response.status && ltb response.status 600))
        (http_error response.status) _ e in
    let (b, e₂) =
      ensure-then-eq-ok (response.status == 200) (unexpected_status response.status) _ e₁ in
    let (c, e₃) =
      ensure-then-eq-ok (fits response.content_length) csv_size (read_chunks [] response.chunks)
        e₂ in
    read_chunks-fits response.chunks [] bytes (omega arith) e₃

module _ (read_csv : Bytes → List (Option Row)) where
  -- The state file holds a table that can be loaded.
  pub record IsGood (content : Option Bytes) : Type 0 where
    pub bytes : Bytes
    pub clients : Clients
    pub there : content ≡ some bytes
    pub loads : parse_saved read_csv bytes ≡ ok clients

  parse_as-other :
      (wrap wrap' : TableError → SyncError) (e e' : SyncError) (bytes : Bytes) (cs : Clients)
      → parse_as read_csv wrap e bytes ≡ ok cs
      → parse_as read_csv wrap' e' bytes ≡ ok cs
  unfolding parse_as ◌>>=◌ context map_err
  parse_as-other wrap wrap' e e' bytes cs h =
      let (text, decoded, parsed) = context-then-eq-ok (from_utf8 bytes) e _ h in
      let p : parse read_csv text ≡ ok cs = map_err-eq-ok wrap (parse read_csv text) parsed in
      rw (decoded, p) refl

  parse_saved-ok :
      (bytes : Bytes) (cs : Clients)
      → length bytes ≤ max_csv_bytes
      → parse_as read_csv table csv_utf8 bytes ≡ ok cs
      → parse_saved read_csv bytes ≡ ok cs
  unfolding parse_saved ◌>>=◌ ensure
  parse_saved-ok bytes cs h e =
      let short : leb (length bytes) max_csv_bytes ≡ true = le→leb (length bytes) max_csv_bytes h in
      rw short (parse_as-other table saved_table csv_utf8 saved_utf8 bytes cs e)

  accepted-eq-some :
      (bytes out : Bytes) (r : Sync Clients)
      → accepted bytes r ≡ some out
      → (bytes ≡ out) × ((cs : Clients) × (r ≡ ok cs))
  accepted-eq-some bytes out (ok cs) e = (cc, (cs, refl))
  accepted-eq-some bytes out (err x) e = cc
  accepted-eq-some bytes out panic e = cc
  accepted-eq-some bytes out stuck e = cc

  new_body-IsGood :
      (cache : RemoteCache) (r : Sync Bytes) (out : Bytes)
      → ((bytes : Bytes) → r ≡ ok bytes → length bytes ≤ max_csv_bytes)
      → new_body (parse_as read_csv table csv_utf8) cache r ≡ some out
      → IsGood (some out)
  new_body-IsGood cache (ok bytes) out h e = elim (Bool-cases (is_body cache.body bytes)) [
    | inl same ↦ absurd (let e' = rw same at e in cc)
    | inr other ↦
        let (same, (cs, parsed)) =
          accepted-eq-some bytes out (parse_as read_csv table csv_utf8 bytes) (rw other at e) in
        record {
          bytes = out;
          clients = cs;
          there = refl;
          loads =
              subst (λ (t : Bytes). parse_saved read_csv t ≡ ok cs) same
                (parse_saved-ok bytes cs (h bytes refl) parsed);
        }
  ]
  new_body-IsGood cache (err x) out h e = absurd cc
  new_body-IsGood cache panic out h e = absurd cc
  new_body-IsGood cache stuck out h e = absurd cc

  pub to_save-IsGood :
      (response : Option Response) (cache : RemoteCache) (out : Bytes)
      → to_save read_csv response cache ≡ some out
      → IsGood (some out)
  unfolding to_save
  to_save-IsGood none cache out e = absurd cc
  to_save-IsGood (some response) cache out e = elim (Bool-cases (response.status == 304)) [
    | inl cached ↦ absurd (let e' = rw cached at e in cc)
    | inr new ↦
        new_body-IsGood cache (read_body response) out (λ bytes f. read_body-fits response bytes f)
          (rw new at e)
  ]

  IsGood-either :
      (name bytes : Bytes) (old disk : Disk)
      → IsGood (contents (old name))
      → IsGood (some bytes)
      → (disk name ≡ old name) ⊎ ((linked : Bool) × (disk name ≡ some (flushed_file bytes linked)))
      → IsGood (contents (disk name))
  IsGood-either name bytes old disk h k (inl e) = subst IsGood (ap contents (sym e)) h
  IsGood-either name bytes old disk h k (inr (linked, e)) = subst IsGood (ap contents (sym e)) k

  module _ (name : Bytes) where
    -- The disks of a call that saves a table.
    pub record AllGood (p : Persisted) : Type 0 where
      pub seen : (disk : Disk) → Memᴰ disk p.seen → IsGood (contents (disk name))
      pub at_end : IsGood (contents (p.disk name))

    good_disks :
        (temp bytes : Bytes) (old : Disk) (disks : List Disk)
        → IsGood (contents (old name))
        → IsGood (some bytes)
        → All (IsEither temp name bytes old) disks
        → (disk : Disk) → Memᴰ disk disks
        → IsGood (contents (disk name))
    good_disks temp bytes old [] h k a disk m = elim m [ ]
    good_disks temp bytes old (d ∷ disks) h k a disk (head e) =
        subst (λ (t : Disk). IsGood (contents (t name))) (sym e)
          (IsGood-either name bytes old d h k a.0.file)
    good_disks temp bytes old (d ∷ disks) h k a disk (tail m) =
        good_disks temp bytes old disks h k a.1 disk m

    refused_disk :
        (old : Disk) (e : PersistError) → IsGood (contents (old name)) → AllGood (refused e old)
    refused_disk old e h = record { seen = λ disk m. only disk m; at_end = h }
      where
        only : (disk : Disk) → Memᴰ disk (old ∷ []) → IsGood (contents (disk name))
        only disk (head e) = subst (λ (t : Disk). IsGood (contents (t name))) (sym e) h
        only disk (tail m) = elim m [ ]

    refused_there :
        (system : System) (bytes : Bytes) (old : Disk)
        → system.directory ≡ false
        → persist_blocking system (some name) bytes old ≡ refused no_directory old
    unfolding persist_blocking
    refused_there system bytes old e = rw e refl

    pub persist-AllGood :
        (system : System) (bytes : Bytes) (old : Disk)
        → IsGood (contents (old name))
        → IsGood (some bytes)
        → AllGood (persist_blocking system (some name) bytes old)
    persist-AllGood system bytes old h k = elim (Bool-cases system.directory) [
      | inl there ↦
          let temp = temp_name name system.pid system.sequence in
          let p = persist_blocking-IsSaved system name bytes old there in
          let disk : Disk = (persist_blocking system (some name) bytes old).disk in
          record {
            seen = good_disks temp bytes old _ h k p.on_the_way;
            at_end = IsGood-either name bytes old disk h k p.at_end.file;
          }
      | inr missing ↦
          subst AllGood (sym (refused_there system bytes old missing))
            (refused_disk old no_directory h)
    ]
