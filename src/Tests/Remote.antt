-- ===== src/Tests/Remote.antt =====
-- The theorem on conditional requests of src/runtime.rs, at a server whose tags are its files.
use macmapd.Base.{
  ◌≡◌, refl, sym, ◌∙◌, Bool, true, false, Option, none, some, [], ◌∷◌, Bytes, ascii, bytes_eq,
  bytes_eq_iff, append-nil, if◌then◌else◌, arith, ok, ◌>>=◌, ensure, Bool-cases, inl, inr,
}
use macmapd.Runtime.{Shared, new_shared}
use macmapd.Runtime.Sync.{
  Response, not_found, no_cache, load, poll, store, activate, read_body, read_chunks,
}
use macmapd.Runtime.Remote.{Request, request_of, IsWhole, empty, piece, IsHonest, Follows}
use macmapd.Runtime.Remote.Current.{IsCurrent, Follows-IsCurrent}
use macmapd.Tests.Table.{read_two}
use macmapd.Tests.Disk.{new-parsed}

abbrev content : Bytes
content = ascii "new"

abbrev Tags : Option Bytes → Option Bytes → Bytes → Type 0
Tags etag modified bytes = etag ≡ some bytes

abbrev not_modified : Response
not_modified = record {
  status = 304;
  content_length = none;
  etag = none;
  modified = none;
  chunks = [];
}

abbrev whole_file : Response
whole_file = record {
  status = 200;
  content_length = none;
  etag = some content;
  modified = none;
  chunks = some content ∷ [];
}

abbrev has_tag : Option Bytes → Bool
has_tag none = false
has_tag (some tag) = bytes_eq tag content

abbrev answer : Request → Response
answer q = if has_tag q.if_none_match then not_modified else whole_file

tagged : (o : Option Bytes) (bytes : Bytes) → has_tag o ≡ true → o ≡ some bytes → bytes ≡ content
tagged none bytes h e = cc
tagged (some tag) bytes h e =
    let same : tag ≡ bytes = cc in sym same ∙ (bytes_eq_iff tag content).0 h

one_piece : (bytes : Bytes) → IsWhole (some content ∷ []) bytes → bytes ≡ content
one_piece _ (piece bytes empty) = append-nil content

honest : IsHonest Tags content answer
honest = record {
  body = λ q bytes e w. elim (Bool-cases (has_tag q.if_none_match)) [
    | inl h ↦ absurd (let f = rw h at e in omega arith)
    | inr h ↦ one_piece bytes (rw h at w)
  ];
  validators = λ q e. elim (Bool-cases (has_tag q.if_none_match)) [
    | inl h ↦ absurd (let f = rw h at e in omega arith)
    | inr h ↦ rw h refl
  ];
  unchanged = λ q bytes e v. elim (Bool-cases (has_tag q.if_none_match)) [
    | inl h ↦ tagged q.if_none_match bytes h v
    | inr h ↦ absurd (let f = rw h at e in omega arith)
  ];
}

abbrev first : Shared
first = load read_two not_found new_shared

polled-ok :
    (poll read_two (some (answer (request_of no_cache))) true 9 first no_cache).result ≡ ok tt
unfolding poll request_of store activate read_body read_chunks ◌>>=◌ ensure
polled-ok = rw new-parsed refl

Follows-IsCurrent_example :
    IsCurrent read_two content
      (poll read_two (some (answer (request_of no_cache))) true 9 first no_cache)
Follows-IsCurrent_example =
    Follows-IsCurrent read_two Tags content answer true 9 first no_cache honest
      (Follows.started not_found) polled-ok
