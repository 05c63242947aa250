-- ===== src/Runtime/Remote.antt =====
-- The conditional requests of `poll` of src/runtime.rs, and what a server promises for them.
pub mod Cached
pub mod Current
use macmapd.Base.{Bool, ℕ, ◌≡◌, Option, none, some, List, [], ◌∷◌, ◌++◌, Bytes}
use macmapd.Clients.Table.{Row}
use macmapd.Runtime.{Shared, new_shared}
use macmapd.Runtime.Sync.{Saved, Response, RemoteCache, no_cache, load, sync_round}

-- The headers `If-None-Match` and `If-Modified-Since`.
pub record Request : Type 0 where
  pub if_none_match : Option Bytes
  pub if_modified_since : Option Bytes

unfoldable pub request_of : RemoteCache → Request
request_of cache = record { if_none_match = cache.etag; if_modified_since = cache.modified }

-- A body that came whole.
pub data IsWhole : List (Option Bytes) → Bytes → Type 0 where
  empty : IsWhole [] []
  piece :
      {chunks : List (Option Bytes)} {rest : Bytes} (bytes : Bytes)
      → IsWhole chunks rest
      → IsWhole (some bytes ∷ chunks) (bytes ++ rest)

-- A server of HTTP at a time when the file has this content. `Validates` says which validators it
-- has given, or would give, for which content. It answers 200 with the content and its validators,
-- and 304 only if the validators of the request are those of no other content.
pub record IsHonest (Validates : Option Bytes → Option Bytes → Bytes → Type 0) (content : Bytes)
    (answer : Request → Response) : Type 0 where
  pub body :
      (q : Request) (bytes : Bytes)
      → (answer q).status ≡ 200
      → IsWhole (answer q).chunks bytes
      → bytes ≡ content
  pub validators :
      (q : Request)
      → (answer q).status ≡ 200
      → Validates (answer q).etag (answer q).modified content
  pub unchanged :
      (q : Request) (bytes : Bytes)
      → (answer q).status ≡ 304
      → Validates q.if_none_match q.if_modified_since bytes
      → bytes ≡ content

module _ (read_csv : Bytes → List (Option Row))
    (Validates : Option Bytes → Option Bytes → Bytes → Type 0) where
  -- The states that the program reaches while it polls an honest server whose file changes.
  pub data Follows : Shared → RemoteCache → Type 0 where
    started : (saved : Saved) → Follows (load read_csv saved new_shared) no_cache
    polled :
        {s : Shared} {c : RemoteCache} {content : Bytes} {answer : Request → Response}
        (saved : Bool) (now : ℕ)
        → IsHonest Validates content answer
        → Follows s c
        → Follows
            (sync_round read_csv (some (answer (request_of c))) saved now (s, c)).0
            (sync_round read_csv (some (answer (request_of c))) saved now (s, c)).1
    unreachable :
        {s : Shared} {c : RemoteCache} (saved : Bool) (now : ℕ)
        → Follows s c
        → Follows
            (sync_round read_csv none saved now (s, c)).0
            (sync_round read_csv none saved now (s, c)).1
    served : {s t : Shared} {c : RemoteCache} → Follows s c → t.snapshot ≡ s.snapshot → Follows t c
