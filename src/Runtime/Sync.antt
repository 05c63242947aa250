-- ===== src/Runtime/Sync.antt =====
-- The synchronizer of src/runtime.rs: the saved table, one poll of the remote table, and the loop
-- over polls. The HTTP response, the outcome of reading and of writing the state file, and the clock
-- are arguments.

use macmapd.Base.{
  ℕ, ◌+◌, ◌*◌, Bool, true, false, ◌&&◌, not, Option, none, some, List, [], ◌∷◌, ◌++◌, Bytes,
  bytes_eq, length, leb, ltb, ◌==◌, if◌then◌else◌, Result, ok, err, panic, stuck, ◌>>=◌, ◌>>◌,
  ensure, context, map_err,
}
use macmapd.Text.Utf8.{from_utf8}
use macmapd.Clients.{Clients}
use macmapd.Clients.Table.{Row, TableError, parse}
use macmapd.Runtime.{
  Shared, state, remote, SyncError, saved_size, saved_utf8, unreadable, saved_table, fetch,
  not_cached, http_error, unexpected_status, csv_size, chunk, csv_utf8, table, save, bump,
}

abbrev pub max_csv_bytes : ℕ
max_csv_bytes = 16 * 1024 * 1024

-- What `tokio::fs::read` gives.
pub data Saved : Type 0 where
  found : Bytes → Saved
  not_found failed : Saved

-- An HTTP response; a chunk that cannot be read is `none`.
pub record Response : Type 0 where
  pub status : ℕ
  pub content_length : Option ℕ
  pub etag : Option Bytes
  pub modified : Option Bytes
  pub chunks : List (Option Bytes)

pub record RemoteCache : Type 0 where
  pub etag : Option Bytes
  pub modified : Option Bytes
  pub body : Option Bytes

abbrev pub no_cache : RemoteCache
no_cache = record { etag = none; modified = none; body = none }

abbrev pub Sync : Type 0 → Type 0
Sync A = Result SyncError A

-- `while let Some(chunk) = response.chunk().await? { … }`.
unfoldable pub read_chunks : Bytes → List (Option Bytes) → Sync Bytes
read_chunks bytes [] = ok bytes
read_chunks bytes (none ∷ chunks) = err chunk
read_chunks bytes (some piece ∷ chunks) = do
  ensure (leb (length bytes + length piece) max_csv_bytes) csv_size
  read_chunks (bytes ++ piece) chunks

abbrev pub fits : Option ℕ → Bool
fits none = true
fits (some len) = leb len max_csv_bytes

-- The body of a response that is not 304.
unfoldable pub read_body : Response → Sync Bytes
read_body response = do
  let status = response.status
  ensure (not (leb 400 status && ltb status 600)) (http_error status)
  ensure (status == 200) (unexpected_status status)
  ensure (fits response.content_length) csv_size
  read_chunks [] response.chunks

abbrev pub is_body : Option Bytes → Bytes → Bool
is_body none bytes = false
is_body (some body) bytes = bytes_eq body bytes

-- What a poll leaves behind: its result, and the two states that it writes.
pub record Polled : Type 0 where
  pub result : Sync (Unit {0})
  pub shared : Shared
  pub cache : RemoteCache

-- Whether the task goes on behind a result: an error is handled, a panic is not.
unfoldable pub goes_on : {E A : Type 0} → Sync A → Result E (Unit {0})
goes_on (ok a) = ok tt
goes_on (err e) = ok tt
goes_on panic = panic
goes_on stuck = stuck

-- The file's name and the reader of the `csv` crate are fixed.
module _ (read_csv : Bytes → List (Option Row)) where
  unfoldable pub parse_as : (TableError → SyncError) → SyncError → Bytes → Sync Clients
  parse_as wrap not_text bytes = do
    text ← context (from_utf8 bytes) not_text
    map_err wrap (parse read_csv text)

  abbrev pub remember : Response → Bytes → RemoteCache
  remember response bytes = record {
    etag = response.etag;
    modified = response.modified;
    body = some bytes;
  }

  -- `saved` says whether `persist` succeeds.
  unfoldable pub activate : Bool → ℕ → Response → Bytes → Clients → Shared → RemoteCache → Polled
  activate saved now response bytes clients shared cache =
      if saved
      then record {
        result = ok tt;
        shared = record shared {
          snapshot = some clients;
          status = record shared.status { source = some remote; data_since = some now };
        };
        cache = remember response bytes;
      }
      else record {
        result = err save;
        shared = record shared { state_write_errors = bump shared.state_write_errors };
        cache = cache;
      }

  -- `?` on a step before anything is written.
  abbrev pub failed_with : Sync (Unit {0}) → Shared → RemoteCache → Polled
  failed_with result shared cache = record { result = result; shared = shared; cache = cache }

  abbrev pub store_parsed :
      Bool → ℕ → Response → Bytes → Sync Clients → Shared → RemoteCache → Polled
  store_parsed saved now response bytes (ok clients) shared cache =
      activate saved now response bytes clients shared cache
  store_parsed saved now response bytes (err e) shared cache = failed_with (err e) shared cache
  store_parsed saved now response bytes panic shared cache = failed_with panic shared cache
  store_parsed saved now response bytes stuck shared cache = failed_with stuck shared cache

  unfoldable pub store : Bool → ℕ → Response → Sync Bytes → Shared → RemoteCache → Polled
  unfolding activate parse_as
  store saved now response (ok bytes) shared cache =
      if is_body cache.body bytes
      then record { result = ok tt; shared = shared; cache = remember response bytes }
      else store_parsed saved now response bytes (parse_as table csv_utf8 bytes) shared cache
  store saved now response (err e) shared cache = failed_with (err e) shared cache
  store saved now response panic shared cache = failed_with panic shared cache
  store saved now response stuck shared cache = failed_with stuck shared cache

  abbrev pub unchanged : RemoteCache → Sync (Unit {0})
  unchanged cache = elim cache.body [ none ↦ err not_cached | some body ↦ ok tt ]

  -- No response is a request that could not be sent.
  unfoldable pub poll : Option Response → Bool → ℕ → Shared → RemoteCache → Polled
  unfolding store read_body
  poll none saved now shared cache = failed_with (err fetch) shared cache
  poll (some response) saved now shared cache =
      if response.status == 304
      then failed_with (unchanged cache) shared cache
      else store saved now response (read_body response) shared cache

  -- `match poll(…).await { … }`. Behind a panic the state stays as it is; `sync_task` ends there.
  unfoldable pub finish : ℕ → Sync (Unit {0}) → Shared → Shared
  finish now (ok u) shared = record shared {
    sync_success = bump shared.sync_success;
    status = record shared.status { last_success = some now; last_error = none };
  }
  finish now (err e) shared = record shared {
    sync_errors = bump shared.sync_errors;
    status = record shared.status { last_error = some e };
  }
  finish now panic shared = shared
  finish now stuck shared = shared

  -- What a round leaves.
  unfoldable pub sync_round :
      Option Response → Bool → ℕ → Shared × RemoteCache → Shared × RemoteCache
  unfolding poll finish
  sync_round response saved now (shared, cache) =
      let polled = poll response saved now shared cache in
      (finish now polled.result polled.shared, polled.cache)

  -- One round of the loop of `run_sync`; a panic of `poll` ends the task.
  unfoldable pub sync_task :
      {E : Type 0}
      → Option Response
      → Bool
      → ℕ
      → Shared × RemoteCache
      → Result E (Shared × RemoteCache)
  unfolding goes_on
  sync_task response saved now (shared, cache) = do
    goes_on (poll response saved now shared cache).result
    ok (sync_round response saved now (shared, cache))

  -- The start of `run_sync`.
  unfoldable pub state_read_error : SyncError → Shared → Shared
  state_read_error e shared = record shared {
    state_read_errors = bump shared.state_read_errors;
    status = record shared.status { last_error = some e };
  }

  unfoldable pub parse_saved : Bytes → Sync Clients
  unfolding parse_as
  parse_saved bytes = do
    ensure (leb (length bytes) max_csv_bytes) saved_size
    parse_as saved_table saved_utf8 bytes

  -- Behind a panic the state stays as it is; `load_task` ends there.
  abbrev pub load_parsed : Sync Clients → Shared → Shared
  load_parsed (ok clients) shared = record shared {
    snapshot = some clients;
    status = record shared.status { source = some state };
  }
  load_parsed (err e) shared = state_read_error e shared
  load_parsed panic shared = shared
  load_parsed stuck shared = shared

  unfoldable pub load : Saved → Shared → Shared
  unfolding parse_saved state_read_error
  load (found bytes) shared = load_parsed (parse_saved bytes) shared
  load not_found shared = shared
  load failed shared = state_read_error unreadable shared

  -- The start with a panic of the parser, which ends the task.
  unfoldable pub load_task : {E : Type 0} → Saved → Shared → Result E Shared
  unfolding goes_on
  load_task (found bytes) shared = do goes_on (parse_saved bytes); ok (load (found bytes) shared)
  load_task not_found shared = ok (load not_found shared)
  load_task failed shared = ok (load failed shared)
