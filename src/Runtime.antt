-- ===== src/Runtime.antt =====
-- `Shared` of src/runtime.rs: the state that the tasks of the program share, and its counters. The
-- sum of the durations is an `f64` and is left out.
pub mod Requests
pub mod Sync
pub mod Reachable
pub mod Retention
pub mod Persist
pub mod Loop
pub mod Remote
pub mod Total
pub mod Origin
pub mod Converges
pub mod Health
pub mod Metrics
pub mod Labels
use macmapd.Base.{ℕ, ◌+◌, ◌%◌, ◌^◌, Bool, false, Option, none, some, [], Bytes}
use macmapd.Base.Map.{Map}
use macmapd.Clients.{Clients}
use macmapd.Clients.Table.{TableError}

pub data Source : Type 0 where
  state remote : Source

-- The errors of the synchronizer, in the order of the source.
pub data SyncError : Type 0 where
  saved_size saved_utf8 unreadable : SyncError
  saved_table : TableError → SyncError
  no_client fetch not_cached csv_size chunk csv_utf8 save : SyncError
  http_error unexpected_status : ℕ → SyncError
  table : TableError → SyncError

pub record SyncStatus : Type 0 where
  pub source : Option Source
  pub last_success : Option ℕ
  pub data_since : Option ℕ
  pub last_error : Option SyncError

pub record RequestLabels : Type 0 where
  pub location : Bytes
  pub hostname : Bytes
  pub stage : Bytes
  pub route : Bytes
  pub message : Bytes

-- An `Instant` is a number of nanoseconds.
pub record RequestMetrics : Type 0 where
  pub series : Map RequestLabels (ℕ × ℕ)
  pub last_pruned : Option ℕ

pub record Shared : Type 0 where
  pub snapshot : Option Clients
  pub dhcp_ready : Bool
  pub requests : ℕ
  pub responses : ℕ
  pub errors : ℕ
  pub unknown : ℕ
  pub boot_mode_mismatches : ℕ
  pub sync_success : ℕ
  pub sync_errors : ℕ
  pub state_read_errors : ℕ
  pub state_write_errors : ℕ
  pub status : SyncStatus
  pub request_labels : RequestMetrics
  pub response_labels : Map Bytes ℕ
  pub durations : ℕ

abbrev pub new_shared : Shared
new_shared = record {
  snapshot = none;
  dhcp_ready = false;
  requests = 0;
  responses = 0;
  errors = 0;
  unknown = 0;
  boot_mode_mismatches = 0;
  sync_success = 0;
  sync_errors = 0;
  state_read_errors = 0;
  state_write_errors = 0;
  status = record { source = none; last_success = none; data_since = none; last_error = none };
  request_labels = record { series = []; last_pruned = none };
  response_labels = [];
  durations = 0;
}

-- `fetch_add(1)` on an `AtomicU64`.
abbrev pub bump : ℕ → ℕ
bump n = (n + 1) % 2 ^ 64
