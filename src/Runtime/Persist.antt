-- ===== src/Runtime/Persist.antt =====
-- `persist_blocking` of src/runtime.rs: the file operations by which the table of clients is saved.
-- A disk is what the directory of the state file holds under each name, with what of it a loss of
-- power would leave. Which operation fails, and
-- into how many writes the system cuts `write_all`, are arguments; so is the outcome of
-- `create_dir_all`. The state file's name is UTF-8.
pub mod Steps
pub mod Atomic
pub mod PowerLoss
pub mod Restart
pub mod Serving
pub mod Survives
pub mod Healthy
use macmapd.Base.{
  ℕ, zero, suc, Bool, true, false, Option, none, some, List, [], ◌∷◌, ◌++◌, Bytes, bytes_eq, drop,
  take, ascii, if◌then◌else◌, Result, ok, err,
}
use macmapd.Text.Decimal.{decimal}

-- A file, whether its bytes have reached the medium since they were written, and whether its name has
-- since it got it.
pub record File : Type 0 where
  pub bytes : Bytes
  pub synced : Bool
  pub linked : Bool

abbrev pub Disk : Type 0
Disk = Bytes → Option File

-- What a reader of the file gets.
abbrev pub contents : Option File → Option Bytes
contents none = none
contents (some file) = some file.bytes

unfoldable pub put : Bytes → Option File → Disk → Disk
put name content disk k = if bytes_eq k name then content else disk k

-- The operations of the closure; `write` adds to the temporary file.
pub data Op : Type 0 where
  create : Op
  write : Bytes → Op
  sync rename open_parent sync_parent : Op

-- `std::fs::write_all` in as many writes as the system makes of it.
unfoldable pub writes : List ℕ → Bytes → List Op
writes [] bytes = write bytes ∷ []
writes (n ∷ cuts) bytes = write (take n bytes) ∷ writes cuts (drop n bytes)

unfoldable pub operations : List ℕ → Bytes → List Op
unfolding writes
operations cuts bytes =
    create ∷ (writes cuts bytes ++ (sync ∷ rename ∷ open_parent ∷ sync_parent ∷ []))

unfoldable pub temp_name : Bytes → ℕ → ℕ → Bytes
temp_name name pid sequence =
    b'.' ∷ (name ++ (b'.' ∷ (decimal pid ++ (b'.' ∷ (decimal sequence ++ ascii ".tmp")))))

-- What an operation leaves of the disk; none if it cannot be done.
abbrev pub created : Bytes → Option File → Disk → Option Disk
created temp none disk =
    some (put temp (some (record { bytes = []; synced = false; linked = false })) disk)
created temp (some file) disk = none

abbrev pub written : Bytes → Bytes → Option File → Disk → Option Disk
written temp bytes none disk = none
written temp bytes (some file) disk = some (
    put temp (some (record { bytes = file.bytes ++ bytes; synced = false; linked = file.linked }))
      disk)

abbrev pub flushed : Bytes → Option File → Disk → Option Disk
flushed temp none disk = none
flushed temp (some file) disk =
    some (put temp (some (record { bytes = file.bytes; synced = true; linked = file.linked })) disk)

abbrev pub renamed : Bytes → Bytes → Option File → Disk → Option Disk
renamed temp name none disk = none
renamed temp name (some file) disk = some (
    put temp none
      (put name (some (record { bytes = file.bytes; synced = file.synced; linked = false })) disk))

-- Of the names that a call changes, the state file's is the one that is left.
abbrev pub settled : Bytes → Option File → Disk → Option Disk
settled name none disk = some disk
settled name (some file) disk =
    some (put name (some (record { bytes = file.bytes; synced = file.synced; linked = true })) disk)

unfoldable pub perform : Bytes → Bytes → Op → Disk → Option Disk
unfolding put
perform temp name create disk = created temp (disk temp) disk
perform temp name (write bytes) disk = written temp bytes (disk temp) disk
perform temp name sync disk = flushed temp (disk temp) disk
perform temp name rename disk = renamed temp name (disk temp) disk
perform temp name open_parent disk = some disk
perform temp name sync_parent disk = settled name (disk name) disk

-- A run of operations: the disks on the way, the last one, and whether all were done.
pub record Run : Type 0 where
  pub seen : List Disk
  pub disk : Disk
  pub done : Bool

abbrev pub after : Disk → Run → Run
after disk run = record run { seen = disk ∷ run.seen }

abbrev pub stopped : Bool → Disk → Run
stopped done disk = record { seen = disk ∷ []; disk = disk; done = done }

-- Going on behind an operation, if it was done.
abbrev pub onward : (Disk → Run) → Disk → Option Disk → Run
onward next disk none = stopped false disk
onward next disk (some changed) = after disk (next changed)

-- The `?` of the closure; the operation with the number `fails` fails.
unfoldable pub run : Bytes → Bytes → ℕ → List Op → Disk → Run
unfolding perform
run temp name fails [] disk = stopped true disk
run temp name zero (op ∷ ops) disk = stopped false disk
run temp name (suc fails) (op ∷ ops) disk =
    onward (run temp name fails ops) disk (perform temp name op disk)

pub data PersistError : Type 0 where
  no_directory no_filename io : PersistError

pub record Persisted : Type 0 where
  pub result : Result PersistError (Unit {0})
  pub seen : List Disk
  pub disk : Disk

-- `if result.is_err() { let _ = std::fs::remove_file(&temp); }`.
unfoldable pub clean_up : Bytes → Bool → Run → Persisted
unfolding put
clean_up temp removable r =
    if r.done
    then record { result = ok tt; seen = r.seen; disk = r.disk }
    else if removable
    then record {
      result = err io;
      seen = put temp none r.disk ∷ r.seen;
      disk = put temp none r.disk;
    }
    else record { result = err io; seen = r.seen; disk = r.disk }

abbrev pub refused : PersistError → Disk → Persisted
refused e disk = record { result = err e; seen = disk ∷ []; disk = disk }

-- What the system does during a call.
pub record System : Type 0 where
  pub directory : Bool
  pub pid : ℕ
  pub sequence : ℕ
  pub cuts : List ℕ
  pub fails : ℕ
  pub removable : Bool

unfoldable pub persist_blocking : System → Option Bytes → Bytes → Disk → Persisted
unfolding run operations clean_up temp_name
persist_blocking system name bytes disk =
    if system.directory
    then elim name [
      | none ↦ refused no_filename disk
      | some file ↦
          let temp = temp_name file system.pid system.sequence in
          clean_up temp system.removable
            (run temp file system.fails (operations system.cuts bytes) disk)
    ]
    else refused no_directory disk
