-- ===== src/Tests/Disk.antt =====
-- The theorems on the state file of src/runtime.rs, at a table of one client.
use macmapd.Base.{
  sym, ap, ◌≡◌, refl, true, none, some, [], ◌∷◌, Bytes, ascii, bytes_eq, length, ok, ◌>>=◌, ensure,
  context, map_err, if◌then◌else◌,
}
use macmapd.Text.Utf8.{from_utf8, decode}
use macmapd.Clients.{Clients}
use macmapd.Clients.Table.{parse}
use macmapd.Runtime.{new_shared, table, csv_utf8}
use macmapd.Runtime.Sync.{
  Response, no_cache, load, not_found, read_body, read_chunks, parse_as, parse_saved, sync_round,
}
use macmapd.Runtime.Reachable.{started}
use macmapd.Base.Yields.{Yields}
use macmapd.Runtime.Loop.{Round, run_sync, IsRunning, run_sync-IsRunning}
use macmapd.Runtime.Converges.{IsFresh, Reaches-IsFresh}
use macmapd.Runtime.Health.{health}
use macmapd.Runtime.Persist.{File, contents, Disk, System, persist_blocking, temp_name}
use macmapd.Runtime.Persist.Atomic.{IsSaved}
use macmapd.Runtime.Persist.Steps.{flushed_file}
use macmapd.Runtime.Persist.PowerLoss.{IsStable, IsDurable, persist_blocking-IsDurable}
use macmapd.Runtime.Persist.Restart.{World, Lives, boot, booted, polled, restarted, disk_round}
use macmapd.Runtime.Persist.Serving.{IsGood}
use macmapd.Runtime.Persist.Survives.{IsServing, Lives-IsServing}
use macmapd.Runtime.Persist.Healthy.{Lives-health}
use macmapd.Tests.Table.{read_two, one_client, two-parsed}

abbrev file_name : Bytes
file_name = ascii "clients.csv"

-- The rename fails.
abbrev no_rename : System
no_rename = record {
  directory = true;
  pid = 7;
  sequence = 0;
  cuts = 1 ∷ [];
  fails = 4;
  removable = true;
}

abbrev full : Disk
full k = if bytes_eq k file_name then some (flushed_file (ascii "old") true) else none

full-IsStable : IsStable (full file_name)
unfolding bytes_eq
full-IsStable = record {
  on_medium = λ f e.
      let same : flushed_file (ascii "old") true ≡ f = cc in
      (sym (ap (λ (g : File). g.synced) same), sym (ap (λ (g : File). g.linked) same));
}

persist_blocking-IsDurable_example :
    let p = persist_blocking no_rename (some file_name) (ascii "new") full in
    IsSaved (temp_name file_name 7 0) file_name (ascii "new") full true p
    × IsDurable file_name (ascii "new") full p
persist_blocking-IsDurable_example =
    persist_blocking-IsDurable no_rename file_name (ascii "new") full refl full-IsStable

old-parsed : parse_saved read_two (ascii "old") ≡ ok one_client
unfolding parse_saved parse_as ◌>>=◌ ensure context map_err from_utf8 decode parse
old-parsed = rw two-parsed refl

full-IsGood : IsGood read_two (contents (full file_name))
unfolding bytes_eq
full-IsGood = record { bytes = ascii "old"; clients = one_client; there = refl; loads = old-parsed }

abbrev pub good_answer : Response
good_answer = record {
  status = 200;
  content_length = none;
  etag = none;
  modified = none;
  chunks = some (ascii "new") ∷ [];
}

-- Started, polled with a rename that fails, and started again.
abbrev again : World
again =
    boot read_two file_name true
      (disk_round read_two file_name (some good_answer) no_rename 9
        (boot read_two file_name true full)).disk

again-Lives : Lives read_two file_name full true again
again-Lives = restarted true (polled (some good_answer) no_rename 9 (booted true))

Lives-IsServing_example : IsServing read_two file_name true again
Lives-IsServing_example = Lives-IsServing read_two file_name full true again full-IsGood again-Lives

abbrev ready : World
ready = record again { shared = record again.shared { dhcp_ready = true } }

Lives-health_example :
    ((health 9 ready.shared).code ≡ 200)
    × ((cs : Clients) × (ready.shared.snapshot ≡ some cs)
        × ((health 9 ready.shared).clients ≡ length cs.records))
Lives-health_example =
    Lives-health read_two file_name full ready 9 full-IsGood
      (Lives.served (record again.shared { dhcp_ready = true }) again-Lives refl) refl

answer-body : read_body good_answer ≡ ok (ascii "new")
unfolding read_body read_chunks ◌>>=◌ ensure
answer-body = refl

pub new-parsed : parse_as read_two table csv_utf8 (ascii "new") ≡ ok one_client
unfolding parse_as ◌>>=◌ ensure context map_err from_utf8 decode parse
new-parsed = rw two-parsed refl

Reaches-IsFresh_example :
    IsFresh 9
      (ascii "new")
      one_client
      (sync_round read_two (some good_answer) true 9 (load read_two not_found new_shared, no_cache))
Reaches-IsFresh_example =
    Reaches-IsFresh read_two 9 good_answer (ascii "new") one_client
      (load read_two not_found new_shared) no_cache (started not_found) refl answer-body new-parsed

-- A start without a state file, and one good answer.
abbrev first_round : Round
first_round = record { response = some good_answer; saved = true; now = 9 }

run_sync-IsRunning_example :
    Yields
      (IsRunning read_two true not_found)
      (run_sync read_two true not_found (first_round ∷ []) new_shared)
run_sync-IsRunning_example = run_sync-IsRunning read_two true not_found (first_round ∷ [])
