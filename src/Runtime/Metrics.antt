-- ===== src/Runtime/Metrics.antt =====
-- `metrics` of src/runtime.rs: the text that a scrape reads. The version of the program, and the two
-- texts of floating-point numbers, are arguments: the age of the data in seconds and the sum of the
-- durations. The headers of the answer are left out.
pub mod Lines
pub mod Series
pub mod Order
pub mod Splits
pub mod Scrape
use macmapd.Base.{
  ℕ, ◌-◌, Bool, true, false, Option, none, some, List, [], ◌∷◌, ◌++◌, Bytes, bytes_eq, ltb, ◌==◌,
  ascii, length, if◌then◌else◌,
}
use macmapd.Base.Map.{Map}
use macmapd.Text.Decimal.{decimal}
use macmapd.Clients.{Clients}
use macmapd.Runtime.{Shared, RequestLabels}
use macmapd.Runtime.Requests.{prune}
use macmapd.Runtime.Labels.{escape_label}
use macmapd.Runtime.Health.{unwrap_or_zero, age}

-- A `BTreeMap` is read in the order of its keys: strings by their bytes, tuples part by part.
unfoldable pub bytes_before : Bytes → Bytes → Bool
bytes_before [] ys = true
bytes_before (x ∷ xs) [] = false
bytes_before (x ∷ xs) (y ∷ ys) = let rest = bytes_before xs ys in if x == y then rest else ltb x y

unfoldable pub part_before : Bytes → Bytes → Bool → Bool
part_before x y rest = if bytes_eq x y then rest else bytes_before x y

unfoldable pub labels_before : RequestLabels → RequestLabels → Bool
unfolding part_before bytes_before
labels_before x y = part_before x.location y.location (
    part_before x.hostname y.hostname (
      part_before x.stage y.stage (part_before x.route y.route (bytes_before x.message y.message))))

module _ {K V : Type 0} (before : K → K → Bool) where
  unfoldable pub place : K × V → Map K V → Map K V
  place entry [] = entry ∷ []
  place entry (other ∷ rest) =
      let later = other ∷ place entry rest in
      if before entry.0 other.0 then entry ∷ (other ∷ rest) else later

  unfoldable pub in_order : Map K V → Map K V
  unfolding place
  in_order [] = []
  in_order (entry ∷ rest) = place entry (in_order rest)

-- `writeln!(text, …)`.
abbrev pub writeln : Bytes → Bytes → Bytes
writeln line rest = line ++ (10 ∷ rest)

unfoldable pub type_line : Bytes → Bytes → Bytes
type_line name kind = ascii "# TYPE " ++ (name ++ (b' ' ∷ kind))

unfoldable pub value_line : Bytes → Bytes → Bytes
value_line name value = name ++ (b' ' ∷ value)

-- A metric of one value.
unfoldable pub single : Bytes → Bytes → Bytes → Bytes → Bytes
unfolding type_line value_line
single name kind value rest = writeln (type_line name kind) (writeln (value_line name value) rest)

abbrev pub label : Bytes → Bytes → Bytes → Bytes
label name value rest = name ++ (ascii "=\"" ++ (escape_label value ++ (34 ∷ rest)))

unfoldable pub build_line : Bytes → Bytes
build_line version = ascii "macdack_build_info{" ++ label (ascii "version") version (ascii "} 1")

unfoldable pub series_line : RequestLabels → ℕ → Bytes
series_line key count =
    ascii "macdack_client_requests_total{"
    ++ label (ascii "location") key.location (
        b','
        ∷ label (ascii "hostname") key.hostname (
            b','
            ∷ label (ascii "stage") key.stage (
                b','
                ∷ label (ascii "route") key.route
                    (b',' ∷ label (ascii "message") key.message (ascii "} " ++ decimal count)))))

unfoldable pub response_line : Bytes → ℕ → Bytes
response_line message count =
    ascii "macdack_message_responses_total{"
    ++ label (ascii "message") message (ascii "} " ++ decimal count)

abbrev pub series_text : Map RequestLabels (ℕ × ℕ) → Bytes → Bytes
series_text [] rest = rest
series_text ((key, (count, seen)) ∷ series) rest =
    writeln (series_line key count) (series_text series rest)

abbrev pub responses_text : Map Bytes ℕ → Bytes → Bytes
responses_text [] rest = rest
responses_text ((message, count) ∷ responses) rest =
    writeln (response_line message count) (responses_text responses rest)

abbrev pub counters : Shared → List (Bytes × ℕ)
counters shared =
    (ascii "macdack_requests_total", shared.requests)
    ∷ (ascii "macdack_responses_total", shared.responses)
    ∷ (ascii "macdack_errors_total", shared.errors)
    ∷ (ascii "macdack_unknown_clients_total", shared.unknown)
    ∷ (ascii "macdack_boot_mode_mismatches_total", shared.boot_mode_mismatches)
    ∷ (ascii "macdack_sync_success_total", shared.sync_success)
    ∷ (ascii "macdack_sync_errors_total", shared.sync_errors)
    ∷ (ascii "macdack_state_read_errors_total", shared.state_read_errors)
    ∷ (ascii "macdack_state_write_errors_total", shared.state_write_errors)
    ∷ []

abbrev pub counters_text : List (Bytes × ℕ) → Bytes → Bytes
counters_text [] rest = rest
counters_text ((name, count) ∷ others) rest =
    single name (ascii "counter") (decimal count) (counters_text others rest)

abbrev pub clients_count : Option Clients → ℕ
clients_count none = 0
clients_count (some clients) = length clients.records

-- The texts that the caller's numbers give.
pub record Texts : Type 0 where
  pub version : Bytes
  pub age_text : Option ℕ → Bytes
  pub sum : Bytes

abbrev pub summary_text : Texts → ℕ → Bytes
summary_text texts count =
    writeln (type_line (ascii "macdack_response_duration_seconds") (ascii "summary")) (
      writeln (value_line (ascii "macdack_response_duration_seconds_count") (decimal count))
        (writeln (value_line (ascii "macdack_response_duration_seconds_sum") texts.sum) []))

-- `now` is the time of day, `instant` the clock of the request statistics.
unfoldable pub metrics : Texts → ℕ → ℕ → Shared → Shared × Bytes
unfolding single type_line value_line series_line response_line build_line in_order labels_before
metrics texts now instant shared =
    let pruned = prune instant shared.request_labels in
    let text = writeln (type_line (ascii "macdack_build_info") (ascii "gauge")) (
      writeln (build_line texts.version) (
        counters_text (counters shared) (
          single (ascii "macdack_clients") (ascii "gauge") (decimal (clients_count shared.snapshot))
            (single (ascii "macdack_last_successful_sync_timestamp_seconds") (ascii "gauge")
              (decimal (unwrap_or_zero shared.status.last_success))
              (single (ascii "macdack_data_age_seconds") (ascii "gauge")
                (texts.age_text (age now shared.status.data_since))
                (writeln (type_line (ascii "macdack_client_requests_total") (ascii "counter")) (
                  series_text (in_order labels_before pruned.series) (
                    writeln (type_line (ascii "macdack_message_responses_total") (ascii "counter"))
                      (responses_text (in_order bytes_before shared.response_labels)
                        (summary_text texts shared.durations)))))))))) in
    (record shared { request_labels = pruned }, text)
