-- ===== src/Runtime/Metrics/Scrape.antt =====
-- The whole text of the metrics of src/runtime.rs, line by line, as a scrape reads it.
use mathlib.Core.Path.{subst}
use mathlib.Core.List.{Memᴰ}
use mathlib.Core.List.Memᴰ.{head, tail}
use macmapd.Base.{ℕ, ◌≡◌, refl, sym, ap, true, Option, some, List, [], ◌∷◌, Bytes, All, ascii}
use macmapd.Base.Map.{Map}
use macmapd.Text.{split}
use macmapd.Text.Split.{lacks}
use macmapd.Text.Decimal.{decimal}
use macmapd.Runtime.{Shared, RequestLabels}
use macmapd.Runtime.Requests.{prune}
use macmapd.Runtime.Health.{unwrap_or_zero, age}
use macmapd.Runtime.Metrics.{
  labels_before, bytes_before, in_order, type_line, value_line, build_line, series_line, counters,
  clients_count, Texts, summary_text, metrics,
}
use macmapd.Runtime.Metrics.Lines.{
  IsLine, literal, decimal-IsLine, build_line-IsLine, type_line-IsLine, value_line-IsLine,
}
use macmapd.Runtime.Metrics.Splits.{
  Splits, Splits-nil, Splits-writeln, Splits-single, Splits-series, Splits-responses,
  Splits-counters, series_lines, response_lines, counter_lines,
}
use macmapd.Runtime.Metrics.Order.{in_order-Mem}
use macmapd.Runtime.Metrics.Series.{read_series, read_series-series_line}

abbrev summary_lines : Texts → ℕ → List Bytes
summary_lines texts count =
    type_line (ascii "macdack_response_duration_seconds") (ascii "summary")
    ∷ value_line (ascii "macdack_response_duration_seconds_count") (decimal count)
    ∷ value_line (ascii "macdack_response_duration_seconds_sum") texts.sum
    ∷ []
    ∷ []

-- The lines of a scrape.
abbrev pub metrics_lines : Texts → ℕ → ℕ → Shared → List Bytes
metrics_lines texts now instant shared =
    type_line (ascii "macdack_build_info") (ascii "gauge")
    ∷ build_line texts.version
    ∷ counter_lines (counters shared) (
        type_line (ascii "macdack_clients") (ascii "gauge")
        ∷ value_line (ascii "macdack_clients") (decimal (clients_count shared.snapshot))
        ∷ type_line (ascii "macdack_last_successful_sync_timestamp_seconds") (ascii "gauge")
        ∷ value_line (ascii "macdack_last_successful_sync_timestamp_seconds")
            (decimal (unwrap_or_zero shared.status.last_success))
        ∷ type_line (ascii "macdack_data_age_seconds") (ascii "gauge")
        ∷ value_line (ascii "macdack_data_age_seconds")
            (texts.age_text (age now shared.status.data_since))
        ∷ type_line (ascii "macdack_client_requests_total") (ascii "counter")
        ∷ series_lines (in_order labels_before (prune instant shared.request_labels).series) (
            type_line (ascii "macdack_message_responses_total") (ascii "counter")
            ∷ response_lines (in_order bytes_before shared.response_labels)
                (summary_lines texts shared.durations)))

name_line : (name : Bytes) → lacks 10 name ≡ true → IsLine name
name_line = literal

summary-Splits :
    (texts : Texts) (count : ℕ)
    → IsLine texts.sum
    → Splits (summary_text texts count) (summary_lines texts count)
summary-Splits texts count h =
    Splits-writeln
      (type_line-IsLine (ascii "macdack_response_duration_seconds") (ascii "summary")
        (literal (ascii "macdack_response_duration_seconds") refl) (literal (ascii "summary") refl))
      (Splits-writeln
        (value_line-IsLine (ascii "macdack_response_duration_seconds_count") (decimal count)
          (literal (ascii "macdack_response_duration_seconds_count") refl) (decimal-IsLine count))
        (Splits-writeln
          (value_line-IsLine (ascii "macdack_response_duration_seconds_sum") texts.sum
            (literal (ascii "macdack_response_duration_seconds_sum") refl) h)
          Splits-nil))

counters-IsLine : (shared : Shared) → All (λ c. IsLine c.0) (counters shared)
counters-IsLine shared = (
  literal (ascii "macdack_requests_total") refl,
  (
    literal (ascii "macdack_responses_total") refl,
    (
      literal (ascii "macdack_errors_total") refl,
      (
        literal (ascii "macdack_unknown_clients_total") refl,
        (
          literal (ascii "macdack_boot_mode_mismatches_total") refl,
          (
            literal (ascii "macdack_sync_success_total") refl,
            (
              literal (ascii "macdack_sync_errors_total") refl,
              (
                literal (ascii "macdack_state_read_errors_total") refl,
                (literal (ascii "macdack_state_write_errors_total") refl, tt),
              ),
            ),
          ),
        ),
      ),
    ),
  ),
)

gauge : IsLine (ascii "gauge")
gauge = literal (ascii "gauge") refl

metrics-Splits :
    (texts : Texts) (now instant : ℕ) (shared : Shared)
    → ((age : Option ℕ) → IsLine (texts.age_text age))
    → IsLine texts.sum
    → Splits (metrics texts now instant shared).1 (metrics_lines texts now instant shared)
unfolding metrics
metrics-Splits texts now instant shared h k =
    let series = in_order labels_before (prune instant shared.request_labels).series in
    let build = ascii "macdack_build_info" in
    let clients = ascii "macdack_clients" in
    let last = ascii "macdack_last_successful_sync_timestamp_seconds" in
    let aged = ascii "macdack_data_age_seconds" in
    let requests = ascii "macdack_client_requests_total" in
    let responses = ascii "macdack_message_responses_total" in
    Splits-writeln (type_line-IsLine build (ascii "gauge") (literal build refl) gauge) (
      Splits-writeln (build_line-IsLine texts.version) (
        Splits-counters (counters shared) (counters-IsLine shared) (
          Splits-single clients (ascii "gauge") (decimal (clients_count shared.snapshot))
            (literal clients refl) gauge (decimal-IsLine (clients_count shared.snapshot))
            (Splits-single last (ascii "gauge")
              (decimal (unwrap_or_zero shared.status.last_success)) (literal last refl) gauge
              (decimal-IsLine (unwrap_or_zero shared.status.last_success))
              (Splits-single aged (ascii "gauge")
                (texts.age_text (age now shared.status.data_since)) (literal aged refl) gauge
                (h (age now shared.status.data_since))
                (Splits-writeln
                  (type_line-IsLine requests (ascii "counter") (literal requests refl)
                    (literal (ascii "counter") refl))
                  (Splits-series series (
                    Splits-writeln
                      (type_line-IsLine responses (ascii "counter") (literal responses refl)
                        (literal (ascii "counter") refl))
                      (Splits-responses (in_order bytes_before shared.response_labels)
                        (summary-Splits texts shared.durations k))))))))))

series_lines-Mem :
    (key : RequestLabels) (count seen : ℕ) (series : Map RequestLabels (ℕ × ℕ)) (rest : List Bytes)
    → Memᴰ (key, (count, seen)) series
    → Memᴰ (series_line key count) (series_lines series rest)
series_lines-Mem key count seen [] rest h = elim h [ ]
series_lines-Mem key count seen ((k, (n, s)) ∷ series) rest (head same) =
    head (ap (λ (e : RequestLabels × (ℕ × ℕ)). series_line e.0 e.1.0) same)
series_lines-Mem key count seen ((k, (n, s)) ∷ series) rest (tail h) =
    tail (series_lines-Mem key count seen series rest h)

three : {line a b c : Bytes} {lines : List Bytes} → Memᴰ line lines → Memᴰ line (a ∷ b ∷ c ∷ lines)
three h = tail (tail (tail h))

-- What a scrape reads.
pub record IsScraped (texts : Texts) (now instant : ℕ) (shared : Shared) (text : Bytes)
    : Type 0 where
  pub lines : split 10 text ≡ metrics_lines texts now instant shared
  pub series :
      (key : RequestLabels) (count seen : ℕ)
      → Memᴰ (key, (count, seen)) (prune instant shared.request_labels).series
      → Memᴰ (series_line key count) (split 10 text)
        × (read_series (series_line key count) ≡ some (key, decimal count))

-- The text of the metrics, cut at its line breaks, is exactly the list of its lines: no location,
-- host name or other label value, whatever bytes it has, adds, ends or joins a line. Each request
-- series that is not idle has a line, and its labels and its count are read back from it. The texts
-- of the two floating-point numbers have no line break.
pub metrics-IsScraped :
    (texts : Texts) (now instant : ℕ) (shared : Shared)
    → ((age : Option ℕ) → IsLine (texts.age_text age))
    → IsLine texts.sum
    → IsScraped texts now instant shared (metrics texts now instant shared).1
metrics-IsScraped texts now instant shared h k =
    let cut = (metrics-Splits texts now instant shared h k).cut in
    record {
      lines = cut;
      series = λ key count seen m. (
        subst (Memᴰ (series_line key count)) (sym cut) (
            three (
              three (
                three (
                  three (
                    three (
                      three (
                        three (
                          three (
                            three (
                              series_lines-Mem key count seen
                                (in_order labels_before
                                  (prune instant shared.request_labels).series)
                                (type_line (ascii "macdack_message_responses_total")
                                    (ascii "counter")
                                  ∷ response_lines (in_order bytes_before shared.response_labels)
                                      (summary_lines texts shared.durations))
                                (in_order-Mem labels_before (key, (count, seen))
                                  (prune instant shared.request_labels).series m))))))))))),
        read_series-series_line key count,
      );
    }
