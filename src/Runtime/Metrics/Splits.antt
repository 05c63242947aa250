-- ===== src/Runtime/Metrics/Splits.antt =====
-- The parts of the text of the metrics of src/runtime.rs, cut into lines.
use macmapd.Base.{ℕ, ◌≡◌, refl, ap, ◌∙◌, List, [], ◌∷◌, Bytes, All, ascii}
use macmapd.Base.Map.{Map}
use macmapd.Text.{split}
use macmapd.Text.Split.{split-append}
use macmapd.Text.Decimal.{decimal}
use macmapd.Runtime.{RequestLabels}
use macmapd.Runtime.Metrics.{
  writeln, type_line, value_line, single, series_line, response_line, series_text, responses_text,
  counters_text,
}
use macmapd.Runtime.Metrics.Lines.{
  IsLine, literal, decimal-IsLine, series_line-IsLine, response_line-IsLine, type_line-IsLine,
  value_line-IsLine,
}

-- A text and its lines, with what stands behind the last line break.
pub record Splits (text : Bytes) (lines : List Bytes) : Type 0 where
  pub cut : split 10 text ≡ lines

pub Splits-nil : Splits [] ([] ∷ [])
unfolding split
Splits-nil = record { cut = refl }

pub Splits-writeln :
    {line rest : Bytes} {lines : List Bytes}
    → IsLine line
    → Splits rest lines
    → Splits (writeln line rest) (line ∷ lines)
Splits-writeln {line} {rest} {lines} h k = record {
  cut = split-append 10 line rest h.unbroken ∙ ap (λ (l : List Bytes). line ∷ l) k.cut;
}

pub Splits-single :
    (name kind value : Bytes) {rest : Bytes} {lines : List Bytes}
    → IsLine name
    → IsLine kind
    → IsLine value
    → Splits rest lines
    → Splits (single name kind value rest) (type_line name kind ∷ value_line name value ∷ lines)
unfolding single
Splits-single name kind value h k l s =
    Splits-writeln (type_line-IsLine name kind h k)
      (Splits-writeln (value_line-IsLine name value h l) s)

abbrev pub series_lines : Map RequestLabels (ℕ × ℕ) → List Bytes → List Bytes
series_lines [] rest = rest
series_lines ((key, (count, seen)) ∷ series) rest = series_line key count ∷ series_lines series rest

pub Splits-series :
    (series : Map RequestLabels (ℕ × ℕ)) {rest : Bytes} {lines : List Bytes}
    → Splits rest lines
    → Splits (series_text series rest) (series_lines series lines)
Splits-series [] h = h
Splits-series ((key, (count, seen)) ∷ series) h =
    Splits-writeln (series_line-IsLine key count) (Splits-series series h)

abbrev pub response_lines : Map Bytes ℕ → List Bytes → List Bytes
response_lines [] rest = rest
response_lines ((message, count) ∷ responses) rest =
    response_line message count ∷ response_lines responses rest

pub Splits-responses :
    (responses : Map Bytes ℕ) {rest : Bytes} {lines : List Bytes}
    → Splits rest lines
    → Splits (responses_text responses rest) (response_lines responses lines)
Splits-responses [] h = h
Splits-responses ((message, count) ∷ responses) h =
    Splits-writeln (response_line-IsLine message count) (Splits-responses responses h)

abbrev pub counter_lines : List (Bytes × ℕ) → List Bytes → List Bytes
counter_lines [] rest = rest
counter_lines ((name, count) ∷ others) rest =
    type_line name (ascii "counter") ∷ value_line name (decimal count) ∷ counter_lines others rest

pub Splits-counters :
    (others : List (Bytes × ℕ)) {rest : Bytes} {lines : List Bytes}
    → All (λ c. IsLine c.0) others
    → Splits rest lines
    → Splits (counters_text others rest) (counter_lines others lines)
Splits-counters [] h k = k
Splits-counters ((name, count) ∷ others) h k =
    Splits-single name (ascii "counter") (decimal count) h.0 (literal (ascii "counter") refl)
      (decimal-IsLine count) (Splits-counters others h.1 k)
