-- ===== src/Runtime/Metrics/Lines.antt =====
-- Reading the text of the metrics of src/runtime.rs: its lines, and the series in them.
use macmapd.Base.{
  ℕ, zero, suc, ◌+◌, ◌/◌, ◌%◌, ◌≡◌, ◌<◌, refl, true, not, [], ◌∷◌, ◌++◌, Bytes, all-append, ltb,
  ◌==◌, ascii, arith, Bool-cases, inl, inr,
}
use macmapd.Text.Split.{lacks}
use macmapd.Text.Decimal.{decimal, decimal_digits}
use macmapd.Runtime.{RequestLabels}
use macmapd.Runtime.Labels.{escape_label, replace}
use macmapd.Runtime.Metrics.{type_line, value_line, label, build_line, series_line, response_line}

-- A text without a line break.
pub record IsLine (text : Bytes) : Type 0 where
  pub unbroken : lacks 10 text ≡ true

pub literal : (text : Bytes) → lacks 10 text ≡ true → IsLine text
literal text h = record { unbroken = h }

IsLine-append : {a b : Bytes} → IsLine a → IsLine b → IsLine (a ++ b)
IsLine-append {a} {b} h k =
    let x = h.unbroken in
    let y = k.unbroken in record { unbroken = ground (arith, all-append (λ c. not (c == 10)) a b) }

lead : (text : Bytes) {b : Bytes} → lacks 10 text ≡ true → IsLine b → IsLine (text ++ b)
lead text h k = IsLine-append (literal text h) k

digit_byte : (n : ℕ) → n < 10 → lacks 10 ((b'0' + n) ∷ []) ≡ true
digit_byte n h = ground arith

decimal_digits-IsLine : (k n : ℕ) → IsLine (decimal_digits k n)
unfolding decimal_digits
decimal_digits-IsLine zero n = literal [] refl
decimal_digits-IsLine (suc k) n = elim (Bool-cases (ltb n 10)) [
  | inl small ↦ rw small (literal ((b'0' + n) ∷ []) (digit_byte n (ground arith)))
  | inr big ↦ rw big (
      IsLine-append (decimal_digits-IsLine k (n / 10))
        (literal ((b'0' + n % 10) ∷ []) (digit_byte (n % 10) (omega arith))))
]

pub decimal-IsLine : (n : ℕ) → IsLine (decimal n)
unfolding decimal
decimal-IsLine n = decimal_digits-IsLine 20 n

replace_keeps :
    (x : ℕ) (to s : Bytes)
    → lacks 10 to ≡ true
    → lacks 10 s ≡ true
    → lacks 10 (replace x to s) ≡ true
unfolding replace
replace_keeps x to [] h k = refl
replace_keeps x to (c ∷ s) h k = ground (
  arith,
  replace_keeps x to s h (ground arith),
  all-append (λ c. not (c == 10)) to (replace x to s),
)

replace_all : (to s : Bytes) → lacks 10 to ≡ true → lacks 10 (replace 10 to s) ≡ true
unfolding replace
replace_all to [] h = refl
replace_all to (c ∷ s) h =
    ground (arith, replace_all to s h, all-append (λ c. not (c == 10)) to (replace 10 to s))

escape_label-IsLine : (value : Bytes) → IsLine (escape_label value)
unfolding escape_label
escape_label-IsLine value =
    let inner : Bytes = replace 92 (92 ∷ 92 ∷ []) value in
    literal (replace 34 (92 ∷ 34 ∷ []) (replace 10 (92 ∷ 110 ∷ []) inner)) (
      replace_keeps 34 (92 ∷ 34 ∷ []) (replace 10 (92 ∷ 110 ∷ []) inner) refl
        (replace_all (92 ∷ 110 ∷ []) inner refl))

label-IsLine :
    (name value rest : Bytes) → lacks 10 name ≡ true → IsLine rest → IsLine (label name value rest)
label-IsLine name value rest h k =
    lead name h
      (lead (ascii "=\"") refl (IsLine-append (escape_label-IsLine value) (lead (34 ∷ []) refl k)))

pub series_line-IsLine : (key : RequestLabels) (count : ℕ) → IsLine (series_line key count)
unfolding series_line
series_line-IsLine key count = lead (ascii "macdack_client_requests_total{") refl (
    label-IsLine (ascii "location") key.location _ refl (
      lead (b',' ∷ []) refl (
        label-IsLine (ascii "hostname") key.hostname _ refl (
          lead (b',' ∷ []) refl (
            label-IsLine (ascii "stage") key.stage _ refl (
              lead (b',' ∷ []) refl (
                label-IsLine (ascii "route") key.route _ refl (
                  lead (b',' ∷ []) refl (
                    label-IsLine (ascii "message") key.message _ refl
                      (lead (ascii "} ") refl (decimal-IsLine count)))))))))))

pub response_line-IsLine : (message : Bytes) (count : ℕ) → IsLine (response_line message count)
unfolding response_line
response_line-IsLine message count =
    lead (ascii "macdack_message_responses_total{") refl (
      label-IsLine (ascii "message") message _ refl (lead (ascii "} ") refl (decimal-IsLine count)))

pub build_line-IsLine : (version : Bytes) → IsLine (build_line version)
unfolding build_line
build_line-IsLine version =
    lead (ascii "macdack_build_info{") refl
      (label-IsLine (ascii "version") version _ refl (literal (ascii "} 1") refl))

pub type_line-IsLine :
    (name kind : Bytes) → IsLine name → IsLine kind → IsLine (type_line name kind)
unfolding type_line
type_line-IsLine name kind h k =
    lead (ascii "# TYPE ") refl (IsLine-append h (lead (b' ' ∷ []) refl k))

pub value_line-IsLine :
    (name value : Bytes) → IsLine name → IsLine value → IsLine (value_line name value)
unfolding value_line
value_line-IsLine name value h k = IsLine-append h (lead (b' ' ∷ []) refl k)
