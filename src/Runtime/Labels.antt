-- ===== src/Runtime/Labels.antt =====
-- `escape_label` of src/runtime.rs: label values in the text of the metrics.
pub mod ReadBack
use macmapd.Base.{ℕ, ◌==◌, if◌then◌else◌, [], ◌∷◌, ◌++◌, Bytes}

-- `str::replace` of one character.
unfoldable pub replace : ℕ → Bytes → Bytes → Bytes
replace from to [] = []
replace from to (x ∷ xs) =
    let rest = replace from to xs in if x == from then to ++ rest else x ∷ rest

-- A backslash is 92, a newline 10, a quote 34 and an `n` 110.
unfoldable pub escape_label : Bytes → Bytes
unfolding replace
escape_label value =
    replace 34 (92 ∷ 34 ∷ []) (replace 10 (92 ∷ 110 ∷ []) (replace 92 (92 ∷ 92 ∷ []) value))
