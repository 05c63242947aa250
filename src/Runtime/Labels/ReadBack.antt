-- ===== src/Runtime/Labels/ReadBack.antt =====
-- Reading a label value of src/runtime.rs in the text of the metrics.
use macmapd.Base.{
  ℕ, ◌≡◌, refl, ap, ◌∙◌, false, Option, none, some, ◌==◌, ==_iff, if◌then◌else◌, [], ◌∷◌, ◌++◌,
  Bytes, Bool-cases, inl, inr,
}
use macmapd.Runtime.Labels.{escape_label, replace}

abbrev pub push : ℕ → Option (Bytes × Bytes) → Option (Bytes × Bytes)
push x none = none
push x (some (value, rest)) = some (x ∷ value, rest)

abbrev pub meaning : ℕ → ℕ
meaning y = if y == 110 then 10 else y

-- The value up to the closing quote, and what is behind the quote; a line must not end before.
unfoldable pub read_label : Bytes → Option (Bytes × Bytes)
read_label [] = none
read_label (x ∷ []) = if x == 34 then some ([], []) else none
read_label (x ∷ y ∷ rest) =
    let escaped = push (meaning y) (read_label rest) in
    let plain = push x (read_label (y ∷ rest)) in
    if x == 34
    then some ([], y ∷ rest)
    else if x == 92
    then escaped
    else if x == 10
    then none
    else plain

module _ (rest : Bytes) where
  read_plain :
      (x : ℕ) (xs : Bytes)
      → (x == 34) ≡ false
      → (x == 92) ≡ false
      → (x == 10) ≡ false
      → read_label (x ∷ (xs ++ (34 ∷ rest))) ≡ push x (read_label (xs ++ (34 ∷ rest)))
  unfolding read_label
  read_plain x [] a b c = rw (a, b, c) refl
  read_plain x (y ∷ xs) a b c = rw (a, b, c) refl

  step :
      (x : ℕ) (v : Bytes)
      → read_label (escape_label v ++ (34 ∷ rest)) ≡ some (v, rest)
      → read_label (escape_label (x ∷ v) ++ (34 ∷ rest)) ≡ some (x ∷ v, rest)
  unfolding escape_label read_label replace
  step x v h = elim (Bool-cases (x == 92)) [
    | inl backslash ↦ rw ((==_iff x 92).0 backslash) (ap (push 92) h)
    | inr a ↦ elim (Bool-cases (x == 10)) [
      | inl newline ↦ rw ((==_iff x 10).0 newline) (ap (push 10) h)
      | inr b ↦ elim (Bool-cases (x == 34)) [
        | inl quote ↦ rw ((==_iff x 34).0 quote) (ap (push 34) h)
        | inr c ↦ rw (a, b, c) (read_plain x (escape_label v) c a b ∙ ap (push x) h)
      ]
    ]
  ]

-- A label value is read back from its escaped form, up to the quote that closes it, whatever
-- backslashes, newlines and quotes it holds: no value can end its label or its line early.
pub read_label-escape_label :
    (v rest : Bytes) → read_label (escape_label v ++ (34 ∷ rest)) ≡ some (v, rest)
unfolding escape_label read_label replace
read_label-escape_label [] [] = refl
read_label-escape_label [] (y ∷ rest) = refl
read_label-escape_label (x ∷ v) rest = step rest x v (read_label-escape_label v rest)
