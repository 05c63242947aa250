-- ===== src/Base/Slices.antt =====
-- Indexing, slicing and in-place copies of byte buffers, each with the panic of a range that does
-- not fit, and the laws by which a buffer is read back.
use Prim.Native.Nat.{ℕ, ◌+◌, ◌-◌, ◌≤◌, ◌<◌}
use mathlib.Core.Path.{◌≡◌, refl, ap, sym, ◌∙◌, ◌≡⟨◌⟩◌, ◌∎}
use mathlib.Core.Bool.{◌&&◌}
use mathlib.Core.List.{List, [], ◌∷◌, ◌++◌, append_assoc}
use native.Mathlib.Omega.{arith}
use macmapd.Base.Tests.{ltb, leb, le→leb, lt→ltb, if◌then◌else◌}
use macmapd.Base.Lists.{
  length, get_or, take, drop, length-append, length-take, length-drop, take-append_exact,
  drop-append_exact, take-append_left, drop-append_left, drop-drop, take-append-drop, take-take,
  drop-take,
}
use macmapd.Base.Words.{Bytes}
use macmapd.Base.Results.{Result, ok, panic}
use macmapd.Base.Ensures.{Total, Total-ok}

-- `xs[i]`.
unfoldable pub index : {E : Type 0} → Bytes → ℕ → Result E ℕ
index xs i = if ltb i (length xs) then ok (get_or xs i 0) else panic

-- The bytes of `xs[a..b]`, where that is in range.
abbrev pub slice {ℓ} : {A : Type ℓ} → ℕ → ℕ → List A → List A
slice a b xs = take (b - a) (drop a xs)

-- `&xs[a..b]`.
unfoldable pub sub_slice : {E : Type 0} → Bytes → ℕ → ℕ → Result E Bytes
sub_slice xs a b = if leb a b && leb b (length xs) then ok (slice a b xs) else panic

-- `xs[at..at + src.len()].copy_from_slice(src)`, where that is in range.
unfoldable pub copy_at : ℕ → Bytes → Bytes → Bytes
copy_at at src xs = take at xs ++ (src ++ drop (at + length src) xs)

pub index-ok :
    {E : Type 0} (xs : Bytes) (i : ℕ) → i < length xs → index {E = E} xs i ≡ ok (get_or xs i 0)
unfolding index
index-ok xs i h = rw (lt→ltb _ _ h)

pub sub_slice-ok :
    {E : Type 0} (xs : Bytes) (a b : ℕ)
    → a ≤ b
    → b ≤ length xs
    → sub_slice {E = E} xs a b ≡ ok (slice a b xs)
unfolding sub_slice
sub_slice-ok xs a b h k = rw (le→leb _ _ h, le→leb _ _ k)

pub length-slice {ℓ} :
    {A : Type ℓ} (a b : ℕ) (xs : List A) → b ≤ length xs → length (slice a b xs) ≡ b - a
length-slice a b xs h = omega (arith, length-take (b - a) (drop a xs), length-drop a xs)

pub slice-append_left {ℓ} :
    {A : Type ℓ} (a b : ℕ) (xs ys : List A)
    → a ≤ b
    → b ≤ length xs
    → slice a b (xs ++ ys) ≡ slice a b xs
slice-append_left a b xs ys h k =
    rw (drop-append_left a xs ys (omega arith))
      (take-append_left (b - a) (drop a xs) ys (omega (arith, length-drop a xs)))

pub length-copy_at :
    (at : ℕ) (src xs : Bytes) → at + length src ≤ length xs → length (copy_at at src xs) ≡ length xs
unfolding copy_at
length-copy_at at src xs h = omega (
  arith,
  length-append (take at xs) (src ++ drop (at + length src) xs),
  length-append src (drop (at + length src) xs),
  length-take at xs,
  length-drop (at + length src) xs,
)

-- What was copied is read back.
pub slice-copy_at_self :
    (at b : ℕ) (src xs : Bytes)
    → at + length src ≤ length xs
    → b ≡ at + length src
    → slice at b (copy_at at src xs) ≡ src
unfolding copy_at
slice-copy_at_self at b src xs h e =
    rw
      (drop-append_exact (take at xs) (src ++ drop (at + length src) xs) at
        (omega (arith, length-take at xs)))
      (take-append_exact src (drop (at + length src) xs) (b - at) (omega arith))

-- A copy leaves what lies before it.
pub slice-copy_at_before :
    (at a b : ℕ) (src xs : Bytes)
    → a ≤ b
    → b ≤ at
    → at + length src ≤ length xs
    → slice a b (copy_at at src xs) ≡ slice a b xs
unfolding copy_at
slice-copy_at_before at a b src xs h k l =
    slice-append_left a b (take at xs) _ h (omega (arith, length-take at xs))
    ∙ sym (slice-append_left a b (take at xs) (drop at xs) h (omega (arith, length-take at xs)))
    ∙ ap (slice a b) (take-append-drop at xs)

drop_copied :
    (at a : ℕ) (src xs : Bytes)
    → at + length src ≤ a
    → at + length src ≤ length xs
    → drop a (copy_at at src xs) ≡ drop a xs
unfolding copy_at
drop_copied at a src xs h k =
    let front : Bytes = take at xs ++ src in
    let back : Bytes = drop (at + length src) xs in
    let n : ℕ = at + length src in
    let split : a ≡ n + (a - n) = omega arith in
    drop a (take at xs ++ (src ++ back))
    ≡⟨ ap (drop a) (sym (append_assoc (take at xs) src back)) ⟩ drop a (front ++ back)
    ≡⟨ ap (λ (k : ℕ). drop k (front ++ back)) split ⟩ drop (n + (a - n)) (front ++ back)
    ≡⟨ sym (drop-drop (a - n) n (front ++ back)) ⟩ drop (a - n) (drop n (front ++ back))
    ≡⟨ ap (drop (a - n)) (
        drop-append_exact front back n
          (omega (arith, length-append (take at xs) src, length-take at xs))) ⟩
      drop (a - n) back
    ≡⟨ drop-drop (a - n) n xs ⟩ drop (n + (a - n)) xs
    ≡⟨ ap (λ (k : ℕ). drop k xs) (sym split) ⟩ drop a xs ∎

-- A copy leaves what lies behind it.
pub slice-copy_at_after :
    (at a b : ℕ) (src xs : Bytes)
    → at + length src ≤ a
    → at + length src ≤ length xs
    → slice a b (copy_at at src xs) ≡ slice a b xs
slice-copy_at_after at a b src xs h k = ap (take (b - a)) (drop_copied at a src xs h k)

-- A copy into the front of a buffer leaves what was appended behind it.
pub copy_at-append :
    (at : ℕ) (src xs ys : Bytes)
    → at + length src ≤ length xs
    → copy_at at src (xs ++ ys) ≡ copy_at at src xs ++ ys
unfolding copy_at
copy_at-append at src xs ys h =
    let back : Bytes = drop (at + length src) xs in
    rw (take-append_left at xs ys (omega arith), drop-append_left (at + length src) xs ys h)
      (ap (λ (t : Bytes). take at xs ++ t) (sym (append_assoc src back ys))
        ∙ sym (append_assoc (take at xs) (src ++ back) ys))

-- A slice of a prefix is the slice of the whole.
pub slice-take {ℓ} :
    {A : Type ℓ} (a b n : ℕ) (xs : List A) → a ≤ b → b ≤ n → slice a b (take n xs) ≡ slice a b xs
slice-take a b n xs h k =
    rw (drop-take a (n - a) n xs (omega arith))
      (take-take (b - a) (n - a) (drop a xs) (omega arith))

pub Total-index : {E : Type 0} (xs : Bytes) (i : ℕ) → i < length xs → Total (index {E = E} xs i)
Total-index xs i h = rw (index-ok xs i h) (Total-ok _)

pub Total-sub_slice :
    {E : Type 0} (xs : Bytes) (a b : ℕ) → a ≤ b → b ≤ length xs → Total (sub_slice {E = E} xs a b)
Total-sub_slice xs a b h k = rw (sub_slice-ok xs a b h k) (Total-ok _)

-- A slice that was taken lay in range.
pub sub_slice-eq-ok :
    {E : Type 0} (xs : Bytes) (a b : ℕ) {v : Bytes}
    → sub_slice {E = E} xs a b ≡ ok v
    → (v ≡ slice a b xs) × (a ≤ b) × (b ≤ length xs)
unfolding sub_slice
sub_slice-eq-ok xs a b e = ground arith

pub four_bytes :
    (xs : Bytes)
    → length xs ≡ 4
    → get_or xs 0 0 ∷ get_or xs 1 0 ∷ get_or xs 2 0 ∷ get_or xs 3 0 ∷ [] ≡ xs
unfolding get_or
four_bytes (a ∷ b ∷ c ∷ d ∷ []) h = refl
four_bytes [] h = absurd (omega arith)
four_bytes (a ∷ []) h = absurd (omega arith)
four_bytes (a ∷ b ∷ []) h = absurd (omega arith)
four_bytes (a ∷ b ∷ c ∷ []) h = absurd (omega arith)
four_bytes (a ∷ b ∷ c ∷ d ∷ x ∷ xs) h = absurd (omega arith)
