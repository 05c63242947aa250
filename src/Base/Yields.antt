-- ===== src/Base/Yields.antt =====
-- Total correctness: a computation returns a value, and the value satisfies a postcondition.
use Prim.Native.Nat.{ℕ, ◌<◌, ◌≤◌}
use mathlib.Core.Path.{◌≡◌, refl, sym, subst}
use mathlib.Core.Bool.{Bool, true, false}
use macmapd.Base.Tests.{if◌then◌else◌}
use macmapd.Base.Lists.{length, get_or}
use macmapd.Base.Words.{Bytes}
use macmapd.Base.Results.{Result, ok, ◌>>=◌}
use macmapd.Base.Slices.{index, index-ok, sub_slice, sub_slice-ok, slice}

pub record Yields {ℓ κ} {E : Type 0} {A : Type ℓ} (P : A → Type κ) (r : Result E A)
    : Type (ℓ ⊔ κ) where
  pub value : A
  pub is_ok : r ≡ ok value
  pub holds : P value

module _ {ℓ κ} {E : Type 0} {B : Type κ} {P : B → Type ℓ} where
  pub Yields-ok : {b : B} → P b → Yields {E = E} P (ok b)
  Yields-ok {b} h = record { value = b; is_ok = refl; holds = h }

  pub Yields-if :
      (t : Bool) (k l : Result E B)
      → (t ≡ true → Yields P k)
      → (t ≡ false → Yields P l)
      → Yields P (if t then k else l)
  Yields-if true k l h j = h refl
  Yields-if false k l h j = j refl

  pub Yields-bind {μ ν} :
      {A : Type μ} {Q : A → Type ν} (m : Result E A) (k : A → Result E B)
      → Yields Q m
      → ((a : A) → Q a → Yields P (k a))
      → Yields P (m >>= k)
  unfolding ◌>>=◌
  Yields-bind m k q h = subst (λ r. Yields P (r >>= k)) (sym q.is_ok) (h q.value q.holds)

pub Yields-index :
    {E : Type 0} (xs : Bytes) (i : ℕ)
    → i < length xs
    → Yields {E = E} (λ x. x ≡ get_or xs i 0) (index xs i)
Yields-index xs i h = record { value = get_or xs i 0; is_ok = index-ok xs i h; holds = refl }

pub Yields-sub_slice :
    {E : Type 0} (xs : Bytes) (a b : ℕ)
    → a ≤ b
    → b ≤ length xs
    → Yields {E = E} (λ x. x ≡ slice a b xs) (sub_slice xs a b)
Yields-sub_slice xs a b h k = record {
  value = slice a b xs;
  is_ok = sub_slice-ok xs a b h k;
  holds = refl;
}
