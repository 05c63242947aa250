-- ===== src/Base/Ensures.antt =====
-- Postconditions of fallible code, by one rule for each way a computation is put together.
use mathlib.Core.Path.{◌≡◌, refl, subst}
use mathlib.Core.Bool.{Bool, true, false}
use mathlib.Core.Option.{Option, none, some}
use macmapd.Base.Tests.{if◌then◌else◌}
use macmapd.Base.Results.{Result, ok, err, panic, stuck, Returns, ◌>>=◌, ensure, context}

-- Whatever `r` returns as a value satisfies `P`.
pub record Ensures {ℓ κ} {E : Type 0} {A : Type ℓ} (P : A → Type κ) (r : Result E A)
    : Type (ℓ ⊔ κ) where
  pub at : (a : A) → r ≡ ok a → P a

abbrev value_or {ℓ} : {E : Type 0} {A : Type ℓ} → A → Result E A → A
value_or d (ok a) = a
value_or d _ = d

pub ok_inj {ℓ} : {E : Type 0} {A : Type ℓ} {a b : A} → ◌≡◌ {A = Result E A} (ok a) (ok b) → a ≡ b
ok_inj {a = a} e = λ i. value_or a (e i)

module _ {ℓ κ} {E : Type 0} {B : Type κ} {P : B → Type ℓ} where
  pub Ensures-ok : {b : B} → P b → Ensures {E = E} P (ok b)
  Ensures-ok h = record { at = λ a e. subst P (ok_inj e) h }

  pub Ensures-err : (x : E) → Ensures P (err x)
  Ensures-err x = record { at = λ a e. cc }

  pub Ensures-ensure :
      (t : Bool) (x : E) (k : Unit {0} → Result E B)
      → (t ≡ true → Ensures P (k tt))
      → Ensures P (ensure t x >>= k)
  unfolding ◌>>=◌ ensure
  Ensures-ensure true x k h = h refl
  Ensures-ensure false x k h = Ensures-err x

  pub Ensures-if :
      (t : Bool) (k l : Result E B)
      → (t ≡ true → Ensures P k)
      → (t ≡ false → Ensures P l)
      → Ensures P (if t then k else l)
  Ensures-if true k l h j = h refl
  Ensures-if false k l h j = j refl

module _ {ℓ κ μ} {E : Type 0} {A : Type μ} {B : Type κ} {P : B → Type ℓ} where
  pub Ensures-context :
      (o : Option A) (x : E) (k : A → Result E B)
      → ((a : A) → o ≡ some a → Ensures P (k a))
      → Ensures P (context o x >>= k)
  unfolding ◌>>=◌ context
  Ensures-context (some a) x k h = h a refl
  Ensures-context none x k h = Ensures-err x

  pub Ensures-bind :
      (m : Result E A) (k : A → Result E B)
      → ((a : A) → m ≡ ok a → Ensures P (k a))
      → Ensures P (m >>= k)
  unfolding ◌>>=◌
  Ensures-bind (ok a) k h = h a refl
  Ensures-bind (err x) k h = Ensures-err x
  Ensures-bind panic k h = record { at = λ a e. cc }
  Ensures-bind stuck k h = record { at = λ a e. cc }

  pub Ensures-option :
      (o : Option A) (l : Result E B) (k : A → Result E B)
      → (o ≡ none → Ensures P l)
      → ((a : A) → o ≡ some a → Ensures P (k a))
      → Ensures P (elim o [ none ↦ l | some a ↦ k a ])
  Ensures-option none l k h j = h refl
  Ensures-option (some a) l k h j = j a refl

-- An `ensure!` at the end.
pub Ensures-last {ℓ} :
    {E : Type 0} {Q : Unit {0} → Type ℓ} (t : Bool) (x : E)
    → (t ≡ true → Q tt)
    → Ensures Q (ensure t x)
unfolding ensure
Ensures-last true x h = record { at = λ a e. h refl }
Ensures-last false x h = record { at = λ a e. cc }

-- The computation comes back, with a value or with an error: it neither panics nor runs out of fuel.
pub record Total {ℓ} {E : Type 0} {A : Type ℓ} (r : Result E A) : Type 0 where
  pub returns : Returns r

module _ {ℓ} {E : Type 0} {B : Type ℓ} where
  pub Total-ok : (b : B) → Total {E = E} (ok b)
  Total-ok b = record { returns = tt }

  pub Total-err : (x : E) → Total {A = B} (err x)
  Total-err x = record { returns = tt }

  pub Total-ensure :
      (t : Bool) (x : E) (k : Unit {0} → Result E B)
      → (t ≡ true → Total (k tt))
      → Total (ensure t x >>= k)
  unfolding ◌>>=◌ ensure
  Total-ensure true x k h = h refl
  Total-ensure false x k h = Total-err x

  pub Total-if :
      (t : Bool) (k l : Result E B)
      → (t ≡ true → Total k)
      → (t ≡ false → Total l)
      → Total (if t then k else l)
  Total-if true k l h j = h refl
  Total-if false k l h j = j refl

pub Total-last : {E : Type 0} (t : Bool) (x : E) → Total (ensure t x)
unfolding ensure
Total-last true x = record { returns = tt }
Total-last false x = record { returns = tt }

module _ {ℓ κ} {E : Type 0} {A : Type κ} {B : Type ℓ} where
  pub Total-context :
      (o : Option A) (x : E) (k : A → Result E B)
      → ((a : A) → o ≡ some a → Total (k a))
      → Total (context o x >>= k)
  unfolding ◌>>=◌ context
  Total-context (some a) x k h = h a refl
  Total-context none x k h = Total-err x

  pub Total-bind :
      (m : Result E A) (k : A → Result E B)
      → Total m
      → ((a : A) → m ≡ ok a → Total (k a))
      → Total (m >>= k)
  unfolding ◌>>=◌
  Total-bind (ok a) k t h = h a refl
  Total-bind (err x) k t h = Total-err x
  Total-bind panic k t h = absurd t.returns
  Total-bind stuck k t h = absurd t.returns

  pub Total-option :
      (o : Option A) (l : Result E B) (k : A → Result E B)
      → Total l
      → ((a : A) → Total (k a))
      → Total (elim o [ none ↦ l | some a ↦ k a ])
  Total-option none l k h j = h
  Total-option (some a) l k h j = j a
