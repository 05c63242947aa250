-- ===== src/Base/Results.antt =====
-- Fallible code. `err` is anyhow's `Err`; `panic` is a Rust panic (an index or a slice out of
-- range); `stuck` is no Rust value: the fuel of a modelled loop ran out.
use mathlib.Core.Path.{◌≡◌, refl}
use mathlib.Core.Bool.{Bool, true, false}
use mathlib.Core.Option.{Option, none, some}

pub data Result {ℓ} (E : Type 0) (A : Type ℓ) : Type ℓ where
  ok : A → Result E A
  err : E → Result E A
  panic : Result E A
  stuck : Result E A

infixl 5 ◌>>=◌ ◌>>◌
unfoldable pub ◌>>=◌ {ℓ κ} :
    {E : Type 0} {A : Type ℓ} {B : Type κ} → Result E A → (A → Result E B) → Result E B
ok a >>= f = f a
err e >>= f = err e
panic >>= f = panic
stuck >>= f = stuck

abbrev pub ◌>>◌ {ℓ} : {E : Type 0} {B : Type ℓ} → Result E (Unit {0}) → Result E B → Result E B
m >> k = m >>= λ _. k

-- `ensure!(test, error)`.
unfoldable pub ensure : {E : Type 0} → Bool → E → Result E (Unit {0})
ensure true e = ok tt
ensure false e = err e

-- `option.context(error)`.
unfoldable pub context {ℓ} : {E : Type 0} {A : Type ℓ} → Option A → E → Result E A
context (some a) e = ok a
context none e = err e

-- `result.map_err(f)`, `result.with_context(f)`.
unfoldable pub map_err {ℓ} : {E F : Type 0} {A : Type ℓ} → (E → F) → Result E A → Result F A
map_err f (ok a) = ok a
map_err f (err e) = err (f e)
map_err f panic = panic
map_err f stuck = stuck

-- The code comes back, with a value or with an error.
abbrev pub Returns {ℓ} : {E : Type 0} {A : Type ℓ} → Result E A → Type 0
Returns (ok a) = Unit
Returns (err e) = Unit
Returns panic = ⊥
Returns stuck = ⊥

-- An `ensure!` in front of a computation that succeeded.
pub ensure-then-eq-ok {ℓ} :
    {E : Type 0} {B : Type ℓ} (t : Bool) (e : E) (k : Result E B) {b : B}
    → (ensure t e >> k) ≡ ok b
    → (t ≡ true) × (k ≡ ok b)
unfolding ◌>>=◌ ensure
ensure-then-eq-ok true e k h = (refl, h)
ensure-then-eq-ok false e k h = cc

-- The same for `option.context(error)?`.
pub context-then-eq-ok {ℓ κ} :
    {E : Type 0} {A : Type ℓ} {B : Type κ} (o : Option A) (e : E) (k : A → Result E B) {b : B}
    → (context o e >>= k) ≡ ok b
    → (a : A) × (o ≡ some a) × (k a ≡ ok b)
unfolding ◌>>=◌ context
context-then-eq-ok (some a) e k h = (a, refl, h)
context-then-eq-ok none e k h = cc
