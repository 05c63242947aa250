-- ===== src/Base/Map.antt =====
-- Equality tests as an interface, and a map with such keys as an association list. An insertion
-- replaces the value of a key that is there, and adds a new key behind the others.
use mathlib.Core.Path.{◌≡◌, refl}
use mathlib.Core.Logic.{◌↔◌, ◌≢◌, ◌⊎◌}
use mathlib.Core.Bool.{Bool, true, false}
use mathlib.Core.Option.{Option, none, some}
use mathlib.Core.List.{List, [], ◌∷◌, ◌++◌}
use native.Mathlib.Omega.{arith}
use macmapd.Base.Tests.{if◌then◌else◌}

pub record Eq {ℓ} (A : Type ℓ) : Type ℓ where
  pub beq : A → A → Bool
  pub beq_iff : (a b : A) → (beq a b ≡ true) ↔ (a ≡ b)

abbrev pub Map {ℓ κ} : Type ℓ → Type κ → Type (ℓ ⊔ κ)
Map K V = List (K × V)

abbrev pub is_some {ℓ} : {A : Type ℓ} → Option A → Bool
is_some none = false
is_some (some a) = true

module _ {ℓ κ} {K : Type ℓ} {V : Type κ} ⦃e : Eq K⦄ where
  unfoldable pub get : Map K V → K → Option V
  get [] k = none
  get ((j, v) ∷ m) k = if e.beq j k then some v else get m k

  unfoldable pub contains_key : Map K V → K → Bool
  unfolding get
  contains_key m k = is_some (get m k)

  unfoldable pub insert : K → V → Map K V → Map K V
  insert k v [] = (k, v) ∷ []
  insert k v ((j, w) ∷ m) = if e.beq j k then (k, v) ∷ m else (j, w) ∷ insert k v m

  get-insert :
      (k j : K) (v : V) (m : Map K V)
      → get (insert k v m) j ≡ (if e.beq k j then some v else get m j)
  unfolding get insert
  get-insert k j v [] = refl
  get-insert k j v ((i, w) ∷ m) =
      ground (arith, e.beq_iff k j, e.beq_iff i k, e.beq_iff i j, get-insert k j v m)

  -- A new key goes to the end.
  pub insert_new :
      (k : K) (v : V) (m : Map K V) → contains_key m k ≡ false → insert k v m ≡ m ++ ((k, v) ∷ [])
  unfolding contains_key insert
  insert_new k v [] h = refl
  insert_new k v ((j, w) ∷ m) h = ground (arith, insert_new k v m)

  pub get-none : (m : Map K V) (k : K) → contains_key m k ≡ false → get m k ≡ none
  unfolding contains_key
  get-none m k h = ground arith

  pub get-insert_self : (k : K) (v : V) (m : Map K V) → get (insert k v m) k ≡ some v
  get-insert_self k v m = ground (arith, get-insert k k v m, (e.beq_iff k k).1 refl)

  pub get-insert_ne : (k j : K) (v : V) (m : Map K V) → k ≢ j → get (insert k v m) j ≡ get m j
  get-insert_ne k j v m h = ground (arith, get-insert k j v m, e.beq_iff k j)

  -- Where a value that is found after an insertion comes from.
  pub insert_cases :
      (k j : K) (v : V) (m : Map K V) {w : V}
      → get (insert k v m) j ≡ some w
      → ((k ≡ j) × (v ≡ w)) ⊎ ((k ≢ j) × (get m j ≡ some w))
  insert_cases k j v m h = ground (arith, get-insert k j v m, e.beq_iff k j)
