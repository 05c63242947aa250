-- ===== src/Runtime/Metrics/Order.antt =====
-- Reading a map of src/runtime.rs in the order of its keys loses no entry.
use mathlib.Core.Path.{subst}
use mathlib.Core.List.{Memᴰ}
use mathlib.Core.List.Memᴰ.{head, tail}
use macmapd.Base.{refl, Bool, [], ◌∷◌, Bool-cases, inl, inr}
use macmapd.Base.Map.{Map}
use macmapd.Runtime.Metrics.{place, in_order}

module _ {K V : Type 0} (before : K → K → Bool) where
  place-head : (e : K × V) (m : Map K V) → Memᴰ e (place before e m)
  unfolding place
  place-head e [] = head refl
  place-head e (o ∷ m) = elim (Bool-cases (before e.0 o.0)) [
    | inl first ↦ rw first (head refl)
    | inr later ↦ rw later (tail (place-head e m))
  ]

  place-Mem : (e o : K × V) (m : Map K V) → Memᴰ e m → Memᴰ e (place before o m)
  unfolding place
  place-Mem e o [] h = elim h [ ]
  place-Mem e o (x ∷ m) h = elim (Bool-cases (before o.0 x.0)) [
    | inl first ↦ rw first (tail h)
    | inr later ↦ rw later (elim h [ head same ↦ head same | tail t ↦ tail (place-Mem e o m t) ])
  ]

  pub in_order-Mem : (e : K × V) (m : Map K V) → Memᴰ e m → Memᴰ e (in_order before m)
  unfolding in_order
  in_order-Mem e (x ∷ m) (head same) =
      subst (λ y. Memᴰ e (place before y (in_order before m))) same
        (place-head e (in_order before m))
  in_order-Mem e (x ∷ m) (tail h) = place-Mem e x (in_order before m) (in_order-Mem e m h)
  in_order-Mem e [] h = elim h [ ]
