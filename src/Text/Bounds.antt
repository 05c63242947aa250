-- ===== src/Text/Bounds.antt =====
-- The range of a parsed integer.
use macmapd.Base.{ℕ, ◌≤◌, ◌≡◌, Option, none, some, [], ◌∷◌, Bytes, arith}
use macmapd.Text.{digits_value, push_digit, to_digit, from_str_radix, after_sign, parse_u16}

abbrev Fits : ℕ → Option ℕ → Type 0
Fits most none = Unit
Fits most (some n) = n ≤ most

push_digit-Fits : (most radix acc : ℕ) (d : Option ℕ) → Fits most (push_digit most radix acc d)
push_digit-Fits most radix acc none = tt
push_digit-Fits most radix acc (some d) = ground arith

digits_value-Fits :
    (most radix : ℕ) (acc : Option ℕ) (s : Bytes)
    → Fits most acc
    → Fits most (digits_value most radix acc s)
unfolding digits_value
digits_value-Fits most radix none s h = tt
digits_value-Fits most radix (some acc) [] h = h
digits_value-Fits most radix (some acc) (c ∷ s) h =
    digits_value-Fits most radix (push_digit most radix acc (to_digit radix c)) s
      (push_digit-Fits most radix acc (to_digit radix c))

Fits-some : (most : ℕ) (o : Option ℕ) {n : ℕ} → Fits most o → o ≡ some n → n ≤ most
Fits-some most none h e = cc
Fits-some most (some m) h e = ground arith

pub digits_value-le :
    (most radix : ℕ) (s : Bytes) {n : ℕ} → digits_value most radix (some 0) s ≡ some n → n ≤ most
digits_value-le most radix s e =
    Fits-some most (digits_value most radix (some 0) s)
      (digits_value-Fits most radix (some 0) s (omega arith)) e

from_digits :
    (most radix : ℕ) (s : Bytes) {n : ℕ}
    → elim s [ [] ↦ none | c ∷ r ↦ digits_value most radix (some 0) (c ∷ r) ] ≡ some n
    → n ≤ most
from_digits most radix [] e = cc
from_digits most radix (c ∷ s) e = digits_value-le most radix (c ∷ s) e

pub parse_u16-le : (s : Bytes) {n : ℕ} → parse_u16 s ≡ some n → n ≤ 65535
unfolding parse_u16
parse_u16-le s e = from_digits 65535 10 (after_sign s) e

pub from_str_radix-le :
    (most radix : ℕ) (s : Bytes) {n : ℕ} → from_str_radix most radix s ≡ some n → n ≤ most
unfolding from_str_radix
from_str_radix-le most radix s e = from_digits most radix (after_sign s) e
