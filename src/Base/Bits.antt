-- ===== src/Base/Bits.antt =====
-- The bit operations of the program as arithmetic: the masks of an address prefix at every width,
-- and masks on one byte by tables.
use Prim.Native.Nat.{
  ℕ, zero, suc, ◌+◌, ◌-◌, ◌*◌, ◌/◌, ◌%◌, ◌^◌, ◌≤◌, ◌<◌, min, max, bit_and, bit_or, digits,
  bit_and-bitwise, bit_or-bitwise,
}
use mathlib.Core.Path.{◌≡◌, refl, sym, ap, ◌∙◌}
use mathlib.Core.Bool.{Bool, true, false, ◌&&◌}
use mathlib.Core.Logic.{ite}
use native.Mathlib.Decide.{ℕ_discrete}
use native.Mathlib.Omega.{arith}
use native.Mathlib.Nat.{
  pow-suc, add-mul-mod_self_left, mod-eq_of_lt, mod-lt, div-add-mod, mul_comm, div-div-eq-div-mul,
}

module _ (f g : ℕ → ℕ) where
  agree_below : ℕ → Bool
  unfolding ℕ_discrete
  agree_below zero = true
  agree_below (suc n) = ite (ℕ_discrete (f n) (g n)) (agree_below n) false

  agree_below→eq : (n : ℕ) → agree_below n ≡ true → (i : ℕ) → i < n → f i ≡ g i
  unfolding agree_below
  agree_below→eq zero e i h = absurd (omega arith)
  agree_below→eq (suc n) e i h = ground (arith, agree_below→eq n (ground arith) i)

pub byte-and-one : (b : ℕ) → b < 256 → bit_and b 1 ≡ b % 2
unfolding agree_below
byte-and-one = agree_below→eq _ _ 256 refl

-- One binary digit at a time: `op` acts on a digit, and `rest` on what the second number has left.
module _ (rest : ℕ → ℕ) (op : ℕ → ℕ → ℕ) where
  digits_enough : (n m a b : ℕ) → a ≤ n → a ≤ m → digits rest op n a b ≡ digits rest op m a b
  digits_enough zero zero a b p q = refl
  digits_enough zero (suc m) zero b p q = refl
  digits_enough zero (suc m) (suc a) b p q = absurd (omega arith)
  digits_enough (suc n) zero zero b p q = refl
  digits_enough (suc n) zero (suc a) b p q = absurd (omega arith)
  digits_enough (suc n) (suc m) zero b p q = refl
  digits_enough (suc n) (suc m) (suc a) b p q =
      ap (λ (t : ℕ). t * 2 + op (suc a % 2) (b % 2))
        (digits_enough n m (suc a / 2) (b / 2) (omega arith) (omega arith))

  digits_step :
      (a b : ℕ)
      → rest b ≡ rest (b / 2) * 2 + op 0 (b % 2)
      → digits rest op a a b ≡ digits rest op (a / 2) (a / 2) (b / 2) * 2 + op (a % 2) (b % 2)
  digits_step zero b e = e
  digits_step (suc a) b e =
      ap (λ (t : ℕ). t * 2 + op (suc a % 2) (b % 2))
        (digits_enough a (suc a / 2) (suc a / 2) (b / 2) (omega arith) (omega arith))

and_step : (a b : ℕ) → bit_and a b ≡ bit_and (a / 2) (b / 2) * 2 + min (a % 2) (b % 2)
and_step a b = omega (
  arith,
  bit_and-bitwise a b,
  bit_and-bitwise (a / 2) (b / 2),
  digits_step (λ b. zero) min a b (omega arith),
)

or_step : (a b : ℕ) → bit_or a b ≡ bit_or (a / 2) (b / 2) * 2 + max (a % 2) (b % 2)
or_step a b = omega (
  arith,
  bit_or-bitwise a b,
  bit_or-bitwise (a / 2) (b / 2),
  digits_step (λ b. b) max a b (omega arith),
)

and-zero : (n a : ℕ) → a ≤ n → bit_and a 0 ≡ 0
and-zero n zero h = refl
and-zero zero (suc a) h = absurd (omega arith)
and-zero (suc n) (suc a) h = omega (arith, and_step (suc a) 0, and-zero n (suc a / 2) (omega arith))

or-zero : (n a : ℕ) → a ≤ n → bit_or a 0 ≡ a
or-zero n zero h = refl
or-zero zero (suc a) h = absurd (omega arith)
or-zero (suc n) (suc a) h = omega (arith, or_step (suc a) 0, or-zero n (suc a / 2) (omega arith))

two_pow : (k : ℕ) → 2 ^ suc k ≡ 2 ^ k * 2
two_pow k = pow-suc 2 k

pub two_pow_pos : (k : ℕ) → 0 < 2 ^ k
two_pow_pos zero = omega arith
two_pow_pos (suc k) = omega (arith, two_pow k, two_pow_pos k)

mod_unique : (x q r n : ℕ) → x ≡ r + n * q → r < n → x % n ≡ r
mod_unique x q r n e h = ap (λ (t : ℕ). t % n) e ∙ add-mul-mod_self_left r n q ∙ mod-eq_of_lt h

split_bit : (x m : ℕ) → 0 < m → x % (m * 2) ≡ x / 2 % m * 2 + x % 2
split_bit x m h =
    mod_unique x (x / 2 / m) (x / 2 % m * 2 + x % 2) (m * 2)
      (omega (arith, ap (λ (t : ℕ). t * 2) (div-add-mod (x / 2) m)))
      (omega (arith, mod-lt (x / 2) h))

-- `x & (2^k - 1)` keeps the `k` low bits.
pub and-low_mask : (k x : ℕ) → bit_and x (2 ^ k - 1) ≡ x % 2 ^ k
and-low_mask zero x = omega (arith, and-zero x x (omega arith))
and-low_mask (suc k) x = rw (two_pow k) (
    omega (
      arith,
      two_pow_pos k,
      and_step x (2 ^ k * 2 - 1),
      and-low_mask k (x / 2),
      split_bit x (2 ^ k) (two_pow_pos k),
      let e : (2 ^ k * 2 - 1) / 2 ≡ 2 ^ k - 1 = omega (arith, two_pow_pos k) in
          ap (bit_and (x / 2)) e,
    ))

halves : (x m : ℕ) → x / (m * 2) ≡ x / 2 / m
halves x m = ap (λ (t : ℕ). x / t) (mul_comm m 2) ∙ sym (div-div-eq-div-mul x 2 m)

-- `x & m`, where `m` has `w` ones above `k` zeros, clears the `k` low bits.
pub and-high_mask :
    (k w x : ℕ) → x < 2 ^ w * 2 ^ k → bit_and x ((2 ^ w - 1) * 2 ^ k) ≡ x / 2 ^ k * 2 ^ k
and-high_mask zero w x h =
    let e : (2 ^ w - 1) * 2 ^ 0 ≡ 2 ^ w - 1 = omega arith in
    ap (bit_and x) e ∙ and-low_mask w x ∙ mod-eq_of_lt (omega arith) ∙ omega arith
and-high_mask (suc k) w x h = rw (two_pow k) (
    omega (
      arith,
      and_step x ((2 ^ w - 1) * (2 ^ k * 2)),
      and-high_mask k w (x / 2) (omega (arith, ap (λ (t : ℕ). 2 ^ w * t) (two_pow k))),
      ap (bit_and (x / 2)) half_mask,
      ap (λ (t : ℕ). t * (2 ^ k * 2)) (halves x (2 ^ k)),
    ))
  where
    half_mask : (2 ^ w - 1) * (2 ^ k * 2) / 2 ≡ (2 ^ w - 1) * 2 ^ k
    half_mask = omega arith

-- `x | (2^k - 1)` sets the `k` low bits.
pub or-low_mask : (k x : ℕ) → x % 2 ^ k ≡ 0 → bit_or x (2 ^ k - 1) ≡ x + (2 ^ k - 1)
or-low_mask zero x h = omega (arith, or-zero x x (omega arith))
or-low_mask (suc k) x h = rw (two_pow k) (
    omega (
      arith,
      two_pow_pos k,
      or_step x (2 ^ k * 2 - 1),
      or-low_mask k (x / 2) (omega (arith, even)),
      let e : (2 ^ k * 2 - 1) / 2 ≡ 2 ^ k - 1 = omega (arith, two_pow_pos k) in
          ap (bit_or (x / 2)) e,
      even,
    ))
  where
    even : x / 2 % 2 ^ k * 2 + x % 2 ≡ 0
    even = sym (split_bit x (2 ^ k) (two_pow_pos k)) ∙ rw (two_pow k) at h

-- A test that is passed by every number below `n`, as far as evaluation tells.
unfoldable pub holds_below : (ℕ → Bool) → ℕ → Bool
holds_below p zero = true
holds_below p (suc n) = p n && holds_below p n

pub holds_below→holds :
    (p : ℕ → Bool) (n : ℕ) → holds_below p n ≡ true → (x : ℕ) → x < n → p x ≡ true
unfolding holds_below
holds_below→holds p zero e x h = absurd (omega arith)
holds_below→holds p (suc n) e x h = ground (arith, holds_below→holds p n (ground arith) x)
