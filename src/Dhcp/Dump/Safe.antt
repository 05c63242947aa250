-- ===== src/Dhcp/Dump/Safe.antt =====
-- What the packet log of src/dhcp.rs writes: visible ASCII, in lines that the program starts.
pub mod Values
pub mod Starts
pub mod Lines
pub mod Whole
use macmapd.Base.{
  ℕ, zero, suc, ◌+◌, ◌-◌, ◌/◌, ◌%◌, ◌≡◌, ◌<◌, refl, Bool, true, false, ◌&&◌, ◌||◌, List, [], ◌∷◌,
  ◌++◌, Bytes, All, map, all, all-append, ltb, leb, ◌==◌, if◌then◌else◌, arith, ascii, Bool-cases,
  inl, inr,
}
use macmapd.Text.Decimal.{decimal, decimal_digits}
use macmapd.Net.{Ipv4Addr}
use macmapd.Net.Display.{display}
use macmapd.Dhcp.Dump.{join}
use macmapd.Dhcp.Dump.Values.{hex_digit, hex2, printed, printable}

-- A space or a visible ASCII character.
abbrev pub is_visible : ℕ → Bool
is_visible c = leb 0x20 c && leb c 0x7e

-- One line of text.
pub record IsLine (text : Bytes) : Type 0 where
  pub visible : all is_visible text ≡ true

pub IsLine-nil : IsLine []
IsLine-nil = record { visible = refl }

pub IsLine-append : {a b : Bytes} → IsLine a → IsLine b → IsLine (a ++ b)
IsLine-append {a} {b} h k =
    let va = h.visible in
    let vb = k.visible in record { visible = ground (arith, all-append is_visible a b) }

pub IsLine-cons : {c : ℕ} {b : Bytes} → is_visible c ≡ true → IsLine b → IsLine (c ∷ b)
IsLine-cons {c} {b} h k = let vb = k.visible in record { visible = ground arith }

-- A text of the program, alone and in front of another.
pub literal : (text : Bytes) → all is_visible text ≡ true → IsLine text
literal text h = record { visible = h }

pub lead : (text : Bytes) {b : Bytes} → all is_visible text ≡ true → IsLine b → IsLine (text ++ b)
lead text h k = IsLine-append (literal text h) k

pub IsLine-if : (t : Bool) {a b : Bytes} → IsLine a → IsLine b → IsLine (if t then a else b)
IsLine-if true h k = h
IsLine-if false h k = k

digit : (n : ℕ) → n < 10 → is_visible (b'0' + n) ≡ true
digit n h = ground arith

decimal_digits-IsLine : (k n : ℕ) → IsLine (decimal_digits k n)
unfolding decimal_digits
decimal_digits-IsLine zero n = IsLine-nil
decimal_digits-IsLine (suc k) n = elim (Bool-cases (ltb n 10)) [
  | inl small ↦ rw small (IsLine-cons (digit n (ground arith)) IsLine-nil)
  | inr big ↦ rw big (
      IsLine-append (decimal_digits-IsLine k (n / 10))
        (IsLine-cons (digit (n % 10) (omega arith)) IsLine-nil))
]

pub decimal-IsLine : (n : ℕ) → IsLine (decimal n)
unfolding decimal
decimal-IsLine n = decimal_digits-IsLine 20 n

pub display-IsLine : (ip : Ipv4Addr) → IsLine (display ip)
unfolding display
display-IsLine ip = IsLine-append (decimal-IsLine ip.a) (
    IsLine-cons refl (
      IsLine-append (decimal-IsLine ip.b) (
        IsLine-cons refl
          (IsLine-append (decimal-IsLine ip.c) (IsLine-cons refl (decimal-IsLine ip.d))))))

hex_digit-visible : (n : ℕ) → n < 16 → is_visible (hex_digit n) ≡ true
hex_digit-visible n h = ground arith

pub hex2-IsLine : (n : ℕ) → IsLine (hex2 n)
unfolding hex2
hex2-IsLine n =
    IsLine-cons (hex_digit-visible (n / 16 % 16) (omega arith))
      (IsLine-cons (hex_digit-visible (n % 16) (omega arith)) IsLine-nil)

printed-IsLine : (c : ℕ) → IsLine (printed c)
printed-IsLine c = split (c == 0) (leb 0x20 c && leb c 0x7e) refl
  where
    split :
        (zero_byte plain : Bool)
        → (leb 0x20 c && leb c 0x7e) ≡ plain
        → IsLine (if zero_byte then ascii "^@" else if plain then c ∷ [] else b'\\' ∷ b'x' ∷ hex2 c)
    split true plain e = record { visible = refl }
    split false true e = IsLine-cons e IsLine-nil
    split false false e = IsLine-cons refl (IsLine-cons refl (hex2-IsLine c))

pub printable-IsLine : (value : Bytes) → IsLine (printable value)
unfolding printable
printable-IsLine [] = IsLine-nil
printable-IsLine (c ∷ value) = IsLine-append (printed-IsLine c) (printable-IsLine value)

pub join-IsLine :
    (separator : Bytes) (texts : List Bytes)
    → IsLine separator
    → All IsLine texts
    → IsLine (join separator texts)
unfolding join
join-IsLine s [] h k = IsLine-nil
join-IsLine s (text ∷ []) h k = k.0
join-IsLine s (text ∷ next ∷ rest) h k =
    IsLine-append k.0 (IsLine-append h (join-IsLine s (next ∷ rest) h k.1))

pub map-IsLine {ℓ} :
    {A : Type ℓ} (f : A → Bytes) (xs : List A) → ((x : A) → IsLine (f x)) → All IsLine (map f xs)
map-IsLine f [] h = tt
map-IsLine f (x ∷ xs) h = (h x, map-IsLine f xs h)
