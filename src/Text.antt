-- ===== src/Text.antt =====
-- The parts of Rust's `str`, `char` and integer parsing that the program calls. A `str` is the
-- byte string of its UTF-8 encoding, as in Rust.
pub mod Utf8
pub mod Decimal
pub mod Split
pub mod Bounds
use macmapd.Base.{
  ℕ, ◌+◌, ◌-◌, ◌*◌, ◌≤◌, Bool, true, false, ◌&&◌, ◌||◌, not, Option, none, some, List, [], ◌∷◌,
  Bytes, length, drop, take, leb, ltb, ◌==◌, if◌then◌else◌,
}

unfoldable pub is_ascii_digit : ℕ → Bool
is_ascii_digit c = leb b'0' c && leb c b'9'

-- `u8::is_ascii_alphanumeric`.
unfoldable pub is_ascii_alphanumeric : ℕ → Bool
unfolding is_ascii_digit
is_ascii_alphanumeric c = is_ascii_digit c || leb b'A' c && leb c b'Z' || leb b'a' c && leb c b'z'

-- `s.starts_with(pat)`.
unfoldable pub starts_with : Bytes → Bytes → Bool
starts_with [] s = true
starts_with (p ∷ ps) [] = false
starts_with (p ∷ ps) (c ∷ s) = p == c && starts_with ps s

-- `s.ends_with(c)` for an ASCII character.
unfoldable pub ends_with_char : ℕ → Bytes → Bool
ends_with_char c [] = false
ends_with_char c (x ∷ []) = x == c
ends_with_char c (x ∷ y ∷ s) = ends_with_char c (y ∷ s)

-- `s.starts_with(c)` for an ASCII character.
unfoldable pub starts_with_char : ℕ → Bytes → Bool
starts_with_char c [] = false
starts_with_char c (x ∷ s) = x == c

-- `s.strip_suffix(c).unwrap_or(s)` for an ASCII character.
unfoldable pub without_suffix : ℕ → Bytes → Bytes
unfolding ends_with_char
without_suffix c s = if ends_with_char c s then take (length s - 1) s else s

-- `s.split(c)` for an ASCII character: at least one piece, and one more for each `c`.
abbrev pub push_front : ℕ → List Bytes → List Bytes
push_front c [] = (c ∷ []) ∷ []
push_front c (p ∷ ps) = (c ∷ p) ∷ ps

unfoldable pub split : ℕ → Bytes → List Bytes
split sep [] = [] ∷ []
split sep (c ∷ s) = let rest = split sep s in if c == sep then [] ∷ rest else push_front c rest

-- `s.split_once(pat)`.
abbrev pub push_before : ℕ → Option (Bytes × Bytes) → Option (Bytes × Bytes)
push_before c none = none
push_before c (some (a, b)) = some (c ∷ a, b)

unfoldable pub split_once : Bytes → Bytes → Option (Bytes × Bytes)
unfolding starts_with drop
split_once pat [] = if starts_with pat [] then some ([], []) else none
split_once pat (c ∷ s) =
    let later = push_before c (split_once pat s) in
    if starts_with pat (c ∷ s) then some ([], drop (length pat) (c ∷ s)) else later

-- `s.split(pat).nth(1)`: what stands between the first occurrence and the next.
abbrev up_to : Bytes → Option (Bytes × Bytes) → Bytes
up_to s none = s
up_to s (some (a, b)) = a

unfoldable pub second_piece : Bytes → Bytes → Option Bytes
unfolding split_once
second_piece pat s = elim (split_once pat s) [
  | none ↦ none
  | some (a, b) ↦ some (up_to b (split_once pat b))
]

-- `char::to_digit(radix)`, for a radix of 10 or 16.
unfoldable pub to_digit : ℕ → ℕ → Option ℕ
unfolding is_ascii_digit
to_digit radix c =
    let lower = c - b'a' + 10 in
    let upper = c - b'A' + 10 in
    if is_ascii_digit c
    then some (c - b'0')
    else if leb b'a' c && ltb lower radix
    then some lower
    else if leb b'A' c && ltb upper radix
    then some upper
    else none

-- `uN::from_str_radix`, where the type's largest value is `most`: an optional `+`, then one digit
-- at least, and no overflow.
abbrev pub push_digit : ℕ → ℕ → ℕ → Option ℕ → Option ℕ
push_digit most radix acc none = none
push_digit most radix acc (some d) =
    if leb (acc * radix + d) most then some (acc * radix + d) else none

unfoldable pub digits_value : ℕ → ℕ → Option ℕ → Bytes → Option ℕ
unfolding to_digit
digits_value most radix none s = none
digits_value most radix (some acc) [] = some acc
digits_value most radix (some acc) (c ∷ s) =
    digits_value most radix (push_digit most radix acc (to_digit radix c)) s

abbrev pub after_sign : Bytes → Bytes
after_sign [] = []
after_sign (c ∷ s) = if c == b'+' then s else c ∷ s

unfoldable pub from_str_radix : ℕ → ℕ → Bytes → Option ℕ
unfolding digits_value
from_str_radix most radix s = elim (after_sign s) [
  | [] ↦ none
  | c ∷ r ↦ digits_value most radix (some 0) (c ∷ r)
]

-- `str::parse::<u8>` and `str::parse::<u16>`.
unfoldable pub parse_u8 : Bytes → Option ℕ
unfolding from_str_radix
parse_u8 s = from_str_radix 255 10 s

unfoldable pub parse_u16 : Bytes → Option ℕ
unfolding from_str_radix
parse_u16 s = from_str_radix 65535 10 s

-- `s.get(..n)`: none if `n` is past the end or not on a character boundary.
abbrev on_boundary : Bytes → Bool
on_boundary [] = true
on_boundary (c ∷ s) = ltb c 128 || leb 192 c

unfoldable pub prefix_of : ℕ → Bytes → Option Bytes
unfolding take drop
prefix_of n s = if leb n (length s) && on_boundary (drop n s) then some (take n s) else none

-- `str::to_ascii_uppercase`.
unfoldable pub to_ascii_uppercase : Bytes → Bytes
to_ascii_uppercase [] = []
to_ascii_uppercase (c ∷ s) = (if leb b'a' c && leb c b'z' then c - 32 else c) ∷ to_ascii_uppercase s
