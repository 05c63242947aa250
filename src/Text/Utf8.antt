-- ===== src/Text/Utf8.antt =====
-- UTF-8 decoding: `std::str::from_utf8`, and `chars` with the character classes in use.
use macmapd.Base.{
  ℕ, ◌+◌, ◌-◌, ◌*◌, ◌%◌, Bool, ◌&&◌, ◌||◌, not, Option, none, some, List, [], ◌∷◌, Bytes, leb, ltb,
  ◌==◌, if◌then◌else◌,
}

-- Inside a character: how many bytes are to come, the range of the next, and the bits so far.
record Partial : Type 0 where
  need : ℕ
  lo : ℕ
  hi : ℕ
  acc : ℕ

abbrev between : Partial
between = record { need = 0; lo = 0; hi = 0; acc = 0 }

-- The first byte of a character, by the table of well-formed sequences.
lead : ℕ → Option (Partial × Option ℕ)
lead b =
    if ltb b 0x80
    then some (between, some b)
    else if ltb b 0xc2
    then none
    else if ltb b 0xe0
    then some (record { need = 1; lo = 0x80; hi = 0xbf; acc = b - 0xc0 }, none)
    else if b == 0xe0
    then some (record { need = 2; lo = 0xa0; hi = 0xbf; acc = 0 }, none)
    else if b == 0xed
    then some (record { need = 2; lo = 0x80; hi = 0x9f; acc = 0xd }, none)
    else if ltb b 0xf0
    then some (record { need = 2; lo = 0x80; hi = 0xbf; acc = b - 0xe0 }, none)
    else if b == 0xf0
    then some (record { need = 3; lo = 0x90; hi = 0xbf; acc = 0 }, none)
    else if ltb b 0xf4
    then some (record { need = 3; lo = 0x80; hi = 0xbf; acc = b - 0xf0 }, none)
    else if b == 0xf4
    then some (record { need = 3; lo = 0x80; hi = 0x8f; acc = 4 }, none)
    else none

follow : ℕ → Partial → ℕ → Option (Partial × Option ℕ)
follow need p b =
    let bits = p.acc * 64 + b % 64 in
    if not (leb p.lo b && leb b p.hi)
    then none
    else if need == 1
    then some (between, some bits)
    else some (record { need = need - 1; lo = 0x80; hi = 0xbf; acc = bits }, none)

step : Partial → ℕ → Option (Partial × Option ℕ)
step p b = if p.need == 0 then lead b else follow p.need p b

abbrev emit : Option ℕ → Option (List ℕ) → Option (List ℕ)
emit c none = none
emit none (some cs) = some cs
emit (some c) (some cs) = some (c ∷ cs)

decode_from : Partial → Bytes → Option (List ℕ)
decode_from p [] = if p.need == 0 then some [] else none
decode_from p (b ∷ s) = elim (step p b) [ none ↦ none | some (q, c) ↦ emit c (decode_from q s) ]

-- The characters of a byte string, where it is valid UTF-8.
unfoldable pub decode : Bytes → Option (List ℕ)
unfolding decode_from step lead follow
decode s = decode_from between s

-- `std::str::from_utf8(bytes).ok()`.
unfoldable pub from_utf8 : Bytes → Option Bytes
unfolding decode
from_utf8 s = elim (decode s) [ none ↦ none | some cs ↦ some s ]

-- `s.chars()`; a `str` is always valid.
unfoldable pub chars : Bytes → List ℕ
unfolding decode
chars s = elim (decode s) [ none ↦ [] | some cs ↦ cs ]

-- `char::is_control`: the general category Cc.
unfoldable pub is_control : ℕ → Bool
is_control c = ltb c 0x20 || leb 0x7f c && leb c 0x9f

-- `char::is_whitespace`: the property White_Space.
unfoldable pub is_whitespace : ℕ → Bool
is_whitespace c =
    leb 9 c && leb c 13
    || c == 0x20
    || c == 0x85
    || c == 0xa0
    || c == 0x1680
    || leb 0x2000 c && leb c 0x200a
    || c == 0x2028
    || c == 0x2029
    || c == 0x202f
    || c == 0x205f
    || c == 0x3000
