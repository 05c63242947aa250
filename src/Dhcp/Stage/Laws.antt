-- ===== src/Dhcp/Stage/Laws.antt =====
-- The user classes of option 77, written as RFC 3004 writes them, and read by `stage` of src/dhcp.rs.
use macmapd.Base.{
  ℕ, ◌≤◌, ◌≡◌, refl, ap, ◌∙◌, Bool, false, ◌||◌, List, [], ◌∷◌, ◌++◌, Bytes, ascii, length, any,
  ltb, bytes_eq, bytes_eq→eq, length-append, take-append_exact, drop-append_exact, arith, suc, zero,
  Bool-cases, inl, inr,
}
use macmapd.Dhcp.Stage.{is_ipxe, user_classes}

-- Each class with its length in front.
abbrev pub encode_classes : List Bytes → Bytes
encode_classes [] = []
encode_classes (c ∷ cs) = length c ∷ (c ++ encode_classes cs)

or_assoc : (a b c : Bool) → ((a || b) || c) ≡ (a || (b || c))
or_assoc a b c = ground arith

user_classes-encode :
    (fuel : ℕ) (cs : List Bytes) (found : Bool)
    → length (encode_classes cs) ≤ fuel
    → user_classes fuel (encode_classes cs) found
      ≡ (found || any (λ c. bytes_eq c (ascii "iPXE")) cs)
unfolding user_classes
user_classes-encode fuel [] found h = ground arith
user_classes-encode zero (c ∷ cs) found h = absurd (omega arith)
user_classes-encode (suc fuel) (c ∷ cs) found h =
    let n = length-append c (encode_classes cs) in
    let long : ltb (length (c ++ encode_classes cs)) (length c) ≡ false = ground (arith, n) in
    let next =
      user_classes-encode fuel cs (found || bytes_eq c (ascii "iPXE")) (omega (arith, n)) in
    rw
      (
        long,
        drop-append_exact c (encode_classes cs) (length c) refl,
        take-append_exact c (encode_classes cs) (length c) refl,
      )
      (next ∙ or_assoc found (bytes_eq c (ascii "iPXE")) _)

-- Four bytes are not a list of classes: the first would be 105 bytes long.
not_bare : (cs : List Bytes) → bytes_eq (encode_classes cs) (ascii "iPXE") ≡ false
unfolding bytes_eq
not_bare [] = refl
not_bare (c ∷ cs) = elim (Bool-cases (bytes_eq (encode_classes (c ∷ cs)) (ascii "iPXE"))) [
  | inl same ↦
      let e = bytes_eq→eq (encode_classes (c ∷ cs)) (ascii "iPXE") same in
      let first : length c ≡ 105 = cc in
      absurd (omega (arith, first, ap length e, length-append c (encode_classes cs)))
  | inr other ↦ other
]

-- A client is taken for iPXE just when one of the user classes that it sends is "iPXE".
pub is_ipxe-encode_classes :
    (cs : List Bytes) → is_ipxe (encode_classes cs) ≡ any (λ c. bytes_eq c (ascii "iPXE")) cs
unfolding is_ipxe
is_ipxe-encode_classes cs =
    rw (not_bare cs) (user_classes-encode (length (encode_classes cs)) cs false (omega arith))
