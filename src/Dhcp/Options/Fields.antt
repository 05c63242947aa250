-- ===== src/Dhcp/Options/Fields.antt =====
-- A list of options on the wire and as a map.
use macmapd.Base.{
  ℕ, ◌≡◌, ◌≢◌, refl, sym, ap, ◌∙◌, Option, some, List, [], ◌∷◌, ◌++◌, Bytes, All, ◌==◌,
  if◌then◌else◌, ok, arith, append_assoc, append-nil, Bool-cases, inl, inr,
}
use macmapd.Dhcp.{OptionMap, or_default}
use macmapd.Dhcp.Options.{read_options}
use macmapd.Dhcp.Options.Wire.{encode, add_option, read_options-encode, read_options_end}

-- A code and its value.
abbrev pub Fields : Type 0
Fields = List (ℕ × Bytes)

abbrev pub encode_all : Fields → Bytes
encode_all [] = []
encode_all ((code, value) ∷ rest) = encode code value ++ encode_all rest

abbrev pub add_all : OptionMap → Fields → OptionMap
add_all o [] = o
add_all o ((code, value) ∷ rest) = add_all (add_option o code value) rest

-- All that the list gives for a code, joined.
abbrev pub values : ℕ → Fields → Bytes
values k [] = []
values k ((code, value) ∷ rest) = if k == code then value ++ values k rest else values k rest

-- The code of an option that can be sent.
abbrev pub IsCode : ℕ × Bytes → Type 0
IsCode f = (f.0 ≢ 0) × (f.0 ≢ 255)

pub encode_all-append : (a b : Fields) → encode_all (a ++ b) ≡ encode_all a ++ encode_all b
encode_all-append [] b = refl
encode_all-append ((code, value) ∷ a) b =
    ap (λ (t : Bytes). encode code value ++ t) (encode_all-append a b)
    ∙ sym (append_assoc (encode code value) (encode_all a) (encode_all b))

pub values-append : (k : ℕ) (a b : Fields) → values k (a ++ b) ≡ values k a ++ values k b
values-append k [] b = refl
values-append k ((code, value) ∷ a) b =
    ground (arith, values-append k a b, append_assoc value (values k a) (values k b))

-- What `option` writes is read back: the encoding of any list of options whose codes are neither 0
-- nor 255, ended by 255 and followed by anything, is read as the list's options added one by one to
-- those already there, values of more than 255 bytes and repeated codes included.
pub read_options-encode_all :
    (fields : Fields) (rest : Bytes) (o : OptionMap)
    → All IsCode fields
    → read_options (encode_all fields ++ (255 ∷ rest)) o ≡ ok (add_all o fields)
read_options-encode_all [] rest o h = read_options_end rest o
read_options-encode_all ((code, value) ∷ fields) rest o h =
    ap (λ (t : Bytes). read_options t o)
      (append_assoc (encode code value) (encode_all fields) (255 ∷ rest))
    ∙ read_options-encode code value (encode_all fields ++ (255 ∷ rest)) o h.0.0 h.0.1
    ∙ read_options-encode_all fields rest (add_option o code value) h.1

-- An entry with something added behind it; nothing is added by an empty value.
abbrev pub entry : Option Bytes → Bytes → Option Bytes
entry o [] = o
entry o (x ∷ xs) = some (or_default o ++ (x ∷ xs))

entry-append : (o : Option Bytes) (a b : Bytes) → entry (entry o a) b ≡ entry o (a ++ b)
entry-append o [] b = refl
entry-append o (x ∷ xs) [] =
    ap (λ (t : Bytes). some (or_default o ++ (x ∷ t))) (sym (append-nil xs))
entry-append o (x ∷ xs) (y ∷ ys) = ap some (append_assoc (or_default o) (x ∷ xs) (y ∷ ys))

add_option-entry :
    (o : OptionMap) (code : ℕ) (value : Bytes) (k : ℕ)
    → add_option o code value k ≡ (if k == code then entry (o k) value else o k)
add_option-entry o code [] k = ground arith
add_option-entry o code (x ∷ xs) k = ground arith

pub add_all-entry :
    (fields : Fields) (o : OptionMap) (k : ℕ) → add_all o fields k ≡ entry (o k) (values k fields)
add_all-entry [] o k = refl
add_all-entry ((code, value) ∷ fields) o k =
    add_all-entry fields (add_option o code value) k ∙ elim (Bool-cases (k == code)) [
      | inl same ↦
          rw (add_option-entry o code value k, same) (entry-append (o k) value (values k fields))
      | inr other ↦ rw (add_option-entry o code value k, other)
    ]
