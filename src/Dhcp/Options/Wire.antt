-- ===== src/Dhcp/Options/Wire.antt =====
-- The wire form of an option of src/dhcp.rs, for its writer `option` and its reader `read_options`.
use macmapd.Base.{
  ℕ, zero, suc, ◌%◌, ◌≤◌, ◌≡◌, ◌≢◌, refl, sym, ap, ◌∙◌, false, List, [], ◌∷◌, ◌++◌, Bytes, length,
  length-append, length-take, length-drop, take, drop, take-append-drop, take-append_exact,
  drop-append_exact, le→leb, ◌==◌, Result, ok, arith, append_assoc, append-nil,
}
use mathlib.Core.Path.{fun_ext}
use macmapd.Dhcp.{OptionMap, DhcpError, extend_entry, or_default}
use macmapd.Dhcp.Options.{
  read_value, read_loop, read_options, chunk_loop, chunks, put_chunks, option,
}

read_value_cong :
    (f g : Bytes → OptionMap → Result DhcpError OptionMap) (code : ℕ) (rest : Bytes) (o : OptionMap)
    → ((bs : Bytes) (p : OptionMap) → length bs ≤ length rest → f bs p ≡ g bs p)
    → read_value f code rest o ≡ read_value g code rest o
unfolding read_value
read_value_cong f g code [] o h = refl
read_value_cong f g code (len ∷ rest) o h =
    rw (
      h (drop len rest) (extend_entry o code (take len rest)) (omega (arith, length-drop len rest)))

-- The fuel does not matter, as long as there is a round for each byte.
read_loop_enough :
    (f g : ℕ) (bs : Bytes) (o : OptionMap)
    → length bs ≤ f
    → length bs ≤ g
    → read_loop f bs o ≡ read_loop g bs o
unfolding read_loop
read_loop_enough f g [] o h k = refl
read_loop_enough zero g (code ∷ rest) o h k = absurd (omega arith)
read_loop_enough (suc f) zero (code ∷ rest) o h k = absurd (omega arith)
read_loop_enough (suc f) (suc g) (code ∷ rest) o h k = rw (
  read_loop_enough f g rest o (omega arith) (omega arith),
  read_value_cong (read_loop f) (read_loop g) code rest o
      (λ bs p l. read_loop_enough f g bs p (omega arith) (omega arith)),
)

-- The loop goes on with what is behind an option's value.
read_options_value :
    (code : ℕ) (value rest : Bytes) (o : OptionMap)
    → code ≢ 0
    → code ≢ 255
    → read_options (code ∷ length value ∷ (value ++ rest)) o
      ≡ read_options rest (extend_entry o code value)
unfolding read_options read_loop read_value
read_options_value code value rest o n0 n255 =
    rw
      (
        ne→== code 255 n255,
        ne→== code 0 n0,
        le→leb (length value) (length (value ++ rest)) (omega (arith, length-append value rest)),
        take-append_exact value rest (length value) refl,
        drop-append_exact value rest (length value) refl,
      )
      (read_loop_enough (suc (length (value ++ rest))) (length rest) rest
        (extend_entry o code value) (omega (arith, length-append value rest)) (omega arith))
  where
    ne→== : (a b : ℕ) → a ≢ b → (a == b) ≡ false
    ne→== a b h = ground arith

pub read_options_end : (rest : Bytes) (o : OptionMap) → read_options (255 ∷ rest) o ≡ ok o
unfolding read_options
read_options_end rest o = refl

-- The bytes that `option` appends.
abbrev encode_chunks : ℕ → List Bytes → Bytes
encode_chunks code [] = []
encode_chunks code (chunk ∷ rest) = code ∷ (length chunk % 256) ∷ (chunk ++ encode_chunks code rest)

unfoldable pub encode : ℕ → Bytes → Bytes
encode code value = encode_chunks code (chunks 255 value)

put_chunks-encode :
    (out : Bytes) (code : ℕ) (l : List Bytes) → put_chunks out code l ≡ out ++ encode_chunks code l
unfolding put_chunks
put_chunks-encode out code [] = sym (append-nil out)
put_chunks-encode out code (chunk ∷ rest) =
    put_chunks-encode (out ++ (code ∷ (length chunk % 256) ∷ chunk)) code rest
    ∙ append_assoc out (code ∷ (length chunk % 256) ∷ chunk) (encode_chunks code rest)

pub option-encode :
    (out : Bytes) (code : ℕ) (value : Bytes) → option out code value ≡ out ++ encode code value
unfolding option encode
option-encode out code value = put_chunks-encode out code (chunks 255 value)

-- Adding the pieces of a value one by one adds the value.
abbrev add_chunks : OptionMap → ℕ → List Bytes → OptionMap
add_chunks o code [] = o
add_chunks o code (chunk ∷ rest) = add_chunks (extend_entry o code chunk) code rest

read_options_chunks :
    (code fuel : ℕ) (value rest : Bytes) (o : OptionMap)
    → code ≢ 0
    → code ≢ 255
    → read_options (encode_chunks code (chunk_loop fuel 255 value) ++ rest) o
      ≡ read_options rest (add_chunks o code (chunk_loop fuel 255 value))
unfolding chunk_loop
read_options_chunks code fuel [] rest o n0 n255 = refl
read_options_chunks code zero (x ∷ xs) rest o n0 n255 = refl
read_options_chunks code (suc fuel) (x ∷ xs) rest o n0 n255 =
    let chunk : Bytes = take 255 (x ∷ xs) in
    let others : Bytes = encode_chunks code (chunk_loop fuel 255 (drop 255 (x ∷ xs))) in
    let short : length chunk % 256 ≡ length chunk = omega (arith, length-take 255 (x ∷ xs)) in
    rw (short, append_assoc chunk others rest)
      (read_options_value code chunk (others ++ rest) o n0 n255
        ∙ read_options_chunks code fuel (drop 255 (x ∷ xs)) rest (extend_entry o code chunk) n0
            n255)

extend_extend :
    (o : OptionMap) (code : ℕ) (a b : Bytes)
    → extend_entry (extend_entry o code a) code b ≡ extend_entry o code (a ++ b)
extend_extend o code a b = fun_ext λ k. ground (arith, append_assoc (or_default (o k)) a b)

-- An option as a whole: nothing, if its value is empty.
abbrev pub add_option : OptionMap → ℕ → Bytes → OptionMap
add_option o code [] = o
add_option o code (x ∷ xs) = extend_entry o code (x ∷ xs)

add_option-extend :
    (o : OptionMap) (code : ℕ) (a b : Bytes)
    → add_option (extend_entry o code a) code b ≡ extend_entry o code (a ++ b)
add_option-extend o code a [] = ap (extend_entry o code) (sym (append-nil a))
add_option-extend o code a (x ∷ xs) = extend_extend o code a (x ∷ xs)

add_chunks-add_option :
    (fuel : ℕ) (o : OptionMap) (code : ℕ) (value : Bytes)
    → length value ≤ fuel
    → add_chunks o code (chunk_loop fuel 255 value) ≡ add_option o code value
unfolding chunk_loop
add_chunks-add_option fuel o code [] h = refl
add_chunks-add_option zero o code (x ∷ xs) h = absurd (omega arith)
add_chunks-add_option (suc fuel) o code (x ∷ xs) h =
    let chunk : Bytes = take 255 (x ∷ xs) in
    let others : Bytes = drop 255 (x ∷ xs) in
    add_chunks-add_option fuel (extend_entry o code chunk) code others
      (omega (arith, length-drop 255 (x ∷ xs)))
    ∙ add_option-extend o code chunk others
    ∙ ap (extend_entry o code) (take-append-drop 255 (x ∷ xs))

-- What `option` wrote for a code other than 0 and 255, `read_options` reads back, at any length.
pub read_options-encode :
    (code : ℕ) (value rest : Bytes) (o : OptionMap)
    → code ≢ 0
    → code ≢ 255
    → read_options (encode code value ++ rest) o ≡ read_options rest (add_option o code value)
unfolding encode chunks
read_options-encode code value rest o n0 n255 =
    read_options_chunks code (length value) value rest o n0 n255
    ∙ ap (read_options rest) (add_chunks-add_option (length value) o code value (omega arith))
