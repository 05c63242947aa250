-- ===== src/Dhcp/Options.antt =====
-- `read_options` and `option` of src/dhcp.rs.
pub mod Wire
pub mod Total
pub mod Fields
use macmapd.Base.{
  ℕ, zero, suc, ◌+◌, ◌%◌, List, [], ◌∷◌, ◌++◌, Bytes, length, take, drop, leb, ◌==◌, if◌then◌else◌,
  Result, ok, err, stuck,
}
use macmapd.Dhcp.{OptionMap, DhcpError, extend_entry, missing_option_length, truncated_option}

-- An option's length, value and what follows; `next` is the loop, which goes on behind it.
unfoldable pub read_value :
    (Bytes → OptionMap → Result DhcpError OptionMap)
    → ℕ
    → Bytes
    → OptionMap
    → Result DhcpError OptionMap
read_value next code [] options = err missing_option_length
read_value next code (len ∷ rest) options =
    if leb len (length rest)
    then next (drop len rest) (extend_entry options code (take len rest))
    else err (truncated_option code)

-- The loop over `bytes[pos..]`.
unfoldable pub read_loop : ℕ → Bytes → OptionMap → Result DhcpError OptionMap
unfolding read_value
read_loop fuel [] options = ok options
read_loop zero (code ∷ rest) options = stuck
read_loop (suc fuel) (code ∷ rest) options =
    let pad = read_loop fuel rest options in
    let value = read_value (read_loop fuel) code rest options in
    if code == 255 then ok options else if code == 0 then pad else value

-- Each round takes a byte at least, so `bytes.len()` rounds are enough.
unfoldable pub read_options : Bytes → OptionMap → Result DhcpError OptionMap
unfolding read_loop
read_options bytes options = read_loop (length bytes) bytes options

-- `value.chunks(n)`.
unfoldable pub chunk_loop : ℕ → ℕ → Bytes → List Bytes
chunk_loop fuel n [] = []
chunk_loop zero n (x ∷ xs) = []
chunk_loop (suc fuel) n (x ∷ xs) = take n (x ∷ xs) ∷ chunk_loop fuel n (drop n (x ∷ xs))

unfoldable pub chunks : ℕ → Bytes → List Bytes
unfolding chunk_loop
chunks n xs = chunk_loop (length xs) n xs

unfoldable pub put_chunks : Bytes → ℕ → List Bytes → Bytes
put_chunks out code [] = out
put_chunks out code (chunk ∷ rest) =
    put_chunks (out ++ (code ∷ (length chunk % 256) ∷ chunk)) code rest

-- `option(out, code, value)`: an empty value writes nothing.
unfoldable pub option : Bytes → ℕ → Bytes → Bytes
unfolding chunks put_chunks
option out code value = put_chunks out code (chunks 255 value)
