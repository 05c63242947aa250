-- ===== src/Dhcp/Options/Total.antt =====
-- Panics and the fuel of `read_options` of src/dhcp.rs.
use macmapd.Base.{
  ℕ, zero, suc, ◌≤◌, [], ◌∷◌, Bytes, length, length-drop, drop, leb, ◌==◌, Returns, Result,
  Bool-cases, inl, inr, arith,
}
use macmapd.Dhcp.{OptionMap, DhcpError}
use macmapd.Dhcp.Options.{read_value, read_loop, read_options}

read_value-Returns :
    (next : Bytes → OptionMap → Result DhcpError OptionMap) (code : ℕ) (rest : Bytes)
    (o : OptionMap)
    → ((bs : Bytes) (p : OptionMap) → length bs ≤ length rest → Returns (next bs p))
    → Returns (read_value next code rest o)
unfolding read_value
read_value-Returns next code [] o h = tt
read_value-Returns next code (len ∷ rest) o h = elim (Bool-cases (leb len (length rest))) [
  | inl fits ↦ rw fits (h (drop len rest) _ (omega (arith, length-drop len rest)))
  | inr cut ↦ rw cut tt
]

read_loop-Returns :
    (fuel : ℕ) (bs : Bytes) (o : OptionMap) → length bs ≤ fuel → Returns (read_loop fuel bs o)
unfolding read_loop
read_loop-Returns fuel [] o h = tt
read_loop-Returns zero (code ∷ rest) o h = absurd (omega arith)
read_loop-Returns (suc fuel) (code ∷ rest) o h = elim (Bool-cases (code == 255)) [
  | inl end ↦ rw end tt
  | inr more ↦ elim (Bool-cases (code == 0)) [
    | inl pad ↦ rw (more, pad) (read_loop-Returns fuel rest o (omega arith))
    | inr value ↦
        rw (more, value)
          (read_value-Returns (read_loop fuel) code rest o
            (λ bs p k. read_loop-Returns fuel bs p (omega arith)))
  ]
]

-- `read_options` returns options or an error on every byte string: the fuel that its model is given
-- is enough, and no index or slice is out of range.
pub read_options-Returns : (bytes : Bytes) (o : OptionMap) → Returns (read_options bytes o)
unfolding read_options
read_options-Returns bytes o = read_loop-Returns (length bytes) bytes o (omega arith)
