-- ===== src/Dhcp/Reply/Shape.antt =====
-- A reply in two parts: the 240 bytes of the fixed header, and the options behind them. Each step
-- of the body rewrites the header and appends a list of options.
use macmapd.Base.{
  ℕ, ◌+◌, ◌≤◌, ◌≡◌, sym, ap, ◌∙◌, [], ◌∷◌, ◌++◌, Bytes, length, copy_at, copy_at-append,
  length-copy_at, append_assoc, append-nil, arith,
}
use macmapd.Dhcp.Options.{option}
use macmapd.Dhcp.Options.Wire.{encode, option-encode}
use macmapd.Dhcp.Options.Fields.{Fields, encode_all, encode_all-append}

-- `out` is the header `h` and the options `fields`.
pub record IsShape (out : Bytes) (h : Bytes) (fields : Fields) : Type 0 where
  pub length_h : length h ≡ 240
  pub bytes : out ≡ h ++ encode_all fields

pub option-IsShape :
    {out h : Bytes} {fields : Fields} (code : ℕ) (value : Bytes)
    → IsShape out h fields
    → IsShape (option out code value) h (fields ++ ((code, value) ∷ []))
option-IsShape {out} {h} {fields} code value s = record {
  length_h = s.length_h;
  bytes =
      option-encode out code value
      ∙ ap (λ (t : Bytes). t ++ encode code value) s.bytes
      ∙ append_assoc h (encode_all fields) (encode code value)
      ∙ ap (λ (t : Bytes). h ++ t)
          (ap (λ (t : Bytes). encode_all fields ++ t) (sym (append-nil (encode code value)))
            ∙ sym (encode_all-append fields ((code, value) ∷ [])));
}

pub copy_at-IsShape :
    {out h : Bytes} {fields : Fields} (at : ℕ) (src : Bytes)
    → at + length src ≤ 240
    → IsShape out h fields
    → IsShape (copy_at at src out) (copy_at at src h) fields
copy_at-IsShape {out} {h} {fields} at src fits s = record {
  length_h = length-copy_at at src h (omega (arith, s.length_h)) ∙ s.length_h;
  bytes =
      ap (copy_at at src) s.bytes
      ∙ copy_at-append at src h (encode_all fields) (omega (arith, s.length_h));
}
