-- ===== src/Dhcp/Dump/Area.antt =====
-- The options of a datagram as src/dhcp.rs reads them, in `read_options`, and writes them into its
-- log, in `dhcp_packet_dump`: two loops over one format.
use mathlib.Core.Path.{subst}
use macmapd.Base.{
  ℕ, zero, suc, ◌≡◌, ◌≢◌, ◌≤◌, ◌<◌, refl, sym, ◌∙◌, true, false, [], ◌∷◌, ◌++◌, Bytes, length,
  length-drop, length-take, drop, take, take-append-drop, leb, ◌==◌, arith, ok, err, ◌>>=◌, Result,
  Bool-cases, inl, inr, min, ==_iff,
}
use macmapd.Dhcp.{OptionMap, DhcpError, extend_entry, missing_option_length, truncated_option}
use macmapd.Dhcp.Options.{read_loop, read_value, read_options}
use macmapd.Dhcp.Options.Fields.{Fields}
use macmapd.Dhcp.Dump.Values.{Logged}
use macmapd.Dhcp.Dump.Packet.{
  option_lines, missing_length, truncated, value_text, options_loop, options_text,
}

-- How an area ends: well, behind a code without a length, or in a value that is cut off.
pub data Ending : Type 0 where
  well : Ending
  no_length : ℕ → Ending
  cut_off : ℕ → ℕ → Ending

-- The format of RFC 2132: an area, the options in it in order, and its end.
pub data IsArea : Bytes → Fields → Ending → Type 0 where
  empty : IsArea [] [] well
  end : (rest : Bytes) → IsArea (255 ∷ rest) [] well
  pad :
      {rest : Bytes} {fields : Fields} {e : Ending}
      → IsArea rest fields e
      → IsArea (0 ∷ rest) fields e
  field :
      {code len : ℕ} {area value rest : Bytes} {fields : Fields} {e : Ending}
      → code ≢ 0
      → code ≢ 255
      → length value ≡ len
      → value ++ rest ≡ area
      → IsArea rest fields e
      → IsArea (code ∷ len ∷ area) ((code, value) ∷ fields) e
  lone_code : {code : ℕ} → code ≢ 0 → code ≢ 255 → IsArea (code ∷ []) [] (no_length code)
  cut :
      {code len : ℕ} {rest : Bytes}
      → code ≢ 0
      → code ≢ 255
      → length rest < len
      → IsArea (code ∷ len ∷ rest) [] (cut_off code len)

-- What the parser makes of an area.
abbrev pub parsed : OptionMap → Fields → Ending → Result DhcpError OptionMap
parsed o [] well = ok o
parsed o [] (no_length code) = err missing_option_length
parsed o [] (cut_off code len) = err (truncated_option code)
parsed o ((code, value) ∷ fields) e = parsed (extend_entry o code value) fields e

-- What the log makes of it.
abbrev pub logged : Fields → Ending → Logged Bytes
logged [] well = ok []
logged [] (no_length code) = ok (missing_length code)
logged [] (cut_off code len) = ok (truncated code len)
logged ((code, value) ∷ fields) e = do
  text ← option_lines code value
  more ← logged fields e
  ok (text ++ more)

record Agrees (fuel : ℕ) (area : Bytes) : Type 0 where
  fields : Fields
  ending : Ending
  is_area : IsArea area fields ending
  reads : (o : OptionMap) → read_loop fuel area o ≡ parsed o fields ending
  logs : options_loop fuel area ≡ logged fields ending

==-false : (a b : ℕ) → (a == b) ≡ false → a ≢ b
==-false a b h = λ e. ground arith

Agrees-pad : (fuel : ℕ) (rest : Bytes) → Agrees fuel rest → Agrees (suc fuel) (0 ∷ rest)
unfolding read_loop options_loop
Agrees-pad fuel rest h = record {
  fields = h.fields;
  ending = h.ending;
  is_area = pad h.is_area;
  reads = h.reads;
  logs = h.logs;
}

Agrees-end : (fuel : ℕ) (rest : Bytes) → Agrees (suc fuel) (255 ∷ rest)
unfolding read_loop options_loop
Agrees-end fuel rest = record {
  fields = [];
  ending = well;
  is_area = end rest;
  reads = λ o. refl;
  logs = refl;
}

module _ (fuel code : ℕ) (n0 : (code == 0) ≡ false) (n255 : (code == 255) ≡ false) where
  Agrees-lone : Agrees (suc fuel) (code ∷ [])
  unfolding read_loop options_loop read_value value_text
  Agrees-lone = record {
    fields = [];
    ending = no_length code;
    is_area = lone_code (==-false code 0 n0) (==-false code 255 n255);
    reads = λ o. rw (n255, n0) refl;
    logs = rw (n255, n0) refl;
  }

  Agrees-cut :
      (len : ℕ) (rest : Bytes)
      → leb len (length rest) ≡ false
      → Agrees (suc fuel) (code ∷ len ∷ rest)
  unfolding read_loop options_loop read_value value_text
  Agrees-cut len rest h = record {
    fields = [];
    ending = cut_off code len;
    is_area = cut (==-false code 0 n0) (==-false code 255 n255) (ground arith);
    reads = λ o. rw (n255, n0, h) refl;
    logs = rw (n255, n0, h) refl;
  }

  Agrees-field :
      (len : ℕ) (rest : Bytes)
      → leb len (length rest) ≡ true
      → Agrees fuel (drop len rest)
      → Agrees (suc fuel) (code ∷ len ∷ rest)
  unfolding read_loop options_loop read_value value_text
  Agrees-field len rest h k =
      let short : min len (length rest) ≡ len = ground arith in
      record {
        fields = (code, take len rest) ∷ k.fields;
        ending = k.ending;
        is_area =
            field (==-false code 0 n0) (==-false code 255 n255) (length-take len rest ∙ short)
              (take-append-drop len rest) k.is_area;
        reads = λ o. rw (n255, n0, h) (k.reads (extend_entry o code (take len rest)));
        logs = rw (n255, n0, h, k.logs) refl;
      }

Agrees-option :
    (fuel code : ℕ) (rest : Bytes)
    → (code == 0) ≡ false
    → (code == 255) ≡ false
    → ((bs : Bytes) → length bs ≤ length rest → Agrees fuel bs)
    → Agrees (suc fuel) (code ∷ rest)
Agrees-option fuel code [] n0 n255 h = Agrees-lone fuel code n0 n255
Agrees-option fuel code (len ∷ rest) n0 n255 h = elim (Bool-cases (leb len (length rest))) [
  | inl fits ↦
      Agrees-field fuel code n0 n255 len rest fits
        (h (drop len rest) (omega (arith, length-drop len rest)))
  | inr long ↦ Agrees-cut fuel code n0 n255 len rest long
]

agree : (fuel : ℕ) (area : Bytes) → length area ≤ fuel → Agrees fuel area
unfolding read_loop options_loop
agree fuel [] h = record {
  fields = [];
  ending = well;
  is_area = empty;
  reads = λ o. refl;
  logs = refl;
}
agree zero (code ∷ rest) h = absurd (omega arith)
agree (suc fuel) (code ∷ rest) h = elim (Bool-cases (code == 0)) [
  | inl zero_code ↦
      subst (λ (c : ℕ). Agrees (suc fuel) (c ∷ rest)) (sym ((==_iff code 0).0 zero_code))
        (Agrees-pad fuel rest (agree fuel rest (omega arith)))
  | inr n0 ↦ elim (Bool-cases (code == 255)) [
    | inl last ↦
        subst (λ (c : ℕ). Agrees (suc fuel) (c ∷ rest)) (sym ((==_iff code 255).0 last))
          (Agrees-end fuel rest)
    | inr n255 ↦ Agrees-option fuel code rest n0 n255 (λ bs k. agree fuel bs (omega arith))
  ]
]

-- What an area of options is, for the parser and for the log.
pub record IsShown (area : Bytes) : Type 0 where
  pub fields : Fields
  pub ending : Ending
  pub is_area : IsArea area fields ending
  pub reads : (o : OptionMap) → read_options area o ≡ parsed o fields ending
  pub logs : options_text area ≡ logged fields ending

-- The parser and the log agree on every byte string: it is one list of options in the format of
-- RFC 2132 with one kind of end; the parser adds exactly these options in order and fails exactly
-- for a length that is missing or a value that is cut off, and the log shows exactly these options
-- in order, and `Malformed Option` exactly where the parser fails.
pub options_text-IsShown : (area : Bytes) → IsShown area
unfolding options_text read_options
options_text-IsShown area =
    let a = agree (length area) area (omega arith) in
    record {
      fields = a.fields;
      ending = a.ending;
      is_area = a.is_area;
      reads = a.reads;
      logs = a.logs;
    }
