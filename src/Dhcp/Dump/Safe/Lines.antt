-- ===== src/Dhcp/Dump/Safe/Lines.antt =====
-- The lines of the packet log of src/dhcp.rs, for every datagram.
use macmapd.Base.{
  ℕ, zero, suc, ◌≡◌, ◌≤◌, refl, sym, ap, ◌∙◌, Bool, true, false, List, [], ◌∷◌, ◌++◌, Bytes, All,
  length, length-drop, drop, take, ltb, leb, ◌==◌, ascii, arith, if◌then◌else◌, ok, append_assoc,
  append-nil,
}
use macmapd.Base.Yields.{Yields, Yields-ok, Yields-if, Yields-bind}
use macmapd.Dhcp.Dump.Values.{
  Logged, option_name, option_value, suboption_name, suboption_line, relay_loop, relay_information,
}
use macmapd.Dhcp.Dump.Packet.{
  line, relay_lines, option_line, option_lines, missing_length, truncated, value_text, options_loop,
  options_text,
}
use macmapd.Dhcp.Dump.Safe.{IsLine, IsLine-append, literal, lead, decimal-IsLine, printable-IsLine}
use macmapd.Dhcp.Dump.Safe.Values.{option_value-IsLine}
use macmapd.Dhcp.Dump.Safe.Starts.{
  IsStarted, started, IsStarted-named, option, suboption, malformed_option, malformed_suboption,
}

-- Whole lines, each behind its line break and started by the program.
pub record IsBlock (text : Bytes) : Type 0 where
  pub lines : List Bytes
  pub shown : relay_lines lines ≡ text
  pub clean : All IsStarted lines

relay_lines-append : (a b : List Bytes) → relay_lines (a ++ b) ≡ relay_lines a ++ relay_lines b
relay_lines-append [] b = refl
relay_lines-append (x ∷ a) b =
    ap (λ (t : Bytes). 10 ∷ (x ++ t)) (relay_lines-append a b)
    ∙ ap (λ (t : Bytes). 10 ∷ t) (sym (append_assoc x (relay_lines a) (relay_lines b)))

All-append : (a b : List Bytes) → All IsStarted a → All IsStarted b → All IsStarted (a ++ b)
All-append [] b h k = k
All-append (x ∷ a) b h k = (h.0, All-append a b h.1 k)

pub IsBlock-nil : IsBlock []
IsBlock-nil = record { lines = []; shown = refl; clean = tt }

pub IsBlock-append : {a b : Bytes} → IsBlock a → IsBlock b → IsBlock (a ++ b)
IsBlock-append {a} {b} h k = record {
  lines = h.lines ++ k.lines;
  shown =
      relay_lines-append h.lines k.lines
      ∙ ap (λ (t : Bytes). t ++ relay_lines k.lines) h.shown
      ∙ ap (λ (t : Bytes). a ++ t) k.shown;
  clean = All-append h.lines k.lines h.clean k.clean;
}

pub IsBlock-line : {text : Bytes} → IsStarted text → IsBlock (line text)
IsBlock-line {text} h = record {
  lines = text ∷ [];
  shown = ap (λ (t : Bytes). 10 ∷ t) (append-nil text);
  clean = (h, tt);
}

pub IsBlock-all : (lines : List Bytes) → All IsStarted lines → IsBlock (relay_lines lines)
IsBlock-all lines h = record { lines = lines; shown = refl; clean = h }

pub IsBlock-unless : (t : Bool) {text : Bytes} → IsBlock text → IsBlock (if t then [] else text)
IsBlock-unless true h = IsBlock-nil
IsBlock-unless false h = h

-- Option 82.
suboption_line-IsStarted : (code : ℕ) (value : Bytes) → IsStarted (suboption_line code value)
unfolding suboption_line
suboption_line-IsStarted code value =
    IsStarted-named (ascii "      ") (suboption_name code) (ascii " SubOption ") (suboption code) (
      IsLine-append (decimal-IsLine code) (
        lead (ascii ", length ") refl (
          IsLine-append (decimal-IsLine (length value))
            (lead (ascii ": ") refl (printable-IsLine value)))))

relay_loop-IsStarted :
    (fuel : ℕ) (value : Bytes)
    → length value ≤ fuel
    → Yields (All IsStarted) (relay_loop fuel value)
unfolding relay_loop
relay_loop-IsStarted fuel [] h = Yields-ok tt
relay_loop-IsStarted zero (code ∷ rest) h = absurd (omega arith)
relay_loop-IsStarted (suc fuel) (code ∷ []) h =
    Yields-ok (started malformed_suboption (literal (ascii "header") refl), tt)
relay_loop-IsStarted (suc fuel) (code ∷ len ∷ rest) h =
    let next = relay_loop-IsStarted fuel (drop len rest) (omega (arith, length-drop len rest)) in
    Yields-if (ltb (length rest) len) _ _
      (λ e. Yields-ok (
        started malformed_suboption (
            IsLine-append (decimal-IsLine code)
              (lead (ascii ", length ") refl (decimal-IsLine len))),
        tt,
      ))
      λ e.
        Yields-bind (relay_loop fuel (drop len rest)) _ next
          (λ lines k. Yields-ok (suboption_line-IsStarted code (take len rest), k))

relay_information-IsStarted : (value : Bytes) → Yields (All IsStarted) (relay_information value)
unfolding relay_information
relay_information-IsStarted value = relay_loop-IsStarted (length value) value (omega arith)

relay_if-IsStarted :
    (t : Bool) (value : Bytes)
    → Yields (All IsStarted) (if t then relay_information value else ok [])
relay_if-IsStarted true value = relay_information-IsStarted value
relay_if-IsStarted false value = Yields-ok tt

option_line-IsBlock :
    (code : ℕ) (value text : Bytes) → IsLine text → IsBlock (option_line code value text)
unfolding option_line
option_line-IsBlock code value text h = IsBlock-line (
    IsStarted-named (ascii "    ") (option_name code) (ascii " Option ") (option code) (
      IsLine-append (decimal-IsLine code) (
        lead (ascii ", length ") refl
          (IsLine-append (decimal-IsLine (length value)) (lead (ascii ": ") refl h)))))

option_lines-IsBlock : (code : ℕ) (value : Bytes) → Yields IsBlock (option_lines code value)
unfolding option_lines
option_lines-IsBlock code value =
    Yields-bind (option_value code value) _ (option_value-IsLine code value) λ text h.
      Yields-bind (if code == 82 then relay_information value else ok []) _
        (relay_if-IsStarted (code == 82) value)
        λ relay k.
          Yields-ok (IsBlock-append (option_line-IsBlock code value text h) (IsBlock-all relay k))

missing_length-IsBlock : (code : ℕ) → IsBlock (missing_length code)
unfolding missing_length
missing_length-IsBlock code = IsBlock-line (
    started malformed_option
      (IsLine-append (decimal-IsLine code) (literal (ascii ": missing length") refl)))

truncated-IsBlock : (code len : ℕ) → IsBlock (truncated code len)
unfolding truncated
truncated-IsBlock code len = IsBlock-line (
    started malformed_option
      (IsLine-append (decimal-IsLine code) (lead (ascii ", length ") refl (decimal-IsLine len))))

value_text-IsBlock :
    (next : Bytes → Logged Bytes) (code : ℕ) (rest : Bytes)
    → ((bs : Bytes) → length bs ≤ length rest → Yields IsBlock (next bs))
    → Yields IsBlock (value_text next code rest)
unfolding value_text
value_text-IsBlock next code [] h = Yields-ok (missing_length-IsBlock code)
value_text-IsBlock next code (len ∷ rest) h =
    Yields-if (leb len (length rest)) _ _
      (λ e.
        Yields-bind (option_lines code (take len rest)) _
          (option_lines-IsBlock code (take len rest))
          λ text k.
            Yields-bind (next (drop len rest)) _
              (h (drop len rest) (omega (arith, length-drop len rest)))
              λ more l. Yields-ok (IsBlock-append k l))
      λ e. Yields-ok (truncated-IsBlock code len)

options_loop-IsBlock :
    (fuel : ℕ) (area : Bytes) → length area ≤ fuel → Yields IsBlock (options_loop fuel area)
unfolding options_loop
options_loop-IsBlock fuel [] h = Yields-ok IsBlock-nil
options_loop-IsBlock zero (code ∷ rest) h = absurd (omega arith)
options_loop-IsBlock (suc fuel) (code ∷ rest) h =
    let pad = options_loop-IsBlock fuel rest (omega arith) in
    let value =
      value_text-IsBlock (options_loop fuel) code rest
        (λ bs k. options_loop-IsBlock fuel bs (omega arith)) in
    Yields-if (code == 255) _ _ (λ e. Yields-ok IsBlock-nil)
      λ e. Yields-if (code == 0) _ _ (λ e. pad) λ e. value

pub options_text-IsBlock : (area : Bytes) → Yields IsBlock (options_text area)
unfolding options_text
options_text-IsBlock area = options_loop-IsBlock (length area) area (omega arith)
