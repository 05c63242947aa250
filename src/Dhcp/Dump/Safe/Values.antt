-- ===== src/Dhcp/Dump/Safe/Values.antt =====
-- The values of options in the packet log of src/dhcp.rs, for every byte string.
use mathlib.Core.Path.{subst}
use macmapd.Base.{
  ℕ, zero, suc, ◌+◌, ◌-◌, ◌/◌, slice, Bool-cases, inl, inr, ◌^◌, ◌%◌, ◌≡◌, refl, Bool, true, false,
  ◌&&◌, Option, none, some, List, [], ◌∷◌, Bytes, All, map, length, drop, all, ltb, ◌==◌, ascii,
  arith, if◌then◌else◌, index, sub_slice, and-eq-true, bytes_eq,
}
use macmapd.Base.Yields.{Yields, Yields-ok, Yields-if, Yields-bind, Yields-index, Yields-sub_slice}
use macmapd.Text.{to_ascii_uppercase}
use macmapd.Text.Decimal.{decimal}
use macmapd.Net.{Ipv4Addr}
use macmapd.Net.Display.{display}
use macmapd.Dhcp.{message_name}
use macmapd.Dhcp.Dump.{
  joined, addr_of, route_text, push_text, route_texts, classless_routes, network_of,
}
use macmapd.Dhcp.Dump.Values.{
  hex2, format_mac, format_xid, option_names, name_in, option_name, addresses, ipv4_values, words,
  be16_of, be32_of, signed, or_printable, requested_name, is_one_of, ether, starts_with_one,
  option_value,
}
use macmapd.Dhcp.Dump.Safe.{
  is_visible, IsLine, literal, lead, IsLine-append, IsLine-cons, IsLine-if, decimal-IsLine,
  display-IsLine, hex2-IsLine, printable-IsLine, join-IsLine, map-IsLine,
}

pub format_mac-IsLine : (mac : Bytes) → IsLine (format_mac mac)
unfolding format_mac
format_mac-IsLine mac =
    join-IsLine (b':' ∷ []) (map hex2 mac) (literal (b':' ∷ []) refl)
      (map-IsLine hex2 mac hex2-IsLine)

pub format_xid-IsLine : (xid : ℕ) → IsLine (format_xid xid)
unfolding format_xid
format_xid-IsLine xid = lead (ascii "0x") refl (
    IsLine-append (hex2-IsLine (xid / 2 ^ 24)) (
      IsLine-append (hex2-IsLine (xid / 2 ^ 16))
        (IsLine-append (hex2-IsLine (xid / 256)) (hex2-IsLine xid))))

abbrev all_visible : List (ℕ × Bytes) → Bool
all_visible [] = true
all_visible ((code, name) ∷ names) = all is_visible name && all_visible names

name_in-IsLine :
    (code : ℕ) (names : List (ℕ × Bytes)) → all_visible names ≡ true → IsLine (name_in code names)
name_in-IsLine code [] h = literal (ascii "Option") refl
name_in-IsLine code ((known, name) ∷ names) h =
    let (a, b) = and-eq-true (all is_visible name) (all_visible names) h in
    IsLine-if (code == known) (literal name a) (name_in-IsLine code names b)

pub option_name-IsLine : (code : ℕ) → IsLine (option_name code)
unfolding option_name
option_name-IsLine code = name_in-IsLine code option_names refl

-- A value that may be missing.
record IsLines (o : Option Bytes) : Type 0 where
  lines : (text : Bytes) → o ≡ some text → IsLine text

IsLines-none : IsLines none
IsLines-none = record { lines = λ text e. cc }

IsLines-some : {text : Bytes} → IsLine text → IsLines (some text)
IsLines-some {text} h = record { lines = λ t e. let same : text ≡ t = cc in subst IsLine same h }

comma : IsLine (ascii ", ")
comma = literal (ascii ", ") refl

ipv4_values-IsLines : (value : Bytes) → IsLines (ipv4_values value)
unfolding ipv4_values
ipv4_values-IsLines [] = IsLines-none
ipv4_values-IsLines (a ∷ rest) = elim (Bool-cases (length (a ∷ rest) % 4 == 0)) [
  | inl fits ↦ rw fits (
      IsLines-some (
        join-IsLine (ascii ", ") (map display (addresses (a ∷ rest))) comma
          (map-IsLine display (addresses (a ∷ rest)) display-IsLine)))
  | inr other ↦ rw other IsLines-none
]

or_printable-IsLine : (o : Option Bytes) (value : Bytes) → IsLines o → IsLine (or_printable o value)
or_printable-IsLine none value h = printable-IsLine value
or_printable-IsLine (some text) value h = h.lines text refl

route_text-IsLine :
    (network gateway : Ipv4Addr) (prefix : ℕ) → IsLine (route_text network prefix gateway)
route_text-IsLine network gateway prefix = IsLine-append (display-IsLine network) (
    IsLine-cons refl
      (IsLine-append (decimal-IsLine prefix) (IsLine-cons refl (display-IsLine gateway))))

record AllLines (o : Option (List Bytes)) : Type 0 where
  texts : (l : List Bytes) → o ≡ some l → All IsLine l

AllLines-none : AllLines none
AllLines-none = record { texts = λ l e. cc }

AllLines-some : {l : List Bytes} → All IsLine l → AllLines (some l)
AllLines-some {l} h = record { texts = λ m e. let same : l ≡ m = cc in subst (All IsLine) same h }

push-AllLines :
    (text : Bytes) (o : Option (List Bytes))
    → IsLine text
    → AllLines o
    → AllLines (push_text text o)
push-AllLines text none h k = AllLines-none
push-AllLines text (some l) h k = AllLines-some (h, k.texts l refl)

AllLines-if : (t : Bool) (o : Option (List Bytes)) → AllLines o → AllLines (if t then none else o)
AllLines-if true o k = AllLines-none
AllLines-if false o k = k

route_texts-AllLines : (fuel : ℕ) (value : Bytes) → AllLines (route_texts fuel value)
unfolding route_texts
route_texts-AllLines fuel [] = AllLines-some tt
route_texts-AllLines zero (prefix ∷ tail) = AllLines-none
route_texts-AllLines (suc fuel) (prefix ∷ tail) =
    let n : ℕ = (prefix + 7) / 8 in
    let rest : Option (List Bytes) = route_texts fuel (drop (n + 4) tail) in
    let text : Bytes = route_text (network_of n tail) prefix (addr_of (slice n (n + 4) tail)) in
    AllLines-if (ltb 32 prefix) (if ltb (length tail) (n + 4) then none else push_text text rest) (
      AllLines-if (ltb (length tail) (n + 4)) (push_text text rest) (
        push-AllLines text rest (route_text-IsLine (network_of n tail) _ prefix)
          (route_texts-AllLines fuel (drop (n + 4) tail))))

joined-IsLines : (o : Option (List Bytes)) → AllLines o → IsLines (joined o)
joined-IsLines none h = IsLines-none
joined-IsLines (some l) h = IsLines-some (join-IsLine (ascii ", ") l comma (h.texts l refl))

classless_routes-IsLines : (value : Bytes) → IsLines (classless_routes value)
unfolding classless_routes
classless_routes-IsLines value =
    joined-IsLines (route_texts (length value) value) (route_texts-AllLines (length value) value)

signed-IsLine : (n : ℕ) → IsLine (signed n)
unfolding signed
signed-IsLine n =
    IsLine-if (ltb n (2 ^ 31)) (decimal-IsLine n) (IsLine-cons refl (decimal-IsLine (2 ^ 32 - n)))

shouted :
    (t : Bool) (text other : Bytes)
    → all is_visible (to_ascii_uppercase text) ≡ true
    → IsLine (to_ascii_uppercase other)
    → IsLine (to_ascii_uppercase (if t then text else other))
shouted true text other h k = literal (to_ascii_uppercase text) h
shouted false text other h k = k

message-IsLine : (message : ℕ) → IsLine (to_ascii_uppercase (message_name message))
unfolding message_name to_ascii_uppercase
message-IsLine m = shouted (m == 1) (ascii "discover") _ refl (
    shouted (m == 2) (ascii "offer") _ refl (
      shouted (m == 3) (ascii "request") _ refl (
        shouted (m == 4) (ascii "decline") _ refl (
          shouted (m == 5) (ascii "ack") _ refl (
            shouted (m == 6) (ascii "nak") _ refl (
              shouted (m == 7) (ascii "release") _ refl (
                shouted (m == 8) (ascii "inform") (ascii "unknown") refl
                  (literal (to_ascii_uppercase (ascii "unknown")) refl))))))))

requested_name-IsLine : (code : ℕ) → IsLine (requested_name code)
unfolding requested_name
requested_name-IsLine code =
    IsLine-if (bytes_eq (option_name code) (ascii "Option"))
      (lead (ascii "Option ") refl (decimal-IsLine code)) (option_name-IsLine code)

abbrev AnyNumber : ℕ → Type 0
AnyNumber a = Unit

pub be32_of-Yields : (value : Bytes) → (length value == 4) ≡ true → Yields AnyNumber (be32_of value)
unfolding be32_of
be32_of-Yields (a ∷ b ∷ c ∷ d ∷ []) h = Yields-ok tt
be32_of-Yields [] h = absurd (ground arith)
be32_of-Yields (a ∷ []) h = absurd (ground arith)
be32_of-Yields (a ∷ b ∷ []) h = absurd (ground arith)
be32_of-Yields (a ∷ b ∷ c ∷ []) h = absurd (ground arith)
be32_of-Yields (a ∷ b ∷ c ∷ d ∷ e ∷ value) h = absurd (ground arith)

pub be16_of-Yields : (value : Bytes) → (length value == 2) ≡ true → Yields AnyNumber (be16_of value)
unfolding be16_of
be16_of-Yields (a ∷ b ∷ []) h = Yields-ok tt
be16_of-Yields [] h = absurd (ground arith)
be16_of-Yields (a ∷ []) h = absurd (ground arith)
be16_of-Yields (a ∷ b ∷ c ∷ value) h = absurd (ground arith)

ether-Yields : (value : Bytes) → (length value == 7) ≡ true → Yields IsLine (ether value)
unfolding ether
ether-Yields value h =
    Yields-bind (sub_slice value 1 (length value)) _
      (Yields-sub_slice value 1 (length value) (ground arith) (omega arith))
      (λ mac e. Yields-ok (lead (ascii "ether ") refl (format_mac-IsLine mac)))

-- The value of an option is written, whatever its bytes, as visible ASCII on one line: no control
-- character and no line break of a packet reaches the log.
pub option_value-IsLine : (code : ℕ) (value : Bytes) → Yields IsLine (option_value code value)
unfolding option_value
option_value-IsLine code value =
    Yields-if (is_one_of (1 ∷ 3 ∷ 6 ∷ 28 ∷ 42 ∷ 50 ∷ 54 ∷ []) code) _ _
      (λ e. Yields-ok (or_printable-IsLine (ipv4_values value) value (ipv4_values-IsLines value)))
      λ e.
        Yields-if (is_one_of (12 ∷ 15 ∷ 60 ∷ 66 ∷ 67 ∷ 77 ∷ 101 ∷ 252 ∷ []) code) _ _
          (λ e.
            Yields-ok (
              IsLine-cons refl (IsLine-append (printable-IsLine value) (literal (b'"' ∷ []) refl))))
          λ e.
            Yields-if (code == 2 && length value == 4) _ _
              (λ e.
                Yields-bind (be32_of value) _
                  (be32_of-Yields value (and-eq-true (code == 2) (length value == 4) e).1)
                  (λ n h. Yields-ok (signed-IsLine n)))
              λ e.
                Yields-if (is_one_of (26 ∷ 57 ∷ []) code && length value == 2) _ _
                  (λ e.
                    Yields-bind (be16_of value) _
                      (be16_of-Yields value
                        (and-eq-true (is_one_of (26 ∷ 57 ∷ []) code) (length value == 2) e).1)
                      (λ n h. Yields-ok (decimal-IsLine n)))
                  λ e.
                    Yields-if (is_one_of (51 ∷ 58 ∷ 59 ∷ []) code && length value == 4) _ _
                      (λ e.
                        Yields-bind (be32_of value) _
                          (be32_of-Yields value
                            (and-eq-true (is_one_of (51 ∷ 58 ∷ 59 ∷ []) code) (length value == 4)
                              e).1)
                          (λ n h. Yields-ok (decimal-IsLine n)))
                      λ e.
                        Yields-if (code == 53 && length value == 1) _ _
                          (λ e.
                            Yields-bind (index value 0) _
                              (Yields-index value 0 (
                                let one = (and-eq-true (code == 53) (length value == 1) e).1 in
                                ground arith))
                              (λ message h. Yields-ok (message-IsLine message)))
                          λ e.
                            Yields-if (code == 55) _ _
                              (λ e. Yields-ok (
                                join-IsLine (ascii ", ") (map requested_name value) comma
                                  (map-IsLine requested_name value requested_name-IsLine)))
                              λ e.
                                Yields-if (code == 61 && length value == 7 && starts_with_one value)
                                  _ _ (λ e. ether-Yields value (ground arith))
                                  λ e.
                                    Yields-if (code == 93 && length value % 2 == 0) _ _
                                      (λ e. Yields-ok (
                                        join-IsLine (ascii ", ") (map decimal (words value)) comma
                                          (map-IsLine decimal (words value) decimal-IsLine)))
                                      λ e.
                                        Yields-if (is_one_of (121 ∷ 249 ∷ []) code) _ _
                                          (λ e. Yields-ok (
                                            or_printable-IsLine (classless_routes value) value
                                              (classless_routes-IsLines value)))
                                          λ e. Yields-ok (printable-IsLine value)
