-- ===== src/Net/RoundTrip.antt =====
-- Printing an address and parsing it again.
use macmapd.Base.{
  ℕ, ◌≡◌, refl, Bool, true, false, ◌&&◌, Option, none, some, Bytes, IsByte, arith, ◌==◌, all-append,
}
use macmapd.Base.Bits.{holds_below, holds_below→holds}
use macmapd.Text.Decimal.{decimal}
use macmapd.Text.Split.{lacks, split-append, split_last}
use macmapd.Net.{Ipv4Addr, IsAddr}
use macmapd.Net.Display.{display}
use macmapd.Net.Parse.{parse_octet, parse_ipv4}

abbrev is_some_of : ℕ → Option ℕ → Bool
is_some_of n none = false
is_some_of n (some m) = m == n

octet_check : ℕ → Bool
unfolding decimal parse_octet
octet_check n =
    is_some_of n (parse_octet (decimal n)) && lacks b'.' (decimal n) && lacks b'/' (decimal n)

octet_checks : (n : ℕ) → IsByte n → octet_check n ≡ true
unfolding octet_check holds_below
octet_checks = holds_below→holds _ 256 refl

-- What a printed octet is.
record IsOctetText (n : ℕ) (s : Bytes) : Type 0 where
  reads : parse_octet s ≡ some n
  no_dot : lacks b'.' s ≡ true
  no_slash : lacks b'/' s ≡ true

checked :
    (n : ℕ) (s : Bytes) (o : Option ℕ)
    → parse_octet s ≡ o
    → (is_some_of n o && lacks b'.' s && lacks b'/' s) ≡ true
    → IsOctetText n s
checked n s none e h = cc
checked n s (some m) e h = record {
  reads = ground arith;
  no_dot = ground arith;
  no_slash = ground arith;
}

decimal-IsOctetText : (n : ℕ) → IsByte n → IsOctetText n (decimal n)
unfolding octet_check
decimal-IsOctetText n h = checked n (decimal n) (parse_octet (decimal n)) refl (octet_checks n h)

pub parse_ipv4-display : (ip : Ipv4Addr) → IsAddr ip → parse_ipv4 (display ip) ≡ some ip
unfolding parse_ipv4 display
parse_ipv4-display ip h =
    let ta = decimal-IsOctetText ip.a h.a_byte in
    let tb = decimal-IsOctetText ip.b h.b_byte in
    let tc = decimal-IsOctetText ip.c h.c_byte in
    let td = decimal-IsOctetText ip.d h.d_byte in
    rw
      (
        split-append b'.' _ _ ta.no_dot,
        split-append b'.' _ _ tb.no_dot,
        split-append b'.' _ _ tc.no_dot,
        split_last b'.' _ td.no_dot,
      )
      (rw (ta.reads, tb.reads, tc.reads, td.reads))

-- A printed address holds no slash.
pub lacks-display : (ip : Ipv4Addr) → IsAddr ip → lacks b'/' (display ip) ≡ true
unfolding display
lacks-display ip h =
    let ta = decimal-IsOctetText ip.a h.a_byte in
    let tb = decimal-IsOctetText ip.b h.b_byte in
    let tc = decimal-IsOctetText ip.c h.c_byte in
    let td = decimal-IsOctetText ip.d h.d_byte in
    simp (all-append, ta.no_slash, tb.no_slash, tc.no_slash, td.no_slash)
