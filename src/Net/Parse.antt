-- ===== src/Net/Parse.antt =====
-- `str::parse::<Ipv4Addr>`: four decimal octets of one to three digits without leading zeros.
use macmapd.Base.{
  ℕ, ◌&&◌, not, Option, none, some, List, [], ◌∷◌, Bytes, length, all, leb, ltb, if◌then◌else◌,
}
use macmapd.Text.{is_ascii_digit, digits_value, split, starts_with_char}
use macmapd.Net.{Ipv4Addr}

unfoldable pub parse_octet : Bytes → Option ℕ
unfolding is_ascii_digit digits_value starts_with_char
parse_octet s =
    if all is_ascii_digit s
      && leb 1 (length s)
      && leb (length s) 3
      && not (starts_with_char b'0' s && ltb 1 (length s))
    then digits_value 255 10 (some 0) s
    else none

abbrev pub from_octets : Option ℕ → Option ℕ → Option ℕ → Option ℕ → Option Ipv4Addr
from_octets (some a) (some b) (some c) (some d) = some (record { a = a; b = b; c = c; d = d })
from_octets _ _ _ _ = none

abbrev pub from_pieces : List Bytes → Option Ipv4Addr
from_pieces (a ∷ b ∷ c ∷ d ∷ []) =
    from_octets (parse_octet a) (parse_octet b) (parse_octet c) (parse_octet d)
from_pieces _ = none

unfoldable pub parse_ipv4 : Bytes → Option Ipv4Addr
unfolding split
parse_ipv4 s = from_pieces (split b'.' s)
