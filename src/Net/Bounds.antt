-- ===== src/Net/Bounds.antt =====
-- The range of a parsed address.
use macmapd.Base.{ℕ, ◌≤◌, ◌≡◌, Option, some, List, [], ◌∷◌, Bytes, arith, if-eq-some}
use macmapd.Text.Bounds.{digits_value-le}
use macmapd.Text.{split, digits_value}
use macmapd.Net.{Ipv4Addr, IsAddr}
use macmapd.Net.Parse.{parse_octet, from_octets, from_pieces, parse_ipv4}

parse_octet-le : (s : Bytes) {n : ℕ} → parse_octet s ≡ some n → n ≤ 255
unfolding parse_octet
parse_octet-le s e = digits_value-le 255 10 s (if-eq-some _ (digits_value 255 10 (some 0) s) e).1

from_octets-eq-some :
    (p q r s : Option ℕ) {ip : Ipv4Addr}
    → from_octets p q r s ≡ some ip
    → (p ≡ some ip.a) × (q ≡ some ip.b) × (r ≡ some ip.c) × (s ≡ some ip.d)
from_octets-eq-some (some a) (some b) (some c) (some d) e = ground arith
from_octets-eq-some _ _ _ _ e = cc

from_octets-IsAddr :
    (p q r s : Bytes) {ip : Ipv4Addr}
    → from_octets (parse_octet p) (parse_octet q) (parse_octet r) (parse_octet s) ≡ some ip
    → IsAddr ip
from_octets-IsAddr p q r s {ip} e =
    let (ea, eb, ec, ed) =
      from_octets-eq-some (parse_octet p) (parse_octet q) (parse_octet r) (parse_octet s) {ip = ip}
        e in
    omega
      (arith, parse_octet-le p ea, parse_octet-le q eb, parse_octet-le r ec, parse_octet-le s ed)

from_pieces-IsAddr : (ps : List Bytes) {ip : Ipv4Addr} → from_pieces ps ≡ some ip → IsAddr ip
from_pieces-IsAddr (a ∷ b ∷ c ∷ d ∷ []) e = from_octets-IsAddr a b c d e
from_pieces-IsAddr _ e = cc

pub parse_ipv4-IsAddr : (s : Bytes) {ip : Ipv4Addr} → parse_ipv4 s ≡ some ip → IsAddr ip
unfolding parse_ipv4
parse_ipv4-IsAddr s e = from_pieces-IsAddr (split b'.' s) e
