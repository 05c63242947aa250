-- ===== src/Dhcp/Dump/Shown.antt =====
-- What the packet log of src/dhcp.rs shows of the values that `reply` writes and of relay
-- information.
use mathlib.Core.Path.{subst}
use macmapd.Base.{
  ◌⊎◌, inl, inr, ℕ, zero, suc, ◌+◌, ◌*◌, ◌/◌, ◌%◌, ◌^◌, ◌≡◌, ◌≤◌, ◌<◌, refl, sym, ap, true, false,
  List, [], ◌∷◌, ◌++◌, Bytes, map, length, length-append, take-append_exact, drop-append_exact, ltb,
  ◌==◌, ascii, be16, be32, arith, ok, ◌>>=◌, ==_iff,
}
use macmapd.Text.Decimal.{decimal}
use macmapd.Net.{Ipv4Addr}
use macmapd.Net.Display.{display}
use macmapd.Dhcp.Options.Fields.{Fields}
use macmapd.Dhcp.Reply.Body.{all_octets}
use macmapd.Dhcp.Dump.{join}
use macmapd.Dhcp.Dump.Values.{
  Logged, addresses, ipv4_values, be16_of, be32_of, is_one_of, option_value, suboption_line,
  relay_loop, relay_information,
}

addresses-all_octets : (ips : List Ipv4Addr) → addresses (all_octets ips) ≡ ips
unfolding addresses
addresses-all_octets [] = refl
addresses-all_octets (ip ∷ ips) = ap (λ (t : List Ipv4Addr). ip ∷ t) (addresses-all_octets ips)

length-all_octets : (ips : List Ipv4Addr) → length (all_octets ips) % 4 ≡ 0
length-all_octets [] = refl
length-all_octets (ip ∷ ips) = omega (arith, length-all_octets ips)

abbrev list_text : List Ipv4Addr → Logged Bytes
list_text ips = ok (join (ascii ", ") (map display ips))

-- The codes whose values are addresses.
abbrev pub address_codes : List ℕ
address_codes = 1 ∷ 3 ∷ 6 ∷ 28 ∷ 42 ∷ 50 ∷ 54 ∷ []

option_value-all_octets :
    (code : ℕ) (ip : Ipv4Addr) (ips : List Ipv4Addr)
    → is_one_of address_codes code ≡ true
    → option_value code (all_octets (ip ∷ ips)) ≡ ok (join (ascii ", ") (map display (ip ∷ ips)))
unfolding option_value ipv4_values
option_value-all_octets code ip ips h =
    let four : (length (all_octets (ip ∷ ips)) % 4 == 0) ≡ true =
      (==_iff _ 0).1 (length-all_octets (ip ∷ ips)) in
    rw (h, four) (ap (λ (l : List Ipv4Addr). list_text l) (addresses-all_octets (ip ∷ ips)))

abbrev number : ℕ → Logged ℕ
number n = ok n

be32_value : (n : ℕ) → n < 2 ^ 32 → be32_of (be32 n) ≡ ok n
unfolding be32_of
be32_value n h =
    let whole : ((n / 2 ^ 24 % 256 * 256 + n / 2 ^ 16 % 256) * 256 + n / 256 % 256) * 256 + n % 256
        ≡ n =
      omega arith in
    ap (λ (t : ℕ). number t) whole

be16_value : (n : ℕ) → n < 2 ^ 16 → be16_of (be16 n) ≡ ok n
unfolding be16_of
be16_value n h =
    let whole : n / 256 % 256 * 256 + n % 256 ≡ n = omega arith in ap (λ (t : ℕ). number t) whole

abbrev decimal_text : Logged ℕ → Logged Bytes
decimal_text r = r >>= λ n. ok (decimal n)

-- The texts of the values that `reply` writes.
pub record IsWritten (ip : Ipv4Addr) (ips : List Ipv4Addr) (n m : ℕ) : Type 0 where
  pub address_lists :
      (code : ℕ)
      → is_one_of address_codes code ≡ true
      → option_value code (all_octets (ip ∷ ips)) ≡ ok (join (ascii ", ") (map display (ip ∷ ips)))
  pub times :
      (code : ℕ)
      → is_one_of (51 ∷ 58 ∷ 59 ∷ []) code ≡ true
      → option_value code (be32 n) ≡ ok (decimal n)
  pub mtu : option_value 26 (be16 m) ≡ ok (decimal m)

which_time :
    (code : ℕ)
    → is_one_of (51 ∷ 58 ∷ 59 ∷ []) code ≡ true
    → (code ≡ 51) ⊎ ((code ≡ 58) ⊎ (code ≡ 59))
which_time code h = ground arith

module _ (n : ℕ) (h : n < 2 ^ 32) where
  abbrev Shows : ℕ → Type 0
  Shows code = option_value code (be32 n) ≡ ok (decimal n)

  time : (be32_of (be32 n) >>= λ x. ok (decimal x)) ≡ ok (decimal n)
  unfolding ◌>>=◌
  time = ap decimal_text (be32_value n h)

  time_code : (code : ℕ) → is_one_of (51 ∷ 58 ∷ 59 ∷ []) code ≡ true → Shows code
  unfolding option_value ◌>>=◌
  time_code code t = elim (which_time code t) [
    | inl e ↦ subst Shows (sym e) time
    | inr (inl e) ↦ subst Shows (sym e) time
    | inr (inr e) ↦ subst Shows (sym e) time
  ]

-- The values that `reply` writes are shown in the log as what they are: a list of addresses, one at
-- least, as these addresses in order and in dotted form, under every code for addresses; a time of
-- 32 bits and an MTU of 16 bits in decimal.
pub option_value-IsWritten :
    (ip : Ipv4Addr) (ips : List Ipv4Addr) (n m : ℕ) → n < 2 ^ 32 → m < 2 ^ 16 → IsWritten ip ips n m
unfolding option_value ◌>>=◌
option_value-IsWritten ip ips n m h k = record {
  address_lists = λ code e. option_value-all_octets code ip ips e;
  times = λ code e. time_code n h code e;
  mtu = ap decimal_text (be16_value m k);
}

abbrev pub encode_suboptions : Fields → Bytes
encode_suboptions [] = []
encode_suboptions ((code, value) ∷ rest) = code ∷ length value ∷ (value ++ encode_suboptions rest)

abbrev pub suboption_lines : Fields → List Bytes
suboption_lines [] = []
suboption_lines ((code, value) ∷ rest) = suboption_line code value ∷ suboption_lines rest

relay_loop-encode :
    (fuel : ℕ) (fields : Fields)
    → length (encode_suboptions fields) ≤ fuel
    → relay_loop fuel (encode_suboptions fields) ≡ ok (suboption_lines fields)
unfolding relay_loop ◌>>=◌
relay_loop-encode fuel [] h = refl
relay_loop-encode zero ((code, value) ∷ rest) h = absurd (omega arith)
relay_loop-encode (suc fuel) ((code, value) ∷ rest) h =
    let n = length-append value (encode_suboptions rest) in
    let fits : ltb (length (value ++ encode_suboptions rest)) (length value) ≡ false =
      ground (arith, n) in
    rw
      (
        fits,
        take-append_exact value (encode_suboptions rest) (length value) refl,
        drop-append_exact value (encode_suboptions rest) (length value) refl,
        relay_loop-encode fuel rest (omega (arith, n)),
      )
      refl

-- Relay information made of any list of suboptions, each with its code, length and value, is shown
-- in the log as exactly one line for each of them, in order, with its code, length and value.
pub relay_information-encode_suboptions :
    (fields : Fields) → relay_information (encode_suboptions fields) ≡ ok (suboption_lines fields)
unfolding relay_information
relay_information-encode_suboptions fields =
    relay_loop-encode (length (encode_suboptions fields)) fields (omega arith)
