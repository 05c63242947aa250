-- ===== src/Dhcp/Reply/Limits.antt =====
-- Where a reply of src/dhcp.rs goes, by section 4.1 of RFC 2131, and how long it may get, by option
-- 57 of RFC 2132.
use macmapd.Base.{
  get_or, ℕ, ◌+◌, ◌*◌, ◌≤◌, ◌<◌, ◌≡◌, ◌≢◌, refl, sym, ltb, true, false, Option, none, some, [], ◌∷◌,
  Bytes, max, arith, ok, ==_iff, Bool-cases, inl, inr, ◌==◌, index, ◌>>=◌,
}
use macmapd.Base.Ensures.{ok_inj}
use macmapd.Net.{Ipv4Addr, is_unspecified}
use macmapd.Dhcp.{Packet}
use macmapd.Dhcp.Parse.{has_length, Outcome}
use macmapd.Dhcp.Reply.Finish.{SocketAddrV4, destination, maximum_of}

abbrev port_of : ℕ → Ipv4Addr → SocketAddrV4
port_of port ip = record { ip = ip; port = port }

abbrev everyone : Ipv4Addr
everyone = record { a = 255; b = 255; c = 255; d = 255 }

-- The address of a reply with the message `n`: the server port of the relay, if a relay passed the
-- request on; else the client port, of every host for a NAK and for a client without an address,
-- and else of the client.
pub data GoesTo (p : Packet) (n : ℕ) (to : SocketAddrV4) : Type 0 where
  to_relay : is_unspecified p.giaddr ≡ false → to ≡ port_of 67 p.giaddr → GoesTo p n to
  nak_to_all : is_unspecified p.giaddr ≡ true → n ≡ 6 → to ≡ port_of 68 everyone → GoesTo p n to
  to_client :
      is_unspecified p.giaddr ≡ true
      → n ≢ 6
      → is_unspecified p.ciaddr ≡ false
      → to ≡ port_of 68 p.ciaddr
      → GoesTo p n to
  to_all :
      is_unspecified p.giaddr ≡ true
      → n ≢ 6
      → is_unspecified p.ciaddr ≡ true
      → to ≡ port_of 68 everyone
      → GoesTo p n to

-- The most bytes that a client takes: 576, or what its option 57 says in network byte order, if that
-- is more.
pub data Allows (size : Option Bytes) (maximum : ℕ) : Type 0 where
  unsaid : size ≡ none → maximum ≡ 576 → Allows size maximum
  said :
      (high low : ℕ)
      → size ≡ some (high ∷ low ∷ [])
      → 576 ≤ 256 * high + low
      → maximum ≡ 256 * high + low
      → Allows size maximum
  too_small :
      (high low : ℕ)
      → size ≡ some (high ∷ low ∷ [])
      → 256 * high + low < 576
      → maximum ≡ 576
      → Allows size maximum

pub Allows-least : {size : Option Bytes} {maximum : ℕ} → Allows size maximum → 576 ≤ maximum
Allows-least (unsaid e m) = omega (arith, m)
Allows-least (said high low e h m) = omega (arith, m)
Allows-least (too_small high low e h m) = omega (arith, m)

pub destination-GoesTo : (p : Packet) (n : ℕ) → GoesTo p n (destination p n)
unfolding destination
destination-GoesTo p n = elim (Bool-cases (is_unspecified p.giaddr)) [
  | inr relay ↦ rw relay (to_relay relay refl)
  | inl direct ↦ elim (Bool-cases (n == 6)) [
    | inl nak ↦ rw (direct, nak) (nak_to_all direct ((==_iff n 6).0 nak) refl)
    | inr other ↦
        let m : n ≢ 6 = λ e. absurd (ground (arith, other)) in
        elim (Bool-cases (is_unspecified p.ciaddr)) [
          | inl new ↦ rw (direct, other, new) (to_all direct m new refl)
          | inr known ↦ rw (direct, other, known) (to_client direct m known refl)
        ]
  ]
]

two_bytes :
    (high low m : ℕ)
    → ◌≡◌ {A = Outcome ℕ} (ok (max (high * 256 + low) 576)) (ok m)
    → Allows (some (high ∷ low ∷ [])) m
two_bytes high low m e =
    let same : max (high * 256 + low) 576 ≡ m = ok_inj e in
    elim (Bool-cases (ltb (256 * high + low) 576)) [
      | inl small ↦ too_small high low refl (ground arith) (ground (arith, same))
      | inr large ↦ said high low refl (ground arith) (ground (arith, same))
    ]

pub maximum_of-Allows :
    (size : Option Bytes) (m : ℕ)
    → has_length 2 size ≡ true
    → maximum_of size ≡ ok m
    → Allows size m
unfolding ◌>>=◌ index get_or
maximum_of-Allows none m h e = unsaid refl (let t : 576 ≡ m = cc in sym t)
maximum_of-Allows (some []) m h e = absurd cc
maximum_of-Allows (some (high ∷ [])) m h e = absurd cc
maximum_of-Allows (some (high ∷ low ∷ [])) m h e = two_bytes high low m e
maximum_of-Allows (some (high ∷ low ∷ x ∷ xs)) m h e = absurd (ground arith)
