-- ===== src/Dhcp/Reply/Header.antt =====
-- The 240 bytes in front of the options of a reply of src/dhcp.rs.
use macmapd.Base.{
  ℕ, ◌+◌, ◌-◌, ◌≤◌, ◌≡◌, refl, sym, ap, ◌∙◌, Bool, true, false, ◌||◌, Option, none, some, [], ◌∷◌,
  Bytes, length, copy_at, slice, sub_slice-ok, length-copy_at, length-slice, slice-copy_at_self,
  slice-copy_at_before, slice-copy_at_after, take, drop, drop-take, drop-drop, take-take,
  Bool-cases, inl, inr, replicate, leb, leb→le, ltb, ltb→lt, ◌==◌, if◌then◌else◌, ok, ◌>>=◌, arith,
}
use macmapd.Net.{octets, is_unspecified}
use macmapd.Clients.{Client}
use macmapd.Config.{Config}
use macmapd.Dhcp.{Packet, DhcpError}
use macmapd.Dhcp.Parse.{magic_cookie}
use macmapd.Dhcp.Reply.Body.{echo, start}
use macmapd.Dhcp.Reply.Contents.{nak_header}
use macmapd.Dhcp.Reply.Steps.{lease_header, file_header}

-- A header of 240 bytes, whose bytes from `a` up to `b` are `v`.
pub record Has (a b : ℕ) (v : Bytes) (h : Bytes) : Type 0 where
  pub size : length h ≡ 240
  pub bytes : slice a b h ≡ v

-- A copy of `n` bytes to somewhere else, and to here.
elsewhere :
    {a b : ℕ} {v h : Bytes} (at n : ℕ) (src : Bytes)
    → length src ≡ n
    → a ≤ b
    → at + n ≤ 240
    → (leb b at || leb (at + n) a) ≡ true
    → Has a b v h
    → Has a b v (copy_at at src h)
elsewhere {a} {b} {v} {h} at n src e ab fits apart s = record {
  size = length-copy_at at src h (omega (arith, s.size)) ∙ s.size;
  bytes = elim (Bool-cases (leb b at)) [
    | inl t ↦ slice-copy_at_before at a b src h ab (leb→le b at t) (omega (arith, s.size)) ∙ s.bytes
    | inr f ↦
        let t : leb (at + n) a ≡ true = ground arith in
        let after = leb→le (at + n) a t in
        slice-copy_at_after at a b src h (omega arith) (omega (arith, s.size)) ∙ s.bytes
  ];
}

pub here :
    {a b : ℕ} (h src : Bytes)
    → a + length src ≡ b
    → b ≤ 240
    → length h ≡ 240
    → Has a b src (copy_at a src h)
here {a} {b} h src e fits n = record {
  size = length-copy_at a src h (omega arith) ∙ n;
  bytes = slice-copy_at_self a b src h (omega arith) (sym e);
}

slice-slice :
    (a b c d : ℕ) (xs : Bytes)
    → a ≤ c
    → c ≤ d
    → d ≤ b
    → slice (c - a) (d - a) (slice a b xs) ≡ slice c d xs
slice-slice a b c d xs h k l =
    let width : d - a - (c - a) ≡ d - c = omega arith in
    let from : a + (c - a) ≡ c = omega arith in
    rw
      (
        drop-take (c - a) (b - c) (b - a) (drop a xs) (omega arith),
        drop-drop (c - a) a xs,
        take-take (d - a - (c - a)) (b - c) (drop (a + (c - a)) xs) (omega arith),
        width,
        from,
      )
      refl

-- A part of a part.
pub part :
    {a b c d : ℕ} {h : Bytes} (xs : Bytes)
    → a ≤ c
    → c ≤ d
    → d ≤ b
    → Has a b (slice a b xs) h
    → Has c d (slice c d xs) h
part {a} {b} {c} {d} {h} xs i j k s = record {
  size = s.size;
  bytes =
      sym (slice-slice a b c d h i j k)
      ∙ ap (slice (c - a) (d - a)) s.bytes
      ∙ slice-slice a b c d xs i j k;
}

-- What `start` returns, spelled out.
abbrev pub blank : Bytes
blank = copy_at 0 (2 ∷ 1 ∷ 6 ∷ []) (replicate 240 0)

abbrev pub echoed : ℕ → ℕ → Packet → Bytes → Bytes
echoed a b p h = copy_at a (slice a b p.header) h

abbrev pub start_header : Packet → Bytes
start_header p = copy_at 236 magic_cookie (echoed 24 44 p (echoed 10 16 p (echoed 4 8 p blank)))

pub start-eq : (p : Packet) → length p.header ≡ 236 → start p ≡ ok (start_header p)
unfolding start echo ◌>>=◌
start-eq p n =
    rw
      (
        sub_slice-ok {E = DhcpError} p.header 4 8 (omega arith) (omega arith),
        sub_slice-ok {E = DhcpError} p.header 10 16 (omega arith) (omega arith),
        sub_slice-ok {E = DhcpError} p.header 24 44 (omega arith) (omega arith),
      )
      refl

module _ (p : Packet) (n : length p.header ≡ 236) where
  field_length : (a b : ℕ) → a ≤ b → b ≤ 236 → length (slice a b p.header) ≡ b - a
  field_length a b h k = length-slice a b p.header (omega arith)

  -- A part of the header that the four copies behind `blank` leave.
  kept :
      {a b : ℕ} {v h : Bytes}
      → a ≤ b
      → (leb b 10 || leb 16 a) ≡ true
      → (leb b 24 || leb 44 a) ≡ true
      → (leb b 236 || leb 240 a) ≡ true
      → Has a b v h
      → Has a b v (copy_at 236 magic_cookie (echoed 24 44 p (echoed 10 16 p h)))
  kept h s t u has = elsewhere 236 4 magic_cookie refl h (omega arith) u (
      elsewhere 24 20 (slice 24 44 p.header) (field_length 24 44 (omega arith) (omega arith)) h
        (omega arith) t
        (elsewhere 10 6 (slice 10 16 p.header) (field_length 10 16 (omega arith) (omega arith)) h
          (omega arith) s has))

  blank-Has : Has 0 4 (2 ∷ 1 ∷ 6 ∷ 0 ∷ []) blank
  unfolding copy_at take drop replicate
  blank-Has = record { size = refl; bytes = refl }

  echoed_op : Has 0 4 (2 ∷ 1 ∷ 6 ∷ 0 ∷ []) (echoed 4 8 p blank)
  echoed_op =
      elsewhere 4 4 (slice 4 8 p.header) (field_length 4 8 (omega arith) (omega arith))
        (omega arith) (omega arith) refl blank-Has

  pub start_op : Has 0 4 (2 ∷ 1 ∷ 6 ∷ 0 ∷ []) (start_header p)
  start_op = kept (omega arith) refl refl refl echoed_op

  blank_yiaddr : Has 16 20 (0 ∷ 0 ∷ 0 ∷ 0 ∷ []) blank
  unfolding copy_at take drop replicate
  blank_yiaddr = record { size = refl; bytes = refl }

  pub start_yiaddr : Has 16 20 (0 ∷ 0 ∷ 0 ∷ 0 ∷ []) (start_header p)
  start_yiaddr = kept (omega arith) refl refl refl (
      elsewhere 4 4 (slice 4 8 p.header) (field_length 4 8 (omega arith) (omega arith))
        (omega arith) (omega arith) refl blank_yiaddr)

  pub start_xid : Has 4 8 (slice 4 8 p.header) (start_header p)
  start_xid = kept (omega arith) refl refl refl (
      here blank (slice 4 8 p.header) (omega (arith, field_length 4 8 (omega arith) (omega arith)))
        (omega arith) blank-Has.size)

  pub start_flags : Has 10 16 (slice 10 16 p.header) (start_header p)
  start_flags = elsewhere 236 4 magic_cookie refl (omega arith) (omega arith) refl (
      elsewhere 24 20 (slice 24 44 p.header) (field_length 24 44 (omega arith) (omega arith))
        (omega arith) (omega arith) refl
        (here _ (slice 10 16 p.header)
          (omega (arith, field_length 10 16 (omega arith) (omega arith))) (omega arith)
          echoed_op.size))

  pub start_relay : Has 24 44 (slice 24 44 p.header) (start_header p)
  start_relay = elsewhere 236 4 magic_cookie refl (omega arith) (omega arith) refl (
      here (echoed 10 16 p (echoed 4 8 p blank)) (slice 24 44 p.header)
        (omega (arith, field_length 24 44 (omega arith) (omega arith))) (omega arith)
        (elsewhere 10 6 (slice 10 16 p.header) (field_length 10 16 (omega arith) (omega arith))
          (omega arith) (omega arith) refl echoed_op).size)

  pub start_cookie : Has 236 240 magic_cookie (start_header p)
  start_cookie =
      here (echoed 24 44 p (echoed 10 16 p (echoed 4 8 p blank))) magic_cookie refl (omega arith)
        (elsewhere 24 20 (slice 24 44 p.header) (field_length 24 44 (omega arith) (omega arith))
          (omega arith) (omega arith) refl
          (elsewhere 10 6 (slice 10 16 p.header) (field_length 10 16 (omega arith) (omega arith))
            (omega arith) (omega arith) refl echoed_op)).size

-- What `put_answer` and `put_nak` leave of the header.
if-Has :
    (t : Bool) {a b : ℕ} {v g h : Bytes}
    → (t ≡ true → Has a b v g)
    → (t ≡ false → Has a b v h)
    → Has a b v (if t then g else h)
if-Has true f g = f refl
if-Has false f g = g refl

pub file_header-Has :
    (config : Config) (file : Option Bytes) {a b : ℕ} {v h : Bytes}
    → a ≤ b
    → (leb b 20 || leb 24 a) ≡ true
    → (leb b 108 || leb 236 a) ≡ true
    → Has a b v h
    → Has a b v (file_header config file h)
file_header-Has config none ab s t has = has
file_header-Has config (some file) ab s t has =
    let server = elsewhere 20 4 (octets config.boot.tftp_server) refl ab (omega arith) s has in
    if-Has (ltb (length file) 128)
      (λ short.
        let fits = ltb→lt (length file) 128 short in
        elsewhere 108 (length file) file refl ab (omega arith) (ground arith) server)
      (λ _. server)

pub lease_header-Has :
    (p : Packet) (client : Client) {a b : ℕ} {v h : Bytes}
    → a ≤ b
    → (leb b 16 || leb 20 a) ≡ true
    → Has a b v h
    → Has a b v (lease_header p client h)
lease_header-Has p client ab s has =
    if-Has (p.message == 8) (λ _. has)
      (λ _. elsewhere 16 4 (octets client.ip) refl ab (omega arith) s has)

pub nak_header-Has :
    (p : Packet) {a b : ℕ} {v h : Bytes}
    → a ≤ b
    → (leb b 12 || leb 16 a) ≡ true
    → (leb b 10 || leb 11 a) ≡ true
    → Has a b v h
    → Has a b v (nak_header p h)
nak_header-Has p ab s t has =
    let cleared = elsewhere 12 4 (0 ∷ 0 ∷ 0 ∷ 0 ∷ []) refl ab (omega arith) s has in
    if-Has (is_unspecified p.giaddr) (λ _. cleared)
      (λ _. elsewhere 10 1 (_ ∷ []) refl ab (omega arith) t cleared)

pub nak_header-ciaddr :
    (p : Packet) (h : Bytes) → length h ≡ 240 → Has 12 16 (0 ∷ 0 ∷ 0 ∷ 0 ∷ []) (nak_header p h)
nak_header-ciaddr p h n =
    let cleared : Has 12 16 (0 ∷ 0 ∷ 0 ∷ 0 ∷ []) (copy_at 12 (0 ∷ 0 ∷ 0 ∷ 0 ∷ []) h) =
      here h (0 ∷ 0 ∷ 0 ∷ 0 ∷ []) refl (omega arith) n in
    if-Has (is_unspecified p.giaddr) (λ _. cleared)
      (λ _. elsewhere 10 1 (_ ∷ []) refl (omega arith) (omega arith) refl cleared)
