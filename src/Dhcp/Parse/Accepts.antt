-- ===== src/Dhcp/Parse/Accepts.antt =====
-- What `Packet::parse` of src/dhcp.rs returns, and its panics.
use macmapd.Base.{
  ℕ, ◌+◌, ◌≤◌, ◌≡◌, sym, ap, ◌∙◌, Bool, true, Option, none, some, [], ◌∷◌, Bytes, length, any, drop,
  leb, leb→le, ◌==◌, slice, index, sub_slice, sub_slice-eq-ok, four_bytes, Total-index,
  Total-sub_slice, slice-take, length-slice, ok, Returns, arith,
}
use macmapd.Base.Ensures.{
  Ensures, Ensures-ok, Ensures-ensure, Ensures-context, Ensures-bind, Ensures-last, Total, Total-ok,
  Total-last, Total-ensure, Total-context, Total-bind, Total-if,
}
use macmapd.Net.{Ipv4Addr, octets}
use macmapd.Dhcp.{OptionMap, Packet, DhcpError, no_options}
use macmapd.Dhcp.Options.{read_options}
use macmapd.Dhcp.Options.Total.{read_options-Returns}
use macmapd.Dhcp.Parse.{
  read_field, read_overload, has_length, is_architectures, check_options, first, read_ip, parse,
}

read_options-Total : (bytes : Bytes) (o : OptionMap) → Total (read_options bytes o)
read_options-Total bytes o = record { returns = read_options-Returns bytes o }

read_field-Total :
    (bytes : Bytes) (a b : ℕ) (t : Bool) (o : OptionMap)
    → a ≤ b
    → b ≤ length bytes
    → Total (read_field bytes a b t o)
unfolding read_field
read_field-Total bytes a b t o h k =
    Total-if t _ _
      (λ _.
        Total-bind (sub_slice bytes a b) _ (Total-sub_slice bytes a b h k)
          λ area _. read_options-Total area o)
      (λ _. Total-ok o)

read_overload-Total :
    (bytes : Bytes) (o : OptionMap) (v : Option Bytes)
    → 236 ≤ length bytes
    → Total (read_overload bytes o v)
unfolding read_overload
read_overload-Total bytes o none h = Total-ok o
read_overload-Total bytes o (some v) h = Total-ensure _ _ _ λ _.
    Total-bind (read_field bytes 108 236 _ o) _
      (read_field-Total bytes 108 236 _ o (omega arith) (omega arith))
      λ p _. read_field-Total bytes 44 108 _ p (omega arith) (omega arith)

check_options-Total : (o : OptionMap) → Total (check_options o)
unfolding check_options
check_options-Total o =
    Total-ensure _ _ _
      λ _. Total-ensure _ _ _ λ _. Total-ensure _ _ _ λ _. Total-ensure _ _ _ λ _. Total-last _ _

read_ip-Total : (bytes : Bytes) (at : ℕ) → at + 4 ≤ length bytes → Total (read_ip bytes at)
unfolding read_ip
read_ip-Total bytes at h =
    Total-bind (sub_slice bytes at (at + 4)) _ (Total-sub_slice bytes at (at + 4) (omega arith) h)
      λ ip _. Total-ok _

parse-Total : (bytes : Bytes) → Total (parse bytes)
unfolding parse
parse-Total bytes = Total-ensure (leb 240 (length bytes)) _ _ λ long.
    let n = leb→le 240 (length bytes) long in
    Total-bind (index bytes 0) _ (Total-index bytes 0 (omega arith)) λ op _.
      Total-bind (index bytes 1) _ (Total-index bytes 1 (omega arith)) λ htype _.
        Total-bind (index bytes 2) _ (Total-index bytes 2 (omega arith)) λ hlen _.
          Total-ensure _ _ _ λ _.
            Total-bind (sub_slice bytes 236 240) _ (Total-sub_slice bytes 236 240 (omega arith) n)
              λ cookie _. Total-ensure _ _ _ λ _.
                Total-bind (sub_slice bytes 240 (length bytes)) _
                  (Total-sub_slice bytes 240 (length bytes) n (omega arith))
                  λ area _.
                    Total-bind (read_options area no_options) _ (read_options-Total area no_options)
                      λ plain _.
                        Total-bind (read_overload bytes plain (plain 52)) _
                          (read_overload-Total bytes plain (plain 52) (omega arith))
                          λ options _.
                            Total-bind (check_options options) _ (check_options-Total options)
                              λ u _. Total-context (first (options 53)) _ _ λ message _.
                                Total-ensure _ _ _ λ _.
                                  Total-bind (sub_slice bytes 0 236) _
                                    (Total-sub_slice bytes 0 236 (omega arith) (omega arith))
                                    λ header _.
                                      Total-bind (sub_slice bytes 28 34) _
                                        (Total-sub_slice bytes 28 34 (omega arith) (omega arith))
                                        λ mac _.
                                          Total-bind (read_ip bytes 12) _
                                            (read_ip-Total bytes 12 (omega arith))
                                            λ ciaddr _.
                                              Total-bind (read_ip bytes 24) _
                                                (read_ip-Total bytes 24 (omega arith))
                                                λ giaddr _. Total-ok _

-- `Packet::parse` returns a packet or an error on every byte string: no index or slice is out of
-- range, and its loops end.
pub parse-Returns : (bytes : Bytes) → Returns (parse bytes)
parse-Returns bytes = (parse-Total bytes).returns

-- A request as `reply` relies on it.
pub record IsPacket (p : Packet) : Type 0 where
  pub header_length : length p.header ≡ 236
  pub mac : p.mac ≡ slice 28 34 p.header
  pub ciaddr : octets p.ciaddr ≡ slice 12 16 p.header
  pub giaddr : octets p.giaddr ≡ slice 24 28 p.header
  pub message : p.options 53 ≡ some (p.message ∷ [])
  pub known : any (λ m. m == p.message) (1 ∷ 3 ∷ 4 ∷ 7 ∷ 8 ∷ []) ≡ true
  pub requested_ip : has_length 4 (p.options 50) ≡ true
  pub server_id : has_length 4 (p.options 54) ≡ true
  pub size : has_length 2 (p.options 57) ≡ true
  pub architectures : is_architectures (p.options 93) ≡ true

-- The lengths that `check_options` has checked.
record HasLengths (o : OptionMap) : Type 0 where
  message : has_length 1 (o 53) ≡ true
  requested_ip : has_length 4 (o 50) ≡ true
  server_id : has_length 4 (o 54) ≡ true
  size : has_length 2 (o 57) ≡ true
  architectures : is_architectures (o 93) ≡ true

check_options-Ensures : (o : OptionMap) → Ensures (λ _. HasLengths o) (check_options o)
unfolding check_options
check_options-Ensures o = Ensures-ensure (has_length 1 (o 53)) _ _ λ a.
    Ensures-ensure (has_length 4 (o 50)) _ _ λ b. Ensures-ensure (has_length 4 (o 54)) _ _ λ c.
      Ensures-ensure (has_length 2 (o 57)) _ _ λ d.
        Ensures-last (is_architectures (o 93)) _
          λ e. record { message = a; requested_ip = b; server_id = c; size = d; architectures = e }

only_byte :
    (o : Option Bytes) {m : ℕ} → has_length 1 o ≡ true → first o ≡ some m → o ≡ some (m ∷ [])
only_byte none h e = cc
only_byte (some []) h e = cc
only_byte (some (x ∷ [])) h e = cc
only_byte (some (x ∷ y ∷ ys)) h e = ground arith

prefix_slice :
    (bytes header : Bytes) (a b : ℕ)
    → header ≡ slice 0 236 bytes
    → a ≤ b
    → b ≤ 236
    → slice a b bytes ≡ slice a b header
unfolding drop
prefix_slice bytes header a b e h k = sym (slice-take a b 236 bytes h k) ∙ ap (slice a b) (sym e)

read_ip-Ensures :
    (bytes : Bytes) (at : ℕ)
    → Ensures (λ ip. octets ip ≡ slice at (at + 4) bytes) (read_ip bytes at)
unfolding read_ip
read_ip-Ensures bytes at = Ensures-bind (sub_slice bytes at (at + 4)) _ λ ip e.
    let (eq, _, fits) = sub_slice-eq-ok bytes at (at + 4) e in
    let four : length ip ≡ 4 = ap length eq ∙ length-slice at (at + 4) bytes fits ∙ omega arith in
    Ensures-ok (four_bytes ip four ∙ eq)

-- The last steps of `parse`.
module _ (bytes header mac : Bytes) (options : OptionMap) (message : ℕ) (ciaddr giaddr : Ipv4Addr)
    {u : Unit {0}} where
  packet :
      check_options options ≡ ok u
      → first (options 53) ≡ some message
      → any (λ m. m == message) (1 ∷ 3 ∷ 4 ∷ 7 ∷ 8 ∷ []) ≡ true
      → sub_slice {E = DhcpError} bytes 0 236 ≡ ok header
      → sub_slice {E = DhcpError} bytes 28 34 ≡ ok mac
      → read_ip bytes 12 ≡ ok ciaddr
      → read_ip bytes 24 ≡ ok giaddr
      → Ensures {E = DhcpError} IsPacket (
          ok (record {
            header = header;
            options = options;
            mac = mac;
            message = message;
            ciaddr = ciaddr;
            giaddr = giaddr;
          }))
  packet checked message_read known eh em ec eg =
      let (he, _, fits) = sub_slice-eq-ok bytes 0 236 eh in
      let (me, _, _) = sub_slice-eq-ok bytes 28 34 em in
      let lengths = (check_options-Ensures options).at u checked in
      let same = λ (a b : ℕ) (h : a ≤ b) (k : b ≤ 236). prefix_slice bytes header a b he h k in
      Ensures-ok (record {
        header_length = ap length he ∙ length-slice 0 236 bytes fits;
        mac = me ∙ same 28 34 (omega arith) (omega arith);
        ciaddr = (read_ip-Ensures bytes 12).at ciaddr ec ∙ same 12 16 (omega arith) (omega arith);
        giaddr = (read_ip-Ensures bytes 24).at giaddr eg ∙ same 24 28 (omega arith) (omega arith);
        message = only_byte (options 53) lengths.message message_read;
        known = known;
        requested_ip = lengths.requested_ip;
        server_id = lengths.server_id;
        size = lengths.size;
        architectures = lengths.architectures;
      })

parse-Ensures : (bytes : Bytes) → Ensures IsPacket (parse bytes)
unfolding parse
parse-Ensures bytes = Ensures-ensure (leb 240 (length bytes)) _ _ λ long.
    Ensures-bind (index bytes 0) _ λ op _. Ensures-bind (index bytes 1) _ λ htype _.
      Ensures-bind (index bytes 2) _ λ hlen _. Ensures-ensure _ _ _ λ request.
        Ensures-bind (sub_slice bytes 236 240) _ λ cookie _. Ensures-ensure _ _ _ λ _.
          Ensures-bind (sub_slice bytes 240 (length bytes)) _ λ area _.
            Ensures-bind (read_options area no_options) _ λ plain _.
              Ensures-bind (read_overload bytes plain (plain 52)) _ λ options _.
                Ensures-bind (check_options options) _ λ u checked.
                  Ensures-context (first (options 53)) _ _ λ message message_read.
                    Ensures-ensure (any (λ m. m == message) (1 ∷ 3 ∷ 4 ∷ 7 ∷ 8 ∷ [])) _ _ λ known.
                      Ensures-bind (sub_slice bytes 0 236) _ λ header eh.
                        Ensures-bind (sub_slice bytes 28 34) _ λ mac em.
                          Ensures-bind (read_ip bytes 12) _ λ ciaddr ec.
                            Ensures-bind (read_ip bytes 24) _ λ giaddr eg.
                              packet bytes header mac options message ciaddr giaddr checked
                                message_read known eh em ec eg

-- A packet that comes out of `Packet::parse` has a header of 236 bytes, from which its MAC, `ciaddr`
-- and `giaddr` are taken; its message is option 53, one of 1, 3, 4, 7 and 8; options 50 and 54 have
-- four bytes and option 57 has two, where they are there, and option 93 a positive even number.
pub parse-IsPacket : (bytes : Bytes) (p : Packet) → parse bytes ≡ ok p → IsPacket p
parse-IsPacket bytes = (parse-Ensures bytes).at
