-- ===== src/Dhcp/Reply/Fixed.antt =====
-- The fixed header of a reply of src/dhcp.rs by its fields, and the list of its options.
use macmapd.Base.{
  ℕ, ◌≤◌, ◌≡◌, refl, Bool, true, false, ◌||◌, [], ◌∷◌, ◌++◌, Bytes, length, slice, Bool-cases, inl,
  inr, leb, ◌==◌, if◌then◌else◌, arith,
}
use macmapd.Net.{Ipv4Addr, octets}
use macmapd.Clients.{Client}
use macmapd.Config.{Config}
use macmapd.Dhcp.{Packet}
use macmapd.Dhcp.Options.Fields.{Fields}
use macmapd.Dhcp.Parse.{magic_cookie}
use macmapd.Dhcp.Parse.Accepts.{IsPacket}
use macmapd.Dhcp.Reply.Body.{boot_file}
use macmapd.Dhcp.Reply.Contents.{answer_fields, relay_fields, answer_header, nak_header}
use macmapd.Dhcp.Reply.Steps.{identity_fields, lease_header}
use macmapd.Dhcp.Reply.Header.{
  Has, start_header, start_op, start_xid, start_flags, start_relay, start_yiaddr, start_cookie,
  part, file_header-Has, lease_header-Has, nak_header-Has, nak_header-ciaddr, here,
}

abbrev zeros : Bytes
zeros = 0 ∷ 0 ∷ 0 ∷ 0 ∷ []

-- The fixed header, by its fields: `op`, `htype`, `hlen` and `hops`; `xid`; `ciaddr`; `yiaddr`;
-- `giaddr` and `chaddr`; and the cookie.
pub record IsReplyHeader (p : Packet) (client : Client) (message : ℕ) (h : Bytes) : Type 0 where
  pub size : length h ≡ 240
  pub op : slice 0 4 h ≡ 2 ∷ 1 ∷ 6 ∷ 0 ∷ []
  pub xid : slice 4 8 h ≡ slice 4 8 p.header
  pub ciaddr : slice 12 16 h ≡ (if message == 6 then zeros else slice 12 16 p.header)
  pub yiaddr : slice 16 20 h ≡ (if message == 6 || p.message == 8 then zeros else octets client.ip)
  pub relay : slice 24 44 h ≡ slice 24 44 p.header
  pub cookie : slice 236 240 h ≡ magic_cookie

-- The options, in their order.
abbrev pub reply_fields : Packet → Client → Config → Ipv4Addr → ℕ → Bytes → Bool → Fields
reply_fields p client config server message routes omitted =
    (identity_fields p message server
      ++ (if message == 6 then [] else answer_fields p client config routes))
    ++ relay_fields p omitted

module _ (p : Packet) (client : Client) (config : Config) (w : IsPacket p) where
  pub answered :
      {a b : ℕ} {v : Bytes}
      → a ≤ b
      → (leb b 20 || leb 24 a) ≡ true
      → (leb b 108 || leb 236 a) ≡ true
      → (leb b 16 || leb 20 a) ≡ true
      → Has a b v (start_header p)
      → Has a b v (answer_header p client config (start_header p))
  answered ab s t u has =
      file_header-Has config (boot_file p client config) ab s t (lease_header-Has p client ab u has)

  leased :
      Has 16 20
        (if p.message == 8 then zeros else octets client.ip)
        (answer_header p client config (start_header p))
  leased =
      file_header-Has config (boot_file p client config)
        {h = lease_header p client (start_header p)} (omega arith) refl refl
        (elim (Bool-cases (p.message == 8)) [
          | inl t ↦ rw t (start_yiaddr p w.header_length)
          | inr f ↦ rw f (
              here (start_header p) (octets client.ip) refl (omega arith)
                (start_yiaddr p w.header_length).size)
        ])

  pub answer_header-IsReplyHeader :
      (message : ℕ)
      → (message == 6) ≡ false
      → IsReplyHeader p client message (answer_header p client config (start_header p))
  answer_header-IsReplyHeader message f =
      let n = w.header_length in
      record {
        size = leased.size;
        op = (answered (omega arith) refl refl refl (start_op p n)).bytes;
        xid = (answered (omega arith) refl refl refl (start_xid p n)).bytes;
        ciaddr =
            rw f
              (answered {b = 16} (omega arith) refl refl refl
                (part p.header (omega arith) (omega arith) (omega arith) (start_flags p n))).bytes;
        yiaddr = rw f leased.bytes;
        relay = (answered (omega arith) refl refl refl (start_relay p n)).bytes;
        cookie = (answered (omega arith) refl refl refl (start_cookie p n)).bytes;
      }

  pub nak_header-IsReplyHeader : IsReplyHeader p client 6 (nak_header p (start_header p))
  nak_header-IsReplyHeader =
      let n = w.header_length in
      let ciaddr = nak_header-ciaddr p (start_header p) (start_op p n).size in
      record {
        size = ciaddr.size;
        op = (nak_header-Has p (omega arith) refl refl (start_op p n)).bytes;
        xid = (nak_header-Has p (omega arith) refl refl (start_xid p n)).bytes;
        ciaddr = ciaddr.bytes;
        yiaddr = (nak_header-Has p (omega arith) refl refl (start_yiaddr p n)).bytes;
        relay = (nak_header-Has p (omega arith) refl refl (start_relay p n)).bytes;
        cookie = (nak_header-Has p (omega arith) refl refl (start_cookie p n)).bytes;
      }
