-- ===== src/Dhcp/Reply/Sent.antt =====
-- The datagram that `reply` of src/dhcp.rs sends: its header, its options, its padding and its size.
use mathlib.Core.Path.{subst}
use macmapd.Base.{
  ℕ, ◌-◌, ◌≤◌, ◌≡◌, ◌≢◌, refl, sym, ap, ◌∙◌, some, [], ◌∷◌, ◌++◌, Bytes, length, length-append,
  length-replicate, ==_iff, Bool-cases, inl, inr, replicate, max, leb→le, ◌==◌, if◌then◌else◌, ok,
  arith, append_assoc, append-nil,
}
use macmapd.Base.Ensures.{Ensures, ok_inj, Ensures-ok, Ensures-bind, Ensures-ensure, Ensures-option}
use macmapd.Net.{Ipv4Addr}
use macmapd.Clients.{Client}
use macmapd.Config.{Config}
use macmapd.Dhcp.{Packet}
use macmapd.Dhcp.Options.Fields.{Fields, encode_all}
use macmapd.Dhcp.Parse.Accepts.{IsPacket}
use macmapd.Dhcp.Reply.{Reply, build, reply}
use macmapd.Dhcp.Reply.Answer.{answer}
use macmapd.Dhcp.Reply.Body.{put_answer, put_nak}
use macmapd.Dhcp.Reply.Finish.{seal}
use macmapd.Dhcp.Reply.Limits.{Allows, GoesTo, maximum_of-Allows, destination-GoesTo}
use macmapd.Dhcp.Reply.Shape.{IsShape}
use macmapd.Dhcp.Reply.Contents.{
  answer_fields, answer_header, nak_header, nak_header-IsShape, put_nak-eq, IsRoutes,
  put_answer-Ensures, put_relay-IsShape,
}
use macmapd.Dhcp.Reply.Steps.{put_identity-Puts}
use macmapd.Dhcp.Reply.Header.{start_header, start-eq, start_op}
use macmapd.Dhcp.Reply.Fixed.{
  IsReplyHeader, answer_header-IsReplyHeader, nak_header-IsReplyHeader, reply_fields,
}

-- A datagram: header, options, the end mark, and zeros up to 300 bytes.
pub record IsDatagram (h : Bytes) (fields : Fields) (maximum : ℕ) (bytes : Bytes) : Type 0 where
  pub padding : ℕ
  pub content : bytes ≡ h ++ (encode_all fields ++ (255 ∷ replicate padding 0))
  pub least : 300 ≤ length bytes
  pub most : length bytes ≤ max maximum 300

seal-Ensures :
    (maximum : ℕ) (out : Bytes) {h : Bytes} {fs : Fields}
    → IsShape out h fs
    → Ensures (IsDatagram h fs maximum) (seal maximum out)
unfolding seal
seal-Ensures maximum out {h} {fs} s = Ensures-ensure _ _ _ λ fits.
    let k = leb→le (length (out ++ (255 ∷ []))) maximum fits in
    let pad : ℕ = 300 - length (out ++ (255 ∷ [])) in
    let n = length-append (out ++ (255 ∷ [])) (replicate pad 0) in
    let m = length-replicate {A = ℕ} pad 0 in
    Ensures-ok (record {
      padding = pad;
      content =
          append_assoc out (255 ∷ []) (replicate pad 0)
          ∙ ap (λ (t : Bytes). t ++ (255 ∷ replicate pad 0)) s.bytes
          ∙ append_assoc h (encode_all fs) (255 ∷ replicate pad 0);
      least = ground (arith, n, m);
      most = ground (arith, n, m, k);
    })

-- What the reply with the message `message` is.
pub record IsReply (p : Packet) (client : Client) (config : Config) (server : Ipv4Addr)
    (message : ℕ) (r : Reply) : Type 0 where
  pub header : Bytes
  pub routes : Bytes
  pub maximum : ℕ
  pub is_message : r.message ≡ message
  pub is_header : IsReplyHeader p client message header
  pub is_routes : message ≢ 6 → IsRoutes p client config routes
  pub is_maximum : Allows (p.options 57) maximum
  pub is_datagram :
      IsDatagram header
        (reply_fields p client config server message routes r.relay_option_omitted)
        maximum
        r.bytes
  pub is_destination : GoesTo p message r.destination

nak-Ensures :
    (p : Packet) (client : Client) (config : Config)
    → IsPacket p
    → (out : Bytes) {fs : Fields} → IsShape out (start_header p) fs
    → Ensures
        (λ b.
          (h : Bytes) × (routes : Bytes) × IsReplyHeader p client 6 h
          × (◌≢◌ {A = ℕ} 6 6 → IsRoutes p client config routes)
          × IsShape b h (fs ++ []))
        (put_nak p out)
nak-Ensures p client config w out {fs} s =
    let n = ap length s.bytes ∙ length-append (start_header p) (encode_all fs) in
    rw (put_nak-eq p out (omega (arith, n, s.length_h))) (
      Ensures-ok (
        nak_header p (start_header p),
        [],
        nak_header-IsReplyHeader p client config w,
        λ other. absurd (other refl),
        subst (IsShape (nak_header p out) (nak_header p (start_header p))) (sym (append-nil fs))
            (nak_header-IsShape p out s),
      ))

-- The body of a reply in front of the relay's option.
body-Ensures :
    (p : Packet) (client : Client) (config : Config) (server : Ipv4Addr) (message : ℕ)
    → IsPacket p
    → (out : Bytes) {fs : Fields} → IsShape out (start_header p) fs
    → Ensures
        (λ b.
          (h : Bytes) × (routes : Bytes) × IsReplyHeader p client message h
          × (message ≢ 6 → IsRoutes p client config routes)
          × IsShape b h (fs ++ (if message == 6 then [] else answer_fields p client config routes)))
        (if message == 6 then put_nak p out else put_answer p client config out)
body-Ensures p client config server message w out {fs} s = elim (Bool-cases (message == 6)) [
  | inl six ↦ rw ((==_iff message 6).0 six) (nak-Ensures p client config w out s)
  | inr other ↦ rw other (
      let e = put_answer-Ensures p client config out s in
      record {
        at = λ b made.
            let (routes, read, shape) = e.at b made in
            (
              answer_header p client config (start_header p),
              routes,
              answer_header-IsReplyHeader p client config w message other,
              λ _. read,
              shape,
            );
      })
]

build-Ensures :
    (p : Packet) (client : Client) (config : Config) (server : Ipv4Addr) (message : ℕ)
    → IsPacket p
    → Ensures (IsReply p client config server message) (build p client config server message)
unfolding build
build-Ensures p client config server message w = Ensures-bind _ _ λ header made.
    let same = ok_inj (sym made ∙ start-eq p w.header_length) in
    let start : IsShape header (start_header p) [] = record {
      length_h = (start_op p w.header_length).size;
      bytes = same ∙ sym (append-nil (start_header p));
    } in
    let named = (put_identity-Puts p message server).shape start in
    Ensures-bind _ _ λ body put.
      let (h, routes, is_header, is_routes, shape) =
        (body-Ensures p client config server message w _ named).at body put in
      Ensures-bind _ _ λ maximum read.
        let relayed = put_relay-IsShape p maximum body shape in
        Ensures-bind _ _ λ bytes sealed. Ensures-ok (record {
          header = h;
          routes = routes;
          maximum = maximum;
          is_message = refl;
          is_header = is_header;
          is_routes = is_routes;
          is_maximum = maximum_of-Allows (p.options 57) maximum w.size read;
          is_datagram = (seal-Ensures maximum _ relayed).at bytes sealed;
          is_destination = destination-GoesTo p message;
        })

reply-Ensures :
    (p : Packet) (client : Client) (config : Config) (server : Ipv4Addr)
    → IsPacket p
    → Ensures
        (λ o.
          (r : Reply)
          → o ≡ some r
          → (n : ℕ) × (answer p client server ≡ some n) × IsReply p client config server n r)
        (reply p client config server)
unfolding reply
reply-Ensures p client config server w = Ensures-ensure _ _ _ λ _.
    Ensures-option _ _ _ (λ silent. Ensures-ok λ r e. cc)
      (λ n answered. Ensures-bind _ _ λ built e. Ensures-ok λ r same. (
        n,
        answered,
        subst (IsReply p client config server n) (let s : built ≡ r = cc in s)
            ((build-Ensures p client config server n w).at built e),
      ))

-- A reply to a parsed request has the message that the decision gives; its header has the request's
-- `xid`, `giaddr` and `chaddr`, its `ciaddr` unless it is a NAK, and the client's address unless it
-- is a NAK or answers an INFORM; then come the options in their order, the end mark and padding, in
-- at least 300 bytes and at most what the request allows: 576 bytes, or the number in its option 57,
-- in network byte order, if that is more. It goes to port 67 of the relay if there is one; else to
-- port 68, of 255.255.255.255 for a NAK and for a client without an address, and else of the client.
pub reply-IsReply :
    (p : Packet) (client : Client) (config : Config) (server : Ipv4Addr) (r : Reply)
    → IsPacket p
    → reply p client config server ≡ ok (some r)
    → (n : ℕ) × (answer p client server ≡ some n) × IsReply p client config server n r
reply-IsReply p client config server r w e =
    (reply-Ensures p client config server w).at (some r) e r refl
