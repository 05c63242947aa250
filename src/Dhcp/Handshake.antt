-- ===== src/Dhcp/Handshake.antt =====
-- The exchange of RFC 2131 with src/dhcp.rs: a DISCOVER and its OFFER, and the REQUEST that selects
-- the OFFER and its ACK.
use macmapd.Base.{
  ℕ, ◌≡◌, ◌≢◌, ◌≤◌, ◌⊎◌, inl, inr, refl, sym, ap, ◌∙◌, Bool, true, false, not, ◌&&◌, ◌||◌, Option,
  none, some, [], ◌∷◌, Bytes, slice, drop, slice-append_left, ok, err, panic, stuck, ◌>>=◌, ◌>>◌,
  ensure, arith, ◌==◌, if◌then◌else◌,
}
use macmapd.Net.{Ipv4Addr, octets, is_unspecified, is_broadcast, is_multicast}
use macmapd.Config.{Config}
use macmapd.Config.Address.{is_unicast}
use macmapd.Config.Validate.{validate}
use macmapd.Clients.{Client}
use macmapd.Dhcp.{Packet, OptionMap, DhcpError, no_options, response_too_long, bad_server}
use macmapd.Dhcp.Options.{read_options}
use macmapd.Dhcp.Parse.{Outcome, ip_option, as_ip}
use macmapd.Dhcp.Parse.Accepts.{IsPacket}
use macmapd.Dhcp.Stage.{boot_mode_mismatch}
use macmapd.Dhcp.Reply.{Reply, reply, build}
use macmapd.Dhcp.Reply.Answer.{answer}
use macmapd.Dhcp.Reply.States.{selecting, Answers, offers, acknowledges, refuses, informs}
use macmapd.Dhcp.Reply.Decision.{answer_iff}
use macmapd.Dhcp.Reply.Sent.{IsReply, reply-IsReply}
use macmapd.Dhcp.Reply.ReadBack.{reply-IsRead}
use macmapd.Dhcp.Reply.Errors.{reply-decides}

-- The address that a reply gives to its client.
abbrev pub your_address : Reply → Bytes
your_address r = slice 16 20 r.bytes

-- The REQUEST of a client that takes an OFFER: it has no address yet, and names the address and the
-- server that it found in the OFFER.
pub record Selects (offer : Reply) (p : Packet) : Type 0 where
  pub is_request : p.message ≡ 3
  pub no_address : is_unspecified p.ciaddr ≡ true
  pub address : p.options 50 ≡ some (your_address offer)
  pub server :
      (o : OptionMap) → read_options (drop 240 offer.bytes) no_options ≡ ok o → p.options 54 ≡ o 54

module _ (client : Client) (config : Config) (server : Ipv4Addr) where
  -- A DISCOVER is answered with an OFFER, if at all.
  discover-offers : (p : Packet) (n : ℕ) → p.message ≡ 1 → Answers p client server n → n ≡ 2
  discover-offers p _ e (offers m d) = refl
  discover-offers p _ e (acknowledges m a) = absurd (let f = sym e ∙ m in omega arith)
  discover-offers p _ e (refuses m a d) = absurd (let f = sym e ∙ m in omega arith)
  discover-offers p _ e (informs m d u) = absurd (let f = sym e ∙ m in omega arith)

  -- The address in a reply that is no NAK and answers no INFORM.
  given :
      (p : Packet) (n : ℕ) (r : Reply)
      → (n == 6 || p.message == 8) ≡ false
      → IsReply p client config server n r
      → your_address r ≡ octets client.ip
  given p n r e s =
      let d = s.is_datagram in
      let size = s.is_header.size in
      ap (slice 16 20) d.content
      ∙ slice-append_left 16 20 s.header _ (omega arith) (omega (arith, size))
      ∙ s.is_header.yiaddr
      ∙ ap (λ t. if t then 0 ∷ 0 ∷ 0 ∷ 0 ∷ [] else octets client.ip) e

  -- What an OFFER holds.
  record IsOffer (offer : Reply) : Type 0 where
    address : your_address offer ≡ octets client.ip
    options : OptionMap
    reads : read_options (drop 240 offer.bytes) no_options ≡ ok options
    named : options 54 ≡ some (octets server)

  discover-IsOffer :
      (p : Packet) (offer : Reply)
      → IsPacket p
      → p.message ≡ 1
      → reply p client config server ≡ ok (some offer)
      → IsOffer offer
  discover-IsOffer p offer w m e =
      let (n, answered, sent) = reply-IsReply p client config server offer w e in
      let (o, routes, reads, routed, read) = reply-IsRead p client config server offer w e in
      let two = discover-offers p n m ((answer_iff p client server n w).0 answered).1 in
      let plain : (n == 6 || p.message == 8) ≡ false = rw (two, m) refl in
      record {
        address = given p n offer plain sent;
        options = o;
        reads = reads;
        named = read.server_id;
      }

  Selects-acknowledges :
      (p : Packet) (offer : Reply)
      → IsPacket p
      → IsOffer offer
      → Selects offer p
      → boot_mode_mismatch p client ≡ false
      → answer p client server ≡ some 5
  unfolding ip_option
  Selects-acknowledges p offer w o s fits =
      let address : ip_option p 50 ≡ some client.ip = ap as_ip (s.address ∙ ap some o.address) in
      let named : ip_option p 54 ≡ some server = ap as_ip (s.server o.options o.reads ∙ o.named) in
      (answer_iff p client server 5 w).1
        (fits, acknowledges s.is_request (selecting s.no_address named address))

built_once :
    (t : Bool) (e : DhcpError) (m : Outcome Reply)
    → ◌≢◌ {A = Outcome (Option Reply)} (ensure t e >> (m >>= λ built. ok (some built))) (ok none)
unfolding ensure ◌>>=◌
built_once true e (ok r) = λ same. cc
built_once true e (err x) = λ same. cc
built_once true e panic = λ same. cc
built_once true e stuck = λ same. cc
built_once false e m = λ same. cc

-- A packet that is to be answered is not met with silence.
not_silent :
    (p : Packet) (client : Client) (config : Config) (server : Ipv4Addr) (n : ℕ)
    → answer p client server ≡ some n
    → reply p client config server ≢ ok none
unfolding reply
not_silent p client config server n e = rw e (
    built_once
      (not (is_unspecified server) && not (is_broadcast server) && not (is_multicast server))
      bad_server (build p client config server n))

-- The ACK of an OFFER.
pub record IsAck (client : Client) (config : Config) (server : Ipv4Addr) (p : Packet)
    (offer ack : Reply) : Type 0 where
  pub sent : reply p client config server ≡ ok (some ack)
  pub message : ack.message ≡ 5
  pub address : your_address ack ≡ your_address offer

five_of : {n : ℕ} → ◌≡◌ {A = Option ℕ} (some 5) (some n) → n ≡ 5
five_of e = cc

acknowledged :
    (client : Client) (config : Config) (server : Ipv4Addr) (p : Packet) (offer : Reply)
    → IsPacket p
    → p.message ≡ 3
    → IsOffer client config server offer
    → answer p client server ≡ some 5
    → (a : Option Reply) → reply p client config server ≡ ok a
    → (ack : Reply) × IsAck client config server p offer ack
acknowledged client config server p offer w m o answered none e =
    absurd (not_silent p client config server 5 answered e)
acknowledged client config server p offer w m o answered (some ack) e =
    let (n, same, sent) = reply-IsReply p client config server ack w e in
    let five = five_of (sym answered ∙ same) in
    let plain : (n == 6 || p.message == 8) ≡ false = rw (five, m) refl in
    (
      ack,
      record {
        sent = e;
        message = sent.is_message ∙ five;
        address = given client config server p n ack plain sent ∙ sym o.address;
      },
    )

-- A client that takes an OFFER gets it: with a configuration that passes the check and a unicast
-- address of the server, if a DISCOVER was answered with `offer`, then a REQUEST that names the
-- address and the server which the client reads in `offer`, and whose firmware fits the boot type of
-- the client, is answered with an ACK of the same address, unless the ACK would be longer than its
-- limit, of 576 bytes at least.
pub Selects-IsAck :
    (valid_level : Bytes → Bool) (config : Config) (client : Client) (server : Ipv4Addr)
    (discover request : Packet) (offer : Reply)
    → validate valid_level config ≡ ok tt
    → is_unicast server ≡ true
    → IsPacket discover
    → discover.message ≡ 1
    → reply discover client config server ≡ ok (some offer)
    → IsPacket request
    → Selects offer request
    → boot_mode_mismatch request client ≡ false
    → ((ack : Reply) × IsAck client config server request offer ack)
      ⊎ ((m : ℕ) × (576 ≤ m) × (reply request client config server ≡ err (response_too_long m)))
Selects-IsAck valid_level config client server discover request offer v u w m e x s fits =
    let o = discover-IsOffer client config server discover offer w m e in
    let answered = Selects-acknowledges client config server request offer x o s fits in
    elim (reply-decides valid_level config request client server v x u) [
      | inl (a, decided) ↦
          inl (acknowledged client config server request offer x s.is_request o answered a decided)
      | inr long ↦ inr long
    ]
