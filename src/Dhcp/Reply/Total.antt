-- ===== src/Dhcp/Reply/Total.antt =====
-- Panics in `reply` of src/dhcp.rs: its indices, slices and loops.
use macmapd.Base.{
  ℕ, ◌+◌, ◌/◌, ◌≡◌, sym, ap, ◌∙◌, true, Option, none, some, List, [], ◌∷◌, Bytes, length,
  length-append, Total-index, Total-sub_slice, leb, leb→le, ◌==◌, ==_iff, and-eq-true, Returns,
  arith, append-nil,
}
use macmapd.Base.Ensures.{
  Total, Total-ok, Total-ensure, Total-if, Total-context, Total-bind, Total-option, ok_inj,
}
use macmapd.Net.{Ipv4Addr, octets}
use macmapd.Clients.{Client}
use macmapd.Config.{Config}
use macmapd.Dhcp.{Packet}
use macmapd.Dhcp.Parse.{has_length}
use macmapd.Dhcp.Parse.Accepts.{IsPacket}
use macmapd.Dhcp.Stage.{RouteMode, classless, default, route_mode}
use macmapd.Dhcp.Reply.{build, reply}
use macmapd.Dhcp.Reply.Answer.{answer}
use macmapd.Dhcp.Reply.Body.{put_identity, put_answer, put_routes, put_routes_by, encode_routes}
use macmapd.Dhcp.Reply.Finish.{maximum_of, seal}
use macmapd.Dhcp.Reply.Shape.{IsShape}
use macmapd.Dhcp.Reply.Contents.{put_nak-eq}
use macmapd.Dhcp.Reply.Steps.{put_identity-Puts}
use macmapd.Dhcp.Reply.Header.{start_header, start-eq, start_op}

encode_routes-Total :
    (routes : List Bytes) (gateway : Ipv4Addr) (done : Bytes)
    → Total (encode_routes routes gateway done)
unfolding encode_routes
encode_routes-Total [] gateway done = Total-ok done
encode_routes-Total (route ∷ rest) gateway done = Total-context _ _ _ λ parts _.
    Total-context _ _ _ λ prefix _. Total-ensure _ _ _ λ range. Total-context _ _ _ λ net _.
      let n = leb→le prefix 32 (and-eq-true (leb 1 prefix) (leb prefix 32) range).1 in
      Total-bind _ _ (Total-sub_slice (octets net) 0 ((prefix + 7) / 8) (omega arith) (omega arith))
        λ significant _. encode_routes-Total rest gateway _

put_routes_by-Total :
    (mode : RouteMode) (client : Client) (config : Config) (out : Bytes)
    → Total (put_routes_by mode client config out)
put_routes_by-Total default client config out = Total-ok _
put_routes_by-Total classless client config out =
    Total-bind _ _ (encode_routes-Total config.client_options.classless_routes client.gateway [])
      λ routes _. Total-ok _

put_answer-Total :
    (p : Packet) (client : Client) (config : Config) (out : Bytes)
    → Total (put_answer p client config out)
unfolding put_answer put_routes
put_answer-Total p client config out =
    Total-bind _ _ (put_routes_by-Total (route_mode p) client config _) λ b _. Total-ok _

maximum_of-Total : (size : Option Bytes) → has_length 2 size ≡ true → Total (maximum_of size)
maximum_of-Total none h = Total-ok 576
maximum_of-Total (some v) h =
    let n : length v ≡ 2 = (==_iff (length v) 2).0 h in
    Total-bind _ _ (Total-index v 0 (omega arith))
      λ high _. Total-bind _ _ (Total-index v 1 (omega arith)) λ low _. Total-ok _

seal-Total : (maximum : ℕ) (out : Bytes) → Total (seal maximum out)
unfolding seal
seal-Total maximum out = Total-ensure _ _ _ λ _. Total-ok _

build-Total :
    (p : Packet) (client : Client) (config : Config) (server : Ipv4Addr) (message : ℕ)
    → IsPacket p
    → Total (build p client config server message)
unfolding build
build-Total p client config server message w =
    Total-bind _ _ (rw (start-eq p w.header_length) (Total-ok _)) λ header made.
      let same = ok_inj (sym made ∙ start-eq p w.header_length) in
      let start : IsShape header (start_header p) [] = record {
        length_h = (start_op p w.header_length).size;
        bytes = same ∙ sym (append-nil (start_header p));
      } in
      let named = (put_identity-Puts p message server).shape start in
      let n = ap length named.bytes ∙ length-append (start_header p) _ in
      Total-bind _ _
        (Total-if (message == 6) _ _
          (λ _.
            rw
              (put_nak-eq p (put_identity p message server header)
                (omega (arith, n, named.length_h)))
              (Total-ok _))
          (λ _. put_answer-Total p client config _))
        λ body _.
          Total-bind _ _ (maximum_of-Total (p.options 57) w.size)
            λ maximum _. Total-bind _ _ (seal-Total maximum _) λ bytes _. Total-ok _

answered-Total :
    (p : Packet) (client : Client) (config : Config) (server : Ipv4Addr)
    → IsPacket p
    → Total (reply p client config server)
unfolding reply
answered-Total p client config server w = Total-ensure _ _ _ λ _.
    Total-option (answer p client server) _ _ (Total-ok none)
      λ message. Total-bind _ _ (build-Total p client config server message w) λ built _. Total-ok _

-- For a parsed request `reply` returns a result or an error; no index or slice in it is out of range.
pub reply-Returns :
    (p : Packet) (client : Client) (config : Config) (server : Ipv4Addr)
    → IsPacket p
    → Returns (reply p client config server)
reply-Returns p client config server w = (answered-Total p client config server w).returns
