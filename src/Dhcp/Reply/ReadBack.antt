-- ===== src/Dhcp/Reply/ReadBack.antt =====
-- What a client reads in a reply of src/dhcp.rs.
use mathlib.Core.Path.{subst}
use macmapd.Base.{
  ℕ, ◌≡◌, ◌≢◌, refl, sym, ap, ◌∙◌, Bool, none, some, [], ◌∷◌, ◌++◌, Bytes, drop, drop-append_exact,
  Bool-cases, inl, inr, replicate, ◌==◌, if◌then◌else◌, ok, be32,
}
use macmapd.Net.{Ipv4Addr, octets}
use macmapd.Clients.{Client}
use macmapd.Config.{Config}
use macmapd.Dhcp.{Packet, OptionMap, no_options}
use macmapd.Dhcp.Options.{read_options}
use macmapd.Dhcp.Options.Fields.{encode_all, add_all, read_options-encode_all, entry, add_all-entry}
use macmapd.Dhcp.Parse.Accepts.{IsPacket}
use macmapd.Dhcp.Stage.{route_mode}
use macmapd.Dhcp.Reply.{Reply, reply}
use macmapd.Dhcp.Reply.Body.{boot_file, checked_mask}
use macmapd.Dhcp.Reply.Contents.{IsRoutes}
use macmapd.Dhcp.Reply.Sent.{reply-IsReply}
use macmapd.Dhcp.Reply.Fixed.{reply_fields}
use macmapd.Dhcp.Reply.Codes.{codes-All}
use macmapd.Dhcp.Reply.Values.{
  answer-read, file-value, file_value, gateway-value, gateway_value, lease-value, mask-value,
  message-value, reply-codes, routes-value, routes_value, server-value,
}

-- What a client finds in the options `o` of a reply with the message `n`.
pub record IsRead (p : Packet) (client : Client) (config : Config) (server : Ipv4Addr) (n : ℕ)
    (routes : Bytes) (o : OptionMap) : Type 0 where
  pub message : o 53 ≡ some (n ∷ [])
  pub server_id : o 54 ≡ some (octets server)
  pub lease : o 51 ≡ (
      if n == 6
      then none
      else if p.message == 8
      then none
      else some (be32 config.dhcp.lease_seconds))
  pub mask : o 1 ≡ (if n == 6 then none else some (be32 (checked_mask client.prefix_length)))
  pub gateway : o 3 ≡ (if n == 6 then none else entry none (gateway_value (route_mode p) client))
  pub classless_routes :
      o 121 ≡ (if n == 6 then none else entry none (routes_value (route_mode p) routes))
  pub file : o 67 ≡ (if n == 6 then none else entry none (file_value (boot_file p client config)))

reply_fields-IsRead :
    (p : Packet) (client : Client) (config : Config) (server : Ipv4Addr) (n : ℕ) (routes : Bytes)
    (omitted : Bool)
    → IsRead p client config server n routes
        (add_all no_options (reply_fields p client config server n routes omitted))
reply_fields-IsRead p client config server n routes omitted =
    let fields = reply_fields p client config server n routes omitted in
    let read = λ (k : ℕ) (v : Bytes). answer-read p client config server n routes omitted k v in
    record {
      message =
          add_all-entry fields no_options 53
          ∙ ap (entry none) (message-value p client config server n routes omitted);
      server_id =
          add_all-entry fields no_options 54
          ∙ ap (entry none) (server-value p client config server n routes omitted);
      lease =
          read 51 _ refl (lease-value p client config server n routes omitted)
          ∙ elim (Bool-cases (p.message == 8)) [ inl e ↦ rw e refl | inr e ↦ rw e refl ];
      mask = read 1 _ refl (mask-value p client config server n routes omitted);
      gateway = read 3 _ refl (gateway-value p client config server n routes omitted);
      classless_routes = read 121 _ refl (routes-value p client config server n routes omitted);
      file = read 67 _ refl (file-value p client config server n routes omitted);
    }

-- The program's own option reader, run on a reply behind its header, finds the message and the
-- server; in an OFFER or an ACK also the lease (unless an INFORM is answered), the subnet mask, the
-- gateway or the encoded classless routes of the configuration, and the boot file; and in a NAK none of these.
pub reply-IsRead :
    (p : Packet) (client : Client) (config : Config) (server : Ipv4Addr) (r : Reply)
    → IsPacket p
    → reply p client config server ≡ ok (some r)
    → (o : OptionMap) × (routes : Bytes) × (read_options (drop 240 r.bytes) no_options ≡ ok o)
      × (r.message ≢ 6 → IsRoutes p client config routes)
      × IsRead p client config server r.message routes o
reply-IsRead p client config server r w e =
    let (n, answered, sent) = reply-IsReply p client config server r w e in
    let fields = reply_fields p client config server n sent.routes r.relay_option_omitted in
    let d = sent.is_datagram in
    let behind : drop 240 r.bytes ≡ encode_all fields ++ (255 ∷ replicate d.padding 0) =
      ap (drop 240) d.content ∙ drop-append_exact sent.header _ 240 (sym sent.is_header.size) in
    (
      add_all no_options fields,
      sent.routes,
      ap (λ (t : Bytes). read_options t no_options) behind
          ∙ read_options-encode_all fields (replicate d.padding 0) no_options (
              codes-All fields
                (reply-codes p client config server n sent.routes r.relay_option_omitted)),
      λ other. sent.is_routes λ six. other (sent.is_message ∙ six),
      subst (λ (m : ℕ). IsRead p client config server m sent.routes (add_all no_options fields))
          (sym sent.is_message)
          (reply_fields-IsRead p client config server n sent.routes r.relay_option_omitted),
    )
