-- ===== src/Dhcp/Dump/Safe/Whole.antt =====
-- The packet log of src/dhcp.rs as a whole.
use macmapd.Base.{
  ℕ, ◌+◌, ◌≡◌, ◌≤◌, refl, ap, ◌∙◌, true, not, List, [], ◌++◌, Bytes, All, length, length-slice,
  slice, min, ltb, ◌==◌, ascii, arith, bytes_eq, is_empty, index, sub_slice, sym, append_assoc,
  append-nil,
}
use macmapd.Base.Yields.{Yields, Yields-ok, Yields-if, Yields-bind, Yields-index, Yields-sub_slice}
use macmapd.Text.{split}
use macmapd.Text.Decimal.{decimal}
use macmapd.Net.{Ipv4Addr, is_unspecified}
use macmapd.Dhcp.Parse.{magic_cookie}
use macmapd.Dhcp.Dump.Values.{be16_of, be32_of}
use macmapd.Dhcp.Dump.Packet.{
  line, relay_lines, address_line, mac_line, text_line, options_text, vendor_text, header_text,
  title, op_name, flags_name, first_of, dhcp_packet_dump,
}
use macmapd.Dhcp.Dump.Safe.{
  IsLine, IsLine-append, IsLine-cons, IsLine-if, literal, lead, decimal-IsLine, display-IsLine,
  printable-IsLine,
}
use macmapd.Dhcp.Dump.Safe.Values.{
  format_mac-IsLine, format_xid-IsLine, be16_of-Yields, be32_of-Yields,
}
use macmapd.Dhcp.Dump.Safe.Starts as Starts
use macmapd.Dhcp.Dump.Safe.Starts.{
  IsName, IsStarted, client_ip, your_ip, server_ip, gateway_ip, client_ethernet_address,
  server_name, bootfile_name, too_short, no_cookie, vendor, cookie, started, alone, IsStarted-field,
}
use macmapd.Dhcp.Dump.Safe.Lines.{
  IsBlock, IsBlock-append, IsBlock-line, IsBlock-unless, options_text-IsBlock,
}

-- A first line and whole lines behind it, each of visible text that the program starts.
pub record IsLog (text : Bytes) : Type 0 where
  pub head : Bytes
  pub lines : List Bytes
  pub shown : head ++ relay_lines lines ≡ text
  pub head_clean : IsStarted head
  pub clean : All IsStarted lines

IsLog-append : {a b : Bytes} → IsStarted a → IsBlock b → IsLog (a ++ b)
IsLog-append {a} {b} h k = record {
  head = a;
  lines = k.lines;
  shown = ap (λ (t : Bytes). a ++ t) k.shown;
  head_clean = h;
  clean = k.clean;
}

flags_name-IsLine : (flags : ℕ) → IsLine (flags_name flags)
flags_name-IsLine flags =
    IsLine-if _ (literal (ascii "none") refl) (literal (ascii "Broadcast") refl)

op_name-IsLine : (op : ℕ) → IsLine (op_name op)
op_name-IsLine op =
    IsLine-if (op == 1) (literal (ascii "Request") refl)
      (IsLine-if (op == 2) (literal (ascii "Reply") refl) (literal (ascii "Unknown") refl))

exact : (xs : Bytes) (n : ℕ) → length xs ≡ n → (length xs == n) ≡ true
exact xs n h = ground arith

module _ (bytes : Bytes) (long : 236 ≤ length bytes) where
  field : (a b n : ℕ) (v : Bytes) → b ≤ 236 → b ≡ a + n → v ≡ slice a b bytes → length v ≡ n
  field a b n v h e s =
      let l = length-slice a b bytes (omega arith) in omega (arith, ap (length {A = ℕ}) s, l)

  title-IsStarted : Yields IsStarted (title bytes)
  unfolding title
  title-IsStarted = Yields-bind (index bytes 0) _ (Yields-index bytes 0 (omega arith)) λ op o.
      Yields-bind (sub_slice bytes 4 8) _ (Yields-sub_slice bytes 4 8 (omega arith) (omega arith))
        λ x ex.
          Yields-bind (be32_of x) _
            (be32_of-Yields x (exact x 4 (field 4 8 4 x (omega arith) refl ex)))
            λ xid u.
              Yields-bind (sub_slice bytes 8 10) _
                (Yields-sub_slice bytes 8 10 (omega arith) (omega arith))
                λ s es.
                  Yields-bind (be16_of s) _
                    (be16_of-Yields s (exact s 2 (field 8 10 2 s (omega arith) refl es)))
                    λ seconds v.
                      Yields-bind (sub_slice bytes 10 12) _
                        (Yields-sub_slice bytes 10 12 (omega arith) (omega arith))
                        λ f ef.
                          Yields-bind (be16_of f) _
                            (be16_of-Yields f (exact f 2 (field 10 12 2 f (omega arith) refl ef)))
                            λ flags w.
                              Yields-bind (index bytes 3) _ (Yields-index bytes 3 (omega arith))
                                λ hops y. Yields-ok (
                                  started Starts.title (
                                    IsLine-append (op_name-IsLine op) (
                                      lead (ascii ", length ") refl (
                                        IsLine-append (decimal-IsLine (length bytes)) (
                                          lead (ascii ", hops ") refl (
                                            IsLine-append (decimal-IsLine hops) (
                                              lead (ascii ", xid ") refl (
                                                IsLine-append (format_xid-IsLine xid) (
                                                  lead (ascii ", secs ") refl (
                                                    IsLine-append (decimal-IsLine seconds) (
                                                      lead (ascii ", Flags [") refl (
                                                        IsLine-append (flags_name-IsLine flags)
                                                          (literal (ascii "]") refl)))))))))))))

  address_line-IsBlock :
      (name : Bytes) (offset : ℕ)
      → IsName name
      → offset + 4 ≤ length bytes
      → Yields IsBlock (address_line bytes name offset)
  unfolding address_line
  address_line-IsBlock name offset h k =
      Yields-bind (index bytes offset) _ (Yields-index bytes offset (omega arith)) λ a ea.
        Yields-bind (index bytes (offset + 1)) _ (Yields-index bytes (offset + 1) (omega arith))
          λ b eb.
            Yields-bind (index bytes (offset + 2)) _ (Yields-index bytes (offset + 2) (omega arith))
              λ c ec.
                Yields-bind (index bytes (offset + 3)) _
                  (Yields-index bytes (offset + 3) (omega arith))
                  λ d ed.
                    let ip : Ipv4Addr = record { a = a; b = b; c = c; d = d } in
                    Yields-ok (
                      IsBlock-unless (is_unspecified ip) (
                        IsBlock-line
                          (IsStarted-field name h (IsLine-cons refl (display-IsLine ip)))))

  mac_line-IsBlock : Yields IsBlock (mac_line bytes)
  unfolding mac_line
  mac_line-IsBlock = Yields-bind (index bytes 2) _ (Yields-index bytes 2 (omega arith)) λ hlen e.
      Yields-bind (sub_slice bytes 28 (28 + min hlen 16)) _
        (Yields-sub_slice bytes 28 (28 + min hlen 16) (omega arith) (omega arith))
        λ mac f. Yields-ok (
          IsBlock-line (
            IsStarted-field (ascii "Client-Ethernet-Address") client_ethernet_address
              (lead (ascii " ") refl (format_mac-IsLine mac))))

  text_line-IsBlock :
      (name : Bytes) (a b : ℕ)
      → IsName name
      → a ≤ b
      → b ≤ 236
      → Yields IsBlock (text_line bytes name a b)
  unfolding text_line
  text_line-IsBlock name a b h k l =
      Yields-bind (sub_slice bytes a b) _ (Yields-sub_slice bytes a b k (omega arith)) λ v e.
        Yields-ok (
          IsBlock-unless (is_empty (first_of (split 0 v))) (
            IsBlock-line (
              IsStarted-field name h (
                lead (ascii " \"") refl (
                  IsLine-append (printable-IsLine (first_of (split 0 v)))
                    (literal (ascii "\"") refl))))))

  header_text-IsLog : Yields IsLog (header_text bytes)
  unfolding header_text
  header_text-IsLog = Yields-bind (title bytes) _ title-IsStarted λ head h.
      Yields-bind (address_line bytes (ascii "Client-IP") 12) _
        (address_line-IsBlock (ascii "Client-IP") 12 client_ip (omega arith))
        λ client a.
          Yields-bind (address_line bytes (ascii "Your-IP") 16) _
            (address_line-IsBlock (ascii "Your-IP") 16 your_ip (omega arith))
            λ your b.
              Yields-bind (address_line bytes (ascii "Server-IP") 20) _
                (address_line-IsBlock (ascii "Server-IP") 20 server_ip (omega arith))
                λ server c.
                  Yields-bind (address_line bytes (ascii "Gateway-IP") 24) _
                    (address_line-IsBlock (ascii "Gateway-IP") 24 gateway_ip (omega arith))
                    λ gateway d. Yields-bind (mac_line bytes) _ mac_line-IsBlock λ mac e.
                      Yields-bind (text_line bytes (ascii "Server-Name") 44 108) _
                        (text_line-IsBlock (ascii "Server-Name") 44 108 server_name (omega arith)
                          (omega arith))
                        λ name f.
                          Yields-bind (text_line bytes (ascii "Bootfile-Name") 108 236) _
                            (text_line-IsBlock (ascii "Bootfile-Name") 108 236 bootfile_name
                              (omega arith) (omega arith))
                            λ file g. Yields-ok (
                              IsLog-append h (
                                IsBlock-append a (
                                  IsBlock-append b (
                                    IsBlock-append c
                                      (IsBlock-append d (IsBlock-append e (IsBlock-append f g)))))))

cookie_missing : IsBlock (line (ascii "  No RFC1048 magic cookie"))
cookie_missing = IsBlock-line (alone no_cookie)

vendor_title :
    (text : Bytes)
    → IsBlock text
    → IsBlock (
        line (ascii "  Vendor-rfc1048 Extensions")
        ++ (line (ascii "    Magic Cookie 0x63825363") ++ text))
vendor_title text h =
    IsBlock-append (IsBlock-line (alone vendor)) (IsBlock-append (IsBlock-line (alone cookie)) h)

vendor_text-IsBlock : (bytes : Bytes) → Yields IsBlock (vendor_text bytes)
unfolding vendor_text
vendor_text-IsBlock bytes =
    Yields-if (ltb (length bytes) 240) _ _ (λ e. Yields-ok cookie_missing)
      λ e.
        Yields-bind (sub_slice bytes 236 240) _
          (Yields-sub_slice bytes 236 240 (omega arith) (ground arith))
          λ v ev.
            Yields-if (not (bytes_eq v magic_cookie)) _ _ (λ f. Yields-ok cookie_missing)
              λ f.
                Yields-bind (sub_slice bytes 240 (length bytes)) _
                  (Yields-sub_slice bytes 240 (length bytes) (ground arith) (omega arith))
                  λ area ea.
                    Yields-bind (options_text area) _ (options_text-IsBlock area)
                      λ text k. Yields-ok (vendor_title text k)

IsLog-behind : {a b : Bytes} → IsLog a → IsBlock b → IsLog (a ++ b)
IsLog-behind {a} {b} h k =
    let both = IsBlock-append (record { lines = h.lines; shown = refl; clean = h.clean }) k in
    record {
      head = h.head;
      lines = both.lines;
      shown =
          ap (λ (t : Bytes). h.head ++ t) both.shown
          ∙ sym (append_assoc h.head (relay_lines h.lines) b)
          ∙ ap (λ (t : Bytes). t ++ b) h.shown;
      head_clean = h.head_clean;
      clean = both.clean;
    }

-- The log of a datagram is written for every byte string, without a panic and with enough fuel, as
-- lines of visible ASCII; and each line starts with one of the texts of the program that `IsStart`
-- lists. There is no control character in the log but the line breaks in front of these texts.
pub dhcp_packet_dump-IsLog : (bytes : Bytes) → Yields IsLog (dhcp_packet_dump bytes)
unfolding dhcp_packet_dump
dhcp_packet_dump-IsLog bytes =
    Yields-if (ltb (length bytes) 236) _ _
      (λ e. Yields-ok (record {
        head = ascii "Malformed BOOTP/DHCP payload, length " ++ decimal (length bytes);
        lines = [];
        shown = append-nil _;
        head_clean = started too_short (decimal-IsLine (length bytes));
        clean = tt;
      }))
      λ e. Yields-bind (header_text bytes) _ (header_text-IsLog bytes (ground arith)) λ header h.
        Yields-bind (vendor_text bytes) _ (vendor_text-IsBlock bytes)
          λ vendor k. Yields-ok (IsLog-behind h k)
