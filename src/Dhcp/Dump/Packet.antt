-- ===== src/Dhcp/Dump/Packet.antt =====
-- `dhcp_packet_dump` of src/dhcp.rs: the text of a whole datagram in the packet log.
use macmapd.Base.{
  ℕ, zero, suc, ◌+◌, min, not, List, [], ◌∷◌, ◌++◌, Bytes, length, is_empty, drop, take, ltb, leb,
  ◌==◌, ascii, bytes_eq, if◌then◌else◌, ok, stuck, ◌>>=◌, index, sub_slice, bit_and,
}
use macmapd.Text.{split}
use macmapd.Text.Decimal.{decimal}
use macmapd.Net.{Ipv4Addr, is_unspecified}
use macmapd.Net.Display.{display}
use macmapd.Dhcp.Parse.{magic_cookie}
use macmapd.Dhcp.Dump.Values.{
  Logged, format_mac, format_xid, option_name, option_value, printable, be16_of, be32_of,
  relay_information,
}

-- `write!(out, "\n{line}")`.
abbrev pub line : Bytes → Bytes
line text = 10 ∷ text

abbrev pub op_name : ℕ → Bytes
op_name op = if op == 1 then ascii "Request" else if op == 2 then ascii "Reply" else ascii "Unknown"

abbrev pub flags_name : ℕ → Bytes
flags_name flags = if bit_and flags 0x8000 == 0 then ascii "none" else ascii "Broadcast"

-- The first line.
unfoldable pub title : Bytes → Logged Bytes
title bytes = do
  op ← index bytes 0
  xid_bytes ← sub_slice bytes 4 8
  xid ← be32_of xid_bytes
  seconds_bytes ← sub_slice bytes 8 10
  seconds ← be16_of seconds_bytes
  flags_bytes ← sub_slice bytes 10 12
  flags ← be16_of flags_bytes
  hops ← index bytes 3
  ok (
      ascii "BOOTP/DHCP, "
      ++ (op_name op
          ++ (ascii ", length "
              ++ (decimal (length bytes)
                  ++ (ascii ", hops "
                      ++ (decimal hops
                          ++ (ascii ", xid "
                              ++ (format_xid xid
                                  ++ (ascii ", secs "
                                      ++ (decimal seconds
                                          ++ (ascii ", Flags ["
                                              ++ (flags_name flags ++ ascii "]"))))))))))))

-- An address of the header, unless it is 0.0.0.0.
unfoldable pub address_line : Bytes → Bytes → ℕ → Logged Bytes
address_line bytes name offset = do
  a ← index bytes offset
  b ← index bytes (offset + 1)
  c ← index bytes (offset + 2)
  d ← index bytes (offset + 3)
  let ip : Ipv4Addr = record { a = a; b = b; c = c; d = d }
  ok (if is_unspecified ip then [] else line (ascii "  " ++ (name ++ (b' ' ∷ display ip))))

unfoldable pub mac_line : Bytes → Logged Bytes
mac_line bytes = do
  hlen ← index bytes 2
  mac ← sub_slice bytes 28 (28 + min hlen 16)
  ok (line (ascii "  Client-Ethernet-Address " ++ format_mac mac))

-- `field.split(|byte| *byte == 0).next().unwrap_or_default()`.
abbrev pub first_of : List Bytes → Bytes
first_of [] = []
first_of (text ∷ texts) = text

-- A text of the header, unless it is empty.
unfoldable pub text_line : Bytes → Bytes → ℕ → ℕ → Logged Bytes
text_line bytes name from to = do
  field ← sub_slice bytes from to
  let text = first_of (split 0 field)
  ok (
      if is_empty text
      then []
      else line (ascii "  " ++ (name ++ (ascii " \"" ++ (printable text ++ ascii "\"")))))

abbrev pub relay_lines : List Bytes → Bytes
relay_lines [] = []
relay_lines (text ∷ texts) = line text ++ relay_lines texts

unfoldable pub option_line : ℕ → Bytes → Bytes → Bytes
option_line code value text = line (
    ascii "    "
    ++ (option_name code
        ++ (ascii " Option "
            ++ (decimal code
                ++ (ascii ", length " ++ (decimal (length value) ++ (ascii ": " ++ text)))))))

-- One option.
unfoldable pub option_lines : ℕ → Bytes → Logged Bytes
option_lines code value = do
  text ← option_value code value
  relay ← if code == 82 then relay_information value else ok []
  ok (option_line code value text ++ relay_lines relay)

unfoldable pub missing_length : ℕ → Bytes
missing_length code =
    line (ascii "    Malformed Option " ++ (decimal code ++ ascii ": missing length"))

unfoldable pub truncated : ℕ → ℕ → Bytes
truncated code len =
    line (ascii "    Malformed Option " ++ (decimal code ++ (ascii ", length " ++ decimal len)))

-- An option behind its code; `next` is the loop, which goes on behind it.
unfoldable pub value_text : (Bytes → Logged Bytes) → ℕ → Bytes → Logged Bytes
value_text next code [] = ok (missing_length code)
value_text next code (len ∷ rest) =
    if leb len (length rest)
    then (do
      text ← option_lines code (take len rest)
      more ← next (drop len rest)
      ok (text ++ more))
    else ok (truncated code len)

-- The loop over `bytes[position..]`; each round takes a byte at least.
unfoldable pub options_loop : ℕ → Bytes → Logged Bytes
unfolding value_text
options_loop fuel [] = ok []
options_loop zero (code ∷ rest) = stuck
options_loop (suc fuel) (code ∷ rest) =
    let pad = options_loop fuel rest in
    let value = value_text (options_loop fuel) code rest in
    if code == 255 then ok [] else if code == 0 then pad else value

unfoldable pub options_text : Bytes → Logged Bytes
unfolding options_loop
options_text area = options_loop (length area) area

-- What follows the fixed fields.
unfoldable pub vendor_text : Bytes → Logged Bytes
vendor_text bytes =
    let cookie = (do
      field ← sub_slice bytes 236 240
      if not (bytes_eq field magic_cookie)
          then ok (line (ascii "  No RFC1048 magic cookie"))
          else (do
            area ← sub_slice bytes 240 (length bytes)
            text ← options_text area
            ok (
                line (ascii "  Vendor-rfc1048 Extensions")
                ++ (line (ascii "    Magic Cookie 0x63825363") ++ text)))) in
    if ltb (length bytes) 240 then ok (line (ascii "  No RFC1048 magic cookie")) else cookie

-- The fixed fields.
unfoldable pub header_text : Bytes → Logged Bytes
header_text bytes = do
  head ← title bytes
  client ← address_line bytes (ascii "Client-IP") 12
  your ← address_line bytes (ascii "Your-IP") 16
  server ← address_line bytes (ascii "Server-IP") 20
  gateway ← address_line bytes (ascii "Gateway-IP") 24
  mac ← mac_line bytes
  name ← text_line bytes (ascii "Server-Name") 44 108
  file ← text_line bytes (ascii "Bootfile-Name") 108 236
  ok (head ++ (client ++ (your ++ (server ++ (gateway ++ (mac ++ (name ++ file)))))))

unfoldable pub dhcp_packet_dump : Bytes → Logged Bytes
unfolding header_text vendor_text
dhcp_packet_dump bytes =
    let whole = (do
      header ← header_text bytes
      vendor ← vendor_text bytes
      ok (header ++ vendor)) in
    if ltb (length bytes) 236
    then ok (ascii "Malformed BOOTP/DHCP payload, length " ++ decimal (length bytes))
    else whole
