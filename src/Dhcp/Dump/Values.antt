-- ===== src/Dhcp/Dump/Values.antt =====
-- The values of options in the packet log of src/dhcp.rs: `format_mac` to `ipv4_values`,
-- `option_value` and `relay_information`.
use macmapd.Base.{
  ℕ, zero, suc, ◌+◌, ◌-◌, ◌/◌, ◌%◌, ◌^◌, Bool, ◌&&◌, Option, none, some, List, [], ◌∷◌, ◌++◌, Bytes,
  map, length, any, drop, ltb, leb, ◌==◌, ascii, bytes_eq, from_be16, from_be32, if◌then◌else◌,
  Result, ok, panic, stuck, false, take, ◌>>=◌, index, sub_slice,
}
use macmapd.Text.{to_ascii_uppercase}
use macmapd.Text.Decimal.{decimal}
use macmapd.Net.{Ipv4Addr}
use macmapd.Net.Display.{display}
use macmapd.Dhcp.{message_name}
use macmapd.Dhcp.Dump.{join, classless_routes}

-- The code of the log has no error results.
abbrev pub Logged : Type 0 → Type 0
Logged A = Result ⊥ A

abbrev pub hex_digit : ℕ → ℕ
hex_digit n = if ltb n 10 then b'0' + n else b'a' + (n - 10)

-- `format!("{byte:02x}")`.
unfoldable pub hex2 : ℕ → Bytes
hex2 byte = hex_digit (byte / 16 % 16) ∷ hex_digit (byte % 16) ∷ []

-- `bytes.iter().map(|v| format!("{v:02x}")).collect::<Vec<_>>().join(":")`.
unfoldable pub format_mac : Bytes → Bytes
unfolding hex2 join
format_mac mac = join (b':' ∷ []) (map hex2 mac)

unfoldable pub format_xid : ℕ → Bytes
unfolding hex2
format_xid xid =
    ascii "0x" ++ (hex2 (xid / 2 ^ 24) ++ (hex2 (xid / 2 ^ 16) ++ (hex2 (xid / 256) ++ hex2 xid)))

-- The arms of `option_name`.
abbrev pub option_names : List (ℕ × Bytes)
option_names =
    (1, ascii "Subnet-Mask")
    ∷ (2, ascii "Time-Zone")
    ∷ (3, ascii "Default-Gateway")
    ∷ (6, ascii "Domain-Name-Server")
    ∷ (12, ascii "Hostname")
    ∷ (15, ascii "Domain-Name")
    ∷ (26, ascii "MTU")
    ∷ (28, ascii "Broadcast-Address")
    ∷ (42, ascii "NTP")
    ∷ (50, ascii "Requested-IP")
    ∷ (51, ascii "Lease-Time")
    ∷ (52, ascii "Option-Overload")
    ∷ (53, ascii "DHCP-Message")
    ∷ (54, ascii "Server-ID")
    ∷ (55, ascii "Parameter-Request")
    ∷ (57, ascii "MSZ")
    ∷ (58, ascii "Renewal-Time")
    ∷ (59, ascii "Rebinding-Time")
    ∷ (60, ascii "Vendor-Class")
    ∷ (61, ascii "Client-ID")
    ∷ (66, ascii "TFTP-Server-Name")
    ∷ (67, ascii "Bootfile-Name")
    ∷ (77, ascii "User-Class")
    ∷ (82, ascii "Agent-Information")
    ∷ (93, ascii "Client-System-Architecture")
    ∷ (101, ascii "TZDB-Timezone")
    ∷ (119, ascii "Domain-Search")
    ∷ (121, ascii "Classless-Static-Route")
    ∷ (249, ascii "Classless-Static-Route-Microsoft")
    ∷ (252, ascii "Proxy-Autodiscovery")
    ∷ []

abbrev pub name_in : ℕ → List (ℕ × Bytes) → Bytes
name_in code [] = ascii "Option"
name_in code ((known, name) ∷ names) = if code == known then name else name_in code names

unfoldable pub option_name : ℕ → Bytes
option_name code = name_in code option_names

abbrev pub printed : ℕ → Bytes
printed byte =
    if byte == 0
    then ascii "^@"
    else if leb 0x20 byte && leb byte 0x7e
    then byte ∷ []
    else b'\\' ∷ b'x' ∷ hex2 byte

unfoldable pub printable : Bytes → Bytes
printable [] = []
printable (byte ∷ bytes) = printed byte ++ printable bytes

-- `value.as_chunks::<4>().0` as addresses.
unfoldable pub addresses : Bytes → List Ipv4Addr
addresses (a ∷ b ∷ c ∷ d ∷ rest) = record { a = a; b = b; c = c; d = d } ∷ addresses rest
addresses _ = []

unfoldable pub ipv4_values : Bytes → Option Bytes
unfolding addresses join
ipv4_values [] = none
ipv4_values (a ∷ rest) =
    if length (a ∷ rest) % 4 == 0
    then some (join (ascii ", ") (map display (addresses (a ∷ rest))))
    else none

-- `value.as_chunks::<2>().0` as numbers.
unfoldable pub words : Bytes → List ℕ
words (a ∷ b ∷ rest) = from_be16 a b ∷ words rest
words _ = []

-- `from_be_bytes(value.try_into().unwrap())`.
unfoldable pub be16_of : Bytes → Logged ℕ
be16_of (a ∷ b ∷ []) = ok (from_be16 a b)
be16_of _ = panic

unfoldable pub be32_of : Bytes → Logged ℕ
be32_of (a ∷ b ∷ c ∷ d ∷ []) = ok (from_be32 a b c d)
be32_of _ = panic

-- `i32::to_string` of the number with this bit pattern.
unfoldable pub signed : ℕ → Bytes
signed n = if ltb n (2 ^ 31) then decimal n else b'-' ∷ decimal (2 ^ 32 - n)

abbrev pub or_printable : Option Bytes → Bytes → Bytes
or_printable none value = printable value
or_printable (some text) value = text

-- One entry of option 55.
unfoldable pub requested_name : ℕ → Bytes
unfolding bytes_eq option_name
requested_name code =
    let name = option_name code in
    if bytes_eq name (ascii "Option") then ascii "Option " ++ decimal code else name

abbrev pub is_one_of : List ℕ → ℕ → Bool
is_one_of codes code = any (λ k. k == code) codes

unfoldable pub ether : Bytes → Logged Bytes
ether value = do mac ← sub_slice value 1 (length value); ok (ascii "ether " ++ format_mac mac)

abbrev pub starts_with_one : Bytes → Bool
starts_with_one [] = false
starts_with_one (byte ∷ bytes) = byte == 1

unfoldable pub option_value : ℕ → Bytes → Logged Bytes
unfolding ipv4_values printable be32_of be16_of requested_name ether words classless_routes
option_value code value =
    if is_one_of (1 ∷ 3 ∷ 6 ∷ 28 ∷ 42 ∷ 50 ∷ 54 ∷ []) code
    then ok (or_printable (ipv4_values value) value)
    else if is_one_of (12 ∷ 15 ∷ 60 ∷ 66 ∷ 67 ∷ 77 ∷ 101 ∷ 252 ∷ []) code
    then ok (b'"' ∷ (printable value ++ b'"' ∷ []))
    else if code == 2 && length value == 4
    then (do n ← be32_of value; ok (signed n))
    else if is_one_of (26 ∷ 57 ∷ []) code && length value == 2
    then (do n ← be16_of value; ok (decimal n))
    else if is_one_of (51 ∷ 58 ∷ 59 ∷ []) code && length value == 4
    then (do n ← be32_of value; ok (decimal n))
    else if code == 53 && length value == 1
    then (do message ← index value 0; ok (to_ascii_uppercase (message_name message)))
    else if code == 55
    then ok (join (ascii ", ") (map requested_name value))
    else if code == 61 && length value == 7 && starts_with_one value
    then ether value
    else if code == 93 && length value % 2 == 0
    then ok (join (ascii ", ") (map decimal (words value)))
    else if is_one_of (121 ∷ 249 ∷ []) code
    then ok (or_printable (classless_routes value) value)
    else ok (printable value)

-- One suboption of option 82.
unfoldable pub suboption_name : ℕ → Bytes
suboption_name code =
    if code == 1
    then ascii "Circuit-ID"
    else if code == 2
    then ascii "Remote-ID"
    else ascii "SubOption"

unfoldable pub suboption_line : ℕ → Bytes → Bytes
suboption_line code value =
    ascii "      "
    ++ (suboption_name code
        ++ (ascii " SubOption "
            ++ (decimal code
                ++ (ascii ", length "
                    ++ (decimal (length value) ++ (ascii ": " ++ printable value))))))

-- The loop over `value[position..]`; each round takes two bytes at least.
unfoldable pub relay_loop : ℕ → Bytes → Logged (List Bytes)
relay_loop fuel [] = ok []
relay_loop zero (code ∷ rest) = stuck
relay_loop (suc fuel) (code ∷ []) = ok (ascii "Malformed relay suboption header" ∷ [])
relay_loop (suc fuel) (code ∷ len ∷ rest) =
    let next = relay_loop fuel (drop len rest) in
    if ltb (length rest) len
    then ok (
        (ascii "Malformed relay suboption " ++ (decimal code ++ (ascii ", length " ++ decimal len)))
        ∷ [])
    else (do lines ← next; ok (suboption_line code (take len rest) ∷ lines))

unfoldable pub relay_information : Bytes → Logged (List Bytes)
unfolding relay_loop
relay_information value = relay_loop (length value) value
