-- ===== src/Tests/Wire.antt =====
-- The theorems on the options and the parser of src/dhcp.rs, at a datagram.
use macmapd.Base.{
  ◌≡◌, refl, [], ◌∷◌, ◌++◌, Bytes, ok, ◌>>=◌, ensure, context, index, sub_slice, replicate, take,
  drop, get_or, bytes_eq, Returns, arith, ascii, any,
}
use macmapd.Dhcp.{no_options, Packet}
use macmapd.Dhcp.Options.{read_options, read_loop, read_value}
use macmapd.Dhcp.Options.Fields.{Fields, encode_all, add_all, read_options-encode_all}
use macmapd.Dhcp.Parse.{Outcome, parse, magic_cookie, read_overload, check_options, read_ip}
use macmapd.Dhcp.Parse.Accepts.{IsPacket, parse-IsPacket, parse-Returns}
use macmapd.Dhcp.Stage.{is_ipxe}
use macmapd.Dhcp.Stage.Laws.{encode_classes, is_ipxe-encode_classes}
use macmapd.Tests.Samples.{sample_header}

abbrev pub datagram : Bytes
datagram = sample_header ++ (magic_cookie ++ (53 ∷ 1 ∷ 1 ∷ 255 ∷ []))

parse-Returns_example : Returns (parse datagram)
parse-Returns_example = parse-Returns datagram

abbrev packet_of : Outcome Packet → Packet
packet_of (ok p) = p
packet_of _ = record {
  header = [];
  options = no_options;
  mac = [];
  message = 0;
  ciaddr = record { a = 0; b = 0; c = 0; d = 0 };
  giaddr = record { a = 0; b = 0; c = 0; d = 0 };
}

abbrev parsed : Packet
parsed = packet_of (parse datagram)

datagram-parsed : parse datagram ≡ ok parsed
unfolding parse ◌>>=◌ ensure context index sub_slice replicate take drop get_or bytes_eq
    read_options read_loop read_value read_overload check_options read_ip
datagram-parsed = refl

parse-IsPacket_example : IsPacket parsed
parse-IsPacket_example = parse-IsPacket datagram parsed datagram-parsed

abbrev two_fields : Fields
two_fields = (53, 1 ∷ []) ∷ (12, replicate 300 97) ∷ []

read_options-encode_all_example :
    read_options (encode_all two_fields ++ (255 ∷ 0 ∷ [])) no_options
    ≡ ok (add_all no_options two_fields)
read_options-encode_all_example =
    read_options-encode_all two_fields (0 ∷ []) no_options
      ((ground arith, ground arith), ((ground arith, ground arith), tt))

is_ipxe-encode_classes_example :
    is_ipxe (encode_classes (ascii "x" ∷ ascii "iPXE" ∷ []))
    ≡ any (λ c. bytes_eq c (ascii "iPXE")) (ascii "x" ∷ ascii "iPXE" ∷ [])
is_ipxe-encode_classes_example = is_ipxe-encode_classes (ascii "x" ∷ ascii "iPXE" ∷ [])
