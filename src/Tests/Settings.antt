-- ===== src/Tests/Settings.antt =====
-- The theorems on src/config.rs, at a configuration and a route.
use macmapd.Base.{
  ◌≡◌, ◌↔◌, ◌-◌, ◌*◌, ◌/◌, ◌^◌, refl, Bool, true, [], some, ◌∷◌, ◌++◌, Bytes, All, ok, ◌>>=◌,
  ensure, context, bit_and, ascii, arith,
}
use macmapd.Net.{Ipv4Addr}
use macmapd.Net.Display.{display}
use macmapd.Net.Parse.{parse_ipv4, parse_octet}
use macmapd.Text.{
  parse_u8, digits_value, from_str_radix, is_ascii_digit, split, split_once, starts_with,
  starts_with_char, to_digit,
}
use macmapd.Text.Decimal.{decimal}
use macmapd.Config.Address.{prefix_mask, and-prefix_mask}
use macmapd.Config.Route.{parse_route}
use macmapd.Config.Route.Laws.{IsNetwork, parse_route-display}
use macmapd.Config.Validate.{validate}
use macmapd.Config.Validate.Parts.{IsRoute}
use macmapd.Config.Validate.Accepts.{IsValid, validate_iff}
use macmapd.Dhcp.Reply.Body.{encode_routes, checked_mask}
use macmapd.Dhcp.Reply.Routes.{descriptors, encode_routes-descriptors, checked_mask-prefix_mask}
use macmapd.Dhcp.Dump.{classless_routes, join}
use macmapd.Dhcp.Dump.Routes.{texts, classless_routes-descriptors}
use macmapd.Tests.Samples.{gateway_ip, sample_config}

abbrev any_level : Bytes → Bool
any_level level = true

validate_iff_example : (validate any_level sample_config ≡ ok tt) ↔ IsValid any_level sample_config
validate_iff_example = validate_iff any_level sample_config

abbrev ten : Ipv4Addr
ten = record { a = 10; b = 0; c = 0; d = 0 }

ten-reads : parse_route (ascii "10.0.0.0/8") ≡ ok (ten, 8)
unfolding parse_route ◌>>=◌ ensure context split_once parse_ipv4 parse_octet parse_u8 digits_value
    from_str_radix is_ascii_digit split starts_with starts_with_char to_digit prefix_mask
ten-reads = refl

ten-IsNetwork : IsNetwork ten 8
ten-IsNetwork = record {
  is_addr = record {
    a_byte = omega arith;
    b_byte = omega arith;
    c_byte = omega arith;
    d_byte = omega arith;
  };
  least = omega arith;
  most = omega arith;
  no_host_bits = refl;
}

parse_route-display_example : parse_route (display ten ++ b'/' ∷ decimal 8) ≡ ok (ten, 8)
parse_route-display_example = parse_route-display ten 8 ten-IsNetwork

ten_routes : All IsRoute (ascii "10.0.0.0/8" ∷ [])
ten_routes = (record { net = ten; prefix = 8; reads = ten-reads }, tt)

encode_routes-descriptors_example :
    encode_routes (ascii "10.0.0.0/8" ∷ []) gateway_ip (7 ∷ [])
    ≡ ok ((7 ∷ []) ++ descriptors (ascii "10.0.0.0/8" ∷ []) ten_routes gateway_ip)
encode_routes-descriptors_example =
    encode_routes-descriptors (ascii "10.0.0.0/8" ∷ []) gateway_ip (7 ∷ []) ten_routes

checked_mask-prefix_mask_example : checked_mask 24 ≡ prefix_mask 24
checked_mask-prefix_mask_example = checked_mask-prefix_mask 24 (omega arith)

and-prefix_mask_example :
    bit_and 3232235777 (prefix_mask 24) ≡ 3232235777 / 2 ^ (32 - 24) * 2 ^ (32 - 24)
and-prefix_mask_example = and-prefix_mask 3232235777 24 (omega arith) (omega arith)

abbrev ten_value : Bytes
ten_value = descriptors (ascii "10.0.0.0/8" ∷ []) ten_routes gateway_ip

classless_routes-descriptors_example :
    classless_routes ten_value
    ≡ some (join (ascii ", ") (texts (ascii "10.0.0.0/8" ∷ []) ten_routes gateway_ip))
classless_routes-descriptors_example =
    classless_routes-descriptors (ascii "10.0.0.0/8" ∷ []) gateway_ip ten_routes ten_value
      (encode_routes-descriptors (ascii "10.0.0.0/8" ∷ []) gateway_ip [] ten_routes)
