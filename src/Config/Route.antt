-- ===== src/Config/Route.antt =====
-- `parse_route` of src/config.rs.
pub mod Laws
use macmapd.Base.{
  ℕ, ◌≡◌, ◌&&◌, Bytes, ascii, leb, ◌==◌, bit_and, Result, ok, ◌>>=◌, ◌>>◌, ensure, context,
}
use macmapd.Text.{split_once, parse_u8}
use macmapd.Net.{Ipv4Addr, to_u32}
use macmapd.Net.Parse.{parse_ipv4}
use macmapd.Config.{ConfigError, route_syntax, route_network, route_prefix, prefix_range, host_bits}
use macmapd.Config.Address.{prefix_mask, not32}

unfoldable pub parse_route : Bytes → Result ConfigError (Ipv4Addr × ℕ)
parse_route route = do
  (network_text, prefix_text) ← context (split_once (ascii "/") route) route_syntax
  network ← context (parse_ipv4 network_text) route_network
  prefix ← context (parse_u8 prefix_text) route_prefix
  ensure (leb 1 prefix && leb prefix 32) prefix_range
  ensure (bit_and (to_u32 network) (not32 (prefix_mask prefix)) == 0) host_bits
  ok (network, prefix)
