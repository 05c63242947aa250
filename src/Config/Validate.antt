-- ===== src/Config/Validate.antt =====
-- `Config::validate` of src/config.rs.
pub mod Parts
pub mod Accepts
use macmapd.Base.{
  Bool, false, ◌&&◌, ◌||◌, not, Option, none, some, List, [], ◌∷◌, ◌++◌, Bytes, ascii, length,
  is_empty, any, leb, ltb, Result, ok, err, ◌>>=◌, ◌>>◌, ensure,
}
use macmapd.Text.{starts_with, starts_with_char, split_once}
use macmapd.Text.Utf8.{chars, is_control, is_whitespace}
use macmapd.Net.{Ipv4Addr, is_unspecified}
use macmapd.Config.{
  Config, ConfigError, BootFiles, Architectures, listen_ip, server_identifier, lease_seconds,
  http_port, logging_level, poll_interval, timeout, url_scheme, url, state_file, timezone, dns_ntp,
  no_routes, tftp_server, empty_architecture, boot_filename,
}
use macmapd.Config.Address.{is_unicast}
use macmapd.Config.Route.{parse_route}
use macmapd.Config.Names.{valid_timezone}

abbrev pub Check : Type 0
Check = Result ConfigError (Unit {0})

-- `if let Some(ip) = server_identifier { ensure!(…) }`.
unfoldable pub check_identifier : Option Ipv4Addr → Check
check_identifier none = ok tt
check_identifier (some ip) = ensure (is_unicast ip) server_identifier

unfoldable pub has_scheme : Bytes → Bool
has_scheme source = starts_with (ascii "https://") source || starts_with (ascii "http://") source

abbrev named_host : Option (Bytes × Bytes) → Bool
named_host none = false
named_host (some (scheme, host)) = not (is_empty host) && not (starts_with_char b'/' host)

unfoldable pub has_host : Bytes → Bool
has_host source =
    not (any is_whitespace (chars source)) && named_host (split_once (ascii "://") source)

unfoldable pub check_addresses : List Ipv4Addr → Check
check_addresses [] = ok tt
check_addresses (ip ∷ ips) = do ensure (is_unicast ip) dns_ntp; check_addresses ips

unfoldable pub check_routes : List Bytes → Check
check_routes [] = ok tt
check_routes (route ∷ routes) = do _ ← parse_route route; check_routes routes

unfoldable pub valid_file : Bytes → Bool
valid_file file = not (is_empty file) && leb (length file) 255 && not (any is_control (chars file))

abbrev pub check_file : Option Bytes → Check
check_file none = ok tt
check_file (some file) = ensure (valid_file file) boot_filename

unfoldable pub check_architectures : Architectures → Check
check_architectures [] = ok tt
check_architectures ((architecture, files) ∷ rest) = do
  ensure (not (is_empty architecture)) empty_architecture
  check_file files.bios_file
  check_file files.uefi_file
  check_file files.ipxe_file
  check_architectures rest

-- `tracing_subscriber::EnvFilter::try_new(level).is_ok()`.
module _ (valid_level : Bytes → Bool) where
  unfoldable pub validate : Config → Check
  validate config = do
    ensure (is_unspecified config.dhcp.listen_ip || is_unicast config.dhcp.listen_ip) listen_ip
    check_identifier config.dhcp.server_identifier
    ensure (ltb 0 config.dhcp.lease_seconds) lease_seconds
    ensure (ltb 0 config.http.listen_port) http_port
    ensure (valid_level config.logging.level) logging_level
    ensure (ltb 0 config.clients_source.poll_interval_seconds) poll_interval
    ensure (ltb 0 config.clients_source.timeout_seconds) timeout
    ensure (has_scheme config.clients_source.url) url_scheme
    ensure (has_host config.clients_source.url) url
    ensure (not (is_empty config.clients_source.state_file)) state_file
    ensure (valid_timezone config.client_options.timezone) timezone
    check_addresses (config.client_options.dns ++ config.client_options.ntp)
    ensure (not (is_empty config.client_options.classless_routes)) no_routes
    check_routes config.client_options.classless_routes
    ensure (is_unicast config.boot.tftp_server) tftp_server
    check_architectures config.boot.architectures
