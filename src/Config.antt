-- ===== src/Config.antt =====
-- src/config.rs: the configuration that `toml` and `serde` fill.
pub mod Address
pub mod Route
pub mod Names
pub mod Validate
use macmapd.Base.{
  ℕ, Bool, true, false, Option, none, some, List, [], ◌∷◌, Bytes, ascii, bytes_eq, if◌then◌else◌,
}
use macmapd.Net.{Ipv4Addr}

pub data LogFormat : Type 0 where
  json text : LogFormat

pub record LoggingConfig : Type 0 where
  pub level : Bytes
  pub format : LogFormat
  pub disable_timestamp : Bool
  pub color : Bool
  pub dhcp_packet_debug : Bool

-- `LoggingConfig::default`.
abbrev pub default_logging : LoggingConfig
default_logging = record {
  level = ascii "info";
  format = json;
  disable_timestamp = false;
  color = true;
  dhcp_packet_debug = false;
}

pub record DhcpConfig : Type 0 where
  pub listen_ip : Ipv4Addr
  pub server_identifier : Option Ipv4Addr
  pub lease_seconds : ℕ

-- Of the socket address the program reads the port alone.
pub record HttpConfig : Type 0 where
  pub listen_port : ℕ

pub record ClientOptions : Type 0 where
  pub dns : List Ipv4Addr
  pub ntp : List Ipv4Addr
  pub timezone : Bytes
  pub classless_routes : List Bytes

pub record BootFiles : Type 0 where
  pub bios_file : Option Bytes
  pub uefi_file : Option Bytes
  pub ipxe_file : Option Bytes

-- The map of architectures, in the order in which it is iterated.
abbrev pub Architectures : Type 0
Architectures = List (Bytes × BootFiles)

unfoldable pub get_files : Architectures → Bytes → Option BootFiles
unfolding bytes_eq
get_files [] name = none
get_files ((key, files) ∷ rest) name = if bytes_eq key name then some files else get_files rest name

pub record BootConfig : Type 0 where
  pub tftp_server : Ipv4Addr
  pub architectures : Architectures

pub record ClientsSource : Type 0 where
  pub url : Bytes
  pub poll_interval_seconds : ℕ
  pub timeout_seconds : ℕ
  pub state_file : Bytes

pub record Config : Type 0 where
  pub dhcp : DhcpConfig
  pub http : HttpConfig
  pub logging : LoggingConfig
  pub client_options : ClientOptions
  pub boot : BootConfig
  pub clients_source : ClientsSource

-- The messages of `ensure!` and `context`, in the order of the source.
pub data ConfigError : Type 0 where
  listen_ip server_identifier lease_seconds http_port logging_level : ConfigError
  poll_interval timeout url_scheme url state_file timezone dns_ntp no_routes : ConfigError
  tftp_server empty_architecture boot_filename : ConfigError
  route_syntax route_network route_prefix prefix_range host_bits : ConfigError
