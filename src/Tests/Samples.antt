-- ===== src/Tests/Samples.antt =====
-- Test data: a configuration, a client, and requests of that client to the servers of src/.
use macmapd.Base.{
  ℕ, Option, none, some, List, [], ◌∷◌, Bytes, ascii, replicate, if◌then◌else◌, ◌==◌,
}
use macmapd.Net.{Ipv4Addr, unspecified}
use macmapd.Config.{Config, BootFiles, default_logging}
use macmapd.Clients.{Client}
use macmapd.Dhcp.{Packet}

abbrev pub server_ip : Ipv4Addr
server_ip = record { a = 10; b = 0; c = 0; d = 2 }

abbrev pub client_ip : Ipv4Addr
client_ip = record { a = 10; b = 0; c = 0; d = 5 }

abbrev pub gateway_ip : Ipv4Addr
gateway_ip = record { a = 10; b = 0; c = 0; d = 1 }

abbrev pub sample_mac : Bytes
sample_mac = 2 ∷ 0 ∷ 0 ∷ 0 ∷ 0 ∷ 1 ∷ []

abbrev pub sample_client : Client
sample_client = record {
  location = ascii "r1";
  mac = sample_mac;
  boot_type = ascii "bios";
  hostname = ascii "h1";
  domain = ascii "d";
  mtu = 1500;
  ip = client_ip;
  prefix_length = 24;
  gateway = gateway_ip;
}

abbrev pub sample_row : List Bytes
sample_row =
    ascii "r1"
    ∷ ascii "h1"
    ∷ ascii "d"
    ∷ ascii "bios"
    ∷ ascii "1500"
    ∷ ascii "02:00:00:00:00:01"
    ∷ ascii "10.0.0.5"
    ∷ ascii "24"
    ∷ ascii "10.0.0.1"
    ∷ []

abbrev pub sample_files : BootFiles
sample_files = record { bios_file = some (ascii "b"); uefi_file = none; ipxe_file = none }

abbrev pub sample_config : Config
sample_config = record {
  dhcp = record {
    listen_ip = unspecified;
    server_identifier = some server_ip;
    lease_seconds = 3600;
  };
  http = record { listen_port = 8080 };
  logging = default_logging;
  client_options = record {
    dns = server_ip ∷ [];
    ntp = [];
    timezone = ascii "UTC";
    classless_routes = ascii "10.0.0.0/8" ∷ [];
  };
  boot = record { tftp_server = server_ip; architectures = (ascii "x86_64", sample_files) ∷ [] };
  clients_source = record {
    url = ascii "http://a";
    poll_interval_seconds = 60;
    timeout_seconds = 5;
    state_file = ascii "s";
  };
}

-- A DHCPREQUEST of the client in the state SELECTING, with a wish for classless routes.
abbrev pub sample_options : ℕ → Option Bytes
sample_options code =
    if code == 53
    then some (3 ∷ [])
    else if code == 50
    then some (10 ∷ 0 ∷ 0 ∷ 5 ∷ [])
    else if code == 54
    then some (10 ∷ 0 ∷ 0 ∷ 2 ∷ [])
    else if code == 55
    then some (121 ∷ [])
    else none

abbrev pub sample_header : Bytes
sample_header =
    1
    ∷ 1
    ∷ 6
    ∷ 0
    ∷ 1
    ∷ 2
    ∷ 3
    ∷ 4
    ∷ 0
    ∷ 0
    ∷ 0
    ∷ 0
    ∷ 0
    ∷ 0
    ∷ 0
    ∷ 0
    ∷ 0
    ∷ 0
    ∷ 0
    ∷ 0
    ∷ 0
    ∷ 0
    ∷ 0
    ∷ 0
    ∷ 0
    ∷ 0
    ∷ 0
    ∷ 0
    ∷ 2
    ∷ 0
    ∷ 0
    ∷ 0
    ∷ 0
    ∷ 1
    ∷ replicate 202 0

abbrev pub sample_request : Packet
sample_request = record {
  header = sample_header;
  options = sample_options;
  mac = sample_mac;
  message = 3;
  ciaddr = unspecified;
  giaddr = unspecified;
}
