-- ===== src/Config/Validate/Accepts.antt =====
-- The configurations that `Config::validate` of src/config.rs accepts.
use macmapd.Base.{
  ℕ, ◌<◌, ◌≡◌, ◌↔◌, ◌⊎◌, Bool, true, false, ◌||◌, some, List, [], ◌∷◌, ◌++◌, Bytes, All, is_empty,
  ltb, ltb→lt, lt→ltb, ok, arith,
}
use macmapd.Net.{Ipv4Addr, is_unspecified}
use macmapd.Config.{Config}
use macmapd.Config.Address.{is_unicast}
use macmapd.Config.Names.{valid_timezone}
use macmapd.Config.Validate.{validate, has_scheme, has_host}
use macmapd.Config.Validate.Parts.{
  IsRoute, IsBootEntry, ensure_iff, both_iff, iff_trans, not_iff, check_identifier_iff,
  check_addresses_iff, check_routes_iff, check_architectures_iff,
}

abbrev AllUnicast : List Ipv4Addr → Type 0
AllUnicast = All (λ ip. is_unicast ip ≡ true)

pub record IsValid (valid_level : Bytes → Bool) (c : Config) : Type 0 where
  pub listen : (is_unspecified c.dhcp.listen_ip ≡ true) ⊎ (is_unicast c.dhcp.listen_ip ≡ true)
  pub identifier : (ip : Ipv4Addr) → c.dhcp.server_identifier ≡ some ip → is_unicast ip ≡ true
  pub lease : 0 < c.dhcp.lease_seconds
  pub port : 0 < c.http.listen_port
  pub level : valid_level c.logging.level ≡ true
  pub interval : 0 < c.clients_source.poll_interval_seconds
  pub timeout : 0 < c.clients_source.timeout_seconds
  pub scheme : has_scheme c.clients_source.url ≡ true
  pub host : has_host c.clients_source.url ≡ true
  pub state_file : is_empty c.clients_source.state_file ≡ false
  pub timezone : valid_timezone c.client_options.timezone ≡ true
  pub dns : AllUnicast c.client_options.dns
  pub ntp : AllUnicast c.client_options.ntp
  pub some_route : is_empty c.client_options.classless_routes ≡ false
  pub routes : All IsRoute c.client_options.classless_routes
  pub tftp : is_unicast c.boot.tftp_server ≡ true
  pub architectures : All IsBootEntry c.boot.architectures

or_iff : (a b : Bool) → ((a || b) ≡ true) ↔ ((a ≡ true) ⊎ (b ≡ true))
or_iff a b = ground arith

ltb_iff : (a b : ℕ) → (ltb a b ≡ true) ↔ (a < b)
ltb_iff a b = (ltb→lt a b, lt→ltb a b)

All-append_iff : (xs ys : List Ipv4Addr) → AllUnicast (xs ++ ys) ↔ (AllUnicast xs × AllUnicast ys)
All-append_iff [] ys = (λ h. (tt, h), λ h. h.1)
All-append_iff (x ∷ xs) ys =
    let (to, from) = All-append_iff xs ys in
    (λ h. ((h.0, (to h.1).0), (to h.1).1), λ h. (h.0.0, from (h.0.1, h.1)))

-- A configuration is accepted exactly when every one of the listed conditions holds: the listen
-- address is the wildcard or unicast, the server identifier (if any), the DNS, NTP and TFTP
-- addresses are unicast, the lease, port, interval and timeout are positive, the log level, URL,
-- state file and timezone are well formed, there is a route and all routes parse, and every
-- architecture has a name and printable boot file names of 1 to 255 bytes.
pub validate_iff :
    (valid_level : Bytes → Bool) (c : Config)
    → (validate valid_level c ≡ ok tt) ↔ IsValid valid_level c
unfolding validate
validate_iff valid_level c =
    iff_trans
      (both_iff (iff_trans (ensure_iff _ _) (or_iff _ _)) (
        both_iff (check_identifier_iff c.dhcp.server_identifier) (
          both_iff (iff_trans (ensure_iff _ _) (ltb_iff 0 _)) (
            both_iff (iff_trans (ensure_iff _ _) (ltb_iff 0 _)) (
              both_iff (ensure_iff _ _) (
                both_iff (iff_trans (ensure_iff _ _) (ltb_iff 0 _)) (
                  both_iff (iff_trans (ensure_iff _ _) (ltb_iff 0 _)) (
                    both_iff (ensure_iff _ _) (
                      both_iff (ensure_iff _ _) (
                        both_iff (iff_trans (ensure_iff _ _) (not_iff _)) (
                          both_iff (ensure_iff _ _) (
                            both_iff (iff_trans (check_addresses_iff _) (All-append_iff _ _)) (
                              both_iff (iff_trans (ensure_iff _ _) (not_iff _)) (
                                both_iff (check_routes_iff _) (
                                  both_iff (ensure_iff _ _)
                                    (check_architectures_iff _))))))))))))))))
      (
        λ h. record {
          listen = h.0;
          identifier = h.1.0;
          lease = h.1.1.0;
          port = h.1.1.1.0;
          level = h.1.1.1.1.0;
          interval = h.1.1.1.1.1.0;
          timeout = h.1.1.1.1.1.1.0;
          scheme = h.1.1.1.1.1.1.1.0;
          host = h.1.1.1.1.1.1.1.1.0;
          state_file = h.1.1.1.1.1.1.1.1.1.0;
          timezone = h.1.1.1.1.1.1.1.1.1.1.0;
          dns = h.1.1.1.1.1.1.1.1.1.1.1.0.0;
          ntp = h.1.1.1.1.1.1.1.1.1.1.1.0.1;
          some_route = h.1.1.1.1.1.1.1.1.1.1.1.1.0;
          routes = h.1.1.1.1.1.1.1.1.1.1.1.1.1.0;
          tftp = h.1.1.1.1.1.1.1.1.1.1.1.1.1.1.0;
          architectures = h.1.1.1.1.1.1.1.1.1.1.1.1.1.1.1;
        },
        λ h. (
          h.listen,
          (
            h.identifier,
            (
              h.lease,
              (
                h.port,
                (
                  h.level,
                  (
                    h.interval,
                    (
                      h.timeout,
                      (
                        h.scheme,
                        (
                          h.host,
                          (
                            h.state_file,
                            (
                              h.timezone,
                              (
                                (h.dns, h.ntp),
                                (h.some_route, (h.routes, (h.tftp, h.architectures))),
                              ),
                            ),
                          ),
                        ),
                      ),
                    ),
                  ),
                ),
              ),
            ),
          ),
        ),
      )
