-- ===== src/Config/Validate/Parts.antt =====
-- The loops of `Config::validate` of src/config.rs.
use macmapd.Base.{
  ℕ, ◌≡◌, ◌↔◌, refl, Bool, true, false, not, Option, none, some, List, [], ◌∷◌, Bytes, All,
  is_empty, Result, ok, err, panic, stuck, ◌>>=◌, ◌>>◌, ensure, arith,
}
use macmapd.Net.{Ipv4Addr}
use macmapd.Config.{
  ConfigError, BootFiles, Architectures, dns_ntp, boot_filename, empty_architecture,
  server_identifier,
}
use macmapd.Config.Address.{is_unicast}
use macmapd.Config.Route.{parse_route}
use macmapd.Config.Validate.{
  Check, check_identifier, check_addresses, check_routes, valid_file, check_file,
  check_architectures,
}

-- A route that `parse_route` reads.
pub record IsRoute (route : Bytes) : Type 0 where
  pub net : Ipv4Addr
  pub prefix : ℕ
  pub reads : parse_route route ≡ ok (net, prefix)

abbrev pub IsFile : Option Bytes → Type 0
IsFile none = Unit
IsFile (some file) = valid_file file ≡ true

pub record IsBootEntry (entry : Bytes × BootFiles) : Type 0 where
  pub named : is_empty entry.0 ≡ false
  pub bios : IsFile entry.1.bios_file
  pub uefi : IsFile entry.1.uefi_file
  pub ipxe : IsFile entry.1.ipxe_file

-- An `ensure!` at the end.
pub ensure_iff : {E : Type 0} (t : Bool) (e : E) → (ensure t e ≡ ok tt) ↔ (t ≡ true)
unfolding ensure
ensure_iff true e = (λ _. refl, λ _. refl)
ensure_iff false e = (λ h. cc, λ h. cc)

-- Two checks in a row.
then_iff :
    {E : Type 0} (m k : Result E (Unit {0})) → ((m >> k) ≡ ok tt) ↔ ((m ≡ ok tt) × (k ≡ ok tt))
unfolding ◌>>=◌
then_iff (ok a) k = (λ h. (refl, h), λ h. h.1)
then_iff (err e) k = (λ h. cc, λ h. cc h.0)
then_iff panic k = (λ h. cc, λ h. cc h.0)
then_iff stuck k = (λ h. cc, λ h. cc h.0)

-- Two checks in a row, each with what it accepts.
pub both_iff :
    {E : Type 0} {m k : Result E (Unit {0})} {P Q : Type 0}
    → (m ≡ ok tt) ↔ P
    → (k ≡ ok tt) ↔ Q
    → ((m >> k) ≡ ok tt) ↔ (P × Q)
both_iff {m = m} {k} (to₁, from₁) (to₂, from₂) =
    let (to, from) = then_iff m k in
    (λ h. (to₁ (to h).0, to₂ (to h).1), λ h. from (from₁ h.0, from₂ h.1))

pub iff_trans : {P Q R : Type 0} → P ↔ Q → Q ↔ R → P ↔ R
iff_trans (to₁, from₁) (to₂, from₂) = (λ p. to₂ (to₁ p), λ r. from₁ (from₂ r))

pub check_identifier_iff :
    (o : Option Ipv4Addr)
    → (check_identifier o ≡ ok tt) ↔ ((ip : Ipv4Addr) → o ≡ some ip → is_unicast ip ≡ true)
unfolding check_identifier
check_identifier_iff none = (λ h ip e. cc, λ h. refl)
check_identifier_iff (some x) =
    let (to, from) = ensure_iff (is_unicast x) server_identifier in
    (λ h ip e. cc (to h), λ h. from (h x refl))

pub check_addresses_iff :
    (ips : List Ipv4Addr) → (check_addresses ips ≡ ok tt) ↔ All (λ ip. is_unicast ip ≡ true) ips
unfolding check_addresses
check_addresses_iff [] = (λ _. tt, λ _. refl)
check_addresses_iff (ip ∷ ips) =
    both_iff (ensure_iff (is_unicast ip) dns_ntp) (check_addresses_iff ips)

route_then :
    (route : Bytes) (k : Check) (r : Result ConfigError (Ipv4Addr × ℕ))
    → parse_route route ≡ r
    → ((r >>= λ _. k) ≡ ok tt) ↔ (IsRoute route × (k ≡ ok tt))
unfolding ◌>>=◌
route_then route k (ok (net, prefix)) e =
    (λ h. (record { net = net; prefix = prefix; reads = e }, h), λ h. h.1)
route_then route k (err x) e = (λ h. cc, λ h. cc (e, h.0.reads))
route_then route k panic e = (λ h. cc, λ h. cc (e, h.0.reads))
route_then route k stuck e = (λ h. cc, λ h. cc (e, h.0.reads))

pub check_routes_iff : (routes : List Bytes) → (check_routes routes ≡ ok tt) ↔ All IsRoute routes
unfolding check_routes
check_routes_iff [] = (λ _. tt, λ _. refl)
check_routes_iff (route ∷ routes) =
    let (to, from) = route_then route (check_routes routes) (parse_route route) refl in
    let (to₁, from₁) = check_routes_iff routes in
    (λ h. ((to h).0, to₁ (to h).1), λ h. from (h.0, from₁ h.1))

check_file_iff : (o : Option Bytes) → (check_file o ≡ ok tt) ↔ IsFile o
check_file_iff none = (λ _. tt, λ _. refl)
check_file_iff (some file) = ensure_iff (valid_file file) boot_filename

pub not_iff : (b : Bool) → (not b ≡ true) ↔ (b ≡ false)
not_iff b = ground arith

entry_iff :
    (name : Bytes) (files : BootFiles) (k : Check) {Q : Type 0}
    → (k ≡ ok tt) ↔ Q
    → ((do
      ensure (not (is_empty name)) empty_architecture
      check_file files.bios_file
      check_file files.uefi_file
      check_file files.ipxe_file
      k)
        ≡ ok tt)
      ↔ (IsBootEntry (name, files) × Q)
entry_iff name files k rest =
    iff_trans
      (both_iff (iff_trans (ensure_iff _ _) (not_iff (is_empty name))) (
        both_iff (check_file_iff files.bios_file) (
          both_iff (check_file_iff files.uefi_file)
            (both_iff (check_file_iff files.ipxe_file) rest))))
      (
        λ h. (record { named = h.0; bios = h.1.0; uefi = h.1.1.0; ipxe = h.1.1.1.0 }, h.1.1.1.1),
        λ h. (h.0.named, (h.0.bios, (h.0.uefi, (h.0.ipxe, h.1)))),
      )

pub check_architectures_iff :
    (entries : Architectures) → (check_architectures entries ≡ ok tt) ↔ All IsBootEntry entries
unfolding check_architectures
check_architectures_iff [] = (λ _. tt, λ _. refl)
check_architectures_iff ((name, files) ∷ rest) =
    entry_iff name files (check_architectures rest) (check_architectures_iff rest)
