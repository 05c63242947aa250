-- ===== src/Clients/Row/Accepts.antt =====
-- The clients that `parse_client` of src/clients.rs accepts.
use macmapd.Base.{
  ◌≤◌, ◌≡◌, ◌⊎◌, true, false, ◌&&◌, ◌||◌, not, List, [], ◌∷◌, Bytes, ascii, bytes_eq, bytes_eq→eq,
  length, is_empty, leb, leb→le, ok, arith, and-eq-true,
}
use macmapd.Base.Ensures.{
  Ensures, Ensures-ok, Ensures-err, Ensures-ensure, Ensures-context, Ensures-bind,
}
use macmapd.Text.{parse_u8, parse_u16}
use macmapd.Text.Bounds.{parse_u16-le}
use macmapd.Net.Parse.{parse_ipv4}
use macmapd.Net.Bounds.{parse_ipv4-IsAddr}
use macmapd.Config.Names.{valid_hostname}
use macmapd.Clients.{Client, field_count}
use macmapd.Clients.Row.{parse_mac, check_subnet, parse_client}
use macmapd.Clients.Row.Shape.{IsClient, parse_mac-Ensures, check_subnet-Ensures}

short_location :
    (s : Bytes)
    → (not (is_empty s) && leb (length s) 64) ≡ true
    → (is_empty s ≡ false) × (length s ≤ 64)
short_location s h = ground arith

one_of : (s a b : Bytes) → (bytes_eq s a || bytes_eq s b) ≡ true → (s ≡ a) ⊎ (s ≡ b)
one_of s a b h = ground (arith, bytes_eq→eq s a, bytes_eq→eq s b)

parse_client-Ensures : (row : List Bytes) → Ensures IsClient (parse_client row)
unfolding parse_client
parse_client-Ensures (r0 ∷ r1 ∷ r2 ∷ r3 ∷ r4 ∷ r5 ∷ r6 ∷ r7 ∷ r8 ∷ []) =
    Ensures-ensure (not (is_empty r0) && leb (length r0) 64) _ _ λ located.
      Ensures-ensure (valid_hostname r1) _ _ λ host.
        Ensures-ensure (valid_hostname r2) _ _ λ domain.
          Ensures-ensure (bytes_eq r3 (ascii "bios") || bytes_eq r3 (ascii "uefi")) _ _ λ boot.
            Ensures-context (parse_u16 r4) _ _ λ mtu mtu_read.
              Ensures-ensure (leb 68 mtu) _ _ λ mtu_ok.
                Ensures-bind (parse_mac r5) _ λ mac mac_read.
                  Ensures-context (parse_ipv4 r6) _ _ λ ip ip_read.
                    Ensures-context (parse_u8 r7) _ _ λ p _.
                      Ensures-ensure (leb 1 p && leb p 31) _ _ λ range.
                        Ensures-context (parse_ipv4 r8) _ _ λ gateway gateway_read.
                          Ensures-bind (check_subnet ip p gateway) _ λ u checked.
                            let (lo, hi) = and-eq-true (leb 1 p) (leb p 31) range in
                            Ensures-ok (record {
                              location_some = (short_location r0 located).0;
                              location_short = (short_location r0 located).1;
                              hostname = host;
                              domain = domain;
                              boot_type = one_of r3 (ascii "bios") (ascii "uefi") boot;
                              mtu_least = leb→le 68 mtu mtu_ok;
                              mtu_most = parse_u16-le r4 mtu_read;
                              mac = (parse_mac-Ensures r5).at mac mac_read;
                              subnet =
                                  (check_subnet-Ensures ip p gateway (parse_ipv4-IsAddr r6 ip_read)
                                      (parse_ipv4-IsAddr r8 gateway_read) (leb→le 1 p lo)
                                      (leb→le p 31 hi)).at
                                    u checked;
                            })
parse_client-Ensures _ = Ensures-err field_count

-- A client that comes out of `parse_client` has a unicast MAC of six bytes, an MTU of 68 to
-- 65535, a boot type of bios or uefi, valid names, and unicast addresses of itself and its
-- gateway that differ, lie in one network of prefix 1 to 31, and below prefix 31 are neither the
-- network's address nor its broadcast address.
pub parse_client-IsClient : (row : List Bytes) (c : Client) → parse_client row ≡ ok c → IsClient c
parse_client-IsClient row = (parse_client-Ensures row).at
