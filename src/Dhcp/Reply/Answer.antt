-- ===== src/Dhcp/Reply/Answer.antt =====
-- The first step of `reply`: whether to answer a request, and with which message.
use macmapd.Base.{ℕ, Bool, true, false, ◌&&◌, ◌||◌, not, Option, none, some, ◌==◌, if◌then◌else◌}
use macmapd.Net.{Ipv4Addr, ip_eq, is_unspecified}
use macmapd.Clients.{Client}
use macmapd.Dhcp.{Packet}
use macmapd.Dhcp.Parse.{ip_option}
use macmapd.Dhcp.Stage.{boot_mode_mismatch}

abbrev pub has_option : Packet → ℕ → Bool
has_option packet code = elim (packet.options code) [ none ↦ false | some v ↦ true ]

-- `packet.ip_option(54).is_some_and(|ip| ip != server)`.
abbrev pub differs : Option Ipv4Addr → Ipv4Addr → Bool
differs none server = false
differs (some ip) server = not (ip_eq ip server)

-- A DHCPREQUEST that no client state of RFC 2131 sends.
unfoldable pub is_malformed_request : Packet → Bool
is_malformed_request packet =
    not (is_unspecified packet.ciaddr) && (has_option packet 50 || has_option packet 54)
    || has_option packet 54 && not (has_option packet 50)

-- `packet.ip_option(50).or_else(|| … packet.ciaddr)`.
abbrev pub or_ciaddr : Option Ipv4Addr → Ipv4Addr → Option Ipv4Addr
or_ciaddr (some ip) ciaddr = some ip
or_ciaddr none ciaddr = if is_unspecified ciaddr then none else some ciaddr

abbrev pub ack_or_nak : Option Ipv4Addr → Ipv4Addr → Option ℕ
ack_or_nak none ip = none
ack_or_nak (some requested) ip = some (if ip_eq requested ip then 5 else 6)

-- `match packet.message { … }`.
unfoldable pub reply_message : Packet → Client → Option ℕ
unfolding is_malformed_request
reply_message packet client =
    if packet.message == 1
    then some 2
    else if packet.message == 3
    then (if is_malformed_request packet
        then none
        else ack_or_nak (or_ciaddr (ip_option packet 50) packet.ciaddr) client.ip)
    else if packet.message == 8 && not (is_unspecified packet.ciaddr)
    then some 5
    else none

-- Requests to another server and firmware that the client is not configured for get no answer.
unfoldable pub answer : Packet → Client → Ipv4Addr → Option ℕ
unfolding reply_message
answer packet client server =
    if differs (ip_option packet 54) server
    then none
    else if boot_mode_mismatch packet client
    then none
    else reply_message packet client
