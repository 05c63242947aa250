-- ===== src/Dhcp/Reply.antt =====
-- `reply` of src/dhcp.rs, in the steps of its body.
pub mod Limits
pub mod Answer
pub mod Body
pub mod Finish
pub mod Shape
pub mod States
pub mod Decision
pub mod Steps
pub mod Contents
pub mod Header
pub mod Fixed
pub mod Sent
pub mod Codes
pub mod Values
pub mod ReadBack
pub mod Total
pub mod Routes
pub mod Times
pub mod Errors
use macmapd.Base.{
  ℕ, Bool, not, ◌&&◌, Option, none, some, Bytes, ◌==◌, if◌then◌else◌, ok, ◌>>=◌, ◌>>◌, ensure,
}
use macmapd.Net.{Ipv4Addr, is_unspecified, is_broadcast, is_multicast}
use macmapd.Clients.{Client}
use macmapd.Config.{Config}
use macmapd.Dhcp.{Packet, bad_server}
use macmapd.Dhcp.Parse.{Outcome}
use Answer.{answer}
use Body.{start, put_identity, put_answer, put_nak, boot_file}
use Finish.{SocketAddrV4, maximum_of, put_relay, seal, destination}

pub record Reply : Type 0 where
  pub bytes : Bytes
  pub destination : SocketAddrV4
  pub message : ℕ
  pub boot_file : Option Bytes
  pub relay_option_omitted : Bool

-- A NAK names no boot file.
abbrev file_for : ℕ → Packet → Client → Config → Option Bytes
file_for message packet client config =
    if message == 6 then none else boot_file packet client config

unfoldable pub build : Packet → Client → Config → Ipv4Addr → ℕ → Outcome Reply
build packet client config server message = do
  header ← start packet
  let identified = put_identity packet message server header
  body ←
      if message == 6 then put_nak packet identified else put_answer packet client config identified
  maximum ← maximum_of (packet.options 57)
  let (with_relay, omitted) = put_relay packet maximum body
  bytes ← seal maximum with_relay
  ok (record {
    bytes = bytes;
    destination = destination packet message;
    message = message;
    boot_file = file_for message packet client config;
    relay_option_omitted = omitted;
  })

unfoldable pub reply : Packet → Client → Config → Ipv4Addr → Outcome (Option Reply)
reply packet client config server = do
  ensure (not (is_unspecified server) && not (is_broadcast server) && not (is_multicast server))
      bad_server
  elim (answer packet client server) [
    | none ↦ ok none
    | some message ↦ do built ← build packet client config server message; ok (some built)
  ]
