-- ===== src/Server/Loop/Total.antt =====
-- That each datagram of the loop of `serve` of src/dhcp.rs is handled to its end.
use macmapd.Base.{
  ℕ, ◌≡◌, refl, Bool, true, false, Option, none, some, Bytes, ok, err, panic, stuck, ◌>>=◌, Returns,
  sub_slice, if◌then◌else◌,
}
use macmapd.Net.{Ipv4Addr}
use macmapd.Config.{Config}
use macmapd.Dhcp.{Packet, DhcpError}
use macmapd.Dhcp.Parse.{Outcome, parse, xid}
use macmapd.Dhcp.Reply.{Reply}
use macmapd.Runtime.{Shared}
use macmapd.Server.{Handled, handle, handle_packet, handle_parsed, respond}
use macmapd.Server.Laws.{handle-Returns}

-- No `Err` comes out of the code behind `Packet::parse`.
abbrev NoError : {A : Type 0} → Outcome A → Type 0
NoError r = (e : DhcpError) → r ≡ err e → ⊥

NoError-bind :
    {A B : Type 0} (m : Outcome A) (k : A → Outcome B)
    → NoError m
    → ((a : A) → NoError (k a))
    → NoError (m >>= k)
unfolding ◌>>=◌
NoError-bind (ok a) k h j = j a
NoError-bind (err e) k h j = λ x same. h e refl
NoError-bind panic k h j = λ x same. cc
NoError-bind stuck k h j = λ x same. cc

NoError-ok : {A : Type 0} (a : A) → NoError (ok a)
NoError-ok a = λ e same. cc

if-NoError : {A : Type 0} (t : Bool) (a : A) → NoError (if t then ok a else panic)
if-NoError true a = NoError-ok a
if-NoError false a = λ e same. cc

xid-NoError : (packet : Packet) → NoError (xid packet)
unfolding xid sub_slice
xid-NoError packet = NoError-bind (sub_slice packet.header 4 8) _ (if-NoError _ _) λ v. NoError-ok _

respond-NoError :
    (sent : Bool) (shared : Shared) (outcome : Outcome (Option Reply))
    → NoError (respond sent shared outcome)
unfolding respond
respond-NoError sent shared (ok none) = NoError-ok _
respond-NoError sent shared (ok (some response)) = NoError-ok _
respond-NoError sent shared (err e) = NoError-ok _
respond-NoError sent shared panic = λ e same. cc
respond-NoError sent shared stuck = λ e same. cc

handle_parsed-NoError :
    (config : Config) (server : Ipv4Addr) (now : ℕ) (sent : Bool) (shared : Shared)
    (r : Outcome Packet)
    → NoError (handle_parsed config server now sent shared r)
unfolding handle_packet
handle_parsed-NoError config server now sent shared (ok packet) =
    NoError-bind (xid packet) _ (xid-NoError packet)
      λ x. NoError-bind (respond sent _ _) _ (respond-NoError sent _ _) λ h. NoError-ok _
handle_parsed-NoError config server now sent shared (err e) = NoError-ok _
handle_parsed-NoError config server now sent shared panic = λ e same. cc
handle_parsed-NoError config server now sent shared stuck = λ e same. cc

returned : {A : Type 0} (r : Outcome A) → Returns r → NoError r → (a : A) × (r ≡ ok a)
returned (ok a) h k = (a, refl)
returned (err e) h k = absurd (k e refl)
returned panic h k = absurd h
returned stuck h k = absurd h

-- Handling a datagram comes to its end.
pub handled :
    (config : Config) (server : Ipv4Addr) (now : ℕ) (sent : Bool) (datagram : Bytes) (s : Shared)
    → (h : Handled) × (handle config server now sent datagram s ≡ ok h)
unfolding handle
handled config server now sent datagram s =
    returned (handle config server now sent datagram s)
      (handle-Returns config server now sent datagram s)
      (handle_parsed-NoError config server now sent s (parse datagram))
