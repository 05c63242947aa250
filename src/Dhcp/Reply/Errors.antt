-- ===== src/Dhcp/Reply/Errors.antt =====
-- The errors of `reply` of src/dhcp.rs under a configuration that `Config::validate` accepts.
use mathlib.Core.Path.{subst}
use macmapd.Base.{
  ℕ, ◌≤◌, ◌≡◌, ◌⊎◌, inl, inr, refl, sym, ap, Bool, true, false, ◌&&◌, not, Option, none, some, [],
  ◌∷◌, ◌++◌, Bytes, All, length, leb, ltb, ◌==◌, ok, err, panic, stuck, ◌>>=◌, ◌>>◌, ensure, index,
  sub_slice, arith, Returns, if◌then◌else◌, ◌-◌, replicate,
}
use macmapd.Base.Ensures.{Ensures, Ensures-ok, Ensures-bind}
use macmapd.Net.{Ipv4Addr, is_unspecified, is_broadcast, is_multicast}
use macmapd.Config.{Config}
use macmapd.Config.Address.{is_unicast}
use macmapd.Config.Validate.{validate}
use macmapd.Config.Validate.Parts.{IsRoute}
use macmapd.Config.Validate.Accepts.{validate_iff}
use macmapd.Clients.{Client}
use macmapd.Dhcp.{Packet, DhcpError, response_too_long}
use macmapd.Dhcp.Parse.{Outcome}
use macmapd.Dhcp.Parse.Accepts.{IsPacket}
use macmapd.Dhcp.Reply.Total.{reply-Returns}
use macmapd.Dhcp.Stage.{RouteMode, classless, default, route_mode}
use macmapd.Dhcp.Reply.{Reply, build, reply}
use macmapd.Dhcp.Reply.Answer.{answer}
use macmapd.Dhcp.Reply.Body.{
  start, echo, put_identity, put_answer, put_nak, put_routes, put_routes_by, encode_routes,
}
use macmapd.Dhcp.Reply.Finish.{maximum_of, put_relay, seal}
use macmapd.Dhcp.Reply.Routes.{encode_routes-descriptors}

-- The only error is a reply that is too long for the client, which takes 576 bytes at least.
pub record OnlyLong {A : Type 0} (r : Outcome A) : Type 0 where
  pub only : (e : DhcpError) → r ≡ err e → (m : ℕ) × (576 ≤ m) × (e ≡ response_too_long m)

module _ {A : Type 0} where
  OnlyLong-ok : (a : A) → OnlyLong (ok a)
  OnlyLong-ok a = record { only = λ e same. cc }

  OnlyLong-panic : OnlyLong {A = A} panic
  OnlyLong-panic = record { only = λ e same. cc }

  OnlyLong-if :
      (t : Bool) (k l : Outcome A) → OnlyLong k → OnlyLong l → OnlyLong (if t then k else l)
  OnlyLong-if true k l h j = h
  OnlyLong-if false k l h j = j

module _ {A B : Type 0} where
  OnlyLong-bind :
      (m : Outcome A) (k : A → Outcome B)
      → OnlyLong m
      → ((a : A) → m ≡ ok a → OnlyLong (k a))
      → OnlyLong (m >>= k)
  unfolding ◌>>=◌
  OnlyLong-bind (ok a) k h j = j a refl
  OnlyLong-bind (err e) k h j = record { only = λ x same. h.only x (shift x same) }
    where
      shift :
          (x : DhcpError)
          → ◌≡◌ {A = Outcome B} (err e) (err x)
          → ◌≡◌ {A = Outcome A} (err e) (err x)
      shift x same = cc
  OnlyLong-bind panic k h j = OnlyLong-panic
  OnlyLong-bind stuck k h j = record { only = λ e same. cc }

index-OnlyLong : (xs : Bytes) (i : ℕ) → OnlyLong (index xs i)
unfolding index
index-OnlyLong xs i = OnlyLong-if (ltb i (length xs)) _ _ (OnlyLong-ok _) OnlyLong-panic

sub_slice-OnlyLong : (xs : Bytes) (a b : ℕ) → OnlyLong (sub_slice xs a b)
unfolding sub_slice
sub_slice-OnlyLong xs a b =
    OnlyLong-if (leb a b && leb b (length xs)) _ _ (OnlyLong-ok _) OnlyLong-panic

maximum_of-OnlyLong : (o : Option Bytes) → OnlyLong (maximum_of o)
maximum_of-OnlyLong none = OnlyLong-ok 576
maximum_of-OnlyLong (some v) =
    OnlyLong-bind (index v 0) _ (index-OnlyLong v 0)
      λ high _. OnlyLong-bind (index v 1) _ (index-OnlyLong v 1) λ low _. OnlyLong-ok _

echo-OnlyLong : (p : Packet) (a b : ℕ) (out : Bytes) → OnlyLong (echo p a b out)
unfolding echo
echo-OnlyLong p a b out =
    OnlyLong-bind (sub_slice p.header a b) _ (sub_slice-OnlyLong p.header a b) λ v _. OnlyLong-ok _

start-OnlyLong : (p : Packet) → OnlyLong (start p)
unfolding start
start-OnlyLong p = OnlyLong-bind (echo p 4 8 _) _ (echo-OnlyLong p 4 8 _) λ b₁ _.
    OnlyLong-bind (echo p 10 16 b₁) _ (echo-OnlyLong p 10 16 b₁)
      λ b₂ _. OnlyLong-bind (echo p 24 44 b₂) _ (echo-OnlyLong p 24 44 b₂) λ b₃ _. OnlyLong-ok _

put_nak-OnlyLong : (p : Packet) (out : Bytes) → OnlyLong (put_nak p out)
unfolding put_nak
put_nak-OnlyLong p out =
    OnlyLong-if (is_unspecified p.giaddr) _ _ (OnlyLong-ok _)
      (OnlyLong-bind (index _ 10) _ (index-OnlyLong _ 10) λ flags _. OnlyLong-ok _)

maximum_of-Ensures : (o : Option Bytes) → Ensures (λ n. 576 ≤ n) (maximum_of o)
maximum_of-Ensures none = Ensures-ok (omega arith)
maximum_of-Ensures (some v) =
    Ensures-bind (index v 0) _
      λ high _. Ensures-bind (index v 1) _ λ low _. Ensures-ok (omega arith)

seal-OnlyLong : (n : ℕ) (out : Bytes) → 576 ≤ n → OnlyLong (seal n out)
unfolding seal ensure ◌>>=◌
seal-OnlyLong n out h = split (leb (length (out ++ (255 ∷ []))) n)
  where
    split :
        (t : Bool)
        → OnlyLong (do
          ensure t (response_too_long n)
          ok ((out ++ (255 ∷ [])) ++ replicate (300 - length (out ++ (255 ∷ []))) 0))
    split true = OnlyLong-ok _
    split false = record {
      only = λ e same. (n, h, let long : response_too_long n ≡ e = cc in sym long);
    }

module _ (config : Config) (valid : All IsRoute config.client_options.classless_routes) where
  put_routes_by-OnlyLong :
      (mode : RouteMode) (client : Client) (out : Bytes)
      → OnlyLong (put_routes_by mode client config out)
  put_routes_by-OnlyLong default client out = OnlyLong-ok _
  put_routes_by-OnlyLong classless client out =
      OnlyLong-bind (encode_routes config.client_options.classless_routes client.gateway []) _
        (subst OnlyLong
          (sym (
            encode_routes-descriptors config.client_options.classless_routes client.gateway []
              valid))
          (OnlyLong-ok _))
        λ routes _. OnlyLong-ok _

  put_answer-OnlyLong :
      (p : Packet) (client : Client) (out : Bytes) → OnlyLong (put_answer p client config out)
  unfolding put_answer put_routes
  put_answer-OnlyLong p client out =
      OnlyLong-bind (put_routes_by (route_mode p) client config _) _
        (put_routes_by-OnlyLong (route_mode p) client _) λ b _. OnlyLong-ok _

  build-OnlyLong :
      (p : Packet) (client : Client) (server : Ipv4Addr) (message : ℕ)
      → OnlyLong (build p client config server message)
  unfolding build
  build-OnlyLong p client server message = OnlyLong-bind (start p) _ (start-OnlyLong p) λ header _.
      OnlyLong-bind
        (if message == 6
          then put_nak p (put_identity p message server header)
          else put_answer p client config (put_identity p message server header))
        _ (OnlyLong-if (message == 6) _ _ (put_nak-OnlyLong p _) (put_answer-OnlyLong p client _))
        λ body _.
          OnlyLong-bind (maximum_of (p.options 57)) _ (maximum_of-OnlyLong (p.options 57)) λ n e.
            OnlyLong-bind (seal n (put_relay p n body).0) _
              (seal-OnlyLong n _ ((maximum_of-Ensures (p.options 57)).at n e))
              λ bytes _. OnlyLong-ok _

  answered-OnlyLong :
      (p : Packet) (client : Client) (server : Ipv4Addr) (o : Option ℕ)
      → OnlyLong (elim o [
        | none ↦ ok none
        | some message ↦ do built ← build p client config server message; ok (some built)
      ])
  answered-OnlyLong p client server none = OnlyLong-ok none
  answered-OnlyLong p client server (some message) =
      OnlyLong-bind (build p client config server message) _
        (build-OnlyLong p client server message) λ built _. OnlyLong-ok (some built)

unicast-is_usable :
    (ip : Ipv4Addr)
    → is_unicast ip ≡ true
    → (not (is_unspecified ip) && not (is_broadcast ip) && not (is_multicast ip)) ≡ true
unfolding is_unicast
unicast-is_usable ip h = ground arith

reply-OnlyLong :
    (valid_level : Bytes → Bool) (config : Config) (p : Packet) (client : Client)
    (server : Ipv4Addr)
    → validate valid_level config ≡ ok tt
    → is_unicast server ≡ true
    → OnlyLong (reply p client config server)
unfolding reply ensure ◌>>=◌
reply-OnlyLong valid_level config p client server v u =
    let valid = (validate_iff valid_level config).0 v in
    rw (unicast-is_usable server u)
      (answered-OnlyLong config valid.routes p client server (answer p client server))

decided :
    (r : Outcome (Option Reply))
    → Returns r
    → OnlyLong r
    → ((a : Option Reply) × (r ≡ ok a)) ⊎ ((m : ℕ) × (576 ≤ m) × (r ≡ err (response_too_long m)))
decided (ok a) h k = inl (a, refl)
decided (err e) h k = let (m, least, same) = k.only e refl in inr (m, least, ap err same)
decided panic h k = absurd h
decided stuck h k = absurd h

-- With a configuration that passes the check, a parsed request and a unicast address of the server,
-- `reply` either decides, with a reply or with silence, or fails because the reply is too long for
-- the client's limit, which is 576 bytes at least: no address, route or file of a checked
-- configuration is refused when it is used, and nothing panics.
pub reply-decides :
    (valid_level : Bytes → Bool) (config : Config) (p : Packet) (client : Client)
    (server : Ipv4Addr)
    → validate valid_level config ≡ ok tt
    → IsPacket p
    → is_unicast server ≡ true
    → ((a : Option Reply) × (reply p client config server ≡ ok a))
      ⊎ ((m : ℕ) × (576 ≤ m) × (reply p client config server ≡ err (response_too_long m)))
reply-decides valid_level config p client server v w u =
    decided (reply p client config server) (reply-Returns p client config server w)
      (reply-OnlyLong valid_level config p client server v u)
