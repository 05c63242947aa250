-- ===== src/Dhcp/Reply/Steps.antt =====
-- Steps that rewrite the header and append options, put together from smaller ones: the identity, the
-- lease, the parameters and the boot file of `reply` of src/dhcp.rs.
use mathlib.Core.Path.{subst}
use macmapd.Base.{
  ℕ, ◌+◌, ◌≤◌, ◌≡◌, refl, sym, Bool, true, false, Option, none, some, [], ◌∷◌, ◌++◌, Bytes, be16,
  be32, length, copy_at, leb, ltb, ltb→lt, ◌==◌, if◌then◌else◌, arith, ◌/◌, ◌*◌, ◌%◌, ◌^◌,
  append_assoc, append-nil,
}
use macmapd.Net.{Ipv4Addr, octets}
use macmapd.Net.Display.{display}
use macmapd.Clients.{Client}
use macmapd.Config.{Config}
use macmapd.Dhcp.{Packet}
use macmapd.Dhcp.Options.{option}
use macmapd.Dhcp.Options.Fields.{Fields}
use macmapd.Dhcp.Stage.{requests, RouteMode, classless, default}
use macmapd.Dhcp.Reply.Shape.{IsShape, option-IsShape, copy_at-IsShape}
use macmapd.Dhcp.Reply.Body.{
  put_optional, put_identity, put_times, put_lease, checked_mask, all_octets, put_parameters,
  put_file,
}

-- Options that are there, and none otherwise.
abbrev when : Bool → Fields → Fields
when t f = if t then f else []

abbrev pub identity_fields : Packet → ℕ → Ipv4Addr → Fields
identity_fields p message server =
    (53, message ∷ [])
    ∷ (54, octets server)
    ∷ elim (p.options 61) [ none ↦ [] | some id ↦ (61, id) ∷ [] ]

abbrev pub lease_fields : Packet → ℕ → Fields
lease_fields p lease =
    if p.message == 8
    then []
    else ((51, be32 lease)
        ∷ when (leb 8 lease) ((58, be32 (lease / 2)) ∷ (59, be32 (lease * 7 / 8 % 2 ^ 32)) ∷ []))

abbrev pub parameter_fields : Packet → Client → Config → Fields
parameter_fields p client config =
    (1, be32 (checked_mask client.prefix_length))
    ∷ (12, client.hostname)
    ∷ (15, client.domain)
    ∷ (26, be16 client.mtu)
    ∷ (when (requests p 101) ((101, config.client_options.timezone) ∷ [])
        ++ ((6, all_octets config.client_options.dns)
            ∷ (42, all_octets config.client_options.ntp)
            ∷ []))

abbrev pub route_field : RouteMode → Client → Bytes → Fields
route_field default client routes = (3, octets client.gateway) ∷ []
route_field classless client routes = (121, routes) ∷ []

abbrev pub file_fields : Config → Option Bytes → Fields
file_fields config none = []
file_fields config (some file) = (66, display config.boot.tftp_server) ∷ (67, file) ∷ []

-- One more option, with a list to follow.
pub cast : {out h : Bytes} {fs gs : Fields} → fs ≡ gs → IsShape out h fs → IsShape out h gs
cast {out} {h} e s = subst (IsShape out h) e s

-- `put` appends `fields` to the options.
pub record Puts (put : Bytes → Bytes) (header : Bytes → Bytes) (fields : Fields) : Type 0 where
  pub shape :
      {out h : Bytes} {fs : Fields} → IsShape out h fs → IsShape (put out) (header h) (fs ++ fields)

nothing : Puts (λ o. o) (λ h. h) []
nothing = record { shape = λ {out} {h} {fs} s. cast (sym (append-nil fs)) s }

option-Puts :
    (code : ℕ) (value : Bytes) → Puts (λ o. option o code value) (λ h. h) ((code, value) ∷ [])
option-Puts code value = record { shape = λ s. option-IsShape code value s }

copy_at-Puts :
    (at : ℕ) (src : Bytes) → at + length src ≤ 240 → Puts (copy_at at src) (copy_at at src) []
copy_at-Puts at src fits = record {
  shape = λ {out} {h} {fs} s. cast (sym (append-nil fs)) (copy_at-IsShape at src fits s);
}

pub then_Puts :
    {f g hf hg : Bytes → Bytes} {a b : Fields}
    → Puts f hf a
    → Puts g hg b
    → Puts (λ o. g (f o)) (λ h. hg (hf h)) (a ++ b)
then_Puts {a = a} {b} p q = record {
  shape = λ {out} {h} {fs} s. cast (append_assoc fs a b) (q.shape (p.shape s));
}

if_Puts :
    {f g hf hg : Bytes → Bytes} {a b : Fields} (t : Bool)
    → Puts f hf a
    → Puts g hg b
    → Puts (λ o. if t then f o else g o) (λ h. if t then hf h else hg h) (if t then a else b)
if_Puts true p q = p
if_Puts false p q = q

-- Options that are put only where a test holds.
where_Puts :
    {f : Bytes → Bytes} {a : Fields} (t : Bool)
    → Puts f (λ h. h) a
    → Puts (λ o. if t then f o else o) (λ h. h) (if t then a else [])
where_Puts true p = p
where_Puts false p = nothing

-- A copy that is made only where a test holds.
copy_where_Puts :
    (at : ℕ) (src : Bytes) (t : Bool)
    → (t ≡ true → at + length src ≤ 240)
    → Puts (λ o. if t then copy_at at src o else o) (λ h. if t then copy_at at src h else h) []
copy_where_Puts at src true fits = copy_at-Puts at src (fits refl)
copy_where_Puts at src false fits = nothing

-- The client identifier comes back if there was one.
optional_Puts :
    (code : ℕ) (value : Option Bytes)
    → Puts
        (λ o. put_optional o code value)
        (λ h. h)
        (elim value [ none ↦ [] | some v ↦ (code, v) ∷ [] ])
optional_Puts code none = nothing
optional_Puts code (some v) = option-Puts code v

pub put_identity-Puts :
    (p : Packet) (message : ℕ) (server : Ipv4Addr)
    → Puts (put_identity p message server) (λ h. h) (identity_fields p message server)
unfolding put_identity
put_identity-Puts p message server =
    then_Puts (option-Puts 53 (message ∷ []))
      (then_Puts (option-Puts 54 (octets server)) (optional_Puts 61 (p.options 61)))

-- `yiaddr`: all but an INFORM get an address.
abbrev pub lease_header : Packet → Client → Bytes → Bytes
lease_header p client h = if p.message == 8 then h else copy_at 16 (octets client.ip) h

pub put_lease-Puts :
    (p : Packet) (client : Client) (lease : ℕ)
    → Puts (put_lease p client lease) (lease_header p client) (lease_fields p lease)
unfolding put_lease put_times
put_lease-Puts p client lease = if_Puts (p.message == 8) nothing (
    then_Puts (copy_at-Puts 16 (octets client.ip) (omega arith)) (
      then_Puts (option-Puts 51 (be32 lease)) (
        where_Puts (leb 8 lease) (
          then_Puts (option-Puts 58 (be32 (lease / 2)))
            (option-Puts 59 (be32 (lease * 7 / 8 % 2 ^ 32)))))))

pub put_parameters-Puts :
    (p : Packet) (client : Client) (config : Config)
    → Puts (put_parameters p client config) (λ h. h) (parameter_fields p client config)
unfolding put_parameters
put_parameters-Puts p client config = then_Puts (option-Puts 1 _) (
    then_Puts (option-Puts 12 _) (
      then_Puts (option-Puts 15 _) (
        then_Puts (option-Puts 26 _) (
          then_Puts (where_Puts (requests p 101) (option-Puts 101 config.client_options.timezone))
            (then_Puts (option-Puts 6 _) (option-Puts 42 _))))))

-- `siaddr` and `file`.
abbrev pub file_header : Config → Option Bytes → Bytes → Bytes
file_header config none h = h
file_header config (some file) h =
    let g = copy_at 20 (octets config.boot.tftp_server) h in
    if ltb (length file) 128 then copy_at 108 file g else g

pub put_file-Puts :
    (config : Config) (file : Option Bytes)
    → Puts (put_file config file) (file_header config file) (file_fields config file)
put_file-Puts config none = nothing
put_file-Puts config (some file) =
    then_Puts (copy_at-Puts 20 (octets config.boot.tftp_server) (omega arith)) (
      then_Puts
        (copy_where_Puts 108 file (ltb (length file) 128)
          λ t. let short = ltb→lt (length file) 128 t in omega arith)
        (then_Puts (option-Puts 66 _) (option-Puts 67 file)))
