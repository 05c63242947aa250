-- ===== src/Server/Due.antt =====
-- To whom `serve` of src/dhcp.rs decides to answer.
use macmapd.Base.{
  ℕ, ◌≡◌, refl, Bool, true, false, Option, none, some, ok, if◌then◌else◌, Bool-cases, inl, inr,
}
use macmapd.Net.{Ipv4Addr}
use macmapd.Config.{Config}
use macmapd.Clients.{Client}
use macmapd.Dhcp.{Packet}
use macmapd.Dhcp.Parse.{Outcome}
use macmapd.Dhcp.Stage.{boot_mode_mismatch}
use macmapd.Dhcp.Reply.{Reply, reply}
use macmapd.Runtime.{Shared, bump}
use macmapd.Server.{decide}

-- What the other tasks rely on is as it was.
pub record Same (s t : Shared) : Type 0 where
  pub snapshot : t.snapshot ≡ s.snapshot
  pub requests : t.requests ≡ s.requests
  pub responses : t.responses ≡ s.responses

abbrev pub responses_after : Option Reply → ℕ → ℕ
responses_after none n = n
responses_after (some r) n = bump n

pub decide-Same :
    (config : Config) (server : Ipv4Addr) (p : Packet) (client : Option Client) (s : Shared)
    → Same s (decide config server p client s).0
unfolding decide
decide-Same config server p none s = record { snapshot = refl; requests = refl; responses = refl }
decide-Same config server p (some c) s = elim (Bool-cases (boot_mode_mismatch p c)) [
  | inl t ↦ rw t (record { snapshot = refl; requests = refl; responses = refl })
  | inr f ↦ rw f (record { snapshot = refl; requests = refl; responses = refl })
]

-- A reply is to a client that is known and whose firmware fits.
pub record IsDue (config : Config) (server : Ipv4Addr) (p : Packet) (client : Option Client)
    (r : Reply) : Type 0 where
  pub known : Client
  pub found : client ≡ some known
  pub fits : boot_mode_mismatch p known ≡ false
  pub made : reply p known config server ≡ ok (some r)

pub decide-IsDue :
    (config : Config) (server : Ipv4Addr) (p : Packet) (client : Option Client) (s : Shared)
    (r : Reply)
    → (decide config server p client s).1 ≡ ok (some r)
    → IsDue config server p client r
unfolding decide
decide-IsDue config server p none s r e = cc
decide-IsDue config server p (some c) s r e = due (boot_mode_mismatch p c) refl e
  where
    due :
        (b : Bool)
        → boot_mode_mismatch p c ≡ b
        → (if◌then◌else◌ {A = Shared × Outcome (Option Reply)} b
            (record s { boot_mode_mismatches = bump s.boot_mode_mismatches }, ok none)
            (s, reply p c config server)).1
          ≡ ok (some r)
        → IsDue config server p (some c) r
    due true f h = cc
    due false f h = record { known = c; found = refl; fits = f; made = h }
