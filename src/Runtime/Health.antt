-- ===== src/Runtime/Health.antt =====
-- `health` of src/runtime.rs: the status code and the fields of the answer. `serde_json` writes the
-- fields, and the headers are constants; both are left out.
use macmapd.Base.{
  arith, ℕ, ◌-◌, ◌≡◌, refl, ◌↔◌, Bool, true, false, ◌&&◌, Option, none, some, length, if◌then◌else◌,
  and-eq-true, Bool-cases, inl, inr,
}
use macmapd.Clients.{Clients}
use macmapd.Runtime.{Shared, Source, SyncError}

pub record Health : Type 0 where
  pub code : ℕ
  pub healthy : Bool
  pub source : Option Source
  pub clients : ℕ
  pub last_successful_sync : Option ℕ
  pub data_age_seconds : Option ℕ
  pub last_sync_error : Option SyncError

abbrev pub records_of : Option Clients → Option ℕ
records_of none = none
records_of (some clients) = some (length clients.records)

abbrev pub unwrap_or_zero : Option ℕ → ℕ
unwrap_or_zero none = 0
unwrap_or_zero (some n) = n

abbrev pub is_there : Option ℕ → Bool
is_there none = false
is_there (some n) = true

-- `now().saturating_sub(timestamp)`.
abbrev pub age : ℕ → Option ℕ → Option ℕ
age now none = none
age now (some timestamp) = some (now - timestamp)

unfoldable pub health : ℕ → Shared → Health
health now shared =
    let count = records_of shared.snapshot in
    let healthy = is_there count && shared.dhcp_ready in
    record {
      code = if healthy then 200 else 503;
      healthy = healthy;
      source = shared.status.source;
      clients = unwrap_or_zero count;
      last_successful_sync = shared.status.last_success;
      data_age_seconds = age now shared.status.data_since;
      last_sync_error = shared.status.last_error;
    }

there→some : (o : Option Clients) → is_there (records_of o) ≡ true → (cs : Clients) × (o ≡ some cs)
there→some none h = absurd cc
there→some (some cs) h = (cs, refl)

-- The health check answers 200 exactly while a table of clients is there and the DHCP socket is
-- ready, whatever the state of the synchronizer.
pub health_iff :
    (now : ℕ) (shared : Shared)
    → ((health now shared).code ≡ 200)
      ↔ (((cs : Clients) × (shared.snapshot ≡ some cs)) × (shared.dhcp_ready ≡ true))
unfolding health
health_iff now shared = (
  λ e. elim (Bool-cases (is_there (records_of shared.snapshot) && shared.dhcp_ready)) [
    | inl h ↦
        let (a, b) = and-eq-true (is_there (records_of shared.snapshot)) shared.dhcp_ready h in
        (there→some shared.snapshot a, b)
    | inr h ↦ absurd (omega (arith, (rw h at e)))
  ],
  λ h. rw (h.0.1, h.1) refl,
)
