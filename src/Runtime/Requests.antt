-- ===== src/Runtime/Requests.antt =====
-- The request statistics of src/runtime.rs.
pub mod Age
use macmapd.Base.{
  ℕ, ◌-◌, ◌*◌, ◌^◌, ◌≡◌, refl, Bool, true, ◌&&◌, Option, none, some, [], ◌∷◌, Bytes, bytes_eq,
  bytes_eq_iff, bytes_eq_refl, leb, ltb, if◌then◌else◌, and-eq-true,
}
use macmapd.Base.Map.{Eq, Map, get, insert}
use macmapd.Clients.{bytes_Eq}
use macmapd.Runtime.{Shared, RequestLabels, RequestMetrics, bump}

unfoldable pub labels_eq : RequestLabels → RequestLabels → Bool
labels_eq x y =
    bytes_eq x.location y.location
    && (bytes_eq x.hostname y.hostname
        && (bytes_eq x.stage y.stage && (bytes_eq x.route y.route && bytes_eq x.message y.message)))

pub labels_eq→eq : (x y : RequestLabels) → labels_eq x y ≡ true → x ≡ y
unfolding labels_eq
labels_eq→eq x y h =
    let (a, h₁) = and-eq-true (bytes_eq x.location y.location) _ h in
    let (b, h₂) = and-eq-true (bytes_eq x.hostname y.hostname) _ h₁ in
    let (c, h₃) = and-eq-true (bytes_eq x.stage y.stage) _ h₂ in
    let (d, e) = and-eq-true (bytes_eq x.route y.route) (bytes_eq x.message y.message) h₃ in
    λ i. record {
      location = (bytes_eq_iff x.location y.location).0 a i;
      hostname = (bytes_eq_iff x.hostname y.hostname).0 b i;
      stage = (bytes_eq_iff x.stage y.stage).0 c i;
      route = (bytes_eq_iff x.route y.route).0 d i;
      message = (bytes_eq_iff x.message y.message).0 e i;
    }

pub labels_eq_refl : (x : RequestLabels) → labels_eq x x ≡ true
unfolding labels_eq
labels_eq_refl x =
    rw
      (
        bytes_eq_refl x.location,
        bytes_eq_refl x.hostname,
        bytes_eq_refl x.stage,
        bytes_eq_refl x.route,
        bytes_eq_refl x.message,
      )
      refl

instance abbrev pub labels_Eq : Eq RequestLabels
labels_Eq = record {
  beq = labels_eq;
  beq_iff = λ x y. (labels_eq→eq x y, λ e. rw (← e) (labels_eq_refl x));
}

-- 24 hours and 60 seconds.
abbrev pub metric_idle_ttl : ℕ
metric_idle_ttl = 24 * 3600 * 10 ^ 9

abbrev pub prune_interval : ℕ
prune_interval = 60 * 10 ^ 9

-- `series.retain(…)`.
unfoldable pub retain : ℕ → Map RequestLabels (ℕ × ℕ) → Map RequestLabels (ℕ × ℕ)
retain now [] = []
retain now ((key, (count, seen)) ∷ rest) =
    let kept = retain now rest in
    if ltb (now - seen) metric_idle_ttl then (key, (count, seen)) ∷ kept else kept

abbrev pub prune_due : ℕ → Option ℕ → Bool
prune_due now none = true
prune_due now (some last) = leb prune_interval (now - last)

unfoldable pub prune : ℕ → RequestMetrics → RequestMetrics
unfolding retain
prune now metrics =
    if prune_due now metrics.last_pruned
    then record { series = retain now metrics.series; last_pruned = some now }
    else metrics

abbrev pub count_of : Option (ℕ × ℕ) → ℕ
count_of none = 0
count_of (some (count, seen)) = count

unfoldable pub count_request : ℕ → RequestLabels → RequestMetrics → RequestMetrics
unfolding prune
count_request now key metrics =
    let pruned = prune now metrics in
    record {
      series = insert key (bump (count_of (get pruned.series key)), now) pruned.series;
      last_pruned = pruned.last_pruned;
    }

unfoldable pub record_request : ℕ → RequestLabels → Shared → Shared
unfolding count_request
record_request now key shared = record shared {
  requests = bump shared.requests;
  request_labels = count_request now key shared.request_labels;
}

abbrev or_zero : Option ℕ → ℕ
or_zero none = 0
or_zero (some n) = n

unfoldable pub record_response : Bytes → Shared → Shared
record_response message shared = record shared {
  responses = bump shared.responses;
  response_labels =
      insert message (bump (or_zero (get shared.response_labels message))) shared.response_labels;
}

unfoldable pub record_duration : Shared → Shared
record_duration shared = record shared { durations = bump shared.durations }
