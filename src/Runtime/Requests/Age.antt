-- ===== src/Runtime/Requests/Age.antt =====
-- How old a request series of src/runtime.rs can get.
use mathlib.Core.Path.{subst}
use macmapd.Base.{
  ℕ, ◌+◌, ◌-◌, ◌≤◌, ◌<◌, ◌≡◌, refl, Option, none, some, [], ◌∷◌, All, leb, ltb, ltb→lt, Bool-cases,
  inl, inr, arith,
}
use macmapd.Base.Map.{Map, get, insert}
use macmapd.Runtime.{RequestLabels, RequestMetrics, bump}
use macmapd.Runtime.Requests.{
  labels_Eq, retain, prune, count_request, count_of, metric_idle_ttl, prune_interval,
}

abbrev pub Series : Type 0
Series = Map RequestLabels (ℕ × ℕ)

-- At `time` no series had been idle for 24 hours.
abbrev pub LiveAt : ℕ → Series → Type 0
LiveAt time series = All (λ e. time < e.1.1 + metric_idle_ttl) series

insert-All :
    (P : RequestLabels × (ℕ × ℕ) → Type 0) (key : RequestLabels) (v : ℕ × ℕ) (series : Series)
    → ((k : RequestLabels) → P (k, v))
    → All P series
    → All P (insert key v series)
unfolding insert
insert-All P key v [] new h = (new key, tt)
insert-All P key v ((k, w) ∷ rest) new h = elim (Bool-cases (labels_Eq.beq k key)) [
  | inl same ↦ rw same (new key, h.1)
  | inr other ↦ rw other (h.0, insert-All P key v rest new h.1)
]

retain-LiveAt : (now : ℕ) (series : Series) → LiveAt now (retain now series)
unfolding retain
retain-LiveAt now [] = tt
retain-LiveAt now ((key, (count, seen)) ∷ rest) =
    elim (Bool-cases (ltb (now - seen) metric_idle_ttl)) [
      | inl live ↦
          let n = ltb→lt (now - seen) metric_idle_ttl live in
          rw live (omega arith, retain-LiveAt now rest)
      | inr idle ↦ rw idle (retain-LiveAt now rest)
    ]

-- The series were live when they were pruned, or since, and nothing is counted before the first
-- pruning.
pub record IsAged (now : ℕ) (m : RequestMetrics) : Type 0 where
  pub pruned : (last : ℕ) → m.last_pruned ≡ some last → (last ≤ now) × LiveAt last m.series
  pub started : m.last_pruned ≡ none → m.series ≡ []

-- After a pruning that may have been put off.
record IsPruned (now : ℕ) (m : RequestMetrics) : Type 0 where
  last : ℕ
  last_pruned : m.last_pruned ≡ some last
  before : last ≤ now
  recent : now ≤ last + prune_interval
  live : LiveAt last m.series

prune-IsPruned :
    (now : ℕ) (m : RequestMetrics) (last : Option ℕ)
    → m.last_pruned ≡ last
    → IsAged now m
    → IsPruned now (prune now m)
unfolding prune
prune-IsPruned now m none e h = rw e (record {
  last = now;
  last_pruned = refl;
  before = omega arith;
  recent = omega arith;
  live = retain-LiveAt now m.series;
})
prune-IsPruned now m (some last) e h = elim (Bool-cases (leb prune_interval (now - last))) [
  | inl due ↦
      rw (e, due)
        (record {
          last = now;
          last_pruned = refl;
          before = omega arith;
          recent = omega arith;
          live = retain-LiveAt now m.series;
        })
  | inr early ↦
      let (before, live) = h.pruned last e in
      let early' : now - last < prune_interval = ground arith in
      rw (e, early)
        (record {
          last = last;
          last_pruned = refl;
          before = before;
          recent = omega arith;
          live = live;
        })
]

older :
    (last now : ℕ) (series : Series)
    → now ≤ last + prune_interval
    → LiveAt last series
    → All (λ e. now < e.1.1 + (metric_idle_ttl + prune_interval)) series
older last now [] h live = tt
older last now ((k, (n, seen)) ∷ rest) h (first, live) = (omega arith, older last now rest h live)

count_request-IsAged :
    (now : ℕ) (key : RequestLabels) (m : RequestMetrics)
    → IsAged now m
    → IsAged now (count_request now key m)
      × All (λ e. now < e.1.1 + (metric_idle_ttl + prune_interval)) (count_request now key m).series
unfolding count_request
count_request-IsAged now key m h =
    let p = prune-IsPruned now m m.last_pruned refl h in
    let before = p.before in
    let live =
      insert-All (λ e. p.last < e.1.1 + metric_idle_ttl) key
        (bump (count_of (get (prune now m).series key)), now) (prune now m).series
        (λ k. omega arith) p.live in
    (
      record {
        pruned = λ last e.
            let same : p.last ≡ last = cc (p.last_pruned, e) in
            subst (λ t. (t ≤ now) × LiveAt t (count_request now key m).series) same (before, live);
        started = λ e. absurd (cc (p.last_pruned, e));
      },
      older p.last now _ p.recent live,
    )

prune-IsAged :
    (now : ℕ) (m : RequestMetrics)
    → IsAged now m
    → IsAged now (prune now m)
      × All (λ e. now < e.1.1 + (metric_idle_ttl + prune_interval)) (prune now m).series
prune-IsAged now m h =
    let p = prune-IsPruned now m m.last_pruned refl h in
    let before = p.before in
    let live = p.live in
    (
      record {
        pruned = λ last e.
            let same : p.last ≡ last = cc (p.last_pruned, e) in
            subst (λ t. (t ≤ now) × LiveAt t (prune now m).series) same (before, live);
        started = λ e. absurd (cc (p.last_pruned, e));
      },
      older p.last now _ p.recent live,
    )

later-IsAged : (before now : ℕ) (m : RequestMetrics) → before ≤ now → IsAged before m → IsAged now m
later-IsAged before now m later h = record {
  pruned = λ last e. let (k, live) = h.pruned last e in (omega (arith, later, k), live);
  started = h.started;
}

-- The statistics after their use at `now`: requests are counted and metrics are scraped, in any order,
-- by a clock that does not go back.
pub data Used : ℕ → RequestMetrics → Type 0 where
  unused : Used 0 (record { series = []; last_pruned = none })
  request :
      {before : ℕ} {m : RequestMetrics} (now : ℕ) (key : RequestLabels)
      → Used before m
      → before ≤ now
      → Used now (count_request now key m)
  scrape :
      {before : ℕ} {m : RequestMetrics} (now : ℕ)
      → Used before m
      → before ≤ now
      → Used now (prune now m)

-- After any requests and scrapes by a clock that does not go back, no series that the last of them
-- leaves has been idle for 24 hours and a minute at its time `now`; and the statistics are such that
-- this holds again after the next one.
pub Used-IsAged :
    (now : ℕ) (m : RequestMetrics)
    → Used now m
    → IsAged now m × All (λ e. now < e.1.1 + (metric_idle_ttl + prune_interval)) m.series
Used-IsAged _ _ unused = (record { pruned = λ last e. cc; started = λ e. refl }, tt)
Used-IsAged _ _ (request {before} {m} now key u later) =
    count_request-IsAged now key m (later-IsAged before now m later (Used-IsAged before m u).0)
Used-IsAged _ _ (scrape {before} {m} now u later) =
    prune-IsAged now m (later-IsAged before now m later (Used-IsAged before m u).0)
