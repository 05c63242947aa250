-- ===== src/Runtime/Metrics/Series.antt =====
-- Reading a series of src/runtime.rs from its line.
use macmapd.Base.{
  ℕ, ◌≡◌, refl, Option, none, some, [], ◌∷◌, ◌++◌, Bytes, ◌==◌, ascii, arith, if◌then◌else◌,
}
use macmapd.Text.Decimal.{decimal}
use macmapd.Runtime.{RequestLabels}
use macmapd.Runtime.Labels.{escape_label}
use macmapd.Runtime.Labels.ReadBack.{read_label, read_label-escape_label}
use macmapd.Runtime.Metrics.{series_line}

-- The rest of a text behind what it starts with.
unfoldable pub behind : Bytes → Bytes → Option Bytes
behind [] s = some s
behind (p ∷ ps) [] = none
behind (p ∷ ps) (c ∷ s) = let rest = behind ps s in if p == c then rest else none

abbrev pub bind {ℓ} : {A B : Type ℓ} → Option A → (A → Option B) → Option B
bind none k = none
bind (some a) k = k a

-- A label behind a text.
unfoldable pub field : Bytes → Bytes → Option (Bytes × Bytes)
unfolding behind
field name s = bind (behind name s) read_label

-- The labels and the value of a series.
unfoldable pub read_series : Bytes → Option (RequestLabels × Bytes)
unfolding field
read_series s = bind (field (ascii "macdack_client_requests_total{location=\"") s) λ l.
    bind (field (ascii ",hostname=\"") l.1) λ h. bind (field (ascii ",stage=\"") h.1) λ g.
      bind (field (ascii ",route=\"") g.1) λ r. bind (field (ascii ",message=\"") r.1) λ m.
        bind (behind (ascii "} ") m.1) λ count. some (
          record { location = l.0; hostname = h.0; stage = g.0; route = r.0; message = m.0 },
          count,
        )

behind-append : (p s : Bytes) → behind p (p ++ s) ≡ some s
unfolding behind
behind-append [] s = refl
behind-append (c ∷ p) s = ground (arith, behind-append p s)

bind-some {ℓ} :
    {A B : Type ℓ} {o : Option A} {a : A} (k : A → Option B) {r : Option B}
    → o ≡ some a
    → k a ≡ r
    → bind o k ≡ r
bind-some k e h = rw e h

field_lem :
    (name value rest : Bytes)
    → field name (name ++ (escape_label value ++ (34 ∷ rest))) ≡ some (value, rest)
unfolding field
field_lem name value rest =
    bind-some read_label (behind-append name (escape_label value ++ (34 ∷ rest)))
      (read_label-escape_label value rest)

-- A series is read back from its line.
pub read_series-series_line :
    (key : RequestLabels) (count : ℕ)
    → read_series (series_line key count) ≡ some (key, decimal count)
unfolding read_series series_line behind
read_series-series_line key count =
    bind-some _ (field_lem (ascii "macdack_client_requests_total{location=\"") key.location _) (
      bind-some _ (field_lem (ascii ",hostname=\"") key.hostname _) (
        bind-some _ (field_lem (ascii ",stage=\"") key.stage _) (
          bind-some _ (field_lem (ascii ",route=\"") key.route _)
            (bind-some _ (field_lem (ascii ",message=\"") key.message _) refl))))
