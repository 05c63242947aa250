-- ===== src/Text/Split.antt =====
-- Splitting a text that was joined.
use macmapd.Base.{ℕ, ◌≡◌, refl, Bool, true, [], ◌∷◌, ◌++◌, some, Bytes, all, not, arith, ◌==◌}
use macmapd.Text.{split, split_once}

-- No `sep` in the text.
abbrev pub lacks : ℕ → Bytes → Bool
lacks sep s = all (λ c. not (c == sep)) s

-- A piece without the separator is split off whole.
pub split-append :
    (sep : ℕ) (p s : Bytes) → lacks sep p ≡ true → split sep (p ++ sep ∷ s) ≡ p ∷ split sep s
unfolding split
split-append sep [] s h = ground arith
split-append sep (c ∷ p) s h = ground (arith, split-append sep p s)

pub split_last : (sep : ℕ) (p : Bytes) → lacks sep p ≡ true → split sep p ≡ p ∷ []
unfolding split
split_last sep [] h = refl
split_last sep (c ∷ p) h = ground (arith, split_last sep p)

abbrev slash : Bytes
slash = b'/' ∷ []

-- The text before the first `/` and the text behind it.
pub split_once-append :
    (p s : Bytes) → lacks b'/' p ≡ true → split_once slash (p ++ b'/' ∷ s) ≡ some (p, s)
unfolding split_once
split_once-append [] s h = refl
split_once-append (c ∷ p) s h = ground (arith, split_once-append p s)
