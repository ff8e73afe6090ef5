-- ===== src/Ranges/Members.antt =====
-- What `split`, `exclude` and `intersect` of piwheels/ranges.py do to the set of offsets.
use piwheels.Prelude.{
  ℕ, ◌≡◌, refl, Bool, true, false, not, ◌&&◌, ◌||◌, List, [], ◌∷◌, All, ltb, arith, Option, none,
  some,
}
use piwheels.Ranges.{Range, in_range, nonempty, split, keep_outside, exclude, intersect}

-- `i` is in one of the ranges.
abbrev pub covers : ℕ → List Range → Bool
covers i [] = false
covers i (r ∷ rs) = in_range i r || covers i rs

-- No range has `k` strictly inside.
abbrev NotInside : ℕ → Range → Type 0
NotInside k r = (ltb r.start k && ltb k r.stop) ≡ false

pub covers-split : (i : ℕ) (rs : List Range) (k : ℕ) → covers i (split rs k) ≡ covers i rs
unfolding split
covers-split i [] k = refl
covers-split i (r ∷ rs) k = ground (arith, covers-split i rs k)

split-NotInside : (rs : List Range) (k : ℕ) → All (NotInside k) (split rs k)
unfolding split
split-NotInside [] k = tt
split-NotInside (r ∷ rs) k = ground (arith, split-NotInside rs k)

split-keeps-NotInside :
    (j : ℕ) (rs : List Range) (k : ℕ) → All (NotInside j) rs → All (NotInside j) (split rs k)
unfolding split
split-keeps-NotInside j [] k h = tt
split-keeps-NotInside j (r ∷ rs) k h = ground (arith, split-keeps-NotInside j rs k h.1)

covers-keep_outside :
    (i : ℕ) (rs : List Range) (ex : Range)
    → All (NotInside ex.start) rs
    → All (NotInside ex.stop) rs
    → covers i (keep_outside rs ex) ≡ (covers i rs && not (in_range i ex))
unfolding keep_outside
covers-keep_outside i [] ex a b = refl
covers-keep_outside i (r ∷ rs) ex a b = ground (arith, covers-keep_outside i rs ex a.1 b.1)

-- `exclude` removes exactly the offsets of `ex`, whatever the ranges, empty or overlapping ones
-- included.
pub covers-exclude :
    (i : ℕ) (rs : List Range) (ex : Range)
    → covers i (exclude rs ex) ≡ (covers i rs && not (in_range i ex))
unfolding exclude
covers-exclude i rs ex = ground (
  arith,
  covers-keep_outside i (split (split rs ex.start) ex.stop) ex
      (split-keeps-NotInside ex.start (split rs ex.start) ex.stop (split-NotInside rs ex.start))
      (split-NotInside (split rs ex.start) ex.stop),
  covers-split i (split rs ex.start) ex.stop,
  covers-split i rs ex.start,
)

-- The members of an intersection; `none` has none.
abbrev pub in_option : ℕ → Option Range → Bool
in_option i none = false
in_option i (some r) = in_range i r

-- `intersect` has exactly the common offsets, and is `none` exactly when there are none.
pub intersect_lem :
    (a b : Range)
    → ((i : ℕ) → in_option i (intersect a b) ≡ (in_range i a && in_range i b))
      × ((r : Range) → intersect a b ≡ some r → nonempty r ≡ true)
unfolding intersect
intersect_lem a b = (λ i. ground arith, λ r h. ground arith)
