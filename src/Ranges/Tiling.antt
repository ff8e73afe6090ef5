-- ===== src/Ranges/Tiling.antt =====
-- The shape of the lists that the transfers keep: non-empty ranges in ascending order.
use piwheels.Prelude.{ℕ, ◌+◌, ◌-◌, ◌∙◌, ◌≤◌, ◌<◌, ◌≡◌, refl, true, List, [], ◌∷◌, arith}
use piwheels.Ranges.{Range, in_range, split, keep_outside, exclude}
use piwheels.Ranges.Members.{covers, covers-split}

-- Non-empty ranges that do not overlap, in ascending order, between `lo` and `hi`.
abbrev pub Tiles : ℕ → ℕ → List Range → Type 0
Tiles lo hi [] = lo ≤ hi
Tiles lo hi (r ∷ rs) = (lo ≤ r.start) × (r.start < r.stop) × Tiles r.stop hi rs

Tiles-mono : (lo lo' hi : ℕ) (rs : List Range) → lo' ≤ lo → Tiles lo hi rs → Tiles lo' hi rs
Tiles-mono lo lo' hi [] h t = omega arith
Tiles-mono lo lo' hi (r ∷ rs) h t = (omega arith, t.1, t.2)

split-Tiles : (lo hi : ℕ) (rs : List Range) (k : ℕ) → Tiles lo hi rs → Tiles lo hi (split rs k)
unfolding split
split-Tiles lo hi [] k t = t
split-Tiles lo hi (r ∷ rs) k t = ground (arith, split-Tiles r.stop hi rs k t.2)

keep_outside-Tiles :
    (lo hi : ℕ) (rs : List Range) (ex : Range) → Tiles lo hi rs → Tiles lo hi (keep_outside rs ex)
unfolding keep_outside
keep_outside-Tiles lo hi [] ex t = t
keep_outside-Tiles lo hi (r ∷ rs) ex t =
    let rest = keep_outside-Tiles r.stop hi rs ex t.2 in
    ground (arith, rest, Tiles-mono r.stop lo hi (keep_outside rs ex))

-- `exclude` keeps the ranges non-empty, disjoint, ascending and within their bounds.
pub exclude-Tiles :
    (lo hi : ℕ) (rs : List Range) (ex : Range) → Tiles lo hi rs → Tiles lo hi (exclude rs ex)
unfolding exclude
exclude-Tiles lo hi rs ex t =
    keep_outside-Tiles lo hi _ ex
      (split-Tiles lo hi (split rs ex.start) ex.stop (split-Tiles lo hi rs ex.start t))

-- The number of offsets in the ranges.
unfoldable pub size : List Range → ℕ
size [] = 0
size (r ∷ rs) = (r.stop - r.start) + size rs

size-split : (rs : List Range) (k : ℕ) → size (split rs k) ≡ size rs
unfolding size split
size-split [] k = refl
size-split (r ∷ rs) k = ground (arith, size-split rs k)

size-keep_outside : (rs : List Range) (ex : Range) → size (keep_outside rs ex) ≤ size rs
unfolding size keep_outside
size-keep_outside [] ex = omega arith
size-keep_outside (r ∷ rs) ex = ground (arith, size-keep_outside rs ex)

size-keep_outside-lt :
    (i : ℕ) (rs : List Range) (ex : Range)
    → covers i rs ≡ true
    → in_range i ex ≡ true
    → size (keep_outside rs ex) < size rs
unfolding size keep_outside
size-keep_outside-lt i [] ex c m = cc
size-keep_outside-lt i (r ∷ rs) ex c m =
    ground (arith, size-keep_outside rs ex, size-keep_outside-lt i rs ex)

-- Excluding a range with a member in the ranges leaves fewer offsets.
pub size-exclude-lt :
    (i : ℕ) (rs : List Range) (ex : Range)
    → covers i rs ≡ true
    → in_range i ex ≡ true
    → size (exclude rs ex) < size rs
unfolding exclude
size-exclude-lt i rs ex c m =
    let twice = split (split rs ex.start) ex.stop in
    omega (
      arith,
      size-keep_outside-lt i twice ex
          (covers-split i (split rs ex.start) ex.stop ∙ covers-split i rs ex.start ∙ c) m,
      size-split (split rs ex.start) ex.stop,
      size-split rs ex.start,
    )

-- Ranges with no offset at all are no ranges.
pub Tiles-size-zero : (lo hi : ℕ) (rs : List Range) → Tiles lo hi rs → size rs ≡ 0 → rs ≡ []
unfolding size
Tiles-size-zero lo hi [] t z = refl
Tiles-size-zero lo hi (r ∷ rs) t z = absurd (omega arith)

pub Tiles-le : (lo hi : ℕ) (rs : List Range) → Tiles lo hi rs → lo ≤ hi
Tiles-le lo hi [] t = t
Tiles-le lo hi (r ∷ rs) t = omega (arith, Tiles-le r.stop hi rs t.2)
