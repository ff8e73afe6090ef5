-- ===== src/Ranges/Consolidate.antt =====
-- `consolidate` of piwheels/ranges.py.
use piwheels.Prelude.{ℕ, ◌≤◌, ◌<◌, ◌≡◌, true, false, List, [], ◌∷◌, some, arith}
use piwheels.Ranges.{Range, consolidate}
use piwheels.Ranges.Members.{covers}

-- Ranges whose starts and stops both ascend, from a range `(start, stop)` on.
abbrev pub Ascending : ℕ → ℕ → List Range → Type 0
Ascending start stop [] = start ≤ stop
Ascending start stop (r ∷ rs) =
    (start ≤ stop) × (start ≤ r.start) × (stop ≤ r.stop) × Ascending r.start r.stop rs

-- Each range ends before the next one starts.
abbrev pub Apart : ℕ → List Range → Type 0
Apart lo [] = Unit
Apart lo (r ∷ rs) = (lo < r.start) × Apart r.stop rs

abbrev pub Separated : List Range → Type 0
Separated [] = Unit
Separated (r ∷ rs) = Apart r.stop rs

-- A range that starts inside the one before it and ends before it does cuts that one off: every
-- offset of the first range from the second one's stop on is in the ranges and not in the result.
pub consolidate_nested :
    (i : ℕ) (r s : Range)
    → r.start ≤ i
    → i < r.stop
    → s.start ≤ r.stop
    → s.stop ≤ i
    → (covers i (r ∷ s ∷ []) ≡ true)
      × ((out : List Range) → consolidate (r ∷ s ∷ []) ≡ some out → covers i out ≡ false)
unfolding consolidate
consolidate_nested i r s a b c d = (ground arith, λ out e. ground arith)
