-- ===== src/Tests/RangeLists.antt =====
-- Runs of the range operations.
use piwheels.Prelude.{◌≡◌, refl, true, false, not, ◌&&◌, some, List, [], ◌∷◌, arith}
use piwheels.Ranges.{Range, range, in_range, consolidate, exclude}
use piwheels.Ranges.Members.{covers, covers-exclude}
use piwheels.Ranges.Consolidate.{consolidate_nested}

abbrev two : List Range
two = range 0 10 ∷ range 20 30 ∷ []

exclude-two : exclude two (range 5 25) ≡ range 0 5 ∷ range 25 30 ∷ []
unfolding exclude
exclude-two = refl

consolidate_three :
    consolidate (range 0 10 ∷ range 5 15 ∷ range 20 30 ∷ []) ≡ some (range 0 15 ∷ range 20 30 ∷ [])
unfolding consolidate
consolidate_three = refl

covers-exclude_example :
    covers 7 (exclude two (range 5 25)) ≡ (covers 7 two && not (in_range 7 (range 5 25)))
covers-exclude_example = covers-exclude 7 two (range 5 25)

consolidate_nested_example :
    (covers 7 (range 0 10 ∷ range 2 5 ∷ []) ≡ true)
    × ((out : List Range)
        → consolidate (range 0 10 ∷ range 2 5 ∷ []) ≡ some out
        → covers 7 out ≡ false)
consolidate_nested_example =
    consolidate_nested 7 (range 0 10) (range 2 5) (omega arith) (omega arith) (omega arith)
      (omega arith)
