-- ===== src/Ranges.antt =====
-- piwheels/ranges.py: byte ranges of a stream, as lists in ascending order. Offsets are natural
-- numbers and steps are 1, as in the one use of these routines (piwheels/states.py).
pub mod Members
pub mod Tiling
pub mod Consolidate
use piwheels.Prelude.{
  ℕ, Bool, ◌&&◌, ◌||◌, Option, none, some, List, [], ◌∷◌, ltb, leb, if◌then◌else◌, min, max,
}

-- range(start, stop)
pub record Range : Type 0 where
  pub start : ℕ
  pub stop : ℕ

abbrev pub range : ℕ → ℕ → Range
range a b = record { start = a; stop = b }

-- `i in r`
abbrev pub in_range : ℕ → Range → Bool
in_range i r = leb r.start i && ltb i r.stop

-- the truth value of a range: it has an element
abbrev pub nonempty : Range → Bool
nonempty r = ltb r.start r.stop

-- The loop of `consolidate` from its second range on, over the pending `start` and `stop`.
consolidate_from : ℕ → ℕ → List Range → List Range
consolidate_from start stop [] = range start stop ∷ []
consolidate_from start stop (r ∷ rs) =
    let fresh = range start stop ∷ consolidate_from r.start r.stop rs in
    let merged = consolidate_from start r.stop rs in if ltb stop r.start then fresh else merged

-- `none` is the TypeError of `range(None, None)`, which ends the generator of an empty list.
unfoldable pub consolidate : List Range → Option (List Range)
unfolding consolidate_from
consolidate [] = none
consolidate (r ∷ rs) = some (consolidate_from r.start r.stop rs)

pub split : List Range → ℕ → List Range
split [] i = []
split (r ∷ rs) i =
    let rest = split rs i in
    if in_range i r && ltb r.start i then range r.start i ∷ range i r.stop ∷ rest else r ∷ rest

-- The test and the loop of `exclude`, over the ranges that are split already.
abbrev outside : Range → Range → Bool
outside ex r = leb r.stop ex.start || leb ex.stop r.start

keep_outside : List Range → Range → List Range
keep_outside [] ex = []
keep_outside (r ∷ rs) ex = let rest = keep_outside rs ex in if outside ex r then r ∷ rest else rest

unfoldable pub exclude : List Range → Range → List Range
unfolding split keep_outside
exclude ranges ex = keep_outside (split (split ranges ex.start) ex.stop) ex

unfoldable pub intersect : Range → Range → Option Range
intersect a b =
    let r = range (max a.start b.start) (min a.stop b.stop) in if nonempty r then some r else none
