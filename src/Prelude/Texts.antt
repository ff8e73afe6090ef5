-- ===== src/Prelude/Texts.antt =====
-- Python's `str`, as its code points, with the order by which `sorted` arranges texts.
use Prim.Native.Nat.{ℕ, ◌-◌}
use Prim.Native.Char.{code}
use Prim.Native.String.{String}
use mathlib.Core.Path.{◌≡◌, refl}
use mathlib.Core.Bool.{Bool, true, false, not}
use mathlib.Core.List.{List, [], ◌∷◌}
use native.Mathlib.Omega.{arith}
use piwheels.Prelude.Tests.{ltb, if◌then◌else◌}
use piwheels.Prelude.Lists.{length, take}

abbrev pub Text : Type 0
Text = List ℕ

abbrev pub text : String → Text
text String.[] = []
text (String.◌∷◌ c s) = code c ∷ text s

-- s[:-n]
abbrev pub drop_last : ℕ → Text → Text
drop_last n s = take (length s - n) s

-- a < b on texts
pub lt_text : Text → Text → Bool
lt_text [] [] = false
lt_text [] (y ∷ ys) = true
lt_text (x ∷ xs) [] = false
lt_text (x ∷ xs) (y ∷ ys) =
    let rest = lt_text xs ys in if ltb x y then true else if ltb y x then false else rest

-- a <= b on texts
abbrev pub le_text : Text → Text → Bool
le_text a b = not (lt_text b a)

pub le_text_trans : (a b c : Text) → le_text a b ≡ true → le_text b c ≡ true → le_text a c ≡ true
unfolding lt_text
le_text_trans [] [] [] h k = refl
le_text_trans [] [] (z ∷ zs) h k = refl
le_text_trans [] (y ∷ ys) [] h k = refl
le_text_trans [] (y ∷ ys) (z ∷ zs) h k = refl
le_text_trans (x ∷ xs) [] c h k = ground arith
le_text_trans (x ∷ xs) (y ∷ ys) [] h k = ground arith
le_text_trans (x ∷ xs) (y ∷ ys) (z ∷ zs) h k = ground (arith, le_text_trans xs ys zs)

pub le_text_of_lt : (a b : Text) → lt_text a b ≡ true → le_text a b ≡ true
unfolding lt_text
le_text_of_lt [] [] h = refl
le_text_of_lt [] (y ∷ ys) h = refl
le_text_of_lt (x ∷ xs) [] h = ground arith
le_text_of_lt (x ∷ xs) (y ∷ ys) h = ground (arith, le_text_of_lt xs ys)

pub le_text_antisymm : (a b : Text) → le_text a b ≡ true → le_text b a ≡ true → a ≡ b
unfolding lt_text
le_text_antisymm [] [] h k = refl
le_text_antisymm [] (y ∷ ys) h k = ground arith
le_text_antisymm (x ∷ xs) [] h k = ground arith
le_text_antisymm (x ∷ xs) (y ∷ ys) h k = ground (arith, le_text_antisymm xs ys)

pub le_text_refl : (n : Text) → le_text n n ≡ true
unfolding lt_text
le_text_refl [] = refl
le_text_refl (x ∷ xs) = ground (arith, le_text_refl xs)
