-- ===== src/MrChase/Aliases.antt =====
-- The aliases of a package that MrChase records, and the removals that it passes on
-- (piwheels/master/mr_chase.py).
use piwheels.Prelude.{
  ℕ, suc, ◌+◌, list_eq, nat_eq, ◌==◌, ◌≡◌, refl, ◌∙◌, ap, Bool, true, false, not, List, [], ◌∷◌,
  ◌++◌, Text, ltb, if◌then◌else◌, arith, beq_refl, eq_of_beq, Bool-cases, inl, inr, replicate,
}
use piwheels.MrChase.Names.{member, to_set, filter, ordered_aliases}

-- How often a name stands in a list.
unfoldable pub count : Text → List Text → ℕ
count x [] = 0
count x (y ∷ ys) = let rest = count x ys in if x == y then suc rest else rest

count-append : (x : Text) (xs ys : List Text) → count x (xs ++ ys) ≡ count x xs + count x ys
unfolding count
count-append x [] ys = omega arith
count-append x (z ∷ xs) ys = ground (arith, count-append x xs ys)

member-count : (x : Text) (xs : List Text) → member x xs ≡ ltb 0 (count x xs)
unfolding member count
member-count x [] = refl
member-count x (y ∷ ys) = ground (arith, member-count x ys)

count-to_set : (x : Text) (xs : List Text) → count x (to_set xs) ≡ (if member x xs then 1 else 0)
unfolding to_set member count
count-to_set x [] = refl
count-to_set x (y ∷ ys) = elim (Bool-cases (member y ys)) [
  | inl there ↦ rw there (elim (Bool-cases (x == y)) [
    | inl same ↦
        let as_well : member x ys ≡ true = ap (λ z. member z ys) (eq_of_beq x y same) ∙ there in
        rw same (count-to_set x ys ∙ rw as_well refl)
    | inr apart ↦ rw apart (count-to_set x ys)
  ])
  | inr new ↦ rw new (elim (Bool-cases (x == y)) [
    | inl same ↦
        let as_well : member x ys ≡ false = ap (λ z. member z ys) (eq_of_beq x y same) ∙ new in
        rw same (ap suc (count-to_set x ys ∙ rw as_well refl))
    | inr apart ↦ rw apart (count-to_set x ys)
  ])
]

filter-display : (d : Text) (xs : List Text) → filter (λ s. s == d) xs ≡ replicate (count d xs) d
unfolding count
filter-display d [] = refl
filter-display d (x ∷ xs) = elim (Bool-cases (x == d)) [
  | inl same ↦
      let e : x ≡ d = eq_of_beq x d same in
      rw (e, beq_refl d) (ap (λ rest. d ∷ rest) (filter-display d xs))
  | inr apart ↦
      let e : (d == x) ≡ false = ground (arith, eq_of_beq d x, beq_refl d, apart) in
      rw (apart, e) (filter-display d xs)
]

count-filter :
    (p : Text → Bool) (x : Text) (xs : List Text)
    → count x (filter (λ s. not (p s)) xs ++ filter p xs) ≡ count x xs
unfolding count
count-filter p x xs = count-append x (filter (λ s. not (p s)) xs) (filter p xs) ∙ split xs
  where
    split :
        (xs : List Text) → count x (filter (λ s. not (p s)) xs) + count x (filter p xs) ≡ count x xs
    split [] = refl
    split (y ∷ ys) = ground (arith, split ys)

count-others : (d : Text) (xs : List Text) → count d (filter (λ s. not (s == d)) xs) ≡ 0
unfolding count
count-others d [] = refl
count-others d (x ∷ xs) =
    ground (arith, count-others d xs, eq_of_beq x d, eq_of_beq d x, beq_refl d)

member-last : (d pkg : Text) (xs : List Text) → member d (xs ++ pkg ∷ d ∷ []) ≡ true
unfolding member
member-last d pkg [] = ground (arith, beq_refl d)
member-last d pkg (x ∷ xs) = ground (arith, member-last d pkg xs)

-- The aliases that are recorded for a package are those that were given, its canonical name and its
-- display name, each once, in whatever order the set has its members; the display name is recorded
-- after all the others, which is what marks it as the name that is shown.
pub ordered_aliases_lem :
    (arrange : List Text → List Text) (pkg display : Text) (aliases : List Text)
    → ((x : Text) (xs : List Text) → count x (arrange xs) ≡ count x xs)
    → (others : List Text) × (ordered_aliases arrange pkg display aliases ≡ others ++ display ∷ [])
      × (count display others ≡ 0)
      × ((x : Text)
          → count x (ordered_aliases arrange pkg display aliases)
            ≡ (if member x (aliases ++ pkg ∷ display ∷ []) then 1 else 0))
unfolding ordered_aliases
ordered_aliases_lem arrange pkg display aliases same =
    let all = aliases ++ pkg ∷ display ∷ [] in
    let names = arrange (to_set all) in
    let once : (x : Text) → count x names ≡ (if member x all then 1 else 0) =
      λ x. same x (to_set all) ∙ count-to_set x all in
    let shown : count display names ≡ 1 =
      once display ∙ rw (member-last display pkg aliases) refl in
    (
      filter (λ s. not (s == display)) names,
      ap (λ last. filter (λ s. not (s == display)) names ++ last)
          (filter-display display names ∙ rw shown refl),
      count-others display names,
      λ x. count-filter (λ s. s == display) x names ∙ once x,
    )
