-- ===== src/MrChase/Names.antt =====
-- The names of packages: canonicalize_name (piwheels/format.py), and the aliases that MrChase
-- records (piwheels/master/mr_chase.py).
use piwheels.Prelude.{
  ℕ, list_eq, nat_eq, ◌==◌, ◌≡◌, refl, Bool, true, false, not, ◌||◌, ◌&&◌, List, [], ◌∷◌, ◌++◌,
  Text, leb, ltb, if◌then◌else◌, arith,
}
use piwheels.Transfer.{lower}

-- [-_.]
abbrev is_separator : ℕ → Bool
is_separator c = c == 45 || c == 95 || c == 46

-- _canonicalize_regex.sub("-", name): each run of separators gives one dash. The flag says whether
-- the character before was one.
unfoldable pub sub_dashes : Bool → Text → Text
sub_dashes after [] = []
sub_dashes after (c ∷ s) =
    let run = sub_dashes true s in
    let word = sub_dashes false s in
    if is_separator c then (if after then run else 45 ∷ run) else c ∷ word

-- Names are ASCII here.
unfoldable pub canonicalize_name : Text → Text
unfolding sub_dashes lower
canonicalize_name name = lower (sub_dashes false name)

-- A canonical name, after a dash or not: no capital, no '_' or '.', and no two dashes in a row.
unfoldable pub is_canonical : Bool → Text → Bool
is_canonical after [] = true
is_canonical after (c ∷ s) =
    not (c == 95 || c == 46 || (leb 65 c && ltb c 91) || (after && c == 45))
    && is_canonical (c == 45) s

canonical_after : (b : Bool) (s : Text) → is_canonical b (lower (sub_dashes b s)) ≡ true
unfolding is_canonical lower sub_dashes
canonical_after b [] = refl
canonical_after b (c ∷ s) = ground (arith, canonical_after true s, canonical_after false s)

lower_canonical : (b : Bool) (s : Text) → is_canonical b s ≡ true → lower (sub_dashes b s) ≡ s
unfolding is_canonical lower sub_dashes
lower_canonical b [] h = refl
lower_canonical b (c ∷ s) h = ground (arith, lower_canonical true s, lower_canonical false s)

-- A name that is made canonical has no capitals, no '_' or '.', and no two dashes in a row, and the
-- names that are so already stay as they are; so making a name canonical again does not change it.
pub canonicalize_name_lem :
    (name : Text)
    → (is_canonical false (canonicalize_name name) ≡ true)
      × ((s : Text) → is_canonical false s ≡ true → canonicalize_name s ≡ s)
      × (canonicalize_name (canonicalize_name name) ≡ canonicalize_name name)
unfolding canonicalize_name
canonicalize_name_lem name =
    let canonical = canonical_after false name in
    (
      canonical,
      lower_canonical false,
      lower_canonical false (lower (sub_dashes false name)) canonical,
    )

abbrev pub filter : (Text → Bool) → List Text → List Text
filter p [] = []
filter p (x ∷ xs) = let rest = filter p xs in if p x then x ∷ rest else rest

unfoldable pub member : Text → List Text → Bool
member x [] = false
member x (y ∷ ys) = x == y || member x ys

-- The members of a set, each once.
unfoldable pub to_set : List Text → List Text
unfolding member
to_set [] = []
to_set (x ∷ xs) = let rest = to_set xs in if member x xs then rest else x ∷ rest

-- sorted(set(aliases) | {package, display_name}, key=lambda s: s == display_name): the sort is stable,
-- so what differs from the display name comes first, in the order of the set.
unfoldable pub ordered_aliases : (List Text → List Text) → Text → Text → List Text → List Text
unfolding to_set
ordered_aliases arrange pkg display aliases =
    let names = arrange (to_set (aliases ++ pkg ∷ display ∷ [])) in
    filter (λ s. not (s == display)) names ++ filter (λ s. s == display) names
