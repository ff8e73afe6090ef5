-- ===== src/Pypi/Sorting.antt =====
-- How the buffer of PyPIBuffer is sorted.
use piwheels.Prelude.{
  list_eq, nat_eq, ◌≡◌, ◌⊎◌, refl, ◌∙◌, ap, true, false, List, [], ◌∷◌, ◌++◌, All, Any, arith,
  Bool-cases, inl, inr,
}
use piwheels.Pypi.{Event, earlier, insert_event, sort_into, sort}

-- `a` comes before `b`, or is at the same place.
abbrev pub Le : Event → Event → Type 0
Le a b = earlier b a ≡ false

abbrev pub Sorted : List Event → Type 0
Sorted [] = Unit
Sorted (x ∷ xs) = All (Le x) xs × Sorted xs

pub Le-trans : (a b c : Event) → Le a b → Le b c → Le a c
unfolding earlier
Le-trans a b c h k = ground arith

pub Le-total : (a b : Event) → earlier a b ≡ true → Le a b
unfolding earlier
Le-total a b h = ground arith

pub All-Le : (a b : Event) (xs : List Event) → Le a b → All (Le b) xs → All (Le a) xs
All-Le a b [] h k = tt
All-Le a b (x ∷ xs) h k = (Le-trans a b x h k.0, All-Le a b xs h k.1)

module _ (P : Event → Type 0) where
  pub All-append : (xs ys : List Event) → All P xs → All P ys → All P (xs ++ ys)
  All-append [] ys h k = k
  All-append (x ∷ xs) ys h k = (h.0, All-append xs ys h.1 k)

  pub All-append-left : (xs ys : List Event) → All P (xs ++ ys) → All P xs
  All-append-left [] ys h = tt
  All-append-left (x ∷ xs) ys h = (h.0, All-append-left xs ys h.1)

  pub All-append-right : (xs ys : List Event) → All P (xs ++ ys) → All P ys
  All-append-right [] ys h = h
  All-append-right (x ∷ xs) ys h = All-append-right xs ys h.1

  All-insert_event : (e : Event) (xs : List Event) → P e → All P xs → All P (insert_event e xs)
  unfolding insert_event
  All-insert_event e [] p h = (p, tt)
  All-insert_event e (x ∷ xs) p h = elim (Bool-cases (earlier e x)) [
    | inl before ↦ rw before (p, (h.0, h.1))
    | inr after ↦ rw after (h.0, All-insert_event e xs p h.1)
  ]

  pub All-sort_into : (ss es : List Event) → All P ss → All P es → All P (sort_into ss es)
  unfolding sort_into
  All-sort_into ss [] h k = h
  All-sort_into ss (e ∷ es) h k =
      All-sort_into (insert_event e ss) es (All-insert_event e ss k.0 h) k.1

  Any-insert_event-new : (e : Event) (xs : List Event) → P e → Any P (insert_event e xs)
  unfolding insert_event
  Any-insert_event-new e [] p = inl p
  Any-insert_event-new e (x ∷ xs) p = elim (Bool-cases (earlier e x)) [
    | inl before ↦ rw before (inl p)
    | inr after ↦ rw after (inr (Any-insert_event-new e xs p))
  ]

  Any-insert_event : (e : Event) (xs : List Event) → Any P xs → Any P (insert_event e xs)
  unfolding insert_event
  Any-insert_event e [] h = absurd h
  Any-insert_event e (x ∷ xs) h = elim (Bool-cases (earlier e x)) [
    | inl before ↦ rw before (inr h)
    | inr after ↦
        rw after (elim h [ inl here ↦ inl here | inr there ↦ inr (Any-insert_event e xs there) ])
  ]

  pub Any-sort_into : (ss es : List Event) → Any P ss ⊎ Any P es → Any P (sort_into ss es)
  unfolding sort_into
  Any-sort_into ss [] (inl h) = h
  Any-sort_into ss [] (inr h) = absurd h
  Any-sort_into ss (e ∷ es) (inl h) =
      Any-sort_into (insert_event e ss) es (inl (Any-insert_event e ss h))
  Any-sort_into ss (e ∷ es) (inr (inl h)) =
      Any-sort_into (insert_event e ss) es (inl (Any-insert_event-new e ss h))
  Any-sort_into ss (e ∷ es) (inr (inr h)) = Any-sort_into (insert_event e ss) es (inr h)

insert_event-Sorted : (e : Event) (xs : List Event) → Sorted xs → Sorted (insert_event e xs)
unfolding insert_event
insert_event-Sorted e [] h = (tt, tt)
insert_event-Sorted e (x ∷ xs) h = elim (Bool-cases (earlier e x)) [
  | inl before ↦
      let le : Le e x = Le-total e x before in rw before ((le, All-Le e x xs le h.0), (h.0, h.1))
  | inr after ↦ rw after (All-insert_event (Le x) e xs after h.0, insert_event-Sorted e xs h.1)
]

pub sort_into-Sorted : (ss es : List Event) → Sorted ss → Sorted (sort_into ss es)
unfolding sort_into
sort_into-Sorted ss [] h = h
sort_into-Sorted ss (e ∷ es) h =
    sort_into-Sorted (insert_event e ss) es (insert_event-Sorted e ss h)

insert_event-append :
    (e : Event) (p r : List Event)
    → All (λ x. Le x e) p
    → insert_event e (p ++ r) ≡ p ++ insert_event e r
unfolding insert_event
insert_event-append e [] r h = refl
insert_event-append e (x ∷ p) r h = rw h.0 (ap (λ xs. x ∷ xs) (insert_event-append e p r h.1))

-- What is sorted in behind a part that nothing comes before.
pub sort_into-append :
    (p r es : List Event)
    → All (λ e. All (λ x. Le x e) p) es
    → sort_into (p ++ r) es ≡ p ++ sort_into r es
unfolding sort_into
sort_into-append p r [] h = refl
sort_into-append p r (e ∷ es) h =
    ap (λ ss. sort_into ss es) (insert_event-append e p r h.0)
    ∙ sort_into-append p (insert_event e r) es h.1

pub sort_into-++ :
    (ss xs ys : List Event) → sort_into ss (xs ++ ys) ≡ sort_into (sort_into ss xs) ys
unfolding sort_into
sort_into-++ ss [] ys = refl
sort_into-++ ss (x ∷ xs) ys = sort_into-++ (insert_event x ss) xs ys

behind_one :
    (x : Event) (xs : List Event) → All (Le x) xs → All (λ e. All (λ y. Le y e) (x ∷ [])) xs
behind_one x [] h = tt
behind_one x (e ∷ es) h = ((h.0, tt), behind_one x es h.1)

-- A sorted list stays as it is.
pub sort-Sorted : (xs : List Event) → Sorted xs → sort xs ≡ xs
unfolding sort_into insert_event
sort-Sorted [] h = refl
sort-Sorted (x ∷ xs) h =
    sort_into-append (x ∷ []) [] xs (behind_one x xs h.0) ∙ ap (λ es. x ∷ es) (sort-Sorted xs h.1)
