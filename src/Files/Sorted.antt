-- ===== src/Files/Sorted.antt =====
-- What the sorted files of a build hold, as `next_file` goes through them.
use piwheels.Prelude.{
  ap, Eq, eq_of_beq, ◌≡◌, refl, ◌∙◌, true, false, some, [], ◌∷◌, arith, Text, list_eq, nat_eq, ◌==◌,
  if◌then◌else◌, Bool-cases, inl, inr, le_text, beq_refl, Option,
}
use piwheels.Dict.{Dict, lookup, has}
use piwheels.Dict.Laws.{NodupKeys}
use piwheels.Files.{FileState, insert_sorted, sorted_items, first_waiting}

has-insert_sorted :
    (n k : Text) (f : FileState) (d : Dict Text FileState)
    → has n (insert_sorted (k, f) d) ≡ (if k == n then true else has n d)
unfolding insert_sorted has
has-insert_sorted n k f [] = refl
has-insert_sorted n k f ((j, g) ∷ d) = ground (arith, has-insert_sorted n k f d)

pub has-sorted_items : (n : Text) (d : Dict Text FileState) → has n (sorted_items d) ≡ has n d
unfolding sorted_items has
has-sorted_items n [] = refl
has-sorted_items n ((k, f) ∷ d) =
    ground (arith, has-insert_sorted n k f (sorted_items d), has-sorted_items n d)

pub has-first_waiting :
    (n : Text) (d : Dict Text FileState) → first_waiting d ≡ some n → has n d ≡ true
unfolding first_waiting has
has-first_waiting n [] e = cc
has-first_waiting n ((k, f) ∷ d) e = elim (Bool-cases f.transferred) [
  | inl sent ↦ ground (arith, has-first_waiting n d)
  | inr waits ↦
      let here : some k ≡ some n = rw (waits, first_waiting) at e in
      let same : k ≡ n = cc in rw (same, beq_refl n)
]

-- The next file still waits

apart_of-has :
    (j k : Text) (g : FileState) (d : Dict Text FileState)
    → has k ((j, g) ∷ d) ≡ false
    → (j == k ≡ false) × (has k d ≡ false)
unfolding has
apart_of-has j k g d h = ground arith

in_order :
    (n j k : Text) (f g : FileState) (o : Option FileState)
    → j == k ≡ false
    → (if j == n then some g else if k == n then some f else o)
      ≡ (if k == n then some f else if j == n then some g else o)
in_order n j k f g o apart =
    let e : Eq Text = list_eq in ground (arith, e.beq_iff k n, e.beq_iff j k, e.beq_iff j n)

lookup-insert_sorted :
    (n k : Text) (f : FileState) (d : Dict Text FileState)
    → has k d ≡ false
    → lookup n (insert_sorted (k, f) d) ≡ (if k == n then some f else lookup n d)
unfolding insert_sorted lookup
lookup-insert_sorted n k f [] h = refl
lookup-insert_sorted n k f ((j, g) ∷ d) h = elim (Bool-cases (le_text k j)) [
  | inl le ↦ rw le refl
  | inr gt ↦
      let (apart, new) = apart_of-has j k g d h in
      rw gt (
        ap (λ o. if j == n then some g else o) (lookup-insert_sorted n k f d new)
        ∙ in_order n j k f g (lookup n d) apart)
]

pub lookup-sorted_items :
    (n : Text) (d : Dict Text FileState) → NodupKeys d → lookup n (sorted_items d) ≡ lookup n d
unfolding sorted_items lookup
lookup-sorted_items n [] h = refl
lookup-sorted_items n ((k, f) ∷ d) h =
    lookup-insert_sorted n k f (sorted_items d) (has-sorted_items k d ∙ h.0)
    ∙ ap (λ o. if k == n then some f else o) (lookup-sorted_items n d h.1)

insert_sorted-NodupKeys :
    (k : Text) (f : FileState) (d : Dict Text FileState)
    → has k d ≡ false
    → NodupKeys d
    → NodupKeys (insert_sorted (k, f) d)
unfolding insert_sorted has
insert_sorted-NodupKeys k f [] h n = (refl, tt)
insert_sorted-NodupKeys k f ((j, g) ∷ d) h n =
    let e : Eq Text = list_eq in
    ground (
      arith,
      e.beq_iff k j,
      e.beq_iff j k,
      has-insert_sorted j k f d,
      insert_sorted-NodupKeys k f d,
    )

pub sorted_items-NodupKeys : (d : Dict Text FileState) → NodupKeys d → NodupKeys (sorted_items d)
unfolding sorted_items
sorted_items-NodupKeys [] n = tt
sorted_items-NodupKeys ((k, f) ∷ d) n =
    insert_sorted-NodupKeys k f (sorted_items d) (has-sorted_items k d ∙ n.0)
      (sorted_items-NodupKeys d n.1)

-- The file of this name is there, and still waits.
abbrev pub IsWaiting : Text → Dict Text FileState → Type 0
IsWaiting n d = (f : FileState) × (lookup n d ≡ some f) × (f.transferred ≡ false)

pub first_waiting-IsWaiting :
    (n : Text) (d : Dict Text FileState) → NodupKeys d → first_waiting d ≡ some n → IsWaiting n d
unfolding first_waiting lookup
first_waiting-IsWaiting n [] h e = cc
first_waiting-IsWaiting n ((k, f) ∷ d) h e = elim (Bool-cases f.transferred) [
  | inl sent ↦
      let later : first_waiting d ≡ some n = rw (sent, first_waiting) at e in
      let (g, at, waits) = first_waiting-IsWaiting n d h.1 later in
      elim (Bool-cases (k == n)) [
        | inl same ↦ absurd (ground (arith, has-first_waiting n d later, eq_of_beq k n same))
        | inr other ↦ (g, rw (other, lookup) at, waits)
      ]
  | inr waits ↦
      let here : some k ≡ some n = rw (waits, first_waiting) at e in
      let same : k ≡ n = cc in (f, rw (same, beq_refl n) refl, waits)
]
