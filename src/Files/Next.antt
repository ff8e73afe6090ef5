-- ===== src/Files/Next.antt =====
-- `next_file` and `transfers_done` of BuildState.
use piwheels.Prelude.{
  subst, le_text_refl, sym, ◌≡◌, refl, ◌∙◌, true, false, not, ◌&&◌, some, [], ◌∷◌, All, arith, Text,
  list_eq, nat_eq, Bool-cases, Option-cases, inl, inr, le_text, le_text_trans, le_text_of_lt,
  is_some,
}
use piwheels.Dict.{Dict, lookup, has}
use piwheels.Dict.Laws.{has-lookup, NodupKeys}
use piwheels.Files.{
  FileState, BuildState, all_transferred, transfers_done, insert_sorted, sorted_items,
  first_waiting, next_file,
}
use piwheels.Files.Sorted.{
  has-sorted_items, has-first_waiting, lookup-sorted_items, sorted_items-NodupKeys,
  first_waiting-IsWaiting, IsWaiting,
}

all_transferred-insert_sorted :
    (k : Text) (f : FileState) (d : Dict Text FileState)
    → all_transferred (insert_sorted (k, f) d) ≡ (f.transferred && all_transferred d)
unfolding insert_sorted all_transferred
all_transferred-insert_sorted k f [] = refl
all_transferred-insert_sorted k f ((j, g) ∷ d) = ground (arith, all_transferred-insert_sorted k f d)

all_transferred-sorted_items :
    (d : Dict Text FileState) → all_transferred (sorted_items d) ≡ all_transferred d
unfolding sorted_items all_transferred
all_transferred-sorted_items [] = refl
all_transferred-sorted_items ((k, f) ∷ d) =
    ground
      (arith, all_transferred-insert_sorted k f (sorted_items d), all_transferred-sorted_items d)

first_waiting-all_transferred :
    (d : Dict Text FileState) → is_some (first_waiting d) ≡ not (all_transferred d)
unfolding first_waiting all_transferred
first_waiting-all_transferred [] = refl
first_waiting-all_transferred ((k, f) ∷ d) = ground (arith, first_waiting-all_transferred d)

-- There is a next file exactly while the transfers are not done.
pub next_file-transfers_done : (b : BuildState) → is_some (next_file b) ≡ not (transfers_done b)
unfolding next_file transfers_done
next_file-transfers_done b = ground (
  arith,
  first_waiting-all_transferred (sorted_items b.files),
  all_transferred-sorted_items b.files,
)

-- The next file is one of the build's.
pub next_file-lookup :
    (b : BuildState) (n : Text)
    → next_file b ≡ some n
    → (f : FileState) × (lookup n b.files ≡ some f)
unfolding next_file
next_file-lookup b n e =
    let found : has n b.files ≡ true =
      sym (has-sorted_items n b.files) ∙ has-first_waiting n (sorted_items b.files) e in
    elim (Option-cases (lookup n b.files)) [
      | inl miss ↦ absurd (ground (arith, has-lookup n b.files))
      | inr hit ↦ hit
    ]

-- The order

abbrev AllLe : Text → Dict Text FileState → Type 0
AllLe n = All (λ e. le_text n e.0 ≡ true)

abbrev Ordered : Dict Text FileState → Type 0
Ordered [] = Unit
Ordered ((k, f) ∷ d) = AllLe k d × Ordered d

AllLe-trans : (m n : Text) (d : Dict Text FileState) → le_text m n ≡ true → AllLe n d → AllLe m d
AllLe-trans m n [] h a = tt
AllLe-trans m n ((k, f) ∷ d) h a = (le_text_trans m n k h a.0, AllLe-trans m n d h a.1)

module _ (P : Text × FileState → Type 0) where
  pub All-insert_sorted :
      (k : Text) (f : FileState) (d : Dict Text FileState)
      → P (k, f)
      → All P d
      → All P (insert_sorted (k, f) d)
  unfolding insert_sorted
  All-insert_sorted k f [] p h = (p, tt)
  All-insert_sorted k f ((j, g) ∷ d) p h = elim (Bool-cases (le_text k j)) [
    | inl le ↦ rw le (p, h)
    | inr gt ↦ rw gt (h.0, All-insert_sorted k f d p h.1)
  ]

  All_of-insert_sorted :
      (k : Text) (f : FileState) (d : Dict Text FileState)
      → All P (insert_sorted (k, f) d)
      → P (k, f) × All P d
  unfolding insert_sorted
  All_of-insert_sorted k f [] h = h
  All_of-insert_sorted k f ((j, g) ∷ d) h = elim (Bool-cases (le_text k j)) [
    | inl le ↦ rw le at h
    | inr gt ↦
        let parts : P (j, g) × All P (insert_sorted (k, f) d) = rw gt at h in
        let rest = All_of-insert_sorted k f d parts.1 in (rest.0, (parts.0, rest.1))
  ]

  All_of-sorted_items : (d : Dict Text FileState) → All P (sorted_items d) → All P d
  unfolding sorted_items
  All_of-sorted_items [] h = tt
  All_of-sorted_items ((k, f) ∷ d) h =
      let parts = All_of-insert_sorted k f (sorted_items d) h in
      (parts.0, All_of-sorted_items d parts.1)

insert_sorted-Ordered :
    (k : Text) (f : FileState) (d : Dict Text FileState)
    → Ordered d
    → Ordered (insert_sorted (k, f) d)
unfolding insert_sorted
insert_sorted-Ordered k f [] o = (tt, tt)
insert_sorted-Ordered k f ((j, g) ∷ d) o = elim (Bool-cases (le_text k j)) [
  | inl le ↦ rw le ((le, AllLe-trans k j d le o.0), o)
  | inr gt ↦
      let jk : le_text j k ≡ true = le_text_of_lt j k (ground arith) in
      rw gt (
        All-insert_sorted (λ e. le_text j e.0 ≡ true) k f d jk o.0,
        insert_sorted-Ordered k f d o.1,
      )
]

sorted_items-Ordered : (d : Dict Text FileState) → Ordered (sorted_items d)
unfolding sorted_items
sorted_items-Ordered [] = tt
sorted_items-Ordered ((k, f) ∷ d) =
    insert_sorted-Ordered k f (sorted_items d) (sorted_items-Ordered d)

-- A file that waits is not before `n`.
abbrev pub IsNotBefore : Text → Text × FileState → Type 0
IsNotBefore n (k, f) = f.transferred ≡ false → le_text n k ≡ true

All-weaken : (n : Text) (d : Dict Text FileState) → AllLe n d → All (IsNotBefore n) d
All-weaken n [] a = tt
All-weaken n ((k, f) ∷ d) a = (λ _. a.0, All-weaken n d a.1)

first_waiting-least :
    (n : Text) (d : Dict Text FileState)
    → Ordered d
    → first_waiting d ≡ some n
    → All (IsNotBefore n) d
unfolding first_waiting
first_waiting-least n [] o e = tt
first_waiting-least n ((k, f) ∷ d) o e = elim (Bool-cases f.transferred) [
  | inl sent ↦ (λ waits. cc, first_waiting-least n d o.1 (rw (sent, first_waiting) at e))
  | inr waits ↦
      let here : some k ≡ some n = rw (waits, first_waiting) at e in
      let same : k ≡ n = cc in
      subst (λ m. All (IsNotBefore m) ((k, f) ∷ d)) same (λ _. le_text_refl k, All-weaken k d o.0)
]

-- In a build whose files have distinct names, as the keys of a `dict` have, the next file is one of the
-- build's files that still wait, and the first of these by name; there is none exactly when all
-- transfers are done.
pub next_file_lem :
    (b : BuildState)
    → NodupKeys b.files
    → (is_some (next_file b) ≡ not (transfers_done b))
      × ((n : Text) → next_file b ≡ some n → IsWaiting n b.files × All (IsNotBefore n) b.files)
next_file_lem b nodup = (
  next_file-transfers_done b,
  λ n e. (
    unfold next_file in
        let (f, at, waits) =
          first_waiting-IsWaiting n (sorted_items b.files) (sorted_items-NodupKeys b.files nodup)
            e in
        (f, sym (lookup-sorted_items n b.files nodup) ∙ at, waits),
    unfold next_file in
        All_of-sorted_items (IsNotBefore n) b.files
          (first_waiting-least n (sorted_items b.files) (sorted_items-Ordered b.files) e),
  ),
)
