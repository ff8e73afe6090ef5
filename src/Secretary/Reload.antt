-- ===== src/Secretary/Reload.antt =====
-- The buffer of TheSecretary outlives a restart.
use piwheels.Prelude.{
  ℕ, list_eq, nat_eq, ◌≡◌, refl, ◌∙◌, sym, ap, true, Option, none, some, [], ◌∷◌, ◌++◌, Text, arith,
  Bool-cases, Option-cases, inl, inr, All, is_some, eq_of_beq,
}
use piwheels.Dict.{Dict, lookup, has}
use piwheels.Dict.Laws.{NodupKeys, has-lookup, lookup-insert}
use piwheels.Result.{ok}
use piwheels.Secretary.{Command, Secretary, Pending, save, load, new_secretary}
use piwheels.Secretary.Buffer.{text_eq, IsValid}

abbrev tasks : Pending → Dict Text ℕ
tasks [] = []
tasks ((p, (at, c)) ∷ rows) = (p, at) ∷ tasks rows

abbrev command_of : Option Command → Option (ℕ × Command) → Option Command
command_of old none = old
command_of old (some (at, c)) = some c

abbrev row_of : Option ℕ → Option Command → Option (ℕ × Command)
row_of none c = none
row_of (some at) none = none
row_of (some at) (some c) = some (at, c)

append_assoc : (xs ys zs : Dict Text ℕ) → (xs ++ ys) ++ zs ≡ xs ++ (ys ++ zs)
append_assoc [] ys zs = refl
append_assoc (x ∷ xs) ys zs = rw (append_assoc xs ys zs) refl

append_nil : (xs : Dict Text ℕ) → xs ++ [] ≡ xs
append_nil [] = refl
append_nil (x ∷ xs) = rw (append_nil xs) refl

buffer-load : (rows : Pending) (s : Secretary) → (load rows s).buffer ≡ s.buffer ++ tasks rows
unfolding load
buffer-load [] s = sym (append_nil s.buffer)
buffer-load ((p, (at, c)) ∷ rows) s =
    buffer-load rows _ ∙ append_assoc s.buffer ((p, at) ∷ []) (tasks rows)

commands-load :
    (k : Text) (rows : Pending) (s : Secretary)
    → NodupKeys rows
    → lookup k (load rows s).commands ≡ command_of (lookup k s.commands) (lookup k rows)
unfolding load lookup
commands-load k [] s n = refl
commands-load k ((p, (at, c)) ∷ rows) s n =
    commands-load k rows _ n.1
    ∙ ground (arith, lookup-insert p k c s.commands, has-lookup p rows, n.0, text_eq.beq_iff p k)

abbrev Saved : Dict Text ℕ → Dict Text Command → Type 0
Saved buffer commands =
    (rows : Pending) × (save buffer commands ≡ ok rows)
    × (tasks rows ≡ buffer)
    × ((k : Text) → lookup k rows ≡ row_of (lookup k buffer) (lookup k commands))

row_at :
    (k p : Text) (at : ℕ) (c : Command) (rows : Pending) (buffer : Dict Text ℕ)
    (commands : Dict Text Command)
    → lookup p commands ≡ some c
    → lookup k rows ≡ row_of (lookup k buffer) (lookup k commands)
    → lookup k ((p, (at, c)) ∷ rows) ≡ row_of (lookup k ((p, at) ∷ buffer)) (lookup k commands)
unfolding lookup
row_at k p at c rows buffer commands found h = elim (Bool-cases (text_eq.beq p k)) [
  | inl same ↦ rw same (rw (← eq_of_beq p k same, found) refl)
  | inr other ↦ rw other h
]

picked :
    (o : Option ℕ) (c : Option Command) → is_some c ≡ is_some o → command_of none (row_of o c) ≡ c
picked none none e = refl
picked none (some c) e = cc
picked (some at) none e = cc
picked (some at) (some c) e = refl

save-Saved :
    (buffer : Dict Text ℕ) (commands : Dict Text Command)
    → All (λ e. is_some (lookup e.0 commands) ≡ true) buffer
    → Saved buffer commands
unfolding save lookup
save-Saved [] commands h = ([], refl, refl, λ k. refl)
save-Saved ((p, at) ∷ buffer) commands h =
    let (rows, e, same, at_key) = save-Saved buffer commands h.1 in
    elim (Option-cases (lookup p commands)) [
      | inl miss ↦ absurd (ground (arith, h.0))
      | inr (c, found) ↦ (
        (p, (at, c)) ∷ rows,
        rw (found, e),
        ap (λ b. (p, at) ∷ b) same,
        λ k. row_at k p at c rows buffer commands found (at_key k),
      )
    ]

has-tasks : (k : Text) (rows : Pending) → has k (tasks rows) ≡ has k rows
unfolding has
has-tasks k [] = refl
has-tasks k ((p, (at, c)) ∷ rows) = ground (arith, has-tasks k rows)

nodup_of_tasks : (rows : Pending) → NodupKeys (tasks rows) → NodupKeys rows
nodup_of_tasks [] n = tt
nodup_of_tasks ((p, (at, c)) ∷ rows) n = (sym (has-tasks p rows) ∙ n.0, nodup_of_tasks rows n.1)

all_known :
    (b : Dict Text ℕ) (commands : Dict Text Command)
    → ((p : Text) → has p b ≡ true → is_some (lookup p commands) ≡ true)
    → All (λ e. is_some (lookup e.0 commands) ≡ true) b
unfolding has
all_known [] commands h = tt
all_known ((q, at) ∷ b) commands h =
    (h q (ground (arith, text_eq.beq_iff q q)), all_known b commands λ p in_b. h p (ground arith))

-- The rows that `close` stores when TheSecretary stops give the same buffer back, with the same
-- times in the same order, and the same command for each package, when they are loaded into a new
-- TheSecretary; storing them does not fail.
pub load-save :
    (s : Secretary) (timeout : ℕ)
    → IsValid s
    → (rows : Pending) × (save s.buffer s.commands ≡ ok rows)
      × ((load rows (new_secretary timeout)).buffer ≡ s.buffer)
      × ((p : Text) → lookup p (load rows (new_secretary timeout)).commands ≡ lookup p s.commands)
unfolding new_secretary lookup
load-save s timeout v =
    let (rows, e, same, rows_at) =
      save-Saved s.buffer s.commands
        (all_known s.buffer s.commands λ p h. ground (arith, has-lookup p s.commands, v.same p)) in
    let distinct : NodupKeys rows = nodup_of_tasks rows (rw same v.nodup) in
    (
      rows,
      e,
      buffer-load rows _ ∙ same,
      λ p.
          commands-load p rows _ distinct
          ∙ ap (command_of none) (rows_at p)
          ∙ picked (lookup p s.buffer) (lookup p s.commands)
              (sym (has-lookup p s.commands) ∙ v.same p ∙ has-lookup p s.buffer),
    )
