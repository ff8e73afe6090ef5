-- ===== src/Driver/Deletions.antt =====
-- What a deletion does to SlaveDriver's table of slaves and to its queues.
use piwheels.Prelude.{
  list_eq, nat_eq, ℕ, ◌+◌, ◌≡◌, refl, sym, ap, ◌∙◌, Bool, true, false, Option, some, List, [], ◌∷◌,
  Text, if◌then◌else◌, Any, Bool-cases, inl, inr,
}
use piwheels.Dict.{Dict, lookup}
use piwheels.Result.{Result, ok}
use piwheels.Slave.{SlaveState, Reply, ack, die, cont, finished, sleep, build, send, skip}
use piwheels.Builds.{Key, deletes, hour}
use piwheels.Builds.Exclusion.{Excludes, delete-sets}
use piwheels.Builds.Deletion.{is_about, deletes_lem, queue_at, without, delete-queue, delete-others}
use piwheels.Driver.{Driver, Effect, deletion_done}
use piwheels.Driver.Control.{skip_if_deleted, skip_deleted, handle_delete}
use piwheels.Driver.Invariant.{Inv}
use piwheels.Driver.Total.{told_something}
use piwheels.Driver.Upkeep.{AllOk, KeepsOk, skip-KeepsOk}
use piwheels.Driver.Marks.{Each}

skip_if_deleted-KeepsOk : (key : Key) (last : Reply) → KeepsOk (λ s. skip_if_deleted key s last)
unfolding skip_if_deleted
skip_if_deleted-KeepsOk key (build pkg version) address s v =
    elim (Bool-cases (deletes key (pkg, version))) [
      | inl gone ↦ rw gone (skip-KeepsOk address s v)
      | inr stays ↦ rw stays v
    ]
skip_if_deleted-KeepsOk key (ack id url) address s v = v
skip_if_deleted-KeepsOk key die address s v = v
skip_if_deleted-KeepsOk key cont address s v = v
skip_if_deleted-KeepsOk key finished address s v = v
skip_if_deleted-KeepsOk key (sleep b) address s v = v
skip_if_deleted-KeepsOk key (send name) address s v = v

-- The slave was last told to build what is deleted.
abbrev pub builds_deleted : Key → Option Reply → Bool
builds_deleted key (some (build pkg version)) = is_about key (pkg, version)
builds_deleted key other = false

abbrev pub Skipped : Key → SlaveState → SlaveState → Type 0
Skipped key s s' =
    s' ≡ record s { skipped = if builds_deleted key s.reply then true else s.skipped }

skip-if :
    (b : Bool) (s : SlaveState)
    → (if b then skip s else s) ≡ record s { skipped = if b then true else s.skipped }
unfolding skip
skip-if true s = refl
skip-if false s = refl

-- What becomes of a slave by its last reply.
abbrev skipped_by : Key → SlaveState → Option Reply → SlaveState
skipped_by key s o = record s { skipped = if builds_deleted key o then true else s.skipped }

skip_if_deleted_lem :
    (key : Key) (s : SlaveState) (last : Reply)
    → skip_if_deleted key s last ≡ skipped_by key s (some last)
unfolding skip_if_deleted
skip_if_deleted_lem key s (build pkg version) =
    rw (deletes_lem key (pkg, version)) (skip-if (is_about key (pkg, version)) s)
skip_if_deleted_lem key s (ack id url) = refl
skip_if_deleted_lem key s die = refl
skip_if_deleted_lem key s cont = refl
skip_if_deleted_lem key s finished = refl
skip_if_deleted_lem key s (sleep b) = refl
skip_if_deleted_lem key s (send name) = refl

skip_if_deleted-Skipped :
    (key : Key) (s : SlaveState) (last : Reply)
    → s.reply ≡ some last
    → Skipped key s (skip_if_deleted key s last)
skip_if_deleted-Skipped key s last said =
    skip_if_deleted_lem key s last ∙ ap (skipped_by key s) (sym said)

skip_deleted_lem :
    (key : Key) (slaves : Dict Text SlaveState)
    → AllOk slaves
    → (r : Dict Text SlaveState) × (skip_deleted key slaves ≡ ok r)
      × AllOk r
      × Each (Skipped key) slaves r
unfolding skip_deleted
skip_deleted_lem key [] h = ([], refl, tt, tt)
skip_deleted_lem key ((address, s) ∷ slaves) h =
    let (rest, e, fine, each) = skip_deleted_lem key slaves h.1 in
    let (last, said) = told_something address s h.0 in
    (
      (address, skip_if_deleted key s last) ∷ rest,
      rw (said, e) refl,
      (skip_if_deleted-KeepsOk key last address s h.0, fine),
      (refl, skip_if_deleted-Skipped key s last said, each),
    )

-- What a deletion leaves.
pub record Deleted (now : ℕ) (key : Key) (abis : List Text) (d d' : Driver) : Type 0 where
  pub inv : Inv d'
  pub slaves : Each (Skipped key) d.slaves d'.slaves
  pub queues :
      (abi : Text)
      → Any (λ a. a ≡ abi) abis
      → lookup abi d'.builds.abi_queues ≡ some (without key (queue_at abi d.builds))
  pub excluded : (abi : Text) → Any (λ a. a ≡ abi) abis → Excludes (now + hour) d'.builds abi key
  pub others :
      (abi : Text)
      → (Any (λ a. a ≡ abi) abis → ⊥)
      → (lookup abi d'.builds.abi_queues ≡ lookup abi d.builds.abi_queues)
        × (lookup abi d'.builds.excluded_builds ≡ lookup abi d.builds.excluded_builds)
  pub rest : d' ≡ record d { builds = d'.builds; slaves = d'.slaves }

abbrev pub Deletes : ℕ → Key → List Text → Driver → Result (Driver × List Effect) → Type 0
Deletes now key abis d m =
    (d' : Driver) × (m ≡ ok (d', deletion_done ∷ [])) × Deleted now key abis d d'

-- If the invariant Driver.Invariant.Inv holds of the table of slaves, then a deletion is handled without
-- an exception, and this is kept. For each build ABI the queue loses the builds of the deleted package or
-- version, and nothing else, and the package or version is excluded for an hour at least; the other ABIs are as
-- before. The slaves that were last told to build what is deleted are marked as skipped, and all else of
-- the table is as before.
pub handle_delete-Deletes :
    (now : ℕ) (key : Key) (abis : List Text) (d : Driver)
    → Inv d
    → Deletes now key abis d (handle_delete now key abis d)
unfolding handle_delete
handle_delete-Deletes now key abis d inv =
    let (slaves, e, fine, each) = skip_deleted_lem key d.slaves inv in
    rw e (
      _,
      refl,
      record {
        inv = fine;
        slaves = each;
        queues = delete-queue now key abis d.builds;
        excluded = delete-sets now key abis d.builds;
        others = delete-others now key abis d.builds;
        rest = refl;
      },
    )
