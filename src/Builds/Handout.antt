-- ===== src/Builds/Handout.antt =====
-- What `do_idle` hands out: `take_build`.
use piwheels.Prelude.{
  subst, ◌⊎◌, inl, inr, list_eq, nat_eq, option_eq, pair_eq, ℕ, ◌≡◌, refl, ap, true, false, Option,
  none, some, [], ◌∷◌, ◌++◌, All, Text, Bool-cases,
}
use piwheels.Dict.{lookup, has, insert}
use piwheels.Builds.{Queue, Excluded, Builds, take_build, take_from, pop_build, popped}

-- The build itself is excluded.
abbrev pub IsExcluded : Excluded → Text × Text → Type 0
IsExcluded ex (pkg, version) = has (pkg, some version) ex ≡ true

-- What is popped of a queue, and what is left.
abbrev pub Popped : Excluded → Queue → Option (Text × Text) → Queue → Type 0
Popped ex q none rest = (rest ≡ []) × All (IsExcluded ex) q
Popped ex q (some (pkg, version)) rest =
    (has (pkg, some version) ex ≡ false)
    × ((skipped : Queue) × (q ≡ skipped ++ (pkg, version) ∷ rest) × All (IsExcluded ex) skipped)

Popped-cons :
    (ex : Excluded) (b : Text × Text) (q : Queue) (o : Option (Text × Text)) (rest : Queue)
    → IsExcluded ex b
    → Popped ex q o rest
    → Popped ex (b ∷ q) o rest
Popped-cons ex b q none rest h p = (p.0, (h, p.1))
Popped-cons ex b q (some c) rest h p =
    let (skipped, e, all) = p.1 in (p.0, (b ∷ skipped, ap (◌∷◌ b) e, (h, all)))

pop_build-Popped : (ex : Excluded) (q : Queue) → Popped ex q (pop_build ex q).0 (pop_build ex q).1
unfolding pop_build
pop_build-Popped ex [] = (refl, tt)
pop_build-Popped ex ((pkg, version) ∷ q) = elim (Bool-cases (has (pkg, some version) ex)) [
  | inl out ↦ rw out (Popped-cons ex (pkg, version) q _ _ out (pop_build-Popped ex q))
  | inr in' ↦ rw in' (in', ([], refl, tt))
]

-- A hand-out in terms of what stood under the ABI.
pub record Handout (expires : ℕ) (abi : Text) (b : Builds) (bld : Text × Text) (b' : Builds)
    : Type 0 where
  pub queue : Queue
  pub rest : Queue
  pub ex : Excluded
  pub queue_at : lookup abi b.abi_queues ≡ some queue
  pub ex_at : lookup abi b.excluded_builds ≡ some ex
  pub taken : Popped ex queue (some bld) rest
  pub after : b' ≡ record {
    abi_queues = insert abi rest b.abi_queues;
    excluded_builds = insert abi (insert (bld.0, some bld.1) expires ex) b.excluded_builds;
  }

-- No hand-out: there is no queue or no table of exclusions, and nothing changes; or every entry of
-- the queue was excluded, and the queue is emptied.
abbrev pub NoHandout : Text → Builds → Builds → Type 0
NoHandout abi b b' =
    (((lookup abi b.abi_queues ≡ none) ⊎ (lookup abi b.excluded_builds ≡ none)) × (b' ≡ b))
    ⊎ ((q : Queue) × (ex : Excluded) × (lookup abi b.abi_queues ≡ some q)
        × (lookup abi b.excluded_builds ≡ some ex)
        × All (IsExcluded ex) q
        × (b' ≡ record b { abi_queues = insert abi [] b.abi_queues }))

abbrev pub Outcome : ℕ → Text → Builds → Option (Text × Text) → Builds → Type 0
Outcome expires abi b none b' = NoHandout abi b b'
Outcome expires abi b (some bld) b' = Handout expires abi b bld b'

popped-Outcome :
    (expires : ℕ) (abi : Text) (b : Builds) (q : Queue) (ex : Excluded) (o : Option (Text × Text))
    (rest : Queue)
    → lookup abi b.abi_queues ≡ some q
    → lookup abi b.excluded_builds ≡ some ex
    → Popped ex q o rest
    → Outcome expires abi b o (popped expires abi ex (o, rest) b)
unfolding popped
popped-Outcome expires abi b q ex none rest eq ee p =
    inr (q, ex, eq, ee, p.1, ap (λ r. record b { abi_queues = insert abi r b.abi_queues }) p.0)
popped-Outcome expires abi b q ex (some (pkg, version)) rest eq ee p = record {
  queue = q;
  rest = rest;
  ex = ex;
  queue_at = eq;
  ex_at = ee;
  taken = p;
  after = refl;
}

take_from-Outcome :
    (expires : ℕ) (abi : Text) (b : Builds) (oq : Option Queue) (oex : Option Excluded)
    → lookup abi b.abi_queues ≡ oq
    → lookup abi b.excluded_builds ≡ oex
    → Outcome expires abi b (take_from expires abi oq oex b).0 (take_from expires abi oq oex b).1
unfolding take_from
take_from-Outcome expires abi b none oex eq ee = inl (inl eq, refl)
take_from-Outcome expires abi b (some q) none eq ee = inl (inr ee, refl)
take_from-Outcome expires abi b (some q) (some ex) eq ee =
    popped-Outcome expires abi b q ex _ _ eq ee (pop_build-Popped ex q)

-- A build that is handed out was the first of its ABI's queue that was not excluded; the entries
-- before it, which were, are dropped with it, and it is excluded until `expires` from now on. With
-- no hand-out, there was no queue or no table of exclusions and nothing changes, or every entry was
-- excluded and the queue is left empty. The entries of the other ABIs are not written.
pub take_build-Outcome :
    (expires : ℕ) (abi : Text) (b : Builds)
    → Outcome expires abi b (take_build expires abi b).0 (take_build expires abi b).1
unfolding take_build
take_build-Outcome expires abi b = take_from-Outcome expires abi b _ _ refl refl

pub take_build-Handout :
    (expires : ℕ) (abi : Text) (b : Builds) (bld : Text × Text) (b' : Builds)
    → take_build expires abi b ≡ (some bld, b')
    → Handout expires abi b bld b'
take_build-Handout expires abi b bld b' e =
    subst (λ (r : Option (Text × Text) × Builds). Outcome expires abi b r.0 r.1) e
      (take_build-Outcome expires abi b)
