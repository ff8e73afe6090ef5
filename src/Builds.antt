-- ===== src/Builds.antt =====
-- The build queues of SlaveDriver (piwheels/master/slave_driver.py): `abi_queues` and
-- `excluded_builds`, and what handle_build, handle_delete and do_idle do with them.
pub mod Handout
pub mod Exclusion
pub mod Deletion
pub mod Clean
pub mod Runs
use piwheels.Prelude.{
  ℕ, zero, suc, ◌+◌, ◌==◌, Eq, list_eq, nat_eq, option_eq, pair_eq, ◌≡◌, Bool, true, false, not,
  Option, none, some, List, [], ◌∷◌, ◌++◌, Text, text, ltb, leb, if◌then◌else◌, length, ◌&&◌, ◌||◌,
}
use piwheels.Dict.{Dict, lookup, has, insert, set_default, map_values, filter_items}
use piwheels.Result.{Result, ok, err, key_error, ◌>>=◌}

-- (package, version); a version of `none` stands for the whole package.
abbrev pub Key : Type 0
Key = Text × Option Text

abbrev pub Queue : Type 0
Queue = List (Text × Text)

-- The builds that are not to be handed out, with the times at which that expires.
abbrev pub Excluded : Type 0
Excluded = Dict Key ℕ

pub record Builds : Type 0 where
  pub abi_queues : Dict Text Queue
  pub excluded_builds : Dict Text Excluded

abbrev pub get_or {ℓ} : {A : Type ℓ} → A → Option A → A
get_or d none = d
get_or d (some a) = a

-- {key: expires for key, expires in excluded.items() if expires > now}
unfoldable pub prune : ℕ → Excluded → Excluded
unfolding filter_items
prune now = filter_items (λ key expires. ltb now expires)

-- for abi in build_abis: self.excluded_builds[abi] = {...}
prune_all : ℕ → List Text → Dict Text Excluded → Dict Text Excluded
unfolding lookup insert prune
prune_all now [] ex = ex
prune_all now (abi ∷ abis) ex =
    prune_all now abis (insert abi (prune now (get_or [] (lookup abi ex))) ex)

-- (package, version) not in excluded and (package, None) not in excluded
abbrev allowed : Excluded → Text × Text → Bool
allowed ex (pkg, version) = not (has (pkg, some version) ex) && not (has (pkg, none) ex)

keep_allowed : Excluded → Queue → Queue
unfolding has
keep_allowed ex [] = []
keep_allowed ex (b ∷ q) = let rest = keep_allowed ex q in if allowed ex b then b ∷ rest else rest

-- The comprehension looks `excluded_builds[abi]` up at each entry: an empty queue needs no such
-- key, and any other raises KeyError without it.
filter_queue : Dict Text Excluded → Text → Queue → Result Queue
unfolding lookup keep_allowed
filter_queue ex abi [] = ok []
filter_queue ex abi (b ∷ q) = elim (lookup abi ex) [
  | none ↦ err key_error
  | some e ↦ ok (keep_allowed e (b ∷ q))
]

filter_queues : Dict Text Excluded → Dict Text Queue → Result (Dict Text Queue)
unfolding filter_queue
filter_queues ex [] = ok []
filter_queues ex ((abi, q) ∷ d) = do
  kept ← filter_queue ex abi q
  rest ← filter_queues ex d
  ok ((abi, kept) ∷ rest)

-- for abi in build_abis: self.abi_queues.setdefault(abi, [])
default_queues : List Text → Dict Text Queue → Dict Text Queue
unfolding set_default
default_queues [] d = d
default_queues (abi ∷ abis) d = default_queues abis (set_default abi [] d)

-- `handle_build`: the queues that the architect sent replace the old ones.
unfoldable pub refresh : ℕ → List Text → Dict Text Queue → Builds → Result Builds
unfolding prune_all filter_queues default_queues
refresh now build_abis new_queues b =
    let ex = prune_all now build_abis b.excluded_builds in
    do
      queues ← filter_queues ex new_queues
      ok (record { abi_queues = default_queues build_abis queues; excluded_builds = ex })

-- {abi: len(queue) for (abi, queue) in self.abi_queues.items()}
unfoldable pub queue_sizes : Builds → Dict Text ℕ
unfolding map_values
queue_sizes b = map_values (λ abi q. length q) b.abi_queues

abbrev pub hour : ℕ
hour = 3600

-- (del_pkg, del_ver) not in ((pkg, ver), (pkg, None))
abbrev pub deletes : Key → Text × Text → Bool
deletes (del_pkg, none) (pkg, version) = del_pkg == pkg
deletes (del_pkg, some del_ver) (pkg, version) = (del_pkg == pkg) && (del_ver == version)

drop_deleted : Key → Queue → Queue
drop_deleted key [] = []
drop_deleted key (b ∷ q) = let rest = drop_deleted key q in if deletes key b then rest else b ∷ rest

delete_abi : ℕ → Key → Text → Builds → Builds
unfolding lookup insert drop_deleted
delete_abi now key abi b = record {
  abi_queues = insert abi (drop_deleted key (get_or [] (lookup abi b.abi_queues))) b.abi_queues;
  excluded_builds =
      insert abi (insert key (now + hour) (get_or [] (lookup abi b.excluded_builds)))
        b.excluded_builds;
}

-- The loop of `handle_delete` over the build ABIs.
unfoldable pub delete : ℕ → Key → List Text → Builds → Builds
unfolding delete_abi
delete now key [] b = b
delete now key (abi ∷ abis) b = delete now key abis (delete_abi now key abi b)

-- The loop of `do_idle`: the first entry that is not excluded, and what is left of the queue.
pop_build : Excluded → Queue → Option (Text × Text) × Queue
unfolding has
pop_build ex [] = (none, [])
pop_build ex ((pkg, version) ∷ q) =
    let later = pop_build ex q in
    if has (pkg, some version) ex then later else (some (pkg, version), q)

popped : ℕ → Text → Excluded → Option (Text × Text) × Queue → Builds → Builds
unfolding insert
popped expires abi ex (none, q) b = record b { abi_queues = insert abi q b.abi_queues }
popped expires abi ex (some (pkg, version), q) b = record {
  abi_queues = insert abi q b.abi_queues;
  excluded_builds = insert abi (insert (pkg, some version) expires ex) b.excluded_builds;
}

take_from : ℕ → Text → Option Queue → Option Excluded → Builds → Option (Text × Text) × Builds
unfolding pop_build popped
take_from expires abi none ex b = (none, b)
take_from expires abi (some q) none b = (none, b)
take_from expires abi (some q) (some ex) b =
    let found = pop_build ex q in (found.0, popped expires abi ex found b)

-- The build that `do_idle` hands out to a slave for `abi`, if any. Without queues or exclusions
-- for the ABI (KeyError) the queue counts as empty.
unfoldable pub take_build : ℕ → Text → Builds → Option (Text × Text) × Builds
unfolding lookup take_from
take_build expires abi b =
    take_from expires abi (lookup abi b.abi_queues) (lookup abi b.excluded_builds) b

-- What happens to the queues: a refresh by the architect, a deletion, or a slave of an ABI that
-- asks for work, with the time at which the exclusion of what it gets expires.
pub data BuildEvent : Type 0 where
  refreshed : ℕ → List Text → Dict Text Queue → BuildEvent
  deleted : ℕ → Key → List Text → BuildEvent
  asked : ℕ → Text → BuildEvent
