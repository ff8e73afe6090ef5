-- ===== src/Builds/Exclusion.antt =====
-- An exclusion stays in force until it expires: what is built or deleted is not handed out again.
use piwheels.Prelude.{
  subst, eq_of_beq, beq_refl, ℕ, ◌+◌, ◌≤◌, ◌<◌, ◌≡◌, refl, Option, none, some, List, [], ◌∷◌, Any,
  arith, Text, Eq, list_eq, option_eq, pair_eq, nat_eq, Bool-cases, ltb, lt→ltb, Option-cases, inl,
  inr,
}
use piwheels.Dict.{Dict, lookup, insert}
use piwheels.Dict.Laws.{lookup-insert, lookup-filter_items_kept}
use piwheels.Result.{ok}
use piwheels.Builds.{
  Key, Queue, Excluded, Builds, prune, prune_all, refresh, delete, delete_abi, hour, get_or,
}

abbrev pub text_eq : Eq Text
text_eq = list_eq

abbrev pub key_eq : Eq Key
key_eq = pair_eq

abbrev pub inner : Key → Option Excluded → Option ℕ
inner key none = none
inner key (some ex) = lookup key ex

-- When the exclusion of a key for an ABI expires.
abbrev pub expiry_in : Dict Text Excluded → Text → Key → Option ℕ
expiry_in d abi key = inner key (lookup abi d)

abbrev pub Until : ℕ → Option ℕ → Type 0
Until end none = ⊥
Until end (some e) = end ≤ e

-- The key is excluded for the ABI until `end` at least.
abbrev pub Excludes : ℕ → Builds → Text → Key → Type 0
Excludes end b abi key = Until end (expiry_in b.excluded_builds abi key)

prune-Until :
    (end now : ℕ) (ex : Excluded) (key : Key)
    → now < end
    → Until end (lookup key ex)
    → Until end (lookup key (prune now ex))
unfolding prune
prune-Until end now ex key h u = elim (Option-cases (lookup key ex)) [
  | inl e ↦ absurd (rw e at u)
  | inr (t, e) ↦
      let later : end ≤ t = rw e at u in
      rw
        (lookup-filter_items_kept (λ k expires. ltb now expires) key t ex e
          (lt→ltb now t (omega arith)))
        later
]

-- A lookup in what stands under the ABI, if anything does.
inner-get_or : (key : Key) (o : Option Excluded) → lookup key (get_or [] o) ≡ inner key o
inner-get_or key none = unfold lookup in refl
inner-get_or key (some ex) = refl

insert-pruned :
    (end now : ℕ) (a abi : Text) (key : Key) (d : Dict Text Excluded)
    → now < end
    → Until end (expiry_in d abi key)
    → Until end (expiry_in (insert a (prune now (get_or [] (lookup a d))) d) abi key)
insert-pruned end now a abi key d h u =
    rw (lookup-insert a abi (prune now (get_or [] (lookup a d))) d)
      (elim (Bool-cases (text_eq.beq a abi)) [
        | inl same ↦
            rw (same, eq_of_beq a abi same)
              (prune-Until end now (get_or [] (lookup abi d)) key h
                (rw (inner-get_or key (lookup abi d)) u))
        | inr other ↦ rw other u
      ])

prune_all-Until :
    (end now : ℕ) (abis : List Text) (abi : Text) (key : Key) (d : Dict Text Excluded)
    → now < end
    → Until end (expiry_in d abi key)
    → Until end (expiry_in (prune_all now abis d) abi key)
unfolding prune_all
prune_all-Until end now [] abi key d h u = u
prune_all-Until end now (a ∷ abis) abi key d h u =
    prune_all-Until end now abis abi key _ h (insert-pruned end now a abi key d h u)

excluded-refresh :
    (now : ℕ) (abis : List Text) (queues : Dict Text Queue) (b b' : Builds)
    → refresh now abis queues b ≡ ok b'
    → b'.excluded_builds ≡ prune_all now abis b.excluded_builds
unfolding refresh
excluded-refresh now abis queues b b' e = ground arith

-- A refresh before the end keeps the exclusion.
pub refresh-Excludes :
    (end now : ℕ) (abis : List Text) (queues : Dict Text Queue) (b b' : Builds) (abi : Text)
    (key : Key)
    → now < end
    → refresh now abis queues b ≡ ok b'
    → Excludes end b abi key
    → Excludes end b' abi key
refresh-Excludes end now abis queues b b' abi key h e u =
    rw (excluded-refresh now abis queues b b' e)
      (prune_all-Until end now abis abi key b.excluded_builds h u)

-- An exclusion that is added until the end or later takes nothing from the others.
insert-Until :
    (end t : ℕ) (k key : Key) (o : Option Excluded)
    → end ≤ t
    → Until end (inner key o)
    → Until end (lookup key (insert k t (get_or [] o)))
insert-Until end t k key o h u =
    rw (lookup-insert k key t (get_or [] o)) (elim (Bool-cases (key_eq.beq k key)) [
      | inl same ↦ rw same h
      | inr other ↦ rw (other, inner-get_or key o) u
    ])

delete_abi-Excludes :
    (end now : ℕ) (k : Key) (a : Text) (b : Builds) (abi : Text) (key : Key)
    → end ≤ now + hour
    → Excludes end b abi key
    → Excludes end (delete_abi now k a b) abi key
unfolding delete_abi
delete_abi-Excludes end now k a b abi key h u =
    rw
      (lookup-insert a abi (insert k (now + hour) (get_or [] (lookup a b.excluded_builds)))
        b.excluded_builds)
      (elim (Bool-cases (text_eq.beq a abi)) [
        | inl same ↦
            rw (same, eq_of_beq a abi same)
              (insert-Until end (now + hour) k key (lookup abi b.excluded_builds) h u)
        | inr other ↦ rw other u
      ])

-- So does a deletion whose own exclusions last to the end.
pub delete-Excludes :
    (end now : ℕ) (k : Key) (abis : List Text) (b : Builds) (abi : Text) (key : Key)
    → end ≤ now + hour
    → Excludes end b abi key
    → Excludes end (delete now k abis b) abi key
unfolding delete
delete-Excludes end now k [] b abi key h u = u
delete-Excludes end now k (a ∷ abis) b abi key h u =
    delete-Excludes end now k abis (delete_abi now k a b) abi key h
      (delete_abi-Excludes end now k a b abi key h u)

delete_abi-sets :
    (now : ℕ) (k : Key) (abi : Text) (b : Builds)
    → Excludes (now + hour) (delete_abi now k abi b) abi k
unfolding delete_abi
delete_abi-sets now k abi b =
    rw
      (
        lookup-insert abi abi (insert k (now + hour) (get_or [] (lookup abi b.excluded_builds)))
            b.excluded_builds,
        beq_refl abi,
      )
      (rw (lookup-insert k k (now + hour) (get_or [] (lookup abi b.excluded_builds)), beq_refl k)
        (omega arith))

-- A deletion excludes its key for an hour, for each build ABI.
pub delete-sets :
    (now : ℕ) (k : Key) (abis : List Text) (b : Builds) (abi : Text)
    → Any (λ a. a ≡ abi) abis
    → Excludes (now + hour) (delete now k abis b) abi k
unfolding delete
delete-sets now k [] b abi m = absurd m
delete-sets now k (a ∷ abis) b abi (inl here) =
    delete-Excludes (now + hour) now k abis (delete_abi now k a b) abi k (omega arith) (
      subst (λ x. Excludes (now + hour) (delete_abi now k a b) x k) here
        (delete_abi-sets now k a b))
delete-sets now k (a ∷ abis) b abi (inr later) =
    delete-sets now k abis (delete_abi now k a b) abi later
