-- ===== src/Builds/Deletion.antt =====
-- What a deletion does to the build queues.
use piwheels.Prelude.{
  arith, Bool, ◌||◌, none, list_eq, nat_eq, ◌≡◌, ◌∙◌, refl, ap, false, some, List, [], ◌∷◌, Text,
  if◌then◌else◌, Any, Bool-cases, inl, inr, eq_of_beq, beq_refl, ℕ, ◌+◌,
}
use piwheels.Dict.{lookup, insert}
use piwheels.Dict.Laws.{lookup-insert}
use piwheels.Builds.{Key, Queue, Builds, get_or, deletes, drop_deleted, delete_abi, delete, hour}
use piwheels.Builds.Exclusion.{text_eq, key_eq}

-- The queue of an ABI, which is empty if there is none.
abbrev pub queue_at : Text → Builds → Queue
queue_at abi b = get_or [] (lookup abi b.abi_queues)

-- The key is that of the build, or that of its whole package.
abbrev pub is_about : Key → Text × Text → Bool
is_about key (pkg, version) = key_eq.beq key (pkg, some version) || key_eq.beq key (pkg, none)

pub deletes_lem : (key : Key) (x : Text × Text) → deletes key x ≡ is_about key x
deletes_lem (p, none) (pkg, version) = ground arith
deletes_lem (p, some v) (pkg, version) = ground arith

-- The builds that the key is not about, in their order.
abbrev pub without : Key → Queue → Queue
without key [] = []
without key (x ∷ q) = if is_about key x then without key q else x ∷ without key q

drop_deleted_lem : (key : Key) (q : Queue) → drop_deleted key q ≡ without key q
unfolding drop_deleted
drop_deleted_lem key [] = refl
drop_deleted_lem key (x ∷ q) = rw (drop_deleted_lem key q, deletes_lem key x) refl

without-without : (key : Key) (q : Queue) → without key (without key q) ≡ without key q
without-without key [] = refl
without-without key (x ∷ q) = elim (Bool-cases (is_about key x)) [
  | inl gone ↦ rw (gone, without) (without-without key q)
  | inr stays ↦ rw (stays, without) (rw (stays, without) (ap (λ r. x ∷ r) (without-without key q)))
]

abbrev Among : Text → List Text → Type 0
Among abi abis = Any (λ a. a ≡ abi) abis

delete_abi-here :
    (now : ℕ) (key : Key) (abi : Text) (b : Builds)
    → lookup abi (delete_abi now key abi b).abi_queues ≡ some (without key (queue_at abi b))
unfolding delete_abi
delete_abi-here now key abi b =
    lookup-insert abi abi (drop_deleted key (queue_at abi b)) b.abi_queues
    ∙ rw (beq_refl abi) (ap some (drop_deleted_lem key (queue_at abi b)))

delete_abi-others :
    (now : ℕ) (key : Key) (a abi : Text) (b : Builds)
    → text_eq.beq a abi ≡ false
    → (lookup abi (delete_abi now key a b).abi_queues ≡ lookup abi b.abi_queues)
      × (lookup abi (delete_abi now key a b).excluded_builds ≡ lookup abi b.excluded_builds)
unfolding delete_abi
delete_abi-others now key a abi b other = (
  lookup-insert a abi (drop_deleted key (queue_at a b)) b.abi_queues ∙ rw other refl,
  lookup-insert a abi
        (insert ⦃e = key_eq⦄ key (now + hour) (get_or [] (lookup a b.excluded_builds)))
        b.excluded_builds
      ∙ rw other refl,
)

-- An ABI that was not among those of the deletion is as it was.
pub delete-others :
    (now : ℕ) (key : Key) (abis : List Text) (b : Builds) (abi : Text)
    → (Any (λ a. a ≡ abi) abis → ⊥)
    → (lookup abi (delete now key abis b).abi_queues ≡ lookup abi b.abi_queues)
      × (lookup abi (delete now key abis b).excluded_builds ≡ lookup abi b.excluded_builds)
unfolding delete
delete-others now key [] b abi away = (refl, refl)
delete-others now key (a ∷ abis) b abi away = elim (Bool-cases (text_eq.beq a abi)) [
  | inl same ↦ absurd (away (inl (eq_of_beq a abi same)))
  | inr other ↦
      let (q, x) = delete-others now key abis (delete_abi now key a b) abi (λ m. away (inr m)) in
      let (q', x') = delete_abi-others now key a abi b other in (q ∙ q', x ∙ x')
]

-- A queue that has lost the deleted builds keeps the others.
delete-kept :
    (now : ℕ) (key : Key) (abis : List Text) (b : Builds) (abi : Text) (q : Queue)
    → lookup abi b.abi_queues ≡ some (without key q)
    → lookup abi (delete now key abis b).abi_queues ≡ some (without key q)
unfolding delete
delete-kept now key [] b abi q at = at
delete-kept now key (a ∷ abis) b abi q at =
    delete-kept now key abis (delete_abi now key a b) abi q (elim (Bool-cases (text_eq.beq a abi)) [
      | inl same ↦
          rw (eq_of_beq a abi same)
            (delete_abi-here now key abi b ∙ rw (at, get_or) (ap some (without-without key q)))
      | inr other ↦ (delete_abi-others now key a abi b other).0 ∙ at
    ])

-- The queue of an ABI of the deletion loses the deleted builds, and no other.
pub delete-queue :
    (now : ℕ) (key : Key) (abis : List Text) (b : Builds) (abi : Text)
    → Any (λ a. a ≡ abi) abis
    → lookup abi (delete now key abis b).abi_queues ≡ some (without key (queue_at abi b))
unfolding delete
delete-queue now key [] b abi m = absurd m
delete-queue now key (a ∷ abis) b abi m = elim (Bool-cases (text_eq.beq a abi)) [
  | inl same ↦
      delete-kept now key abis (delete_abi now key a b) abi (queue_at abi b)
        (rw (eq_of_beq a abi same) (delete_abi-here now key abi b))
  | inr other ↦ elim m [
    | inl here ↦ absurd (cc (other, here, beq_refl ⦃e = text_eq⦄ abi))
    | inr later ↦
        delete-queue now key abis (delete_abi now key a b) abi later
        ∙ ap (λ o. some (without key (get_or [] o))) (delete_abi-others now key a abi b other).0
  ]
]
