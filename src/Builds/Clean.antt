-- ===== src/Builds/Clean.antt =====
-- No queue holds a build of a package that is excluded as a whole.
use piwheels.Builds.Handout.{Outcome, NoHandout, Handout}
use piwheels.Result.{>>=-eq-ok, ok-injective, ok}
use piwheels.Prelude.{
  list_eq, nat_eq, option_eq, pair_eq, ℕ, ◌+◌, ◌≡◌, refl, false, Option, none, some, List, [], ◌∷◌,
  ◌++◌, All, arith, Text, Bool-cases, Option-cases, inl, inr, eq_of_beq,
}
use piwheels.Dict.{Dict, lookup, has, insert, set_default}
use piwheels.Dict.Laws.{lookup-insert, has-insert}
use piwheels.Builds.{
  Key, Queue, Excluded, Builds, prune_all, refresh, filter_queue, filter_queues, keep_allowed,
  default_queues, delete, delete_abi, drop_deleted, deletes, get_or, hour,
}
use piwheels.Builds.Exclusion.{text_eq}

abbrev pub NotWhole : Excluded → Text × Text → Type 0
NotWhole ex (pkg, version) = has (pkg, none) ex ≡ false

abbrev pub CleanAt : Option Queue → Option Excluded → Type 0
CleanAt (some q) (some ex) = All (NotWhole ex) q
CleanAt (some q) none = Unit
CleanAt none oex = Unit

abbrev pub IsClean : Builds → Type 0
IsClean b = (abi : Text) → CleanAt (lookup abi b.abi_queues) (lookup abi b.excluded_builds)

CleanAt-none : (oq : Option Queue) → CleanAt oq none
CleanAt-none none = tt
CleanAt-none (some q) = tt

-- handle_build

keep_allowed-NotWhole : (ex : Excluded) (q : Queue) → All (NotWhole ex) (keep_allowed ex q)
unfolding keep_allowed
keep_allowed-NotWhole ex [] = tt
keep_allowed-NotWhole ex ((pkg, version) ∷ q) = ground (arith, keep_allowed-NotWhole ex q)

filter_queue-CleanAt :
    (d : Dict Text Excluded) (abi : Text) (q kept : Queue)
    → filter_queue d abi q ≡ ok kept
    → CleanAt (some kept) (lookup abi d)
unfolding filter_queue
filter_queue-CleanAt d abi [] kept e = elim (Option-cases (lookup abi d)) [
  | inl no_ex ↦ rw no_ex tt
  | inr (ex, q) ↦ let nil : [] ≡ kept = cc in rw (q, ← nil) tt
]
filter_queue-CleanAt d abi (b ∷ q) kept e = elim (Option-cases (lookup abi d)) [
  | inl no_ex ↦ rw no_ex tt
  | inr (ex, q') ↦
      let same : ok (keep_allowed ex (b ∷ q)) ≡ ok kept = rw (q', filter_queue) at e in
      let kept_eq : keep_allowed ex (b ∷ q) ≡ kept = cc in
      rw (q', ← kept_eq) (keep_allowed-NotWhole ex (b ∷ q))
]

abbrev AllClean : Dict Text Queue → Dict Text Excluded → Type 0
AllClean queues d = (abi : Text) → CleanAt (lookup abi queues) (lookup abi d)

filter_queues-AllClean :
    (d : Dict Text Excluded) (queues kept : Dict Text Queue)
    → filter_queues d queues ≡ ok kept
    → AllClean kept d
unfolding filter_queues lookup
filter_queues-AllClean d [] kept e abi = let nil : [] ≡ kept = cc in rw (← nil) tt
filter_queues-AllClean d ((a, q) ∷ queues) kept e abi =
    let (k, ek, e') = >>=-eq-ok (filter_queue d a q) _ e in
    let (r, er, e'') = >>=-eq-ok (filter_queues d queues) _ e' in
    let out : (a, k) ∷ r ≡ kept = ok-injective e'' in
    rw (← out) (elim (Bool-cases (text_eq.beq a abi)) [
      | inl same ↦ rw (same, ← eq_of_beq a abi same) (filter_queue-CleanAt d a q k ek)
      | inr other ↦ rw other (filter_queues-AllClean d queues r er abi)
    ])

CleanAt-nil : (oex : Option Excluded) → CleanAt (some []) oex
CleanAt-nil none = tt
CleanAt-nil (some ex) = tt

set_default-AllClean :
    (d : Dict Text Excluded) (a : Text) (queues : Dict Text Queue)
    → AllClean queues d
    → AllClean (set_default a [] queues) d
unfolding set_default
set_default-AllClean d a queues h abi = elim (Bool-cases (has a queues)) [
  | inl old ↦ rw old (h abi)
  | inr new ↦ rw new (
      rw (lookup-insert a abi [] queues) (elim (Bool-cases (text_eq.beq a abi)) [
        | inl same ↦ rw same (CleanAt-nil (lookup abi d))
        | inr other ↦ rw other (h abi)
      ]))
]

default_queues-AllClean :
    (d : Dict Text Excluded) (abis : List Text) (queues : Dict Text Queue)
    → AllClean queues d
    → AllClean (default_queues abis queues) d
unfolding default_queues
default_queues-AllClean d [] queues h = h
default_queues-AllClean d (a ∷ abis) queues h =
    default_queues-AllClean d abis (set_default a [] queues) (set_default-AllClean d a queues h)

-- Whatever stood in the queues before, they are clean after a refresh.
pub refresh-IsClean :
    (now : ℕ) (abis : List Text) (queues : Dict Text Queue) (b b' : Builds)
    → refresh now abis queues b ≡ ok b'
    → IsClean b'
unfolding refresh
refresh-IsClean now abis queues b b' e =
    let d = prune_all now abis b.excluded_builds in
    let (kept, ek, e') = >>=-eq-ok (filter_queues d queues) _ e in
    let out : record { abi_queues = default_queues abis kept; excluded_builds = d } ≡ b' =
      ok-injective e' in
    rw (← out) (default_queues-AllClean d abis kept (filter_queues-AllClean d queues kept ek))

-- handle_delete

insert-NotWhole :
    (key : Key) (t : ℕ) (ex : Excluded) (b : Text × Text)
    → deletes key b ≡ false
    → NotWhole ex b
    → NotWhole (insert key t ex) b
insert-NotWhole (k, none) t ex (pkg, version) h n =
    rw (has-insert (k, none) (pkg, none) t ex) (ground arith)
insert-NotWhole (k, some v) t ex (pkg, version) h n =
    rw (has-insert (k, some v) (pkg, none) t ex) (ground arith)

drop_deleted-NotWhole :
    (key : Key) (t : ℕ) (ex : Excluded) (q : Queue)
    → All (NotWhole ex) q
    → All (NotWhole (insert key t ex)) (drop_deleted key q)
unfolding drop_deleted
drop_deleted-NotWhole key t ex [] n = tt
drop_deleted-NotWhole key t ex (b ∷ q) n = elim (Bool-cases (deletes key b)) [
  | inl gone ↦ rw gone (drop_deleted-NotWhole key t ex q n.1)
  | inr stays ↦
      rw stays (insert-NotWhole key t ex b stays n.0, drop_deleted-NotWhole key t ex q n.1)
]

All-NotWhole-nil : (q : Queue) → All (NotWhole []) q
All-NotWhole-nil [] = tt
All-NotWhole-nil (b ∷ q) = (unfold has in refl, All-NotWhole-nil q)

drop_deleted-CleanAt :
    (key : Key) (t : ℕ) (oq : Option Queue) (oex : Option Excluded)
    → CleanAt oq oex
    → All (NotWhole (insert key t (get_or [] oex))) (drop_deleted key (get_or [] oq))
drop_deleted-CleanAt key t none oex c = unfold drop_deleted in tt
drop_deleted-CleanAt key t (some q) none c = drop_deleted-NotWhole key t [] q (All-NotWhole-nil q)
drop_deleted-CleanAt key t (some q) (some ex) c = drop_deleted-NotWhole key t ex q c

delete_abi-IsClean :
    (now : ℕ) (key : Key) (a : Text) (b : Builds) → IsClean b → IsClean (delete_abi now key a b)
unfolding delete_abi
delete_abi-IsClean now key a b c abi =
    let ex = insert key (now + hour) (get_or [] (lookup a b.excluded_builds)) in
    let q = drop_deleted key (get_or [] (lookup a b.abi_queues)) in
    rw (lookup-insert a abi q b.abi_queues, lookup-insert a abi ex b.excluded_builds)
      (elim (Bool-cases (text_eq.beq a abi)) [
        | inl same ↦ rw same (
            drop_deleted-CleanAt key (now + hour) (lookup a b.abi_queues)
              (lookup a b.excluded_builds) (c a))
        | inr other ↦ rw other (c abi)
      ])

pub delete-IsClean :
    (now : ℕ) (key : Key) (abis : List Text) (b : Builds)
    → IsClean b
    → IsClean (delete now key abis b)
unfolding delete
delete-IsClean now key [] b c = c
delete-IsClean now key (a ∷ abis) b c =
    delete-IsClean now key abis (delete_abi now key a b) (delete_abi-IsClean now key a b c)

-- do_idle

All-after {ℓ} :
    {A : Type ℓ} (P : A → Type 0) (xs : List A) (y : A) (ys : List A)
    → All P (xs ++ y ∷ ys)
    → P y × All P ys
All-after P [] y ys h = h
All-after P (x ∷ xs) y ys h = All-after P xs y ys h.1

insert-version-NotWhole :
    (pkg version : Text) (t : ℕ) (ex : Excluded) (q : Queue)
    → All (NotWhole ex) q
    → All (NotWhole (insert (pkg, some version) t ex)) q
insert-version-NotWhole pkg version t ex [] h = tt
insert-version-NotWhole pkg version t ex ((p, v) ∷ q) h = (
  rw (has-insert (pkg, some version) (p, none) t ex) (ground arith),
  insert-version-NotWhole pkg version t ex q h.1,
)

NoHandout-IsClean : (abi : Text) (b b' : Builds) → NoHandout abi b b' → IsClean b → IsClean b'
NoHandout-IsClean abi b b' (inl (why, same)) c = rw same c
NoHandout-IsClean abi b b' (inr (q, ex, eq, ee, all, after)) c = rw after λ a.
    rw (lookup-insert abi a [] b.abi_queues) (elim (Bool-cases (text_eq.beq abi a)) [
      | inl same ↦ rw same (CleanAt-nil (lookup a b.excluded_builds))
      | inr other ↦ rw other (c a)
    ])

module _ (expires : ℕ) (abi : Text) (b : Builds) (bld : Text × Text) (b' : Builds)
    (h : Handout expires abi b bld b') (c : IsClean b) where
  clean_queue : All (NotWhole h.ex) h.queue
  clean_queue =
      let at : CleanAt (lookup abi b.abi_queues) (lookup abi b.excluded_builds) = c abi in
      rw (h.queue_at, h.ex_at) at at

  -- A build that is handed out is not of a package that is excluded.
  pub Handout-NotWhole : NotWhole h.ex bld × All (NotWhole h.ex) h.rest
  Handout-NotWhole =
      let (skipped, e, out) = h.taken.1 in
      All-after (NotWhole h.ex) skipped bld h.rest (rw e at clean_queue)

  pub Handout-IsClean : IsClean b'
  Handout-IsClean = rw h.after λ a.
      rw
        (
          lookup-insert abi a h.rest b.abi_queues,
          lookup-insert abi a (insert (bld.0, some bld.1) expires h.ex) b.excluded_builds,
        )
        (elim (Bool-cases (text_eq.beq abi a)) [
          | inl same ↦
              rw same (insert-version-NotWhole bld.0 bld.1 expires h.ex h.rest Handout-NotWhole.1)
          | inr other ↦ rw other (c a)
        ])

pub Outcome-IsClean :
    (expires : ℕ) (abi : Text) (b : Builds) (o : Option (Text × Text)) (b' : Builds)
    → Outcome expires abi b o b'
    → IsClean b
    → IsClean b'
Outcome-IsClean expires abi b none b' h c = NoHandout-IsClean abi b b' h c
Outcome-IsClean expires abi b (some bld) b' h c = Handout-IsClean expires abi b bld b' h c
