-- ===== src/Builds/Runs.antt =====
-- Histories of the build queues: what was handed out or deleted is not handed out until the
-- exclusion ends.
use piwheels.Prelude.{
  All, Any, arith, beq_refl, list_eq, nat_eq, option_eq, pair_eq, ℕ, ◌+◌, ◌≤◌, ◌<◌, ◌≡◌, ◌∙◌, ap,
  true, false, Option, none, some, List, [], ◌∷◌, Text, Bool-cases, Option-cases, inl, inr,
  eq_of_beq, is_some,
}
use piwheels.Dict.{lookup, has, insert}
use piwheels.Dict.Laws.{lookup-insert, has-lookup}
use piwheels.Result.{Result, ok, ◌>>=◌, >>=-eq-ok, ok-injective}
use piwheels.Builds.{
  Key, Excluded, Builds, BuildEvent, refreshed, deleted, asked, refresh, delete, deletes, hour,
  take_build,
}
use piwheels.Builds.Exclusion.{
  text_eq, key_eq, Excludes, Until, refresh-Excludes, delete-Excludes, delete-sets,
}
use piwheels.Builds.Handout.{Handout, Outcome, take_build-Outcome, take_build-Handout}
use piwheels.Builds.Clean.{
  IsClean, refresh-IsClean, delete-IsClean, Outcome-IsClean, Handout-NotWhole,
}

-- The ABI, the package and the version of a hand-out.
abbrev pub HandedOut : Type 0
HandedOut = Text × Text × Text

abbrev note : Text → Option (Text × Text) → List HandedOut → List HandedOut
note abi none outs = outs
note abi (some (pkg, version)) outs = (abi, pkg, version) ∷ outs

-- The queues after the events, and what was handed out, in order.
unfoldable pub run : List BuildEvent → Builds → Result (Builds × List HandedOut)
run [] b = ok (b, [])
run (refreshed now abis queues ∷ es) b = do b' ← refresh now abis queues b; run es b'
run (deleted now key abis ∷ es) b = run es (delete now key abis b)
run (asked expires abi ∷ es) b =
    let (o, b') = take_build expires abi b in do (b'', outs) ← run es b'; ok (b'', note abi o outs)

-- The event comes before `end`; a deletion's own exclusions do not end before that.
abbrev pub IsBefore : ℕ → BuildEvent → Type 0
IsBefore end (refreshed now abis queues) = now < end
IsBefore end (deleted now key abis) = end ≤ now + hour
IsBefore end (asked expires abi) = Unit

-- The hand-out is not one that the key forbids for the ABI.
abbrev pub IsOther : Text → Key → HandedOut → Type 0
IsOther abi key (a, pkg, version) = a ≡ abi → deletes key (pkg, version) ≡ false

Until-has : (end : ℕ) (key : Key) (ex : Excluded) → Until end (lookup key ex) → has key ex ≡ true
Until-has end key ex u = elim (Option-cases (lookup key ex)) [
  | inl e ↦ absurd (rw e at u)
  | inr (t, e) ↦ has-lookup key ex ∙ ap is_some e
]

insert-Until :
    (end t : ℕ) (k key : Key) (ex : Excluded)
    → has k ex ≡ false
    → Until end (lookup key ex)
    → Until end (lookup key (insert k t ex))
insert-Until end t k key ex new u =
    rw (lookup-insert k key t ex) (elim (Bool-cases (key_eq.beq k key)) [
      | inl same ↦ cc (Until-has end key ex u, eq_of_beq k key same)
      | inr other ↦ rw other u
    ])

Handout-Excludes :
    (end expires : ℕ) (a abi : Text) (b : Builds) (bld : Text × Text) (b' : Builds) (key : Key)
    → Handout expires a b bld b'
    → Excludes end b abi key
    → Excludes end b' abi key
Handout-Excludes end expires a abi b bld b' key h u = rw h.after (
    rw (lookup-insert a abi (insert (bld.0, some bld.1) expires h.ex) b.excluded_builds)
      (elim (Bool-cases (text_eq.beq a abi)) [
        | inl same ↦ rw same (
            insert-Until end expires (bld.0, some bld.1) key h.ex h.taken.0
              (rw (← eq_of_beq a abi same, h.ex_at) at u))
        | inr other ↦ rw other u
      ]))

Outcome-Excludes :
    (end expires : ℕ) (a abi : Text) (b : Builds) (o : Option (Text × Text)) (b' : Builds)
    (key : Key)
    → Outcome expires a b o b'
    → Excludes end b abi key
    → Excludes end b' abi key
Outcome-Excludes end expires a abi b none b' key (inl (why, same)) u = rw same u
Outcome-Excludes end expires a abi b none b' key (inr (q, ex, eq, ee, all, after)) u = rw after u
Outcome-Excludes end expires a abi b (some bld) b' key h u =
    Handout-Excludes end expires a abi b bld b' key h u

-- A hand-out excludes its build.
Handout-sets :
    (expires : ℕ) (abi : Text) (b : Builds) (bld : Text × Text) (b' : Builds)
    → Handout expires abi b bld b'
    → Excludes expires b' abi (bld.0, some bld.1)
Handout-sets expires abi b bld b' h = rw h.after (
    rw
      (
        lookup-insert abi abi (insert (bld.0, some bld.1) expires h.ex) b.excluded_builds,
        beq_refl abi,
      )
      (rw
        (
          lookup-insert (bld.0, some bld.1) (bld.0, some bld.1) expires h.ex,
          beq_refl ⦃e = key_eq⦄ (bld.0, some bld.1),
        )
        (omega arith)))

forbidden :
    (end : ℕ) (ex : Excluded) (key : Key) (pkg version : Text)
    → Until end (lookup key ex)
    → has (pkg, some version) ex ≡ false
    → has (pkg, none) ex ≡ false
    → deletes key (pkg, version) ≡ false
forbidden end ex (k, none) pkg version u one whole = elim (Bool-cases (text_eq.beq k pkg)) [
  | inl same ↦ cc (Until-has end (k, none) ex u, eq_of_beq k pkg same)
  | inr other ↦ other
]
forbidden end ex (k, some v) pkg version u one whole =
    elim (Bool-cases (deletes (k, some v) (pkg, version))) [
      | inl same ↦
          let pk : text_eq.beq k pkg ≡ true = ground arith in
          let pv : text_eq.beq v version ≡ true = ground arith in
          cc (Until-has end (k, some v) ex u, eq_of_beq k pkg pk, eq_of_beq v version pv)
      | inr other ↦ other
    ]

-- What is handed out is not forbidden.
Handout-IsOther :
    (end expires : ℕ) (a abi : Text) (b : Builds) (bld : Text × Text) (b' : Builds) (key : Key)
    → Handout expires a b bld b'
    → IsClean b
    → Excludes end b abi key
    → IsOther abi key (a, bld.0, bld.1)
Handout-IsOther end expires a abi b bld b' key h c u same =
    forbidden end h.ex key bld.0 bld.1 (rw (← same, h.ex_at) at u) h.taken.0
      (Handout-NotWhole expires a b bld b' h c).0

note-IsOther :
    (end expires : ℕ) (a abi : Text) (b : Builds) (o : Option (Text × Text)) (b' : Builds)
    (key : Key) (outs : List HandedOut)
    → Outcome expires a b o b'
    → IsClean b
    → Excludes end b abi key
    → All (IsOther abi key) outs
    → All (IsOther abi key) (note a o outs)
note-IsOther end expires a abi b none b' key outs h c u all = all
note-IsOther end expires a abi b (some bld) b' key outs h c u all =
    (Handout-IsOther end expires a abi b bld b' key h c u, all)

-- While a key is excluded for an ABI until `end`, and the events come before that, nothing that the
-- key forbids is handed out for the ABI: not the build, nor any version if the key is a package.
pub run-IsOther :
    (end : ℕ) (abi : Text) (key : Key) (es : List BuildEvent) (b b' : Builds)
    (outs : List HandedOut)
    → IsClean b
    → Excludes end b abi key
    → All (IsBefore end) es
    → run es b ≡ ok (b', outs)
    → All (IsOther abi key) outs
unfolding run
run-IsOther end abi key [] b b' outs c u before e =
    let nil : [] ≡ outs = ap (λ (r : Builds × List HandedOut). r.1) (ok-injective e) in
    rw (← nil) tt
run-IsOther end abi key (refreshed now abis queues ∷ es) b b' outs c u before e =
    let (b₁, e₁, e₂) = >>=-eq-ok (refresh now abis queues b) _ e in
    run-IsOther end abi key es b₁ b' outs (refresh-IsClean now abis queues b b₁ e₁)
      (refresh-Excludes end now abis queues b b₁ abi key before.0 e₁ u) before.1 e₂
run-IsOther end abi key (deleted now k abis ∷ es) b b' outs c u before e =
    run-IsOther end abi key es (delete now k abis b) b' outs (delete-IsClean now k abis b c)
      (delete-Excludes end now k abis b abi key before.0 u) before.1 e
run-IsOther end abi key (asked expires a ∷ es) b b' outs c u before e =
    let o = (take_build expires a b).0 in
    let b₁ = (take_build expires a b).1 in
    let h : Outcome expires a b o b₁ = take_build-Outcome expires a b in
    let (r, e₁, e₂) = >>=-eq-ok (run es b₁) _ e in
    let out : note a o r.1 ≡ outs = ap (λ (r : Builds × List HandedOut). r.1) (ok-injective e₂) in
    rw (← out) (
      note-IsOther end expires a abi b o b₁ key r.1 h c u (
        run-IsOther end abi key es b₁ r.0 r.1 (Outcome-IsClean expires a b o b₁ h c)
          (Outcome-Excludes end expires a abi b o b₁ key h u) before.1 e₁))

-- Once a build is handed out for an ABI, it is not handed out again for that ABI before the time
-- at which its exclusion was to expire, whatever refreshes, deletions and requests come in between,
-- as long as none of the deletions in between ends its exclusions earlier.
pub run-handed_out :
    (expires : ℕ) (abi : Text) (bld : Text × Text) (es : List BuildEvent) (b b₁ b' : Builds)
    (outs : List HandedOut)
    → IsClean b
    → take_build expires abi b ≡ (some bld, b₁)
    → All (IsBefore expires) es
    → run es b₁ ≡ ok (b', outs)
    → All (IsOther abi (bld.0, some bld.1)) outs
run-handed_out expires abi bld es b b₁ b' outs c e before r =
    let h : Handout expires abi b bld b₁ = take_build-Handout expires abi b bld b₁ e in
    run-IsOther expires abi (bld.0, some bld.1) es b₁ b' outs
      (Outcome-IsClean expires abi b (some bld) b₁ h c) (Handout-sets expires abi b bld b₁ h) before
      r

-- Once a package, or a version of one, is deleted, no build of it is handed out for an hour, for
-- any of the build ABIs, whatever refreshes, requests and later deletions come in that hour.
pub run-delete :
    (now : ℕ) (key : Key) (abis : List Text) (abi : Text) (es : List BuildEvent) (b b' : Builds)
    (outs : List HandedOut)
    → IsClean b
    → Any (λ a. a ≡ abi) abis
    → All (IsBefore (now + hour)) es
    → run es (delete now key abis b) ≡ ok (b', outs)
    → All (IsOther abi key) outs
run-delete now key abis abi es b b' outs c m before r =
    run-IsOther (now + hour) abi key es (delete now key abis b) b' outs
      (delete-IsClean now key abis b c) (delete-sets now key abis b abi m) before r
