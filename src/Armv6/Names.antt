-- ===== src/Armv6/Names.antt =====
-- What build_armv6l_hack adds to the files of a build.
use piwheels.Prelude.{
  Eq, list_eq, nat_eq, ◌==◌, ◌≡◌, refl, ◌∙◌, true, false, List, [], ◌∷◌, Text, arith, All,
  Bool-cases, inl, inr, eq_of_beq, beq_refl,
}
use piwheels.Dict.{Dict, lookup, has, insert, values}
use piwheels.Dict.Laws.{lookup-insert, has-insert}
use piwheels.Files.{FileState, BuildState, all_transferred, transfers_done, armv7l, armv6_name}
use piwheels.Armv6.{armv6_state, add_armv6, add_all_armv6, build_armv6l_hack}

abbrev text_eq : Eq Text
text_eq = list_eq

abbrev Files : Type 0
Files = Dict Text FileState

-- A file that is entered under a new name, and counts as transferred.
module _ (f : FileState) where
  add_armv6-lookup :
      (name : Text) (d : Files) → has name d ≡ true → lookup name (add_armv6 f d) ≡ lookup name d
  unfolding add_armv6
  add_armv6-lookup name d h = elim (Bool-cases (f.platform_tag == armv7l)) [
    | inr other ↦ rw other refl
    | inl v7 ↦ rw v7 (elim (Bool-cases (has (armv6_name f.filename) d)) [
      | inl old ↦ rw old refl
      | inr new ↦ rw new (
          rw (lookup-insert (armv6_name f.filename) name (armv6_state f) d)
            (elim (Bool-cases (text_eq.beq (armv6_name f.filename) name)) [
              | inl same ↦ absurd (cc (h, new, eq_of_beq (armv6_name f.filename) name same))
              | inr apart ↦ rw apart refl
            ]))
    ])
  ]

  add_armv6-has : (name : Text) (d : Files) → has name d ≡ true → has name (add_armv6 f d) ≡ true
  unfolding add_armv6
  add_armv6-has name d h = elim (Bool-cases (f.platform_tag == armv7l)) [
    | inr other ↦ rw other h
    | inl v7 ↦ rw v7 (elim (Bool-cases (has (armv6_name f.filename) d)) [
      | inl old ↦ rw old h
      | inr new ↦
          rw new (rw (has-insert (armv6_name f.filename) name (armv6_state f) d) (ground arith))
    ])
  ]

  add_armv6-adds :
      (d : Files)
      → f.platform_tag == armv7l ≡ true
      → has (armv6_name f.filename) (add_armv6 f d) ≡ true
  unfolding add_armv6
  add_armv6-adds d v7 = rw v7 (elim (Bool-cases (has (armv6_name f.filename) d)) [
    | inl old ↦ rw old old
    | inr new ↦ rw new (
        rw (has-insert (armv6_name f.filename) (armv6_name f.filename) (armv6_state f) d)
          (rw (beq_refl ⦃e = text_eq⦄ (armv6_name f.filename)) refl))
  ])

insert-all_transferred :
    (name : Text) (f : FileState) (d : Files)
    → has name d ≡ false
    → f.transferred ≡ true
    → all_transferred (insert name f d) ≡ all_transferred d
unfolding all_transferred insert has
insert-all_transferred name f [] new t = rw t refl
insert-all_transferred name f ((k, g) ∷ d) new t = ground (arith, insert-all_transferred name f d)

add_armv6-all_transferred :
    (f : FileState) (d : Files) → all_transferred (add_armv6 f d) ≡ all_transferred d
unfolding add_armv6 armv6_state
add_armv6-all_transferred f d = elim (Bool-cases (f.platform_tag == armv7l)) [
  | inr other ↦ rw other refl
  | inl v7 ↦ rw v7 (elim (Bool-cases (has (armv6_name f.filename) d)) [
    | inl old ↦ rw old refl
    | inr new ↦ rw new (insert-all_transferred (armv6_name f.filename) _ d new refl)
  ])
]

add_all_armv6-lookup :
    (fs : List FileState) (name : Text) (d : Files)
    → has name d ≡ true
    → lookup name (add_all_armv6 fs d) ≡ lookup name d
unfolding add_all_armv6
add_all_armv6-lookup [] name d h = refl
add_all_armv6-lookup (f ∷ fs) name d h =
    add_all_armv6-lookup fs name (add_armv6 f d) (add_armv6-has f name d h)
    ∙ add_armv6-lookup f name d h

add_all_armv6-has :
    (fs : List FileState) (name : Text) (d : Files)
    → has name d ≡ true
    → has name (add_all_armv6 fs d) ≡ true
unfolding add_all_armv6
add_all_armv6-has [] name d h = h
add_all_armv6-has (f ∷ fs) name d h =
    add_all_armv6-has fs name (add_armv6 f d) (add_armv6-has f name d h)

-- The armv6 name of an armv7 file is there.
abbrev pub IsNamed : Files → FileState → Type 0
IsNamed d f = f.platform_tag == armv7l ≡ true → has (armv6_name f.filename) d ≡ true

add_all_armv6-IsNamed : (fs : List FileState) (d : Files) → All (IsNamed (add_all_armv6 fs d)) fs
unfolding add_all_armv6
add_all_armv6-IsNamed [] d = tt
add_all_armv6-IsNamed (f ∷ fs) d = (
  λ v7. add_all_armv6-has fs (armv6_name f.filename) (add_armv6 f d) (add_armv6-adds f d v7),
  add_all_armv6-IsNamed fs (add_armv6 f d),
)

add_all_armv6-all_transferred :
    (fs : List FileState) (d : Files) → all_transferred (add_all_armv6 fs d) ≡ all_transferred d
unfolding add_all_armv6
add_all_armv6-all_transferred [] d = refl
add_all_armv6-all_transferred (f ∷ fs) d =
    add_all_armv6-all_transferred fs (add_armv6 f d) ∙ add_armv6-all_transferred f d

-- The armv6l hack keeps every file that the build has, under its name; the armv6 name of each armv7
-- file is there afterwards; and whether all transfers are done does not change, since what is added
-- need not be sent.
pub build_armv6l_hack_lem :
    (b : BuildState)
    → ((name : Text)
        → has name b.files ≡ true
        → lookup name (build_armv6l_hack b).files ≡ lookup name b.files)
      × All (IsNamed (build_armv6l_hack b).files) (values b.files)
      × (transfers_done (build_armv6l_hack b) ≡ transfers_done b)
unfolding build_armv6l_hack transfers_done
build_armv6l_hack_lem b = (
  λ name h. add_all_armv6-lookup (values b.files) name b.files h,
  add_all_armv6-IsNamed (values b.files) b.files,
  add_all_armv6-all_transferred (values b.files) b.files,
)
