-- ===== src/Transfer/Commit.antt =====
-- `commit` of TransferState: what the package's directory has afterwards.
use piwheels.Prelude.{
  Eq, list_eq, nat_eq, ◌==◌, ◌≡◌, refl, ◌∙◌, sym, true, false, Option, some, [], Text, arith,
  Bool-cases, inl, inr, is_some, eq_of_beq, beq_refl,
}
use piwheels.Dict.{Dict, lookup, has, insert}
use piwheels.Dict.Laws.{lookup-insert, has-lookup, has-insert}
use piwheels.Files.{FileState, armv7l, armv6_name}
use piwheels.Transfer.{
  TransferState, Node, regular, symlink, PkgDir, absent, alias, directory, entries, link_armv6,
  commit, mkdir_override_symlink,
}

abbrev text_eq : Eq Text
text_eq = list_eq

-- What stands at a name in a directory.
abbrev pub node_at : Text → PkgDir → Option Node
node_at name d = lookup name (entries d)

link_armv6-lookup :
    (f : FileState) (name : Text) (d : Dict Text Node)
    → has name d ≡ true
    → lookup name (link_armv6 f d) ≡ lookup name d
unfolding link_armv6
link_armv6-lookup f name d h = elim (Bool-cases (f.platform_tag == armv7l)) [
  | inr other ↦ rw other refl
  | inl v7 ↦ rw v7 (elim (Bool-cases (has (armv6_name f.filename) d)) [
    | inl old ↦ rw old refl
    | inr new ↦ rw new (
        rw (lookup-insert (armv6_name f.filename) name (symlink f.filename) d)
          (elim (Bool-cases (text_eq.beq (armv6_name f.filename) name)) [
            | inl same ↦ absurd (cc (h, new, eq_of_beq (armv6_name f.filename) name same))
            | inr apart ↦ rw apart refl
          ]))
  ])
]

link_armv6-has :
    (f : FileState) (d : Dict Text Node)
    → f.platform_tag == armv7l ≡ true
    → has (armv6_name f.filename) (link_armv6 f d) ≡ true
unfolding link_armv6
link_armv6-has f d v7 = rw v7 (elim (Bool-cases (has (armv6_name f.filename) d)) [
  | inl old ↦ rw old old
  | inr new ↦ rw new (
      rw (has-insert (armv6_name f.filename) (armv6_name f.filename) (symlink f.filename) d)
        (rw (beq_refl ⦃e = text_eq⦄ (armv6_name f.filename)) refl))
])

-- What the package's directory has before the commit; an alias is cleared away first.
abbrev pub before : PkgDir → Dict Text Node
before absent = []
before (alias target) = []
before (directory d) = d

entries-mkdir :
    (t : TransferState) (d : PkgDir)
    → (commit t d).0
      ≡ directory
          (link_armv6 t.file_state (insert t.file_state.filename (regular t.file) (before d)))
unfolding commit mkdir_override_symlink entries
entries-mkdir t absent = refl
entries-mkdir t (alias target) = refl
entries-mkdir t (directory d) = refl

swapped : (a b : Text) → b == a ≡ false → text_eq.beq a b ≡ false
swapped a b h = ground (arith, text_eq.beq_iff a b, text_eq.beq_iff b a)

-- After a commit the package's directory has the bytes of the transfer under the name of the file,
-- whatever stood there; every other name that a directory had before stands for what it did; and
-- for a file of the platform linux_armv7l the name for armv6 is there too.
pub commit_lem :
    (t : TransferState) (d : PkgDir)
    → (node_at t.file_state.filename (commit t d).0 ≡ some (regular t.file))
      × ((name : Text)
          → has name (before d) ≡ true
          → name == t.file_state.filename ≡ false
          → node_at name (commit t d).0 ≡ lookup name (before d))
      × (t.file_state.platform_tag == armv7l ≡ true
          → is_some (node_at (armv6_name t.file_state.filename) (commit t d).0) ≡ true)
unfolding entries
commit_lem t d =
    let name = t.file_state.filename in
    let put = insert name (regular t.file) (before d) in
    rw (entries-mkdir t d) (
      link_armv6-lookup t.file_state name put (
            rw (has-insert name name (regular t.file) (before d))
              (rw (beq_refl ⦃e = text_eq⦄ name) refl))
          ∙ lookup-insert name name (regular t.file) (before d)
          ∙ rw (beq_refl ⦃e = text_eq⦄ name) refl,
      λ other known apart.
          link_armv6-lookup t.file_state other put
            (rw (has-insert name other (regular t.file) (before d)) (ground arith))
          ∙ lookup-insert name other (regular t.file) (before d)
          ∙ rw (swapped name other apart) refl,
      λ v7.
          sym (has-lookup (armv6_name name) (link_armv6 t.file_state put))
          ∙ link_armv6-has t.file_state put v7,
    )
