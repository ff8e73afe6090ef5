-- ===== src/AtomicFile.antt =====
-- AtomicReplaceFile (piwheels/master/the_scribe.py), by which TheScribe writes every page. A file system
-- is what the readers see: the files by their paths. What is written is taken to arrive at once; the
-- permissions are left out.
use piwheels.Prelude.{
  ℕ, Eq, list_eq, nat_eq, ◌==◌, ◌≡◌, refl, ◌∙◌, ap, Bool, true, false, none, some, List, [], ◌∷◌,
  ◌++◌, Text, if◌then◌else◌, All, beq_refl, arith,
}
use piwheels.Dict.{Dict, lookup, insert, remove}
use piwheels.Dict.Laws.{lookup-insert, lookup-remove}

abbrev pub FileSystem : Type 0
FileSystem = Dict Text (List ℕ)

-- NamedTemporaryFile, of the name `tmp` in the directory of the target
unfoldable pub open_temp : Text → FileSystem → FileSystem
unfolding insert
open_temp tmp fs = insert tmp [] fs

-- The writes of the `with` block to the temporary file, which has `done` already: what the readers see
-- after each of them, and at the end what was written.
unfoldable pub write_parts :
    Text → List (List ℕ) → List ℕ → FileSystem → List FileSystem × List ℕ × FileSystem
unfolding insert
write_parts tmp [] done fs = ([], done, fs)
write_parts tmp (p ∷ ps) done fs =
    let fs' = insert tmp (done ++ p) fs in
    let (seen, all, last) = write_parts tmp ps (done ++ p) fs' in (fs' ∷ seen, all, last)

-- __exit__: os.rename over the target, or os.unlink after an exception
unfoldable pub exit_file : Text → Text → Bool → List ℕ → FileSystem → FileSystem
unfolding insert remove
exit_file target tmp failed all fs =
    if failed then remove tmp fs else insert target all (remove tmp fs)

-- The whole use: what the readers see before the exit, and after it.
unfoldable pub replace_file :
    Text → Text → List (List ℕ) → Bool → FileSystem → List FileSystem × FileSystem
unfolding open_temp write_parts exit_file
replace_file target tmp parts failed fs =
    let opened = open_temp tmp fs in
    let (seen, all, last) = write_parts tmp parts [] opened in
    (opened ∷ seen, exit_file target tmp failed all last)

unfoldable pub joined_parts : List ℕ → List (List ℕ) → List ℕ
joined_parts done [] = done
joined_parts done (p ∷ ps) = joined_parts (done ++ p) ps

-- A reader of `name` sees the same in both.
abbrev pub SeesSame : Text → FileSystem → FileSystem → Type 0
SeesSame name fs gs = lookup name gs ≡ lookup name fs

module _ (tmp name : Text) (apart : (tmp == name) ≡ false) where
  insert-SeesSame : (x : List ℕ) (fs : FileSystem) → SeesSame name fs (insert tmp x fs)
  insert-SeesSame x fs = lookup-insert tmp name x fs ∙ rw apart refl

  write_parts-SeesSame :
      (ps : List (List ℕ)) (done : List ℕ) (fs gs : FileSystem)
      → SeesSame name gs fs
      → All (SeesSame name gs) (write_parts tmp ps done fs).0
        × SeesSame name gs (write_parts tmp ps done fs).2
  unfolding write_parts
  write_parts-SeesSame [] done fs gs h = (tt, h)
  write_parts-SeesSame (p ∷ ps) done fs gs h =
      let now : SeesSame name gs (insert tmp (done ++ p) fs) = insert-SeesSame (done ++ p) fs ∙ h in
      let (seen, last) = write_parts-SeesSame ps (done ++ p) (insert tmp (done ++ p) fs) gs now in
      ((now, seen), last)

write_parts-joined :
    (tmp : Text) (ps : List (List ℕ)) (done : List ℕ) (fs : FileSystem)
    → (write_parts tmp ps done fs).1 ≡ joined_parts done ps
unfolding write_parts joined_parts
write_parts-joined tmp [] done fs = refl
write_parts-joined tmp (p ∷ ps) done fs =
    write_parts-joined tmp ps (done ++ p) (insert tmp (done ++ p) fs)

exit_file-lookup :
    (target tmp name : Text) (failed : Bool) (all : List ℕ) (fs last : FileSystem)
    → (tmp == name) ≡ false
    → SeesSame name fs last
    → lookup name (exit_file target tmp failed all last)
      ≡ (if failed then lookup name fs else if target == name then some all else lookup name fs)
unfolding exit_file
exit_file-lookup target tmp name true all fs last apart h = lookup-remove tmp name last ∙ rw apart h
exit_file-lookup target tmp name false all fs last apart h =
    let left : lookup name (remove tmp last) ≡ lookup name fs =
      lookup-remove tmp name last ∙ rw apart h in
    lookup-insert target name all (remove tmp last)
    ∙ ap (λ o. if target == name then some all else o) left

exit_file-gone :
    (target tmp : Text) (failed : Bool) (all : List ℕ) (last : FileSystem)
    → (tmp == target) ≡ false
    → lookup tmp (exit_file target tmp failed all last) ≡ none
unfolding exit_file
exit_file-gone target tmp true all last other = lookup-remove tmp tmp last ∙ rw (beq_refl tmp) refl
exit_file-gone target tmp false all last other =
    let e : Eq Text = list_eq in
    let other' : (target == tmp) ≡ false =
      ground (arith, other, e.beq_iff target tmp, e.beq_iff tmp target) in
    lookup-insert target tmp all (remove tmp last)
    ∙ rw other' (lookup-remove tmp tmp last ∙ rw (beq_refl tmp) refl)

-- No reader sees a page that is half written: while the page is written, every file but the temporary one
-- is as it was. After an exception that is still so; otherwise the target has the whole new page, and
-- the other files are as they were. The temporary file is gone in both cases. Its name is assumed to
-- be another than the target's.
pub replace_file-SeesSame :
    (target tmp : Text) (parts : List (List ℕ)) (failed : Bool) (fs : FileSystem)
    → (tmp == target) ≡ false
    → ((name : Text)
        → (tmp == name) ≡ false
        → All (SeesSame name fs) (replace_file target tmp parts failed fs).0
          × (lookup name (replace_file target tmp parts failed fs).1 ≡ (
              if failed
              then lookup name fs
              else if target == name
              then some (joined_parts [] parts)
              else lookup name fs)))
      × (lookup tmp (replace_file target tmp parts failed fs).1 ≡ none)
unfolding replace_file open_temp
replace_file-SeesSame target tmp parts failed fs other =
    let opened = open_temp tmp fs in
    let all = (write_parts tmp parts [] opened).1 in
    let last = (write_parts tmp parts [] opened).2 in
    (
      λ name apart.
          let first : SeesSame name fs opened = insert-SeesSame tmp name apart [] fs in
          let (seen, same) = write_parts-SeesSame tmp name apart parts [] opened fs first in
          (
            (first, seen),
            exit_file-lookup target tmp name failed all fs last apart same
                ∙ ap
                    (λ x.
                      if failed
                      then lookup name fs
                      else if target == name
                      then some x
                      else lookup name fs)
                    (write_parts-joined tmp parts [] opened),
          ),
      exit_file-gone target tmp failed all last other,
    )
