-- ===== src/Tests/Imports.antt =====
-- Runs of MrChase.
use piwheels.Prelude.{
  ℕ, list_eq, nat_eq, ◌≡◌, inr, refl, true, false, none, some, List, [], ◌∷◌, ◌++◌, Text, text,
  arith, if◌then◌else◌, ◌||◌, not,
}
use piwheels.Dict.{lookup}
use piwheels.Result.{ok}
use piwheels.Files.{BuildState, next_file}
use piwheels.Transfer.{TransferState, lower, commit}
use piwheels.Juggler.{hello, handle_file, dir_at}
use piwheels.Juggler.Verdicts.{IsGood}
use piwheels.MrChase.{sent, Chase, handle_import}
use piwheels.MrChase.Names.{
  canonicalize_name, canonicalize_name_lem, is_canonical, member, ordered_aliases,
}
use piwheels.MrChase.Tools.{Database, error, send, do_remove_version}
use piwheels.MrChase.Removal.{skipped, rewritten, do_remove_version-skipped}
use piwheels.MrChase.Aliases.{count, ordered_aliases_lem}
use piwheels.MrChase.Resend.{sent-dropped, sent-Followed, Followed}
use piwheels.Tests.Files.{file_of, foo_build}
use piwheels.Tests.Transfers.{src, plain, four}

-- A database that knows every package and version.
abbrev all_known : Database ℕ
all_known = record {
  has_abi = λ abi d. true;
  test_package = λ pkg d. true;
  test_package_version = λ pkg version d. true;
  log_build = λ m d. inr (7, d);
  add_new_package = λ pkg skip description d. (true, d);
  add_new_package_version = λ pkg version released skip d. (true, d);
  add_package_name = λ pkg name d. d;
  set_package_description = λ pkg description d. d;
  skip_package = λ pkg reason d. d;
  skip_package_version = λ pkg version reason d. d;
  yank_version = λ pkg version d. d;
  unyank_version = λ pkg version d. d;
  releases = λ pkg d. [];
  delete_build = λ pkg version d. d;
  delete_version = λ pkg version d. d;
  delete_package = λ pkg d. d;
  all_packages = λ d. [];
  arrange = λ xs. xs;
}

abbrev one_file : BuildState
one_file = record foo_build { files = (text "c", file_of (text "c") false) ∷ [] }

abbrev arrived : List ℕ → TransferState
arrived bytes = record {
  slave_id = 0;
  file_state = four;
  file = bytes;
  credit = 0;
  offset = 4;
  map = [];
}

abbrev with_transfer : List ℕ → Chase ℕ
with_transfer bytes = record {
  states = (text "i", one_file) ∷ [];
  db = 0;
  juggler = record { pending = []; active = []; complete = (0, arrived bytes) ∷ [] };
  dirs = [];
}

abbrev quiet : Chase ℕ
quiet = record {
  states = [];
  db = 0;
  juggler = record { pending = []; active = []; complete = [] };
  dirs = [];
}

known : (bytes : List ℕ) → lookup (text "i") (with_transfer bytes).states ≡ some one_file
unfolding lookup
known bytes = refl

next : next_file one_file ≡ some (text "c")
unfolding next_file
next = refl

complete : (bytes : List ℕ) → lookup 0 (with_transfer bytes).juggler.complete ≡ some (arrived bytes)
unfolding lookup
complete bytes = refl

src-IsGood : IsGood plain (arrived src)
unfolding lower
src-IsGood = (refl, refl)

none_pending : lookup 0 (with_transfer (text "abce")).juggler.pending ≡ none
unfolding lookup
none_pending = refl

none_active : lookup (text "f") (with_transfer (text "abce")).juggler.active ≡ none
unfolding lookup
none_active = refl

wrong-IsGood : IsGood plain (arrived (text "abce")) → ⊥
unfolding lower
wrong-IsGood (size, hash) = absurd (ground (arith, hash))

sent-dropped_example :
    (c' : Chase ℕ) × (handle_import all_known plain (text "i") sent (with_transfer (text "abce"))
      ≡ ok (c', send (text "c"), []))
    × (lookup (text "i") c'.states ≡ some one_file)
    × (handle_file (text "f") (hello (some 0)) c'.juggler ≡ some (ok (c'.juggler, [])))
sent-dropped_example =
    sent-dropped all_known plain (text "i") (with_transfer (text "abce")) one_file
      (arrived (text "abce")) (text "c") (known (text "abce")) next (complete (text "abce"))
      (text "f") wrong-IsGood none_pending none_active

sent-Followed_example :
    Followed all_known plain
      (text "i")
      (with_transfer src)
      one_file
      (arrived src)
      (text "c")
      (known src)
      next
      (complete src)
      (commit (arrived src) (dir_at one_file.pkg (with_transfer src).dirs)).0
      (handle_import all_known plain (text "i") sent (with_transfer src))
sent-Followed_example =
    sent-Followed all_known plain (text "i") (with_transfer src) one_file (arrived src) (text "c")
      (known src) next (complete src) src-IsGood

do_remove_version-skipped_example :
    (all_known.test_package_version (canonicalize_name (text "Foo")) (text "1") 0 ≡ false
      → do_remove_version all_known (text "Foo") (text "1") false (text "broken") true 0
        ≡ (error (text "NOVER"), 0, []))
    × (all_known.test_package_version (canonicalize_name (text "Foo")) (text "1") 0 ≡ true
        → (skipped
              (do_remove_version all_known (text "Foo") (text "1") false (text "broken") true 0).2
            ≡ (if false || not true then (canonicalize_name (text "Foo"), text "1") ∷ [] else []))
          × (rewritten
                (do_remove_version all_known (text "Foo") (text "1") false (text "broken") true 0).2
              ≡ ((if true then (canonicalize_name (text "Foo"), none) ∷ [] else [])
                  ++ (if false || not true
                      then (canonicalize_name (text "Foo"), some (text "1")) ∷ []
                      else []))))
do_remove_version-skipped_example =
    do_remove_version-skipped all_known (text "Foo") (text "1") (text "broken") false true 0

ordered_aliases_lem_example :
    (others : List Text) × (ordered_aliases (λ xs. xs) (text "foo") (text "Foo") (text "FOO" ∷ [])
      ≡ others ++ text "Foo" ∷ [])
    × (count (text "Foo") others ≡ 0)
    × ((x : Text)
        → count x (ordered_aliases (λ xs. xs) (text "foo") (text "Foo") (text "FOO" ∷ []))
          ≡ (if member x (text "FOO" ∷ text "foo" ∷ text "Foo" ∷ []) then 1 else 0))
ordered_aliases_lem_example =
    ordered_aliases_lem (λ xs. xs) (text "foo") (text "Foo") (text "FOO" ∷ []) (λ x xs. refl)

canonicalize_name_lem_example :
    (is_canonical false (canonicalize_name (text "A_.b")) ≡ true)
    × ((s : Text) → is_canonical false s ≡ true → canonicalize_name s ≡ s)
    × (canonicalize_name (canonicalize_name (text "A_.b")) ≡ canonicalize_name (text "A_.b"))
canonicalize_name_lem_example = canonicalize_name_lem (text "A_.b")
