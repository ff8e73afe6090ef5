-- ===== src/Tests/Transfers.antt =====
-- Runs of the transfer of a file.
use piwheels.Prelude.{
  ℕ, zero, suc, ◌+◌, ◌<◌, ◌≡◌, refl, true, false, none, some, List, [], ◌∷◌, ◌++◌, Text, text, All,
  arith, list_eq, nat_eq, ◌==◌, get_elem?, is_some,
}
use piwheels.Files.{FileState, armv7l, armv6_name}
use piwheels.Ranges.{range, exclude, intersect}
use piwheels.Transfer.{
  TransferState, new_transfer_state, done, fetch, chunk, Hash, matches, verify, lower, PkgDir,
  directory, regular, commit,
}
use piwheels.Transfer.Commit.{node_at, before, commit_lem}
use piwheels.Dict.{has, lookup}
use piwheels.Transfer.Fetch.{fetch-empty_file}
use piwheels.Transfer.Integrity.{IsPart, chunks, file-chunks}
use piwheels.Transfer.Verify.{verify-chunks}
use piwheels.Transfer.Progress.{rounds, rounds-new}

-- A file of four bytes, and of none, and the bytes; the hash of the bytes is the bytes.
abbrev pub file_with : ℕ → FileState
file_with n = record {
  filename = text "foo";
  filesize = n;
  filehash = text "abcd";
  package_tag = text "foo";
  package_version_tag = text "0.1";
  py_version_tag = text "cp37";
  abi_tag = text "cp37m";
  platform_tag = text "linux_armv7l";
  requires_python = none;
  dependencies = [];
  location = text "";
  transferred = false;
}

abbrev pub four : FileState
four = file_with 4

abbrev pub src : List ℕ
src = text "abcd"

pub append_assoc : (xs ys zs : List ℕ) → (xs ++ ys) ++ zs ≡ xs ++ (ys ++ zs)
append_assoc [] ys zs = refl
append_assoc (x ∷ xs) ys zs = rw (append_assoc xs ys zs) refl

pub append_nil : (xs : List ℕ) → xs ++ [] ≡ xs
append_nil [] = refl
append_nil (x ∷ xs) = rw (append_nil xs) refl

abbrev pub plain : Hash
plain = record {
  State = List ℕ;
  start = [];
  update = λ s b. s ++ b;
  hexdigest = λ s. s;
  update_append = append_assoc;
  update_nil = append_nil;
}

-- The end of the file arrives first, and a byte twice.
abbrev arrivals : List (ℕ × List ℕ)
arrivals = (2, text "cd") ∷ (0, text "ab") ∷ (1, text "b") ∷ []

one_byte : (c : ℕ) (j : ℕ) → j < 1 → get_elem? (c ∷ []) j ≡ some c
one_byte c zero l = refl
one_byte c (suc j) l = absurd (omega arith)

same_cd : (j : ℕ) → j < 2 → get_elem? (text "cd") j ≡ get_elem? src (2 + j)
same_cd zero l = refl
same_cd (suc zero) l = refl
same_cd (suc (suc j)) l = absurd (omega arith)

same_ab : (j : ℕ) → j < 2 → get_elem? (text "ab") j ≡ get_elem? src (0 + j)
same_ab zero l = refl
same_ab (suc zero) l = refl
same_ab (suc (suc j)) l = absurd (omega arith)

same_b : (j : ℕ) → j < 1 → get_elem? (text "b") j ≡ get_elem? src (1 + j)
same_b zero l = refl
same_b (suc j) l = absurd (omega arith)

four_hash : lower src ≡ four.filehash
unfolding lower
four_hash = refl

arrivals-IsPart : All (λ c. IsPart src c.0 c.1) arrivals
arrivals-IsPart = (
  record { within = omega arith; same = same_cd },
  (
    record { within = omega arith; same = same_ab },
    (record { within = omega arith; same = same_b }, tt),
  ),
)

arrivals-done : done (chunks arrivals (new_transfer_state 1 four)) ≡ true
unfolding done chunks new_transfer_state chunk exclude
arrivals-done = refl

rounds-new_example :
    (t' : TransferState) × (rounds 4 src (new_transfer_state 1 four) ≡ some t')
    × (done t' ≡ true)
    × (t'.file ≡ src)
rounds-new_example = rounds-new 1 four src refl (omega arith)

file-chunks_example : (chunks arrivals (new_transfer_state 1 four)).file ≡ src
file-chunks_example =
    file-chunks 1 four src arrivals refl (omega arith) arrivals-IsPart arrivals-done

verify-chunks_example : verify plain 5 (chunks arrivals (new_transfer_state 1 four)) ≡ some matches
verify-chunks_example =
    verify-chunks plain 5 1 four src arrivals refl four_hash (omega arith) arrivals-IsPart
      arrivals-done (omega arith)

abbrev truncated : TransferState
truncated = record {
  slave_id = 1;
  file_state = four;
  file = text "abc";
  credit = 0;
  offset = 0;
  map = [];
}

abbrev waiting : TransferState
waiting = record {
  slave_id = 1;
  file_state = four;
  file = text "abcd";
  credit = 1;
  offset = 4;
  map = range 1 2 ∷ range 3 4 ∷ [];
}

fetch-waiting : fetch 2 waiting ≡ some (some (range 1 2), record waiting { credit = 0; offset = 2 })
unfolding fetch intersect
fetch-waiting = refl

fetch-empty_file_example : fetch 100 (new_transfer_state 1 (file_with 0)) ≡ none
fetch-empty_file_example = fetch-empty_file 100 1 (file_with 0) refl

abbrev full : TransferState
full = record truncated { file = src }

abbrev shelf : PkgDir
shelf = directory ((text "old", regular (text "x")) ∷ [])

commit_lem_example :
    (node_at (text "foo") (commit full shelf).0 ≡ some (regular src))
    × ((name : Text)
        → has name (before shelf) ≡ true
        → name == text "foo" ≡ false
        → node_at name (commit full shelf).0 ≡ lookup name (before shelf))
    × (four.platform_tag == armv7l ≡ true
        → is_some (node_at (armv6_name (text "foo")) (commit full shelf).0) ≡ true)
commit_lem_example = commit_lem full shelf
