-- ===== src/Tests/Files.antt =====
-- Runs of the operations on builds.
use piwheels.Prelude.{
  ◌≡◌, Bool, true, false, not, none, some, [], ◌∷◌, Text, text, All, is_some, list_eq, nat_eq, refl,
}
use piwheels.Armv6.{build_armv6l_hack}
use piwheels.Armv6.Names.{IsNamed, build_armv6l_hack_lem}
use piwheels.Dict.{has, values, lookup}
use piwheels.Dict.Laws.{NodupKeys}
use piwheels.Files.{FileState, BuildState, next_file, transfers_done}
use piwheels.Files.Sorted.{IsWaiting}
use piwheels.Files.Next.{IsNotBefore, next_file_lem}

abbrev pub file_of : Text → Bool → FileState
file_of name sent = record {
  filename = name;
  filesize = 3;
  filehash = text "abc";
  package_tag = text "foo";
  package_version_tag = text "0.1";
  py_version_tag = text "cp37";
  abi_tag = text "cp37m";
  platform_tag = text "linux_armv7l";
  requires_python = none;
  dependencies = [];
  location = text "";
  transferred = sent;
}

abbrev pub foo_build : BuildState
foo_build = record {
  slave_id = 1;
  pkg = text "foo";
  version = text "0.1";
  abi_tag = text "cp37m";
  status = true;
  duration = 60;
  output = text "";
  files =
      (text "c", file_of (text "c") false)
      ∷ (text "a", file_of (text "a") true)
      ∷ (text "b", file_of (text "b") false)
      ∷ [];
  build_id = none;
}

foo_build-NodupKeys : NodupKeys foo_build.files
unfolding has
foo_build-NodupKeys = (refl, (refl, (refl, tt)))

next_file_lem_example :
    (is_some (next_file foo_build) ≡ not (transfers_done foo_build))
    × ((n : Text)
        → next_file foo_build ≡ some n
        → IsWaiting n foo_build.files × All (IsNotBefore n) foo_build.files)
next_file_lem_example = next_file_lem foo_build foo_build-NodupKeys

build_armv6l_hack_lem_example :
    ((name : Text)
      → has name foo_build.files ≡ true
      → lookup name (build_armv6l_hack foo_build).files ≡ lookup name foo_build.files)
    × All (IsNamed (build_armv6l_hack foo_build).files) (values foo_build.files)
    × (transfers_done (build_armv6l_hack foo_build) ≡ transfers_done foo_build)
build_armv6l_hack_lem_example = build_armv6l_hack_lem foo_build
