-- ===== src/Files.antt =====
-- The file and build records of piwheels/states.py: FileState and BuildState.
pub mod Sorted
pub mod Next
pub mod Waiting
use piwheels.Prelude.{
  drop_last, ◌++◌, ℕ, ◌==◌, Bool, true, false, Option, none, some, List, [], ◌∷◌, Text, text,
  le_text, if◌then◌else◌, list_eq, nat_eq, map, ◌&&◌,
}
use piwheels.Dict.{Dict, insert, values}

pub record FileState : Type 0 where
  pub filename : Text
  pub filesize : ℕ
  pub filehash : Text
  pub package_tag : Text
  pub package_version_tag : Text
  pub py_version_tag : Text
  pub abi_tag : Text
  pub platform_tag : Text
  pub requires_python : Option Text
  pub dependencies : Dict Text (List Text)
  pub location : Text
  pub transferred : Bool

-- The list that `as_message` makes: all the fields but `transferred`.
pub record FileMessage : Type 0 where
  pub filename : Text
  pub filesize : ℕ
  pub filehash : Text
  pub package_tag : Text
  pub package_version_tag : Text
  pub py_version_tag : Text
  pub abi_tag : Text
  pub platform_tag : Text
  pub requires_python : Option Text
  pub dependencies : Dict Text (List Text)
  pub location : Text

unfoldable pub file_as_message : FileState → FileMessage
file_as_message f = record {
  filename = f.filename;
  filesize = f.filesize;
  filehash = f.filehash;
  package_tag = f.package_tag;
  package_version_tag = f.package_version_tag;
  py_version_tag = f.py_version_tag;
  abi_tag = f.abi_tag;
  platform_tag = f.platform_tag;
  requires_python = f.requires_python;
  dependencies = f.dependencies;
  location = f.location;
}

-- cls(*value): `transferred` has its default.
unfoldable pub file_from_message : FileMessage → FileState
file_from_message m = record {
  filename = m.filename;
  filesize = m.filesize;
  filehash = m.filehash;
  package_tag = m.package_tag;
  package_version_tag = m.package_version_tag;
  py_version_tag = m.py_version_tag;
  abi_tag = m.abi_tag;
  platform_tag = m.platform_tag;
  requires_python = m.requires_python;
  dependencies = m.dependencies;
  location = m.location;
  transferred = false;
}

-- FileState.verified
unfoldable pub verified : FileState → FileState
verified f = record f { transferred = true }

pub record BuildState : Type 0 where
  pub slave_id : ℕ
  pub pkg : Text
  pub version : Text
  pub abi_tag : Text
  pub status : Bool
  pub duration : ℕ
  pub output : Text
  pub files : Dict Text FileState
  pub build_id : Option ℕ

-- all(f.transferred for f in files.values())
unfoldable pub all_transferred : Dict Text FileState → Bool
all_transferred [] = true
all_transferred ((k, f) ∷ d) = f.transferred && all_transferred d

unfoldable pub transfers_done : BuildState → Bool
unfolding all_transferred
transfers_done b = all_transferred b.files

-- `sorted` on the items or the keys of a dictionary, whose keys are distinct
pub insert_sorted {ℓ} : {V : Type ℓ} → Text × V → Dict Text V → Dict Text V
insert_sorted (k, v) [] = (k, v) ∷ []
insert_sorted (k, v) ((j, w) ∷ d) =
    let rest = insert_sorted (k, v) d in if le_text k j then (k, v) ∷ (j, w) ∷ d else (j, w) ∷ rest

unfoldable pub sorted_items {ℓ} : {V : Type ℓ} → Dict Text V → Dict Text V
unfolding insert_sorted
sorted_items [] = []
sorted_items ((k, v) ∷ d) = insert_sorted (k, v) (sorted_items d)

-- The loop of `next_file`.
unfoldable pub first_waiting : Dict Text FileState → Option Text
first_waiting [] = none
first_waiting ((k, f) ∷ d) = if f.transferred then first_waiting d else some k

unfoldable pub next_file : BuildState → Option Text
unfolding sorted_items first_waiting
next_file b = first_waiting (sorted_items b.files)

-- BuildState.logged
unfoldable pub logged : BuildState → ℕ → BuildState
logged b id = record b { build_id = some id }

-- [FileState.from_message(f) for f in files], and then {f.filename: f for f in files}
unfoldable pub files_from_messages : List FileMessage → Dict Text FileState → Dict Text FileState
unfolding insert file_from_message
files_from_messages [] d = d
files_from_messages (m ∷ ms) d =
    let f = file_from_message m in files_from_messages ms (insert f.filename f d)

-- `none` is the AssertionError of `abi_tag != 'none'`.
unfoldable pub build_state :
    ℕ → Text → Text → Text → Bool → ℕ → Text → Dict Text FileState → Option BuildState
build_state slave_id pkg version abi_tag status duration output files =
    if abi_tag == text "none"
    then none
    else some (record {
      slave_id = slave_id;
      pkg = pkg;
      version = version;
      abi_tag = abi_tag;
      status = status;
      duration = duration;
      output = output;
      files = files;
      build_id = none;
    })

-- The list that BuildState.as_message makes: all the fields but `build_id`.
pub record BuildMessage : Type 0 where
  pub slave_id : ℕ
  pub pkg : Text
  pub version : Text
  pub abi_tag : Text
  pub status : Bool
  pub duration : ℕ
  pub output : Text
  pub files : List FileMessage

unfoldable pub build_as_message : BuildState → BuildMessage
unfolding sorted_items file_as_message
build_as_message b = record {
  slave_id = b.slave_id;
  pkg = b.pkg;
  version = b.version;
  abi_tag = b.abi_tag;
  status = b.status;
  duration = b.duration;
  output = b.output;
  files = map file_as_message (values (sorted_items b.files));
}

unfoldable pub build_from_message : BuildMessage → Option BuildState
unfolding build_state files_from_messages
build_from_message m =
    build_state m.slave_id m.pkg m.version m.abi_tag m.status m.duration m.output
      (files_from_messages m.files [])

abbrev pub armv7l : Text
armv7l = text "linux_armv7l"

-- name[:-16] + 'linux_armv6l.whl'
unfoldable pub armv6_name : Text → Text
armv6_name name = drop_last 16 name ++ text "linux_armv6l.whl"
