-- ===== src/Gazer.antt =====
-- PyPIEvents (piwheels/pypi.py), and CloudGazer (piwheels/master/cloud_gazer.py), which stores what its
-- events say. `Pypi` has the buffer that gives the events.
pub mod Cache
pub mod Store
pub mod Known
use piwheels.Prelude.{
  ℕ, suc, ◌+◌, ◌-◌, list_eq, pair_eq, option_eq, nat_eq, ◌==◌, ◌≡◌, Bool, true, false, not, ◌&&◌,
  ◌||◌, Option, none, some, List, [], ◌∷◌, ◌++◌, Text, text, if◌then◌else◌, ltb, leb, nat_beq,
  length, take, drop,
}
use piwheels.Dict.{Dict, lookup, insert, remove}
use piwheels.MrChase.Names.{canonicalize_name, member}
use piwheels.Pypi.{Event}

pub data Action : Type 0 where
  create source remove' yank unyank : Action

-- The last versions that were reported, the one that was touched last at the end.
pub record PypiEvents : Type 0 where
  pub versions : Dict (Text × Option Text) (ℕ × Action)
  pub versions_size : ℕ

-- A row that is yielded; `description` of a package that has none is `none`.
pub record Row : Type 0 where
  pub alias : Text
  pub version : Option Text
  pub timestamp : ℕ
  pub action : Action
  pub description : Option Text

-- while len(versions) > size: versions.popitem(last=False)
unfoldable pub evict :
    ℕ → Dict (Text × Option Text) (ℕ × Action) → Dict (Text × Option Text) (ℕ × Action)
evict size d = drop (length d - size) d

-- A create that is now known as a source is reported again, with its first time.
unfoldable pub upgraded : ℕ → Action → Action → Option (ℕ × Action)
upgraded time create source = some (time, source)
upgraded time last action = none

-- What is reported of a version that is cached, and its entry.
unfoldable pub recheck : ℕ × Action → Action → Option (ℕ × Action) × (ℕ × Action)
unfolding upgraded
recheck (time, last) action = elim (upgraded time last action) [
  | none ↦ (none, (time, last))
  | some entry ↦ (some entry, entry)
]

-- _check_new_version: what is reported, and the cache. `move_to_end` takes the entry out and puts it at
-- the end.
unfoldable pub check_new_version :
    Text → Option Text → ℕ → Action → PypiEvents → Option (ℕ × Action) × PypiEvents
unfolding recheck evict lookup insert remove
check_new_version pkg version time action p = elim (lookup (pkg, version) p.versions) [
  | none ↦ (
    some (time, action),
    record p { versions = evict p.versions_size (insert (pkg, version) (time, action) p.versions) },
  )
  | some entry ↦
      let (out, entry') = recheck entry action in
      (
        out,
        record p {
          versions =
              evict p.versions_size
                (remove (pkg, version) p.versions ++ ((pkg, version), entry') ∷ []);
        },
      )
]

-- The rest of a text behind a prefix.
unfoldable pub behind : Text → Text → Option Text
behind [] s = some s
behind (c ∷ p) [] = none
behind (c ∷ p) (d ∷ s) = let rest = behind p s in if nat_beq c d then rest else none

-- A word without spaces, and what follows it.
unfoldable pub word : Text → Text × Text
word [] = ([], [])
word (c ∷ s) = let (w, rest) = word s in if nat_beq c 32 then ([], c ∷ s) else (c ∷ w, rest)

-- ^add ([^ ]+) file
unfoldable pub add_file : Text → Option Text
unfolding behind word
add_file s = elim (behind (text "add ") s) [
  | none ↦ none
  | some rest ↦ elim (word rest).0 [
    | [] ↦ none
    | c ∷ w ↦ elim (behind (text " file") (word rest).1) [ none ↦ none | some more ↦ some (c ∷ w) ]
  ]
]

-- ^name$, where `$` allows a newline
abbrev is_whole : Text → Text → Bool
is_whole name s = s == name || s == name ++ 10 ∷ []

-- What an event is: a new file, of a source or not, or one of the other actions.
pub data Kind : Type 0 where
  new_file : Action → Kind
  new_package removal yanked unyanked unknown : Kind

unfoldable pub kind_of : Text → Kind
unfolding add_file
kind_of action = elim (add_file action) [
  | some w ↦ new_file (if w == text "source" then source else create)
  | none ↦
      if is_whole (text "create") action
      then new_package
      else if is_whole (text "remove") action
          || is_whole (text "remove project") action
          || is_whole (text "remove release") action
      then removal
      else if is_whole (text "yank release") action
      then yanked
      else if is_whole (text "unyank release") action
      then unyanked
      else unknown
]

-- The description that PyPI's JSON API gives for a package is `describe`.
module _ (describe : Text → Option Text) where
  row : Event → ℕ → Action → Option Text → Row
  row e time action description = record {
    alias = e.pkg;
    version = e.version;
    timestamp = time;
    action = action;
    description = description;
  }

  unfoldable pub by_kind : Event → Kind → PypiEvents → List Row × PypiEvents
  unfolding row check_new_version remove
  by_kind e (new_file action) p =
      let (out, p') = check_new_version e.pkg e.version e.timestamp action p in
      (elim out [ none ↦ [] | some (time, action) ↦ row e time action (describe e.pkg) ∷ [] ], p')
  by_kind e new_package p =
      (record (row e e.timestamp create (describe e.pkg)) { version = none } ∷ [], p)
  by_kind e removal p = (
    row e e.timestamp remove' none ∷ [],
    elim e.version [
      | none ↦ p
      | some v ↦ record p { versions = remove (e.pkg, some v) p.versions }
    ],
  )
  by_kind e yanked p = (row e e.timestamp yank none ∷ [], p)
  by_kind e unyanked p = (row e e.timestamp unyank none ∷ [], p)
  by_kind e unknown p = ([], p)

  -- __iter__, for the events that the buffer yields
  unfoldable pub rows_of : List Event → PypiEvents → List Row × PypiEvents
  unfolding by_kind kind_of
  rows_of [] p = ([], p)
  rows_of (e ∷ es) p =
      let (rows, p') = by_kind e (kind_of e.action) p in
      let (more, p'') = rows_of es p' in (rows ++ more, p'')
