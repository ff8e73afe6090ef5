-- ===== src/Gazer/Store.antt =====
-- CloudGazer.read_pypi (piwheels/master/cloud_gazer.py): what the rows of PyPIEvents make it ask of the
-- database and of the other tasks.

use piwheels.Prelude.{
  ℕ, list_eq, nat_eq, ◌==◌, Bool, false, not, ◌||◌, Option, none, some, List, [], ◌∷◌, ◌++◌, Text,
  text, if◌then◌else◌, ltb, length,
}
use piwheels.MrChase.Names.{canonicalize_name, member, filter}
use piwheels.Gazer.{Action, source, remove', yank, unyank, Row}

-- The calls of the database, and the messages to TheScribe (web) and SlaveDriver (skip), in order.
pub data Call : Type 0 where
  skip_package : Text → Text → Call
  delete_package : Text → Call
  skip_version : Text → Text → Text → Call
  delete_version : Text → Text → Call
  add_package : Text → Text → Text → Call
  add_name : Text → Text → Option ℕ → Call
  set_description : Text → Text → Call
  add_version : Text → Text → ℕ → Text → Call
  yank_version : Text → Text → Call
  unyank_version : Text → Text → Call
  get_version_skip : Text → Text → Call
  set_serial : ℕ → Call
  web_both : Text → Call
  web_project : Text → Call
  web_delete_package : Text → Call
  skip_delete_package : Text → Call
  web_delete_version : Text → Text → Call
  skip_delete_version : Text → Text → Call

-- What the database answers, after the calls so far: whether a package or a version is new, and why a
-- version is skipped.
pub record Answers : Type 0 where
  pub new_package : Text → List Call → Bool
  pub new_version : Text → Text → List Call → Bool
  pub version_skip : Text → Text → List Call → Text

pub record Gazer : Type 0 where
  pub packages : List Text
  pub serial : ℕ
  pub skip_default : Text
  pub calls : List Call

-- packages.discard
unfoldable pub discard : Text → List Text → List Text
discard p ps = filter (λ q. not (p == q)) ps

-- self.add_package_name: without a time for the canonical name, if the alias is another
unfoldable pub name_calls : Text → Text → ℕ → List Call
name_calls pkg alias time =
    (if alias == pkg then [] else add_name pkg pkg none ∷ []) ++ add_name pkg alias (some time) ∷ []

unfoldable pub remove_calls : Text → Option Text → List Call
remove_calls pkg none =
    skip_package pkg (text "deleted")
    ∷ web_delete_package pkg
    ∷ skip_delete_package pkg
    ∷ delete_package pkg
    ∷ []
remove_calls pkg (some v) =
    skip_version pkg v (text "deleted")
    ∷ web_delete_version pkg v
    ∷ skip_delete_version pkg v
    ∷ delete_version pkg v
    ∷ []

unfoldable pub described : Text → Option Text → List Call
described pkg none = []
described pkg (some d) = set_description pkg d ∷ []

abbrev or_empty : Option Text → Text
or_empty none = []
or_empty (some d) = d

abbrev skip_reason : Action → Text
skip_reason source = []
skip_reason other = text "binary only"

unfoldable pub forget : Text → Option Text → Gazer → Gazer
unfolding remove_calls discard
forget pkg none g = record g {
  packages = discard pkg g.packages;
  calls = g.calls ++ remove_calls pkg none;
}
forget pkg (some v) g = record g { calls = g.calls ++ remove_calls pkg (some v) }

unfoldable pub is_silly : Text → Bool
is_silly s = ltb 200 (length s)

unfoldable pub silly_version : Option Text → Bool
unfolding is_silly
silly_version none = false
silly_version (some v) = is_silly v

module _ (answers : Answers) where
  -- A package that is not in `packages`.
  unfoldable pub package_calls : Text → Row → Text → List Call → List Call
  unfolding name_calls described
  package_calls pkg r skip calls =
      add_package pkg skip (or_empty r.description)
      ∷ (if answers.new_package pkg calls
          then name_calls pkg r.alias r.timestamp ++ web_both pkg ∷ []
          else described pkg r.description)

  -- A version that is there already: a source lifts a skip for want of one.
  unfoldable pub updated_version : Text → Text → Action → List Call → List Call
  updated_version pkg v source calls =
      get_version_skip pkg v
      ∷ (if answers.version_skip pkg v calls == text "binary only"
          then skip_version pkg v [] ∷ web_project pkg ∷ []
          else web_both pkg ∷ [])
  updated_version pkg v other calls = web_both pkg ∷ []

  unfoldable pub added_version : Text → Text → ℕ → Option Text → Action → List Call → List Call
  unfolding described updated_version
  added_version pkg v time description action calls =
      add_version pkg v time (skip_reason action)
      ∷ (if answers.new_version pkg v calls
          then described pkg description ++ web_both pkg ∷ []
          else updated_version pkg v action calls)

  unfoldable pub version_calls : Text → Text → ℕ → Option Text → Action → List Call → List Call
  unfolding added_version
  version_calls pkg v time description yank calls = yank_version pkg v ∷ web_both pkg ∷ []
  version_calls pkg v time description unyank calls = unyank_version pkg v ∷ web_both pkg ∷ []
  version_calls pkg v time description other calls =
      added_version pkg v time description other calls

  -- A row of a package or a version that is there.
  unfoldable pub store : Text → Row → Gazer → Gazer
  unfolding package_calls version_calls name_calls
  store pkg r g =
      let seen = member pkg g.packages in
      let first : List Call = if seen then [] else package_calls pkg r g.skip_default g.calls in
      let calls = (g.calls ++ first) ++ name_calls pkg r.alias r.timestamp in
      let last : List Call = elim r.version [
        | none ↦ []
        | some v ↦ version_calls pkg v r.timestamp r.description r.action calls
      ] in
      record g { packages = if seen then g.packages else pkg ∷ g.packages; calls = calls ++ last }

  unfoldable pub read_row : Row → Gazer → Gazer
  unfolding store forget is_silly silly_version canonicalize_name
  read_row r g =
      let pkg = canonicalize_name r.alias in
      if is_silly pkg || silly_version r.version
      then g
      else elim r.action [ remove' ↦ forget pkg r.version g | other ↦ store pkg r g ]

  unfoldable pub read_rows : List Row → Gazer → Gazer
  unfolding read_row
  read_rows [] g = g
  read_rows (r ∷ rs) g = read_rows rs (read_row r g)

  -- read_pypi, with the rows and the serial of PyPI afterwards
  unfoldable pub read_pypi : List Row → ℕ → Gazer → Gazer
  unfolding read_rows
  read_pypi rs serial g =
      let g' = read_rows rs g in
      if ltb g'.serial serial
      then record g' { serial = serial; calls = g'.calls ++ set_serial serial ∷ [] }
      else g'
