-- ===== src/Tests/Packages.antt =====
-- Runs of PyPIEvents' cache and of CloudGazer.
use piwheels.Prelude.{
  ℕ, list_eq, pair_eq, option_eq, nat_eq, ◌≡◌, refl, arith, true, none, some, Option, List, [], ◌∷◌,
  Text, text,
}
use piwheels.Dict.{lookup, has}
use piwheels.MrChase.Names.{member}
use piwheels.Gazer.{Action, create, source, remove', PypiEvents, Row, check_new_version}
use piwheels.Gazer.Cache.{IsValid, Reports, entry_after, check_new_version-IsValid}
use piwheels.Gazer.Store.{Answers, Gazer, read_pypi}
use piwheels.Gazer.Known.{is_known, read_pypi-known}

abbrev cached : PypiEvents
cached = record { versions = ((text "foo", some (text "1")), (5, create)) ∷ []; versions_size = 2 }

cached-IsValid : IsValid cached
unfolding has
cached-IsValid = record { once = (refl, tt); small = omega arith; room = omega arith }

check_new_version-IsValid_example :
    (out : Option (ℕ × Action)) × (p' : PypiEvents) × (check_new_version
        (text "foo")
        (some (text "1"))
        9
        source
        cached
      ≡ (out, p'))
    × IsValid p'
    × Reports (lookup (text "foo", some (text "1")) cached.versions) 9 source out
    × (lookup (text "foo", some (text "1")) p'.versions
        ≡ entry_after (lookup (text "foo", some (text "1")) cached.versions) out)
check_new_version-IsValid_example =
    check_new_version-IsValid (text "foo") (some (text "1")) 9 source cached cached-IsValid

abbrev all_new : Answers
all_new = record {
  new_package = λ p calls. true;
  new_version = λ p v calls. true;
  version_skip = λ p v calls. [];
}

abbrev row_of : Text → Option Text → Action → Row
row_of alias version action = record {
  alias = alias;
  version = version;
  timestamp = 7;
  action = action;
  description = none;
}

abbrev three_rows : List Row
three_rows =
    row_of (text "Foo") (some (text "1")) source
    ∷ row_of (text "foo") none remove'
    ∷ row_of (text "bar") none create
    ∷ []

abbrev starting : Gazer
starting = record { packages = text "baz" ∷ []; serial = 3; skip_default = []; calls = [] }

starting-known :
    (p : Text) → member p starting.packages ≡ is_known p (member p (text "baz" ∷ [])) starting.calls
unfolding is_known
starting-known p = refl

read_pypi-known_example :
    member (text "foo") (read_pypi all_new three_rows 9 starting).packages
    ≡ is_known
        (text "foo")
        (member (text "foo") (text "baz" ∷ []))
        (read_pypi all_new three_rows 9 starting).calls
read_pypi-known_example =
    read_pypi-known all_new three_rows 9 starting (λ p. member p (text "baz" ∷ [])) starting-known
      (text "foo")
