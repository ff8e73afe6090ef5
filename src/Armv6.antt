-- ===== src/Armv6.antt =====
-- `build_armv6l_hack` of piwheels/master/slave_driver.py: each wheel for armv7l gets an entry under
-- the name for armv6l, which needs no transfer.
pub mod Names
pub mod Waiting
use piwheels.Prelude.{list_eq, nat_eq, ◌==◌, true, List, [], ◌∷◌, Text, text, if◌then◌else◌}
use piwheels.Dict.{Dict, has, insert, values}
use piwheels.Files.{FileState, BuildState, armv7l, armv6_name}

abbrev simple_location : Text
simple_location = text "/simple"

-- FileState(armv6_name, ..., transferred=True): `location` has its default.
armv6_state : FileState → FileState
unfolding armv6_name
armv6_state f = record f {
  filename = armv6_name f.filename;
  platform_tag = text "linux_armv6l";
  location = simple_location;
  transferred = true;
}

add_armv6 : FileState → Dict Text FileState → Dict Text FileState
unfolding armv6_state has insert
add_armv6 f d =
    if f.platform_tag == armv7l
    then (if has (armv6_name f.filename) d
        then d
        else insert (armv6_name f.filename) (armv6_state f) d)
    else d

add_all_armv6 : List FileState → Dict Text FileState → Dict Text FileState
unfolding add_armv6
add_all_armv6 [] d = d
add_all_armv6 (f ∷ fs) d = add_all_armv6 fs (add_armv6 f d)

-- for file in list(build.files.values())
unfoldable pub build_armv6l_hack : BuildState → BuildState
unfolding add_all_armv6
build_armv6l_hack b = record b { files = add_all_armv6 (values b.files) b.files }
