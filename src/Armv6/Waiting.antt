-- ===== src/Armv6/Waiting.antt =====
-- What build_armv6l_hack adds to a build does not wait to be sent.
use piwheels.Prelude.{list_eq, nat_eq, ◌==◌, refl, List, [], ◌∷◌, Text, Bool-cases, inl, inr}
use piwheels.Dict.{Dict, has, values}
use piwheels.Files.{FileState, BuildState, armv7l, armv6_name}
use piwheels.Files.Waiting.{Waits, insert-Waits}
use piwheels.Armv6.{armv6_state, add_armv6, add_all_armv6, build_armv6l_hack}

module _ (P : Text → Type 0) where
  add_armv6-Waits : (f : FileState) (d : Dict Text FileState) → Waits P d → Waits P (add_armv6 f d)
  unfolding add_armv6 armv6_state
  add_armv6-Waits f d h = elim (Bool-cases (f.platform_tag == armv7l)) [
    | inr other ↦ rw other h
    | inl v7 ↦ rw v7 (elim (Bool-cases (has (armv6_name f.filename) d)) [
      | inl old ↦ rw old h
      | inr new ↦ rw new (insert-Waits P (armv6_name f.filename) _ d refl h)
    ])
  ]

  add_all_armv6-Waits :
      (fs : List FileState) (d : Dict Text FileState) → Waits P d → Waits P (add_all_armv6 fs d)
  unfolding add_all_armv6
  add_all_armv6-Waits [] d h = h
  add_all_armv6-Waits (f ∷ fs) d h = add_all_armv6-Waits fs (add_armv6 f d) (add_armv6-Waits f d h)

  pub build_armv6l_hack-Waits :
      (b : BuildState) → Waits P b.files → Waits P (build_armv6l_hack b).files
  unfolding build_armv6l_hack
  build_armv6l_hack-Waits b h = add_all_armv6-Waits (values b.files) b.files h
