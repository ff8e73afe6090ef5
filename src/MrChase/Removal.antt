-- ===== src/MrChase/Removal.antt =====
-- What the other tasks hear when a package or a version is removed (piwheels/master/mr_chase.py).
use piwheels.Prelude.{
  list_eq, nat_eq, ◌≡◌, refl, Bool, true, false, not, ◌||◌, Option, none, some, List, [], ◌∷◌, ◌++◌,
  Text, text, if◌then◌else◌,
}
use piwheels.MrChase.Names.{canonicalize_name}
use piwheels.MrChase.Tools.{
  Database, Post, skip_delete_version, web_delete_version, to_both, error, drop_version,
  do_remove_version,
}

-- The versions that SlaveDriver is told not to build any more.
unfoldable pub skipped : List Post → List (Text × Text)
skipped [] = []
skipped (skip_delete_version pkg version ∷ ps) = (pkg, version) ∷ skipped ps
skipped (other ∷ ps) = skipped ps

-- The packages whose pages TheScribe is told to write again, the project's and the simple one, with the
-- version that it deletes from them: BOTH deletes none, and DELVER the one that it names.
unfoldable pub rewritten : List Post → List (Text × Option Text)
rewritten [] = []
rewritten (to_both pkg ∷ ps) = (pkg, none) ∷ rewritten ps
rewritten (web_delete_version pkg version ∷ ps) = (pkg, some version) ∷ rewritten ps
rewritten (other ∷ ps) = rewritten ps

module _ {D : Type 0} (db : Database D) where
  known_version :
      (name version : Text) (d : D) (skip : Text) (builds yank : Bool)
      → db.test_package_version (canonicalize_name name) version d ≡ true
      → (skipped (do_remove_version db name version builds skip yank d).2
          ≡ (if builds || not yank then (canonicalize_name name, version) ∷ [] else []))
        × (rewritten (do_remove_version db name version builds skip yank d).2 ≡ (
            (if yank then (canonicalize_name name, none) ∷ [] else [])
            ++ (if builds || not yank then (canonicalize_name name, some version) ∷ [] else [])))
  unfolding do_remove_version drop_version skipped rewritten
  known_version name version d [] true true known = rw (known, do_remove_version) (refl, refl)
  known_version name version d [] true false known = rw (known, do_remove_version) (refl, refl)
  known_version name version d [] false true known = rw (known, do_remove_version) (refl, refl)
  known_version name version d [] false false known = rw (known, do_remove_version) (refl, refl)
  known_version name version d (x ∷ s) true true known = rw (known, do_remove_version) (refl, refl)
  known_version name version d (x ∷ s) true false known = rw (known, do_remove_version) (refl, refl)
  known_version name version d (x ∷ s) false true known = rw (known, do_remove_version) (refl, refl)
  known_version name version d (x ∷ s) false false known =
      rw (known, do_remove_version) (refl, refl)

  -- Removing a version that is not known changes nothing and tells nobody. SlaveDriver, which has the build
  -- queues, hears of a known version exactly when its builds are deleted or it is not yanked: a version
  -- that is skipped and yanked in one request stays in the queues. TheScribe is told to write the package's
  -- pages again once with no version deleted if the version is yanked, and after that once with the
  -- version deleted exactly when SlaveDriver hears of it, so at least once for every known version.
  pub do_remove_version-skipped :
      (name version skip : Text) (builds yank : Bool) (d : D)
      → (db.test_package_version (canonicalize_name name) version d ≡ false
          → do_remove_version db name version builds skip yank d ≡ (error (text "NOVER"), d, []))
        × (db.test_package_version (canonicalize_name name) version d ≡ true
            → (skipped (do_remove_version db name version builds skip yank d).2
                ≡ (if builds || not yank then (canonicalize_name name, version) ∷ [] else []))
              × (rewritten (do_remove_version db name version builds skip yank d).2 ≡ (
                  (if yank then (canonicalize_name name, none) ∷ [] else [])
                  ++ (if builds || not yank
                      then (canonicalize_name name, some version) ∷ []
                      else []))))
  unfolding do_remove_version
  do_remove_version-skipped name version skip builds yank d =
      (λ missing. rw missing refl, known_version name version d skip builds yank)
