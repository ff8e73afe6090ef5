-- ===== src/Tests/Replacing.antt =====
-- A page that is written.
use piwheels.Prelude.{
  list_eq, nat_eq, ◌==◌, ◌≡◌, refl, false, none, some, [], ◌∷◌, Text, text, All, if◌then◌else◌,
}
use piwheels.Dict.{lookup}
use piwheels.AtomicFile.{FileSystem, SeesSame, replace_file, joined_parts, replace_file-SeesSame}

abbrev one_page : FileSystem
one_page = (text "index.html", text "old") ∷ []

replace_file-SeesSame_example :
    ((name : Text)
      → (text "tmp1" == name) ≡ false
      → All
          (SeesSame name one_page)
          (replace_file
            (text "index.html")
            (text "tmp1")
            (text "ne" ∷ text "w" ∷ [])
            false
            one_page).0
        × (lookup name
              (replace_file
                (text "index.html")
                (text "tmp1")
                (text "ne" ∷ text "w" ∷ [])
                false
                one_page).1
            ≡ (if false
                then lookup name one_page
                else if text "index.html" == name
                then some (joined_parts [] (text "ne" ∷ text "w" ∷ []))
                else lookup name one_page)))
    × (lookup
          (text "tmp1")
          (replace_file
            (text "index.html")
            (text "tmp1")
            (text "ne" ∷ text "w" ∷ [])
            false
            one_page).1
        ≡ none)
replace_file-SeesSame_example =
    replace_file-SeesSame (text "index.html") (text "tmp1") (text "ne" ∷ text "w" ∷ []) false
      one_page refl
