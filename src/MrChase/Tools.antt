-- ===== src/MrChase/Tools.antt =====
-- The requests of piw-add, piw-remove and piw-rebuild to MrChase (piwheels/master/mr_chase.py).
use piwheels.Prelude.{
  ℕ, list_eq, nat_eq, ◌==◌, ◌⊎◌, Bool, true, false, not, ◌||◌, Option, none, some, List, [], ◌∷◌,
  ◌++◌, Text, text, if◌then◌else◌,
}
use piwheels.Files.{BuildMessage}
use piwheels.MrChase.Names.{canonicalize_name, ordered_aliases}

-- The database as its client serves it, which is stored procedures: `D` is what it holds, and a call
-- that changes it gives it anew. LOGBUILD, whose errors MrChase catches, may fail with a text; the other calls
-- are taken to answer. A set of texts has its members in the order of `arrange`.
pub record Database (D : Type 0) : Type 0 where
  pub has_abi : Text → D → Bool
  pub test_package : Text → D → Bool
  pub test_package_version : Text → Text → D → Bool
  pub log_build : BuildMessage → D → Text ⊎ (ℕ × D)
  pub add_new_package : Text → Text → Text → D → Bool × D
  pub add_new_package_version : Text → Text → ℕ → Text → D → Bool × D
  pub add_package_name : Text → Text → D → D
  pub set_package_description : Text → Text → D → D
  pub skip_package : Text → Text → D → D
  pub skip_package_version : Text → Text → Text → D → D
  pub yank_version : Text → Text → D → D
  pub unyank_version : Text → Text → D → D
  pub releases : Text → D → List Text
  pub delete_build : Text → Text → D → D
  pub delete_version : Text → Text → D → D
  pub delete_package : Text → D → D
  pub all_packages : D → List Text
  pub arrange : List Text → List Text

pub data Part : Type 0 where
  home search project both : Part

-- The messages of the tools. `rebuild` of a part of the site names a package or none.
pub data ToolRequest : Type 0 where
  add_package : Text → Text → Text → Bool → List Text → ToolRequest
  add_version : Text → Text → Text → Bool → ℕ → Bool → Bool → List Text → ToolRequest
  remove_package : Text → Bool → Text → ToolRequest
  remove_version : Text → Text → Bool → Text → Bool → ToolRequest
  rebuild : Part → Option Text → ToolRequest

pub data ChaseReply : Type 0 where
  send error finished : Text → ChaseReply

-- What MrChase sends to TheScribe, SlaveDriver (the skip queue) and BigBrother, in order.
pub data Post : Type 0 where
  to_web_log : Option ℕ → Text → Post
  to_web to_both : Text → Post
  web_delete_package skip_delete_package : Text → Post
  web_delete_version skip_delete_version : Text → Text → Post
  stats_home : Post

-- `if text:`
abbrev pub given : Text → Bool
given [] = false
given (c ∷ s) = true

module _ {D : Type 0} (db : Database D) where
  abbrev pub Served : Type 0
  Served = ChaseReply × D × List Post

  unfoldable pub do_add_package_aliases : Text → List Text → D → D
  do_add_package_aliases pkg [] d = d
  do_add_package_aliases pkg (a ∷ as') d =
      do_add_package_aliases pkg as' (db.add_package_name pkg a d)

  -- The end of `do_add_package` and of `do_add_version`.
  unfoldable pub named : Text → List Text → Post → Text → D → Served
  unfolding do_add_package_aliases
  named pkg aliases post msg d = (finished msg, do_add_package_aliases pkg aliases d, post ∷ [])

  abbrev when : Bool → (D → D) → D → D
  when true f d = f d
  when false f d = d

  unfoldable pub do_add_package : Text → Text → Text → Bool → List Text → D → Served
  unfolding named canonicalize_name ordered_aliases
  do_add_package display description skip unskip aliases d =
      let pkg = canonicalize_name display in
      let names = ordered_aliases db.arrange pkg display aliases in
      let (added, d₁) = db.add_new_package pkg skip description d in
      if added
      then named pkg names (to_both pkg) (text "NEWPKG") d₁
      else if given skip
      then (error (text "SKIPPKG"), d₁, [])
      else named pkg names (to_web pkg) (text "UPDPKG") (
          when (given description) (db.set_package_description pkg description)
            (when unskip (db.skip_package pkg []) d₁))

  unfoldable pub do_add_version :
      Text → Text → Text → Bool → ℕ → Bool → Bool → List Text → D → Served
  unfolding named canonicalize_name ordered_aliases
  do_add_version display version skip unskip released yank unyank aliases d =
      let pkg = canonicalize_name display in
      let names = ordered_aliases db.arrange pkg display aliases in
      if not (db.test_package pkg d)
      then (error (text "NOPKG"), d, [])
      else (let (added, d₁) = db.add_new_package_version pkg version released skip d in
          let d₂ = when unskip (db.skip_package_version pkg version []) d₁ in
          if added
          then named pkg names (to_web pkg) (text "NEWVER")
              (when yank (db.yank_version pkg version) d₁)
          else if given skip
          then (error (text "SKIPVER"), d₁, [])
          else if yank
          then (error (text "YANKVER"), d₂, [])
          else named pkg names (to_both pkg) (text "UPDVER")
              (when unyank (db.unyank_version pkg version) d₂))

  unfoldable pub delete_builds : Text → List Text → D → D
  delete_builds pkg [] d = d
  delete_builds pkg (v ∷ vs) d = delete_builds pkg vs (db.delete_build pkg v d)

  -- What becomes of the package, and the message.
  unfoldable pub drop_package : Text → Bool → Text → D → D × Text
  unfolding delete_builds
  drop_package pkg builds skip d =
      if given skip || builds
      then (let d₁ = when (given skip) (db.skip_package pkg skip) d in
          (
            when builds (λ d. delete_builds pkg (db.releases pkg d) d) d₁,
            if builds then text "DELPKGBLD" else text "SKIPPKG",
          ))
      else (db.delete_package pkg d, text "DELPKG")

  unfoldable pub do_remove_package : Text → Bool → Text → D → Served
  unfolding drop_package canonicalize_name
  do_remove_package name builds skip d =
      let pkg = canonicalize_name name in
      if not (db.test_package pkg d)
      then (error (text "NOPKG"), d, [])
      else (let (d', msg) = drop_package pkg builds skip d in
          (finished msg, d', web_delete_package pkg ∷ skip_delete_package pkg ∷ []))

  -- What becomes of the version, what is sent on the way, and the message.
  unfoldable pub drop_version : Text → Text → Bool → Text → Bool → D → D × List Post × Text
  drop_version pkg version builds skip yank d =
      if given skip || builds || yank
      then (let d₁ = when (given skip) (db.skip_package_version pkg version skip) d in
          let d₂ = when yank (db.yank_version pkg version) d₁ in
          (
            when builds (db.delete_build pkg version) d₂,
            if yank then to_both pkg ∷ [] else [],
            if builds then text "DELVERBLD" else if yank then text "YANKVER" else text "SKIPVER",
          ))
      else (db.delete_version pkg version d, [], text "DELVER")

  unfoldable pub do_remove_version : Text → Text → Bool → Text → Bool → D → Served
  unfolding drop_version canonicalize_name
  do_remove_version name version builds skip yank d =
      let pkg = canonicalize_name name in
      if not (db.test_package_version pkg version d)
      then (error (text "NOVER"), d, [])
      else (let (d', posts, msg) = drop_version pkg version builds skip yank d in
          let told =
            if msg == text "SKIPVER" || msg == text "DELVER" || msg == text "DELVERBLD"
            then web_delete_version pkg version ∷ skip_delete_version pkg version ∷ []
            else [] in
          (finished msg, d', posts ++ told))

  page : Part → Text → Post
  page both pkg = to_both pkg
  page other pkg = to_web pkg

  unfoldable pub pages : Part → List Text → List Post
  unfolding page
  pages part [] = []
  pages part (p ∷ ps) = page part p ∷ pages part ps

  unfoldable pub rebuild_pages : Part → Option Text → D → Served
  unfolding pages
  rebuild_pages part none d = (finished (text "REBUILD"), d, pages part (db.all_packages d))
  rebuild_pages part (some pkg) d =
      if db.test_package pkg d
      then (finished (text "REBUILD"), d, page part pkg ∷ [])
      else (error (text "unknown package " ++ pkg), d, [])

  unfoldable pub do_rebuild : Part → Option Text → D → Served
  unfolding rebuild_pages
  do_rebuild home o d = (finished (text "REBUILD"), d, stats_home ∷ [])
  do_rebuild search o d = (finished (text "REBUILD"), d, stats_home ∷ [])
  do_rebuild project o d = rebuild_pages project o d
  do_rebuild both o d = rebuild_pages both o d

  unfoldable pub serve_tool : ToolRequest → D → Served
  unfolding do_add_package do_add_version do_remove_package do_remove_version do_rebuild
  serve_tool (add_package display description skip unskip aliases) d =
      do_add_package display description skip unskip aliases d
  serve_tool (add_version display version skip unskip released yank unyank aliases) d =
      do_add_version display version skip unskip released yank unyank aliases d
  serve_tool (remove_package name builds skip) d = do_remove_package name builds skip d
  serve_tool (remove_version name version builds skip yank) d =
      do_remove_version name version builds skip yank d
  serve_tool (rebuild part o) d = do_rebuild part o d
