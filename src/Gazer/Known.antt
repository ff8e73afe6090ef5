-- ===== src/Gazer/Known.antt =====
-- The packages that CloudGazer holds (piwheels/master/cloud_gazer.py), and what it told the database itself. What
-- other tasks tell the database, as MrChase does, is not considered.
use piwheels.Prelude.{
  ℕ, Eq, list_eq, nat_eq, ◌==◌, ◌≡◌, refl, sym, ◌∙◌, ap, Bool, true, false, ◌||◌, Option, none,
  some, List, [], ◌∷◌, ◌++◌, Text, text, if◌then◌else◌, ltb, arith, Bool-cases, inl, inr,
}
use piwheels.MrChase.Names.{canonicalize_name, member}
use piwheels.Gazer.{Action, create, source, remove', yank, unyank, Row}
use piwheels.Gazer.Store.{
  Call, skip_package, delete_package, skip_version, delete_version, add_package, add_name,
  set_description, add_version, yank_version, unyank_version, get_version_skip, set_serial,
  web_both, web_project, web_delete_package, skip_delete_package, web_delete_version,
  skip_delete_version, Answers, Gazer, discard, name_calls, remove_calls, described, package_calls,
  updated_version, added_version, version_calls, store, forget, read_row, read_rows, read_pypi,
  is_silly, silly_version,
}

-- Whether the database has the package after these calls and no others, if it did or did not before: what
-- matters is the last time that the package was added or deleted.
unfoldable pub is_known : Text → Bool → List Call → Bool
is_known p was [] = was
is_known p was (add_package q skip d ∷ cs) = is_known p (if q == p then true else was) cs
is_known p was (delete_package q ∷ cs) = is_known p (if q == p then false else was) cs
is_known p was (other ∷ cs) = is_known p was cs

is_known-++ :
    (p : Text) (was : Bool) (xs ys : List Call)
    → is_known p was (xs ++ ys) ≡ is_known p (is_known p was xs) ys
unfolding is_known
is_known-++ p was [] ys = refl
is_known-++ p was (add_package q s d ∷ xs) ys = is_known-++ p (if q == p then true else was) xs ys
is_known-++ p was (delete_package q ∷ xs) ys = is_known-++ p (if q == p then false else was) xs ys
is_known-++ p was (skip_package q r ∷ xs) ys = is_known-++ p was xs ys
is_known-++ p was (skip_version q v r ∷ xs) ys = is_known-++ p was xs ys
is_known-++ p was (delete_version q v ∷ xs) ys = is_known-++ p was xs ys
is_known-++ p was (add_name q a t ∷ xs) ys = is_known-++ p was xs ys
is_known-++ p was (set_description q d ∷ xs) ys = is_known-++ p was xs ys
is_known-++ p was (add_version q v t s ∷ xs) ys = is_known-++ p was xs ys
is_known-++ p was (yank_version q v ∷ xs) ys = is_known-++ p was xs ys
is_known-++ p was (unyank_version q v ∷ xs) ys = is_known-++ p was xs ys
is_known-++ p was (get_version_skip q v ∷ xs) ys = is_known-++ p was xs ys
is_known-++ p was (set_serial n ∷ xs) ys = is_known-++ p was xs ys
is_known-++ p was (web_both q ∷ xs) ys = is_known-++ p was xs ys
is_known-++ p was (web_project q ∷ xs) ys = is_known-++ p was xs ys
is_known-++ p was (web_delete_package q ∷ xs) ys = is_known-++ p was xs ys
is_known-++ p was (skip_delete_package q ∷ xs) ys = is_known-++ p was xs ys
is_known-++ p was (web_delete_version q v ∷ xs) ys = is_known-++ p was xs ys
is_known-++ p was (skip_delete_version q v ∷ xs) ys = is_known-++ p was xs ys

-- Calls that neither add nor delete a package.
abbrev Neutral : List Call → Type 0
Neutral cs = (p : Text) (was : Bool) → is_known p was cs ≡ was

name_calls-Neutral : (pkg alias : Text) (time : ℕ) → Neutral (name_calls pkg alias time)
unfolding is_known name_calls
name_calls-Neutral pkg alias time p was = elim (Bool-cases (alias == pkg)) [
  | inl same ↦ rw same refl
  | inr other ↦ rw other refl
]

described-Neutral : (pkg : Text) (d : Option Text) → Neutral (described pkg d)
unfolding is_known described
described-Neutral pkg none p was = refl
described-Neutral pkg (some d) p was = refl

Neutral-++ : (xs ys : List Call) → Neutral xs → Neutral ys → Neutral (xs ++ ys)
Neutral-++ xs ys h k p was = is_known-++ p was xs ys ∙ k p (is_known p was xs) ∙ h p was

Neutral-if :
    (c : Bool) (xs ys : List Call) → Neutral xs → Neutral ys → Neutral (if c then xs else ys)
Neutral-if true xs ys h k = h
Neutral-if false xs ys h k = k

member-discard :
    (p pkg : Text) (ps : List Text)
    → member p (discard pkg ps) ≡ (if pkg == p then false else member p ps)
unfolding member discard
member-discard p pkg [] = ground arith
member-discard p pkg (q ∷ ps) =
    let e : Eq Text = list_eq in
    ground (arith, e.beq_iff pkg q, e.beq_iff p q, e.beq_iff pkg p, member-discard p pkg ps)

member-new :
    (seen : Bool) (p pkg : Text) (ps : List Text)
    → member p (if seen then ps else pkg ∷ ps)
      ≡ (if seen then member p ps else if pkg == p then true else member p ps)
unfolding member
member-new true p pkg ps = refl
member-new false p pkg ps =
    let e : Eq Text = list_eq in ground (arith, e.beq_iff pkg p, e.beq_iff p pkg)

module _ (answers : Answers) where
  package_calls-known :
      (pkg : Text) (r : Row) (skip : Text) (calls : List Call) (p : Text) (was : Bool)
      → is_known p was (package_calls answers pkg r skip calls) ≡ (if pkg == p then true else was)
  unfolding package_calls is_known
  package_calls-known pkg r skip calls p was =
      Neutral-if (answers.new_package pkg calls)
        (name_calls pkg r.alias r.timestamp ++ web_both pkg ∷ []) (described pkg r.description)
        (Neutral-++ (name_calls pkg r.alias r.timestamp) (web_both pkg ∷ [])
          (name_calls-Neutral pkg r.alias r.timestamp) (λ p was. refl))
        (described-Neutral pkg r.description) p (if pkg == p then true else was)

  updated_version-Neutral :
      (pkg v : Text) (action : Action) (calls : List Call)
      → Neutral (updated_version answers pkg v action calls)
  unfolding updated_version is_known
  updated_version-Neutral pkg v source calls p was =
      Neutral-if (answers.version_skip pkg v calls == text "binary only")
        (skip_version pkg v [] ∷ web_project pkg ∷ []) (web_both pkg ∷ []) (λ p was. refl)
        (λ p was. refl) p was
  updated_version-Neutral pkg v create calls p was = refl
  updated_version-Neutral pkg v remove' calls p was = refl
  updated_version-Neutral pkg v yank calls p was = refl
  updated_version-Neutral pkg v unyank calls p was = refl

  added_version-Neutral :
      (pkg v : Text) (time : ℕ) (d : Option Text) (action : Action) (calls : List Call)
      → Neutral (added_version answers pkg v time d action calls)
  unfolding added_version is_known
  added_version-Neutral pkg v time d action calls p was =
      Neutral-if (answers.new_version pkg v calls) (described pkg d ++ web_both pkg ∷ [])
        (updated_version answers pkg v action calls)
        (Neutral-++ (described pkg d) (web_both pkg ∷ []) (described-Neutral pkg d) (λ p was. refl))
        (updated_version-Neutral pkg v action calls) p was

  version_calls-Neutral :
      (pkg v : Text) (time : ℕ) (d : Option Text) (action : Action) (calls : List Call)
      → Neutral (version_calls answers pkg v time d action calls)
  unfolding version_calls is_known
  version_calls-Neutral pkg v time d yank calls p was = refl
  version_calls-Neutral pkg v time d unyank calls p was = refl
  version_calls-Neutral pkg v time d create calls p was =
      added_version-Neutral pkg v time d create calls p was
  version_calls-Neutral pkg v time d source calls p was =
      added_version-Neutral pkg v time d source calls p was
  version_calls-Neutral pkg v time d remove' calls p was =
      added_version-Neutral pkg v time d remove' calls p was

  first-known :
      (seen : Bool) (pkg : Text) (r : Row) (skip : Text) (calls : List Call) (p : Text) (was : Bool)
      → is_known p was (if seen then [] else package_calls answers pkg r skip calls)
        ≡ (if seen then was else if pkg == p then true else was)
  unfolding is_known
  first-known true pkg r skip calls p was = refl
  first-known false pkg r skip calls p was = package_calls-known pkg r skip calls p was

  last-Neutral :
      (pkg : Text) (r : Row) (o : Option Text) (calls : List Call)
      → Neutral (elim o [
        | none ↦ []
        | some v ↦ version_calls answers pkg v r.timestamp r.description r.action calls
      ])
  unfolding is_known
  last-Neutral pkg r none calls p was = refl
  last-Neutral pkg r (some v) calls p was =
      version_calls-Neutral pkg v r.timestamp r.description r.action calls p was

  store-known :
      (pkg : Text) (r : Row) (g : Gazer) (p : Text) (was : Bool)
      → member p g.packages ≡ is_known p was g.calls
      → member p (store answers pkg r g).packages ≡ is_known p was (store answers pkg r g).calls
  unfolding store
  store-known pkg r g p was h =
      let seen = member pkg g.packages in
      let first : List Call =
        if seen then [] else package_calls answers pkg r g.skip_default g.calls in
      let names = name_calls pkg r.alias r.timestamp in
      let calls = (g.calls ++ first) ++ names in
      let last : List Call = elim r.version [
        | none ↦ []
        | some v ↦ version_calls answers pkg v r.timestamp r.description r.action calls
      ] in
      let known : is_known p was (calls ++ last)
          ≡ (if seen then member p g.packages else if pkg == p then true else member p g.packages) =
        is_known-++ p was calls last
        ∙ last-Neutral pkg r r.version calls p (is_known p was calls)
        ∙ is_known-++ p was (g.calls ++ first) names
        ∙ name_calls-Neutral pkg r.alias r.timestamp p (is_known p was (g.calls ++ first))
        ∙ is_known-++ p was g.calls first
        ∙ first-known seen pkg r g.skip_default g.calls p (is_known p was g.calls)
        ∙ ap (λ b. if seen then b else if pkg == p then true else b) (sym h) in
      member-new seen p pkg g.packages ∙ sym known

forget-known :
    (pkg : Text) (version : Option Text) (g : Gazer) (p : Text) (was : Bool)
    → member p g.packages ≡ is_known p was g.calls
    → member p (forget pkg version g).packages ≡ is_known p was (forget pkg version g).calls
unfolding forget remove_calls is_known
forget-known pkg none g p was h =
    member-discard p pkg g.packages
    ∙ ap (λ b. if pkg == p then false else b) h
    ∙ sym (is_known-++ p was g.calls (remove_calls pkg none))
forget-known pkg (some v) g p was h =
    h ∙ sym (is_known-++ p was g.calls (remove_calls pkg (some v)))

action-known :
    (answers : Answers) (pkg : Text) (r : Row) (action : Action) (g : Gazer) (p : Text) (was : Bool)
    → member p g.packages ≡ is_known p was g.calls
    → (let g' : Gazer = elim action [
      | remove' ↦ forget pkg r.version g
      | other ↦ store answers pkg r g
    ] in
        member p g'.packages ≡ is_known p was g'.calls)
action-known answers pkg r create g p was h = store-known answers pkg r g p was h
action-known answers pkg r source g p was h = store-known answers pkg r g p was h
action-known answers pkg r yank g p was h = store-known answers pkg r g p was h
action-known answers pkg r unyank g p was h = store-known answers pkg r g p was h
action-known answers pkg r remove' g p was h = forget-known pkg r.version g p was h

row-known :
    (answers : Answers) (r : Row) (g : Gazer) (p : Text) (was : Bool)
    → member p g.packages ≡ is_known p was g.calls
    → member p (read_row answers r g).packages ≡ is_known p was (read_row answers r g).calls
unfolding read_row
row-known answers r g p was h =
    elim (Bool-cases (is_silly (canonicalize_name r.alias) || silly_version r.version)) [
      | inl silly ↦ rw silly h
      | inr fine ↦ rw fine (action-known answers (canonicalize_name r.alias) r r.action g p was h)
    ]

rows-known :
    (answers : Answers) (rs : List Row) (g : Gazer) (p : Text) (was : Bool)
    → member p g.packages ≡ is_known p was g.calls
    → member p (read_rows answers rs g).packages ≡ is_known p was (read_rows answers rs g).calls
unfolding read_rows
rows-known answers [] g p was h = h
rows-known answers (r ∷ rs) g p was h =
    rows-known answers rs (read_row answers r g) p was (row-known answers r g p was h)

last-serial :
    (p : Text) (was : Bool) (calls : List Call) (n : ℕ)
    → is_known p was (calls ++ set_serial n ∷ []) ≡ is_known p was calls
unfolding is_known
last-serial p was calls n = is_known-++ p was calls (set_serial n ∷ [])

-- CloudGazer's memory of the packages agrees with its own calls of the database: whatever rows it reads and
-- whatever the database answers, a package is in `packages` exactly when the last of these calls that adds
-- or deletes it adds it, or when there is none and it was known at the start. It is assumed that this
-- holds before. What other clients of the database add or delete, such as MrChase, is not considered.
pub read_pypi-known :
    (answers : Answers) (rs : List Row) (serial : ℕ) (g : Gazer) (start : Text → Bool)
    → ((p : Text) → member p g.packages ≡ is_known p (start p) g.calls)
    → (p : Text)
    → member p (read_pypi answers rs serial g).packages
      ≡ is_known p (start p) (read_pypi answers rs serial g).calls
unfolding read_pypi
read_pypi-known answers rs serial g start h p =
    let g' = read_rows answers rs g in
    let known : member p g'.packages ≡ is_known p (start p) g'.calls =
      rows-known answers rs g p (start p) (h p) in
    elim (Bool-cases (ltb g'.serial serial)) [
      | inl more ↦ rw more (known ∙ sym (last-serial p (start p) g'.calls serial))
      | inr same ↦ rw same known
    ]
