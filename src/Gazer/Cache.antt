-- ===== src/Gazer/Cache.antt =====
-- The cache of PyPIEvents (piwheels/pypi.py), which avoids reports of a version that was reported.
use piwheels.Prelude.{
  ℕ, zero, suc, ◌+◌, ◌-◌, ◌≤◌, ◌<◌, list_eq, pair_eq, option_eq, nat_eq, Eq, ◌≡◌, refl, ◌∙◌, ap,
  false, ◌||◌, Option, none, some, List, [], ◌∷◌, ◌++◌, Text, length, drop, arith, beq_refl,
  Bool-cases, Option-cases, inl, inr, length-append,
}
use piwheels.Dict.{Dict, lookup, has, insert, remove}
use piwheels.Dict.Laws.{NodupKeys, has-lookup, has-remove, remove-NodupKeys}
use piwheels.Gazer.{
  Action, create, source, remove', yank, unyank, PypiEvents, evict, upgraded, recheck,
  check_new_version,
}

module _ {K V : Type 0} ⦃e : Eq K⦄ where
  insert-new : (k : K) (v : V) (d : Dict K V) → has k d ≡ false → insert k v d ≡ d ++ (k, v) ∷ []
  unfolding insert has
  insert-new k v [] h = refl
  insert-new k v ((j, w) ∷ d) h = elim (Bool-cases (e.beq j k)) [
    | inl same ↦ absurd (ground (arith, h, same))
    | inr other ↦
        let rest : has k d ≡ false = ground (arith, h, other) in
        rw other (ap (λ d. (j, w) ∷ d) (insert-new k v d rest))
  ]

  lookup-last :
      (k : K) (v : V) (d : Dict K V) → has k d ≡ false → lookup k (d ++ (k, v) ∷ []) ≡ some v
  unfolding lookup has
  lookup-last k v [] h = rw (beq_refl k) refl
  lookup-last k v ((j, w) ∷ d) h = elim (Bool-cases (e.beq j k)) [
    | inl same ↦ absurd (ground (arith, h, same))
    | inr other ↦
        let rest : has k d ≡ false = ground (arith, h, other) in rw other (lookup-last k v d rest)
  ]

  has-++ : (k j : K) (v : V) (d : Dict K V) → has k (d ++ (j, v) ∷ []) ≡ (has k d || e.beq j k)
  unfolding has
  has-++ k j v [] = ground arith
  has-++ k j v ((i, w) ∷ d) = ground (arith, has-++ k j v d)

  NodupKeys-last :
      (k : K) (v : V) (d : Dict K V) → has k d ≡ false → NodupKeys d → NodupKeys (d ++ (k, v) ∷ [])
  unfolding has
  NodupKeys-last k v [] h n = (refl, tt)
  NodupKeys-last k v ((j, w) ∷ d) h n =
      let apart : e.beq j k ≡ false = ground (arith, h) in
      let apart' : e.beq k j ≡ false = ground (arith, apart, e.beq_iff k j, e.beq_iff j k) in
      let rest : has k d ≡ false = ground (arith, h) in
      (rw (has-++ j k v d, n.0, apart') refl, NodupKeys-last k v d rest n.1)

  drop-NodupKeys : (n : ℕ) (d : Dict K V) → NodupKeys d → NodupKeys (drop n d)
  drop-NodupKeys zero d h = h
  drop-NodupKeys (suc n) [] h = tt
  drop-NodupKeys (suc n) ((j, w) ∷ d) h = drop-NodupKeys n d h.1

  drop-has : (n : ℕ) (k : K) (d : Dict K V) → has k d ≡ false → has k (drop n d) ≡ false
  unfolding has
  drop-has zero k d h = h
  drop-has (suc n) k [] h = refl
  drop-has (suc n) k ((j, w) ∷ d) h = drop-has n k d (ground (arith, h))

  length-remove : (k : K) (d : Dict K V) → length (remove k d) ≤ length d
  unfolding remove
  length-remove k [] = omega arith
  length-remove k ((j, w) ∷ d) = elim (Bool-cases (e.beq j k)) [
    | inl same ↦ rw same (omega (arith, length-remove k d))
    | inr other ↦ rw other (omega (arith, length-remove k d))
  ]

module _ {A : Type 0} where
  drop-++ : (n : ℕ) (xs ys : List A) → n ≤ length xs → drop n (xs ++ ys) ≡ drop n xs ++ ys
  drop-++ zero xs ys h = refl
  drop-++ (suc n) [] ys h = absurd (omega (arith, h))
  drop-++ (suc n) (x ∷ xs) ys h = drop-++ n xs ys (omega (arith, h))

  length-drop : (n : ℕ) (xs : List A) → length (drop n xs) ≡ length xs - n
  length-drop zero xs = omega arith
  length-drop (suc n) [] = omega arith
  length-drop (suc n) (x ∷ xs) = omega (arith, length-drop n xs)

-- Each version stands in the cache once, and there are no more of them than its size, which is not zero.
pub record IsValid (p : PypiEvents) : Type 0 where
  pub once : NodupKeys p.versions
  pub small : length p.versions ≤ p.versions_size
  pub room : 0 < p.versions_size

-- What is reported, by what the cache has of the version.
abbrev pub Reports : Option (ℕ × Action) → ℕ → Action → Option (ℕ × Action) → Type 0
Reports none time action out = out ≡ some (time, action)
Reports (some (first, create)) time source out = out ≡ some (first, source)
Reports (some (first, last)) time action out = out ≡ none

abbrev Touched :
    ℕ → Text × Option Text → ℕ × Action → Dict (Text × Option Text) (ℕ × Action) → Type 0
Touched size k v d = NodupKeys d × (length d ≤ size) × (lookup k d ≡ some v)

evict-Touched :
    (size : ℕ) (k : Text × Option Text) (v : ℕ × Action)
    (d : Dict (Text × Option Text) (ℕ × Action))
    → 0 < size
    → has k d ≡ false
    → NodupKeys d
    → Touched size k v (evict size (d ++ (k, v) ∷ []))
unfolding evict
evict-Touched size k v d pos new once =
    let len : length (d ++ (k, v) ∷ []) ≡ length d + 1 = length-append d ((k, v) ∷ []) in
    let n = length (d ++ (k, v) ∷ []) - size in
    let few : n ≤ length d = omega (arith, len, pos) in
    (
      drop-NodupKeys n (d ++ (k, v) ∷ []) (NodupKeys-last k v d new once),
      omega (arith, length-drop n (d ++ (k, v) ∷ []), len),
      rw (drop-++ n d ((k, v) ∷ []) few) (lookup-last k v (drop n d) (drop-has n k d new)),
    )

-- The entry afterwards: what was reported, or what was there.
abbrev pub entry_after : Option (ℕ × Action) → Option (ℕ × Action) → Option (ℕ × Action)
entry_after old none = old
entry_after old (some entry) = some entry

recheck-Reports :
    (first : ℕ) (last : Action) (time : ℕ) (action : Action)
    → Reports (some (first, last)) time action (recheck (first, last) action).0
      × (some (recheck (first, last) action).1
          ≡ entry_after (some (first, last)) (recheck (first, last) action).0)
unfolding recheck upgraded
recheck-Reports first create time source = (refl, refl)
recheck-Reports first create time create = (refl, refl)
recheck-Reports first create time remove' = (refl, refl)
recheck-Reports first create time yank = (refl, refl)
recheck-Reports first create time unyank = (refl, refl)
recheck-Reports first source time action = (refl, refl)
recheck-Reports first remove' time action = (refl, refl)
recheck-Reports first yank time action = (refl, refl)
recheck-Reports first unyank time action = (refl, refl)

-- Checking a version keeps the cache within its size, with each version once. A version that is not in
-- the cache is reported; one that is there is reported only when it was a create and is now a source,
-- and then with the time of its first report. Afterwards the cache has the version, with what was
-- reported last, so the same report does not come again while it is there.
pub check_new_version-IsValid :
    (pkg : Text) (version : Option Text) (time : ℕ) (action : Action) (p : PypiEvents)
    → IsValid p
    → (out : Option (ℕ × Action)) × (p' : PypiEvents) × (check_new_version pkg version time action p
        ≡ (out, p'))
      × IsValid p'
      × Reports (lookup (pkg, version) p.versions) time action out
      × (lookup (pkg, version) p'.versions ≡ entry_after (lookup (pkg, version) p.versions) out)
unfolding check_new_version
check_new_version-IsValid pkg version time action p v =
    let k : Text × Option Text = (pkg, version) in
    elim (Option-cases (lookup k p.versions)) [
      | inl new ↦
          let missing : has k p.versions ≡ false = has-lookup k p.versions ∙ rw new refl in
          let (once, small, there) =
            evict-Touched p.versions_size k (time, action) p.versions v.room missing v.once in
          rw (new, check_new_version)
            (
              some (time, action),
              record p {
                versions = evict p.versions_size (p.versions ++ (k, (time, action)) ∷ []);
              },
              ap (λ d. (some (time, action), record p { versions = evict p.versions_size d }))
                  (insert-new k (time, action) p.versions missing),
              record { once = once; small = small; room = v.room },
              refl,
              there,
            )
      | inr (entry, known) ↦
          let left = remove k p.versions in
          let (told, same) = recheck-Reports entry.0 entry.1 time action in
          let missing : has k left ≡ false = has-remove k k p.versions ∙ rw (beq_refl k) refl in
          let (once, small, there) =
            evict-Touched p.versions_size k (recheck entry action).1 left v.room missing
              (remove-NodupKeys k p.versions v.once) in
          rw (known, check_new_version)
            (
              (recheck entry action).0,
              record p {
                versions = evict p.versions_size (left ++ (k, (recheck entry action).1) ∷ []);
              },
              refl,
              record { once = once; small = small; room = v.room },
              told,
              there ∙ same,
            )
    ]
