-- ===== src/Dict/Laws.antt =====
-- The laws of the dictionaries, in a form with no side condition.
use piwheels.Prelude.{
  beq_refl, is_some, Eq, ◌≡◌, refl, Bool, true, false, none, some, [], ◌∷◌, if◌then◌else◌, All,
  arith, subst, Bool-cases, inl, inr,
}
use piwheels.Dict.{Dict, lookup, has, insert, remove, map_values, filter_items}

module _ {ℓ κ} {K : Type ℓ} {V : Type κ} ⦃e : Eq K⦄ where
  pub lookup-insert :
      (k j : K) (v : V) (d : Dict K V)
      → lookup j (insert k v d) ≡ (if e.beq k j then some v else lookup j d)
  unfolding lookup insert
  lookup-insert k j v [] = refl
  lookup-insert k j v ((i, w) ∷ d) =
      ground (arith, e.beq_iff k j, e.beq_iff i k, e.beq_iff i j, lookup-insert k j v d)

  pub lookup-remove :
      (k j : K) (d : Dict K V) → lookup j (remove k d) ≡ (if e.beq k j then none else lookup j d)
  unfolding lookup remove
  lookup-remove k j [] = ground arith
  lookup-remove k j ((i, w) ∷ d) =
      ground (arith, e.beq_iff k j, e.beq_iff i k, e.beq_iff i j, lookup-remove k j d)

  pub has-lookup : (k : K) (d : Dict K V) → has k d ≡ is_some (lookup k d)
  unfolding has lookup
  has-lookup k [] = refl
  has-lookup k ((j, v) ∷ d) = ground (arith, has-lookup k d)

  -- No key stands twice.
  abbrev pub NodupKeys : Dict K V → Type 0
  NodupKeys [] = Unit
  NodupKeys ((k, v) ∷ d) = (has k d ≡ false) × NodupKeys d

  pub has-insert :
      (k j : K) (v : V) (d : Dict K V)
      → has j (insert k v d) ≡ (if e.beq k j then true else has j d)
  unfolding has insert
  has-insert k j v [] = refl
  has-insert k j v ((i, w) ∷ d) =
      ground (arith, e.beq_iff k j, e.beq_iff i k, e.beq_iff i j, has-insert k j v d)

  pub has-remove :
      (k j : K) (d : Dict K V) → has j (remove k d) ≡ (if e.beq k j then false else has j d)
  unfolding has remove
  has-remove k j [] = ground arith
  has-remove k j ((i, w) ∷ d) =
      ground (arith, e.beq_iff k j, e.beq_iff i k, e.beq_iff i j, has-remove k j d)

  pub insert-NodupKeys : (k : K) (v : V) (d : Dict K V) → NodupKeys d → NodupKeys (insert k v d)
  unfolding insert has
  insert-NodupKeys k v [] n = (refl, tt)
  insert-NodupKeys k v ((j, w) ∷ d) n =
      ground (arith, e.beq_iff j k, e.beq_iff k j, has-insert k j v d, insert-NodupKeys k v d n.1)

  pub remove-NodupKeys : (k : K) (d : Dict K V) → NodupKeys d → NodupKeys (remove k d)
  unfolding remove
  remove-NodupKeys k [] n = tt
  remove-NodupKeys k ((j, w) ∷ d) n = ground (arith, has-remove k j d, remove-NodupKeys k d n.1)

  -- An entry that a lookup finds has what all entries have.
  pub All-lookup {μ} :
      (P : K × V → Type μ) (k : K) (v : V) (d : Dict K V) → All P d → lookup k d ≡ some v → P (k, v)
  unfolding lookup
  All-lookup P k v [] h q = cc
  All-lookup P k v ((j, w) ∷ d) h q = elim (Bool-cases (e.beq j k)) [
    | inl same ↦
        let here : some w ≡ some v = rw same at q in
        let jk : j ≡ k = (e.beq_iff j k).0 same in
        let wv : w ≡ v = cc here in subst (λ i. P (i, v)) jk (subst (λ u. P (j, u)) wv h.0)
    | inr other ↦ All-lookup P k v d h.1 (rw other at q)
  ]

module _ {ℓ κ λ'} {K : Type ℓ} {V : Type κ} {W : Type λ'} ⦃e : Eq K⦄ where
  pub lookup-map_values :
      (f : K → V → W) (k : K) (d : Dict K V)
      → lookup k (map_values f d) ≡ elim (lookup k d) [ none ↦ none | some v ↦ some (f k v) ]
  unfolding lookup map_values
  lookup-map_values f k [] = refl
  lookup-map_values f k ((j, v) ∷ d) = elim (Bool-cases (e.beq j k)) [
    | inl same ↦ rw (same, (e.beq_iff j k).0 same) refl
    | inr other ↦ rw (other, lookup-map_values f k d) refl
  ]

  pub has-map_values : (f : K → V → W) (k : K) (d : Dict K V) → has k (map_values f d) ≡ has k d
  unfolding has map_values
  has-map_values f k [] = refl
  has-map_values f k ((j, v) ∷ d) = ground (arith, has-map_values f k d)

module _ {ℓ κ} {K : Type ℓ} {V : Type κ} ⦃e : Eq K⦄ where
  pub has-filter_items-le :
      (p : K → V → Bool) (k : K) (d : Dict K V) → has k d ≡ false → has k (filter_items p d) ≡ false
  unfolding has filter_items
  has-filter_items-le p k [] h = refl
  has-filter_items-le p k ((j, v) ∷ d) h = ground (arith, has-filter_items-le p k d)

  pub filter_items-NodupKeys :
      (p : K → V → Bool) (d : Dict K V) → NodupKeys d → NodupKeys (filter_items p d)
  unfolding filter_items
  filter_items-NodupKeys p [] n = tt
  filter_items-NodupKeys p ((j, v) ∷ d) n =
      ground (arith, has-filter_items-le p j d, filter_items-NodupKeys p d n.1)

  -- With distinct keys, a lookup after filtering keeps the value or drops it by the test.
  pub lookup-filter_items :
      (p : K → V → Bool) (k : K) (d : Dict K V)
      → NodupKeys d
      → lookup k (filter_items p d)
        ≡ elim (lookup k d) [ none ↦ none | some v ↦ if p k v then some v else none ]
  unfolding lookup filter_items
  lookup-filter_items p k [] n = refl
  lookup-filter_items p k ((j, v) ∷ d) n =
      ground (arith, e.beq_iff j k, lookup-filter_items p k d n.1, has-lookup k d)

  -- An entry that passes the test is found after the filtering, if it was found before.
  pub lookup-filter_items_kept :
      (p : K → V → Bool) (k : K) (v : V) (d : Dict K V)
      → lookup k d ≡ some v
      → p k v ≡ true
      → lookup k (filter_items p d) ≡ some v
  unfolding lookup filter_items
  lookup-filter_items_kept p k v [] h t = cc
  lookup-filter_items_kept p k v ((j, w) ∷ d) h t =
      ground (arith, e.beq_iff j k, lookup-filter_items_kept p k v d)

  pub All-insert {μ} :
      (P : K × V → Type μ) (k : K) (v : V) (d : Dict K V)
      → P (k, v)
      → All P d
      → All P (insert k v d)
  unfolding insert
  All-insert P k v [] p h = (p, tt)
  All-insert P k v ((j, w) ∷ d) p h = elim (Bool-cases (e.beq j k)) [
    | inl same ↦ rw same (p, h.1)
    | inr other ↦ rw other (h.0, All-insert P k v d p h.1)
  ]

  pub All-remove {μ} : (P : K × V → Type μ) (k : K) (d : Dict K V) → All P d → All P (remove k d)
  unfolding remove
  All-remove P k [] h = tt
  All-remove P k ((j, w) ∷ d) h = elim (Bool-cases (e.beq j k)) [
    | inl same ↦ rw same (All-remove P k d h.1)
    | inr other ↦ rw other (h.0, All-remove P k d h.1)
  ]

  pub insert-insert : (k : K) (v w : V) (d : Dict K V) → insert k v (insert k w d) ≡ insert k v d
  unfolding insert
  insert-insert k v w [] = rw (beq_refl k)
  insert-insert k v w ((j, u) ∷ d) = elim (Bool-cases (e.beq j k)) [
    | inl same ↦ rw same (rw (beq_refl k))
    | inr other ↦ rw (other, insert) (rw (other, insert-insert k v w d))
  ]
