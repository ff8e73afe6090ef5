-- ===== src/Dict.antt =====
-- Python's `dict`, as a list of entries in the order of their insertion.
pub mod Laws
use piwheels.Prelude.{
  Eq, ◌==◌, ◌≡◌, Bool, true, false, Option, none, some, List, [], ◌∷◌, if◌then◌else◌, All, map,
}

abbrev pub Dict {ℓ κ} : Type ℓ → Type κ → Type (ℓ ⊔ κ)
Dict K V = List (K × V)

module _ {ℓ κ} {K : Type ℓ} {V : Type κ} ⦃e : Eq K⦄ where
  -- d.get(k)
  unfoldable pub lookup : K → Dict K V → Option V
  lookup k [] = none
  lookup k ((j, v) ∷ d) = if e.beq j k then some v else lookup k d

  -- `k in d`
  unfoldable pub has : K → Dict K V → Bool
  has k [] = false
  has k ((j, v) ∷ d) = if e.beq j k then true else has k d

  -- d[k] = v, which leaves an old key at its place
  unfoldable pub insert : K → V → Dict K V → Dict K V
  insert k v [] = (k, v) ∷ []
  insert k v ((j, w) ∷ d) = if e.beq j k then (k, v) ∷ d else (j, w) ∷ insert k v d

  -- del d[k], of a key that may be missing
  unfoldable pub remove : K → Dict K V → Dict K V
  remove k [] = []
  remove k ((j, v) ∷ d) = let rest = remove k d in if e.beq j k then rest else (j, v) ∷ rest

  -- d.setdefault(k, v)
  unfoldable pub set_default : K → V → Dict K V → Dict K V
  unfolding has insert
  set_default k v d = if has k d then d else insert k v d

module _ {ℓ κ} {K : Type ℓ} {V : Type κ} where
  abbrev pub keys : Dict K V → List K
  keys [] = []
  keys ((k, v) ∷ d) = k ∷ keys d

  abbrev pub values : Dict K V → List V
  values [] = []
  values ((k, v) ∷ d) = v ∷ values d

module _ {ℓ κ λ'} {K : Type ℓ} {V : Type κ} {W : Type λ'} where
  -- {k: f(k, v) for k, v in d.items()}
  unfoldable pub map_values : (K → V → W) → Dict K V → Dict K W
  map_values f [] = []
  map_values f ((k, v) ∷ d) = (k, f k v) ∷ map_values f d

module _ {ℓ κ} {K : Type ℓ} {V : Type κ} where
  -- {k: v for k, v in d.items() if p(k, v)}
  unfoldable pub filter_items : (K → V → Bool) → Dict K V → Dict K V
  filter_items p [] = []
  filter_items p ((k, v) ∷ d) = let rest = filter_items p d in if p k v then (k, v) ∷ rest else rest
