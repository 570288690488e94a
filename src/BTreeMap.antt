-- ===== src/BTreeMap.antt =====
-- `BTreeMap` of the standard library, as far as the program uses it: an association list in the
-- order of its keys.
pub mod Laws
pub mod Edits
use evidence.Prelude.{
  Bool, true, false, Option, none, some, List, [], ◌∷◌, map, Ord, if◌then◌else◌, is_some, ◌≡◌,
}

abbrev pub BTreeMap {ℓ κ} : Type ℓ → Type κ → Type (ℓ ⊔ κ)
BTreeMap K V = List (K × V)

module _ {ℓ κ} {K : Type ℓ} {V : Type κ} where
  abbrev pub keys : BTreeMap K V → List K
  keys = map (λ e. e.0)

  abbrev pub values : BTreeMap K V → List V
  values = map (λ e. e.1)

module _ {ℓ κ} {K : Type ℓ} {V : Type κ} ⦃o : Ord K⦄ where
  unfoldable pub get : K → BTreeMap K V → Option V
  get k [] = none
  get k ((j, w) ∷ m) = if o.eq k j then some w else get k m

  unfoldable pub insert : K → V → BTreeMap K V → BTreeMap K V
  insert k v [] = (k, v) ∷ []
  insert k v ((j, w) ∷ m) =
      if o.eq k j
      then (k, v) ∷ m
      else if o.lt k j
      then (k, v) ∷ (j, w) ∷ m
      else (j, w) ∷ insert k v m

  unfoldable pub remove : K → BTreeMap K V → BTreeMap K V
  remove k [] = []
  remove k ((j, w) ∷ m) = if o.eq k j then m else (j, w) ∷ remove k m

  -- A change through `get_mut`.
  unfoldable pub update : (V → V) → K → BTreeMap K V → BTreeMap K V
  update f k [] = []
  update f k ((j, w) ∷ m) = if o.eq k j then (j, f w) ∷ m else (j, w) ∷ update f k m

  abbrev pub contains_key : K → BTreeMap K V → Bool
  contains_key k m = is_some (get k m)

  -- Every key of the map lies above `k`.
  abbrev pub Above : K → BTreeMap K V → Type ℓ
  Above k [] = Unit
  Above k ((j, w) ∷ m) = (o.lt k j ≡ true) × Above k m

  abbrev pub IsSorted : BTreeMap K V → Type ℓ
  IsSorted [] = Unit
  IsSorted ((j, w) ∷ m) = Above j m × IsSorted m
