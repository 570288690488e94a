-- ===== src/BTreeMap/Edits.antt =====
-- The laws of removal and of changes in place.
use evidence.Prelude.{
  All, Option, none, some, [], ◌∷◌, Ord, if◌then◌else◌, ◌≡◌, arith, Bool-cases, inl, inr,
}
use evidence.BTreeMap.{BTreeMap, get, insert, remove, update, Above, IsSorted}
use evidence.BTreeMap.Laws.{get-Above}

abbrev pub opt_map {ℓ κ} : {A : Type ℓ} {B : Type κ} → (A → B) → Option A → Option B
opt_map f none = none
opt_map f (some a) = some (f a)

module _ {ℓ κ} {K : Type ℓ} {V : Type κ} ⦃o : Ord K⦄ where
  pub get-update :
      (f : V → V) (k j : K) (m : BTreeMap K V)
      → get j (update f k m) ≡ (if o.eq j k then opt_map f (get j m) else get j m)
  unfolding get update
  get-update f k j [] = ground arith
  get-update f k j ((i, w) ∷ m) =
      ground (arith, get-update f k j m, o.eq_iff k i, o.eq_iff j i, o.eq_iff j k)

  Above-update : (f : V → V) (k j : K) (m : BTreeMap K V) → Above j m → Above j (update f k m)
  unfolding update
  Above-update f k j [] a = tt
  Above-update f k j ((i, w) ∷ m) a = elim (Bool-cases (o.eq k i)) [
    | inl p ↦ rw p a
    | inr p ↦ rw p (a.0, Above-update f k j m a.1)
  ]

  pub update-IsSorted :
      (f : V → V) (k : K) (m : BTreeMap K V) → IsSorted m → IsSorted (update f k m)
  unfolding update
  update-IsSorted f k [] s = tt
  update-IsSorted f k ((i, w) ∷ m) s = elim (Bool-cases (o.eq k i)) [
    | inl p ↦ rw p s
    | inr p ↦ rw p (Above-update f k i m s.0, update-IsSorted f k m s.1)
  ]

  pub get-remove :
      (k j : K) (m : BTreeMap K V)
      → IsSorted m
      → get j (remove k m) ≡ (if o.eq j k then none else get j m)
  unfolding get remove
  get-remove k j [] s = ground arith
  get-remove k j ((i, w) ∷ m) s =
      ground
        (arith, get-remove k j m s.1, get-Above i m s.0, o.eq_iff k i, o.eq_iff j i, o.eq_iff j k)

  Above-remove : (k j : K) (m : BTreeMap K V) → Above j m → Above j (remove k m)
  unfolding remove
  Above-remove k j [] a = tt
  Above-remove k j ((i, w) ∷ m) a = elim (Bool-cases (o.eq k i)) [
    | inl p ↦ rw p a.1
    | inr p ↦ rw p (a.0, Above-remove k j m a.1)
  ]

  pub remove-IsSorted : (k : K) (m : BTreeMap K V) → IsSorted m → IsSorted (remove k m)
  unfolding remove
  remove-IsSorted k [] s = tt
  remove-IsSorted k ((i, w) ∷ m) s = elim (Bool-cases (o.eq k i)) [
    | inl p ↦ rw p s.1
    | inr p ↦ rw p (Above-remove k i m s.0, remove-IsSorted k m s.1)
  ]

-- What holds of every entry is kept by edits that keep it for the entry they touch.
module _ {ℓ κ μ} {K : Type ℓ} {V : Type κ} ⦃o : Ord K⦄ (P : K × V → Type μ) where
  pub All-insert : (k : K) (v : V) (m : BTreeMap K V) → P (k, v) → All P m → All P (insert k v m)
  unfolding insert
  All-insert k v [] p a = (p, tt)
  All-insert k v ((j, w) ∷ m) p a = elim (Bool-cases (o.eq k j)) [
    | inl e ↦ rw e (p, a.1)
    | inr e ↦ elim (Bool-cases (o.lt k j)) [
      | inl q ↦ rw (e, q) (p, a)
      | inr q ↦ rw (e, q) (a.0, All-insert k v m p a.1)
    ]
  ]

  pub All-remove : (k : K) (m : BTreeMap K V) → All P m → All P (remove k m)
  unfolding remove
  All-remove k [] a = tt
  All-remove k ((j, w) ∷ m) a = elim (Bool-cases (o.eq k j)) [
    | inl e ↦ rw e a.1
    | inr e ↦ rw e (a.0, All-remove k m a.1)
  ]

  pub All-update :
      (f : V → V) (k : K) (m : BTreeMap K V)
      → ((j : K) (v : V) → P (j, v) → P (j, f v))
      → All P m
      → All P (update f k m)
  unfolding update
  All-update f k [] h a = tt
  All-update f k ((j, w) ∷ m) h a = elim (Bool-cases (o.eq k j)) [
    | inl e ↦ rw e (h j w a.0, a.1)
    | inr e ↦ rw e (a.0, All-update f k m h a.1)
  ]
