-- ===== src/BTreeMap/Laws.antt =====
-- The laws of the ordered map: lookup after insertion, order, and equality by lookups.
use mathlib.Core.List.{Memᴰ}
use mathlib.Core.List.Memᴰ
use evidence.Prelude.{
  sym, some_injective, All, subst, ◌≢◌, true, none, some, [], ◌∷◌, Ord, if◌then◌else◌, ◌≡◌, refl,
  arith, inl, inr, Bool-cases,
}
use evidence.BTreeMap.{values, BTreeMap, get, insert, Above, IsSorted}

module _ {ℓ κ} {K : Type ℓ} {V : Type κ} ⦃o : Ord K⦄ where
  pub get-insert :
      (k j : K) (v : V) (m : BTreeMap K V)
      → get j (insert k v m) ≡ (if o.eq j k then some v else get j m)
  unfolding get insert
  get-insert k j v [] = refl
  get-insert k j v ((i, w) ∷ m) =
      ground (arith, o.eq_iff k i, o.eq_iff j i, o.eq_iff j k, get-insert k j v m)

  Above-trans : (k j : K) (m : BTreeMap K V) → o.lt k j ≡ true → Above j m → Above k m
  Above-trans k j [] h a = a
  Above-trans k j ((i, w) ∷ m) h a = (o.lt_trans k j i h a.0, Above-trans k j m h a.1)

  insert-Above :
      (k j : K) (v : V) (m : BTreeMap K V) → o.lt j k ≡ true → Above j m → Above j (insert k v m)
  unfolding insert
  insert-Above k j v [] h a = (h, a)
  insert-Above k j v ((i, w) ∷ m) h a = elim (Bool-cases (o.eq k i)) [
    | inl p ↦ rw p (h, a.1)
    | inr p ↦ elim (Bool-cases (o.lt k i)) [
      | inl q ↦ rw (p, q) (h, a)
      | inr q ↦ rw (p, q) (a.0, insert-Above k j v m h a.1)
    ]
  ]

  pub insert-IsSorted : (k : K) (v : V) (m : BTreeMap K V) → IsSorted m → IsSorted (insert k v m)
  unfolding insert
  insert-IsSorted k v [] s = (tt, tt)
  insert-IsSorted k v ((i, w) ∷ m) s = elim (Bool-cases (o.eq k i)) [
    | inl p ↦ rw p (rw ((o.eq_iff k i).0 p) s)
    | inr p ↦ elim (Bool-cases (o.lt k i)) [
      | inl q ↦ rw (p, q) ((q, Above-trans k i m q s.0), s)
      | inr q ↦ rw (p, q) (insert-Above k i v m (o.lt_total k i q p) s.0, insert-IsSorted k v m s.1)
    ]
  ]

  pub get-Above : (k : K) (m : BTreeMap K V) → Above k m → get k m ≡ none
  unfolding get
  get-Above k [] a = refl
  get-Above k ((i, w) ∷ m) a = ground (arith, o.eq_iff k i, o.lt_irrefl k, get-Above k m a.1)

  -- An entry that sits above every key of a map is not in it.
  head-ne :
      (k j : K) (w : V) (m : BTreeMap K V) → o.lt k j ≡ true → Above j m → get k ((j, w) ∷ m) ≡ none
  head-ne k j w m h a = get-Above k ((j, w) ∷ m) (h, Above-trans k j m h a)

  get_nil : (k : K) → get {V = V} k [] ≡ none
  unfolding get
  get_nil k = refl

  pub get_cons :
      (j k : K) (v : V) (m : BTreeMap K V)
      → get j ((k, v) ∷ m) ≡ (if o.eq j k then some v else get j m)
  unfolding get
  get_cons j k v m = refl

  -- Two ordered maps with the same lookups are equal.
  pub eq_of_get :
      (m n : BTreeMap K V) → IsSorted m → IsSorted n → ((k : K) → get k m ≡ get k n) → m ≡ n
  eq_of_get [] [] s t h = refl
  eq_of_get [] ((j, w) ∷ n) s t h =
      absurd (ground (arith, h j, get_cons j j w n, o.eq_iff j j, get_nil j))
  eq_of_get ((k, v) ∷ m) [] s t h =
      absurd (ground (arith, h k, get_cons k k v m, o.eq_iff k k, get_nil k))
  eq_of_get ((k, v) ∷ m) ((j, w) ∷ n) s t h = elim (Bool-cases (o.lt k j)) [
    | inl p ↦ absurd (ground (arith, h k, get_cons k k v m, o.eq_iff k k, head-ne k j w n p t.0))
    | inr p ↦ elim (Bool-cases (o.eq k j)) [
      | inr q ↦ absurd (
          ground
            (arith, h j, get_cons j j w n, o.eq_iff j j, head-ne j k v m (o.lt_total k j p q) s.0))
      | inl q ↦
          let e : k ≡ j = (o.eq_iff k j).0 q in
          let vw : v ≡ w =
            ground (arith, h k, get_cons k k v m, get_cons k j w n, o.eq_iff k k, o.eq_iff k j) in
          let rest : m ≡ n = eq_of_get m n s.1 t.1 (λ i. ground (
            arith,
            h i,
            get_cons i k v m,
            get_cons i j w n,
            o.eq_iff i k,
            o.eq_iff i j,
            get-Above k m s.0,
            get-Above j n t.0,
          )) in
          cc
    ]
  ]

  -- The order of two insertions at different keys does not matter.
  pub insert_comm :
      (j k : K) (v w : V) (m : BTreeMap K V)
      → IsSorted m
      → j ≢ k
      → insert j v (insert k w m) ≡ insert k w (insert j v m)
  insert_comm j k v w m s ne =
      eq_of_get _ _ (insert-IsSorted j v _ (insert-IsSorted k w m s))
        (insert-IsSorted k w _ (insert-IsSorted j v m s))
        (λ i. ground (
          arith,
          get-insert j i v (insert k w m),
          get-insert k i w m,
          get-insert k i w (insert j v m),
          get-insert j i v m,
          o.eq_iff i j,
          o.eq_iff i k,
        ))

-- What holds of every value holds of a value that is looked up.
module _ {ℓ κ μ} {K : Type ℓ} {V : Type κ} ⦃o : Ord K⦄ where
  pub All-get :
      (P : V → Type μ) (k : K) (m : BTreeMap K V) (v : V)
      → All P (values m)
      → get k m ≡ some v
      → P v
  unfolding get
  All-get P k [] v a h = absurd (cc)
  All-get P k ((j, w) ∷ m) v a h = elim (Bool-cases (o.eq k j)) [
    | inl p ↦ subst P (some_injective (rw (p, get) at h)) a.0
    | inr p ↦ All-get P k m v a.1 (rw (p, get) at h)
  ]

-- An entry of an ordered map is found under its key.
module _ {ℓ κ} {K : Type ℓ} {V : Type κ} ⦃o : Ord K⦄ where
  Above-mem : (k : K) (m : BTreeMap K V) (e : K × V) → Above k m → Memᴰ e m → o.lt k e.0 ≡ true
  Above-mem k [] e a h = absurd (Memᴰ.not-nil h)
  Above-mem k (x ∷ m) e a (Memᴰ.head q) = subst (λ y. o.lt k y.0 ≡ true) (sym q) a.0
  Above-mem k (x ∷ m) e a (Memᴰ.tail h) = Above-mem k m e a.1 h

  pub get_of_mem : (m : BTreeMap K V) (e : K × V) → IsSorted m → Memᴰ e m → get e.0 m ≡ some e.1
  unfolding get
  get_of_mem [] e s h = absurd (Memᴰ.not-nil h)
  get_of_mem (x ∷ m) e s (Memᴰ.head q) =
      subst (λ y. get e.0 (y ∷ m) ≡ some e.1) q (rw ((o.eq_iff e.0 e.0).1 refl))
  get_of_mem (x ∷ m) e s (Memᴰ.tail h) =
      let above = Above-mem x.0 m e s.0 h in
      ground (arith, above, get_of_mem m e s.1 h, o.eq_iff e.0 x.0, o.lt_irrefl x.0)

-- What holds of every entry holds of the entry that is looked up.
module _ {ℓ κ μ} {K : Type ℓ} {V : Type κ} ⦃o : Ord K⦄ where
  pub All_entry :
      (P : K × V → Type μ) (k : K) (m : BTreeMap K V) (v : V)
      → All P m
      → get k m ≡ some v
      → P (k, v)
  unfolding get
  All_entry P k [] v a h = absurd (cc)
  All_entry P k ((j, w) ∷ m) v a h = elim (Bool-cases (o.eq k j)) [
    | inl p ↦
        let e : w ≡ v = some_injective (rw (p, get) at h) in
        let q : j ≡ k = sym ((o.eq_iff k j).0 p) in
        subst (λ x. P (k, x)) e (subst (λ x. P (x, w)) q a.0)
    | inr p ↦ All_entry P k m v a.1 (rw (p, get) at h)
  ]
