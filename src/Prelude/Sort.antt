-- ===== src/Prelude/Sort.antt =====
-- `sort` and `dedup` over a linear order. Equal elements are identical, so every sort of a list
-- gives the same list, and insertion sort stands for the library's.
use mathlib.Core.Path.{◌≡◌, refl, sym, ap, ◌∙◌}
use mathlib.Core.Bool.{true, false}
use mathlib.Core.List.{List, [], ◌∷◌, Permᴰ}
use mathlib.Core.List.Permᴰ
use mathlib.Core.Logic.{inl, inr}
use mathlib.Core.Option.{Option, none, some}
use native.Mathlib.Omega.{arith}
use evidence.Prelude.Tests.{if◌then◌else◌, Bool-cases}
use evidence.Prelude.Order.{Ord}

module _ {ℓ} {A : Type ℓ} ⦃o : Ord A⦄ where
  unfoldable pub insert_sorted : A → List A → List A
  insert_sorted x [] = x ∷ []
  insert_sorted x (y ∷ ys) = if o.lt y x then y ∷ insert_sorted x ys else x ∷ y ∷ ys

  unfoldable pub sort : List A → List A
  unfolding insert_sorted
  sort [] = []
  sort (x ∷ xs) = insert_sorted x (sort xs)

  -- Drops an element that repeats its predecessor.
  unfoldable pub dedup : List A → List A
  dedup [] = []
  dedup (x ∷ []) = x ∷ []
  dedup (x ∷ y ∷ ys) = if o.eq x y then dedup (y ∷ ys) else x ∷ dedup (y ∷ ys)

  -- The first element that its successor repeats.
  unfoldable pub first_repeat : List A → Option A
  first_repeat [] = none
  first_repeat (x ∷ []) = none
  first_repeat (x ∷ y ∷ ys) = if o.eq x y then some x else first_repeat (y ∷ ys)

  -- No neighbour is smaller.
  abbrev pub IsAscending : List A → Type 0
  IsAscending [] = Unit
  IsAscending (x ∷ []) = Unit
  IsAscending (x ∷ y ∷ ys) = (o.lt y x ≡ false) × IsAscending (y ∷ ys)

  -- Each neighbour is greater.
  abbrev pub IsStrict : List A → Type 0
  IsStrict [] = Unit
  IsStrict (x ∷ []) = Unit
  IsStrict (x ∷ y ∷ ys) = (o.lt x y ≡ true) × IsStrict (y ∷ ys)

  insert_sorted-IsAscending :
      (x : A) (ys : List A) → IsAscending ys → IsAscending (insert_sorted x ys)
  unfolding insert_sorted
  insert_sorted-IsAscending x [] a = tt
  insert_sorted-IsAscending x (y ∷ []) a =
      ground (arith, o.lt_total y x, o.eq_iff y x, o.lt_irrefl x, o.lt_trans x y x)
  insert_sorted-IsAscending x (y ∷ z ∷ ys) a = elim (Bool-cases (o.lt y x)) [
    | inr p ↦ rw p (p, a)
    | inl p ↦ elim (Bool-cases (o.lt z x)) [
      | inl q ↦ rw (p, q) (a.0, rw q at (insert_sorted-IsAscending x (z ∷ ys) a.1))
      | inr q ↦ rw (p, q) (ground (arith, o.lt_irrefl x, o.lt_trans x y x), (q, a.1))
    ]
  ]

  pub sort-IsAscending : (xs : List A) → IsAscending (sort xs)
  unfolding sort
  sort-IsAscending [] = tt
  sort-IsAscending (x ∷ xs) = insert_sorted-IsAscending x (sort xs) (sort-IsAscending xs)

  -- Two insertions commute, whatever the list.
  insert_sorted_comm :
      (x y : A) (zs : List A)
      → insert_sorted x (insert_sorted y zs) ≡ insert_sorted y (insert_sorted x zs)
  unfolding insert_sorted
  insert_sorted_comm x y [] =
      ground (arith, o.lt_trans x y x, o.lt_irrefl x, o.lt_total x y, o.eq_iff x y)
  insert_sorted_comm x y (z ∷ zs) = ground (
    arith,
    insert_sorted_comm x y zs,
    o.lt_trans x y x,
    o.lt_irrefl x,
    o.lt_total x y,
    o.eq_iff x y,
    o.lt_trans z x y,
    o.lt_trans z y x,
    o.lt_total z x,
    o.lt_total z y,
    o.eq_iff z x,
    o.eq_iff z y,
    o.lt_trans x z y,
    o.lt_trans y z x,
  )

  -- The order of the input does not show in the output.
  pub sort-perm : {xs ys : List A} → Permᴰ xs ys → sort xs ≡ sort ys
  unfolding sort
  sort-perm Permᴰ.nil = refl
  sort-perm (Permᴰ.cons {l₁ = l} {l₂ = k} e p) =
      ap (λ a. insert_sorted a (sort l)) e ∙ ap (insert_sorted _) (sort-perm p)
  sort-perm (Permᴰ.swap {a = a} {b = b} {a' = a'} {l = l} e f) =
      insert_sorted_comm a b (sort l)
      ∙ ap (λ x. insert_sorted x (insert_sorted a (sort l))) f
      ∙ ap (λ x. insert_sorted a' (insert_sorted x (sort l))) e
  sort-perm (Permᴰ.trans p q) = sort-perm p ∙ sort-perm q

  insert_sorted-perm : (x : A) (ys : List A) → Permᴰ (insert_sorted x ys) (x ∷ ys)
  unfolding insert_sorted
  insert_sorted-perm x [] = Permᴰ.refl _
  insert_sorted-perm x (y ∷ ys) = elim (Bool-cases (o.lt y x)) [
    | inl p ↦ rw p (Permᴰ.trans (Permᴰ.cons refl (insert_sorted-perm x ys)) (Permᴰ.swap refl refl))
    | inr p ↦ rw p (Permᴰ.refl _)
  ]

  pub perm-sort : (xs : List A) → Permᴰ (sort xs) xs
  unfolding sort
  perm-sort [] = Permᴰ.nil
  perm-sort (x ∷ xs) = Permᴰ.trans (insert_sorted-perm x (sort xs)) (Permᴰ.cons refl (perm-sort xs))

  -- An ascending list without repeats ascends strictly.
  pub IsStrict-of_first_repeat :
      (xs : List A) → IsAscending xs → first_repeat xs ≡ none → IsStrict xs
  unfolding first_repeat
  IsStrict-of_first_repeat [] a h = tt
  IsStrict-of_first_repeat (x ∷ []) a h = tt
  IsStrict-of_first_repeat (x ∷ y ∷ ys) a h = elim (Bool-cases (o.eq x y)) [
    | inl p ↦ absurd (cc (rw p at h))
    | inr p ↦ (
      ground (arith, o.lt_total y x, o.eq_iff y x, o.eq_iff x y),
      IsStrict-of_first_repeat (y ∷ ys) a.1 (rw p at h),
    )
  ]

  -- A strictly ascending list is sorted already, and has nothing to drop.
  pub sort_of_IsStrict : (xs : List A) → IsStrict xs → sort xs ≡ xs
  unfolding sort insert_sorted
  sort_of_IsStrict [] s = refl
  sort_of_IsStrict (x ∷ []) s = refl
  sort_of_IsStrict (x ∷ y ∷ ys) s =
      rw (sort_of_IsStrict (y ∷ ys) s.1) (ground (arith, o.lt_trans x y x s.0, o.lt_irrefl x))

  pub dedup_of_IsStrict : (xs : List A) → IsStrict xs → dedup xs ≡ xs
  unfolding dedup
  dedup_of_IsStrict [] s = refl
  dedup_of_IsStrict (x ∷ []) s = refl
  dedup_of_IsStrict (x ∷ y ∷ ys) s =
      ground (arith, dedup_of_IsStrict (y ∷ ys) s.1, o.lt_irrefl x, o.eq_iff x y)

  dedup_head : (x : A) (xs : List A) → (t : List A) × (dedup (x ∷ xs) ≡ x ∷ t)
  unfolding dedup
  dedup_head x [] = ([], refl)
  dedup_head x (y ∷ ys) = elim (Bool-cases (o.eq x y)) [
    | inl p ↦
        let (t, e) = dedup_head y ys in (t, rw p (e ∙ ap (λ z. z ∷ t) (sym ((o.eq_iff x y).0 p))))
    | inr p ↦ (dedup (y ∷ ys), rw p)
  ]

  IsStrict-cons :
      (x y : A) (zs : List A)
      → o.lt x y ≡ true
      → (t : List A) × (zs ≡ y ∷ t)
      → IsStrict zs
      → IsStrict (x ∷ zs)
  IsStrict-cons x y [] h (t, e) s = tt
  IsStrict-cons x y (z ∷ zs) h (t, e) s = (cc (h), s)

  -- What `sort` and then `dedup` leave ascends strictly.
  pub dedup-IsStrict : (xs : List A) → IsAscending xs → IsStrict (dedup xs)
  unfolding dedup
  dedup-IsStrict [] a = tt
  dedup-IsStrict (x ∷ []) a = tt
  dedup-IsStrict (x ∷ y ∷ ys) a = elim (Bool-cases (o.eq x y)) [
    | inl p ↦ rw p (dedup-IsStrict (y ∷ ys) a.1)
    | inr p ↦ rw p (
        IsStrict-cons x y (dedup (y ∷ ys))
          (ground (arith, o.lt_total y x, o.eq_iff y x, o.eq_iff x y)) (dedup_head y ys)
          (dedup-IsStrict (y ∷ ys) a.1))
  ]
