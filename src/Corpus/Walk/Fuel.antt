-- ===== src/Corpus/Walk/Fuel.antt =====
-- The fuel of the walk.
use evidence.Prelude.{
  ℕ, zero, suc, ◌+◌, ◌≤◌, ◌<◌, Str, false, List, [], ◌∷◌, ◌++◌, contains, contains-append, length,
  str_ord, str_eq_iff, arith, ◌≡◌, ◌≢◌, Bool-cases, inl, inr,
}
use evidence.BTreeMap
use evidence.BTreeMap.{BTreeMap}
use evidence.Corpus.Walk.{
  Outcome, finished, revisit, and_then, out_of_fuel, push_all, next, walk, walk_all, weight,
  enough_fuel,
}

length-push_all : (xs st : List Str) → length (push_all xs st) ≡ length xs + length st
unfolding push_all
length-push_all [] st = omega arith
length-push_all (x ∷ xs) st = omega (arith, length-push_all xs (x ∷ st))

and_then-ends :
    (o : Outcome) (f : List Str → Outcome)
    → o ≢ out_of_fuel
    → ((path : List Str) → f path ≢ out_of_fuel)
    → and_then o f ≢ out_of_fuel
and_then-ends (finished path) f h k = k path
and_then-ends (revisit uid) f h k = λ e. cc
and_then-ends out_of_fuel f h k = h

module _ {ℓ} {V : Type ℓ} (targets : V → List Str) where
  -- A longer path leaves less.
  pub weight-le :
      (m : BTreeMap Str V) (path : List Str) (c : Str)
      → weight targets m (path ++ c ∷ []) ≤ weight targets m path
  unfolding weight
  weight-le [] path c = omega arith
  weight-le ((k, n) ∷ m) path c =
      ground (arith, weight-le m path c, contains-append path (c ∷ []) k)

  -- A first visit takes the targets that it pushes off what is left.
  pub weight-visit :
      (m : BTreeMap Str V) (path : List Str) (c : Str)
      → contains path c ≡ false
      → weight targets m (path ++ c ∷ []) + length (next targets m c) ≤ weight targets m path
  unfolding weight next BTreeMap.get contains
  weight-visit [] path c h = omega arith
  weight-visit ((k, n) ∷ m) path c h = ground (
    arith,
    weight-visit m path c h,
    weight-le m path c,
    contains-append path (c ∷ []) k,
    str_eq_iff c k,
  )

module _ {ℓ} {V : Type ℓ} (targets : V → List Str) (m : BTreeMap Str V) where
  walk-ends :
      (fuel : ℕ) (done path frontier : List Str)
      → weight targets m path + length frontier < fuel
      → walk targets m fuel done path frontier ≢ out_of_fuel
  unfolding walk
  walk-ends zero done path frontier h = absurd (omega arith)
  walk-ends (suc fuel) done path [] h = λ e. cc
  walk-ends (suc fuel) done path (c ∷ rest) h = elim (Bool-cases (contains path c)) [
    | inl p ↦ rw (p, walk) (λ e. cc)
    | inr p ↦ elim (Bool-cases (contains done c)) [
      | inl q ↦ rw (p, q, walk) (walk-ends fuel done path rest (omega arith))
      | inr q ↦
          rw (p, q, walk)
            (walk-ends fuel done (path ++ c ∷ []) (push_all (next targets m c) rest) (
              omega
                (arith, weight-visit targets m path c p, length-push_all (next targets m c) rest)))
    ]
  ]

  walk_all-ends :
      (fuel : ℕ) (done starts : List Str)
      → weight targets m [] + 1 < fuel
      → walk_all targets m fuel done starts ≢ out_of_fuel
  unfolding walk_all
  walk_all-ends fuel done [] h = λ e. cc
  walk_all-ends fuel done (s ∷ ss) h = elim (Bool-cases (contains done s)) [
    | inl p ↦ rw (p, walk_all) (walk_all-ends fuel done ss h)
    | inr p ↦
        rw (p, walk_all)
          (and_then-ends _ _ (walk-ends fuel done [] (s ∷ []) (omega arith))
            (λ path. walk_all-ends fuel (path ++ done) ss h))
  ]

  -- With `enough_fuel`, the walks from any list of starts never run out of fuel.
  pub walk_all_total :
      (starts : List Str) → walk_all targets m (enough_fuel targets m) [] starts ≢ out_of_fuel
  unfolding enough_fuel
  walk_all_total starts = walk_all-ends _ [] starts (omega arith)
