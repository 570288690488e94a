-- ===== src/Corpus/Identity/Climb.antt =====
-- The loop along parents is given enough rounds.
use evidence.Prelude.{
  ℕ, zero, suc, ◌<◌, Str, Option, none, some, List, [], ◌∷◌, ◌++◌, contains, length, str_ord, All,
  ◌≡◌, inl, inr, refl, ap, ◌∙◌, arith, Option-cases, Bool-cases,
}
use evidence.BTreeMap
use evidence.BTreeMap.{BTreeMap}
use evidence.BTreeMap.Laws.{All_entry}
use evidence.Corpus.Walk.{weight, next}
use evidence.Corpus.Walk.Fuel.{weight-le, weight-visit}
use evidence.Corpus.Identity.{climb, parents}

module _ {V : Type 0} (uid_of : V → Str) (parent_of : V → Option Str) (m : BTreeMap Str V)
    (keyed : All (λ e. uid_of e.1 ≡ e.0) m) where
  one_link :
      (u : Str) (p : V) → BTreeMap.get u m ≡ some p → length (next (λ v. uid_of v ∷ []) m u) ≡ 1
  unfolding next
  one_link u p h = rw h refl

  climb_enough :
      (fuel more : ℕ) (visited : List Str) (chain : List V) (current : Option Str)
      → weight (λ v. uid_of v ∷ []) m visited < fuel
      → weight (λ v. uid_of v ∷ []) m visited < more
      → climb uid_of parent_of fuel m visited chain current
        ≡ climb uid_of parent_of more m visited chain current
  unfolding climb
  climb_enough zero more visited chain current w v = absurd (omega arith)
  climb_enough (suc fuel) zero visited chain current w v = absurd (omega arith)
  climb_enough (suc fuel) (suc more) visited chain none w v = refl
  climb_enough (suc fuel) (suc more) visited chain (some u) w v =
      elim (Option-cases (BTreeMap.get u m)) [
        | inl q ↦ rw (climb, q) refl
        | inr (p, q) ↦ elim (Bool-cases (contains visited (uid_of p))) [
          | inl c ↦ rw (climb, q, c) refl
          | inr c ↦
              let key = All_entry (λ e. uid_of e.1 ≡ e.0) u m p keyed q in
              let one = one_link (uid_of p) p (ap (λ x. BTreeMap.get x m) key ∙ q) in
              let less = weight-visit (λ v. uid_of v ∷ []) m visited (uid_of p) c in
              rw (climb, q, c)
                (climb_enough fuel more (visited ++ uid_of p ∷ []) (p ∷ chain) (parent_of p)
                  (omega arith) (omega arith))
        ]
      ]

  -- Where each entry stands under its own uid the loop along parents leaves by itself: with any more
  -- rounds than it is given it yields the same parents.
  pub parents_enough :
      (more : ℕ) (start : V)
      → weight (λ v. uid_of v ∷ []) m [] < more
      → climb uid_of parent_of more m (uid_of start ∷ []) [] (parent_of start)
        ≡ parents uid_of parent_of m start
  unfolding parents
  parents_enough more start h =
      let less = weight-le (λ v. uid_of v ∷ []) m [] (uid_of start) in
      climb_enough more (suc (weight (λ v. uid_of v ∷ []) m [])) (uid_of start ∷ []) []
        (parent_of start) (omega arith) (omega arith)
