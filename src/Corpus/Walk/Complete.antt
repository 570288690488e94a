-- ===== src/Corpus/Walk/Complete.antt =====
-- Walks where every uid has at most one target.
use evidence.Prelude.{
  ℕ, zero, suc, ◌≤◌, Str, true, List, [], ◌∷◌, ◌++◌, contains, length, str_ord, str_eq_iff,
  str_eq_refl, arith, ◌≡◌, refl, subst, Bool-cases, inl, inr, ◌⊎◌,
}
use evidence.BTreeMap.{BTreeMap}
use evidence.Corpus.Walk.{
  Outcome, finished, revisit, out_of_fuel, and_then, push_all, next, walk, walk_all, enough_fuel,
}
use evidence.Corpus.Walk.Fuel.{walk_all_total}
use evidence.Corpus.Walk.Order.{Chain, Within, IsOrdered-acyclic, one, more, contains-concat}
use evidence.Corpus.Walk.Sound.{walk_all_order}

revisit_injective : {u v : Str} → revisit u ≡ revisit v → u ≡ v
revisit_injective h = cc

Outcome-cases :
    (o : Outcome)
    → ((p : List Str) × (o ≡ finished p)) ⊎ ((u : Str) × (o ≡ revisit u)) ⊎ (o ≡ out_of_fuel)
Outcome-cases (finished p) = inl (p, refl)
Outcome-cases (revisit u) = inr (inl (u, refl))
Outcome-cases out_of_fuel = inr (inr refl)

module _ {ℓ} {V : Type ℓ} (targets : V → List Str) (m : BTreeMap Str V)
    (single : (u : Str) → length (next targets m u) ≤ 1) where
  -- The one uid on the stack is reached from every uid of the path.
  abbrev Leads : List Str → List Str → Type 0
  Leads path [] = Unit
  Leads path (c ∷ []) = (x : Str) → contains path x ≡ true → Chain (next targets m) x c
  Leads path (c ∷ d ∷ rest) = ⊥

  Chain-snoc :
      {a b c : Str}
      → Chain (next targets m) a b
      → contains (next targets m b) c ≡ true
      → Chain (next targets m) a c
  Chain-snoc (one h) k = more h (one k)
  Chain-snoc (more h r) k = more h (Chain-snoc r k)

  Leads-visit :
      (path : List Str) (c : Str)
      → Leads path (c ∷ [])
      → (ts : List Str) → next targets m c ≡ ts
      → length ts ≤ 1
      → Leads (path ++ c ∷ []) (push_all ts [])
  unfolding push_all contains
  Leads-visit path c l [] e h = tt
  Leads-visit path c l (d ∷ []) e h = λ x k.
      let edge : contains (next targets m c) d ≡ true = rw e (ground (arith, str_eq_refl d)) in
      elim (Bool-cases (contains path x)) [
        | inl p ↦ Chain-snoc (l x p) edge
        | inr p ↦
            let same : c ≡ x = ground (arith, contains-concat path c x, str_eq_iff c x) in
            subst (λ y. Chain (next targets m) y d) same (one edge)
      ]
  Leads-visit path c l (d ∷ e ∷ ts) q h = absurd (omega arith)

  walk-revisit :
      (fuel : ℕ) (done path stack : List Str) (u : Str)
      → Leads path stack
      → walk targets m fuel done path stack ≡ revisit u
      → Chain (next targets m) u u
  unfolding walk
  walk-revisit zero done path stack u l h = absurd (cc)
  walk-revisit (suc fuel) done path [] u l h = absurd (cc)
  walk-revisit (suc fuel) done path (c ∷ d ∷ rest) u l h = absurd l
  walk-revisit (suc fuel) done path (c ∷ []) u l h = elim (Bool-cases (contains path c)) [
    | inl p ↦
        let e : c ≡ u = revisit_injective (rw (p, walk) at h) in
        subst (λ y. Chain (next targets m) y y) e (l c p)
    | inr p ↦ elim (Bool-cases (contains done c)) [
      | inl q ↦ walk-revisit fuel done path [] u tt (rw (p, q, walk) at h)
      | inr q ↦
          walk-revisit fuel done (path ++ c ∷ []) (push_all (next targets m c) []) u
            (Leads-visit path c l (next targets m c) refl (single c)) (rw (p, q, walk) at h)
    ]
  ]

  walk_all-revisit :
      (fuel : ℕ) (done starts : List Str) (u : Str)
      → walk_all targets m fuel done starts ≡ revisit u
      → Chain (next targets m) u u
  unfolding walk_all contains
  walk_all-revisit fuel done [] u h = absurd (cc)
  walk_all-revisit fuel done (s ∷ ss) u h = elim (Bool-cases (contains done s)) [
    | inl d ↦ walk_all-revisit fuel done ss u (rw (d, walk_all) at h)
    | inr d ↦
        let k = rw (d, walk_all) at h in
        elim (Outcome-cases (walk targets m fuel done [] (s ∷ []))) [
          | inl (p, e) ↦ walk_all-revisit fuel (p ++ done) ss u (rw (e, and_then) at k)
          | inr (inl (v, e)) ↦
              let same : v ≡ u = revisit_injective (rw (e, and_then) at k) in
              subst (λ y. Chain (next targets m) y y) same
                (walk-revisit fuel done [] (s ∷ []) v (λ x n. cc) e)
          | inr (inr e) ↦ absurd (cc (rw (e, and_then) at k))
        ]
  ]

  -- Where every uid has at most one target, the walks with `enough_fuel` either finish with a list
  -- that has all the starts and no uid from which a chain of targets leads back to it, or name a uid
  -- from which a chain does.
  pub walk_all_cases :
      (starts : List Str)
      → ((t : List Str) × (walk_all targets m (enough_fuel targets m) [] starts ≡ finished t)
          × Within starts t
          × ((u : Str) → contains t u ≡ true → ¬ Chain (next targets m) u u))
        ⊎ ((u : Str) × (walk_all targets m (enough_fuel targets m) [] starts ≡ revisit u)
            × Chain (next targets m) u u)
  walk_all_cases starts =
      elim (Outcome-cases (walk_all targets m (enough_fuel targets m) [] starts)) [
        | inl (t, e) ↦
            let (ordered, within) = walk_all_order targets m (enough_fuel targets m) starts t e in
            inl (t, e, within, λ u there. IsOrdered-acyclic (next targets m) t u ordered there)
        | inr (inl (u, e)) ↦ inr (u, e, walk_all-revisit _ [] starts u e)
        | inr (inr e) ↦ absurd (walk_all_total targets m starts e)
      ]
