-- ===== src/Corpus/SourceValidation/Ancestry.antt =====
-- The walk to the root and the chain of parents.
use evidence.Prelude.{
  ℕ, zero, suc, ◌<◌, ◌≤◌, Str, none, some, List, [], ◌∷◌, ◌++◌, ok, ok_injective, contains, str_ord,
  ◌≡◌, ◌≢◌, refl, ◌∙◌, inl, inr, Bool-cases, Option-cases, some_injective, arith, All, ap, length,
}
use evidence.BTreeMap
use evidence.BTreeMap.{BTreeMap}
use evidence.BTreeMap.Laws.{All_entry}
use evidence.Corpus.SourceNodes.{SourceNode, SourceGraph}
use evidence.Corpus.Walk.{weight, next}
use evidence.Corpus.Walk.Fuel.{weight-visit}
use evidence.Corpus.SourceValidation.{UidIndex, ancestors, ancestry_fuel}

-- Every node of the source graph stands under its own uid, as insertion leaves it.
abbrev pub KeyedNodes : SourceGraph → Type 0
KeyedNodes g = All (λ e. e.1.uid ≡ e.0) g

-- `up` is the list of the ancestors of a node, from its parent to a root.
abbrev pub Ancestors : SourceGraph → SourceNode → List SourceNode → Type 0
Ancestors g n [] = n.parent_uid ≡ none
Ancestors g n (p ∷ up) =
    ((u : Str) × (n.parent_uid ≡ some u) × (BTreeMap.get u g ≡ some p)) × Ancestors g p up

-- `up`, put in front of `chain` one after the other.
abbrev pub onto : List SourceNode → List SourceNode → List SourceNode
onto [] chain = chain
onto (p ∷ up) chain = onto up (p ∷ chain)

weight-visited :
    (m : BTreeMap Str SourceNode) (visited : List Str)
    → weight (λ n. n.uid ∷ []) m visited ≤ weight (λ n. n.uid ∷ []) m []
unfolding weight contains
weight-visited [] visited = omega arith
weight-visited ((k, n) ∷ m) visited = ground (arith, weight-visited m visited)

module _ (revision_uid : Str) (g : SourceGraph) (index : UidIndex) where
  pub ancestors_chain :
      (fuel : ℕ) (visited : List Str) (chain out : List SourceNode) (n : SourceNode)
      → ancestors fuel revision_uid g index visited chain n ≡ some (ok out)
      → (up : List SourceNode) × Ancestors g n up × (onto up chain ≡ out)
  unfolding ancestors
  ancestors_chain zero visited chain out n h = absurd (cc)
  ancestors_chain (suc fuel) visited chain out n h = elim (Option-cases n.parent_uid) [
    | inl e ↦ ([], e, ok_injective (some_injective (rw (e, ancestors) at h)))
    | inr (u, e) ↦ elim (Option-cases (BTreeMap.get u g)) [
      | inl q ↦ absurd (cc (some_injective (rw (e, q, ancestors) at h)))
      | inr (p, q) ↦ elim (Bool-cases (contains visited p.uid)) [
        | inl c ↦ absurd (cc (some_injective (rw (e, q, c, ancestors) at h)))
        | inr c ↦
            let (up, a, o) =
              ancestors_chain fuel (visited ++ p.uid ∷ []) (p ∷ chain) out p
                (rw (e, q, c, ancestors) at h) in
            (p ∷ up, ((u, e, q), a), o)
      ]
    ]
  ]

  next_of :
      (u : Str) (p : SourceNode)
      → BTreeMap.get u g ≡ some p
      → length (next (λ n. n.uid ∷ []) g u) ≡ 1
  unfolding next
  next_of u p h = rw h refl

  ancestors_ends :
      KeyedNodes g
      → (fuel : ℕ) (visited : List Str) (chain : List SourceNode) (n : SourceNode)
      → weight (λ n. n.uid ∷ []) g visited < fuel
      → ancestors fuel revision_uid g index visited chain n ≢ none
  unfolding ancestors
  ancestors_ends k zero visited chain n w = absurd (omega arith)
  ancestors_ends k (suc fuel) visited chain n w = elim (Option-cases n.parent_uid) [
    | inl e ↦ rw (e, ancestors) (λ h. cc)
    | inr (u, e) ↦ elim (Option-cases (BTreeMap.get u g)) [
      | inl q ↦ rw (e, q, ancestors) (λ h. cc)
      | inr (p, q) ↦ elim (Bool-cases (contains visited p.uid)) [
        | inl c ↦ rw (e, q, c, ancestors) (λ h. cc)
        | inr c ↦
            let key : p.uid ≡ u = All_entry (λ e. e.1.uid ≡ e.0) u g p k q in
            let one = next_of p.uid p (ap (λ x. BTreeMap.get x g) key ∙ q) in
            rw (e, q, c, ancestors)
              (ancestors_ends k fuel (visited ++ p.uid ∷ []) (p ∷ chain) p
                (omega (arith, weight-visit (λ n. n.uid ∷ []) g visited p.uid c, one)))
      ]
    ]
  ]

  -- In a source graph whose nodes stand under their uids, the walk from any node ends within the
  -- fuel, whatever it has visited.
  pub ancestors_total :
      KeyedNodes g
      → (visited : List Str) (chain : List SourceNode) (n : SourceNode)
      → ancestors (ancestry_fuel g) revision_uid g index visited chain n ≢ none
  unfolding ancestry_fuel
  ancestors_total k visited chain n =
      ancestors_ends k _ visited chain n (omega (arith, weight-visited g visited))
