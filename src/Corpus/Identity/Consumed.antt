-- ===== src/Corpus/Identity/Consumed.antt =====
-- The order in which reconciliation reuses the uids of one structural key.
use evidence.Prelude.{
  ℕ, suc, Str, List, [], ◌∷◌, filter, ◌≡◌, ◌⊎◌, inl, inr, refl, ap, ◌∙◌, Bool-cases,
}
use evidence.Corpus.Identity.{
  StructuralKey, key_eq, CandidateNode, ReconciledNode, Pool, pool_uids, pool_set, mint_node_uid,
  assign,
}
use evidence.Corpus.Identity.Keys.{key_eq_iff}
use evidence.Corpus.Identity.Unchanged.{pool_uids-set}

pub uids_cases : (us : List Str) → (us ≡ []) ⊎ ((x : Str) × (xs : List Str) × (us ≡ x ∷ xs))
uids_cases [] = inl refl
uids_cases (x ∷ xs) = inr (x, xs, refl)

module _ (new_v4 : ℕ → Str) where
  -- The rows take the uids from the first on, and minted ones only after the last.
  abbrev pub Consumes : List Str → List ReconciledNode → Type 0
  Consumes us [] = Unit
  Consumes (u ∷ us) (row ∷ rows) = (row.uid ≡ u) × Consumes us rows
  Consumes [] (row ∷ rows) = ((i : ℕ) × (row.uid ≡ mint_node_uid new_v4 i)) × Consumes [] rows

  module _ (key_in : CandidateNode → StructuralKey) where
    abbrev pub rows_of : StructuralKey → List ReconciledNode → List ReconciledNode
    rows_of key rows = filter (λ row. key_eq key (key_in row.candidate)) rows

    pub assign-Consumes :
        (key : StructuralKey) (n : ℕ) (pool : Pool) (cs : List CandidateNode)
        → Consumes (pool_uids key pool) (rows_of key (assign new_v4 key_in n pool cs))
    unfolding assign filter
    assign-Consumes key n pool [] = tt
    assign-Consumes key n pool (c ∷ cs) = elim (Bool-cases (key_eq key (key_in c))) [
      | inl e ↦
          let same : pool_uids key pool ≡ pool_uids (key_in c) pool =
            ap (λ k. pool_uids k pool) ((key_eq_iff key (key_in c)).0 e) in
          elim (uids_cases (pool_uids (key_in c) pool)) [
            | inl p ↦
                let rest = assign-Consumes key (suc n) pool cs in
                let none_left = same ∙ p in
                rw (assign, p, none_left, e) ((n, refl), rw none_left at rest)
            | inr (u, us, p) ↦
                let pool' = pool_set (key_in c) us pool in
                let rest = assign-Consumes key n pool' cs in
                let next : pool_uids key pool' ≡ us =
                  pool_uids-set (key_in c) key u us us pool p ∙ rw e refl in
                let first = same ∙ p in rw (assign, p, first, e) (refl, rw next at rest)
          ]
      | inr e ↦ elim (uids_cases (pool_uids (key_in c) pool)) [
        | inl p ↦ rw (assign, p, e) (assign-Consumes key (suc n) pool cs)
        | inr (u, us, p) ↦
            let pool' = pool_set (key_in c) us pool in
            let rest = assign-Consumes key n pool' cs in
            let next : pool_uids key pool' ≡ pool_uids key pool =
              pool_uids-set (key_in c) key u us us pool p ∙ rw e refl in
            rw (assign, p, e) (rw next at rest)
      ]
    ]
