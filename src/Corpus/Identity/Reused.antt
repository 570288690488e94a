-- ===== src/Corpus/Identity/Reused.antt =====
-- No identity is given twice.
use evidence.Prelude.{
  ℕ, suc, ◌≤◌, Str, true, false, none, List, [], ◌∷◌, map, contains, str_eq_iff, str_eq_refl,
  str_ord, some_injective, All, All-imp, ◌≡◌, ◌≢◌, ◌⊎◌, inl, inr, refl, sym, ap, subst, ◌∙◌, arith,
}
use evidence.BTreeMap
use evidence.BTreeMap.{values}
use evidence.Corpus.SourceNodes.{SourceNode, SourceGraph}
use evidence.Corpus.PatchApply.Invariant.{IsStore}
use evidence.Corpus.PatchEdits.Distinct.{Distinct}
use evidence.Corpus.Identity.{
  StructuralKey, CandidateNode, ReconciledNode, structural_key, candidate_key, Pool, pool_uids,
  pool_set, fill_pool, index_by_id, mint_node_uid, assign, reconcile,
}
use evidence.Corpus.Identity.Keys.{key_eq_iff}
use evidence.Corpus.Identity.Held.{
  Owned, IsPool, owner, uids_with-Distinct, still_held, pool_set-IsPool,
}
use evidence.Corpus.Identity.Consumed.{uids_cases, Consumes, rows_of, assign-Consumes}
use evidence.Corpus.Identity.Unchanged.{uids_with, pool_uids-set, pool_uids-fill_pool}

module _ (key_of : SourceNode → StructuralKey) where
  module _ (new_v4 : ℕ → Str) (g : SourceGraph) (key_in : CandidateNode → StructuralKey) where
    -- A row has a uid of the pool under its key, or one that is minted from here on.
    abbrev FromPool : ℕ → Pool → ReconciledNode → Type 0
    FromPool n pool row =
        (contains (pool_uids (key_in row.candidate) pool) row.uid ≡ true)
        ⊎ ((i : ℕ) × (n ≤ i) × (row.uid ≡ mint_node_uid new_v4 i))

    assign-FromPool :
        (n : ℕ) (pool : Pool) (cs : List CandidateNode)
        → All (FromPool n pool) (assign new_v4 key_in n pool cs)
    unfolding assign contains
    assign-FromPool n pool [] = tt
    assign-FromPool n pool (c ∷ cs) = elim (uids_cases (pool_uids (key_in c) pool)) [
      | inl p ↦
          rw (assign, p)
            (
              inr (n, omega arith, refl),
              All-imp (assign new_v4 key_in (suc n) pool cs)
                  (λ row r. elim r [ inl h ↦ inl h | inr (i, le, e) ↦ inr (i, omega arith, e) ])
                  (assign-FromPool (suc n) pool cs),
            )
      | inr (u, us, p) ↦
          rw (assign, p)
            (
              inl (rw p (rw (str_eq_refl u) refl)),
              All-imp (assign new_v4 key_in n (pool_set (key_in c) us pool) cs)
                  (λ row r. elim r [
                    | inl h ↦
                        inl (
                          still_held key_of pool (key_in c) (key_in row.candidate) u us row.uid p h)
                    | inr h ↦ inr h
                  ])
                  (assign-FromPool n (pool_set (key_in c) us pool) cs),
            )
    ]

    assign_candidates :
        (n : ℕ) (pool : Pool) (cs : List CandidateNode)
        → map (λ row. row.candidate) (assign new_v4 key_in n pool cs) ≡ cs
    unfolding assign
    assign_candidates n pool [] = refl
    assign_candidates n pool (c ∷ cs) = elim (uids_cases (pool_uids (key_in c) pool)) [
      | inl p ↦ rw (assign, p) (ap (λ x. c ∷ x) (assign_candidates (suc n) pool cs))
      | inr (u, us, p) ↦
          rw (assign, p) (ap (λ x. c ∷ x) (assign_candidates n (pool_set (key_in c) us pool) cs))
    ]

    module _ (new : (i j : ℕ) → mint_node_uid new_v4 i ≡ mint_node_uid new_v4 j → i ≡ j)
        (unused : (i : ℕ) → BTreeMap.get (mint_node_uid new_v4 i) g ≡ none) where
      absent :
          (u : Str) (rows : List ReconciledNode)
          → All (λ row. row.uid ≢ u) rows
          → contains (map (λ row. row.uid) rows) u ≡ false
      unfolding contains
      absent u [] a = refl
      absent u (row ∷ rows) a = ground (arith, absent u rows a.1, str_eq_iff row.uid u, a.0)

      -- A minted uid is given to no later candidate.
      not_minted :
          (n : ℕ) (pool : Pool) (cs : List CandidateNode)
          → IsPool key_of g pool
          → All (λ row. row.uid ≢ mint_node_uid new_v4 n) (assign new_v4 key_in (suc n) pool cs)
      not_minted n pool cs i =
          All-imp (assign new_v4 key_in (suc n) pool cs)
            (λ row r e. elim r [
              | inl h ↦
                  let (m, found, q) = i.owned (key_in row.candidate) row.uid h in
                  cc (sym found ∙ ap (λ x. BTreeMap.get x g) e ∙ unused n)
              | inr (j, le, q) ↦ absurd (omega (arith, new j n (sym q ∙ e)))
            ])
            (assign-FromPool (suc n) pool cs)

      -- A uid from the pool is given to no later candidate.
      not_taken :
          (n : ℕ) (key : StructuralKey) (u : Str) (us : List Str) (pool : Pool)
          (cs : List CandidateNode)
          → pool_uids key pool ≡ u ∷ us
          → IsPool key_of g pool
          → All (λ row. row.uid ≢ u) (assign new_v4 key_in n (pool_set key us pool) cs)
      unfolding contains
      not_taken n key u us pool cs p i =
          let pool' = pool_set key us pool in
          let next = pool_set-IsPool key_of g pool key u us p i in
          let (owner, at_u, q) = i.owned key u (rw p (rw (str_eq_refl u) refl)) in
          All-imp (assign new_v4 key_in n pool' cs)
            (λ row r e. elim r [
              | inr (k, le, m) ↦ cc (sym at_u ∙ ap (λ x. BTreeMap.get x g) (sym e ∙ m) ∙ unused k)
              | inl h ↦
                  let (other, at_row, q') = next.owned (key_in row.candidate) row.uid h in
                  let one = some_injective (sym at_row ∙ ap (λ x. BTreeMap.get x g) e ∙ at_u) in
                  let same = sym q' ∙ ap key_of one ∙ q in
                  let left : pool_uids (key_in row.candidate) pool' ≡ us =
                    ap (λ k. pool_uids k pool') same
                    ∙ pool_uids-set key key u us us pool p
                    ∙ rw ((key_eq_iff key key).1 refl) refl in
                  cc (
                    sym h
                    ∙ ap (λ x. contains x row.uid) left
                    ∙ ap (contains us) e
                    ∙ (subst Distinct p (i.once key)).0)
            ])
            (assign-FromPool n pool' cs)

      assign-Distinct :
          (n : ℕ) (pool : Pool) (cs : List CandidateNode)
          → IsPool key_of g pool
          → Distinct (map (λ row. row.uid) (assign new_v4 key_in n pool cs))
      unfolding assign
      assign-Distinct n pool [] i = tt
      assign-Distinct n pool (c ∷ cs) i = elim (uids_cases (pool_uids (key_in c) pool)) [
        | inl p ↦
            rw (assign, p)
              (
                absent (mint_node_uid new_v4 n) (assign new_v4 key_in (suc n) pool cs)
                    (not_minted n pool cs i),
                assign-Distinct (suc n) pool cs i,
              )
        | inr (u, us, p) ↦
            let pool' = pool_set (key_in c) us pool in
            rw (assign, p)
              (
                absent u (assign new_v4 key_in n pool' cs)
                    (not_taken n (key_in c) u us pool cs p i),
                assign-Distinct n pool' cs (pool_set-IsPool key_of g pool (key_in c) u us p i),
              )
      ]

-- What a reconciliation promises.
pub record IsReconciled (sha256 : Str → Str) (new_v4 : ℕ → Str) (g : SourceGraph)
    (candidates : List CandidateNode) (rows : List ReconciledNode) : Type 0 where
  pub candidates_kept : map (λ row. row.candidate) rows ≡ candidates
  pub distinct : Distinct (map (λ row. row.uid) rows)
  pub identified :
      All
        (λ row.
          Owned
            (structural_key sha256 g)
            g
            (candidate_key sha256 (index_by_id [] candidates) row.candidate)
            row.uid
          ⊎ ((i : ℕ) × (row.uid ≡ mint_node_uid new_v4 i)))
        rows
  pub in_order :
      (key : StructuralKey)
      → Consumes new_v4
          (uids_with (structural_key sha256 g) key (values g))
          (rows_of new_v4 (candidate_key sha256 (index_by_id [] candidates)) key rows)

-- Reconciliation keeps the candidates in order and gives no two of them one uid. The candidates of
-- one structural key take the uids of the committed nodes with this key from the first on, and
-- minted ones only after the last. This is when the minted uids differ from each other and from
-- those of the committed graph.
pub reconcile-IsReconciled :
    (sha256 : Str → Str) (new_v4 : ℕ → Str) (g : SourceGraph) (candidates : List CandidateNode)
    → IsStore g
    → ((i j : ℕ) → mint_node_uid new_v4 i ≡ mint_node_uid new_v4 j → i ≡ j)
    → ((i : ℕ) → BTreeMap.get (mint_node_uid new_v4 i) g ≡ none)
    → IsReconciled sha256 new_v4 g candidates (reconcile new_v4 sha256 g candidates)
unfolding reconcile
reconcile-IsReconciled sha256 new_v4 g candidates s new unused =
    let key_of = structural_key sha256 g in
    let key_in = candidate_key sha256 (index_by_id [] candidates) in
    let pool = fill_pool key_of [] (values g) in
    let filled : (key : StructuralKey) → pool_uids key pool ≡ uids_with key_of key (values g) =
      λ key. pool_uids-fill_pool key_of key [] (values g) in
    let held : IsPool key_of g pool = record {
      owned = λ key u c. owner key_of g key u s (sym (ap (λ x. contains x u) (filled key)) ∙ c);
      once = λ key. subst Distinct (sym (filled key)) (uids_with-Distinct key_of g key s);
    } in
    record {
      candidates_kept = assign_candidates key_of new_v4 g key_in 0 pool candidates;
      distinct = assign-Distinct key_of new_v4 g key_in new unused 0 pool candidates held;
      identified =
          All-imp (assign new_v4 key_in 0 pool candidates)
            (λ row r. elim r [
              | inl h ↦ inl (held.owned (key_in row.candidate) row.uid h)
              | inr (i, le, e) ↦ inr (i, e)
            ])
            (assign-FromPool key_of new_v4 g key_in 0 pool candidates);
      in_order = λ key.
          subst
            (λ us.
              Consumes new_v4 us
                (rows_of new_v4 key_in key (assign new_v4 key_in 0 pool candidates)))
            (filled key) (assign-Consumes new_v4 key_in key 0 pool candidates);
    }
