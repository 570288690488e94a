-- ===== src/Corpus/Identity/Unchanged.antt =====
-- A graph that is ingested again keeps its identities.
use evidence.Prelude.{
  ℕ, Str, List, [], ◌∷◌, ◌++◌, map, contains, All, some, some_injective, true, str_eq, str_eq_iff,
  str_ord, ◌≡◌, refl, sym, ap, ◌∙◌, arith, Bool-cases, inl, inr, if◌then◌else◌,
}
use mathlib.Core.List.{append_assoc, append-nil}
use evidence.BTreeMap
use evidence.BTreeMap.{values}
use evidence.Corpus.SourceValidation.Ancestry.{KeyedNodes}
use evidence.Corpus.Identity.Presented.{InGraph, uids, index_by_id-named, index_by_id-IsRenamed}
use evidence.Corpus.SourceNodes.{SourceLocator, SourceNode, SourceGraph}
use evidence.Corpus.PatchApply.Invariant.{IsStore}
use evidence.Corpus.Identity.{
  StructuralKey, key_eq, CandidateNode, ReconciledNode, explicit_anchor, structural_key,
  candidate_key, Pool, pool_uids, pool_push, pool_set, fill_pool, index_by_id, assign, reconcile,
}
use evidence.Corpus.Identity.Keys.{key_eq_iff, reingested, candidate_key-reingested}

pub pool_uids-push :
    (k j : StructuralKey) (uid : Str) (pool : Pool)
    → pool_uids j (pool_push k uid pool)
      ≡ (if key_eq j k then pool_uids j pool ++ (uid ∷ []) else pool_uids j pool)
unfolding pool_uids pool_push
pool_uids-push k j uid [] = refl
pool_uids-push k j uid ((i, uids) ∷ pool) =
    ground (arith, pool_uids-push k j uid pool, key_eq_iff j k, key_eq_iff k i, key_eq_iff j i)

-- The key has an entry, when it has uids.
pub pool_uids-set :
    (k j : StructuralKey) (uid : Str) (uids left : List Str) (pool : Pool)
    → pool_uids k pool ≡ uid ∷ uids
    → pool_uids j (pool_set k left pool) ≡ (if key_eq j k then left else pool_uids j pool)
unfolding pool_uids pool_set
pool_uids-set k j uid uids left [] h = absurd (cc)
pool_uids-set k j uid uids left ((i, other) ∷ pool) h =
    ground
      (arith, pool_uids-set k j uid uids left pool, key_eq_iff j k, key_eq_iff k i, key_eq_iff j i)

module _ (key_of : SourceNode → StructuralKey) where
  -- The uids of the nodes that have the key, in order.
  abbrev pub uids_with : StructuralKey → List SourceNode → List Str
  uids_with key [] = []
  uids_with key (n ∷ nodes) =
      if key_eq key (key_of n) then n.uid ∷ uids_with key nodes else uids_with key nodes

  pub pool_uids-fill_pool :
      (key : StructuralKey) (pool : Pool) (nodes : List SourceNode)
      → pool_uids key (fill_pool key_of pool nodes) ≡ pool_uids key pool ++ uids_with key nodes
  unfolding fill_pool
  pool_uids-fill_pool key pool [] = sym (append-nil (pool_uids key pool))
  pool_uids-fill_pool key pool (n ∷ nodes) =
      let rest = pool_uids-fill_pool key (pool_push (key_of n) n.uid pool) nodes in
      let pushed = pool_uids-push (key_of n) key n.uid pool in
      elim (Bool-cases (key_eq key (key_of n))) [
        | inl p ↦
            rest
            ∙ rw (pushed, p) (append_assoc (pool_uids key pool) (n.uid ∷ []) (uids_with key nodes))
        | inr p ↦ rest ∙ rw (pushed, p) refl
      ]

  module _ (new_v4 : ℕ → Str) (candidate_of : SourceNode → CandidateNode)
      (key_in : CandidateNode → StructuralKey)
      (same : (n : SourceNode) → key_in (candidate_of n) ≡ key_of n) where
    abbrev kept : SourceNode → ReconciledNode
    kept n = record { uid = n.uid; candidate = candidate_of n }

    assign_kept :
        (m : ℕ) (pool : Pool) (nodes : List SourceNode)
        → ((key : StructuralKey) → pool_uids key pool ≡ uids_with key nodes)
        → assign new_v4 key_in m pool (map candidate_of nodes) ≡ map kept nodes
    unfolding assign
    assign_kept m pool [] h = refl
    assign_kept m pool (n ∷ nodes) h =
        let own = (key_eq_iff (key_of n) (key_of n)).1 refl in
        let first : pool_uids (key_in (candidate_of n)) pool ≡ n.uid ∷ uids_with (key_of n) nodes =
          ap (λ k. pool_uids k pool) (same n) ∙ h (key_of n) ∙ rw own refl in
        rw (assign, first)
          (ap (λ rows. kept n ∷ rows)
            (assign_kept m (pool_set (key_in (candidate_of n)) (uids_with (key_of n) nodes) pool)
              nodes
              (λ key.
                let left =
                  pool_uids-set (key_in (candidate_of n)) key n.uid (uids_with (key_of n) nodes)
                    (uids_with (key_of n) nodes) pool first in
                let at_key = ap (λ k. key_eq key k) (same n) in
                elim (Bool-cases (key_eq key (key_of n))) [
                  | inl p ↦
                      left
                      ∙ rw (at_key, p)
                          (ap (λ k. uids_with k nodes) (sym ((key_eq_iff key (key_of n)).0 p)))
                  | inr p ↦ left ∙ rw (at_key, p) (h key ∙ rw p refl)
                ])))

module _ (key_of : SourceNode → StructuralKey) where
  uids_with-uids :
      (key : StructuralKey) (u : Str) (nodes : List SourceNode)
      → contains (uids_with key_of key nodes) u ≡ true
      → contains (uids nodes) u ≡ true
  unfolding contains
  uids_with-uids key u [] h = h
  uids_with-uids key u (n ∷ nodes) h = ground (arith, uids_with-uids key u nodes)

  uids_with-own :
      (u : Str) (n : SourceNode) (g : SourceGraph)
      → KeyedNodes g
      → BTreeMap.get u g ≡ some n
      → contains (uids_with key_of (key_of n) (values g)) u ≡ true
  unfolding contains BTreeMap.get
  uids_with-own u n [] k h = absurd (cc)
  uids_with-own u n ((j, x) ∷ g) k h = elim (Bool-cases (str_eq u j)) [
    | inl p ↦
        let same : n ≡ x = some_injective (sym (rw (p, BTreeMap.get) at h)) in
        let own : key_eq (key_of n) (key_of x) ≡ true =
          (key_eq_iff (key_of n) (key_of x)).1 (ap key_of same) in
        let here : str_eq x.uid u ≡ true =
          ground (arith, str_eq_iff x.uid u, str_eq_iff u j, k.0) in
        rw (own, here) refl
    | inr p ↦
        let rest = uids_with-own u n g k.1 (rw (p, BTreeMap.get) at h) in
        elim (Bool-cases (key_eq (key_of n) (key_of x))) [
          | inr q ↦ rw q rest
          | inl q ↦ rw q (ground arith)
        ]
  ]

-- A committed graph is ingested again: its nodes come in the order of `nodes`, with any texts and
-- diagnostic positions, under names of their own, where no two uids have one name. Each candidate
-- gets the uid of the node that it stands for, when the anchors, kinds, labels, parents and ordinals
-- are as they were and the nodes of each structural key come once each, in the order of their uids.
pub reconcile_same :
    (sha256 : Str → Str) (new_v4 : ℕ → Str) (g : SourceGraph) (name : Str → Str)
    (edit : SourceNode → Str) (move : SourceNode → SourceLocator) (nodes : List SourceNode)
    → IsStore g
    → ((u v : Str) → name u ≡ name v → u ≡ v)
    → ((n : SourceNode) → explicit_anchor (move n) ≡ explicit_anchor n.locator)
    → All (InGraph g) nodes
    → ((key : StructuralKey)
        → uids_with (structural_key sha256 g) key nodes
          ≡ uids_with (structural_key sha256 g) key (values g))
    → reconcile new_v4 sha256 g (map (reingested name edit move) nodes)
      ≡ map (λ n. record { uid = n.uid; candidate = reingested name edit move n }) nodes
unfolding reconcile
reconcile_same sha256 new_v4 g name edit move nodes s distinct keeps held order =
    let key_of = structural_key sha256 g in
    let index = index_by_id [] (map (reingested name edit move) nodes) in
    let renamed = index_by_id-IsRenamed name edit move distinct g nodes held (λ u n at_n.
      uids_with-uids key_of (key_of n) u nodes
        (ap (λ us. contains us u) (order (key_of n)) ∙ uids_with-own key_of u n g s.1 at_n)) in
    assign_kept key_of new_v4 (reingested name edit move) (candidate_key sha256 index)
      (λ n.
        candidate_key-reingested name edit move keeps sha256 distinct g index n s.1
          (index_by_id-named [] (map (reingested name edit move) nodes) tt) renamed)
      0 (fill_pool key_of [] (values g)) nodes
      (λ key. pool_uids-fill_pool key_of key [] (values g) ∙ sym (order key))
