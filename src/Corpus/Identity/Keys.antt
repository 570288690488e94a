-- ===== src/Corpus/Identity/Keys.antt =====
-- The keys of a graph that is ingested again.
use mathlib.Core.List.{map-append}
use mathlib.Core.Option
use evidence.Prelude.{
  ℕ, zero, suc, ◌+◌, Str, true, Option, none, some, List, [], ◌∷◌, ◌++◌, map, contains, str_ord,
  str_eq, str_eq_iff, All, ◌≡◌, ◌↔◌, refl, sym, ap, ◌∙◌, inl, inr, arith, Option-cases, Bool-cases,
}
use evidence.BTreeMap
use evidence.BTreeMap.{BTreeMap}
use evidence.Corpus.SourceNodes.{SourceLocator, SourceNode, SourceGraph, source_kind_eq_iff}
use evidence.Corpus.SourceValidation.Ancestry.{KeyedNodes}
use evidence.Corpus.Walk.{weight}
use evidence.Corpus.Identity.{
  StructuralKey, key_eq, CandidateNode, explicit_anchor, explicit_identity, node_tier,
  candidate_tier, below, fold_tier, fold_chain, climb, parents, structural_key, candidate_key,
  or_anchor, numbering_of,
}
use evidence.Corpus.Identity.Climb.{parents_enough}

pub key_eq_iff : (a b : StructuralKey) → (key_eq a b ≡ true) ↔ (a ≡ b)
unfolding key_eq
key_eq_iff (StructuralKey.explicit k a) (StructuralKey.explicit j b) =
    ground (arith, source_kind_eq_iff k j, str_eq_iff a b)
key_eq_iff (StructuralKey.position p k m) (StructuralKey.position q j n) =
    ground (arith, key_eq_iff p q, source_kind_eq_iff k j)
key_eq_iff (StructuralKey.fingerprint a) (StructuralKey.fingerprint b) =
    ground (arith, str_eq_iff a b)
key_eq_iff (StructuralKey.explicit k a) (StructuralKey.position q j n) = ground arith
key_eq_iff (StructuralKey.explicit k a) (StructuralKey.fingerprint b) = ground arith
key_eq_iff (StructuralKey.position p k m) (StructuralKey.explicit j b) = ground arith
key_eq_iff (StructuralKey.position p k m) (StructuralKey.fingerprint b) = ground arith
key_eq_iff (StructuralKey.fingerprint a) (StructuralKey.explicit j b) = ground arith
key_eq_iff (StructuralKey.fingerprint a) (StructuralKey.position q j n) = ground arith

-- A candidate that stands for the node: its text and its locator may have changed, and a name of
-- its own stands for each uid.
module _ (name : Str → Str) (edit : SourceNode → Str) (move : SourceNode → SourceLocator) where
  abbrev pub reingested : SourceNode → CandidateNode
  reingested n = record {
    provisional_id = name n.uid;
    parent_id = Option.map name n.parent_uid;
    kind = n.kind;
    ordinal = n.ordinal;
    label = n.label;
    canonical_text = edit n;
    locator = move n;
  }

  -- The index has the candidate of each node under the node's new name.
  abbrev pub IsRenamed : SourceGraph → BTreeMap Str CandidateNode → Type 0
  IsRenamed g m = (u : Str) → BTreeMap.get (name u) m ≡ Option.map reingested (BTreeMap.get u g)

  module _ (distinct : (u v : Str) → name u ≡ name v → u ≡ v) where
    contains-renamed :
        (visited : List Str) (u : Str) → contains (map name visited) (name u) ≡ contains visited u
    unfolding contains
    contains-renamed [] u = refl
    contains-renamed (v ∷ visited) u = elim (Bool-cases (str_eq v u)) [
      | inl p ↦
          let q : str_eq (name v) (name u) ≡ true =
            (str_eq_iff (name v) (name u)).1 (ap name ((str_eq_iff v u).0 p)) in
          rw (p, q) refl
      | inr p ↦ elim (Bool-cases (str_eq (name v) (name u))) [
        | inr q ↦ rw (p, q) (contains-renamed visited u)
        | inl q ↦
            let same = (str_eq_iff v u).1 (distinct v u ((str_eq_iff (name v) (name u)).0 q)) in
            absurd (cc (same, p))
      ]
    ]

    climb_same :
        (fuel : ℕ) (g : SourceGraph) (m : BTreeMap Str CandidateNode)
        → IsRenamed g m
        → (visited : List Str) (chain : List SourceNode) (current : Option Str)
        → climb
            (λ c. c.provisional_id)
            (λ c. c.parent_id)
            fuel
            m
            (map name visited)
            (map reingested chain)
            (Option.map name current)
          ≡ map reingested (climb (λ n. n.uid) (λ n. n.parent_uid) fuel g visited chain current)
    unfolding climb
    climb_same zero g m renamed visited chain current = refl
    climb_same (suc fuel) g m renamed visited chain none = refl
    climb_same (suc fuel) g m renamed visited chain (some uid) =
        elim (Option-cases (BTreeMap.get uid g)) [
          | inl p ↦ rw (climb, p, renamed uid ∙ ap (Option.map reingested) p) refl
          | inr (parent, p) ↦
              let q = renamed uid ∙ ap (Option.map reingested) p in
              let seen = contains-renamed visited parent.uid in
              elim (Bool-cases (contains visited parent.uid)) [
                | inl c ↦ rw (climb, p, q, seen, c) refl
                | inr c ↦
                    rw (climb, p, q, seen, c)
                      (rw (← map-append name visited (parent.uid ∷ [])) (
                        climb_same fuel g m renamed (visited ++ parent.uid ∷ []) (parent ∷ chain)
                          parent.parent_uid))
              ]
        ]

    same_parents :
        (g : SourceGraph) (m : BTreeMap Str CandidateNode) (n : SourceNode)
        → KeyedNodes g
        → All (λ e. e.1.provisional_id ≡ e.0) m
        → IsRenamed g m
        → parents (λ c. c.provisional_id) (λ c. c.parent_id) m (reingested n)
          ≡ map reingested (parents (λ n. n.uid) (λ n. n.parent_uid) g n)
    same_parents g m n keyed named renamed =
        let old = weight (λ x. x.uid ∷ []) g [] in
        let new = weight (λ c. c.provisional_id ∷ []) m [] in
        sym (
          parents_enough (λ c. c.provisional_id) (λ c. c.parent_id) m named (suc (old + new))
            (reingested n) (omega arith))
        ∙ climb_same (suc (old + new)) g m renamed (n.uid ∷ []) [] n.parent_uid
        ∙ ap (map reingested) (
            parents_enough (λ x. x.uid) (λ x. x.parent_uid) g keyed (suc (old + new)) n
              (omega arith))

  module _ (keeps : (n : SourceNode) → explicit_anchor (move n) ≡ explicit_anchor n.locator)
      (sha256 : Str → Str) where
    same_identity :
        (n : SourceNode) → explicit_identity n.label (move n) ≡ explicit_identity n.label n.locator
    unfolding explicit_identity
    same_identity n = ap (or_anchor (numbering_of n.label)) (keeps n)

    same_tier :
        (n : SourceNode) (key : Option StructuralKey)
        → fold_tier sha256 (candidate_tier (reingested n)) key ≡ fold_tier sha256 (node_tier n) key
    unfolding fold_tier
    same_tier n none = rw (fold_tier, same_identity n) refl
    same_tier n (some key) = rw (fold_tier, same_identity n) refl

    same_chain :
        (chain : List SourceNode) (key : Option StructuralKey)
        → fold_chain sha256 key (map candidate_tier (map reingested chain))
          ≡ fold_chain sha256 key (map node_tier chain)
    unfolding fold_chain
    same_chain [] key = refl
    same_chain (n ∷ chain) key =
        ap (λ k. fold_chain sha256 (some k) (map candidate_tier (map reingested chain)))
          (same_tier n key)
        ∙ same_chain chain (some (fold_tier sha256 (node_tier n) key))

    same_below :
        (n : SourceNode) (key : Option StructuralKey)
        → below sha256 (candidate_tier (reingested n)) key ≡ below sha256 (node_tier n) key
    same_below n none = refl
    same_below n (some key) = refl

    module _ (distinct : (u v : Str) → name u ≡ name v → u ≡ v) where
      -- The candidate of a node has the node's key, when its locator keeps the anchor.
      pub candidate_key-reingested :
          (g : SourceGraph) (m : BTreeMap Str CandidateNode) (n : SourceNode)
          → KeyedNodes g
          → All (λ e. e.1.provisional_id ≡ e.0) m
          → IsRenamed g m
          → candidate_key sha256 m (reingested n) ≡ structural_key sha256 g n
      unfolding candidate_key structural_key
      candidate_key-reingested g m n keyed named renamed =
          let chain = parents (λ n. n.uid) (λ n. n.parent_uid) g n in
          elim (Option-cases (explicit_identity n.label n.locator)) [
            | inr (anchor, p) ↦ rw (candidate_key, structural_key, same_identity n, p) refl
            | inl p ↦
                rw
                  (
                    candidate_key,
                    structural_key,
                    same_identity n,
                    p,
                    same_parents distinct g m n keyed named renamed,
                    same_chain chain none,
                  )
                  (same_below n (fold_chain sha256 none (map node_tier chain)))
          ]
