-- ===== src/Corpus/PatchApply/Untouched.antt =====
-- An accepted source graph already has the digests that the final pass computes.
use evidence.Prelude.{
  ℕ, zero, suc, Str, codes, true, false, Option, none, some, List, [], ◌∷◌, ◌++◌, ok, for_each,
  for_each-ok, >>=-eq-ok, >>-eq-ok, contains, contains-append, str_ord, ok_injective,
  some_injective, Option-cases, Bool-cases, ◌≡◌, inl, inr, refl, ap, ◌∙◌, arith,
}
use evidence.BTreeMap
use evidence.BTreeMap.{BTreeMap, values, IsSorted}
use evidence.BTreeMap.Laws.{eq_of_get, All-get}
use evidence.BTreeMap.Edits.{opt_map, update-IsSorted}
use evidence.Corpus.SourceNodes.{SourceNode, SourceGraph}
use evidence.Corpus.SourceValidation.{
  UidIndex, ancestors, ancestry_fuel, ancestry_inputs, walk_ancestry, content_digest, fingerprint,
  check_digest, check_parent, last_of, validate_node, validate_one_graph, validate_graph_standalone,
  own_index,
}
use evidence.Corpus.SourceValidation.Ancestry.{KeyedNodes}
use evidence.Corpus.SourceValidation.Tree.{ended-eq-ok, check_digest_lem}
use evidence.Corpus.PatchEdits.{
  pairs_from, ancestry_pairs, digest_updates, set_digests, apply_updates, recompute_node_digests,
}
use evidence.Corpus.PatchApply.Digests.{refreshed, get-recompute_node_digests}

-- Where the validator's walk ends at a root, the walk of `ancestry_pairs` reads the same ancestors.
pairs_of_walk :
    (revision_uid : Str) (g : SourceGraph) (index : UidIndex) (fuel : ℕ) (visited seen : List Str)
    (chain out : List SourceNode) (n : SourceNode)
    → ((u : Str) → contains seen u ≡ true → contains visited u ≡ true)
    → ancestors fuel revision_uid g index visited chain n ≡ some (ok out)
    → pairs_from fuel g seen (ancestry_inputs chain) n.parent_uid ≡ ancestry_inputs out
unfolding ancestors pairs_from contains
pairs_of_walk revision_uid g index zero visited seen chain out n sub h = absurd (cc)
pairs_of_walk revision_uid g index (suc fuel) visited seen chain out n sub h =
    elim (Option-cases n.parent_uid) [
      | inl e ↦ rw e (ap ancestry_inputs (ok_injective (some_injective (rw (e, ancestors) at h))))
      | inr (u, e) ↦ elim (Option-cases (BTreeMap.get u g)) [
        | inl q ↦ absurd (cc (some_injective (rw (e, q, ancestors) at h)))
        | inr (p, q) ↦ elim (Bool-cases (contains visited p.uid)) [
          | inl c ↦ absurd (cc (some_injective (rw (e, q, c, ancestors) at h)))
          | inr c ↦
              let fresh : contains seen p.uid ≡ false = ground (arith, sub p.uid) in
              rw (e, pairs_from, q, fresh)
                (pairs_of_walk revision_uid g index fuel (visited ++ p.uid ∷ [])
                  (seen ++ p.uid ∷ []) (p ∷ chain) out p
                  (λ v x. ground (
                    arith,
                    sub v,
                    contains-append visited (p.uid ∷ []) v,
                    contains-append seen (p.uid ∷ []) v,
                  ))
                  (rw (e, q, c, ancestors) at h))
        ]
      ]
    ]

module _ (sha256 : Str → Str) (revision_uid : Str) (g : SourceGraph) (index : UidIndex)
    (media_type : Str) where
  node_digests :
      (n : SourceNode)
      → validate_node sha256 revision_uid g index media_type n ≡ ok tt
      → refreshed sha256 g n ≡ n
  unfolding validate_node walk_ancestry ancestry_fuel ancestry_pairs
  node_digests n h =
      let (out, walked, rest) = >>=-eq-ok (walk_ancestry revision_uid g index n) _ h in
      let pairs =
        pairs_of_walk revision_uid g index (ancestry_fuel g) (n.uid ∷ []) [] [] out n
          (λ u x. absurd (unfold contains in cc)) (ended-eq-ok revision_uid n _ out walked) in
      let (parent, rest1) = >>-eq-ok (check_parent revision_uid n (last_of out)) _ rest in
      let (content, rest2) =
        >>-eq-ok
          (check_digest revision_uid n (codes "content_sha256")
            (content_digest sha256 n.kind n.canonical_text) n.content_sha256)
          _ rest1 in
      let (structure, media) =
        >>-eq-ok
          (check_digest revision_uid n (codes "fingerprint")
            (fingerprint sha256 n.kind n.label (ancestry_inputs out)) n.fingerprint)
          _ rest2 in
      let c = check_digest_lem revision_uid n _ _ _ content in
      let f =
        ap (fingerprint sha256 n.kind n.label) pairs
        ∙ check_digest_lem revision_uid n _ _ _ structure in
      ap (λ d. set_digests (d, fingerprint sha256 n.kind n.label (ancestry_pairs g n.parent_uid)) n)
        c
      ∙ ap (λ d. set_digests (n.content_sha256, d) n) f

opt_map_fixed :
    (f : SourceNode → SourceNode) (o : Option SourceNode)
    → ((n : SourceNode) → o ≡ some n → f n ≡ n)
    → opt_map f o ≡ o
opt_map_fixed f none h = refl
opt_map_fixed f (some n) h = ap some (h n refl)

apply_updates-IsSorted :
    (g : SourceGraph) (updates : BTreeMap Str (Str × Str))
    → IsSorted g
    → IsSorted (apply_updates g updates)
unfolding apply_updates
apply_updates-IsSorted g [] s = s
apply_updates-IsSorted g ((u, d) ∷ updates) s =
    apply_updates-IsSorted (BTreeMap.update (set_digests d) u g) updates
      (update-IsSorted (set_digests d) u g s)

pub recompute_node_digests-IsSorted :
    (sha256 : Str → Str) (g : SourceGraph) → IsSorted g → IsSorted (recompute_node_digests sha256 g)
unfolding recompute_node_digests
recompute_node_digests-IsSorted sha256 g s =
    apply_updates-IsSorted g (digest_updates sha256 g [] (values g)) s

-- In a source graph in the order of its keys, whose nodes stand under their uids and which
-- validates by itself, recomputing the digests changes nothing.
pub recompute_node_digests_fixed :
    (sha256 : Str → Str) (revision_uid media_type : Str) (g : SourceGraph)
    → IsSorted g
    → KeyedNodes g
    → validate_graph_standalone sha256 revision_uid media_type g ≡ ok tt
    → recompute_node_digests sha256 g ≡ g
unfolding validate_graph_standalone validate_one_graph
recompute_node_digests_fixed sha256 revision_uid media_type g s k h =
    let index = own_index revision_uid [] (values g) in
    let nodes =
      for_each-ok (validate_node sha256 revision_uid g index media_type) (values g)
        (>>-eq-ok (for_each (validate_node sha256 revision_uid g index media_type) (values g)) _
          h).0 in
    eq_of_get (recompute_node_digests sha256 g) g (recompute_node_digests-IsSorted sha256 g s) s
      (λ u.
        get-recompute_node_digests sha256 g u s k
        ∙ opt_map_fixed (refreshed sha256 g) (BTreeMap.get u g) (λ n e.
          node_digests sha256 revision_uid g index media_type n (
            All-get (λ x. validate_node sha256 revision_uid g index media_type x ≡ ok tt) u g n
              nodes e)))
