-- ===== src/Corpus/Lineage/Effective.antt =====
-- The contract of the lineage: what `validate_source_lineage` accepts, and what
-- `effective_source_heads` returns on it.
use mathlib.Core.List.{Memᴰ}
use evidence.Prelude.{
  Str, false, none, some, [], ok, try_fold, >>=-eq-ok, >>-eq-ok, str_ord, contains, ◌≡◌, ◌↔◌, inl,
  inr, refl, sym, ◌∙◌, subst, Option-cases, ap,
}
use evidence.BTreeMap
use evidence.BTreeMap.{BTreeMap}
use evidence.Corpus.Nodes.{Node, SourceRevisionNode}
use evidence.Corpus.Graph.{CorpusGraph, nodes_of}
use evidence.Corpus.Graph.Invariant.{IsWellFormed, keyed_get}
use evidence.Corpus.Graph.Validation.{validate_edges}
use evidence.Corpus.Lineage.{
  node_step, reject_forks, reject_cycles, reject_multiple_roots, reject_multiple_heads, revisions,
  superseded_uids, validate_source_lineage, effective_source_heads,
}
use evidence.Corpus.Lineage.Sound.{IsRevision}
use evidence.Corpus.Lineage.Members.{IsRevision-found, mem_revision}
use evidence.Corpus.Lineage.Heads.{IsLineage, IsHead, IsLineage-order, IsHead-exists}
use evidence.Corpus.Lineage.Unique.{heads_unique, collect_heads_sound, collect_heads_complete}

get_empty : (d : Str) → BTreeMap.get {V = Str} d [] ≡ none
unfolding BTreeMap.get
get_empty d = refl

module _ (g : CorpusGraph) (w : IsWellFormed g) (edges : validate_edges g ≡ ok tt)
    (lineage : validate_source_lineage g ≡ ok tt) where
  accepted : IsLineage g × (reject_multiple_heads g ≡ ok tt)
  unfolding validate_source_lineage
  accepted =
      let (m, folded, rest) = >>=-eq-ok (try_fold (node_step g) [] (nodes_of g)) _ lineage in
      let (forks, rest1) = >>-eq-ok (reject_forks m) _ rest in
      let (cycles, rest2) = >>-eq-ok (reject_cycles g) _ rest1 in
      let (roots, heads) = >>-eq-ok (reject_multiple_roots g) (reject_multiple_heads g) rest2 in
      (IsLineage-order g m folded cycles, heads)

  head_mem : (d u : Str) (h : IsHead g d u) → Memᴰ h.revision (revisions g)
  unfolding revisions
  head_mem d u h = mem_revision g.nodes u h.revision h.found

  head_uid : (d u : Str) (h : IsHead g d u) → h.revision.uid ≡ u
  head_uid d u h = keyed_get g u (Node.source_revision h.revision) w.keyed h.found

  head_current :
      (d u : Str) (h : IsHead g d u)
      → contains (superseded_uids (nodes_of g)) h.revision.uid ≡ false
  head_current d u h = rw (head_uid d u h) h.current

  same_head : (d u v : Str) → IsHead g d u → IsHead g d v → u ≡ v
  same_head d u v h k =
      sym (head_uid d u h)
      ∙ heads_unique g d h.revision k.revision accepted.1 (head_mem d u h) (head_mem d v k) h.key
          k.key (head_current d u h) (head_current d v k)
      ∙ head_uid d v k

  entry-IsHead : (d u : Str) → BTreeMap.get d (effective_source_heads g) ≡ some u → IsHead g d u
  unfolding effective_source_heads
  entry-IsHead d u h =
      elim (collect_heads_sound (superseded_uids (nodes_of g)) [] (revisions g) d u h) [
        | inr e ↦ absurd (cc (e, get_empty d))
        | inl (r, at_r, key, current, same) ↦ record {
          revision = r;
          found = subst (λ x. IsRevision g x r) same (IsRevision-found g r w at_r);
          key = key;
          current = subst (λ x. contains (superseded_uids (nodes_of g)) x ≡ false) same current;
        }
      ]

  IsHead-entry : (d u : Str) → IsHead g d u → BTreeMap.get d (effective_source_heads g) ≡ some u
  unfolding effective_source_heads
  IsHead-entry d u h =
      let there =
        collect_heads_complete (superseded_uids (nodes_of g)) [] (revisions g) h.revision
          (head_mem d u h) (head_current d u h) in
      elim (Option-cases (BTreeMap.get d (effective_source_heads g))) [
        | inl e ↦ absurd (cc (e, h.key, there))
        | inr (v, e) ↦ e ∙ ap some (same_head d v u (entry-IsHead d v e) h)
      ]

  -- In an accepted graph the heads map has exactly the heads: its entry for a document is a
  -- revision of the document that no edge supersedes, and every such revision is the entry.
  pub effective_source_heads_iff :
      (d u : Str) → (BTreeMap.get d (effective_source_heads g) ≡ some u) ↔ IsHead g d u
  effective_source_heads_iff d u = (entry-IsHead d u, IsHead-entry d u)

  -- In an accepted graph every document that has a revision has an entry in the heads map, and it
  -- is the only revision of the document that nothing supersedes.
  pub effective_source_heads_unique :
      (uid : Str) (r : SourceRevisionNode)
      → IsRevision g uid r
      → (h : Str) × (BTreeMap.get r.document_key (effective_source_heads g) ≡ some h)
        × ((v : Str) → IsHead g r.document_key v → v ≡ h)
  effective_source_heads_unique uid r e =
      let (h, is_head) = IsHead-exists g w edges accepted.0 r.document_key uid r e refl in
      (h, IsHead-entry r.document_key h is_head, λ v k. same_head r.document_key v h k is_head)
