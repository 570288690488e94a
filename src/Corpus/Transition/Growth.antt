-- ===== src/Corpus/Transition/Growth.antt =====
-- How far one transition may grow a document.
use evidence.Prelude.{
  ℕ, Str, true, Option, none, some, List, [], ◌∷◌, ok, try_fold, >>=-eq-ok, >>-eq-ok, str_ord,
  str_eq, str_eq_refl, contains, ◌≡◌, refl, sym, ap, subst, ◌∙◌,
}
use evidence.BTreeMap
use evidence.Corpus.Nodes.{Node, SourceRevisionNode}
use evidence.Corpus.Graph.{CorpusGraph, get, nodes_of, supersedes_targets}
use evidence.Corpus.Graph.Invariant.{IsWellFormed, keyed_get}
use evidence.BTreeMap.Laws.{All-get}
use evidence.Corpus.Successors.{SupersededBy, successors, first_fork}
use evidence.Corpus.Successors.Laws.{unforked}
use evidence.Corpus.Lineage.{
  node_step, fork_result, reject_forks, head_of, supersedes_target, effective_source_heads,
  validate_source_lineage,
}
use evidence.Corpus.Lineage.Sound.{IsRevision, NodeGood, EdgeAgrees, collected, supersedes_edge}
use evidence.Corpus.Lineage.Effective.{effective_source_heads_iff, effective_source_heads_unique}
use evidence.Corpus.Validate.Parts.{validate-IsAccepted}
use evidence.Corpus.Transition.{validate_source_transition}
use evidence.Corpus.Transition.Extension.{validate_source_transition_iff}

fork_result-eq-ok : (o : Option (Str × Str × Str)) → fork_result o ≡ ok tt → o ≡ none
fork_result-eq-ok none h = refl
fork_result-eq-ok (some (p, a, b)) h = absurd (cc)

contains-head_of : (us : List Str) (u : Str) → head_of us ≡ some u → contains us u ≡ true
unfolding contains
contains-head_of [] u h = absurd (cc)
contains-head_of (x ∷ us) u h =
    let same : x ≡ u = cc in rw (ap (λ y. str_eq y u) same ∙ str_eq_refl u) refl

points_at :
    (r : SourceRevisionNode) (h : Str)
    → supersedes_target r ≡ some h
    → contains (supersedes_targets r.edges) h ≡ true
unfolding supersedes_target
points_at r h e = contains-head_of (supersedes_targets r.edges) h e

-- In an accepted lineage one revision has at most one successor.
module _ (g : CorpusGraph) (w : IsWellFormed g) (lineage : validate_source_lineage g ≡ ok tt) where
  links :
      (m : SupersededBy) × (try_fold (node_step g) [] (nodes_of g) ≡ ok m) × (first_fork m ≡ none)
  unfolding validate_source_lineage reject_forks
  links =
      let (m, folded, rest) = >>=-eq-ok (try_fold (node_step g) [] (nodes_of g)) _ lineage in
      (m, folded, fork_result-eq-ok (first_fork m) (>>-eq-ok (reject_forks m) _ rest).0)

  recorded :
      (u h : Str) (r p : SourceRevisionNode)
      → IsRevision g u r
      → IsRevision g h p
      → supersedes_target r ≡ some h
      → contains (successors h links.0) r.uid ≡ true
  recorded u h r p e f points =
      let good =
        All-get (NodeGood g links.0) u g.nodes (Node.source_revision r)
          (collected g links.0 links.1) e in
      let agrees =
        subst (EdgeAgrees r links.0) f
          (supersedes_edge g r links.0 r.edges h good.1 (points_at r h points)).1 in
      subst (λ x. contains (successors x links.0) r.uid ≡ true)
        (keyed_get g h (Node.source_revision p) w.keyed f) agrees.1

  pub one_successor :
      (u v h : Str) (r s p : SourceRevisionNode)
      → IsRevision g u r
      → IsRevision g v s
      → IsRevision g h p
      → supersedes_target r ≡ some h
      → supersedes_target s ≡ some h
      → u ≡ v
  one_successor u v h r s p at_r at_s at_p rh sh =
      sym (keyed_get g u (Node.source_revision r) w.keyed at_r)
      ∙ unforked links.0 h r.uid s.uid links.2 (recorded u h r p at_r at_p rh)
          (recorded v h s p at_s at_p sh)
      ∙ keyed_get g v (Node.source_revision s) w.keyed at_s

-- One accepted transition between well-formed graphs adds at most one revision to a document of
-- which the prior graph has a revision: two revisions of it that are new are the same.
pub validate_source_transition-at_most_one :
    (sha256 : Str → Str) (show_float : ℕ → Str) (prior proposed : CorpusGraph)
    → IsWellFormed prior
    → IsWellFormed proposed
    → validate_source_transition sha256 show_float prior proposed ≡ ok tt
    → (old u v : Str) (p r s : SourceRevisionNode) → IsRevision prior old p
    → IsRevision proposed u r
    → IsRevision proposed v s
    → get u prior ≡ none
    → get v prior ≡ none
    → r.document_key ≡ p.document_key
    → s.document_key ≡ p.document_key
    → u ≡ v
validate_source_transition-at_most_one sha256 show_float prior proposed w w' h old u v p r s at_p
      at_r at_s new_r new_s same_r same_s =
    let x = (validate_source_transition_iff prior proposed w w' sha256 show_float).0 h in
    let before = validate-IsAccepted sha256 show_float prior x.prior_valid in
    let after = validate-IsAccepted sha256 show_float proposed x.proposed_valid in
    let (head, entry, only) =
      effective_source_heads_unique prior w before.edges before.lineage old p at_p in
    let is_head =
      (effective_source_heads_iff prior w before.edges before.lineage p.document_key head).0
        entry in
    let (kept, at_kept, same) = x.retained head is_head.revision is_head.found in
    let key = λ (d : Str) (e : d ≡ p.document_key).
      ap (λ k. BTreeMap.get k (effective_source_heads prior)) e ∙ entry in
    one_successor proposed w' after.lineage u v head r s kept at_r at_s at_kept
      (x.extended u r at_r new_r head (key r.document_key same_r))
      (x.extended v s at_s new_s head (key s.document_key same_s))
