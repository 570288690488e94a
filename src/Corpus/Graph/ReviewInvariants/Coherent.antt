-- ===== src/Corpus/Graph/ReviewInvariants/Coherent.antt =====
-- What the review checks establish of a review's target.
use evidence.Prelude.{
  Str, true, List, [], ◌∷◌, ok, str_eq, str_eq_iff, str_ord, Bool-cases, ◌≡◌, inl, inr, sym, ap,
  ◌∙◌,
}
use evidence.Corpus.Nodes.{Node, ReviewNode, target_uid}
use evidence.Corpus.Graph.{CorpusGraph}
use evidence.Corpus.Graph.ReviewInvariants.{
  reviews_targets, kind_coherent, check_edge_target, check_targets, check_review,
}

check_edge_target-ok :
    (g : CorpusGraph) (r : ReviewNode) (t : Str)
    → check_edge_target g r t ≡ ok tt
    → kind_coherent g r.target (target_uid r.target) ≡ true
unfolding check_edge_target
check_edge_target-ok g r t h = elim (Bool-cases (str_eq t (target_uid r.target))) [
  | inr p ↦ absurd (cc (rw (check_edge_target, p) at h))
  | inl p ↦ elim (Bool-cases (kind_coherent g r.target t)) [
    | inl q ↦ ap (kind_coherent g r.target) (sym ((str_eq_iff t (target_uid r.target)).0 p)) ∙ q
    | inr q ↦ absurd (cc (rw (check_edge_target, p, q) at h))
  ]
]

check_targets-ok :
    (g : CorpusGraph) (r : ReviewNode) (ts : List Str)
    → check_targets g r ts ≡ ok tt
    → kind_coherent g r.target (target_uid r.target) ≡ true
unfolding check_targets
check_targets-ok g r [] h = absurd (cc)
check_targets-ok g r (t ∷ []) h = check_edge_target-ok g r t h
check_targets-ok g r (a ∷ b ∷ more) h = absurd (cc)

-- The target of an accepted review is what the review says it is.
pub check_review-kind_coherent :
    (g : CorpusGraph) (r : ReviewNode)
    → check_review g (Node.review r) ≡ ok tt
    → kind_coherent g r.target (target_uid r.target) ≡ true
unfolding check_review
check_review-kind_coherent g r h = check_targets-ok g r (reviews_targets r.edges) h
