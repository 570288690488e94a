-- ===== src/Corpus/AllLifecycles/Reviews.antt =====
-- The review targets that the evaluation of all uids checks again.
use evidence.Prelude.{
  true, Result, ok, for_each, ok-for_each, for_each-ok, All-of_mem, All-mem, str_ord, ◌≡◌, refl,
  arith,
}
use evidence.Corpus.Nodes.{ReviewNode, ReviewTarget, Node, target_uid}
use evidence.Corpus.Graph.{CorpusGraph, nodes_of}
use evidence.Corpus.Graph.ReviewInvariants.{kind_coherent, check_review, validate_review_nodes}
use evidence.Corpus.Graph.ReviewInvariants.Coherent.{check_review-kind_coherent}
use evidence.Corpus.AllLifecycles.{
  check_requirement_target, check_requirement_review, check_patch_target, check_patch_review,
}

module _ (g : CorpusGraph) where
  requirement_target :
      (r : ReviewNode) (t : ReviewTarget)
      → kind_coherent g t (target_uid t) ≡ true
      → check_requirement_target g r t ≡ ok tt
  unfolding check_requirement_target kind_coherent
  requirement_target r (ReviewTarget.requirement u) h = ground arith
  requirement_target r (ReviewTarget.curated_patch u) h = refl

  patch_target :
      (r : ReviewNode) (t : ReviewTarget)
      → kind_coherent g t (target_uid t) ≡ true
      → check_patch_target g r t ≡ ok tt
  unfolding check_patch_target kind_coherent
  patch_target r (ReviewTarget.requirement u) h = refl
  patch_target r (ReviewTarget.curated_patch u) h = ground arith

  pub requirement_review :
      (n : Node) → check_review g n ≡ ok tt → check_requirement_review g n ≡ ok tt
  unfolding check_requirement_review
  requirement_review (Node.requirement x) h = refl
  requirement_review (Node.test x) h = refl
  requirement_review (Node.source_revision x) h = refl
  requirement_review (Node.review r) h =
      requirement_target r r.target (check_review-kind_coherent g r h)

  pub patch_review : (n : Node) → check_review g n ≡ ok tt → check_patch_review g n ≡ ok tt
  unfolding check_patch_review
  patch_review (Node.requirement x) h = refl
  patch_review (Node.test x) h = refl
  patch_review (Node.source_revision x) h = refl
  patch_review (Node.review r) h = patch_target r r.target (check_review-kind_coherent g r h)

  -- A check that holds of every accepted node holds of all of them.
  pub each_review :
      {E : Type 0} (f : Node → Result E (Unit {0}))
      → ((n : Node) → check_review g n ≡ ok tt → f n ≡ ok tt)
      → validate_review_nodes g ≡ ok tt
      → for_each f (nodes_of g) ≡ ok tt
  unfolding validate_review_nodes
  each_review f h v = ok-for_each f (nodes_of g) (
      All-of_mem (λ n. f n ≡ ok tt) (nodes_of g)
        (λ n m. h n (
          All-mem (λ x. check_review g x ≡ ok tt) (nodes_of g) n
            (for_each-ok (check_review g) (nodes_of g) v) m)))
