-- ===== src/Corpus/Validate/FailClosed.antt =====
-- What a successful evaluation says of the graph.
use evidence.Prelude.{
  ℕ, Str, some, ok, ok_injective, map_err, map_err-eq-ok, >>-eq-ok, Option-cases, ◌≡◌, ◌↔◌, sym,
  ◌∙◌, subst, inl, inr,
}
use evidence.Corpus.Nodes.{RequirementNode, ReviewTarget, Node}
use evidence.Corpus.Errors.{CorpusError}
use evidence.Corpus.Graph.{CorpusGraph, get}
use evidence.Corpus.Graph.Invariant.{IsWellFormed}
use evidence.Corpus.Graph.Supersession.Accepts.{IsChained, validate_review_supersession-IsChained}
use evidence.Corpus.Graph.Validation.{validate_edges}
use evidence.Corpus.Graph.ReviewInvariants.{validate_review_nodes}
use evidence.Corpus.Graph.Supersession.{validate_review_supersession}
use evidence.Corpus.ReviewContent.{review_content, from_node, review_content_digest_v1}
use evidence.Corpus.Lifecycle.{
  RequirementLifecycle, LifecycleEvaluation, LifecycleError, evaluate_lifecycle_validated,
}
use evidence.Corpus.Lifecycle.Verdict.{Verdict}
use evidence.Corpus.Lifecycle.Evaluation.{IsEffective, evaluate_lifecycle_validated_iff}
use evidence.Corpus.Validate.{validate, evaluate_lifecycle}

pub requirement_of :
    (sha256 : Str → Str) (g : CorpusGraph) (uid : Str) (e : LifecycleEvaluation)
    → evaluate_lifecycle_validated sha256 g uid ≡ ok e
    → (node : RequirementNode) × (get uid g ≡ some (Node.requirement node))
unfolding evaluate_lifecycle_validated review_content
requirement_of sha256 g uid e h = elim (Option-cases (get uid g)) [
  | inl p ↦ absurd (cc (rw (p, evaluate_lifecycle_validated, review_content) at h))
  | inr (Node.requirement node, p) ↦ (node, p)
  | inr (Node.test _, p) ↦ absurd (cc (rw (p, evaluate_lifecycle_validated, review_content) at h))
  | inr (Node.review _, p) ↦ absurd (cc (rw (p, evaluate_lifecycle_validated, review_content) at h))
  | inr (Node.source_revision _, p) ↦
      absurd (cc (rw (p, evaluate_lifecycle_validated, review_content) at h))
]

-- The supersession chains of a graph that passes `validate` are in order.
validate-IsChained :
    (sha256 : Str → Str) (show_float : ℕ → Str) (g : CorpusGraph)
    → IsWellFormed g
    → validate sha256 show_float g ≡ ok tt
    → IsChained g
unfolding validate
validate-IsChained sha256 show_float g w h =
    let (edges, rest) = >>-eq-ok (validate_edges g) _ h in
    let (reviews, rest1) = >>-eq-ok (map_err CorpusError.review (validate_review_nodes g)) _ rest in
    let (chains, rest2) =
      >>-eq-ok (map_err CorpusError.review (validate_review_supersession g)) _ rest1 in
    validate_review_supersession-IsChained g w.keyed
      (map_err-eq-ok CorpusError.review (validate_review_supersession g) chains)

-- When the lifecycle of a uid is evaluated on a well-formed graph with success, the whole graph
-- validates, its review chains are in order, the uid is a requirement, and the state is the row of
-- the truth table that the requirement's unsuperseded reviews satisfy for its current digest.
pub evaluate_lifecycle-ok :
    (sha256 : Str → Str) (show_float : ℕ → Str) (g : CorpusGraph) (uid : Str)
    (e : LifecycleEvaluation)
    → IsWellFormed g
    → evaluate_lifecycle sha256 show_float g uid ≡ ok e
    → (validate sha256 show_float g ≡ ok tt)
      × IsChained g
      × ((node : RequirementNode) × (get uid g ≡ some (Node.requirement node))
          × (e.current_digest ≡ review_content_digest_v1 sha256 (from_node node))
          × ((s : RequirementLifecycle)
              → (e.state ≡ s)
                ↔ Verdict (IsEffective g (ReviewTarget.requirement uid)) e.current_digest s))
unfolding evaluate_lifecycle
evaluate_lifecycle-ok sha256 show_float g uid e w h =
    let (valid, evaluated) =
      >>-eq-ok (map_err LifecycleError.invalid_graph (validate sha256 show_float g)) _ h in
    let accepted =
      map_err-eq-ok LifecycleError.invalid_graph (validate sha256 show_float g) valid in
    let (node, found) = requirement_of sha256 g uid e evaluated in
    let (e', run, named, digest, table) =
      evaluate_lifecycle_validated_iff sha256 g uid node w found in
    let same : e' ≡ e = ok_injective (sym run ∙ evaluated) in
    (
      accepted,
      validate-IsChained sha256 show_float g w accepted,
      (
        node,
        found,
        subst (λ x. x.current_digest ≡ review_content_digest_v1 sha256 (from_node node)) same
            digest,
        subst
            (λ x.
              (s : RequirementLifecycle)
              → (x.state ≡ s)
                ↔ Verdict (IsEffective g (ReviewTarget.requirement uid)) x.current_digest s)
            same table,
      ),
    )
