-- ===== src/Corpus/Examples/EntryPoints.antt =====
-- The theorem on the lifecycle entry point, applied to two revisions, a requirement and its reviews.
use evidence.Prelude.{
  ℕ, Str, codes, Option, [], ◌∷◌, ok, ◌≡◌, ◌↔◌, refl, str_ord, for_each, try_fold, filter_map,
  filter, contains,
}
use evidence.BTreeMap
use evidence.Corpus.Nodes.{RequirementNode, ReviewTarget, Node}
use evidence.Corpus.Graph.{
  CorpusGraph, get, supersedes_targets, reviews_for_requirement, superseded_review_uids,
}
use evidence.Corpus.Graph.Invariant.{IsWellFormed}
use evidence.Corpus.Graph.Supersession.Accepts.{IsChained}
use evidence.Corpus.ReviewContent.{review_content, from_node, review_content_digest_v1}
use evidence.Corpus.Lifecycle.{
  RequirementLifecycle, LifecycleEvaluation, evaluate_lifecycle_validated,
}
use evidence.Corpus.Lifecycle.Verdict.{Verdict}
use evidence.Corpus.Lifecycle.Evaluation.{IsEffective}
use evidence.Corpus.Lineage
use evidence.Corpus.Lineage.{validate_source_lineage}
use evidence.Corpus.Successors.{successors, push_successor, first_fork}
use evidence.Corpus.Walk.{walk, walk_all, next, push_all, weight, enough_fuel}
use evidence.Corpus.Graph.Validation.{validate_edges}
use evidence.Corpus.Graph.ReviewInvariants.{validate_review_nodes}
use evidence.Corpus.Graph.Supersession.{validate_review_supersession}
use evidence.Corpus.SourceValidation.{validate_source_graphs}
use evidence.Corpus.Validate.{validate, evaluate_lifecycle}
use evidence.Corpus.Validate.FailClosed.{evaluate_lifecycle-ok}
use evidence.Corpus.Examples.{demo, demo-IsWellFormed}

abbrev pub one_digest : Str → Str
one_digest bytes = codes "ab"

abbrev pub no_float : ℕ → Str
no_float bits = codes "0"

-- Without patches, which the example of the patch checks has.
abbrev reviewed : CorpusGraph
reviewed = record demo { source_patches = [] }

reviewed-IsWellFormed : IsWellFormed reviewed
reviewed-IsWellFormed = record {
  sorted = demo-IsWellFormed.sorted;
  keyed = demo-IsWellFormed.keyed;
  canonical = demo-IsWellFormed.canonical;
  unique_ids = demo-IsWellFormed.unique_ids;
}

abbrev approval : LifecycleEvaluation
approval = record {
  requirement_uid = codes "r1";
  state = RequirementLifecycle.approved;
  current_digest = codes "ab";
  effective_review_uids = codes "v2" ∷ [];
}

evaluated : evaluate_lifecycle one_digest no_float reviewed (codes "r1") ≡ ok approval
unfolding evaluate_lifecycle validate_edges for_each evidence.Corpus.Graph.Validation.check_edge
    BTreeMap.get evidence.Corpus.Nodes.new_requirement validate_review_nodes
    evidence.Corpus.Graph.ReviewInvariants.check_review validate_review_supersession try_fold
    supersedes_targets first_fork push_successor BTreeMap.insert successors walk_all filter_map
    filter contains walk enough_fuel push_all next weight validate_source_lineage Lineage.revisions
    Lineage.revisions_by_document Lineage.group_revisions Lineage.roots_of Lineage.heads_of
    Lineage.superseded_uids validate_source_graphs evaluate_lifecycle_validated review_content
    reviews_for_requirement superseded_review_uids review_content_digest_v1
evaluated = refl

evaluate_lifecycle-ok_example :
    (validate one_digest no_float reviewed ≡ ok tt)
    × IsChained reviewed
    × ((node : RequirementNode) × (get (codes "r1") reviewed ≡ Option.some (Node.requirement node))
        × (approval.current_digest ≡ review_content_digest_v1 one_digest (from_node node))
        × ((s : RequirementLifecycle)
            → (approval.state ≡ s)
              ↔ Verdict
                  (IsEffective reviewed (ReviewTarget.requirement (codes "r1")))
                  approval.current_digest
                  s))
evaluate_lifecycle-ok_example =
    evaluate_lifecycle-ok one_digest no_float reviewed (codes "r1") approval reviewed-IsWellFormed
      evaluated
