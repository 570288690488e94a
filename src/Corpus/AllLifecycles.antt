-- ===== src/Corpus/AllLifecycles.antt =====
-- The evaluation of every requirement and every patch: `evaluate_all_lifecycles` of
-- crates/evidence-core/src/corpus/lifecycle.rs and `evaluate_all_patch_lifecycles` of
-- patch_lifecycle.rs.
pub mod Each
pub mod Reviews
pub mod Agree
use evidence.Prelude.{
  ℕ, Str, Option, none, some, List, [], ◌∷◌, Result, ok, err, ◌>>=◌, ◌>>◌, map_err, for_each,
  filter_map, str_ord, if◌then◌else◌,
}
use evidence.BTreeMap
use evidence.BTreeMap.{BTreeMap, keys}
use evidence.Corpus.Nodes.{ReviewNode, ReviewTarget, Node}
use evidence.Corpus.Graph.{CorpusGraph, get, nodes_of}
use evidence.Corpus.Graph.ReviewInvariants.{is_requirement}
use evidence.Corpus.Lifecycle.{
  LifecycleEvaluation, LifecycleError, PatchLifecycleEvaluation, PatchLifecycleError,
  evaluate_lifecycle_validated, evaluate_patch_lifecycle_validated,
}
use evidence.Corpus.Validate.{validate}

-- `for uid in uids { evaluations.insert(uid, evaluate(uid)?) }`
unfoldable pub evaluate_each :
    {E A : Type 0} → (Str → Result E A) → BTreeMap Str A → List Str → Result E (BTreeMap Str A)
evaluate_each evaluate evaluations [] = ok evaluations
evaluate_each evaluate evaluations (uid ∷ uids) = evaluate uid >>= λ evaluation.
    evaluate_each evaluate (BTreeMap.insert uid evaluation evaluations) uids

unfoldable pub check_requirement_target :
    CorpusGraph → ReviewNode → ReviewTarget → Result LifecycleError (Unit {0})
check_requirement_target g review (ReviewTarget.requirement requirement_uid) =
    if is_requirement (get requirement_uid g)
    then ok tt
    else err (LifecycleError.approval_targets_missing_requirement requirement_uid review.uid)
check_requirement_target g review (ReviewTarget.curated_patch patch_uid) = ok tt

unfoldable pub check_requirement_review : CorpusGraph → Node → Result LifecycleError (Unit {0})
unfolding check_requirement_target
check_requirement_review g (Node.review review) = check_requirement_target g review review.target
check_requirement_review g _ = ok tt

abbrev pub requirement_uid_of : Node → Option Str
requirement_uid_of (Node.requirement requirement) = some requirement.uid
requirement_uid_of _ = none

unfoldable pub evaluate_all_lifecycles :
    (Str → Str) → (ℕ → Str) → CorpusGraph → Result LifecycleError (BTreeMap Str LifecycleEvaluation)
unfolding check_requirement_review evaluate_each
evaluate_all_lifecycles sha256 show_float g =
    map_err LifecycleError.invalid_graph (validate sha256 show_float g)
    >> (for_each (check_requirement_review g) (nodes_of g)
        >> evaluate_each (evaluate_lifecycle_validated sha256 g) []
            (filter_map requirement_uid_of (nodes_of g)))

unfoldable pub check_patch_target :
    CorpusGraph → ReviewNode → ReviewTarget → Result PatchLifecycleError (Unit {0})
check_patch_target g review (ReviewTarget.requirement requirement_uid) = ok tt
check_patch_target g review (ReviewTarget.curated_patch patch_uid) =
    if BTreeMap.contains_key patch_uid g.source_patches
    then ok tt
    else err (PatchLifecycleError.review_targets_missing_patch patch_uid review.uid)

unfoldable pub check_patch_review : CorpusGraph → Node → Result PatchLifecycleError (Unit {0})
unfolding check_patch_target
check_patch_review g (Node.review review) = check_patch_target g review review.target
check_patch_review g _ = ok tt

unfoldable pub evaluate_all_patch_lifecycles :
    (Str → Str)
    → (ℕ → Str)
    → CorpusGraph
    → Result PatchLifecycleError (BTreeMap Str PatchLifecycleEvaluation)
unfolding check_patch_review evaluate_each
evaluate_all_patch_lifecycles sha256 show_float g =
    map_err PatchLifecycleError.invalid_graph (validate sha256 show_float g)
    >> (for_each (check_patch_review g) (nodes_of g)
        >> evaluate_each (evaluate_patch_lifecycle_validated g) [] (keys g.source_patches))
