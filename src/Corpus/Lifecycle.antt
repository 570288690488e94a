-- ===== src/Corpus/Lifecycle.antt =====
-- The lifecycles of requirements and of curated patches, on a graph that is already validated:
-- crates/evidence-core/src/corpus/lifecycle.rs and patch_lifecycle.rs.
pub mod Verdict
pub mod Evaluation
use evidence.Prelude.{
  Str, Bool, true, false, not, ◌&&◌, ◌||◌, Option, none, some, List, [], ◌∷◌, map, filter, contains,
  str_eq, Result, ok, err, if◌then◌else◌, codes,
}
use evidence.Corpus.Nodes.{ReviewDecision, ReviewNode}
use evidence.Corpus.SourcePatches.{SourcePatchRecord}
use evidence.Corpus.Errors.{CorpusError}
use evidence.Corpus.Graph.{
  CorpusGraph, source_patch, reviews_for_requirement, reviews_for_patch, superseded_review_uids,
}
use evidence.Corpus.ReviewContent.{
  RequirementReviewContentV1, review_content, review_content_digest_v1,
}

pub data RequirementLifecycle : Type 0 where
  candidate approved rejected stale : RequirementLifecycle

-- `RequirementLifecycle::as_str`
abbrev pub lifecycle_str : RequirementLifecycle → Str
lifecycle_str candidate = codes "candidate"
lifecycle_str approved = codes "approved"
lifecycle_str rejected = codes "rejected"
lifecycle_str stale = codes "stale"

pub record LifecycleEvaluation : Type 0 where
  pub requirement_uid : Str
  pub state : RequirementLifecycle
  pub current_digest : Str
  pub effective_review_uids : List Str

pub record PatchLifecycleEvaluation : Type 0 where
  pub patch_uid : Str
  pub state : RequirementLifecycle
  pub current_digest : Str
  pub effective_review_uids : List Str

pub data LifecycleError : Type 0 where
  invalid_graph : CorpusError → LifecycleError
  requirement_missing : (requirement_uid : Str) → LifecycleError
  approval_targets_missing_requirement : (requirement_uid review_uid : Str) → LifecycleError

pub data PatchLifecycleError : Type 0 where
  invalid_graph : CorpusError → PatchLifecycleError
  patch_missing : (patch_uid : Str) → PatchLifecycleError
  review_targets_missing_patch : (patch_uid review_uid : Str) → PatchLifecycleError

-- The three flags of `derive_state`'s loop.
pub record Flags : Type 0 where
  pub current_rejection : Bool
  pub current_approval : Bool
  pub older_approval : Bool

unfoldable pub note_decision : ReviewDecision → Bool → Flags → Flags
note_decision ReviewDecision.reject true f = record f { current_rejection = true }
note_decision ReviewDecision.approve true f = record f { current_approval = true }
note_decision ReviewDecision.approve false f = record f { older_approval = true }
note_decision ReviewDecision.reject false f = f

unfoldable pub note_heads : Str → Flags → List ReviewNode → Flags
unfolding note_decision
note_heads digest f [] = f
note_heads digest f (head ∷ heads) =
    let binds_current = str_eq head.reviewed_content_sha256 digest in
    note_heads digest (note_decision head.decision binds_current f) heads

unfoldable pub state_of : Flags → RequirementLifecycle
state_of f =
    if f.current_rejection
    then RequirementLifecycle.rejected
    else if f.current_approval
    then RequirementLifecycle.approved
    else if f.older_approval
    then RequirementLifecycle.stale
    else RequirementLifecycle.candidate

abbrev pub no_flags : Flags
no_flags = record { current_rejection = false; current_approval = false; older_approval = false }

unfoldable pub derive_state : List ReviewNode → Str → RequirementLifecycle
unfolding note_heads state_of
derive_state heads digest = state_of (note_heads digest no_flags heads)

-- The reviews that no review supersedes.
unfoldable pub effective : CorpusGraph → List ReviewNode → List ReviewNode
effective g = filter (λ review. not (contains (superseded_review_uids g) review.uid))

abbrev pub review_uids : List ReviewNode → List Str
review_uids = map (λ review. review.uid)

unfoldable pub missing_requirement_error : CorpusGraph → Str → LifecycleError
missing_requirement_error g uid = elim (reviews_for_requirement g uid) [
  | [] ↦ LifecycleError.requirement_missing uid
  | review ∷ rest ↦ LifecycleError.approval_targets_missing_requirement uid review.uid
]

unfoldable pub evaluate_lifecycle_validated :
    (Str → Str) → CorpusGraph → Str → Result LifecycleError LifecycleEvaluation
unfolding derive_state effective missing_requirement_error
evaluate_lifecycle_validated sha256 g uid = elim (review_content g uid) [
  | none ↦ err (missing_requirement_error g uid)
  | some content ↦
      let current_digest = review_content_digest_v1 sha256 content in
      let heads = effective g (reviews_for_requirement g uid) in
      ok (record {
        requirement_uid = uid;
        state = derive_state heads current_digest;
        current_digest = current_digest;
        effective_review_uids = review_uids heads;
      })
]

unfoldable pub missing_patch_error : CorpusGraph → Str → PatchLifecycleError
missing_patch_error g uid = elim (reviews_for_patch g uid) [
  | [] ↦ PatchLifecycleError.patch_missing uid
  | review ∷ rest ↦ PatchLifecycleError.review_targets_missing_patch uid review.uid
]

unfoldable pub evaluate_patch_lifecycle_validated :
    CorpusGraph → Str → Result PatchLifecycleError PatchLifecycleEvaluation
unfolding derive_state effective missing_patch_error
evaluate_patch_lifecycle_validated g uid = elim (source_patch uid g) [
  | none ↦ err (missing_patch_error g uid)
  | some patch ↦
      let heads = effective g (reviews_for_patch g uid) in
      ok (record {
        patch_uid = uid;
        state = derive_state heads patch.reviewed_content_digest;
        current_digest = patch.reviewed_content_digest;
        effective_review_uids = review_uids heads;
      })
]
