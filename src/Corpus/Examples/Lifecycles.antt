-- ===== src/Corpus/Examples/Lifecycles.antt =====
-- The theorems on lifecycles, applied to the small corpus: the second review approves what the
-- first, superseded one rejected.
use evidence.Prelude.{Str, codes, Option, [], ◌∷◌, ok, ◌≡◌, ◌↔◌, refl, str_ord}
use mathlib.Core.List.{Memᴰ}
use evidence.BTreeMap
use evidence.Corpus.Nodes.{ReviewTarget, ReviewNode, Node}
use evidence.Corpus.Graph.{get, source_patch}
use evidence.Corpus.ReviewContent.{from_node, review_content_digest_v1}
use evidence.Corpus.Lifecycle.{
  RequirementLifecycle, LifecycleEvaluation, PatchLifecycleEvaluation, derive_state,
  evaluate_lifecycle_validated, evaluate_patch_lifecycle_validated,
}
use evidence.Corpus.Lifecycle.Verdict.{Verdict, derive_state_iff}
use evidence.Corpus.Lifecycle.Evaluation.{
  IsEffective, evaluate_lifecycle_validated_iff, evaluate_patch_lifecycle_validated_iff,
}
use evidence.Corpus.Examples.{demo, demo-IsWellFormed, hlr, patch, first_review, second_review}

-- A stand-in for SHA-256 that makes the second review bind the current content.
abbrev one_digest : Str → Str
one_digest bytes = codes "ab"

abbrev IsEither : ReviewNode → Type 0
IsEither r = Memᴰ r (first_review ∷ second_review ∷ [])

derive_state_iff_example :
    (derive_state (first_review ∷ second_review ∷ []) (codes "ab") ≡ RequirementLifecycle.rejected)
    ↔ Verdict IsEither (codes "ab") RequirementLifecycle.rejected
derive_state_iff_example =
    derive_state_iff IsEither (first_review ∷ second_review ∷ []) (λ r. ((λ m. m), (λ m. m)))
      (codes "ab") RequirementLifecycle.rejected

demo-hlr : get (codes "r1") demo ≡ Option.some (Node.requirement hlr)
unfolding BTreeMap.get
demo-hlr = refl

evaluate_lifecycle_validated_iff_example :
    (e : LifecycleEvaluation) × (evaluate_lifecycle_validated one_digest demo (codes "r1") ≡ ok e)
    × (e.requirement_uid ≡ codes "r1")
    × (e.current_digest ≡ review_content_digest_v1 one_digest (from_node hlr))
    × ((s : RequirementLifecycle)
        → (e.state ≡ s)
          ↔ Verdict (IsEffective demo (ReviewTarget.requirement (codes "r1"))) e.current_digest s)
evaluate_lifecycle_validated_iff_example =
    evaluate_lifecycle_validated_iff one_digest demo (codes "r1") hlr demo-IsWellFormed demo-hlr

demo-patch : source_patch (codes "p1") demo ≡ Option.some patch
unfolding BTreeMap.get
demo-patch = refl

evaluate_patch_lifecycle_validated_iff_example :
    (e : PatchLifecycleEvaluation) × (evaluate_patch_lifecycle_validated demo (codes "p1") ≡ ok e)
    × (e.patch_uid ≡ codes "p1")
    × (e.current_digest ≡ codes "ab")
    × ((s : RequirementLifecycle)
        → (e.state ≡ s)
          ↔ Verdict (IsEffective demo (ReviewTarget.curated_patch (codes "p1"))) e.current_digest s)
evaluate_patch_lifecycle_validated_iff_example =
    evaluate_patch_lifecycle_validated_iff demo (codes "p1") patch demo-IsWellFormed demo-patch
