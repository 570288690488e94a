-- ===== src/Corpus/ApprovalBoundary.antt =====
-- The gate on implementation and verification claims:
-- crates/evidence-core/src/corpus/approval_boundary.rs. SHA-256 and the printing of floats are
-- parameters.
pub mod Claims
pub mod Targets
pub mod Rounds
pub mod Backed
use evidence.Prelude.{
  ℕ, ltb, ◌==◌, Str, Bool, true, false, not, ◌&&◌, ◌||◌, Option, none, some, List, [], ◌∷◌, ◌++◌,
  Result, ok, err, ◌>>=◌, map_err, for_each, str_eq, str_lt, str_ord, if◌then◌else◌,
}
use evidence.BTreeMap
use evidence.BTreeMap.{BTreeMap, values}
use evidence.Corpus.Nodes.{EdgeKind, Edge, edge_kind_eq, Node, node_id, RequirementNode, TestNode}
use evidence.Corpus.SourceNodes.{SourceGraph}
use evidence.Corpus.SourcePatches.{SourcePatchRecord, SourcePatchError}
use evidence.Corpus.Graph.{
  CorpusGraph, RequirementMetadata, TraceMetadata, get, nodes_of, source_graph,
}
use evidence.Corpus.Lifecycle.{
  RequirementLifecycle, LifecycleEvaluation, LifecycleError, PatchLifecycleEvaluation,
  PatchLifecycleError,
}
use evidence.Corpus.Validate.{graph_or_empty}
use evidence.Corpus.AllLifecycles.{evaluate_all_lifecycles, evaluate_all_patch_lifecycles}
use evidence.Corpus.PatchApply.{PatchBindings, PatchApplication, apply_patch}
use evidence.Corpus.EffectiveGraph.{is_approved}

pub data LifecycleEnforcement : Type 0 where
  required : LifecycleEnforcement

pub data ReferringArtifact : Type 0 where
  test : (test_uid test_id : Str) → ReferringArtifact
  implementation_modules : (modules : List Str) → ReferringArtifact
  emitted_diagnostics : (codes : List Str) → ReferringArtifact

pub record ApprovalBoundaryViolation : Type 0 where
  pub requirement_uid : Str
  pub requirement_id : Str
  pub state : RequirementLifecycle
  pub referring : ReferringArtifact

pub data ApprovalBoundaryError : Type 0 where
  violations : List ApprovalBoundaryViolation → ApprovalBoundaryError
  lifecycle : LifecycleError → ApprovalBoundaryError
  invariant_missing_evaluation : (requirement_uid : Str) → ApprovalBoundaryError
  patch_lifecycle : PatchLifecycleError → ApprovalBoundaryError
  effective_curated_content : (patch_uid : Str) (source : SourcePatchError) → ApprovalBoundaryError
  invariant_missing_patch_evaluation : (patch_uid : Str) → ApprovalBoundaryError

-- The derived `Ord` of the artifacts: by the order of declaration, then field by field.
abbrev pub strs_lt : List Str → List Str → Bool
strs_lt xs [] = false
strs_lt [] (y ∷ ys) = true
strs_lt (x ∷ xs) (y ∷ ys) = str_lt x y || (str_eq x y && strs_lt xs ys)

abbrev pub artifact_lt : ReferringArtifact → ReferringArtifact → Bool
artifact_lt (ReferringArtifact.test u i) (ReferringArtifact.test v j) =
    str_lt u v || (str_eq u v && str_lt i j)
artifact_lt (ReferringArtifact.test u i) _ = true
artifact_lt (ReferringArtifact.implementation_modules xs) (ReferringArtifact.test v j) = false
artifact_lt (ReferringArtifact.implementation_modules xs)
      (ReferringArtifact.implementation_modules ys) =
    strs_lt xs ys
artifact_lt (ReferringArtifact.implementation_modules xs)
      (ReferringArtifact.emitted_diagnostics ys) =
    true
artifact_lt (ReferringArtifact.emitted_diagnostics xs) (ReferringArtifact.emitted_diagnostics ys) =
    strs_lt xs ys
artifact_lt (ReferringArtifact.emitted_diagnostics xs) _ = false

abbrev pub violation_lt : ApprovalBoundaryViolation → ApprovalBoundaryViolation → Bool
violation_lt v w =
    str_lt v.requirement_uid w.requirement_uid
    || (str_eq v.requirement_uid w.requirement_uid && artifact_lt v.referring w.referring)

-- `sort_by`, which is stable.
unfoldable pub place :
    ApprovalBoundaryViolation → List ApprovalBoundaryViolation → List ApprovalBoundaryViolation
place v [] = v ∷ []
place v (w ∷ ws) = if violation_lt w v then w ∷ place v ws else v ∷ w ∷ ws

unfoldable pub sort_violations : List ApprovalBoundaryViolation → List ApprovalBoundaryViolation
unfolding place
sort_violations [] = []
sort_violations (v ∷ vs) = place v (sort_violations vs)

-- A loop that pushes what each round finds, and leaves at the first error.
module _ {A B E : Type 0} where
  unfoldable pub collect : (A → Result E (List B)) → List A → Result E (List B)
  collect f [] = ok []
  collect f (x ∷ xs) = f x >>= λ found. collect f xs >>= λ rest. ok (found ++ rest)

module _ (g : CorpusGraph) (evaluations : BTreeMap Str LifecycleEvaluation) where
  abbrev pub missing_target : Str → Result ApprovalBoundaryError (List ApprovalBoundaryViolation)
  missing_target target =
      err (ApprovalBoundaryError.lifecycle (LifecycleError.requirement_missing target))

  -- The `let ... else` on the pair of lookups.
  abbrev pub judge_target :
      TestNode
      → Str
      → Option Node
      → Option LifecycleEvaluation
      → Result ApprovalBoundaryError (List ApprovalBoundaryViolation)
  judge_target t target (some node) (some evaluation) =
      if is_approved evaluation.state
      then ok []
      else ok (
          record {
            requirement_uid = target;
            requirement_id = node_id node;
            state = evaluation.state;
            referring = ReferringArtifact.test t.uid t.id;
          }
          ∷ [])
  judge_target t target none _ = missing_target target
  judge_target t target (some node) none = missing_target target

  unfoldable pub edge_violations :
      TestNode → Edge → Result ApprovalBoundaryError (List ApprovalBoundaryViolation)
  edge_violations t (kind, target) =
      if not (edge_kind_eq kind EdgeKind.verifies)
      then ok []
      else judge_target t target (get target g) (BTreeMap.get target evaluations)

  -- A violation by the requirement itself, when it lists something.
  abbrev pub claim :
      RequirementNode
      → RequirementLifecycle
      → (List Str → ReferringArtifact)
      → List Str
      → List ApprovalBoundaryViolation
  claim r current artifact [] = []
  claim r current artifact (x ∷ xs) =
      record {
        requirement_uid = r.uid;
        requirement_id = r.id;
        state = current;
        referring = artifact (x ∷ xs);
      }
      ∷ []

  abbrev pub claims :
      RequirementNode → RequirementLifecycle → Option TraceMetadata → List ApprovalBoundaryViolation
  claims r current (some (TraceMetadata.requirement metadata)) =
      claim r current ReferringArtifact.implementation_modules metadata.modules
      ++ claim r current ReferringArtifact.emitted_diagnostics metadata.emits
  claims r current (some (TraceMetadata.test metadata)) = []
  claims r current none = []

  abbrev pub judge_requirement :
      RequirementNode
      → Option LifecycleEvaluation
      → Result ApprovalBoundaryError (List ApprovalBoundaryViolation)
  judge_requirement r none = err (ApprovalBoundaryError.invariant_missing_evaluation r.uid)
  judge_requirement r (some evaluation) =
      if is_approved evaluation.state
      then ok []
      else ok (claims r evaluation.state (BTreeMap.get r.uid g.trace_metadata))

  unfoldable pub node_violations :
      Node → Result ApprovalBoundaryError (List ApprovalBoundaryViolation)
  unfolding edge_violations collect
  node_violations (Node.test t) = collect (edge_violations t) t.edges
  node_violations (Node.requirement r) = judge_requirement r (BTreeMap.get r.uid evaluations)
  node_violations (Node.review r) = ok []
  node_violations (Node.source_revision r) = ok []

module _ (sha256 : Str → Str) (show_float : ℕ → Str) (g : CorpusGraph) where
  abbrev pub applied :
      Str → Result SourcePatchError PatchApplication → Result ApprovalBoundaryError (Unit {0})
  applied patch_uid (ok application) = ok tt
  applied patch_uid (err source) =
      err (ApprovalBoundaryError.effective_curated_content patch_uid source)

  abbrev pub apply_to_revision :
      SourcePatchRecord → Option Node → Result ApprovalBoundaryError (Unit {0})
  apply_to_revision patch (some (Node.source_revision revision)) = applied patch.uid (
      apply_patch sha256 show_float (graph_or_empty (source_graph patch.source_revision_uid g))
        patch (record { recipe_digest = patch.recipe_digest; input_digest = patch.input_digest })
        revision.media_type)
  apply_to_revision patch _ =
      err (ApprovalBoundaryError.invariant_missing_patch_evaluation patch.uid)

  abbrev pub judge_patch :
      SourcePatchRecord → Option PatchLifecycleEvaluation → Result ApprovalBoundaryError (Unit {0})
  judge_patch patch none = err (ApprovalBoundaryError.invariant_missing_patch_evaluation patch.uid)
  judge_patch patch (some evaluation) =
      if not (is_approved evaluation.state)
      then ok tt
      else apply_to_revision patch (get patch.source_revision_uid g)

  unfoldable pub validate_effective_curated_content : Result ApprovalBoundaryError (Unit {0})
  validate_effective_curated_content =
      map_err ApprovalBoundaryError.patch_lifecycle
        (evaluate_all_patch_lifecycles sha256 show_float g)
      >>= λ evaluations.
          for_each (λ patch. judge_patch patch (BTreeMap.get patch.uid evaluations))
            (values g.source_patches)

  unfoldable pub validate_required : Result ApprovalBoundaryError (Unit {0})
  unfolding node_violations sort_violations validate_effective_curated_content
  validate_required =
      map_err ApprovalBoundaryError.lifecycle (evaluate_all_lifecycles sha256 show_float g)
      >>= λ evaluations. collect (node_violations g evaluations) (nodes_of g) >>= λ found.
          elim (sort_violations found) [
            | [] ↦ validate_effective_curated_content
            | v ∷ vs ↦ err (ApprovalBoundaryError.violations (v ∷ vs))
          ]

  unfoldable pub validate_approval_boundary :
      LifecycleEnforcement → Result ApprovalBoundaryError (Unit {0})
  unfolding validate_required
  validate_approval_boundary LifecycleEnforcement.required = validate_required
