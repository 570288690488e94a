-- ===== src/Corpus/EffectiveGraph.antt =====
-- The approval-gated source graph of one revision:
-- crates/evidence-core/src/corpus/effective_graph.rs.
pub mod Approved
pub mod Stale
use evidence.Prelude.{
  ℕ, Str, Bool, true, false, not, any, Option, none, some, List, [], ◌∷◌, ◌++◌, Result, ok, err,
  ◌>>=◌, map_err, try_fold, str_eq, str_ord, if◌then◌else◌,
}
use evidence.BTreeMap
use evidence.BTreeMap.{BTreeMap, values}
use evidence.Corpus.SourceNodes.{SourceGraph}
use evidence.Corpus.SourcePatches.{SourcePatchRecord, SourcePatchError}
use evidence.Corpus.Graph.{CorpusGraph, nodes_of, source_graph}
use evidence.Corpus.Lifecycle.{RequirementLifecycle, PatchLifecycleEvaluation, PatchLifecycleError}
use evidence.Corpus.Validate.{is_revision, graph_or_empty}
use evidence.Corpus.AllLifecycles.{evaluate_all_patch_lifecycles}
use evidence.Corpus.PatchApply.{PatchBindings, PatchApplication, apply_patch}

pub record EffectiveSourceGraph : Type 0 where
  pub source_revision_uid : Str
  pub graph : SourceGraph
  pub applied_patch_uids : List Str

pub data EffectiveGraphError : Type 0 where
  lifecycle : PatchLifecycleError → EffectiveGraphError
  unknown_source_revision : (revision_uid : Str) → EffectiveGraphError
  approved_patch_application : (patch_uid : Str) (source : SourcePatchError) → EffectiveGraphError

-- `state == PatchLifecycle::Approved`
abbrev pub is_approved : RequirementLifecycle → Bool
is_approved RequirementLifecycle.approved = true
is_approved _ = false

abbrev pub approved_entry : Option PatchLifecycleEvaluation → Bool
approved_entry none = false
approved_entry (some evaluation) = is_approved evaluation.state

module _ (sha256 : Str → Str) (show_float : ℕ → Str)
    (evaluations : BTreeMap Str PatchLifecycleEvaluation) (source_revision_uid : Str)
    (bindings : PatchBindings) (media_type : Str) where
  -- One round of the loop, on the working graph and the uids applied so far.
  unfoldable pub contribute :
      SourceGraph × List Str
      → SourcePatchRecord
      → Result EffectiveGraphError (SourceGraph × List Str)
  contribute (working, applied_patch_uids) patch =
      if not (str_eq patch.source_revision_uid source_revision_uid)
      then ok (working, applied_patch_uids)
      else if not (approved_entry (BTreeMap.get patch.uid evaluations))
      then ok (working, applied_patch_uids)
      else (map_err (EffectiveGraphError.approved_patch_application patch.uid)
            (apply_patch sha256 show_float working patch bindings media_type)
          >>= λ application. ok (application.graph, applied_patch_uids ++ patch.uid ∷ []))

unfoldable pub effective_source_graph :
    (Str → Str)
    → (ℕ → Str)
    → CorpusGraph
    → Str
    → PatchBindings
    → Str
    → Result EffectiveGraphError EffectiveSourceGraph
unfolding contribute
effective_source_graph sha256 show_float g source_revision_uid bindings media_type =
    map_err EffectiveGraphError.lifecycle (evaluate_all_patch_lifecycles sha256 show_float g)
    >>= λ evaluations.
        if not (any (is_revision source_revision_uid) (nodes_of g))
        then err (EffectiveGraphError.unknown_source_revision source_revision_uid)
        else (try_fold
              (contribute sha256 show_float evaluations source_revision_uid bindings media_type)
              (graph_or_empty (source_graph source_revision_uid g), []) (values g.source_patches)
            >>= λ (working, applied_patch_uids). ok (record {
              source_revision_uid = source_revision_uid;
              graph = working;
              applied_patch_uids = applied_patch_uids;
            }))
