-- ===== src/Corpus/Validate.antt =====
-- `CorpusGraph::validate` of crates/evidence-core/src/corpus/graph.rs, with `validate_source_patches`
-- of source_patch/validate.rs, and the lifecycle entry points that call it, of lifecycle.rs and
-- patch_lifecycle.rs. SHA-256 and the printing of floats are parameters.
pub mod Parts
pub mod FailClosed
use evidence.Prelude.{
  ℕ, Str, Bool, true, false, not, Option, none, some, List, [], Result, ok, err, ◌>>=◌, ◌>>◌,
  map_err, for_each, any, str_eq, str_ord, if◌then◌else◌,
}
use evidence.BTreeMap
use evidence.BTreeMap.{values}
use evidence.Corpus.Nodes.{SourceRevisionNode, Node}
use evidence.Corpus.SourceNodes.{SourceGraph}
use evidence.Corpus.SourcePatches.{SourcePatchRecord, SourcePatchError}
use evidence.Corpus.Errors.{CorpusError}
use evidence.Corpus.Graph.{CorpusGraph, nodes_of, source_graph}
use evidence.Corpus.Graph.Validation.{validate_edges}
use evidence.Corpus.Graph.ReviewInvariants.{validate_review_nodes}
use evidence.Corpus.Graph.Supersession.{validate_review_supersession}
use evidence.Corpus.Lineage.{validate_source_lineage}
use evidence.Corpus.SourceValidation.{validate_source_graphs}
use evidence.Corpus.PatchTargets.{validate_targets}
use evidence.Corpus.Render.{source_graph_digest}
use evidence.Corpus.Lifecycle.{
  LifecycleEvaluation, LifecycleError, PatchLifecycleEvaluation, PatchLifecycleError,
  evaluate_lifecycle_validated, evaluate_patch_lifecycle_validated,
}

abbrev pub is_revision : Str → Node → Bool
is_revision uid (Node.source_revision r) = str_eq r.uid uid
is_revision uid _ = false

abbrev pub graph_or_empty : Option SourceGraph → SourceGraph
graph_or_empty none = []
graph_or_empty (some g) = g

unfoldable pub validate_binding :
    (Str → Str) → (ℕ → Str) → CorpusGraph → SourcePatchRecord → Result SourcePatchError (Unit {0})
validate_binding sha256 show_float g patch =
    if not (any (is_revision patch.source_revision_uid) (nodes_of g))
    then err (SourcePatchError.unknown_source_revision patch.uid patch.source_revision_uid)
    else (let recomputed =
          source_graph_digest sha256 show_float
            (graph_or_empty (source_graph patch.source_revision_uid g)) in
        if not (str_eq recomputed patch.pre_patch_graph_digest)
        then err (
            SourcePatchError.pre_patch_graph_digest_mismatch patch.uid recomputed
              patch.pre_patch_graph_digest)
        else ok tt)

unfoldable pub validate_source_patches :
    (Str → Str) → (ℕ → Str) → CorpusGraph → Result SourcePatchError (Unit {0})
unfolding validate_binding
validate_source_patches sha256 show_float g =
    for_each (λ patch. validate_binding sha256 show_float g patch >> validate_targets g patch)
      (values g.source_patches)

unfoldable pub validate : (Str → Str) → (ℕ → Str) → CorpusGraph → Result CorpusError (Unit {0})
unfolding validate_source_patches
validate sha256 show_float g =
    validate_edges g
    >> (map_err CorpusError.review (validate_review_nodes g)
        >> (map_err CorpusError.review (validate_review_supersession g)
            >> (map_err CorpusError.source (validate_source_lineage g)
                >> (map_err CorpusError.source_graph (validate_source_graphs sha256 g)
                    >> map_err CorpusError.source_patch
                        (validate_source_patches sha256 show_float g)))))

unfoldable pub evaluate_lifecycle :
    (Str → Str) → (ℕ → Str) → CorpusGraph → Str → Result LifecycleError LifecycleEvaluation
unfolding validate
evaluate_lifecycle sha256 show_float g uid =
    map_err LifecycleError.invalid_graph (validate sha256 show_float g)
    >> evaluate_lifecycle_validated sha256 g uid

unfoldable pub evaluate_patch_lifecycle :
    (Str → Str)
    → (ℕ → Str)
    → CorpusGraph
    → Str
    → Result PatchLifecycleError PatchLifecycleEvaluation
unfolding validate
evaluate_patch_lifecycle sha256 show_float g uid =
    map_err PatchLifecycleError.invalid_graph (validate sha256 show_float g)
    >> evaluate_patch_lifecycle_validated g uid
