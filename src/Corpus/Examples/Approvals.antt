-- ===== src/Corpus/Examples/Approvals.antt =====
-- The theorems on the evaluation of all uids and on effective graphs, applied to a revision with two
-- approved patches and a requirement.
use evidence.Prelude.{
  Str, codes, any, none, some, [], ◌∷◌, ok, ◌≡◌, ◌≢◌, ◌↔◌, refl, str_ord, for_each, try_fold,
  filter_map, filter, contains, sort,
}
use evidence.BTreeMap
use evidence.BTreeMap.{BTreeMap}
use evidence.Corpus.Nodes.{EdgeKind, ReviewDecision, ReviewTarget, ReviewNode, Node}
use evidence.Corpus.SourceNodes.{SourceNodeKind, SourceGraph, may_parent, source_kind_eq}
use evidence.Corpus.SourcePatches.{PatchOperation, SourcePatchRecord}
use evidence.Corpus.Graph.{
  CorpusGraph, supersedes_targets, superseded_review_uids, reviews_for_patch, same_human_id,
  source_graph,
}
use evidence.Corpus.Graph.Invariant.{IsWellFormed}
use evidence.Corpus.Lineage
use evidence.Corpus.Lineage.{validate_source_lineage}
use evidence.Corpus.Successors.{successors, push_successor, first_fork}
use evidence.Corpus.Walk.{walk, walk_all, next, push_all, weight, enough_fuel}
use evidence.Corpus.Graph.Validation.{validate_edges, check_edge}
use evidence.Corpus.Graph.ReviewInvariants.{validate_review_nodes, check_review}
use evidence.Corpus.Graph.Supersession.{validate_review_supersession}
use evidence.Corpus.SourceValidation
use evidence.Corpus.SourceValidation.{validate_source_graphs, validate_graph_standalone}
use evidence.Corpus.Lifecycle.{
  LifecycleEvaluation, PatchLifecycleEvaluation, evaluate_patch_lifecycle_validated,
}
use evidence.Corpus.Render.{source_graph_digest}
use evidence.Corpus.PatchTargets.{validate_targets}
use evidence.Corpus.Validate.{
  validate, evaluate_lifecycle, evaluate_patch_lifecycle, graph_or_empty,
}
use evidence.Corpus.AllLifecycles.{evaluate_all_lifecycles, evaluate_all_patch_lifecycles}
use evidence.Corpus.AllLifecycles.Agree.{
  evaluate_all_lifecycles_iff, evaluate_all_patch_lifecycles_iff,
}
use evidence.Corpus.PatchEdits.{recompute_node_digests}
use evidence.Corpus.PatchApply.{PatchApplication, apply_patch}
use evidence.Corpus.EffectiveGraph.{EffectiveSourceGraph, effective_source_graph}
use evidence.Corpus.EffectiveGraph.Approved.{
  Chain, IsApproved, approved_patches, effective_source_graph-IsApproved,
}
use evidence.Corpus.EffectiveGraph.Stale.{effective_source_graph_unchanged}
use evidence.Corpus.Examples.{first_revision, first_review, hlr}
use evidence.Corpus.Examples.Sources.{document, section, first_paragraph, second_paragraph}
use evidence.Corpus.Examples.EntryPoints.{one_digest, no_float}
use evidence.Corpus.Examples.Applications.{edit, bindings}

abbrev relabel : SourcePatchRecord
relabel = record edit {
  uid = codes "p2";
  human_id = codes "PATCH-2";
  operations =
      PatchOperation.replace_content 0 (codes "n1") (codes "ab") none (some (codes "2")) ∷ [];
}

abbrev first_approval : ReviewNode
first_approval = record first_review {
  target = ReviewTarget.curated_patch (codes "p1");
  decision = ReviewDecision.approve;
  edges = (EdgeKind.reviews, codes "p1") ∷ [];
}

abbrev second_approval : ReviewNode
second_approval = record first_approval {
  uid = codes "v2";
  id = codes "RV-2";
  target = ReviewTarget.curated_patch (codes "p2");
  edges = (EdgeKind.reviews, codes "p2") ∷ [];
}

abbrev curated : CorpusGraph
curated = record {
  nodes =
      (codes "d1", Node.source_revision first_revision)
      ∷ (codes "r1", Node.requirement hlr)
      ∷ (codes "v1", Node.review first_approval)
      ∷ (codes "v2", Node.review second_approval)
      ∷ [];
  trace_metadata = [];
  source_graphs = (codes "d1", document) ∷ [];
  source_patches = (codes "p1", edit) ∷ (codes "p2", relabel) ∷ [];
}

curated-IsWellFormed : IsWellFormed curated
unfolding same_human_id evidence.Corpus.Nodes.new_requirement
curated-IsWellFormed = record {
  sorted = ((refl, (refl, (refl, tt))), ((refl, (refl, tt)), ((refl, tt), (tt, tt))));
  keyed = (refl, (refl, (refl, (refl, tt))));
  canonical = (tt, (tt, (tt, (tt, tt))));
  unique_ids = ((refl, (refl, (refl, tt))), ((refl, (refl, tt)), ((refl, tt), (tt, tt))));
}

curated-valid : validate one_digest no_float curated ≡ ok tt
unfolding validate validate_edges for_each check_edge BTreeMap.get validate_review_nodes
    check_review validate_review_supersession try_fold supersedes_targets first_fork push_successor
    BTreeMap.insert successors walk_all filter_map filter contains walk enough_fuel push_all next
    weight validate_source_lineage Lineage.revisions Lineage.revisions_by_document
    Lineage.group_revisions Lineage.roots_of Lineage.heads_of Lineage.superseded_uids
    validate_source_graphs SourceValidation.content_digest SourceValidation.fingerprint may_parent
    sort any source_graph_digest validate_targets evidence.Corpus.Nodes.new_requirement
curated-valid = refl

evaluate_all_lifecycles_iff_example :
    (out : BTreeMap Str LifecycleEvaluation) × (evaluate_all_lifecycles one_digest no_float curated
      ≡ ok out)
    × ((uid : Str) (e : LifecycleEvaluation)
        → (BTreeMap.get uid out ≡ some e)
          ↔ (evaluate_lifecycle one_digest no_float curated uid ≡ ok e))
evaluate_all_lifecycles_iff_example =
    evaluate_all_lifecycles_iff one_digest no_float curated curated-IsWellFormed curated-valid

evaluate_all_patch_lifecycles_iff_example :
    (out : BTreeMap Str PatchLifecycleEvaluation) × (evaluate_all_patch_lifecycles one_digest
        no_float curated
      ≡ ok out)
    × ((uid : Str) (e : PatchLifecycleEvaluation)
        → (BTreeMap.get uid out ≡ some e)
          ↔ (evaluate_patch_lifecycle one_digest no_float curated uid ≡ ok e))
evaluate_all_patch_lifecycles_iff_example =
    evaluate_all_patch_lifecycles_iff one_digest no_float curated curated-IsWellFormed curated-valid

abbrev curated_document : SourceGraph
curated_document =
    (codes "n1", record section { label = some (codes "2") })
    ∷ (codes "n2", record first_paragraph { canonical_text = codes "New text" })
    ∷ (codes "n3", record second_paragraph { kind = SourceNodeKind.note })
    ∷ []

abbrev effective_document : EffectiveSourceGraph
effective_document = record {
  source_revision_uid = codes "d1";
  graph = curated_document;
  applied_patch_uids = codes "p1" ∷ codes "p2" ∷ [];
}

computed :
    effective_source_graph one_digest no_float curated (codes "d1") bindings (codes "text/html")
    ≡ ok effective_document
unfolding effective_source_graph evaluate_all_patch_lifecycles validate validate_edges for_each
    check_edge BTreeMap.get validate_review_nodes check_review validate_review_supersession try_fold
    supersedes_targets first_fork push_successor BTreeMap.insert successors walk_all filter_map
    filter contains walk enough_fuel push_all next weight validate_source_lineage Lineage.revisions
    Lineage.revisions_by_document Lineage.group_revisions Lineage.roots_of Lineage.heads_of
    Lineage.superseded_uids validate_source_graphs SourceValidation.content_digest
    SourceValidation.fingerprint may_parent sort any source_graph_digest validate_targets
    evidence.Corpus.Nodes.new_requirement evaluate_patch_lifecycle_validated reviews_for_patch
    superseded_review_uids apply_patch validate_graph_standalone BTreeMap.update source_kind_eq
    recompute_node_digests
computed = refl

effective_source_graph-IsApproved_example :
    IsApproved one_digest no_float curated
      (codes "d1")
      bindings
      (codes "text/html")
      effective_document
effective_source_graph-IsApproved_example =
    effective_source_graph-IsApproved one_digest no_float curated (codes "d1") bindings
      (codes "text/html") effective_document curated-IsWellFormed computed

both_approved : approved_patches one_digest no_float curated (codes "d1") ≡ edit ∷ relabel ∷ []
unfolding approved_patches evaluate_patch_lifecycle validate validate_edges for_each check_edge
    BTreeMap.get validate_review_nodes check_review validate_review_supersession try_fold
    supersedes_targets first_fork push_successor BTreeMap.insert successors walk_all filter_map
    filter contains walk enough_fuel push_all next weight validate_source_lineage Lineage.revisions
    Lineage.revisions_by_document Lineage.group_revisions Lineage.roots_of Lineage.heads_of
    Lineage.superseded_uids validate_source_graphs SourceValidation.content_digest
    SourceValidation.fingerprint may_parent sort any source_graph_digest validate_targets
    evidence.Corpus.Nodes.new_requirement evaluate_patch_lifecycle_validated reviews_for_patch
    superseded_review_uids
both_approved = refl

effective_source_graph_unchanged_example :
    (working : SourceGraph) × (a : PatchApplication) × Chain one_digest no_float bindings
      (codes "text/html")
      (graph_or_empty (source_graph (codes "d1") curated))
      []
      working
    × (apply_patch one_digest no_float working edit bindings (codes "text/html") ≡ ok a)
    × Chain one_digest no_float bindings (codes "text/html") a.graph (relabel ∷ []) curated_document
    × (source_graph_digest one_digest no_float working
        ≡ source_graph_digest one_digest no_float
            (graph_or_empty (source_graph (codes "d1") curated)))
    × (relabel ∷ [] ≢ []
        → a.post_patch_digest
          ≡ source_graph_digest one_digest no_float
              (graph_or_empty (source_graph (codes "d1") curated)))
effective_source_graph_unchanged_example =
    effective_source_graph_unchanged one_digest no_float curated (codes "d1") bindings
      (codes "text/html") effective_document curated-IsWellFormed computed [] edit (relabel ∷ [])
      both_approved
