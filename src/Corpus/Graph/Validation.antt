-- ===== src/Corpus/Graph/Validation.antt =====
-- Edge resolution and endpoint kinds: `validate_edges` of
-- crates/evidence-core/src/corpus/graph/validation.rs.
use evidence.Prelude.{
  Bool, true, false, ◌&&◌, Option, none, some, Result, ok, err, for_each, str_ord, if◌then◌else◌,
}
use evidence.BTreeMap
use evidence.Corpus.Nodes.{
  EdgeKind, Edge, NodeKind, Node, node_uid, node_kind, node_edges, node_kind_eq, edge_kind_eq,
}
use evidence.Corpus.Errors.{CorpusError}
use evidence.Corpus.Graph.{CorpusGraph, get, nodes_of}

-- The `matches!` over (source, edge, target).
unfoldable pub edge_kinds_match : NodeKind → EdgeKind → NodeKind → Bool
edge_kinds_match NodeKind.requirement EdgeKind.derives_from NodeKind.requirement = true
edge_kinds_match NodeKind.test EdgeKind.verifies NodeKind.requirement = true
edge_kinds_match NodeKind.review EdgeKind.reviews NodeKind.requirement = true
edge_kinds_match NodeKind.review EdgeKind.supersedes NodeKind.review = true
edge_kinds_match NodeKind.source_revision EdgeKind.supersedes NodeKind.source_revision = true
edge_kinds_match _ _ _ = false

-- A review may review a committed patch, which is no node.
unfoldable pub resolves_to_patch : CorpusGraph → Node → Edge → Bool
resolves_to_patch g node (kind, target) =
    node_kind_eq (node_kind node) NodeKind.review
    && edge_kind_eq kind EdgeKind.reviews
    && BTreeMap.contains_key target g.source_patches

check_target : CorpusGraph → Node → Edge → Option Node → Result CorpusError (Unit {0})
unfolding edge_kinds_match resolves_to_patch
check_target g node (kind, target) none =
    if resolves_to_patch g node (kind, target)
    then ok tt
    else err (CorpusError.dangling_edge (node_uid node) target kind)
check_target g node (kind, target) (some target_node) =
    if edge_kinds_match (node_kind node) kind (node_kind target_node)
    then ok tt
    else err (
        CorpusError.invalid_edge_kinds (node_uid node) target kind (node_kind node)
          (node_kind target_node))

unfoldable pub check_edge : CorpusGraph → Node → Edge → Result CorpusError (Unit {0})
unfolding check_target
check_edge g node edge = check_target g node edge (get edge.1 g)

unfoldable pub validate_edges : CorpusGraph → Result CorpusError (Unit {0})
validate_edges g = for_each (λ node. for_each (check_edge g node) (node_edges node)) (nodes_of g)
