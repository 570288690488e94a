-- ===== src/Corpus/Graph.antt =====
-- The corpus graph and its operations: crates/evidence-core/src/corpus/graph.rs, with insertion's
-- checks from graph/validation.rs.
pub mod Invariant
pub mod Insertion
pub mod Validation
pub mod ReviewInvariants
pub mod Supersession
use evidence.Prelude.{
  ℤ, sort, first_repeat, Str, Bool, false, Option, none, some, List, [], ◌∷◌, ◌&&◌, Result, ok, err,
  ◌>>=◌, ◌>>◌, find, filter_map, str_eq, if◌then◌else◌, pair_ord, str_ord, ◌++◌,
}
use evidence.BTreeMap
use evidence.BTreeMap.{BTreeMap, values}
use evidence.Corpus.Nodes.{
  EdgeKind, Edge, Node, node_uid, node_kind, node_id, node_edges, with_edges, edge_kind_eq,
  edge_kind_ord, node_kind_eq, ReviewNode, ReviewTarget,
}
use evidence.Corpus.SourceNodes.{SourceGraph, SourceNode, SourceGraphError, insert_node}
use evidence.Corpus.SourcePatches.{SourcePatchRecord, SourcePatchError}
use evidence.Corpus.Errors.{CorpusError}

-- What views of a requirement or a test retain.
pub record RequirementMetadata : Type 0 where
  pub namespace : Option Str
  pub sort_key : Option ℤ
  pub scope : Option Str
  pub category : Option Str
  pub source : Option Str
  pub modules : List Str
  pub surfaces : List Str
  pub emits : List Str
  pub verification_methods : List Str

pub record TestMetadata : Type 0 where
  pub namespace : Option Str
  pub sort_key : Option ℤ
  pub category : Option Str
  pub source : Option Str
  pub primary_selector : Option Str

pub data TraceMetadata : Type 0 where
  requirement : RequirementMetadata → TraceMetadata
  test : TestMetadata → TraceMetadata

pub record CorpusGraph : Type 0 where
  pub nodes : BTreeMap Str Node
  pub trace_metadata : BTreeMap Str TraceMetadata
  pub source_graphs : BTreeMap Str SourceGraph
  pub source_patches : BTreeMap Str SourcePatchRecord

abbrev pub new : CorpusGraph
new = record { nodes = []; trace_metadata = []; source_graphs = []; source_patches = [] }

unfoldable pub same_human_id : Node → Node → Bool
same_human_id node existing =
    node_kind_eq (node_kind existing) (node_kind node) && str_eq (node_id existing) (node_id node)

unfoldable pub check_identity_uniqueness : BTreeMap Str Node → Node → Result CorpusError (Unit {0})
unfolding same_human_id
check_identity_uniqueness nodes node =
    if BTreeMap.contains_key (node_uid node) nodes
    then err (CorpusError.duplicate_uid (node_uid node))
    else elim (find (same_human_id node) (values nodes)) [
      | some existing ↦ err (
          CorpusError.duplicate_human_id (node_id node) (node_kind node) (node_uid existing)
            (node_uid node))
      | none ↦ ok tt
    ]

unfoldable pub canonicalize_edges : Node → Result CorpusError Node
canonicalize_edges node =
    let edges = sort (node_edges node) in
    elim (first_repeat edges) [
      | some (kind, to) ↦ err (CorpusError.duplicate_edge (node_uid node) to kind)
      | none ↦ ok (with_edges node edges)
    ]

unfoldable pub insert : CorpusGraph → Node → Result CorpusError CorpusGraph
unfolding check_identity_uniqueness canonicalize_edges
insert g node =
    check_identity_uniqueness g.nodes node
    >> (canonicalize_edges node >>= λ canonical.
        ok (record g { nodes = BTreeMap.insert (node_uid canonical) canonical g.nodes }))

unfoldable pub insert_with_trace_metadata :
    CorpusGraph → Node → TraceMetadata → Result CorpusError CorpusGraph
unfolding insert
insert_with_trace_metadata g node metadata = insert g node >>= λ h.
    ok (record h { trace_metadata = BTreeMap.insert (node_uid node) metadata h.trace_metadata })

abbrev pub get : Str → CorpusGraph → Option Node
get uid g = BTreeMap.get uid g.nodes

abbrev pub nodes_of : CorpusGraph → List Node
nodes_of g = values g.nodes

abbrev pub source_graph : Str → CorpusGraph → Option SourceGraph
source_graph uid g = BTreeMap.get uid g.source_graphs

abbrev pub source_patch : Str → CorpusGraph → Option SourcePatchRecord
source_patch uid g = BTreeMap.get uid g.source_patches

abbrev get_or_default : Str → BTreeMap Str SourceGraph → SourceGraph
get_or_default uid m = elim (BTreeMap.get uid m) [ none ↦ [] | some h ↦ h ]

-- `entry(..).or_default().insert(node)`
unfoldable pub insert_source_node : CorpusGraph → SourceNode → Result SourceGraphError CorpusGraph
insert_source_node g node =
    let revision_uid = node.source_revision_uid in
    insert_node (get_or_default revision_uid g.source_graphs) node >>= λ h.
    ok (record g { source_graphs = BTreeMap.insert revision_uid h g.source_graphs })

unfoldable pub insert_source_patch :
    CorpusGraph → SourcePatchRecord → Result SourcePatchError CorpusGraph
insert_source_patch g patch =
    if BTreeMap.contains_key patch.uid g.source_patches
    then err (SourcePatchError.duplicate_uid patch.uid)
    else elim (find (λ p. str_eq p.human_id patch.human_id) (values g.source_patches)) [
      | some existing ↦
          err (SourcePatchError.duplicate_human_id patch.human_id existing.uid patch.uid)
      | none ↦ ok (record g { source_patches = BTreeMap.insert patch.uid patch g.source_patches })
    ]

unfoldable pub names_requirement : ReviewTarget → Str → Bool
names_requirement (ReviewTarget.requirement u) uid = str_eq u uid
names_requirement (ReviewTarget.curated_patch u) uid = false

unfoldable pub names_patch : ReviewTarget → Str → Bool
names_patch (ReviewTarget.requirement u) uid = false
names_patch (ReviewTarget.curated_patch u) uid = str_eq u uid

unfoldable pub as_requirement_review : Str → Node → Option ReviewNode
unfolding names_requirement
as_requirement_review uid (Node.review r) = if names_requirement r.target uid then some r else none
as_requirement_review uid _ = none

unfoldable pub as_patch_review : Str → Node → Option ReviewNode
unfolding names_patch
as_patch_review uid (Node.review r) = if names_patch r.target uid then some r else none
as_patch_review uid _ = none

unfoldable pub reviews_for_requirement : CorpusGraph → Str → List ReviewNode
unfolding as_requirement_review
reviews_for_requirement g uid = filter_map (as_requirement_review uid) (nodes_of g)

unfoldable pub reviews_for_patch : CorpusGraph → Str → List ReviewNode
unfolding as_patch_review
reviews_for_patch g uid = filter_map (as_patch_review uid) (nodes_of g)

-- The targets of a node's `Supersedes` edges, in the order of the edges.
unfoldable pub supersedes_targets : List Edge → List Str
supersedes_targets [] = []
supersedes_targets ((kind, target) ∷ es) =
    if edge_kind_eq kind EdgeKind.supersedes
    then target ∷ supersedes_targets es
    else supersedes_targets es

-- A set that is only asked for membership is the list of what was put in.
unfoldable pub superseded_of_reviews : List Node → List Str
superseded_of_reviews [] = []
superseded_of_reviews (Node.review r ∷ ns) = supersedes_targets r.edges ++ superseded_of_reviews ns
superseded_of_reviews (n ∷ ns) = superseded_of_reviews ns

unfoldable pub superseded_review_uids : CorpusGraph → List Str
unfolding supersedes_targets superseded_of_reviews
superseded_review_uids g = superseded_of_reviews (nodes_of g)
