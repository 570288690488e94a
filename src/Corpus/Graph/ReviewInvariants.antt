-- ===== src/Corpus/Graph/ReviewInvariants.antt =====
-- Per-node review invariants: crates/evidence-core/src/corpus/graph/review_invariants.rs.
pub mod Coherent
use evidence.Prelude.{
  ℕ, ◌==◌, Str, codes, Bool, true, false, not, ◌&&◌, Option, some, List, [], ◌∷◌, Result, ok, err,
  for_each, str_ord, str_eq, length, if◌then◌else◌,
}
use evidence.BTreeMap
use evidence.Corpus.Nodes.{
  EdgeKind, Edge, Node, ReviewNode, ReviewTarget, ReviewTargetKind, target_uid, target_kind,
  edge_kind_eq,
}
use evidence.Corpus.Errors.{ReviewError}
use evidence.Corpus.Graph.{CorpusGraph, get, nodes_of}

-- `SUPPORTED_REVIEW_CONTENT_SCHEMA` of review_records.rs.
abbrev pub supported_review_content_schema : ℕ
supported_review_content_schema = 1

abbrev pub kind_name : ReviewTargetKind → Str
kind_name ReviewTargetKind.requirement = codes "requirement"
kind_name ReviewTargetKind.curated_patch = codes "curated_patch"

unfoldable pub reviews_targets : List Edge → List Str
reviews_targets [] = []
reviews_targets ((kind, target) ∷ es) =
    if edge_kind_eq kind EdgeKind.reviews then target ∷ reviews_targets es else reviews_targets es

-- `matches!(.., Some(Node::Requirement(_)))`
abbrev pub is_requirement : Option Node → Bool
is_requirement (some (Node.requirement r)) = true
is_requirement _ = false

unfoldable pub kind_coherent : CorpusGraph → ReviewTarget → Str → Bool
kind_coherent g (ReviewTarget.requirement _) edge_target =
    not (BTreeMap.contains_key edge_target g.source_patches) && is_requirement (get edge_target g)
kind_coherent g (ReviewTarget.curated_patch _) edge_target =
    BTreeMap.contains_key edge_target g.source_patches

check_edge_target : CorpusGraph → ReviewNode → Str → Result ReviewError (Unit {0})
unfolding kind_coherent
check_edge_target g r edge_target =
    if not (str_eq edge_target (target_uid r.target))
    then err (ReviewError.target_edge_mismatch r.uid (target_uid r.target) edge_target)
    else if not (kind_coherent g r.target edge_target)
    then err (
        ReviewError.target_kind_mismatch r.uid (kind_name (target_kind r.target)) (
          if BTreeMap.contains_key edge_target g.source_patches
          then codes "a curated patch"
          else codes "a requirement node"))
    else if not (r.content_schema == supported_review_content_schema)
    then err (
        ReviewError.content_schema (codes "<graph>") r.uid r.id r.content_schema
          supported_review_content_schema)
    else ok tt

-- `let [edge_target_uid] = reviews_edges.as_slice() else { .. }`
check_targets : CorpusGraph → ReviewNode → List Str → Result ReviewError (Unit {0})
unfolding check_edge_target
check_targets g r [] = err (ReviewError.missing_reviews_edge r.uid)
check_targets g r (edge_target ∷ []) = check_edge_target g r edge_target
check_targets g r (a ∷ b ∷ more) =
    err (ReviewError.duplicate_reviews_edge r.uid (length (a ∷ b ∷ more)))

unfoldable pub check_review : CorpusGraph → Node → Result ReviewError (Unit {0})
unfolding check_targets reviews_targets
check_review g (Node.review r) = check_targets g r (reviews_targets r.edges)
check_review g _ = ok tt

unfoldable pub validate_review_nodes : CorpusGraph → Result ReviewError (Unit {0})
validate_review_nodes g = for_each (check_review g) (nodes_of g)
