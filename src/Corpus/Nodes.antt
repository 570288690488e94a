-- ===== src/Corpus/Nodes.antt =====
-- The nodes of the corpus graph: crates/evidence-core/src/corpus/graph/nodes.rs. A digest newtype
-- is its text, and a `u32` is a number.
use evidence.Prelude.{
  ℕ, Str, Bool, true, false, Option, none, List, [], ◌≡◌, arith, Ord, ltb, ◌==◌, ◌↔◌,
}

pub data EdgeKind : Type 0 where
  derives_from verifies reviews supersedes : EdgeKind

-- The derived `Ord`: by the order of declaration.
abbrev pub edge_rank : EdgeKind → ℕ
edge_rank derives_from = 0
edge_rank verifies = 1
edge_rank reviews = 2
edge_rank supersedes = 3

abbrev pub edge_kind_eq : EdgeKind → EdgeKind → Bool
edge_kind_eq a b = edge_rank a == edge_rank b

abbrev pub edge_kind_lt : EdgeKind → EdgeKind → Bool
edge_kind_lt a b = ltb (edge_rank a) (edge_rank b)

pub edge_kind_eq_iff : (a b : EdgeKind) → (edge_kind_eq a b ≡ true) ↔ (a ≡ b)
edge_kind_eq_iff a b = ground arith

pub edge_kind_lt_irrefl : (a : EdgeKind) → edge_kind_lt a a ≡ false
edge_kind_lt_irrefl a = ground arith

pub edge_kind_lt_trans :
    (a b c : EdgeKind) → edge_kind_lt a b ≡ true → edge_kind_lt b c ≡ true → edge_kind_lt a c ≡ true
edge_kind_lt_trans a b c h k = ground arith

pub edge_kind_lt_total :
    (a b : EdgeKind) → edge_kind_lt a b ≡ false → edge_kind_eq a b ≡ false → edge_kind_lt b a ≡ true
edge_kind_lt_total a b h k = ground arith

instance abbrev pub edge_kind_ord : Ord EdgeKind
edge_kind_ord = record {
  lt = edge_kind_lt;
  eq = edge_kind_eq;
  eq_iff = edge_kind_eq_iff;
  lt_irrefl = edge_kind_lt_irrefl;
  lt_trans = edge_kind_lt_trans;
  lt_total = edge_kind_lt_total;
}

abbrev pub Edge : Type 0
Edge = EdgeKind × Str

pub data RequirementLayer : Type 0 where
  source sys hlr llr derived : RequirementLayer

pub data NodeKind : Type 0 where
  requirement test review source_revision : NodeKind

pub data ReviewDecision : Type 0 where
  approve reject : ReviewDecision

pub record RequirementNode : Type 0 where
  pub uid : Str
  pub id : Str
  pub title : Str
  pub layer : RequirementLayer
  pub edges : List Edge
  pub description : Option Str
  pub rationale : Option Str
  pub scope : Option Str
  pub category : Option Str
  pub source : Option Str
  pub verification_methods : List Str
  pub safety_impact : Option Str

-- `RequirementNode::new`
unfoldable pub new_requirement : Str → Str → Str → RequirementLayer → List Edge → RequirementNode
new_requirement uid id title layer edges = record {
  uid = uid;
  id = id;
  title = title;
  layer = layer;
  edges = edges;
  description = none;
  rationale = none;
  scope = none;
  category = none;
  source = none;
  verification_methods = [];
  safety_impact = none;
}

pub record TestNode : Type 0 where
  pub uid : Str
  pub id : Str
  pub title : Str
  pub selectors : List Str
  pub edges : List Edge

pub data ReviewTargetKind : Type 0 where
  requirement curated_patch : ReviewTargetKind

pub data ReviewTarget : Type 0 where
  requirement : Str → ReviewTarget
  curated_patch : Str → ReviewTarget

abbrev pub target_uid : ReviewTarget → Str
target_uid (ReviewTarget.requirement uid) = uid
target_uid (ReviewTarget.curated_patch uid) = uid

abbrev pub target_kind : ReviewTarget → ReviewTargetKind
target_kind (ReviewTarget.requirement uid) = ReviewTargetKind.requirement
target_kind (ReviewTarget.curated_patch uid) = ReviewTargetKind.curated_patch

pub record ReviewNode : Type 0 where
  pub uid : Str
  pub id : Str
  pub target : ReviewTarget
  pub content_schema : ℕ
  pub reviewed_content_sha256 : Str
  pub decision : ReviewDecision
  pub reviewer : Str
  pub reviewed_at : Str
  pub rationale : Option Str
  pub edges : List Edge

pub data SourceCapture : Type 0 where
  vendored : (path : Str) → SourceCapture
  hash_only : SourceCapture
  external_controlled : (system immutable_id : Str) → SourceCapture

pub data SourceMaterial : Type 0 where
  available : (retrieved_at sha256 : Str) (capture : SourceCapture) → SourceMaterial
  unavailable : (reason : Str) → SourceMaterial

pub record SourceRevisionNode : Type 0 where
  pub uid : Str
  pub id : Str
  pub document_key : Str
  pub title : Str
  pub media_type : Str
  pub canonical_location : Str
  pub material : SourceMaterial
  pub edges : List Edge

pub data Node : Type 0 where
  requirement : RequirementNode → Node
  test : TestNode → Node
  review : ReviewNode → Node
  source_revision : SourceRevisionNode → Node

abbrev pub node_uid : Node → Str
node_uid (Node.requirement r) = r.uid
node_uid (Node.test t) = t.uid
node_uid (Node.review r) = r.uid
node_uid (Node.source_revision s) = s.uid

abbrev pub node_kind : Node → NodeKind
node_kind (Node.requirement r) = NodeKind.requirement
node_kind (Node.test t) = NodeKind.test
node_kind (Node.review r) = NodeKind.review
node_kind (Node.source_revision s) = NodeKind.source_revision

abbrev pub node_id : Node → Str
node_id (Node.requirement r) = r.id
node_id (Node.test t) = t.id
node_id (Node.review r) = r.id
node_id (Node.source_revision s) = s.id

abbrev pub node_edges : Node → List Edge
node_edges (Node.requirement r) = r.edges
node_edges (Node.test t) = t.edges
node_edges (Node.review r) = r.edges
node_edges (Node.source_revision s) = s.edges

-- A write through `Node::edges_mut`.
abbrev pub with_edges : Node → List Edge → Node
with_edges (Node.requirement r) es = Node.requirement (record r { edges = es })
with_edges (Node.test t) es = Node.test (record t { edges = es })
with_edges (Node.review r) es = Node.review (record r { edges = es })
with_edges (Node.source_revision s) es = Node.source_revision (record s { edges = es })

-- `==` on the enums of this file.
abbrev pub kind_rank : NodeKind → ℕ
kind_rank NodeKind.requirement = 0
kind_rank NodeKind.test = 1
kind_rank NodeKind.review = 2
kind_rank NodeKind.source_revision = 3

abbrev pub node_kind_eq : NodeKind → NodeKind → Bool
node_kind_eq a b = kind_rank a == kind_rank b

pub node_kind_eq_iff : (a b : NodeKind) → (node_kind_eq a b ≡ true) ↔ (a ≡ b)
node_kind_eq_iff a b = ground arith
