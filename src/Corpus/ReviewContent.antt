-- ===== src/Corpus/ReviewContent.antt =====
-- The review content of a requirement and its digest:
-- crates/evidence-core/src/corpus/review_content.rs. SHA-256 is the parameter `sha256`, from bytes
-- to the hexadecimal text.
pub mod Laws
pub mod Canonical
use evidence.Prelude.{
  ℕ, Str, String, codes, Option, none, some, List, [], ◌∷◌, ◌++◌, length, sort, dedup, str_ord,
  if◌then◌else◌,
}
use evidence.BTreeMap
use evidence.Corpus.Nodes.{EdgeKind, Edge, RequirementLayer, RequirementNode, Node, edge_kind_eq}
use evidence.Corpus.Graph.{CorpusGraph, get}
use evidence.Corpus.Encoding.{push_count, push_str, push_opt, push_strs}

-- `RequirementLayer::as_str`
abbrev pub layer_str : RequirementLayer → Str
layer_str RequirementLayer.source = codes "source"
layer_str RequirementLayer.sys = codes "sys"
layer_str RequirementLayer.hlr = codes "hlr"
layer_str RequirementLayer.llr = codes "llr"
layer_str RequirementLayer.derived = codes "derived"

pub record RequirementReviewContentV1 : Type 0 where
  pub title : Str
  pub layer : RequirementLayer
  pub description : Option Str
  pub rationale : Option Str
  pub scope : Option Str
  pub category : Option Str
  pub source : Option Str
  pub verification_methods : List Str
  pub derives_from : List Str
  pub safety_impact : Option Str

-- `canonical_strings_in_place`, and `canonical_strings` of graph/nodes.rs.
unfoldable pub canonical_strings : List Str → List Str
canonical_strings values = dedup (sort values)

unfoldable pub canonicalize : RequirementReviewContentV1 → RequirementReviewContentV1
unfolding canonical_strings
canonicalize c = record c {
  verification_methods = canonical_strings c.verification_methods;
  derives_from = canonical_strings c.derives_from;
}

unfoldable pub derives_from_targets : List Edge → List Str
derives_from_targets [] = []
derives_from_targets ((kind, target) ∷ es) =
    if edge_kind_eq kind EdgeKind.derives_from
    then target ∷ derives_from_targets es
    else derives_from_targets es

unfoldable pub from_node : RequirementNode → RequirementReviewContentV1
unfolding canonicalize derives_from_targets
from_node node = canonicalize (record {
  title = node.title;
  layer = node.layer;
  description = node.description;
  rationale = node.rationale;
  scope = node.scope;
  category = node.category;
  source = node.source;
  verification_methods = node.verification_methods;
  derives_from = derives_from_targets node.edges;
  safety_impact = node.safety_impact;
})

abbrev pub content_of : Option Node → Option RequirementReviewContentV1
content_of (some (Node.requirement node)) = some (from_node node)
content_of _ = none

-- `CorpusGraph::review_content`
unfoldable pub review_content : CorpusGraph → Str → Option RequirementReviewContentV1
review_content g uid = content_of (get uid g)

abbrev pub domain_tag_v1 : Str
domain_tag_v1 = codes "evidence/requirement-review-content/v1"

-- Each `let` is the buffer after one push.
unfoldable pub canonical_bytes_v1 : RequirementReviewContentV1 → Str
unfolding canonical_strings
canonical_bytes_v1 c =
    let methods = canonical_strings c.verification_methods in
    let targets = canonical_strings c.derives_from in
    let out0 = domain_tag_v1 ++ 0 ∷ [] in
    let out1 = push_str out0 c.title in
    let out2 = push_str out1 (layer_str c.layer) in
    let out3 = push_opt out2 c.description in
    let out4 = push_opt out3 c.rationale in
    let out5 = push_opt out4 c.scope in
    let out6 = push_opt out5 c.category in
    let out7 = push_opt out6 c.source in
    let out8 = push_count out7 (length methods) in
    let out9 = push_strs out8 methods in
    let out10 = push_count out9 (length targets) in
    let out11 = push_strs out10 targets in push_opt out11 c.safety_impact

unfoldable pub review_content_digest_v1 : (Str → Str) → RequirementReviewContentV1 → Str
unfolding canonical_bytes_v1
review_content_digest_v1 sha256 c = sha256 (canonical_bytes_v1 c)
