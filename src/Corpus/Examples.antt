-- ===== src/Corpus/Examples.antt =====
-- A small corpus on which the theorems are applied: two revisions of one document, two
-- requirements, a superseded review and its successor, and a curated patch.
mod Graphs
mod Lifecycles
mod Contents
pub mod Sources
mod Patches
pub mod EntryPoints
mod Transitions
pub mod Applications
mod Approvals
mod Identities
mod Boundaries
use evidence.Prelude.{Str, codes, none, some, [], ◌∷◌, str_ord, true, ◌≡◌, refl}
use evidence.BTreeMap
use evidence.Corpus.Nodes.{
  EdgeKind, RequirementLayer, ReviewDecision, RequirementNode, ReviewTarget, ReviewNode,
  SourceMaterial, SourceRevisionNode, Node, new_requirement, edge_kind_ord,
}
use evidence.Corpus.SourcePatches.{SourcePatchRecord}
use evidence.Corpus.Graph.{CorpusGraph, same_human_id}
use evidence.Corpus.Graph.Invariant.{IsWellFormed}

abbrev pub first_revision : SourceRevisionNode
first_revision = record {
  uid = codes "d1";
  id = codes "SRC-1";
  document_key = codes "do";
  title = codes "A";
  media_type = codes "text/html";
  canonical_location = codes "x";
  material = SourceMaterial.unavailable (codes "paywalled");
  edges = [];
}

abbrev pub second_revision : SourceRevisionNode
second_revision = record first_revision {
  uid = codes "d2";
  id = codes "SRC-2";
  edges = (EdgeKind.supersedes, codes "d1") ∷ [];
}

abbrev pub hlr : RequirementNode
hlr = new_requirement (codes "r1") (codes "HLR-1") (codes "T") RequirementLayer.hlr []

abbrev pub llr : RequirementNode
llr =
    new_requirement (codes "r2") (codes "LLR-1") (codes "U") RequirementLayer.llr
      ((EdgeKind.derives_from, codes "r1") ∷ [])

abbrev pub first_review : ReviewNode
first_review = record {
  uid = codes "v1";
  id = codes "RV-1";
  target = ReviewTarget.requirement (codes "r1");
  content_schema = 1;
  reviewed_content_sha256 = codes "ab";
  decision = ReviewDecision.reject;
  reviewer = codes "amy";
  reviewed_at = codes "2024";
  rationale = none;
  edges = (EdgeKind.reviews, codes "r1") ∷ [];
}

abbrev pub second_review : ReviewNode
second_review = record first_review {
  uid = codes "v2";
  id = codes "RV-2";
  decision = ReviewDecision.approve;
  edges = (EdgeKind.reviews, codes "r1") ∷ (EdgeKind.supersedes, codes "v1") ∷ [];
}

abbrev pub patch : SourcePatchRecord
patch = record {
  uid = codes "p1";
  human_id = codes "PATCH-1";
  source_revision_uid = codes "d2";
  recipe_digest = codes "1";
  input_digest = codes "2";
  pre_patch_graph_digest = codes "3";
  reviewed_content_digest = codes "ab";
  author = codes "amy";
  rationale = codes "fix";
  created_at = codes "2024";
  operations = [];
}

abbrev pub demo : CorpusGraph
demo = record {
  nodes =
      (codes "d1", Node.source_revision first_revision)
      ∷ (codes "d2", Node.source_revision second_revision)
      ∷ (codes "r1", Node.requirement hlr)
      ∷ (codes "v1", Node.review first_review)
      ∷ (codes "v2", Node.review second_review)
      ∷ [];
  trace_metadata = [];
  source_graphs = [];
  source_patches = (codes "p1", patch) ∷ [];
}

pub demo-IsWellFormed : IsWellFormed demo
unfolding new_requirement same_human_id
demo-IsWellFormed = record {
  sorted = (
    (refl, (refl, (refl, (refl, tt)))),
    ((refl, (refl, (refl, tt))), ((refl, (refl, tt)), ((refl, tt), (tt, tt)))),
  );
  keyed = (refl, (refl, (refl, (refl, (refl, tt)))));
  canonical = (tt, (tt, (tt, (tt, ((refl, tt), tt)))));
  unique_ids = (
    (refl, (refl, (refl, (refl, tt)))),
    ((refl, (refl, (refl, tt))), ((refl, (refl, tt)), ((refl, tt), (tt, tt)))),
  );
}
