-- ===== src/Corpus/Legacy.antt =====
-- The adapter from trace entries to the corpus graph: crates/evidence-core/src/corpus/legacy.rs.
pub mod Entries
pub mod Adapted
use evidence.Prelude.{Str, Option, none, some, List, [], map, Result, ok, err, ◌>>=◌, try_fold}
use evidence.Corpus.Nodes.{EdgeKind, Edge, RequirementLayer, RequirementNode, TestNode, Node}
use evidence.Corpus.Errors.{CorpusError}
use evidence.Corpus.ReviewContent.{canonical_strings}
use evidence.Corpus.Graph.{
  CorpusGraph, RequirementMetadata, TestMetadata, TraceMetadata, new, insert_with_trace_metadata,
}
use evidence.Trace.Entries.{HlrEntry, LlrEntry, TestEntry, DerivedEntry, all_selectors}

pub record AdaptedNode : Type 0 where
  pub node : Node
  pub metadata : TraceMetadata

abbrev pub require_uid : Option Str → Str → Result CorpusError Str
require_uid none id = err (CorpusError.legacy_missing_uid id)
require_uid (some uid) id = ok uid

abbrev pub derives_from_edges : List Str → List Edge
derives_from_edges traces_to = map (λ target. (EdgeKind.derives_from, target)) traces_to

abbrev pub verifies_edges : List Str → List Edge
verifies_edges traces_to = map (λ target. (EdgeKind.verifies, target)) traces_to

abbrev pub hlr_node : HlrEntry → RequirementLayer → Str → AdaptedNode
hlr_node entry layer uid = record {
  node = Node.requirement (record {
    uid = uid;
    id = entry.id;
    title = entry.title;
    layer = layer;
    edges = derives_from_edges entry.traces_to;
    description = entry.description;
    rationale = entry.rationale;
    scope = entry.scope;
    category = entry.category;
    source = entry.source;
    verification_methods = canonical_strings entry.verification_methods;
    safety_impact = none;
  });
  metadata = TraceMetadata.requirement (record {
    namespace = entry.ns;
    sort_key = entry.sort_key;
    scope = entry.scope;
    category = entry.category;
    source = entry.source;
    modules = [];
    surfaces = canonical_strings entry.surfaces;
    emits = [];
    verification_methods = canonical_strings entry.verification_methods;
  });
}

abbrev pub llr_node : LlrEntry → Str → AdaptedNode
llr_node entry uid = record {
  node = Node.requirement (record {
    uid = uid;
    id = entry.id;
    title = entry.title;
    layer = RequirementLayer.llr;
    edges = derives_from_edges entry.traces_to;
    description = entry.description;
    rationale = none;
    scope = none;
    category = none;
    source = entry.source;
    verification_methods = canonical_strings entry.verification_methods;
    safety_impact = none;
  });
  metadata = TraceMetadata.requirement (record {
    namespace = entry.ns;
    sort_key = entry.sort_key;
    scope = none;
    category = none;
    source = entry.source;
    modules = entry.modules;
    surfaces = [];
    emits = canonical_strings entry.emits;
    verification_methods = canonical_strings entry.verification_methods;
  });
}

abbrev pub derived_node : DerivedEntry → Str → AdaptedNode
derived_node entry uid = record {
  node = Node.requirement (record {
    uid = uid;
    id = entry.id;
    title = entry.title;
    layer = RequirementLayer.derived;
    edges = [];
    description = entry.description;
    rationale = entry.rationale;
    scope = none;
    category = none;
    source = entry.source;
    verification_methods = [];
    safety_impact = entry.safety_impact;
  });
  metadata = TraceMetadata.requirement (record {
    namespace = none;
    sort_key = entry.sort_key;
    scope = none;
    category = none;
    source = entry.source;
    modules = [];
    surfaces = [];
    emits = [];
    verification_methods = [];
  });
}

abbrev pub test_node : TestEntry → Str → AdaptedNode
test_node entry uid = record {
  node = Node.test (record {
    uid = uid;
    id = entry.id;
    title = entry.title;
    selectors = all_selectors entry;
    edges = verifies_edges entry.traces_to;
  });
  metadata = TraceMetadata.test (record {
    namespace = entry.ns;
    sort_key = entry.sort_key;
    category = entry.category;
    source = entry.source;
    primary_selector = entry.test_selector;
  });
}

abbrev pub requirement_from_hlr_entry : RequirementLayer → HlrEntry → Result CorpusError AdaptedNode
requirement_from_hlr_entry layer entry =
    require_uid entry.uid entry.id >>= λ uid. ok (hlr_node entry layer uid)

abbrev pub requirement_from_llr_entry : LlrEntry → Result CorpusError AdaptedNode
requirement_from_llr_entry entry = require_uid entry.uid entry.id >>= λ uid. ok (llr_node entry uid)

abbrev pub requirement_from_derived_entry : DerivedEntry → Result CorpusError AdaptedNode
requirement_from_derived_entry entry =
    require_uid entry.uid entry.id >>= λ uid. ok (derived_node entry uid)

abbrev pub test_from_entry : TestEntry → Result CorpusError AdaptedNode
test_from_entry entry = require_uid entry.uid entry.id >>= λ uid. ok (test_node entry uid)

unfoldable pub insert_adapted : CorpusGraph → AdaptedNode → Result CorpusError CorpusGraph
unfolding insert_with_trace_metadata
insert_adapted graph adapted = insert_with_trace_metadata graph adapted.node adapted.metadata

-- One of the five loops.
unfoldable pub insert_entries :
    {A : Type 0}
    → (A → Result CorpusError AdaptedNode)
    → CorpusGraph
    → List A
    → Result CorpusError CorpusGraph
unfolding insert_adapted try_fold
insert_entries adapt graph entries =
    try_fold (λ g entry. adapt entry >>= λ adapted. insert_adapted g adapted) graph entries

unfoldable pub graph_from_trace_parts :
    List HlrEntry
    → List HlrEntry
    → List LlrEntry
    → List TestEntry
    → List DerivedEntry
    → Result CorpusError CorpusGraph
unfolding insert_entries
graph_from_trace_parts sys hlrs llrs tests derived =
    insert_entries (requirement_from_hlr_entry RequirementLayer.sys) new sys >>= λ g1.
    insert_entries (requirement_from_hlr_entry RequirementLayer.hlr) g1 hlrs >>= λ g2.
    insert_entries requirement_from_llr_entry g2 llrs >>= λ g3.
    insert_entries requirement_from_derived_entry g3 derived >>= λ g4.
    insert_entries test_from_entry g4 tests
