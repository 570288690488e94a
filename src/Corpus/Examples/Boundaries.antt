-- ===== src/Corpus/Examples/Boundaries.antt =====
-- The gate on claims, applied to a test that verifies a requirement, which itself claims a module.
use evidence.Prelude.{codes, none, [], ◌∷◌, ok, ◌≡◌, ◌↔◌, refl}
use evidence.Corpus.Nodes.{EdgeKind, Node, new_requirement}
use evidence.Corpus.Graph.{CorpusGraph, TraceMetadata, same_human_id}
use evidence.Corpus.Graph.Invariant.{IsWellFormed}
use evidence.Corpus.ApprovalBoundary.{LifecycleEnforcement, validate_approval_boundary}
use evidence.Corpus.ApprovalBoundary.Backed.{IsBacked, validate_approval_boundary_iff}
use evidence.Corpus.Examples.{hlr}
use evidence.Corpus.Examples.EntryPoints.{one_digest, no_float}

abbrev claimed : CorpusGraph
claimed = record {
  nodes =
      (codes "r1", Node.requirement hlr)
      ∷ (
        codes "t1",
        Node.test (record {
          uid = codes "t1";
          id = codes "TEST-1";
          title = codes "T";
          selectors = [];
          edges = (EdgeKind.verifies, codes "r1") ∷ [];
        }),
      )
      ∷ [];
  trace_metadata =
      (
        codes "r1",
        TraceMetadata.requirement (record {
          namespace = none;
          sort_key = none;
          scope = none;
          category = none;
          source = none;
          modules = codes "core" ∷ [];
          surfaces = [];
          emits = [];
          verification_methods = [];
        }),
      )
      ∷ [];
  source_graphs = [];
  source_patches = [];
}

claimed-IsWellFormed : IsWellFormed claimed
unfolding new_requirement same_human_id
claimed-IsWellFormed = record {
  sorted = ((refl, tt), (tt, tt));
  keyed = (refl, (refl, tt));
  canonical = (tt, (tt, tt));
  unique_ids = ((refl, tt), (tt, tt));
}

validate_approval_boundary_iff_example :
    (validate_approval_boundary one_digest no_float claimed LifecycleEnforcement.required ≡ ok tt)
    ↔ IsBacked one_digest no_float claimed
validate_approval_boundary_iff_example =
    validate_approval_boundary_iff one_digest no_float claimed claimed-IsWellFormed
