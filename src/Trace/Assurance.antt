-- ===== src/Trace/Assurance.antt =====
-- The assurance mappings of a corpus graph: crates/evidence-core/src/trace/assurance.rs, without the
-- surface errors, which the module Surfaces has.
pub mod Projected
pub mod Listed
use evidence.Prelude.{Str, not, Option, some, List, [], ◌∷◌, contains, filter, sort, dedup, str_ord}
use evidence.BTreeMap
use evidence.BTreeMap.{keys}
use evidence.Corpus.Nodes.{RequirementLayer, RequirementNode, Node}
use evidence.Corpus.Graph.{CorpusGraph, RequirementMetadata, TraceMetadata, nodes_of}
use evidence.Trace.Entries.{HlrEntry}
use evidence.Trace.Surfaces.{Claimants, add_claims, from_hlr_entries}

pub record BijectionDiff : Type 0 where
  pub unknown : List Str
  pub unclaimed : List Str

pub record AssuranceBijections : Type 0 where
  pub surface_claimants : Claimants
  pub diagnostic_claimants : Claimants

abbrev pub default_bijections : AssuranceBijections
default_bijections = record { surface_claimants = []; diagnostic_claimants = [] }

unfoldable pub layer_claims :
    RequirementLayer → Str → RequirementMetadata → AssuranceBijections → AssuranceBijections
unfolding add_claims
layer_claims RequirementLayer.hlr id metadata mappings = record mappings {
  surface_claimants = add_claims id metadata.surfaces mappings.surface_claimants;
}
layer_claims RequirementLayer.llr id metadata mappings = record mappings {
  diagnostic_claimants = add_claims id metadata.emits mappings.diagnostic_claimants;
}
layer_claims _ id metadata mappings = mappings

abbrev pub metadata_claims :
    RequirementNode → Option TraceMetadata → AssuranceBijections → AssuranceBijections
metadata_claims r (some (TraceMetadata.requirement metadata)) mappings =
    layer_claims r.layer r.id metadata mappings
metadata_claims r _ mappings = mappings

unfoldable pub node_claims : CorpusGraph → Node → AssuranceBijections → AssuranceBijections
unfolding layer_claims
node_claims graph (Node.requirement r) mappings =
    metadata_claims r (BTreeMap.get r.uid graph.trace_metadata) mappings
node_claims graph _ mappings = mappings

unfoldable pub claims_of_nodes : CorpusGraph → AssuranceBijections → List Node → AssuranceBijections
unfolding node_claims
claims_of_nodes graph mappings [] = mappings
claims_of_nodes graph mappings (node ∷ nodes) =
    claims_of_nodes graph (node_claims graph node mappings) nodes

unfoldable pub from_graph : CorpusGraph → AssuranceBijections
unfolding claims_of_nodes
from_graph graph = claims_of_nodes graph default_bijections (nodes_of graph)

-- The mappings of the HLRs alone.
unfoldable pub from_entries : List HlrEntry → AssuranceBijections
unfolding from_hlr_entries
from_entries hlrs = record default_bijections { surface_claimants = from_hlr_entries [] hlrs }

-- A set of texts is read in order.
unfoldable pub diagnostic_diff : AssuranceBijections → List Str → List Str → BijectionDiff
diagnostic_diff mappings known reserved = record {
  unknown = filter (λ code. not (contains known code)) (keys mappings.diagnostic_claimants);
  unclaimed =
      filter (λ code. not (BTreeMap.contains_key code mappings.diagnostic_claimants))
        (filter (λ code. not (contains reserved code)) (dedup (sort known)));
}
