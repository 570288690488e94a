-- ===== src/Trace/Assurance/Projected.antt =====
-- The surfaces that each node of a graph claims, and those of the node of an entry.
use mathlib.Core.List.{Memᴰ}
use evidence.Prelude.{
  Str, Option, none, some, List, [], ◌∷◌, Result, ok, ◌>>=◌, >>=-eq-ok, ok_injective,
  some_injective, All, All-mem, str_ord, ◌≡◌, refl, sym, ap, ◌∙◌,
}
use evidence.BTreeMap
use evidence.BTreeMap.{BTreeMap, values}
use evidence.Corpus.Nodes.{
  RequirementLayer, Edge, RequirementNode, Node, node_uid, node_id, with_edges,
}
use evidence.Corpus.Errors.{CorpusError}
use evidence.Corpus.Graph.{CorpusGraph, RequirementMetadata, TraceMetadata, get}
use evidence.Corpus.Graph.Invariant.{stored, node_uid-with_edges}
use evidence.Corpus.Legacy.{AdaptedNode, require_uid}
use evidence.Corpus.Legacy.Entries.{Holds, HoldsEntry}
use evidence.Corpus.Legacy.Adapted.{Listed, required}
use evidence.Trace.Entries.{HlrEntry}
use evidence.Trace.Surfaces.{Claimants, add_claims, from_hlr_entries}
use evidence.Trace.Surfaces.Claimed.{claim_all}
use evidence.Trace.Assurance.{
  AssuranceBijections, layer_claims, metadata_claims, node_claims, claims_of_nodes,
}

abbrev pub layer_surfaces : RequirementLayer → RequirementMetadata → List Str
layer_surfaces RequirementLayer.hlr metadata = metadata.surfaces
layer_surfaces _ metadata = []

abbrev pub hlr_surfaces : RequirementLayer → Option TraceMetadata → List Str
hlr_surfaces l (some (TraceMetadata.requirement metadata)) = layer_surfaces l metadata
hlr_surfaces l (some (TraceMetadata.test metadata)) = []
hlr_surfaces l none = []

abbrev pub node_surfaces : Node → Option TraceMetadata → List Str
node_surfaces (Node.requirement r) o = hlr_surfaces r.layer o
node_surfaces _ o = []

abbrev pub surfaces_in : CorpusGraph → Node → List Str
surfaces_in g n = node_surfaces n (BTreeMap.get (node_uid n) g.trace_metadata)

-- Each step of the projection adds the surfaces of one node.
layer_claims_lem :
    (l : RequirementLayer) (id : Str) (metadata : RequirementMetadata) (m : AssuranceBijections)
    → (layer_claims l id metadata m).surface_claimants
      ≡ add_claims id (layer_surfaces l metadata) m.surface_claimants
unfolding layer_claims add_claims
layer_claims_lem RequirementLayer.source id metadata m = refl
layer_claims_lem RequirementLayer.sys id metadata m = refl
layer_claims_lem RequirementLayer.hlr id metadata m = refl
layer_claims_lem RequirementLayer.llr id metadata m = refl
layer_claims_lem RequirementLayer.derived id metadata m = refl

metadata_claims_lem :
    (r : RequirementNode) (o : Option TraceMetadata) (m : AssuranceBijections)
    → (metadata_claims r o m).surface_claimants
      ≡ add_claims r.id (hlr_surfaces r.layer o) m.surface_claimants
unfolding add_claims
metadata_claims_lem r (some (TraceMetadata.requirement metadata)) m =
    layer_claims_lem r.layer r.id metadata m
metadata_claims_lem r (some (TraceMetadata.test metadata)) m = refl
metadata_claims_lem r none m = refl

node_claims_lem :
    (g : CorpusGraph) (n : Node) (m : AssuranceBijections)
    → (node_claims g n m).surface_claimants
      ≡ add_claims (node_id n) (surfaces_in g n) m.surface_claimants
unfolding node_claims add_claims
node_claims_lem g (Node.requirement r) m =
    metadata_claims_lem r (BTreeMap.get r.uid g.trace_metadata) m
node_claims_lem g (Node.test t) m = refl
node_claims_lem g (Node.review r) m = refl
node_claims_lem g (Node.source_revision r) m = refl

pub claims_of_nodes_lem :
    (g : CorpusGraph) (m : AssuranceBijections) (ns : List Node)
    → (claims_of_nodes g m ns).surface_claimants
      ≡ claim_all node_id (surfaces_in g) m.surface_claimants ns
unfolding claims_of_nodes
claims_of_nodes_lem g m [] = refl
claims_of_nodes_lem g m (n ∷ ns) =
    claims_of_nodes_lem g (node_claims g n m) ns
    ∙ ap (λ x. claim_all node_id (surfaces_in g) x ns) (node_claims_lem g n m)

pub from_hlr_entries_lem :
    (m : Claimants) (es : List HlrEntry)
    → from_hlr_entries m es ≡ claim_all (λ e. e.id) (λ e. e.surfaces) m es
unfolding from_hlr_entries
from_hlr_entries_lem m [] = refl
from_hlr_entries_lem m (e ∷ es) = from_hlr_entries_lem (add_claims e.id e.surfaces m) es

-- The surfaces of an entry's node are those of the entry as it was adapted.
node_surfaces-with_edges :
    (n : Node) (es : List Edge) (o : Option TraceMetadata)
    → node_surfaces (with_edges n es) o ≡ node_surfaces n o
node_surfaces-with_edges (Node.requirement r) es o = refl
node_surfaces-with_edges (Node.test t) es o = refl
node_surfaces-with_edges (Node.review r) es o = refl
node_surfaces-with_edges (Node.source_revision r) es o = refl

abbrev pub shown : AdaptedNode → List Str
shown a = node_surfaces a.node (some a.metadata)

stored_surfaces :
    (g : CorpusGraph) (a : AdaptedNode) → Holds g a → surfaces_in g (stored a.node) ≡ shown a
stored_surfaces g a held =
    ap (λ u. node_surfaces (stored a.node) (BTreeMap.get u g.trace_metadata))
      (node_uid-with_edges a.node _)
    ∙ ap (node_surfaces (stored a.node)) held.1
    ∙ node_surfaces-with_edges a.node _ (some a.metadata)

module _ {A : Type 0} (uid_of : A → Option Str) (id_of : A → Str) (make : A → Str → AdaptedNode)
    (named : (x : A) (uid : Str) → node_uid (make x uid).node ≡ uid) (shows : A → List Str)
    (made : (x : A) (uid : Str) → shown (make x uid) ≡ shows x) (g : CorpusGraph) where
  abbrev adapt : A → Result CorpusError AdaptedNode
  adapt x = require_uid (uid_of x) (id_of x) >>= λ uid. ok (make x uid)

  entry_surfaces :
      (x : A) (a : AdaptedNode)
      → adapt x ≡ ok a
      → (uid_of x ≡ some (node_uid a.node)) × (shown a ≡ shows x)
  entry_surfaces x a adapted =
      let (u, at_u, same) = >>=-eq-ok (require_uid (uid_of x) (id_of x)) _ adapted in
      let one : make x u ≡ a = ok_injective same in
      (
        required (uid_of x) (id_of x) u at_u
            ∙ ap some (sym (named x u) ∙ ap (λ b. node_uid b.node) one),
        ap shown (sym one) ∙ made x u,
      )

  pub held_node :
      (x : A)
      → HoldsEntry adapt g x
      → (n : Node) × (uid : Str) × (uid_of x ≡ some uid)
        × (get uid g ≡ some n)
        × (surfaces_in g n ≡ shows x)
  held_node x (a, adapted, now) =
      let (at_uid, same) = entry_surfaces x a adapted in
      (stored a.node, node_uid a.node, at_uid, now.0, stored_surfaces g a now ∙ same)

  pub listed_node :
      (xs : List A) (uid : Str) (n : Node)
      → All (HoldsEntry adapt g) xs
      → get uid g ≡ some n
      → Listed uid_of xs uid
      → (x : A) × Memᴰ x xs × (surfaces_in g n ≡ shows x)
  listed_node xs uid n all at_n (x, i, at_uid) =
      let (k, u, at_u, at_k, same) = held_node x (All-mem (HoldsEntry adapt g) xs x all i) in
      let one : u ≡ uid = some_injective (sym at_u ∙ at_uid) in
      let node : n ≡ k = some_injective (sym at_n ∙ ap (λ v. get v g) (sym one) ∙ at_k) in
      (x, i, ap (surfaces_in g) node ∙ same)
