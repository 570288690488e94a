-- ===== src/Corpus/Transition.antt =====
-- The transition from one source baseline to the next:
-- crates/evidence-core/src/corpus/source/lineage/transition.rs.
pub mod Diff
pub mod Extension
pub mod Growth
use evidence.Prelude.{
  ℕ, Str, Bool, true, false, not, Option, none, some, List, Result, ok, err, ◌>>◌, map_err,
  for_each, is_some, codes, str_eq, str_ord, ◌&&◌, if◌then◌else◌,
}
use evidence.BTreeMap
use evidence.BTreeMap.{BTreeMap}
use evidence.Corpus.Nodes.{SourceCapture, SourceMaterial, SourceRevisionNode, Node}
use evidence.Corpus.SourceNodes.{opt_str_eq}
use evidence.Corpus.Errors.{CorpusError}
use evidence.Corpus.Graph.{CorpusGraph, get, nodes_of}
use evidence.Corpus.Lineage.{supersedes_target, effective_source_heads}
use evidence.Corpus.Validate.{validate}

-- The variants of `SourceError` that a transition returns; they stand apart from the others, since
-- one of them carries a `CorpusError`.
pub data TransitionError : Type 0 where
  invalid_graph : (graph : Str) (source : CorpusError) → TransitionError
  removal : (uid : Str) → TransitionError
  mutation : (uid field : Str) → TransitionError
  competing_head : (uid document_key prior_head_uid : Str) → TransitionError

pub record SourceRevisionProjection : Type 0 where
  pub uid : Str
  pub id : Str
  pub document_key : Str
  pub title : Str
  pub media_type : Str
  pub canonical_location : Str
  pub material : SourceMaterial
  pub supersedes : Option Str

unfoldable pub project : SourceRevisionNode → SourceRevisionProjection
project node = record {
  uid = node.uid;
  id = node.id;
  document_key = node.document_key;
  title = node.title;
  media_type = node.media_type;
  canonical_location = node.canonical_location;
  material = node.material;
  supersedes = supersedes_target node;
}

-- `==` on captures.
unfoldable pub capture_eq : SourceCapture → SourceCapture → Bool
capture_eq (SourceCapture.vendored p) (SourceCapture.vendored q) = str_eq p q
capture_eq SourceCapture.hash_only SourceCapture.hash_only = true
capture_eq (SourceCapture.external_controlled s i) (SourceCapture.external_controlled t j) =
    str_eq s t && str_eq i j
capture_eq _ _ = false

unfoldable pub material_diff : SourceMaterial → SourceMaterial → Option Str
unfolding capture_eq
material_diff (SourceMaterial.available at sha256 capture)
      (SourceMaterial.available at' sha256' capture') =
    if not (str_eq at at')
    then some (codes "retrieved_at")
    else if not (str_eq sha256 sha256')
    then some (codes "sha256")
    else if not (capture_eq capture capture')
    then some (codes "capture")
    else none
material_diff (SourceMaterial.unavailable reason) (SourceMaterial.unavailable reason') =
    if not (str_eq reason reason') then some (codes "reason") else none
material_diff _ _ = some (codes "material")

abbrev pub or_else : Option Str → Option Str → Option Str
or_else (some field) rest = some field
or_else none rest = rest

unfoldable pub projection_diff : SourceRevisionProjection → SourceRevisionProjection → Option Str
unfolding material_diff
projection_diff prior proposed =
    if not (str_eq prior.id proposed.id)
    then some (codes "id")
    else if not (str_eq prior.document_key proposed.document_key)
    then some (codes "document_key")
    else if not (str_eq prior.title proposed.title)
    then some (codes "title")
    else if not (str_eq prior.media_type proposed.media_type)
    then some (codes "media_type")
    else if not (str_eq prior.canonical_location proposed.canonical_location)
    then some (codes "canonical_location")
    else or_else (material_diff prior.material proposed.material) (
        if not (opt_str_eq prior.supersedes proposed.supersedes)
        then some (codes "supersedes")
        else none)

unfoldable pub mutated : Str → Option Str → Result TransitionError (Unit {0})
mutated uid none = ok tt
mutated uid (some field) = err (TransitionError.mutation uid field)

-- What the proposed graph has under the uid of a prior revision.
unfoldable pub check_retained : SourceRevisionNode → Option Node → Result TransitionError (Unit {0})
unfolding mutated projection_diff project
check_retained prior none = err (TransitionError.removal prior.uid)
check_retained prior (some (Node.source_revision proposed)) =
    mutated prior.uid (projection_diff (project prior) (project proposed))
check_retained prior (some _) = err (TransitionError.mutation prior.uid (codes "kind"))

unfoldable pub retain_node : CorpusGraph → Node → Result TransitionError (Unit {0})
unfolding check_retained
retain_node proposed (Node.source_revision prior) = check_retained prior (get prior.uid proposed)
retain_node proposed _ = ok tt

-- A new document key is free.
unfoldable pub check_extends : SourceRevisionNode → Option Str → Result TransitionError (Unit {0})
check_extends new_revision none = ok tt
check_extends new_revision (some prior_head_uid) =
    if not (opt_str_eq (supersedes_target new_revision) (some prior_head_uid))
    then err
        (TransitionError.competing_head new_revision.uid new_revision.document_key prior_head_uid)
    else ok tt

unfoldable pub extend_node :
    CorpusGraph → BTreeMap Str Str → Node → Result TransitionError (Unit {0})
unfolding check_extends
extend_node prior heads (Node.source_revision new_revision) =
    if is_some (get new_revision.uid prior)
    then ok tt
    else check_extends new_revision (BTreeMap.get new_revision.document_key heads)
extend_node prior heads _ = ok tt

unfoldable pub validate_source_transition :
    (Str → Str) → (ℕ → Str) → CorpusGraph → CorpusGraph → Result TransitionError (Unit {0})
unfolding retain_node extend_node
validate_source_transition sha256 show_float prior proposed =
    map_err (TransitionError.invalid_graph (codes "prior")) (validate sha256 show_float prior)
    >> (for_each (retain_node proposed) (nodes_of prior)
        >> (for_each (extend_node prior (effective_source_heads prior)) (nodes_of proposed)
            >> map_err (TransitionError.invalid_graph (codes "proposed"))
                (validate sha256 show_float proposed)))
