-- ===== src/Corpus/PatchApply.antt =====
-- Candidate application of a curated patch:
-- crates/evidence-core/src/corpus/source_patch/apply.rs.
pub mod Accepted
pub mod Digests
pub mod Invariant
pub mod Untouched
use evidence.Prelude.{
  ℕ, ◌==◌, Str, codes, Bool, true, false, not, Option, none, some, List, [], ◌∷◌, Result, ok, err,
  ◌>>=◌, ◌>>◌, map_err, try_fold, is_some, str_eq, str_ord, if◌then◌else◌,
}
use evidence.BTreeMap
use evidence.Corpus.SourceNodes.{
  SourceNodeKind, kind_str, source_kind_eq, SourceNode, SourceGraph, SourceGraphError, insert_node,
  opt_str_eq,
}
use evidence.Corpus.SourcePatches.{
  ChildDisposition, InsertedNodeSpec, PatchOperation, SourcePatchRecord, SourcePatchError,
}
use evidence.Corpus.SourceValidation.{content_digest, fingerprint, validate_graph_standalone}
use evidence.Corpus.Render.{source_graph_digest, show_nat}
use evidence.Corpus.PatchEdits.{
  ancestry_pairs, recompute_node_digests, reparent_children, remove_subtree,
}

pub record PatchBindings : Type 0 where
  pub recipe_digest : Str
  pub input_digest : Str

pub record PatchApplication : Type 0 where
  pub pre_patch_digest : Str
  pub patch_digest : Str
  pub post_patch_digest : Str
  pub graph : SourceGraph

unfoldable pub check_binding : Str → Str → Str → Str → Result SourcePatchError (Unit {0})
check_binding patch_uid field expected actual =
    if not (str_eq expected actual)
    then err (SourcePatchError.stale_binding patch_uid field expected actual)
    else ok tt

-- `graph.get(target_uid).ok_or_else(|| dangling(..))`
unfoldable pub target_node : SourceGraph → Str → Str → Result SourcePatchError SourceNode
target_node g patch_uid target_uid = elim (BTreeMap.get target_uid g) [
  | none ↦ err (SourcePatchError.dangling_target patch_uid target_uid)
  | some node ↦ ok node
]

unfoldable pub check_content_digest :
    Str → ℕ → SourceNode → Str → Result SourcePatchError (Unit {0})
check_content_digest patch_uid ordinal node expected =
    if not (str_eq node.content_sha256 expected)
    then err (
        SourcePatchError.stale_precondition patch_uid ordinal node.uid (codes "content_sha256")
          expected node.content_sha256)
    else ok tt

-- A parent that an operation names must be in the graph.
unfoldable pub check_new_parent :
    SourceGraph → Str → Option Str → Result SourcePatchError (Unit {0})
check_new_parent g patch_uid none = ok tt
check_new_parent g patch_uid (some parent) =
    if is_some (BTreeMap.get parent g)
    then ok tt
    else err (SourcePatchError.dangling_target patch_uid parent)

abbrev pub or_root : Option Str → Str
or_root none = codes "<root>"
or_root (some uid) = uid

abbrev pub or_keep : Str → Option Str → Str
or_keep old none = old
or_keep old (some text) = text

abbrev pub or_keep_label : Option Str → Option Str → Option Str
or_keep_label old none = old
or_keep_label old (some label) = some label

unfoldable pub check_position :
    Str → ℕ → SourceNode → Str → Option Str → ℕ → Result SourcePatchError (Unit {0})
check_position patch_uid ordinal node target_uid expected_parent_uid expected_ordinal =
    if not (opt_str_eq node.parent_uid expected_parent_uid)
    then err (
        SourcePatchError.stale_precondition patch_uid ordinal target_uid (codes "parent_uid")
          (or_root expected_parent_uid) (or_root node.parent_uid))
    else if not (node.ordinal == expected_ordinal)
    then err (
        SourcePatchError.stale_precondition patch_uid ordinal target_uid (codes "ordinal")
          (show_nat expected_ordinal) (show_nat node.ordinal))
    else ok tt

unfoldable pub collision : Str → Str → SourceGraphError → SourcePatchError
collision patch_uid node_uid (SourceGraphError.duplicate_uid _ uid) =
    SourcePatchError.inserted_identity_collision patch_uid uid (codes "uid") node_uid
collision patch_uid node_uid (SourceGraphError.duplicate_human_id _ _ _ first_uid duplicate_uid) =
    SourcePatchError.inserted_identity_collision patch_uid duplicate_uid (codes "label") first_uid
collision patch_uid node_uid other = SourcePatchError.invalid_post_graph patch_uid other

unfoldable pub inserted_node :
    (Str → Str) → SourceGraph → SourcePatchRecord → Option Str → InsertedNodeSpec → SourceNode
inserted_node sha256 g patch expected_parent_uid node = record {
  uid = node.uid;
  source_revision_uid = patch.source_revision_uid;
  parent_uid = expected_parent_uid;
  kind = node.kind;
  ordinal = node.ordinal;
  label = node.label;
  canonical_text = node.canonical_text;
  content_sha256 = content_digest sha256 node.kind node.canonical_text;
  fingerprint = fingerprint sha256 node.kind node.label (ancestry_pairs g expected_parent_uid);
  locator = node.locator;
}

unfoldable pub apply_operation :
    (Str → Str)
    → SourcePatchRecord
    → SourceGraph
    → PatchOperation
    → Result SourcePatchError SourceGraph
unfolding target_node check_content_digest check_new_parent check_position inserted_node collision
apply_operation sha256 patch g
      (PatchOperation.replace_content ordinal target_uid expected_content_sha256 new_canonical_text
        new_label) =
    target_node g patch.uid target_uid >>= λ node.
    check_content_digest patch.uid ordinal node expected_content_sha256
    >> ok (
        BTreeMap.update
          (λ n. record n {
            canonical_text = or_keep n.canonical_text new_canonical_text;
            label = or_keep_label n.label new_label;
          })
          target_uid g)
apply_operation sha256 patch g
      (PatchOperation.reclassify ordinal target_uid expected_kind new_kind) =
    target_node g patch.uid target_uid >>= λ node.
    if not (source_kind_eq node.kind expected_kind)
    then err (
        SourcePatchError.stale_precondition patch.uid ordinal target_uid (codes "kind")
          (kind_str expected_kind) (kind_str node.kind))
    else ok (BTreeMap.update (λ n. record n { kind = new_kind }) target_uid g)
apply_operation sha256 patch g
      (PatchOperation.reparent ordinal target_uid expected_parent_uid expected_ordinal
        new_parent_uid new_ordinal) =
    target_node g patch.uid target_uid >>= λ node.
    check_position patch.uid ordinal node target_uid expected_parent_uid expected_ordinal
    >> (check_new_parent g patch.uid new_parent_uid
        >> ok (
            BTreeMap.update (λ n. record n { parent_uid = new_parent_uid; ordinal = new_ordinal })
              target_uid g))
apply_operation sha256 patch g (PatchOperation.insert_node ordinal expected_parent_uid node) =
    check_new_parent g patch.uid expected_parent_uid
    >> map_err (collision patch.uid node.uid)
        (insert_node g (inserted_node sha256 g patch expected_parent_uid node))
apply_operation sha256 patch g
      (PatchOperation.remove ordinal target_uid expected_digest
        ChildDisposition.reparent_children) =
    target_node g patch.uid target_uid >>= λ node.
    check_content_digest patch.uid ordinal node expected_digest
    >> ok (reparent_children g target_uid)
apply_operation sha256 patch g
      (PatchOperation.remove ordinal target_uid expected_digest ChildDisposition.remove_subtree) =
    target_node g patch.uid target_uid >>= λ node.
    check_content_digest patch.uid ordinal node expected_digest >> ok (remove_subtree g target_uid)

unfoldable pub apply_patch :
    (Str → Str)
    → (ℕ → Str)
    → SourceGraph
    → SourcePatchRecord
    → PatchBindings
    → Str
    → Result SourcePatchError PatchApplication
unfolding check_binding apply_operation
apply_patch sha256 show_float g patch bindings media_type =
    let revision_uid = patch.source_revision_uid in
    map_err (SourcePatchError.pre_graph_invalid patch.uid)
      (validate_graph_standalone sha256 revision_uid media_type g)
    >> (check_binding patch.uid (codes "recipe_digest") patch.recipe_digest bindings.recipe_digest
        >> (check_binding patch.uid (codes "input_digest") patch.input_digest bindings.input_digest
            >> (check_binding patch.uid (codes "pre_patch_graph_digest")
                  patch.pre_patch_graph_digest (source_graph_digest sha256 show_float g)
                >> (try_fold (apply_operation sha256 patch) g patch.operations >>= λ edited.
                    let working = recompute_node_digests sha256 edited in
                    map_err (SourcePatchError.invalid_post_graph patch.uid)
                      (validate_graph_standalone sha256 revision_uid media_type working)
                    >> ok (record {
                      pre_patch_digest = source_graph_digest sha256 show_float g;
                      patch_digest = patch.reviewed_content_digest;
                      post_patch_digest = source_graph_digest sha256 show_float working;
                      graph = working;
                    })))))
