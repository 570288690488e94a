-- ===== src/Corpus/SourcePatches.antt =====
-- Curated patch records: crates/evidence-core/src/corpus/source_patch.rs and source_patch/records.rs.
use evidence.Prelude.{ℕ, Str, Option, List}
use evidence.Corpus.SourceNodes.{SourceNodeKind, SourceLocator, SourceGraphError}

pub data ChildDisposition : Type 0 where
  reparent_children remove_subtree : ChildDisposition

pub record InsertedNodeSpec : Type 0 where
  pub uid : Str
  pub kind : SourceNodeKind
  pub ordinal : ℕ
  pub label : Option Str
  pub canonical_text : Str
  pub locator : SourceLocator

pub data PatchOperation : Type 0 where
  replace_content :
      (ordinal : ℕ) (target_uid expected_content_sha256 : Str)
      (new_canonical_text new_label : Option Str)
      → PatchOperation
  reclassify :
      (ordinal : ℕ) (target_uid : Str) (expected_kind new_kind : SourceNodeKind) → PatchOperation
  reparent :
      (ordinal : ℕ) (target_uid : Str) (expected_parent_uid : Option Str) (expected_ordinal : ℕ)
      (new_parent_uid : Option Str) (new_ordinal : ℕ)
      → PatchOperation
  insert_node :
      (ordinal : ℕ) (expected_parent_uid : Option Str) (node : InsertedNodeSpec) → PatchOperation
  remove :
      (ordinal : ℕ) (target_uid expected_digest : Str) (child_disposition : ChildDisposition)
      → PatchOperation

abbrev pub op_ordinal : PatchOperation → ℕ
op_ordinal (replace_content ordinal _ _ _ _) = ordinal
op_ordinal (reclassify ordinal _ _ _) = ordinal
op_ordinal (reparent ordinal _ _ _ _ _) = ordinal
op_ordinal (insert_node ordinal _ _) = ordinal
op_ordinal (remove ordinal _ _ _) = ordinal

pub record SourcePatchRecord : Type 0 where
  pub uid : Str
  pub human_id : Str
  pub source_revision_uid : Str
  pub recipe_digest : Str
  pub input_digest : Str
  pub pre_patch_graph_digest : Str
  pub reviewed_content_digest : Str
  pub author : Str
  pub rationale : Str
  pub created_at : Str
  pub operations : List PatchOperation

-- The errors that insertion, validation and application of patch records return.
pub data SourcePatchError : Type 0 where
  duplicate_uid : (uid : Str) → SourcePatchError
  duplicate_human_id : (human_id first_uid duplicate_uid : Str) → SourcePatchError
  unknown_source_revision : (patch_uid revision_uid : Str) → SourcePatchError
  pre_patch_graph_digest_mismatch : (patch_uid expected actual : Str) → SourcePatchError
  cross_revision_target : (patch_uid target_uid target_revision_uid : Str) → SourcePatchError
  cross_patch_target : (patch_uid target_uid other_patch_uid : Str) → SourcePatchError
  dangling_target : (patch_uid target_uid : Str) → SourcePatchError
  pre_graph_invalid : (patch_uid : Str) (source : SourceGraphError) → SourcePatchError
  stale_binding : (patch_uid field expected actual : Str) → SourcePatchError
  stale_precondition :
      (patch_uid : Str) (ordinal : ℕ) (target_uid field expected actual : Str) → SourcePatchError
  inserted_identity_collision : (patch_uid uid field existing_uid : Str) → SourcePatchError
  invalid_post_graph : (patch_uid : Str) (source : SourceGraphError) → SourcePatchError
