-- ===== src/Corpus/PatchTargets.antt =====
-- The target checks of curated patches: `validate_targets` of
-- crates/evidence-core/src/corpus/source_patch/validate.rs.
pub mod Resolution
use evidence.Prelude.{
  Str, Bool, true, false, not, Option, none, some, List, [], ◌∷◌, ◌++◌, Result, ok, err, for_each,
  filter_map, contains, is_some, str_eq, str_ord, if◌then◌else◌,
}
use evidence.BTreeMap
use evidence.BTreeMap.{BTreeMap, values}
use evidence.Corpus.SourceNodes.{SourceGraph}
use evidence.Corpus.SourcePatches.{PatchOperation, SourcePatchRecord, SourcePatchError}
use evidence.Corpus.Graph.{CorpusGraph}

abbrev pub inserted_uid : PatchOperation → Option Str
inserted_uid (PatchOperation.insert_node ordinal parent node) = some node.uid
inserted_uid _ = none

abbrev pub optional : Option Str → List Str
optional none = []
optional (some uid) = uid ∷ []

-- An insert's node uid is no target: it is the node that the patch creates.
unfoldable pub operation_targets : PatchOperation → List Str
operation_targets (PatchOperation.replace_content _ target _ _ _) = target ∷ []
operation_targets (PatchOperation.reclassify _ target _ _) = target ∷ []
operation_targets (PatchOperation.remove _ target _ _) = target ∷ []
operation_targets (PatchOperation.reparent _ target expected_parent _ new_parent _) =
    target ∷ optional expected_parent ++ optional new_parent
operation_targets (PatchOperation.insert_node _ expected_parent node) = optional expected_parent

-- The first graph, in the order of revision uids, that has the uid.
unfoldable pub locate : BTreeMap Str SourceGraph → Str → Option Str
locate [] uid = none
locate ((revision_uid, g) ∷ gs) uid =
    if is_some (BTreeMap.get uid g) then some revision_uid else locate gs uid

-- What the other patches insert; a later patch replaces the entry of an earlier one.
unfoldable pub note_inserted : Str → BTreeMap Str Str → List PatchOperation → BTreeMap Str Str
note_inserted patch_uid m [] = m
note_inserted patch_uid m (PatchOperation.insert_node _ _ node ∷ ops) =
    note_inserted patch_uid (BTreeMap.insert node.uid patch_uid m) ops
note_inserted patch_uid m (op ∷ ops) = note_inserted patch_uid m ops

unfoldable pub other_inserted : Str → BTreeMap Str Str → List SourcePatchRecord → BTreeMap Str Str
unfolding note_inserted
other_inserted patch_uid m [] = m
other_inserted patch_uid m (other ∷ others) =
    other_inserted patch_uid
      (if not (str_eq other.uid patch_uid) then note_inserted other.uid m other.operations else m)
      others

unfoldable pub unlocated : SourcePatchRecord → Str → Option Str → Result SourcePatchError (Unit {0})
unlocated patch target (some other_patch) =
    err (SourcePatchError.cross_patch_target patch.uid target other_patch)
unlocated patch target none = err (SourcePatchError.dangling_target patch.uid target)

unfoldable pub located :
    SourcePatchRecord → BTreeMap Str Str → Str → Option Str → Result SourcePatchError (Unit {0})
unfolding unlocated
located patch others target (some revision) =
    if str_eq revision patch.source_revision_uid
    then ok tt
    else err (SourcePatchError.cross_revision_target patch.uid target revision)
located patch others target none = unlocated patch target (BTreeMap.get target others)

unfoldable pub resolve_target :
    CorpusGraph → SourcePatchRecord → BTreeMap Str Str → Str → Result SourcePatchError (Unit {0})
unfolding located locate
resolve_target g patch others target =
    if contains (filter_map inserted_uid patch.operations) target
    then ok tt
    else located patch others target (locate g.source_graphs target)

unfoldable pub validate_targets :
    CorpusGraph → SourcePatchRecord → Result SourcePatchError (Unit {0})
unfolding resolve_target other_inserted operation_targets
validate_targets g patch =
    let others = other_inserted patch.uid [] (values g.source_patches) in
    for_each (λ operation. for_each (resolve_target g patch others) (operation_targets operation))
      patch.operations
