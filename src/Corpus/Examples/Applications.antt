-- ===== src/Corpus/Examples/Applications.antt =====
-- The theorems on the application of patches, applied to a section with two paragraphs.
use evidence.Prelude.{
  false, List, ◌++◌, Str, codes, none, some, [], ◌∷◌, ok, ◌≡◌, ◌≢◌, refl, str_ord, for_each,
  try_fold, contains, sort, filter, length,
}
use evidence.BTreeMap
use evidence.BTreeMap.{IsSorted}
use evidence.BTreeMap.Edits.{opt_map}
use evidence.Corpus.SourceNodes.{SourceNodeKind, SourceGraph, may_parent, source_kind_eq}
use evidence.Corpus.SourcePatches.{PatchOperation, SourcePatchRecord}
use evidence.Corpus.Walk.{weight}
use evidence.Corpus.SourceValidation
use evidence.Corpus.SourceValidation.{validate_graph_standalone}
use evidence.Corpus.Render.{source_graph_digest}
use evidence.Corpus.PatchEdits.{recompute_node_digests, remove_subtree, sequence, reparent_children}
use evidence.Corpus.PatchEdits.Subtree.{Below}
use evidence.Corpus.PatchEdits.Cascade.{remove_subtree_lem}
use evidence.Corpus.PatchEdits.Siblings.{IsSiblingSequence}
use evidence.Corpus.PatchEdits.Reparent.{RenumberedTo, reparent_children_lem}
use evidence.Corpus.PatchApply.{PatchBindings, PatchApplication, apply_patch}
use evidence.Corpus.PatchApply.Accepted.{IsApplied, apply_patch-IsApplied}
use evidence.Corpus.PatchApply.Invariant.{IsStore, apply_patch-IsStore}
use evidence.Corpus.PatchApply.Digests.{refreshed, get-recompute_node_digests}
use evidence.Corpus.Examples.{patch}
use evidence.Corpus.Examples.Sources.{
  one_digest, document, section, first_paragraph, second_paragraph,
}
use evidence.Corpus.Examples.EntryPoints.{no_float}

pub document-IsStore : IsStore document
document-IsStore = (((refl, (refl, tt)), ((refl, tt), (tt, tt))), (refl, (refl, (refl, tt))))

valid : validate_graph_standalone one_digest (codes "d1") (codes "text/html") document ≡ ok tt
unfolding validate_graph_standalone for_each BTreeMap.get BTreeMap.insert
    SourceValidation.content_digest SourceValidation.fingerprint contains weight may_parent sort
valid = refl

abbrev pub edit : SourcePatchRecord
edit = record patch {
  source_revision_uid = codes "d1";
  pre_patch_graph_digest = codes "ab";
  operations =
      PatchOperation.replace_content 0 (codes "n2") (codes "ab") (some (codes "New text")) none
      ∷ PatchOperation.reclassify 1 (codes "n3") SourceNodeKind.paragraph SourceNodeKind.note
      ∷ [];
}

abbrev pub bindings : PatchBindings
bindings = record { recipe_digest = codes "1"; input_digest = codes "2" }

abbrev edited : SourceGraph
edited =
    (codes "n1", section)
    ∷ (codes "n2", record first_paragraph { canonical_text = codes "New text" })
    ∷ (codes "n3", record second_paragraph { kind = SourceNodeKind.note })
    ∷ []

edited-IsStore : IsStore edited
edited-IsStore = (((refl, (refl, tt)), ((refl, tt), (tt, tt))), (refl, (refl, (refl, tt))))

abbrev application : PatchApplication
application = record {
  pre_patch_digest = codes "ab";
  patch_digest = codes "ab";
  post_patch_digest = codes "ab";
  graph = edited;
}

applied :
    apply_patch one_digest no_float document edit bindings (codes "text/html") ≡ ok application
unfolding apply_patch validate_graph_standalone for_each BTreeMap.get BTreeMap.insert
    BTreeMap.update SourceValidation.content_digest SourceValidation.fingerprint contains weight
    may_parent sort try_fold source_kind_eq source_graph_digest recompute_node_digests
applied = refl

apply_patch-IsApplied_example :
    IsApplied one_digest no_float document edit bindings (codes "text/html") application
apply_patch-IsApplied_example =
    apply_patch-IsApplied one_digest no_float document edit bindings (codes "text/html") application
      applied

apply_patch-IsStore_example : IsStore edited
apply_patch-IsStore_example =
    apply_patch-IsStore one_digest edit no_float document bindings (codes "text/html") application
      document-IsStore applied

get-recompute_node_digests_example :
    BTreeMap.get (codes "n2") (recompute_node_digests one_digest edited)
    ≡ opt_map (refreshed one_digest edited) (BTreeMap.get (codes "n2") edited)
get-recompute_node_digests_example =
    get-recompute_node_digests one_digest edited (codes "n2") edited-IsStore.0 edited-IsStore.1

remove_subtree_lem_example :
    (Below document (codes "n1") (codes "n3")
      → BTreeMap.get (codes "n3") (remove_subtree document (codes "n1")) ≡ none)
    × ((Below document (codes "n1") (codes "n3") → ⊥)
        → BTreeMap.get (codes "n3") (remove_subtree document (codes "n1"))
          ≡ BTreeMap.get (codes "n3") document)
remove_subtree_lem_example =
    remove_subtree_lem document (codes "n1") document-IsStore.0 document-IsStore.1 (codes "n3")

-- The section goes, and its two paragraphs become roots, the second one first by its ordinal.
reparent_children_lem_example :
    (uids : List Str) × IsSiblingSequence
      (BTreeMap.remove (codes "n1") document)
      section
      (codes "n1")
      uids
    × (BTreeMap.get (codes "n1") (reparent_children document (codes "n1")) ≡ none)
    × ((before after : List Str) (u : Str)
        → uids ≡ before ++ u ∷ after
        → RenumberedTo document (reparent_children document (codes "n1")) none u (length before))
    × ((u : Str)
        → contains uids u ≡ false
        → u ≢ codes "n1"
        → BTreeMap.get u (reparent_children document (codes "n1")) ≡ BTreeMap.get u document)
unfolding BTreeMap.get
reparent_children_lem_example =
    reparent_children_lem document (codes "n1") section document-IsStore.0 document-IsStore.1 refl
      (λ h. cc)

promoted_order :
    sequence section (codes "n1") (BTreeMap.remove (codes "n1") document)
    ≡ codes "n3" ∷ codes "n2" ∷ []
unfolding sequence BTreeMap.remove sort filter
promoted_order = refl
