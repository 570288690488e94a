-- ===== src/Corpus/Examples/Patches.antt =====
-- The theorems on patch targets, applied to a paragraph that recurs in two revisions.
use mathlib.Core.List.{Memᴰ}
use evidence.Prelude.{codes, [], ◌∷◌, ok, ◌≡◌, refl, str_ord, for_each, filter_map, contains}
use evidence.BTreeMap
use evidence.Corpus.SourceNodes.{SourceNodeKind}
use evidence.Corpus.SourcePatches.{PatchOperation, SourcePatchRecord}
use evidence.Corpus.Graph.{CorpusGraph}
use evidence.Corpus.PatchTargets.{operation_targets, validate_targets, other_inserted, locate}
use evidence.Corpus.PatchTargets.Resolution.{IsResolved, validate_targets-IsResolved}
use evidence.Corpus.Examples.{patch}
use evidence.Corpus.Examples.Sources.{document, sources}

abbrev to_note : PatchOperation
to_note = PatchOperation.reclassify 0 (codes "n2") SourceNodeKind.paragraph SourceNodeKind.note

-- The same paragraphs in both revisions.
abbrev recurring : CorpusGraph
recurring = record sources { source_graphs = (codes "d1", document) ∷ (codes "d2", document) ∷ [] }

abbrev first_patch : SourcePatchRecord
first_patch = record patch { source_revision_uid = codes "d1"; operations = to_note ∷ [] }

first-accepted : validate_targets recurring first_patch ≡ ok tt
unfolding validate_targets for_each filter_map contains locate other_inserted BTreeMap.get
    operation_targets
first-accepted = refl

at_target : Memᴰ (codes "n2") (operation_targets to_note)
unfolding operation_targets
at_target = Memᴰ.head refl

validate_targets-IsResolved_example : IsResolved recurring first_patch (codes "n2")
validate_targets-IsResolved_example =
    validate_targets-IsResolved recurring first_patch ((refl, tt), (tt, tt)) first-accepted to_note
      (codes "n2") (Memᴰ.head refl) at_target
