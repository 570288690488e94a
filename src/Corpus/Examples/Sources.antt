-- ===== src/Corpus/Examples/Sources.antt =====
-- The theorems on source graphs, applied to a section with two paragraphs.
use evidence.Prelude.{
  Str, codes, none, some, [], ◌∷◌, ok, ◌≡◌, ◌≢◌, refl, All, for_each, contains, sort, str_ord,
}
use evidence.BTreeMap
use evidence.BTreeMap.{values}
use evidence.Corpus.Nodes.{Node}
use evidence.Corpus.SourceNodes.{SourceNodeKind, SourceLocator, SourceNode, SourceGraph, may_parent}
use evidence.Corpus.Graph.{CorpusGraph, nodes_of}
use evidence.Corpus.Walk.{weight}
use evidence.Corpus.SourceValidation
use evidence.Corpus.SourceValidation.{
  ancestors, ancestry_fuel, revision_media_map, validate_source_graphs,
}
use evidence.Corpus.SourceValidation.Ancestry.{ancestors_total}
use evidence.Corpus.SourceValidation.Tree.{IsBound, validate_source_graphs-IsBound}
use evidence.Corpus.Examples.{first_revision}

abbrev pub one_digest : Str → Str
one_digest bytes = codes "ab"

abbrev pub section : SourceNode
section = record {
  uid = codes "n1";
  source_revision_uid = codes "d1";
  parent_uid = none;
  kind = SourceNodeKind.section;
  ordinal = 0;
  label = some (codes "1");
  canonical_text = codes "Scope";
  content_sha256 = codes "ab";
  fingerprint = codes "ab";
  locator = SourceLocator.html (codes "u") none none [] [];
}

abbrev pub first_paragraph : SourceNode
first_paragraph = record section {
  uid = codes "n2";
  parent_uid = some (codes "n1");
  kind = SourceNodeKind.paragraph;
  ordinal = 1;
  label = none;
}

abbrev pub second_paragraph : SourceNode
second_paragraph = record first_paragraph { uid = codes "n3"; ordinal = 0 }

abbrev pub document : SourceGraph
document =
    (codes "n1", section) ∷ (codes "n2", first_paragraph) ∷ (codes "n3", second_paragraph) ∷ []

abbrev pub sources : CorpusGraph
sources = record {
  nodes = (codes "d1", Node.source_revision first_revision) ∷ [];
  trace_metadata = [];
  source_graphs = (codes "d1", document) ∷ [];
  source_patches = [];
}

sources-accepted : validate_source_graphs one_digest sources ≡ ok tt
unfolding validate_source_graphs for_each BTreeMap.get BTreeMap.insert
    SourceValidation.content_digest SourceValidation.fingerprint contains weight may_parent sort
sources-accepted = refl

validate_source_graphs-IsBound_example :
    All (IsBound one_digest (revision_media_map [] (nodes_of sources))) sources.source_graphs
validate_source_graphs-IsBound_example =
    validate_source_graphs-IsBound one_digest sources sources-accepted

ancestors_total_example :
    ancestors (ancestry_fuel document) (codes "d1") document [] (codes "n2" ∷ []) [] first_paragraph
    ≢ none
ancestors_total_example =
    ancestors_total (codes "d1") document [] (refl, (refl, (refl, tt))) (codes "n2" ∷ []) []
      first_paragraph
