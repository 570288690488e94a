-- ===== src/Corpus/Validate/Parts.antt =====
-- The validators that a graph passes when `validate` accepts it.
use evidence.Prelude.{ℕ, Str, ok, map_err, map_err-eq-ok, >>-eq-ok, ◌≡◌}
use evidence.Corpus.Errors.{CorpusError}
use evidence.Corpus.Graph.{CorpusGraph}
use evidence.Corpus.Graph.Validation.{validate_edges}
use evidence.Corpus.Graph.ReviewInvariants.{validate_review_nodes}
use evidence.Corpus.Graph.Supersession.{validate_review_supersession}
use evidence.Corpus.Lineage.{validate_source_lineage}
use evidence.Corpus.SourceValidation.{validate_source_graphs}
use evidence.Corpus.Validate.{validate, validate_source_patches}

pub record IsAccepted (sha256 : Str → Str) (show_float : ℕ → Str) (g : CorpusGraph) : Type 0 where
  pub edges : validate_edges g ≡ ok tt
  pub reviews : validate_review_nodes g ≡ ok tt
  pub supersession : validate_review_supersession g ≡ ok tt
  pub lineage : validate_source_lineage g ≡ ok tt
  pub source_graphs : validate_source_graphs sha256 g ≡ ok tt
  pub source_patches : validate_source_patches sha256 show_float g ≡ ok tt

pub validate-IsAccepted :
    (sha256 : Str → Str) (show_float : ℕ → Str) (g : CorpusGraph)
    → validate sha256 show_float g ≡ ok tt
    → IsAccepted sha256 show_float g
unfolding validate
validate-IsAccepted sha256 show_float g h =
    let (edges, rest) = >>-eq-ok (validate_edges g) _ h in
    let (reviews, rest1) = >>-eq-ok (map_err CorpusError.review (validate_review_nodes g)) _ rest in
    let (chains, rest2) =
      >>-eq-ok (map_err CorpusError.review (validate_review_supersession g)) _ rest1 in
    let (lineage, rest3) =
      >>-eq-ok (map_err CorpusError.source (validate_source_lineage g)) _ rest2 in
    let (graphs, patches) =
      >>-eq-ok (map_err CorpusError.source_graph (validate_source_graphs sha256 g)) _ rest3 in
    record {
      edges = edges;
      reviews = map_err-eq-ok CorpusError.review (validate_review_nodes g) reviews;
      supersession = map_err-eq-ok CorpusError.review (validate_review_supersession g) chains;
      lineage = map_err-eq-ok CorpusError.source (validate_source_lineage g) lineage;
      source_graphs =
          map_err-eq-ok CorpusError.source_graph (validate_source_graphs sha256 g) graphs;
      source_patches =
          map_err-eq-ok CorpusError.source_patch (validate_source_patches sha256 show_float g)
            patches;
    }
