-- ===== src/Corpus/Errors.antt =====
-- The errors of graph insertion and validation: corpus/error.rs, review_records/error.rs and
-- source/error.rs, as far as the modelled operations return them.
use evidence.Prelude.{ℕ, Str}
use evidence.Corpus.Nodes.{EdgeKind, NodeKind}
use evidence.Corpus.SourceNodes.{SourceGraphError}
use evidence.Corpus.SourcePatches.{SourcePatchError}

pub data ReviewError : Type 0 where
  missing_reviews_edge : (review_uid : Str) → ReviewError
  duplicate_reviews_edge : (review_uid : Str) (count : ℕ) → ReviewError
  target_edge_mismatch : (review_uid field_target_uid edge_target_uid : Str) → ReviewError
  target_kind_mismatch : (review_uid declared resolved : Str) → ReviewError
  content_schema : (path uid id : Str) (found supported : ℕ) → ReviewError
  duplicate_supersedes_edge : (review_uid : Str) (count : ℕ) → ReviewError
  supersession_self : (uid : Str) → ReviewError
  supersession_reviewer : (uid predecessor_uid : Str) → ReviewError
  supersession_target : (uid predecessor_uid : Str) → ReviewError
  supersession_digest : (uid predecessor_uid : Str) → ReviewError
  supersession_fork : (uid first_uid second_uid : Str) → ReviewError
  supersession_cycle : (uid : Str) → ReviewError

pub data SourceError : Type 0 where
  duplicate_supersedes_edge : (source_uid : Str) (count : ℕ) → SourceError
  supersession_self : (uid : Str) → SourceError
  supersession_document_key : (uid predecessor_uid : Str) → SourceError
  supersession_fork : (uid first_uid second_uid : Str) → SourceError
  supersession_cycle : (uid : Str) → SourceError
  lineage_multiple_roots : (document_key first_uid second_uid : Str) → SourceError
  lineage_multiple_heads : (document_key first_uid second_uid : Str) → SourceError

pub data CorpusError : Type 0 where
  duplicate_uid : (uid : Str) → CorpusError
  duplicate_human_id : (id : Str) (kind : NodeKind) (first_uid duplicate_uid : Str) → CorpusError
  duplicate_edge : (from to : Str) (kind : EdgeKind) → CorpusError
  dangling_edge : (from to : Str) (kind : EdgeKind) → CorpusError
  invalid_edge_kinds :
      (from to : Str) (kind : EdgeKind) (source_kind target_kind : NodeKind) → CorpusError
  review : ReviewError → CorpusError
  source : SourceError → CorpusError
  source_graph : SourceGraphError → CorpusError
  source_patch : SourcePatchError → CorpusError
  legacy_missing_uid : (id : Str) → CorpusError
