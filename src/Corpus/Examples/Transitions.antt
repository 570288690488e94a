-- ===== src/Corpus/Examples/Transitions.antt =====
-- The theorems on source transitions, applied to a baseline that gains a second revision.
use evidence.Prelude.{
  codes, [], ◌∷◌, ok, ◌≡◌, ◌↔◌, refl, str_ord, for_each, try_fold, filter_map, filter, contains,
}
use evidence.BTreeMap
use evidence.Corpus.Nodes.{Node}
use evidence.Corpus.Graph.{CorpusGraph, supersedes_targets, superseded_review_uids, same_human_id}
use evidence.Corpus.Graph.Invariant.{IsWellFormed}
use evidence.Corpus.Lineage
use evidence.Corpus.Lineage.{validate_source_lineage, effective_source_heads, supersedes_target}
use evidence.Corpus.Successors.{successors, push_successor, first_fork}
use evidence.Corpus.Walk.{walk, walk_all, next, push_all, weight, enough_fuel}
use evidence.Corpus.Graph.Validation.{validate_edges}
use evidence.Corpus.Graph.ReviewInvariants.{validate_review_nodes}
use evidence.Corpus.Graph.Supersession.{validate_review_supersession}
use evidence.Corpus.SourceValidation.{validate_source_graphs}
use evidence.Corpus.Validate.{validate}
use evidence.Corpus.Transition.{project, projection_diff, validate_source_transition}
use evidence.Corpus.Transition.Extension.{IsExtension, validate_source_transition_iff}
use evidence.Corpus.Transition.Growth.{validate_source_transition-at_most_one}
use evidence.Corpus.Examples.{first_revision, second_revision}
use evidence.Corpus.Examples.EntryPoints.{one_digest, no_float}

abbrev prior : CorpusGraph
prior = record {
  nodes = (codes "d1", Node.source_revision first_revision) ∷ [];
  trace_metadata = [];
  source_graphs = [];
  source_patches = [];
}

abbrev proposed : CorpusGraph
proposed = record prior {
  nodes =
      (codes "d1", Node.source_revision first_revision)
      ∷ (codes "d2", Node.source_revision second_revision)
      ∷ [];
}

prior-IsWellFormed : IsWellFormed prior
prior-IsWellFormed = record {
  sorted = (tt, tt);
  keyed = (refl, tt);
  canonical = (tt, tt);
  unique_ids = (tt, tt);
}

proposed-IsWellFormed : IsWellFormed proposed
unfolding same_human_id
proposed-IsWellFormed = record {
  sorted = ((refl, tt), (tt, tt));
  keyed = (refl, (refl, tt));
  canonical = (tt, (tt, tt));
  unique_ids = ((refl, tt), (tt, tt));
}

accepted : validate_source_transition one_digest no_float prior proposed ≡ ok tt
unfolding validate_source_transition validate validate_edges for_each
    evidence.Corpus.Graph.Validation.check_edge BTreeMap.get validate_review_nodes
    evidence.Corpus.Graph.ReviewInvariants.check_review validate_review_supersession try_fold
    supersedes_targets first_fork push_successor BTreeMap.insert successors walk_all filter_map
    filter contains walk enough_fuel push_all next weight validate_source_lineage Lineage.revisions
    Lineage.revisions_by_document Lineage.group_revisions Lineage.roots_of Lineage.heads_of
    Lineage.superseded_uids validate_source_graphs project projection_diff supersedes_target
    effective_source_heads Lineage.collect_heads
accepted = refl

validate_source_transition_iff_example :
    (validate_source_transition one_digest no_float prior proposed ≡ ok tt)
    ↔ IsExtension one_digest no_float prior proposed
validate_source_transition_iff_example =
    validate_source_transition_iff prior proposed prior-IsWellFormed proposed-IsWellFormed
      one_digest no_float

validate_source_transition-at_most_one_example : codes "d2" ≡ codes "d2"
unfolding BTreeMap.get
validate_source_transition-at_most_one_example =
    validate_source_transition-at_most_one one_digest no_float prior proposed prior-IsWellFormed
      proposed-IsWellFormed accepted (codes "d1") (codes "d2") (codes "d2") first_revision
      second_revision second_revision refl refl refl refl refl refl refl
