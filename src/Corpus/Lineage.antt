-- ===== src/Corpus/Lineage.antt =====
-- Source-revision lineage: crates/evidence-core/src/corpus/source/lineage.rs.
pub mod Sound
pub mod Members
pub mod Heads
pub mod Unique
pub mod Effective
use evidence.Prelude.{
  ℕ, ltb, Str, Bool, true, false, not, Option, none, some, List, [], ◌∷◌, ◌++◌, Result, ok, err,
  ◌>>=◌, ◌>>◌, try_fold, for_each, filter_map, filter, contains, is_some, str_ord, str_eq, length,
  map, if◌then◌else◌,
}
use evidence.BTreeMap
use evidence.BTreeMap.{BTreeMap}
use evidence.Corpus.Nodes.{EdgeKind, Edge, Node, SourceRevisionNode, node_edges, edge_kind_eq}
use evidence.Corpus.Errors.{SourceError}
use evidence.Corpus.Graph.{CorpusGraph, get, nodes_of, supersedes_targets}
use evidence.Corpus.Successors.{SupersededBy, push_successor, first_fork}
use evidence.Corpus.Walk.{Outcome, finished, revisit, out_of_fuel, walk_all, enough_fuel}

unfoldable pub check_predecessor :
    SourceRevisionNode → SupersededBy → Option Node → Result SourceError SupersededBy
check_predecessor r m (some (Node.source_revision p)) =
    if not (str_eq r.document_key p.document_key)
    then err (SourceError.supersession_document_key r.uid p.uid)
    else ok (push_successor p.uid r.uid m)
check_predecessor r m _ = ok m

unfoldable pub edge_step :
    CorpusGraph → SourceRevisionNode → SupersededBy → Edge → Result SourceError SupersededBy
unfolding check_predecessor
edge_step g r m (kind, target) =
    if not (edge_kind_eq kind EdgeKind.supersedes)
    then ok m
    else if str_eq target r.uid
    then err (SourceError.supersession_self r.uid)
    else check_predecessor r m (get target g)

unfoldable pub node_step : CorpusGraph → SupersededBy → Node → Result SourceError SupersededBy
unfolding edge_step
node_step g m (Node.source_revision r) =
    let count = length (supersedes_targets r.edges) in
    if ltb 1 count
    then err (SourceError.duplicate_supersedes_edge r.uid count)
    else try_fold (edge_step g r) m r.edges
node_step g m _ = ok m

abbrev pub fork_result : Option (Str × Str × Str) → Result SourceError (Unit {0})
fork_result none = ok tt
fork_result (some (predecessor, first, second)) =
    err (SourceError.supersession_fork predecessor first second)

unfoldable pub reject_forks : SupersededBy → Result SourceError (Unit {0})
reject_forks m = fork_result (first_fork m)

abbrev pub revision_links : Node → List Str
revision_links (Node.source_revision r) = supersedes_targets r.edges
revision_links _ = []

abbrev pub as_revision : Node → Option SourceRevisionNode
as_revision (Node.source_revision r) = some r
as_revision _ = none

-- The source revisions, in uid order.
unfoldable pub revisions : CorpusGraph → List SourceRevisionNode
revisions g = filter_map as_revision (nodes_of g)

-- The walk always ends (`walk_all_total`), so the last clause is never met.
abbrev pub cycle_result : Outcome → Result SourceError (Unit {0})
cycle_result (finished done) = ok tt
cycle_result (revisit uid) = err (SourceError.supersession_cycle uid)
cycle_result out_of_fuel = err (SourceError.supersession_cycle [])

unfoldable pub reject_cycles : CorpusGraph → Result SourceError (Unit {0})
unfolding revisions
reject_cycles g = cycle_result (
    walk_all revision_links g.nodes (enough_fuel revision_links g.nodes) []
      (map (λ r. r.uid) (revisions g)))

abbrev pub head_of : List Str → Option Str
head_of [] = none
head_of (x ∷ xs) = some x

-- `find` of the `Supersedes` edge.
unfoldable pub supersedes_target : SourceRevisionNode → Option Str
supersedes_target r = head_of (supersedes_targets r.edges)

-- The revisions of a document that the map holds, `or_default()`.
abbrev pub or_default : Option (List SourceRevisionNode) → List SourceRevisionNode
or_default none = []
or_default (some rs) = rs

unfoldable pub group : Str → BTreeMap Str (List SourceRevisionNode) → List SourceRevisionNode
group d m = or_default (BTreeMap.get d m)

-- `entry(document_key).or_default().push(revision)`, for each revision.
unfoldable pub push_revision :
    BTreeMap Str (List SourceRevisionNode)
    → SourceRevisionNode
    → BTreeMap Str (List SourceRevisionNode)
unfolding group
push_revision m r = BTreeMap.insert r.document_key (group r.document_key m ++ r ∷ []) m

unfoldable pub group_revisions :
    BTreeMap Str (List SourceRevisionNode)
    → List SourceRevisionNode
    → BTreeMap Str (List SourceRevisionNode)
unfolding push_revision
group_revisions m [] = m
group_revisions m (r ∷ rs) = group_revisions (push_revision m r) rs

unfoldable pub revisions_by_document : CorpusGraph → BTreeMap Str (List SourceRevisionNode)
unfolding group_revisions revisions
revisions_by_document g = group_revisions [] (revisions g)

-- The targets of all `Supersedes` edges of the graph.
unfoldable pub superseded_uids : List Node → List Str
superseded_uids [] = []
superseded_uids (n ∷ ns) = supersedes_targets (node_edges n) ++ superseded_uids ns

-- `if let [first, second, ..] = uids { return Err(..) }`
abbrev pub at_most_one : (Str → Str → SourceError) → List Str → Result SourceError (Unit {0})
at_most_one e [] = ok tt
at_most_one e (a ∷ []) = ok tt
at_most_one e (a ∷ b ∷ _) = err (e a b)

unfoldable pub roots_of : List SourceRevisionNode → List Str
unfolding supersedes_target
roots_of rs = map (λ r. r.uid) (filter (λ r. not (is_some (supersedes_target r))) rs)

unfoldable pub reject_multiple_roots : CorpusGraph → Result SourceError (Unit {0})
unfolding revisions_by_document roots_of
reject_multiple_roots g =
    for_each (λ e. at_most_one (SourceError.lineage_multiple_roots e.0) (roots_of e.1))
      (revisions_by_document g)

unfoldable pub heads_of : List Str → List SourceRevisionNode → List Str
heads_of superseded rs = map (λ r. r.uid) (filter (λ r. not (contains superseded r.uid)) rs)

unfoldable pub reject_multiple_heads : CorpusGraph → Result SourceError (Unit {0})
unfolding revisions_by_document heads_of superseded_uids
reject_multiple_heads g =
    for_each
      (λ e.
        at_most_one (SourceError.lineage_multiple_heads e.0)
          (heads_of (superseded_uids (nodes_of g)) e.1))
      (revisions_by_document g)

unfoldable pub validate_source_lineage : CorpusGraph → Result SourceError (Unit {0})
unfolding node_step reject_forks reject_cycles reject_multiple_roots reject_multiple_heads
validate_source_lineage g = try_fold (node_step g) [] (nodes_of g) >>= λ m.
    reject_forks m >> (reject_cycles g >> (reject_multiple_roots g >> reject_multiple_heads g))

-- The loop of `effective_source_heads`: a later revision of a document replaces an earlier one.
unfoldable pub collect_heads :
    List Str → BTreeMap Str Str → List SourceRevisionNode → BTreeMap Str Str
collect_heads superseded heads [] = heads
collect_heads superseded heads (r ∷ rs) =
    collect_heads superseded
      (if contains superseded r.uid then heads else BTreeMap.insert r.document_key r.uid heads) rs

unfoldable pub effective_source_heads : CorpusGraph → BTreeMap Str Str
unfolding collect_heads superseded_uids revisions
effective_source_heads g = collect_heads (superseded_uids (nodes_of g)) [] (revisions g)
