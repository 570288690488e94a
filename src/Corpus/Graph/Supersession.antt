-- ===== src/Corpus/Graph/Supersession.antt =====
-- Review supersession chains: crates/evidence-core/src/corpus/graph/supersession.rs.

pub mod Sound
pub mod Accepts
use evidence.Prelude.{
  ℕ, suc, ltb, Str, Bool, true, false, not, ◌&&◌, Option, none, some, List, [], ◌∷◌, ◌++◌, Result,
  ok, err, ◌>>=◌, ◌>>◌, try_fold, filter_map, str_ord, str_eq, length, if◌then◌else◌,
}
use evidence.BTreeMap
use evidence.BTreeMap.{BTreeMap}
use evidence.Corpus.Nodes.{EdgeKind, Edge, Node, ReviewNode, ReviewTarget, edge_kind_eq}
use evidence.Corpus.Errors.{ReviewError}
use evidence.Corpus.Graph.{CorpusGraph, get, nodes_of, supersedes_targets}
use evidence.Corpus.Successors.{SupersededBy, push_successor, first_fork}
use evidence.Corpus.Walk.{Outcome, finished, revisit, out_of_fuel, walk_all, enough_fuel}

unfoldable pub review_target_eq : ReviewTarget → ReviewTarget → Bool
review_target_eq (ReviewTarget.requirement a) (ReviewTarget.requirement b) = str_eq a b
review_target_eq (ReviewTarget.curated_patch a) (ReviewTarget.curated_patch b) = str_eq a b
review_target_eq _ _ = false

-- `let Some(Node::Review(predecessor)) = .. else { continue }`, and the comparisons.
unfoldable pub check_predecessor :
    ReviewNode → SupersededBy → Option Node → Result ReviewError SupersededBy
unfolding review_target_eq
check_predecessor r m (some (Node.review p)) =
    if not (str_eq r.reviewer p.reviewer)
    then err (ReviewError.supersession_reviewer r.uid p.uid)
    else if not (review_target_eq r.target p.target)
    then err (ReviewError.supersession_target r.uid p.uid)
    else if not (str_eq r.reviewed_content_sha256 p.reviewed_content_sha256)
    then err (ReviewError.supersession_digest r.uid p.uid)
    else ok (push_successor p.uid r.uid m)
check_predecessor r m _ = ok m

unfoldable pub edge_step :
    CorpusGraph → ReviewNode → SupersededBy → Edge → Result ReviewError SupersededBy
unfolding check_predecessor
edge_step g r m (kind, target) =
    if not (edge_kind_eq kind EdgeKind.supersedes)
    then ok m
    else if str_eq target r.uid
    then err (ReviewError.supersession_self r.uid)
    else check_predecessor r m (get target g)

unfoldable pub node_step : CorpusGraph → SupersededBy → Node → Result ReviewError SupersededBy
unfolding edge_step
node_step g m (Node.review r) =
    let count = length (supersedes_targets r.edges) in
    if ltb 1 count
    then err (ReviewError.duplicate_supersedes_edge r.uid count)
    else try_fold (edge_step g r) m r.edges
node_step g m _ = ok m

abbrev pub fork_result : Option (Str × Str × Str) → Result ReviewError (Unit {0})
fork_result none = ok tt
fork_result (some (predecessor, first, second)) =
    err (ReviewError.supersession_fork predecessor first second)

unfoldable pub reject_forks : SupersededBy → Result ReviewError (Unit {0})
reject_forks m = fork_result (first_fork m)

-- The supersession targets of a review; other nodes extend no chain.
abbrev pub review_links : Node → List Str
review_links (Node.review r) = supersedes_targets r.edges
review_links _ = []

abbrev pub review_uid : Node → Option Str
review_uid (Node.review r) = some r.uid
review_uid _ = none

-- The walk always ends (`walk_all_total`), so the last clause is never met.
abbrev pub cycle_result : Outcome → Result ReviewError (Unit {0})
cycle_result (finished done) = ok tt
cycle_result (revisit uid) = err (ReviewError.supersession_cycle uid)
cycle_result out_of_fuel = err (ReviewError.supersession_cycle [])

unfoldable pub reject_cycles : CorpusGraph → Result ReviewError (Unit {0})
reject_cycles g = cycle_result (
    walk_all review_links g.nodes (enough_fuel review_links g.nodes) []
      (filter_map review_uid (nodes_of g)))

unfoldable pub validate_review_supersession : CorpusGraph → Result ReviewError (Unit {0})
unfolding node_step reject_forks reject_cycles
validate_review_supersession g =
    try_fold (node_step g) [] (nodes_of g) >>= λ m. reject_forks m >> reject_cycles g
