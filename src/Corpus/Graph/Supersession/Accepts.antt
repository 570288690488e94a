-- ===== src/Corpus/Graph/Supersession/Accepts.antt =====
-- The contract of the supersession checks.
use evidence.Prelude.{
  ◌≤◌, Str, true, Option, none, some, List, [], ◌∷◌, ok, try_fold, try_fold-All, >>=-eq-ok,
  >>-eq-ok, str_ord, str_eq, str_eq_iff, length, All, contains, ◌≡◌, ◌≢◌, inl, inr, refl, sym, ◌∙◌,
  subst, arith, Bool-cases, filter_map,
}
use evidence.BTreeMap
use evidence.BTreeMap.{BTreeMap, values}
use evidence.BTreeMap.Laws.{All-get}
use evidence.Corpus.Nodes.{EdgeKind, Edge, Node, ReviewNode, edge_kind_eq, edge_kind_eq_iff}
use evidence.Corpus.Successors.{SupersededBy, first_fork}
use evidence.Corpus.Successors.Laws.{Grows, unforked}
use evidence.Corpus.Walk.{Outcome, finished, revisit, out_of_fuel, next}
use evidence.Corpus.Walk.Order.{Chain, IsOrdered-acyclic}
use evidence.Corpus.Walk.Sound.{walk_all_order}
use evidence.Corpus.Graph.{CorpusGraph, get, nodes_of, supersedes_targets}
use evidence.Corpus.Graph.Invariant.{IsKeyed, keyed_get}
use evidence.Corpus.Graph.Supersession.{
  node_step, reject_forks, fork_result, review_links, review_uid, cycle_result, reject_cycles,
  validate_review_supersession,
}
use evidence.Corpus.Graph.Supersession.Sound.{
  EdgeAgrees, EdgeGood, NodeGood, NodeGood-mono, node_step_lem,
}

-- The review `r` stands in the graph under `uid`.
abbrev pub IsReview : CorpusGraph → Str → ReviewNode → Type 0
IsReview g uid r = get uid g ≡ some (Node.review r)

-- What the supersession of one review by another must satisfy.
pub record Supersession (r p : ReviewNode) : Type 0 where
  pub distinct : p.uid ≢ r.uid
  pub reviewer : r.reviewer ≡ p.reviewer
  pub target : r.target ≡ p.target
  pub digest : r.reviewed_content_sha256 ≡ p.reviewed_content_sha256

-- The contract: single edges, agreement, no fork, no cycle.
pub record IsChained (g : CorpusGraph) : Type 0 where
  pub single :
      (uid : Str) (r : ReviewNode) → IsReview g uid r → length (supersedes_targets r.edges) ≤ 1
  pub agrees :
      (uid target : Str) (r p : ReviewNode)
      → IsReview g uid r
      → IsReview g target p
      → contains (supersedes_targets r.edges) target ≡ true
      → Supersession r p
  pub single_successor :
      (uid uid' target : Str) (r r' p : ReviewNode)
      → IsReview g uid r
      → IsReview g uid' r'
      → IsReview g target p
      → contains (supersedes_targets r.edges) target ≡ true
      → contains (supersedes_targets r'.edges) target ≡ true
      → r.uid ≡ r'.uid
  pub acyclic :
      (uid : Str) (r : ReviewNode) → IsReview g uid r → ¬ Chain (next review_links g.nodes) uid uid

supersedes_edge :
    (g : CorpusGraph) (r : ReviewNode) (m : SupersededBy) (es : List Edge) (target : Str)
    → All (EdgeGood g r m) es
    → contains (supersedes_targets es) target ≡ true
    → (target ≢ r.uid) × EdgeAgrees r m (get target g)
unfolding supersedes_targets contains
supersedes_edge g r m [] target a h = absurd (cc)
supersedes_edge g r m ((kind, t) ∷ es) target a h =
    elim (Bool-cases (edge_kind_eq kind EdgeKind.supersedes)) [
      | inr p ↦ supersedes_edge g r m es target a.1 (rw p at h)
      | inl p ↦ elim (Bool-cases (str_eq t target)) [
        | inl q ↦
            let e : t ≡ target = (str_eq_iff t target).0 q in
            subst (λ x. (x ≢ r.uid) × EdgeAgrees r m (get x g)) e
              (a.0 ((edge_kind_eq_iff kind EdgeKind.supersedes).0 p))
        | inr q ↦ supersedes_edge g r m es target a.1 (ground arith)
      ]
    ]

collected :
    (g : CorpusGraph) (m : SupersededBy)
    → try_fold (node_step g) [] (nodes_of g) ≡ ok m
    → All (NodeGood g m) (nodes_of g)
collected g m h =
    (try_fold-All Grows (NodeGood g) (node_step g) (λ s q u k. k)
      (λ s t u a b q v k. b q v (a q v k)) (λ s t n. NodeGood-mono g s t n)
      (λ s t n. node_step_lem g s t n) [] m (nodes_of g) h).1

review_started :
    (m : BTreeMap Str Node) (uid : Str) (r : ReviewNode)
    → BTreeMap.get uid m ≡ some (Node.review r)
    → contains (filter_map review_uid (values m)) r.uid ≡ true
unfolding BTreeMap.get filter_map contains
review_started [] uid r h = absurd (cc)
review_started ((k, n) ∷ m) uid r h =
    ground (arith, review_started m uid r, str_eq_iff uid k, str_eq_iff r.uid r.uid)

cycle_result-eq-ok : (o : Outcome) → cycle_result o ≡ ok tt → (t : List Str) × (o ≡ finished t)
cycle_result-eq-ok (finished t) h = (t, refl)
cycle_result-eq-ok (revisit u) h = absurd (cc)
cycle_result-eq-ok out_of_fuel h = absurd (cc)

-- The order of the walks shows that no chain of supersessions returns.
reject_cycles-acyclic :
    (g : CorpusGraph) (uid : Str) (r : ReviewNode)
    → reject_cycles g ≡ ok tt
    → IsReview g uid r
    → ¬ Chain (next review_links g.nodes) r.uid r.uid
unfolding reject_cycles
reject_cycles-acyclic g uid r h at_uid =
    let (t, e) = cycle_result-eq-ok _ h in
    let found = walk_all_order review_links g.nodes _ _ t e in
    IsOrdered-acyclic (next review_links g.nodes) t r.uid found.0
      (found.1 r.uid (review_started g.nodes uid r at_uid))

fork_result-eq-ok : (o : Option (Str × Str × Str)) → fork_result o ≡ ok tt → o ≡ none
fork_result-eq-ok none h = refl
fork_result-eq-ok (some (p, first, second)) h = absurd (cc)

module _ (g : CorpusGraph) (keyed : IsKeyed g) (m : SupersededBy)
    (good : All (NodeGood g m) (nodes_of g)) where
  review_good : (uid : Str) (r : ReviewNode) → IsReview g uid r → NodeGood g m (Node.review r)
  review_good uid r e = All-get (NodeGood g m) uid g.nodes (Node.review r) good e

  edge_good :
      (uid target : Str) (r p : ReviewNode)
      → IsReview g uid r
      → IsReview g target p
      → contains (supersedes_targets r.edges) target ≡ true
      → (target ≢ r.uid) × EdgeAgrees r m (some (Node.review p))
  edge_good uid target r p e f h =
      let found = supersedes_edge g r m r.edges target (review_good uid r e).1 h in
      (found.0, subst (EdgeAgrees r m) f found.1)

  chained : first_fork m ≡ none → reject_cycles g ≡ ok tt → IsChained g
  chained unfork acyc = record {
    single = λ uid r e. (review_good uid r e).0;
    agrees = λ uid target r p e f h.
        let found = edge_good uid target r p e f h in
        record {
          distinct = λ q. found.0 (sym (keyed_get g target (Node.review p) keyed f) ∙ q);
          reviewer = found.1.0;
          target = found.1.1;
          digest = found.1.2;
        };
    single_successor = λ uid uid' target r r' p e e' f h h'.
        unforked m p.uid r.uid r'.uid unfork (edge_good uid target r p e f h).1.3
          (edge_good uid' target r' p e' f h').1.3;
    acyclic = λ uid r e.
        subst (λ u. ¬ Chain (next review_links g.nodes) u u)
          (keyed_get g uid (Node.review r) keyed e) (reject_cycles-acyclic g uid r acyc e);
  }

-- In a graph whose supersession checks pass, every review supersedes at most one review; it is not
-- itself, and has the same reviewer, target and digest; no review is superseded by two; and no
-- chain of supersessions returns to its start.
pub validate_review_supersession-IsChained :
    (g : CorpusGraph) → IsKeyed g → validate_review_supersession g ≡ ok tt → IsChained g
unfolding validate_review_supersession
validate_review_supersession-IsChained g keyed h =
    let (m, folded, rest) = >>=-eq-ok (try_fold (node_step g) [] (nodes_of g)) _ h in
    let (forks, cycles) = >>-eq-ok (reject_forks m) (reject_cycles g) rest in
    chained g keyed m (collected g m folded)
      (unfold reject_forks in fork_result-eq-ok (first_fork m) forks) cycles
