-- ===== src/Corpus/Examples/Graphs.antt =====
-- The theorems on insertion, supersession and lineage, applied to the small corpus.
use evidence.Prelude.{
  ◌≤◌, Str, codes, true, none, some, List, [], ◌∷◌, length, ok, ◌≡◌, ◌≢◌, ◌↔◌, ◌⊎◌, inl, inr, refl,
  arith, str_eq, Bool-cases, str_ord, if◌then◌else◌, try_fold, for_each, filter, filter_map, find,
  sort, first_repeat, contains, insert_sorted,
}
use evidence.BTreeMap
use evidence.BTreeMap.{BTreeMap}
use evidence.Corpus.Nodes.{EdgeKind, TestNode, SourceRevisionNode, Node, node_uid}
use evidence.Corpus.Graph
use evidence.Corpus.Graph.{
  CorpusGraph, get, insert, check_identity_uniqueness, canonicalize_edges, supersedes_targets,
}
use evidence.Corpus.Graph.Invariant.{IsWellFormed, stored}
use evidence.Corpus.Graph.Insertion.{insert-IsWellFormed, get-insert_node, insert_order}
use evidence.Corpus.Graph.Validation.{validate_edges}
use evidence.Corpus.Graph.Supersession.{validate_review_supersession}
use evidence.Corpus.Graph.Supersession.Accepts.{IsChained, validate_review_supersession-IsChained}
use evidence.Corpus.Successors.{successors, push_successor, first_fork}
use evidence.Corpus.Walk.{
  finished, revisit, out_of_fuel, walk, walk_all, next, push_all, weight, enough_fuel,
}
use evidence.Corpus.Walk.Order.{Chain, Within}
use evidence.Corpus.Walk.Fuel.{walk_all_total}
use evidence.Corpus.Walk.Complete.{walk_all_cases}
use evidence.Corpus.Lineage
use evidence.Corpus.Lineage.{validate_source_lineage, effective_source_heads}
use evidence.Corpus.Lineage.Heads.{IsHead}
use evidence.Corpus.Lineage.Sound.{IsRevision}
use evidence.Corpus.Lineage.Effective.{effective_source_heads_unique, effective_source_heads_iff}
use evidence.Corpus.Examples.{demo, demo-IsWellFormed, first_revision, llr}

demo-edges : validate_edges demo ≡ ok tt
unfolding validate_edges for_each evidence.Corpus.Graph.Validation.check_edge BTreeMap.get
    evidence.Corpus.Nodes.new_requirement
demo-edges = refl

demo-lineage : validate_source_lineage demo ≡ ok tt
unfolding validate_source_lineage try_fold for_each supersedes_targets BTreeMap.get first_fork
    push_successor BTreeMap.insert successors walk_all filter_map filter contains walk enough_fuel
    push_all next weight Lineage.revisions Lineage.revisions_by_document Lineage.group_revisions
    Lineage.roots_of Lineage.heads_of Lineage.superseded_uids evidence.Corpus.Nodes.new_requirement
demo-lineage = refl

demo-supersession : validate_review_supersession demo ≡ ok tt
unfolding validate_review_supersession try_fold supersedes_targets BTreeMap.get first_fork
    push_successor BTreeMap.insert successors walk_all filter_map contains walk enough_fuel push_all
    next weight
demo-supersession = refl

demo-first : IsRevision demo (codes "d1") first_revision
unfolding BTreeMap.get
demo-first = refl

effective_source_heads_unique_example :
    (h : Str) × (BTreeMap.get (codes "do") (effective_source_heads demo) ≡ some h)
    × ((v : Str) → IsHead demo (codes "do") v → v ≡ h)
effective_source_heads_unique_example =
    effective_source_heads_unique demo demo-IsWellFormed demo-edges demo-lineage (codes "d1")
      first_revision demo-first

effective_source_heads_iff_example :
    (BTreeMap.get (codes "do") (effective_source_heads demo) ≡ some (codes "d2"))
    ↔ IsHead demo (codes "do") (codes "d2")
effective_source_heads_iff_example =
    effective_source_heads_iff demo demo-IsWellFormed demo-edges demo-lineage (codes "do")
      (codes "d2")

validate_review_supersession-IsChained_example : IsChained demo
validate_review_supersession-IsChained_example =
    validate_review_supersession-IsChained demo demo-IsWellFormed.keyed demo-supersession

abbrev test_node : Node
test_node = Node.test (record {
  uid = codes "t1";
  id = codes "TEST-1";
  title = codes "V";
  selectors = [];
  edges = (EdgeKind.verifies, codes "r2") ∷ (EdgeKind.verifies, codes "r1") ∷ [];
})

abbrev with_llr : CorpusGraph
with_llr = record demo { nodes = BTreeMap.insert (codes "r2") (Node.requirement llr) demo.nodes }

abbrev with_both : CorpusGraph
with_both = record with_llr {
  nodes = BTreeMap.insert (codes "t1") (stored test_node) with_llr.nodes;
}

insert-llr : insert demo (Node.requirement llr) ≡ ok with_llr
unfolding insert BTreeMap.get BTreeMap.insert evidence.Corpus.Nodes.new_requirement find
    first_repeat sort insert_sorted
insert-llr = refl

insert_test : insert with_llr test_node ≡ ok with_both
unfolding insert BTreeMap.get BTreeMap.insert find first_repeat sort insert_sorted
insert_test = refl

insert_order_example :
    (h' : CorpusGraph) × (insert demo test_node ≡ ok h')
    × (insert h' (Node.requirement llr) ≡ ok with_both)
insert_order_example =
    insert_order demo with_llr with_both (Node.requirement llr) test_node demo-IsWellFormed
      insert-llr insert_test

insert-IsWellFormed_example : IsWellFormed with_llr
insert-IsWellFormed_example =
    insert-IsWellFormed demo with_llr (Node.requirement llr) insert-llr demo-IsWellFormed

get-insert_node_example :
    (get (codes "t1") with_llr ≡ none)
    × ((uid : Str)
        → get uid with_both
          ≡ (if str_eq uid (codes "t1") then some (stored test_node) else get uid with_llr))
    × (with_both.source_graphs ≡ with_llr.source_graphs)
    × (with_both.source_patches ≡ with_llr.source_patches)
    × (with_both.trace_metadata ≡ with_llr.trace_metadata)
get-insert_node_example = get-insert_node with_llr with_both test_node insert_test

-- Two texts that point at each other.
abbrev ring : BTreeMap Str (List Str)
ring = (codes "a", codes "b" ∷ []) ∷ (codes "b", codes "a" ∷ []) ∷ []

abbrev itself : List Str → List Str
itself targets = targets

ring_single : (u : Str) → length (next itself ring u) ≤ 1
unfolding next BTreeMap.get
ring_single u = elim (Bool-cases (str_eq u (codes "a"))) [
  | inl p ↦ rw p (omega arith)
  | inr p ↦ elim (Bool-cases (str_eq u (codes "b"))) [
    | inl q ↦ rw (p, q) (omega arith)
    | inr q ↦ rw (p, q) (omega arith)
  ]
]

walk_all_total_example :
    walk_all itself ring (enough_fuel itself ring) [] (codes "a" ∷ codes "b" ∷ []) ≢ out_of_fuel
walk_all_total_example = walk_all_total itself ring (codes "a" ∷ codes "b" ∷ [])

walk_all_cases_example :
    ((t : List Str) × (walk_all itself ring (enough_fuel itself ring) [] (codes "a" ∷ [])
        ≡ finished t)
      × Within (codes "a" ∷ []) t
      × ((u : Str) → contains t u ≡ true → ¬ Chain (next itself ring) u u))
    ⊎ ((u : Str) × (walk_all itself ring (enough_fuel itself ring) [] (codes "a" ∷ []) ≡ revisit u)
        × Chain (next itself ring) u u)
walk_all_cases_example = walk_all_cases itself ring ring_single (codes "a" ∷ [])
