-- ===== src/Corpus/Lineage/Members.antt =====
-- Membership and lookup in a well-formed graph.
use mathlib.Core.List.{Memᴰ}
use mathlib.Core.List.Memᴰ
use evidence.Prelude.{
  Str, true, some, List, [], ◌∷◌, ok, for_each, for_each-ok, str_ord, str_eq, str_eq_iff, All-mem,
  contains, contains-append, ◌≡◌, inl, inr, refl, sym, subst, arith, Bool-cases, filter_map, ap,
}
use evidence.BTreeMap
use evidence.BTreeMap.{BTreeMap, values, IsSorted}
use evidence.BTreeMap.Laws.{get_of_mem}
use evidence.Corpus.Nodes.{
  EdgeKind, Edge, Node, SourceRevisionNode, node_uid, node_edges, edge_kind_eq, edge_kind_eq_iff,
}
use evidence.Corpus.Graph.{CorpusGraph, get, nodes_of, supersedes_targets}
use evidence.Corpus.Graph.Invariant.{IsWellFormed}
use evidence.Corpus.Graph.Validation.{check_edge, validate_edges}
use evidence.Corpus.Lineage.{as_revision, revisions, superseded_uids}
use evidence.Corpus.Lineage.Sound.{IsRevision}

-- A node of a well-formed graph is found under its uid.
pub node_found :
    (g : CorpusGraph) (n : Node)
    → IsWellFormed g
    → Memᴰ n (nodes_of g)
    → get (node_uid n) g ≡ some n
node_found g n w h =
    let (e, at_e, same) = Memᴰ.of_map (λ e. e.1) g.nodes h in
    let key : node_uid e.1 ≡ e.0 = All-mem (λ e. node_uid e.1 ≡ e.0) g.nodes e w.keyed at_e in
    let found = get_of_mem g.nodes e w.sorted at_e in
    subst (λ x. get (node_uid x) g ≡ some x) same
      (subst (λ k. BTreeMap.get k g.nodes ≡ some e.1) (sym key) found)

revision_mem :
    (ns : List Node) (r : SourceRevisionNode)
    → Memᴰ r (filter_map as_revision ns)
    → Memᴰ (Node.source_revision r) ns
unfolding filter_map
revision_mem [] r h = absurd (Memᴰ.not-nil h)
revision_mem (Node.requirement _ ∷ ns) r h = Memᴰ.tail (revision_mem ns r h)
revision_mem (Node.test _ ∷ ns) r h = Memᴰ.tail (revision_mem ns r h)
revision_mem (Node.review _ ∷ ns) r h = Memᴰ.tail (revision_mem ns r h)
revision_mem (Node.source_revision s ∷ ns) r h = elim (Memᴰ.cases_cons h) [
  | inl e ↦ Memᴰ.head (ap Node.source_revision e)
  | inr t ↦ Memᴰ.tail (revision_mem ns r t)
]

pub IsRevision-found :
    (g : CorpusGraph) (r : SourceRevisionNode)
    → IsWellFormed g
    → Memᴰ r (revisions g)
    → IsRevision g r.uid r
unfolding revisions
IsRevision-found g r w h = node_found g (Node.source_revision r) w (revision_mem (nodes_of g) r h)

pub mem_revision :
    (m : BTreeMap Str Node) (uid : Str) (r : SourceRevisionNode)
    → BTreeMap.get uid m ≡ some (Node.source_revision r)
    → Memᴰ r (filter_map as_revision (values m))
unfolding BTreeMap.get filter_map
mem_revision [] uid r h = absurd (cc)
mem_revision ((k, Node.requirement _) ∷ m) uid r h = mem_revision m uid r (ground arith)
mem_revision ((k, Node.test _) ∷ m) uid r h = mem_revision m uid r (ground arith)
mem_revision ((k, Node.review _) ∷ m) uid r h = mem_revision m uid r (ground arith)
mem_revision ((k, Node.source_revision s) ∷ m) uid r h = elim (Bool-cases (str_eq uid k)) [
  | inl p ↦ Memᴰ.head (ground arith)
  | inr p ↦ Memᴰ.tail (mem_revision m uid r (ground arith))
]

targets_edge :
    (es : List Edge) (target : Str)
    → contains (supersedes_targets es) target ≡ true
    → Memᴰ (EdgeKind.supersedes, target) es
unfolding supersedes_targets contains
targets_edge [] target h = absurd (cc)
targets_edge ((kind, t) ∷ es) target h = elim (Bool-cases (edge_kind_eq kind EdgeKind.supersedes)) [
  | inr p ↦ Memᴰ.tail (targets_edge es target (rw p at h))
  | inl p ↦ elim (Bool-cases (str_eq t target)) [
    | inl q ↦
        Memᴰ.head (ground (arith, str_eq_iff t target, edge_kind_eq_iff kind EdgeKind.supersedes))
    | inr q ↦ Memᴰ.tail (targets_edge es target (ground arith))
  ]
]

superseder :
    (ns : List Node) (u : Str)
    → contains (superseded_uids ns) u ≡ true
    → (n : Node) × Memᴰ n ns × (contains (supersedes_targets (node_edges n)) u ≡ true)
unfolding superseded_uids contains
superseder [] u h = absurd (cc)
superseder (n ∷ ns) u h = elim (Bool-cases (contains (supersedes_targets (node_edges n)) u)) [
  | inl p ↦ (n, Memᴰ.head refl, p)
  | inr p ↦
      let (x, at_x, found) = superseder ns u (
        ground
          (arith, contains-append (supersedes_targets (node_edges n)) (superseded_uids ns) u)) in
      (x, Memᴰ.tail at_x, found)
]

-- Where the edges are validated, what supersedes a revision is a revision.
endpoint :
    (g : CorpusGraph) (n : Node) (u : Str) (r : SourceRevisionNode)
    → IsRevision g u r
    → check_edge g n (EdgeKind.supersedes, u) ≡ ok tt
    → (s : SourceRevisionNode) × (n ≡ Node.source_revision s)
unfolding check_edge
endpoint g (Node.requirement x) u r e h = absurd (cc (rw e at h))
endpoint g (Node.test x) u r e h = absurd (cc (rw e at h))
endpoint g (Node.review x) u r e h = absurd (cc (rw e at h))
endpoint g (Node.source_revision s) u r e h = (s, refl)

-- The revision that supersedes a superseded one.
pub superseding-IsRevision :
    (g : CorpusGraph) (u : Str) (r : SourceRevisionNode)
    → IsWellFormed g
    → validate_edges g ≡ ok tt
    → IsRevision g u r
    → contains (superseded_uids (nodes_of g)) u ≡ true
    → (s : SourceRevisionNode) × IsRevision g s.uid s
      × (contains (supersedes_targets s.edges) u ≡ true)
unfolding validate_edges
superseding-IsRevision g u r w v e h =
    let (n, at_n, found) = superseder (nodes_of g) u h in
    let edges = for_each-ok (check_edge g n) (node_edges n) (
      All-mem (λ m. for_each (check_edge g m) (node_edges m) ≡ ok tt) (nodes_of g) n
        (for_each-ok (λ m. for_each (check_edge g m) (node_edges m)) (nodes_of g) v) at_n) in
    let checked =
      All-mem (λ x. check_edge g n x ≡ ok tt) (node_edges n) (EdgeKind.supersedes, u) edges
        (targets_edge (node_edges n) u found) in
    let (s, same) = endpoint g n u r e checked in
    (
      s,
      subst (λ x. get (node_uid x) g ≡ some x) same (node_found g n w at_n),
      subst (λ x. contains (supersedes_targets (node_edges x)) u ≡ true) same found,
    )
