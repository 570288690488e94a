-- ===== src/Corpus/Graph/Invariant.antt =====
-- What holds of every graph that is built by insertion.
use evidence.Prelude.{
  ◌>>=◌, sort, first_repeat, IsStrict, IsStrict-of_first_repeat, sort-IsAscending, Str, false, none,
  some, List, [], ◌∷◌, ok, ok_injective, >>=-eq-ok, >>-eq-ok, str_ord, str_eq, str_eq_iff, All, ◌≡◌,
  inl, inr, refl, sym, ◌∙◌, arith, Bool-cases, some_injective, Option-cases, find, ap, pair_ord,
}
use evidence.BTreeMap
use evidence.BTreeMap.{BTreeMap, values, IsSorted}
use evidence.Corpus.Nodes.{
  Edge, Node, node_uid, node_id, node_kind, node_edges, with_edges, edge_kind_ord, node_kind_eq_iff,
}
use evidence.Corpus.Graph.{
  CorpusGraph, get, nodes_of, same_human_id, check_identity_uniqueness, canonicalize_edges, insert,
}

-- Every entry stands under its node's uid.
abbrev pub KeyedMap : BTreeMap Str Node → Type 0
KeyedMap m = All (λ e. node_uid e.1 ≡ e.0) m

abbrev pub IsKeyed : CorpusGraph → Type 0
IsKeyed g = KeyedMap g.nodes

keyed_find :
    (m : BTreeMap Str Node) (uid : Str) (n : Node)
    → KeyedMap m
    → BTreeMap.get uid m ≡ some n
    → node_uid n ≡ uid
unfolding BTreeMap.get
keyed_find [] uid n k h = absurd (cc)
keyed_find ((j, w) ∷ m) uid n k h = elim (Bool-cases (str_eq uid j)) [
  | inl p ↦
      let e : w ≡ n = some_injective (rw (p, BTreeMap.get) at h) in
      sym (ap node_uid e) ∙ k.0 ∙ sym ((str_eq_iff uid j).0 p)
  | inr p ↦ keyed_find m uid n k.1 (rw (p, BTreeMap.get) at h)
]

pub keyed_get :
    (g : CorpusGraph) (uid : Str) (n : Node) → IsKeyed g → get uid g ≡ some n → node_uid n ≡ uid
keyed_get g uid n k h = keyed_find g.nodes uid n k h

pub insert-KeyedMap :
    (m : BTreeMap Str Node) (n : Node) → KeyedMap m → KeyedMap (BTreeMap.insert (node_uid n) n m)
unfolding BTreeMap.insert
insert-KeyedMap [] n k = (refl, tt)
insert-KeyedMap ((j, w) ∷ m) n k = elim (Bool-cases (str_eq (node_uid n) j)) [
  | inl p ↦ rw p (refl, k.1)
  | inr p ↦ elim (Bool-cases (str_ord.lt (node_uid n) j)) [
    | inl q ↦ rw (p, q) (refl, k)
    | inr q ↦ rw (p, q) (k.0, insert-KeyedMap m n k.1)
  ]
]

-- Every node's edges ascend strictly: sorted, and none twice.
abbrev pub CanonicalEdges : Node → Type 0
CanonicalEdges n = IsStrict (node_edges n)

-- `n` shares its human id with no node of the list that has its kind.
abbrev pub FreshId : Node → List Node → Type 0
FreshId n [] = Unit
FreshId n (m ∷ ms) = (same_human_id n m ≡ false) × FreshId n ms

abbrev pub UniqueIds : List Node → Type 0
UniqueIds [] = Unit
UniqueIds (n ∷ ns) = FreshId n ns × UniqueIds ns

pub record IsWellFormed (g : CorpusGraph) : Type 0 where
  pub sorted : IsSorted g.nodes
  pub keyed : IsKeyed g
  pub canonical : All CanonicalEdges (nodes_of g)
  pub unique_ids : UniqueIds (nodes_of g)

node_edges-with_edges : (n : Node) (es : List Edge) → node_edges (with_edges n es) ≡ es
node_edges-with_edges (Node.requirement r) es = refl
node_edges-with_edges (Node.test t) es = refl
node_edges-with_edges (Node.review r) es = refl
node_edges-with_edges (Node.source_revision s) es = refl

pub node_uid-with_edges : (n : Node) (es : List Edge) → node_uid (with_edges n es) ≡ node_uid n
node_uid-with_edges (Node.requirement r) es = refl
node_uid-with_edges (Node.test t) es = refl
node_uid-with_edges (Node.review r) es = refl
node_uid-with_edges (Node.source_revision s) es = refl

node_id-with_edges : (n : Node) (es : List Edge) → node_id (with_edges n es) ≡ node_id n
node_id-with_edges (Node.requirement r) es = refl
node_id-with_edges (Node.test t) es = refl
node_id-with_edges (Node.review r) es = refl
node_id-with_edges (Node.source_revision s) es = refl

node_kind-with_edges : (n : Node) (es : List Edge) → node_kind (with_edges n es) ≡ node_kind n
node_kind-with_edges (Node.requirement r) es = refl
node_kind-with_edges (Node.test t) es = refl
node_kind-with_edges (Node.review r) es = refl
node_kind-with_edges (Node.source_revision s) es = refl

-- The node as it is stored.
abbrev pub stored : Node → Node
stored n = with_edges n (sort (node_edges n))

-- An accepted node is stored with its edges in order, all of them different.
canonicalize_edges_lem :
    (n c : Node) → canonicalize_edges n ≡ ok c → (stored n ≡ c) × CanonicalEdges (stored n)
unfolding canonicalize_edges
canonicalize_edges_lem n c h = elim (Option-cases (first_repeat (sort (node_edges n)))) [
  | inl e ↦ (
    ok_injective (rw (e, canonicalize_edges) at h),
    rw (node_edges-with_edges n (sort (node_edges n)))
        (IsStrict-of_first_repeat (sort (node_edges n)) (sort-IsAscending (node_edges n)) e),
  )
  | inr (x, e) ↦ absurd (cc (rw (e, canonicalize_edges) at h))
]

pub same_human_id-with_edges :
    (n m : Node) (es : List Edge) → same_human_id (with_edges n es) m ≡ same_human_id n m
unfolding same_human_id
same_human_id-with_edges n m es = rw (node_kind-with_edges n es, node_id-with_edges n es)

pub same_human_id_sym : (n m : Node) → same_human_id n m ≡ same_human_id m n
unfolding same_human_id
same_human_id_sym n m = ground (
  arith,
  node_kind_eq_iff (node_kind m) (node_kind n),
  node_kind_eq_iff (node_kind n) (node_kind m),
  str_eq_iff (node_id m) (node_id n),
  str_eq_iff (node_id n) (node_id m),
)

FreshId-of_find : (n : Node) (ms : List Node) → find (same_human_id n) ms ≡ none → FreshId n ms
unfolding find
FreshId-of_find n [] h = tt
FreshId-of_find n (m ∷ ms) h = elim (Bool-cases (same_human_id n m)) [
  | inl p ↦ absurd (cc (rw p at h))
  | inr p ↦ (p, FreshId-of_find n ms (rw p at h))
]

-- What an accepted insertion has checked, and the graph that it leaves.
pub insert-eq-ok :
    (g h : CorpusGraph) (n : Node)
    → insert g n ≡ ok h
    → (get (node_uid n) g ≡ none)
      × FreshId n (nodes_of g)
      × CanonicalEdges (stored n)
      × (h ≡ record g { nodes = BTreeMap.insert (node_uid n) (stored n) g.nodes })
unfolding insert check_identity_uniqueness
insert-eq-ok g h n e =
    let (checked, rest) =
      >>-eq-ok (check_identity_uniqueness g.nodes n)
        (canonicalize_edges n >>= λ c.
          ok (record g { nodes = BTreeMap.insert (node_uid c) c g.nodes }))
        e in
    let (c, canonical, built) = >>=-eq-ok (canonicalize_edges n) _ rest in
    let found = canonicalize_edges_lem n c canonical in
    elim (Option-cases (get (node_uid n) g)) [
      | inr (m, q) ↦ absurd (cc (rw q at checked))
      | inl q ↦ elim (Option-cases (find (same_human_id n) (nodes_of g))) [
        | inr (m, f) ↦ absurd (cc (rw (q, f) at checked))
        | inl f ↦ (
          q,
          FreshId-of_find n (nodes_of g) f,
          found.1,
          sym (ok_injective built)
              ∙ ap (λ d. record g { nodes = BTreeMap.insert (node_uid d) d g.nodes }) (sym found.0)
              ∙ ap (λ u. record g { nodes = BTreeMap.insert u (stored n) g.nodes })
                  (node_uid-with_edges n (sort (node_edges n))),
        )
      ]
    ]

-- The edges of an accepted node pass the check for repeats.
pub canonicalized :
    (g h : CorpusGraph) (n : Node) → insert g n ≡ ok h → canonicalize_edges n ≡ ok (stored n)
unfolding insert
canonicalized g h n e =
    let (checked, rest) =
      >>-eq-ok (check_identity_uniqueness g.nodes n)
        (canonicalize_edges n >>= λ c.
          ok (record g { nodes = BTreeMap.insert (node_uid c) c g.nodes }))
        e in
    let (c, canonical, built) = >>=-eq-ok (canonicalize_edges n) _ rest in
    canonical ∙ ap ok (sym (canonicalize_edges_lem n c canonical).0)

find_of_FreshId : (n : Node) (ms : List Node) → FreshId n ms → find (same_human_id n) ms ≡ none
unfolding find
find_of_FreshId n [] f = refl
find_of_FreshId n (m ∷ ms) f = rw f.0 (find_of_FreshId n ms f.1)

-- The conditions under which an insertion is accepted.
pub ok-insert :
    (g : CorpusGraph) (n : Node)
    → get (node_uid n) g ≡ none
    → FreshId n (nodes_of g)
    → canonicalize_edges n ≡ ok (stored n)
    → insert g n ≡ ok (record g { nodes = BTreeMap.insert (node_uid n) (stored n) g.nodes })
unfolding insert check_identity_uniqueness
ok-insert g n q f c =
    rw (q, find_of_FreshId n (nodes_of g) f, c, node_uid-with_edges n (sort (node_edges n)))
