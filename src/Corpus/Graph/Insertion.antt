-- ===== src/Corpus/Graph/Insertion.antt =====
-- What insertion does to the graph's invariant and contents.
use evidence.Prelude.{
  pair_ord, Str, false, none, some, List, [], ◌∷◌, ok, sort, str_ord, str_eq, str_eq_iff, All, ◌≡◌,
  ◌≢◌, inl, inr, sym, ◌∙◌, subst, arith, Bool-cases, if◌then◌else◌, ap,
}
use evidence.BTreeMap
use evidence.BTreeMap.{BTreeMap, values, IsSorted}
use evidence.BTreeMap.Laws.{get-insert, insert-IsSorted, insert_comm}
use evidence.Corpus.Nodes.{edge_kind_ord, Node, node_uid, node_edges}
use evidence.Corpus.Graph.{CorpusGraph, get, nodes_of, same_human_id, insert}
use evidence.Corpus.Graph.Invariant.{
  IsWellFormed, KeyedMap, CanonicalEdges, FreshId, UniqueIds, stored, insert-eq-ok, ok-insert,
  canonicalized, insert-KeyedMap, same_human_id_sym, same_human_id-with_edges, node_uid-with_edges,
}

module _ {ℓ} (P : Node → Type ℓ) where
  insert-All :
      (k : Str) (n : Node) (m : BTreeMap Str Node)
      → P n
      → All P (values m)
      → All P (values (BTreeMap.insert k n m))
  unfolding BTreeMap.insert
  insert-All k n [] p a = (p, tt)
  insert-All k n ((j, w) ∷ m) p a = elim (Bool-cases (str_eq k j)) [
    | inl q ↦ rw q (p, a.1)
    | inr q ↦ elim (Bool-cases (str_ord.lt k j)) [
      | inl r ↦ rw (q, r) (p, a)
      | inr r ↦ rw (q, r) (a.0, insert-All k n m p a.1)
    ]
  ]

insert-FreshId :
    (k : Str) (n x : Node) (m : BTreeMap Str Node)
    → same_human_id x n ≡ false
    → FreshId x (values m)
    → FreshId x (values (BTreeMap.insert k n m))
unfolding BTreeMap.insert
insert-FreshId k n x [] h f = (h, tt)
insert-FreshId k n x ((j, w) ∷ m) h f = elim (Bool-cases (str_eq k j)) [
  | inl q ↦ rw q (h, f.1)
  | inr q ↦ elim (Bool-cases (str_ord.lt k j)) [
    | inl r ↦ rw (q, r) (h, f)
    | inr r ↦ rw (q, r) (f.0, insert-FreshId k n x m h f.1)
  ]
]

insert-UniqueIds :
    (k : Str) (n : Node) (m : BTreeMap Str Node)
    → FreshId n (values m)
    → UniqueIds (values m)
    → UniqueIds (values (BTreeMap.insert k n m))
unfolding BTreeMap.insert
insert-UniqueIds k n [] f u = (tt, tt)
insert-UniqueIds k n ((j, w) ∷ m) f u = elim (Bool-cases (str_eq k j)) [
  | inl q ↦ rw q (f.1, u.1)
  | inr q ↦ elim (Bool-cases (str_ord.lt k j)) [
    | inl r ↦ rw (q, r) (f, u)
    | inr r ↦
        rw (q, r)
          (insert-FreshId k n w m (same_human_id_sym w n ∙ f.0) u.0, insert-UniqueIds k n m f.1 u.1)
  ]
]

FreshId-stored : (n : Node) (ms : List Node) → FreshId n ms → FreshId (stored n) ms
FreshId-stored n [] f = tt
FreshId-stored n (m ∷ ms) f =
    (same_human_id-with_edges n m (sort (node_edges n)) ∙ f.0, FreshId-stored n ms f.1)

-- An accepted insertion keeps the graph well formed: nodes in uid order, each under its own uid,
-- each with strictly ascending edges, and no human id twice within a kind.
pub insert-IsWellFormed :
    (g h : CorpusGraph) (n : Node) → insert g n ≡ ok h → IsWellFormed g → IsWellFormed h
insert-IsWellFormed g h n e w =
    let (fresh, ids, canonical, built) = insert-eq-ok g h n e in
    let uid = node_uid-with_edges n (sort (node_edges n)) in
    rw built (record {
      sorted = insert-IsSorted (node_uid n) (stored n) g.nodes w.sorted;
      keyed =
          subst (λ u. KeyedMap (BTreeMap.insert u (stored n) g.nodes)) uid
            (insert-KeyedMap g.nodes (stored n) w.keyed);
      canonical = insert-All CanonicalEdges (node_uid n) (stored n) g.nodes canonical w.canonical;
      unique_ids =
          insert-UniqueIds (node_uid n) (stored n) g.nodes (FreshId-stored n (nodes_of g) ids)
            w.unique_ids;
    })

-- After an accepted insertion the node's uid finds the node with its edges sorted, every other uid
-- finds what it found before, the uid was free, and source graphs, patches and trace metadata are
-- unchanged.
pub get-insert_node :
    (g h : CorpusGraph) (n : Node)
    → insert g n ≡ ok h
    → (get (node_uid n) g ≡ none)
      × ((uid : Str) → get uid h ≡ (if str_eq uid (node_uid n) then some (stored n) else get uid g))
      × (h.source_graphs ≡ g.source_graphs)
      × (h.source_patches ≡ g.source_patches)
      × (h.trace_metadata ≡ g.trace_metadata)
get-insert_node g h n e =
    let (fresh, ids, canonical, built) = insert-eq-ok g h n e in
    (
      fresh,
      λ uid. ap (get uid) built ∙ get-insert (node_uid n) uid (stored n) g.nodes,
      ap (λ x. x.source_graphs) built,
      ap (λ x. x.source_patches) built,
      ap (λ x. x.trace_metadata) built,
    )

FreshId-of_insert :
    (k : Str) (n x : Node) (m : BTreeMap Str Node)
    → BTreeMap.get k m ≡ none
    → FreshId x (values (BTreeMap.insert k n m))
    → (same_human_id x n ≡ false) × FreshId x (values m)
unfolding BTreeMap.insert BTreeMap.get
FreshId-of_insert k n x [] h f = f
FreshId-of_insert k n x ((j, w) ∷ m) h f = elim (Bool-cases (str_eq k j)) [
  | inl q ↦ absurd (cc (rw q at h))
  | inr q ↦ elim (Bool-cases (str_ord.lt k j)) [
    | inl r ↦ rw (q, r) at f
    | inr r ↦
        let f' = rw (q, r) at f in
        let rest = FreshId-of_insert k n x m (rw q at h) f'.1 in (rest.0, (f'.0, rest.1))
  ]
]

abbrev with_nodes : CorpusGraph → BTreeMap Str Node → CorpusGraph
with_nodes g nodes = record g { nodes = nodes }

stored_apart :
    (a b : Node) → same_human_id b (stored a) ≡ false → same_human_id a (stored b) ≡ false
stored_apart a b h =
    same_human_id_sym a (stored b)
    ∙ same_human_id-with_edges b a (sort (node_edges b))
    ∙ same_human_id_sym b a
    ∙ sym (same_human_id-with_edges a b (sort (node_edges a)))
    ∙ same_human_id_sym (stored a) b
    ∙ h

-- The order in which two nodes are loaded does not show: if one order is accepted, so is the
-- other, and the graphs are equal.
pub insert_order :
    (g h k : CorpusGraph) (a b : Node)
    → IsWellFormed g
    → insert g a ≡ ok h
    → insert h b ≡ ok k
    → (h' : CorpusGraph) × (insert g b ≡ ok h') × (insert h' a ≡ ok k)
insert_order g h k a b w e f =
    let (fresh_a, ids_a, canon_a, built_h) = insert-eq-ok g h a e in
    let (fresh_b, ids_b, canon_b, built_k) = insert-eq-ok h k b f in
    let ua = node_uid a in
    let ub = node_uid b in
    let look = get-insert ua ub (stored a) g.nodes in
    let fresh_b' = ap (get ub) (sym built_h) ∙ fresh_b in
    let apart =
      FreshId-of_insert ua (stored a) b g.nodes fresh_a
        (subst (λ x. FreshId b (nodes_of x)) built_h ids_b) in
    let ne : str_eq ub ua ≡ false = ground (arith, look, fresh_b') in
    let free : get ub g ≡ none = ground (arith, look, fresh_b') in
    let h' = record g { nodes = BTreeMap.insert ub (stored b) g.nodes } in
    let distinct : ua ≢ ub = λ q. ground (arith, str_eq_iff ub ua) in
    (
      h',
      ok-insert g b free apart.1 (canonicalized h k b f),
      ok-insert h' a
            (get-insert ub ua (stored b) g.nodes ∙ ground (arith, fresh_a, str_eq_iff ua ub))
            (insert-FreshId ub (stored b) a g.nodes (stored_apart a b apart.0) ids_a)
            (canonicalized g h a e)
          ∙ ap ok (
              ap (with_nodes g) (insert_comm ua ub (stored a) (stored b) g.nodes w.sorted distinct)
              ∙ ap (λ x. with_nodes x (BTreeMap.insert ub (stored b) x.nodes)) (sym built_h)
              ∙ sym built_k),
    )
