-- ===== src/Corpus/Legacy/Entries.antt =====
-- What a loop over the entries of one kind does to the graph.
use mathlib.Core.List.{Memᴰ}
use evidence.Prelude.{
  Str, Option, some, List, [], ◌∷◌, Result, ok, ◌>>=◌, >>=-eq-ok, Result-cases, try_fold,
  try_fold-All, All, str_eq, str_eq_iff, str_eq_refl, str_ord, Bool-cases, if◌then◌else◌, ◌≡◌, ◌⊎◌,
  inl, inr, refl, sym, ap, ◌∙◌, ok_injective,
}
use evidence.BTreeMap
use evidence.BTreeMap.Laws.{get-insert}
use evidence.Corpus.Nodes.{Node, node_uid}
use evidence.Corpus.Errors.{CorpusError}
use evidence.Corpus.Graph.{CorpusGraph, TraceMetadata, get, insert, insert_with_trace_metadata}
use evidence.Corpus.Graph.Invariant.{IsWellFormed, stored, insert-eq-ok}
use evidence.Corpus.Graph.Insertion.{insert-IsWellFormed, get-insert_node}
use evidence.Corpus.Legacy.{AdaptedNode, insert_adapted, insert_entries}

abbrev metadata_of : Str → CorpusGraph → Option TraceMetadata
metadata_of uid g = BTreeMap.get uid g.trace_metadata

-- The node stands under its uid, with its edges sorted, and its metadata too.
abbrev pub Holds : CorpusGraph → AdaptedNode → Type 0
Holds g a =
    (get (node_uid a.node) g ≡ some (stored a.node))
    × (metadata_of (node_uid a.node) g ≡ some a.metadata)

-- What a later graph keeps.
pub record Extends (g h : CorpusGraph) : Type 0 where
  pub well_formed : IsWellFormed g → IsWellFormed h
  pub kept : (a : AdaptedNode) → Holds g a → Holds h a

Extends-refl : (g : CorpusGraph) → Extends g g
Extends-refl g = record { well_formed = λ w. w; kept = λ a h. h }

pub kept_over : (f g h : CorpusGraph) → Extends f g → Extends g h → Extends f h
kept_over f g h x y = record {
  well_formed = λ w. y.well_formed (x.well_formed w);
  kept = λ a p. y.kept a (x.kept a p);
}

-- One insertion.
record Inserts (g : CorpusGraph) (a : AdaptedNode) (h : CorpusGraph) : Type 0 where
  extends : Extends g h
  held : Holds h a
  only :
      (uid : Str) (n : Node) → get uid h ≡ some n → (get uid g ≡ some n) ⊎ (node_uid a.node ≡ uid)

insert_adapted-Inserts :
    (g : CorpusGraph) (a : AdaptedNode) (h : CorpusGraph)
    → insert_adapted g a ≡ ok h
    → Inserts g a h
unfolding insert_adapted insert_with_trace_metadata
insert_adapted-Inserts g a h e =
    let (h', inserted, built) = >>=-eq-ok (insert g a.node) _ e in
    let (fresh, found, _, _, _) = get-insert_node g h' a.node inserted in
    let (_, _, _, made) = insert-eq-ok g h' a.node inserted in
    let uid = node_uid a.node in
    let nodes_of_h : (u : Str)
        → get u h ≡ (if str_eq u uid then some (stored a.node) else get u g) =
      λ u. ap (get u) (sym (ok_injective built)) ∙ found u in
    let metadata_of_h : (u : Str)
        → metadata_of u h ≡ (if str_eq u uid then some a.metadata else metadata_of u g) =
      λ u.
        ap (metadata_of u) (sym (ok_injective built))
        ∙ get-insert uid u a.metadata h'.trace_metadata
        ∙ rw (ap (λ x. x.trace_metadata) made) refl in
    record {
      extends = record {
        well_formed = λ w. rw (sym (ok_injective built)) (
            let v = insert-IsWellFormed g h' a.node inserted w in
            record {
              sorted = v.sorted;
              keyed = v.keyed;
              canonical = v.canonical;
              unique_ids = v.unique_ids;
            });
        kept = λ b held. elim (Bool-cases (str_eq (node_uid b.node) uid)) [
          | inl p ↦
              cc (sym held.0 ∙ ap (λ u. get u g) ((str_eq_iff (node_uid b.node) uid).0 p) ∙ fresh)
          | inr p ↦ (
            nodes_of_h (node_uid b.node) ∙ rw p held.0,
            metadata_of_h (node_uid b.node) ∙ rw p held.1,
          )
        ];
      };
      held = (
        nodes_of_h uid ∙ rw (str_eq_refl uid) refl,
        metadata_of_h uid ∙ rw (str_eq_refl uid) refl,
      );
      only = λ u n at_u. elim (Bool-cases (str_eq u uid)) [
        | inl p ↦ inr (sym ((str_eq_iff u uid).0 p))
        | inr p ↦ inl (sym (nodes_of_h u ∙ rw p refl) ∙ at_u)
      ];
    }

-- A list of entries of one kind.
module _ {A : Type 0} (adapt : A → Result CorpusError AdaptedNode) where
  -- The graph holds what the entry becomes.
  abbrev pub HoldsEntry : CorpusGraph → A → Type 0
  HoldsEntry g x = (a : AdaptedNode) × (adapt x ≡ ok a) × Holds g a

  -- The entry becomes a node of this uid.
  abbrev pub Gives : Str → A → Type 0
  Gives uid x = (a : AdaptedNode) × (adapt x ≡ ok a) × (node_uid a.node ≡ uid)

  pub entries_kept :
      (g h : CorpusGraph) (xs : List A)
      → insert_entries adapt g xs ≡ ok h
      → Extends g h × All (HoldsEntry h) xs
  unfolding insert_entries
  entries_kept g h xs =
      try_fold-All Extends HoldsEntry (λ g x. adapt x >>= λ a. insert_adapted g a) Extends-refl
        kept_over (λ s t x later (a, adapted, now). (a, adapted, later.kept a now))
        (λ s t x e.
          let (a, adapted, inserted) = >>=-eq-ok (adapt x) _ e in
          let done = insert_adapted-Inserts s a t inserted in
          (done.extends, (a, adapted, done.held)))
        g h xs

  pub entries_only :
      (g h : CorpusGraph) (xs : List A)
      → insert_entries adapt g xs ≡ ok h
      → (uid : Str) (n : Node) → get uid h ≡ some n
      → (get uid g ≡ some n) ⊎ ((x : A) × Memᴰ x xs × Gives uid x)
  unfolding insert_entries try_fold
  entries_only g h [] e uid n at_uid = inl (ap (get uid) (ok_injective e) ∙ at_uid)
  entries_only g h (x ∷ xs) e uid n at_uid =
      elim (Result-cases (adapt x >>= λ a. insert_adapted g a)) [
        | inr (q, bad) ↦ absurd (cc (rw (bad, try_fold) at e))
        | inl (g', good) ↦ elim (entries_only g' h xs (rw (good, try_fold) at e) uid n at_uid) [
          | inr (y, m, gives) ↦ inr (y, Memᴰ.tail m, gives)
          | inl before ↦
              let (a, adapted, inserted) = >>=-eq-ok (adapt x) _ good in
              elim ((insert_adapted-Inserts g a g' inserted).only uid n before) [
                | inl old ↦ inl old
                | inr here ↦ inr (x, Memᴰ.head refl, (a, adapted, here))
              ]
        ]
      ]
