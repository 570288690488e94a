-- ===== src/Corpus/Lineage/Heads.antt =====
-- Documents, their revisions and their heads in an accepted lineage.

use mathlib.Core.List.{Memᴰ}
use mathlib.Core.List.Memᴰ
use evidence.Prelude.{
  Str, Bool, true, false, Option, none, some, List, [], ◌∷◌, ok, try_fold, str_ord, str_eq,
  str_eq_iff, str_eq_refl, contains, ◌≡◌, inl, inr, refl, sym, ◌∙◌, subst, arith, Bool-cases,
  filter_map, map, Option-cases,
}
use evidence.BTreeMap.Laws.{All-get}
use evidence.Corpus.Nodes.{Node, SourceRevisionNode}
use evidence.Corpus.Graph.{CorpusGraph, get, nodes_of, supersedes_targets}
use evidence.Corpus.Graph.Invariant.{IsWellFormed, keyed_get}
use evidence.Corpus.Graph.Validation.{validate_edges}
use evidence.Corpus.Successors.{SupersededBy}
use evidence.Corpus.Walk.{Outcome, finished, revisit, out_of_fuel, next}
use evidence.Corpus.Walk.Order.{IsOrdered, IsOrdered-step}
use evidence.Corpus.Walk.Sound.{walk_all_order}
use evidence.Corpus.Lineage.{
  node_step, revision_links, revisions, cycle_result, reject_cycles, superseded_uids, as_revision,
}
use evidence.Corpus.Lineage.Sound.{IsRevision, NodeGood, EdgeAgrees, collected, supersedes_edge}
use evidence.Corpus.Lineage.Members.{superseding-IsRevision, mem_revision}

cycle_result-eq-ok : (o : Outcome) → cycle_result o ≡ ok tt → (t : List Str) × (o ≡ finished t)
cycle_result-eq-ok (finished t) h = (t, refl)
cycle_result-eq-ok (revisit u) h = absurd (cc)
cycle_result-eq-ok out_of_fuel h = absurd (cc)

contains-map :
    (rs : List SourceRevisionNode) (r : SourceRevisionNode)
    → Memᴰ r rs
    → contains (map (λ x. x.uid) rs) r.uid ≡ true
unfolding contains
contains-map [] r h = absurd (Memᴰ.not-nil h)
contains-map (x ∷ rs) r (Memᴰ.head e) =
    subst (λ y. contains (y.uid ∷ map (λ x. x.uid) rs) r.uid ≡ true) e
      (ground (arith, str_eq_refl r.uid))
contains-map (x ∷ rs) r (Memᴰ.tail h) = ground (arith, contains-map rs r h)

-- What the checks before the roots and heads give.
pub record IsLineage (g : CorpusGraph) : Type 0 where
  pub order : List Str
  pub ordered : IsOrdered (next revision_links g.nodes) order
  pub complete :
      (uid : Str) (r : SourceRevisionNode) → IsRevision g uid r → contains order r.uid ≡ true
  pub document :
      (uid target : Str) (r p : SourceRevisionNode)
      → IsRevision g uid r
      → IsRevision g target p
      → contains (supersedes_targets r.edges) target ≡ true
      → r.document_key ≡ p.document_key

pub IsLineage-order :
    (g : CorpusGraph) (m : SupersededBy)
    → try_fold (node_step g) [] (nodes_of g) ≡ ok m
    → reject_cycles g ≡ ok tt
    → IsLineage g
unfolding reject_cycles revisions
IsLineage-order g m folded acyclic =
    let (t, e) = cycle_result-eq-ok _ acyclic in
    let found = walk_all_order revision_links g.nodes _ _ t e in
    record {
      order = t;
      ordered = found.0;
      complete = λ uid r h.
          found.1 r.uid
            (contains-map (filter_map as_revision (nodes_of g)) r (mem_revision g.nodes uid r h));
      document = λ uid target r p e f h.
          let good =
            All-get (NodeGood g m) uid g.nodes (Node.source_revision r) (collected g m folded) e in
          (subst (EdgeAgrees r m) f (supersedes_edge g r m r.edges target good.1 h).1).0;
    }

-- `uid` is a revision of the document that no edge of the graph supersedes.
pub record IsHead (g : CorpusGraph) (document_key uid : Str) : Type 0 where
  pub revision : SourceRevisionNode
  pub found : IsRevision g uid revision
  pub key : revision.document_key ≡ document_key
  pub current : contains (superseded_uids (nodes_of g)) uid ≡ false

revision_of : Option Node → Option SourceRevisionNode
revision_of (some (Node.source_revision r)) = some r
revision_of _ = none

in_document : Str → Option SourceRevisionNode → Bool
in_document d none = false
in_document d (some r) = str_eq r.document_key d

revision_of-eq-some :
    (o : Option Node) (r : SourceRevisionNode)
    → revision_of o ≡ some r
    → o ≡ some (Node.source_revision r)
unfolding revision_of
revision_of-eq-some none r h = absurd (cc)
revision_of-eq-some (some (Node.requirement _)) r h = absurd (cc)
revision_of-eq-some (some (Node.test _)) r h = absurd (cc)
revision_of-eq-some (some (Node.review _)) r h = absurd (cc)
revision_of-eq-some (some (Node.source_revision s)) r h = ground arith

in_document_of :
    (d : Str) (o : Option Node) (s : SourceRevisionNode)
    → o ≡ some (Node.source_revision s)
    → s.document_key ≡ d
    → in_document d (revision_of o) ≡ true
unfolding in_document revision_of
in_document_of d o s e k = rw e ((str_eq_iff s.document_key d).1 k)

next_links :
    (g : CorpusGraph) (r : SourceRevisionNode) (u : Str)
    → IsRevision g r.uid r
    → contains (supersedes_targets r.edges) u ≡ true
    → contains (next revision_links g.nodes r.uid) u ≡ true
unfolding next
next_links g r u e h = rw e h

module _ (g : CorpusGraph) (w : IsWellFormed g) (v : validate_edges g ≡ ok tt) (l : IsLineage g)
    (d : Str) where
  -- All revisions of the document are among `t`.
  abbrev Covers : List Str → Type 0
  Covers t =
      (r : SourceRevisionNode) → IsRevision g r.uid r → r.document_key ≡ d → contains t r.uid ≡ true

  -- The first revision of the document in the order has no successor.
  first-IsHead :
      (x : Str) (t : List Str) (r : SourceRevisionNode)
      → IsOrdered (next revision_links g.nodes) (x ∷ t)
      → Covers (x ∷ t)
      → IsRevision g x r
      → r.document_key ≡ d
      → contains (superseded_uids (nodes_of g)) x ≡ false
  unfolding contains
  first-IsHead x t r o c e k = elim (Bool-cases (contains (superseded_uids (nodes_of g)) x)) [
    | inr p ↦ p
    | inl p ↦
        let (s, at_s, points) = superseding-IsRevision g x r w v e p in
        let same = l.document s.uid x s r at_s e points ∙ k in
        let covered = c s at_s same in
        let edge = next_links g s x at_s points in
        absurd (elim (Bool-cases (str_eq x s.uid)) [
          | inl q ↦ cc (
            o.0 x (
                subst (λ y. contains (next revision_links g.nodes y) x ≡ true)
                  (sym ((str_eq_iff x s.uid).0 q)) edge),
            o.1,
          )
          | inr q ↦
              cc (
                o.1,
                IsOrdered-step (next revision_links g.nodes) t s.uid x o.2 (ground arith) edge,
              )
        ])
  ]

  IsHead-in :
      (t : List Str)
      → IsOrdered (next revision_links g.nodes) t
      → Covers t
      → (r : SourceRevisionNode) → IsRevision g r.uid r
      → r.document_key ≡ d
      → (uid : Str) × IsHead g d uid
  unfolding contains in_document
  IsHead-in [] o c r e k = absurd (cc (c r e k))
  IsHead-in (x ∷ t) o c r e k = elim (Bool-cases (in_document d (revision_of (get x g)))) [
    | inl p ↦ elim (Option-cases (revision_of (get x g))) [
      | inl q ↦ absurd (cc (rw q at p))
      | inr (s, q) ↦
          let at_x = revision_of-eq-some (get x g) s q in
          let key = (str_eq_iff s.document_key d).0 (rw q at p) in
          (
            x,
            record {
              revision = s;
              found = at_x;
              key = key;
              current = first-IsHead x t s o c at_x key;
            },
          )
    ]
    | inr p ↦
        IsHead-in t o.2
          (λ s at_s same. elim (Bool-cases (str_eq x s.uid)) [
            | inr q ↦ let h = c s at_s same in ground arith
            | inl q ↦
                let at_x =
                  subst (λ y. get y g ≡ some (Node.source_revision s))
                    (sym ((str_eq_iff x s.uid).0 q)) at_s in
                absurd (cc (in_document_of d (get x g) s at_x same))
          ])
          r e k
  ]

  -- A document with a revision has a head.
  pub IsHead-exists :
      (uid : Str) (r : SourceRevisionNode)
      → IsRevision g uid r
      → r.document_key ≡ d
      → (h : Str) × IsHead g d h
  IsHead-exists uid r e k =
      let same = keyed_get g uid (Node.source_revision r) w.keyed e in
      IsHead-in l.order l.ordered (λ s at_s q. l.complete s.uid s at_s) r
        (subst (λ u. IsRevision g u r) (sym same) e) k
