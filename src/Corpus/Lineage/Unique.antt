-- ===== src/Corpus/Lineage/Unique.antt =====
-- At most one head for each document, and the map that `effective_source_heads` returns.
use mathlib.Core.List.{Memᴰ}
use mathlib.Core.List.Memᴰ
use evidence.Prelude.{
  is_some, Str, true, false, some, List, [], ◌∷◌, ◌++◌, ok, for_each-ok, str_ord, str_eq,
  str_eq_iff, contains, ◌≡◌, ◌⊎◌, inl, inr, refl, sym, ◌∙◌, subst, arith, Bool-cases, filter,
  Option-cases, ap, if◌then◌else◌,
}
use mathlib.Core.List.{append_assoc, append-nil}
use evidence.BTreeMap
use evidence.BTreeMap.{BTreeMap, values}
use evidence.BTreeMap.Laws.{get-insert, All_entry}
use evidence.Corpus.Nodes.{SourceRevisionNode}
use evidence.Corpus.Errors.{SourceError}
use evidence.Corpus.Graph.{CorpusGraph, nodes_of}
use evidence.Corpus.Lineage.{
  group, or_default, at_most_one, heads_of, push_revision, group_revisions, revisions_by_document,
  revisions, reject_multiple_heads, superseded_uids, collect_heads,
}

-- The revisions of a document, in uid order.
unfoldable of_document : Str → List SourceRevisionNode → List SourceRevisionNode
of_document d = filter (λ r. str_eq d r.document_key)

group-push_revision :
    (d : Str) (m : BTreeMap Str (List SourceRevisionNode)) (r : SourceRevisionNode)
    → group d (push_revision m r)
      ≡ (if str_eq d r.document_key then group d m ++ r ∷ [] else group d m)
unfolding group push_revision
group-push_revision d m r = ground (
  arith,
  get-insert r.document_key d (group r.document_key m ++ r ∷ []) m,
  str_eq_iff d r.document_key,
)

group-group_revisions :
    (d : Str) (m : BTreeMap Str (List SourceRevisionNode)) (rs : List SourceRevisionNode)
    → group d (group_revisions m rs) ≡ group d m ++ of_document d rs
unfolding group_revisions of_document filter
group-group_revisions d m [] = sym (append-nil (group d m))
group-group_revisions d m (r ∷ rs) = elim (Bool-cases (str_eq d r.document_key)) [
  | inl p ↦ rw p (
      group-group_revisions d (push_revision m r) rs
      ∙ ap (λ x. x ++ of_document d rs) (group-push_revision d m r ∙ rw p)
      ∙ append_assoc (group d m) (r ∷ []) (of_document d rs))
  | inr p ↦ rw p (
      group-group_revisions d (push_revision m r) rs
      ∙ ap (λ x. x ++ of_document d rs) (group-push_revision d m r ∙ rw p))
]

group_nil : (d : Str) → group d [] ≡ []
unfolding group BTreeMap.get
group_nil d = refl

mem-group :
    (d : Str) (m : BTreeMap Str (List SourceRevisionNode)) (r : SourceRevisionNode)
    → Memᴰ r (group d m)
    → BTreeMap.get d m ≡ some (group d m)
unfolding group
mem-group d m r h = elim (Option-cases (BTreeMap.get d m)) [
  | inl e ↦ absurd (Memᴰ.not-nil (rw (e, or_default) at h))
  | inr (rs, e) ↦ rw (e, or_default)
]

mem-of_document :
    (d : Str) (rs : List SourceRevisionNode) (r : SourceRevisionNode)
    → Memᴰ r rs
    → r.document_key ≡ d
    → Memᴰ r (of_document d rs)
unfolding of_document filter
mem-of_document d [] r h k = absurd (Memᴰ.not-nil h)
mem-of_document d (x ∷ rs) r (Memᴰ.head e) k =
    rw ((str_eq_iff d x.document_key).1 (sym k ∙ ap (λ y. y.document_key) e)) (Memᴰ.head e)
mem-of_document d (x ∷ rs) r (Memᴰ.tail h) k = elim (Bool-cases (str_eq d x.document_key)) [
  | inl p ↦ rw p (Memᴰ.tail (mem-of_document d rs r h k))
  | inr p ↦ rw p (mem-of_document d rs r h k)
]

-- The heads among some revisions of one document.
abbrev heads : CorpusGraph → List SourceRevisionNode → List Str
heads g rs = heads_of (superseded_uids (nodes_of g)) rs

-- The check of a document bounds its heads.
one_head :
    (g : CorpusGraph) (d : Str) (r : SourceRevisionNode)
    → reject_multiple_heads g ≡ ok tt
    → Memᴰ r (revisions g)
    → r.document_key ≡ d
    → at_most_one (SourceError.lineage_multiple_heads d) (heads g (of_document d (revisions g)))
      ≡ ok tt
unfolding reject_multiple_heads revisions_by_document
one_head g d r h at_r k =
    let same : group d (revisions_by_document g) ≡ of_document d (revisions g) =
      group-group_revisions d [] (revisions g)
      ∙ ap (λ x. x ++ of_document d (revisions g)) (group_nil d) in
    let here = subst (Memᴰ r) (sym same) (mem-of_document d (revisions g) r at_r k) in
    let checked =
      All_entry (λ e. at_most_one (SourceError.lineage_multiple_heads e.0) (heads g e.1) ≡ ok tt) d
        (revisions_by_document g) (group d (revisions_by_document g))
        (for_each-ok (λ e. at_most_one (SourceError.lineage_multiple_heads e.0) (heads g e.1))
          (revisions_by_document g) h)
        (mem-group d (revisions_by_document g) r here) in
    subst (λ rs. at_most_one (SourceError.lineage_multiple_heads d) (heads g rs) ≡ ok tt) same
      checked

mem-heads :
    (superseded : List Str) (rs : List SourceRevisionNode) (r : SourceRevisionNode)
    → Memᴰ r rs
    → contains superseded r.uid ≡ false
    → contains (heads_of superseded rs) r.uid ≡ true
unfolding heads_of filter contains
mem-heads superseded [] r h c = absurd (Memᴰ.not-nil h)
mem-heads superseded (x ∷ rs) r (Memᴰ.head e) c =
    rw (ap (λ y. contains superseded y.uid) (sym e) ∙ c)
      (ground (arith, str_eq_iff x.uid r.uid, ap (λ y. y.uid) e))
mem-heads superseded (x ∷ rs) r (Memᴰ.tail h) c = elim (Bool-cases (contains superseded x.uid)) [
  | inl p ↦ rw p (mem-heads superseded rs r h c)
  | inr p ↦ rw p (ground (arith, mem-heads superseded rs r h c))
]

at_most_one-eq :
    (e : Str → Str → SourceError) (us : List Str) (u v : Str)
    → at_most_one e us ≡ ok tt
    → contains us u ≡ true
    → contains us v ≡ true
    → u ≡ v
unfolding contains
at_most_one-eq e [] u v h a b = absurd (cc)
at_most_one-eq e (x ∷ []) u v h a b = ground (arith, str_eq_iff x u, str_eq_iff x v)
at_most_one-eq e (x ∷ y ∷ us) u v h a b = absurd (cc)

-- Two heads of one document are the same revision.
pub heads_unique :
    (g : CorpusGraph) (d : Str) (r s : SourceRevisionNode)
    → reject_multiple_heads g ≡ ok tt
    → Memᴰ r (revisions g)
    → Memᴰ s (revisions g)
    → r.document_key ≡ d
    → s.document_key ≡ d
    → contains (superseded_uids (nodes_of g)) r.uid ≡ false
    → contains (superseded_uids (nodes_of g)) s.uid ≡ false
    → r.uid ≡ s.uid
heads_unique g d r s h at_r at_s kr ks cr cs =
    let rs = of_document d (revisions g) in
    at_most_one-eq (SourceError.lineage_multiple_heads d) (heads g rs) r.uid s.uid
      (one_head g d r h at_r kr)
      (mem-heads (superseded_uids (nodes_of g)) rs r (mem-of_document d (revisions g) r at_r kr) cr)
      (mem-heads (superseded_uids (nodes_of g)) rs s (mem-of_document d (revisions g) s at_s ks) cs)

-- What an entry of the collected map is: a current revision of the document, or an older entry.
pub collect_heads_sound :
    (superseded : List Str) (m : BTreeMap Str Str) (rs : List SourceRevisionNode) (d u : Str)
    → BTreeMap.get d (collect_heads superseded m rs) ≡ some u
    → ((r : SourceRevisionNode) × Memᴰ r rs
        × (r.document_key ≡ d)
        × (contains superseded r.uid ≡ false)
        × (r.uid ≡ u))
      ⊎ (BTreeMap.get d m ≡ some u)
unfolding collect_heads
collect_heads_sound superseded m [] d u h = inr h
collect_heads_sound superseded m (x ∷ rs) d u h =
    elim (collect_heads_sound superseded
      (if contains superseded x.uid then m else BTreeMap.insert x.document_key x.uid m) rs d u h) [
        | inl (r, at_r, key, current, same) ↦ inl (r, Memᴰ.tail at_r, key, current, same)
        | inr e ↦ elim (Bool-cases (contains superseded x.uid)) [
          | inl p ↦ inr (rw p at e)
          | inr p ↦ elim (Bool-cases (str_eq d x.document_key)) [
            | inl q ↦ inl (
              x,
              Memᴰ.head refl,
              sym ((str_eq_iff d x.document_key).0 q),
              p,
              ground (arith, get-insert x.document_key d x.uid m),
            )
            | inr q ↦ inr (ground (arith, get-insert x.document_key d x.uid m))
          ]
        ]
      ]

collect_heads_keeps :
    (superseded : List Str) (m : BTreeMap Str Str) (rs : List SourceRevisionNode) (d : Str)
    → is_some (BTreeMap.get d m) ≡ true
    → is_some (BTreeMap.get d (collect_heads superseded m rs)) ≡ true
unfolding collect_heads
collect_heads_keeps superseded m [] d h = h
collect_heads_keeps superseded m (x ∷ rs) d h =
    collect_heads_keeps superseded
      (if contains superseded x.uid then m else BTreeMap.insert x.document_key x.uid m) rs d
      (ground (arith, get-insert x.document_key d x.uid m))

-- A document with a current revision has an entry.
pub collect_heads_complete :
    (superseded : List Str) (m : BTreeMap Str Str) (rs : List SourceRevisionNode)
    (r : SourceRevisionNode)
    → Memᴰ r rs
    → contains superseded r.uid ≡ false
    → is_some (BTreeMap.get r.document_key (collect_heads superseded m rs)) ≡ true
unfolding collect_heads
collect_heads_complete superseded m [] r h c = absurd (Memᴰ.not-nil h)
collect_heads_complete superseded m (x ∷ rs) r (Memᴰ.tail h) c =
    collect_heads_complete superseded
      (if contains superseded x.uid then m else BTreeMap.insert x.document_key x.uid m) rs r h c
collect_heads_complete superseded m (x ∷ rs) r (Memᴰ.head e) c =
    let k = ap (λ y. y.document_key) e in
    let u = ap (λ y. y.uid) e in
    collect_heads_keeps superseded
      (if contains superseded x.uid then m else BTreeMap.insert x.document_key x.uid m) rs
      r.document_key
      (rw (ap (contains superseded) (sym u) ∙ c) (
        ground (
          arith,
          get-insert x.document_key r.document_key x.uid m,
          str_eq_iff r.document_key x.document_key,
        )))
