-- ===== src/Corpus/Identity/Presented.antt =====
-- The index of the candidates of a graph's nodes, in whatever order they are presented.
use mathlib.Core.Option
use evidence.Prelude.{
  Str, true, none, some, List, [], ◌∷◌, map, contains, str_ord, str_eq, str_eq_iff, All,
  some_injective, Bool-cases, Option-cases, ◌≡◌, refl, sym, ap, ◌∙◌, inl, inr,
}
use evidence.BTreeMap
use evidence.BTreeMap.{BTreeMap}
use evidence.BTreeMap.Laws.{get-insert}
use evidence.BTreeMap.Edits.{All-insert}
use evidence.Corpus.SourceNodes.{SourceLocator, SourceNode, SourceGraph}
use evidence.Corpus.Identity.{CandidateNode, index_by_id}
use evidence.Corpus.Identity.Keys.{reingested, IsRenamed}

-- The node stands in the graph under its uid.
abbrev pub InGraph : SourceGraph → SourceNode → Type 0
InGraph g n = BTreeMap.get n.uid g ≡ some n

abbrev pub uids : List SourceNode → List Str
uids = map (λ n. n.uid)

pub index_by_id-named :
    (m : BTreeMap Str CandidateNode) (cs : List CandidateNode)
    → All (λ e. e.1.provisional_id ≡ e.0) m
    → All (λ e. e.1.provisional_id ≡ e.0) (index_by_id m cs)
unfolding index_by_id
index_by_id-named m [] a = a
index_by_id-named m (c ∷ cs) a =
    index_by_id-named (BTreeMap.insert c.provisional_id c m) cs
      (All-insert (λ e. e.1.provisional_id ≡ e.0) c.provisional_id c m refl a)

module _ (name : Str → Str) (edit : SourceNode → Str) (move : SourceNode → SourceLocator)
    (distinct : (u v : Str) → name u ≡ name v → u ≡ v) (g : SourceGraph) where
  index_missing :
      (u : Str) (nodes : List SourceNode) (m : BTreeMap Str CandidateNode)
      → BTreeMap.get u g ≡ none
      → All (InGraph g) nodes
      → BTreeMap.get (name u) m ≡ none
      → BTreeMap.get (name u) (index_by_id m (map (reingested name edit move) nodes)) ≡ none
  unfolding index_by_id
  index_missing u [] m h held before = before
  index_missing u (x ∷ nodes) m h held before =
      let c = reingested name edit move x in
      index_missing u nodes (BTreeMap.insert (name x.uid) c m) h held.1
        (elim (Bool-cases (str_eq (name u) (name x.uid))) [
          | inr p ↦ get-insert (name x.uid) (name u) c m ∙ rw p before
          | inl p ↦
              let same = distinct u x.uid ((str_eq_iff (name u) (name x.uid)).0 p) in
              absurd (cc (ap (λ v. BTreeMap.get v g) same, held.0, h))
        ])

  index_kept :
      (u : Str) (n : SourceNode) (nodes : List SourceNode) (m : BTreeMap Str CandidateNode)
      → BTreeMap.get u g ≡ some n
      → All (InGraph g) nodes
      → BTreeMap.get (name u) m ≡ some (reingested name edit move n)
      → BTreeMap.get (name u) (index_by_id m (map (reingested name edit move) nodes))
        ≡ some (reingested name edit move n)
  unfolding index_by_id
  index_kept u n [] m h held before = before
  index_kept u n (x ∷ nodes) m h held before =
      let c = reingested name edit move x in
      index_kept u n nodes (BTreeMap.insert (name x.uid) c m) h held.1
        (elim (Bool-cases (str_eq (name u) (name x.uid))) [
          | inr p ↦ get-insert (name x.uid) (name u) c m ∙ rw p before
          | inl p ↦
              let same = distinct u x.uid ((str_eq_iff (name u) (name x.uid)).0 p) in
              let node : x ≡ n =
                some_injective (sym held.0 ∙ ap (λ v. BTreeMap.get v g) (sym same) ∙ h) in
              get-insert (name x.uid) (name u) c m
              ∙ rw p (ap (λ y. some (reingested name edit move y)) node)
        ])

  index_found :
      (u : Str) (n : SourceNode) (nodes : List SourceNode) (m : BTreeMap Str CandidateNode)
      → BTreeMap.get u g ≡ some n
      → All (InGraph g) nodes
      → contains (uids nodes) u ≡ true
      → BTreeMap.get (name u) (index_by_id m (map (reingested name edit move) nodes))
        ≡ some (reingested name edit move n)
  unfolding index_by_id contains
  index_found u n [] m h held there = absurd (cc)
  index_found u n (x ∷ nodes) m h held there =
      let c = reingested name edit move x in
      elim (Bool-cases (str_eq x.uid u)) [
        | inr p ↦ index_found u n nodes (BTreeMap.insert (name x.uid) c m) h held.1 (rw p at there)
        | inl p ↦
            let same : x.uid ≡ u = (str_eq_iff x.uid u).0 p in
            let node : x ≡ n = some_injective (sym held.0 ∙ ap (λ v. BTreeMap.get v g) same ∙ h) in
            let own : str_eq (name u) (name x.uid) ≡ true =
              (str_eq_iff (name u) (name x.uid)).1 (ap name (sym same)) in
            index_kept u n nodes (BTreeMap.insert (name x.uid) c m) h held.1 (
              get-insert (name x.uid) (name u) c m
              ∙ rw own (ap (λ y. some (reingested name edit move y)) node))
      ]

  -- Candidates that come from the graph's nodes, each at least once, are found by their new names.
  pub index_by_id-IsRenamed :
      (nodes : List SourceNode)
      → All (InGraph g) nodes
      → ((u : Str) (n : SourceNode) → BTreeMap.get u g ≡ some n → contains (uids nodes) u ≡ true)
      → IsRenamed name edit move g (index_by_id [] (map (reingested name edit move) nodes))
  unfolding BTreeMap.get
  index_by_id-IsRenamed nodes held all u = elim (Option-cases (BTreeMap.get u g)) [
    | inl p ↦
        index_missing u nodes [] p held refl ∙ sym (ap (Option.map (reingested name edit move)) p)
    | inr (n, p) ↦
        index_found u n nodes [] p held (all u n p)
        ∙ sym (ap (Option.map (reingested name edit move)) p)
  ]
