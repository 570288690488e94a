-- ===== src/Corpus/PatchEdits/Promotion.antt =====
-- The sequence that `reparent_children` puts in place of a removed node.
use evidence.Prelude.{
  ℕ, ◌+◌, ◌%◌, ◌^◌, ◌<◌, ltb, Str, true, false, some, List, ◌∷◌, ◌++◌, contains, contains-append,
  length, str_eq_refl, str_ord, some_injective, Bool-cases, ◌&&◌, ◌≡◌, ◌≢◌, ◌⊎◌, inl, inr, refl,
  sym, ap, subst, ◌∙◌, arith,
}
use evidence.BTreeMap
use evidence.BTreeMap.{values, IsSorted}
use evidence.BTreeMap.Edits.{opt_map}
use evidence.Corpus.SourceNodes.{SourceNode, SourceGraph, opt_str_eq}
use evidence.Corpus.SourceOrdinals.{opt_eq_iff}
use evidence.Corpus.SourceValidation.Ancestry.{KeyedNodes}
use evidence.Corpus.PatchEdits.{
  is_child_of, renumber, promoted_uids, earlier_uids, later_uids, sequence, promote,
}
use evidence.Corpus.PatchEdits.Renumber.{placed, renumber_other, renumber_at}
use evidence.Corpus.PatchEdits.Distinct.{
  Distinct, append-Distinct, ordered_uids-Distinct, ordered_uids_found,
}

module _ (removed : SourceNode) (target : Str) (g : SourceGraph) (s : IsSorted g) (k : KeyedNodes g)
    (apart : removed.parent_uid ≢ some target) where
  -- Only the promoted nodes stand below the target.
  not_promoted :
      (u : Str) (n : SourceNode)
      → BTreeMap.get u g ≡ some n
      → n.parent_uid ≡ removed.parent_uid
      → contains (promoted_uids target g) u ≡ false
  unfolding promoted_uids
  not_promoted u n e same = elim (Bool-cases (contains (promoted_uids target g) u)) [
    | inr h ↦ h
    | inl h ↦
        let (x, at_x, p) = ordered_uids_found (is_child_of target) g s k u h in
        let eq : x ≡ n = some_injective (sym at_x ∙ e) in
        absurd (
          apart (
            sym same
            ∙ ap (λ y. y.parent_uid) (sym eq)
            ∙ (opt_eq_iff x.parent_uid (some target)).0 p))
  ]

  pub earlier_found :
      (u : Str)
      → contains (earlier_uids removed g) u ≡ true
      → (n : SourceNode) × (BTreeMap.get u g ≡ some n)
        × (n.parent_uid ≡ removed.parent_uid)
        × (n.ordinal < removed.ordinal)
  unfolding earlier_uids
  earlier_found u h =
      let (n, e, p) =
        ordered_uids_found
          (λ n. opt_str_eq n.parent_uid removed.parent_uid && ltb n.ordinal removed.ordinal) g s k u
          h in
      (n, e, ground (arith, opt_eq_iff n.parent_uid removed.parent_uid), ground arith)

  pub promoted_found :
      (u : Str)
      → contains (promoted_uids target g) u ≡ true
      → (n : SourceNode) × (BTreeMap.get u g ≡ some n) × (is_child_of target n ≡ true)
  unfolding promoted_uids
  promoted_found u h = ordered_uids_found (is_child_of target) g s k u h

  pub later_found :
      (u : Str)
      → contains (later_uids removed g) u ≡ true
      → (n : SourceNode) × (BTreeMap.get u g ≡ some n)
        × (n.parent_uid ≡ removed.parent_uid)
        × (removed.ordinal < n.ordinal)
  unfolding later_uids
  later_found u h =
      let (n, e, p) =
        ordered_uids_found
          (λ n. opt_str_eq n.parent_uid removed.parent_uid && ltb removed.ordinal n.ordinal) g s k u
          h in
      (n, e, ground (arith, opt_eq_iff n.parent_uid removed.parent_uid), ground arith)

  not_later :
      (u : Str) (n : SourceNode)
      → BTreeMap.get u g ≡ some n
      → n.ordinal < removed.ordinal
      → contains (later_uids removed g) u ≡ false
  not_later u n e lt = elim (Bool-cases (contains (later_uids removed g) u)) [
    | inr h ↦ h
    | inl h ↦
        let (x, at_x, same, gt) = later_found u h in
        let eq : x ≡ n = some_injective (sym at_x ∙ e) in
        let o : x.ordinal ≡ n.ordinal = ap (λ y. y.ordinal) eq in absurd (omega arith)
  ]

  sequence-Distinct : Distinct (sequence removed target g)
  unfolding sequence promoted_uids earlier_uids later_uids
  sequence-Distinct =
      append-Distinct (earlier_uids removed g ++ promoted_uids target g) (later_uids removed g)
        (append-Distinct (earlier_uids removed g) (promoted_uids target g)
          (ordered_uids-Distinct _ g s k) (ordered_uids-Distinct _ g s k)
          (λ u h. let (n, e, same, lt) = earlier_found u h in not_promoted u n e same))
        (ordered_uids-Distinct _ g s k)
        (λ u h. elim (Bool-cases (contains (later_uids removed g) u)) [
          | inr q ↦ q
          | inl q ↦
              let (n, e, same, gt) = later_found u q in
              let none_promoted = not_promoted u n e same in
              let before : contains (earlier_uids removed g) u ≡ true =
                ground
                  (arith, contains-append (earlier_uids removed g) (promoted_uids target g) u) in
              let (x, at_x, same_x, lt) = earlier_found u before in
              let eq : x ≡ n = some_injective (sym at_x ∙ e) in
              let o : x.ordinal ≡ n.ordinal = ap (λ y. y.ordinal) eq in absurd (omega arith)
        ])

  -- Each uid of the sequence is a node's, and the loop leaves it below the target's parent.
  pub sequence_found :
      (u : Str)
      → contains (sequence removed target g) u ≡ true
      → (n : SourceNode) × (BTreeMap.get u g ≡ some n)
        × ((contains (promoted_uids target g) u ≡ true) ⊎ (n.parent_uid ≡ removed.parent_uid))
  unfolding sequence
  sequence_found u h = elim (Bool-cases (contains (promoted_uids target g) u)) [
    | inl p ↦ let (n, e, c) = promoted_found u p in (n, e, inl p)
    | inr p ↦ elim (Bool-cases (contains (earlier_uids removed g) u)) [
      | inl q ↦ let (n, e, same, lt) = earlier_found u q in (n, e, inr same)
      | inr q ↦
          let (n, e, same, gt) = later_found u (
            ground (
              arith,
              contains-append (earlier_uids removed g ++ promoted_uids target g)
                  (later_uids removed g) u,
              contains-append (earlier_uids removed g) (promoted_uids target g) u,
            )) in
          (n, e, inr same)
    ]
  ]

  placed_in :
      (u : Str) (i : ℕ) (n : SourceNode)
      → (contains (promoted_uids target g) u ≡ true) ⊎ (n.parent_uid ≡ removed.parent_uid)
      → placed (promoted_uids target g) removed.parent_uid u i n
        ≡ record n { ordinal = i % 2 ^ 32; parent_uid = removed.parent_uid }
  placed_in u i n (inl p) = rw p refl
  placed_in u i n (inr e) = elim (Bool-cases (contains (promoted_uids target g) u)) [
    | inl p ↦ rw p refl
    | inr p ↦ rw p (ap (λ x. record n { ordinal = i % 2 ^ 32; parent_uid = x }) e)
  ]

  pub promote_at :
      (before after : List Str) (u : Str)
      → sequence removed target g ≡ before ++ u ∷ after
      → (n : SourceNode) × (BTreeMap.get u g ≡ some n)
        × (BTreeMap.get u (promote removed target g)
            ≡ some (record n { ordinal = length before % 2 ^ 32; parent_uid = removed.parent_uid }))
  unfolding promote contains
  promote_at before after u e =
      let there : contains (sequence removed target g) u ≡ true =
        ap (λ x. contains x u) e
        ∙ ground (arith, contains-append before (u ∷ after) u, str_eq_refl u) in
      let (n, at_n, how) = sequence_found u there in
      let zeroth : 0 + length before ≡ length before = omega arith in
      (
        n,
        at_n,
        ap (λ x. BTreeMap.get u (renumber (promoted_uids target g) removed.parent_uid 0 x g)) e
            ∙ renumber_at (promoted_uids target g) removed.parent_uid 0 before after g u
                (subst Distinct e sequence-Distinct)
            ∙ ap
                (λ i.
                  opt_map (placed (promoted_uids target g) removed.parent_uid u i)
                    (BTreeMap.get u g))
                zeroth
            ∙ ap (opt_map (placed (promoted_uids target g) removed.parent_uid u (length before)))
                at_n
            ∙ ap some (placed_in u (length before) n how),
      )

  pub promote_other :
      (u : Str)
      → contains (sequence removed target g) u ≡ false
      → BTreeMap.get u (promote removed target g) ≡ BTreeMap.get u g
  unfolding promote
  promote_other u h =
      renumber_other (promoted_uids target g) removed.parent_uid 0 (sequence removed target g) g u h
