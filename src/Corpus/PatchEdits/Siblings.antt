-- ===== src/Corpus/PatchEdits/Siblings.antt =====
-- Which nodes take the place of a removed node and its siblings, and in which order.
use evidence.Prelude.{
  ℕ, ◌<◌, ltb, Str, true, false, ◌||◌, refl, subst, some, List, ◌++◌, contains, contains-append,
  str_ord, Bool-cases, ◌&&◌, ◌≡◌, ◌≢◌, ◌⊎◌, inl, inr, sym, ap, ◌∙◌, arith, if◌then◌else◌,
  some_injective,
}
use evidence.BTreeMap
use evidence.BTreeMap.{values, IsSorted}
use evidence.Corpus.SourceNodes.{SourceNode, SourceGraph, opt_str_eq}
use evidence.Corpus.SourceOrdinals.{opt_eq_iff}
use evidence.Corpus.SourceValidation.Ancestry.{KeyedNodes}
use evidence.Corpus.PatchEdits.{is_child_of, promoted_uids, earlier_uids, later_uids, sequence}
use evidence.Corpus.PatchEdits.Ordered.{
  Earlier, Found, InOrder, append-InOrder, InOrder-imp, ordered_uids-InOrder, ordered_uids_there,
}
use evidence.Corpus.PatchEdits.Promotion.{earlier_found, promoted_found, later_found}

-- The node is a child of the target, or a sibling of it at another ordinal.
abbrev pub Joins : SourceNode → Str → SourceNode → Type 0
Joins removed target n =
    (n.parent_uid ≡ some target)
    ⊎ ((n.parent_uid ≡ removed.parent_uid) × (n.ordinal ≢ removed.ordinal))

-- Siblings below the target's ordinal come first, its children next, the other siblings last.
abbrev pub group : SourceNode → Str → SourceNode → ℕ
group removed target n =
    if opt_str_eq n.parent_uid (some target)
    then 1
    else if ltb n.ordinal removed.ordinal
    then 0
    else 2

abbrev pub Precedes : SourceNode → Str → Str → SourceNode → Str → SourceNode → Type 0
Precedes removed target u m v n =
    (group removed target m < group removed target n)
    ⊎ ((group removed target m ≡ group removed target n) × Earlier u m v n)

-- The new siblings: exactly the nodes that join, in their order.
pub record IsSiblingSequence (g : SourceGraph) (removed : SourceNode) (target : Str)
    (uids : List Str) : Type 0 where
  pub held :
      (u : Str)
      → contains uids u ≡ true
      → (n : SourceNode) × (BTreeMap.get u g ≡ some n) × Joins removed target n
  pub whole :
      (u : Str) (n : SourceNode)
      → BTreeMap.get u g ≡ some n
      → Joins removed target n
      → contains uids u ≡ true
  pub ordered : InOrder (Found g (Precedes removed target)) uids

module _ (removed : SourceNode) (target : Str) (g : SourceGraph) (s : IsSorted g) (k : KeyedNodes g)
    (apart : removed.parent_uid ≢ some target) where
  not_child :
      (n : SourceNode)
      → n.parent_uid ≡ removed.parent_uid
      → opt_str_eq n.parent_uid (some target) ≡ false
  not_child n same = elim (Bool-cases (opt_str_eq n.parent_uid (some target))) [
    | inr p ↦ p
    | inl p ↦ absurd (apart (sym same ∙ (opt_eq_iff n.parent_uid (some target)).0 p))
  ]

  in_earlier :
      (u : Str) (n : SourceNode)
      → contains (earlier_uids removed g) u ≡ true
      → BTreeMap.get u g ≡ some n
      → (n.parent_uid ≡ removed.parent_uid)
        × (n.ordinal < removed.ordinal)
        × (group removed target n ≡ 0)
  in_earlier u n h e =
      let (x, at_x, same, lt) = earlier_found removed target g s k apart u h in
      let eq : x ≡ n = some_injective (sym at_x ∙ e) in
      subst
        (λ y.
          (y.parent_uid ≡ removed.parent_uid)
          × (y.ordinal < removed.ordinal)
          × (group removed target y ≡ 0))
        eq (same, lt, rw (not_child x same) (ground arith))

  in_promoted :
      (u : Str) (n : SourceNode)
      → contains (promoted_uids target g) u ≡ true
      → BTreeMap.get u g ≡ some n
      → (n.parent_uid ≡ some target) × (group removed target n ≡ 1)
  in_promoted u n h e =
      let (x, at_x, c) = promoted_found removed target g s k apart u h in
      let eq : x ≡ n = some_injective (sym at_x ∙ e) in
      subst (λ y. (y.parent_uid ≡ some target) × (group removed target y ≡ 1)) eq
        ((opt_eq_iff x.parent_uid (some target)).0 c, rw c refl)

  in_later :
      (u : Str) (n : SourceNode)
      → contains (later_uids removed g) u ≡ true
      → BTreeMap.get u g ≡ some n
      → (n.parent_uid ≡ removed.parent_uid)
        × (removed.ordinal < n.ordinal)
        × (group removed target n ≡ 2)
  in_later u n h e =
      let (x, at_x, same, lt) = later_found removed target g s k apart u h in
      let eq : x ≡ n = some_injective (sym at_x ∙ e) in
      subst
        (λ y.
          (y.parent_uid ≡ removed.parent_uid)
          × (removed.ordinal < y.ordinal)
          × (group removed target y ≡ 2))
        eq (same, lt, rw (not_child x same) (ground arith))

  contains-sequence :
      (u : Str)
      → contains (sequence removed target g) u ≡ (
          (contains (earlier_uids removed g) u || contains (promoted_uids target g) u)
          || contains (later_uids removed g) u)
  unfolding sequence
  contains-sequence u =
      contains-append (earlier_uids removed g ++ promoted_uids target g) (later_uids removed g) u
      ∙ ap (λ b. b || contains (later_uids removed g) u)
          (contains-append (earlier_uids removed g) (promoted_uids target g) u)

  -- Within one of the three groups the order is by ordinal and uid.
  grouped :
      (i : ℕ) (uids : List Str)
      → ((u : Str) (n : SourceNode)
          → contains uids u ≡ true
          → BTreeMap.get u g ≡ some n
          → group removed target n ≡ i)
      → InOrder (Found g Earlier) uids
      → InOrder (Found g (Precedes removed target)) uids
  grouped i uids same a =
      InOrder-imp (Found g Earlier) (Found g (Precedes removed target)) uids
        (λ u v in_u in_v r m n at_m at_n.
          inr (same u m in_u at_m ∙ sym (same v n in_v at_n), r m n at_m at_n))
        a

  sequence-InOrder : InOrder (Found g (Precedes removed target)) (sequence removed target g)
  unfolding sequence promoted_uids earlier_uids later_uids
  sequence-InOrder =
      append-InOrder (Found g (Precedes removed target))
        (earlier_uids removed g ++ promoted_uids target g) (later_uids removed g)
        (append-InOrder (Found g (Precedes removed target)) (earlier_uids removed g)
          (promoted_uids target g)
          (grouped 0 (earlier_uids removed g) (λ u n h e. (in_earlier u n h e).2)
            (ordered_uids-InOrder g s k _))
          (grouped 1 (promoted_uids target g) (λ u n h e. (in_promoted u n h e).1)
            (ordered_uids-InOrder g s k _))
          (λ u v h q m n at_m at_n.
            let a = (in_earlier u m h at_m).2 in
            let b = (in_promoted v n q at_n).1 in inl (rw (a, b) (omega arith))))
        (grouped 2 (later_uids removed g) (λ u n h e. (in_later u n h e).2)
          (ordered_uids-InOrder g s k _))
        (λ u v h q m n at_m at_n.
          let b = (in_later v n q at_n).2 in
          elim (Bool-cases (contains (earlier_uids removed g) u)) [
            | inl p ↦ let a = (in_earlier u m p at_m).2 in inl (rw (a, b) (omega arith))
            | inr p ↦
                let there : contains (promoted_uids target g) u ≡ true =
                  ground
                    (arith, contains-append (earlier_uids removed g) (promoted_uids target g) u) in
                let a = (in_promoted u m there at_m).1 in inl (rw (a, b) (omega arith))
          ])

  sequence_held :
      (u : Str)
      → contains (sequence removed target g) u ≡ true
      → (n : SourceNode) × (BTreeMap.get u g ≡ some n) × Joins removed target n
  sequence_held u h = elim (Bool-cases (contains (promoted_uids target g) u)) [
    | inl p ↦
        let (n, e, c) = promoted_found removed target g s k apart u p in
        (n, e, inl ((opt_eq_iff n.parent_uid (some target)).0 c))
    | inr p ↦ elim (Bool-cases (contains (earlier_uids removed g) u)) [
      | inl q ↦
          let (n, e, same, lt) = earlier_found removed target g s k apart u q in
          (n, e, inr (same, λ o. omega arith))
      | inr q ↦
          let there : contains (later_uids removed g) u ≡ true =
            ground (arith, contains-sequence u) in
          let (n, e, same, gt) = later_found removed target g s k apart u there in
          (n, e, inr (same, λ o. omega arith))
    ]
  ]

  sequence_whole :
      (u : Str) (n : SourceNode)
      → BTreeMap.get u g ≡ some n
      → Joins removed target n
      → contains (sequence removed target g) u ≡ true
  unfolding promoted_uids earlier_uids later_uids
  sequence_whole u n e (inl c) =
      let there =
        ordered_uids_there g s k (is_child_of target) u n e
          ((opt_eq_iff n.parent_uid (some target)).1 c) in
      contains-sequence u ∙ ground (arith, there)
  sequence_whole u n e (inr (same, ne)) =
      let sibling = (opt_eq_iff n.parent_uid removed.parent_uid).1 same in
      elim (Bool-cases (ltb n.ordinal removed.ordinal)) [
        | inl p ↦
            let there =
              ordered_uids_there g s k
                (λ n. opt_str_eq n.parent_uid removed.parent_uid && ltb n.ordinal removed.ordinal) u
                n e (ground arith) in
            contains-sequence u ∙ ground (arith, there)
        | inr p ↦
            let there =
              ordered_uids_there g s k
                (λ n. opt_str_eq n.parent_uid removed.parent_uid && ltb removed.ordinal n.ordinal) u
                n e (ground arith) in
            contains-sequence u ∙ ground (arith, there)
      ]

  pub sequence-IsSiblingSequence : IsSiblingSequence g removed target (sequence removed target g)
  sequence-IsSiblingSequence = record {
    held = sequence_held;
    whole = sequence_whole;
    ordered = sequence-InOrder;
  }
