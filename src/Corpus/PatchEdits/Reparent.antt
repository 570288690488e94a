-- ===== src/Corpus/PatchEdits/Reparent.antt =====
-- What `reparent_children` makes of a sibling set.
use evidence.Prelude.{
  ℕ, ◌%◌, ◌^◌, Str, false, Option, none, some, List, ◌∷◌, ◌++◌, contains, length, str_eq_iff,
  str_eq_refl, str_ord, Bool-cases, ◌≡◌, ◌≢◌, inl, inr, refl, ap, ◌∙◌, arith,
}
use evidence.BTreeMap
use evidence.BTreeMap.{values, IsSorted}
use evidence.BTreeMap.Edits.{get-remove, remove-IsSorted, All-remove}
use evidence.Corpus.SourceNodes.{SourceNode, SourceGraph}
use evidence.Corpus.SourceValidation.Ancestry.{KeyedNodes}
use evidence.Corpus.PatchEdits.{sequence, promote, reparent_children}
use evidence.Corpus.PatchEdits.Promotion.{sequence_found, promote_at, promote_other}
use evidence.Corpus.PatchEdits.Siblings.{IsSiblingSequence, sequence-IsSiblingSequence}

-- The entry that the promotion leaves under a uid that stands at an index of the sequence.
abbrev pub RenumberedTo : SourceGraph → SourceGraph → Option Str → Str → ℕ → Type 0
RenumberedTo g h parent u index =
    (n : SourceNode) × (BTreeMap.get u g ≡ some n)
    × (BTreeMap.get u h ≡ some (record n { ordinal = index % 2 ^ 32; parent_uid = parent }))

module _ (g : SourceGraph) (target : Str) (removed : SourceNode) (s : IsSorted g) (k : KeyedNodes g)
    (found : BTreeMap.get target g ≡ some removed) (apart : removed.parent_uid ≢ some target) where
  rest-IsSorted : IsSorted (BTreeMap.remove target g)
  rest-IsSorted = remove-IsSorted target g s

  rest-KeyedNodes : KeyedNodes (BTreeMap.remove target g)
  rest-KeyedNodes = All-remove (λ e. e.1.uid ≡ e.0) target g k

  result : reparent_children g target ≡ promote removed target (BTreeMap.remove target g)
  unfolding reparent_children
  result = rw (reparent_children, found) refl

  in_graph :
      (u : Str) (n : SourceNode)
      → BTreeMap.get u (BTreeMap.remove target g) ≡ some n
      → BTreeMap.get u g ≡ some n
  in_graph u n e = ground (arith, get-remove target u g s)

  target_gone : BTreeMap.get target (BTreeMap.remove target g) ≡ none
  target_gone = get-remove target target g s ∙ rw (str_eq_refl target) refl

  not_in_sequence : contains (sequence removed target (BTreeMap.remove target g)) target ≡ false
  not_in_sequence =
      elim (Bool-cases (contains (sequence removed target (BTreeMap.remove target g)) target)) [
        | inr h ↦ h
        | inl h ↦
            let (n, e, how) =
              sequence_found removed target (BTreeMap.remove target g) rest-IsSorted rest-KeyedNodes
                apart target h in
            absurd (cc (e, target_gone))
      ]

  -- In a source graph in the order of its keys, whose nodes stand under their uids, removing a node
  -- that is not its own parent and promoting its children drops the node. The new siblings are
  -- exactly its children and its siblings at other ordinals: first the siblings below its ordinal,
  -- then the children, then the other siblings, each by ordinal and then uid. Each of them gets its
  -- index in this sequence, modulo 2^32, as ordinal and the removed node's parent as parent, and
  -- keeps its other fields. Every other entry is left as it was.
  pub reparent_children_lem :
      (uids : List Str) × IsSiblingSequence (BTreeMap.remove target g) removed target uids
      × (BTreeMap.get target (reparent_children g target) ≡ none)
      × ((before after : List Str) (u : Str)
          → uids ≡ before ++ u ∷ after
          → RenumberedTo g (reparent_children g target) removed.parent_uid u (length before))
      × ((u : Str)
          → contains uids u ≡ false
          → u ≢ target
          → BTreeMap.get u (reparent_children g target) ≡ BTreeMap.get u g)
  reparent_children_lem =
      let g' = BTreeMap.remove target g in
      (
        sequence removed target g',
        sequence-IsSiblingSequence removed target g' rest-IsSorted rest-KeyedNodes apart,
        ap (BTreeMap.get target) result
            ∙ promote_other removed target g' rest-IsSorted rest-KeyedNodes apart target
                not_in_sequence
            ∙ target_gone,
        λ before after u e.
            let (n, at_n, placed_n) =
              promote_at removed target g' rest-IsSorted rest-KeyedNodes apart before after u e in
            (n, in_graph u n at_n, ap (BTreeMap.get u) result ∙ placed_n),
        λ u h ne.
            ap (BTreeMap.get u) result
            ∙ promote_other removed target g' rest-IsSorted rest-KeyedNodes apart u h
            ∙ get-remove target u g s
            ∙ ground (arith, str_eq_iff u target),
      )
