-- ===== src/Corpus/PatchEdits/Ancestry.antt =====
-- The loop of `ancestry_pairs` is given enough rounds.
use evidence.Prelude.{
  ℕ, zero, suc, ◌<◌, Str, Option, none, some, List, [], ◌∷◌, ◌++◌, contains, length, str_ord, ◌≡◌,
  inl, inr, refl, ap, ◌∙◌, arith, Option-cases, Bool-cases,
}
use evidence.BTreeMap
use evidence.BTreeMap.Laws.{All_entry}
use evidence.Corpus.SourceNodes.{SourceNodeKind, SourceNode, SourceGraph}
use evidence.Corpus.Walk.{weight, next}
use evidence.Corpus.Walk.Fuel.{weight-visit}
use evidence.Corpus.SourceValidation.Ancestry.{KeyedNodes}
use evidence.Corpus.PatchEdits.{pairs_from, ancestry_pairs}

one_link :
    (g : SourceGraph) (u : Str) (p : SourceNode)
    → BTreeMap.get u g ≡ some p
    → length (next (λ n. n.uid ∷ []) g u) ≡ 1
unfolding next
one_link g u p h = rw h refl

module _ (g : SourceGraph) (keyed : KeyedNodes g) where
  pairs_from_enough :
      (fuel more : ℕ) (visited : List Str) (chain : List (SourceNodeKind × Option Str))
      (current : Option Str)
      → weight (λ n. n.uid ∷ []) g visited < fuel
      → weight (λ n. n.uid ∷ []) g visited < more
      → pairs_from fuel g visited chain current ≡ pairs_from more g visited chain current
  unfolding pairs_from
  pairs_from_enough zero more visited chain current w v = absurd (omega arith)
  pairs_from_enough (suc fuel) zero visited chain current w v = absurd (omega arith)
  pairs_from_enough (suc fuel) (suc more) visited chain none w v = refl
  pairs_from_enough (suc fuel) (suc more) visited chain (some u) w v =
      elim (Option-cases (BTreeMap.get u g)) [
        | inl q ↦ rw (pairs_from, q) refl
        | inr (p, q) ↦ elim (Bool-cases (contains visited p.uid)) [
          | inl c ↦ rw (pairs_from, q, c) refl
          | inr c ↦
              let key : p.uid ≡ u = All_entry (λ e. e.1.uid ≡ e.0) u g p keyed q in
              let one = one_link g p.uid p (ap (λ x. BTreeMap.get x g) key ∙ q) in
              let less = weight-visit (λ n. n.uid ∷ []) g visited p.uid c in
              rw (pairs_from, q, c)
                (pairs_from_enough fuel more (visited ++ p.uid ∷ []) ((p.kind, p.label) ∷ chain)
                  p.parent_uid (omega arith) (omega arith))
        ]
      ]

  -- In a source graph whose nodes stand under their uids the loop of `ancestry_pairs` leaves by
  -- itself: any number of rounds above the given one yields the same pairs.
  pub ancestry_pairs_enough :
      (more : ℕ) (parent_uid : Option Str)
      → weight (λ n. n.uid ∷ []) g [] < more
      → pairs_from more g [] [] parent_uid ≡ ancestry_pairs g parent_uid
  unfolding ancestry_pairs
  ancestry_pairs_enough more parent_uid h =
      pairs_from_enough more (suc (weight (λ n. n.uid ∷ []) g [])) [] [] parent_uid h (omega arith)
