-- ===== src/Corpus/PatchEdits/Renumber.antt =====
-- The loop of `reparent_children` that gives the nodes of a sequence their ordinals.
use evidence.Prelude.{
  ℕ, ◌+◌, ◌%◌, ◌^◌, Str, false, Option, List, [], ◌∷◌, ◌++◌, contains, contains-append, length,
  str_eq, str_eq_iff, str_eq_refl, str_ord, if◌then◌else◌, ◌≡◌, refl, sym, ap, ◌∙◌, arith,
}
use evidence.BTreeMap
use evidence.BTreeMap.Edits.{opt_map, get-update}
use evidence.Corpus.SourceNodes.{SourceNode, SourceGraph}
use evidence.Corpus.PatchEdits.{renumber}
use evidence.Corpus.PatchEdits.Distinct.{Distinct}

module _ (promoted : List Str) (parent : Option Str) where
  -- What the loop makes of the node at an index.
  abbrev pub placed : Str → ℕ → SourceNode → SourceNode
  placed uid index node =
      let renumbered = record node { ordinal = index % 2 ^ 32 } in
      if contains promoted uid then record renumbered { parent_uid = parent } else renumbered

  pub renumber_other :
      (index : ℕ) (uids : List Str) (g : SourceGraph) (u : Str)
      → contains uids u ≡ false
      → BTreeMap.get u (renumber promoted parent index uids g) ≡ BTreeMap.get u g
  unfolding renumber contains
  renumber_other index [] g u h = refl
  renumber_other index (v ∷ uids) g u h =
      renumber_other (index + 1) uids (BTreeMap.update (placed v index) v g) u (ground arith)
      ∙ ground (arith, get-update (placed v index) v u g, str_eq_iff u v, str_eq_iff v u)

  pub renumber_at :
      (index : ℕ) (before after : List Str) (g : SourceGraph) (u : Str)
      → Distinct (before ++ u ∷ after)
      → BTreeMap.get u (renumber promoted parent index (before ++ u ∷ after) g)
        ≡ opt_map (placed u (index + length before)) (BTreeMap.get u g)
  unfolding renumber contains
  renumber_at index [] after g u d =
      let zeroth : index + 0 ≡ index = omega arith in
      renumber_other (index + 1) after (BTreeMap.update (placed u index) u g) u d.0
      ∙ get-update (placed u index) u u g
      ∙ rw (str_eq_refl u) (ap (λ i. opt_map (placed u i) (BTreeMap.get u g)) (sym zeroth))
  renumber_at index (v ∷ before) after g u d =
      let later : index + 1 + length before ≡ index + length (v ∷ before) = omega arith in
      let other : str_eq u v ≡ false =
        ground (arith, contains-append before (u ∷ after) v, str_eq_iff u v, d.0) in
      renumber_at (index + 1) before after (BTreeMap.update (placed v index) v g) u d.1
      ∙ ap (λ i. opt_map (placed u i) (BTreeMap.get u (BTreeMap.update (placed v index) v g))) later
      ∙ ap (opt_map (placed u (index + length (v ∷ before))))
          (get-update (placed v index) v u g ∙ rw other refl)
