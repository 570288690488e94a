-- ===== src/Corpus/PatchApply/Digests.antt =====
-- The digests that an applied patch ends with.
use evidence.Prelude.{
  Str, true, false, Option, none, some, List, [], ◌∷◌, str_eq, str_eq_iff, str_ord, Bool-cases, ◌≡◌,
  inl, inr, refl, ap, ◌∙◌,
}
use evidence.BTreeMap
use evidence.BTreeMap.{BTreeMap, values, IsSorted, Above}
use evidence.BTreeMap.Laws.{get-insert, get-Above, insert-IsSorted}
use evidence.BTreeMap.Edits.{opt_map, get-update}
use evidence.Corpus.SourceNodes.{SourceNode, SourceGraph}
use evidence.Corpus.SourceValidation.{content_digest, fingerprint}
use evidence.Corpus.SourceValidation.Ancestry.{KeyedNodes}
use evidence.Corpus.PatchEdits.{
  ancestry_pairs, digest_updates, set_digests, apply_updates, recompute_node_digests,
}

-- The digests that the final pass computes for a node.
abbrev pub digests_of : (Str → Str) → SourceGraph → SourceNode → Str × Str
digests_of sha256 g node = (
  content_digest sha256 node.kind node.canonical_text,
  fingerprint sha256 node.kind node.label (ancestry_pairs g node.parent_uid),
)

abbrev pub refreshed : (Str → Str) → SourceGraph → SourceNode → SourceNode
refreshed sha256 g node = set_digests (digests_of sha256 g node) node

get_nil : {V : Type 0} (k : Str) → BTreeMap.get {V = V} k [] ≡ none
unfolding BTreeMap.get
get_nil k = refl

-- The change that an entry of the updates makes.
abbrev updated : Option (Str × Str) → Option SourceNode → Option SourceNode
updated none o = o
updated (some d) o = opt_map (set_digests d) o

get-apply_updates :
    (u : Str) (g : SourceGraph) (updates : BTreeMap Str (Str × Str))
    → IsSorted updates
    → BTreeMap.get u (apply_updates g updates) ≡ updated (BTreeMap.get u updates) (BTreeMap.get u g)
unfolding apply_updates BTreeMap.get
get-apply_updates u g [] s = refl
get-apply_updates u g ((k, d) ∷ updates) s =
    get-apply_updates u (BTreeMap.update (set_digests d) k g) updates s.1
    ∙ elim (Bool-cases (str_eq u k)) [
      | inl p ↦
          let above =
            ap (λ x. BTreeMap.get x updates) ((str_eq_iff u k).0 p) ∙ get-Above k updates s.0 in
          rw (above, p) (get-update (set_digests d) k u g ∙ rw p refl)
      | inr p ↦
          rw p
            (ap (updated (BTreeMap.get u updates)) (get-update (set_digests d) k u g ∙ rw p refl))
    ]

module _ (sha256 : Str → Str) (g : SourceGraph) where
  digest_updates-IsSorted :
      (updates : BTreeMap Str (Str × Str)) (ns : List SourceNode)
      → IsSorted updates
      → IsSorted (digest_updates sha256 g updates ns)
  unfolding digest_updates
  digest_updates-IsSorted updates [] s = s
  digest_updates-IsSorted updates (n ∷ ns) s =
      digest_updates-IsSorted (BTreeMap.insert n.uid (digests_of sha256 g n) updates) ns
        (insert-IsSorted n.uid (digests_of sha256 g n) updates s)

  abbrev entered : Option SourceNode → Option (Str × Str) → Option (Str × Str)
  entered none o = o
  entered (some n) o = some (digests_of sha256 g n)

  get-digest_updates :
      (u : Str) (updates : BTreeMap Str (Str × Str)) (m : BTreeMap Str SourceNode)
      → IsSorted m
      → KeyedNodes m
      → BTreeMap.get u (digest_updates sha256 g updates (values m))
        ≡ entered (BTreeMap.get u m) (BTreeMap.get u updates)
  unfolding digest_updates BTreeMap.get
  get-digest_updates u updates [] s k = refl
  get-digest_updates u updates ((j, n) ∷ m) s k =
      get-digest_updates u (BTreeMap.insert n.uid (digests_of sha256 g n) updates) m s.1 k.1
      ∙ elim (Bool-cases (str_eq u j)) [
        | inl p ↦
            let above = ap (λ x. BTreeMap.get x m) ((str_eq_iff u j).0 p) ∙ get-Above j m s.0 in
            let same : str_eq u n.uid ≡ true = ap (str_eq u) k.0 ∙ p in
            rw (above, p) (get-insert n.uid u (digests_of sha256 g n) updates ∙ rw same refl)
        | inr p ↦
            let other : str_eq u n.uid ≡ false = ap (str_eq u) k.0 ∙ p in
            rw p (
              ap (entered (BTreeMap.get u m))
                (get-insert n.uid u (digests_of sha256 g n) updates ∙ rw other refl))
      ]

updated-entered :
    (sha256 : Str → Str) (g : SourceGraph) (o : Option SourceNode)
    → updated (entered sha256 g o none) o ≡ opt_map (refreshed sha256 g) o
updated-entered sha256 g none = refl
updated-entered sha256 g (some n) = refl

-- In a source graph in the order of its keys, whose nodes stand under their uids, the final pass
-- sets the digests of every node to those of its kind, text, label and ancestry, and changes nothing
-- else.
pub get-recompute_node_digests :
    (sha256 : Str → Str) (g : SourceGraph) (u : Str)
    → IsSorted g
    → KeyedNodes g
    → BTreeMap.get u (recompute_node_digests sha256 g)
      ≡ opt_map (refreshed sha256 g) (BTreeMap.get u g)
unfolding recompute_node_digests
get-recompute_node_digests sha256 g u s k =
    get-apply_updates u g (digest_updates sha256 g [] (values g))
      (digest_updates-IsSorted sha256 g [] (values g) tt)
    ∙ ap (λ o. updated o (BTreeMap.get u g))
        (get-digest_updates sha256 g u [] g s k
          ∙ ap (entered sha256 g (BTreeMap.get u g)) (get_nil u))
    ∙ updated-entered sha256 g (BTreeMap.get u g)
