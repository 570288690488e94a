-- ===== src/Corpus/PatchEdits/Cascade.antt =====
-- What `remove_subtree` leaves of a source graph.
use evidence.Prelude.{
  suc, Str, true, none, some, List, [], ◌∷◌, contains, length, str_eq_iff, str_eq_refl, str_ord,
  if◌then◌else◌, Option-cases, Bool-cases, ◌≡◌, ◌≢◌, ◌↔◌, ◌⊎◌, inl, inr, refl, subst, ◌∙◌, arith,
}
use evidence.BTreeMap
use evidence.BTreeMap.{values, IsSorted}
use evidence.BTreeMap.Edits.{get-remove, remove-IsSorted}
use evidence.Corpus.SourceNodes.{SourceNode, SourceGraph}
use evidence.Corpus.SourceValidation.Ancestry.{KeyedNodes}
use evidence.Corpus.PatchEdits.{collect_members, remove_all, remove_subtree}
use evidence.Corpus.PatchEdits.Subtree.{
  Below, waiting-le, length-map, collect_members_ends, collected_members,
}

-- The loop of the cascade always ends within its fuel.
pub collect_members_total :
    (g : SourceGraph) (target : Str)
    → collect_members (suc (suc (length g))) g [] (target ∷ []) ≢ none
collect_members_total g target =
    collect_members_ends (suc (suc (length g))) g [] (target ∷ [])
      (omega (arith, waiting-le (values g), length-map (λ e. e.1) g))

get-remove_all :
    (us : List Str) (g : SourceGraph) (u : Str)
    → IsSorted g
    → BTreeMap.get u (remove_all us g) ≡ (if contains us u then none else BTreeMap.get u g)
unfolding remove_all contains
get-remove_all [] g u s = refl
get-remove_all (v ∷ us) g u s = ground (
  arith,
  get-remove_all us (BTreeMap.remove v g) u (remove-IsSorted v g s),
  get-remove v u g s,
  str_eq_iff u v,
  str_eq_iff v u,
)

module _ (g : SourceGraph) (target : Str) (sorted : IsSorted g) (keyed : KeyedNodes g) where
  members :
      (out : List Str) × (collect_members (suc (suc (length g))) g [] (target ∷ []) ≡ some out)
      × ((u : Str) → (contains out u ≡ true) ↔ Below g target u)
  unfolding contains
  members = elim (Option-cases (collect_members (suc (suc (length g))) g [] (target ∷ []))) [
    | inl e ↦ absurd (collect_members_total g target e)
    | inr (out, e) ↦
        let (below, closed, old, new) =
          collected_members g target sorted keyed (suc (suc (length g))) [] (target ∷ []) out
            (λ u h. absurd (cc))
            (λ u h. subst (Below g target) ((str_eq_iff target u).0 (ground arith)) Below.here)
            (λ u c n h x q. absurd (cc)) e in
        (out, e, λ u. (below u, collects out new closed u))
  ]
    where
      collects :
          (out : List Str)
          → ((v : Str) → contains (target ∷ []) v ≡ true → contains out v ≡ true)
          → ((v c : Str) (n : SourceNode)
              → contains out v ≡ true
              → BTreeMap.get c g ≡ some n
              → n.parent_uid ≡ some v
              → (contains out c ≡ true) ⊎ (contains [] c ≡ true))
          → (u : Str) → Below g target u
          → contains out u ≡ true
      collects out new closed u Below.here = new target (ground (arith, str_eq_refl target))
      collects out new closed u (Below.under n b e q) =
          ground (arith, closed _ u n (collects out new closed _ b) e q)

  -- In a source graph in the order of its keys, whose nodes stand under their uids, `remove_subtree`
  -- drops the target and every node below it, and leaves every other entry as it was.
  pub remove_subtree_lem :
      (u : Str)
      → (Below g target u → BTreeMap.get u (remove_subtree g target) ≡ none)
        × ((Below g target u → ⊥) → BTreeMap.get u (remove_subtree g target) ≡ BTreeMap.get u g)
  unfolding remove_subtree
  remove_subtree_lem u =
      let (out, e, same) = members in
      let got = get-remove_all out g u sorted in
      elim (Bool-cases (contains out u)) [
        | inl c ↦ (λ b. rw e (got ∙ rw c refl), λ n. absurd (n ((same u).0 c)))
        | inr c ↦ (λ b. absurd (cc ((same u).1 b)), λ n. rw e (got ∙ rw c refl))
      ]
