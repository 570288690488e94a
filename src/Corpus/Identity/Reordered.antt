-- ===== src/Corpus/Identity/Reordered.antt =====
-- A graph whose nodes have different keys keeps its identities in whatever order it is presented.
use mathlib.Core.List.{Memᴰ, Permᴰ}
use evidence.Prelude.{
  ℕ, Str, some, List, [], ◌∷◌, map, All, str_ord, ◌≡◌, refl, sym, ap, subst, ◌∙◌, inl, inr,
  Bool-cases,
}
use evidence.BTreeMap
use evidence.BTreeMap.{values, IsSorted}
use evidence.BTreeMap.Laws.{get_of_mem}
use evidence.Corpus.SourceNodes.{SourceLocator, SourceNode, SourceGraph}
use evidence.Corpus.SourceValidation.Ancestry.{KeyedNodes}
use evidence.Corpus.PatchApply.Invariant.{IsStore}
use evidence.Corpus.Identity.{StructuralKey, key_eq, explicit_anchor, structural_key, reconcile}
use evidence.Corpus.Identity.Keys.{key_eq_iff, reingested}
use evidence.Corpus.Identity.Presented.{InGraph}
use evidence.Corpus.Identity.Unchanged.{uids_with, reconcile_same}

all_InGraph :
    (g m : SourceGraph)
    → ((e : Str × SourceNode) → Memᴰ e m → BTreeMap.get e.0 g ≡ some e.1)
    → KeyedNodes m
    → All (InGraph g) (values m)
all_InGraph g [] into k = tt
all_InGraph g ((j, n) ∷ m) into k = (
  ap (λ u. BTreeMap.get u g) k.0 ∙ into (j, n) (Memᴰ.head refl),
  all_InGraph g m (λ e at_e. into e (Memᴰ.tail at_e)) k.1,
)

module _ (key_of : SourceNode → StructuralKey) (P : SourceNode → Type 0)
    (alone : (m n : SourceNode) → P m → P n → key_of m ≡ key_of n → m.uid ≡ n.uid)
    (key : StructuralKey) where
  swapped :
      (a b : SourceNode) (nodes : List SourceNode)
      → P a
      → P b
      → uids_with key_of key (a ∷ b ∷ nodes) ≡ uids_with key_of key (b ∷ a ∷ nodes)
  swapped a b nodes p q = elim (Bool-cases (key_eq key (key_of a))) [
    | inr h ↦ rw h refl
    | inl h ↦ elim (Bool-cases (key_eq key (key_of b))) [
      | inr k ↦ rw (h, k) refl
      | inl k ↦
          let same =
            alone a b p q
              (sym ((key_eq_iff key (key_of a)).0 h) ∙ (key_eq_iff key (key_of b)).0 k) in
          rw (h, k) (rw same refl)
    ]
  ]

  uids_with-cons :
      (a b : SourceNode) (xs ys : List SourceNode)
      → a ≡ b
      → uids_with key_of key xs ≡ uids_with key_of key ys
      → uids_with key_of key (a ∷ xs) ≡ uids_with key_of key (b ∷ ys)
  uids_with-cons a b xs ys e h =
      subst (λ c. uids_with key_of key (a ∷ xs) ≡ uids_with key_of key (c ∷ ys)) e
        (elim (Bool-cases (key_eq key (key_of a))) [
          | inl p ↦ rw p (ap (λ us. a.uid ∷ us) h)
          | inr p ↦ rw p h
        ])

  uids_with-perm :
      {xs ys : List SourceNode}
      → Permᴰ xs ys
      → All P xs
      → All P ys × (uids_with key_of key xs ≡ uids_with key_of key ys)
  uids_with-perm Permᴰ.nil a = (tt, refl)
  uids_with-perm (Permᴰ.cons {a = x} {b = y} {l₁ = l} {l₂ = k} e p) a =
      let (held, same) = uids_with-perm p a.1 in
      ((subst P e a.0, held), uids_with-cons x y l k e same)
  uids_with-perm (Permᴰ.swap {a = x} {b = y} {a' = y'} {b' = x'} {l = l} e f) a = (
    (subst P f a.1.0, (subst P e a.0, a.1.1)),
    swapped x y l a.0 a.1.0
        ∙ uids_with-cons y y' (x ∷ l) (x' ∷ l) f (uids_with-cons x x' l l e refl),
  )
  uids_with-perm (Permᴰ.trans p q) a =
      let (held, first) = uids_with-perm p a in
      let (held', second) = uids_with-perm q held in (held', first ∙ second)

-- A committed graph in which no two nodes have one structural key is ingested again: in whatever
-- order its nodes come, with any texts and diagnostic positions, under names of their own, where no
-- two uids have one name, each candidate gets the uid of the node that it stands for, when the
-- anchors, kinds, labels, parents and ordinals are as they were.
pub reconcile_reordered :
    (sha256 : Str → Str) (new_v4 : ℕ → Str) (g : SourceGraph) (name : Str → Str)
    (edit : SourceNode → Str) (move : SourceNode → SourceLocator) (nodes : List SourceNode)
    → IsStore g
    → ((u v : Str) → name u ≡ name v → u ≡ v)
    → ((n : SourceNode) → explicit_anchor (move n) ≡ explicit_anchor n.locator)
    → ((m n : SourceNode)
        → InGraph g m
        → InGraph g n
        → structural_key sha256 g m ≡ structural_key sha256 g n
        → m.uid ≡ n.uid)
    → Permᴰ (values g) nodes
    → reconcile new_v4 sha256 g (map (reingested name edit move) nodes)
      ≡ map (λ n. record { uid = n.uid; candidate = reingested name edit move n }) nodes
reconcile_reordered sha256 new_v4 g name edit move nodes s distinct keeps alone order =
    let key_of = structural_key sha256 g in
    let all = all_InGraph g g (λ e at_e. get_of_mem g e s.0 at_e) s.1 in
    reconcile_same sha256 new_v4 g name edit move nodes s distinct keeps
      (uids_with-perm key_of (InGraph g) alone (StructuralKey.fingerprint []) order all).0
      (λ key. sym (uids_with-perm key_of (InGraph g) alone key order all).1)
