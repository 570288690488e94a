-- ===== src/Corpus/Identity/Held.antt =====
-- What the pool of a reconciliation holds.
use evidence.Prelude.{
  Str, true, false, some, List, [], ◌∷◌, contains, str_eq, str_eq_iff, str_ord, ◌≡◌, inl, inr, refl,
  sym, ap, subst, ◌∙◌, arith, Bool-cases,
}
use evidence.BTreeMap
use evidence.BTreeMap.{values}
use evidence.BTreeMap.Laws.{get-Above}
use evidence.Corpus.SourceNodes.{SourceNode, SourceGraph}
use evidence.Corpus.PatchApply.Invariant.{IsStore}
use evidence.Corpus.PatchEdits.Distinct.{Distinct}
use evidence.Corpus.Identity.{StructuralKey, key_eq, Pool, pool_uids, pool_set}
use evidence.Corpus.Identity.Keys.{key_eq_iff}
use evidence.Corpus.Identity.Unchanged.{uids_with, pool_uids-set}

module _ (key_of : SourceNode → StructuralKey) where
  -- The committed node that a uid names has the key.
  abbrev pub Owned : SourceGraph → StructuralKey → Str → Type 0
  Owned g key u = (n : SourceNode) × (BTreeMap.get u g ≡ some n) × (key_of n ≡ key)

  shadowed :
      (k : Str) (n : SourceNode) (g : SourceGraph) (u : Str) (m : SourceNode)
      → BTreeMap.Above k g
      → BTreeMap.get u g ≡ some m
      → BTreeMap.get u ((k, n) ∷ g) ≡ some m
  unfolding BTreeMap.get
  shadowed k n g u m above found = ground (arith, str_eq_iff u k, get-Above k g above)

  pub owner :
      (g : SourceGraph) (key : StructuralKey) (u : Str)
      → IsStore g
      → contains (uids_with key_of key (values g)) u ≡ true
      → Owned g key u
  unfolding contains BTreeMap.get
  owner [] key u s h = absurd (cc)
  owner ((k, n) ∷ g) key u (sorted, keyed) h =
      let lift : contains (uids_with key_of key (values g)) u ≡ true → Owned ((k, n) ∷ g) key u =
        λ c.
          let (m, found, e) = owner g key u (sorted.1, keyed.1) c in
          (m, shadowed k n g u m sorted.0 found, e) in
      elim (Bool-cases (key_eq key (key_of n))) [
        | inr q ↦ lift (sym (rw q refl) ∙ h)
        | inl q ↦ elim (Bool-cases (str_eq n.uid u)) [
          | inl p ↦
              let here = (str_eq_iff u k).1 (sym ((str_eq_iff n.uid u).0 p) ∙ keyed.0) in
              (n, rw here refl, sym ((key_eq_iff key (key_of n)).0 q))
          | inr p ↦ lift (ground (arith, h))
        ]
      ]

  pub uids_with-Distinct :
      (g : SourceGraph) (key : StructuralKey)
      → IsStore g
      → Distinct (uids_with key_of key (values g))
  uids_with-Distinct [] key s = tt
  uids_with-Distinct ((k, n) ∷ g) key (sorted, keyed) =
      let rest = uids_with-Distinct g key (sorted.1, keyed.1) in
      let fresh : contains (uids_with key_of key (values g)) n.uid ≡ false =
        elim (Bool-cases (contains (uids_with key_of key (values g)) n.uid)) [
          | inr c ↦ c
          | inl c ↦
              let (m, found, e) = owner g key n.uid (sorted.1, keyed.1) c in
              absurd (cc (sym found ∙ ap (λ x. BTreeMap.get x g) keyed.0 ∙ get-Above k g sorted.0))
        ] in
      elim (Bool-cases (key_eq key (key_of n))) [ inr p ↦ rw p rest | inl p ↦ rw p (fresh, rest) ]

  -- What the pool holds is committed, under its key and once.
  pub record IsPool (g : SourceGraph) (pool : Pool) : Type 0 where
    pub owned :
        (key : StructuralKey) (u : Str) → contains (pool_uids key pool) u ≡ true → Owned g key u
    pub once : (key : StructuralKey) → Distinct (pool_uids key pool)

  pub still_held :
      (pool : Pool) (key j : StructuralKey) (u : Str) (us : List Str) (v : Str)
      → pool_uids key pool ≡ u ∷ us
      → contains (pool_uids j (pool_set key us pool)) v ≡ true
      → contains (pool_uids j pool) v ≡ true
  unfolding contains
  still_held pool key j u us v h c =
      let left = sym (ap (λ x. contains x v) (pool_uids-set key j u us us pool h)) ∙ c in
      elim (Bool-cases (key_eq j key)) [
        | inr p ↦ rw p at left
        | inl p ↦
            let tail : contains us v ≡ true = rw p at left in
            rw (ap (λ x. pool_uids x pool) ((key_eq_iff j key).0 p) ∙ h) (ground arith)
      ]

  pub pool_set-IsPool :
      (g : SourceGraph) (pool : Pool) (key : StructuralKey) (u : Str) (us : List Str)
      → pool_uids key pool ≡ u ∷ us
      → IsPool g pool
      → IsPool g (pool_set key us pool)
  pool_set-IsPool g pool key u us h i = record {
    owned = λ j v c. i.owned j v (still_held pool key j u us v h c);
    once = λ j. elim (Bool-cases (key_eq j key)) [
      | inl p ↦
          subst Distinct (sym (pool_uids-set key j u us us pool h ∙ rw p refl))
            (subst Distinct h (i.once key)).1
      | inr p ↦ subst Distinct (sym (pool_uids-set key j u us us pool h ∙ rw p refl)) (i.once j)
    ];
  }
