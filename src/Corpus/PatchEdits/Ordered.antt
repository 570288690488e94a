-- ===== src/Corpus/PatchEdits/Ordered.antt =====
-- The order that `ordered_uids` gives: by ordinal, then by uid, and with every node that is picked.
use mathlib.Core.List.{Memᴰ}
use evidence.Prelude.{
  ℕ, ◌<◌, Str, Bool, true, false, some, List, [], ◌∷◌, filter, contains, contains-append, ◌++◌,
  sort, insert_sorted, sort-IsAscending, IsAscending, str_eq, str_eq_iff, str_ord, nat_ord,
  pair_ord, Ord, All, All-mem, All-imp, Bool-cases, ◌≡◌, ◌≢◌, ◌⊎◌, inl, inr, refl, sym, ap, subst,
  ◌∙◌, arith, some_injective,
}
use evidence.BTreeMap
use evidence.BTreeMap.{values, IsSorted}
use evidence.BTreeMap.Laws.{get_of_mem}
use evidence.Corpus.SourceNodes.{SourceNode, SourceGraph}
use evidence.Corpus.SourceValidation.Ancestry.{KeyedNodes}
use evidence.Corpus.PatchEdits.{ordered_uids}
use evidence.Corpus.PatchEdits.Distinct.{
  Distinct, uids, pairs, contains-sort, ordered_uids-Distinct,
}

-- By ordinal, and by uid where ordinals are equal.
abbrev pub Earlier : Str → SourceNode → Str → SourceNode → Type 0
Earlier u m v n = (m.ordinal < n.ordinal) ⊎ ((m.ordinal ≡ n.ordinal) × (str_ord.lt u v ≡ true))

-- The relation between the nodes that two uids find.
abbrev pub Found : SourceGraph → (Str → SourceNode → Str → SourceNode → Type 0) → Str → Str → Type 0
Found g R u v =
    (m n : SourceNode) → BTreeMap.get u g ≡ some m → BTreeMap.get v g ≡ some n → R u m v n

-- Each uid is related to all behind it.
abbrev pub InOrder : (Str → Str → Type 0) → List Str → Type 0
InOrder R [] = Unit
InOrder R (u ∷ us) = ((v : Str) → contains us v ≡ true → R u v) × InOrder R us

pub append-InOrder :
    (R : Str → Str → Type 0) (xs ys : List Str)
    → InOrder R xs
    → InOrder R ys
    → ((u v : Str) → contains xs u ≡ true → contains ys v ≡ true → R u v)
    → InOrder R (xs ++ ys)
unfolding contains
append-InOrder R [] ys a b cross = b
append-InOrder R (x ∷ xs) ys a b cross = (
  λ v h. elim (Bool-cases (contains xs v)) [
    | inl p ↦ a.0 v p
    | inr p ↦ cross x v (ground (arith, str_eq_iff x x)) (ground (arith, contains-append xs ys v))
  ],
  append-InOrder R xs ys a.1 b (λ u v h k. cross u v (ground arith) k),
)

pub InOrder-imp :
    (R S : Str → Str → Type 0) (xs : List Str)
    → ((u v : Str) → contains xs u ≡ true → contains xs v ≡ true → R u v → S u v)
    → InOrder R xs
    → InOrder S xs
unfolding contains
InOrder-imp R S [] f a = tt
InOrder-imp R S (x ∷ xs) f a = (
  λ v h. f x v (ground (arith, str_eq_iff x x)) (ground arith) (a.0 v h),
  InOrder-imp R S xs (λ u v h k r. f u v (ground arith) (ground arith) r) a.1,
)

module _ {ℓ} {A : Type ℓ} ⦃o : Ord A⦄ where
  -- No element is smaller than one before it.
  abbrev Ascends : List A → Type 0
  Ascends [] = Unit
  Ascends (x ∷ xs) = All (λ y. o.lt y x ≡ false) xs × Ascends xs

  not_lt_trans : (x y z : A) → o.lt y x ≡ false → o.lt z y ≡ false → o.lt z x ≡ false
  not_lt_trans x y z h k = elim (Bool-cases (o.lt z x)) [
    | inr p ↦ p
    | inl p ↦ ground (arith, o.lt_total z y k, o.eq_iff z y, o.lt_trans y z x)
  ]

  Ascends-of_IsAscending : (xs : List A) → IsAscending xs → Ascends xs
  Ascends-of_IsAscending [] a = tt
  Ascends-of_IsAscending (x ∷ []) a = (tt, tt)
  Ascends-of_IsAscending (x ∷ y ∷ ys) a =
      let rest = Ascends-of_IsAscending (y ∷ ys) a.1 in
      ((a.0, All-imp ys (λ z k. not_lt_trans x y z a.0 k) rest.0), rest)

  All-insert_sorted {κ} :
      (P : A → Type κ) (x : A) (ys : List A) → P x → All P ys → All P (insert_sorted x ys)
  unfolding insert_sorted
  All-insert_sorted P x [] p a = (p, tt)
  All-insert_sorted P x (y ∷ ys) p a = elim (Bool-cases (o.lt y x)) [
    | inl q ↦ rw q (a.0, All-insert_sorted P x ys p a.1)
    | inr q ↦ rw q (p, a)
  ]

  All-sort {κ} : (P : A → Type κ) (xs : List A) → All P xs → All P (sort xs)
  unfolding sort
  All-sort P [] a = tt
  All-sort P (x ∷ xs) a = All-insert_sorted P x (sort xs) a.0 (All-sort P xs a.1)

uid_mem :
    (ps : List (ℕ × Str)) (v : Str)
    → contains (uids ps) v ≡ true
    → (e : ℕ × Str) × Memᴰ e ps × (e.1 ≡ v)
unfolding contains
uid_mem [] v h = absurd (cc)
uid_mem (e ∷ ps) v h = elim (Bool-cases (str_eq e.1 v)) [
  | inl p ↦ (e, Memᴰ.head refl, (str_eq_iff e.1 v).0 p)
  | inr p ↦ let (d, at_d, q) = uid_mem ps v (rw p at h) in (d, Memᴰ.tail at_d, q)
]

-- The pair is the ordinal and the uid of a node.
abbrev Names : SourceGraph → ℕ × Str → Type 0
Names g e = (n : SourceNode) × (BTreeMap.get e.1 g ≡ some n) × (n.ordinal ≡ e.0)

earlier_pair :
    (a b : ℕ) (u v : Str)
    → pair_ord.lt (b, v) (a, u) ≡ false
    → u ≢ v
    → (a < b) ⊎ ((a ≡ b) × (str_ord.lt u v ≡ true))
earlier_pair a b u v h ne =
    let other : str_eq v u ≡ false = ground (arith, str_eq_iff v u) in
    ground (arith, str_ord.lt_total v u)

Earlier-of_pairs :
    (g : SourceGraph) (e d : ℕ × Str) (m n : SourceNode)
    → Names g e
    → Names g d
    → BTreeMap.get e.1 g ≡ some m
    → BTreeMap.get d.1 g ≡ some n
    → pair_ord.lt d e ≡ false
    → e.1 ≢ d.1
    → Earlier e.1 m d.1 n
Earlier-of_pairs g e d m n (x, at_x, first) (y, at_y, second) at_m at_n h ne =
    let p : e.0 ≡ m.ordinal = sym first ∙ ap (λ z. z.ordinal) (some_injective (sym at_x ∙ at_m)) in
    let q : d.0 ≡ n.ordinal = sym second ∙ ap (λ z. z.ordinal) (some_injective (sym at_y ∙ at_n)) in
    rw (← p, ← q) (earlier_pair e.0 d.0 e.1 d.1 h ne)

pairs-InOrder :
    (g : SourceGraph) (ps : List (ℕ × Str))
    → Ascends ps
    → Distinct (uids ps)
    → All (Names g) ps
    → InOrder (Found g Earlier) (uids ps)
pairs-InOrder g [] a d named = tt
pairs-InOrder g (e ∷ ps) a d named = (
  λ v h m n at_m at_n.
      let (x, at_x, same) = uid_mem ps v h in
      subst (λ w. Earlier e.1 m w n) same
        (Earlier-of_pairs g e x m n named.0 (All-mem (Names g) ps x named.1 at_x) at_m
          (ap (λ w. BTreeMap.get w g) same ∙ at_n)
          (All-mem (λ y. pair_ord.lt y e ≡ false) ps x a.0 at_x) (λ q. cc (h, d.0, q, same))),
  pairs-InOrder g ps a.1 d.1 named.1,
)

picked-Names :
    (p : SourceNode → Bool) (g : SourceGraph) (m : SourceGraph)
    → ((e : Str × SourceNode) → Memᴰ e m → BTreeMap.get e.0 g ≡ some e.1)
    → KeyedNodes m
    → All (Names g) (pairs (filter p (values m)))
unfolding filter
picked-Names p g [] into k = tt
picked-Names p g ((j, n) ∷ m) into k =
    let rest = picked-Names p g m (λ e at_e. into e (Memᴰ.tail at_e)) k.1 in
    elim (Bool-cases (p n)) [
      | inr q ↦ rw q rest
      | inl q ↦
          rw q ((n, ap (λ u. BTreeMap.get u g) k.0 ∙ into (j, n) (Memᴰ.head refl), refl), rest)
    ]

picked_there :
    (p : SourceNode → Bool) (u : Str) (n : SourceNode) (m : SourceGraph)
    → KeyedNodes m
    → BTreeMap.get u m ≡ some n
    → p n ≡ true
    → contains (uids (pairs (filter p (values m)))) u ≡ true
unfolding filter contains BTreeMap.get
picked_there p u n [] k h q = absurd (cc)
picked_there p u n ((j, x) ∷ m) k h q = elim (Bool-cases (str_eq u j)) [
  | inl e ↦
      let same : x ≡ n = some_injective (rw (e, BTreeMap.get) at h) in
      let picked : p x ≡ true = ap p same ∙ q in
      let here : str_eq x.uid u ≡ true = ground (arith, str_eq_iff x.uid u, str_eq_iff u j, k.0) in
      rw (picked, here) refl
  | inr e ↦
      let rest = picked_there p u n m k.1 (rw (e, BTreeMap.get) at h) q in
      elim (Bool-cases (p x)) [ inr r ↦ rw r rest | inl r ↦ rw r (ground arith) ]
]

module _ (g : SourceGraph) (s : IsSorted g) (k : KeyedNodes g) where
  pub ordered_uids-InOrder :
      (p : SourceNode → Bool) → InOrder (Found g Earlier) (ordered_uids p (values g))
  unfolding ordered_uids
  ordered_uids-InOrder p =
      let ps = pairs (filter p (values g)) in
      pairs-InOrder g (sort ps) (Ascends-of_IsAscending (sort ps) (sort-IsAscending ps))
        (ordered_uids-Distinct p g s k)
        (All-sort (Names g) ps (picked-Names p g g (λ e at_e. get_of_mem g e s at_e) k))

  pub ordered_uids_there :
      (p : SourceNode → Bool) (u : Str) (n : SourceNode)
      → BTreeMap.get u g ≡ some n
      → p n ≡ true
      → contains (ordered_uids p (values g)) u ≡ true
  unfolding ordered_uids
  ordered_uids_there p u n h q =
      contains-sort (pairs (filter p (values g))) u ∙ picked_there p u n g k h q
