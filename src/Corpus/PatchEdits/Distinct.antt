-- ===== src/Corpus/PatchEdits/Distinct.antt =====
-- The uids that `reparent_children` puts in order: which they are, and that none stands twice.
use mathlib.Core.List.{Memᴰ}
use evidence.Prelude.{
  ℕ, Str, Bool, true, false, some, List, [], ◌∷◌, ◌++◌, map, filter, contains, contains-append,
  sort, insert_sorted, str_eq, str_eq_iff, str_ord, nat_ord, pair_ord, Bool-cases, ◌≡◌, inl, inr,
  refl, sym, ap, ◌∙◌, arith,
}
use evidence.BTreeMap
use evidence.BTreeMap.{BTreeMap, values, IsSorted}
use evidence.BTreeMap.Laws.{get_of_mem, get-Above}
use evidence.Corpus.SourceNodes.{SourceNode, SourceGraph}
use evidence.Corpus.SourceValidation.Ancestry.{KeyedNodes}
use evidence.Corpus.PatchEdits.{ordered_uids}

-- No text stands twice.
abbrev pub Distinct : List Str → Type 0
Distinct [] = Unit
Distinct (x ∷ xs) = (contains xs x ≡ false) × Distinct xs

abbrev pub uids : List (ℕ × Str) → List Str
uids = map (λ e. e.1)

contains-insert_sorted :
    (x : ℕ × Str) (ys : List (ℕ × Str)) (u : Str)
    → contains (uids (insert_sorted x ys)) u ≡ contains (uids (x ∷ ys)) u
unfolding insert_sorted contains
contains-insert_sorted x [] u = refl
contains-insert_sorted x (y ∷ ys) u = ground (arith, contains-insert_sorted x ys u)

pub contains-sort :
    (xs : List (ℕ × Str)) (u : Str) → contains (uids (sort xs)) u ≡ contains (uids xs) u
unfolding sort contains
contains-sort [] u = refl
contains-sort (x ∷ xs) u = contains-insert_sorted x (sort xs) u ∙ ground (arith, contains-sort xs u)

insert_sorted-Distinct :
    (x : ℕ × Str) (ys : List (ℕ × Str))
    → Distinct (uids (x ∷ ys))
    → Distinct (uids (insert_sorted x ys))
unfolding insert_sorted contains
insert_sorted-Distinct x [] d = d
insert_sorted-Distinct x (y ∷ ys) d = elim (Bool-cases (pair_ord.lt y x)) [
  | inr p ↦ rw p d
  | inl p ↦ rw p (
    contains-insert_sorted x ys y.1 ∙ ground (arith, str_eq_iff x.1 y.1, str_eq_iff y.1 x.1),
    insert_sorted-Distinct x ys (ground arith, d.1.1),
  )
]

sort-Distinct : (xs : List (ℕ × Str)) → Distinct (uids xs) → Distinct (uids (sort xs))
unfolding sort contains
sort-Distinct [] d = tt
sort-Distinct (x ∷ xs) d =
    insert_sorted-Distinct x (sort xs) (contains-sort xs x.1 ∙ d.0, sort-Distinct xs d.1)

pub append-Distinct :
    (xs ys : List Str)
    → Distinct xs
    → Distinct ys
    → ((u : Str) → contains xs u ≡ true → contains ys u ≡ false)
    → Distinct (xs ++ ys)
unfolding contains
append-Distinct [] ys d e apart = e
append-Distinct (x ∷ xs) ys d e apart = (
  contains-append xs ys x ∙ ground (arith, apart x, str_eq_iff x x, d.0),
  append-Distinct xs ys d.1 e (λ u h. apart u (ground arith)),
)

abbrev pub pairs : List SourceNode → List (ℕ × Str)
pairs = map (λ n. (n.ordinal, n.uid))

picked_mem :
    (p : SourceNode → Bool) (u : Str) (m : BTreeMap Str SourceNode)
    → KeyedNodes m
    → contains (uids (pairs (filter p (values m)))) u ≡ true
    → (n : SourceNode) × Memᴰ (u, n) m × (p n ≡ true)
unfolding contains filter
picked_mem p u [] k h = absurd (cc)
picked_mem p u ((j, n) ∷ m) k h = elim (Bool-cases (p n)) [
  | inr q ↦ let (x, at_x, e) = picked_mem p u m k.1 (rw q at h) in (x, Memᴰ.tail at_x, e)
  | inl q ↦ elim (Bool-cases (str_eq n.uid u)) [
    | inl r ↦
        let key : j ≡ u = sym k.0 ∙ (str_eq_iff n.uid u).0 r in
        (n, Memᴰ.head (ap (λ x. (x, n)) (sym key)), q)
    | inr r ↦ let (x, at_x, e) = picked_mem p u m k.1 (rw (q, r) at h) in (x, Memᴰ.tail at_x, e)
  ]
]

picked-Distinct :
    (p : SourceNode → Bool) (m : BTreeMap Str SourceNode)
    → IsSorted m
    → KeyedNodes m
    → Distinct (uids (pairs (filter p (values m))))
unfolding filter
picked-Distinct p [] s k = tt
picked-Distinct p ((j, n) ∷ m) s k = elim (Bool-cases (p n)) [
  | inr q ↦ rw q (picked-Distinct p m s.1 k.1)
  | inl q ↦ rw q (
    elim (Bool-cases (contains (uids (pairs (filter p (values m)))) n.uid)) [
      | inr r ↦ r
      | inl r ↦
          let (x, at_x, e) = picked_mem p n.uid m k.1 r in
          absurd (
            cc
              (get_of_mem m (n.uid, x) s.1 at_x, ap (λ y. BTreeMap.get y m) k.0, get-Above j m s.0))
    ],
    picked-Distinct p m s.1 k.1,
  )
]

module _ (p : SourceNode → Bool) (g : SourceGraph) (s : IsSorted g) (k : KeyedNodes g) where
  pub ordered_uids-Distinct : Distinct (ordered_uids p (values g))
  unfolding ordered_uids
  ordered_uids-Distinct = sort-Distinct (pairs (filter p (values g))) (picked-Distinct p g s k)

  -- Each uid in the order is that of a node that the test picks.
  pub ordered_uids_found :
      (u : Str)
      → contains (ordered_uids p (values g)) u ≡ true
      → (n : SourceNode) × (BTreeMap.get u g ≡ some n) × (p n ≡ true)
  unfolding ordered_uids
  ordered_uids_found u h =
      let (n, at_n, e) =
        picked_mem p u g k (sym (contains-sort (pairs (filter p (values g))) u) ∙ h) in
      (n, get_of_mem g (u, n) s at_n, e)
