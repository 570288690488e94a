-- ===== src/Corpus/PatchEdits/Subtree.antt =====
-- The cascade of `remove_subtree`: which nodes its loop collects, and that it ends.
use mathlib.Core.List.{Memᴰ}
use evidence.Prelude.{
  ℕ, zero, suc, ◌+◌, ◌≤◌, ◌<◌, Str, true, false, none, some, List, [], ◌∷◌, map, filter, contains,
  length, str_eq, str_eq_iff, str_eq_refl, str_ord, if◌then◌else◌, some_injective, Option-cases,
  Bool-cases, ◌≡◌, ◌≢◌, ◌↔◌, ◌⊎◌, inl, inr, refl, sym, ap, subst, ◌∙◌, arith,
}
use evidence.BTreeMap
use evidence.BTreeMap.{BTreeMap, values, IsSorted}
use evidence.BTreeMap.Laws.{get_of_mem}
use evidence.Corpus.SourceNodes.{SourceNode, SourceGraph}
use evidence.Corpus.SourceOrdinals.{opt_eq_iff}
use evidence.Corpus.SourceValidation.Ancestry.{KeyedNodes}
use evidence.Corpus.PatchEdits.{is_child_of, child_uids, extend, collect_members}

-- `u` names the target, or a node that stands somewhere below it.
pub data Below (g : SourceGraph) (target : Str) : Str → Type 0 where
  here : Below g target target
  under :
      {u c : Str} (n : SourceNode)
      → Below g target u
      → BTreeMap.get c g ≡ some n
      → n.parent_uid ≡ some u
      → Below g target c

contains-extend :
    (xs pending : List Str) (u : Str)
    → (contains (extend xs pending) u ≡ true)
      ↔ ((contains xs u ≡ true) ⊎ (contains pending u ≡ true))
unfolding contains extend
contains-extend [] pending u = ground arith
contains-extend (x ∷ xs) pending u = ground (arith, contains-extend xs (x ∷ pending) u)

length-extend : (xs pending : List Str) → length (extend xs pending) ≡ length xs + length pending
unfolding extend
length-extend [] pending = omega arith
length-extend (x ∷ xs) pending = omega (arith, length-extend xs (x ∷ pending))

-- How many nodes have a parent that is not collected.
pub waiting : List Str → List SourceNode → ℕ
waiting members [] = 0
waiting members (n ∷ ns) =
    (elim n.parent_uid [ none ↦ 0 | some p ↦ if contains members p then 0 else 1 ])
    + waiting members ns

pub waiting-le : (ns : List SourceNode) → waiting [] ns ≤ length ns
unfolding waiting contains
waiting-le [] = omega arith
waiting-le (n ∷ ns) = ground (arith, waiting-le ns)

-- Collecting a uid stops its children waiting, and those are the ones that are pushed.
waiting_collect :
    (uid : Str) (members : List Str) (ns : List SourceNode)
    → contains members uid ≡ false
    → waiting (uid ∷ members) ns + length (filter (is_child_of uid) ns) ≡ waiting members ns
unfolding waiting contains filter
waiting_collect uid members [] h = omega arith
waiting_collect uid members (n ∷ ns) h = elim (Option-cases n.parent_uid) [
  | inl p ↦ ground (arith, p, waiting_collect uid members ns h)
  | inr (u, p) ↦
      ground (arith, p, waiting_collect uid members ns h, str_eq_iff u uid, str_eq_iff uid u)
]

pub length-map {ℓ κ} :
    {A : Type ℓ} {B : Type κ} (f : A → B) (xs : List A) → length (map f xs) ≡ length xs
length-map f [] = refl
length-map f (x ∷ xs) = ap suc (length-map f xs)

pub collect_members_ends :
    (fuel : ℕ) (g : SourceGraph) (members pending : List Str)
    → waiting members (values g) + length pending < fuel
    → collect_members fuel g members pending ≢ none
unfolding collect_members child_uids
collect_members_ends zero g members pending w = absurd (omega arith)
collect_members_ends (suc fuel) g members [] w = λ h. cc
collect_members_ends (suc fuel) g members (uid ∷ pending) w =
    elim (Bool-cases (contains members uid)) [
      | inl c ↦ rw (c, collect_members) (collect_members_ends fuel g members pending (omega arith))
      | inr c ↦
          rw (c, collect_members)
            (collect_members_ends fuel g (uid ∷ members) (extend (child_uids g uid) pending) (
              omega (
                arith,
                waiting_collect uid members (values g) c,
                length-extend (child_uids g uid) pending,
                length-map (λ n. n.uid) (filter (is_child_of uid) (values g)),
              )))
    ]

child_mem :
    (u c : Str) (m : BTreeMap Str SourceNode)
    → KeyedNodes m
    → contains (child_uids m u) c ≡ true
    → (n : SourceNode) × Memᴰ (c, n) m × (n.parent_uid ≡ some u)
unfolding child_uids contains filter
child_mem u c [] k h = absurd (cc)
child_mem u c ((j, n) ∷ m) k h = elim (Bool-cases (is_child_of u n)) [
  | inr p ↦ let (x, at_x, e) = child_mem u c m k.1 (rw p at h) in (x, Memᴰ.tail at_x, e)
  | inl p ↦ elim (Bool-cases (str_eq n.uid c)) [
    | inl q ↦
        let key : j ≡ c = sym k.0 ∙ (str_eq_iff n.uid c).0 q in
        (n, Memᴰ.head (ap (λ x. (x, n)) (sym key)), (opt_eq_iff n.parent_uid (some u)).0 p)
    | inr q ↦ let (x, at_x, e) = child_mem u c m k.1 (rw (p, q) at h) in (x, Memᴰ.tail at_x, e)
  ]
]

mem_child :
    (u c : Str) (n : SourceNode) (m : BTreeMap Str SourceNode)
    → KeyedNodes m
    → BTreeMap.get c m ≡ some n
    → n.parent_uid ≡ some u
    → contains (child_uids m u) c ≡ true
unfolding child_uids contains filter BTreeMap.get
mem_child u c n [] k h e = absurd (cc)
mem_child u c n ((j, x) ∷ m) k h e = elim (Bool-cases (str_eq c j)) [
  | inl p ↦
      let same : x ≡ n = some_injective (rw (p, BTreeMap.get) at h) in
      let key : x.uid ≡ c = k.0 ∙ sym ((str_eq_iff c j).0 p) in
      rw
        (
          (opt_eq_iff x.parent_uid (some u)).1 (ap (λ y. y.parent_uid) same ∙ e),
          (str_eq_iff x.uid c).1 key,
        )
        refl
  | inr p ↦
      let later = mem_child u c n m k.1 (rw (p, BTreeMap.get) at h) e in
      elim (Bool-cases (is_child_of u x)) [ inl q ↦ rw q (ground arith) | inr q ↦ rw q later ]
]

module _ (g : SourceGraph) (target : Str) (sorted : IsSorted g) (keyed : KeyedNodes g) where
  abbrev pub AllBelow : List Str → Type 0
  AllBelow us = (u : Str) → contains us u ≡ true → Below g target u

  -- Each child of a collected uid is collected or pending.
  abbrev pub IsClosed : List Str → List Str → Type 0
  IsClosed members pending =
      (u c : Str) (n : SourceNode)
      → contains members u ≡ true
      → BTreeMap.get c g ≡ some n
      → n.parent_uid ≡ some u
      → (contains members c ≡ true) ⊎ (contains pending c ≡ true)

  push_children :
      (uid : Str) (pending : List Str)
      → AllBelow (uid ∷ pending)
      → AllBelow (extend (child_uids g uid) pending)
  unfolding contains
  push_children uid pending b c h = elim ((contains-extend (child_uids g uid) pending c).0 h) [
    | inl p ↦
        let (n, at_n, e) = child_mem uid c g keyed p in
        Below.under n (b uid (ground (arith, str_eq_refl uid))) (get_of_mem g (c, n) sorted at_n) e
    | inr p ↦ b c (ground arith)
  ]

  extend-IsClosed :
      (uid : Str) (members pending : List Str)
      → IsClosed members (uid ∷ pending)
      → IsClosed (uid ∷ members) (extend (child_uids g uid) pending)
  unfolding contains
  extend-IsClosed uid members pending closed u c n h e q = elim (Bool-cases (str_eq uid u)) [
    | inl p ↦
        let same : uid ≡ u = (str_eq_iff uid u).0 p in
        inr (
          (contains-extend (child_uids g uid) pending c).1
            (inl (mem_child uid c n g keyed e (q ∙ ap some (sym same)))))
    | inr p ↦
        ground
          (arith, closed u c n (ground arith) e q, contains-extend (child_uids g uid) pending c)
  ]

  rest-IsClosed :
      (uid : Str) (members pending : List Str)
      → contains members uid ≡ true
      → IsClosed members (uid ∷ pending)
      → IsClosed members pending
  unfolding contains
  rest-IsClosed uid members pending m closed u c n h e q =
      ground (arith, closed u c n h e q, str_eq_iff uid c)

  pub collected_members :
      (fuel : ℕ) (members pending out : List Str)
      → AllBelow members
      → AllBelow pending
      → IsClosed members pending
      → collect_members fuel g members pending ≡ some out
      → AllBelow out
        × IsClosed out []
        × ((u : Str) → contains members u ≡ true → contains out u ≡ true)
        × ((u : Str) → contains pending u ≡ true → contains out u ≡ true)
  unfolding collect_members contains
  collected_members zero members pending out b p c h = absurd (cc)
  collected_members (suc fuel) members [] out b p c h =
      let same : members ≡ out = some_injective h in
      subst
        (λ x.
          AllBelow x
          × IsClosed x []
          × ((u : Str) → contains members u ≡ true → contains x u ≡ true)
          × ((u : Str) → contains [] u ≡ true → contains x u ≡ true))
        same (b, c, (λ u m. m), (λ u m. absurd (cc)))
  collected_members (suc fuel) members (uid ∷ pending) out b p c h =
      elim (Bool-cases (contains members uid)) [
        | inl m ↦
            let (below, closed, old, new) =
              collected_members fuel members pending out b (λ u x. p u (ground arith))
                (rest-IsClosed uid members pending m c) (rw (m, collect_members) at h) in
            (below, closed, old, λ u x. ground (arith, old u, new u, str_eq_iff uid u))
        | inr m ↦
            let (below, closed, old, new) =
              collected_members fuel (uid ∷ members) (extend (child_uids g uid) pending) out
                (λ u x. ground (arith, b u, p u)) (push_children uid pending p)
                (extend-IsClosed uid members pending c) (rw (m, collect_members) at h) in
            (
              below,
              closed,
              λ u x. old u (ground arith),
              λ u x. ground (arith, old u, new u, contains-extend (child_uids g uid) pending u),
            )
      ]
