-- ===== src/Corpus/Successors/Laws.antt =====
-- The laws of the successor map.
use evidence.Prelude.{
  Str, true, none, List, [], ◌∷◌, ◌++◌, str_ord, str_eq, str_eq_iff, length, contains,
  contains-append, ◌≡◌, ◌⊎◌, ◌↔◌, arith, ◌≤◌, if◌then◌else◌,
}
use evidence.BTreeMap
use evidence.BTreeMap.Laws.{get-insert}
use evidence.Corpus.Successors.{SupersededBy, successors, push_successor, first_fork}

-- No entry of the map loses a successor.
abbrev pub Grows : SupersededBy → SupersededBy → Type 0
Grows m n = (p u : Str) → contains (successors p m) u ≡ true → contains (successors p n) u ≡ true

successors-push :
    (p u q : Str) (m : SupersededBy)
    → successors q (push_successor p u m)
      ≡ (if str_eq q p then successors p m ++ u ∷ [] else successors q m)
unfolding successors push_successor
successors-push p u q m = ground (arith, get-insert p q (successors p m ++ u ∷ []) m)

pub contains-push :
    (p u q v : Str) (m : SupersededBy)
    → (contains (successors q (push_successor p u m)) v ≡ true)
      ↔ ((contains (successors q m) v ≡ true) ⊎ ((q ≡ p) × (v ≡ u)))
unfolding contains
contains-push p u q v m = ground (
  arith,
  successors-push p u q m,
  contains-append (successors p m) (u ∷ []) v,
  str_eq_iff q p,
  str_eq_iff u v,
)

successors_single : (m : SupersededBy) (p : Str) → first_fork m ≡ none → length (successors p m) ≤ 1
unfolding successors first_fork BTreeMap.get
successors_single [] p h = omega arith
successors_single ((k, []) ∷ m) p h = ground (arith, successors_single m p h)
successors_single ((k, a ∷ []) ∷ m) p h = ground (arith, successors_single m p h)
successors_single ((k, a ∷ b ∷ us) ∷ m) p h = absurd (cc)

single-eq :
    (us : List Str) (u v : Str)
    → length us ≤ 1
    → contains us u ≡ true
    → contains us v ≡ true
    → u ≡ v
unfolding contains
single-eq [] u v l h k = absurd (cc)
single-eq (x ∷ []) u v l h k = ground (arith, str_eq_iff x u, str_eq_iff x v)
single-eq (x ∷ y ∷ us) u v l h k = absurd (omega arith)

-- Without a fork, two recorded successors of one uid are the same.
pub unforked :
    (m : SupersededBy) (p u v : Str)
    → first_fork m ≡ none
    → contains (successors p m) u ≡ true
    → contains (successors p m) v ≡ true
    → u ≡ v
unforked m p u v h = single-eq (successors p m) u v (successors_single m p h)
