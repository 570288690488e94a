-- ===== src/Corpus/Successors.antt =====
-- Who supersedes whom: the map that graph/supersession.rs and source/lineage.rs collect, and the
-- scan of `reject_forks` over it.
pub mod Laws
use evidence.Prelude.{Str, Option, none, some, List, [], ◌∷◌, ◌++◌, str_ord}
use evidence.BTreeMap
use evidence.BTreeMap.{BTreeMap}

abbrev pub SupersededBy : Type 0
SupersededBy = BTreeMap Str (List Str)

-- The successors that the map holds, `or_default()`.
unfoldable pub successors : Str → SupersededBy → List Str
successors uid m = elim (BTreeMap.get uid m) [ none ↦ [] | some us ↦ us ]

-- `superseded_by.entry(predecessor).or_default().push(uid)`
unfoldable pub push_successor : Str → Str → SupersededBy → SupersededBy
push_successor predecessor uid m =
    BTreeMap.insert predecessor (successors predecessor m ++ uid ∷ []) m

-- The first entry with two successors, and the two.
unfoldable pub first_fork : SupersededBy → Option (Str × Str × Str)
first_fork [] = none
first_fork ((predecessor, []) ∷ m) = first_fork m
first_fork ((predecessor, first ∷ []) ∷ m) = first_fork m
first_fork ((predecessor, first ∷ second ∷ _) ∷ m) = some (predecessor, first, second)
