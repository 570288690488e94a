-- ===== src/Corpus/Walk.antt =====
-- The chain walk that `reject_cycles` of graph/supersession.rs and of source/lineage.rs share: a
-- stack of uids to visit, the path of this walk, and the uids that earlier walks finished.
pub mod Fuel
pub mod Order
pub mod Sound
pub mod Complete
use evidence.Prelude.{
  ℕ, zero, suc, ◌+◌, Str, Bool, true, false, Option, none, some, List, [], ◌∷◌, ◌++◌, contains,
  length, str_ord, if◌then◌else◌,
}
use evidence.BTreeMap
use evidence.BTreeMap.{BTreeMap}

pub data Outcome : Type 0 where
  finished : List Str → Outcome
  revisit : Str → Outcome
  out_of_fuel : Outcome

abbrev pub and_then : Outcome → (List Str → Outcome) → Outcome
and_then (finished path) f = f path
and_then (revisit uid) f = revisit uid
and_then out_of_fuel f = out_of_fuel

-- `frontier.extend(targets)` on a stack whose top is the head.
unfoldable pub push_all : List Str → List Str → List Str
push_all [] stack = stack
push_all (x ∷ xs) stack = push_all xs (x ∷ stack)

module _ {ℓ} {V : Type ℓ} (targets : V → List Str) (m : BTreeMap Str V) where
  abbrev targets_at : Option V → List Str
  targets_at none = []
  targets_at (some n) = targets n

  -- What the walk pushes at a uid; a uid that names nothing pushes nothing.
  unfoldable pub next : Str → List Str
  next uid = targets_at (BTreeMap.get uid m)

  -- The `while let` loop.
  unfoldable pub walk : ℕ → List Str → List Str → List Str → Outcome
  walk zero done path frontier = out_of_fuel
  walk (suc fuel) done path [] = finished path
  walk (suc fuel) done path (current ∷ rest) = elim (contains path current) [
    | true ↦ revisit current
    | false ↦ elim (contains done current) [
      | true ↦ walk fuel done path rest
      | false ↦ walk fuel done (path ++ current ∷ []) (push_all (next current) rest)
    ]
  ]

  -- The loop over the nodes that a walk starts from.
  unfoldable pub walk_all : ℕ → List Str → List Str → Outcome
  walk_all fuel done [] = finished done
  walk_all fuel done (start ∷ starts) = elim (contains done start) [
    | true ↦ walk_all fuel done starts
    | false ↦
        and_then (walk fuel done [] (start ∷ [])) (λ path. walk_all fuel (path ++ done) starts)
  ]

-- How many targets the entries outside `path` still hold.
unfoldable pub weight {ℓ} : {V : Type ℓ} → (V → List Str) → BTreeMap Str V → List Str → ℕ
weight targets [] path = 0
weight targets ((k, n) ∷ m) path =
    (if contains path k then 0 else length (targets n)) + weight targets m path

-- Every uid is pushed once for the start and once for each target, and one round ends the loop.
unfoldable pub enough_fuel {ℓ} : {V : Type ℓ} → (V → List Str) → BTreeMap Str V → ℕ
enough_fuel targets m = suc (suc (weight targets m []))
