-- ===== src/Trace/Register/Accepted.antt =====
-- The register phase as a whole: which entries it accepts, and the index that it leaves.
use mathlib.Core.List.{Memᴰ}
use mathlib.Core.List.Memᴰ
use evidence.Prelude.{Str, Bool, some, List, [], ◌∷◌, All, str_ord, pair_ord, ◌≡◌, ◌⊎◌, ◌↔◌}
use evidence.BTreeMap
use evidence.BTreeMap.{BTreeMap}
use evidence.Policy.{TracePolicy}
use evidence.Trace.Register.{ItemKey, Registration, Registry}
use evidence.Trace.Register.Index.{IsEntered, IsFresh, Grown, IsSourceOf, Complies}

-- Two registrations that are entered have different uids.
abbrev pub Apart : Registration → Registration → Type 0
Apart x y =
    (o p u : Str) → x.owner ≡ some o → x.uid ≡ some u → y.owner ≡ some p → y.uid ≡ some u → ⊥

abbrev pub Distinct : List Registration → Type 0
Distinct [] = Unit
Distinct (r ∷ rs) = All (Apart r) rs × Distinct rs

module _ (is_uuid : Str → Bool) (policy : TracePolicy) where
  record AllRegistered (reg out : Registry) (rs : List Registration) : Type 0 where
    clean : reg.register_errors ≡ []
    complies : All (Complies is_uuid policy) rs
    entered : All (IsEntered out) rs
    fresh : All (IsFresh reg) rs
    grown : Grown reg out
    distinct : Distinct rs
    sources :
        (u : Str) (key : ItemKey)
        → BTreeMap.get u out.uid_index ≡ some key
        → (BTreeMap.get u reg.uid_index ≡ some key)
          ⊎ ((r : Registration) × Memᴰ r rs × IsSourceOf u key r)

  -- A register phase without errors: the policy's demands are met, no two entries share a uid, and
  -- the index is the relation between uids and the entries that have them.
  pub record IsRegistered (out : Registry) (rs : List Registration) : Type 0 where
    pub complies : All (Complies is_uuid policy) rs
    pub distinct : Distinct rs
    pub index :
        (u : Str) (key : ItemKey)
        → (BTreeMap.get u out.uid_index ≡ some key)
          ↔ ((r : Registration) × Memᴰ r rs × IsSourceOf u key r)
