-- ===== src/Trace/Register.antt =====
-- The register phase of trace validation: the `register` closure of
-- crates/evidence-core/src/trace/validation.rs and the loops that call it. The UUID parser of the
-- crate `uuid` is the parameter `is_uuid`, and says whether a text parses.
pub mod Index
pub mod Accepted
use evidence.Prelude.{
  Str, codes, Bool, true, false, not, ◌&&◌, Option, none, some, List, [], ◌∷◌, ◌++◌, map, str_ord,
  pair_ord, if◌then◌else◌,
}
use evidence.BTreeMap
use evidence.BTreeMap.{BTreeMap}
use evidence.Policy.{TracePolicy}
use evidence.Trace.Entries.{HlrEntry, LlrEntry, TestEntry, DerivedEntry}

-- (kind, owner, id)
abbrev pub ItemKey : Type 0
ItemKey = Str × (Str × Str)

-- The arguments of one call of `register`.
pub record Registration : Type 0 where
  pub uid : Option Str
  pub owner : Option Str
  pub id : Str
  pub kind : Str

pub record Registry : Type 0 where
  pub uid_index : BTreeMap Str ItemKey
  pub item_index : BTreeMap ItemKey Str
  pub register_errors : List Str

abbrev pub log : Registry → Str → Registry
log reg message = record reg { register_errors = reg.register_errors ++ message ∷ [] }

abbrev item_message : Str → Str → Str → Str
item_message kind id text = codes "[" ++ kind ++ codes ":" ++ id ++ codes "] " ++ text

abbrev item_name : ItemKey → Str
item_name (kind, (owner, id)) =
    codes "[" ++ kind ++ codes "(" ++ owner ++ codes "):" ++ id ++ codes "]"

unfoldable pub index_uid : Str → ItemKey → Registry → Registry
index_uid u key reg = elim (BTreeMap.get u reg.uid_index) [
  | some prev ↦ log reg (
      codes "Duplicate UID "
      ++ u
      ++ codes ": used by "
      ++ item_name prev
      ++ codes " and "
      ++ item_name key)
  | none ↦ record reg { uid_index = BTreeMap.insert u key reg.uid_index }
]

unfoldable pub index_item : Str → ItemKey → Registry → Registry
index_item u key reg = elim (BTreeMap.get key reg.item_index) [
  | some prev_uid ↦ log reg (
      codes "Duplicate Item '"
      ++ key.0
      ++ codes "("
      ++ key.1.0
      ++ codes "):"
      ++ key.1.1
      ++ codes "': used by "
      ++ prev_uid
      ++ codes " and "
      ++ u)
  | none ↦ record reg { item_index = BTreeMap.insert key u reg.item_index }
]

module _ (is_uuid : Str → Bool) (policy : TracePolicy) where
  unfoldable pub register_uid : Registration → Str → Option Str → Registry → Registry
  unfolding index_uid index_item
  register_uid r o none reg =
      if policy.require_uids then log reg (item_message r.kind r.id (codes "missing UID")) else reg
  register_uid r o (some u) reg =
      if policy.require_uids && not (is_uuid u)
      then log reg (item_message r.kind r.id (codes "invalid UID format '" ++ u ++ codes "'"))
      else index_item u (r.kind, (o, r.id)) (index_uid u (r.kind, (o, r.id)) reg)

  unfoldable pub register_owner : Registration → Option Str → Registry → Registry
  unfolding register_uid
  register_owner r none reg =
      if policy.require_owners
      then log reg (item_message r.kind r.id (codes "missing 'owner'"))
      else reg
  register_owner r (some o) reg = register_uid r o r.uid reg

  unfoldable pub register_all : Registry → List Registration → Registry
  unfolding register_owner
  register_all reg [] = reg
  register_all reg (r ∷ rs) = register_all (register_owner r r.owner reg) rs

abbrev pub no_items : Registry
no_items = record { uid_index = []; item_index = []; register_errors = [] }

-- One call, for each type of entry.
abbrev pub enter_hlr : Str → HlrEntry → Registration
enter_hlr kind r = record { uid = r.uid; owner = r.owner; id = r.id; kind = kind }

abbrev pub enter_llr : LlrEntry → Registration
enter_llr r = record { uid = r.uid; owner = r.owner; id = r.id; kind = codes "LLR" }

abbrev pub enter_test : TestEntry → Registration
enter_test t = record { uid = t.uid; owner = t.owner; id = t.id; kind = codes "TEST" }

abbrev pub enter_derived : DerivedEntry → Registration
enter_derived d = record { uid = d.uid; owner = d.owner; id = d.id; kind = codes "DERIVED" }

-- The calls, in the order of the five loops.
unfoldable pub registrations :
    List HlrEntry
    → List HlrEntry
    → List LlrEntry
    → List TestEntry
    → List DerivedEntry
    → List Registration
registrations sys hlrs llrs tests derived =
    map (enter_hlr (codes "SYS")) sys
    ++ (map (enter_hlr (codes "HLR")) hlrs
        ++ (map enter_llr llrs ++ (map enter_test tests ++ map enter_derived derived)))
