-- ===== src/Policy/Assurance.antt =====
-- The levels that an evaluation targets: crates/evidence-core/src/policy/assurance.rs, and the pack
-- of policy/standards.rs.
use evidence.Prelude.{Str, codes, ◌∷◌, ◌++◌, Option, none, some}
use evidence.Policy.{Dal}

pub data AssuranceLevel : Type 0 where
  unclassified qm dal_d dal_c dal_b dal_a : AssuranceLevel

abbrev pub as_str : AssuranceLevel → Str
as_str AssuranceLevel.unclassified = codes "unclassified"
as_str AssuranceLevel.qm = codes "qm"
as_str AssuranceLevel.dal_d = codes "dal_d"
as_str AssuranceLevel.dal_c = codes "dal_c"
as_str AssuranceLevel.dal_b = codes "dal_b"
as_str AssuranceLevel.dal_a = codes "dal_a"

abbrev pub as_dal : AssuranceLevel → Option Dal
as_dal AssuranceLevel.dal_a = some Dal.a
as_dal AssuranceLevel.dal_b = some Dal.b
as_dal AssuranceLevel.dal_c = some Dal.c
as_dal AssuranceLevel.dal_d = some Dal.d
as_dal AssuranceLevel.qm = none
as_dal AssuranceLevel.unclassified = none

abbrev pub or_least_strict : Option Dal → Dal
or_least_strict (some dal) = dal
or_least_strict none = Dal.d

abbrev pub effective_policy_dal : AssuranceLevel → Dal
effective_policy_dal level = or_least_strict (as_dal level)

-- `Display`
abbrev pub level_str : AssuranceLevel → Str
level_str AssuranceLevel.dal_a = codes "A"
level_str AssuranceLevel.dal_b = codes "B"
level_str AssuranceLevel.dal_c = codes "C"
level_str AssuranceLevel.dal_d = codes "D"
level_str AssuranceLevel.qm = codes "QM"
level_str AssuranceLevel.unclassified = codes "unclassified"

pub record StandardsPack : Type 0 where
  pub id : Str
  pub version : Str
  pub review_record : Str

-- `StandardsPack::do_178c`; the dash is its three bytes.
abbrev pub do_178c : StandardsPack
do_178c = record {
  id = codes "do-178c-ac20-115d";
  version = codes "1.0.0";
  review_record =
      codes "cert/QUALIFICATION.md "
      ++ 0xE2
        ∷ 0x80
        ∷ 0x94
        ∷ codes " DO-178C applicability, tailoring, and tool-qualification review record";
}
