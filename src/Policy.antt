-- ===== src/Policy.antt =====
-- Assurance levels and what each of them demands: crates/evidence-core/src/policy/dal.rs and
-- policy/evidence.rs.
pub mod Laws
pub mod Assurance
mod Examples
use evidence.Prelude.{
  ℕ, Str, codes, Bool, true, false, ◌&&◌, Option, none, some, map, Result, ok, err, leb, ◌-◌,
  str_eq, if◌then◌else◌,
}

-- In the order of declaration, which is the derived `Ord`: later is more stringent.
pub data Dal : Type 0 where
  d c b a : Dal

abbrev pub dal_rank : Dal → ℕ
dal_rank Dal.d = 0
dal_rank Dal.c = 1
dal_rank Dal.b = 2
dal_rank Dal.a = 3

-- `Display`
abbrev pub dal_str : Dal → Str
dal_str Dal.a = codes "A"
dal_str Dal.b = codes "B"
dal_str Dal.c = codes "C"
dal_str Dal.d = codes "D"

pub data ParseDalError : Type 0 where
  unknown : Str → ParseDalError

-- `to_uppercase` on bytes. Of the texts that it maps to `A`, `B`, `C` or `D` none has a byte
-- outside ASCII, so the match in `from_str` does not see the other mappings.
abbrev pub upper_byte : ℕ → ℕ
upper_byte x = if leb 97 x && leb x 122 then x - 32 else x

abbrev pub to_uppercase : Str → Str
to_uppercase = map upper_byte

unfoldable pub parse_upper : Str → Str → Result ParseDalError Dal
parse_upper s u =
    if str_eq u (codes "A")
    then ok Dal.a
    else if str_eq u (codes "B")
    then ok Dal.b
    else if str_eq u (codes "C")
    then ok Dal.c
    else if str_eq u (codes "D")
    then ok Dal.d
    else err (ParseDalError.unknown s)

unfoldable pub from_str : Str → Result ParseDalError Dal
unfolding parse_upper
from_str s = parse_upper s (to_uppercase s)

pub record DalCoverageThresholds : Type 0 where
  pub statement_percent : Option ℕ
  pub branch_percent : Option ℕ

unfoldable pub coverage_thresholds : Dal → DalCoverageThresholds
coverage_thresholds Dal.d = record { statement_percent = none; branch_percent = none }
coverage_thresholds Dal.c = record { statement_percent = some 90; branch_percent = none }
coverage_thresholds Dal.b = record { statement_percent = some 95; branch_percent = some 85 }
coverage_thresholds Dal.a = record { statement_percent = some 95; branch_percent = some 90 }

pub record TracePolicy : Type 0 where
  pub require_uids : Bool
  pub require_owners : Bool
  pub require_hlr_verification_methods : Bool
  pub require_llr_verification_methods : Bool
  pub require_derived_rationale : Bool
  pub require_hlr_sys_trace : Bool
  pub require_hlr_surface_bijection : Bool
  pub require_derived_safety_impact : Bool
  pub require_derived_disposition : Bool
  pub require_derived_reviewed : Bool

pub record EvidencePolicy : Type 0 where
  pub trace : TracePolicy
  pub require_structural_coverage : Bool
  pub coverage_level : Option Str
  pub require_independent_verification : Bool

-- The trace policy that levels A and B share.
abbrev pub strict_trace : TracePolicy
strict_trace = record {
  require_uids = true;
  require_owners = true;
  require_hlr_verification_methods = true;
  require_llr_verification_methods = true;
  require_derived_rationale = true;
  require_hlr_sys_trace = true;
  require_hlr_surface_bijection = false;
  require_derived_safety_impact = true;
  require_derived_disposition = true;
  require_derived_reviewed = true;
}

unfoldable pub for_dal : Dal → EvidencePolicy
for_dal Dal.a = record {
  trace = strict_trace;
  require_structural_coverage = true;
  coverage_level = some (codes "MC/DC");
  require_independent_verification = true;
}
for_dal Dal.b = record {
  trace = strict_trace;
  require_structural_coverage = true;
  coverage_level = some (codes "decision");
  require_independent_verification = true;
}
for_dal Dal.c = record {
  trace = record {
    require_uids = true;
    require_owners = true;
    require_hlr_verification_methods = true;
    require_llr_verification_methods = false;
    require_derived_rationale = true;
    require_hlr_sys_trace = true;
    require_hlr_surface_bijection = false;
    require_derived_safety_impact = true;
    require_derived_disposition = true;
    require_derived_reviewed = true;
  };
  require_structural_coverage = true;
  coverage_level = some (codes "statement");
  require_independent_verification = false;
}
for_dal Dal.d = record {
  trace = record {
    require_uids = true;
    require_owners = false;
    require_hlr_verification_methods = false;
    require_llr_verification_methods = false;
    require_derived_rationale = false;
    require_hlr_sys_trace = false;
    require_hlr_surface_bijection = false;
    require_derived_safety_impact = false;
    require_derived_disposition = false;
    require_derived_reviewed = false;
  };
  require_structural_coverage = false;
  coverage_level = none;
  require_independent_verification = false;
}
