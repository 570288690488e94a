-- ===== src/Compliance/Generator.antt =====
-- The report of a crate: crates/evidence-core/src/compliance/generator.rs and report.rs.
use evidence.Prelude.{
  ℕ, ◌+◌, ◌%◌, ◌^◌, Str, codes, Bool, true, false, Option, none, List, [], ◌∷◌, ◌++◌, length,
  if◌then◌else◌,
}
use evidence.Policy.{Dal}
use evidence.Policy.Assurance.{
  AssuranceLevel, StandardsPack, as_str, level_str, effective_policy_dal, do_178c,
}
use evidence.Compliance.Objectives.{Applicability, Objective, applicability_for, objectives_table}
use evidence.Compliance.Coverage.{ObjectiveStatusKind, CrateEvidence, Verdict, FloatOps, verdict}
use evidence.Compliance.Status.{determine_objective_status}

pub record ObjectiveStatus : Type 0 where
  pub objective_id : Str
  pub table : Str
  pub title : Str
  pub applicable : Bool
  pub applicability_detail : Str
  pub status : ObjectiveStatusKind
  pub evidence_refs : List Str
  pub note : Option Str

pub record ComplianceSummary : Type 0 where
  pub total_objectives : ℕ
  pub applicable : ℕ
  pub met : ℕ
  pub not_met : ℕ
  pub partial : ℕ
  pub manual_review_required : ℕ

pub record ComplianceReport : Type 0 where
  pub crate_name : Str
  pub dal : Str
  pub standard : Str
  pub standard_edition : Str
  pub assurance_level : Str
  pub standards_pack : StandardsPack
  pub schema_version : Str
  pub objectives : List ObjectiveStatus
  pub summary : ComplianceSummary

-- The five counters of the loop, and the rows that it has pushed.
pub record Collation : Type 0 where
  pub objectives : List ObjectiveStatus
  pub met : ℕ
  pub not_met : ℕ
  pub partial : ℕ
  pub manual_review_required : ℕ
  pub applicable_count : ℕ

-- `+= 1` on a `u32`
abbrev pub add_one : ℕ → ℕ
add_one n = (n + 1) % 2 ^ 32

abbrev pub is_applicable : Applicability → Bool
is_applicable Applicability.not_applicable = false
is_applicable Applicability.required = true
is_applicable Applicability.required_with_independence = true

abbrev pub detail : Applicability → Str
detail Applicability.not_applicable = codes "not_applicable"
detail Applicability.required = codes "required"
detail Applicability.required_with_independence = codes "required_with_independence"

abbrev pub count_status : ObjectiveStatusKind → Collation → Collation
count_status ObjectiveStatusKind.met c = record c { met = add_one c.met }
count_status ObjectiveStatusKind.not_met c = record c { not_met = add_one c.not_met }
count_status ObjectiveStatusKind.partial c = record c { partial = add_one c.partial }
count_status ObjectiveStatusKind.manual_review_required c = record c {
  manual_review_required = add_one c.manual_review_required;
}
count_status ObjectiveStatusKind.not_applicable c = c

abbrev pub status_row : Objective → Applicability → Verdict → ObjectiveStatus
status_row obj app v = record {
  objective_id = obj.id;
  table = obj.table;
  title = obj.title;
  applicable = is_applicable app;
  applicability_detail = detail app;
  status = v.status;
  evidence_refs = v.evidence_refs;
  note = v.note;
}

abbrev pub objective_verdict : FloatOps → Objective → Dal → CrateEvidence → Verdict
objective_verdict f obj dal e =
    if is_applicable (applicability_for obj dal)
    then determine_objective_status f obj dal e
    else verdict ObjectiveStatusKind.not_applicable [] none

abbrev pub count_applicable : Bool → Collation → Collation
count_applicable true c = record c { applicable_count = add_one c.applicable_count }
count_applicable false c = c

abbrev pub push_row : ObjectiveStatus → Collation → Collation
push_row row c = record c { objectives = c.objectives ++ (row ∷ []) }

-- The body of the loop.
unfoldable pub collate_one : FloatOps → Dal → CrateEvidence → Objective → Collation → Collation
collate_one f dal e obj c =
    let app = applicability_for obj dal in
    let v = objective_verdict f obj dal e in
    push_row (status_row obj app v) (count_status v.status (count_applicable (is_applicable app) c))

unfoldable pub collate : FloatOps → Dal → CrateEvidence → List Objective → Collation → Collation
collate f dal e [] c = c
collate f dal e (obj ∷ objs) c = collate f dal e objs (collate_one f dal e obj c)

abbrev pub no_rows : Collation
no_rows = record {
  objectives = [];
  met = 0;
  not_met = 0;
  partial = 0;
  manual_review_required = 0;
  applicable_count = 0;
}

abbrev pub report_of : Str → AssuranceLevel → Collation → ComplianceReport
report_of crate_name level c = record {
  crate_name = crate_name;
  dal = level_str level;
  standard = codes "DO-178C";
  standard_edition = codes "C";
  assurance_level = as_str level;
  standards_pack = do_178c;
  schema_version = codes "0.0.1";
  objectives = c.objectives;
  summary = record {
    total_objectives = length objectives_table % 2 ^ 32;
    applicable = c.applicable_count;
    met = c.met;
    not_met = c.not_met;
    partial = c.partial;
    manual_review_required = c.manual_review_required;
  };
}

unfoldable pub generate_compliance_report :
    FloatOps → Str → AssuranceLevel → CrateEvidence → ComplianceReport
generate_compliance_report f crate_name level e =
    report_of crate_name level (collate f (effective_policy_dal level) e objectives_table no_rows)
