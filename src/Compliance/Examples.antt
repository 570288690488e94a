-- ===== src/Compliance/Examples.antt =====
-- The theorems on compliance, applied to the evidence of one crate. Percentages are whole there.
use evidence.Prelude.{Str, codes, true, false, none, some, ◌≡◌, ◌↔◌, ltb, []}
use evidence.Policy.{Dal}
use evidence.Policy.Assurance.{AssuranceLevel}
use evidence.Corpus.Render.{show_nat}
use evidence.Compliance.Objectives.{Applicability, Objective}
use evidence.Compliance.Coverage.{ObjectiveStatusKind, CrateEvidence, FloatOps}
use evidence.Compliance.Status.{determine_objective_status, determine_a7_status}
use evidence.Compliance.Generator.{generate_compliance_report}
use evidence.Compliance.Tally.{IsTallied, generate_compliance_report-IsTallied}
use evidence.Compliance.Earned.{IsEarned, determine_objective_status_met_iff}
use evidence.Compliance.RedRun.{HasCredit, IsCreditedRed, determine_a7_status_red_iff}

abbrev whole : FloatOps
whole = record { is_below = ltb; show_percent = show_nat }

abbrev red_crate : CrateEvidence
red_crate = record {
  has_trace_data = true;
  trace_validation_passed = true;
  has_test_results = true;
  tests_passed = some false;
  has_coverage_data = true;
  has_per_test_outcomes = false;
  coverage_statement_percent = some 96;
  coverage_branch_percent = none;
  coverage_disposition = some (codes "record");
}

abbrev row_of_table : Str → Objective
row_of_table id = record {
  id = id;
  table = codes "Table A-7";
  title = [];
  applicability = (
    Applicability.required, Applicability.required, Applicability.required, Applicability.required,
  );
}

generate_compliance_report-IsTallied_example :
    IsTallied (generate_compliance_report whole (codes "core") AssuranceLevel.dal_b red_crate)
generate_compliance_report-IsTallied_example =
    generate_compliance_report-IsTallied whole (codes "core") AssuranceLevel.dal_b red_crate

determine_objective_status_met_iff_example :
    ((determine_objective_status whole (row_of_table (codes "A7-8")) Dal.b red_crate).status
      ≡ ObjectiveStatusKind.met)
    ↔ IsEarned whole (row_of_table (codes "A7-8")) Dal.b red_crate
determine_objective_status_met_iff_example =
    determine_objective_status_met_iff whole (row_of_table (codes "A7-8")) Dal.b red_crate

determine_a7_status_red_iff_example :
    HasCredit (determine_a7_status whole (row_of_table (codes "A7-6")) Dal.b red_crate)
    ↔ IsCreditedRed whole (codes "A7-6") Dal.b red_crate
determine_a7_status_red_iff_example =
    determine_a7_status_red_iff whole (row_of_table (codes "A7-6")) Dal.b red_crate
      (λ h. absurd (cc))
