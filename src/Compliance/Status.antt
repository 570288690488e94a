-- ===== src/Compliance/Status.antt =====
-- What the evidence says about one objective: crates/evidence-core/src/compliance/status.rs.
use evidence.Prelude.{
  Str, codes, Bool, true, false, ◌&&◌, ◌||◌, Option, none, some, [], ◌∷◌, str_eq, if◌then◌else◌,
}
use evidence.Policy.{Dal, coverage_thresholds}
use evidence.Compliance.Objectives.{Objective}
use evidence.Compliance.Coverage.{
  ObjectiveStatusKind, CrateEvidence, Verdict, FloatOps, CoverageDimension, verdict,
  coverage_verdict,
}

abbrev pub manual_review : Str → Verdict
manual_review n = verdict ObjectiveStatusKind.manual_review_required [] (some n)

abbrev pub unmet : Option Str → Verdict
unmet = verdict ObjectiveStatusKind.not_met []

abbrev pub stdout_file : Str
stdout_file = codes "tests/cargo_test_stdout.txt"

abbrev pub matrix_file : Str
matrix_file = codes "trace/matrix.md"

-- The checks of A3-6 and A4-6, which name the file of the requirements.
unfoldable pub traceability : Str → CrateEvidence → Verdict
traceability file e =
    if e.has_trace_data && e.trace_validation_passed
    then verdict ObjectiveStatusKind.met (file ∷ matrix_file ∷ []) none
    else if e.has_trace_data
    then verdict ObjectiveStatusKind.partial (file ∷ [])
        (some (codes "trace validation did not pass"))
    else unmet (some (codes "no trace data available"))

-- The check of A6-5.
unfoldable pub source_traceability : CrateEvidence → Verdict
source_traceability e =
    if e.has_trace_data && e.trace_validation_passed
    then verdict ObjectiveStatusKind.partial (codes "trace/llr.toml" ∷ [])
        (some (codes "trace links exist but source-level mapping requires test_selector"))
    else unmet (some (codes "no trace data available"))

abbrev pub red_run : Verdict
red_run =
    verdict ObjectiveStatusKind.not_met (stdout_file ∷ [])
      (some (codes "tests ran but at least one failed"))

abbrev pub no_results : Verdict
no_results = unmet (some (codes "no test results in bundle"))

abbrev pub a7_1_2_results : Option Bool → Bool → Verdict
a7_1_2_results (some true) has_results =
    if has_results
    then verdict ObjectiveStatusKind.partial (stdout_file ∷ []) (
        some (
          codes "aggregate test results available; per-requirement mapping requires test_selector"))
    else no_results
a7_1_2_results (some false) has_results = red_run
a7_1_2_results none has_results = no_results

unfoldable pub a7_1_2_hlr_testing : CrateEvidence → Verdict
a7_1_2_hlr_testing e = a7_1_2_results e.tests_passed e.has_test_results

abbrev pub a7_3_4_results : Option Bool → Bool → Bool → Verdict
a7_3_4_results (some true) true has_results =
    if has_results
    then verdict ObjectiveStatusKind.met (codes "tests/test_outcomes.jsonl" ∷ stdout_file ∷ [])
        (some (codes "per-test outcome atoms captured in test_outcomes.jsonl"))
    else no_results
a7_3_4_results (some true) false has_results =
    if has_results
    then verdict ObjectiveStatusKind.partial (stdout_file ∷ [])
        (some (codes "aggregate test results available; per-LLR mapping requires test_selector"))
    else no_results
a7_3_4_results (some false) per_test has_results = red_run
a7_3_4_results none per_test has_results = no_results

unfoldable pub a7_3_4_llr_testing : CrateEvidence → Verdict
a7_3_4_llr_testing e = a7_3_4_results e.tests_passed e.has_per_test_outcomes e.has_test_results

abbrev pub a7_5_results : Option Bool → Bool → Verdict
a7_5_results (some true) has_results =
    if has_results
    then verdict ObjectiveStatusKind.met (stdout_file ∷ codes "env.json" ∷ []) none
    else unmet (some (codes "no passing test results"))
a7_5_results (some false) has_results = red_run
a7_5_results none has_results = unmet (some (codes "no passing test results"))

unfoldable pub a7_5_target_compatibility : CrateEvidence → Verdict
a7_5_target_compatibility e = a7_5_results e.tests_passed e.has_test_results

unfoldable pub a7_6_hlr_test_coverage : CrateEvidence → Verdict
a7_6_hlr_test_coverage e =
    if e.has_trace_data && e.has_test_results && e.trace_validation_passed
    then verdict ObjectiveStatusKind.partial (matrix_file ∷ stdout_file ∷ []) (
        some (
          codes "traceability matrix shows HLR-to-test links; completeness requires manual review"))
    else unmet none

unfoldable pub a7_7_llr_test_coverage : CrateEvidence → Verdict
a7_7_llr_test_coverage e =
    if e.has_trace_data && e.has_test_results && e.trace_validation_passed
    then verdict ObjectiveStatusKind.partial (matrix_file ∷ []) (
        some (
          codes "traceability matrix shows LLR-to-test links; completeness requires manual review"))
    else unmet none

unfoldable pub a7_8_statement_coverage : FloatOps → Dal → CrateEvidence → Verdict
a7_8_statement_coverage f dal e =
    coverage_verdict f e.coverage_statement_percent (coverage_thresholds dal).statement_percent
      CoverageDimension.statement e.coverage_disposition

unfoldable pub a7_9_decision_coverage : FloatOps → Dal → CrateEvidence → Verdict
a7_9_decision_coverage f dal e =
    coverage_verdict f e.coverage_branch_percent (coverage_thresholds dal).branch_percent
      CoverageDimension.branch e.coverage_disposition

abbrev pub a7_10_mcdc_coverage : Verdict
a7_10_mcdc_coverage = unmet (some (codes "MC/DC analysis not yet supported"))

unfoldable pub determine_a7_status : FloatOps → Objective → Dal → CrateEvidence → Verdict
determine_a7_status f obj dal e =
    if str_eq obj.id (codes "A7-1") || str_eq obj.id (codes "A7-2")
    then a7_1_2_hlr_testing e
    else if str_eq obj.id (codes "A7-3") || str_eq obj.id (codes "A7-4")
    then a7_3_4_llr_testing e
    else if str_eq obj.id (codes "A7-5")
    then a7_5_target_compatibility e
    else if str_eq obj.id (codes "A7-6")
    then a7_6_hlr_test_coverage e
    else if str_eq obj.id (codes "A7-7")
    then a7_7_llr_test_coverage e
    else if str_eq obj.id (codes "A7-8")
    then a7_8_statement_coverage f dal e
    else if str_eq obj.id (codes "A7-9")
    then a7_9_decision_coverage f dal e
    else if str_eq obj.id (codes "A7-10")
    then a7_10_mcdc_coverage
    else unmet none

unfoldable pub determine_objective_status : FloatOps → Objective → Dal → CrateEvidence → Verdict
determine_objective_status f obj dal e =
    if str_eq obj.table (codes "Table A-3")
    then if str_eq obj.id (codes "A3-6")
      then traceability (codes "trace/hlr.toml") e
      else manual_review (codes "reviewer must confirm HLR correctness / completeness")
    else if str_eq obj.table (codes "Table A-4")
    then if str_eq obj.id (codes "A4-6")
      then traceability (codes "trace/llr.toml") e
      else manual_review (codes "reviewer must confirm LLR correctness / completeness")
    else if str_eq obj.table (codes "Table A-5")
    then manual_review (codes "reviewer must confirm architecture consistency")
    else if str_eq obj.table (codes "Table A-6")
    then if str_eq obj.id (codes "A6-5")
      then source_traceability e
      else manual_review (codes "reviewer or static-analysis tool must judge source compliance")
    else if str_eq obj.table (codes "Table A-7")
    then determine_a7_status f obj dal e
    else unmet none
