-- ===== src/Compliance/Judged.antt =====
-- No objective that applies has the verdict that it does not.
use evidence.Prelude.{
  ℕ, Str, codes, Bool, true, false, ◌&&◌, ◌||◌, Option, none, some, ◌≢◌, str_eq, if◌then◌else◌,
}
use evidence.Policy.{Dal, coverage_thresholds}
use evidence.Compliance.Objectives.{Objective}
use evidence.Compliance.Coverage.{
  ObjectiveStatusKind, CrateEvidence, Verdict, FloatOps, CoverageDimension, coverage_verdict,
}
use evidence.Compliance.Status.{
  determine_objective_status, determine_a7_status, traceability, source_traceability,
  a7_1_2_hlr_testing, a7_3_4_llr_testing, a7_5_target_compatibility, a7_6_hlr_test_coverage,
  a7_7_llr_test_coverage, a7_8_statement_coverage, a7_9_decision_coverage, a7_1_2_results,
  a7_3_4_results, a7_5_results,
}

-- A verdict that counts its objective as applicable.
abbrev pub IsJudged : Verdict → Type 0
IsJudged v = v.status ≢ ObjectiveStatusKind.not_applicable

if-IsJudged : (x y : Verdict) (b : Bool) → IsJudged x → IsJudged y → IsJudged (if b then x else y)
if-IsJudged x y true p q = p
if-IsJudged x y false p q = q

coverage_verdict-IsJudged :
    (f : FloatOps) (o t : Option ℕ) (d : CoverageDimension) (x : Option Str)
    → IsJudged (coverage_verdict f o t d x)
unfolding coverage_verdict
coverage_verdict-IsJudged f none t d x = λ h. absurd (cc)
coverage_verdict-IsJudged f (some o) none d x = λ h. absurd (cc)
coverage_verdict-IsJudged f (some o) (some t) CoverageDimension.statement none =
    if-IsJudged _ _ (f.is_below o t) (λ h. absurd (cc)) (λ h. absurd (cc))
coverage_verdict-IsJudged f (some o) (some t) CoverageDimension.statement (some x) =
    if-IsJudged _ _ (f.is_below o t) (λ h. absurd (cc)) (λ h. absurd (cc))
coverage_verdict-IsJudged f (some o) (some t) CoverageDimension.branch x =
    if-IsJudged _ _ (f.is_below o t) (λ h. absurd (cc)) (λ h. absurd (cc))

test_results_count :
    (p : Option Bool) (o r : Bool)
    → IsJudged (a7_1_2_results p r) × IsJudged (a7_3_4_results p o r) × IsJudged (a7_5_results p r)
test_results_count none o r = ((λ h. absurd (cc)), (λ h. absurd (cc)), (λ h. absurd (cc)))
test_results_count (some false) o r = ((λ h. absurd (cc)), (λ h. absurd (cc)), (λ h. absurd (cc)))
test_results_count (some true) true r = (
  if-IsJudged _ _ r (λ h. absurd (cc)) (λ h. absurd (cc)),
  if-IsJudged _ _ r (λ h. absurd (cc)) (λ h. absurd (cc)),
  if-IsJudged _ _ r (λ h. absurd (cc)) (λ h. absurd (cc)),
)
test_results_count (some true) false r = (
  if-IsJudged _ _ r (λ h. absurd (cc)) (λ h. absurd (cc)),
  if-IsJudged _ _ r (λ h. absurd (cc)) (λ h. absurd (cc)),
  if-IsJudged _ _ r (λ h. absurd (cc)) (λ h. absurd (cc)),
)

module _ (f : FloatOps) (obj : Objective) (dal : Dal) (e : CrateEvidence) where
  determine_a7_status-IsJudged : IsJudged (determine_a7_status f obj dal e)
  unfolding determine_a7_status a7_1_2_hlr_testing a7_3_4_llr_testing a7_5_target_compatibility
      a7_6_hlr_test_coverage a7_7_llr_test_coverage a7_8_statement_coverage a7_9_decision_coverage
  determine_a7_status-IsJudged =
      let (p12, p34, p5) =
        test_results_count e.tests_passed e.has_per_test_outcomes e.has_test_results in
      let matrix = e.has_trace_data && e.has_test_results && e.trace_validation_passed in
      if-IsJudged _ _ (str_eq obj.id (codes "A7-1") || str_eq obj.id (codes "A7-2")) p12 (
        if-IsJudged _ _ (str_eq obj.id (codes "A7-3") || str_eq obj.id (codes "A7-4")) p34 (
          if-IsJudged _ _ (str_eq obj.id (codes "A7-5")) p5 (
            if-IsJudged _ _ (str_eq obj.id (codes "A7-6"))
              (if-IsJudged _ _ matrix (λ h. absurd (cc)) (λ h. absurd (cc)))
              (if-IsJudged _ _ (str_eq obj.id (codes "A7-7"))
                (if-IsJudged _ _ matrix (λ h. absurd (cc)) (λ h. absurd (cc)))
                (if-IsJudged _ _ (str_eq obj.id (codes "A7-8"))
                  (coverage_verdict-IsJudged f e.coverage_statement_percent
                    (coverage_thresholds dal).statement_percent CoverageDimension.statement
                    e.coverage_disposition)
                  (if-IsJudged _ _ (str_eq obj.id (codes "A7-9"))
                    (coverage_verdict-IsJudged f e.coverage_branch_percent
                      (coverage_thresholds dal).branch_percent CoverageDimension.branch
                      e.coverage_disposition)
                    (if-IsJudged _ _ (str_eq obj.id (codes "A7-10")) (λ h. absurd (cc))
                      (λ h. absurd (cc)))))))))

  traceability-IsJudged : (file : Str) → IsJudged (traceability file e)
  unfolding traceability
  traceability-IsJudged file =
      if-IsJudged _ _ (e.has_trace_data && e.trace_validation_passed) (λ h. absurd (cc))
        (if-IsJudged _ _ e.has_trace_data (λ h. absurd (cc)) (λ h. absurd (cc)))

  pub determine_objective_status-IsJudged : IsJudged (determine_objective_status f obj dal e)
  unfolding determine_objective_status source_traceability
  determine_objective_status-IsJudged =
      if-IsJudged _ _ (str_eq obj.table (codes "Table A-3"))
        (if-IsJudged _ _ (str_eq obj.id (codes "A3-6"))
          (traceability-IsJudged (codes "trace/hlr.toml")) (λ h. absurd (cc)))
        (if-IsJudged _ _ (str_eq obj.table (codes "Table A-4"))
          (if-IsJudged _ _ (str_eq obj.id (codes "A4-6"))
            (traceability-IsJudged (codes "trace/llr.toml")) (λ h. absurd (cc)))
          (if-IsJudged _ _ (str_eq obj.table (codes "Table A-5")) (λ h. absurd (cc))
            (if-IsJudged _ _ (str_eq obj.table (codes "Table A-6"))
              (if-IsJudged _ _ (str_eq obj.id (codes "A6-5"))
                (if-IsJudged _ _ (e.has_trace_data && e.trace_validation_passed) (λ h. absurd (cc))
                  (λ h. absurd (cc)))
                (λ h. absurd (cc)))
              (if-IsJudged _ _ (str_eq obj.table (codes "Table A-7")) determine_a7_status-IsJudged
                (λ h. absurd (cc))))))
