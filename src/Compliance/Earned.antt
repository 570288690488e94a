-- ===== src/Compliance/Earned.antt =====
-- What earns an objective the verdict `met`.
use evidence.Prelude.{
  ℕ, Str, codes, true, false, Option, none, some, ◌≡◌, ◌↔◌, ◌≢◌, ◌⊎◌, inl, inr, refl, ◌∙◌, ap,
  arith, Bool-cases, str_eq, str_eq_iff, ◌||◌,
}
use evidence.Policy.{Dal, coverage_thresholds}
use evidence.Compliance.Objectives.{Objective}
use evidence.Compliance.Coverage.{
  ObjectiveStatusKind, CrateEvidence, FloatOps, CoverageDimension, coverage_verdict,
}
use evidence.Compliance.Status.{
  determine_objective_status, determine_a7_status, traceability, source_traceability,
  a7_1_2_hlr_testing, a7_3_4_llr_testing, a7_5_target_compatibility, a7_6_hlr_test_coverage,
  a7_7_llr_test_coverage, a7_8_statement_coverage, a7_9_decision_coverage,
}

abbrev IsTraceValid : CrateEvidence → Type 0
IsTraceValid e = (e.has_trace_data ≡ true) × (e.trace_validation_passed ≡ true)

abbrev IsTestRunGreen : CrateEvidence → Type 0
IsTestRunGreen e = (e.tests_passed ≡ some true) × (e.has_test_results ≡ true)

-- Statement coverage that is at the gate of its level, with a disposition of what is uncovered.
pub record IsGateMet (f : FloatOps) (dal : Dal) (e : CrateEvidence) : Type 0 where
  pub observed : ℕ
  pub gate : ℕ
  pub disposition : Str
  pub is_observed : e.coverage_statement_percent ≡ some observed
  pub is_gated : (coverage_thresholds dal).statement_percent ≡ some gate
  pub reaches : f.is_below observed gate ≡ false
  pub is_disposed : e.coverage_disposition ≡ some disposition

-- The objectives of table A-7 that the evidence meets.
pub data IsTestEarned (f : FloatOps) (id : Str) (dal : Dal) (e : CrateEvidence) : Type 0 where
  llr_tests :
      ((id ≡ codes "A7-3") ⊎ (id ≡ codes "A7-4"))
      → IsTestRunGreen e
      → e.has_per_test_outcomes ≡ true
      → IsTestEarned f id dal e
  target_tests : id ≡ codes "A7-5" → IsTestRunGreen e → IsTestEarned f id dal e
  statements : id ≡ codes "A7-8" → IsGateMet f dal e → IsTestEarned f id dal e

-- The only ways to meet an objective.
pub data IsEarned (f : FloatOps) (obj : Objective) (dal : Dal) (e : CrateEvidence) : Type 0 where
  hlr_links :
      obj.table ≡ codes "Table A-3" → obj.id ≡ codes "A3-6" → IsTraceValid e → IsEarned f obj dal e
  llr_links :
      obj.table ≡ codes "Table A-4" → obj.id ≡ codes "A4-6" → IsTraceValid e → IsEarned f obj dal e
  testing : obj.table ≡ codes "Table A-7" → IsTestEarned f obj.id dal e → IsEarned f obj dal e

traceability_iff :
    (file : Str) (e : CrateEvidence)
    → ((traceability file e).status ≡ ObjectiveStatusKind.met) ↔ IsTraceValid e
unfolding traceability
traceability_iff file e = ground arith

llr_testing_iff :
    (e : CrateEvidence)
    → ((a7_3_4_llr_testing e).status ≡ ObjectiveStatusKind.met)
      ↔ (IsTestRunGreen e × (e.has_per_test_outcomes ≡ true))
unfolding a7_3_4_llr_testing
llr_testing_iff e = ground arith

target_iff :
    (e : CrateEvidence)
    → ((a7_5_target_compatibility e).status ≡ ObjectiveStatusKind.met) ↔ IsTestRunGreen e
unfolding a7_5_target_compatibility
target_iff e = ground arith

gate_sound :
    (f : FloatOps) (o t : Option ℕ) (x : Option Str)
    → (coverage_verdict f o t CoverageDimension.statement x).status ≡ ObjectiveStatusKind.met
    → (obs : ℕ) × (min : ℕ) × (d : Str) × (o ≡ some obs)
      × (t ≡ some min)
      × (f.is_below obs min ≡ false)
      × (x ≡ some d)
unfolding coverage_verdict
gate_sound f (some obs) (some min) (some d) h = (obs, min, d, refl, refl, ground arith, refl)
gate_sound f (some obs) (some min) none h = absurd (ground arith)
gate_sound f (some obs) none x h = absurd (cc)
gate_sound f none t x h = absurd (cc)

branch_capped :
    (f : FloatOps) (o t : Option ℕ) (x : Option Str)
    → ¬ (coverage_verdict f o t CoverageDimension.branch x).status ≡ ObjectiveStatusKind.met
unfolding coverage_verdict
branch_capped f o t x h = ground arith

statements_iff :
    (f : FloatOps) (dal : Dal) (e : CrateEvidence)
    → ((a7_8_statement_coverage f dal e).status ≡ ObjectiveStatusKind.met) ↔ IsGateMet f dal e
unfolding a7_8_statement_coverage coverage_verdict
statements_iff f dal e = (
  (λ h.
      let (obs, min, d, p, q, r, s) =
        gate_sound f e.coverage_statement_percent (coverage_thresholds dal).statement_percent
          e.coverage_disposition h in
      record {
        observed = obs;
        gate = min;
        disposition = d;
        is_observed = p;
        is_gated = q;
        reaches = r;
        is_disposed = s;
      }),
  (λ g. rw (g.is_observed, g.is_gated, g.is_disposed, g.reaches)),
)

decisions_capped :
    (f : FloatOps) (dal : Dal) (e : CrateEvidence)
    → (a7_9_decision_coverage f dal e).status ≢ ObjectiveStatusKind.met
unfolding a7_9_decision_coverage
decisions_capped f dal e =
    branch_capped f e.coverage_branch_percent (coverage_thresholds dal).branch_percent
      e.coverage_disposition

hlr_testing_capped : (e : CrateEvidence) → (a7_1_2_hlr_testing e).status ≢ ObjectiveStatusKind.met
unfolding a7_1_2_hlr_testing
hlr_testing_capped e h = ground arith

matrix_capped :
    (e : CrateEvidence)
    → ((a7_6_hlr_test_coverage e).status ≢ ObjectiveStatusKind.met)
      × ((a7_7_llr_test_coverage e).status ≢ ObjectiveStatusKind.met)
unfolding a7_6_hlr_test_coverage a7_7_llr_test_coverage
matrix_capped e = ((λ h. ground arith), (λ h. ground arith))

sources_capped : (e : CrateEvidence) → (source_traceability e).status ≢ ObjectiveStatusKind.met
unfolding source_traceability
sources_capped e h = ground arith

module _ (f : FloatOps) (obj : Objective) (dal : Dal) (e : CrateEvidence) where
  a7_cases :
      (determine_a7_status f obj dal e).status ≡ ObjectiveStatusKind.met
      → (((str_eq obj.id (codes "A7-3") || str_eq obj.id (codes "A7-4")) ≡ true)
          × ((a7_3_4_llr_testing e).status ≡ ObjectiveStatusKind.met))
        ⊎ ((str_eq obj.id (codes "A7-5") ≡ true)
            × ((a7_5_target_compatibility e).status ≡ ObjectiveStatusKind.met))
        ⊎ ((str_eq obj.id (codes "A7-8") ≡ true)
            × ((a7_8_statement_coverage f dal e).status ≡ ObjectiveStatusKind.met))
  unfolding determine_a7_status a7_1_2_hlr_testing a7_6_hlr_test_coverage a7_7_llr_test_coverage
      a7_9_decision_coverage
  a7_cases h = ground (
    arith,
    branch_capped f e.coverage_branch_percent (coverage_thresholds dal).branch_percent
        e.coverage_disposition,
  )

  status_cases :
      (determine_objective_status f obj dal e).status ≡ ObjectiveStatusKind.met
      → ((str_eq obj.table (codes "Table A-3") ≡ true)
          × (str_eq obj.id (codes "A3-6") ≡ true)
          × ((traceability (codes "trace/hlr.toml") e).status ≡ ObjectiveStatusKind.met))
        ⊎ ((str_eq obj.table (codes "Table A-4") ≡ true)
            × (str_eq obj.id (codes "A4-6") ≡ true)
            × ((traceability (codes "trace/llr.toml") e).status ≡ ObjectiveStatusKind.met))
        ⊎ ((str_eq obj.table (codes "Table A-7") ≡ true)
            × ((determine_a7_status f obj dal e).status ≡ ObjectiveStatusKind.met))
  unfolding determine_objective_status
  status_cases h = ground (arith, sources_capped e)

  is_named : (x y : Str) → str_eq x y ≡ true → x ≡ y
  is_named x y = (str_eq_iff x y).0

  which :
      (str_eq obj.id (codes "A7-3") || str_eq obj.id (codes "A7-4")) ≡ true
      → (obj.id ≡ codes "A7-3") ⊎ (obj.id ≡ codes "A7-4")
  which t = elim (Bool-cases (str_eq obj.id (codes "A7-3"))) [
    | inl p ↦ inl (is_named obj.id (codes "A7-3") p)
    | inr p ↦ inr (is_named obj.id (codes "A7-4") (rw (p) at t))
  ]

  is_other_table :
      obj.table ≡ codes "Table A-7"
      → (u : Str) → str_eq (codes "Table A-7") u ≡ false
      → str_eq obj.table u ≡ false
  is_other_table t u h = ap (λ x. str_eq x u) t ∙ h

  a7_row :
      obj.table ≡ codes "Table A-7"
      → determine_objective_status f obj dal e ≡ determine_a7_status f obj dal e
  unfolding determine_objective_status
  a7_row t = rw (
    is_other_table t (codes "Table A-3") refl,
    is_other_table t (codes "Table A-4") refl,
    is_other_table t (codes "Table A-5") refl,
    is_other_table t (codes "Table A-6") refl,
    (str_eq_iff obj.table (codes "Table A-7")).1 t,
  )

  a7_sound :
      (determine_a7_status f obj dal e).status ≡ ObjectiveStatusKind.met
      → IsTestEarned f obj.id dal e
  a7_sound h = elim (a7_cases h) [
    | inl (t, m) ↦
        let (green, per_test) = (llr_testing_iff e).0 m in llr_tests (which t) green per_test
    | inr (inl (t, m)) ↦ target_tests (is_named obj.id (codes "A7-5") t) ((target_iff e).0 m)
    | inr (inr (t, m)) ↦
        statements (is_named obj.id (codes "A7-8") t) ((statements_iff f dal e).0 m)
  ]

  a7_complete :
      IsTestEarned f obj.id dal e
      → (determine_a7_status f obj dal e).status ≡ ObjectiveStatusKind.met
  unfolding determine_a7_status
  a7_complete (llr_tests (inl p) g o) = rw (p, (llr_testing_iff e).1 (g, o))
  a7_complete (llr_tests (inr p) g o) = rw (p, (llr_testing_iff e).1 (g, o))
  a7_complete (target_tests p g) = rw (p, (target_iff e).1 g)
  a7_complete (statements p g) = rw (p, (statements_iff f dal e).1 g)

  status_complete :
      IsEarned f obj dal e
      → (determine_objective_status f obj dal e).status ≡ ObjectiveStatusKind.met
  unfolding determine_objective_status
  status_complete (hlr_links t p v) = rw (t, p, (traceability_iff (codes "trace/hlr.toml") e).1 v)
  status_complete (llr_links t p v) = rw (t, p, (traceability_iff (codes "trace/llr.toml") e).1 v)
  status_complete (testing t m) = ap (λ v. v.status) (a7_row t) ∙ a7_complete m

  -- An objective is met exactly when it is A3-6 or A4-6 and the trace data validates, or it is of
  -- table A-7 and either it is A7-3 or A7-4 and a green test run is recorded test by test, or it
  -- is A7-5 and there is a green test run, or it is A7-8 and the statement coverage is not below
  -- the gate of the level and what is uncovered has a recorded disposition.
  pub determine_objective_status_met_iff :
      ((determine_objective_status f obj dal e).status ≡ ObjectiveStatusKind.met)
      ↔ IsEarned f obj dal e
  determine_objective_status_met_iff = (
    (λ h. elim (status_cases h) [
      | inl (t, p, m) ↦
          hlr_links (is_named obj.table (codes "Table A-3") t) (is_named obj.id (codes "A3-6") p)
            ((traceability_iff (codes "trace/hlr.toml") e).0 m)
      | inr (inl (t, p, m)) ↦
          llr_links (is_named obj.table (codes "Table A-4") t) (is_named obj.id (codes "A4-6") p)
            ((traceability_iff (codes "trace/llr.toml") e).0 m)
      | inr (inr (t, m)) ↦ testing (is_named obj.table (codes "Table A-7") t) (a7_sound m)
    ]),
    status_complete,
  )
