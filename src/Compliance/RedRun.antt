-- ===== src/Compliance/RedRun.antt =====
-- What objectives of table A-7 are credited with when the tests failed or did not run.
use evidence.Prelude.{
  Str, codes, true, some, ◌≡◌, ◌≢◌, ◌↔◌, ◌⊎◌, refl, Bool, false, ◌||◌, if◌then◌else◌, inl, inr,
  arith, str_eq, str_eq_iff,
}
use evidence.Policy.{Dal}
use evidence.Compliance.Objectives.{Objective}
use evidence.Compliance.Coverage.{ObjectiveStatusKind, CrateEvidence, Verdict, FloatOps}
use evidence.Compliance.Status.{
  determine_a7_status, a7_1_2_hlr_testing, a7_3_4_llr_testing, a7_5_target_compatibility,
  a7_6_hlr_test_coverage, a7_7_llr_test_coverage, a7_8_statement_coverage, a7_9_decision_coverage,
}

-- Met in full or in part.
abbrev pub HasCredit : Verdict → Type 0
HasCredit v = (v.status ≡ ObjectiveStatusKind.met) ⊎ (v.status ≡ ObjectiveStatusKind.partial)

abbrev pub IsMatrixThere : CrateEvidence → Type 0
IsMatrixThere e =
    (e.has_trace_data ≡ true) × (e.has_test_results ≡ true) × (e.trace_validation_passed ≡ true)

-- What is credited without a green test run.
pub data IsCreditedRed (f : FloatOps) (id : Str) (dal : Dal) (e : CrateEvidence) : Type 0 where
  matrix : ((id ≡ codes "A7-6") ⊎ (id ≡ codes "A7-7")) → IsMatrixThere e → IsCreditedRed f id dal e
  statement_percent :
      id ≡ codes "A7-8" → HasCredit (a7_8_statement_coverage f dal e) → IsCreditedRed f id dal e
  branch_percent :
      id ≡ codes "A7-9" → HasCredit (a7_9_decision_coverage f dal e) → IsCreditedRed f id dal e

-- The verdicts of testing, A7-1 to A7-5, give none.
testing_red :
    (e : CrateEvidence)
    → e.tests_passed ≢ some true
    → ((a7_1_2_hlr_testing e).status ≡ ObjectiveStatusKind.not_met)
      × ((a7_3_4_llr_testing e).status ≡ ObjectiveStatusKind.not_met)
      × ((a7_5_target_compatibility e).status ≡ ObjectiveStatusKind.not_met)
unfolding a7_1_2_hlr_testing a7_3_4_llr_testing a7_5_target_compatibility
testing_red e h = (ground arith, ground arith, ground arith)

matrix_there :
    (e : CrateEvidence)
    → (HasCredit (a7_6_hlr_test_coverage e) → IsMatrixThere e)
      × (HasCredit (a7_7_llr_test_coverage e) → IsMatrixThere e)
unfolding a7_6_hlr_test_coverage a7_7_llr_test_coverage
matrix_there e = ((λ c. ground arith), (λ c. ground arith))

no_credit :
    (k : ObjectiveStatusKind)
    → k ≡ ObjectiveStatusKind.not_met
    → (k ≡ ObjectiveStatusKind.met) ⊎ (k ≡ ObjectiveStatusKind.partial)
    → ⊥
no_credit k p (inl q) = absurd (cc)
no_credit k p (inr q) = absurd (cc)

-- The credit of a choice is that of one of its branches.
either_credit :
    {P : Type 0} (x y : Verdict) (b : Bool)
    → (b ≡ true → HasCredit x → P)
    → (HasCredit y → P)
    → HasCredit (if b then x else y)
    → P
either_credit x y true k l c = k refl c
either_credit x y false k l c = l c

module _ (f : FloatOps) (obj : Objective) (dal : Dal) (e : CrateEvidence) where
  is_named : (u : Str) → str_eq obj.id u ≡ true → obj.id ≡ u
  is_named u = (str_eq_iff obj.id u).0

  red_sound :
      e.tests_passed ≢ some true
      → HasCredit (determine_a7_status f obj dal e)
      → IsCreditedRed f obj.id dal e
  unfolding determine_a7_status
  red_sound h =
      let (p12, p34, p5) = testing_red e h in
      let (m6, m7) = matrix_there e in
      either_credit _ _ (str_eq obj.id (codes "A7-1") || str_eq obj.id (codes "A7-2"))
        (λ b c. absurd (no_credit _ p12 c))
        (either_credit _ _ (str_eq obj.id (codes "A7-3") || str_eq obj.id (codes "A7-4"))
          (λ b c. absurd (no_credit _ p34 c))
          (either_credit _ _ (str_eq obj.id (codes "A7-5")) (λ b c. absurd (no_credit _ p5 c))
            (either_credit _ _ (str_eq obj.id (codes "A7-6"))
              (λ b c. matrix (inl (is_named (codes "A7-6") b)) (m6 c))
              (either_credit _ _ (str_eq obj.id (codes "A7-7"))
                (λ b c. matrix (inr (is_named (codes "A7-7") b)) (m7 c))
                (either_credit _ _ (str_eq obj.id (codes "A7-8"))
                  (λ b c. statement_percent (is_named (codes "A7-8") b) c)
                  (either_credit _ _ (str_eq obj.id (codes "A7-9"))
                    (λ b c. branch_percent (is_named (codes "A7-9") b) c)
                    (either_credit _ _ (str_eq obj.id (codes "A7-10"))
                      (λ b c. absurd (no_credit _ refl c)) (λ c. absurd (no_credit _ refl c)))))))))

  matrix_partial :
      IsMatrixThere e
      → ((a7_6_hlr_test_coverage e).status ≡ ObjectiveStatusKind.partial)
        × ((a7_7_llr_test_coverage e).status ≡ ObjectiveStatusKind.partial)
  unfolding a7_6_hlr_test_coverage a7_7_llr_test_coverage
  matrix_partial m = (ground arith, ground arith)

  red_complete : IsCreditedRed f obj.id dal e → HasCredit (determine_a7_status f obj dal e)
  unfolding determine_a7_status
  red_complete (matrix (inl p) m) = inr (rw (p, (matrix_partial m).0))
  red_complete (matrix (inr p) m) = inr (rw (p, (matrix_partial m).1))
  red_complete (statement_percent p (inl m)) = inl (rw (p, m))
  red_complete (statement_percent p (inr m)) = inr (rw (p, m))
  red_complete (branch_percent p (inl m)) = inl (rw (p, m))
  red_complete (branch_percent p (inr m)) = inr (rw (p, m))

  -- When the tests failed or did not run, an objective of table A-7 is still met in full or in
  -- part exactly when it is A7-6 or A7-7 and there are test results and validated trace data, or
  -- it is A7-8 or A7-9 and its coverage alone has such a verdict.
  pub determine_a7_status_red_iff :
      e.tests_passed ≢ some true
      → HasCredit (determine_a7_status f obj dal e) ↔ IsCreditedRed f obj.id dal e
  determine_a7_status_red_iff h = (red_sound h, red_complete)
