-- ===== src/Bundle/Completeness/Laws.antt =====
-- The evidence behind each derived state.
use evidence.Prelude.{Bool, true, false, Option, none, some, ◌≡◌, ◌≢◌, refl, ◌↔◌, arith}
use evidence.Bundle.Completeness.{
  CompletenessState, TraceEvidenceState, CompletenessStates, CompletenessFacts, validity_of,
  derive_capture, derive_graph_validity, derive_objective_mapping, derive_reproducibility,
  derive_tool_qualification, derive,
}

-- The evidence behind each area, independent of the order in which the code asks.
pub record IsSubstantiated (f : CompletenessFacts) (s : CompletenessStates) : Type 0 where
  pub capture : (s.capture ≡ CompletenessState.complete) ↔ (
      (f.tool_command_failures_empty ≡ true)
      × (f.inputs_empty ≡ false)
      × (f.skip_tests ≡ false)
      × (f.test_summary_present ≡ true))
  pub graph_validity :
      (s.graph_validity ≡ CompletenessState.complete)
      ↔ (f.trace_evidence ≡ some TraceEvidenceState.valid)
  pub verification : s.verification ≢ CompletenessState.complete
  pub objective_mapping :
      (s.objective_mapping ≡ CompletenessState.complete)
      ↔ ((f.in_scope_claim ≡ true) × (f.compliance_reports_complete ≡ true))
  pub review_approval : s.review_approval ≢ CompletenessState.complete
  pub integrity : (s.integrity ≡ CompletenessState.complete) ↔ (f.signature_planned ≡ true)
  pub reproducibility : (s.reproducibility ≡ CompletenessState.complete) ↔ (f.outputs_empty ≡ false)
  pub tool_qualification :
      (s.tool_qualification ≡ CompletenessState.complete)
      ↔ ((f.any_dal_claim ≡ true) × (f.compliance_reports_complete ≡ true))

validity_iff :
    (e : Option TraceEvidenceState) (b : Bool)
    → (validity_of e b ≡ CompletenessState.complete) ↔ (e ≡ some TraceEvidenceState.valid)
unfolding validity_of
validity_iff (some TraceEvidenceState.valid) b = ((λ h. refl), (λ h. refl))
validity_iff (some TraceEvidenceState.not_configured) b = ((λ h. absurd (cc)), (λ h. absurd (cc)))
validity_iff (some (TraceEvidenceState.not_adopted _)) b = ((λ h. absurd (cc)), (λ h. absurd (cc)))
validity_iff (some TraceEvidenceState.empty) b = ((λ h. absurd (cc)), (λ h. absurd (cc)))
validity_iff (some TraceEvidenceState.invalid) b = ((λ h. absurd (cc)), (λ h. absurd (cc)))
validity_iff none true = ((λ h. absurd (cc)), (λ h. absurd (cc)))
validity_iff none false = ((λ h. absurd (cc)), (λ h. absurd (cc)))

-- Every area that is derived as complete is backed by the facts that its rule names, and no
-- area whose facts are there is derived otherwise; verification and review are never claimed.
pub derive-IsSubstantiated : (f : CompletenessFacts) → IsSubstantiated f (derive f)
unfolding derive derive_capture derive_graph_validity derive_objective_mapping
    derive_reproducibility derive_tool_qualification
derive-IsSubstantiated f = record {
  capture = ground arith;
  graph_validity = validity_iff f.trace_evidence f.trace_roots_empty;
  verification = λ h. absurd (cc);
  objective_mapping = ground arith;
  review_approval = λ h. absurd (cc);
  integrity = ground arith;
  reproducibility = ground arith;
  tool_qualification = ground arith;
}
