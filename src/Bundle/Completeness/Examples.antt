-- ===== src/Bundle/Completeness/Examples.antt =====
-- The theorem on completeness, applied to a run that skipped its tests.
use evidence.Prelude.{true, false, some}
use evidence.Bundle.Completeness.{TraceEvidenceState, CompletenessFacts, derive}
use evidence.Bundle.Completeness.Laws.{IsSubstantiated, derive-IsSubstantiated}

abbrev skipped : CompletenessFacts
skipped = record {
  tool_command_failures_empty = true;
  inputs_empty = false;
  outputs_empty = true;
  skip_tests = true;
  test_summary_present = false;
  trace_evidence = some TraceEvidenceState.valid;
  trace_roots_empty = false;
  in_scope_claim = true;
  any_dal_claim = true;
  compliance_reports_complete = true;
  signature_planned = false;
}

derive-IsSubstantiated_example : IsSubstantiated skipped (derive skipped)
derive-IsSubstantiated_example = derive-IsSubstantiated skipped
