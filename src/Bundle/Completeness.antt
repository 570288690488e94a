-- ===== src/Bundle/Completeness.antt =====
-- The completeness states of a bundle: crates/evidence-core/src/bundle/completeness.rs, with the
-- states of trace/evidence_state.rs.
pub mod Laws
mod Examples
use evidence.Prelude.{Str, Bool, true, false, not, ◌||◌, Option, none, some, List, if◌then◌else◌}

pub data CompletenessState : Type 0 where
  complete incomplete not_applicable unverifiable : CompletenessState

pub data TraceEvidenceState : Type 0 where
  not_configured : TraceEvidenceState
  not_adopted : (missing_roots : List Str) → TraceEvidenceState
  empty invalid valid : TraceEvidenceState

pub record CompletenessStates : Type 0 where
  pub capture : CompletenessState
  pub graph_validity : CompletenessState
  pub verification : CompletenessState
  pub objective_mapping : CompletenessState
  pub review_approval : CompletenessState
  pub integrity : CompletenessState
  pub reproducibility : CompletenessState
  pub tool_qualification : CompletenessState

pub record CompletenessFacts : Type 0 where
  pub tool_command_failures_empty : Bool
  pub inputs_empty : Bool
  pub outputs_empty : Bool
  pub skip_tests : Bool
  pub test_summary_present : Bool
  pub trace_evidence : Option TraceEvidenceState
  pub trace_roots_empty : Bool
  pub in_scope_claim : Bool
  pub any_dal_claim : Bool
  pub compliance_reports_complete : Bool
  pub signature_planned : Bool

unfoldable pub legacy : CompletenessStates
legacy = record {
  capture = CompletenessState.unverifiable;
  graph_validity = CompletenessState.unverifiable;
  verification = CompletenessState.unverifiable;
  objective_mapping = CompletenessState.unverifiable;
  review_approval = CompletenessState.unverifiable;
  integrity = CompletenessState.unverifiable;
  reproducibility = CompletenessState.unverifiable;
  tool_qualification = CompletenessState.unverifiable;
}

unfoldable pub derive_capture : CompletenessFacts → CompletenessState
derive_capture facts =
    if not facts.tool_command_failures_empty || facts.inputs_empty
    then CompletenessState.incomplete
    else if facts.skip_tests
    then CompletenessState.not_applicable
    else if not facts.test_summary_present
    then CompletenessState.incomplete
    else CompletenessState.complete

unfoldable pub validity_of : Option TraceEvidenceState → Bool → CompletenessState
validity_of (some TraceEvidenceState.valid) roots_empty = CompletenessState.complete
validity_of (some TraceEvidenceState.not_configured) roots_empty = CompletenessState.not_applicable
validity_of (some (TraceEvidenceState.not_adopted roots)) roots_empty = CompletenessState.incomplete
validity_of (some TraceEvidenceState.empty) roots_empty = CompletenessState.incomplete
validity_of (some TraceEvidenceState.invalid) roots_empty = CompletenessState.incomplete
validity_of none roots_empty =
    if roots_empty then CompletenessState.not_applicable else CompletenessState.unverifiable

unfoldable pub derive_graph_validity : CompletenessFacts → CompletenessState
unfolding validity_of
derive_graph_validity facts = validity_of facts.trace_evidence facts.trace_roots_empty

unfoldable pub derive_objective_mapping : CompletenessFacts → CompletenessState
derive_objective_mapping facts =
    if not facts.in_scope_claim
    then CompletenessState.not_applicable
    else if facts.compliance_reports_complete
    then CompletenessState.complete
    else CompletenessState.incomplete

unfoldable pub derive_reproducibility : CompletenessFacts → CompletenessState
derive_reproducibility facts =
    if not facts.outputs_empty
    then CompletenessState.complete
    else if facts.skip_tests
    then CompletenessState.not_applicable
    else CompletenessState.incomplete

unfoldable pub derive_tool_qualification : CompletenessFacts → CompletenessState
derive_tool_qualification facts =
    if not facts.any_dal_claim
    then CompletenessState.not_applicable
    else if facts.compliance_reports_complete
    then CompletenessState.complete
    else CompletenessState.incomplete

unfoldable pub derive : CompletenessFacts → CompletenessStates
unfolding derive_capture derive_graph_validity derive_objective_mapping derive_reproducibility
    derive_tool_qualification
derive facts = record {
  capture = derive_capture facts;
  graph_validity = derive_graph_validity facts;
  verification = CompletenessState.unverifiable;
  objective_mapping = derive_objective_mapping facts;
  review_approval = CompletenessState.not_applicable;
  integrity =
      if facts.signature_planned
      then CompletenessState.complete
      else CompletenessState.not_applicable;
  reproducibility = derive_reproducibility facts;
  tool_qualification = derive_tool_qualification facts;
}
