-- ===== src/Trace/Validation.antt =====
-- `validate_trace_links_with_policy` of crates/evidence-core/src/trace/validation.rs.
pub mod Parents
pub mod Accepted
use evidence.Prelude.{
  Str, Bool, false, Option, none, some, List, [], ◌∷◌, ◌++◌, Result, ok, err, ◌>>◌, if◌then◌else◌,
}
use evidence.Policy.{TracePolicy}
use evidence.Trace.Entries.{HlrEntry, LlrEntry, TestEntry, DerivedEntry}
use evidence.Trace.Errors.{LinkError, TraceValidationError}
use evidence.Trace.Register.{Registry, register_all, no_items, registrations}
use evidence.Trace.Surfaces.{surface_errors}
use evidence.Trace.Assurance.{AssuranceBijections, from_graph, from_entries}
use evidence.Corpus.Legacy.{graph_from_trace_parts}
use evidence.Trace.Links.{hlr_errors, llr_errors, test_errors, derived_errors}

-- The errors of every entry, in order.
unfoldable pub each_error : {A : Type 0} → (A → List LinkError) → List A → List LinkError
each_error f [] = []
each_error f (x ∷ xs) = f x ++ each_error f xs

-- The mappings of the graph, or those of the HLRs when the entries make no graph.
unfoldable pub mappings_of :
    List HlrEntry
    → List HlrEntry
    → List LlrEntry
    → List TestEntry
    → List DerivedEntry
    → AssuranceBijections
unfolding graph_from_trace_parts from_graph from_entries
mappings_of sys hlrs llrs tests derived =
    elim (graph_from_trace_parts sys hlrs llrs tests derived) [
      | ok graph ↦ from_graph graph
      | err _ ↦ from_entries hlrs
    ]

unfoldable pub link_errors :
    (Str → Bool)
    → Registry
    → List HlrEntry
    → List HlrEntry
    → List LlrEntry
    → List TestEntry
    → List DerivedEntry
    → TracePolicy
    → List LinkError
unfolding mappings_of each_error hlr_errors llr_errors test_errors derived_errors surface_errors
link_errors is_uuid reg sys hlrs llrs tests derived policy =
    (if policy.require_hlr_surface_bijection
      then surface_errors (mappings_of sys hlrs llrs tests derived).surface_claimants
      else [])
    ++ (each_error (hlr_errors is_uuid reg.uid_index policy) hlrs
        ++ (each_error (llr_errors is_uuid reg.uid_index policy) llrs
            ++ (each_error (test_errors is_uuid reg.uid_index) tests
                ++ each_error (derived_errors policy) derived)))

abbrev pub fail_register : List Str → Result TraceValidationError (Unit {0})
fail_register [] = ok tt
fail_register (e ∷ es) = err (TraceValidationError.register_failed (e ∷ es))

abbrev pub fail_links : List LinkError → Result TraceValidationError (Unit {0})
fail_links [] = ok tt
fail_links (e ∷ es) = err (TraceValidationError.link_failed (e ∷ es))

unfoldable pub validate_trace_links_with_policy :
    (Str → Bool)
    → List HlrEntry
    → List HlrEntry
    → List LlrEntry
    → List TestEntry
    → List DerivedEntry
    → TracePolicy
    → Result TraceValidationError (Unit {0})
unfolding registrations register_all link_errors
validate_trace_links_with_policy is_uuid sys hlrs llrs tests derived policy =
    let reg = register_all is_uuid policy no_items (registrations sys hlrs llrs tests derived) in
    fail_register reg.register_errors
    >> fail_links (link_errors is_uuid reg sys hlrs llrs tests derived policy)

-- `TracePolicy::default()`, the derived one.
abbrev pub default_policy : TracePolicy
default_policy = record {
  require_uids = false;
  require_owners = false;
  require_hlr_verification_methods = false;
  require_llr_verification_methods = false;
  require_derived_rationale = false;
  require_hlr_sys_trace = false;
  require_hlr_surface_bijection = false;
  require_derived_safety_impact = false;
  require_derived_disposition = false;
  require_derived_reviewed = false;
}

unfoldable pub validate_trace_links :
    (Str → Bool)
    → List HlrEntry
    → List LlrEntry
    → List TestEntry
    → Result TraceValidationError (Unit {0})
unfolding validate_trace_links_with_policy
validate_trace_links is_uuid hlrs llrs tests =
    validate_trace_links_with_policy is_uuid [] hlrs llrs tests [] default_policy
