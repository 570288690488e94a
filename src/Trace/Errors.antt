-- ===== src/Trace/Errors.antt =====
-- The errors of trace validation: crates/evidence-core/src/trace/validation.rs and
-- validation/link_errors.rs.
use evidence.Prelude.{Str, codes, List}

pub data LinkError : Type 0 where
  invalid_link_uuid : (source_kind source_id link : Str) → LinkError
  dangling_link : (source_kind source_id link expected_target_kind : Str) → LinkError
  wrong_target_kind : (source_kind source_id link expected found : Str) → LinkError
  ownership_violation :
      (source_kind source_id source_owner target_kind target_id target_owner : Str) → LinkError
  surface_unknown : (hlr_id surface : Str) → LinkError
  surface_unclaimed : (surface : Str) → LinkError
  missing_verification_methods : (kind id : Str) → LinkError
  missing_hlr_sys_trace : (hlr_id : Str) → LinkError
  duplicate_trace_link : (source_kind source_id link : Str) → LinkError
  llr_missing_parent_links : (llr_id : Str) → LinkError
  derived_missing_rationale : (llr_id : Str) → LinkError
  derived_missing_safety_impact : (derived_id : Str) → LinkError
  derived_missing_disposition : (derived_id : Str) → LinkError
  derived_unreviewed : (derived_id : Str) → LinkError
  other : (message : Str) → LinkError

-- `LinkError::code`
unfoldable pub link_code : LinkError → Str
link_code (invalid_link_uuid _ _ _) = codes "TRACE_INVALID_LINK_UUID"
link_code (dangling_link _ _ _ _) = codes "TRACE_DANGLING_LINK"
link_code (wrong_target_kind _ _ _ _ _) = codes "TRACE_WRONG_TARGET_KIND"
link_code (ownership_violation _ _ _ _ _ _) = codes "TRACE_OWNERSHIP_VIOLATION"
link_code (surface_unknown _ _) = codes "TRACE_HLR_SURFACE_UNKNOWN"
link_code (surface_unclaimed _) = codes "TRACE_HLR_SURFACE_UNCLAIMED"
link_code (missing_verification_methods _ _) = codes "TRACE_MISSING_VERIFICATION_METHODS"
link_code (missing_hlr_sys_trace _) = codes "TRACE_MISSING_HLR_SYS_TRACE"
link_code (duplicate_trace_link _ _ _) = codes "TRACE_DUPLICATE_TRACE_LINK"
link_code (llr_missing_parent_links _) = codes "TRACE_LLR_MISSING_PARENT_LINKS"
link_code (derived_missing_rationale _) = codes "TRACE_DERIVED_MISSING_RATIONALE"
link_code (derived_missing_safety_impact _) = codes "TRACE_DERIVED_MISSING_SAFETY_IMPACT"
link_code (derived_missing_disposition _) = codes "TRACE_DERIVED_MISSING_DISPOSITION"
link_code (derived_unreviewed _) = codes "TRACE_DERIVED_UNREVIEWED"
link_code (other _) = codes "TRACE_LINK_OTHER"

pub data TraceValidationError : Type 0 where
  register_failed : (errors : List Str) → TraceValidationError
  link_failed : (errors : List LinkError) → TraceValidationError
