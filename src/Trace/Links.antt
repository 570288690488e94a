-- ===== src/Trace/Links.antt =====
-- The link phase of trace validation: `check_link` of crates/evidence-core/src/trace/validation.rs
-- and the checks of each kind of entry.
pub mod Sound
pub mod Traced
use evidence.Prelude.{
  Str, codes, Bool, true, false, not, ◌&&◌, ◌||◌, Option, none, some, List, [], ◌∷◌, ◌++◌, contains,
  str_eq, str_ord, if◌then◌else◌,
}
use evidence.BTreeMap
use evidence.BTreeMap.{BTreeMap}
use evidence.Policy.{TracePolicy}
use evidence.Trace.Entries.{HlrEntry, LlrEntry, TestEntry, DerivedEntry}
use evidence.Trace.Errors.{LinkError}
use evidence.Trace.Register.{ItemKey}

abbrev pub or_unknown : Option Str → Str
or_unknown none = codes "UNKNOWN"
or_unknown (some owner) = owner

-- The two patterns of the `match` over (source kind, target kind).
abbrev pub is_pair : Str → Str → Str → Str → Bool
is_pair source target source_kind target_kind =
    str_eq source_kind source && str_eq target_kind target

unfoldable pub ownership_holds : Str → Str → Str → Str → Bool
ownership_holds source_kind target_kind s_owner t_owner =
    if is_pair (codes "HLR") (codes "SYS") source_kind target_kind
      || is_pair (codes "LLR") (codes "HLR") source_kind target_kind
    then str_eq s_owner t_owner
      || (str_eq t_owner (codes "soi") || str_eq t_owner (codes "project"))
    else if is_pair (codes "TEST") (codes "LLR") source_kind target_kind
    then str_eq s_owner t_owner
    else true

unfoldable pub check_link_target : Str → Str → Option Str → Str → Str → ItemKey → Option LinkError
unfolding ownership_holds
check_link_target source_kind source_id source_owner link expected
      (target_kind, (target_owner, target_id)) =
    if not (str_eq target_kind expected)
    then some (LinkError.wrong_target_kind source_kind source_id link expected target_kind)
    else if not (ownership_holds source_kind expected (or_unknown source_owner) target_owner)
    then some (
        LinkError.ownership_violation source_kind source_id (or_unknown source_owner) expected
          target_id target_owner)
    else none

unfoldable pub check_found : Str → Str → Option Str → Str → Str → Option ItemKey → Option LinkError
unfolding check_link_target
check_found source_kind source_id source_owner link expected none =
    some (LinkError.dangling_link source_kind source_id link expected)
check_found source_kind source_id source_owner link expected (some target) =
    check_link_target source_kind source_id source_owner link expected target

abbrev pub opt_list : Option LinkError → List LinkError
opt_list none = []
opt_list (some e) = e ∷ []

-- `errors.push(e)` under a condition.
abbrev pub error_if : Bool → LinkError → List LinkError
error_if test e = if test then e ∷ [] else []

abbrev pub is_empty {ℓ} : {A : Type ℓ} → List A → Bool
is_empty [] = true
is_empty (x ∷ xs) = false

-- `as_ref().map(|s| s.is_empty()).unwrap_or(true)`
abbrev pub is_blank : Option Str → Bool
is_blank none = true
is_blank (some s) = is_empty s

-- `reviewed != Some(true)`
abbrev pub is_unreviewed : Option Bool → Bool
is_unreviewed (some true) = false
is_unreviewed _ = true

module _ (is_uuid : Str → Bool) (uid_index : BTreeMap Str ItemKey) where
  unfoldable pub check_link : Str → Str → Option Str → Str → Str → Option LinkError
  unfolding check_found
  check_link source_kind source_id source_owner link expected =
      if not (is_uuid link)
      then some (LinkError.invalid_link_uuid source_kind source_id link)
      else check_found source_kind source_id source_owner link expected
          (BTreeMap.get link uid_index)

  -- The loop over `traces_to`, with the links seen so far.
  unfoldable pub trace_errors : Str → Str → Option Str → Str → List Str → List Str → List LinkError
  unfolding check_link
  trace_errors source_kind source_id source_owner expected seen [] = []
  trace_errors source_kind source_id source_owner expected seen (link ∷ links) =
      error_if (contains seen link) (LinkError.duplicate_trace_link source_kind source_id link)
      ++ (opt_list (check_link source_kind source_id source_owner link expected)
          ++ trace_errors source_kind source_id source_owner expected (link ∷ seen) links)

  unfoldable pub hlr_errors : TracePolicy → HlrEntry → List LinkError
  unfolding trace_errors
  hlr_errors policy r =
      error_if (policy.require_hlr_verification_methods && is_empty r.verification_methods)
        (LinkError.missing_verification_methods (codes "HLR") r.id)
      ++ (error_if (policy.require_hlr_sys_trace && is_empty r.traces_to)
            (LinkError.missing_hlr_sys_trace r.id)
          ++ trace_errors (codes "HLR") r.id r.owner (codes "SYS") [] r.traces_to)

  unfoldable pub llr_errors : TracePolicy → LlrEntry → List LinkError
  unfolding trace_errors
  llr_errors policy r =
      error_if (is_empty r.traces_to) (LinkError.llr_missing_parent_links r.id)
      ++ (error_if (policy.require_llr_verification_methods && is_empty r.verification_methods)
            (LinkError.missing_verification_methods (codes "LLR") r.id)
          ++ trace_errors (codes "LLR") r.id r.owner (codes "HLR") [] r.traces_to)

  unfoldable pub test_errors : TestEntry → List LinkError
  unfolding trace_errors
  test_errors t = trace_errors (codes "TEST") t.id t.owner (codes "LLR") [] t.traces_to

unfoldable pub derived_errors : TracePolicy → DerivedEntry → List LinkError
derived_errors policy d =
    error_if (policy.require_derived_rationale && is_blank d.rationale)
      (LinkError.derived_missing_rationale d.id)
    ++ (error_if (policy.require_derived_safety_impact && is_blank d.safety_impact)
          (LinkError.derived_missing_safety_impact d.id)
        ++ (error_if (policy.require_derived_disposition && is_blank d.disposition)
              (LinkError.derived_missing_disposition d.id)
            ++ error_if (policy.require_derived_reviewed && is_unreviewed d.reviewed)
                (LinkError.derived_unreviewed d.id)))
