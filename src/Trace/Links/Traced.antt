-- ===== src/Trace/Links/Traced.antt =====
-- What a link phase without errors establishes of each entry.
use evidence.Prelude.{Str, codes, Bool, true, false, [], All, str_ord, ◌≡◌}
use evidence.BTreeMap.{BTreeMap}
use evidence.Policy.{TracePolicy}
use evidence.Trace.Entries.{HlrEntry, LlrEntry, TestEntry, DerivedEntry}
use evidence.Trace.Errors.{LinkError}
use evidence.Trace.Register.{ItemKey}
use evidence.Trace.Links.Sound.{
  Resolves, Unrepeated, append-eq-nil, error_if-nil, both, trace_errors-nil,
}
use evidence.Trace.Links.{
  error_if, is_empty, is_blank, is_unreviewed, hlr_errors, llr_errors, test_errors, derived_errors,
}

-- What the policy demands of an HLR, and that it links to nothing twice.
pub record HlrMeets (policy : TracePolicy) (r : HlrEntry) : Type 0 where
  pub verified :
      policy.require_hlr_verification_methods ≡ true → is_empty r.verification_methods ≡ false
  pub traced : policy.require_hlr_sys_trace ≡ true → is_empty r.traces_to ≡ false
  pub unrepeated : Unrepeated [] r.traces_to

pub record LlrMeets (policy : TracePolicy) (r : LlrEntry) : Type 0 where
  pub verified :
      policy.require_llr_verification_methods ≡ true → is_empty r.verification_methods ≡ false
  pub traced : is_empty r.traces_to ≡ false
  pub unrepeated : Unrepeated [] r.traces_to

module _ (is_uuid : Str → Bool) (uid_index : BTreeMap Str ItemKey) where
  pub record HlrTraced (policy : TracePolicy) (r : HlrEntry) : Type 0 where
    pub meets : HlrMeets policy r
    pub links : All (Resolves is_uuid uid_index (codes "HLR") r.owner (codes "SYS")) r.traces_to

  pub record LlrTraced (policy : TracePolicy) (r : LlrEntry) : Type 0 where
    pub meets : LlrMeets policy r
    pub links : All (Resolves is_uuid uid_index (codes "LLR") r.owner (codes "HLR")) r.traces_to

  pub record TestTraced (t : TestEntry) : Type 0 where
    pub unrepeated : Unrepeated [] t.traces_to
    pub links : All (Resolves is_uuid uid_index (codes "TEST") t.owner (codes "LLR")) t.traces_to

  pub hlr_errors-HlrTraced :
      (policy : TracePolicy) (r : HlrEntry)
      → hlr_errors is_uuid uid_index policy r ≡ []
      → HlrTraced policy r
  unfolding hlr_errors
  hlr_errors-HlrTraced policy r h =
      let (a, rest) =
        append-eq-nil (error_if _ (LinkError.missing_verification_methods (codes "HLR") r.id)) _
          h in
      let (b, more) = append-eq-nil (error_if _ (LinkError.missing_hlr_sys_trace r.id)) _ rest in
      let (all, apart) =
        trace_errors-nil is_uuid uid_index (codes "HLR") r.id (codes "SYS") r.owner [] r.traces_to
          more in
      record {
        meets = record {
          verified = both _ _ (error_if-nil _ _ a);
          traced = both _ _ (error_if-nil _ _ b);
          unrepeated = apart;
        };
        links = all;
      }

  pub llr_errors-LlrTraced :
      (policy : TracePolicy) (r : LlrEntry)
      → llr_errors is_uuid uid_index policy r ≡ []
      → LlrTraced policy r
  unfolding llr_errors
  llr_errors-LlrTraced policy r h =
      let (a, rest) = append-eq-nil (error_if _ (LinkError.llr_missing_parent_links r.id)) _ h in
      let (b, more) =
        append-eq-nil (error_if _ (LinkError.missing_verification_methods (codes "LLR") r.id)) _
          rest in
      let (all, apart) =
        trace_errors-nil is_uuid uid_index (codes "LLR") r.id (codes "HLR") r.owner [] r.traces_to
          more in
      record {
        meets = record {
          verified = both _ _ (error_if-nil _ _ b);
          traced = error_if-nil _ _ a;
          unrepeated = apart;
        };
        links = all;
      }

  pub test_errors-TestTraced : (t : TestEntry) → test_errors is_uuid uid_index t ≡ [] → TestTraced t
  unfolding test_errors
  test_errors-TestTraced t h =
      let (all, apart) =
        trace_errors-nil is_uuid uid_index (codes "TEST") t.id (codes "LLR") t.owner [] t.traces_to
          h in
      record { links = all; unrepeated = apart }

-- What the policy demands of a derived requirement.
pub record Derived (policy : TracePolicy) (d : DerivedEntry) : Type 0 where
  pub rationale : policy.require_derived_rationale ≡ true → is_blank d.rationale ≡ false
  pub safety_impact : policy.require_derived_safety_impact ≡ true → is_blank d.safety_impact ≡ false
  pub disposition : policy.require_derived_disposition ≡ true → is_blank d.disposition ≡ false
  pub reviewed : policy.require_derived_reviewed ≡ true → is_unreviewed d.reviewed ≡ false

pub derived_errors-Derived :
    (policy : TracePolicy) (d : DerivedEntry) → derived_errors policy d ≡ [] → Derived policy d
unfolding derived_errors
derived_errors-Derived policy d h =
    let (a, rest) = append-eq-nil (error_if _ (LinkError.derived_missing_rationale d.id)) _ h in
    let (b, rest1) =
      append-eq-nil (error_if _ (LinkError.derived_missing_safety_impact d.id)) _ rest in
    let (c, e) = append-eq-nil (error_if _ (LinkError.derived_missing_disposition d.id)) _ rest1 in
    record {
      rationale = both _ _ (error_if-nil _ _ a);
      safety_impact = both _ _ (error_if-nil _ _ b);
      disposition = both _ _ (error_if-nil _ _ c);
      reviewed = both _ _ (error_if-nil _ _ e);
    }
