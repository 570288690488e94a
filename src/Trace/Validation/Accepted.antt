-- ===== src/Trace/Validation/Accepted.antt =====
-- What accepted trace entries satisfy.
use evidence.Prelude.{Str, codes, Bool, true, some, List, [], ◌∷◌, All, str_ord, ◌≡◌}
use evidence.Policy.{TracePolicy}
use evidence.Trace.Entries.{HlrEntry, LlrEntry, TestEntry, DerivedEntry}
use evidence.Trace.Register.{Registration, register_all, no_items, registrations}
use evidence.Trace.Register.Accepted.{IsRegistered}
use evidence.Trace.Assurance.Listed.{SurfacesListed}
use evidence.Trace.Links.Sound.{Unrepeated}
use evidence.Trace.Links.Traced.{HlrMeets, LlrMeets, Derived}
use evidence.Trace.Validation.Parents.{HasParent}

-- No two of the registrations have the same uid, whether or not they have an owner.
abbrev pub UidsApart : List Registration → Type 0
UidsApart [] = Unit
UidsApart (r ∷ rs) = All (λ x. (u : Str) → r.uid ≡ some u → x.uid ≡ some u → ⊥) rs × UidsApart rs

-- Entries that may be reported on: registered without conflict, with what the policy demands, and
-- with links that name existing parents of the right kind and owner, none twice.
pub record IsTraced (is_uuid : Str → Bool) (sys hlrs : List HlrEntry) (llrs : List LlrEntry)
    (tests : List TestEntry) (derived : List DerivedEntry) (policy : TracePolicy) : Type 0 where
  pub surfaces : policy.require_hlr_surface_bijection ≡ true → SurfacesListed hlrs
  pub registered :
      IsRegistered is_uuid policy
        (register_all is_uuid policy no_items (registrations sys hlrs llrs tests derived))
        (registrations sys hlrs llrs tests derived)
  -- Entries without an owner are not registered, so this rests on the demand for owners.
  pub uids_apart :
      policy.require_owners ≡ true → UidsApart (registrations sys hlrs llrs tests derived)
  pub hlrs_verified : All (HlrMeets policy) hlrs
  pub llrs_verified : All (LlrMeets policy) llrs
  pub tests_unrepeated : All (λ t. Unrepeated [] t.traces_to) tests
  pub derived_complete : All (Derived policy) derived
  pub hlr_parents :
      All
        (λ r.
          All
            (HasParent (λ x. x.uid) (λ x. x.owner) (codes "HLR") (codes "SYS") r.owner sys)
            r.traces_to)
        hlrs
  pub llr_parents :
      All
        (λ r.
          All
            (HasParent (λ x. x.uid) (λ x. x.owner) (codes "LLR") (codes "HLR") r.owner hlrs)
            r.traces_to)
        llrs
  pub test_parents :
      All
        (λ t.
          All
            (HasParent (λ x. x.uid) (λ x. x.owner) (codes "TEST") (codes "LLR") t.owner llrs)
            t.traces_to)
        tests
