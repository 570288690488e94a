-- ===== src/Policy/Laws.antt =====
-- Levels compared by what they demand, and their names.
use evidence.Prelude.{
  ℕ, ◌≤◌, Str, codes, Bool, true, Option, none, some, ok, str_eq, str_eq_iff, ◌≡◌, ◌↔◌, arith, refl,
  Bool-cases, inl, inr, ◌∙◌, ap, subst, ok_injective,
}
use evidence.Policy.{
  Dal, dal_rank, dal_str, to_uppercase, parse_upper, from_str, coverage_thresholds, TracePolicy,
  for_dal,
}

-- What is gated at the first is gated at the second at least as high.
abbrev pub GateLe : Option ℕ → Option ℕ → Type 0
GateLe none q = Unit
GateLe (some m) none = ⊥
GateLe (some m) (some n) = m ≤ n

abbrev pub Implies : Bool → Bool → Type 0
Implies p q = p ≡ true → q ≡ true

-- Each demand of the first policy is one of the second.
pub record TraceLe (p q : TracePolicy) : Type 0 where
  pub uids : Implies p.require_uids q.require_uids
  pub owners : Implies p.require_owners q.require_owners
  pub hlr_methods : Implies p.require_hlr_verification_methods q.require_hlr_verification_methods
  pub llr_methods : Implies p.require_llr_verification_methods q.require_llr_verification_methods
  pub rationale : Implies p.require_derived_rationale q.require_derived_rationale
  pub sys_trace : Implies p.require_hlr_sys_trace q.require_hlr_sys_trace
  pub bijection : Implies p.require_hlr_surface_bijection q.require_hlr_surface_bijection
  pub safety_impact : Implies p.require_derived_safety_impact q.require_derived_safety_impact
  pub disposition : Implies p.require_derived_disposition q.require_derived_disposition
  pub reviewed : Implies p.require_derived_reviewed q.require_derived_reviewed

pub record DemandsLe (x y : Dal) : Type 0 where
  pub trace : TraceLe (for_dal x).trace (for_dal y).trace
  pub structural :
      Implies (for_dal x).require_structural_coverage (for_dal y).require_structural_coverage
  pub independent :
      Implies
        (for_dal x).require_independent_verification
        (for_dal y).require_independent_verification
  pub statement :
      GateLe (coverage_thresholds x).statement_percent (coverage_thresholds y).statement_percent
  pub branch : GateLe (coverage_thresholds x).branch_percent (coverage_thresholds y).branch_percent

statement_le :
    (x y : Dal)
    → dal_rank x ≤ dal_rank y
    → GateLe (coverage_thresholds x).statement_percent (coverage_thresholds y).statement_percent
unfolding coverage_thresholds
statement_le Dal.d y h = tt
statement_le Dal.c Dal.d h = absurd (omega arith)
statement_le Dal.c Dal.c h = omega arith
statement_le Dal.c Dal.b h = omega arith
statement_le Dal.c Dal.a h = omega arith
statement_le Dal.b Dal.d h = absurd (omega arith)
statement_le Dal.b Dal.c h = absurd (omega arith)
statement_le Dal.b Dal.b h = omega arith
statement_le Dal.b Dal.a h = omega arith
statement_le Dal.a Dal.d h = absurd (omega arith)
statement_le Dal.a Dal.c h = absurd (omega arith)
statement_le Dal.a Dal.b h = absurd (omega arith)
statement_le Dal.a Dal.a h = omega arith

branch_le :
    (x y : Dal)
    → dal_rank x ≤ dal_rank y
    → GateLe (coverage_thresholds x).branch_percent (coverage_thresholds y).branch_percent
unfolding coverage_thresholds
branch_le Dal.d y h = tt
branch_le Dal.c y h = tt
branch_le Dal.b Dal.d h = absurd (omega arith)
branch_le Dal.b Dal.c h = absurd (omega arith)
branch_le Dal.b Dal.b h = omega arith
branch_le Dal.b Dal.a h = omega arith
branch_le Dal.a Dal.d h = absurd (omega arith)
branch_le Dal.a Dal.c h = absurd (omega arith)
branch_le Dal.a Dal.b h = absurd (omega arith)
branch_le Dal.a Dal.a h = omega arith

-- Whatever a level demands, of traces, coverage or independence, every more stringent level
-- demands too, and its coverage gates are at least as high.
pub for_dal_monotone : (x y : Dal) → dal_rank x ≤ dal_rank y → DemandsLe x y
unfolding for_dal coverage_thresholds
for_dal_monotone x y h = record {
  trace = record {
    uids = ground arith;
    owners = ground arith;
    hlr_methods = ground arith;
    llr_methods = ground arith;
    rationale = ground arith;
    sys_trace = ground arith;
    bijection = ground arith;
    safety_impact = ground arith;
    disposition = ground arith;
    reviewed = ground arith;
  };
  structural = ground arith;
  independent = ground arith;
  statement = statement_le x y h;
  branch = branch_le x y h;
}

parse_ok : (s u : Str) (x : Dal) → parse_upper s u ≡ ok x → u ≡ dal_str x
unfolding parse_upper
parse_ok s u x h = elim (Bool-cases (str_eq u (codes "A"))) [
  | inl p ↦
      subst (λ y. u ≡ dal_str y) (ok_injective (rw (p, parse_upper) at h))
        ((str_eq_iff u (codes "A")).0 p)
  | inr p ↦ elim (Bool-cases (str_eq u (codes "B"))) [
    | inl q ↦
        subst (λ y. u ≡ dal_str y) (ok_injective (rw (p, q, parse_upper) at h))
          ((str_eq_iff u (codes "B")).0 q)
    | inr q ↦ elim (Bool-cases (str_eq u (codes "C"))) [
      | inl r ↦
          subst (λ y. u ≡ dal_str y) (ok_injective (rw (p, q, r, parse_upper) at h))
            ((str_eq_iff u (codes "C")).0 r)
      | inr r ↦ elim (Bool-cases (str_eq u (codes "D"))) [
        | inl t ↦
            subst (λ y. u ≡ dal_str y) (ok_injective (rw (p, q, r, t, parse_upper) at h))
              ((str_eq_iff u (codes "D")).0 t)
        | inr t ↦ absurd (cc (rw (p, q, r, t, parse_upper) at h))
      ]
    ]
  ]
]

parse_name : (s : Str) (x : Dal) → parse_upper s (dal_str x) ≡ ok x
unfolding parse_upper
parse_name s Dal.a = refl
parse_name s Dal.b = refl
parse_name s Dal.c = refl
parse_name s Dal.d = refl

-- A text is read as a level exactly when its upper case is the level's name.
pub from_str_iff : (s : Str) (x : Dal) → (from_str s ≡ ok x) ↔ (to_uppercase s ≡ dal_str x)
unfolding from_str
from_str_iff s x =
    ((λ h. parse_ok s (to_uppercase s) x h), (λ e. ap (parse_upper s) e ∙ parse_name s x))
