-- ===== src/Compliance/Coverage.antt =====
-- Structural coverage against the gates, and the types of a verdict:
-- crates/evidence-core/src/compliance/coverage_verdict.rs and report.rs. A percentage is the bits
-- of its `f64`; how it compares and prints is a parameter.
use evidence.Prelude.{
  ℕ, Str, codes, Bool, Option, none, some, List, [], ◌∷◌, ◌++◌, is_some, if◌then◌else◌,
}
use evidence.Corpus.Render.{show_nat}

pub data ObjectiveStatusKind : Type 0 where
  met not_met partial not_applicable manual_review_required : ObjectiveStatusKind

pub record CrateEvidence : Type 0 where
  pub has_trace_data : Bool
  pub trace_validation_passed : Bool
  pub has_test_results : Bool
  pub tests_passed : Option Bool
  pub has_coverage_data : Bool
  pub has_per_test_outcomes : Bool
  pub coverage_statement_percent : Option ℕ
  pub coverage_branch_percent : Option ℕ
  pub coverage_disposition : Option Str

pub record Verdict : Type 0 where
  pub status : ObjectiveStatusKind
  pub evidence_refs : List Str
  pub note : Option Str

-- `obs < f64::from(min)`, and `{obs:.2}`.
pub record FloatOps : Type 0 where
  pub is_below : ℕ → ℕ → Bool
  pub show_percent : ℕ → Str

pub data CoverageDimension : Type 0 where
  statement branch : CoverageDimension

abbrev pub dimension_str : CoverageDimension → Str
dimension_str CoverageDimension.statement = codes "statement"
dimension_str CoverageDimension.branch = codes "branch"

abbrev pub verdict : ObjectiveStatusKind → List Str → Option Str → Verdict
verdict s refs n = record { status = s; evidence_refs = refs; note = n }

-- The signs outside ASCII, as their bytes.
abbrev pub at_least_sign : Str
at_least_sign = 0xE2 ∷ 0x89 ∷ 0xA5 ∷ []

abbrev pub dash_sign : Str
dash_sign = 0xE2 ∷ 0x80 ∷ 0x94 ∷ []

abbrev pub coverage_files : List Str
coverage_files = codes "coverage/coverage_summary.json" ∷ codes "coverage/lcov.info" ∷ []

-- `{obs:.2}% ≥ {min}% engineering gate`
abbrev pub above_gate : FloatOps → ℕ → ℕ → Str
above_gate f obs min =
    f.show_percent obs
    ++ codes "% "
    ++ at_least_sign
    ++ codes " "
    ++ show_nat min
    ++ codes "% engineering gate"

abbrev pub recorded : Option Str → Str
recorded disposition = if is_some disposition then codes " (disposition recorded)" else []

abbrev pub gate_met : FloatOps → ℕ → ℕ → CoverageDimension → Option Str → Verdict
gate_met f obs min CoverageDimension.statement (some _) =
    verdict ObjectiveStatusKind.met coverage_files (
      some (
        codes "statement coverage "
        ++ above_gate f obs min
        ++ codes "; uncovered-structure analysis/disposition recorded"))
gate_met f obs min CoverageDimension.statement none =
    verdict ObjectiveStatusKind.manual_review_required coverage_files (
      some (
        codes "statement coverage "
        ++ above_gate f obs min
        ++ codes "; the percentage is an engineering metric "
        ++ dash_sign
        ++ codes " the objective closes only with documented analysis/disposition of uncovered "
        ++ codes "structure and tool qualification evidence"))
gate_met f obs min CoverageDimension.branch disposition =
    verdict ObjectiveStatusKind.manual_review_required coverage_files (
      some (
        codes "LLVM branch coverage "
        ++ above_gate f obs min
        ++ codes " approximates decision coverage; approximate evidence cannot close the objective"
        ++ recorded disposition
        ++ codes " "
        ++ dash_sign
        ++ codes " independent review of the approximation plus tool qualification evidence "
        ++ codes "required"))

abbrev pub gate_missed : FloatOps → ℕ → ℕ → CoverageDimension → Verdict
gate_missed f obs min dimension = verdict ObjectiveStatusKind.partial coverage_files (
    some (
      dimension_str dimension
      ++ codes " coverage "
      ++ f.show_percent obs
      ++ codes "% below "
      ++ show_nat min
      ++ codes "% engineering gate; uncovered structure requires documented "
      ++ codes "analysis/disposition before the objective can close"))

unfoldable pub coverage_verdict :
    FloatOps → Option ℕ → Option ℕ → CoverageDimension → Option Str → Verdict
coverage_verdict f none threshold dimension disposition =
    verdict ObjectiveStatusKind.not_met []
      (some (codes "no " ++ dimension_str dimension ++ codes "-coverage data in bundle"))
coverage_verdict f (some obs) (some min) dimension disposition =
    if f.is_below obs min
    then gate_missed f obs min dimension
    else gate_met f obs min dimension disposition
coverage_verdict f (some obs) none dimension disposition =
    verdict ObjectiveStatusKind.manual_review_required coverage_files (
      some (
        dimension_str dimension
        ++ codes " coverage "
        ++ f.show_percent obs
        ++ codes "% (no engineering gate applies at this level); a percentage alone cannot close "
        ++ codes "the objective "
        ++ dash_sign
        ++ codes " analysis/disposition of uncovered structure and tool qualification review "
        ++ codes "required"))
