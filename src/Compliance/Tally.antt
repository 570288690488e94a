-- ===== src/Compliance/Tally.antt =====
-- The summary of a report against its rows.
use evidence.Prelude.{
  ℕ, ◌+◌, ◌-◌, ◌<◌, ◌≤◌, ◌^◌, suc, ◌==◌, ◌↔◌, Bool, true, false, none, List, [], ◌∷◌, ◌++◌, map,
  length, length-append, Str, ◌≡◌, refl, sym, ap, ◌∙◌, arith, if◌then◌else◌,
}
use mathlib.Core.List.{append-nil, append_assoc, map-append}
use evidence.Policy.{Dal}
use evidence.Policy.Assurance.{AssuranceLevel, effective_policy_dal}
use evidence.Compliance.Objectives.{Objective, applicability_for, objectives_table}
use evidence.Compliance.Coverage.{ObjectiveStatusKind, CrateEvidence, Verdict, FloatOps, verdict}
use evidence.Compliance.Status.{determine_objective_status}
use evidence.Compliance.Judged.{IsJudged, determine_objective_status-IsJudged}
use evidence.Compliance.Generator.{
  ObjectiveStatus, ComplianceReport, Collation, collate_one, collate, no_rows, is_applicable,
  objective_verdict, generate_compliance_report, push_row, count_status, count_applicable,
  status_row,
}

abbrev status_rank : ObjectiveStatusKind → ℕ
status_rank ObjectiveStatusKind.met = 0
status_rank ObjectiveStatusKind.not_met = 1
status_rank ObjectiveStatusKind.partial = 2
status_rank ObjectiveStatusKind.not_applicable = 3
status_rank ObjectiveStatusKind.manual_review_required = 4

abbrev has_kind : ObjectiveStatusKind → ObjectiveStatus → Bool
has_kind k row = status_rank row.status == status_rank k

abbrev is_row_applicable : ObjectiveStatus → Bool
is_row_applicable row = row.applicable

abbrev one_if : Bool → ℕ
one_if b = if b then 1 else 0

abbrev pub count_where : (ObjectiveStatus → Bool) → List ObjectiveStatus → ℕ
count_where p [] = 0
count_where p (row ∷ rows) = one_if (p row) + count_where p rows

count_where-push :
    (p : ObjectiveStatus → Bool) (rows : List ObjectiveStatus) (row : ObjectiveStatus)
    → count_where p (rows ++ (row ∷ [])) ≡ count_where p rows + one_if (p row)
count_where-push p [] row = omega arith
count_where-push p (x ∷ rows) row = omega (arith, count_where-push p rows row)

-- What the counters say of the rows that are pushed so far.
pub record IsCollated (c : Collation) : Type 0 where
  pub met : c.met ≡ count_where (has_kind ObjectiveStatusKind.met) c.objectives
  pub not_met : c.not_met ≡ count_where (has_kind ObjectiveStatusKind.not_met) c.objectives
  pub partial : c.partial ≡ count_where (has_kind ObjectiveStatusKind.partial) c.objectives
  pub manual :
      c.manual_review_required
      ≡ count_where (has_kind ObjectiveStatusKind.manual_review_required) c.objectives
  pub applicable : c.applicable_count ≡ count_where is_row_applicable c.objectives
  pub sum : c.applicable_count ≡ c.met + c.not_met + c.partial + c.manual_review_required
  pub bound : c.applicable_count ≤ length c.objectives

module _ (c : Collation) (i : IsCollated c) (row : ObjectiveStatus)
    (h : suc (length c.objectives) < 2 ^ 32) where
  step :
      (s : ObjectiveStatusKind) (b : Bool)
      → row.status ≡ s
      → row.applicable ≡ b
      → ((s ≡ ObjectiveStatusKind.not_applicable) ↔ (b ≡ false))
      → IsCollated (push_row row (count_status s (count_applicable b c)))
  step s b es eb hb = record {
    met = ground (
      arith,
      hb,
      count_where-push (has_kind ObjectiveStatusKind.met) c.objectives row,
      i.met,
      i.sum,
      i.bound,
    );
    not_met = ground (
      arith,
      hb,
      count_where-push (has_kind ObjectiveStatusKind.not_met) c.objectives row,
      i.not_met,
      i.sum,
      i.bound,
    );
    partial = ground (
      arith,
      hb,
      count_where-push (has_kind ObjectiveStatusKind.partial) c.objectives row,
      i.partial,
      i.sum,
      i.bound,
    );
    manual = ground (
      arith,
      hb,
      count_where-push (has_kind ObjectiveStatusKind.manual_review_required) c.objectives row,
      i.manual,
      i.sum,
      i.bound,
    );
    applicable = ground (
      arith,
      hb,
      count_where-push is_row_applicable c.objectives row,
      i.applicable,
      i.sum,
      i.bound,
    );
    sum = ground (arith, hb, i.sum, i.bound);
    bound = ground (arith, hb, length-append c.objectives (row ∷ []), i.bound);
  }

length-map {ℓ κ} :
    {A : Type ℓ} {B : Type κ} (f : A → B) (xs : List A) → length (map f xs) ≡ length xs
length-map f [] = refl
length-map f (x ∷ xs) = ap suc (length-map f xs)

keeps_rows :
    (s : ObjectiveStatusKind) (b : Bool) (c : Collation)
    → (count_status s (count_applicable b c)).objectives ≡ c.objectives
keeps_rows s b c = ground arith

module _ (v : Verdict) (p : IsJudged v) where
  applicable_iff :
      (b : Bool)
      → ((if b then v else verdict ObjectiveStatusKind.not_applicable [] none).status
          ≡ ObjectiveStatusKind.not_applicable)
        ↔ (b ≡ false)
  applicable_iff true = ((λ h. absurd (p h)), (λ h. absurd (cc)))
  applicable_iff false = ((λ h. refl), (λ h. refl))

verdict_applicable :
    (f : FloatOps) (dal : Dal) (e : CrateEvidence) (obj : Objective)
    → ((objective_verdict f obj dal e).status ≡ ObjectiveStatusKind.not_applicable)
      ↔ (is_applicable (applicability_for obj dal) ≡ false)
verdict_applicable f dal e obj =
    applicable_iff (determine_objective_status f obj dal e)
      (determine_objective_status-IsJudged f obj dal e) (is_applicable (applicability_for obj dal))

-- The row of an objective repeats it.
abbrev name_of : ObjectiveStatus → Str × Str × Str
name_of row = (row.objective_id, row.table, row.title)

abbrev name_in : Objective → Str × Str × Str
name_in obj = (obj.id, obj.table, obj.title)

module _ (f : FloatOps) (dal : Dal) (e : CrateEvidence) where
  abbrev row_of : Objective → ObjectiveStatus
  row_of obj = status_row obj (applicability_for obj dal) (objective_verdict f obj dal e)

  collate_one-IsCollated :
      (obj : Objective) (c : Collation)
      → suc (length c.objectives) < 2 ^ 32
      → IsCollated c
      → IsCollated (collate_one f dal e obj c)
  unfolding collate_one
  collate_one-IsCollated obj c h i =
      step c i (row_of obj) h (objective_verdict f obj dal e).status
        (is_applicable (applicability_for obj dal)) refl refl (verdict_applicable f dal e obj)

  collate_one-rows :
      (obj : Objective) (c : Collation)
      → (collate_one f dal e obj c).objectives ≡ c.objectives ++ (row_of obj ∷ [])
  unfolding collate_one
  collate_one-rows obj c =
      ap (λ xs. xs ++ (row_of obj ∷ []))
        (keeps_rows (objective_verdict f obj dal e).status
          (is_applicable (applicability_for obj dal)) c)

  collate-IsCollated :
      (objs : List Objective) (c : Collation)
      → length c.objectives + length objs < 2 ^ 32 - 1
      → IsCollated c
      → IsCollated (collate f dal e objs c)
  unfolding collate
  collate-IsCollated [] c h i = i
  collate-IsCollated (obj ∷ objs) c h i =
      collate-IsCollated objs (collate_one f dal e obj c)
        (omega
          (arith, ap length (collate_one-rows obj c), length-append c.objectives (row_of obj ∷ [])))
        (collate_one-IsCollated obj c (omega arith) i)

  collate_names :
      (objs : List Objective) (c : Collation)
      → map name_of (collate f dal e objs c).objectives
        ≡ map name_of c.objectives ++ map name_in objs
  unfolding collate
  collate_names [] c = sym (append-nil (map name_of c.objectives))
  collate_names (obj ∷ objs) c =
      collate_names objs (collate_one f dal e obj c)
      ∙ ap (λ xs. map name_of xs ++ map name_in objs) (collate_one-rows obj c)
      ∙ ap (λ xs. xs ++ map name_in objs) (map-append name_of c.objectives (row_of obj ∷ []))
      ∙ append_assoc (map name_of c.objectives) (name_in obj ∷ []) (map name_in objs)

no_rows-IsCollated : IsCollated no_rows
no_rows-IsCollated = record {
  met = refl;
  not_met = refl;
  partial = refl;
  manual = refl;
  applicable = refl;
  sum = refl;
  bound = omega arith;
}

-- The counts of a report's summary are those of its rows, and its rows are the table's.
pub record IsTallied (r : ComplianceReport) : Type 0 where
  pub names : map name_of r.objectives ≡ map name_in objectives_table
  pub total : r.summary.total_objectives ≡ length r.objectives
  pub met : r.summary.met ≡ count_where (has_kind ObjectiveStatusKind.met) r.objectives
  pub not_met : r.summary.not_met ≡ count_where (has_kind ObjectiveStatusKind.not_met) r.objectives
  pub partial : r.summary.partial ≡ count_where (has_kind ObjectiveStatusKind.partial) r.objectives
  pub manual :
      r.summary.manual_review_required
      ≡ count_where (has_kind ObjectiveStatusKind.manual_review_required) r.objectives
  pub applicable : r.summary.applicable ≡ count_where is_row_applicable r.objectives
  pub sum :
      r.summary.applicable
      ≡ r.summary.met + r.summary.not_met + r.summary.partial + r.summary.manual_review_required

-- Every report has one row for each objective of the table, in its order; its counters are the
-- numbers of rows of each kind, without a wrap; and each applicable objective is counted under
-- exactly one of met, not met, partial and manual review.
pub generate_compliance_report-IsTallied :
    (f : FloatOps) (crate_name : Str) (level : AssuranceLevel) (e : CrateEvidence)
    → IsTallied (generate_compliance_report f crate_name level e)
unfolding generate_compliance_report
generate_compliance_report-IsTallied f crate_name level e =
    let dal = effective_policy_dal level in
    let i = collate-IsCollated f dal e objectives_table no_rows (omega arith) no_rows-IsCollated in
    let n = collate_names f dal e objectives_table no_rows in
    record {
      names = n;
      total = omega (
        arith,
        length-map name_of (collate f dal e objectives_table no_rows).objectives,
        ap length n,
      );
      met = i.met;
      not_met = i.not_met;
      partial = i.partial;
      manual = i.manual;
      applicable = i.applicable;
      sum = i.sum;
    }
