-- ===== src/Corpus/ApprovalBoundary/Backed.antt =====
-- What passes the gate.
use evidence.Prelude.{
  ℕ, Str, List, [], ◌∷◌, ok, ok_injective, >>=-eq-ok, map_err, map_err-eq-ok, for_each, for_each-ok,
  ok-for_each, str_ord, All, All-imp, All-mem, All-of_mem, ◌≡◌, ◌↔◌, ◌⊎◌, inl, inr, refl, sym, ap,
  subst, ◌∙◌,
}
use evidence.BTreeMap
use evidence.BTreeMap.{BTreeMap, values}
use evidence.Corpus.Graph.{CorpusGraph, nodes_of}
use evidence.Corpus.Graph.Invariant.{IsWellFormed}
use evidence.Corpus.Validate.{validate}
use evidence.Corpus.AllLifecycles.{evaluate_all_lifecycles, evaluate_all_patch_lifecycles}
use evidence.Corpus.AllLifecycles.Agree.{
  evaluate_all_lifecycles_iff, evaluate_all_patch_lifecycles_iff,
}
use evidence.Corpus.ApprovalBoundary.Claims.{
  collect_nothing, nothing_collected, sort_nothing, BackedNode, BackedPatch,
}
use evidence.Corpus.ApprovalBoundary.{
  LifecycleEnforcement, ApprovalBoundaryError, ApprovalBoundaryViolation, sort_violations, collect,
  node_violations, judge_patch, validate_effective_curated_content, validate_approval_boundary,
}
use evidence.Corpus.ApprovalBoundary.Rounds.{node_iff, patch_iff, run_lifecycles}

sorted_cases :
    (vs : List ApprovalBoundaryViolation)
    → (vs ≡ [])
      ⊎ ((x : ApprovalBoundaryViolation) × (xs : List ApprovalBoundaryViolation) × (vs ≡ x ∷ xs))
sorted_cases [] = inl refl
sorted_cases (x ∷ xs) = inr (x, xs, refl)

-- What the gate demands.
pub record IsBacked (sha256 : Str → Str) (show_float : ℕ → Str) (g : CorpusGraph) : Type 0 where
  pub valid : validate sha256 show_float g ≡ ok tt
  pub nodes : All (BackedNode sha256 show_float g) (nodes_of g)
  pub patches : All (BackedPatch sha256 show_float g) (values g.source_patches)

module _ (sha256 : Str → Str) (show_float : ℕ → Str) (g : CorpusGraph) (w : IsWellFormed g) where
  gate_sound :
      validate_approval_boundary sha256 show_float g LifecycleEnforcement.required ≡ ok tt
      → IsBacked sha256 show_float g
  unfolding validate_approval_boundary validate_effective_curated_content
  gate_sound h =
      let (m, ran, scan) =
        >>=-eq-ok
          (map_err ApprovalBoundaryError.lifecycle (evaluate_all_lifecycles sha256 show_float g)) _
          h in
      let (valid, entry) =
        run_lifecycles sha256 show_float g w m
          (map_err-eq-ok ApprovalBoundaryError.lifecycle _ ran) in
      let (found, collected, rest) =
        >>=-eq-ok (collect (node_violations g m) (nodes_of g)) _ scan in
      elim (sorted_cases (sort_violations found)) [
        | inr (v, vs, p) ↦ absurd (cc (rw p at rest))
        | inl p ↦
            let none_found = collected ∙ ap ok (sort_nothing found p) in
            let (pm, pran, each) =
              >>=-eq-ok
                (map_err ApprovalBoundaryError.patch_lifecycle
                  (evaluate_all_patch_lifecycles sha256 show_float g))
                _ (rw p at rest) in
            let (pm', prun, pentry) =
              evaluate_all_patch_lifecycles_iff sha256 show_float g w valid in
            let same : pm' ≡ pm =
              ok_injective
                (sym prun ∙ map_err-eq-ok ApprovalBoundaryError.patch_lifecycle _ pran) in
            let each' =
              subst
                (λ x.
                  for_each
                    (λ patch. judge_patch sha256 show_float g patch (BTreeMap.get patch.uid x))
                    (values g.source_patches)
                  ≡ ok tt)
                (sym same) each in
            record {
              valid = valid;
              nodes = All-of_mem (BackedNode sha256 show_float g) (nodes_of g) (λ n h.
                  (node_iff sha256 show_float g w m entry valid n h).0 (
                    All-mem (λ x. node_violations g m x ≡ ok []) (nodes_of g) n
                      (collect_nothing (node_violations g m) (nodes_of g) none_found) h));
              patches =
                  All-imp (values g.source_patches)
                    (λ p. (patch_iff sha256 show_float g w pm' pentry p).0)
                    (for_each-ok _ (values g.source_patches) each');
            }
      ]

  gate_complete :
      IsBacked sha256 show_float g
      → validate_approval_boundary sha256 show_float g LifecycleEnforcement.required ≡ ok tt
  unfolding validate_approval_boundary validate_effective_curated_content sort_violations
  gate_complete b =
      let (m, run, entry) = evaluate_all_lifecycles_iff sha256 show_float g w b.valid in
      let (pm, prun, pentry) = evaluate_all_patch_lifecycles_iff sha256 show_float g w b.valid in
      let quiet = nothing_collected (node_violations g m) (nodes_of g) (
        All-of_mem (λ x. node_violations g m x ≡ ok []) (nodes_of g)
          (λ n h.
            (node_iff sha256 show_float g w m entry b.valid n h).1
              (All-mem (BackedNode sha256 show_float g) (nodes_of g) n b.nodes h))) in
      rw (run, quiet, prun)
        (ok-for_each (λ patch. judge_patch sha256 show_float g patch (BTreeMap.get patch.uid pm))
          (values g.source_patches)
          (All-imp (values g.source_patches) (λ p. (patch_iff sha256 show_float g w pm pentry p).1)
            b.patches))

  -- On a well-formed graph the gate accepts exactly when the graph validates, every requirement that
  -- a test verifies and every requirement whose metadata names modules or emitted codes is evaluated
  -- as approved, and every patch is evaluated and, when approved, applies to the committed graph of
  -- its revision under its recorded digests.
  pub validate_approval_boundary_iff :
      (validate_approval_boundary sha256 show_float g LifecycleEnforcement.required ≡ ok tt)
      ↔ IsBacked sha256 show_float g
  validate_approval_boundary_iff = (gate_sound, gate_complete)
