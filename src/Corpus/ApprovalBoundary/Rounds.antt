-- ===== src/Corpus/ApprovalBoundary/Rounds.antt =====
-- The rounds of the gate over nodes and patches.
use mathlib.Core.List.{Memᴰ}
use evidence.Prelude.{
  ℕ, Str, Option, none, some, [], Result, ok, err, ok_injective, >>-eq-ok, some_injective, map_err,
  map_err-eq-ok, str_ord, All-imp, Option-cases, Bool-cases, ◌≡◌, ◌↔◌, inl, inr, refl, sym, ap,
  subst, ◌∙◌,
}
use evidence.BTreeMap
use evidence.BTreeMap.{BTreeMap, values}
use evidence.Corpus.Nodes.{Node, SourceRevisionNode}
use evidence.Corpus.SourcePatches.{SourcePatchRecord, SourcePatchError}
use evidence.Corpus.Graph.{CorpusGraph, get, nodes_of, source_graph}
use evidence.Corpus.Graph.Invariant.{IsWellFormed}
use evidence.Corpus.Lifecycle.{LifecycleEvaluation, LifecycleError, PatchLifecycleEvaluation}
use evidence.Corpus.Validate.{
  validate, graph_or_empty, evaluate_lifecycle, evaluate_patch_lifecycle,
}
use evidence.Corpus.AllLifecycles.{evaluate_all_lifecycles}
use evidence.Corpus.AllLifecycles.Agree.{evaluate_all_lifecycles_iff}
use evidence.Corpus.PatchApply.{PatchApplication, apply_patch}
use evidence.Corpus.EffectiveGraph.{is_approved}
use evidence.Corpus.ApprovalBoundary.Claims.{
  collect_nothing, nothing_collected, BackedNode, BackedPatch, is_approved_iff,
}
use evidence.Corpus.ApprovalBoundary.Targets.{edge_iff, requirement_iff, evaluated}
use evidence.Corpus.ApprovalBoundary.{
  edge_violations, node_violations, judge_patch, apply_to_revision, applied,
}

module _ (sha256 : Str → Str) (show_float : ℕ → Str) (g : CorpusGraph) (w : IsWellFormed g) where
  module _ (m : BTreeMap Str LifecycleEvaluation)
      (entry : (uid : Str) (e : LifecycleEvaluation)
        → (BTreeMap.get uid m ≡ some e) ↔ (evaluate_lifecycle sha256 show_float g uid ≡ ok e))
      (valid : validate sha256 show_float g ≡ ok tt) where
    pub node_iff :
        (n : Node)
        → Memᴰ n (nodes_of g)
        → (node_violations g m n ≡ ok []) ↔ BackedNode sha256 show_float g n
    unfolding node_violations
    node_iff (Node.test t) h =
        let edge = edge_iff sha256 show_float g m entry w valid t in
        (
          (λ k.
              All-imp t.edges (λ e. (edge e).0)
                (collect_nothing (edge_violations g m t) t.edges k)),
          (λ k.
              nothing_collected (edge_violations g m t) t.edges
                (All-imp t.edges (λ e. (edge e).1) k)),
        )
    node_iff (Node.requirement r) h =
        let (e, found) = evaluated sha256 show_float g m entry w valid r h in
        requirement_iff sha256 show_float g m entry r e found
    node_iff (Node.review r) h = ((λ k. tt), (λ k. refl))
    node_iff (Node.source_revision r) h = ((λ k. tt), (λ k. refl))

  module _ (m : BTreeMap Str PatchLifecycleEvaluation)
      (entry : (uid : Str) (e : PatchLifecycleEvaluation)
        → (BTreeMap.get uid m ≡ some e)
          ↔ (evaluate_patch_lifecycle sha256 show_float g uid ≡ ok e)) where
    applied_ok :
        (uid : Str) (r : Result SourcePatchError PatchApplication)
        → applied sha256 show_float g uid r ≡ ok tt
        → (a : PatchApplication) × (r ≡ ok a)
    applied_ok uid (ok a) h = (a, refl)
    applied_ok uid (err e) h = absurd (cc)

    applied_iff :
        (patch : SourcePatchRecord) (o : Option Node)
        → (apply_to_revision sha256 show_float g patch o ≡ ok tt) ↔ (
            (r : SourceRevisionNode) × (a : PatchApplication) × (o ≡ some (Node.source_revision r))
            × (apply_patch sha256 show_float
                  (graph_or_empty (source_graph patch.source_revision_uid g))
                  patch
                  (record {
                    recipe_digest = patch.recipe_digest;
                    input_digest = patch.input_digest;
                  })
                  r.media_type
                ≡ ok a))
    applied_iff patch none = ((λ h. absurd (cc)), (λ (r, a, p, q). absurd (cc p)))
    applied_iff patch (some (Node.requirement n)) =
        ((λ h. absurd (cc)), (λ (r, a, p, q). absurd (cc p)))
    applied_iff patch (some (Node.test n)) = ((λ h. absurd (cc)), (λ (r, a, p, q). absurd (cc p)))
    applied_iff patch (some (Node.review n)) = ((λ h. absurd (cc)), (λ (r, a, p, q). absurd (cc p)))
    applied_iff patch (some (Node.source_revision n)) = (
      (λ h. let (a, p) = applied_ok patch.uid _ h in (n, a, refl, p)),
      (λ (r, a, p, q).
          let same : r ≡ n = cc in
          ap (applied sha256 show_float g patch.uid) (
            subst
              (λ x.
                apply_patch sha256 show_float
                  (graph_or_empty (source_graph patch.source_revision_uid g)) patch
                  (record {
                    recipe_digest = patch.recipe_digest;
                    input_digest = patch.input_digest;
                  })
                  x.media_type
                ≡ ok a)
              same q)),
    )

    pub patch_iff :
        (patch : SourcePatchRecord)
        → (judge_patch sha256 show_float g patch (BTreeMap.get patch.uid m) ≡ ok tt)
          ↔ BackedPatch sha256 show_float g patch
    patch_iff patch = elim (Option-cases (BTreeMap.get patch.uid m)) [
      | inl p ↦ (
        (λ h. absurd (cc (rw p at h))),
        (λ (e, run, k). absurd (cc (sym p ∙ (entry patch.uid e).1 run))),
      )
      | inr (e, p) ↦
          let revision = get patch.source_revision_uid g in
          elim (Bool-cases (is_approved e.state)) [
            | inr q ↦ (
              (λ h. (
                e,
                (entry patch.uid e).0 p,
                λ a. absurd (cc (sym q ∙ (is_approved_iff e.state).1 a)),
              )),
              (λ k. rw (p, q) refl),
            )
            | inl q ↦ (
              (λ h. (
                e,
                (entry patch.uid e).0 p,
                λ a. (applied_iff patch revision).0 (rw (p, q) at h),
              )),
              (λ (x, run, k).
                  let same : x ≡ e = some_injective (sym ((entry patch.uid x).1 run) ∙ p) in
                  rw (p, q)
                    ((applied_iff patch revision).1
                      (k (ap (λ y. y.state) same ∙ (is_approved_iff e.state).0 q)))),
            )
          ]
    ]

  pub run_lifecycles :
      (m : BTreeMap Str LifecycleEvaluation)
      → evaluate_all_lifecycles sha256 show_float g ≡ ok m
      → (validate sha256 show_float g ≡ ok tt)
        × ((uid : Str) (e : LifecycleEvaluation)
            → (BTreeMap.get uid m ≡ some e) ↔ (evaluate_lifecycle sha256 show_float g uid ≡ ok e))
  unfolding evaluate_all_lifecycles
  run_lifecycles m h =
      let valid =
        map_err-eq-ok LifecycleError.invalid_graph (validate sha256 show_float g)
          (>>-eq-ok (map_err LifecycleError.invalid_graph (validate sha256 show_float g)) _ h).0 in
      let (m', run, entry) = evaluate_all_lifecycles_iff sha256 show_float g w valid in
      let same : m' ≡ m = ok_injective (sym run ∙ h) in
      (
        valid,
        λ uid e.
            subst
              (λ x.
                (BTreeMap.get uid x ≡ some e) ↔ (evaluate_lifecycle sha256 show_float g uid ≡ ok e))
              same (entry uid e),
      )
