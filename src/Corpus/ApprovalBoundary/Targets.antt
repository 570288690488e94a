-- ===== src/Corpus/ApprovalBoundary/Targets.antt =====
-- The targets of a test and the claims of a requirement, as the gate judges them.
use mathlib.Core.List.{Memᴰ}
use evidence.Prelude.{
  ℕ, Str, Option, none, some, [], ok, ok_injective, >>-eq-ok, some_injective, map_err, str_ord,
  Bool-cases, ◌≡◌, ◌↔◌, inl, inr, refl, sym, ap, ◌∙◌, arith,
}
use evidence.BTreeMap
use evidence.BTreeMap.{BTreeMap, values}
use evidence.Corpus.Nodes.{
  EdgeKind, Edge, edge_kind_eq, edge_kind_eq_iff, Node, RequirementNode, TestNode,
}
use evidence.Corpus.Graph.{CorpusGraph, get, nodes_of}
use evidence.Corpus.Graph.Invariant.{IsWellFormed}
use evidence.Corpus.Lineage.Members.{node_found}
use evidence.Corpus.Lifecycle.{RequirementLifecycle, LifecycleEvaluation, LifecycleError}
use evidence.Corpus.Lifecycle.Evaluation.{evaluate_lifecycle_validated_iff}
use evidence.Corpus.Validate.{validate, evaluate_lifecycle}
use evidence.Corpus.Validate.FailClosed.{requirement_of}
use evidence.Corpus.EffectiveGraph.{is_approved}
use evidence.Corpus.ApprovalBoundary.{judge_target, edge_violations, judge_requirement}
use evidence.Corpus.ApprovalBoundary.Claims.{
  claims_nothing, nothing_claimed, IsApproved, HasClaim, is_approved_iff,
}

module _ (sha256 : Str → Str) (show_float : ℕ → Str) (g : CorpusGraph)
    (m : BTreeMap Str LifecycleEvaluation)
    (entry : (uid : Str) (e : LifecycleEvaluation)
      → (BTreeMap.get uid m ≡ some e) ↔ (evaluate_lifecycle sha256 show_float g uid ≡ ok e)) where
  judged_iff :
      (t : TestNode) (target : Str) (o : Option Node) (e : Option LifecycleEvaluation)
      → (judge_target g m t target o e ≡ ok []) ↔ (
          (n : Node) × (x : LifecycleEvaluation) × (o ≡ some n)
          × (e ≡ some x)
          × (x.state ≡ RequirementLifecycle.approved))
  judged_iff t target none e = ((λ h. absurd (cc)), (λ (n, x, p, q, r). absurd (cc p)))
  judged_iff t target (some n) none = ((λ h. absurd (cc)), (λ (n', x, p, q, r). absurd (cc q)))
  judged_iff t target (some n) (some x) = (
    (λ h. (n, x, refl, refl, (is_approved_iff x.state).0 (ground arith))),
    (λ (n', x', p, q, r).
        rw ((is_approved_iff x.state).1 (ap (λ y. y.state) (some_injective q) ∙ r)) refl),
  )

  module _ (w : IsWellFormed g) (valid : validate sha256 show_float g ≡ ok tt) where
    -- An approved requirement is a node.
    target_found :
        (uid : Str) (e : LifecycleEvaluation)
        → evaluate_lifecycle sha256 show_float g uid ≡ ok e
        → (r : RequirementNode) × (get uid g ≡ some (Node.requirement r))
    unfolding evaluate_lifecycle
    target_found uid e h =
        requirement_of sha256 g uid e
          (>>-eq-ok (map_err LifecycleError.invalid_graph (validate sha256 show_float g)) _ h).1

    pub edge_iff :
        (t : TestNode) (edge : Edge)
        → (edge_violations g m t edge ≡ ok [])
          ↔ (edge.0 ≡ EdgeKind.verifies → IsApproved sha256 show_float g edge.1)
    unfolding edge_violations
    edge_iff t (kind, target) = elim (Bool-cases (edge_kind_eq kind EdgeKind.verifies)) [
      | inr p ↦ (
        (λ h v. absurd (cc (sym p ∙ (edge_kind_eq_iff kind EdgeKind.verifies).1 v))),
        (λ k. rw (edge_violations, p) refl),
      )
      | inl p ↦
          let judged = judged_iff t target (get target g) (BTreeMap.get target m) in
          (
            (λ h v.
                let (n, x, at, q, r) = judged.0 (rw (edge_violations, p) at h) in
                (x, (entry target x).0 q, r)),
            (λ k.
                let (x, run, r) = k ((edge_kind_eq_iff kind EdgeKind.verifies).0 p) in
                let (n, found) = target_found target x run in
                rw (edge_violations, p)
                  (judged.1 (Node.requirement n, x, found, (entry target x).1 run, r))),
          )
    ]

    pub evaluated :
        (r : RequirementNode)
        → Memᴰ (Node.requirement r) (nodes_of g)
        → (e : LifecycleEvaluation) × (BTreeMap.get r.uid m ≡ some e)
    unfolding evaluate_lifecycle
    evaluated r h =
        let (e, run, named, digest, table) =
          evaluate_lifecycle_validated_iff sha256 g r.uid r w
            (node_found g (Node.requirement r) w h) in
        (e, (entry r.uid e).1 (rw valid run))

  pub requirement_iff :
      (r : RequirementNode) (e : LifecycleEvaluation)
      → BTreeMap.get r.uid m ≡ some e
      → (judge_requirement g m r (BTreeMap.get r.uid m) ≡ ok [])
        ↔ (HasClaim g r.uid → IsApproved sha256 show_float g r.uid)
  requirement_iff r e found =
      let metadata = BTreeMap.get r.uid g.trace_metadata in
      elim (Bool-cases (is_approved e.state)) [
        | inl p ↦ (
          (λ h c. (e, (entry r.uid e).0 found, (is_approved_iff e.state).0 p)),
          (λ k. rw (found, p) refl),
        )
        | inr p ↦ (
          (λ h c.
              absurd (claims_nothing g r e.state m metadata (ok_injective (rw (found, p) at h)) c)),
          (λ k.
              rw (found, p)
                (ap ok (
                  nothing_claimed g r e.state m metadata (λ c.
                    let (x, run, a) = k c in
                    let same : x ≡ e = some_injective (sym ((entry r.uid x).1 run) ∙ found) in
                    cc (sym p ∙ (is_approved_iff e.state).1 (ap (λ y. y.state) (sym same) ∙ a)))))),
        )
      ]
