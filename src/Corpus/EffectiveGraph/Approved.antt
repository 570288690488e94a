-- ===== src/Corpus/EffectiveGraph/Approved.antt =====
-- Which patches contribute to an effective graph, and how.
use evidence.Prelude.{
  ℕ, Str, Bool, false, any, ◌&&◌, Option, none, some, List, [], ◌∷◌, ◌++◌, map, filter, Result, ok,
  err, ok_injective, >>=-eq-ok, >>-eq-ok, map_err, map_err-eq-ok, try_fold, Result-cases, str_eq,
  str_ord, Bool-cases, ◌≡◌, ◌↔◌, inl, inr, refl, sym, ap, subst, ◌∙◌, arith,
}
use mathlib.Core.List.{append_assoc, append-nil}
use evidence.BTreeMap
use evidence.BTreeMap.{BTreeMap, values}
use evidence.Corpus.SourceNodes.{SourceGraph}
use evidence.Corpus.SourcePatches.{SourcePatchRecord}
use evidence.Corpus.Graph.{CorpusGraph, nodes_of, source_graph}
use evidence.Corpus.Graph.Invariant.{IsWellFormed}
use evidence.Corpus.Lifecycle.{PatchLifecycleEvaluation, PatchLifecycleError}
use evidence.Corpus.Validate.{is_revision, graph_or_empty, validate, evaluate_patch_lifecycle}
use evidence.Corpus.AllLifecycles.{evaluate_all_patch_lifecycles}
use evidence.Corpus.AllLifecycles.Agree.{evaluate_all_patch_lifecycles_iff}
use evidence.Corpus.PatchApply.{PatchBindings, PatchApplication, apply_patch}
use evidence.Corpus.EffectiveGraph.{
  EffectiveSourceGraph, EffectiveGraphError, is_approved, approved_entry, contribute,
  effective_source_graph,
}

-- Each patch applies to the graph that the one before it left.
pub data Chain (sha256 : Str → Str) (show_float : ℕ → Str) (bindings : PatchBindings)
    (media_type : Str) : SourceGraph → List SourcePatchRecord → SourceGraph → Type 0 where
  done : {g : SourceGraph} → Chain sha256 show_float bindings media_type g [] g
  then_apply :
      {g h : SourceGraph} {patch : SourcePatchRecord} {patches : List SourcePatchRecord}
      (a : PatchApplication)
      → apply_patch sha256 show_float g patch bindings media_type ≡ ok a
      → Chain sha256 show_float bindings media_type a.graph patches h
      → Chain sha256 show_float bindings media_type g (patch ∷ patches) h

Chain-subst :
    (sha256 : Str → Str) (show_float : ℕ → Str) (bindings : PatchBindings) (media_type : Str)
    (g : SourceGraph) {h k : SourceGraph} {ps qs : List SourcePatchRecord}
    → ps ≡ qs
    → h ≡ k
    → Chain sha256 show_float bindings media_type g ps h
    → Chain sha256 show_float bindings media_type g qs k
Chain-subst sha256 show_float bindings media_type g {k} {ps} same_list same_graph c =
    subst (λ x. Chain sha256 show_float bindings media_type g x k) same_list
      (subst (λ x. Chain sha256 show_float bindings media_type g ps x) same_graph c)

-- The patch's own evaluation succeeds with approval.
abbrev pub approves : Result PatchLifecycleError PatchLifecycleEvaluation → Bool
approves (ok evaluation) = is_approved evaluation.state
approves (err e) = false

-- The approved patches of a revision, in uid order.
unfoldable pub approved_patches :
    (Str → Str) → (ℕ → Str) → CorpusGraph → Str → List SourcePatchRecord
approved_patches sha256 show_float g revision_uid =
    filter
      (λ p.
        str_eq p.source_revision_uid revision_uid
        && approves (evaluate_patch_lifecycle sha256 show_float g p.uid))
      (values g.source_patches)

abbrev pub uids_of : List SourcePatchRecord → List Str
uids_of = map (λ p. p.uid)

module _ (sha256 : Str → Str) (show_float : ℕ → Str)
    (evaluations : BTreeMap Str PatchLifecycleEvaluation) (revision_uid : Str)
    (bindings : PatchBindings) (media_type : Str) where
  abbrev contributes : SourcePatchRecord → Bool
  contributes p =
      str_eq p.source_revision_uid revision_uid && approved_entry (BTreeMap.get p.uid evaluations)

  loop-Chain :
      (working : SourceGraph) (applied : List Str) (patches : List SourcePatchRecord)
      (out : SourceGraph × List Str)
      → try_fold
          (contribute sha256 show_float evaluations revision_uid bindings media_type)
          (working, applied)
          patches
        ≡ ok out
      → Chain sha256 show_float bindings media_type working (filter contributes patches) out.0
        × (out.1 ≡ applied ++ uids_of (filter contributes patches))
  unfolding try_fold contribute filter
  loop-Chain working applied [] out h =
      let same = ok_injective h in
      (
        subst (λ x. Chain sha256 show_float bindings media_type working [] x) (ap (λ x. x.0) same)
            Chain.done,
        sym (ap (λ x. x.1) same) ∙ sym (append-nil applied),
      )
  loop-Chain working applied (p ∷ patches) out h =
      elim (Bool-cases (str_eq p.source_revision_uid revision_uid)) [
        | inr b ↦ rw b (loop-Chain working applied patches out (rw (b, try_fold) at h))
        | inl b ↦ elim (Bool-cases (approved_entry (BTreeMap.get p.uid evaluations))) [
          | inr q ↦ rw (b, q) (loop-Chain working applied patches out (rw (b, q, try_fold) at h))
          | inl q ↦
              elim (Result-cases (apply_patch sha256 show_float working p bindings media_type)) [
                | inr (e, run) ↦ absurd (cc (rw (b, q, run, try_fold) at h))
                | inl (a, run) ↦
                    let (chain, uids) =
                      loop-Chain a.graph (applied ++ p.uid ∷ []) patches out
                        (rw (b, q, run, try_fold) at h) in
                    rw (b, q)
                      (
                        Chain.then_apply a run chain,
                        uids
                            ∙ append_assoc applied (p.uid ∷ [])
                                (uids_of (filter contributes patches)),
                      )
              ]
        ]
      ]

filter-ext :
    {A : Type 0} (p q : A → Bool) (xs : List A) → ((x : A) → p x ≡ q x) → filter p xs ≡ filter q xs
unfolding filter
filter-ext p q [] h = refl
filter-ext p q (x ∷ xs) h = ground (arith, h x, filter-ext p q xs h)

same_approval :
    (o : Option PatchLifecycleEvaluation) (r : Result PatchLifecycleError PatchLifecycleEvaluation)
    → ((e : PatchLifecycleEvaluation) → (o ≡ some e) ↔ (r ≡ ok e))
    → approved_entry o ≡ approves r
same_approval none (ok e) h = absurd (cc ((h e).1 refl))
same_approval none (err e) h = refl
same_approval (some e) (err x) h = absurd (cc ((h e).0 refl))
same_approval (some e) (ok x) h = ap (λ y. is_approved y.state) (ok_injective (sym ((h e).0 refl)))

evaluated-validate :
    (sha256 : Str → Str) (show_float : ℕ → Str) (g : CorpusGraph)
    (m : BTreeMap Str PatchLifecycleEvaluation)
    → evaluate_all_patch_lifecycles sha256 show_float g ≡ ok m
    → validate sha256 show_float g ≡ ok tt
unfolding evaluate_all_patch_lifecycles
evaluated-validate sha256 show_float g m h =
    map_err-eq-ok PatchLifecycleError.invalid_graph (validate sha256 show_float g)
      (>>-eq-ok (map_err PatchLifecycleError.invalid_graph (validate sha256 show_float g)) _ h).0

-- The graph is what the approved patches of the revision make of the committed one.
pub record IsApproved (sha256 : Str → Str) (show_float : ℕ → Str) (g : CorpusGraph)
    (revision_uid : Str) (bindings : PatchBindings) (media_type : Str) (out : EffectiveSourceGraph)
    : Type 0 where
  pub valid : validate sha256 show_float g ≡ ok tt
  pub revision : out.source_revision_uid ≡ revision_uid
  pub chain :
      Chain sha256 show_float bindings media_type
        (graph_or_empty (source_graph revision_uid g))
        (approved_patches sha256 show_float g revision_uid)
        out.graph
  pub proof : out.applied_patch_uids ≡ uids_of (approved_patches sha256 show_float g revision_uid)

-- When an effective graph of a revision is computed from a well-formed graph, the whole graph
-- validates, the effective graph comes from the committed one by applying, in uid order and each to
-- the result of the one before, exactly the patches that are bound to the revision and whose own
-- evaluation approves them, and their uids are recorded in this order.
pub effective_source_graph-IsApproved :
    (sha256 : Str → Str) (show_float : ℕ → Str) (g : CorpusGraph) (revision_uid : Str)
    (bindings : PatchBindings) (media_type : Str) (out : EffectiveSourceGraph)
    → IsWellFormed g
    → effective_source_graph sha256 show_float g revision_uid bindings media_type ≡ ok out
    → IsApproved sha256 show_float g revision_uid bindings media_type out
unfolding effective_source_graph approved_patches
effective_source_graph-IsApproved sha256 show_float g revision_uid bindings media_type out w h =
    let (m, evaluated, rest) =
      >>=-eq-ok
        (map_err EffectiveGraphError.lifecycle (evaluate_all_patch_lifecycles sha256 show_float g))
        _ h in
    let ran = map_err-eq-ok EffectiveGraphError.lifecycle _ evaluated in
    let valid = evaluated-validate sha256 show_float g m ran in
    let (m', run, entry) = evaluate_all_patch_lifecycles_iff sha256 show_float g w valid in
    let same : m' ≡ m = ok_injective (sym run ∙ ran) in
    let picked =
      filter-ext (contributes sha256 show_float m revision_uid bindings media_type)
        (λ p.
          str_eq p.source_revision_uid revision_uid
          && approves (evaluate_patch_lifecycle sha256 show_float g p.uid))
        (values g.source_patches)
        (λ p.
          ap (λ b. str_eq p.source_revision_uid revision_uid && b)
            (same_approval (BTreeMap.get p.uid m) _ (λ e.
              subst
                (λ x.
                  (BTreeMap.get p.uid x ≡ some e)
                  ↔ (evaluate_patch_lifecycle sha256 show_float g p.uid ≡ ok e))
                same (entry p.uid e)))) in
    elim (Bool-cases (any (is_revision revision_uid) (nodes_of g))) [
      | inr b ↦ absurd (cc (rw b at rest))
      | inl b ↦
          let (state, looped, last) =
            >>=-eq-ok
              (try_fold (contribute sha256 show_float m revision_uid bindings media_type)
                (graph_or_empty (source_graph revision_uid g), []) (values g.source_patches))
              _ (rw b at rest) in
          let (chain, uids) =
            loop-Chain sha256 show_float m revision_uid bindings media_type _ [] _ state looped in
          let found = ok_injective last in
          record {
            valid = valid;
            revision = sym (ap (λ x. x.source_revision_uid) found);
            chain =
                Chain-subst sha256 show_float bindings media_type
                  (graph_or_empty (source_graph revision_uid g)) picked (ap (λ x. x.graph) found)
                  chain;
            proof = sym (ap (λ x. x.applied_patch_uids) found) ∙ uids ∙ ap uids_of picked;
          }
    ]
