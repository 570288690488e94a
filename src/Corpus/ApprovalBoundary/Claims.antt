-- ===== src/Corpus/ApprovalBoundary/Claims.antt =====
-- What the gate demands of a test, a requirement and a patch, and when it finds nothing.
use evidence.Prelude.{
  ℕ, Str, true, Option, none, some, List, [], ◌∷◌, ◌++◌, Result, ok, ok_injective, >>=-eq-ok,
  str_ord, All, ◌≡◌, ◌≢◌, ◌↔◌, ◌⊎◌, inl, inr, refl, sym, ap, ◌∙◌, arith,
}
use evidence.BTreeMap
use evidence.BTreeMap.{BTreeMap, values}
use evidence.Corpus.Nodes.{EdgeKind, Node, RequirementNode, SourceRevisionNode}
use evidence.Corpus.SourcePatches.{SourcePatchRecord}
use evidence.Corpus.Graph.{CorpusGraph, RequirementMetadata, TraceMetadata, get, source_graph}
use evidence.Corpus.Lifecycle.{RequirementLifecycle, LifecycleEvaluation, PatchLifecycleEvaluation}
use evidence.Corpus.Validate.{graph_or_empty, evaluate_lifecycle, evaluate_patch_lifecycle}
use evidence.Corpus.PatchApply.{PatchApplication, apply_patch}
use evidence.Corpus.EffectiveGraph.{is_approved}
use evidence.Corpus.ApprovalBoundary.{
  ApprovalBoundaryViolation, place, sort_violations, collect, claim, ReferringArtifact, claims,
}

no_rest : {B : Type 0} (found rest : List B) → found ++ rest ≡ [] → (found ≡ []) × (rest ≡ [])
no_rest [] rest h = (refl, h)
no_rest (x ∷ found) rest h = absurd (cc)

-- Nothing is collected exactly when no round finds anything or fails.
module _ {A B E : Type 0} (f : A → Result E (List B)) where
  pub collect_nothing : (xs : List A) → collect f xs ≡ ok [] → All (λ x. f x ≡ ok []) xs
  unfolding collect
  collect_nothing [] h = tt
  collect_nothing (x ∷ xs) h =
      let (found, here, rest) = >>=-eq-ok (f x) _ h in
      let (more, there, last) = >>=-eq-ok (collect f xs) _ rest in
      let (p, q) = no_rest found more (ok_injective last) in
      (here ∙ ap ok p, collect_nothing xs (there ∙ ap ok q))

  pub nothing_collected : (xs : List A) → All (λ x. f x ≡ ok []) xs → collect f xs ≡ ok []
  unfolding collect
  nothing_collected [] a = refl
  nothing_collected (x ∷ xs) a = rw (a.0, nothing_collected xs a.1) refl

place_nonempty :
    (v : ApprovalBoundaryViolation) (ws : List ApprovalBoundaryViolation) → place v ws ≢ []
unfolding place
place_nonempty v [] = λ e. cc
place_nonempty v (w ∷ ws) = λ e. ground (arith, e)

pub sort_nothing : (vs : List ApprovalBoundaryViolation) → sort_violations vs ≡ [] → vs ≡ []
unfolding sort_violations
sort_nothing [] h = refl
sort_nothing (v ∷ vs) h = absurd (place_nonempty v (sort_violations vs) h)

-- The evaluation of the requirement succeeds with approval.
abbrev pub IsApproved : (Str → Str) → (ℕ → Str) → CorpusGraph → Str → Type 0
IsApproved sha256 show_float g uid =
    (e : LifecycleEvaluation) × (evaluate_lifecycle sha256 show_float g uid ≡ ok e)
    × (e.state ≡ RequirementLifecycle.approved)

-- The trace metadata of the requirement names implementing modules or emitted codes.
abbrev pub HasClaim : CorpusGraph → Str → Type 0
HasClaim g uid =
    (metadata : RequirementMetadata) × (BTreeMap.get uid g.trace_metadata
      ≡ some (TraceMetadata.requirement metadata))
    × ((metadata.modules ≢ []) ⊎ (metadata.emits ≢ []))

abbrev pub BackedNode : (Str → Str) → (ℕ → Str) → CorpusGraph → Node → Type 0
BackedNode sha256 show_float g (Node.test t) =
    All (λ edge. edge.0 ≡ EdgeKind.verifies → IsApproved sha256 show_float g edge.1) t.edges
BackedNode sha256 show_float g (Node.requirement r) =
    HasClaim g r.uid → IsApproved sha256 show_float g r.uid
BackedNode sha256 show_float g (Node.review r) = Unit
BackedNode sha256 show_float g (Node.source_revision r) = Unit

-- The patch applies to the committed graph of its revision, under its recorded digests.
abbrev pub IsProducible : (Str → Str) → (ℕ → Str) → CorpusGraph → SourcePatchRecord → Type 0
IsProducible sha256 show_float g patch =
    (r : SourceRevisionNode) × (a : PatchApplication) × (get patch.source_revision_uid g
      ≡ some (Node.source_revision r))
    × (apply_patch sha256 show_float (graph_or_empty (source_graph patch.source_revision_uid g))
          patch (record { recipe_digest = patch.recipe_digest; input_digest = patch.input_digest })
          r.media_type
        ≡ ok a)

abbrev pub BackedPatch : (Str → Str) → (ℕ → Str) → CorpusGraph → SourcePatchRecord → Type 0
BackedPatch sha256 show_float g patch =
    (e : PatchLifecycleEvaluation) × (evaluate_patch_lifecycle sha256 show_float g patch.uid ≡ ok e)
    × (e.state ≡ RequirementLifecycle.approved → IsProducible sha256 show_float g patch)

pub is_approved_iff :
    (s : RequirementLifecycle) → (is_approved s ≡ true) ↔ (s ≡ RequirementLifecycle.approved)
is_approved_iff s = ground arith

-- A claim in the metadata that is looked up.
abbrev pub Claims : Option TraceMetadata → Type 0
Claims o =
    (metadata : RequirementMetadata) × (o ≡ some (TraceMetadata.requirement metadata))
    × ((metadata.modules ≢ []) ⊎ (metadata.emits ≢ []))

module _ (g : CorpusGraph) (r : RequirementNode) (s : RequirementLifecycle) where
  claim_nothing_iff :
      (m : BTreeMap Str LifecycleEvaluation) (artifact : List Str → ReferringArtifact)
      (xs : List Str)
      → (claim g m r s artifact xs ≡ []) ↔ (xs ≡ [])
  claim_nothing_iff m artifact [] = ((λ h. refl), (λ h. refl))
  claim_nothing_iff m artifact (x ∷ xs) = ((λ h. absurd (cc)), (λ h. absurd (cc)))

  list_cases : (xs : List Str) → (xs ≡ []) ⊎ (xs ≢ [])
  list_cases [] = inl refl
  list_cases (x ∷ xs) = inr (λ h. cc)

  pub claims_nothing :
      (m : BTreeMap Str LifecycleEvaluation) (o : Option TraceMetadata)
      → claims g m r s o ≡ []
      → ¬ Claims o
  claims_nothing m none h (md, p, k) = cc
  claims_nothing m (some (TraceMetadata.test x)) h (md, p, k) = cc
  claims_nothing m (some (TraceMetadata.requirement x)) h (md, p, k) =
      let (modules, emits) =
        no_rest (claim g m r s ReferringArtifact.implementation_modules x.modules) _ h in
      let same : x ≡ md = cc in
      elim k [
        | inl n ↦ n (
            ap (λ y. y.modules) (sym same)
            ∙ (claim_nothing_iff m ReferringArtifact.implementation_modules x.modules).0 modules)
        | inr n ↦ n (
            ap (λ y. y.emits) (sym same)
            ∙ (claim_nothing_iff m ReferringArtifact.emitted_diagnostics x.emits).0 emits)
      ]

  pub nothing_claimed :
      (m : BTreeMap Str LifecycleEvaluation) (o : Option TraceMetadata)
      → ¬ Claims o
      → claims g m r s o ≡ []
  nothing_claimed m none h = refl
  nothing_claimed m (some (TraceMetadata.test x)) h = refl
  nothing_claimed m (some (TraceMetadata.requirement x)) h = elim (list_cases x.modules) [
    | inr n ↦ absurd (h (x, refl, inl n))
    | inl p ↦ elim (list_cases x.emits) [
      | inr n ↦ absurd (h (x, refl, inr n))
      | inl q ↦ rw (p, q) refl
    ]
  ]
