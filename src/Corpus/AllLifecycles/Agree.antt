-- ===== src/Corpus/AllLifecycles/Agree.antt =====
-- The evaluation of all uids agrees with the evaluation of one.
use mathlib.Core.List.{Memᴰ}
use evidence.Prelude.{
  ℕ, Str, true, some, List, [], ◌∷◌, ok, filter_map, contains, str_eq, str_eq_iff, str_eq_refl,
  str_ord, is_some, some_injective, Option-cases, Bool-cases, ◌≡◌, ◌↔◌, inl, inr, refl, sym, subst,
  arith,
}
use evidence.BTreeMap
use evidence.BTreeMap.{BTreeMap, keys}
use evidence.Corpus.Nodes.{RequirementNode, Node}
use evidence.Corpus.SourcePatches.{SourcePatchRecord}
use evidence.Corpus.Graph.{CorpusGraph, get, nodes_of, source_patch}
use evidence.Corpus.Graph.Invariant.{IsWellFormed, keyed_get}
use evidence.Corpus.Lineage.Members.{node_found}
use evidence.Corpus.Lifecycle.{
  LifecycleEvaluation, PatchLifecycleEvaluation, evaluate_lifecycle_validated,
  evaluate_patch_lifecycle_validated,
}
use evidence.Corpus.Lifecycle.Evaluation.{
  evaluate_lifecycle_validated_iff, evaluate_patch_lifecycle_validated_iff,
}
use evidence.Corpus.Validate.{validate, evaluate_lifecycle, evaluate_patch_lifecycle}
use evidence.Corpus.Validate.Parts.{validate-IsAccepted}
use evidence.Corpus.Validate.FailClosed.{requirement_of}
use evidence.Corpus.AllLifecycles.Each.{evaluate_each_iff}
use evidence.Corpus.AllLifecycles.Reviews.{requirement_review, patch_review, each_review}
use evidence.Corpus.AllLifecycles.{
  check_requirement_review, requirement_uid_of, evaluate_all_lifecycles, check_patch_review,
  evaluate_all_patch_lifecycles,
}

requirement_uid_found :
    (ns : List Node) (u : Str)
    → contains (filter_map requirement_uid_of ns) u ≡ true
    → (r : RequirementNode) × Memᴰ (Node.requirement r) ns × (r.uid ≡ u)
unfolding contains filter_map
requirement_uid_found [] u h = absurd (cc)
requirement_uid_found (Node.test x ∷ ns) u h =
    let (r, m, e) = requirement_uid_found ns u h in (r, Memᴰ.tail m, e)
requirement_uid_found (Node.review x ∷ ns) u h =
    let (r, m, e) = requirement_uid_found ns u h in (r, Memᴰ.tail m, e)
requirement_uid_found (Node.source_revision x ∷ ns) u h =
    let (r, m, e) = requirement_uid_found ns u h in (r, Memᴰ.tail m, e)
requirement_uid_found (Node.requirement x ∷ ns) u h = elim (Bool-cases (str_eq x.uid u)) [
  | inl p ↦ (x, Memᴰ.head refl, (str_eq_iff x.uid u).0 p)
  | inr p ↦ let (r, m, e) = requirement_uid_found ns u (ground arith) in (r, Memᴰ.tail m, e)
]

found_requirement_uid :
    (m : BTreeMap Str Node) (u : Str) (r : RequirementNode)
    → BTreeMap.get u m ≡ some (Node.requirement r)
    → contains (filter_map requirement_uid_of (BTreeMap.values m)) r.uid ≡ true
unfolding contains filter_map BTreeMap.get
found_requirement_uid [] u r h = absurd (cc)
found_requirement_uid ((k, n) ∷ m) u r h = elim (Bool-cases (str_eq u k)) [
  | inl p ↦
      let same : n ≡ Node.requirement r = some_injective (rw (p, BTreeMap.get) at h) in
      subst (λ x. contains (filter_map requirement_uid_of (x ∷ BTreeMap.values m)) r.uid ≡ true)
        (sym same) (ground (arith, str_eq_refl r.uid))
  | inr p ↦
      later_uid n (BTreeMap.values m) r.uid
        (found_requirement_uid m u r (rw (p, BTreeMap.get) at h))
]
  where
    later_uid :
        (n : Node) (ns : List Node) (u : Str)
        → contains (filter_map requirement_uid_of ns) u ≡ true
        → contains (filter_map requirement_uid_of (n ∷ ns)) u ≡ true
    later_uid (Node.test x) ns u h = h
    later_uid (Node.review x) ns u h = h
    later_uid (Node.source_revision x) ns u h = h
    later_uid (Node.requirement x) ns u h = ground arith

found_key :
    (m : BTreeMap Str SourcePatchRecord) (u : Str)
    → (contains (keys m) u ≡ true) ↔ (is_some (BTreeMap.get u m) ≡ true)
unfolding contains BTreeMap.get
found_key [] u = ground arith
found_key ((k, p) ∷ m) u = ground (arith, found_key m u, str_eq_iff u k, str_eq_iff k u)

-- On a well-formed graph that validates, `evaluate_all_lifecycles` succeeds, and its map has under a
-- uid exactly the evaluation with which `evaluate_lifecycle` succeeds for the uid.
pub evaluate_all_lifecycles_iff :
    (sha256 : Str → Str) (show_float : ℕ → Str) (g : CorpusGraph)
    → IsWellFormed g
    → validate sha256 show_float g ≡ ok tt
    → (out : BTreeMap Str LifecycleEvaluation) × (evaluate_all_lifecycles sha256 show_float g
        ≡ ok out)
      × ((uid : Str) (e : LifecycleEvaluation)
          → (BTreeMap.get uid out ≡ some e) ↔ (evaluate_lifecycle sha256 show_float g uid ≡ ok e))
unfolding evaluate_all_lifecycles evaluate_lifecycle
evaluate_all_lifecycles_iff sha256 show_float g w valid =
    let reviews = (validate-IsAccepted sha256 show_float g valid).reviews in
    let (out, run, same) =
      evaluate_each_iff (evaluate_lifecycle_validated sha256 g)
        (filter_map requirement_uid_of (nodes_of g))
        (λ u h.
          let (r, m, e) = requirement_uid_found (nodes_of g) u h in
          let found =
            subst (λ x. get x g ≡ some (Node.requirement r)) e
              (node_found g (Node.requirement r) w m) in
          let ran = evaluate_lifecycle_validated_iff sha256 g u r w found in (ran.0, ran.1))
        (λ u a h.
          let (r, found) = requirement_of sha256 g u a h in
          subst (λ x. contains (filter_map requirement_uid_of (nodes_of g)) x ≡ true)
            (keyed_get g u (Node.requirement r) w.keyed found)
            (found_requirement_uid g.nodes u r found)) in
    (
      out,
      rw (valid, each_review g (check_requirement_review g) (requirement_review g) reviews) run,
      λ uid e. rw valid (same uid e),
    )

patch_of :
    (g : CorpusGraph) (u : Str) (e : PatchLifecycleEvaluation)
    → evaluate_patch_lifecycle_validated g u ≡ ok e
    → is_some (source_patch u g) ≡ true
unfolding evaluate_patch_lifecycle_validated
patch_of g u e h = elim (Option-cases (source_patch u g)) [
  | inl p ↦ absurd (cc (rw (evaluate_patch_lifecycle_validated, p) at h))
  | inr (x, p) ↦ rw p refl
]

-- On a well-formed graph that validates, `evaluate_all_patch_lifecycles` succeeds, and its map has
-- under a uid exactly the evaluation with which `evaluate_patch_lifecycle` succeeds for the uid.
pub evaluate_all_patch_lifecycles_iff :
    (sha256 : Str → Str) (show_float : ℕ → Str) (g : CorpusGraph)
    → IsWellFormed g
    → validate sha256 show_float g ≡ ok tt
    → (out : BTreeMap Str PatchLifecycleEvaluation) × (evaluate_all_patch_lifecycles sha256
          show_float g
        ≡ ok out)
      × ((uid : Str) (e : PatchLifecycleEvaluation)
          → (BTreeMap.get uid out ≡ some e)
            ↔ (evaluate_patch_lifecycle sha256 show_float g uid ≡ ok e))
unfolding evaluate_all_patch_lifecycles evaluate_patch_lifecycle
evaluate_all_patch_lifecycles_iff sha256 show_float g w valid =
    let reviews = (validate-IsAccepted sha256 show_float g valid).reviews in
    let (out, run, same) =
      evaluate_each_iff (evaluate_patch_lifecycle_validated g) (keys g.source_patches)
        (λ u h. elim (Option-cases (source_patch u g)) [
          | inl p ↦ absurd (cc ((found_key g.source_patches u).0 h, p))
          | inr (patch, p) ↦
              let ran = evaluate_patch_lifecycle_validated_iff g u patch w p in (ran.0, ran.1)
        ])
        (λ u a h. (found_key g.source_patches u).1 (patch_of g u a h)) in
    (
      out,
      rw (valid, each_review g (check_patch_review g) (patch_review g) reviews) run,
      λ uid e. rw valid (same uid e),
    )
