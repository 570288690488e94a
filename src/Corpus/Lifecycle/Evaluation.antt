-- ===== src/Corpus/Lifecycle/Evaluation.antt =====
-- Which reviews the evaluation of a requirement or a patch counts, and the state it returns.
use mathlib.Core.List.{Memᴰ}
use mathlib.Core.List.Memᴰ
use evidence.Prelude.{
  Str, Bool, true, false, not, Option, some, List, [], ◌∷◌, ok, filter, filter_map, contains,
  str_eq, str_eq_iff, ◌≡◌, ◌↔◌, inl, inr, refl, sym, ◌∙◌, subst, arith, Bool-cases, ap, str_ord,
  Option-cases, some_injective,
}
use evidence.BTreeMap
use evidence.BTreeMap.{BTreeMap, values}
use evidence.Corpus.Nodes.{RequirementNode, ReviewTarget, ReviewNode, Node}
use evidence.Corpus.SourcePatches.{SourcePatchRecord}
use evidence.Corpus.Graph.{
  CorpusGraph, get, nodes_of, source_patch, names_requirement, names_patch, as_requirement_review,
  as_patch_review, reviews_for_requirement, reviews_for_patch, superseded_review_uids,
}
use evidence.Corpus.Graph.Invariant.{IsWellFormed}
use evidence.Corpus.Lineage.Members.{node_found}
use evidence.Corpus.ReviewContent.{review_content, from_node, review_content_digest_v1}
use evidence.Corpus.Lifecycle.{
  RequirementLifecycle, LifecycleEvaluation, PatchLifecycleEvaluation, effective, derive_state,
  review_uids, evaluate_lifecycle_validated, evaluate_patch_lifecycle_validated,
}
use evidence.Corpus.Lifecycle.Verdict.{Verdict, IsListed, derive_state_iff}

-- A review of the graph that has this target and that no review supersedes.
abbrev pub IsEffective : CorpusGraph → ReviewTarget → ReviewNode → Type 0
IsEffective g target r =
    (get r.uid g ≡ some (Node.review r))
    × (r.target ≡ target)
    × (contains (superseded_review_uids g) r.uid ≡ false)

module _ {ℓ} {A : Type ℓ} where
  pub filter_mem :
      (p : A → Bool) (xs : List A) (x : A) → Memᴰ x (filter p xs) → Memᴰ x xs × (p x ≡ true)
  unfolding filter
  filter_mem p [] x h = absurd (Memᴰ.not-nil h)
  filter_mem p (y ∷ xs) x h = elim (Bool-cases (p y)) [
    | inl e ↦ elim (Memᴰ.cases_cons (rw (e, filter) at h)) [
      | inl q ↦ (Memᴰ.head q, ap p q ∙ e)
      | inr t ↦ let (m, q) = filter_mem p xs x t in (Memᴰ.tail m, q)
    ]
    | inr e ↦ let (m, q) = filter_mem p xs x (rw (e, filter) at h) in (Memᴰ.tail m, q)
  ]

  mem_filter : (p : A → Bool) (xs : List A) (x : A) → Memᴰ x xs → p x ≡ true → Memᴰ x (filter p xs)
  unfolding filter
  mem_filter p [] x m e = absurd (Memᴰ.not-nil m)
  mem_filter p (y ∷ xs) x (Memᴰ.head q) e = rw (ap p (sym q) ∙ e) (Memᴰ.head q)
  mem_filter p (y ∷ xs) x (Memᴰ.tail m) e = elim (Bool-cases (p y)) [
    | inl h ↦ rw h (Memᴰ.tail (mem_filter p xs x m e))
    | inr h ↦ rw h (mem_filter p xs x m e)
  ]

module _ {ℓ κ} {A : Type ℓ} {B : Type κ} where
  filter_map_mem :
      (f : A → Option B) (xs : List A) (y : B)
      → Memᴰ y (filter_map f xs)
      → (x : A) × Memᴰ x xs × (f x ≡ some y)
  unfolding filter_map
  filter_map_mem f [] y h = absurd (Memᴰ.not-nil h)
  filter_map_mem f (x ∷ xs) y h = elim (Option-cases (f x)) [
    | inl e ↦ let (z, m, q) = filter_map_mem f xs y (rw (e, filter_map) at h) in (z, Memᴰ.tail m, q)
    | inr (v, e) ↦ elim (Memᴰ.cases_cons (rw (e, filter_map) at h)) [
      | inl q ↦ (x, Memᴰ.head refl, e ∙ ap some (sym q))
      | inr t ↦ let (z, m, q) = filter_map_mem f xs y t in (z, Memᴰ.tail m, q)
    ]
  ]

  mem_filter_map :
      (f : A → Option B) (xs : List A) (x : A) (y : B)
      → Memᴰ x xs
      → f x ≡ some y
      → Memᴰ y (filter_map f xs)
  unfolding filter_map
  mem_filter_map f [] x y m e = absurd (Memᴰ.not-nil m)
  mem_filter_map f (z ∷ xs) x y (Memᴰ.head q) e = rw (ap f (sym q) ∙ e, filter_map) (Memᴰ.head refl)
  mem_filter_map f (z ∷ xs) x y (Memᴰ.tail m) e = elim (Option-cases (f z)) [
    | inl h ↦ rw (h, filter_map) (mem_filter_map f xs x y m e)
    | inr (v, h) ↦ rw (h, filter_map) (Memᴰ.tail (mem_filter_map f xs x y m e))
  ]

pub value_mem :
    (m : BTreeMap Str Node) (uid : Str) (n : Node) → BTreeMap.get uid m ≡ some n → Memᴰ n (values m)
unfolding BTreeMap.get
value_mem [] uid n h = absurd (cc)
value_mem ((k, v) ∷ m) uid n h = elim (Bool-cases (str_eq uid k)) [
  | inl p ↦ Memᴰ.head (ground arith)
  | inr p ↦ Memᴰ.tail (value_mem m uid n (ground arith))
]

names_requirement_iff :
    (t : ReviewTarget) (uid : Str)
    → (names_requirement t uid ≡ true) ↔ (t ≡ ReviewTarget.requirement uid)
unfolding names_requirement
names_requirement_iff (ReviewTarget.requirement u) uid =
    ((λ h. ap ReviewTarget.requirement ((str_eq_iff u uid).0 h)), (λ e. (str_eq_iff u uid).1 (cc)))
names_requirement_iff (ReviewTarget.curated_patch u) uid = ((λ h. absurd (cc)), (λ e. absurd (cc)))

names_patch_iff :
    (t : ReviewTarget) (uid : Str)
    → (names_patch t uid ≡ true) ↔ (t ≡ ReviewTarget.curated_patch uid)
unfolding names_patch
names_patch_iff (ReviewTarget.curated_patch u) uid = (
  (λ h. ap ReviewTarget.curated_patch ((str_eq_iff u uid).0 h)),
  (λ e. (str_eq_iff u uid).1 (cc)),
)
names_patch_iff (ReviewTarget.requirement u) uid = ((λ h. absurd (cc)), (λ e. absurd (cc)))

requirement_review :
    (uid : Str) (n : Node) (r : ReviewNode)
    → as_requirement_review uid n ≡ some r
    → (n ≡ Node.review r) × (r.target ≡ ReviewTarget.requirement uid)
unfolding as_requirement_review
requirement_review uid (Node.requirement _) r h = absurd (cc)
requirement_review uid (Node.test _) r h = absurd (cc)
requirement_review uid (Node.source_revision _) r h = absurd (cc)
requirement_review uid (Node.review q) r h = elim (Bool-cases (names_requirement q.target uid)) [
  | inl e ↦
      let same : q ≡ r = some_injective (rw (e, as_requirement_review) at h) in
      (
        ap Node.review same,
        ap (λ x. x.target) (sym same) ∙ (names_requirement_iff q.target uid).0 e,
      )
  | inr e ↦ absurd (cc (rw (e, as_requirement_review) at h))
]

patch_review :
    (uid : Str) (n : Node) (r : ReviewNode)
    → as_patch_review uid n ≡ some r
    → (n ≡ Node.review r) × (r.target ≡ ReviewTarget.curated_patch uid)
unfolding as_patch_review
patch_review uid (Node.requirement _) r h = absurd (cc)
patch_review uid (Node.test _) r h = absurd (cc)
patch_review uid (Node.source_revision _) r h = absurd (cc)
patch_review uid (Node.review q) r h = elim (Bool-cases (names_patch q.target uid)) [
  | inl e ↦
      let same : q ≡ r = some_injective (rw (e, as_patch_review) at h) in
      (ap Node.review same, ap (λ x. x.target) (sym same) ∙ (names_patch_iff q.target uid).0 e)
  | inr e ↦ absurd (cc (rw (e, as_patch_review) at h))
]

module _ (g : CorpusGraph) (w : IsWellFormed g) where
  effective_iff :
      (target : ReviewTarget) (f : Node → Option ReviewNode)
      → ((n : Node) (r : ReviewNode) → f n ≡ some r → (n ≡ Node.review r) × (r.target ≡ target))
      → ((r : ReviewNode) → r.target ≡ target → f (Node.review r) ≡ some r)
      → IsListed (IsEffective g target) (effective g (filter_map f (nodes_of g)))
  unfolding effective
  effective_iff target f sound complete r = (
    (λ (found, t, c).
        mem_filter (λ x. not (contains (superseded_review_uids g) x.uid)) _ r
          (mem_filter_map f (nodes_of g) (Node.review r) r
            (value_mem g.nodes r.uid (Node.review r) found) (complete r t))
          (rw c)),
    (λ h.
        let (m, c) = filter_mem (λ x. not (contains (superseded_review_uids g) x.uid)) _ r h in
        let (n, at_n, e) = filter_map_mem f (nodes_of g) r m in
        let (same, t) = sound n r e in
        (
          node_found g (Node.review r) w (subst (λ x. Memᴰ x (nodes_of g)) same at_n),
          t,
          ground (arith, c),
        )),
  )

  requirement_reviews :
      (uid : Str)
      → IsListed
          (IsEffective g (ReviewTarget.requirement uid))
          (effective g (reviews_for_requirement g uid))
  unfolding reviews_for_requirement as_requirement_review
  requirement_reviews uid =
      effective_iff (ReviewTarget.requirement uid) (as_requirement_review uid)
        (requirement_review uid) (λ r t. rw ((names_requirement_iff r.target uid).1 t))

  patch_reviews :
      (uid : Str)
      → IsListed
          (IsEffective g (ReviewTarget.curated_patch uid))
          (effective g (reviews_for_patch g uid))
  unfolding reviews_for_patch as_patch_review
  patch_reviews uid =
      effective_iff (ReviewTarget.curated_patch uid) (as_patch_review uid) (patch_review uid)
        (λ r t. rw ((names_patch_iff r.target uid).1 t))

-- In a well-formed graph every requirement has an evaluation, about the digest of its current
-- content, and its state is the row of the truth table that the requirement's unsuperseded
-- reviews satisfy.
pub evaluate_lifecycle_validated_iff :
    (sha256 : Str → Str) (g : CorpusGraph) (uid : Str) (node : RequirementNode)
    → IsWellFormed g
    → get uid g ≡ some (Node.requirement node)
    → (e : LifecycleEvaluation) × (evaluate_lifecycle_validated sha256 g uid ≡ ok e)
      × (e.requirement_uid ≡ uid)
      × (e.current_digest ≡ review_content_digest_v1 sha256 (from_node node))
      × ((s : RequirementLifecycle)
          → (e.state ≡ s)
            ↔ Verdict (IsEffective g (ReviewTarget.requirement uid)) e.current_digest s)
unfolding evaluate_lifecycle_validated review_content
evaluate_lifecycle_validated_iff sha256 g uid node w found =
    let digest = review_content_digest_v1 sha256 (from_node node) in
    let heads = effective g (reviews_for_requirement g uid) in
    let e : LifecycleEvaluation = record {
      requirement_uid = uid;
      state = derive_state heads digest;
      current_digest = digest;
      effective_review_uids = review_uids heads;
    } in
    (
      e,
      rw (found, evaluate_lifecycle_validated, review_content),
      refl,
      refl,
      derive_state_iff _ _ (requirement_reviews g w uid)
          (review_content_digest_v1 sha256 (from_node node)),
    )

-- In a well-formed graph every committed patch has an evaluation, about the digest that its
-- record carries, and its state is the row of the truth table that the patch's unsuperseded
-- reviews satisfy.
pub evaluate_patch_lifecycle_validated_iff :
    (g : CorpusGraph) (uid : Str) (patch : SourcePatchRecord)
    → IsWellFormed g
    → source_patch uid g ≡ some patch
    → (e : PatchLifecycleEvaluation) × (evaluate_patch_lifecycle_validated g uid ≡ ok e)
      × (e.patch_uid ≡ uid)
      × (e.current_digest ≡ patch.reviewed_content_digest)
      × ((s : RequirementLifecycle)
          → (e.state ≡ s)
            ↔ Verdict (IsEffective g (ReviewTarget.curated_patch uid)) e.current_digest s)
unfolding evaluate_patch_lifecycle_validated
evaluate_patch_lifecycle_validated_iff g uid patch w found =
    let heads = effective g (reviews_for_patch g uid) in
    let e : PatchLifecycleEvaluation = record {
      patch_uid = uid;
      state = derive_state heads patch.reviewed_content_digest;
      current_digest = patch.reviewed_content_digest;
      effective_review_uids = review_uids heads;
    } in
    (
      e,
      rw (found, evaluate_patch_lifecycle_validated),
      refl,
      refl,
      derive_state_iff _ _ (patch_reviews g w uid) patch.reviewed_content_digest,
    )
