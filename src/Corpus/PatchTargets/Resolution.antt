-- ===== src/Corpus/PatchTargets/Resolution.antt =====
-- Where the targets of an accepted patch are found.
use mathlib.Core.List.{Memᴰ}
use evidence.Prelude.{
  Str, true, false, Option, none, some, [], ◌∷◌, ok, for_each, for_each-ok, filter_map, contains,
  is_some, str_eq, str_eq_iff, str_ord, All-mem, ◌≡◌, ◌⊎◌, inl, inr, refl, sym, subst, ap, arith,
  Bool-cases, Option-cases, some_injective,
}
use evidence.BTreeMap
use evidence.BTreeMap.{BTreeMap, Above, IsSorted, values}
use evidence.Corpus.SourceNodes.{SourceGraph}
use evidence.Corpus.SourcePatches.{PatchOperation, SourcePatchRecord}
use evidence.Corpus.Graph.{CorpusGraph}
use evidence.Corpus.PatchTargets.{
  inserted_uid, operation_targets, locate, other_inserted, located, resolve_target,
  validate_targets,
}

get-Above :
    (k s : Str) (m : BTreeMap Str SourceGraph) (v : SourceGraph)
    → Above k m
    → BTreeMap.get s m ≡ some v
    → str_ord.lt k s ≡ true
unfolding BTreeMap.get
get-Above k s [] v a h = absurd (cc)
get-Above k s ((j, w) ∷ m) v a h = elim (Bool-cases (str_eq s j)) [
  | inl p ↦ subst (λ x. str_ord.lt k x ≡ true) (sym ((str_eq_iff s j).0 p)) a.0
  | inr p ↦ get-Above k s m v a.1 (rw (p, BTreeMap.get) at h)
]

-- The uid is in the graph of revision `bound`, and in no graph of a lower revision uid.
pub record IsFirst (gs : BTreeMap Str SourceGraph) (bound uid : Str) : Type 0 where
  pub graph : SourceGraph
  pub found : BTreeMap.get bound gs ≡ some graph
  pub present : is_some (BTreeMap.get uid graph) ≡ true
  pub lowest :
      (r : Str) (h : SourceGraph)
      → str_ord.lt r bound ≡ true
      → BTreeMap.get r gs ≡ some h
      → is_some (BTreeMap.get uid h) ≡ false

locate-IsFirst :
    (gs : BTreeMap Str SourceGraph) (bound uid : Str)
    → IsSorted gs
    → locate gs uid ≡ some bound
    → IsFirst gs bound uid
unfolding locate BTreeMap.get
locate-IsFirst [] bound uid s h = absurd (cc)
locate-IsFirst ((r, g) ∷ gs) bound uid s h = elim (Bool-cases (is_some (BTreeMap.get uid g))) [
  | inl p ↦
      let same : r ≡ bound = some_injective (rw (p, locate) at h) in
      subst (λ b. IsFirst ((r, g) ∷ gs) b uid) same
        (record {
          graph = g;
          found = rw ((str_eq_iff r r).1 refl);
          present = p;
          lowest = λ t k below at_t. elim (Bool-cases (str_eq t r)) [
            | inl q ↦ absurd (
                cc (
                  subst (λ x. str_ord.lt x r ≡ true) ((str_eq_iff t r).0 q) below,
                  str_ord.lt_irrefl r,
                ))
            | inr q ↦
                let above = get-Above r t gs k s.0 (rw (q, BTreeMap.get) at at_t) in
                absurd (cc (str_ord.lt_trans r t r above below, str_ord.lt_irrefl r))
          ];
        })
  | inr p ↦
      let rest = locate-IsFirst gs bound uid s.1 (rw (p, locate) at h) in
      let above = get-Above r bound gs rest.graph s.0 rest.found in
      let other : str_eq bound r ≡ false =
        ground (arith, above, str_eq_iff bound r, str_ord.lt_irrefl r) in
      record {
        graph = rest.graph;
        found = rw other rest.found;
        present = rest.present;
        lowest = λ t k below at_t. elim (Bool-cases (str_eq t r)) [
          | inl q ↦
              let same : g ≡ k = some_injective (rw (q, BTreeMap.get) at at_t) in
              subst (λ x. is_some (BTreeMap.get uid x) ≡ false) same p
          | inr q ↦ rest.lowest t k below (rw (q, BTreeMap.get) at at_t)
        ];
      }
]

-- A target is a node that the patch inserts, or stands in the bound revision's graph and in no
-- graph of a lower revision uid.
abbrev pub IsResolved : CorpusGraph → SourcePatchRecord → Str → Type 0
IsResolved g patch uid =
    (contains (filter_map inserted_uid patch.operations) uid ≡ true)
    ⊎ IsFirst g.source_graphs patch.source_revision_uid uid

located-eq-ok :
    (patch : SourcePatchRecord) (others : BTreeMap Str Str) (uid : Str) (o : Option Str)
    → located patch others uid o ≡ ok tt
    → o ≡ some patch.source_revision_uid
unfolding located
located-eq-ok patch others uid (some r) h = elim (Bool-cases (str_eq r patch.source_revision_uid)) [
  | inl p ↦ ap some ((str_eq_iff r patch.source_revision_uid).0 p)
  | inr p ↦ absurd (cc (rw (p, located) at h))
]
located-eq-ok patch others uid none h = elim (Option-cases (BTreeMap.get uid others)) [
  | inl p ↦ absurd (cc (rw (p, located) at h))
  | inr (v, p) ↦ absurd (cc (rw (p, located) at h))
]

resolve_target-IsResolved :
    (g : CorpusGraph) (patch : SourcePatchRecord) (others : BTreeMap Str Str) (uid : Str)
    → IsSorted g.source_graphs
    → resolve_target g patch others uid ≡ ok tt
    → IsResolved g patch uid
unfolding resolve_target
resolve_target-IsResolved g patch others uid s h =
    elim (Bool-cases (contains (filter_map inserted_uid patch.operations) uid)) [
      | inl p ↦ inl p
      | inr p ↦ inr (
          locate-IsFirst g.source_graphs patch.source_revision_uid uid s
            (located-eq-ok patch others uid _ (rw (p, resolve_target) at h)))
    ]

-- Every target of every operation of an accepted patch is a node that the patch inserts, or is in
-- the graph of the bound revision and in no graph whose revision uid is lower, where the map of
-- source graphs is in order.
pub validate_targets-IsResolved :
    (g : CorpusGraph) (patch : SourcePatchRecord)
    → IsSorted g.source_graphs
    → validate_targets g patch ≡ ok tt
    → (operation : PatchOperation) (uid : Str) → Memᴰ operation patch.operations
    → Memᴰ uid (operation_targets operation)
    → IsResolved g patch uid
unfolding validate_targets
validate_targets-IsResolved g patch s h operation uid at_operation at_uid =
    let others = other_inserted patch.uid [] (values g.source_patches) in
    let each =
      All-mem (λ o. for_each (resolve_target g patch others) (operation_targets o) ≡ ok tt)
        patch.operations operation (for_each-ok _ patch.operations h) at_operation in
    let one =
      All-mem (λ t. resolve_target g patch others t ≡ ok tt) (operation_targets operation) uid
        (for_each-ok _ (operation_targets operation) each) at_uid in
    resolve_target-IsResolved g patch others uid s one
