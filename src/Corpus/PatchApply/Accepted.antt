-- ===== src/Corpus/PatchApply/Accepted.antt =====
-- What a successful application of a patch establishes.
use evidence.Prelude.{
  ℕ, Str, codes, [], ok, ok_injective, map_err, map_err-eq-ok, try_fold, >>=-eq-ok, >>-eq-ok, All,
  sort, str_eq, str_eq_iff, nat_ord, pair_ord, str_ord, Bool-cases, ◌≡◌, inl, inr, sym, ap, subst,
  ◌∙◌,
}
use evidence.BTreeMap.{values}
use evidence.Corpus.SourceNodes.{SourceGraph}
use evidence.Corpus.SourceOrdinals.{sibling_sets}
use evidence.Corpus.SourceOrdinals.Contiguous.{CountsFrom}
use evidence.Corpus.SourcePatches.{SourcePatchRecord, SourcePatchError}
use evidence.Corpus.SourceValidation.{validate_graph_standalone, own_index}
use evidence.Corpus.SourceValidation.Tree.{IsPlaced, validate_one_graph-IsPlaced}
use evidence.Corpus.Render.{source_graph_digest}
use evidence.Corpus.PatchEdits.{recompute_node_digests}
use evidence.Corpus.PatchApply.{
  PatchBindings, PatchApplication, check_binding, apply_operation, apply_patch,
}

check_binding-eq-ok :
    (patch_uid field expected actual : Str)
    → check_binding patch_uid field expected actual ≡ ok tt
    → expected ≡ actual
unfolding check_binding
check_binding-eq-ok patch_uid field expected actual h = elim (Bool-cases (str_eq expected actual)) [
  | inl e ↦ (str_eq_iff expected actual).0 e
  | inr e ↦ absurd (cc (rw (e, check_binding) at h))
]

-- The source graph is a forest of nodes that fit their place, and its siblings are numbered.
abbrev pub Placed : (Str → Str) → Str → SourceGraph → Type 0
Placed sha256 media_type g =
    All (IsPlaced sha256 g media_type) (values g)
    × All (λ e. CountsFrom 0 (sort e.1)) (sibling_sets [] (values g))

-- The patch was made for this graph and these inputs, and `a` records the candidate that its
-- operations give, with digests brought up to date.
pub record IsApplied (sha256 : Str → Str) (show_float : ℕ → Str) (g : SourceGraph)
    (patch : SourcePatchRecord) (bindings : PatchBindings) (media_type : Str) (a : PatchApplication)
    : Type 0 where
  pub before : Placed sha256 media_type g
  pub recipe : patch.recipe_digest ≡ bindings.recipe_digest
  pub input : patch.input_digest ≡ bindings.input_digest
  pub pre_patch : patch.pre_patch_graph_digest ≡ source_graph_digest sha256 show_float g
  pub edited : SourceGraph
  pub operations : try_fold (apply_operation sha256 patch) g patch.operations ≡ ok edited
  pub candidate : a.graph ≡ recompute_node_digests sha256 edited
  pub after : Placed sha256 media_type a.graph
  pub pre_patch_digest : a.pre_patch_digest ≡ patch.pre_patch_graph_digest
  pub patch_digest : a.patch_digest ≡ patch.reviewed_content_digest
  pub post_patch_digest : a.post_patch_digest ≡ source_graph_digest sha256 show_float a.graph

standalone-Placed :
    (sha256 : Str → Str) (revision_uid media_type : Str) (g : SourceGraph)
    → validate_graph_standalone sha256 revision_uid media_type g ≡ ok tt
    → Placed sha256 media_type g
unfolding validate_graph_standalone
standalone-Placed sha256 revision_uid media_type g h =
    validate_one_graph-IsPlaced sha256 revision_uid g (own_index revision_uid [] (values g))
      media_type h

-- When a patch is applied to a source graph, the graph validates, the recipe, the input and the
-- digest of the graph are those that the patch names, every operation succeeds in turn, and the
-- candidate is the edited graph with recomputed digests, which validates too and whose digest is
-- recorded.
pub apply_patch-IsApplied :
    (sha256 : Str → Str) (show_float : ℕ → Str) (g : SourceGraph) (patch : SourcePatchRecord)
    (bindings : PatchBindings) (media_type : Str) (a : PatchApplication)
    → apply_patch sha256 show_float g patch bindings media_type ≡ ok a
    → IsApplied sha256 show_float g patch bindings media_type a
unfolding apply_patch
apply_patch-IsApplied sha256 show_float g patch bindings media_type a h =
    let revision_uid = patch.source_revision_uid in
    let (valid, rest) =
      >>-eq-ok
        (map_err (SourcePatchError.pre_graph_invalid patch.uid)
          (validate_graph_standalone sha256 revision_uid media_type g))
        _ h in
    let (recipe, rest1) =
      >>-eq-ok
        (check_binding patch.uid (codes "recipe_digest") patch.recipe_digest bindings.recipe_digest)
        _ rest in
    let (input, rest2) =
      >>-eq-ok
        (check_binding patch.uid (codes "input_digest") patch.input_digest bindings.input_digest) _
        rest1 in
    let (pre, rest3) =
      >>-eq-ok
        (check_binding patch.uid (codes "pre_patch_graph_digest") patch.pre_patch_graph_digest
          (source_graph_digest sha256 show_float g))
        _ rest2 in
    let (edited, operations, rest4) =
      >>=-eq-ok (try_fold (apply_operation sha256 patch) g patch.operations) _ rest3 in
    let working = recompute_node_digests sha256 edited in
    let (post, last) =
      >>-eq-ok
        (map_err (SourcePatchError.invalid_post_graph patch.uid)
          (validate_graph_standalone sha256 revision_uid media_type working))
        _ rest4 in
    let found = ok_injective last in
    let bound = check_binding-eq-ok patch.uid _ _ _ pre in
    let graph_eq = sym (ap (λ x. x.graph) found) in
    let after =
      standalone-Placed sha256 revision_uid media_type working
        (map_err-eq-ok (SourcePatchError.invalid_post_graph patch.uid) _ post) in
    record {
      before =
          standalone-Placed sha256 revision_uid media_type g
            (map_err-eq-ok (SourcePatchError.pre_graph_invalid patch.uid) _ valid);
      recipe = check_binding-eq-ok patch.uid _ _ _ recipe;
      input = check_binding-eq-ok patch.uid _ _ _ input;
      pre_patch = bound;
      edited = edited;
      operations = operations;
      candidate = graph_eq;
      after = subst (Placed sha256 media_type) (sym graph_eq) after;
      pre_patch_digest = sym (ap (λ x. x.pre_patch_digest) found) ∙ sym bound;
      patch_digest = sym (ap (λ x. x.patch_digest) found);
      post_patch_digest =
          sym (ap (λ x. x.post_patch_digest) found)
          ∙ ap (source_graph_digest sha256 show_float) (sym graph_eq);
    }
