-- ===== src/Corpus/EffectiveGraph/Stale.antt =====
-- Several approved patches of one revision: each applies only where those before it left the digest.
use mathlib.Core.List.{Memᴰ}
use evidence.Prelude.{
  ℕ, Str, any, ◌&&◌, List, [], ◌∷◌, ◌++◌, ok, ◌>>◌, >>-eq-ok, for_each-ok, All-mem, str_eq,
  str_eq_iff, str_ord, Bool-cases, ◌≡◌, ◌≢◌, inl, inr, refl, sym, ap, subst, ◌∙◌, arith,
}
use evidence.BTreeMap.{values}
use evidence.Corpus.SourceNodes.{SourceGraph}
use evidence.Corpus.SourcePatches.{SourcePatchRecord}
use evidence.Corpus.Graph.{CorpusGraph, nodes_of, source_graph}
use evidence.Corpus.Graph.Invariant.{IsWellFormed}
use evidence.Corpus.Lifecycle.Evaluation.{filter_mem}
use evidence.Corpus.PatchTargets.{validate_targets}
use evidence.Corpus.Render.{source_graph_digest}
use evidence.Corpus.Validate.{
  is_revision, graph_or_empty, validate, validate_binding, validate_source_patches,
  evaluate_patch_lifecycle,
}
use evidence.Corpus.Validate.Parts.{validate-IsAccepted}
use evidence.Corpus.PatchApply.{PatchBindings, PatchApplication, apply_patch}
use evidence.Corpus.PatchApply.Accepted.{apply_patch-IsApplied}
use evidence.Corpus.EffectiveGraph.{EffectiveSourceGraph, effective_source_graph}
use evidence.Corpus.EffectiveGraph.Approved.{
  Chain, approves, approved_patches, effective_source_graph-IsApproved,
}

validate_binding-ok :
    (sha256 : Str → Str) (show_float : ℕ → Str) (g : CorpusGraph) (p : SourcePatchRecord)
    → validate_binding sha256 show_float g p ≡ ok tt
    → source_graph_digest sha256 show_float (graph_or_empty (source_graph p.source_revision_uid g))
      ≡ p.pre_patch_graph_digest
unfolding validate_binding
validate_binding-ok sha256 show_float g p h =
    let recomputed =
      source_graph_digest sha256 show_float
        (graph_or_empty (source_graph p.source_revision_uid g)) in
    elim (Bool-cases (any (is_revision p.source_revision_uid) (nodes_of g))) [
      | inr b ↦ absurd (cc (rw b at h))
      | inl b ↦ elim (Bool-cases (str_eq recomputed p.pre_patch_graph_digest)) [
        | inl q ↦ (str_eq_iff recomputed p.pre_patch_graph_digest).0 q
        | inr q ↦ absurd (cc (rw (b, q) at h))
      ]
    ]

-- Each approved patch of a revision carries the digest of the revision's committed graph.
approved_digest :
    (sha256 : Str → Str) (show_float : ℕ → Str) (g : CorpusGraph) (revision_uid : Str)
    (p : SourcePatchRecord)
    → validate sha256 show_float g ≡ ok tt
    → Memᴰ p (approved_patches sha256 show_float g revision_uid)
    → p.pre_patch_graph_digest
      ≡ source_graph_digest sha256 show_float (graph_or_empty (source_graph revision_uid g))
unfolding approved_patches validate_source_patches
approved_digest sha256 show_float g revision_uid p valid m =
    let (at_p, picked) =
      filter_mem
        (λ x.
          str_eq x.source_revision_uid revision_uid
          && approves (evaluate_patch_lifecycle sha256 show_float g x.uid))
        (values g.source_patches) p m in
    let bound : p.source_revision_uid ≡ revision_uid =
      (str_eq_iff p.source_revision_uid revision_uid).0 (ground arith) in
    let patches = (validate-IsAccepted sha256 show_float g valid).source_patches in
    let checked =
      All-mem (λ x. (validate_binding sha256 show_float g x >> validate_targets g x) ≡ ok tt)
        (values g.source_patches) p (for_each-ok _ (values g.source_patches) patches) at_p in
    sym (
      validate_binding-ok sha256 show_float g p
        (>>-eq-ok (validate_binding sha256 show_float g p) (validate_targets g p) checked).0)
    ∙ ap (λ r. source_graph_digest sha256 show_float (graph_or_empty (source_graph r g))) bound

-- A chain, opened at one of its patches.
Chain-split :
    (sha256 : Str → Str) (show_float : ℕ → Str) (bindings : PatchBindings) (media_type : Str)
    (g h : SourceGraph) (before : List SourcePatchRecord) (p : SourcePatchRecord)
    (rest : List SourcePatchRecord)
    → Chain sha256 show_float bindings media_type g (before ++ p ∷ rest) h
    → (working : SourceGraph) × (a : PatchApplication) × Chain sha256 show_float bindings media_type
        g before working
      × (apply_patch sha256 show_float working p bindings media_type ≡ ok a)
      × Chain sha256 show_float bindings media_type a.graph rest h
Chain-split sha256 show_float bindings media_type g h [] p rest (Chain.then_apply a run c) =
    (g, a, Chain.done, run, c)
Chain-split sha256 show_float bindings media_type g h (q ∷ before) p rest
      (Chain.then_apply b next c) =
    let (working, a, made, run, later) =
      Chain-split sha256 show_float bindings media_type b.graph h before p rest c in
    (working, a, Chain.then_apply b next made, run, later)

-- The digest that the first patch of a chain names is that of the graph the chain starts from.
first_digest :
    (sha256 : Str → Str) (show_float : ℕ → Str) (bindings : PatchBindings) (media_type : Str)
    (g h : SourceGraph) (q : SourcePatchRecord) (rest : List SourcePatchRecord)
    → Chain sha256 show_float bindings media_type g (q ∷ rest) h
    → source_graph_digest sha256 show_float g ≡ q.pre_patch_graph_digest
first_digest sha256 show_float bindings media_type g h q rest (Chain.then_apply b next c) =
    sym (apply_patch-IsApplied sha256 show_float g q bindings media_type b next).pre_patch

mem_here :
    (before : List SourcePatchRecord) (p : SourcePatchRecord) (rest : List SourcePatchRecord)
    → Memᴰ p (before ++ p ∷ rest)
mem_here [] p rest = Memᴰ.head refl
mem_here (q ∷ before) p rest = Memᴰ.tail (mem_here before p rest)

mem_next :
    (before : List SourcePatchRecord) (p q : SourcePatchRecord) (rest : List SourcePatchRecord)
    → Memᴰ q (before ++ p ∷ q ∷ rest)
mem_next [] p q rest = Memᴰ.tail (Memᴰ.head refl)
mem_next (r ∷ before) p q rest = Memᴰ.tail (mem_next before p q rest)

abbrev committed : CorpusGraph → Str → SourceGraph
committed g revision_uid = graph_or_empty (source_graph revision_uid g)

module _ (sha256 : Str → Str) (show_float : ℕ → Str) (g : CorpusGraph) (revision_uid : Str)
    (bindings : PatchBindings) (media_type : Str) (out : EffectiveSourceGraph) where
  left_unchanged :
      (before : List SourcePatchRecord) (p : SourcePatchRecord) (rest : List SourcePatchRecord)
      (working : SourceGraph) (a : PatchApplication)
      → validate sha256 show_float g ≡ ok tt
      → approved_patches sha256 show_float g revision_uid ≡ before ++ p ∷ rest
      → apply_patch sha256 show_float working p bindings media_type ≡ ok a
      → Chain sha256 show_float bindings media_type a.graph rest out.graph
      → rest ≢ []
      → a.post_patch_digest ≡ source_graph_digest sha256 show_float (committed g revision_uid)
  left_unchanged before p [] working a valid split run c more = absurd (more refl)
  left_unchanged before p (q ∷ rest) working a valid split run c more =
      (apply_patch-IsApplied sha256 show_float working p bindings media_type a
        run).post_patch_digest
      ∙ first_digest sha256 show_float bindings media_type a.graph out.graph q rest c
      ∙ approved_digest sha256 show_float g revision_uid q valid
          (subst (Memᴰ q) (sym split) (mem_next before p q rest))

  -- When an effective graph of a revision is computed from a well-formed graph, every approved patch
  -- of the revision applies to what the approved patches before it made of the committed graph, that
  -- graph has the digest of the committed graph, and every approved patch but the last leaves this
  -- digest as it is: only the last can change it.
  pub effective_source_graph_unchanged :
      IsWellFormed g
      → effective_source_graph sha256 show_float g revision_uid bindings media_type ≡ ok out
      → (before : List SourcePatchRecord) (p : SourcePatchRecord) (rest : List SourcePatchRecord)
      → approved_patches sha256 show_float g revision_uid ≡ before ++ p ∷ rest
      → (working : SourceGraph) × (a : PatchApplication) × Chain sha256 show_float bindings
          media_type
          (committed g revision_uid)
          before
          working
        × (apply_patch sha256 show_float working p bindings media_type ≡ ok a)
        × Chain sha256 show_float bindings media_type a.graph rest out.graph
        × (source_graph_digest sha256 show_float working
            ≡ source_graph_digest sha256 show_float (committed g revision_uid))
        × (rest ≢ []
            → a.post_patch_digest
              ≡ source_graph_digest sha256 show_float (committed g revision_uid))
  effective_source_graph_unchanged w h before p rest split =
      let x =
        effective_source_graph-IsApproved sha256 show_float g revision_uid bindings media_type out w
          h in
      let (working, a, made, run, later) =
        Chain-split sha256 show_float bindings media_type (committed g revision_uid) out.graph
          before p rest
          (subst
            (λ ps.
              Chain sha256 show_float bindings media_type (committed g revision_uid) ps out.graph)
            split x.chain) in
      (
        working,
        a,
        made,
        run,
        later,
        sym (apply_patch-IsApplied sha256 show_float working p bindings media_type a run).pre_patch
            ∙ approved_digest sha256 show_float g revision_uid p x.valid
                (subst (Memᴰ p) (sym split) (mem_here before p rest)),
        left_unchanged before p rest working a x.valid split run later,
      )
