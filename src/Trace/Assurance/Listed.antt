-- ===== src/Trace/Assurance/Listed.antt =====
-- The surfaces that the mappings have are those that the HLRs list.
use mathlib.Core.List.{Memᴰ}
use mathlib.Core.List.Memᴰ
use evidence.Prelude.{
  Str, true, List, [], Result-cases, contains, All, All-imp, All-mem, str_ord, some, subst, ◌≡◌,
  inl, inr, refl, sym, ap, ◌∙◌,
}
use evidence.BTreeMap
use evidence.BTreeMap.{values}
use evidence.BTreeMap.Laws.{get_of_mem, All_entry}
use evidence.Corpus.Nodes.{RequirementLayer, Node, node_id}
use evidence.Corpus.Graph.{CorpusGraph, get, nodes_of}
use evidence.Corpus.Lifecycle.Evaluation.{value_mem}
use evidence.Corpus.ReviewContent.{canonical_strings}
use evidence.Corpus.ReviewContent.Canonical.{contains-canonical_strings}
use evidence.Corpus.Legacy.{hlr_node, llr_node, derived_node, test_node, graph_from_trace_parts}
use evidence.Corpus.Legacy.Adapted.{IsAdapted, graph_from_trace_parts-IsAdapted}
use evidence.Trace.Entries.{HlrEntry, LlrEntry, TestEntry, DerivedEntry}
use evidence.Trace.Surfaces.{known_surfaces}
use evidence.Trace.Surfaces.Matched.{SurfacesMatch}
use evidence.Trace.Surfaces.Claimed.{Claimed, claim_all_claim, claim_all_only}
use evidence.Trace.Assurance.{from_graph, from_entries, default_bijections}
use evidence.Trace.Assurance.Projected.{
  surfaces_in, claims_of_nodes_lem, from_hlr_entries_lem, held_node, listed_node,
}
use evidence.Trace.Validation.{mappings_of}

-- An HLR lists the surface.
abbrev pub ListedBy : List HlrEntry → Str → Type 0
ListedBy hlrs s = (x : HlrEntry) × Memᴰ x hlrs × (contains x.surfaces s ≡ true)

-- The catalog of surfaces is what the HLRs list: none that is not in it, and all that are.
pub record SurfacesListed (hlrs : List HlrEntry) : Type 0 where
  pub known : (s : Str) → ListedBy hlrs s → contains known_surfaces s ≡ true
  pub claimed : All (ListedBy hlrs) known_surfaces

not_in_nothing : (ss : List Str) (s : Str) → ss ≡ [] → contains ss s ≡ true → ⊥
unfolding contains
not_in_nothing ss s p h = cc (rw p at h)

no_key : (s : Str) → BTreeMap.contains_key s default_bijections.surface_claimants ≡ true → ⊥
unfolding BTreeMap.get
no_key s h = cc

module _ (sys hlrs : List HlrEntry) (llrs : List LlrEntry) (tests : List TestEntry)
    (derived : List DerivedEntry) where
  module _ (g : CorpusGraph) (built : IsAdapted sys hlrs llrs tests derived g) where
    from_graph-Claimed : (s : Str) → ListedBy hlrs s → Claimed (from_graph g).surface_claimants s
    unfolding from_graph
    from_graph-Claimed s (x, i, c) =
        let (n, uid, at_uid, at_n, same) =
          held_node (λ y. y.uid) (λ y. y.id) (λ y. hlr_node y RequirementLayer.hlr) (λ y u. refl)
            (λ y. canonical_strings y.surfaces) (λ y u. refl) g x
            (All-mem _ hlrs x built.hlrs_held i) in
        subst (λ m. Claimed m s) (sym (claims_of_nodes_lem g default_bijections (nodes_of g)))
          (claim_all_claim node_id (surfaces_in g) [] (nodes_of g) n s
            (value_mem g.nodes uid n at_n)
            (ap (λ ss. contains ss s) same ∙ contains-canonical_strings x.surfaces s ∙ c))

    node_listed :
        (s uid : Str) (n : Node)
        → get uid g ≡ some n
        → contains (surfaces_in g n) s ≡ true
        → ListedBy hlrs s
    node_listed s uid n at_n c = elim (built.no_other uid n at_n) [
      | inl l ↦
          let (x, i, same) =
            listed_node (λ y. y.uid) (λ y. y.id) (λ y. hlr_node y RequirementLayer.sys)
              (λ y u. refl) (λ y. []) (λ y u. refl) g sys uid n built.sys_held at_n l in
          absurd (not_in_nothing (surfaces_in g n) s same c)
      | inr (inl l) ↦
          let (x, i, same) =
            listed_node (λ y. y.uid) (λ y. y.id) (λ y. hlr_node y RequirementLayer.hlr)
              (λ y u. refl) (λ y. canonical_strings y.surfaces) (λ y u. refl) g hlrs uid n
              built.hlrs_held at_n l in
          (x, i, sym (ap (λ ss. contains ss s) same ∙ contains-canonical_strings x.surfaces s) ∙ c)
      | inr (inr (inl l)) ↦
          let (x, i, same) =
            listed_node (λ y. y.uid) (λ y. y.id) llr_node (λ y u. refl) (λ y. []) (λ y u. refl) g
              llrs uid n built.llrs_held at_n l in
          absurd (not_in_nothing (surfaces_in g n) s same c)
      | inr (inr (inr (inl l))) ↦
          let (x, i, same) =
            listed_node (λ y. y.uid) (λ y. y.id) derived_node (λ y u. refl) (λ y. []) (λ y u. refl)
              g derived uid n built.derived_held at_n l in
          absurd (not_in_nothing (surfaces_in g n) s same c)
      | inr (inr (inr (inr l))) ↦
          let (x, i, same) =
            listed_node (λ y. y.uid) (λ y. y.id) test_node (λ y u. refl) (λ y. []) (λ y u. refl) g
              tests uid n built.tests_held at_n l in
          absurd (not_in_nothing (surfaces_in g n) s same c)
    ]

    from_graph-ListedBy :
        (s : Str)
        → BTreeMap.contains_key s (from_graph g).surface_claimants ≡ true
        → ListedBy hlrs s
    unfolding from_graph
    from_graph-ListedBy s h =
        let at_all =
          sym (ap (BTreeMap.contains_key s) (claims_of_nodes_lem g default_bijections (nodes_of g)))
          ∙ h in
        elim (claim_all_only node_id (surfaces_in g) [] (nodes_of g) s at_all) [
          | inl none_yet ↦ absurd (no_key s none_yet)
          | inr (n, i, c) ↦
              let (e, j, same) = Memᴰ.of_map (λ e. e.1) g.nodes i in
              node_listed s e.0 n (get_of_mem g.nodes e built.well_formed.sorted j ∙ ap some same) c
        ]

  -- The mappings, whether or not the entries make a graph.
  pub mappings_of-Claimed :
      (s : Str)
      → ListedBy hlrs s
      → Claimed (mappings_of sys hlrs llrs tests derived).surface_claimants s
  unfolding mappings_of from_entries
  mappings_of-Claimed s (x, i, c) =
      elim (Result-cases (graph_from_trace_parts sys hlrs llrs tests derived)) [
        | inl (g, e) ↦
            rw (e, mappings_of)
              (from_graph-Claimed g
                (graph_from_trace_parts-IsAdapted sys hlrs llrs tests derived g e) s (x, i, c))
        | inr (_, e) ↦
            rw (e, mappings_of)
              (subst (λ m. Claimed m s) (sym (from_hlr_entries_lem [] hlrs))
                (claim_all_claim (λ y. y.id) (λ y. y.surfaces) [] hlrs x s i c))
      ]

  pub mappings_of-ListedBy :
      (s : Str)
      → BTreeMap.contains_key s (mappings_of sys hlrs llrs tests derived).surface_claimants ≡ true
      → ListedBy hlrs s
  unfolding mappings_of from_entries
  mappings_of-ListedBy s h =
      elim (Result-cases (graph_from_trace_parts sys hlrs llrs tests derived)) [
        | inl (g, e) ↦
            from_graph-ListedBy g (graph_from_trace_parts-IsAdapted sys hlrs llrs tests derived g e)
              s (rw (e, mappings_of) at h)
        | inr (_, e) ↦
            let at_all =
              sym (ap (BTreeMap.contains_key s) (from_hlr_entries_lem [] hlrs))
              ∙ rw (e, mappings_of) at h in
            elim (claim_all_only (λ y. y.id) (λ y. y.surfaces) [] hlrs s at_all) [
              | inl none_yet ↦ absurd (no_key s none_yet)
              | inr found ↦ found
            ]
      ]

  pub mappings_of-SurfacesListed :
      SurfacesMatch (mappings_of sys hlrs llrs tests derived).surface_claimants
      → SurfacesListed hlrs
  mappings_of-SurfacesListed matched = record {
    known = λ s listed.
        let (ids, at_s, claimed) = mappings_of-Claimed s listed in
        All_entry _ s (mappings_of sys hlrs llrs tests derived).surface_claimants ids matched.known
          at_s claimed;
    claimed = All-imp known_surfaces mappings_of-ListedBy matched.claimed;
  }
