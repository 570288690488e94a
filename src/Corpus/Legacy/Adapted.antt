-- ===== src/Corpus/Legacy/Adapted.antt =====
-- What the adapter builds.
use mathlib.Core.List.{Memᴰ}
use evidence.Prelude.{
  Str, Option, none, some, List, ok, ◌>>=◌, >>=-eq-ok, All, All-imp, str_ord, ◌≡◌, ◌⊎◌, inl, inr,
  refl, sym, ap, ◌∙◌, ok_injective,
}
use evidence.BTreeMap
use evidence.Corpus.Nodes.{RequirementLayer, Node, node_uid}
use evidence.Corpus.Graph.{CorpusGraph, get, new}
use evidence.Corpus.Graph.Invariant.{IsWellFormed}
use evidence.Corpus.Legacy.{
  AdaptedNode, require_uid, hlr_node, llr_node, derived_node, test_node, insert_entries,
  requirement_from_hlr_entry, requirement_from_llr_entry, requirement_from_derived_entry,
  test_from_entry, graph_from_trace_parts,
}
use evidence.Corpus.Legacy.Entries.{Gives, HoldsEntry, kept_over, entries_kept, entries_only}
use evidence.Trace.Entries.{HlrEntry, LlrEntry, TestEntry, DerivedEntry}

-- An entry of the list has the uid.
abbrev pub Listed : {A : Type 0} → (A → Option Str) → List A → Str → Type 0
Listed {A} uid_of xs uid = (x : A) × Memᴰ x xs × (uid_of x ≡ some uid)

-- The graph of the entries: each stands in it as the adapter translates it, and nothing else does.
pub record IsAdapted (sys hlrs : List HlrEntry) (llrs : List LlrEntry) (tests : List TestEntry)
    (derived : List DerivedEntry) (g : CorpusGraph) : Type 0 where
  pub well_formed : IsWellFormed g
  pub sys_held : All (HoldsEntry (requirement_from_hlr_entry RequirementLayer.sys) g) sys
  pub hlrs_held : All (HoldsEntry (requirement_from_hlr_entry RequirementLayer.hlr) g) hlrs
  pub llrs_held : All (HoldsEntry requirement_from_llr_entry g) llrs
  pub derived_held : All (HoldsEntry requirement_from_derived_entry g) derived
  pub tests_held : All (HoldsEntry test_from_entry g) tests
  pub no_other :
      (uid : Str) (n : Node)
      → get uid g ≡ some n
      → Listed (λ x. x.uid) sys uid
        ⊎ (Listed (λ x. x.uid) hlrs uid
            ⊎ (Listed (λ x. x.uid) llrs uid
                ⊎ (Listed (λ x. x.uid) derived uid ⊎ Listed (λ x. x.uid) tests uid)))

pub required : (o : Option Str) (id uid : Str) → require_uid o id ≡ ok uid → o ≡ some uid
required none id uid h = absurd (cc)
required (some u) id uid h = cc

module _ {A : Type 0} (uid_of : A → Option Str) (id_of : A → Str) (make : A → Str → AdaptedNode)
    (named : (x : A) (uid : Str) → node_uid (make x uid).node ≡ uid) where
  listed :
      (xs : List A) (uid : Str)
      → ((x : A) × Memᴰ x xs
          × Gives (λ x. require_uid (uid_of x) (id_of x) >>= λ u. ok (make x u)) uid x)
      → Listed uid_of xs uid
  listed xs uid (x, m, (a, adapted, same)) =
      let (u, at_u, made) = >>=-eq-ok (require_uid (uid_of x) (id_of x)) _ adapted in
      let one : u ≡ uid = sym (named x u) ∙ ap (λ y. node_uid y.node) (ok_injective made) ∙ same in
      (x, m, required (uid_of x) (id_of x) uid (at_u ∙ ap ok one))

new-IsWellFormed : IsWellFormed new
new-IsWellFormed = record { sorted = tt; keyed = tt; canonical = tt; unique_ids = tt }

nothing_yet : (uid : Str) (n : Node) → get uid new ≡ some n → ⊥
unfolding BTreeMap.get
nothing_yet uid n h = cc

-- When the graph of the trace entries is built, it is well formed, every entry of every file stands
-- in it under its uid as the adapter translates it, with its metadata, and every node of the graph
-- has the uid of an entry.
pub graph_from_trace_parts-IsAdapted :
    (sys hlrs : List HlrEntry) (llrs : List LlrEntry) (tests : List TestEntry)
    (derived : List DerivedEntry) (g : CorpusGraph)
    → graph_from_trace_parts sys hlrs llrs tests derived ≡ ok g
    → IsAdapted sys hlrs llrs tests derived g
unfolding graph_from_trace_parts
graph_from_trace_parts-IsAdapted sys hlrs llrs tests derived g e =
    let (g1, e1, r1) =
      >>=-eq-ok (insert_entries (requirement_from_hlr_entry RequirementLayer.sys) new sys) _ e in
    let (g2, e2, r2) =
      >>=-eq-ok (insert_entries (requirement_from_hlr_entry RequirementLayer.hlr) g1 hlrs) _ r1 in
    let (g3, e3, r3) = >>=-eq-ok (insert_entries requirement_from_llr_entry g2 llrs) _ r2 in
    let (g4, e4, e5) = >>=-eq-ok (insert_entries requirement_from_derived_entry g3 derived) _ r3 in
    let (x1, a1) = entries_kept _ new g1 sys e1 in
    let (x2, a2) = entries_kept _ g1 g2 hlrs e2 in
    let (x3, a3) = entries_kept _ g2 g3 llrs e3 in
    let (x4, a4) = entries_kept _ g3 g4 derived e4 in
    let (x5, a5) = entries_kept _ g4 g tests e5 in
    let y3 = kept_over g3 g4 g x4 x5 in
    let y2 = kept_over g2 g3 g x3 y3 in
    let y1 = kept_over g1 g2 g x2 y2 in
    record {
      well_formed = y1.well_formed (x1.well_formed new-IsWellFormed);
      sys_held = All-imp sys (λ x (a, adapted, now). (a, adapted, y1.kept a now)) a1;
      hlrs_held = All-imp hlrs (λ x (a, adapted, now). (a, adapted, y2.kept a now)) a2;
      llrs_held = All-imp llrs (λ x (a, adapted, now). (a, adapted, y3.kept a now)) a3;
      derived_held = All-imp derived (λ x (a, adapted, now). (a, adapted, x5.kept a now)) a4;
      tests_held = a5;
      no_other = λ uid n at_g. elim (entries_only _ g4 g tests e5 uid n at_g) [
        | inr here ↦ inr (inr (inr (inr (listed _ _ test_node (λ x u. refl) tests uid here))))
        | inl at4 ↦ elim (entries_only _ g3 g4 derived e4 uid n at4) [
          | inr here ↦
              inr (inr (inr (inl (listed _ _ derived_node (λ x u. refl) derived uid here))))
          | inl at3 ↦ elim (entries_only _ g2 g3 llrs e3 uid n at3) [
            | inr here ↦ inr (inr (inl (listed _ _ llr_node (λ x u. refl) llrs uid here)))
            | inl at2 ↦ elim (entries_only _ g1 g2 hlrs e2 uid n at2) [
              | inr here ↦ inr (
                  inl
                    (listed _ _ (λ x. hlr_node x RequirementLayer.hlr) (λ x u. refl) hlrs uid here))
              | inl at1 ↦ elim (entries_only _ new g1 sys e1 uid n at1) [
                | inr here ↦
                    inl
                      (listed _ _ (λ x. hlr_node x RequirementLayer.sys) (λ x u. refl) sys uid here)
                | inl at0 ↦ absurd (nothing_yet uid n at0)
              ]
            ]
          ]
        ]
      ];
    }
