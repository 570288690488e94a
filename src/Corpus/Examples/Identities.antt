-- ===== src/Corpus/Examples/Identities.antt =====
-- The theorems on reconciliation, applied to a section with two paragraphs that is ingested again in
-- the order of the document.
use mathlib.Core.List.{Permᴰ}
use evidence.Prelude.{
  ℕ, Str, none, codes, List, [], ◌∷◌, ◌++◌, map, contains, str_eq, str_ord, All, Bool-cases,
  some_injective, ◌≡◌, ◌≢◌, ◌⊎◌, inl, inr, refl, sym, ◌∙◌, arith,
}
use evidence.BTreeMap
use evidence.BTreeMap.{values}
use evidence.Corpus.SourceNodes.{SourceNodeKind, SourceNode}
use evidence.Corpus.Walk.{weight}
use evidence.Corpus.Identity.{
  StructuralKey, CandidateNode, to_candidate, mint_node_uid, key_eq, explicit_identity,
  structural_key, reconcile,
}
use evidence.Corpus.Identity.Keys.{key_eq_iff, reingested}
use evidence.Corpus.Identity.Presented.{InGraph}
use evidence.Corpus.Identity.Unchanged.{uids_with, reconcile_same}
use evidence.Corpus.Identity.Reordered.{reconcile_reordered}
use evidence.Corpus.Identity.Reused.{IsReconciled, reconcile-IsReconciled}
use evidence.Corpus.Examples.Sources.{
  one_digest, document, section, first_paragraph, second_paragraph,
}
use evidence.Corpus.Examples.Applications.{document-IsStore}

-- A text for each number.
abbrev numbered : ℕ → Str
numbered n = n ∷ []

abbrev edited : SourceNode → Str
edited n = codes "new " ++ n.canonical_text

-- The ids that a second ingestion gives.
abbrev renamed : Str → Str
renamed uid = codes "c" ++ uid

renamed_injective : (u v : Str) → renamed u ≡ renamed v → u ≡ v
renamed_injective u v h = cc

-- The paragraphs by their ordinals, which is not the order of their uids.
abbrev in_order : List SourceNode
in_order = section ∷ second_paragraph ∷ first_paragraph ∷ []

abbrev section_key : StructuralKey
section_key = StructuralKey.explicit SourceNodeKind.section (codes "1")

section-key : structural_key one_digest document section ≡ section_key
unfolding structural_key explicit_identity
section-key = refl

first-key :
    structural_key one_digest document first_paragraph
    ≡ StructuralKey.position section_key SourceNodeKind.paragraph 1
unfolding structural_key explicit_identity BTreeMap.get contains weight
first-key = refl

second-key :
    structural_key one_digest document second_paragraph
    ≡ StructuralKey.position section_key SourceNodeKind.paragraph 0
unfolding structural_key explicit_identity BTreeMap.get contains weight
second-key = refl

apart :
    structural_key one_digest document first_paragraph
    ≢ structural_key one_digest document second_paragraph
apart h = cc (first-key, second-key)

same_order :
    (key : StructuralKey)
    → uids_with (structural_key one_digest document) key in_order
      ≡ uids_with (structural_key one_digest document) key (values document)
same_order key =
    let first = structural_key one_digest document first_paragraph in
    let second = structural_key one_digest document second_paragraph in
    elim (Bool-cases (key_eq key first)) [
      | inr p ↦ rw p refl
      | inl p ↦ elim (Bool-cases (key_eq key second)) [
        | inr q ↦ rw (p, q) refl
        | inl q ↦ absurd (apart (sym ((key_eq_iff key first).0 p) ∙ (key_eq_iff key second).0 q))
      ]
    ]

in_document : All (InGraph document) in_order
unfolding BTreeMap.get
in_document = (refl, (refl, (refl, tt)))

reconcile_same_example :
    reconcile numbered one_digest document
      (map (reingested renamed edited (λ n. n.locator)) in_order)
    ≡ map
        (λ n. record { uid = n.uid; candidate = reingested renamed edited (λ n. n.locator) n })
        in_order
reconcile_same_example =
    reconcile_same one_digest numbered document renamed edited (λ n. n.locator) in_order
      document-IsStore renamed_injective (λ n. refl) in_document same_order

members :
    (n : SourceNode)
    → InGraph document n
    → (n ≡ section) ⊎ (n ≡ first_paragraph) ⊎ (n ≡ second_paragraph)
unfolding BTreeMap.get
members n h = elim (Bool-cases (str_eq n.uid (codes "n1"))) [
  | inl p ↦ inl (some_injective (sym (rw (p, BTreeMap.get) at h)))
  | inr p ↦ elim (Bool-cases (str_eq n.uid (codes "n2"))) [
    | inl q ↦ inr (inl (some_injective (sym (rw (p, q, BTreeMap.get) at h))))
    | inr q ↦ elim (Bool-cases (str_eq n.uid (codes "n3"))) [
      | inl r ↦ inr (inr (some_injective (sym (rw (p, q, r, BTreeMap.get) at h))))
      | inr r ↦ absurd (cc (rw (p, q, r, BTreeMap.get) at h))
    ]
  ]
]

unlike :
    (m n : SourceNode)
    → InGraph document m
    → InGraph document n
    → structural_key one_digest document m ≡ structural_key one_digest document n
    → m.uid ≡ n.uid
unlike m n p q h = ground (arith, members m p, members n q, section-key, first-key, second-key)

reconcile_reordered_example :
    reconcile numbered one_digest document
      (map (reingested renamed edited (λ n. n.locator)) in_order)
    ≡ map
        (λ n. record { uid = n.uid; candidate = reingested renamed edited (λ n. n.locator) n })
        in_order
reconcile_reordered_example =
    reconcile_reordered one_digest numbered document renamed edited (λ n. n.locator) in_order
      document-IsStore renamed_injective (λ n. refl) unlike (Permᴰ.cons refl (Permᴰ.swap refl refl))

-- The section twice, of which one is new, and a paragraph.
abbrev presented : List CandidateNode
presented =
    to_candidate section
    ∷ record (to_candidate section) { provisional_id = codes "again" }
    ∷ to_candidate first_paragraph
    ∷ []

numbered_injective : (i j : ℕ) → mint_node_uid numbered i ≡ mint_node_uid numbered j → i ≡ j
numbered_injective i j h = cc

numbered_unused : (i : ℕ) → BTreeMap.get (mint_node_uid numbered i) document ≡ none
unfolding BTreeMap.get
numbered_unused i = refl

reconcile-IsReconciled_example :
    IsReconciled one_digest numbered document presented
      (reconcile numbered one_digest document presented)
reconcile-IsReconciled_example =
    reconcile-IsReconciled one_digest numbered document presented document-IsStore
      numbered_injective numbered_unused
