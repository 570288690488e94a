-- ===== src/Corpus/ReviewContent/Laws.antt =====
-- The canonical bytes against the canonical content.
use mathlib.Core.List.{append_assoc, append-nil, Permᴰ}
use evidence.Prelude.{
  ℕ, ◌<◌, Str, List, [], ◌∷◌, ◌++◌, length, sort, dedup, str_ord, ◌≡◌, refl, sym, ◌∙◌, ap, arith,
  All, sort-perm, sort-IsAscending, dedup-IsStrict, sort_of_IsStrict, dedup_of_IsStrict,
}
use evidence.Corpus.Nodes.{RequirementLayer}
use evidence.Corpus.Encoding.{u64_be, none_sentinel, push_count}
use evidence.Corpus.Encoding.Injective.{
  u64_be_injective, Fits, FitsOption, str_bytes, opt_bytes, strs_bytes, str_bytes_injective,
  opt_bytes_injective, strs_bytes_injective, push_str-bytes, push_opt-bytes, push_strs-bytes,
}
use evidence.Corpus.ReviewContent.{
  RequirementReviewContentV1, layer_str, canonical_strings, canonicalize, domain_tag_v1,
  canonical_bytes_v1,
}

-- To canonicalize twice is to canonicalize once.
pub canonical_strings_idem :
    (values : List Str) → canonical_strings (canonical_strings values) ≡ canonical_strings values
unfolding canonical_strings
canonical_strings_idem values =
    let strict = dedup-IsStrict (sort values) (sort-IsAscending values) in
    ap dedup (sort_of_IsStrict (dedup (sort values)) strict)
    ∙ dedup_of_IsStrict (dedup (sort values)) strict

-- All fields of a content have lengths below `u64::MAX`.
pub record ContentFits (c : RequirementReviewContentV1) : Type 0 where
  pub title : Fits c.title
  pub description : FitsOption c.description
  pub rationale : FitsOption c.rationale
  pub scope : FitsOption c.scope
  pub category : FitsOption c.category
  pub source : FitsOption c.source
  pub methods : All Fits (canonical_strings c.verification_methods)
  pub method_count : length (canonical_strings c.verification_methods) < none_sentinel
  pub targets : All Fits (canonical_strings c.derives_from)
  pub target_count : length (canonical_strings c.derives_from) < none_sentinel
  pub safety_impact : FitsOption c.safety_impact

layer_str_injective : (a b : RequirementLayer) → layer_str a ≡ layer_str b → a ≡ b
layer_str_injective a b h = ground arith

layer_str-Fits : (a : RequirementLayer) → Fits (layer_str a)
layer_str-Fits RequirementLayer.source = omega arith
layer_str-Fits RequirementLayer.sys = omega arith
layer_str-Fits RequirementLayer.hlr = omega arith
layer_str-Fits RequirementLayer.llr = omega arith
layer_str-Fits RequirementLayer.derived = omega arith

tail_eq : {x y : ℕ} {r s : Str} → x ∷ r ≡ y ∷ s → r ≡ s
tail_eq h = cc

-- The bytes, bracketed to the right.
body : RequirementReviewContentV1 → Str
body c =
    str_bytes c.title
    ++ (str_bytes (layer_str c.layer)
        ++ (opt_bytes c.description
            ++ (opt_bytes c.rationale
                ++ (opt_bytes c.scope
                    ++ (opt_bytes c.category
                        ++ (opt_bytes c.source
                            ++ (u64_be (length (canonical_strings c.verification_methods))
                                ++ (strs_bytes (canonical_strings c.verification_methods)
                                    ++ (u64_be (length (canonical_strings c.derives_from))
                                        ++ (strs_bytes (canonical_strings c.derives_from)
                                            ++ (opt_bytes c.safety_impact ++ [])))))))))))

push_count-bytes : (out : Str) (n : ℕ) → push_count out n ≡ out ++ u64_be n
unfolding push_count
push_count-bytes out n = refl

canonical_bytes_v1-body :
    (c : RequirementReviewContentV1) → canonical_bytes_v1 c ≡ (domain_tag_v1 ++ 0 ∷ []) ++ body c
unfolding canonical_bytes_v1 body
canonical_bytes_v1-body c =
    simp
      (push_str-bytes, push_opt-bytes, push_strs-bytes, push_count-bytes, append_assoc, append-nil)

prefix_injective : (p r s : Str) → p ++ r ≡ p ++ s → r ≡ s
prefix_injective [] r s h = h
prefix_injective (x ∷ p) r s h = prefix_injective p r s (tail_eq h)

-- Contents with the same canonical bytes are the same up to the order and repetition of their
-- methods and parents: every field is read back, whatever the texts hold.
pub canonical_bytes_v1_injective :
    (a b : RequirementReviewContentV1)
    → ContentFits a
    → ContentFits b
    → canonical_bytes_v1 a ≡ canonical_bytes_v1 b
    → canonicalize a ≡ canonicalize b
unfolding canonicalize body
canonical_bytes_v1_injective a b fa fb h =
    let h0 =
      prefix_injective (domain_tag_v1 ++ 0 ∷ []) (body a) (body b)
        (sym (canonical_bytes_v1-body a) ∙ h ∙ canonical_bytes_v1-body b) in
    let (title, h1) = str_bytes_injective a.title b.title _ _ fa.title fb.title h0 in
    let (layer, h2) =
      str_bytes_injective (layer_str a.layer) (layer_str b.layer) _ _ (layer_str-Fits a.layer)
        (layer_str-Fits b.layer) h1 in
    let (description, h3) =
      opt_bytes_injective a.description b.description _ _ fa.description fb.description h2 in
    let (rationale, h4) =
      opt_bytes_injective a.rationale b.rationale _ _ fa.rationale fb.rationale h3 in
    let (scope, h5) = opt_bytes_injective a.scope b.scope _ _ fa.scope fb.scope h4 in
    let (category, h6) = opt_bytes_injective a.category b.category _ _ fa.category fb.category h5 in
    let (source, h7) = opt_bytes_injective a.source b.source _ _ fa.source fb.source h6 in
    let (count, h8) =
      u64_be_injective (length (canonical_strings a.verification_methods))
        (length (canonical_strings b.verification_methods)) _ _ (omega (arith, fa.method_count))
        (omega (arith, fb.method_count)) h7 in
    let (methods, h9) =
      strs_bytes_injective (canonical_strings a.verification_methods)
        (canonical_strings b.verification_methods) _ _ fa.methods fb.methods count h8 in
    let (count', h10) =
      u64_be_injective (length (canonical_strings a.derives_from))
        (length (canonical_strings b.derives_from)) _ _ (omega (arith, fa.target_count))
        (omega (arith, fb.target_count)) h9 in
    let (targets, h11) =
      strs_bytes_injective (canonical_strings a.derives_from) (canonical_strings b.derives_from) _ _
        fa.targets fb.targets count' h10 in
    let (impact, h12) =
      opt_bytes_injective a.safety_impact b.safety_impact _ _ fa.safety_impact fb.safety_impact
        h11 in
    let layers = layer_str_injective a.layer b.layer layer in cc

-- The bytes do not depend on the order in which methods and parents are listed.
pub canonical_bytes_v1-perm :
    (c : RequirementReviewContentV1) (methods targets : List Str)
    → Permᴰ methods c.verification_methods
    → Permᴰ targets c.derives_from
    → canonical_bytes_v1 (record c { verification_methods = methods; derives_from = targets })
      ≡ canonical_bytes_v1 c
unfolding canonical_bytes_v1
canonical_bytes_v1-perm c methods targets p q = rw (sort-perm p, sort-perm q)
