-- ===== src/Corpus/Examples/Contents.antt =====
-- The theorems on review contents, applied to two listings of one requirement.
use mathlib.Core.List.{Permᴰ}
use mathlib.Core.List.Permᴰ
use evidence.Prelude.{
  codes, none, some, [], ◌∷◌, ◌≡◌, refl, arith, sort, dedup, insert_sorted, str_ord,
}
use evidence.Corpus.Nodes.{RequirementLayer}
use evidence.Corpus.ReviewContent.{
  RequirementReviewContentV1, canonical_strings, canonicalize, canonical_bytes_v1,
}
use evidence.Corpus.ReviewContent.Laws.{
  ContentFits, canonical_bytes_v1_injective, canonical_bytes_v1-perm,
}

abbrev listed : RequirementReviewContentV1
listed = record {
  title = codes "T";
  layer = RequirementLayer.llr;
  description = some (codes "shall");
  rationale = none;
  scope = none;
  category = none;
  source = none;
  verification_methods = codes "test" ∷ codes "review" ∷ [];
  derives_from = codes "r1" ∷ [];
  safety_impact = none;
}

abbrev relisted : RequirementReviewContentV1
relisted = record listed {
  verification_methods = codes "review" ∷ codes "test" ∷ [];
  derives_from = codes "r1" ∷ [];
}

listed-fits : ContentFits listed
unfolding canonical_strings sort dedup insert_sorted
listed-fits = record {
  title = omega arith;
  description = omega arith;
  rationale = tt;
  scope = tt;
  category = tt;
  source = tt;
  methods = (omega arith, (omega arith, tt));
  method_count = omega arith;
  targets = (omega arith, tt);
  target_count = omega arith;
  safety_impact = tt;
}

relisted-fits : ContentFits relisted
unfolding canonical_strings sort dedup insert_sorted
relisted-fits = record {
  title = omega arith;
  description = omega arith;
  rationale = tt;
  scope = tt;
  category = tt;
  source = tt;
  methods = (omega arith, (omega arith, tt));
  method_count = omega arith;
  targets = (omega arith, tt);
  target_count = omega arith;
  safety_impact = tt;
}

methods-perm : Permᴰ (codes "review" ∷ codes "test" ∷ []) (codes "test" ∷ codes "review" ∷ [])
methods-perm = Permᴰ.swap refl refl

canonical_bytes_v1-perm_example : canonical_bytes_v1 relisted ≡ canonical_bytes_v1 listed
canonical_bytes_v1-perm_example =
    canonical_bytes_v1-perm listed (codes "review" ∷ codes "test" ∷ []) (codes "r1" ∷ [])
      methods-perm (Permᴰ.refl (codes "r1" ∷ []))

same_bytes : canonical_bytes_v1 relisted ≡ canonical_bytes_v1 listed
same_bytes =
    canonical_bytes_v1-perm listed (codes "review" ∷ codes "test" ∷ []) (codes "r1" ∷ [])
      methods-perm (Permᴰ.refl (codes "r1" ∷ []))

canonical_bytes_v1_injective_example : canonicalize relisted ≡ canonicalize listed
canonical_bytes_v1_injective_example =
    canonical_bytes_v1_injective relisted listed relisted-fits listed-fits same_bytes
