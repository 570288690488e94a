-- ===== src/Corpus/Transition/Diff.antt =====
-- The differences that a transition reports.
use evidence.Prelude.{true, none, str_eq_iff, ◌≡◌, ◌↔◌, arith}
use evidence.Corpus.Nodes.{SourceCapture, SourceMaterial}
use evidence.Corpus.SourceOrdinals.{opt_eq_iff}
use evidence.Corpus.Transition.{
  SourceRevisionProjection, capture_eq, material_diff, projection_diff,
}

capture_eq_iff : (a b : SourceCapture) → (capture_eq a b ≡ true) ↔ (a ≡ b)
unfolding capture_eq
capture_eq_iff (SourceCapture.vendored p) (SourceCapture.vendored q) =
    ground (arith, str_eq_iff p q)
capture_eq_iff (SourceCapture.vendored p) SourceCapture.hash_only = ground arith
capture_eq_iff (SourceCapture.vendored p) (SourceCapture.external_controlled t j) = ground arith
capture_eq_iff SourceCapture.hash_only (SourceCapture.vendored q) = ground arith
capture_eq_iff SourceCapture.hash_only SourceCapture.hash_only = ground arith
capture_eq_iff SourceCapture.hash_only (SourceCapture.external_controlled t j) = ground arith
capture_eq_iff (SourceCapture.external_controlled s i) (SourceCapture.vendored q) = ground arith
capture_eq_iff (SourceCapture.external_controlled s i) SourceCapture.hash_only = ground arith
capture_eq_iff (SourceCapture.external_controlled s i) (SourceCapture.external_controlled t j) =
    ground (arith, str_eq_iff s t, str_eq_iff i j)

material_diff_iff : (a b : SourceMaterial) → (material_diff a b ≡ none) ↔ (a ≡ b)
unfolding material_diff
material_diff_iff (SourceMaterial.available at sha capture)
      (SourceMaterial.available at' sha' capture') =
    ground (arith, str_eq_iff at at', str_eq_iff sha sha', capture_eq_iff capture capture')
material_diff_iff (SourceMaterial.available at sha capture) (SourceMaterial.unavailable r) =
    ground arith
material_diff_iff (SourceMaterial.unavailable r) (SourceMaterial.available at sha capture) =
    ground arith
material_diff_iff (SourceMaterial.unavailable r) (SourceMaterial.unavailable r') =
    ground (arith, str_eq_iff r r')

-- For two projections of one uid no difference is reported exactly when they are equal.
pub projection_diff_iff :
    (a b : SourceRevisionProjection) → a.uid ≡ b.uid → (projection_diff a b ≡ none) ↔ (a ≡ b)
unfolding projection_diff
projection_diff_iff a b e = ground (
  arith,
  str_eq_iff a.id b.id,
  str_eq_iff a.document_key b.document_key,
  str_eq_iff a.title b.title,
  str_eq_iff a.media_type b.media_type,
  str_eq_iff a.canonical_location b.canonical_location,
  material_diff_iff a.material b.material,
  opt_eq_iff a.supersedes b.supersedes,
)
