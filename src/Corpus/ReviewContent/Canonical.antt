-- ===== src/Corpus/ReviewContent/Canonical.antt =====
-- The canonical form of a set of texts has the same texts.
use evidence.Prelude.{
  Str, List, [], ◌∷◌, contains, insert_sorted, sort, dedup, str_eq, str_eq_iff, str_ord, ◌≡◌, refl,
  ◌∙◌, ◌||◌, arith,
}
use evidence.Corpus.ReviewContent.{canonical_strings}

contains-insert_sorted :
    (x : Str) (xs : List Str) (s : Str)
    → contains (insert_sorted x xs) s ≡ (str_eq x s || contains xs s)
unfolding contains insert_sorted
contains-insert_sorted x [] s = refl
contains-insert_sorted x (y ∷ ys) s = ground (arith, contains-insert_sorted x ys s)

contains-sort : (xs : List Str) (s : Str) → contains (sort xs) s ≡ contains xs s
unfolding contains sort
contains-sort [] s = refl
contains-sort (x ∷ xs) s = contains-insert_sorted x (sort xs) s ∙ ground (arith, contains-sort xs s)

contains-dedup : (xs : List Str) (s : Str) → contains (dedup xs) s ≡ contains xs s
unfolding contains dedup
contains-dedup [] s = refl
contains-dedup (x ∷ []) s = refl
contains-dedup (x ∷ y ∷ ys) s =
    ground (arith, contains-dedup (y ∷ ys) s, str_eq_iff x y, str_eq_iff y s, str_eq_iff x s)

pub contains-canonical_strings :
    (xs : List Str) (s : Str) → contains (canonical_strings xs) s ≡ contains xs s
unfolding canonical_strings
contains-canonical_strings xs s = contains-dedup (sort xs) s ∙ contains-sort xs s
