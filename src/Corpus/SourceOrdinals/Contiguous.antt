-- ===== src/Corpus/SourceOrdinals/Contiguous.antt =====
-- What an accepted sibling set looks like.
use evidence.Prelude.{
  ℕ, suc, ◌%◌, ◌^◌, ◌==◌, ==_iff, Str, Option, none, some, List, [], ◌∷◌, ok, for_each-ok, sort,
  str_ord, nat_ord, pair_ord, All, ◌≡◌, inl, inr, Bool-cases,
}
use evidence.BTreeMap.{values}
use evidence.Corpus.SourceNodes.{SourceGraph}
use evidence.Corpus.SourceOrdinals.{
  Sibling, SiblingSets, sibling_sets, repeats, check_siblings, validate_ordinals,
}

-- The ordinals are `n`, `n + 1` and so on, as a `u32` holds them.
abbrev pub CountsFrom : ℕ → List Sibling → Type 0
CountsFrom n [] = Unit
CountsFrom n (s ∷ ss) = (s.0 ≡ n % 2 ^ 32) × CountsFrom (suc n) ss

check_siblings-CountsFrom :
    (revision_uid : Str) (parent_uid : Option Str) (previous : Option Sibling) (n : ℕ)
    (siblings : List Sibling)
    → check_siblings revision_uid parent_uid previous n siblings ≡ ok tt
    → CountsFrom n siblings
unfolding check_siblings
check_siblings-CountsFrom revision_uid parent_uid previous n [] h = tt
check_siblings-CountsFrom revision_uid parent_uid previous n ((ordinal, uid) ∷ rest) h =
    elim (Bool-cases (repeats previous ordinal)) [
      | inl p ↦ absurd (cc (rw (p, check_siblings) at h))
      | inr p ↦ elim (Bool-cases (ordinal == n % 2 ^ 32)) [
        | inr q ↦ absurd (cc (rw (p, q, check_siblings) at h))
        | inl q ↦ (
          (==_iff ordinal (n % 2 ^ 32)).0 q,
          check_siblings-CountsFrom revision_uid parent_uid (some (ordinal, uid)) (suc n) rest
              (rw (p, q, check_siblings) at h),
        )
      ]
    ]

accepted_sets :
    (revision_uid : Str) (sets : SiblingSets)
    → All (λ e. check_siblings revision_uid e.0 none 0 (sort e.1) ≡ ok tt) sets
    → All (λ e. CountsFrom 0 (sort e.1)) sets
accepted_sets revision_uid [] h = tt
accepted_sets revision_uid (e ∷ sets) h = (
  check_siblings-CountsFrom revision_uid e.0 none 0 (sort e.1) h.0,
  accepted_sets revision_uid sets h.1,
)

-- In an accepted source graph the children of each parent, and the roots, are numbered without
-- gap or repetition: in the order of ordinal and uid their ordinals count from 0.
pub validate_ordinals-CountsFrom :
    (revision_uid : Str) (g : SourceGraph)
    → validate_ordinals revision_uid g ≡ ok tt
    → All (λ e. CountsFrom 0 (sort e.1)) (sibling_sets [] (values g))
unfolding validate_ordinals
validate_ordinals-CountsFrom revision_uid g h =
    accepted_sets revision_uid (sibling_sets [] (values g))
      (for_each-ok _ (sibling_sets [] (values g)) h)
