-- ===== src/Trace/Surfaces/Matched.antt =====
-- Claims without errors match the catalog of surfaces.
use evidence.Prelude.{
  Str, true, false, List, [], ◌∷◌, contains, All, str_ord, Bool-cases, if◌then◌else◌, ◌≡◌, inl, inr,
}
use evidence.BTreeMap
use evidence.Trace.Errors.{LinkError}
use evidence.Trace.Surfaces.{
  Claimants, known_surfaces, unknown_by, unknown_surfaces, unclaimed_surfaces, surface_errors,
}
use evidence.Trace.Links.{is_empty}
use evidence.Trace.Links.Sound.{append-eq-nil}

-- Every claimed surface is known, and every known one is claimed.
pub record SurfacesMatch (mappings : Claimants) : Type 0 where
  pub known : All (λ e. is_empty e.1 ≡ false → contains known_surfaces e.0 ≡ true) mappings
  pub claimed : All (λ s. BTreeMap.contains_key s mappings ≡ true) known_surfaces

known_claim :
    (surface : Str) (claimants : List Str)
    → (if contains known_surfaces surface then [] else unknown_by surface claimants) ≡ []
    → is_empty claimants ≡ false
    → contains known_surfaces surface ≡ true
unfolding unknown_by
known_claim surface claimants h e = elim (Bool-cases (contains known_surfaces surface)) [
  | inl p ↦ p
  | inr p ↦ absurd (no_claim claimants (rw p at h) e)
]
  where
    no_claim : (ids : List Str) → unknown_by surface ids ≡ [] → is_empty ids ≡ false → ⊥
    no_claim [] g f = cc
    no_claim (id ∷ ids) g f = cc

unknown_surfaces-nil :
    (mappings : Claimants)
    → unknown_surfaces mappings ≡ []
    → All (λ e. is_empty e.1 ≡ false → contains known_surfaces e.0 ≡ true) mappings
unfolding unknown_surfaces
unknown_surfaces-nil [] h = tt
unknown_surfaces-nil ((surface, claimants) ∷ rest) h =
    let (now, later) =
      append-eq-nil (if contains known_surfaces surface then [] else unknown_by surface claimants)
        (unknown_surfaces rest) h in
    (known_claim surface claimants now, unknown_surfaces-nil rest later)

unclaimed_surfaces-nil :
    (mappings : Claimants) (surfaces : List Str)
    → unclaimed_surfaces mappings surfaces ≡ []
    → All (λ s. BTreeMap.contains_key s mappings ≡ true) surfaces
unfolding unclaimed_surfaces
unclaimed_surfaces-nil mappings [] h = tt
unclaimed_surfaces-nil mappings (surface ∷ surfaces) h =
    let (now, later) =
      append-eq-nil
        (if BTreeMap.contains_key surface mappings
          then []
          else LinkError.surface_unclaimed surface ∷ [])
        (unclaimed_surfaces mappings surfaces) h in
    (
      elim (Bool-cases (BTreeMap.contains_key surface mappings)) [
        | inl p ↦ p
        | inr p ↦ absurd (cc (rw p at now))
      ],
      unclaimed_surfaces-nil mappings surfaces later,
    )

pub surface_errors-SurfacesMatch :
    (mappings : Claimants) → surface_errors mappings ≡ [] → SurfacesMatch mappings
unfolding surface_errors
surface_errors-SurfacesMatch mappings h =
    let (known, claimed) = append-eq-nil (unknown_surfaces mappings) _ h in
    record {
      known = unknown_surfaces-nil mappings known;
      claimed = unclaimed_surfaces-nil mappings known_surfaces claimed;
    }
