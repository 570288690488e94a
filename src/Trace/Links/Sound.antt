-- ===== src/Trace/Links/Sound.antt =====
-- What a link phase without errors establishes of each link.
use evidence.Prelude.{
  Str, Bool, true, false, ◌&&◌, Option, none, some, List, [], ◌∷◌, ◌++◌, contains, All, str_eq,
  str_eq_iff, str_ord, Option-cases, Bool-cases, ◌≡◌, inl, inr, refl, arith,
}
use evidence.BTreeMap
use evidence.BTreeMap.{BTreeMap}
use evidence.Trace.Errors.{LinkError}
use evidence.Trace.Register.{ItemKey}
use evidence.Trace.Links.{
  or_unknown, ownership_holds, check_link_target, check_found, check_link, opt_list, error_if,
  trace_errors,
}

pub append-eq-nil {ℓ} : {A : Type ℓ} (xs ys : List A) → xs ++ ys ≡ [] → (xs ≡ []) × (ys ≡ [])
append-eq-nil [] ys h = (refl, h)
append-eq-nil (x ∷ xs) ys h = absurd (cc)

pub error_if-nil : (b : Bool) (e : LinkError) → error_if b e ≡ [] → b ≡ false
error_if-nil true e h = absurd (cc)
error_if-nil false e h = refl

pub both : (b c : Bool) → (b && c) ≡ false → b ≡ true → c ≡ false
both b c h k = ground arith

opt_list-nil : (o : Option LinkError) → opt_list o ≡ [] → o ≡ none
opt_list-nil none h = refl
opt_list-nil (some e) h = absurd (cc)

-- The link names an indexed entry of the expected kind that the source may trace to.
pub record Resolves (is_uuid : Str → Bool) (uid_index : BTreeMap Str ItemKey) (source_kind : Str)
    (source_owner : Option Str) (expected link : Str) : Type 0 where
  pub uuid : is_uuid link ≡ true
  pub key : ItemKey
  pub found : BTreeMap.get link uid_index ≡ some key
  pub kind : key.0 ≡ expected
  pub ownership : ownership_holds source_kind expected (or_unknown source_owner) key.1.0 ≡ true

-- No text of the list repeats an earlier one or one of `seen`.
abbrev pub Unrepeated : List Str → List Str → Type 0
Unrepeated seen [] = Unit
Unrepeated seen (x ∷ xs) = (contains seen x ≡ false) × Unrepeated (x ∷ seen) xs

check_link_target-none :
    (source_kind source_id link expected : Str) (source_owner : Option Str) (key : ItemKey)
    → check_link_target source_kind source_id source_owner link expected key ≡ none
    → (key.0 ≡ expected)
      × (ownership_holds source_kind expected (or_unknown source_owner) key.1.0 ≡ true)
unfolding check_link_target
check_link_target-none source_kind source_id link expected source_owner (kind, (owner, id)) h =
    elim (Bool-cases (str_eq kind expected)) [
      | inr p ↦ absurd (cc (rw p at h))
      | inl p ↦
          elim (Bool-cases (ownership_holds source_kind expected (or_unknown source_owner) owner)) [
            | inl q ↦ ((str_eq_iff kind expected).0 p, q)
            | inr q ↦ absurd (cc (rw (p, q) at h))
          ]
    ]

module _ (is_uuid : Str → Bool) (uid_index : BTreeMap Str ItemKey) where
  check_link-Resolves :
      (source_kind source_id link expected : Str) (source_owner : Option Str)
      → check_link is_uuid uid_index source_kind source_id source_owner link expected ≡ none
      → Resolves is_uuid uid_index source_kind source_owner expected link
  unfolding check_link check_found
  check_link-Resolves source_kind source_id link expected source_owner h =
      elim (Bool-cases (is_uuid link)) [
        | inr p ↦ absurd (cc (rw p at h))
        | inl p ↦ elim (Option-cases (BTreeMap.get link uid_index)) [
          | inl q ↦ absurd (cc (rw (p, q) at h))
          | inr (key, q) ↦
              let (kind, ownership) =
                check_link_target-none source_kind source_id link expected source_owner key
                  (rw (p, q) at h) in
              record { uuid = p; key = key; found = q; kind = kind; ownership = ownership }
        ]
      ]

  pub trace_errors-nil :
      (source_kind source_id expected : Str) (source_owner : Option Str) (seen links : List Str)
      → trace_errors is_uuid uid_index source_kind source_id source_owner expected seen links ≡ []
      → All (Resolves is_uuid uid_index source_kind source_owner expected) links
        × Unrepeated seen links
  unfolding trace_errors
  trace_errors-nil source_kind source_id expected source_owner seen [] h = (tt, tt)
  trace_errors-nil source_kind source_id expected source_owner seen (link ∷ links) h =
      let (new, rest) = append-eq-nil (error_if (contains seen link) _) _ h in
      let (good, more) = append-eq-nil (opt_list _) _ rest in
      let (all, apart) =
        trace_errors-nil source_kind source_id expected source_owner (link ∷ seen) links more in
      (
        (
          check_link-Resolves source_kind source_id link expected source_owner
              (opt_list-nil _ good),
          all,
        ),
        (error_if-nil _ _ new, apart),
      )
