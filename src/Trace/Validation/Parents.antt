-- ===== src/Trace/Validation/Parents.antt =====
-- The entries that the links of accepted entries name.
use mathlib.Core.List.{Memᴰ}
use mathlib.Core.List.Memᴰ
use evidence.Prelude.{
  Str, codes, Bool, true, false, Option, some, List, map, str_eq, str_eq_iff, str_ord, ◌≡◌, ◌⊎◌,
  inl, inr, refl, sym, ap, ◌∙◌,
}
use evidence.Policy.{TracePolicy}
use evidence.Trace.Entries.{HlrEntry, LlrEntry, TestEntry, DerivedEntry}
use evidence.Trace.Register.{
  Registration, Registry, registrations, enter_hlr, enter_llr, enter_test, enter_derived,
}
use evidence.Trace.Register.Accepted.{IsRegistered}
use evidence.Trace.Links.{or_unknown, ownership_holds}
use evidence.Trace.Links.Sound.{Resolves}

-- An entry of the list, given by its uid and owner, is the parent that a link of the child names,
-- and its owner is one that the child may trace to.
abbrev pub HasParent :
    {A : Type 0}
    → (A → Option Str)
    → (A → Option Str)
    → Str
    → Str
    → Option Str
    → List A
    → Str
    → Type 0
HasParent {A} uid_of owner_of child_kind parent_kind child_owner parents link =
    (x : A) × Memᴰ x parents
    × (uid_of x ≡ some link)
    × ((o : Str) × (owner_of x ≡ some o)
        × (ownership_holds child_kind parent_kind (or_unknown child_owner) o ≡ true))

-- The registration is that of an entry of the list.
abbrev pub From : {A : Type 0} → (A → Registration) → List A → Registration → Type 0
From {A} enter xs r = (x : A) × Memᴰ x xs × (enter x ≡ r)

-- Every registration of the kind comes from the list.
abbrev pub OfKind : {A : Type 0} → (A → Registration) → List Registration → Str → List A → Type 0
OfKind enter rs kind xs = (r : Registration) → Memᴰ r rs → r.kind ≡ kind → From enter xs r

pub resolved :
    {A : Type 0} (enter : A → Registration) (is_uuid : Str → Bool) (policy : TracePolicy)
    (out : Registry) (rs : List Registration) (child_kind kind : Str) (child_owner : Option Str)
    (xs : List A) (link : Str)
    → IsRegistered is_uuid policy out rs
    → OfKind enter rs kind xs
    → Resolves is_uuid out.uid_index child_kind child_owner kind link
    → HasParent (λ x. (enter x).uid) (λ x. (enter x).owner) child_kind kind child_owner xs link
resolved enter is_uuid policy out rs child_kind kind child_owner xs link reg of_kind res =
    let (r, m, (id, (o, own, key))) = (reg.index link res.key).0 res.found in
    let (x, at_x, same) = of_kind r m (sym (ap (λ k. k.0) key) ∙ res.kind) in
    (
      x,
      at_x,
      ap (λ y. y.uid) same ∙ id,
      (
        o,
        ap (λ y. y.owner) same ∙ own,
        ap (ownership_holds child_kind kind (or_unknown child_owner)) (sym (ap (λ k. k.1.0) key))
            ∙ res.ownership,
      ),
    )

other_kind :
    {A : Type 0} (enter : A → Registration) (kind expected : Str) (xs : List A) (r : Registration)
    → ((x : A) → (enter x).kind ≡ kind)
    → str_eq kind expected ≡ false
    → r.kind ≡ expected
    → From enter xs r
    → ⊥
other_kind enter kind expected xs r of differ k (x, m, same) =
    cc (differ, (str_eq_iff kind expected).1 (sym (of x) ∙ ap (λ y. y.kind) same ∙ k))

module _ (sys hlrs : List HlrEntry) (llrs : List LlrEntry) (tests : List TestEntry)
    (derived : List DerivedEntry) where
  sources :
      (r : Registration)
      → Memᴰ r (registrations sys hlrs llrs tests derived)
      → From (enter_hlr (codes "SYS")) sys r
        ⊎ (From (enter_hlr (codes "HLR")) hlrs r
            ⊎ (From enter_llr llrs r ⊎ (From enter_test tests r ⊎ From enter_derived derived r)))
  unfolding registrations
  sources r m = elim (Memᴰ.append_cases (map (enter_hlr (codes "SYS")) sys) m) [
    | inl a ↦ inl (Memᴰ.of_map (enter_hlr (codes "SYS")) sys a)
    | inr m1 ↦ inr (elim (Memᴰ.append_cases (map (enter_hlr (codes "HLR")) hlrs) m1) [
      | inl a ↦ inl (Memᴰ.of_map (enter_hlr (codes "HLR")) hlrs a)
      | inr m2 ↦ inr (elim (Memᴰ.append_cases (map enter_llr llrs) m2) [
        | inl a ↦ inl (Memᴰ.of_map enter_llr llrs a)
        | inr m3 ↦ inr (elim (Memᴰ.append_cases (map enter_test tests) m3) [
          | inl a ↦ inl (Memᴰ.of_map enter_test tests a)
          | inr m4 ↦ inr (Memᴰ.of_map enter_derived derived m4)
        ])
      ])
    ])
  ]

  -- Each case but the one of the kind is refuted.
  pub sys_of :
      OfKind (enter_hlr (codes "SYS")) (registrations sys hlrs llrs tests derived) (codes "SYS") sys
  sys_of r m k = elim (sources r m) [
    | inl a ↦ a
    | inr (inl b) ↦ absurd (other_kind (enter_hlr (codes "HLR")) _ _ hlrs r (λ x. refl) refl k b)
    | inr (inr (inl b)) ↦ absurd (other_kind enter_llr _ _ llrs r (λ x. refl) refl k b)
    | inr (inr (inr (inl b))) ↦ absurd (other_kind enter_test _ _ tests r (λ x. refl) refl k b)
    | inr (inr (inr (inr b))) ↦ absurd (other_kind enter_derived _ _ derived r (λ x. refl) refl k b)
  ]

  pub hlrs_of :
      OfKind
        (enter_hlr (codes "HLR"))
        (registrations sys hlrs llrs tests derived)
        (codes "HLR")
        hlrs
  hlrs_of r m k = elim (sources r m) [
    | inl b ↦ absurd (other_kind (enter_hlr (codes "SYS")) _ _ sys r (λ x. refl) refl k b)
    | inr (inl a) ↦ a
    | inr (inr (inl b)) ↦ absurd (other_kind enter_llr _ _ llrs r (λ x. refl) refl k b)
    | inr (inr (inr (inl b))) ↦ absurd (other_kind enter_test _ _ tests r (λ x. refl) refl k b)
    | inr (inr (inr (inr b))) ↦ absurd (other_kind enter_derived _ _ derived r (λ x. refl) refl k b)
  ]

  pub llrs_of : OfKind enter_llr (registrations sys hlrs llrs tests derived) (codes "LLR") llrs
  llrs_of r m k = elim (sources r m) [
    | inl b ↦ absurd (other_kind (enter_hlr (codes "SYS")) _ _ sys r (λ x. refl) refl k b)
    | inr (inl b) ↦ absurd (other_kind (enter_hlr (codes "HLR")) _ _ hlrs r (λ x. refl) refl k b)
    | inr (inr (inl a)) ↦ a
    | inr (inr (inr (inl b))) ↦ absurd (other_kind enter_test _ _ tests r (λ x. refl) refl k b)
    | inr (inr (inr (inr b))) ↦ absurd (other_kind enter_derived _ _ derived r (λ x. refl) refl k b)
  ]
