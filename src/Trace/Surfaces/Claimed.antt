-- ===== src/Trace/Surfaces/Claimed.antt =====
-- What ends up claimed: a mapping has the values that it had and those that are added.
use mathlib.Core.List.{Memᴰ}
use mathlib.Core.List.Memᴰ
use evidence.Prelude.{
  Str, true, false, some, List, [], ◌∷◌, contains, insert_sorted, is_some, Bool-cases, str_eq,
  str_eq_iff, str_ord, if◌then◌else◌, ◌≡◌, ◌⊎◌, inl, inr, refl, sym, ap, ◌∙◌, arith,
}
use evidence.BTreeMap
use evidence.BTreeMap.Laws.{get-insert}
use evidence.Trace.Surfaces.{Claimants, claimants_of, set_insert, add_claims}
use evidence.Trace.Links.{is_empty}

-- Somebody claims the value.
abbrev pub Claimed : Claimants → Str → Type 0
Claimed m s = (ids : List Str) × (BTreeMap.get s m ≡ some ids) × (is_empty ids ≡ false)

insert_sorted_nonempty : (id : Str) (ids : List Str) → is_empty (insert_sorted id ids) ≡ false
unfolding insert_sorted
insert_sorted_nonempty id [] = refl
insert_sorted_nonempty id (x ∷ xs) = ground arith

set_insert_nonempty : (id : Str) (ids : List Str) → is_empty (set_insert id ids) ≡ false
unfolding set_insert contains
set_insert_nonempty id [] = insert_sorted_nonempty id []
set_insert_nonempty id (x ∷ xs) = elim (Bool-cases (contains (x ∷ xs) id)) [
  | inl p ↦ rw p refl
  | inr p ↦ rw p (insert_sorted_nonempty id (x ∷ xs))
]

module _ (id : Str) where
  abbrev added : Str → Claimants → Claimants
  added c m = BTreeMap.insert c (set_insert id (claimants_of (BTreeMap.get c m))) m

  get-added :
      (c s : Str) (m : Claimants)
      → BTreeMap.get s (added c m) ≡ (
          if str_eq s c
          then some (set_insert id (claimants_of (BTreeMap.get c m)))
          else BTreeMap.get s m)
  get-added c s m = get-insert c s (set_insert id (claimants_of (BTreeMap.get c m))) m

  taken_here : (c s : Str) (m : Claimants) → str_eq s c ≡ true → Claimed (added c m) s
  taken_here c s m p = (
    set_insert id (claimants_of (BTreeMap.get c m)),
    get-added c s m ∙ rw p refl,
    set_insert_nonempty id (claimants_of (BTreeMap.get c m)),
  )

  taken_still : (c s : Str) (m : Claimants) → Claimed m s → Claimed (added c m) s
  taken_still c s m (ids, at_s, some_id) = elim (Bool-cases (str_eq s c)) [
    | inl p ↦ taken_here c s m p
    | inr p ↦ (ids, get-added c s m ∙ rw p at_s, some_id)
  ]

  pub add_claims_keep :
      (cs : List Str) (s : Str) (m : Claimants) → Claimed m s → Claimed (add_claims id cs m) s
  unfolding add_claims
  add_claims_keep [] s m h = h
  add_claims_keep (c ∷ cs) s m h = add_claims_keep cs s (added c m) (taken_still c s m h)

  pub add_claims_claim :
      (cs : List Str) (s : Str) (m : Claimants)
      → contains cs s ≡ true
      → Claimed (add_claims id cs m) s
  unfolding add_claims contains
  add_claims_claim [] s m h = absurd (cc)
  add_claims_claim (c ∷ cs) s m h = elim (Bool-cases (str_eq c s)) [
    | inl p ↦
        add_claims_keep cs s (added c m)
          (taken_here c s m ((str_eq_iff s c).1 (sym ((str_eq_iff c s).0 p))))
    | inr p ↦ add_claims_claim cs s (added c m) (rw p at h)
  ]

  pub add_claims_only :
      (cs : List Str) (s : Str) (m : Claimants)
      → BTreeMap.contains_key s (add_claims id cs m) ≡ true
      → (BTreeMap.contains_key s m ≡ true) ⊎ (contains cs s ≡ true)
  unfolding add_claims contains
  add_claims_only [] s m h = inl h
  add_claims_only (c ∷ cs) s m h = elim (add_claims_only cs s (added c m) h) [
    | inr later ↦ inr (ground arith)
    | inl now ↦ elim (Bool-cases (str_eq s c)) [
      | inl p ↦ inr (rw ((str_eq_iff c s).1 (sym ((str_eq_iff s c).0 p))) refl)
      | inr p ↦ inl (ap is_some (sym (get-added c s m ∙ rw p refl)) ∙ now)
    ]
  ]

-- A loop that adds the claims of one entry after the other.
module _ {A : Type 0} (id_of : A → Str) (claims_of : A → List Str) where
  abbrev pub claim_all : Claimants → List A → Claimants
  claim_all m [] = m
  claim_all m (x ∷ xs) = claim_all (add_claims (id_of x) (claims_of x) m) xs

  claim_all_keep :
      (m : Claimants) (xs : List A) (s : Str) → Claimed m s → Claimed (claim_all m xs) s
  claim_all_keep m [] s h = h
  claim_all_keep m (x ∷ xs) s h =
      claim_all_keep (add_claims (id_of x) (claims_of x) m) xs s
        (add_claims_keep (id_of x) (claims_of x) s m h)

  pub claim_all_claim :
      (m : Claimants) (xs : List A) (x : A) (s : Str)
      → Memᴰ x xs
      → contains (claims_of x) s ≡ true
      → Claimed (claim_all m xs) s
  claim_all_claim m [] x s i h = absurd (Memᴰ.not-nil i)
  claim_all_claim m (y ∷ xs) x s (Memᴰ.head e) h =
      claim_all_keep (add_claims (id_of y) (claims_of y) m) xs s (
        add_claims_claim (id_of y) (claims_of y) s m
          (sym (ap (λ z. contains (claims_of z) s) e) ∙ h))
  claim_all_claim m (y ∷ xs) x s (Memᴰ.tail i) h =
      claim_all_claim (add_claims (id_of y) (claims_of y) m) xs x s i h

  pub claim_all_only :
      (m : Claimants) (xs : List A) (s : Str)
      → BTreeMap.contains_key s (claim_all m xs) ≡ true
      → (BTreeMap.contains_key s m ≡ true)
        ⊎ ((x : A) × Memᴰ x xs × (contains (claims_of x) s ≡ true))
  claim_all_only m [] s h = inl h
  claim_all_only m (x ∷ xs) s h =
      elim (claim_all_only (add_claims (id_of x) (claims_of x) m) xs s h) [
        | inr (y, i, c) ↦ inr (y, Memᴰ.tail i, c)
        | inl now ↦ elim (add_claims_only (id_of x) (claims_of x) s m now) [
          | inl old ↦ inl old
          | inr c ↦ inr (x, Memᴰ.head refl, c)
        ]
      ]
