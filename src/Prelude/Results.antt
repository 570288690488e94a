-- ===== src/Prelude/Results.antt =====
-- `Result<A, E>`, the `?` operator, and loops that stop at the first error.
use mathlib.Core.Path.{◌≡◌, refl, subst, ap}
use mathlib.Core.Logic.{◌⊎◌, inl, inr}
use mathlib.Core.List.{List, [], ◌∷◌}
use evidence.Prelude.Lists.{All}

pub data Result {ℓ κ} (E : Type ℓ) (A : Type κ) : Type (ℓ ⊔ κ) where
  ok : A → Result E A
  err : E → Result E A

infixl 5 ◌>>=◌ ◌>>◌
abbrev pub ◌>>=◌ {ℓ κ ι} :
    {E : Type ℓ} {A : Type κ} {B : Type ι} → Result E A → (A → Result E B) → Result E B
ok a >>= f = f a
err e >>= f = err e

abbrev pub ◌>>◌ {ℓ κ} : {E : Type ℓ} {B : Type κ} → Result E (Unit {0}) → Result E B → Result E B
ok a >> k = k
err e >> k = err e

abbrev pub map_err {ℓ κ ι} :
    {E : Type ℓ} {F : Type κ} {A : Type ι} → (E → F) → Result E A → Result F A
map_err f (ok a) = ok a
map_err f (err e) = err (f e)

pub Result-cases {ℓ κ} :
    {E : Type ℓ} {A : Type κ} (r : Result E A) → ((a : A) × (r ≡ ok a)) ⊎ ((e : E) × (r ≡ err e))
Result-cases (ok a) = inl (a, refl)
Result-cases (err e) = inr (e, refl)

module _ {ℓ κ} {E : Type ℓ} {A : Type κ} where
  -- `for x in xs { f(x)?; }`
  unfoldable pub for_each : (A → Result E (Unit {0})) → List A → Result E (Unit {0})
  for_each f [] = ok tt
  for_each f (x ∷ xs) = f x >> for_each f xs

  pub for_each-ok :
      (f : A → Result E (Unit {0})) (xs : List A)
      → for_each f xs ≡ ok tt
      → All (λ x. f x ≡ ok tt) xs
  unfolding for_each
  for_each-ok f [] h = tt
  for_each-ok f (x ∷ xs) h = elim (Result-cases (f x)) [
    | inl (a, e) ↦ (e, for_each-ok f xs (rw e at h))
    | inr (e, q) ↦ absurd (cc (rw q at h))
  ]

  pub ok-for_each :
      (f : A → Result E (Unit {0})) (xs : List A)
      → All (λ x. f x ≡ ok tt) xs
      → for_each f xs ≡ ok tt
  unfolding for_each
  ok-for_each f [] h = refl
  ok-for_each f (x ∷ xs) h = rw h.0 (ok-for_each f xs h.1)

pub ok_injective {ℓ κ} :
    {E : Type ℓ} {A : Type κ} {a b : A} → ◌≡◌ {A = Result E A} (ok a) (ok b) → a ≡ b
ok_injective h = cc

module _ {ℓ κ ι} {E : Type ℓ} {S : Type κ} {A : Type ι} where
  -- A loop that updates `s`, and leaves at the first error.
  unfoldable pub try_fold : (S → A → Result E S) → S → List A → Result E S
  try_fold f s [] = ok s
  try_fold f s (x ∷ xs) = elim (f s x) [ ok t ↦ try_fold f t xs | err e ↦ err e ]

  -- An invariant of the loop, over what is still to come.
  pub try_fold_inv {μ} :
      (P : S → List A → Type μ) (f : S → A → Result E S)
      → ((s t : S) (x : A) (xs : List A) → P s (x ∷ xs) → f s x ≡ ok t → P t xs)
      → (s t : S) (xs : List A) → P s xs
      → try_fold f s xs ≡ ok t
      → P t []
  unfolding try_fold
  try_fold_inv P f keep s t [] p h = subst (λ x. P x []) (ok_injective h) p
  try_fold_inv P f keep s t (x ∷ xs) p h = elim (Result-cases (f s x)) [
    | inl (u, e) ↦ try_fold_inv P f keep u t xs (keep s u x xs p e) (rw (e, try_fold) at h)
    | inr (e, q) ↦ absurd (cc (rw (q, try_fold) at h))
  ]

-- What each round of a loop establishes, if later rounds keep it, holds at the end.
module _ {ℓ κ ι} {E : Type ℓ} {S : Type κ} {A : Type ι} where
  pub try_fold-All {μ ν} :
      (R : S → S → Type μ) (Good : S → A → Type ν) (f : S → A → Result E S)
      → ((s : S) → R s s)
      → ((s t u : S) → R s t → R t u → R s u)
      → ((s t : S) (x : A) → R s t → Good s x → Good t x)
      → ((s t : S) (x : A) → f s x ≡ ok t → R s t × Good t x)
      → (s t : S) (xs : List A) → try_fold f s xs ≡ ok t
      → R s t × All (Good t) xs
  unfolding try_fold
  try_fold-All R Good f R_refl R_trans mono step s t [] h =
      (subst (R s) (ok_injective h) (R_refl s), tt)
  try_fold-All R Good f R_refl R_trans mono step s t (x ∷ xs) h = elim (Result-cases (f s x)) [
    | inl (u, e) ↦
        let now = step s u x e in
        let later = try_fold-All R Good f R_refl R_trans mono step u t xs (rw (e, try_fold) at h) in
        (R_trans s u t now.0 later.0, (mono u t x later.0 now.1, later.1))
    | inr (e, q) ↦ absurd (cc (rw (q, try_fold) at h))
  ]

-- Inversion of a successful bind.
pub >>=-eq-ok {ℓ κ ι} :
    {E : Type ℓ} {A : Type κ} {B : Type ι} (r : Result E A) (f : A → Result E B) {b : B}
    → (r >>= f) ≡ ok b
    → (a : A) × (r ≡ ok a) × (f a ≡ ok b)
>>=-eq-ok (ok a) f h = (a, refl, h)
>>=-eq-ok (err e) f h = absurd (cc)

pub >>-eq-ok {ℓ κ} :
    {E : Type ℓ} {B : Type κ} (r : Result E (Unit {0})) (k : Result E B) {b : B}
    → (r >> k) ≡ ok b
    → (r ≡ ok tt) × (k ≡ ok b)
>>-eq-ok (ok a) k h = (refl, h)
>>-eq-ok (err e) k h = absurd (cc)

pub map_err-eq-ok {ℓ κ ι} :
    {E : Type ℓ} {F : Type κ} {A : Type ι} (f : E → F) (r : Result E A) {a : A}
    → map_err f r ≡ ok a
    → r ≡ ok a
map_err-eq-ok f (ok a) h = ap ok (ok_injective h)
map_err-eq-ok f (err e) h = absurd (cc)
