-- ===== src/Corpus/AllLifecycles/Each.antt =====
-- The loop that evaluates every uid of a list.
use evidence.Prelude.{
  Str, true, some, List, [], ◌∷◌, Result, ok, ok_injective, contains, str_eq, str_eq_iff,
  str_eq_refl, str_ord, is_some, some_injective, Option-cases, Bool-cases, ◌≡◌, ◌↔◌, inl, inr, refl,
  sym, ap, ◌∙◌, arith,
}
use evidence.BTreeMap
use evidence.BTreeMap.{BTreeMap, keys}
use evidence.BTreeMap.Laws.{get-insert}
use evidence.Corpus.AllLifecycles.{evaluate_each}

module _ {E A : Type 0} (evaluate : Str → Result E A) where
  -- Every entry is what its uid evaluates to.
  abbrev IsSound : BTreeMap Str A → Type 0
  IsSound m = (u : Str) (a : A) → BTreeMap.get u m ≡ some a → evaluate u ≡ ok a

  insert-IsSound :
      (u : Str) (a : A) (m : BTreeMap Str A)
      → evaluate u ≡ ok a
      → IsSound m
      → IsSound (BTreeMap.insert u a m)
  insert-IsSound u a m e s v b h = elim (Bool-cases (str_eq v u)) [
    | inl p ↦
        let same : a ≡ b = some_injective (sym (get-insert u v a m ∙ rw p refl) ∙ h) in
        ap evaluate ((str_eq_iff v u).0 p) ∙ e ∙ ap ok same
    | inr p ↦ s v b (sym (get-insert u v a m ∙ rw p refl) ∙ h)
  ]

  -- If every uid of the list evaluates, so does the list, to a map with exactly their evaluations.
  evaluate_each_total :
      (us : List Str) (m : BTreeMap Str A)
      → ((u : Str) → contains us u ≡ true → (a : A) × (evaluate u ≡ ok a))
      → IsSound m
      → (out : BTreeMap Str A) × (evaluate_each evaluate m us ≡ ok out)
        × IsSound out
        × ((u : Str) → is_some (BTreeMap.get u m) ≡ true → is_some (BTreeMap.get u out) ≡ true)
        × ((u : Str) → contains us u ≡ true → is_some (BTreeMap.get u out) ≡ true)
  unfolding evaluate_each contains
  evaluate_each_total [] m all s = (m, refl, s, (λ u h. h), (λ u h. absurd (cc)))
  evaluate_each_total (v ∷ us) m all s =
      let (a, e) = all v (ground (arith, str_eq_refl v)) in
      let (out, run, sound, old, new) =
        evaluate_each_total us (BTreeMap.insert v a m) (λ u h. all u (ground arith))
          (insert-IsSound v a m e s) in
      (
        out,
        rw (e, evaluate_each) run,
        sound,
        λ u h. old u (ground (arith, get-insert v u a m)),
        λ u h. elim (Bool-cases (str_eq v u)) [
          | inl p ↦ old u (ground (arith, get-insert v u a m, str_eq_iff v u, str_eq_iff u v))
          | inr p ↦ new u (ground arith)
        ],
      )

  pub evaluate_each_iff :
      (us : List Str)
      → ((u : Str) → contains us u ≡ true → (a : A) × (evaluate u ≡ ok a))
      → ((u : Str) (a : A) → evaluate u ≡ ok a → contains us u ≡ true)
      → (out : BTreeMap Str A) × (evaluate_each evaluate [] us ≡ ok out)
        × ((u : Str) (a : A) → (BTreeMap.get u out ≡ some a) ↔ (evaluate u ≡ ok a))
  unfolding BTreeMap.get
  evaluate_each_iff us all only =
      let (out, run, sound, old, new) = evaluate_each_total us [] all (λ u a h. absurd (cc)) in
      (
        out,
        run,
        λ u a. (
          sound u a,
          λ h. elim (Option-cases (BTreeMap.get u out)) [
            | inl p ↦ absurd (cc (new u (only u a h), p))
            | inr (b, p) ↦ p ∙ ap some (ok_injective (sym (sound u b p) ∙ h))
          ],
        ),
      )
