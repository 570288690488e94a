-- ===== src/Corpus/Walk/Sound.antt =====
-- What a walk that finishes has shown of the links that it followed.
use evidence.Prelude.{
  ℕ, zero, suc, Str, true, List, [], ◌∷◌, ◌++◌, contains, contains-append, str_ord, str_eq_iff,
  arith, ◌≡◌, refl, subst, Bool-cases, inl, inr, ◌||◌,
}
use evidence.BTreeMap.{BTreeMap}
use evidence.Corpus.Walk.{
  Outcome, finished, revisit, out_of_fuel, and_then, push_all, next, walk, walk_all,
}
use evidence.Corpus.Walk.Order.{
  Within, Forward, Forward-skip, Forward-visit, Forward-IsOrdered, IsOrdered, contains-concat,
  contains-push_all,
}

finished_injective : {p q : List Str} → finished p ≡ finished q → p ≡ q
finished_injective h = cc

-- Inversion of a walk that is followed by another.
pub and_then-eq-finished :
    (o : Outcome) (f : List Str → Outcome) {t : List Str}
    → and_then o f ≡ finished t
    → (p : List Str) × (o ≡ finished p) × (f p ≡ finished t)
and_then-eq-finished (finished p) f h = (p, refl, h)
and_then-eq-finished (revisit uid) f h = absurd (cc)
and_then-eq-finished out_of_fuel f h = absurd (cc)

module _ {ℓ} {V : Type ℓ} (targets : V → List Str) (m : BTreeMap Str V) where
  -- What holds of the path at the end: it goes forward, and covers the stack and the old path.
  record Result (path stack done p : List Str) : Type 0 where
    forward : Forward (next targets m) p [] done
    covers :
        (v : Str)
        → (contains path v || contains stack v) ≡ true
        → (contains p v || contains done v) ≡ true

  walk-Result :
      (fuel : ℕ) (done path stack p : List Str)
      → Forward (next targets m) path stack done
      → walk targets m fuel done path stack ≡ finished p
      → Result path stack done p
  unfolding walk contains
  walk-Result zero done path stack p f h = absurd (cc)
  walk-Result (suc fuel) done path [] p f h =
      let e : path ≡ p = finished_injective h in
      record {
        forward = subst (λ x. Forward (next targets m) x [] done) e f;
        covers = λ v k. rw (← e) (ground arith);
      }
  walk-Result (suc fuel) done path (c ∷ rest) p f h = elim (Bool-cases (contains path c)) [
    | inl q ↦ absurd (cc (rw (q, walk) at h))
    | inr q ↦ elim (Bool-cases (contains done c)) [
      | inl d ↦
          let r =
            walk-Result fuel done path rest p (Forward-skip (next targets m) path c rest done d f)
              (rw (q, d, walk) at h) in
          record { forward = r.forward; covers = λ v k. ground (arith, r.covers v, str_eq_iff c v) }
      | inr d ↦
          let r =
            walk-Result fuel done (path ++ c ∷ []) (push_all (next targets m c) rest) p
              (Forward-visit (next targets m) path c rest done q d f) (rw (q, d, walk) at h) in
          record {
            forward = r.forward;
            covers = λ v k. ground (
              arith,
              r.covers v,
              contains-concat path c v,
              contains-push_all (next targets m c) rest v,
            );
          }
    ]
  ]

  record AllResult (done starts t : List Str) : Type 0 where
    ordered : IsOrdered (next targets m) t
    kept : Within done t
    started : Within starts t

  walk_all-Result :
      (fuel : ℕ) (done starts t : List Str)
      → IsOrdered (next targets m) done
      → walk_all targets m fuel done starts ≡ finished t
      → AllResult done starts t
  unfolding walk_all contains
  walk_all-Result fuel done [] t o h =
      let e : done ≡ t = finished_injective h in
      record {
        ordered = subst (IsOrdered (next targets m)) e o;
        kept = λ v k. rw (← e) k;
        started = λ v k. cc;
      }
  walk_all-Result fuel done (s ∷ ss) t o h = elim (Bool-cases (contains done s)) [
    | inl d ↦
        let r = walk_all-Result fuel done ss t o (rw (d, walk_all) at h) in
        record {
          ordered = r.ordered;
          kept = r.kept;
          started = λ v k. ground (arith, r.kept v, r.started v, str_eq_iff s v);
        }
    | inr d ↦
        let (p, found, rest) =
          and_then-eq-finished (walk targets m fuel done [] (s ∷ []))
            (λ path. walk_all targets m fuel (path ++ done) ss) (rw (d, walk_all) at h) in
        let w = walk-Result fuel done [] (s ∷ []) p tt found in
        let r =
          walk_all-Result fuel (p ++ done) ss t
            (Forward-IsOrdered (next targets m) p done w.forward o) rest in
        record {
          ordered = r.ordered;
          kept = λ v k. ground (arith, r.kept v, contains-append p done v);
          started = λ v k.
              ground (
                arith,
                w.covers v,
                r.kept v,
                r.started v,
                contains-append p done v,
                str_eq_iff s v,
              );
        }
  ]

  -- If the walks from all of `starts` finish, the uids can be put in an order in which every
  -- target stands behind what points at it, and which has all of `starts`.
  pub walk_all_order :
      (fuel : ℕ) (starts t : List Str)
      → walk_all targets m fuel [] starts ≡ finished t
      → IsOrdered (next targets m) t × Within starts t
  walk_all_order fuel starts t h =
      let r = walk_all-Result fuel [] starts t tt h in (r.ordered, r.started)
