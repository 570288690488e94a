-- ===== src/Corpus/Lifecycle/Verdict.antt =====
-- The truth table of the lifecycle, stated of the reviews and not of the loop's flags.
use mathlib.Core.List.{Memᴰ}
use mathlib.Core.List.Memᴰ
use evidence.Prelude.{
  Str, Bool, true, false, not, ◌&&◌, ◌||◌, List, [], ◌∷◌, any, str_eq, str_eq_iff, ◌≡◌, ◌≢◌, ◌↔◌,
  inl, inr, refl, sym, ◌∙◌, subst, arith, Bool-cases, if◌then◌else◌, ap,
}
use evidence.Corpus.Nodes.{ReviewDecision, ReviewNode}
use evidence.Corpus.Lifecycle.{
  RequirementLifecycle, Flags, note_decision, note_heads, state_of, no_flags, derive_state,
}

-- A review of the kind `P` decides `decision` about the content with this digest.
abbrev pub Decides : (ReviewNode → Type 0) → ReviewDecision → Str → Type 0
Decides P decision digest =
    (r : ReviewNode) × P r × (r.decision ≡ decision) × (r.reviewed_content_sha256 ≡ digest)

-- A review of the kind `P` approves some other content.
abbrev pub ApprovesOther : (ReviewNode → Type 0) → Str → Type 0
ApprovesOther P digest =
    (r : ReviewNode) × P r
    × (r.decision ≡ ReviewDecision.approve)
    × (r.reviewed_content_sha256 ≢ digest)

-- A current rejection beats a current approval, which beats an approval of other content.
abbrev pub Verdict : (ReviewNode → Type 0) → Str → RequirementLifecycle → Type 0
Verdict P digest RequirementLifecycle.rejected = Decides P ReviewDecision.reject digest
Verdict P digest RequirementLifecycle.approved =
    (¬ Decides P ReviewDecision.reject digest) × Decides P ReviewDecision.approve digest
Verdict P digest RequirementLifecycle.stale =
    (¬ Decides P ReviewDecision.reject digest)
    × (¬ Decides P ReviewDecision.approve digest)
    × ApprovesOther P digest
Verdict P digest RequirementLifecycle.candidate =
    (¬ Decides P ReviewDecision.reject digest)
    × (¬ Decides P ReviewDecision.approve digest)
    × (¬ ApprovesOther P digest)

module _ {ℓ} {A : Type ℓ} where
  any-found : (p : A → Bool) (xs : List A) → any p xs ≡ true → (x : A) × Memᴰ x xs × (p x ≡ true)
  unfolding any
  any-found p [] h = absurd (cc)
  any-found p (x ∷ xs) h = elim (Bool-cases (p x)) [
    | inl e ↦ (x, Memᴰ.head refl, e)
    | inr e ↦ let (y, at_y, q) = any-found p xs (rw (e, any) at h) in (y, Memᴰ.tail at_y, q)
  ]

  any-mem : (p : A → Bool) (xs : List A) (x : A) → Memᴰ x xs → p x ≡ true → any p xs ≡ true
  unfolding any
  any-mem p [] x m h = absurd (Memᴰ.not-nil m)
  any-mem p (y ∷ xs) x (Memᴰ.head e) h = rw (ap p (sym e) ∙ h)
  any-mem p (y ∷ xs) x (Memᴰ.tail m) h = ground (arith, any-mem p xs x m h)

abbrev is_reject : ReviewDecision → Bool
is_reject ReviewDecision.reject = true
is_reject ReviewDecision.approve = false

abbrev current : Str → ReviewNode → Bool
current digest r = str_eq r.reviewed_content_sha256 digest

abbrev rejects_current : Str → ReviewNode → Bool
rejects_current digest r = is_reject r.decision && current digest r

abbrev approves_current : Str → ReviewNode → Bool
approves_current digest r = not (is_reject r.decision) && current digest r

abbrev approves_other : Str → ReviewNode → Bool
approves_other digest r = not (is_reject r.decision) && not (current digest r)

-- What one review, and then the whole loop, adds to the flags.
note_decision_lem :
    (d : ReviewDecision) (b : Bool) (f : Flags)
    → ((note_decision d b f).current_rejection ≡ (f.current_rejection || (is_reject d && b)))
      × ((note_decision d b f).current_approval ≡ (f.current_approval || (not (is_reject d) && b)))
      × ((note_decision d b f).older_approval ≡ (f.older_approval || (not (is_reject d) && not b)))
unfolding note_decision
note_decision_lem ReviewDecision.approve true f = (ground arith, ground arith, ground arith)
note_decision_lem ReviewDecision.approve false f = (ground arith, ground arith, ground arith)
note_decision_lem ReviewDecision.reject true f = (ground arith, ground arith, ground arith)
note_decision_lem ReviewDecision.reject false f = (ground arith, ground arith, ground arith)

note_heads_lem :
    (digest : Str) (f : Flags) (heads : List ReviewNode)
    → ((note_heads digest f heads).current_rejection
        ≡ (f.current_rejection || any (rejects_current digest) heads))
      × ((note_heads digest f heads).current_approval
          ≡ (f.current_approval || any (approves_current digest) heads))
      × ((note_heads digest f heads).older_approval
          ≡ (f.older_approval || any (approves_other digest) heads))
unfolding note_heads any
note_heads_lem digest f [] = (ground arith, ground arith, ground arith)
note_heads_lem digest f (head ∷ heads) =
    let (r, a, o) = note_decision_lem head.decision (current digest head) f in
    let (rej, app, old) =
      note_heads_lem digest (note_decision head.decision (current digest head) f) heads in
    (ground (arith, r, rej), ground (arith, a, app), ground (arith, o, old))

-- `P` holds of exactly the reviews in the list.
abbrev pub IsListed : (ReviewNode → Type 0) → List ReviewNode → Type 0
IsListed P heads = (r : ReviewNode) → P r ↔ Memᴰ r heads

reject_iff : (d : ReviewDecision) → (is_reject d ≡ true) ↔ (d ≡ ReviewDecision.reject)
reject_iff d = ground arith

approve_iff : (d : ReviewDecision) → (is_reject d ≡ false) ↔ (d ≡ ReviewDecision.approve)
approve_iff d = ground arith

module _ (P : ReviewNode → Type 0) (heads : List ReviewNode) (listed : IsListed P heads)
    (digest : Str) where
  other_lem :
      (r : ReviewNode)
      → r.decision ≡ ReviewDecision.approve
      → r.reviewed_content_sha256 ≢ digest
      → approves_other digest r ≡ true
  other_lem r d s = elim (Bool-cases (current digest r)) [
    | inl e ↦ absurd (s ((str_eq_iff r.reviewed_content_sha256 digest).0 e))
    | inr e ↦ ground (arith, e, approve_iff r.decision)
  ]

  rejects_iff : (any (rejects_current digest) heads ≡ true) ↔ Decides P ReviewDecision.reject digest
  rejects_iff = (
    (λ h.
        let (r, m, t) = any-found (rejects_current digest) heads h in
        (
          r,
          (listed r).1 m,
          ground (arith, reject_iff r.decision),
          ground (arith, str_eq_iff r.reviewed_content_sha256 digest),
        )),
    (λ (r, p, d, s).
        any-mem (rejects_current digest) heads r ((listed r).0 p)
          (ground (arith, reject_iff r.decision, str_eq_iff r.reviewed_content_sha256 digest))),
  )

  approves_iff :
      (any (approves_current digest) heads ≡ true) ↔ Decides P ReviewDecision.approve digest
  approves_iff = (
    (λ h.
        let (r, m, t) = any-found (approves_current digest) heads h in
        (
          r,
          (listed r).1 m,
          ground (arith, approve_iff r.decision),
          ground (arith, str_eq_iff r.reviewed_content_sha256 digest),
        )),
    (λ (r, p, d, s).
        any-mem (approves_current digest) heads r ((listed r).0 p)
          (ground (arith, approve_iff r.decision, str_eq_iff r.reviewed_content_sha256 digest))),
  )

  other_iff : (any (approves_other digest) heads ≡ true) ↔ ApprovesOther P digest
  other_iff = (
    (λ h.
        let (r, m, t) = any-found (approves_other digest) heads h in
        (
          r,
          (listed r).1 m,
          ground (arith, approve_iff r.decision),
          λ e. ground (arith, e, t, str_eq_iff r.reviewed_content_sha256 digest),
        )),
    (λ (r, p, d, s). any-mem (approves_other digest) heads r ((listed r).0 p) (other_lem r d s)),
  )

  abbrev table : Bool → Bool → Bool → RequirementLifecycle
  table rejection approval other =
      if rejection
      then RequirementLifecycle.rejected
      else if approval
      then RequirementLifecycle.approved
      else if other
      then RequirementLifecycle.stale
      else RequirementLifecycle.candidate

  derive_state_lem :
      derive_state heads digest
      ≡ table
          (any (rejects_current digest) heads)
          (any (approves_current digest) heads)
          (any (approves_other digest) heads)
  unfolding derive_state state_of
  derive_state_lem = let (r, a, o) = note_heads_lem digest no_flags heads in rw (r, a, o)

  refuted : {b : Bool} {X : Type 0} → (b ≡ true) ↔ X → b ≡ false → ¬ X
  refuted h e x = absurd (cc (h.1 x, e))

  failed : {b : Bool} {X : Type 0} → (b ≡ true) ↔ X → ¬ X → b ≡ false
  failed {b} h n = elim (Bool-cases b) [ inl e ↦ absurd (n (h.0 e)) | inr e ↦ e ]

  Verdict-holds : Verdict P digest (derive_state heads digest)
  Verdict-holds = rw derive_state_lem (elim (Bool-cases (any (rejects_current digest) heads)) [
    | inl r ↦ rw r (rejects_iff.0 r)
    | inr r ↦ elim (Bool-cases (any (approves_current digest) heads)) [
      | inl a ↦ rw (r, a) (refuted rejects_iff r, approves_iff.0 a)
      | inr a ↦ elim (Bool-cases (any (approves_other digest) heads)) [
        | inl o ↦ rw (r, a, o) (refuted rejects_iff r, refuted approves_iff a, other_iff.0 o)
        | inr o ↦ rw (r, a, o) (refuted rejects_iff r, refuted approves_iff a, refuted other_iff o)
      ]
    ]
  ])

  Verdict-found : (s : RequirementLifecycle) → Verdict P digest s → derive_state heads digest ≡ s
  Verdict-found RequirementLifecycle.rejected r = derive_state_lem ∙ rw (rejects_iff.1 r)
  Verdict-found RequirementLifecycle.approved (r, a) =
      derive_state_lem ∙ rw (failed rejects_iff r, approves_iff.1 a)
  Verdict-found RequirementLifecycle.stale (r, a, o) =
      derive_state_lem ∙ rw (failed rejects_iff r, failed approves_iff a, other_iff.1 o)
  Verdict-found RequirementLifecycle.candidate (r, a, o) =
      derive_state_lem ∙ rw (failed rejects_iff r, failed approves_iff a, failed other_iff o)

  -- Where `P` holds of exactly the listed heads, the loop computes the truth table: the state is
  -- the one whose row the reviews satisfy.
  pub derive_state_iff :
      (s : RequirementLifecycle) → (derive_state heads digest ≡ s) ↔ Verdict P digest s
  derive_state_iff s = ((λ e. subst (Verdict P digest) e Verdict-holds), Verdict-found s)
