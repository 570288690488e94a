-- ===== src/Trace/Register/Index.antt =====
-- What a register phase without errors establishes of the uid index.
use evidence.Prelude.{
  Str, Bool, true, false, not, ◌&&◌, Option, none, some, List, [], ◌∷◌, ◌++◌, str_eq, str_eq_iff,
  str_ord, pair_ord, is_some, some_injective, Option-cases, Bool-cases, if◌then◌else◌, ◌≡◌, ◌⊎◌,
  inl, inr, refl, sym, ap, subst, ◌∙◌, arith,
}
use evidence.BTreeMap
use evidence.BTreeMap.{BTreeMap}
use evidence.BTreeMap.Laws.{get-insert}
use evidence.Policy.{TracePolicy}
use evidence.Trace.Register.{
  ItemKey, Registration, Registry, index_uid, index_item, register_uid, register_owner,
}

snoc_ne : {A : Type 0} (xs : List A) (x : A) → xs ++ x ∷ [] ≡ [] → ⊥
snoc_ne [] x h = cc
snoc_ne (y ∷ xs) x h = cc

if_false : {A : Type 0} (b : Bool) (x y : A) → b ≡ false → (if b then x else y) ≡ y
if_false b x y h = rw h refl

-- What the registration enters, when it has an owner and a uid.
abbrev pub Entered : (Str → ItemKey → Type 0) → Registration → Type 0
Entered P r = (o u : Str) → r.owner ≡ some o → r.uid ≡ some u → P u (r.kind, (o, r.id))

abbrev pub IsEntered : Registry → Registration → Type 0
IsEntered out = Entered (λ u key. BTreeMap.get u out.uid_index ≡ some key)

abbrev pub IsFresh : Registry → Registration → Type 0
IsFresh reg = Entered (λ u key. BTreeMap.get u reg.uid_index ≡ none)

abbrev pub Grown : Registry → Registry → Type 0
Grown reg out =
    (u : Str) (key : ItemKey)
    → BTreeMap.get u reg.uid_index ≡ some key
    → BTreeMap.get u out.uid_index ≡ some key

-- The registration is the source of the entry.
abbrev pub IsSourceOf : Str → ItemKey → Registration → Type 0
IsSourceOf u key r =
    (r.uid ≡ some u) × ((o : Str) × (r.owner ≡ some o) × (key ≡ (r.kind, (o, r.id))))

index_uid_lem :
    (u : Str) (key : ItemKey) (reg : Registry)
    → (index_uid u key reg).register_errors ≡ []
    → (reg.register_errors ≡ [])
      × (BTreeMap.get u reg.uid_index ≡ none)
      × ((index_uid u key reg).uid_index ≡ BTreeMap.insert u key reg.uid_index)
unfolding index_uid
index_uid_lem u key reg h = elim (Option-cases (BTreeMap.get u reg.uid_index)) [
  | inl p ↦ rw (index_uid, p) (rw (index_uid, p) at h, refl, refl)
  | inr (prev, p) ↦ absurd (snoc_ne _ _ (rw (index_uid, p) at h))
]

index_item_lem :
    (u : Str) (key : ItemKey) (reg : Registry)
    → (index_item u key reg).register_errors ≡ []
    → (reg.register_errors ≡ []) × ((index_item u key reg).uid_index ≡ reg.uid_index)
unfolding index_item
index_item_lem u key reg h = elim (Option-cases (BTreeMap.get key reg.item_index)) [
  | inl p ↦ rw (index_item, p) (rw (index_item, p) at h, refl)
  | inr (prev, p) ↦ absurd (snoc_ne _ _ (rw (index_item, p) at h))
]

module _ (is_uuid : Str → Bool) (policy : TracePolicy) where
  -- The registration has what the policy demands of it.
  abbrev pub Complies : Registration → Type 0
  Complies r =
      (policy.require_owners ≡ true → is_some r.owner ≡ true)
      × ((o : Str)
          → r.owner ≡ some o
          → policy.require_uids ≡ true
          → (u : Str) × (r.uid ≡ some u) × (is_uuid u ≡ true))

  -- What one registration without an error does.
  pub record Registered (reg out : Registry) (r : Registration) : Type 0 where
    pub clean : reg.register_errors ≡ []
    pub complies : Complies r
    pub entered : IsEntered out r
    pub fresh : IsFresh reg r
    pub grown : Grown reg out
    pub sources :
        (u : Str) (key : ItemKey)
        → BTreeMap.get u out.uid_index ≡ some key
        → (BTreeMap.get u reg.uid_index ≡ some key) ⊎ IsSourceOf u key r

  -- Nothing is entered: the owner or the uid is missing, and the policy does not mind.
  skipped :
      (reg : Registry) (r : Registration)
      → reg.register_errors ≡ []
      → Complies r
      → ((o u : Str) → r.owner ≡ some o → r.uid ≡ some u → ⊥)
      → Registered reg reg r
  skipped reg r clean complies missing = record {
    clean = clean;
    complies = complies;
    entered = λ o u e f. absurd (missing o u e f);
    fresh = λ o u e f. absurd (missing o u e f);
    grown = λ u key h. h;
    sources = λ u key h. inl h;
  }

  indexed :
      (reg : Registry) (r : Registration) (o u : Str)
      → r.owner ≡ some o
      → r.uid ≡ some u
      → Complies r
      → (index_item u (r.kind, (o, r.id)) (index_uid u (r.kind, (o, r.id)) reg)).register_errors
        ≡ []
      → Registered reg (index_item u (r.kind, (o, r.id)) (index_uid u (r.kind, (o, r.id)) reg)) r
  indexed reg r o u own id complies h =
      let key : ItemKey = (r.kind, (o, r.id)) in
      let (clean1, same1) = index_item_lem u key (index_uid u key reg) h in
      let (clean, free, same) = index_uid_lem u key reg clean1 in
      let index = same1 ∙ same in
      let lookup = λ (v : Str). ap (BTreeMap.get v) index ∙ get-insert u v key reg.uid_index in
      record {
        clean = clean;
        complies = complies;
        entered = λ p v e f.
            let same_owner : o ≡ p = some_injective (sym own ∙ e) in
            let same_uid : v ≡ u = some_injective (sym f ∙ id) in
            lookup v
            ∙ rw ((str_eq_iff v u).1 same_uid) (ap (λ x. some (r.kind, (x, r.id))) same_owner);
        fresh =
            λ p v e f. ap (λ x. BTreeMap.get x reg.uid_index) (some_injective (sym f ∙ id)) ∙ free;
        grown = λ v k e. elim (Bool-cases (str_eq v u)) [
          | inl q ↦ absurd (cc (e, free, (str_eq_iff v u).0 q))
          | inr q ↦ lookup v ∙ rw q e
        ];
        sources = λ v k e. elim (Bool-cases (str_eq v u)) [
          | inl q ↦
              let same_key : key ≡ k = some_injective (sym (lookup v ∙ rw q refl) ∙ e) in
              inr (id ∙ ap some (sym ((str_eq_iff v u).0 q)), (o, own, sym same_key))
          | inr q ↦ inl (sym (lookup v ∙ rw q refl) ∙ e)
        ];
      }

  register_uid_lem :
      (reg : Registry) (r : Registration) (o : Str) (uid : Option Str)
      → r.owner ≡ some o
      → r.uid ≡ uid
      → (register_uid is_uuid policy r o uid reg).register_errors ≡ []
      → Registered reg (register_uid is_uuid policy r o uid reg) r
  unfolding register_uid
  register_uid_lem reg r o none own id h = elim (Bool-cases policy.require_uids) [
    | inl p ↦ absurd (snoc_ne _ _ (rw p at h))
    | inr p ↦
        subst (λ x. Registered reg x r) (sym (if_false policy.require_uids _ reg p))
          (skipped reg r (rw p at h) ((λ q. ap is_some own), (λ o' e q. absurd (cc (p, q))))
            (λ o' u e f. absurd (cc (id, f))))
  ]
  register_uid_lem reg r o (some u) own id h =
      let entered = index_item u (r.kind, (o, r.id)) (index_uid u (r.kind, (o, r.id)) reg) in
      elim (Bool-cases (policy.require_uids && not (is_uuid u))) [
        | inl p ↦ absurd (snoc_ne _ _ (rw p at h))
        | inr p ↦
            subst (λ x. Registered reg x r)
              (sym (if_false (policy.require_uids && not (is_uuid u)) _ entered p))
              (indexed reg r o u own id ((λ x. ap is_some own), (λ o' e x. (u, id, ground arith)))
                (rw p at h))
      ]

  pub register_owner_lem :
      (reg : Registry) (r : Registration) (owner : Option Str)
      → r.owner ≡ owner
      → (register_owner is_uuid policy r owner reg).register_errors ≡ []
      → Registered reg (register_owner is_uuid policy r owner reg) r
  unfolding register_owner
  register_owner_lem reg r none own h = elim (Bool-cases policy.require_owners) [
    | inl p ↦ absurd (snoc_ne _ _ (rw p at h))
    | inr p ↦
        subst (λ x. Registered reg x r) (sym (if_false policy.require_owners _ reg p))
          (skipped reg r (rw p at h) ((λ q. absurd (cc (p, q))), (λ o e q. absurd (cc (own, e))))
            (λ o u e f. absurd (cc (own, e))))
  ]
  register_owner_lem reg r (some o) own h = register_uid_lem reg r o r.uid own refl h
