-- ===== src/Corpus/Walk/Order.antt =====
-- The order in which a walk that finishes lists the uids.
use evidence.Prelude.{
  Str, true, false, List, [], ◌∷◌, ◌++◌, contains, contains-append, str_ord, str_eq, str_eq_iff,
  arith, ◌≡◌, refl, sym, subst, Bool-cases, inl, inr, ◌||◌,
}
use evidence.Corpus.Walk.{push_all}

-- Every uid of `xs` is one of `ys`.
abbrev pub Within : List Str → List Str → Type 0
Within xs ys = (v : Str) → contains xs v ≡ true → contains ys v ≡ true

pub contains-push_all :
    (xs st : List Str) (v : Str) → contains (push_all xs st) v ≡ (contains xs v || contains st v)
unfolding push_all contains
contains-push_all [] st v = refl
contains-push_all (x ∷ xs) st v = ground (arith, contains-push_all xs (x ∷ st) v)

pub contains-concat :
    (xs : List Str) (c v : Str) → contains (xs ++ c ∷ []) v ≡ (contains xs v || str_eq c v)
unfolding contains
contains-concat xs c v = ground (arith, contains-append xs (c ∷ []) v)

module _ (succ_of : Str → List Str) where
  -- The successors of each uid stand further down the list, and no uid stands there twice.
  abbrev pub IsOrdered : List Str → Type 0
  IsOrdered [] = Unit
  IsOrdered (x ∷ xs) = Within (succ_of x) xs × (contains xs x ≡ false) × IsOrdered xs

  -- A path of first visits: its targets lie further down the path, on the stack, or in `done`.
  abbrev pub Forward : List Str → List Str → List Str → Type 0
  Forward [] stack done = Unit
  Forward (x ∷ xs) stack done =
      ((v : Str)
        → contains (succ_of x) v ≡ true
        → (contains xs v || contains stack v || contains done v) ≡ true)
      × (contains xs x ≡ false)
      × (contains done x ≡ false)
      × Forward xs stack done

  pub Forward-skip :
      (path : List Str) (c : Str) (rest done : List Str)
      → contains done c ≡ true
      → Forward path (c ∷ rest) done
      → Forward path rest done
  unfolding contains
  Forward-skip [] c rest done h f = tt
  Forward-skip (x ∷ xs) c rest done h f =
      (λ v k. ground (arith, f.0 v k, str_eq_iff c v), f.1, f.2, Forward-skip xs c rest done h f.3)

  pub Forward-visit :
      (path : List Str) (c : Str) (rest done : List Str)
      → contains path c ≡ false
      → contains done c ≡ false
      → Forward path (c ∷ rest) done
      → Forward (path ++ c ∷ []) (push_all (succ_of c) rest) done
  unfolding contains
  Forward-visit [] c rest done h k f =
      (λ v t. ground (arith, contains-push_all (succ_of c) rest v), refl, k, tt)
  Forward-visit (x ∷ xs) c rest done h k f = (
    λ v t. ground (arith, f.0 v t, contains-push_all (succ_of c) rest v, contains-concat xs c v),
    ground (arith, f.1, contains-concat xs c x, str_eq_iff c x, str_eq_iff x c),
    f.2,
    Forward-visit xs c rest done (ground arith) k f.3,
  )

  pub Forward-IsOrdered :
      (path done : List Str) → Forward path [] done → IsOrdered done → IsOrdered (path ++ done)
  unfolding contains
  Forward-IsOrdered [] done f o = o
  Forward-IsOrdered (x ∷ xs) done f o = (
    λ v t. ground (arith, f.0 v t, contains-append xs done v),
    ground (arith, f.1, f.2, contains-append xs done x),
    Forward-IsOrdered xs done f.3 o,
  )

  -- A chain of successors.
  pub data Chain : Str → Str → Type 0 where
    one : {a b : Str} → contains (succ_of a) b ≡ true → Chain a b
    more : {a b c : Str} → contains (succ_of a) b ≡ true → Chain b c → Chain a c

  pub IsOrdered-step :
      (xs : List Str) (a b : Str)
      → IsOrdered xs
      → contains xs a ≡ true
      → contains (succ_of a) b ≡ true
      → contains xs b ≡ true
  unfolding contains
  IsOrdered-step [] a b o h k = cc
  IsOrdered-step (x ∷ xs) a b o h k = elim (Bool-cases (str_eq x a)) [
    | inl p ↦ let e : x ≡ a = (str_eq_iff x a).0 p in ground (arith, o.0 b (rw e k))
    | inr p ↦ ground (arith, IsOrdered-step xs a b o.2 (ground arith) k)
  ]

  IsOrdered-Chain :
      (xs : List Str) (a b : Str)
      → IsOrdered xs
      → contains xs a ≡ true
      → Chain a b
      → contains xs b ≡ true
  IsOrdered-Chain xs a b o h (one k) = IsOrdered-step xs a b o h k
  IsOrdered-Chain xs a c o h (more {b = b} k r) =
      IsOrdered-Chain xs b c o (IsOrdered-step xs a b o h k) r

  Chain-tail :
      (x : Str) (xs : List Str) (b : Str) → IsOrdered (x ∷ xs) → Chain x b → contains xs b ≡ true
  Chain-tail x xs b o (one k) = o.0 b k
  Chain-tail x xs c o (more {b = b} k r) = IsOrdered-Chain xs b c o.2 (o.0 b k) r

  -- No chain comes back to an ordered uid.
  pub IsOrdered-acyclic :
      (xs : List Str) (a : Str) → IsOrdered xs → contains xs a ≡ true → ¬ Chain a a
  unfolding contains
  IsOrdered-acyclic [] a o h r = cc
  IsOrdered-acyclic (x ∷ xs) a o h r = elim (Bool-cases (str_eq x a)) [
    | inl p ↦
        let e : x ≡ a = (str_eq_iff x a).0 p in
        cc (o.1, Chain-tail x xs x o (subst (λ y. Chain y y) (sym e) r))
    | inr p ↦ IsOrdered-acyclic xs a o.2 (ground arith) r
  ]
