-- ===== src/Corpus/Encoding/Injective.antt =====
-- Reading the encoding back from the left.
use mathlib.Core.List.{append_assoc, append-nil}
use evidence.Prelude.{
  ℕ, ◌+◌, ◌*◌, ◌^◌, ◌<◌, Str, Option, none, some, List, [], ◌∷◌, ◌++◌, length, ◌≡◌, refl, sym, ◌∙◌,
  ap, arith, All,
}
use evidence.Corpus.Encoding.{u64_be, none_sentinel, push_str, push_opt, push_strs}

-- The number that the first eight bytes stand for.
u64_of : Str → ℕ
u64_of (a ∷ b ∷ c ∷ d ∷ e ∷ f ∷ g ∷ h ∷ rest) =
    a * 2 ^ 56 + b * 2 ^ 48 + c * 2 ^ 40 + d * 2 ^ 32 + e * 2 ^ 24 + f * 2 ^ 16 + g * 2 ^ 8 + h
u64_of _ = 0

u64_of-u64_be : (n : ℕ) (rest : Str) → n < 2 ^ 64 → u64_of (u64_be n ++ rest) ≡ n
unfolding u64_of u64_be
u64_of-u64_be n rest h = omega arith

tail_eq : {x y : ℕ} {r s : Str} → x ∷ r ≡ y ∷ s → r ≡ s
tail_eq h = cc

rest-u64_be : (n m : ℕ) (r s : Str) → u64_be n ++ r ≡ u64_be m ++ s → r ≡ s
unfolding u64_be
rest-u64_be n m r s h =
    tail_eq (tail_eq (tail_eq (tail_eq (tail_eq (tail_eq (tail_eq (tail_eq h)))))))

pub u64_be_injective :
    (n m : ℕ) (r s : Str)
    → n < 2 ^ 64
    → m < 2 ^ 64
    → u64_be n ++ r ≡ u64_be m ++ s
    → (n ≡ m) × (r ≡ s)
u64_be_injective n m r s hn hm h =
    (sym (u64_of-u64_be n r hn) ∙ ap u64_of h ∙ u64_of-u64_be m s hm, rest-u64_be n m r s h)

append_split : (a b r s : Str) → length a ≡ length b → a ++ r ≡ b ++ s → (a ≡ b) × (r ≡ s)
append_split [] [] r s l h = (refl, h)
append_split [] (y ∷ b) r s l h = absurd (omega arith)
append_split (x ∷ a) [] r s l h = absurd (omega arith)
append_split (x ∷ a) (y ∷ b) r s l h =
    let rest = append_split a b r s (omega arith) (tail_eq h) in (cc (h, rest.0), rest.1)

-- A length below `u64::MAX`, which is kept for "absent".
abbrev pub Fits : Str → Type 0
Fits v = length v < none_sentinel

abbrev pub FitsOption : Option Str → Type 0
FitsOption none = Unit
FitsOption (some v) = Fits v

-- The bytes that `push_str` and `push_opt` append.
abbrev pub str_bytes : Str → Str
str_bytes v = u64_be (length v) ++ v

abbrev pub opt_bytes : Option Str → Str
opt_bytes none = u64_be none_sentinel
opt_bytes (some v) = str_bytes v

pub str_bytes_injective :
    (a b r s : Str) → Fits a → Fits b → str_bytes a ++ r ≡ str_bytes b ++ s → (a ≡ b) × (r ≡ s)
str_bytes_injective a b r s fa fb h =
    let flat : u64_be (length a) ++ (a ++ r) ≡ u64_be (length b) ++ (b ++ s) =
      sym (append_assoc (u64_be (length a)) a r) ∙ h ∙ append_assoc (u64_be (length b)) b s in
    let (len, rest) = u64_be_injective _ _ (a ++ r) (b ++ s) (omega arith) (omega arith) flat in
    append_split a b r s len rest

pub opt_bytes_injective :
    (a b : Option Str) (r s : Str)
    → FitsOption a
    → FitsOption b
    → opt_bytes a ++ r ≡ opt_bytes b ++ s
    → (a ≡ b) × (r ≡ s)
opt_bytes_injective none none r s fa fb h =
    (refl, (u64_be_injective _ _ r s (omega arith) (omega arith) h).1)
opt_bytes_injective none (some b) r s fa fb h =
    let flat = h ∙ append_assoc (u64_be (length b)) b s in
    let e = (u64_be_injective _ _ r (b ++ s) (omega arith) (omega arith) flat).0 in
    absurd (omega arith)
opt_bytes_injective (some a) none r s fa fb h =
    let flat = sym (append_assoc (u64_be (length a)) a r) ∙ h in
    let e = (u64_be_injective _ _ (a ++ r) s (omega arith) (omega arith) flat).0 in
    absurd (omega arith)
opt_bytes_injective (some a) (some b) r s fa fb h =
    let found = str_bytes_injective a b r s fa fb h in (ap some found.0, found.1)

abbrev pub strs_bytes : List Str → Str
strs_bytes [] = []
strs_bytes (v ∷ vs) = str_bytes v ++ strs_bytes vs

pub strs_bytes_injective :
    (vs ws : List Str) (r s : Str)
    → All Fits vs
    → All Fits ws
    → length vs ≡ length ws
    → strs_bytes vs ++ r ≡ strs_bytes ws ++ s
    → (vs ≡ ws) × (r ≡ s)
strs_bytes_injective [] [] r s fv fw l h = (refl, h)
strs_bytes_injective [] (w ∷ ws) r s fv fw l h = absurd (omega arith)
strs_bytes_injective (v ∷ vs) [] r s fv fw l h = absurd (omega arith)
strs_bytes_injective (v ∷ vs) (w ∷ ws) r s fv fw l h =
    let flat =
      sym (append_assoc (str_bytes v) (strs_bytes vs) r)
      ∙ h
      ∙ append_assoc (str_bytes w) (strs_bytes ws) s in
    let (first, rest) =
      str_bytes_injective v w (strs_bytes vs ++ r) (strs_bytes ws ++ s) fv.0 fw.0 flat in
    let found = strs_bytes_injective vs ws r s fv.1 fw.1 (omega arith) rest in
    (cc (first, found.0), found.1)

-- The pushes append exactly these bytes.
pub push_str-bytes : (out v : Str) → push_str out v ≡ out ++ str_bytes v
unfolding push_str
push_str-bytes out v = append_assoc out (u64_be (length v)) v

pub push_opt-bytes : (out : Str) (v : Option Str) → push_opt out v ≡ out ++ opt_bytes v
unfolding push_opt
push_opt-bytes out none = refl
push_opt-bytes out (some v) = append_assoc out (u64_be (length v)) v

pub push_strs-bytes : (out : Str) (vs : List Str) → push_strs out vs ≡ out ++ strs_bytes vs
unfolding push_strs
push_strs-bytes out [] = sym (append-nil out)
push_strs-bytes out (v ∷ vs) =
    push_strs-bytes (push_str out v) vs
    ∙ ap (λ x. x ++ strs_bytes vs) (push_str-bytes out v)
    ∙ append_assoc out (str_bytes v) (strs_bytes vs)
