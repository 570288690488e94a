-- ===== src/Corpus/Encoding.antt =====
-- The length-prefixed byte encoding that the corpus digests hash: `push_count`, `push_str` and
-- `push_opt` of corpus/review_content.rs (and of source_graph/normalization.rs, which has the same).
pub mod Injective
use evidence.Prelude.{
  ℕ, ◌+◌, ◌-◌, ◌*◌, ◌/◌, ◌%◌, ◌^◌, Str, Option, none, some, List, [], ◌∷◌, ◌++◌, length,
}

-- `to_be_bytes` of a `u64`.
unfoldable pub u64_be : ℕ → Str
u64_be n =
    n / 2 ^ 56 % 256
    ∷ n / 2 ^ 48 % 256
    ∷ n / 2 ^ 40 % 256
    ∷ n / 2 ^ 32 % 256
    ∷ n / 2 ^ 24 % 256
    ∷ n / 2 ^ 16 % 256
    ∷ n / 2 ^ 8 % 256
    ∷ n % 256
    ∷ []

-- `u64::MAX`
abbrev pub none_sentinel : ℕ
none_sentinel = 18446744073709551615

unfoldable pub push_count : Str → ℕ → Str
push_count out count = out ++ u64_be count

unfoldable pub push_str : Str → Str → Str
unfolding push_count
push_str out value = push_count out (length value) ++ value

unfoldable pub push_opt : Str → Option Str → Str
unfolding push_str
push_opt out (some value) = push_str out value
push_opt out none = out ++ u64_be none_sentinel

-- `for value in values { push_str(&mut out, value); }`
unfoldable pub push_strs : Str → List Str → Str
unfolding push_str
push_strs out [] = out
push_strs out (v ∷ vs) = push_strs (push_str out v) vs
