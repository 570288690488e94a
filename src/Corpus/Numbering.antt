-- ===== src/Corpus/Numbering.antt =====
-- Explicit numbering in front of a label: `leading_numbering_token` of
-- crates/evidence-core/src/corpus/source_graph/identity.rs, on the UTF-8 bytes of the label.
use evidence.Prelude.{
  ℕ, zero, suc, leb, ◌==◌, Str, Bool, true, false, ◌&&◌, ◌||◌, Option, none, some, [], ◌∷◌, any,
  if◌then◌else◌,
}

-- `char::is_whitespace` on UTF-8 bytes: how many bytes the white space at the front has, 0 for none.
abbrev is_ascii_space : ℕ → Bool
is_ascii_space x = (leb 9 x && leb x 13) || x == 32

abbrev space_of_three : ℕ → ℕ → ℕ → Bool
space_of_three x y z =
    (x == 0xE1 && (y == 0x9A && z == 0x80))
    || ((x == 0xE2
          && (y == 0x80 && ((leb 0x80 z && leb z 0x8A) || (z == 0xA8 || (z == 0xA9 || z == 0xAF)))))
        || ((x == 0xE2 && (y == 0x81 && z == 0x9F)) || (x == 0xE3 && (y == 0x80 && z == 0x80))))

abbrev wide_space : ℕ → Str → ℕ
wide_space x [] = 0
wide_space x (y ∷ []) = if x == 0xC2 && (y == 0x85 || y == 0xA0) then 2 else 0
wide_space x (y ∷ z ∷ rest) =
    if x == 0xC2 && (y == 0x85 || y == 0xA0) then 2 else if space_of_three x y z then 3 else 0

abbrev space_width : Str → ℕ
space_width [] = 0
space_width (x ∷ rest) = if is_ascii_space x then 1 else wide_space x rest

-- The number is how many bytes of a white space are still to be dropped.
unfoldable skip_spaces : ℕ → Str → Str
skip_spaces n [] = []
skip_spaces (suc n) (x ∷ rest) = skip_spaces n rest
skip_spaces zero (x ∷ rest) = elim (space_width (x ∷ rest)) [
  | zero ↦ x ∷ rest
  | suc n ↦ skip_spaces n rest
]

unfoldable take_word : Str → Str
take_word [] = []
take_word (x ∷ rest) = if space_width (x ∷ rest) == 0 then x ∷ take_word rest else []

-- `label.split_whitespace().next()`
unfoldable first_word : Str → Option Str
unfolding skip_spaces take_word
first_word label = elim (take_word (skip_spaces 0 label)) [ [] ↦ none | x ∷ rest ↦ some (x ∷ rest) ]

abbrev is_ascii_digit : ℕ → Bool
is_ascii_digit b = leb 48 b && leb b 57

abbrev all_numbering : Str → Bool
all_numbering [] = true
all_numbering (b ∷ rest) = (is_ascii_digit b || b == 46) && all_numbering rest

abbrev starts_with_digit : Str → Bool
starts_with_digit [] = false
starts_with_digit (b ∷ rest) = is_ascii_digit b

abbrev ends_with_digit : Str → Bool
ends_with_digit [] = false
ends_with_digit (b ∷ []) = is_ascii_digit b
ends_with_digit (b ∷ c ∷ rest) = ends_with_digit (c ∷ rest)

abbrev is_numbering : Str → Bool
is_numbering token =
    all_numbering token
    && (any is_ascii_digit token && (starts_with_digit token && ends_with_digit token))

unfoldable pub leading_numbering_token : Str → Option Str
unfolding first_word any
leading_numbering_token label = elim (first_word label) [
  | none ↦ none
  | some token ↦ if is_numbering token then some token else none
]
