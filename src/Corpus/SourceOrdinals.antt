-- ===== src/Corpus/SourceOrdinals.antt =====
-- The ordinals of siblings: `validate_ordinals` of
-- crates/evidence-core/src/corpus/source_graph/validate.rs.
pub mod Contiguous
use evidence.Prelude.{
  ℕ, suc, ◌%◌, ◌^◌, ◌==◌, Str, Bool, true, false, not, Option, none, some, List, [], ◌∷◌, ◌++◌,
  Result, ok, err, for_each, sort, str_eq, str_ord, Ord, nat_ord, pair_ord, if◌then◌else◌,
  str_eq_iff, ◌≡◌, ◌↔◌, refl, ap, some_injective, ◌>>◌,
}
use evidence.BTreeMap
use evidence.BTreeMap.{BTreeMap, values}
use evidence.Corpus.SourceNodes.{SourceNode, SourceGraph, SourceGraphError, opt_str_eq}

-- The derived order on an optional text: nothing lies below everything.
abbrev pub opt_lt : Option Str → Option Str → Bool
opt_lt none none = false
opt_lt none (some t) = true
opt_lt (some s) none = false
opt_lt (some s) (some t) = str_ord.lt s t

pub opt_eq_iff : (s t : Option Str) → (opt_str_eq s t ≡ true) ↔ (s ≡ t)
opt_eq_iff none none = ((λ h. refl), (λ h. refl))
opt_eq_iff none (some t) = ((λ h. absurd (cc)), (λ h. absurd (cc)))
opt_eq_iff (some s) none = ((λ h. absurd (cc)), (λ h. absurd (cc)))
opt_eq_iff (some s) (some t) =
    ((λ h. ap some ((str_eq_iff s t).0 h)), (λ h. (str_eq_iff s t).1 (some_injective h)))

pub opt_lt_irrefl : (s : Option Str) → opt_lt s s ≡ false
opt_lt_irrefl none = refl
opt_lt_irrefl (some s) = str_ord.lt_irrefl s

pub opt_lt_trans : (s t u : Option Str) → opt_lt s t ≡ true → opt_lt t u ≡ true → opt_lt s u ≡ true
opt_lt_trans none none u h k = absurd (cc)
opt_lt_trans none (some t) none h k = absurd (cc)
opt_lt_trans none (some t) (some u) h k = refl
opt_lt_trans (some s) none u h k = absurd (cc)
opt_lt_trans (some s) (some t) none h k = absurd (cc)
opt_lt_trans (some s) (some t) (some u) h k = str_ord.lt_trans s t u h k

pub opt_lt_total :
    (s t : Option Str) → opt_lt s t ≡ false → opt_str_eq s t ≡ false → opt_lt t s ≡ true
opt_lt_total none none h k = absurd (cc)
opt_lt_total none (some t) h k = absurd (cc)
opt_lt_total (some s) none h k = refl
opt_lt_total (some s) (some t) h k = str_ord.lt_total s t h k

instance abbrev pub opt_ord : Ord (Option Str)
opt_ord = record {
  lt = opt_lt;
  eq = opt_str_eq;
  eq_iff = opt_eq_iff;
  lt_irrefl = opt_lt_irrefl;
  lt_trans = opt_lt_trans;
  lt_total = opt_lt_total;
}

-- A sibling as `validate_ordinals` sees it, with the order that it is sorted by.
abbrev pub Sibling : Type 0
Sibling = ℕ × Str

abbrev pub SiblingSets : Type 0
SiblingSets = BTreeMap (Option Str) (List Sibling)

abbrev pub or_empty : Option (List Sibling) → List Sibling
or_empty none = []
or_empty (some siblings) = siblings

unfoldable pub push_sibling : SiblingSets → SourceNode → SiblingSets
push_sibling sets node =
    BTreeMap.insert node.parent_uid
      (or_empty (BTreeMap.get node.parent_uid sets) ++ (node.ordinal, node.uid) ∷ []) sets

unfoldable pub sibling_sets : SiblingSets → List SourceNode → SiblingSets
unfolding push_sibling
sibling_sets sets [] = sets
sibling_sets sets (n ∷ ns) = sibling_sets (push_sibling sets n) ns

-- `sibling.ordinal == prev.ordinal`, where there is a previous one.
unfoldable pub repeats : Option Sibling → ℕ → Bool
repeats none ordinal = false
repeats (some (previous, uid)) ordinal = ordinal == previous

abbrev pub previous_uid : Option Sibling → Str
previous_uid none = []
previous_uid (some (ordinal, uid)) = uid

-- `expected as u32` wraps.
unfoldable pub check_siblings :
    Str → Option Str → Option Sibling → ℕ → List Sibling → Result SourceGraphError (Unit {0})
unfolding repeats
check_siblings revision_uid parent_uid previous expected [] = ok tt
check_siblings revision_uid parent_uid previous expected ((ordinal, uid) ∷ rest) =
    if repeats previous ordinal
    then err (
        SourceGraphError.duplicate_ordinal revision_uid parent_uid ordinal (previous_uid previous)
          uid)
    else if not (ordinal == expected % 2 ^ 32)
    then err (
        SourceGraphError.non_contiguous_ordinals revision_uid parent_uid (expected % 2 ^ 32) ordinal
          uid)
    else check_siblings revision_uid parent_uid (some (ordinal, uid)) (suc expected) rest

unfoldable pub validate_ordinals : Str → SourceGraph → Result SourceGraphError (Unit {0})
unfolding check_siblings sibling_sets
validate_ordinals revision_uid g =
    for_each (λ e. check_siblings revision_uid e.0 none 0 (sort e.1)) (sibling_sets [] (values g))
