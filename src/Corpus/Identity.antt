-- ===== src/Corpus/Identity.antt =====
-- The identity of source nodes over re-ingestion:
-- crates/evidence-core/src/corpus/source_graph/identity.rs, with `to_candidate` of drift/nodes.rs.
-- The module Numbering has the explicit numbering. SHA-256 is a parameter, and so is the sequence of
-- random UUIDs that minting draws from.
pub mod Climb
pub mod Keys
pub mod Presented
pub mod Unchanged
pub mod Reordered
pub mod Consumed
pub mod Held
pub mod Reused
use evidence.Prelude.{
  ℕ, zero, suc, ◌==◌, Str, codes, Bool, true, false, ◌&&◌, ◌||◌, Option, none, some, List, [], ◌∷◌,
  ◌++◌, map, contains, str_eq, str_ord, if◌then◌else◌,
}
use evidence.BTreeMap
use evidence.BTreeMap.{BTreeMap, values}
use evidence.Corpus.SourceNodes.{
  SourceNodeKind, source_kind_eq, SourceLocator, SourceNode, SourceGraph,
}
use evidence.Corpus.Numbering.{leading_numbering_token}
use evidence.Corpus.SourceValidation
use evidence.Corpus.Walk.{weight}

pub data StructuralKey : Type 0 where
  explicit : (kind : SourceNodeKind) (anchor : Str) → StructuralKey
  position : (parent : StructuralKey) (kind : SourceNodeKind) (ordinal : ℕ) → StructuralKey
  fingerprint : (digest : Str) → StructuralKey

unfoldable pub key_eq : StructuralKey → StructuralKey → Bool
key_eq (StructuralKey.explicit k a) (StructuralKey.explicit j b) = source_kind_eq k j && str_eq a b
key_eq (StructuralKey.position p k m) (StructuralKey.position q j n) =
    key_eq p q && (source_kind_eq k j && m == n)
key_eq (StructuralKey.fingerprint a) (StructuralKey.fingerprint b) = str_eq a b
key_eq _ _ = false

pub record CandidateNode : Type 0 where
  pub provisional_id : Str
  pub parent_id : Option Str
  pub kind : SourceNodeKind
  pub ordinal : ℕ
  pub label : Option Str
  pub canonical_text : Str
  pub locator : SourceLocator

pub record ReconciledNode : Type 0 where
  pub uid : Str
  pub candidate : CandidateNode

abbrev pub to_candidate : SourceNode → CandidateNode
to_candidate node = record {
  provisional_id = node.uid;
  parent_id = node.parent_uid;
  kind = node.kind;
  ordinal = node.ordinal;
  label = node.label;
  canonical_text = node.canonical_text;
  locator = node.locator;
}

abbrev pub explicit_anchor : SourceLocator → Option Str
explicit_anchor (SourceLocator.markdown path git_blob anchor heading_path byte_range) = anchor
explicit_anchor (SourceLocator.html canonical_url final_url anchor heading_path dom_path) = anchor
explicit_anchor (SourceLocator.pdf physical_page printed_label bbox) = none

abbrev pub numbering_of : Option Str → Option Str
numbering_of none = none
numbering_of (some label) = leading_numbering_token label

abbrev pub or_anchor : Option Str → Option Str → Option Str
or_anchor (some numbering) anchor = some numbering
or_anchor none anchor = anchor

unfoldable pub explicit_identity : Option Str → SourceLocator → Option Str
unfolding leading_numbering_token
explicit_identity label locator = or_anchor (numbering_of label) (explicit_anchor locator)

-- What `fold_tier` reads of a node or a candidate.
pub record Tier : Type 0 where
  pub kind : SourceNodeKind
  pub label : Option Str
  pub locator : SourceLocator
  pub ordinal : ℕ

abbrev pub node_tier : SourceNode → Tier
node_tier node = record {
  kind = node.kind;
  label = node.label;
  locator = node.locator;
  ordinal = node.ordinal;
}

abbrev pub candidate_tier : CandidateNode → Tier
candidate_tier candidate = record {
  kind = candidate.kind;
  label = candidate.label;
  locator = candidate.locator;
  ordinal = candidate.ordinal;
}

-- The last two tiers: the position under a parent's key, or a root's fingerprint.
abbrev pub below : (Str → Str) → Tier → Option StructuralKey → StructuralKey
below sha256 tier (some parent) = StructuralKey.position parent tier.kind tier.ordinal
below sha256 tier none =
    StructuralKey.fingerprint (SourceValidation.fingerprint sha256 tier.kind tier.label [])

unfoldable pub fold_tier : (Str → Str) → Tier → Option StructuralKey → StructuralKey
fold_tier sha256 tier parent_key = elim (explicit_identity tier.label tier.locator) [
  | some anchor ↦ StructuralKey.explicit tier.kind anchor
  | none ↦ below sha256 tier parent_key
]

unfoldable pub fold_chain : (Str → Str) → Option StructuralKey → List Tier → Option StructuralKey
unfolding fold_tier
fold_chain sha256 key [] = key
fold_chain sha256 key (ancestor ∷ chain) =
    fold_chain sha256 (some (fold_tier sha256 ancestor key)) chain

-- The `while let` loop along parents, which leaves at a missing or a visited one. The later
-- ancestor stands first, which is the order after `reverse`.
module _ {V : Type 0} (uid_of : V → Str) (parent_of : V → Option Str) where
  unfoldable pub climb : ℕ → BTreeMap Str V → List Str → List V → Option Str → List V
  climb zero m visited chain current = chain
  climb (suc fuel) m visited chain none = chain
  climb (suc fuel) m visited chain (some uid) = elim (BTreeMap.get uid m) [
    | none ↦ chain
    | some parent ↦ elim (contains visited (uid_of parent)) [
      | true ↦ chain
      | false ↦ climb fuel m (visited ++ uid_of parent ∷ []) (parent ∷ chain) (parent_of parent)
    ]
  ]

  -- One round for each entry and one to end.
  unfoldable pub parents : BTreeMap Str V → V → List V
  unfolding climb
  parents m start =
      climb (suc (weight (λ v. uid_of v ∷ []) m [])) m (uid_of start ∷ []) [] (parent_of start)

unfoldable pub structural_key : (Str → Str) → SourceGraph → SourceNode → StructuralKey
unfolding fold_chain parents
structural_key sha256 graph node = elim (explicit_identity node.label node.locator) [
  | some anchor ↦ StructuralKey.explicit node.kind anchor
  | none ↦
      below sha256 (node_tier node) (
        fold_chain sha256 none
          (map node_tier (parents (λ n. n.uid) (λ n. n.parent_uid) graph node)))
]

unfoldable pub candidate_key :
    (Str → Str) → BTreeMap Str CandidateNode → CandidateNode → StructuralKey
unfolding fold_chain parents
candidate_key sha256 by_id candidate = elim (explicit_identity candidate.label candidate.locator) [
  | some anchor ↦ StructuralKey.explicit candidate.kind anchor
  | none ↦ below sha256 (candidate_tier candidate) (
      fold_chain sha256 none
        (map candidate_tier (parents (λ c. c.provisional_id) (λ c. c.parent_id) by_id candidate)))
]

-- The pool is only asked for the entry of a key, so it is an association list.
abbrev pub Pool : Type 0
Pool = List (StructuralKey × List Str)

unfoldable pub pool_uids : StructuralKey → Pool → List Str
unfolding key_eq
pool_uids key [] = []
pool_uids key ((k, uids) ∷ pool) = if key_eq key k then uids else pool_uids key pool

-- `pool.entry(key).or_default().push(uid)`
unfoldable pub pool_push : StructuralKey → Str → Pool → Pool
unfolding key_eq
pool_push key uid [] = (key, uid ∷ []) ∷ []
pool_push key uid ((k, uids) ∷ pool) =
    if key_eq key k then (k, uids ++ uid ∷ []) ∷ pool else (k, uids) ∷ pool_push key uid pool

-- What `uids.remove(0)` leaves at the key.
unfoldable pub pool_set : StructuralKey → List Str → Pool → Pool
unfolding key_eq
pool_set key left [] = []
pool_set key left ((k, uids) ∷ pool) =
    if key_eq key k then (k, left) ∷ pool else (k, uids) ∷ pool_set key left pool

unfoldable pub fill_pool : (SourceNode → StructuralKey) → Pool → List SourceNode → Pool
unfolding pool_push
fill_pool key_of pool [] = pool
fill_pool key_of pool (node ∷ nodes) =
    fill_pool key_of (pool_push (key_of node) node.uid pool) nodes

-- On a repeated id the last candidate stays.
unfoldable pub index_by_id :
    BTreeMap Str CandidateNode → List CandidateNode → BTreeMap Str CandidateNode
index_by_id by_id [] = by_id
index_by_id by_id (candidate ∷ candidates) =
    index_by_id (BTreeMap.insert candidate.provisional_id candidate by_id) candidates

module _ (new_v4 : ℕ → Str) where
  abbrev pub mint_node_uid : ℕ → Str
  mint_node_uid n = codes "snode_" ++ new_v4 n

  -- The closing loop; the number is how many uids it has minted.
  unfoldable pub assign :
      (CandidateNode → StructuralKey) → ℕ → Pool → List CandidateNode → List ReconciledNode
  unfolding pool_uids pool_set
  assign key_of n pool [] = []
  assign key_of n pool (c ∷ candidates) = elim (pool_uids (key_of c) pool) [
    | [] ↦ record { uid = mint_node_uid n; candidate = c } ∷ assign key_of (suc n) pool candidates
    | uid ∷ uids ↦
        record { uid = uid; candidate = c }
        ∷ assign key_of n (pool_set (key_of c) uids pool) candidates
  ]

  unfoldable pub reconcile : (Str → Str) → SourceGraph → List CandidateNode → List ReconciledNode
  unfolding assign fill_pool index_by_id structural_key candidate_key
  reconcile sha256 committed candidates =
      assign (candidate_key sha256 (index_by_id [] candidates)) 0
        (fill_pool (structural_key sha256 committed) [] (values committed)) candidates
