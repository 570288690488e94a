-- ===== src/Corpus/PatchEdits.antt =====
-- How patch application changes a working copy of a source graph: the removals, the ancestry of an
-- inserted node and the final digests of crates/evidence-core/src/corpus/source_patch/apply.rs.
pub mod Subtree
pub mod Cascade
pub mod Ancestry
pub mod Distinct
pub mod Renumber
pub mod Promotion
pub mod Ordered
pub mod Siblings
pub mod Reparent
use evidence.Prelude.{
  ℕ, zero, suc, ◌+◌, ◌%◌, ◌^◌, ltb, Str, codes, Bool, true, false, Option, none, some, List, [],
  ◌∷◌, ◌++◌, map, filter, contains, sort, length, ◌&&◌, if◌then◌else◌, str_ord, nat_ord, pair_ord,
}
use evidence.BTreeMap
use evidence.BTreeMap.{BTreeMap, values}
use evidence.Corpus.SourceNodes.{SourceNodeKind, SourceNode, SourceGraph, opt_str_eq}
use evidence.Corpus.SourceValidation.{content_digest, fingerprint}
use evidence.Corpus.Walk.{weight}

-- The loop of `ancestry_pairs`, which leaves at a missing or a visited node. The later ancestor
-- stands first, which is the order after the final `reverse`.
unfoldable pub pairs_from :
    ℕ
    → SourceGraph
    → List Str
    → List (SourceNodeKind × Option Str)
    → Option Str
    → List (SourceNodeKind × Option Str)
pairs_from zero g visited chain current = chain
pairs_from (suc fuel) g visited chain none = chain
pairs_from (suc fuel) g visited chain (some uid) = elim (BTreeMap.get uid g) [
  | none ↦ chain
  | some parent ↦ elim (contains visited parent.uid) [
    | true ↦ chain
    | false ↦
        pairs_from fuel g (visited ++ parent.uid ∷ []) ((parent.kind, parent.label) ∷ chain)
          parent.parent_uid
  ]
]

-- One round for each node of the graph and one to end: `pairs_from_total`.
unfoldable pub ancestry_pairs : SourceGraph → Option Str → List (SourceNodeKind × Option Str)
unfolding pairs_from
ancestry_pairs g parent_uid = pairs_from (suc (weight (λ n. n.uid ∷ []) g [])) g [] [] parent_uid

-- `updates.insert(..)`: the new content digest and fingerprint of each node.
unfoldable pub digest_updates :
    (Str → Str)
    → SourceGraph
    → BTreeMap Str (Str × Str)
    → List SourceNode
    → BTreeMap Str (Str × Str)
unfolding ancestry_pairs
digest_updates sha256 g updates [] = updates
digest_updates sha256 g updates (node ∷ nodes) =
    digest_updates sha256 g
      (BTreeMap.insert node.uid
        (
          content_digest sha256 node.kind node.canonical_text,
          fingerprint sha256 node.kind node.label (ancestry_pairs g node.parent_uid),
        )
        updates)
      nodes

abbrev pub set_digests : Str × Str → SourceNode → SourceNode
set_digests (content, finger) node = record node { content_sha256 = content; fingerprint = finger }

unfoldable pub apply_updates : SourceGraph → BTreeMap Str (Str × Str) → SourceGraph
apply_updates g [] = g
apply_updates g ((uid, digests) ∷ updates) =
    apply_updates (BTreeMap.update (set_digests digests) uid g) updates

unfoldable pub recompute_node_digests : (Str → Str) → SourceGraph → SourceGraph
unfolding digest_updates apply_updates
recompute_node_digests sha256 g = apply_updates g (digest_updates sha256 g [] (values g))

-- The members of a sibling set that a test picks, ordered by ordinal and uid.
unfoldable pub ordered_uids : (SourceNode → Bool) → List SourceNode → List Str
ordered_uids p nodes =
    let placed : List (ℕ × Str) = map (λ n. (n.ordinal, n.uid)) (filter p nodes) in
    map (λ e. e.1) (sort placed)

abbrev pub is_child_of : Str → SourceNode → Bool
is_child_of uid node = opt_str_eq node.parent_uid (some uid)

-- `for (index, uid) in sequence.iter().enumerate()`, with the ordinal as a u32.
unfoldable pub renumber : List Str → Option Str → ℕ → List Str → SourceGraph → SourceGraph
renumber promoted parent index [] g = g
renumber promoted parent index (uid ∷ uids) g = renumber promoted parent (index + 1) uids (
    BTreeMap.update
      (λ node.
        let renumbered = record node { ordinal = index % 2 ^ 32 } in
        if contains promoted uid then record renumbered { parent_uid = parent } else renumbered)
      uid g)

unfoldable pub promoted_uids : Str → SourceGraph → List Str
unfolding ordered_uids
promoted_uids target_uid g = ordered_uids (is_child_of target_uid) (values g)

unfoldable pub earlier_uids : SourceNode → SourceGraph → List Str
unfolding ordered_uids
earlier_uids removed g =
    ordered_uids (λ n. opt_str_eq n.parent_uid removed.parent_uid && ltb n.ordinal removed.ordinal)
      (values g)

unfoldable pub later_uids : SourceNode → SourceGraph → List Str
unfolding ordered_uids
later_uids removed g =
    ordered_uids (λ n. opt_str_eq n.parent_uid removed.parent_uid && ltb removed.ordinal n.ordinal)
      (values g)

unfoldable pub sequence : SourceNode → Str → SourceGraph → List Str
unfolding promoted_uids earlier_uids later_uids
sequence removed target_uid g =
    earlier_uids removed g ++ promoted_uids target_uid g ++ later_uids removed g

unfoldable pub promote : SourceNode → Str → SourceGraph → SourceGraph
unfolding renumber sequence
promote removed target_uid g =
    renumber (promoted_uids target_uid g) removed.parent_uid 0 (sequence removed target_uid g) g

unfoldable pub reparent_children : SourceGraph → Str → SourceGraph
unfolding promote
reparent_children g target_uid = elim (BTreeMap.get target_uid g) [
  | none ↦ g
  | some removed ↦ promote removed target_uid (BTreeMap.remove target_uid g)
]

unfoldable pub child_uids : SourceGraph → Str → List Str
child_uids g uid = map (λ n. n.uid) (filter (is_child_of uid) (values g))

-- `pending.extend(..)` on a stack whose top is the head.
unfoldable pub extend : List Str → List Str → List Str
extend [] pending = pending
extend (x ∷ xs) pending = extend xs (x ∷ pending)

-- The `while let` loop of `remove_subtree`; `none` is no fuel left. A set that is only asked for
-- membership, and then removed in any order, is the list of what was put in.
unfoldable pub collect_members : ℕ → SourceGraph → List Str → List Str → Option (List Str)
unfolding child_uids extend
collect_members zero g members pending = none
collect_members (suc fuel) g members [] = some members
collect_members (suc fuel) g members (uid ∷ pending) = elim (contains members uid) [
  | true ↦ collect_members fuel g members pending
  | false ↦ collect_members fuel g (uid ∷ members) (extend (child_uids g uid) pending)
]

unfoldable pub remove_all : List Str → SourceGraph → SourceGraph
remove_all [] g = g
remove_all (uid ∷ uids) g = remove_all uids (BTreeMap.remove uid g)

-- The loop always ends (`collect_members_total`), so the last clause is never met.
abbrev pub remove_members : Option (List Str) → SourceGraph → SourceGraph
remove_members (some members) g = remove_all members g
remove_members none g = g

-- Each node is pushed once, as a child of its parent, and the target once more; one round ends.
unfoldable pub remove_subtree : SourceGraph → Str → SourceGraph
unfolding collect_members remove_all
remove_subtree g target_uid =
    remove_members (collect_members (suc (suc (length g))) g [] (target_uid ∷ [])) g
