-- ===== src/Corpus/SourceValidation.antt =====
-- The validator of structural source graphs: crates/evidence-core/src/corpus/source_graph/validate.rs,
-- with the digests of source_graph/normalization.rs. SHA-256 is the parameter `sha256`.
pub mod Ancestry
pub mod Tree
use evidence.Prelude.{
  ℕ, zero, suc, ◌+◌, ◌%◌, ◌^◌, ◌==◌, leb, Str, codes, Bool, true, false, not, ◌&&◌, Option, none,
  some, List, [], ◌∷◌, ◌++◌, map, filter_map, length, Result, ok, err, ◌>>=◌, ◌>>◌, for_each,
  contains, sort, str_eq, str_ord, Ord, nat_ord, pair_ord, if◌then◌else◌, str_eq_iff, ◌≡◌, ◌↔◌,
  arith,
}
use evidence.BTreeMap
use evidence.BTreeMap.{BTreeMap, values}
use evidence.Corpus.Nodes.{SourceRevisionNode, Node}
use evidence.Corpus.SourceNodes.{
  SourceNodeKind, kind_str, may_parent, SourceLocator, format_str, expected_media_type, SourceNode,
  SourceGraph, SourceGraphError, opt_str_eq,
}
use evidence.Corpus.Encoding.{push_str, push_opt, push_count}
use evidence.Corpus.Graph.{CorpusGraph, nodes_of}
use evidence.Corpus.Walk.{weight}
use evidence.Corpus.SourceOrdinals.{validate_ordinals}

abbrev pub content_domain_tag : Str
content_domain_tag = codes "evidence/source-node-content/v1"

abbrev pub fingerprint_domain_tag : Str
fingerprint_domain_tag = codes "evidence/source-node-fingerprint/v1"

unfoldable pub content_digest : (Str → Str) → SourceNodeKind → Str → Str
content_digest sha256 kind canonical_text =
    sha256 (push_str (push_str (content_domain_tag ++ 0 ∷ []) (kind_str kind)) canonical_text)

unfoldable pub push_ancestors : Str → List (SourceNodeKind × Option Str) → Str
push_ancestors out [] = out
push_ancestors out ((kind, label) ∷ rest) =
    push_ancestors (push_opt (push_str out (kind_str kind)) label) rest

unfoldable pub fingerprint :
    (Str → Str) → SourceNodeKind → Option Str → List (SourceNodeKind × Option Str) → Str
unfolding push_ancestors
fingerprint sha256 kind label ancestry =
    let out0 = fingerprint_domain_tag ++ 0 ∷ [] in
    let out1 = push_str out0 (kind_str kind) in
    let out2 = push_opt out1 label in
    let out3 = push_count out2 (length ancestry) in sha256 (push_ancestors out3 ancestry)

-- From a node's uid to the revision that it belongs to.
abbrev pub UidIndex : Type 0
UidIndex = BTreeMap Str Str

unfoldable pub missing_parent : Str → Str → Str → Option Str → SourceGraphError
missing_parent revision_uid node_uid parent_uid (some parent_revision) =
    SourceGraphError.cross_revision_parent revision_uid node_uid parent_uid parent_revision
missing_parent revision_uid node_uid parent_uid none =
    SourceGraphError.dangling_parent revision_uid node_uid parent_uid

-- The `while let` loop of `walk_ancestry`; `none` is no fuel left. The later ancestor stands first
-- in `chain`, which is the order after the final `reverse`.
unfoldable pub ancestors :
    ℕ
    → Str
    → SourceGraph
    → UidIndex
    → List Str
    → List SourceNode
    → SourceNode
    → Option (Result SourceGraphError (List SourceNode))
unfolding missing_parent
ancestors zero revision_uid g index visited chain current = none
ancestors (suc fuel) revision_uid g index visited chain current = elim current.parent_uid [
  | none ↦ some (ok chain)
  | some parent_uid ↦ elim (BTreeMap.get parent_uid g) [
    | none ↦
        some
          (err (missing_parent revision_uid current.uid parent_uid (BTreeMap.get parent_uid index)))
    | some parent ↦ elim (contains visited parent.uid) [
      | true ↦ some (err (SourceGraphError.cycle revision_uid parent.uid))
      | false ↦
          ancestors fuel revision_uid g index (visited ++ parent.uid ∷ []) (parent ∷ chain) parent
    ]
  ]
]

-- One round for each node that is not yet visited, and one to end.
unfoldable pub ancestry_fuel : SourceGraph → ℕ
ancestry_fuel g = suc (weight (λ n. n.uid ∷ []) g [])

-- The loop always ends (`ancestors_total`), so the last clause is never met.
abbrev pub ended :
    Str
    → SourceNode
    → Option (Result SourceGraphError (List SourceNode))
    → Result SourceGraphError (List SourceNode)
ended revision_uid node (some r) = r
ended revision_uid node none = err (SourceGraphError.cycle revision_uid node.uid)

unfoldable pub walk_ancestry :
    Str → SourceGraph → UidIndex → SourceNode → Result SourceGraphError (List SourceNode)
unfolding ancestors ancestry_fuel
walk_ancestry revision_uid g index node =
    ended revision_uid node
      (ancestors (ancestry_fuel g) revision_uid g index (node.uid ∷ []) [] node)

unfoldable pub last_of : List SourceNode → Option SourceNode
last_of [] = none
last_of (x ∷ []) = some x
last_of (x ∷ y ∷ ys) = last_of (y ∷ ys)

unfoldable pub check_parent :
    Str → SourceNode → Option SourceNode → Result SourceGraphError (Unit {0})
check_parent revision_uid node none = ok tt
check_parent revision_uid node (some parent) =
    if not (may_parent parent.kind node.kind)
    then err (
        SourceGraphError.illegal_parent_kind revision_uid node.uid node.kind parent.uid parent.kind)
    else ok tt

-- `recomputed != stored` for the field.
unfoldable pub check_digest :
    Str → SourceNode → Str → Str → Str → Result SourceGraphError (Unit {0})
check_digest revision_uid node field recomputed stored =
    if not (str_eq recomputed stored)
    then err (SourceGraphError.digest_mismatch revision_uid node.uid field recomputed stored)
    else ok tt

abbrev pub lower_byte : ℕ → ℕ
lower_byte x = if leb 65 x && leb x 90 then x + 32 else x

unfoldable pub eq_ignore_ascii_case : Str → Str → Bool
eq_ignore_ascii_case s t = str_eq (map lower_byte s) (map lower_byte t)

unfoldable pub check_media : Str → Str → SourceNode → Result SourceGraphError (Unit {0})
unfolding eq_ignore_ascii_case
check_media revision_uid media_type node =
    if not (eq_ignore_ascii_case (expected_media_type node.locator) media_type)
    then err (
        SourceGraphError.locator_media_mismatch revision_uid node.uid (format_str node.locator)
          media_type)
    else ok tt

abbrev pub ancestry_inputs : List SourceNode → List (SourceNodeKind × Option Str)
ancestry_inputs = map (λ ancestor. (ancestor.kind, ancestor.label))

unfoldable pub validate_node :
    (Str → Str)
    → Str
    → SourceGraph
    → UidIndex
    → Str
    → SourceNode
    → Result SourceGraphError (Unit {0})
unfolding walk_ancestry last_of check_parent check_digest check_media
validate_node sha256 revision_uid g index media_type node =
    walk_ancestry revision_uid g index node >>= λ ancestry.
    check_parent revision_uid node (last_of ancestry)
    >> (check_digest revision_uid node (codes "content_sha256")
          (content_digest sha256 node.kind node.canonical_text) node.content_sha256
        >> (check_digest revision_uid node (codes "fingerprint")
              (fingerprint sha256 node.kind node.label (ancestry_inputs ancestry)) node.fingerprint
            >> check_media revision_uid media_type node))

unfoldable pub validate_one_graph :
    (Str → Str) → Str → SourceGraph → UidIndex → Str → Result SourceGraphError (Unit {0})
unfolding validate_node validate_ordinals
validate_one_graph sha256 revision_uid g index media_type =
    for_each (validate_node sha256 revision_uid g index media_type) (values g)
    >> validate_ordinals revision_uid g

-- `validate_graph_standalone`: the index is the graph's own.
unfoldable pub own_index : Str → UidIndex → List SourceNode → UidIndex
own_index revision_uid index [] = index
own_index revision_uid index (n ∷ ns) =
    own_index revision_uid (BTreeMap.insert n.uid revision_uid index) ns

unfoldable pub validate_graph_standalone :
    (Str → Str) → Str → Str → SourceGraph → Result SourceGraphError (Unit {0})
unfolding validate_one_graph own_index
validate_graph_standalone sha256 revision_uid media_type g =
    validate_one_graph sha256 revision_uid g (own_index revision_uid [] (values g)) media_type

unfoldable pub revision_media_map : BTreeMap Str Str → List Node → BTreeMap Str Str
revision_media_map m [] = m
revision_media_map m (Node.source_revision r ∷ ns) =
    revision_media_map (BTreeMap.insert r.uid r.media_type m) ns
revision_media_map m (n ∷ ns) = revision_media_map m ns

-- `entry(..).or_insert(..)`: an earlier revision keeps the uid.
unfoldable pub index_nodes : Str → UidIndex → List SourceNode → UidIndex
index_nodes revision_uid index [] = index
index_nodes revision_uid index (n ∷ ns) =
    index_nodes revision_uid
      (if BTreeMap.contains_key n.uid index
        then index
        else BTreeMap.insert n.uid revision_uid index)
      ns

unfoldable pub global_uid_index : UidIndex → BTreeMap Str SourceGraph → UidIndex
unfolding index_nodes
global_uid_index index [] = index
global_uid_index index ((revision_uid, g) ∷ gs) =
    global_uid_index (index_nodes revision_uid index (values g)) gs

unfoldable pub check_bound :
    (Str → Str) → UidIndex → Str → SourceGraph → Option Str → Result SourceGraphError (Unit {0})
unfolding validate_one_graph
check_bound sha256 index revision_uid source_graph none =
    err (SourceGraphError.unknown_source_revision revision_uid)
check_bound sha256 index revision_uid source_graph (some media_type) =
    validate_one_graph sha256 revision_uid source_graph index media_type

unfoldable pub validate_source_graphs :
    (Str → Str) → CorpusGraph → Result SourceGraphError (Unit {0})
unfolding check_bound global_uid_index revision_media_map
validate_source_graphs sha256 g =
    let media_map = revision_media_map [] (nodes_of g) in
    let uid_index = global_uid_index [] g.source_graphs in
    for_each (λ e. check_bound sha256 uid_index e.0 e.1 (BTreeMap.get e.0 media_map))
      g.source_graphs
