-- ===== src/Corpus/SourceNodes.antt =====
-- Structural source graphs: crates/evidence-core/src/corpus/source_graph.rs, and the locators of
-- source_graph/locator.rs. A float of a bounding box is kept as its bit pattern.
use evidence.Prelude.{
  str_ord, ℕ, Str, codes, Bool, true, false, Option, none, some, List, ◌≡◌, arith, ◌==◌, ◌↔◌, ◌&&◌,
  Result, ok, err, find, str_eq, Option-cases, inl, inr,
}
use evidence.BTreeMap
use evidence.BTreeMap.{BTreeMap, values}

pub data SourceNodeKind : Type 0 where
  section paragraph list_item definition_term definition_body table table_row table_cell code_block
        note figure_caption :
      SourceNodeKind

abbrev pub kind_str : SourceNodeKind → Str
kind_str SourceNodeKind.section = codes "section"
kind_str SourceNodeKind.paragraph = codes "paragraph"
kind_str SourceNodeKind.list_item = codes "list_item"
kind_str SourceNodeKind.definition_term = codes "definition_term"
kind_str SourceNodeKind.definition_body = codes "definition_body"
kind_str SourceNodeKind.table = codes "table"
kind_str SourceNodeKind.table_row = codes "table_row"
kind_str SourceNodeKind.table_cell = codes "table_cell"
kind_str SourceNodeKind.code_block = codes "code_block"
kind_str SourceNodeKind.note = codes "note"
kind_str SourceNodeKind.figure_caption = codes "figure_caption"

abbrev source_kind_rank : SourceNodeKind → ℕ
source_kind_rank SourceNodeKind.section = 0
source_kind_rank SourceNodeKind.paragraph = 1
source_kind_rank SourceNodeKind.list_item = 2
source_kind_rank SourceNodeKind.definition_term = 3
source_kind_rank SourceNodeKind.definition_body = 4
source_kind_rank SourceNodeKind.table = 5
source_kind_rank SourceNodeKind.table_row = 6
source_kind_rank SourceNodeKind.table_cell = 7
source_kind_rank SourceNodeKind.code_block = 8
source_kind_rank SourceNodeKind.note = 9
source_kind_rank SourceNodeKind.figure_caption = 10

unfoldable pub source_kind_eq : SourceNodeKind → SourceNodeKind → Bool
source_kind_eq a b = source_kind_rank a == source_kind_rank b

pub source_kind_eq_iff : (a b : SourceNodeKind) → (source_kind_eq a b ≡ true) ↔ (a ≡ b)
unfolding source_kind_eq
source_kind_eq_iff a b = ground arith

unfoldable pub may_parent : SourceNodeKind → SourceNodeKind → Bool
may_parent SourceNodeKind.section child = true
may_parent SourceNodeKind.table child = source_kind_eq child SourceNodeKind.table_row
may_parent SourceNodeKind.table_row child = source_kind_eq child SourceNodeKind.table_cell
may_parent _ child = false

pub data SourceLocator : Type 0 where
  markdown :
      (path : Str) (git_blob anchor : Option Str) (heading_path : List Str) (byte_range : ℕ × ℕ)
      → SourceLocator
  html :
      (canonical_url : Str) (final_url fragment : Option Str) (heading_path : List Str)
      (dom_path : List ℕ)
      → SourceLocator
  pdf : (physical_page : ℕ) (printed_label : Option Str) (bbox : ℕ × ℕ × ℕ × ℕ) → SourceLocator

abbrev pub format_str : SourceLocator → Str
format_str (markdown _ _ _ _ _) = codes "markdown"
format_str (html _ _ _ _ _) = codes "html"
format_str (pdf _ _ _) = codes "pdf"

abbrev pub expected_media_type : SourceLocator → Str
expected_media_type (markdown _ _ _ _ _) = codes "text/markdown"
expected_media_type (html _ _ _ _ _) = codes "text/html"
expected_media_type (pdf _ _ _) = codes "application/pdf"

pub record SourceNode : Type 0 where
  pub uid : Str
  pub source_revision_uid : Str
  pub parent_uid : Option Str
  pub kind : SourceNodeKind
  pub ordinal : ℕ
  pub label : Option Str
  pub canonical_text : Str
  pub content_sha256 : Str
  pub fingerprint : Str
  pub locator : SourceLocator

abbrev pub SourceGraph : Type 0
SourceGraph = BTreeMap Str SourceNode

-- The errors that insertion and validation of a source graph return.
pub data SourceGraphError : Type 0 where
  duplicate_uid : (revision_uid uid : Str) → SourceGraphError
  duplicate_human_id :
      (revision_uid : Str) (kind : SourceNodeKind) (label first_uid duplicate_uid : Str)
      → SourceGraphError
  unknown_source_revision : (revision_uid : Str) → SourceGraphError
  illegal_parent_kind :
      (revision_uid node_uid : Str) (kind : SourceNodeKind) (parent_uid : Str)
      (parent_kind : SourceNodeKind)
      → SourceGraphError
  digest_mismatch : (revision_uid node_uid field expected actual : Str) → SourceGraphError
  locator_media_mismatch :
      (revision_uid node_uid locator_format media_type : Str) → SourceGraphError
  cross_revision_parent :
      (revision_uid node_uid parent_uid parent_revision_uid : Str) → SourceGraphError
  dangling_parent : (revision_uid node_uid parent_uid : Str) → SourceGraphError
  cycle : (revision_uid node_uid : Str) → SourceGraphError
  duplicate_ordinal :
      (revision_uid : Str) (parent_uid : Option Str) (ordinal : ℕ) (first_uid duplicate_uid : Str)
      → SourceGraphError
  non_contiguous_ordinals :
      (revision_uid : Str) (parent_uid : Option Str) (expected found : ℕ) (node_uid : Str)
      → SourceGraphError

abbrev pub opt_str_eq : Option Str → Option Str → Bool
opt_str_eq none none = true
opt_str_eq none (some b) = false
opt_str_eq (some a) none = false
opt_str_eq (some a) (some b) = str_eq a b

-- The node that already carries the label, within the kind.
unfoldable pub same_label : SourceNode → Str → SourceNode → Bool
same_label node label existing =
    source_kind_eq existing.kind node.kind && opt_str_eq existing.label (some label)

insert_unlabelled : SourceGraph → SourceNode → Result SourceGraphError SourceGraph
insert_unlabelled g node = ok (BTreeMap.insert node.uid node g)

insert_fresh : SourceGraph → SourceNode → Option Str → Result SourceGraphError SourceGraph
unfolding insert_unlabelled
insert_fresh g node none = insert_unlabelled g node
insert_fresh g node (some label) = elim (find (same_label node label) (values g)) [
  | some existing ↦
      err (duplicate_human_id node.source_revision_uid node.kind label existing.uid node.uid)
  | none ↦ insert_unlabelled g node
]

-- `SourceGraph::insert`
unfoldable pub insert_node : SourceGraph → SourceNode → Result SourceGraphError SourceGraph
unfolding insert_fresh
insert_node g node = elim (BTreeMap.get node.uid g) [
  | some existing ↦ err (duplicate_uid existing.source_revision_uid node.uid)
  | none ↦ insert_fresh g node node.label
]

insert_fresh-eq-ok :
    (g h : SourceGraph) (n : SourceNode) (label : Option Str)
    → insert_fresh g n label ≡ ok h
    → h ≡ BTreeMap.insert n.uid n g
unfolding insert_fresh
insert_fresh-eq-ok g h n none e = cc
insert_fresh-eq-ok g h n (some label) e =
    elim (Option-cases (find (same_label n label) (values g))) [
      | inl p ↦ cc (rw (p, insert_fresh) at e)
      | inr (x, p) ↦ absurd (cc (rw (p, insert_fresh) at e))
    ]

-- An accepted insertion puts the node under its uid, which was free.
pub insert_node-eq-ok :
    (g h : SourceGraph) (n : SourceNode)
    → insert_node g n ≡ ok h
    → (BTreeMap.get n.uid g ≡ none) × (h ≡ BTreeMap.insert n.uid n g)
unfolding insert_node
insert_node-eq-ok g h n e = elim (Option-cases (BTreeMap.get n.uid g)) [
  | inl p ↦ (p, insert_fresh-eq-ok g h n n.label (rw (p, insert_node) at e))
  | inr (x, p) ↦ absurd (cc (rw (p, insert_node) at e))
]
