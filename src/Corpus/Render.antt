-- ===== src/Corpus/Render.antt =====
-- The canonical rendering of source nodes: crates/evidence-core/src/corpus/source_graph/render.rs,
-- and the digest of a source graph of source_patch/digest.rs. The printing of a float, given by its
-- bit pattern, is the parameter `show_float`.
use evidence.Prelude.{
  ℕ, zero, suc, ◌+◌, ◌/◌, ◌%◌, ◌==◌, ◌||◌, ltb, Str, codes, true, false, Option, none, some, List,
  [], ◌∷◌, ◌++◌, str_ord, if◌then◌else◌,
}
use evidence.BTreeMap.{values}
use evidence.Corpus.SourceNodes.{kind_str, SourceLocator, SourceNode, SourceGraph}

-- `Display` of an unsigned number; `n` has less than `n + 1` digits.
unfoldable pub digits : ℕ → ℕ → Str → Str
digits zero n out = out
digits (suc fuel) n out = elim (ltb n 10) [
  | true ↦ (48 + n) ∷ out
  | false ↦ digits fuel (n / 10) ((48 + n % 10) ∷ out)
]

unfoldable pub show_nat : ℕ → Str
unfolding digits
show_nat n = digits (suc n) n []

abbrev pub hex_digit : ℕ → ℕ
hex_digit d = if ltb d 10 then 48 + d else 55 + d

-- One character of a basic string. All that is escaped is ASCII, so bytes are enough.
unfoldable pub escape : ℕ → Str
escape b =
    if b == 34
    then 92 ∷ 34 ∷ []
    else if b == 92
    then 92 ∷ 92 ∷ []
    else if b == 8
    then codes "\\b"
    else if b == 9
    then codes "\\t"
    else if b == 10
    then codes "\\n"
    else if b == 12
    then codes "\\f"
    else if b == 13
    then codes "\\r"
    else if ltb b 32 || b == 127
    then codes "\\u00" ++ hex_digit (b / 16) ∷ hex_digit (b % 16) ∷ []
    else b ∷ []

unfoldable pub escape_all : Str → Str
unfolding escape
escape_all [] = []
escape_all (b ∷ bs) = escape b ++ escape_all bs

unfoldable pub basic_string : Str → Str
unfolding escape_all
basic_string value = 34 ∷ escape_all value ++ 34 ∷ []

unfoldable pub push_field : Str → Str → Str → Str
unfolding basic_string
push_field out key value = out ++ key ++ codes " = " ++ basic_string value ++ codes "\n"

unfoldable pub push_some : Str → Str → Option Str → Str
unfolding push_field
push_some out key none = out
push_some out key (some value) = push_field out key value

unfoldable pub joined : List Str → Str
joined [] = []
joined (x ∷ []) = x
joined (x ∷ y ∷ ys) = x ++ codes ", " ++ joined (y ∷ ys)

abbrev each_string : List Str → List Str
each_string [] = []
each_string (x ∷ xs) = basic_string x ∷ each_string xs

abbrev each_nat : List ℕ → List Str
each_nat [] = []
each_nat (x ∷ xs) = show_nat x ∷ each_nat xs

unfoldable pub push_array : Str → Str → List Str → Str
unfolding joined
push_array out key values = out ++ key ++ codes " = [" ++ joined values ++ codes "]\n"

unfoldable pub push_locator : (ℕ → Str) → Str → SourceLocator → Str
unfolding push_field push_some push_array show_nat
push_locator show_float out (SourceLocator.markdown path git_blob anchor heading_path (from, to)) =
    let out0 = push_field out (codes "format") (codes "markdown") in
    let out1 = push_field out0 (codes "path") path in
    let out2 = push_some out1 (codes "git_blob") git_blob in
    let out3 = push_some out2 (codes "anchor") anchor in
    let out4 = push_array out3 (codes "heading_path") (each_string heading_path) in
    push_array out4 (codes "byte_range") (show_nat from ∷ show_nat to ∷ [])
push_locator show_float out
      (SourceLocator.html canonical_url final_url fragment heading_path dom_path) =
    let out0 = push_field out (codes "format") (codes "html") in
    let out1 = push_field out0 (codes "canonical_url") canonical_url in
    let out2 = push_some out1 (codes "final_url") final_url in
    let out3 = push_some out2 (codes "fragment") fragment in
    let out4 = push_array out3 (codes "heading_path") (each_string heading_path) in
    push_array out4 (codes "dom_path") (each_nat dom_path)
push_locator show_float out (SourceLocator.pdf physical_page printed_label (x0, y0, x1, y1)) =
    let out0 = push_field out (codes "format") (codes "pdf") in
    let out1 = out0 ++ codes "physical_page = " ++ show_nat physical_page ++ codes "\n" in
    let out2 = push_some out1 (codes "printed_label") printed_label in
    push_array out2 (codes "bbox")
      (show_float x0 ∷ show_float y0 ∷ show_float x1 ∷ show_float y1 ∷ [])

unfoldable pub render_node : (ℕ → Str) → Str → SourceNode → Str
unfolding push_locator
render_node show_float out node =
    let out0 = out ++ codes "\n[[nodes]]\n" in
    let out1 = push_field out0 (codes "uid") node.uid in
    let out2 = push_field out1 (codes "source_revision_uid") node.source_revision_uid in
    let out3 = push_some out2 (codes "parent_uid") node.parent_uid in
    let out4 = push_field out3 (codes "kind") (kind_str node.kind) in
    let out5 = out4 ++ codes "ordinal = " ++ show_nat node.ordinal ++ codes "\n" in
    let out6 = push_some out5 (codes "label") node.label in
    let out7 = push_field out6 (codes "canonical_text") node.canonical_text in
    let out8 = push_field out7 (codes "content_sha256") node.content_sha256 in
    let out9 = push_field out8 (codes "fingerprint") node.fingerprint in
    push_locator show_float (out9 ++ codes "\n[nodes.locator]\n") node.locator

-- `sort_by` on uids, which keeps the order of equal ones.
unfoldable pub insert_by_uid : SourceNode → List SourceNode → List SourceNode
insert_by_uid node [] = node ∷ []
insert_by_uid node (n ∷ ns) =
    if str_ord.lt n.uid node.uid then n ∷ insert_by_uid node ns else node ∷ n ∷ ns

unfoldable pub sort_by_uid : List SourceNode → List SourceNode
unfolding insert_by_uid
sort_by_uid [] = []
sort_by_uid (n ∷ ns) = insert_by_uid n (sort_by_uid ns)

unfoldable pub render_nodes : (ℕ → Str) → Str → List SourceNode → Str
unfolding render_node
render_nodes show_float out [] = out
render_nodes show_float out (n ∷ ns) = render_nodes show_float (render_node show_float out n) ns

unfoldable pub render_sorted_nodes : (ℕ → Str) → List SourceNode → Str
unfolding render_nodes sort_by_uid
render_sorted_nodes show_float nodes =
    render_nodes show_float (codes "schema_version = 1\n") (sort_by_uid nodes)

unfoldable pub source_graph_digest : (Str → Str) → (ℕ → Str) → SourceGraph → Str
unfolding render_sorted_nodes
source_graph_digest sha256 show_float g =
    sha256
      (codes "evidence/source-graph-digest/v1" ++ 0 ∷ render_sorted_nodes show_float (values g))
