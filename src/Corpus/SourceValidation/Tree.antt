-- ===== src/Corpus/SourceValidation/Tree.antt =====
-- What acceptance says of each node of a source graph.
use evidence.Prelude.{
  Str, codes, true, Option, none, some, List, [], ◌∷◌, Result, ok, for_each, for_each-ok, >>-eq-ok,
  >>=-eq-ok, str_eq, str_eq_iff, str_ord, sort, nat_ord, pair_ord, All, ◌≡◌, refl, sym, subst, inl,
  inr, Bool-cases, ap, Option-cases,
}
use evidence.BTreeMap
use evidence.BTreeMap.{BTreeMap, values}
use evidence.Corpus.SourceNodes.{
  SourceNode, SourceGraph, SourceGraphError, may_parent, expected_media_type,
}
use evidence.Corpus.Graph.{CorpusGraph, nodes_of}
use evidence.Corpus.SourceOrdinals.{sibling_sets}
use evidence.Corpus.SourceOrdinals.Contiguous.{CountsFrom, validate_ordinals-CountsFrom}
use evidence.Corpus.SourceValidation.{
  UidIndex, ancestry_fuel, ended, walk_ancestry, last_of, check_parent, check_digest, check_media,
  content_digest, fingerprint, ancestry_inputs, eq_ignore_ascii_case, validate_node,
  validate_one_graph, check_bound, revision_media_map, global_uid_index, validate_source_graphs,
}
use evidence.Corpus.SourceValidation.Ancestry.{Ancestors, onto, ancestors_chain}

-- The kinds of a node and of its parent go together.
abbrev pub LegalParent : SourceNode → List SourceNode → Type 0
LegalParent n [] = Unit
LegalParent n (p ∷ up) = may_parent p.kind n.kind ≡ true

-- The node's parents lead to a root, and its kind, digests and locator fit where it stands.
pub record IsPlaced (sha256 : Str → Str) (g : SourceGraph) (media_type : Str) (n : SourceNode)
    : Type 0 where
  pub up : List SourceNode
  pub rooted : Ancestors g n up
  pub legal : LegalParent n up
  pub content : content_digest sha256 n.kind n.canonical_text ≡ n.content_sha256
  pub structure : fingerprint sha256 n.kind n.label (ancestry_inputs (onto up [])) ≡ n.fingerprint
  pub media : eq_ignore_ascii_case (expected_media_type n.locator) media_type ≡ true

last_of-onto :
    (up : List SourceNode) (x p : SourceNode) (chain : List SourceNode)
    → last_of (x ∷ chain) ≡ some p
    → last_of (onto up (x ∷ chain)) ≡ some p
unfolding last_of
last_of-onto [] x p chain h = h
last_of-onto (q ∷ up) x p chain h = last_of-onto up q p (x ∷ chain) h

pub check_digest_lem :
    (revision_uid : Str) (n : SourceNode) (field recomputed stored : Str)
    → check_digest revision_uid n field recomputed stored ≡ ok tt
    → recomputed ≡ stored
unfolding check_digest
check_digest_lem revision_uid n field recomputed stored h =
    elim (Bool-cases (str_eq recomputed stored)) [
      | inl e ↦ (str_eq_iff recomputed stored).0 e
      | inr e ↦ absurd (cc (rw (e, check_digest) at h))
    ]

check_media_lem :
    (revision_uid media_type : Str) (n : SourceNode)
    → check_media revision_uid media_type n ≡ ok tt
    → eq_ignore_ascii_case (expected_media_type n.locator) media_type ≡ true
unfolding check_media
check_media_lem revision_uid media_type n h =
    elim (Bool-cases (eq_ignore_ascii_case (expected_media_type n.locator) media_type)) [
      | inl e ↦ e
      | inr e ↦ absurd (cc (rw (e, check_media) at h))
    ]

legal_of :
    (revision_uid : Str) (n p : SourceNode)
    → check_parent revision_uid n (some p) ≡ ok tt
    → may_parent p.kind n.kind ≡ true
unfolding check_parent
legal_of revision_uid n p h = elim (Bool-cases (may_parent p.kind n.kind)) [
  | inl e ↦ e
  | inr e ↦ absurd (cc (rw (e, check_parent) at h))
]

check_parent_lem :
    (revision_uid : Str) (n : SourceNode) (up : List SourceNode)
    → check_parent revision_uid n (last_of (onto up [])) ≡ ok tt
    → LegalParent n up
check_parent_lem revision_uid n [] h = tt
check_parent_lem revision_uid n (p ∷ up) h = legal_of revision_uid n p (
    subst (λ x. check_parent revision_uid n x ≡ ok tt)
      (last_of-onto up p p [] (unfold last_of in refl)) h)

pub ended-eq-ok :
    (revision_uid : Str) (n : SourceNode) (r : Option (Result SourceGraphError (List SourceNode)))
    (out : List SourceNode)
    → ended revision_uid n r ≡ ok out
    → r ≡ some (ok out)
ended-eq-ok revision_uid n (some r) out h = ap some h
ended-eq-ok revision_uid n none out h = absurd (cc)

module _ (sha256 : Str → Str) (revision_uid : Str) (g : SourceGraph) (index : UidIndex)
    (media_type : Str) where
  validate_node-IsPlaced :
      (n : SourceNode)
      → validate_node sha256 revision_uid g index media_type n ≡ ok tt
      → IsPlaced sha256 g media_type n
  unfolding validate_node walk_ancestry
  validate_node-IsPlaced n h =
      let (out, walked, rest) = >>=-eq-ok (walk_ancestry revision_uid g index n) _ h in
      let (up, rooted, o) =
        ancestors_chain revision_uid g index (ancestry_fuel g) (n.uid ∷ []) [] out n
          (ended-eq-ok revision_uid n _ out walked) in
      let (parent, rest1) = >>-eq-ok (check_parent revision_uid n (last_of out)) _ rest in
      let (content, rest2) =
        >>-eq-ok
          (check_digest revision_uid n (codes "content_sha256")
            (content_digest sha256 n.kind n.canonical_text) n.content_sha256)
          _ rest1 in
      let (structure, media) =
        >>-eq-ok
          (check_digest revision_uid n (codes "fingerprint")
            (fingerprint sha256 n.kind n.label (ancestry_inputs out)) n.fingerprint)
          _ rest2 in
      record {
        up = up;
        rooted = rooted;
        legal =
            check_parent_lem revision_uid n up
              (subst (λ x. check_parent revision_uid n (last_of x) ≡ ok tt) (sym o) parent);
        content = check_digest_lem revision_uid n _ _ _ content;
        structure =
            subst (λ x. fingerprint sha256 n.kind n.label (ancestry_inputs x) ≡ n.fingerprint)
              (sym o) (check_digest_lem revision_uid n _ _ _ structure);
        media = check_media_lem revision_uid media_type n media;
      }

  All-IsPlaced :
      (ns : List SourceNode)
      → All (λ n. validate_node sha256 revision_uid g index media_type n ≡ ok tt) ns
      → All (IsPlaced sha256 g media_type) ns
  All-IsPlaced [] h = tt
  All-IsPlaced (n ∷ ns) h = (validate_node-IsPlaced n h.0, All-IsPlaced ns h.1)

  -- In an accepted source graph the parents of every node lead to a root, each node's kind may
  -- stand below its parent's, its digests are those of its text and ancestry, its locator fits the
  -- media type, and the siblings of every set are numbered from 0 without gap or repetition.
  pub validate_one_graph-IsPlaced :
      validate_one_graph sha256 revision_uid g index media_type ≡ ok tt
      → All (IsPlaced sha256 g media_type) (values g)
        × All (λ e. CountsFrom 0 (sort e.1)) (sibling_sets [] (values g))
  unfolding validate_one_graph
  validate_one_graph-IsPlaced h =
      let (nodes, ordinals) =
        >>-eq-ok (for_each (validate_node sha256 revision_uid g index media_type) (values g)) _ h in
      (
        All-IsPlaced (values g) (for_each-ok _ (values g) nodes),
        validate_ordinals-CountsFrom revision_uid g ordinals,
      )

-- What holds of one graph of an accepted corpus: its revision is committed and the nodes are placed.
abbrev pub IsBound : (Str → Str) → BTreeMap Str Str → Str × SourceGraph → Type 0
IsBound sha256 media_map (revision_uid, g) =
    (media_type : Str) × (BTreeMap.get revision_uid media_map ≡ some media_type)
    × All (IsPlaced sha256 g media_type) (values g)
    × All (λ e. CountsFrom 0 (sort e.1)) (sibling_sets [] (values g))

check_bound-IsBound :
    (sha256 : Str → Str) (index : UidIndex) (media_map : BTreeMap Str Str) (e : Str × SourceGraph)
    → check_bound sha256 index e.0 e.1 (BTreeMap.get e.0 media_map) ≡ ok tt
    → IsBound sha256 media_map e
unfolding check_bound
check_bound-IsBound sha256 index media_map e h = elim (Option-cases (BTreeMap.get e.0 media_map)) [
  | inl q ↦ absurd (cc (rw (q, check_bound) at h))
  | inr (media_type, q) ↦
      let (placed, counted) =
        validate_one_graph-IsPlaced sha256 e.0 e.1 index media_type (rw (q, check_bound) at h) in
      (media_type, q, placed, counted)
]

All-IsBound :
    (sha256 : Str → Str) (index : UidIndex) (media_map : BTreeMap Str Str)
    (gs : BTreeMap Str SourceGraph)
    → All (λ e. check_bound sha256 index e.0 e.1 (BTreeMap.get e.0 media_map) ≡ ok tt) gs
    → All (IsBound sha256 media_map) gs
All-IsBound sha256 index media_map [] h = tt
All-IsBound sha256 index media_map (e ∷ gs) h =
    (check_bound-IsBound sha256 index media_map e h.0, All-IsBound sha256 index media_map gs h.1)

-- In a corpus whose source graphs validate, each graph belongs to a committed source revision, and
-- in it every node's parents lead to a root, kinds, digests and locators fit, and siblings are
-- numbered from 0 without gap or repetition.
pub validate_source_graphs-IsBound :
    (sha256 : Str → Str) (g : CorpusGraph)
    → validate_source_graphs sha256 g ≡ ok tt
    → All (IsBound sha256 (revision_media_map [] (nodes_of g))) g.source_graphs
unfolding validate_source_graphs
validate_source_graphs-IsBound sha256 g h =
    All-IsBound sha256 (global_uid_index [] g.source_graphs) (revision_media_map [] (nodes_of g))
      g.source_graphs (for_each-ok _ g.source_graphs h)
