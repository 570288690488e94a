-- ===== src/Corpus/Lineage/Sound.antt =====
-- What the lineage checks establish of each revision.
use evidence.Prelude.{
  ◌≤◌, ltb, Str, true, Option, none, some, List, [], ◌∷◌, Result, ok, ok_injective, try_fold,
  try_fold-All, str_ord, str_eq, str_eq_iff, length, All, contains, ◌≡◌, ◌≢◌, inl, inr, subst,
  arith, Bool-cases,
}
use evidence.Corpus.Nodes.{EdgeKind, Edge, Node, SourceRevisionNode, edge_kind_eq, edge_kind_eq_iff}
use evidence.Corpus.Errors.{SourceError}
use evidence.Corpus.Graph.{CorpusGraph, get, nodes_of, supersedes_targets}
use evidence.Corpus.Successors.{SupersededBy, successors}
use evidence.Corpus.Successors.Laws.{Grows, contains-push}
use evidence.Corpus.Lineage.{check_predecessor, edge_step, node_step}

-- The revision `r` stands in the graph under `uid`.
abbrev pub IsRevision : CorpusGraph → Str → SourceRevisionNode → Type 0
IsRevision g uid r = get uid g ≡ some (Node.source_revision r)

abbrev pub EdgeAgrees : SourceRevisionNode → SupersededBy → Option Node → Type 0
EdgeAgrees r m (some (Node.source_revision p)) =
    (r.document_key ≡ p.document_key) × (contains (successors p.uid m) r.uid ≡ true)
EdgeAgrees r m _ = Unit

abbrev pub EdgeGood : CorpusGraph → SourceRevisionNode → SupersededBy → Edge → Type 0
EdgeGood g r m (kind, target) =
    kind ≡ EdgeKind.supersedes → (target ≢ r.uid) × EdgeAgrees r m (get target g)

EdgeAgrees-mono :
    (r : SourceRevisionNode) (m n : SupersededBy) (o : Option Node)
    → Grows m n
    → EdgeAgrees r m o
    → EdgeAgrees r n o
EdgeAgrees-mono r m n none g e = tt
EdgeAgrees-mono r m n (some (Node.requirement _)) g e = tt
EdgeAgrees-mono r m n (some (Node.test _)) g e = tt
EdgeAgrees-mono r m n (some (Node.review _)) g e = tt
EdgeAgrees-mono r m n (some (Node.source_revision p)) g e = (e.0, g p.uid r.uid e.1)

unchanged :
    {m n : SupersededBy} → ◌≡◌ {A = Result SourceError SupersededBy} (ok m) (ok n) → Grows m n
unchanged {m} h = subst (Grows m) (ok_injective h) (λ p u k. k)

check_predecessor_lem :
    (r : SourceRevisionNode) (m n : SupersededBy) (o : Option Node)
    → check_predecessor r m o ≡ ok n
    → Grows m n × EdgeAgrees r n o
unfolding check_predecessor
check_predecessor_lem r m n none h = (unchanged h, tt)
check_predecessor_lem r m n (some (Node.requirement _)) h = (unchanged h, tt)
check_predecessor_lem r m n (some (Node.test _)) h = (unchanged h, tt)
check_predecessor_lem r m n (some (Node.review _)) h = (unchanged h, tt)
check_predecessor_lem r m n (some (Node.source_revision p)) h = (
  λ q u k. ground (arith, contains-push p.uid r.uid q u m),
  (
    ground (arith, str_eq_iff r.document_key p.document_key),
    ground (arith, contains-push p.uid r.uid p.uid r.uid m),
  ),
)

edge_step_lem :
    (g : CorpusGraph) (r : SourceRevisionNode) (m n : SupersededBy) (e : Edge)
    → edge_step g r m e ≡ ok n
    → Grows m n × EdgeGood g r n e
unfolding edge_step
edge_step_lem g r m n (kind, target) h = elim (Bool-cases (edge_kind_eq kind EdgeKind.supersedes)) [
  | inr p ↦ (
    unchanged (rw p at h),
    λ same. absurd (ground (arith, edge_kind_eq_iff kind EdgeKind.supersedes)),
  )
  | inl p ↦ elim (Bool-cases (str_eq target r.uid)) [
    | inl q ↦ absurd (cc (rw (p, q) at h))
    | inr q ↦
        let found = check_predecessor_lem r m n (get target g) (rw (p, q) at h) in
        (found.0, λ same. (λ e. cc ((str_eq_iff target r.uid).1 e), found.1))
  ]
]

abbrev pub NodeGood : CorpusGraph → SupersededBy → Node → Type 0
NodeGood g m (Node.source_revision r) =
    (length (supersedes_targets r.edges) ≤ 1) × All (EdgeGood g r m) r.edges
NodeGood g m _ = Unit

EdgeGood-mono :
    (g : CorpusGraph) (r : SourceRevisionNode) (m n : SupersededBy) (e : Edge)
    → Grows m n
    → EdgeGood g r m e
    → EdgeGood g r n e
EdgeGood-mono g r m n (kind, target) grows good same =
    ((good same).0, EdgeAgrees-mono r m n (get target g) grows (good same).1)

All-EdgeGood-mono :
    (g : CorpusGraph) (r : SourceRevisionNode) (m n : SupersededBy) (es : List Edge)
    → Grows m n
    → All (EdgeGood g r m) es
    → All (EdgeGood g r n) es
All-EdgeGood-mono g r m n [] grows a = tt
All-EdgeGood-mono g r m n (e ∷ es) grows a =
    (EdgeGood-mono g r m n e grows a.0, All-EdgeGood-mono g r m n es grows a.1)

NodeGood-mono :
    (g : CorpusGraph) (m n : SupersededBy) (node : Node)
    → Grows m n
    → NodeGood g m node
    → NodeGood g n node
NodeGood-mono g m n (Node.requirement _) grows good = tt
NodeGood-mono g m n (Node.test _) grows good = tt
NodeGood-mono g m n (Node.review _) grows good = tt
NodeGood-mono g m n (Node.source_revision r) grows good =
    (good.0, All-EdgeGood-mono g r m n r.edges grows good.1)

node_step_lem :
    (g : CorpusGraph) (m n : SupersededBy) (node : Node)
    → node_step g m node ≡ ok n
    → Grows m n × NodeGood g n node
unfolding node_step
node_step_lem g m n (Node.requirement _) h = (unchanged h, tt)
node_step_lem g m n (Node.test _) h = (unchanged h, tt)
node_step_lem g m n (Node.review _) h = (unchanged h, tt)
node_step_lem g m n (Node.source_revision r) h =
    elim (Bool-cases (ltb 1 (length (supersedes_targets r.edges)))) [
      | inl p ↦ absurd (cc (rw p at h))
      | inr p ↦
          let all =
            try_fold-All Grows (EdgeGood g r) (edge_step g r) (λ s q u k. k)
              (λ s t u a b q v k. b q v (a q v k)) (λ s t e. EdgeGood-mono g r s t e)
              (λ s t e. edge_step_lem g r s t e) m n r.edges (rw p at h) in
          (all.0, (ground arith, all.1))
    ]

pub collected :
    (g : CorpusGraph) (m : SupersededBy)
    → try_fold (node_step g) [] (nodes_of g) ≡ ok m
    → All (NodeGood g m) (nodes_of g)
collected g m h =
    (try_fold-All Grows (NodeGood g) (node_step g) (λ s q u k. k)
      (λ s t u a b q v k. b q v (a q v k)) (λ s t n. NodeGood-mono g s t n)
      (λ s t n. node_step_lem g s t n) [] m (nodes_of g) h).1

-- An accepted supersession stays within the document.
pub supersedes_edge :
    (g : CorpusGraph) (r : SourceRevisionNode) (m : SupersededBy) (es : List Edge) (target : Str)
    → All (EdgeGood g r m) es
    → contains (supersedes_targets es) target ≡ true
    → (target ≢ r.uid) × EdgeAgrees r m (get target g)
unfolding supersedes_targets contains
supersedes_edge g r m [] target a h = absurd (cc)
supersedes_edge g r m ((kind, t) ∷ es) target a h =
    elim (Bool-cases (edge_kind_eq kind EdgeKind.supersedes)) [
      | inr p ↦ supersedes_edge g r m es target a.1 (rw p at h)
      | inl p ↦ elim (Bool-cases (str_eq t target)) [
        | inl q ↦
            let e : t ≡ target = (str_eq_iff t target).0 q in
            subst (λ x. (x ≢ r.uid) × EdgeAgrees r m (get x g)) e
              (a.0 ((edge_kind_eq_iff kind EdgeKind.supersedes).0 p))
        | inr q ↦ supersedes_edge g r m es target a.1 (ground arith)
      ]
    ]
