-- ===== src/Corpus/Graph/Supersession/Sound.antt =====
-- What the supersession checks establish of a graph that they accept.
use evidence.Prelude.{
  ◌≤◌, ltb, true, Option, none, some, List, [], ◌∷◌, ok, try_fold-All, str_ord, str_eq, str_eq_iff,
  length, All, contains, ◌≡◌, ◌≢◌, inl, inr, arith, Bool-cases, ◌↔◌, subst, ok_injective,
}
use evidence.Corpus.Nodes.{
  EdgeKind, Edge, Node, ReviewNode, ReviewTarget, edge_kind_eq, edge_kind_eq_iff,
}
use evidence.Corpus.Graph.{CorpusGraph, get, supersedes_targets}
use evidence.Corpus.Successors.{SupersededBy, successors}
use evidence.Corpus.Successors.Laws.{Grows, contains-push}
use evidence.Corpus.Graph.Supersession.{review_target_eq, check_predecessor, edge_step, node_step}

pub review_target_eq_iff : (a b : ReviewTarget) → (review_target_eq a b ≡ true) ↔ (a ≡ b)
unfolding review_target_eq
review_target_eq_iff (ReviewTarget.requirement a) (ReviewTarget.requirement b) =
    ground (arith, str_eq_iff a b)
review_target_eq_iff (ReviewTarget.requirement a) (ReviewTarget.curated_patch b) = ground arith
review_target_eq_iff (ReviewTarget.curated_patch a) (ReviewTarget.requirement b) = ground arith
review_target_eq_iff (ReviewTarget.curated_patch a) (ReviewTarget.curated_patch b) =
    ground (arith, str_eq_iff a b)

-- What acceptance of an edge to `found` has checked and recorded.
abbrev pub EdgeAgrees : ReviewNode → SupersededBy → Option Node → Type 0
EdgeAgrees r m (some (Node.review p)) =
    (r.reviewer ≡ p.reviewer)
    × (r.target ≡ p.target)
    × (r.reviewed_content_sha256 ≡ p.reviewed_content_sha256)
    × (contains (successors p.uid m) r.uid ≡ true)
EdgeAgrees r m _ = Unit

abbrev pub EdgeGood : CorpusGraph → ReviewNode → SupersededBy → Edge → Type 0
EdgeGood g r m (kind, target) =
    kind ≡ EdgeKind.supersedes → (target ≢ r.uid) × EdgeAgrees r m (get target g)

EdgeAgrees-mono :
    (r : ReviewNode) (m n : SupersededBy) (o : Option Node)
    → Grows m n
    → EdgeAgrees r m o
    → EdgeAgrees r n o
EdgeAgrees-mono r m n none g e = tt
EdgeAgrees-mono r m n (some (Node.requirement _)) g e = tt
EdgeAgrees-mono r m n (some (Node.test _)) g e = tt
EdgeAgrees-mono r m n (some (Node.source_revision _)) g e = tt
EdgeAgrees-mono r m n (some (Node.review p)) g e = (e.0, e.1, e.2, g p.uid r.uid e.3)

check_predecessor_lem :
    (r : ReviewNode) (m n : SupersededBy) (o : Option Node)
    → check_predecessor r m o ≡ ok n
    → Grows m n × EdgeAgrees r n o
unfolding check_predecessor
check_predecessor_lem r m n none h = (subst (Grows m) (ok_injective h) (λ p u k. k), tt)
check_predecessor_lem r m n (some (Node.requirement _)) h =
    (subst (Grows m) (ok_injective h) (λ p u k. k), tt)
check_predecessor_lem r m n (some (Node.test _)) h =
    (subst (Grows m) (ok_injective h) (λ p u k. k), tt)
check_predecessor_lem r m n (some (Node.source_revision _)) h =
    (subst (Grows m) (ok_injective h) (λ p u k. k), tt)
check_predecessor_lem r m n (some (Node.review p)) h = (
  λ q u k. ground (arith, contains-push p.uid r.uid q u m),
  (
    ground (arith, str_eq_iff r.reviewer p.reviewer),
    ground (arith, review_target_eq_iff r.target p.target),
    ground (arith, str_eq_iff r.reviewed_content_sha256 p.reviewed_content_sha256),
    ground (arith, contains-push p.uid r.uid p.uid r.uid m),
  ),
)

edge_step_lem :
    (g : CorpusGraph) (r : ReviewNode) (m n : SupersededBy) (e : Edge)
    → edge_step g r m e ≡ ok n
    → Grows m n × EdgeGood g r n e
unfolding edge_step
edge_step_lem g r m n (kind, target) h = elim (Bool-cases (edge_kind_eq kind EdgeKind.supersedes)) [
  | inr p ↦ (
    subst (Grows m) (ok_injective (rw p at h)) (λ q u k. k),
    λ same. absurd (ground (arith, edge_kind_eq_iff kind EdgeKind.supersedes)),
  )
  | inl p ↦ elim (Bool-cases (str_eq target r.uid)) [
    | inl q ↦ absurd (cc (rw (p, q) at h))
    | inr q ↦
        let found = check_predecessor_lem r m n (get target g) (rw (p, q) at h) in
        (found.0, λ same. (λ e. cc ((str_eq_iff target r.uid).1 e), found.1))
  ]
]

abbrev pub NodeGood : CorpusGraph → SupersededBy → Node → Type 0
NodeGood g m (Node.review r) =
    (length (supersedes_targets r.edges) ≤ 1) × All (EdgeGood g r m) r.edges
NodeGood g m _ = Unit

EdgeGood-mono :
    (g : CorpusGraph) (r : ReviewNode) (m n : SupersededBy) (e : Edge)
    → Grows m n
    → EdgeGood g r m e
    → EdgeGood g r n e
EdgeGood-mono g r m n (kind, target) grows good same =
    ((good same).0, EdgeAgrees-mono r m n (get target g) grows (good same).1)

All-EdgeGood-mono :
    (g : CorpusGraph) (r : ReviewNode) (m n : SupersededBy) (es : List Edge)
    → Grows m n
    → All (EdgeGood g r m) es
    → All (EdgeGood g r n) es
All-EdgeGood-mono g r m n [] grows a = tt
All-EdgeGood-mono g r m n (e ∷ es) grows a =
    (EdgeGood-mono g r m n e grows a.0, All-EdgeGood-mono g r m n es grows a.1)

pub NodeGood-mono :
    (g : CorpusGraph) (m n : SupersededBy) (node : Node)
    → Grows m n
    → NodeGood g m node
    → NodeGood g n node
NodeGood-mono g m n (Node.requirement _) grows good = tt
NodeGood-mono g m n (Node.test _) grows good = tt
NodeGood-mono g m n (Node.source_revision _) grows good = tt
NodeGood-mono g m n (Node.review r) grows good =
    (good.0, All-EdgeGood-mono g r m n r.edges grows good.1)

pub node_step_lem :
    (g : CorpusGraph) (m n : SupersededBy) (node : Node)
    → node_step g m node ≡ ok n
    → Grows m n × NodeGood g n node
unfolding node_step
node_step_lem g m n (Node.requirement _) h = (subst (Grows m) (ok_injective h) (λ q u k. k), tt)
node_step_lem g m n (Node.test _) h = (subst (Grows m) (ok_injective h) (λ q u k. k), tt)
node_step_lem g m n (Node.source_revision _) h = (subst (Grows m) (ok_injective h) (λ q u k. k), tt)
node_step_lem g m n (Node.review r) h =
    elim (Bool-cases (ltb 1 (length (supersedes_targets r.edges)))) [
      | inl p ↦ absurd (cc (rw p at h))
      | inr p ↦
          let all =
            try_fold-All Grows (EdgeGood g r) (edge_step g r) (λ s q u k. k)
              (λ s t u a b q v k. b q v (a q v k)) (λ s t e. EdgeGood-mono g r s t e)
              (λ s t e. edge_step_lem g r s t e) m n r.edges (rw p at h) in
          (all.0, (ground arith, all.1))
    ]
