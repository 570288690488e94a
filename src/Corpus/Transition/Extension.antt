-- ===== src/Corpus/Transition/Extension.antt =====
-- What a transition accepts, stated without its loops.
use evidence.Prelude.{
  ℕ, Str, Option, none, some, Result, ok, for_each, for_each-ok, ok-for_each, map_err,
  map_err-eq-ok, >>-eq-ok, All-of_mem, str_ord, codes, Option-cases, ◌≡◌, ◌↔◌, inl, inr, refl, sym,
  ap, subst, ◌∙◌, arith,
}
use evidence.BTreeMap
use evidence.BTreeMap.Laws.{All-get}
use evidence.Corpus.Nodes.{Node, SourceRevisionNode, node_uid}
use evidence.Corpus.SourceOrdinals.{opt_eq_iff}
use evidence.Corpus.Graph.{CorpusGraph, get, nodes_of}
use evidence.Corpus.Graph.Invariant.{IsWellFormed, keyed_get}
use evidence.Corpus.Lineage.{supersedes_target, effective_source_heads}
use evidence.Corpus.Lineage.Sound.{IsRevision}
use evidence.Corpus.Lineage.Members.{node_found}
use evidence.Corpus.Validate.{validate}
use evidence.Corpus.Transition.{
  TransitionError, project, mutated, check_retained, retain_node, check_extends, extend_node,
  validate_source_transition,
}
use evidence.Corpus.Transition.Diff.{projection_diff_iff}

-- A node under the uid is a revision with the same projection.
abbrev pub Keeps : SourceRevisionNode → Option Node → Type 0
Keeps prior o =
    (p : SourceRevisionNode) × (o ≡ some (Node.source_revision p)) × (project prior ≡ project p)

-- `heads` has no other head for the revision's document than the one it supersedes.
abbrev pub Extends : SourceRevisionNode → Option Str → Type 0
Extends r head = (h : Str) → head ≡ some h → supersedes_target r ≡ some h

mutated_iff : (uid : Str) (o : Option Str) → (mutated uid o ≡ ok tt) ↔ (o ≡ none)
unfolding mutated
mutated_iff uid none = ground arith
mutated_iff uid (some f) = ground arith

same_project :
    (prior p : SourceRevisionNode) → p.uid ≡ prior.uid → (project prior).uid ≡ (project p).uid
unfolding project
same_project prior p e = sym e

check_retained_iff :
    (prior : SourceRevisionNode) (o : Option Node)
    → ((n : Node) → o ≡ some n → node_uid n ≡ prior.uid)
    → (check_retained prior o ≡ ok tt) ↔ Keeps prior o
unfolding check_retained
check_retained_iff prior none k = (λ h. absurd (cc), λ e. absurd (cc (e.1)))
check_retained_iff prior (some (Node.requirement x)) k = (λ h. absurd (cc), λ e. absurd (cc (e.1)))
check_retained_iff prior (some (Node.test x)) k = (λ h. absurd (cc), λ e. absurd (cc (e.1)))
check_retained_iff prior (some (Node.review x)) k = (λ h. absurd (cc), λ e. absurd (cc (e.1)))
check_retained_iff prior (some (Node.source_revision p)) k =
    let same = projection_diff_iff (project prior) (project p) (same_project prior p (k _ refl)) in
    (
      λ h. (p, refl, same.0 ((mutated_iff prior.uid _).0 h)),
      λ e.
          let found : e.0 ≡ p = cc (e.1) in
          (mutated_iff prior.uid _).1 (same.1 (e.2 ∙ ap project found)),
    )

check_extends_iff :
    (r : SourceRevisionNode) (head : Option Str) → (check_extends r head ≡ ok tt) ↔ Extends r head
unfolding check_extends
check_extends_iff r none = (λ h k e. absurd (cc), λ e. refl)
check_extends_iff r (some h) =
    let test = opt_eq_iff (supersedes_target r) (some h) in
    (λ ok_h k e. test.0 (ground arith) ∙ e, λ ext. rw (test.1 (ext h refl)) refl)

-- The proposed graph extends the prior one: it keeps every revision as it was, and a new revision
-- of a document that had a head supersedes this head.
pub record IsExtension (sha256 : Str → Str) (show_float : ℕ → Str) (prior proposed : CorpusGraph)
    : Type 0 where
  pub prior_valid : validate sha256 show_float prior ≡ ok tt
  pub proposed_valid : validate sha256 show_float proposed ≡ ok tt
  pub retained :
      (uid : Str) (r : SourceRevisionNode) → IsRevision prior uid r → Keeps r (get uid proposed)
  pub extended :
      (uid : Str) (r : SourceRevisionNode)
      → IsRevision proposed uid r
      → get uid prior ≡ none
      → Extends r (BTreeMap.get r.document_key (effective_source_heads prior))

-- A loop over the nodes of a well-formed graph succeeds exactly when each node found does.
for_each_nodes_iff :
    {E : Type 0} (f : Node → Result E (Unit {0})) (g : CorpusGraph)
    → IsWellFormed g
    → (for_each f (nodes_of g) ≡ ok tt)
      ↔ ((uid : Str) (n : Node) → get uid g ≡ some n → f n ≡ ok tt)
for_each_nodes_iff f g w = (
  λ h uid n e. All-get (λ m. f m ≡ ok tt) uid g.nodes n (for_each-ok f (nodes_of g) h) e,
  λ h.
      ok-for_each f (nodes_of g)
        (All-of_mem (λ n. f n ≡ ok tt) (nodes_of g) (λ n m. h (node_uid n) n (node_found g n w m))),
)

module _ (prior proposed : CorpusGraph) (w : IsWellFormed prior) (v : IsWellFormed proposed) where
  abbrev Retained : Type 0
  Retained =
      (uid : Str) (r : SourceRevisionNode) → IsRevision prior uid r → Keeps r (get uid proposed)

  abbrev Extended : Type 0
  Extended =
      (uid : Str) (r : SourceRevisionNode)
      → IsRevision proposed uid r
      → get uid prior ≡ none
      → Extends r (BTreeMap.get r.document_key (effective_source_heads prior))

  retain_node_iff :
      (uid : Str) (r : SourceRevisionNode)
      → IsRevision prior uid r
      → (retain_node proposed (Node.source_revision r) ≡ ok tt) ↔ Keeps r (get uid proposed)
  unfolding retain_node
  retain_node_iff uid r e =
      subst (λ u. (check_retained r (get r.uid proposed) ≡ ok tt) ↔ Keeps r (get u proposed))
        (keyed_get prior uid (Node.source_revision r) w.keyed e)
        (check_retained_iff r (get r.uid proposed) (λ n h. keyed_get proposed r.uid n v.keyed h))

  retain_one :
      Retained → (uid : Str) (n : Node) → get uid prior ≡ some n → retain_node proposed n ≡ ok tt
  unfolding retain_node
  retain_one h uid (Node.requirement x) e = refl
  retain_one h uid (Node.test x) e = refl
  retain_one h uid (Node.review x) e = refl
  retain_one h uid (Node.source_revision r) e = (retain_node_iff uid r e).1 (h uid r e)

  retain_iff : (for_each (retain_node proposed) (nodes_of prior) ≡ ok tt) ↔ Retained
  retain_iff =
      let loop = for_each_nodes_iff (retain_node proposed) prior w in
      (
        λ h uid r e. (retain_node_iff uid r e).0 (loop.0 h uid (Node.source_revision r) e),
        λ h. loop.1 (retain_one h),
      )

  extend_node_iff :
      (r : SourceRevisionNode)
      → (extend_node prior (effective_source_heads prior) (Node.source_revision r) ≡ ok tt) ↔ (
          get r.uid prior ≡ none
          → Extends r (BTreeMap.get r.document_key (effective_source_heads prior)))
  unfolding extend_node
  extend_node_iff r =
      let test = check_extends_iff r (BTreeMap.get r.document_key (effective_source_heads prior)) in
      elim (Option-cases (get r.uid prior)) [
        | inl p ↦ (λ h q. test.0 (rw p at h), λ h. rw p (test.1 (h p)))
        | inr (n, p) ↦ (λ h q. absurd (cc (p, q)), λ h. rw p refl)
      ]

  uid_of : (uid : Str) (r : SourceRevisionNode) → IsRevision proposed uid r → r.uid ≡ uid
  uid_of uid r e = keyed_get proposed uid (Node.source_revision r) v.keyed e

  extend_one :
      Extended
      → (uid : Str) (n : Node) → get uid proposed ≡ some n
      → extend_node prior (effective_source_heads prior) n ≡ ok tt
  unfolding extend_node
  extend_one h uid (Node.requirement x) e = refl
  extend_one h uid (Node.test x) e = refl
  extend_one h uid (Node.review x) e = refl
  extend_one h uid (Node.source_revision r) e =
      (extend_node_iff r).1
        (λ free. h uid r e (ap (λ u. get u prior) (sym (uid_of uid r e)) ∙ free))

  extend_iff :
      (for_each (extend_node prior (effective_source_heads prior)) (nodes_of proposed) ≡ ok tt)
      ↔ Extended
  extend_iff =
      let loop = for_each_nodes_iff (extend_node prior (effective_source_heads prior)) proposed v in
      (
        λ h uid r e free.
            (extend_node_iff r).0 (loop.0 h uid (Node.source_revision r) e)
              (ap (λ u. get u prior) (uid_of uid r e) ∙ free),
        λ h. loop.1 (extend_one h),
      )

  -- A transition between well-formed graphs is accepted exactly when both graphs validate, each
  -- revision of the prior graph is in the proposed one with the same projection, and each revision
  -- that is new in the proposed graph supersedes the head that the prior graph had for its document,
  -- if it had one.
  pub validate_source_transition_iff :
      (sha256 : Str → Str) (show_float : ℕ → Str)
      → (validate_source_transition sha256 show_float prior proposed ≡ ok tt)
        ↔ IsExtension sha256 show_float prior proposed
  unfolding validate_source_transition
  validate_source_transition_iff sha256 show_float = (
    λ h.
        let (valid, rest) =
          >>-eq-ok
            (map_err (TransitionError.invalid_graph (codes "prior"))
              (validate sha256 show_float prior))
            _ h in
        let (kept, rest1) = >>-eq-ok (for_each (retain_node proposed) (nodes_of prior)) _ rest in
        let (grown, valid1) =
          >>-eq-ok (for_each (extend_node prior (effective_source_heads prior)) (nodes_of proposed))
            _ rest1 in
        record {
          prior_valid = map_err-eq-ok (TransitionError.invalid_graph (codes "prior")) _ valid;
          proposed_valid =
              map_err-eq-ok (TransitionError.invalid_graph (codes "proposed")) _ valid1;
          retained = retain_iff.0 kept;
          extended = extend_iff.0 grown;
        },
    λ x.
        rw (x.prior_valid, retain_iff.1 x.retained, extend_iff.1 x.extended, x.proposed_valid) refl,
  )
