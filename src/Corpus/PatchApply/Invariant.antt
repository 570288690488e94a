-- ===== src/Corpus/PatchApply/Invariant.antt =====
-- What every operation of a patch keeps of the working copy.
use evidence.Prelude.{
  ℕ, ◌+◌, Str, Option, List, [], ◌∷◌, Result, ok, ok_injective, contains, map_err-eq-ok,
  try_fold_inv, >>=-eq-ok, >>-eq-ok, str_ord, Option-cases, Bool-cases, ◌≡◌, inl, inr, refl, sym,
  subst, length, suc, ◌∙◌,
}
use evidence.BTreeMap
use evidence.BTreeMap.{values, IsSorted}
use evidence.BTreeMap.Laws.{insert-IsSorted}
use evidence.BTreeMap.Edits.{update-IsSorted, remove-IsSorted, All-insert, All-remove, All-update}
use evidence.Corpus.SourceNodes.{
  SourceNode, SourceGraph, insert_node, insert_node-eq-ok, source_kind_eq,
}
use evidence.Corpus.SourceValidation.Ancestry.{KeyedNodes}
use evidence.Corpus.SourcePatches.{
  ChildDisposition, PatchOperation, SourcePatchRecord, SourcePatchError,
}
use evidence.Corpus.PatchEdits.{
  renumber, promote, promoted_uids, sequence, reparent_children, collect_members, remove_all,
  remove_subtree, recompute_node_digests, apply_updates, digest_updates, set_digests,
}
use evidence.Corpus.PatchApply.{
  PatchBindings, PatchApplication, target_node, check_content_digest, check_new_parent,
  check_position, collision, inserted_node, apply_operation, apply_patch,
}
use evidence.Corpus.PatchApply.Accepted.{apply_patch-IsApplied}

-- The entries are in the order of their keys, and each node stands under its uid.
abbrev pub IsStore : SourceGraph → Type 0
IsStore g = IsSorted g × KeyedNodes g

update-IsStore :
    (f : SourceNode → SourceNode) (uid : Str) (g : SourceGraph)
    → ((n : SourceNode) → (f n).uid ≡ n.uid)
    → IsStore g
    → IsStore (BTreeMap.update f uid g)
update-IsStore f uid g same s =
    (update-IsSorted f uid g s.0, All-update (λ e. e.1.uid ≡ e.0) f uid g (λ j n e. same n ∙ e) s.1)

remove-IsStore : (uid : Str) (g : SourceGraph) → IsStore g → IsStore (BTreeMap.remove uid g)
remove-IsStore uid g s = (remove-IsSorted uid g s.0, All-remove (λ e. e.1.uid ≡ e.0) uid g s.1)

insert-IsStore :
    (n : SourceNode) (g : SourceGraph) → IsStore g → IsStore (BTreeMap.insert n.uid n g)
insert-IsStore n g s =
    (insert-IsSorted n.uid n g s.0, All-insert (λ e. e.1.uid ≡ e.0) n.uid n g refl s.1)

insert_node-IsStore :
    (g h : SourceGraph) (n : SourceNode) → insert_node g n ≡ ok h → IsStore g → IsStore h
insert_node-IsStore g h n e s =
    subst IsStore (sym (insert_node-eq-ok g h n e).1) (insert-IsStore n g s)

renumber-IsStore :
    (promoted : List Str) (parent : Option Str) (index : ℕ) (uids : List Str) (g : SourceGraph)
    → IsStore g
    → IsStore (renumber promoted parent index uids g)
unfolding renumber
renumber-IsStore promoted parent index [] g s = s
renumber-IsStore promoted parent index (uid ∷ uids) g s =
    elim (Bool-cases (contains promoted uid)) [
      | inl c ↦ rw c (
          renumber-IsStore promoted parent (index + 1) uids _
            (update-IsStore _ uid g (λ n. refl) s))
      | inr c ↦ rw c (
          renumber-IsStore promoted parent (index + 1) uids _
            (update-IsStore _ uid g (λ n. refl) s))
    ]

reparent_children-IsStore :
    (g : SourceGraph) (uid : Str) → IsStore g → IsStore (reparent_children g uid)
unfolding reparent_children promote
reparent_children-IsStore g uid s = elim (Option-cases (BTreeMap.get uid g)) [
  | inl e ↦ rw (reparent_children, e) s
  | inr (removed, e) ↦
      rw (reparent_children, e)
        (renumber-IsStore (promoted_uids uid (BTreeMap.remove uid g)) removed.parent_uid 0
          (sequence removed uid (BTreeMap.remove uid g)) (BTreeMap.remove uid g)
          (remove-IsStore uid g s))
]

remove_all-IsStore : (uids : List Str) (g : SourceGraph) → IsStore g → IsStore (remove_all uids g)
unfolding remove_all
remove_all-IsStore [] g s = s
remove_all-IsStore (uid ∷ uids) g s =
    remove_all-IsStore uids (BTreeMap.remove uid g) (remove-IsStore uid g s)

remove_subtree-IsStore : (g : SourceGraph) (uid : Str) → IsStore g → IsStore (remove_subtree g uid)
unfolding remove_subtree
remove_subtree-IsStore g uid s =
    elim (Option-cases (collect_members (suc (suc (length g))) g [] (uid ∷ []))) [
      | inl e ↦ rw e s
      | inr (members, e) ↦ rw e (remove_all-IsStore members g s)
    ]

apply_updates-IsStore :
    (g : SourceGraph) (updates : BTreeMap.BTreeMap Str (Str × Str))
    → IsStore g
    → IsStore (apply_updates g updates)
unfolding apply_updates
apply_updates-IsStore g [] s = s
apply_updates-IsStore g ((uid, d) ∷ updates) s =
    apply_updates-IsStore (BTreeMap.update (set_digests d) uid g) updates
      (update-IsStore (set_digests d) uid g (λ n. refl) s)

updated_node :
    (f : SourceNode → SourceNode) (uid : Str) (g h : SourceGraph)
    → ((n : SourceNode) → (f n).uid ≡ n.uid)
    → IsStore g
    → ◌≡◌ {A = Result SourcePatchError SourceGraph} (ok (BTreeMap.update f uid g)) (ok h)
    → IsStore h
updated_node f uid g h same s e = subst IsStore (ok_injective e) (update-IsStore f uid g same s)

module _ (sha256 : Str → Str) (patch : SourcePatchRecord) where
  apply_operation-IsStore :
      (g h : SourceGraph) (op : PatchOperation)
      → IsStore g
      → apply_operation sha256 patch g op ≡ ok h
      → IsStore h
  unfolding apply_operation
  apply_operation-IsStore g h (PatchOperation.replace_content ordinal target expected text label) s
        e =
      let (node, found, rest) = >>=-eq-ok (target_node g patch.uid target) _ e in
      let (fits, last) = >>-eq-ok (check_content_digest patch.uid ordinal node expected) _ rest in
      updated_node _ target g h (λ n. refl) s last
  apply_operation-IsStore g h (PatchOperation.reclassify ordinal target expected kind) s e =
      let (node, found, rest) = >>=-eq-ok (target_node g patch.uid target) _ e in
      elim (Bool-cases (source_kind_eq node.kind expected)) [
        | inl p ↦ updated_node _ target g h (λ n. refl) s (rw p at rest)
        | inr p ↦ absurd (cc (rw p at rest))
      ]
  apply_operation-IsStore g h
        (PatchOperation.reparent ordinal target parent index new_parent new_index) s e =
      let (node, found, rest) = >>=-eq-ok (target_node g patch.uid target) _ e in
      let (fits, rest1) =
        >>-eq-ok (check_position patch.uid ordinal node target parent index) _ rest in
      let (there, last) = >>-eq-ok (check_new_parent g patch.uid new_parent) _ rest1 in
      updated_node _ target g h (λ n. refl) s last
  apply_operation-IsStore g h (PatchOperation.insert_node ordinal parent node) s e =
      let (there, last) = >>-eq-ok (check_new_parent g patch.uid parent) _ e in
      insert_node-IsStore g h (inserted_node sha256 g patch parent node)
        (map_err-eq-ok (collision patch.uid node.uid) _ last) s
  apply_operation-IsStore g h
        (PatchOperation.remove ordinal target expected ChildDisposition.reparent_children) s e =
      let (node, found, rest) = >>=-eq-ok (target_node g patch.uid target) _ e in
      let (fits, last) = >>-eq-ok (check_content_digest patch.uid ordinal node expected) _ rest in
      subst IsStore (ok_injective last) (reparent_children-IsStore g target s)
  apply_operation-IsStore g h
        (PatchOperation.remove ordinal target expected ChildDisposition.remove_subtree) s e =
      let (node, found, rest) = >>=-eq-ok (target_node g patch.uid target) _ e in
      let (fits, last) = >>-eq-ok (check_content_digest patch.uid ordinal node expected) _ rest in
      subst IsStore (ok_injective last) (remove_subtree-IsStore g target s)

  -- Whatever the operations of a patch do, a candidate keeps the order of its keys and each node
  -- under its uid.
  pub apply_patch-IsStore :
      (show_float : ℕ → Str) (g : SourceGraph) (bindings : PatchBindings) (media_type : Str)
      (a : PatchApplication)
      → IsStore g
      → apply_patch sha256 show_float g patch bindings media_type ≡ ok a
      → IsStore a.graph
  unfolding recompute_node_digests
  apply_patch-IsStore show_float g bindings media_type a s e =
      let x = apply_patch-IsApplied sha256 show_float g patch bindings media_type a e in
      let edited =
        try_fold_inv (λ h ops. IsStore h) (apply_operation sha256 patch)
          (λ h h' op ops p q. apply_operation-IsStore h h' op p q) g x.edited patch.operations s
          x.operations in
      subst IsStore (sym x.candidate) (
        apply_updates-IsStore x.edited (digest_updates sha256 x.edited [] (values x.edited)) edited)
