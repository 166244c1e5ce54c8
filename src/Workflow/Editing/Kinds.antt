-- ===== src/Workflow/Editing/Kinds.antt =====
-- The kinds of the fields before and after an edit.
use flowgency.Common.{
  String, ◌≡◌, refl, ap, inl, inr, some, [], ◌∷◌, ◌++◌, false, if◌then◌else◌, arith, ◌==◌, eq_iff,
}
use flowgency.Common.Dict.{Dict, lookup, insert, update, lookup-insert}
use flowgency.Workflow.Definition.{WorkflowDefinition, field_kinds}
use flowgency.Workflow.Editing.{DefinitionEdit}
use flowgency.Workflow.Editing.Preserved.{Preserves, typed_fields}

update_append :
    {V : Type 0} (d e : Dict V) (k : String) (v : V)
    → update d (e ++ (k, v) ∷ []) ≡ insert k v (update d e)
unfolding update
update_append d [] k v = refl
update_append d ((j, w) ∷ e) k v = update_append (insert j w d) e k v

-- A field that was not created by the edit has the kind it had, or stays undeclared.
pub field_kinds-Preserves :
    (d : WorkflowDefinition) (done : DefinitionEdit) (i : String)
    → Preserves d done
    → ¬ (done.created_id ≡ some i)
    → lookup i (field_kinds done.definition) ≡ lookup i (field_kinds d)
unfolding field_kinds
field_kinds-Preserves d done i p old = elim p.fields_kept [
  | inl same ↦ ap (λ fs. lookup i (update [] fs)) same
  | inr (j, kind, created, more) ↦
      let step = lookup-insert j i kind (update [] (typed_fields d.fields)) in
      let other : ¬ (j ≡ i) = λ e. old (cc (created, e)) in
      let fresh : (j == i) ≡ false = ground (arith, eq_iff j i) in
      cc (
        ap (lookup i) (update_append [] (typed_fields d.fields) j kind),
        step,
        ap (λ b. if b then some kind else lookup i (update [] (typed_fields d.fields))) fresh,
      )
]
