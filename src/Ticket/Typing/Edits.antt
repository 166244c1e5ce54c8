-- ===== src/Ticket/Typing/Edits.antt =====
-- Editing the definition of a project that has tickets.
use flowgency.Common.{
  String, ◌≡◌, sym, ◌∙◌, ok, Option, none, some, List, [], ◌∷◌, false, All, All-In, All-mono,
  All-both, arith, eq_iff, In,
}
use flowgency.Common.Dict.{Dict, Entries, has_key}
use flowgency.Workflow.Values.{FieldValue}
use flowgency.Workflow.Definition.{WorkflowDefinition, state_ids}
use flowgency.Workflow.Editing.{DefinitionEdit, Edit, edit}
use flowgency.Workflow.Editing.Preserved.{Preserves, edit-Sound}
use flowgency.Workflow.Editing.Kinds.{field_kinds-Preserves}
use flowgency.Ticket.Models.{TicketRecord}
use flowgency.Ticket.Typing.{IsTyped, ValueTyped, require_compatible, require_compatible-IsTyped}

-- The ticket keeps no value under the id that an edit created.
abbrev pub IsUnused : Option String → TicketRecord → Type 0
IsUnused none t = Unit
IsUnused (some i) t = has_key i t.field_values ≡ false

abbrev Lacks : Option String → Dict FieldValue → Type 0
Lacks none values = Unit
Lacks (some i) values = has_key i values ≡ false

Lacks-cons :
    (created : Option String) (i : String) (v : FieldValue) (values : Dict FieldValue)
    → Lacks created ((i, v) ∷ values)
    → (¬ (created ≡ some i)) × Lacks created values
unfolding has_key
Lacks-cons none i v values h = (λ e. cc, tt)
Lacks-cons (some j) i v values h = (λ e. absurd (ground (arith, eq_iff i j)), ground arith)

values-Preserves :
    (d : WorkflowDefinition) (done : DefinitionEdit) (values : Dict FieldValue)
    → Preserves d done
    → Lacks done.created_id values
    → Entries (ValueTyped d) values
    → Entries (ValueTyped done.definition) values
values-Preserves d done [] p lacks typed = tt
values-Preserves d done ((i, v) ∷ values) p lacks typed =
    let (old, others) = Lacks-cons done.created_id i v values lacks in
    (
      λ kind declared. typed.0 kind (sym (field_kinds-Preserves d done i p old) ∙ declared),
      values-Preserves d done values p others typed.1,
    )

record-Lacks :
    (created : Option String) (t : TicketRecord) → IsUnused created t → Lacks created t.field_values
record-Lacks none t h = tt
record-Lacks (some i) t h = h

IsTyped-Preserves :
    (d : WorkflowDefinition) (done : DefinitionEdit) (t : TicketRecord)
    → Preserves d done
    → IsTyped d t × IsUnused done.created_id t
    → IsTyped done.definition t
IsTyped-Preserves d done t p (typed, unused) = record {
  placed = All-In (λ i. In i (state_ids done.definition)) p.states_kept.0 typed.placed;
  typed =
      values-Preserves d done t.field_values p (record-Lacks done.created_id t unused) typed.typed;
}

-- An edit never makes a definition incompatible with the tickets it could interpret, when none of
-- them has a value under the id that the edit created: the check at publication passes again.
pub edit-require_compatible :
    (d : WorkflowDefinition) (command : Edit) (done : DefinitionEdit) (ts : List TicketRecord)
    → edit d command ≡ ok done
    → require_compatible d ts ≡ ok tt
    → All (IsUnused done.created_id) ts
    → require_compatible done.definition ts ≡ ok tt
edit-require_compatible d command done ts edited compatible unused =
    let (_, kept) = edit-Sound d command done edited in
    (require_compatible-IsTyped done.definition ts).1 (
      All-mono _ (IsTyped done.definition) (λ t both. IsTyped-Preserves d done t kept both) ts
        (All-both (IsTyped d) _ ts ((require_compatible-IsTyped d ts).0 compatible) unused))
