-- ===== src/Workflow/Editing/Preserved.antt =====
-- What every editing command leaves as it was.
use flowgency.Common.{
  String, ◌≡◌, refl, subst, ◌⊎◌, inl, inr, Option, none, some, List, [], ◌∷◌, ◌++◌, map, Bool,
  map-append, In, not, contains, here, there, require, ◌∙◌, ok, raise, >>=-eq-ok, arith, eq_iff,
  Outcome,
}
use flowgency.Workflow.Values.{contract_error, duplicate_use, ℤ, FieldKind, ContractError}
use flowgency.Workflow.Definition.{
  FieldDefinition, StateDefinition, TransitionDefinition, WorkflowDefinition, state, transition,
  model_validate, ArtifactFormat, field, validate_color, validate_artifact_format, use_ids,
  FieldUse,
}
use flowgency.Workflow.Validity.{IsValid, model_validate-IsValid}
use flowgency.Workflow.Lookup.{find_by-In, transition-In}
use flowgency.Workflow.Editing.{
  contract, DefinitionEdit, Edit, adding_state, renaming_state, moving_state, adding_transition,
  adding_field, using_field, renaming_field, from_contract, from_check, rebuild, renamed_state,
  rename_state, add_state, move_state, add_transition, add_field, use_field, rename_field,
  renamed_field, replaced, with_use, Direction, edit, new_id, require_label, checked_index,
  direction_of, plain_state, plain_field, plain_transition, uses, input, output,
}
use flowgency.Workflow.Editing.Keys.{Kept, same-Kept, append-Kept, map_same, move-Kept, state_key}

abbrev pub transition_key : TransitionDefinition → String
transition_key t = t.id

-- The fields as the rules see them: without their labels.
abbrev pub typed_fields : List FieldDefinition → List (String × FieldKind)
typed_fields = map (λ f. (f.id, f.type))

-- The same fields, or one more at the end, which is the part that was created.
abbrev pub FieldsKept : Option String → List FieldDefinition → List FieldDefinition → Type 0
FieldsKept created fs gs =
    (typed_fields gs ≡ typed_fields fs)
    ⊎ ((i : String) × (kind : FieldKind) × (created ≡ some i)
        × (typed_fields gs ≡ typed_fields fs ++ (i, kind) ∷ []))

-- The definition after an edit beside the one before.
pub record Preserves (d : WorkflowDefinition) (done : DefinitionEdit) : Type 0 where
  pub same_id : done.definition.id ≡ d.id
  pub same_initial : done.definition.initial_state ≡ d.initial_state
  pub states_kept : Kept state_key done.created_id d.states done.definition.states
  pub fields_kept : FieldsKept done.created_id d.fields done.definition.fields
  pub transitions_kept :
      Kept transition_key done.created_id d.transitions done.definition.transitions

abbrev pub Sound : WorkflowDefinition → DefinitionEdit → Type 0
Sound d done = IsValid done.definition × Preserves d done

abbrev finished : WorkflowDefinition → Option String → DefinitionEdit
finished d created = record { definition = d; created_id = created }

from_check_ok : (c : Outcome _ Unit) → from_check c ≡ ok tt → c ≡ ok tt
from_check_ok (ok u) h = refl
from_check_ok (raise v) h = cc

from_contract_ok :
    {A : Type 0} (c : Outcome ContractError A) {a : A} → from_contract c ≡ ok a → c ≡ ok a
from_contract_ok (ok b) h = ground arith
from_contract_ok (raise e) h = cc

rebuild-Sound :
    (d e : WorkflowDefinition) (created : Option String) (done : DefinitionEdit)
    → rebuild e created ≡ ok done
    → Preserves d (finished e created)
    → Sound d done
unfolding rebuild
rebuild-Sound d e created done h p =
    let (u, passed, rest) = >>=-eq-ok (from_check (model_validate e)) _ h in
    let same : finished e created ≡ done = ground arith in
    subst (Sound d) same ((model_validate-IsValid e).0 (from_check_ok _ passed), p)

In-map : {A : Type 0} (key : A → String) {x : A} (xs : List A) → In x xs → In (key x) (map key xs)
In-map key [] i = elim i [ ]
In-map key (x ∷ xs) here = here
In-map key (x ∷ xs) (there i) = there (In-map key xs i)

pub state-In :
    (d : WorkflowDefinition) (i : String) (s : StateDefinition)
    → state d i ≡ ok s
    → In s.id (map state_key d.states) × (s.id ≡ i)
unfolding state
state-In d i s h =
    let (j, e) = find_by-In (λ u. u.id) i d.states {x = s} (ground arith) in
    (In-map state_key d.states j, e)

module _ (d : WorkflowDefinition) (done : DefinitionEdit) where
  states_edited :
      (ss : List StateDefinition) (created : Option String)
      → rebuild (record d { states = ss }) created ≡ ok done
      → Kept state_key created d.states ss
      → Sound d done
  states_edited ss created h kept = rebuild-Sound d _ created done h (record {
    same_id = refl;
    same_initial = refl;
    states_kept = kept;
    fields_kept = inl refl;
    transitions_kept = same-Kept _ created d.transitions d.transitions refl;
  })

  fields_edited :
      (fs : List FieldDefinition) (created : Option String)
      → rebuild (record d { fields = fs }) created ≡ ok done
      → FieldsKept created d.fields fs
      → Sound d done
  fields_edited fs created h kept = rebuild-Sound d _ created done h (record {
    same_id = refl;
    same_initial = refl;
    states_kept = same-Kept _ created d.states d.states refl;
    fields_kept = kept;
    transitions_kept = same-Kept _ created d.transitions d.transitions refl;
  })

  transitions_edited :
      (ts : List TransitionDefinition) (created : Option String)
      → rebuild (record d { transitions = ts }) created ≡ ok done
      → Kept transition_key created d.transitions ts
      → Sound d done
  transitions_edited ts created h kept = rebuild-Sound d _ created done h (record {
    same_id = refl;
    same_initial = refl;
    states_kept = same-Kept _ created d.states d.states refl;
    fields_kept = inl refl;
    transitions_kept = kept;
  })

  pub renamed_id :
      (i label : String) (s : StateDefinition) → state_key (renamed_state i label s) ≡ s.id
  unfolding renamed_state
  renamed_id i label s = ground arith

  replaced_id :
      (i : String) (updated : TransitionDefinition) (t : TransitionDefinition)
      → updated.id ≡ i
      → transition_key (replaced i updated t) ≡ t.id
  unfolding replaced
  replaced_id i updated t e = ground (arith, eq_iff t.id i)

  with_use_id :
      (side : Direction) (u : FieldUse) (t : TransitionDefinition)
      → transition_key (with_use side u t) ≡ t.id
  unfolding with_use
  with_use_id input u t = refl
  with_use_id output u t = refl

  renamed_type :
      (i label : String) (fs : List FieldDefinition)
      → typed_fields (map (renamed_field i label) fs) ≡ typed_fields fs
  unfolding renamed_field
  renamed_type i label [] = refl
  renamed_type i label (f ∷ fs) = ground (arith, renamed_type i label fs)

  add_state-Sound : (hex name color : String) → add_state hex d name color ≡ ok done → Sound d done
  unfolding add_state plain_state
  add_state-Sound hex name color h =
      let (label, named, colored) = >>=-eq-ok (require_label name) _ h in
      let added = plain_state (new_id "st" hex) label color in
      let (u, checked, rest) = >>=-eq-ok (from_check (validate_color added)) _ colored in
      states_edited _ _ rest (append-Kept state_key d.states added)

  rename_state-Sound : (i name : String) → rename_state d i name ≡ ok done → Sound d done
  unfolding rename_state
  rename_state-Sound i name h =
      let (s, found, named) = >>=-eq-ok (from_contract (state d i)) _ h in
      let (label, given, rest) = >>=-eq-ok (require_label name) _ named in
      states_edited _ _ rest (
        same-Kept state_key none d.states _
          (map_same state_key (renamed_state i label) d.states (renamed_id i label)))

  move_state-Sound : (i : String) (index : ℤ) → move_state d i index ≡ ok done → Sound d done
  unfolding move_state
  move_state-Sound i index h =
      let (s, found, placed) = >>=-eq-ok (from_contract (state d i)) _ h in
      let (n, inside, rest) = >>=-eq-ok (checked_index index _) _ placed in
      let (present, same) = state-In d i s (from_contract_ok _ found) in
      states_edited _ _ rest (move-Kept i n s d.states present same)

  add_transition-Sound :
      (hex name source target : String)
      → add_transition hex d name source target ≡ ok done
      → Sound d done
  unfolding add_transition plain_transition
  add_transition-Sound hex name source target h =
      let (s, sourced, targeted) = >>=-eq-ok (from_contract (state d source)) _ h in
      let (t, aimed, named) = >>=-eq-ok (from_contract (state d target)) _ targeted in
      let (label, given, rest) = >>=-eq-ok (require_label name) _ named in
      transitions_edited _ _ rest (
        append-Kept transition_key d.transitions
          (plain_transition (new_id "tr" hex) label source target))

  add_field-Sound :
      (hex label : String) (kind : FieldKind) (format : Option ArtifactFormat)
      → add_field hex d label kind format ≡ ok done
      → Sound d done
  unfolding add_field plain_field
  add_field-Sound hex label kind format h =
      let (text, named, formatted) = >>=-eq-ok (require_label label) _ h in
      let added = plain_field (new_id "fl" hex) text kind format in
      let (u, checked, rest) =
        >>=-eq-ok (from_check (validate_artifact_format added)) _ formatted in
      fields_edited _ _ rest (inr (new_id "fl" hex, kind, refl, map-append _ d.fields (added ∷ [])))

  use_field-Sound :
      (t direction f : String) (required : Bool)
      → use_field d t direction f required ≡ ok done
      → Sound d done
  unfolding use_field
  use_field-Sound i direction f required h =
      let (side, sided, looked) = >>=-eq-ok (direction_of direction) _ h in
      let (t, found, fielded) = >>=-eq-ok (from_contract (transition d i)) _ looked in
      let (declared, defined, used) = >>=-eq-ok (from_contract (field d f)) _ fielded in
      let (u, once, rest) =
        >>=-eq-ok
          (require (not (contains f (use_ids (uses side t))))
            (contract (contract_error duplicate_use)))
          _ used in
      let (present, same) = transition-In d i t (from_contract_ok _ found) in
      transitions_edited _ _ rest (
        same-Kept transition_key none d.transitions _ (
          map_same transition_key _ d.transitions
            (λ x. replaced_id i _ x (with_use_id side _ t ∙ same))))

  rename_field-Sound : (i label : String) → rename_field d i label ≡ ok done → Sound d done
  unfolding rename_field
  rename_field-Sound i label h =
      let (f, found, named) = >>=-eq-ok (from_contract (field d i)) _ h in
      let (text, given, rest) = >>=-eq-ok (require_label label) _ named in
      fields_edited _ _ rest (inl (renamed_type i text d.fields))

-- Whatever command returns, the definition that it returns is valid, has the same id and initial
-- state, still declares every state, field and transition under its id and every field with its
-- type, and has at most one new part, the one whose id the command reports.
pub edit-Sound :
    (d : WorkflowDefinition) (command : Edit) (done : DefinitionEdit)
    → edit d command ≡ ok done
    → IsValid done.definition × Preserves d done
unfolding edit
edit-Sound d (adding_state hex name color) done h = add_state-Sound d done hex name color h
edit-Sound d (renaming_state i name) done h = rename_state-Sound d done i name h
edit-Sound d (moving_state i index) done h = move_state-Sound d done i index h
edit-Sound d (adding_transition hex name source target) done h =
    add_transition-Sound d done hex name source target h
edit-Sound d (adding_field hex label kind format) done h =
    add_field-Sound d done hex label kind format h
edit-Sound d (using_field t direction f required) done h =
    use_field-Sound d done t direction f required h
edit-Sound d (renaming_field i label) done h = rename_field-Sound d done i label h
