-- ===== src/Workflow/Rules.antt =====
-- flowgency/workflows/rules.py: the evaluation of a transition. A subscript that finds no key
-- raises `key_error`; the order of the checks is that of the source.
pub mod Uses
pub mod Assessments
pub mod Admits
pub mod Totality
use Prim.Native.Nat.{Ordering}
use Prim.Native.String.{compare}
use flowgency.Common.{
  String, ◌≡◌, Bool, true, false, not, Option, none, some, List, [], ◌∷◌, ◌++◌, map, ◌==◌,
  if◌then◌else◌, contains, Outcome, ok, raise, ◌>>=◌, ◌>>◌, require, or_raise, each,
}
use flowgency.Common.Dict.{Dict, lookup, update, keys}
use flowgency.Workflow.Values.{
  FieldKind, FieldValue, null, is_null, same_value, kind_matches_value, validate_field_value,
  ContractError, contract_error, key_error, wrong_source_state, undeclared_output, invalid_type,
  precondition_failed, unknown_criterion, duplicate_assessment, criterion_not_satisfied,
  invalid_supporting_field, missing_assessment,
}
use flowgency.Workflow.Definition.{
  FieldDefinition, FieldUse, Operator, equals, not_equals, is_present, Precondition, AgentCriterion,
  TransitionDefinition, CriterionAssessment, WorkflowDefinition, use_ids, criterion_ids, field,
  transition, field_kinds,
}

abbrev pub Attempt : Type 0 → Type 0
Attempt A = Outcome ContractError A

abbrev pub or_null : Option FieldValue → FieldValue
or_null none = null
or_null (some v) = v

-- values.get(key)
abbrev pub get_value : String → Dict FieldValue → FieldValue
get_value k values = or_null (lookup k values)

-- The handler that adds the field to a ContractError and raises it again.
abbrev pub naming_field : {A : Type 0} → String → Attempt A → Attempt A
naming_field i (ok a) = ok a
naming_field i (raise e) = raise (record e { field_id = some i })

-- One round of the loops over `transition.inputs` and `transition.outputs`.
unfoldable pub check_use : Dict FieldKind → Dict FieldValue → FieldUse → Attempt (Unit {0})
check_use kinds values u = do
  kind ← or_raise (lookup u.field_id kinds) (contract_error key_error)
  checked ←
      naming_field u.field_id (validate_field_value kind (get_value u.field_id values) u.required)
  ok tt

unfoldable pub check_declared : List String → List String → Attempt (Unit {0})
check_declared declared = each λ k. require (contains k declared) (contract_error undeclared_output)

abbrev pub failed_on : String → ContractError
failed_on i = record { code = precondition_failed; field_id = some i }

-- The type check of a precondition's field that is no input.
unfoldable pub check_unlisted :
    Dict FieldKind → List String → Dict FieldValue → Precondition → Attempt (Unit {0})
check_unlisted kinds listed values p =
    if contains p.field_id listed
    then ok tt
    else if is_null (get_value p.field_id values)
    then ok tt
    else (do
      kind ← or_raise (lookup p.field_id kinds) (contract_error key_error)
      require (kind_matches_value kind (get_value p.field_id values))
          (record { code = invalid_type; field_id = some p.field_id }))

unfoldable pub check_operator : Operator → FieldValue → FieldValue → String → Attempt (Unit {0})
check_operator equals actual wanted i = require (same_value actual wanted) (failed_on i)
check_operator not_equals actual wanted i = do
  require (not (is_null actual)) (failed_on i)
  require (not (same_value actual wanted)) (failed_on i)
check_operator is_present actual wanted i = require (not (is_null actual)) (failed_on i)

unfoldable pub check_precondition :
    Dict FieldKind → List String → Dict FieldValue → Precondition → Attempt (Unit {0})
unfolding check_unlisted check_operator
check_precondition kinds listed values p = do
  check_unlisted kinds listed values p
  check_operator p.operator (get_value p.field_id values) p.value p.field_id

-- The checks of one assessment, `assessed` holding the criteria of those before it.
unfoldable pub check_assessment :
    List String → List String → List String → CriterionAssessment → Attempt (Unit {0})
check_assessment criteria context assessed a = do
  require (contains a.criterion_id criteria) (contract_error unknown_criterion)
  require (not (contains a.criterion_id assessed)) (contract_error duplicate_assessment)
  require a.satisfied (contract_error criterion_not_satisfied)
  each (λ f. require (contains f context) (contract_error invalid_supporting_field))
      a.supporting_fields

-- The loop over the assessments; it returns `assessed_ids`.
unfoldable pub check_assessments :
    List String → List String → List String → List CriterionAssessment → Attempt (List String)
unfolding check_assessment
check_assessments criteria context assessed [] = ok assessed
check_assessments criteria context assessed (a ∷ rest) =
    let later = check_assessments criteria context (a.criterion_id ∷ assessed) rest in
    check_assessment criteria context assessed a >>= λ _. later

-- Raised when `criterion_ids - assessed_ids` is not empty.
unfoldable pub check_missing : List String → List String → Attempt (Unit {0})
check_missing criteria assessed =
    each (λ c. require (contains c assessed) (contract_error missing_assessment)) criteria

unfoldable pub present_inputs : List FieldUse → Dict FieldValue → Dict FieldValue
present_inputs [] values = []
present_inputs (u ∷ us) values = elim (lookup u.field_id values) [
  | none ↦ present_inputs us values
  | some v ↦ (u.field_id, v) ∷ present_inputs us values
]

-- A set of texts in sorted order: one more member.
unfoldable pub insert_sorted : String → List String → List String
insert_sorted x [] = x ∷ []
insert_sorted x (y ∷ ys) = elim (compare x y) [
  | Ordering.lt ↦ x ∷ y ∷ ys
  | Ordering.eq ↦ y ∷ ys
  | Ordering.gt ↦ y ∷ insert_sorted x ys
]

-- sorted(set(xs))
unfoldable pub sorted_set : List String → List String
unfolding insert_sorted
sorted_set [] = []
sorted_set (x ∷ xs) = insert_sorted x (sorted_set xs)

unfoldable pub referenced_field_ids : TransitionDefinition → List String
referenced_field_ids t =
    use_ids t.inputs ++ (use_ids t.outputs ++ map (λ p. p.field_id) t.preconditions)

-- {fid: definition.field(fid) for fid in ids}
unfoldable pub field_defs : WorkflowDefinition → List String → Attempt (Dict FieldDefinition)
field_defs d [] = ok []
field_defs d (i ∷ is) =
    let rest = field_defs d is in do f ← field d i; others ← rest; ok ((i, f) ∷ others)

pub record TransitionSnapshot : Type 0 where
  pub id : String
  pub name : String
  pub from_state : String
  pub to_state : String
  pub inputs : List FieldUse
  pub outputs : List FieldUse
  pub preconditions : List Precondition
  pub criteria : List AgentCriterion
  pub field_defs : Dict FieldDefinition

pub record EvaluatedTransition : Type 0 where
  pub destination_state_id : String
  pub effective_inputs : Dict FieldValue
  pub effective_outputs : Dict FieldValue
  pub assessments : List CriterionAssessment
  pub transition_snapshot : TransitionSnapshot

abbrev pub snapshot_of : TransitionDefinition → Dict FieldDefinition → TransitionSnapshot
snapshot_of t defs = record {
  id = t.id;
  name = t.name;
  from_state = t.from_state;
  to_state = t.to_state;
  inputs = t.inputs;
  outputs = t.outputs;
  preconditions = t.preconditions;
  criteria = t.criteria;
  field_defs = defs;
}

-- The value that `evaluate_transition` returns.
abbrev pub evaluated :
    TransitionDefinition
    → Dict FieldValue
    → Dict FieldValue
    → List CriterionAssessment
    → Dict FieldDefinition
    → EvaluatedTransition
evaluated t effective outputs assessments defs = record {
  destination_state_id = t.to_state;
  effective_inputs = update [] (present_inputs t.inputs effective);
  effective_outputs = outputs;
  assessments = assessments;
  transition_snapshot = snapshot_of t defs;
}

-- Everything that is checked once the transition is known, in order.
unfoldable pub check_transition :
    WorkflowDefinition
    → TransitionDefinition
    → String
    → Dict FieldValue
    → Dict FieldValue
    → List CriterionAssessment
    → Attempt (Unit {0})
check_transition d t state_id effective outputs assessments = do
  require (t.from_state == state_id) (contract_error wrong_source_state)
  each (check_use (field_kinds d) effective) t.inputs
  check_declared (use_ids t.outputs) (keys outputs)
  each (check_use (field_kinds d) outputs) t.outputs
  each (check_precondition (field_kinds d) (use_ids t.inputs) effective) t.preconditions
  assessed ←
      check_assessments (criterion_ids t.criteria) (keys effective ++ keys outputs) [] assessments
  check_missing (criterion_ids t.criteria) assessed

unfoldable pub evaluate_transition :
    WorkflowDefinition
    → String
    → String
    → Dict FieldValue
    → Dict FieldValue
    → Dict FieldValue
    → List CriterionAssessment
    → Attempt EvaluatedTransition
unfolding check_transition
evaluate_transition d transition_id state_id current_values supplied_inputs outputs assessments = do
  t ← transition d transition_id
  let effective = update current_values supplied_inputs
  check_transition d t state_id effective outputs assessments
  defs ← field_defs d (sorted_set (referenced_field_ids t))
  ok (evaluated t effective outputs assessments defs)
