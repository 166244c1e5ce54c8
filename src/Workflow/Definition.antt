-- ===== src/Workflow/Definition.antt =====
-- flowgency/workflows/models.py: the workflow definition, its pydantic validators in the order in
-- which they run, and the look-up of its parts by id. The limits are the module's constants.
use Prim.Native.Char.{code}
use flowgency.Common.{
  ℕ, zero, suc, String, Bool, true, false, not, ◌&&◌, ◌||◌, Option, none, some, List, [], ◌∷◌, map,
  ◌==◌, leb, num_eq, if◌then◌else◌, is_blank, length, contains, has_duplicates, Outcome, ok, raise,
  ◌>>◌, require, or_raise, each,
}
use flowgency.Common.Dict.{Dict, update}
use flowgency.Workflow.Values.{
  FieldKind, artifact, FieldValue, is_null, kind_matches_value, ContractError, contract_error,
  unknown_reference,
}

pub data ArtifactFormat : Type 0 where
  git_change : ArtifactFormat

pub record FieldDefinition : Type 0 where
  pub id : String
  pub label : String
  pub type : FieldKind
  pub artifact_format : Option ArtifactFormat

pub record FieldUse : Type 0 where
  pub field_id : String
  pub required : Bool

pub record StateDefinition : Type 0 where
  pub id : String
  pub name : String
  pub color : String

pub data Operator : Type 0 where
  equals not_equals is_present : Operator

pub record Precondition : Type 0 where
  pub field_id : String
  pub operator : Operator
  pub value : FieldValue

pub record AgentCriterion : Type 0 where
  pub id : String
  pub description : String

pub record TransitionDefinition : Type 0 where
  pub id : String
  pub name : String
  pub from_state : String
  pub to_state : String
  pub inputs : List FieldUse
  pub outputs : List FieldUse
  pub preconditions : List Precondition
  pub criteria : List AgentCriterion

pub record CriterionAssessment : Type 0 where
  pub criterion_id : String
  pub satisfied : Bool
  pub reasoning : String
  pub supporting_fields : List String

pub record WorkflowDefinition : Type 0 where
  pub id : String
  pub name : String
  pub description : String
  pub initial_state : String
  pub states : List StateDefinition
  pub fields : List FieldDefinition
  pub transitions : List TransitionDefinition

abbrev pub max_states : ℕ
max_states = 256

abbrev pub max_fields : ℕ
max_fields = 1024

abbrev pub max_transitions : ℕ
max_transitions = 2048

abbrev pub max_criteria_per_transition : ℕ
max_criteria_per_transition = 128

abbrev pub use_ids : List FieldUse → List String
use_ids = map (λ u. u.field_id)

abbrev pub criterion_ids : List AgentCriterion → List String
criterion_ids = map (λ c. c.id)

abbrev pub state_ids : WorkflowDefinition → List String
state_ids d = map (λ s. s.id) d.states

abbrev pub field_ids : WorkflowDefinition → List String
field_ids d = map (λ f. f.id) d.fields

abbrev pub transition_ids : WorkflowDefinition → List String
transition_ids d = map (λ t. t.id) d.transitions

-- The ValueErrors of the validators, one for each `raise`.
pub data Violation : Type 0 where
  format_without_artifact bad_color operator_without_value presence_with_value : Violation
  too_many_criteria duplicate_criteria duplicate_inputs duplicate_outputs : Violation
  precondition_not_input blank_reasoning : Violation
  too_many_states too_many_fields too_many_transitions : Violation
  duplicate_states duplicate_fields duplicate_transitions unknown_initial_state : Violation
  unknown_from_state unknown_to_state unknown_input unknown_output : Violation
  unknown_precondition precondition_type_mismatch : Violation

abbrev pub Check : Type 0
Check = Outcome Violation (Unit {0})

unfoldable pub validate_artifact_format : FieldDefinition → Check
validate_artifact_format f = elim f.artifact_format [
  | none ↦ ok tt
  | some _ ↦ elim f.type [ artifact ↦ ok tt | _ ↦ raise format_without_artifact ]
]

unfoldable pub is_hex : ℕ → Bool
is_hex c = (leb b'0' c && leb c b'9') || (leb b'a' c && leb c b'f') || (leb b'A' c && leb c b'F')

-- The end of a match by `$`: the end of the text, or a newline that ends it.
unfoldable pub at_dollar : String → Bool
at_dollar String.[] = true
at_dollar (String.◌∷◌ c String.[]) = num_eq (code c) 10
at_dollar (String.◌∷◌ c (String.◌∷◌ d s)) = false

unfoldable pub match_hex : ℕ → String → Bool
unfolding is_hex at_dollar
match_hex zero s = at_dollar s
match_hex (suc n) String.[] = false
match_hex (suc n) (String.◌∷◌ c s) = is_hex (code c) && match_hex n s

-- _HEX_COLOR_RE.match: `^#[0-9a-fA-F]{6}$`
unfoldable pub is_hex_color : String → Bool
unfolding match_hex
is_hex_color String.[] = false
is_hex_color (String.◌∷◌ c s) = num_eq (code c) b'#' && match_hex 6 s

unfoldable pub validate_color : StateDefinition → Check
unfolding is_hex_color
validate_color s = require (is_hex_color s.color) bad_color

unfoldable pub validate_value : Precondition → Check
validate_value p = elim p.operator [
  | is_present ↦ require (is_null p.value) presence_with_value
  | _ ↦ require (not (is_null p.value)) operator_without_value
]

-- TransitionDefinition._validate_criteria_count
unfoldable pub validate_criteria_count : TransitionDefinition → Check
validate_criteria_count t = do
  require (leb (length t.criteria) max_criteria_per_transition) too_many_criteria
  require (not (has_duplicates (criterion_ids t.criteria))) duplicate_criteria
  require (not (has_duplicates (use_ids t.inputs))) duplicate_inputs
  require (not (has_duplicates (use_ids t.outputs))) duplicate_outputs
  each (λ p. require (contains p.field_id (use_ids t.inputs)) precondition_not_input)
      t.preconditions

-- Pydantic checks the parts of a transition first, then the transition.
unfoldable pub validate_transition : TransitionDefinition → Check
validate_transition t = do each validate_value t.preconditions; validate_criteria_count t

unfoldable pub validate_reasoning : CriterionAssessment → Check
validate_reasoning a = require (not (is_blank a.reasoning)) blank_reasoning

-- next(f.type for f in fields if f.id == field_id)
unfoldable pub first_type : String → List FieldDefinition → Option FieldKind
first_type i [] = none
first_type i (f ∷ fs) = if f.id == i then some f.type else first_type i fs

unfoldable pub validate_comparison : WorkflowDefinition → Precondition → Check
validate_comparison d p = elim p.operator [
  | is_present ↦ ok tt
  | _ ↦ elim (first_type p.field_id d.fields) [
    | none ↦ raise unknown_precondition
    | some kind ↦ require (kind_matches_value kind p.value) precondition_type_mismatch
  ]
]

unfoldable pub validate_precondition : WorkflowDefinition → Precondition → Check
validate_precondition d p = do
  require (contains p.field_id (field_ids d)) unknown_precondition
  validate_comparison d p

-- The loop body over the transitions of the definition's validator.
unfoldable pub validate_references : WorkflowDefinition → TransitionDefinition → Check
validate_references d t = do
  require (contains t.from_state (state_ids d)) unknown_from_state
  require (contains t.to_state (state_ids d)) unknown_to_state
  each (λ u. require (contains u.field_id (field_ids d)) unknown_input) t.inputs
  each (λ u. require (contains u.field_id (field_ids d)) unknown_output) t.outputs
  each (validate_precondition d) t.preconditions

-- WorkflowDefinition._validate_definition
unfoldable pub validate_definition : WorkflowDefinition → Check
validate_definition d = do
  require (leb (length d.states) max_states) too_many_states
  require (leb (length d.fields) max_fields) too_many_fields
  require (leb (length d.transitions) max_transitions) too_many_transitions
  require (not (has_duplicates (state_ids d))) duplicate_states
  require (not (has_duplicates (field_ids d))) duplicate_fields
  require (not (has_duplicates (transition_ids d))) duplicate_transitions
  require (contains d.initial_state (state_ids d)) unknown_initial_state
  each (validate_references d) d.transitions

-- WorkflowDefinition.model_validate: the parts in their order, then the whole.
unfoldable pub model_validate : WorkflowDefinition → Check
model_validate d = do
  each validate_color d.states
  each validate_artifact_format d.fields
  each validate_transition d.transitions
  validate_definition d

unfoldable pub find_by {ℓ} : {A : Type ℓ} → (A → String) → String → List A → Option A
find_by key i [] = none
find_by key i (x ∷ xs) = if key x == i then some x else find_by key i xs

unfoldable pub state : WorkflowDefinition → String → Outcome ContractError StateDefinition
state d i = or_raise (find_by (λ s. s.id) i d.states) (contract_error unknown_reference)

unfoldable pub field : WorkflowDefinition → String → Outcome ContractError FieldDefinition
field d i = or_raise (find_by (λ f. f.id) i d.fields) (contract_error unknown_reference)

unfoldable pub transition : WorkflowDefinition → String → Outcome ContractError TransitionDefinition
transition d i = or_raise (find_by (λ t. t.id) i d.transitions) (contract_error unknown_reference)

-- {f.id: f.type for f in definition.fields}
unfoldable pub field_kinds : WorkflowDefinition → Dict FieldKind
field_kinds d = update [] (map (λ f. (f.id, f.type)) d.fields)
