-- ===== src/Workflow/Editing.antt =====
-- flowgency/workflows/editing.py: the commands that edit a definition. Each returns the definition
-- validated again. The hexadecimal text of the uuid4 that a command draws is an argument.
pub mod Keys
pub mod Preserved
pub mod Kinds
pub mod Moves
pub mod Examples
use Prim.Native.String.{◌++◌ as append}
use flowgency.Common.{
  String, ◌⊎◌, Bool, true, false, not, ◌&&◌, ◌||◌, Option, none, some, List, [], ◌∷◌, ◌++◌, map, ℕ,
  zero, suc, ◌==◌, leb, if◌then◌else◌, is_blank, length, any, contains, Outcome, ok, raise, ◌>>=◌,
  ◌>>◌, require,
}
use flowgency.Workflow.Values.{
  ℤ, pos, negsuc, FieldKind, ContractError, contract_error, blank_label, invalid_index,
  invalid_direction, duplicate_use,
}
use flowgency.Workflow.Definition.{
  ArtifactFormat, FieldDefinition, FieldUse, StateDefinition, TransitionDefinition,
  WorkflowDefinition, Violation, Check, use_ids, state, field, transition, find_by, validate_color,
  validate_artifact_format, model_validate,
}

-- A command raises a ContractError of its own or the error of a validator.
pub data EditError : Type 0 where
  contract : ContractError → EditError
  invalid : Violation → EditError

abbrev pub from_contract : {A : Type 0} → Outcome ContractError A → Outcome EditError A
from_contract (ok a) = ok a
from_contract (raise e) = raise (contract e)

abbrev pub from_check : Check → Outcome EditError (Unit {0})
from_check (ok u) = ok u
from_check (raise v) = raise (invalid v)

pub record DefinitionEdit : Type 0 where
  pub definition : WorkflowDefinition
  pub created_id : Option String

abbrev pub Edited : Type 0
Edited = Outcome EditError DefinitionEdit

unfoldable pub new_id : String → String → String
new_id prefix hex = append prefix (append "-" hex)

unfoldable pub rebuild : WorkflowDefinition → Option String → Edited
rebuild d created = do
  from_check (model_validate d)
  ok (record { definition = d; created_id = created })

unfoldable pub require_label : String → Outcome EditError String
require_label label =
    if is_blank label then raise (contract (contract_error blank_label)) else ok label

unfoldable pub started : String → String → String → WorkflowDefinition
started workflow_id state_id name = record {
  id = workflow_id;
  name = name;
  description = "";
  initial_state = state_id;
  states = record { id = state_id; name = "Start"; color = "#3b82f6" } ∷ [];
  fields = [];
  transitions = [];
}

unfoldable pub new_definition : String → String → String → Edited
unfolding new_id require_label rebuild started
new_definition hex state_hex name = do
  label ← require_label name
  rebuild (started (new_id "wf" hex) (new_id "st" state_hex) label) (some (new_id "wf" hex))

unfoldable pub plain_state : String → String → String → StateDefinition
plain_state i name color = record { id = i; name = name; color = color }

unfoldable pub add_state : String → WorkflowDefinition → String → String → Edited
unfolding new_id require_label rebuild plain_state
add_state hex d name color = do
  label ← require_label name
  let added = plain_state (new_id "st" hex) label color
  from_check (validate_color added)
  rebuild (record d { states = d.states ++ added ∷ [] }) (some (new_id "st" hex))

unfoldable pub renamed_state : String → String → StateDefinition → StateDefinition
renamed_state i label s = if s.id == i then record s { name = label } else s

unfoldable pub rename_state : WorkflowDefinition → String → String → Edited
unfolding require_label rebuild renamed_state
rename_state d i name = do
  found ← from_contract (state d i)
  label ← require_label name
  rebuild (record d { states = map (renamed_state i label) d.states }) none

-- [s for s in states if s.id != state_id]
unfoldable pub without : String → List StateDefinition → List StateDefinition
without i [] = []
without i (s ∷ ss) = let rest = without i ss in if s.id == i then rest else s ∷ rest

-- list.insert, below the end of the list
unfoldable pub insert_at {ℓ} : {A : Type ℓ} → ℕ → A → List A → List A
insert_at zero a xs = a ∷ xs
insert_at (suc n) a [] = a ∷ []
insert_at (suc n) a (x ∷ xs) = x ∷ insert_at n a xs

-- The position, unless index < 0 or index > count.
unfoldable pub checked_index : ℤ → ℕ → Outcome EditError ℕ
checked_index (negsuc n) count = raise (contract (contract_error invalid_index))
checked_index (pos n) count =
    if leb n count then ok n else raise (contract (contract_error invalid_index))

unfoldable pub move_state : WorkflowDefinition → String → ℤ → Edited
unfolding rebuild without insert_at checked_index
move_state d i index = do
  moved ← from_contract (state d i)
  position ← checked_index index (length (without i d.states))
  rebuild (record d { states = insert_at position moved (without i d.states) }) none

unfoldable pub plain_transition : String → String → String → String → TransitionDefinition
plain_transition i name from_state to_state = record {
  id = i;
  name = name;
  from_state = from_state;
  to_state = to_state;
  inputs = [];
  outputs = [];
  preconditions = [];
  criteria = [];
}

unfoldable pub add_transition : String → WorkflowDefinition → String → String → String → Edited
unfolding new_id require_label rebuild plain_transition
add_transition hex d name from_state to_state = do
  source ← from_contract (state d from_state)
  target ← from_contract (state d to_state)
  label ← require_label name
  let added = plain_transition (new_id "tr" hex) label from_state to_state
  rebuild (record d { transitions = d.transitions ++ added ∷ [] }) (some (new_id "tr" hex))

unfoldable pub plain_field : String → String → FieldKind → Option ArtifactFormat → FieldDefinition
plain_field i label kind format = record {
  id = i;
  label = label;
  type = kind;
  artifact_format = format;
}

unfoldable pub add_field :
    String → WorkflowDefinition → String → FieldKind → Option ArtifactFormat → Edited
unfolding new_id require_label rebuild plain_field
add_field hex d label kind format = do
  text ← require_label label
  let added = plain_field (new_id "fl" hex) text kind format
  from_check (validate_artifact_format added)
  rebuild (record d { fields = d.fields ++ added ∷ [] }) (some (new_id "fl" hex))

pub data Direction : Type 0 where
  input output : Direction

-- `direction not in ("input", "output")`
unfoldable pub direction_of : String → Outcome EditError Direction
direction_of text =
    if text == "input"
    then ok input
    else if text == "output"
    then ok output
    else raise (contract (contract_error invalid_direction))

unfoldable pub uses : Direction → TransitionDefinition → List FieldUse
uses input t = t.inputs
uses output t = t.outputs

unfoldable pub with_use : Direction → FieldUse → TransitionDefinition → TransitionDefinition
with_use input use_ t = record t { inputs = t.inputs ++ use_ ∷ [] }
with_use output use_ t = record t { outputs = t.outputs ++ use_ ∷ [] }

unfoldable pub replaced :
    String → TransitionDefinition → TransitionDefinition → TransitionDefinition
replaced i updated t = if t.id == i then updated else t

unfoldable pub use_field : WorkflowDefinition → String → String → String → Bool → Edited
unfolding rebuild direction_of uses with_use replaced
use_field d transition_id direction field_id required = do
  side ← direction_of direction
  found ← from_contract (transition d transition_id)
  declared ← from_contract (field d field_id)
  require (not (contains field_id (use_ids (uses side found))))
      (contract (contract_error duplicate_use))
  let added : FieldUse = record { field_id = field_id; required = required }
  let updated = with_use side added found
  rebuild (record d { transitions = map (replaced transition_id updated) d.transitions }) none

unfoldable pub renamed_field : String → String → FieldDefinition → FieldDefinition
renamed_field i label f = if f.id == i then record f { label = label } else f

unfoldable pub rename_field : WorkflowDefinition → String → String → Edited
unfolding require_label rebuild renamed_field
rename_field d i label = do
  found ← from_contract (field d i)
  text ← require_label label
  rebuild (record d { fields = map (renamed_field i text) d.fields }) none

-- The commands on an existing definition as data: a web request is one of them.
pub data Edit : Type 0 where
  adding_state : String → String → String → Edit
  renaming_state : String → String → Edit
  moving_state : String → ℤ → Edit
  adding_transition : String → String → String → String → Edit
  adding_field : String → String → FieldKind → Option ArtifactFormat → Edit
  using_field : String → String → String → Bool → Edit
  renaming_field : String → String → Edit

unfoldable pub edit : WorkflowDefinition → Edit → Edited
edit d (adding_state hex name color) = add_state hex d name color
edit d (renaming_state i name) = rename_state d i name
edit d (moving_state i index) = move_state d i index
edit d (adding_transition hex name source target) = add_transition hex d name source target
edit d (adding_field hex label kind format) = add_field hex d label kind format
edit d (using_field t direction f required) = use_field d t direction f required
edit d (renaming_field i label) = rename_field d i label
