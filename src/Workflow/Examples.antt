-- ===== src/Workflow/Examples.antt =====
-- A small workflow, and the theorems of the workflow rules at work on it.
use flowgency.Common.{◌≡◌, refl, ◌↔◌, true, none, List, [], ◌∷◌, ok, has_duplicates}
use flowgency.Common.Dict.{Dict, update}
use flowgency.Workflow.Values.{FieldValue, str, text, boolean, bool, kind_matches_value}
use flowgency.Workflow.Definition.{
  equals, TransitionDefinition, CriterionAssessment, WorkflowDefinition, transition, model_validate,
  find_by, validate_color, validate_artifact_format, validate_transition, validate_value,
  validate_criteria_count, validate_definition, validate_references, validate_precondition,
  validate_comparison, first_type,
}
use flowgency.Workflow.Validity.{IsValid, model_validate-IsValid}
use flowgency.Workflow.Rules.{EvaluatedTransition, evaluate_transition}
use flowgency.Workflow.Rules.Admits.{Admits, evaluate_transition-Admits}
use flowgency.Workflow.Rules.Totality.{AvoidsKeyError, evaluate_transition-AvoidsKeyError}

abbrev pub finish : TransitionDefinition
finish = record {
  id = "finish";
  name = "Finish";
  from_state = "open";
  to_state = "closed";
  inputs = record { field_id = "ready"; required = true } ∷ [];
  outputs = record { field_id = "note"; required = true } ∷ [];
  preconditions = record { field_id = "ready"; operator = equals; value = bool true } ∷ [];
  criteria = record { id = "tested"; description = "The change is tested" } ∷ [];
}

abbrev pub review : WorkflowDefinition
review = record {
  id = "review";
  name = "Review";
  description = "";
  initial_state = "open";
  states =
      record { id = "open"; name = "Open"; color = "#00ff00" }
      ∷ record { id = "closed"; name = "Closed"; color = "#AB12cd" }
      ∷ [];
  fields =
      record { id = "ready"; label = "Ready"; type = boolean; artifact_format = none }
      ∷ record { id = "note"; label = "Note"; type = text; artifact_format = none }
      ∷ [];
  transitions = finish ∷ [];
}

abbrev pub is_ready : Dict FieldValue
is_ready = ("ready", bool true) ∷ []

abbrev pub a_note : Dict FieldValue
a_note = ("note", str "merged") ∷ []

abbrev pub tested : List CriterionAssessment
tested =
    record {
      criterion_id = "tested";
      satisfied = true;
      reasoning = "The suite passes";
      supporting_fields = "note" ∷ [];
    }
    ∷ []

pub review_passes : model_validate review ≡ ok tt
unfolding model_validate validate_color validate_artifact_format validate_transition validate_value
    validate_criteria_count has_duplicates validate_definition validate_references
    validate_precondition validate_comparison first_type kind_matches_value
review_passes = refl

finish_found : transition review "finish" ≡ ok finish
unfolding transition find_by
finish_found = refl

evaluate_transition-Admits_example :
    ((ev : EvaluatedTransition) × (evaluate_transition review "finish" "open" [] is_ready a_note
          tested
        ≡ ok ev))
    ↔ Admits review finish "open" (update [] is_ready) a_note tested
evaluate_transition-Admits_example =
    evaluate_transition-Admits review "finish" "open" finish [] is_ready a_note tested review_passes
      finish_found

evaluate_transition-AvoidsKeyError_example :
    AvoidsKeyError (evaluate_transition review "finish" "open" [] [] a_note tested)
evaluate_transition-AvoidsKeyError_example =
    evaluate_transition-AvoidsKeyError review "finish" "open" [] [] a_note tested review_passes

model_validate-IsValid_example : (model_validate review ≡ ok tt) ↔ IsValid review
model_validate-IsValid_example = model_validate-IsValid review
