-- ===== src/Workflow/Editing/Examples.antt =====
-- Editing the small workflow.
use flowgency.Common.{◌≡◌, refl, ok, is_blank, has_duplicates, here, none, [], ◌∷◌, arith}
use flowgency.Workflow.Values.{pos, kind_matches_value}
use flowgency.Workflow.Definition.{
  state, find_by, model_validate, validate_color, validate_artifact_format, validate_transition,
  validate_value, validate_criteria_count, validate_definition, validate_references,
  validate_precondition, validate_comparison, first_type,
}
use flowgency.Workflow.Validity.{IsValid, model_validate-IsValid}
use flowgency.Workflow.Examples.{review, review_passes}
use flowgency.Workflow.Editing.{DefinitionEdit, edit, renaming_state, rename_state, move_state}
use flowgency.Workflow.Editing.Preserved.{Preserves, edit-Sound}
use flowgency.Workflow.Editing.Moves.{IsMoved, move_state-IsMoved}

abbrev pub renamed_review : DefinitionEdit
renamed_review = record {
  definition = record review {
    states =
        record { id = "open"; name = "To do"; color = "#00ff00" }
        ∷ record { id = "closed"; name = "Closed"; color = "#AB12cd" }
        ∷ [];
  };
  created_id = none;
}

pub open_renamed : edit review (renaming_state "open" "To do") ≡ ok renamed_review
unfolding edit rename_state state find_by is_blank model_validate validate_color
    validate_artifact_format validate_transition validate_value validate_criteria_count
    has_duplicates validate_definition validate_references validate_precondition validate_comparison
    first_type kind_matches_value
open_renamed = refl

edit-Sound_example : IsValid renamed_review.definition × Preserves review renamed_review
edit-Sound_example = edit-Sound review (renaming_state "open" "To do") renamed_review open_renamed

move_state-IsMoved_example :
    (done : DefinitionEdit) × (move_state review "open" (pos 1) ≡ ok done)
    × IsMoved review "open" 1 done
move_state-IsMoved_example =
    move_state-IsMoved review "open" 1 ((model_validate-IsValid review).0 review_passes) here
      (omega arith)
