-- ===== src/Workflow/Library/Examples.antt =====
-- Publishing the small workflow.
use flowgency.Common.{◌≡◌, refl, has_duplicates, some, false, [], ◌∷◌, ok, raise, eq_iff, arith}
use flowgency.Common.Dict.{lookup, insert, has_key}
use flowgency.Workflow.Values.{kind_matches_value}
use flowgency.Workflow.Definition.{
  model_validate, validate_color, validate_artifact_format, validate_transition, validate_value,
  validate_criteria_count, validate_definition, validate_references, validate_precondition,
  validate_comparison, first_type,
}
use flowgency.Workflow.Validity.{IsValid}
use flowgency.Workflow.Examples.{review}
use flowgency.Ticket.Storage.{is_slug}
use flowgency.Workflow.Library.{
  LibraryEnv, LibraryError, Files, WorkflowSnapshot, mapping, write_candidate, create_candidate,
  inspect,
}
use flowgency.Workflow.Library.Calls.{creates}
use flowgency.Workflow.Library.Published.{
  write_candidate-inspect, write_candidate_conflicts, publish_all, publish_all-inspect,
}

abbrev disk : LibraryEnv
disk = record {
  source_digest = λ s. s;
  byte_length = λ s. 10;
  safe_load = λ s. mapping review;
  safe_dump = λ d. d.name;
  escapes = λ i. false;
  crosses_link = λ i. false;
}

abbrev files : Files
files = ("review", "Old") ∷ []

abbrev written : WorkflowSnapshot
written = record { definition = review; digest = "Review"; source_id = "review" }

review_goes_to_disk : (write_candidate disk files "review" "Old" review).0 ≡ ok written
unfolding write_candidate lookup model_validate validate_color validate_artifact_format
    validate_transition validate_value validate_criteria_count has_duplicates validate_definition
    validate_references validate_precondition validate_comparison first_type kind_matches_value
    is_slug
review_goes_to_disk = refl

write_candidate-inspect_example :
    inspect disk (write_candidate disk files "review" "Old" review).1 "review" ≡ ok written
write_candidate-inspect_example =
    write_candidate-inspect disk files "review" "Old" review written refl review_goes_to_disk

write_candidate_conflicts_example :
    (e : LibraryError) × (write_candidate disk
        (write_candidate disk files "review" "Old" review).1
        "review"
        "Old"
        review
      ≡ (raise e, (write_candidate disk files "review" "Old" review).1))
write_candidate_conflicts_example =
    write_candidate_conflicts disk files "review" "Old" review review written review_goes_to_disk
      (λ same. ground (arith, eq_iff "Review" "Old"))

review_found_on_disk :
    lookup "review" (publish_all disk [] (creates "review" review ∷ [])) ≡ some "Review"
unfolding publish_all create_candidate lookup has_key insert model_validate validate_color
    validate_artifact_format validate_transition validate_value validate_criteria_count
    has_duplicates validate_definition validate_references validate_precondition validate_comparison
    first_type kind_matches_value is_slug
review_found_on_disk = refl

publish_all-inspect_example :
    (s : WorkflowSnapshot) × (inspect disk
        (publish_all disk [] (creates "review" review ∷ []))
        "review"
      ≡ ok s)
    × (s.definition.id ≡ "review")
    × IsValid s.definition
publish_all-inspect_example =
    publish_all-inspect disk (creates "review" review ∷ []) "review" "Review" (refl, tt)
      review_found_on_disk
