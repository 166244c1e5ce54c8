-- ===== src/Ticket/Typing/Examples.antt =====
-- Renaming a state under the tickets of the small workflow.
use flowgency.Common.{◌≡◌, refl, contains, ok, [], ◌∷◌}
use flowgency.Common.Dict.{lookup, update}
use flowgency.Workflow.Values.{kind_matches_value}
use flowgency.Workflow.Definition.{field_kinds}
use flowgency.Workflow.Editing.{renaming_state}
use flowgency.Workflow.Editing.Examples.{open_renamed, renamed_review}
use flowgency.Workflow.Examples.{review}
use flowgency.Ticket.Examples.{first, released}
use flowgency.Ticket.Typing.{require_compatible, record_issues, compatibility_issues}
use flowgency.Ticket.Typing.Edits.{edit-require_compatible}

tickets_fit : require_compatible review (first ∷ released ∷ []) ≡ ok tt
unfolding require_compatible compatibility_issues record_issues contains lookup field_kinds update
    kind_matches_value
tickets_fit = refl

edit-require_compatible_example :
    require_compatible renamed_review.definition (first ∷ released ∷ []) ≡ ok tt
edit-require_compatible_example =
    edit-require_compatible review (renaming_state "open" "To do") renamed_review
      (first ∷ released ∷ []) open_renamed tickets_fit (tt, (tt, tt))
