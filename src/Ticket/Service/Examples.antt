-- ===== src/Ticket/Service/Examples.antt =====
-- The service on the sample ticket.
use flowgency.Common.{◌≡◌, refl, ap, ◌∙◌, true, none, some, [], ◌∷◌, ok, contains}
use flowgency.Common.Dict.{lookup, insert, update}
use flowgency.Workflow.Values.{kind_matches_value}
use flowgency.Workflow.Definition.{field, find_by, field_kinds}
use flowgency.Workflow.Examples.{review, review_passes, is_ready}
use flowgency.Ticket.Models.{Attempt, agent_actor, TicketRecord, TicketMutationResult, find_receipt}
use flowgency.Ticket.Changes.{
  require_active_owner, make_event, end_work_record, stamp_field_provenance,
}
use flowgency.Ticket.Progress.{validate_field_values, check_field_value, is_git_field}
use flowgency.Ticket.Progress.{ProcessStopEvidence}
use flowgency.Ticket.Storage.{Storage}
use flowgency.Ticket.Storage.Commits.{commit_of, advance_total}
use flowgency.Ticket.Storage.Writes.{apply_writes}
use flowgency.Ticket.Change.{change, ends}
use flowgency.Ticket.Change.Ownership.{change-Extends}
use flowgency.Ticket.Typing.{IsTyped}
use flowgency.Ticket.Examples.{
  ada, anywhere, env, store, first_ref, first, released, release, event, today, first-released,
  store_opens, store_reads,
}
use flowgency.Ticket.Service.{
  TicketVersion, WorkflowBinding, Snapshot, Observed, Resolved, require_current_contract, resolve,
  context_of, mutate_current_record, mutate, new_record,
}
use flowgency.Ticket.Service.Authorized.{Authorized, mutate-resolved, mutate-Authorized}
use flowgency.Ticket.Service.Opened.{new_record-IsTyped}

abbrev bound : WorkflowBinding
bound = record {
  team_id = "team";
  workflow_id = "review";
  blueprint_id = "review";
  binding_id = "binding";
  context_digest = "context";
}

abbrev settled : Snapshot
settled = record {
  revision = "one";
  binding_for = λ team workflow. some bound;
  team_for = λ team. some today.team;
  definition_for = λ blueprint. some (review, "workflow");
}

-- The configuration has another revision when the change is made.
abbrev seen : Observed
seen = record {
  initial = settled;
  locked = ok settled;
  current = record settled { revision = "two" };
  now = 7;
  event_id = "event";
  authorized_at_entry = λ a. true;
  provider_for = λ b. anywhere;
}

abbrev version : TicketVersion
version = record {
  ref = first_ref;
  revision = 1;
  workflow_digest = "workflow";
  context_digest = "context";
}

abbrev resolved : Resolved
resolved = record {
  snapshot = settled;
  binding = bound;
  team = today.team;
  definition = review;
  digest = "workflow";
}

abbrev mutation : TicketRecord → Attempt TicketRecord
mutation =
    mutate_current_record seen resolved (context_of seen resolved version release)
      (λ c. change c (ends ada))

mutation-released : mutation first ≡ ok released
unfolding require_current_contract change end_work_record require_active_owner make_event
mutation-released = refl

version_resolves : resolve seen (agent_actor ada) version ≡ ok resolved
unfolding resolve contains
version_resolves = refl

release_mutates :
    (mutate env 7 store seen (agent_actor ada) version release (λ c. change c (ends ada))).0
    ≡ ok (commit_of env.runtime released first (event ∷ []) release 7).1
unfolding find_receipt
release_mutates =
    ap (λ (p : Attempt TicketMutationResult × Storage). p.0)
      (mutate-resolved env 7 store seen (agent_actor ada) version release (λ c. change c (ends ada))
          resolved version_resolves
        ∙ apply_writes env 7 store first_ref 1 release mutation first
            (commit_of env.runtime released first (event ∷ []) release 7).0
            (commit_of env.runtime released first (event ∷ []) release 7).1 store_opens store_reads
            refl
            (advance_total env 7 first released (event ∷ []) release mutation refl refl
              mutation-released
              (change-Extends today (ends ada) first released first-released).identity refl)
            refl refl)

mutate-Authorized_example : Authorized seen (agent_actor ada) version
mutate-Authorized_example =
    mutate-Authorized env 7 store seen (agent_actor ada) version release (λ c. change c (ends ada))
      (commit_of env.runtime released first (event ∷ []) release 7).1 release_mutates

abbrev opened_record : TicketRecord
opened_record = record {
  body = record first.body {
    number = 0;
    assignee = none;
    active_run = none;
    field_provenance = stamp_field_provenance today (agent_actor ada) is_ready;
    events = make_event today (agent_actor ada) "opened" "Ticket created" ∷ [];
    created_at = 7;
    updated_at = 7;
  };
  receipts = [];
}

record_opens :
    new_record today (agent_actor ada) "First" "" is_ready "first" first_ref ≡ ok opened_record
unfolding new_record validate_field_values check_field_value field_kinds lookup insert update
    kind_matches_value is_git_field field find_by
record_opens = refl

new_record-IsTyped_example :
    IsTyped review opened_record
    × (opened_record.assignee ≡ none)
    × (opened_record.active_run ≡ none)
    × (opened_record.pending_run ≡ none)
    × (opened_record.receipts ≡ [])
new_record-IsTyped_example =
    new_record-IsTyped today (agent_actor ada) "First" "" is_ready "first" first_ref opened_record
      review_passes record_opens

abbrev evidence : ProcessStopEvidence
evidence = record { job_id = "job"; generation = "session"; confirmed = true }
