-- ===== src/Ticket/Changes.antt =====
-- flowgency/tickets/service.py and transitions.py: the changes that the service makes to a ticket,
-- each the function that it hands to the storage. Reading a retained artifact, and proving that a
-- ticket captured the Git evidence in one, are the provider's.
use flowgency.Common.{
  String, Bool, true, false, not, ◌&&◌, Option, none, some, List, [], ◌∷◌, ◌++◌, ◌==◌,
  if◌then◌else◌, contains, Outcome, ok, raise, ◌>>◌, require,
}
use flowgency.Common.Dict.{Dict}
use flowgency.Workflow.Values.{FieldValue, ContractError}
use flowgency.Workflow.Definition.{WorkflowDefinition, CriterionAssessment}
use flowgency.Ticket.Models.{
  Instant, ticket_conflict, ticket_forbidden, unknown_agent, assigned_elsewhere, not_working,
  already_working, already_queued, ticket, contract, Attempt, TicketRef, ActiveTicketRun,
  TicketRunReservation, user, agent, FieldProvenance, AgentTicketContext, UserTicketContext,
  TicketActor, agent_actor, user_actor, EventData, no_data, job_data, TicketEvent, TicketRecord,
}

-- A team's configuration, as far as the changes read it.
pub record Team : Type 0 where
  pub agents : List String
  -- Whether `git_publication` is set.
  pub git_publication : Bool

-- What stands outside the ticket: reading an artifact, and `validate_git_artifact` on one.
pub record Provider : Type 0 where
  pub read_artifact : TicketRef → String → Attempt (Unit {0})
  pub validate_git_artifact : TicketRecord → String → Attempt (Unit {0})

-- What `_mutate` hands to a change.
pub record Context : Type 0 where
  pub definition : WorkflowDefinition
  pub team : Team
  pub provider : Provider
  pub now : Instant
  pub event_id : String
  pub operation_id : String
  pub workflow_digest : String
  pub context_digest : String
  pub binding_id : String

pub record TicketPatch : Type 0 where
  pub title : Option String
  pub description : Option String
  pub field_values : Option (Dict FieldValue)

pub record TransitionRequest : Type 0 where
  pub transition_id : String
  pub inputs : Dict FieldValue
  pub outputs : Dict FieldValue
  pub assessments : List CriterionAssessment

pub record TicketReport : Type 0 where
  pub message : String
  pub assessments : List CriterionAssessment

abbrev pub is_agent : Option String → String → Bool
is_agent none name = false
is_agent (some a) name = a == name

abbrev pub is_some {ℓ} : {A : Type ℓ} → Option A → Bool
is_some none = false
is_some (some a) = true

abbrev pub lift : {A : Type 0} → Outcome ContractError A → Attempt A
lift (ok a) = ok a
lift (raise e) = raise (contract e)

-- The run of the actor, by its job and session.
abbrev pub is_run : ActiveTicketRun → AgentTicketContext → Bool
is_run run actor = run.job_id == actor.job_id && run.session_id == actor.session_id

unfoldable pub require_active_owner : TicketRecord → AgentTicketContext → Attempt (Unit {0})
require_active_owner t actor = do
  require (is_agent t.assignee actor.agent_name) (ticket ticket_forbidden assigned_elsewhere)
  elim t.active_run [
    | none ↦ raise (ticket ticket_forbidden not_working)
    | some run ↦ require (is_run run actor) (ticket ticket_forbidden not_working)
  ]

-- The id of the last event of the kind, or the default.
unfoldable pub last_of_kind : String → String → List TicketEvent → String
last_of_kind kind found [] = found
last_of_kind kind found (e ∷ rest) = last_of_kind kind (if e.kind == kind then e.id else found) rest

unfoldable pub latest_assignment_event_id : TicketRecord → String
unfolding last_of_kind
latest_assignment_event_id t = last_of_kind "assigned" "" t.events

abbrev pub actor_data : TicketActor → EventData
actor_data (agent_actor a) = job_data a.job_id
actor_data (user_actor u) = no_data

abbrev pub actor_label : TicketActor → String
actor_label (agent_actor a) = a.agent_name
actor_label (user_actor u) = u.actor_name

-- TicketService._event
unfoldable pub make_event : Context → TicketActor → String → String → TicketEvent
make_event c actor kind summary = record {
  id = c.event_id;
  kind = kind;
  actor = actor_label actor;
  summary = summary;
  details = actor_data actor;
  at = some c.now;
}

abbrev pub with_event : TicketRecord → TicketEvent → TicketRecord
with_event t e = record t { body = record t.body { events = t.events ++ (e ∷ []) } }

unfoldable pub provenance_of : Context → TicketActor → FieldProvenance
provenance_of c (user_actor u) = record {
  actor_kind = user;
  actor_name = u.actor_name;
  job_id = none;
  event_id = c.event_id;
  recorded_at = c.now;
}
provenance_of c (agent_actor a) = record {
  actor_kind = agent;
  actor_name = a.agent_name;
  job_id = some a.job_id;
  event_id = c.event_id;
  recorded_at = c.now;
}

unfoldable pub stamp_field_provenance :
    Context → TicketActor → Dict FieldValue → Dict FieldProvenance
unfolding provenance_of
stamp_field_provenance c actor [] = []
stamp_field_provenance c actor ((k, v) ∷ rest) =
    (k, provenance_of c actor) ∷ stamp_field_provenance c actor rest

abbrev pub unknown_assignee : Team → Option String → Bool
unknown_assignee team none = false
unknown_assignee team (some a) = not (contains a team.agents)

unfoldable pub assign_record :
    Context → UserTicketContext → Option String → TicketRecord → Attempt TicketRecord
unfolding make_event
assign_record c actor assignee t = do
  require (not (is_some t.active_run)) (ticket ticket_conflict already_working)
  require (not (unknown_assignee c.team assignee)) (ticket ticket_forbidden unknown_agent)
  ok (
      with_event (record t { body = record t.body { assignee = assignee } })
        (make_event c (user_actor actor) "assigned" "Ticket assignment changed"))

abbrev pub may_take : Option String → String → Bool
may_take none name = true
may_take (some a) name = a == name

abbrev pub owns_reservation : TicketRecord → AgentTicketContext → Option TicketRunReservation → Bool
owns_reservation t actor none = true
owns_reservation t actor (some p) =
    p.job_id == actor.job_id
    && (p.assignee == actor.agent_name && p.assignment_event_id == latest_assignment_event_id t)

abbrev pub other_run : Option ActiveTicketRun → AgentTicketContext → Bool
other_run none actor = false
other_run (some run) actor = not (is_run run actor)

unfoldable pub start_work_record :
    Context → AgentTicketContext → TicketRecord → Attempt TicketRecord
unfolding make_event
start_work_record c actor t = do
  require (may_take t.assignee actor.agent_name) (ticket ticket_forbidden assigned_elsewhere)
  require (owns_reservation t actor t.pending_run) (ticket ticket_conflict already_queued)
  require (not (other_run t.active_run actor)) (ticket ticket_conflict already_working)
  ok (
      with_event
        (record t {
          body = record t.body {
            assignee = some actor.agent_name;
            pending_run = none;
            active_run = some (record {
              job_id = actor.job_id;
              session_id = actor.session_id;
              started_at = c.now;
            });
          };
        })
        (make_event c (agent_actor actor) "started-work" "Agent started work"))

unfoldable pub end_work_record : Context → AgentTicketContext → TicketRecord → Attempt TicketRecord
unfolding make_event
end_work_record c actor t = do
  require_active_owner t actor
  ok (
      with_event (record t { body = record t.body { active_run = none } })
        (make_event c (agent_actor actor) "ended-work" "Agent ended active work"))

unfoldable pub sign_off_record : Context → AgentTicketContext → TicketRecord → Attempt TicketRecord
unfolding make_event
sign_off_record c actor t = do
  require_active_owner t actor
  ok (
      with_event (record t { body = record t.body { assignee = none; active_run = none } })
        (make_event c (agent_actor actor) "signed-off" "Agent signed off the ticket"))
