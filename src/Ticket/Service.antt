-- ===== src/Ticket/Service.antt =====
-- flowgency/tickets/service.py: `_mutate` and the checks around a change, and the record that `create`
-- opens. A call reads the configuration and the library of blueprints up to three times, and either
-- may have changed in between: each reading is a snapshot of its own.
pub mod Authorized
pub mod Opened
mod Examples
use flowgency.Common.{
  ℕ, String, ◌≡◌, Bool, true, false, not, ◌&&◌, ◌||◌, Option, none, some, List, [], ◌∷◌, ◌==◌,
  contains, ok, raise, ◌>>=◌, ◌>>◌, require, or_raise, each,
}
use flowgency.Common.Dict.{Dict}
use flowgency.Workflow.Values.{FieldValue, is_null, contract_error, key_error}
use flowgency.Workflow.Definition.{WorkflowDefinition}
use flowgency.Ticket.Models.{
  Instant, ErrorClass, ticket_conflict, ticket_forbidden, ticket_evidence_invalid,
  workflow_unavailable, Reason, stale_ticket, wrong_team, unknown_agent, invalid_agent_context,
  unknown_workflow, unavailable_workflow, git_evidence_untrusted, Fault, ticket, contract, Attempt,
  TicketRef, AgentTicketContext, TicketActor, agent_actor, user_actor, TicketRecord,
  TicketOperation, TicketMutationResult,
}
use flowgency.Ticket.Changes.{Team, Provider, Context, make_event, stamp_field_provenance}
use flowgency.Ticket.Progress.{validate_field_values, is_git_field}
use flowgency.Ticket.Storage.{StorageEnv, Storage, apply}

pub record TicketVersion : Type 0 where
  pub ref : TicketRef
  pub revision : ℕ
  pub workflow_digest : String
  pub context_digest : String

pub record WorkflowBinding : Type 0 where
  pub team_id : String
  pub workflow_id : String
  pub blueprint_id : String
  pub binding_id : String
  pub context_digest : String

-- One reading of the configuration and of the library: `resolve_workflow_binding`, a team, and
-- `library.inspect` with the digest of the source; none where these raise.
pub record Snapshot : Type 0 where
  pub revision : String
  pub binding_for : String → String → Option WorkflowBinding
  pub team_for : String → Option Team
  pub definition_for : String → Option (WorkflowDefinition × String)

-- What a call of `_mutate` observes: whether an agent is authorized and the first snapshot, before it
-- takes the locks of the configuration and the blueprint; the snapshot under them; and the current one
-- inside `apply`.
pub record Observed : Type 0 where
  pub authorized_at_entry : AgentTicketContext → Bool
  pub initial : Snapshot
  pub locked : Attempt Snapshot
  pub current : Snapshot
  pub now : Instant
  pub event_id : String
  pub provider_for : WorkflowBinding → Provider

abbrev pub missing_key : Fault
missing_key = contract (contract_error key_error)

abbrev pub stale : Fault
stale = ticket ticket_conflict stale_ticket

abbrev pub team_of : TicketActor → String
team_of (agent_actor a) = a.team_id
team_of (user_actor u) = u.team_id

unfoldable pub validate_actor : Observed → TicketActor → Attempt (Unit {0})
validate_actor o (agent_actor a) =
    require (o.authorized_at_entry a) (ticket ticket_forbidden invalid_agent_context)
validate_actor o (user_actor u) = ok tt

unfoldable pub require_team_access : TicketActor → String → Attempt (Unit {0})
require_team_access actor team_id =
    require (team_of actor == team_id) (ticket ticket_forbidden wrong_team)

-- _require_configured_agent, which a user passes.
unfoldable pub require_configured_agent : Snapshot → TicketActor → Attempt (Unit {0})
require_configured_agent s (agent_actor a) = do
  team ← or_raise (s.team_for a.team_id) missing_key
  require (contains a.agent_name team.agents) (ticket ticket_forbidden unknown_agent)
require_configured_agent s (user_actor u) = ok tt

unfoldable pub resolve_binding : Snapshot → String → String → Attempt WorkflowBinding
resolve_binding s team_id workflow_id =
    or_raise (s.binding_for team_id workflow_id) (ticket workflow_unavailable unknown_workflow)

unfoldable pub resolve_definition :
    Snapshot → WorkflowBinding → Attempt (WorkflowDefinition × String)
resolve_definition s b =
    or_raise (s.definition_for b.blueprint_id) (ticket workflow_unavailable unavailable_workflow)

unfoldable pub require_current_version : WorkflowBinding → TicketVersion → Attempt (Unit {0})
require_current_version b v = do
  require (b.binding_id == v.ref.binding_id) stale
  require (b.context_digest == v.context_digest) stale

unfoldable pub bindings_match : WorkflowBinding → WorkflowBinding → Bool
bindings_match expected current =
    current.binding_id == expected.binding_id
    && (current.context_digest == expected.context_digest
        && current.blueprint_id == expected.blueprint_id)

-- _require_current_contract, with the digest that `_mutate` and `create` pass.
unfoldable pub require_current_contract :
    Snapshot → WorkflowBinding → String → String → Attempt (Unit {0})
unfolding resolve_binding resolve_definition bindings_match
require_current_contract current b revision digest = do
  current_binding ← resolve_binding current b.team_id b.workflow_id
  require (current.revision == revision || bindings_match b current_binding) stale
  require (current_binding.blueprint_id == b.blueprint_id) stale
  found ← resolve_definition current current_binding
  require (found.0.id == b.blueprint_id) stale
  require (found.1 == digest) stale

-- What the checks under the locks resolve.
pub record Resolved : Type 0 where
  pub snapshot : Snapshot
  pub binding : WorkflowBinding
  pub team : Team
  pub definition : WorkflowDefinition
  pub digest : String

-- `_mutate` up to the call of `apply`. The team is the one that the binding was resolved in.
unfoldable pub resolve : Observed → TicketActor → TicketVersion → Attempt Resolved
unfolding validate_actor require_team_access require_configured_agent resolve_binding
    resolve_definition require_current_version
resolve o actor v = do
  validate_actor o actor
  require_team_access actor v.ref.team_id
  first ← resolve_binding o.initial v.ref.team_id v.ref.workflow_id
  snapshot ← o.locked
  binding ← or_raise (snapshot.binding_for v.ref.team_id v.ref.workflow_id) missing_key
  require (binding.blueprint_id == first.blueprint_id) stale
  require_configured_agent snapshot actor
  require_current_version binding v
  found ← resolve_definition snapshot binding
  require (found.1 == v.workflow_digest) stale
  team ← or_raise (snapshot.team_for binding.team_id) missing_key
  ok (record {
    snapshot = snapshot;
    binding = binding;
    team = team;
    definition = found.0;
    digest = found.1;
  })

abbrev pub context_of : Observed → Resolved → TicketVersion → TicketOperation → Context
context_of o r v operation = record {
  definition = r.definition;
  team = r.team;
  provider = o.provider_for r.binding;
  now = o.now;
  event_id = o.event_id;
  operation_id = operation.operation_id;
  workflow_digest = v.workflow_digest;
  context_digest = v.context_digest;
  binding_id = r.binding.binding_id;
}

-- _mutate_current_record
abbrev pub mutate_current_record :
    Observed
    → Resolved
    → Context
    → (Context → TicketRecord → Attempt TicketRecord)
    → TicketRecord
    → Attempt TicketRecord
mutate_current_record o r c mutation t = do
  require_current_contract o.current r.binding r.snapshot.revision r.digest
  mutation c t

-- _mutate; `clock` is the time that the storage reads.
unfoldable pub mutate :
    StorageEnv
    → Instant
    → Storage
    → Observed
    → TicketActor
    → TicketVersion
    → TicketOperation
    → (Context → TicketRecord → Attempt TicketRecord)
    → Attempt TicketMutationResult × Storage
mutate env clock st o actor v operation mutation = elim (resolve o actor v) [
  | raise e ↦ (raise e, st)
  | ok r ↦
      apply env clock st v.ref v.revision operation
        (mutate_current_record o r (context_of o r v operation) mutation)
]

-- A value that no ticket can have captured yet.
abbrev pub require_no_evidence : WorkflowDefinition → String × FieldValue → Attempt (Unit {0})
require_no_evidence d (i, v) =
    require (is_null v || not (is_git_field d i))
      (ticket ticket_evidence_invalid git_evidence_untrusted)

-- The record that `create` builds; the ids are uuid5's.
unfoldable pub new_record :
    Context
    → TicketActor
    → String
    → String
    → Dict FieldValue
    → String
    → TicketRef
    → Attempt TicketRecord
unfolding make_event
new_record c actor title description values ticket_id ref = do
  validate_field_values c.definition values
  each (require_no_evidence c.definition) values
  ok (record {
    body = record {
      id = ticket_id;
      number = 0;
      title = title;
      description = description;
      state_id = c.definition.initial_state;
      assignee = none;
      pending_run = none;
      active_run = none;
      field_values = values;
      field_provenance = stamp_field_provenance c actor values;
      revision = 1;
      events = make_event c actor "opened" "Ticket created" ∷ [];
      created_at = c.now;
      updated_at = c.now;
      ref = some ref;
    };
    receipts = [];
  })
