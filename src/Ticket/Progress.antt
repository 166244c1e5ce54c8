-- ===== src/Ticket/Progress.antt =====
-- flowgency/tickets/service.py and transitions.py, continued: the changes that read the workflow
-- definition, and the cleanup after a run that was stopped (jobs/processes.py).
use Prim.Native.String.{◌++◌ as append_text}
use flowgency.Common.{
  String, Bool, true, false, not, ◌&&◌, ◌||◌, Option, none, some, List, [], ◌∷◌, ◌++◌, ◌==◌,
  if◌then◌else◌, ok, raise, ◌>>=◌, ◌>>◌, require, or_raise, each,
}
use flowgency.Common.Dict.{Dict, lookup, update}
use flowgency.Workflow.Values.{FieldKind, FieldValue, ref, is_null, kind_matches_value, id, url}
use flowgency.Workflow.Definition.{
  WorkflowDefinition, ArtifactFormat, git_change, state, field, field_kinds,
}
use flowgency.Workflow.Rules.{EvaluatedTransition, evaluate_transition}
use flowgency.Ticket.Models.{
  ticket_conflict, ticket_evidence_invalid, unknown_field, invalid_field_value,
  git_evidence_untrusted, publication_policy_missing, unbound_record, ticket, Attempt, TicketRef,
  AgentTicketContext, FieldProvenance, TicketActor, agent_actor, user_actor, no_data,
  transition_data, report_data, TicketEvent, TicketRecord, or_else,
}
use flowgency.Ticket.Changes.{
  Context, TicketPatch, TransitionRequest, TicketReport, lift, require_active_owner, make_event,
  with_event, stamp_field_provenance,
}

unfoldable pub check_field_value : Dict FieldKind → String × FieldValue → Attempt (Unit {0})
check_field_value kinds (i, v) = elim (lookup i kinds) [
  | none ↦ raise (ticket ticket_conflict unknown_field)
  | some kind ↦
      require (is_null v || kind_matches_value kind v) (ticket ticket_conflict invalid_field_value)
]

-- TicketService._validate_field_values
unfoldable pub validate_field_values : WorkflowDefinition → Dict FieldValue → Attempt (Unit {0})
unfolding check_field_value
validate_field_values d values = each (check_field_value (field_kinds d)) values

abbrev pub git_format : Option ArtifactFormat → Bool
git_format none = false
git_format (some git_change) = true

-- TicketService._is_git_field: a field that is not declared is none.
unfoldable pub is_git_field : WorkflowDefinition → String → Bool
is_git_field d i = elim (field d i) [ raise e ↦ false | ok f ↦ git_format f.artifact_format ]

abbrev pub scope : TicketRecord → Attempt TicketRef
scope t = or_raise t.ref (ticket ticket_conflict unbound_record)

-- One round of `_require_trusted_git_values`, for a field of Git format with a value.
unfoldable pub require_trusted : Context → TicketRecord → FieldValue → Attempt (Unit {0})
require_trusted c t v = elim v [
  | ref artifact ↦ elim artifact.kind [
    | url ↦ raise (ticket ticket_evidence_invalid git_evidence_untrusted)
    | id ↦ do
      scoped ← scope t
      require c.team.git_publication (ticket ticket_conflict publication_policy_missing)
      c.provider.read_artifact scoped artifact.value
      c.provider.validate_git_artifact t artifact.value
  ]
  | _ ↦ raise (ticket ticket_evidence_invalid git_evidence_untrusted)
]

unfoldable pub require_trusted_git_value :
    Context → TicketRecord → String × FieldValue → Attempt (Unit {0})
unfolding require_trusted
require_trusted_git_value c t (i, v) =
    if is_null v || not (is_git_field c.definition i) then ok tt else require_trusted c t v

-- TicketService._require_trusted_git_values
unfoldable pub require_trusted_git_values :
    Context → TicketRecord → Dict FieldValue → Attempt (Unit {0})
unfolding require_trusted_git_value
require_trusted_git_values c t values = each (require_trusted_git_value c t) values

abbrev pub require_owner : TicketRecord → TicketActor → Attempt (Unit {0})
require_owner t (agent_actor a) = require_active_owner t a
require_owner t (user_actor u) = ok tt

-- The checks of a patch's field values.
unfoldable pub check_patch : Context → TicketRecord → Option (Dict FieldValue) → Attempt (Unit {0})
check_patch c t none = ok tt
check_patch c t (some values) = do
  validate_field_values c.definition values
  require_trusted_git_values c t values

abbrev pub patched {ℓ} : {V : Type ℓ} → Dict V → Option (Dict V) → Dict V
patched d none = d
patched d (some e) = update d e

abbrev pub stamped :
    Context → TicketActor → Option (Dict FieldValue) → Option (Dict FieldProvenance)
stamped c actor none = none
stamped c actor (some values) = some (stamp_field_provenance c actor values)

-- TicketService._update_record
unfoldable pub update_record :
    Context → TicketActor → TicketPatch → TicketRecord → Attempt TicketRecord
unfolding make_event check_patch
update_record c actor patch t = do
  require_owner t actor
  check_patch c t patch.field_values
  ok (
      with_event
        (record t {
          body = record t.body {
            title = or_else patch.title t.title;
            description = or_else patch.description t.description;
            field_values = patched t.field_values patch.field_values;
            field_provenance = patched t.field_provenance (stamped c actor patch.field_values);
          };
        })
        (make_event c actor "updated" "Ticket content updated"))

-- The ids of the retained artifacts among the values.
unfoldable pub internal_artifact_refs : Dict FieldValue → List String
internal_artifact_refs [] = []
internal_artifact_refs ((k, v) ∷ rest) =
    let others = internal_artifact_refs rest in
    elim v [
      | ref artifact ↦ elim artifact.kind [ id ↦ artifact.value ∷ others | url ↦ others ]
      | _ ↦ others
    ]

-- transition_event, with the event's id, time and context filled in as `_transition_record` does.
unfoldable pub transition_event :
    Context
    → AgentTicketContext
    → TicketRecord
    → EvaluatedTransition
    → String
    → String
    → TicketEvent
transition_event c actor t ev source_name destination_name = record {
  id = c.event_id;
  kind = "transitioned";
  actor = actor.agent_name;
  summary = append_text "Transition " (append_text ev.transition_snapshot.name " accepted");
  details = transition_data (record {
    evaluated = ev;
    transition_id = ev.transition_snapshot.id;
    transition_name = ev.transition_snapshot.name;
    source_state_id = t.state_id;
    destination_state_id = ev.destination_state_id;
    job_id = actor.job_id;
    session_id = actor.session_id;
    context = some (record {
      source_state_name = source_name;
      destination_state_name = destination_name;
      blueprint_id = c.definition.id;
      blueprint_name = c.definition.name;
      workflow_digest = c.workflow_digest;
      context_digest = c.context_digest;
      binding_id = c.binding_id;
      operation_id = c.operation_id;
      recorded_at = c.now;
    });
  });
  at = some c.now;
}

-- The ticket after an evaluated transition.
abbrev pub transitioned :
    Context → AgentTicketContext → TicketRecord → EvaluatedTransition → TicketEvent → TicketRecord
transitioned c actor t ev e =
    with_event
      (record t {
        body = record t.body {
          state_id = ev.destination_state_id;
          field_values = update t.field_values ev.effective_outputs;
          field_provenance =
              update t.field_provenance
                (stamp_field_provenance c (agent_actor actor) ev.effective_outputs);
        };
      })
      e

-- TicketService._transition_record
unfoldable pub transition_record :
    Context → AgentTicketContext → TransitionRequest → TicketRecord → Attempt TicketRecord
unfolding transition_event
transition_record c actor request t = do
  require_active_owner t actor
  ev ← lift (
      evaluate_transition c.definition request.transition_id t.state_id t.field_values
        request.inputs request.outputs request.assessments)
  scoped ← scope t
  require_trusted_git_values c t (update ev.effective_inputs ev.effective_outputs)
  each (c.provider.read_artifact scoped)
      (internal_artifact_refs ev.effective_inputs ++ internal_artifact_refs ev.effective_outputs)
  source ← lift (state c.definition t.state_id)
  destination ← lift (state c.definition ev.destination_state_id)
  ok (transitioned c actor t ev (transition_event c actor t ev source.name destination.name))

-- report_event, with what `_report_record` fills in.
unfoldable pub report_event :
    Context → AgentTicketContext → TicketRecord → TicketReport → String → TicketEvent
report_event c actor t report state_name = record {
  id = c.event_id;
  kind = "reported";
  actor = actor.agent_name;
  summary = report.message;
  details = report_data (record {
    message = report.message;
    assessments = report.assessments;
    job_id = actor.job_id;
    session_id = actor.session_id;
    context = some (record {
      state_id = t.state_id;
      state_name = state_name;
      workflow_digest = c.workflow_digest;
      context_digest = c.context_digest;
      binding_id = c.binding_id;
      operation_id = c.operation_id;
      recorded_at = c.now;
    });
  });
  at = some c.now;
}

-- TicketService._report_record
unfoldable pub report_record :
    Context → AgentTicketContext → TicketReport → TicketRecord → Attempt TicketRecord
unfolding report_event
report_record c actor report t = do
  require_active_owner t actor
  current ← lift (state c.definition t.state_id)
  ok (with_event t (report_event c actor t report current.name))

-- jobs/processes.py: the proof that a run's processes are gone.
pub record ProcessStopEvidence : Type 0 where
  pub job_id : String
  pub generation : String
  pub confirmed : Bool

unfoldable pub may_clear_active_work : TicketRecord → ProcessStopEvidence → Bool
may_clear_active_work t evidence = elim t.active_run [
  | none ↦ false
  | some run ↦
      evidence.confirmed && (run.job_id == evidence.job_id && run.session_id == evidence.generation)
]

unfoldable pub may_clear_pending : TicketRecord → ProcessStopEvidence → String → String → Bool
may_clear_pending t evidence job_id assignment_event_id = elim t.pending_run [
  | none ↦ false
  | some p ↦
      evidence.confirmed
      && (evidence.job_id == job_id
          && (p.job_id == job_id && p.assignment_event_id == assignment_event_id))
]

-- The change of `_cleanup_job_target`, with its two decisions.
unfoldable pub cleanup_record : Bool → Bool → TicketRecord → Attempt TicketRecord
cleanup_record clear_pending clear_active t = ok (
    with_event
      (record t {
        body = record t.body {
          pending_run = if clear_pending then none else t.pending_run;
          active_run = if clear_active then none else t.active_run;
        };
      })
      (record {
        id = "";
        kind = "ticket-run-cleanup";
        actor = "system";
        summary = "Ticket run cleanup confirmed";
        details = no_data;
        at = none;
      }))
