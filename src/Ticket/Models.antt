-- ===== src/Ticket/Models.antt =====
-- flowgency/tickets/models.py and errors.py: the durable ticket, its events and its ledger of
-- receipts. A datetime is a number of microseconds. The dictionary `data` of an event is one of the
-- shapes that the service writes.
use flowgency.Common.{
  ℕ, suc, ◌+◌, String, Bool, false, Option, none, some, List, [], ◌∷◌, ◌++◌, ◌==◌, if◌then◌else◌,
  holds, length, take, drop, Outcome, ok, ◌>>=◌, ◌>>◌, require, ℕ_discrete, String-discrete,
}
use flowgency.Common.Dict.{Dict}
use flowgency.Workflow.Values.{FieldValue, ContractError}
use flowgency.Workflow.Definition.{CriterionAssessment}
use flowgency.Workflow.Rules.{EvaluatedTransition}

abbrev pub Instant : Type 0
Instant = ℕ

-- The classes of TicketStorageError.
pub data ErrorClass : Type 0 where
  ticket_not_found storage_unavailable ticket_corrupt ticket_too_large ticket_conflict : ErrorClass
  operation_conflict ticket_forbidden ticket_evidence_invalid workflow_unavailable : ErrorClass

unfoldable pub http_status : ErrorClass → ℕ
http_status ticket_not_found = 404
http_status storage_unavailable = 503
http_status ticket_corrupt = 500
http_status ticket_too_large = 413
http_status ticket_conflict = 409
http_status operation_conflict = 409
http_status ticket_forbidden = 403
http_status ticket_evidence_invalid = 422
http_status workflow_unavailable = 503

pub data Reason : Type 0 where
  event_history_changed operation_digest_mismatch binding_mismatch unsafe_path missing_root : Reason
  unreadable_root corrupt_record ticket_too_large_reason write_failed identity_changed : Reason
  not_found unreadable_ticket oversized_record corrupt_sequence unbound_record : Reason
  duplicate_ticket stale_ticket forbidden wrong_team unknown_agent invalid_agent_context : Reason
  assigned_elsewhere not_working already_working already_queued unknown_field : Reason
  invalid_field_value git_evidence_untrusted publication_policy_missing unknown_workflow : Reason
  unavailable_workflow external : Reason

-- What the ticket code raises: its own errors, and those of the workflow rules.
pub data Fault : Type 0 where
  ticket : ErrorClass → Reason → Fault
  contract : ContractError → Fault

abbrev pub Attempt : Type 0 → Type 0
Attempt A = Outcome Fault A

pub record TicketRef : Type 0 where
  pub binding_id : String
  pub team_id : String
  pub workflow_id : String
  pub ticket_id : String

pub record ActiveTicketRun : Type 0 where
  pub job_id : String
  pub session_id : String
  pub started_at : Instant

pub record TicketRunReservation : Type 0 where
  pub job_id : String
  pub request_id : String
  pub assignee : String
  pub assignment_event_id : String

pub data ActorKind : Type 0 where
  user agent : ActorKind

pub record FieldProvenance : Type 0 where
  pub actor_kind : ActorKind
  pub actor_name : String
  pub job_id : Option String
  pub event_id : String
  pub recorded_at : Instant

pub record AgentTicketContext : Type 0 where
  pub job_id : String
  pub team_id : String
  pub agent_name : String
  pub session_id : String

pub record UserTicketContext : Type 0 where
  pub team_id : String
  pub actor_name : String

pub data TicketActor : Type 0 where
  agent_actor : AgentTicketContext → TicketActor
  user_actor : UserTicketContext → TicketActor

-- What the service adds to the data of a transition.
pub record TransitionContext : Type 0 where
  pub source_state_name : String
  pub destination_state_name : String
  pub blueprint_id : String
  pub blueprint_name : String
  pub workflow_digest : String
  pub context_digest : String
  pub binding_id : String
  pub operation_id : String
  pub recorded_at : Instant

pub record TransitionPayload : Type 0 where
  pub evaluated : EvaluatedTransition
  pub transition_id : String
  pub transition_name : String
  pub source_state_id : String
  pub destination_state_id : String
  pub job_id : String
  pub session_id : String
  pub context : Option TransitionContext

pub record ReportContext : Type 0 where
  pub state_id : String
  pub state_name : String
  pub workflow_digest : String
  pub context_digest : String
  pub binding_id : String
  pub operation_id : String
  pub recorded_at : Instant

pub record ReportPayload : Type 0 where
  pub message : String
  pub assessments : List CriterionAssessment
  pub job_id : String
  pub session_id : String
  pub context : Option ReportContext

pub data EventData : Type 0 where
  no_data : EventData
  job_data : String → EventData
  transition_data : TransitionPayload → EventData
  report_data : ReportPayload → EventData

pub record TicketEvent : Type 0 where
  pub id : String
  pub kind : String
  pub actor : String
  pub summary : String
  pub details : EventData
  pub at : Option Instant

pub TicketEvent-discrete : Discrete TicketEvent
TicketEvent-discrete = hlevel (String-discrete, ℕ_discrete)

-- A ticket without its ledger: what a receipt keeps as its snapshot.
pub record TicketBody : Type 0 where
  pub id : String
  pub number : ℕ
  pub title : String
  pub description : String
  pub state_id : String
  pub assignee : Option String
  pub pending_run : Option TicketRunReservation
  pub active_run : Option ActiveTicketRun
  pub field_values : Dict FieldValue
  pub field_provenance : Dict FieldProvenance
  pub revision : ℕ
  pub events : List TicketEvent
  pub created_at : Instant
  pub updated_at : Instant
  pub ref : Option TicketRef

pub record TicketReceipt : Type 0 where
  pub operation_id : String
  pub request_digest : String
  pub at : Instant
  pub event_id : String
  pub snapshot : TicketBody

pub TicketReceipt-discrete : Discrete TicketReceipt
TicketReceipt-discrete = hlevel (String-discrete, ℕ_discrete)

pub TicketRef-discrete : Discrete TicketRef
TicketRef-discrete = hlevel String-discrete

pub ref_discrete : Discrete (Option TicketRef)
ref_discrete = hlevel TicketRef-discrete

pub record TicketRecord : Type 0 where
  pub body : TicketBody
  pub open body use *
  pub receipts : List TicketReceipt

pub record TicketOperation : Type 0 where
  pub operation_id : String
  pub request_digest : String

pub record TicketMutationResult : Type 0 where
  pub ticket : TicketRecord
  pub replayed : Bool
  pub event_id : String

-- What the models call and do not define: the uuid4 that is drawn for the n-th new event of a
-- commit, and pydantic's `model_validate(model_dump())` of a ticket.
pub record Runtime : Type 0 where
  pub fresh_id : ℕ → String
  pub revalidate : TicketBody → Attempt TicketBody

-- Validating the snapshot of a receipt, whose ledger is empty.
unfoldable pub load_snapshot : Runtime → TicketBody → Attempt TicketRecord
load_snapshot rt snapshot = do
  body ← rt.revalidate snapshot
  ok (record { body = body; receipts = [] })

unfoldable pub find_receipt : String → List TicketReceipt → Option TicketReceipt
find_receipt operation_id [] = none
find_receipt operation_id (r ∷ rs) =
    if r.operation_id == operation_id then some r else find_receipt operation_id rs

unfoldable pub require_digest : TicketReceipt → String → Attempt (Unit {0})
require_digest r digest =
    require (r.request_digest == digest) (ticket operation_conflict operation_digest_mismatch)

-- TicketReceipt.result
unfoldable pub receipt_result : Runtime → TicketReceipt → Bool → Attempt TicketMutationResult
unfolding load_snapshot
receipt_result rt r replayed = do
  t ← load_snapshot rt r.snapshot
  ok (record { ticket = t; replayed = replayed; event_id = r.event_id })

abbrev pub or_else {ℓ} : {A : Type ℓ} → Option A → A → A
or_else none d = d
or_else (some a) d = a

abbrev pub or_fresh : String → String → String
or_fresh i fresh = if i == "" then fresh else i

-- The events beyond the history get an id and a time where they lack one.
unfoldable pub finalize_new : Runtime → Instant → ℕ → List TicketEvent → List TicketEvent
finalize_new rt now n [] = []
finalize_new rt now n (e ∷ rest) =
    record e { id = or_fresh e.id (rt.fresh_id n); at = some (or_else e.at now) }
    ∷ finalize_new rt now (suc n) rest

-- finalized[-1].id if finalized else ""
unfoldable pub last_event_id : List TicketEvent → String
last_event_id [] = ""
last_event_id (e ∷ []) = e.id
last_event_id (e ∷ f ∷ rest) = last_event_id (f ∷ rest)

pub events_discrete : Discrete (List TicketEvent)
events_discrete = hlevel TicketEvent-discrete

pub receipts_discrete : Discrete (List TicketReceipt)
receipts_discrete = hlevel TicketReceipt-discrete

-- _finalize_events
unfoldable pub finalize_events :
    Runtime → Instant → List TicketEvent → List TicketEvent → Attempt (List TicketEvent × String)
unfolding finalize_new last_event_id
finalize_events rt now current candidate = do
  require (holds (events_discrete (take (length current) candidate) current))
      (ticket ticket_conflict event_history_changed)
  let finalized = current ++ finalize_new rt now 0 (drop (length current) candidate)
  ok (finalized, last_event_id finalized)

-- seal_operation: the ledger grows by the receipt of this operation.
unfoldable pub seal_operation :
    Runtime
    → TicketRecord
    → TicketOperation
    → Instant
    → String
    → Attempt (TicketRecord × TicketMutationResult)
unfolding load_snapshot
seal_operation rt r operation now event_id = do
  loaded ← load_snapshot rt r.body
  let receipt : TicketReceipt = record {
    operation_id = operation.operation_id;
    request_digest = operation.request_digest;
    at = now;
    event_id = event_id;
    snapshot = r.body;
  }
  ok (
    record r { receipts = r.receipts ++ (receipt ∷ []) },
    record { ticket = loaded; replayed = false; event_id = event_id },
  )

unfoldable pub commit_creation :
    Runtime
    → TicketRecord
    → TicketOperation
    → Instant
    → Attempt (TicketRecord × TicketMutationResult)
unfolding finalize_events seal_operation
commit_creation rt r operation now = do
  final ← finalize_events rt now [] r.events
  seal_operation rt (record r { body = record r.body { events = final.0 } }) operation now final.1

unfoldable pub commit_operation :
    Runtime
    → TicketRecord
    → TicketRecord
    → TicketOperation
    → Instant
    → Attempt (TicketRecord × TicketMutationResult)
unfolding finalize_events seal_operation
commit_operation rt r current operation now = do
  final ← finalize_events rt now current.events r.events
  seal_operation rt
      (record r {
        body = record r.body {
          revision = current.revision + 1;
          updated_at = now;
          events = final.0;
        };
      })
      operation now final.1
