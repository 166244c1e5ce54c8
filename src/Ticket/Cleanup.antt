-- ===== src/Ticket/Cleanup.antt =====
-- flowgency/tickets/service.py, `_cleanup_job_target`: what is cleared of a ticket after the run of a
-- job was stopped, and on which evidence.
use Prim.Native.String.{◌++◌ as append_text}
use flowgency.Common.{
  String, ◌≡◌, Bool, true, false, not, ◌&&◌, Option, none, some, ◌==◌, if◌then◌else◌, ok, raise,
}
use flowgency.Ticket.Models.{
  Instant, Attempt, TicketRef, ActiveTicketRun, TicketRunReservation, TicketRecord, TicketOperation,
  TicketMutationResult,
}
use flowgency.Ticket.Progress.{
  ProcessStopEvidence, may_clear_active_work, may_clear_pending, cleanup_record,
}
use flowgency.Ticket.Storage.{StorageEnv, Storage, read, apply}

abbrev pub is_generation : Option String → String → Bool
is_generation none generation = false
is_generation (some expected) generation = expected == generation

unfoldable pub clears_active : TicketRecord → Option String → ProcessStopEvidence → Bool
clears_active t expected_generation stopped =
    is_generation expected_generation stopped.generation && may_clear_active_work t stopped

abbrev pub ticket_of : Attempt TicketMutationResult × Storage → Attempt TicketRecord × Storage
ticket_of (ok result, st) = (ok result.ticket, st)
ticket_of (raise e, st) = (raise e, st)

-- The digest of the request is a uuid5.
abbrev pub cleanup_operation : String → String → String → TicketOperation
cleanup_operation job_id generation digest = record {
  operation_id = append_text "cleanup-" (append_text job_id (append_text "-" generation));
  request_digest = digest;
}

unfoldable pub cleanup_job_target :
    StorageEnv
    → Instant
    → Storage
    → TicketRef
    → String
    → String
    → Option String
    → ProcessStopEvidence
    → String
    → Attempt TicketRecord × Storage
cleanup_job_target env now st ref job_id assignment_event_id expected_generation stopped digest =
    elim (read env st ref) [
      | raise e ↦ (raise e, st)
      | ok current ↦
          let clear_pending = may_clear_pending current stopped job_id assignment_event_id in
          let clear_active = clears_active current expected_generation stopped in
          if not clear_pending && not clear_active
          then (ok current, st)
          else ticket_of (
              apply env now st ref current.revision
                (cleanup_operation job_id stopped.generation digest)
                (cleanup_record clear_pending clear_active))
    ]

-- The evidence is confirmed and names the active run, which is also the run that was expected.
abbrev pub NamesRun : TicketRecord → Option String → ProcessStopEvidence → Type 0
NamesRun t expected_generation stopped =
    (run : ActiveTicketRun) × (t.active_run ≡ some run)
    × (stopped.confirmed ≡ true)
    × (run.job_id ≡ stopped.job_id)
    × (run.session_id ≡ stopped.generation)
    × (expected_generation ≡ some stopped.generation)

-- The evidence is confirmed and of the job that has the reservation, made by the assignment.
abbrev pub NamesReservation : TicketRecord → String → String → ProcessStopEvidence → Type 0
NamesReservation t job_id assignment_event_id stopped =
    (p : TicketRunReservation) × (t.pending_run ≡ some p)
    × (stopped.confirmed ≡ true)
    × (p.job_id ≡ job_id)
    × (stopped.job_id ≡ job_id)
    × (p.assignment_event_id ≡ assignment_event_id)
