-- ===== src/Ticket/Change.antt =====
-- The changes of the ticket service as one type (tickets/service.py).

pub mod Effects
pub mod Ownership
pub mod Moves
pub mod Commits
pub mod Types
use flowgency.Common.{
  String, ◌≡◌, Bool, Option, List, [], ◌∷◌, ◌++◌, ok, raise, ◌>>=◌, ◌>>◌, >>=-eq-ok,
}
use flowgency.Ticket.Models.{
  Attempt, AgentTicketContext, UserTicketContext, TicketActor, TicketEvent, TicketRecord,
}
use flowgency.Ticket.Changes.{
  Context, TicketPatch, TransitionRequest, TicketReport, assign_record, start_work_record,
  end_work_record, sign_off_record,
}
use flowgency.Ticket.Progress.{update_record, transition_record, report_record, cleanup_record}

pub data Change : Type 0 where
  assigns : UserTicketContext → Option String → Change
  starts : AgentTicketContext → Change
  ends : AgentTicketContext → Change
  signs_off : AgentTicketContext → Change
  updates : TicketActor → TicketPatch → Change
  transitions : AgentTicketContext → TransitionRequest → Change
  reports : AgentTicketContext → TicketReport → Change
  cleans : Bool → Bool → Change

-- The function that the service hands to `apply`.
unfoldable pub change : Context → Change → TicketRecord → Attempt TicketRecord
change c (assigns actor assignee) = assign_record c actor assignee
change c (starts actor) = start_work_record c actor
change c (ends actor) = end_work_record c actor
change c (signs_off actor) = sign_off_record c actor
change c (updates actor patch) = update_record c actor patch
change c (transitions actor request) = transition_record c actor request
change c (reports actor report) = report_record c actor report
change c (cleans pending active) = cleanup_record pending active
