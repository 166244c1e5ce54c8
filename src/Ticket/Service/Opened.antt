-- ===== src/Ticket/Service/Opened.antt =====
-- The record that the service opens a ticket with.
use flowgency.Common.{arith, String, ◌≡◌, none, [], ok, each, >>=-eq-ok, All-each}
use flowgency.Common.Dict.{Dict}
use flowgency.Workflow.Values.{FieldValue}
use flowgency.Workflow.Definition.{model_validate, field_kinds}
use flowgency.Workflow.Validity.{model_validate-IsValid}
use flowgency.Ticket.Models.{TicketRef, TicketActor, TicketRecord}
use flowgency.Ticket.Changes.{Context}
use flowgency.Ticket.Progress.{check_field_value, validate_field_values}
use flowgency.Ticket.Typing.{IsTyped}
use flowgency.Ticket.Change.Types.{checked-Entries}
use flowgency.Ticket.Service.{new_record, require_no_evidence}

-- Under a validated definition, a ticket that is opened stands in a declared state with typed values,
-- is assigned to nobody, has no active run and no reservation, and has an empty ledger.
pub new_record-IsTyped :
    (c : Context) (actor : TicketActor) (title description : String) (values : Dict FieldValue)
    (ticket_id : String) (ref : TicketRef) (t : TicketRecord)
    → model_validate c.definition ≡ ok tt
    → new_record c actor title description values ticket_id ref ≡ ok t
    → IsTyped c.definition t
      × (t.assignee ≡ none)
      × (t.active_run ≡ none)
      × (t.pending_run ≡ none)
      × (t.receipts ≡ [])
unfolding new_record validate_field_values
new_record-IsTyped c actor title description values ticket_id ref t valid h =
    let (u, checked, rest) =
      >>=-eq-ok (each (check_field_value (field_kinds c.definition)) values) _ h in
    let (w, clean, built) = >>=-eq-ok (each (require_no_evidence c.definition) values) _ rest in
    let v = (model_validate-IsValid c.definition).0 valid in
    (
      record {
        placed = ground (arith, v.initial_declared);
        typed = ground (arith, checked-Entries c.definition values (All-each _ values checked));
      },
      ground arith,
      ground arith,
      ground arith,
      ground arith,
    )
