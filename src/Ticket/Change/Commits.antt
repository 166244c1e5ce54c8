-- ===== src/Ticket/Change/Commits.antt =====
-- The changes of the service as mutations of the storage (tickets/service.py, storages/local.py).
use flowgency.Common.{leb, ◌∙◌, ◌≡◌, refl, true, false, none, some, [], ◌∷◌, ◌++◌, ok}
use flowgency.Ticket.Models.{
  Instant, TicketRecord, TicketEvent, TicketOperation, TicketRef, TicketMutationResult,
  find_receipt,
}
use flowgency.Ticket.Changes.{Context}
use flowgency.Ticket.Storage.{
  StorageEnv, Storage, stored, completes, max_ticket_bytes, read_document, advance, apply,
}
use flowgency.Ticket.Storage.Replay.{read_document-ref}
use flowgency.Ticket.Storage.Apply.{board_of, opened, read_after_write, put_board_same}
use flowgency.Ticket.Storage.Writes.{apply_writes}
use flowgency.Ticket.Storage.Commits.{Validates, commit_of, advance_total}
use flowgency.Ticket.Change.{Change, change}
use flowgency.Ticket.Change.Ownership.{change-Extends}

-- The storage can write the record, and reads it back.
abbrev pub IsWritable : StorageEnv → TicketRecord → Type 0
IsWritable env w =
    (leb (env.encoded_size w) max_ticket_bytes ≡ true)
    × (env.write_outcome w ≡ completes)
    × (env.persisted w ≡ stored w)

-- The step that `apply` takes before it writes refuses no accepted change: at the ticket's revision it
-- returns the record of the change with its one event finalized, the next revision and one receipt
-- more, if the body that the change gave and the body of that record validate to themselves. What the
-- write itself may refuse, a document that is too large or that cannot be written, comes after.
pub change-advance :
    (env : StorageEnv) (now : Instant) (c : Context) (ch : Change) (t u : TicketRecord)
    (operation : TicketOperation)
    → Validates env.runtime u.body
    → ((e : TicketEvent)
        → u.events ≡ t.events ++ (e ∷ [])
        → Validates env.runtime (commit_of env.runtime u t (e ∷ []) operation now).0.body)
    → change c ch t ≡ ok u
    → (e : TicketEvent) × (u.events ≡ t.events ++ (e ∷ []))
      × (advance env now t t.revision operation (change c ch)
          ≡ ok (commit_of env.runtime u t (e ∷ []) operation now))
change-advance env now c ch t u operation valid sealed h =
    let x = change-Extends c ch t u h in
    (
      x.event,
      x.history,
      advance_total env now t u (x.event ∷ []) operation (change c ch) valid
          (sealed x.event x.history) h x.identity x.history,
    )

-- An accepted change reaches the disk: `apply` returns a first result, and a read finds the ticket in
-- the state, with the assignee, the run and the values that the change gave it. This is if the ref is
-- admitted, the ledger does not hold the operation, the ticket is at the expected revision, the body
-- that the change gave validates to itself, and so does the body of the record of the step, which is
-- not too large, is written without a failure, and reads back as it was written.
pub change-apply :
    (env : StorageEnv) (now : Instant) (c : Context) (ch : Change) (st : Storage) (ref : TicketRef)
    (t u : TicketRecord) (operation : TicketOperation)
    → Validates env.runtime u.body
    → ((e : TicketEvent)
        → u.events ≡ t.events ++ (e ∷ [])
        → Validates env.runtime (commit_of env.runtime u t (e ∷ []) operation now).0.body
          × IsWritable env (commit_of env.runtime u t (e ∷ []) operation now).0)
    → opened env st ref ≡ ok tt
    → read_document (board_of st ref) ref ≡ ok t
    → find_receipt operation.operation_id t.receipts ≡ none
    → change c ch t ≡ ok u
    → let answer = apply env now st ref t.revision operation (change c ch) in
      (result : TicketMutationResult) × (answer.0 ≡ ok result)
      × (result.replayed ≡ false)
      × (after : TicketRecord) × (read_document (board_of answer.1 ref) ref ≡ ok after)
      × (after.state_id ≡ u.state_id)
      × (after.assignee ≡ u.assignee)
      × (after.active_run ≡ u.active_run)
      × (after.field_values ≡ u.field_values)
change-apply env now c ch st ref t u operation valid sealed open_now found new h =
    let (e, extends, advances) =
      change-advance env now c ch t u operation valid (λ e x. (sealed e x).0) h in
    let commit = commit_of env.runtime u t (e ∷ []) operation now in
    let (_, writable) = sealed e extends in
    let (small, completed, reads_back) = writable in
    let applied =
      apply_writes env now st ref t.revision operation (change c ch) t commit.0 commit.1 open_now
        found new advances small completed in
    let scoped : commit.0.ref ≡ some ref =
      (change-Extends c ch t u h).identity.ref_kept
      ∙ read_document-ref (board_of st ref) ref t found in
    (
      commit.1,
      rw applied refl,
      refl,
      commit.0,
      rw (applied, put_board_same st ref _, reads_back)
          (read_after_write (board_of st ref) ref commit.0 scoped),
      refl,
      refl,
      refl,
      refl,
    )
