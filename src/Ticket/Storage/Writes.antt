-- ===== src/Ticket/Storage/Writes.antt =====
-- A call of `apply` that comes to its write (tickets/storages/local.py).
use flowgency.Common.{ℕ, ◌≡◌, refl, ◌∙◌, true, none, leb, ok}
use flowgency.Ticket.Models.{
  Instant, Attempt, TicketRef, TicketRecord, TicketOperation, TicketMutationResult, find_receipt,
}
use flowgency.Ticket.Storage.{
  Storage, StorageEnv, max_ticket_bytes, read_document, save, advance, apply_locked, apply,
  put_board, with_document, completes,
}
use flowgency.Ticket.Storage.Apply.{board_of, opened, apply-opened}

module _ (env : StorageEnv) (now : Instant) (st : Storage) (ref : TicketRef) (expected : ℕ)
    (operation : TicketOperation) (mutate : TicketRecord → Attempt TicketRecord)
    (current updated : TicketRecord) (result : TicketMutationResult) where
  locked_writes :
      read_document (board_of st ref) ref ≡ ok current
      → find_receipt operation.operation_id current.receipts ≡ none
      → advance env now current expected operation mutate ≡ ok (updated, result)
      → leb (env.encoded_size updated) max_ticket_bytes ≡ true
      → env.write_outcome updated ≡ completes
      → apply_locked env now (board_of st ref) ref expected operation mutate
        ≡ (ok result, with_document (board_of st ref) ref (env.persisted updated))
  unfolding apply_locked save
  locked_writes found new advances small written =
      rw (apply_locked, found, new, advances, save, small, written) refl

  pub apply_writes :
      opened env st ref ≡ ok tt
      → read_document (board_of st ref) ref ≡ ok current
      → find_receipt operation.operation_id current.receipts ≡ none
      → advance env now current expected operation mutate ≡ ok (updated, result)
      → leb (env.encoded_size updated) max_ticket_bytes ≡ true
      → env.write_outcome updated ≡ completes
      → apply env now st ref expected operation mutate ≡ (
        ok result,
        put_board st ref (with_document (board_of st ref) ref (env.persisted updated)),
      )
  apply_writes open_now found new advances small written =
      apply-opened env now st ref expected operation mutate open_now
      ∙ rw (locked_writes found new advances small written) refl
