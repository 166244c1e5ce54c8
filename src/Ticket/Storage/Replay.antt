-- ===== src/Ticket/Storage/Replay.antt =====
-- The ways in which a call of `apply` goes under the lock, and its ledger (storages/local.py).
use flowgency.Common.{
  ℕ, String, ◌⊎◌, ◌≡◌, refl, true, none, some, List, [], ◌∷◌, ◌++◌, arith, eq_iff, ok, raise,
  Bool-cases, Option-cases, Outcome-cases, inl, inr, leb,
}
use flowgency.Common.Dict.{lookup}
use flowgency.Ticket.Models.{
  Instant, Fault, ticket, Attempt, ticket_conflict, stale_ticket, storage_unavailable, write_failed,
  ticket_too_large, ticket_too_large_reason, TicketRef, TicketReceipt, TicketRecord,
  TicketOperation, TicketMutationResult, Runtime, find_receipt, receipt_result,
}
use flowgency.Ticket.Storage.{
  WriteOutcome, completes, fails_before, fails_after, Board, stored, StorageEnv, read_document,
  with_document, save, replay, advance, apply_locked,
}
use flowgency.Ticket.Storage.Ledger.{Advanced, advance-Advanced}

-- If a written record can be read back at all, its number and ledger are as written.
abbrev pub KeepsLedger : StorageEnv → Type 0
KeepsLedger env =
    (t u : TicketRecord)
    → env.persisted t ≡ stored u
    → (u.number ≡ t.number) × (u.revision ≡ t.revision) × (u.receipts ≡ t.receipts)

-- The document behind a read.
pub read_document-stored :
    (b : Board) (ref : TicketRef) (current : TicketRecord)
    → read_document b ref ≡ ok current
    → (t : TicketRecord) × (lookup ref.ticket_id b.documents ≡ some (stored t))
      × (t.number ≡ current.number)
      × (t.revision ≡ current.revision)
      × (t.receipts ≡ current.receipts)
unfolding read_document
read_document-stored b ref current h = ground arith

pub find_receipt-append :
    (i : String) (rs : List TicketReceipt) (r : TicketReceipt)
    → find_receipt i rs ≡ none
    → r.operation_id ≡ i
    → find_receipt i (rs ++ (r ∷ [])) ≡ some r
unfolding find_receipt
find_receipt-append i [] r new e = ground (arith, eq_iff r.operation_id i)
find_receipt-append i (x ∷ xs) r new e = ground (arith, find_receipt-append i xs r)

-- The replayed result is the first one, marked.
abbrev pub again : TicketMutationResult → TicketMutationResult
again result = record result { replayed = true }

pub receipt_result-Advanced :
    (rt : Runtime) (operation : TicketOperation) (current updated : TicketRecord)
    (result : TicketMutationResult) (a : Advanced rt operation current updated result)
    → receipt_result rt a.receipt true ≡ ok (again result)
unfolding receipt_result
receipt_result-Advanced rt operation current updated result a = rw (a.snapped, a.loaded, a.evented)

-- A read scopes the record to its ref.
pub read_document-ref :
    (board : Board) (ref : TicketRef) (t : TicketRecord)
    → read_document board ref ≡ ok t
    → t.ref ≡ some ref
unfolding read_document
read_document-ref board ref t h = ground arith

abbrev pub unwritten : Fault
unwritten = ticket storage_unavailable write_failed

-- A write fails and leaves the board, or fails when the document is in place, or succeeds.
pub save_cases :
    (env : StorageEnv) (board : Board) (ref : TicketRef) (t : TicketRecord)
    (result : TicketMutationResult)
    → let after = with_document board ref (env.persisted t) in
      ((e : Fault) × (save env board ref t result ≡ (raise e, board)))
      ⊎ ((env.write_outcome t ≡ fails_after)
          × (save env board ref t result ≡ (raise unwritten, after)))
      ⊎ (save env board ref t result ≡ (ok result, after))
unfolding save
save_cases env board ref t result = elim (Bool-cases (leb (env.encoded_size t) 524288)) [
  | inr large ↦ inl (ticket ticket_too_large ticket_too_large_reason, rw large)
  | inl small ↦ by_outcome small (env.write_outcome t) refl
]
  where
    by_outcome :
        leb (env.encoded_size t) 524288 ≡ true
        → (w : WriteOutcome) → env.write_outcome t ≡ w
        → ((e : Fault) × (save env board ref t result ≡ (raise e, board)))
          ⊎ ((env.write_outcome t ≡ fails_after)
              × (save env board ref t result
                  ≡ (raise unwritten, with_document board ref (env.persisted t))))
          ⊎ (save env board ref t result ≡ (ok result, with_document board ref (env.persisted t)))
    by_outcome small completes e = inr (inr (rw (save, small, e) refl))
    by_outcome small fails_before e = inl (unwritten, rw (save, small, e) refl)
    by_outcome small fails_after e = inr (inl (e, rw (save, small, e) refl))

-- What a step writes: the sealed record of an advance of the record that was read.
pub record Steps (env : StorageEnv) (ref : TicketRef) (expected : ℕ) (operation : TicketOperation)
    (board : Board) (current updated : TicketRecord) (result : TicketMutationResult) : Type 0 where
  pub found : read_document board ref ≡ ok current
  pub new : find_receipt operation.operation_id current.receipts ≡ none
  pub fresh : current.revision ≡ expected
  pub advanced : Advanced env.runtime operation current updated result

-- Either the ledger answers, or a fault leaves the board as it was, or one step is written, and the
-- answer is its result, or a fault when the document was in place.
pub data Applied (env : StorageEnv) (ref : TicketRef) (expected : ℕ) (operation : TicketOperation)
    (board : Board) (answer : Attempt TicketMutationResult × Board) : Type 0 where
  failed : (e : Fault) → answer ≡ (raise e, board) → Applied env ref expected operation board answer
  replayed :
      (current : TicketRecord) (previous : TicketReceipt)
      → read_document board ref ≡ ok current
      → find_receipt operation.operation_id current.receipts ≡ some previous
      → answer ≡ (replay env operation (ticket ticket_conflict stale_ticket) (some previous), board)
      → Applied env ref expected operation board answer
  unconfirmed :
      (current updated : TicketRecord) (result : TicketMutationResult)
      → Steps env ref expected operation board current updated result
      → env.write_outcome updated ≡ fails_after
      → answer ≡ (raise unwritten, with_document board ref (env.persisted updated))
      → Applied env ref expected operation board answer
  written :
      (current updated : TicketRecord) (result : TicketMutationResult)
      → Steps env ref expected operation board current updated result
      → answer ≡ (ok result, with_document board ref (env.persisted updated))
      → Applied env ref expected operation board answer

module _ (env : StorageEnv) (now : Instant) (board : Board) (ref : TicketRef) (expected : ℕ)
    (operation : TicketOperation) (mutate : TicketRecord → Attempt TicketRecord) where
  pub apply_locked-Applied :
      Applied env ref expected operation board
        (apply_locked env now board ref expected operation mutate)
  unfolding apply_locked
  apply_locked-Applied = elim (Outcome-cases (read_document board ref)) [
    | inr (e, unread) ↦ failed e (ground arith)
    | inl (current, found) ↦
        elim (Option-cases (find_receipt operation.operation_id current.receipts)) [
          | inr (previous, old) ↦ replayed current previous found old (ground arith)
          | inl new ↦ elim (Outcome-cases (advance env now current expected operation mutate)) [
            | inr (e, refused) ↦ failed e (ground arith)
            | inl ((updated, result), moved) ↦
                let (fresh, a) =
                  advance-Advanced env now current expected operation mutate updated result moved in
                let steps : Steps env ref expected operation board current updated result = record {
                  found = found;
                  new = new;
                  fresh = fresh;
                  advanced = a;
                } in
                elim (save_cases env board ref updated result) [
                  | inl (e, unsaved) ↦ failed e (ground arith)
                  | inr (inl (late, unsure)) ↦
                      unconfirmed current updated result steps late (ground arith)
                  | inr (inr saved) ↦ written current updated result steps (ground arith)
                ]
          ]
        ]
  ]
