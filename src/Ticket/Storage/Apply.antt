-- ===== src/Ticket/Storage/Apply.antt =====
-- `apply` as a whole, and a call of it that is repeated (tickets/storages/local.py).
use flowgency.Common.{
  ℕ, String, ◌≡◌, refl, sym, subst, ◌∙◌, ap, ap₂, true, some, arith, ◌==◌, eq_iff, ok, raise, ◌>>◌,
  require, >>=-eq-ok, Bool-cases, Option-cases, Outcome-cases, inl, inr,
}
use flowgency.Common.Dict.{lookup, insert, has_key, lookup-insert, has_key-insert, lookup-has_key}
use flowgency.Ticket.Models.{
  Instant, Fault, ticket, Attempt, ticket_conflict, stale_ticket, ticket_not_found, not_found,
  TicketRef, TicketReceipt, TicketRecord, TicketOperation, TicketMutationResult, find_receipt,
  require_digest, receipt_result,
}
use flowgency.Ticket.Storage.{
  Board, stored, Storage, StorageEnv, admit_ref, require_safe_metadata, lock_file, read_document,
  replay, apply_locked, apply, put_board, with_document,
}
use flowgency.Ticket.Storage.Ledger.{Advanced}
use flowgency.Ticket.Storage.Replay.{
  KeepsLedger, read_document-stored, find_receipt-append, again, receipt_result-Advanced, Steps,
  Applied, failed, replayed, unconfirmed, written, apply_locked-Applied,
}

abbrev pub board_of : Storage → TicketRef → Board
board_of st ref = st.boards ref.team_id ref.workflow_id

pub put_board_same :
    (st : Storage) (ref : TicketRef) (b : Board) → board_of (put_board st ref b) ref ≡ b
unfolding put_board
put_board_same st ref b =
    ground (arith, eq_iff ref.team_id ref.team_id, eq_iff ref.workflow_id ref.workflow_id)

-- Writing a board back as it was changes no board.
pub put_board_idle :
    (st : Storage) (ref : TicketRef) (team workflow : String)
    → (put_board st ref (board_of st ref)).boards team workflow ≡ st.boards team workflow
unfolding put_board
put_board_idle st ref team workflow = elim (Bool-cases (team == ref.team_id)) [
  | inr other ↦ rw other
  | inl same_team ↦ elim (Bool-cases (workflow == ref.workflow_id)) [
    | inr other ↦ rw (same_team, other)
    | inl same ↦
        rw (same_team, same)
          (ap₂ st.boards (sym ((eq_iff team ref.team_id).0 same_team))
            (sym ((eq_iff workflow ref.workflow_id).0 same)))
  ]
]

-- The checks before the ticket's lock is taken.
abbrev pub opened : StorageEnv → Storage → TicketRef → Attempt (Unit {0})
opened env st ref = do
  admit_ref env st.root ref
  require (has_key ref.ticket_id (st.boards ref.team_id ref.workflow_id).documents)
      (ticket ticket_not_found not_found)
  require_safe_metadata env ref (lock_file ref.ticket_id)

module _ (env : StorageEnv) (now : Instant) (st : Storage) (ref : TicketRef) (expected : ℕ)
    (operation : TicketOperation) (mutate : TicketRecord → Attempt TicketRecord) where
  pub apply_refused :
      (e : Fault)
      → opened env st ref ≡ raise e
      → apply env now st ref expected operation mutate ≡ (raise e, st)
  unfolding apply
  apply_refused e h = rw (h, apply)

  pub apply-opened :
      opened env st ref ≡ ok tt
      → let answer = apply_locked env now (board_of st ref) ref expected operation mutate in
        apply env now st ref expected operation mutate ≡ (answer.0, put_board st ref answer.1)
  unfolding apply
  apply-opened h = rw (h, apply)

opened_again :
    (env : StorageEnv) (st : Storage) (ref : TicketRef) (b : Board)
    → opened env st ref ≡ ok tt
    → has_key ref.ticket_id b.documents ≡ true
    → opened env (put_board st ref b) ref ≡ ok tt
unfolding put_board
opened_again env st ref b h k =
    let (u, e, rest) = >>=-eq-ok (admit_ref env st.root ref) _ h in
    let (u', e', lock) =
      >>=-eq-ok
        (require (has_key ref.ticket_id (st.boards ref.team_id ref.workflow_id).documents) _) _
        rest in
    ground (arith, eq_iff ref.team_id ref.team_id, eq_iff ref.workflow_id ref.workflow_id)

-- The result of a replay is marked as one.
replay-again :
    (env : StorageEnv) (operation : TicketOperation) (e : Fault) (previous : TicketReceipt)
    (result : TicketMutationResult)
    → replay env operation e (some previous) ≡ ok result
    → result ≡ again result
unfolding replay receipt_result
replay-again env operation e previous result h = ground arith

-- The receipt of an operation answers with its result.
replay-Advanced :
    (env : StorageEnv) (operation : TicketOperation) (e : Fault) (current updated : TicketRecord)
    (result : TicketMutationResult) (a : Advanced env.runtime operation current updated result)
    → replay env operation e (some a.receipt) ≡ ok (again result)
unfolding replay require_digest
replay-Advanced env operation e current updated result a =
    rw ((eq_iff a.receipt.request_digest operation.request_digest).1 a.digested)
      (receipt_result-Advanced env.runtime operation current updated result a)

-- The ledger answers for an operation that it holds.
locked_replay :
    (env : StorageEnv) (now : Instant) (board : Board) (ref : TicketRef) (expected : ℕ)
    (operation : TicketOperation) (mutate : TicketRecord → Attempt TicketRecord)
    (current : TicketRecord) (previous : TicketReceipt)
    → read_document board ref ≡ ok current
    → find_receipt operation.operation_id current.receipts ≡ some previous
    → apply_locked env now board ref expected operation mutate
      ≡ (replay env operation (ticket ticket_conflict stale_ticket) (some previous), board)
unfolding apply_locked
locked_replay env now board ref expected operation mutate current previous found old = ground arith

read_document-has_key :
    (board : Board) (ref : TicketRef) (t : TicketRecord)
    → read_document board ref ≡ ok t
    → has_key ref.ticket_id board.documents ≡ true
unfolding read_document
read_document-has_key board ref t h = elim (Option-cases (lookup ref.ticket_id board.documents)) [
  | inl missing ↦ ground arith
  | inr (document, found) ↦ lookup-has_key ref.ticket_id board.documents {v = document} found
]

-- A read after a write finds what was written.
pub read_after_write :
    (board : Board) (ref : TicketRef) (t : TicketRecord)
    → t.ref ≡ some ref
    → read_document (with_document board ref (stored t)) ref ≡ ok t
unfolding read_document
read_after_write board ref t scoped =
    rw (here_now, read_document)
      (λ i. ok (record t { body = record t.body { ref = sym scoped i } }))
  where
    here_now :
        lookup ref.ticket_id (insert ref.ticket_id (stored t) board.documents) ≡ some (stored t)
    here_now = ground (
      arith,
      lookup-insert ref.ticket_id ref.ticket_id (stored t) board.documents,
      eq_iff ref.ticket_id ref.ticket_id,
    )

module _ (env : StorageEnv) (later : Instant) (ref : TicketRef) (expected expected' : ℕ)
    (operation : TicketOperation) (mutate' : TicketRecord → Attempt TicketRecord)
    (keeps : KeepsLedger env) (board : Board) (result : TicketMutationResult)
    (kept : TicketRecord) where
  -- What is read after a step has the ledger of the step.
  written_ledger :
      (updated : TicketRecord)
      → read_document (with_document board ref (env.persisted updated)) ref ≡ ok kept
      → kept.receipts ≡ updated.receipts
  written_ledger updated reads =
      let (before, at, number, revision, receipts) =
        read_document-stored (with_document board ref (env.persisted updated)) ref kept reads in
      let same : env.persisted updated ≡ stored before = ground (
        arith,
        lookup-insert ref.ticket_id ref.ticket_id (env.persisted updated) board.documents,
        eq_iff ref.ticket_id ref.ticket_id,
      ) in
      let (_, _, ledger) = keeps updated before same in sym receipts ∙ ledger

  -- A written operation is in the ledger of the document that a read finds.
  replays_written :
      (current updated : TicketRecord)
      → Steps env ref expected operation board current updated result
      → let after = with_document board ref (env.persisted updated) in
        read_document after ref ≡ ok kept
        → (apply_locked env later after ref expected' operation mutate'
            ≡ (ok (again result), after))
          × (has_key ref.ticket_id after.documents ≡ true)
  replays_written current updated x reads =
      let held =
        ap (find_receipt operation.operation_id) (written_ledger updated reads ∙ x.advanced.ledger)
        ∙ find_receipt-append operation.operation_id current.receipts x.advanced.receipt x.new
            x.advanced.named in
      (
        locked_replay env later _ ref expected' operation mutate' kept x.advanced.receipt reads held
            ∙ ap
                (λ (y : Attempt TicketMutationResult).
                  (y, with_document board ref (env.persisted updated)))
                (replay-Advanced env operation _ current updated result x.advanced),
        has_key-insert ref.ticket_id (env.persisted updated) board.documents,
      )

  -- The repeated call under the lock, for each way in which the first one went.
  replays_locked :
      (answer : Attempt TicketMutationResult × Board)
      → Applied env ref expected operation board answer
      → answer.0 ≡ ok result
      → read_document answer.1 ref ≡ ok kept
      → (apply_locked env later answer.1 ref expected' operation mutate'
          ≡ (ok (again result), answer.1))
        × (has_key ref.ticket_id answer.1.documents ≡ true)
  replays_locked answer (failed e same) h reads = cc
  replays_locked answer (unconfirmed current updated r x late same) h reads = cc
  replays_locked answer (replayed current previous found old same) h reads =
      let stays : answer.1 ≡ board = ap (λ (p : Attempt TicketMutationResult × Board). p.1) same in
      let said : replay env operation (ticket ticket_conflict stale_ticket) (some previous)
          ≡ ok result =
        sym (ap (λ (p : Attempt TicketMutationResult × Board). p.0) same) ∙ h in
      let marked = replay-again env operation _ previous result said in
      rw stays (
        locked_replay env later board ref expected' operation mutate' current previous found old
            ∙ ap (λ (x : Attempt TicketMutationResult). (x, board)) (said ∙ ap ok marked),
        read_document-has_key board ref current found,
      )
  replays_locked answer (written current updated r x same) h reads =
      let wrote = ap (λ (p : Attempt TicketMutationResult × Board). p.1) same in
      let said : ok r ≡ ok result =
        sym (ap (λ (p : Attempt TicketMutationResult × Board). p.0) same) ∙ h in
      rw wrote (
        replays_written current updated
          (subst (λ y. Steps env ref expected operation board current updated y) (cc) x)
          (rw wrote at reads))

-- An operation that was accepted may be sent again, with whatever revision and mutation: the answer
-- is the first result, marked as replayed, and no board changes, if the ticket can be read after the
-- first call. A document that can be read back at all is taken to keep its number, revision and
-- ledger.
pub apply-replays :
    (env : StorageEnv) (now later : Instant) (st : Storage) (ref : TicketRef)
    (expected expected' : ℕ) (operation : TicketOperation)
    (mutate mutate' : TicketRecord → Attempt TicketRecord) (result : TicketMutationResult)
    (kept : TicketRecord)
    → KeepsLedger env
    → (apply env now st ref expected operation mutate).0 ≡ ok result
    → let st' = (apply env now st ref expected operation mutate).1 in
      read_document (board_of st' ref) ref ≡ ok kept
      → ((apply env later st' ref expected' operation mutate').0 ≡ ok (again result))
        × ((team workflow : String)
            → (apply env later st' ref expected' operation mutate').1.boards team workflow
              ≡ st'.boards team workflow)
apply-replays env now later st ref expected expected' operation mutate mutate' result kept keeps h
      reads =
    elim (Outcome-cases (opened env st ref)) [
      | inr (e, shut) ↦ absurd (
          refused-ok (
            sym (
              ap (λ (p : Attempt TicketMutationResult × Storage). p.0)
                (apply_refused env now st ref expected operation mutate e shut))
            ∙ h))
      | inl (u, open_now) ↦
          let locked = apply_locked env now (board_of st ref) ref expected operation mutate in
          let first = apply-opened env now st ref expected operation mutate open_now in
          let said : locked.0 ≡ ok result =
            sym (ap (λ (p : Attempt TicketMutationResult × Storage). p.0) first) ∙ h in
          let (repeat, key) =
            replays_locked env later ref expected expected' operation mutate' keeps
              (board_of st ref) result kept locked
              (apply_locked-Applied env now (board_of st ref) ref expected operation mutate) said
              (subst (λ b. read_document b ref ≡ ok kept)
                (ap (λ (p : Attempt TicketMutationResult × Storage). board_of p.1 ref) first
                  ∙ put_board_same st ref locked.1)
                reads) in
          rw (ap (λ (p : Attempt TicketMutationResult × Storage). p.1) first) (
            repeats (put_board st ref locked.1) locked.1 (put_board_same st ref locked.1)
              (opened_again env st ref locked.1 open_now key) repeat)
    ]
  where
    refused-ok : {e : Fault} → raise e ≡ ok result → ⊥
    refused-ok absurd_equation = cc

    repeats :
        (st' : Storage) (b : Board)
        → board_of st' ref ≡ b
        → opened env st' ref ≡ ok tt
        → apply_locked env later b ref expected' operation mutate' ≡ (ok (again result), b)
        → ((apply env later st' ref expected' operation mutate').0 ≡ ok (again result))
          × ((team workflow : String)
              → (apply env later st' ref expected' operation mutate').1.boards team workflow
                ≡ st'.boards team workflow)
    repeats st' b at open_then repeat =
        let same : apply_locked env later (board_of st' ref) ref expected' operation mutate'
            ≡ (ok (again result), board_of st' ref) =
          subst
            (λ x. apply_locked env later x ref expected' operation mutate' ≡ (ok (again result), x))
            (sym at) repeat in
        rw (apply-opened env later st' ref expected' operation mutate' open_then, same)
          (refl, put_board_idle st' ref)
