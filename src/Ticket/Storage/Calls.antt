-- ===== src/Ticket/Storage/Calls.antt =====
-- Any sequence of calls on the storage, each one step under its locks.
use flowgency.Common.{
  ℕ, String, ◌≡◌, ◌&&◌, none, List, [], ◌∷◌, arith, ◌==◌, ◌>>◌, Bool-cases, Option-cases,
  Outcome-cases, inl, inr, All,
}
use flowgency.Common.Dict.{lookup}
use flowgency.Ticket.Models.{Instant, Attempt, TicketRef, TicketRecord, TicketOperation}
use flowgency.Ticket.Storage.{
  Board, Storage, StorageEnv, admit_ref, require_safe_metadata, namespace_lock_file, create, apply,
  put_board, ready,
}
use flowgency.Ticket.Storage.Replay.{KeepsLedger, apply_locked-Applied}
use flowgency.Ticket.Storage.Apply.{board_of, opened, apply_refused, apply-opened}
use flowgency.Ticket.Storage.Numbers.{IsSound, Applied-IsSound, create_locked-IsSound}

-- A creation, or an operation on a ticket with the change that it makes.
pub data Call : Type 0 where
  creates : TicketRecord → TicketOperation → Call
  applies : TicketRef → ℕ → TicketOperation → (TicketRecord → Attempt TicketRecord) → Call

unfoldable pub step : StorageEnv → Storage → Instant × Call → Storage
step env st (now, creates t operation) = (create env now st t operation).1
step env st (now, applies ref expected operation mutate) =
    (apply env now st ref expected operation mutate).1

unfoldable pub run : StorageEnv → Storage → List (Instant × Call) → Storage
unfolding step
run env st [] = st
run env st (c ∷ cs) = run env (step env st c) cs

-- A ticket is offered for creation with no receipts, as the service does.
abbrev pub StartsEmpty : Instant × Call → Type 0
StartsEmpty (now, creates t operation) = t.receipts ≡ []
StartsEmpty (now, applies ref expected operation mutate) = Unit

abbrev pub IsSoundStore : Storage → Type 0
IsSoundStore st = (team workflow : String) → IsSound (st.boards team workflow)

put_board-IsSound :
    (st : Storage) (ref : TicketRef) (b : Board)
    → IsSound b
    → IsSoundStore st
    → IsSoundStore (put_board st ref b)
unfolding put_board
put_board-IsSound st ref b s all team workflow =
    elim (Bool-cases (team == ref.team_id && workflow == ref.workflow_id)) [
      | inl here ↦ rw here s
      | inr elsewhere ↦ rw elsewhere (all team workflow)
    ]

apply-IsSound :
    (env : StorageEnv) (now : Instant) (st : Storage) (ref : TicketRef) (expected : ℕ)
    (operation : TicketOperation) (mutate : TicketRecord → Attempt TicketRecord)
    → KeepsLedger env
    → IsSoundStore st
    → IsSoundStore (apply env now st ref expected operation mutate).1
apply-IsSound env now st ref expected operation mutate keeps all =
    elim (Outcome-cases (opened env st ref)) [
      | inr (e, shut) ↦ rw (apply_refused env now st ref expected operation mutate e shut) all
      | inl (u, open_now) ↦ rw (apply-opened env now st ref expected operation mutate open_now) (
          put_board-IsSound st ref _
            (Applied-IsSound env ref expected operation (board_of st ref) _ keeps
              (apply_locked-Applied env now (board_of st ref) ref expected operation mutate)
              (all ref.team_id ref.workflow_id))
            all)
    ]

create-IsSound :
    (env : StorageEnv) (now : Instant) (st : Storage) (t : TicketRecord)
    (operation : TicketOperation)
    → KeepsLedger env
    → t.receipts ≡ []
    → IsSoundStore st
    → IsSoundStore (create env now st t operation).1
unfolding create
create-IsSound env now st t operation keeps empty all = elim (Option-cases t.ref) [
  | inl unscoped ↦ rw (unscoped, create) all
  | inr (ref, scoped) ↦
      elim (Outcome-cases
        (admit_ref env st.root ref >> require_safe_metadata env ref namespace_lock_file)) [
          | inr (e, shut) ↦ rw (scoped, create, shut) all
          | inl (u, open_now) ↦
              rw (scoped, create, open_now)
                (put_board-IsSound st ref _
                  (create_locked-IsSound env now (board_of st ref) ref t operation keeps empty
                    (all ref.team_id ref.workflow_id))
                  all)
        ]
]

step-IsSound :
    (env : StorageEnv) (st : Storage) (c : Instant × Call)
    → KeepsLedger env
    → StartsEmpty c
    → IsSoundStore st
    → IsSoundStore (step env st c)
unfolding step
step-IsSound env st (now, creates t operation) keeps empty all =
    create-IsSound env now st t operation keeps empty all
step-IsSound env st (now, applies ref expected operation mutate) keeps empty all =
    apply-IsSound env now st ref expected operation mutate keeps all

-- After any calls, in any order and whatever the mutations attempt, the readable tickets of each
-- board have one receipt for each revision, no operation twice in a ledger, and numbers that are
-- distinct and at most the board's sequence; if it was so before, new tickets bring no receipts, and
-- what can be read back has the number and ledger that were written.
pub run-IsSound :
    (env : StorageEnv) (st : Storage) (calls : List (Instant × Call))
    → KeepsLedger env
    → All StartsEmpty calls
    → IsSoundStore st
    → IsSoundStore (run env st calls)
unfolding run
run-IsSound env st [] keeps starts all = all
run-IsSound env st (c ∷ cs) keeps starts all =
    run-IsSound env (step env st c) cs keeps starts.1 (step-IsSound env st c keeps starts.0 all)

-- A root with no board yet.
abbrev pub empty_storage : Storage
empty_storage = record {
  root = ready;
  boards = λ team workflow. record { documents = []; sequence = none };
}

pub empty_storage-IsSoundStore : IsSoundStore empty_storage
unfolding lookup
empty_storage-IsSoundStore team workflow = record {
  ledgers = λ i t h. absurd (ground arith);
  numbered = λ i t h. absurd (ground arith);
  distinct = λ i j t u h g same. absurd (ground arith);
}
