-- ===== src/Ticket/Storage.antt =====
-- flowgency/tickets/storages/local.py: ticket documents on disk. A lock makes each call one step. A
-- board is the directory of one team's workflow. What a written document reads back as, its size,
-- and where links lead are the environment's: YAML, pydantic and the file system.
pub mod Ledger
pub mod Commits
pub mod Replay
pub mod Apply
pub mod Failures
pub mod Writes
pub mod Numbers
pub mod Calls
use Prim.Native.Char.{code}
use flowgency.Common.{
  ℕ, zero, suc, ◌+◌, String, ◌≡◌, Bool, true, false, not, ◌&&◌, ◌||◌, Option, none, some, List, [],
  ◌∷◌, ◌==◌, leb, num_eq, if◌then◌else◌, holds, Outcome, ok, raise, ◌>>=◌, ◌>>◌, require, or_raise,
  ℕ_discrete,
}
use flowgency.Common.Dict.{Dict, lookup, insert, has_key}
use flowgency.Workflow.Definition.{at_dollar}
use flowgency.Ticket.Models.{
  Instant, ErrorClass, ticket_not_found, storage_unavailable, ticket_corrupt, ticket_too_large,
  ticket_conflict, ticket_forbidden, Reason, binding_mismatch, unsafe_path, missing_root,
  unreadable_root, ticket_too_large_reason, write_failed, identity_changed, not_found,
  corrupt_sequence, unbound_record, duplicate_ticket, stale_ticket, Fault, ticket, Attempt,
  TicketRef, ref_discrete, receipts_discrete, TicketReceipt, TicketRecord, TicketOperation,
  TicketMutationResult, Runtime, find_receipt, require_digest, receipt_result, commit_creation,
  commit_operation,
}

-- The files of a board's directory.
pub data FileName : Type 0 where
  document_file lock_file : String → FileName
  sequence_file namespace_lock_file : FileName

-- A document that validates, or the fault that reading it raises.
pub data Document : Type 0 where
  stored : TicketRecord → Document
  broken : ErrorClass → Reason → Document

pub record Board : Type 0 where
  pub documents : Dict Document
  -- The number in `.sequence`, unless it is missing or no number.
  pub sequence : Option ℕ

pub data RootStatus : Type 0 where
  missing unreadable ready : RootStatus

pub record Storage : Type 0 where
  pub root : RootStatus
  pub boards : String → String → Board

-- The write of a document may fail before the file is replaced, or after: the directory is flushed
-- when the new file is in place.
pub data WriteOutcome : Type 0 where
  completes fails_before fails_after : WriteOutcome

pub record StorageEnv : Type 0 where
  pub runtime : Runtime
  pub binding_id_for : String → String → String
  -- Whether the resolved path of a ticket leaves the root, and whether a path meets a link.
  pub escapes : String → String → String → Bool
  pub crosses_link : String → String → FileName → Bool
  pub encoded_size : TicketRecord → ℕ
  pub write_outcome : TicketRecord → WriteOutcome
  -- What a read finds after the record has been written.
  pub persisted : TicketRecord → Document

abbrev pub max_ticket_bytes : ℕ
max_ticket_bytes = 524288

unfoldable pub is_slug_start : ℕ → Bool
is_slug_start c = (leb b'a' c && leb c b'z') || (leb b'0' c && leb c b'9')

-- `[a-z0-9-]*$` from here on.
unfoldable pub is_slug_rest : String → Bool
unfolding is_slug_start
is_slug_rest String.[] = true
is_slug_rest (String.◌∷◌ c s) =
    at_dollar (String.◌∷◌ c s)
    || ((is_slug_start (code c) || num_eq (code c) b'-') && is_slug_rest s)

-- _SLUG.match
unfoldable pub is_slug : String → Bool
unfolding is_slug_rest at_dollar
is_slug String.[] = false
is_slug (String.◌∷◌ c s) = is_slug_start (code c) && is_slug_rest s

unfoldable pub require_safe_ref : StorageEnv → String → String → String → Attempt (Unit {0})
require_safe_ref env team_id workflow_id ticket_id = do
  require (is_slug team_id && (is_slug workflow_id && is_slug ticket_id))
      (ticket ticket_forbidden unsafe_path)
  require (not (env.escapes team_id workflow_id ticket_id)) (ticket ticket_forbidden unsafe_path)
  require (not (env.crosses_link team_id workflow_id (document_file ticket_id)))
      (ticket ticket_forbidden unsafe_path)

unfoldable pub verify_binding : StorageEnv → TicketRef → Attempt (Unit {0})
verify_binding env ref =
    require (ref.binding_id == env.binding_id_for ref.team_id ref.workflow_id)
      (ticket ticket_forbidden binding_mismatch)

unfoldable pub require_root : RootStatus → Attempt (Unit {0})
require_root missing = raise (ticket storage_unavailable missing_root)
require_root unreadable = raise (ticket storage_unavailable unreadable_root)
require_root ready = ok tt

-- The checks that open every call with a ref.
unfoldable pub admit_ref : StorageEnv → RootStatus → TicketRef → Attempt (Unit {0})
unfolding require_safe_ref verify_binding require_root
admit_ref env root ref = do
  require_safe_ref env ref.team_id ref.workflow_id ref.ticket_id
  verify_binding env ref
  require_root root

unfoldable pub require_safe_metadata : StorageEnv → TicketRef → FileName → Attempt (Unit {0})
require_safe_metadata env ref name =
    require (not (env.crosses_link ref.team_id ref.workflow_id name))
      (ticket ticket_forbidden unsafe_path)

-- Reading scopes the record to the ref that was asked for.
unfoldable pub read_document : Board → TicketRef → Attempt TicketRecord
read_document board ref = elim (lookup ref.ticket_id board.documents) [
  | none ↦ raise (ticket ticket_not_found not_found)
  | some (broken c r) ↦ raise (ticket c r)
  | some (stored t) ↦ ok (record t { body = record t.body { ref = some ref } })
]

unfoldable pub read : StorageEnv → Storage → TicketRef → Attempt TicketRecord
unfolding admit_ref read_document
read env st ref = do
  admit_ref env st.root ref
  read_document (st.boards ref.team_id ref.workflow_id) ref

unfoldable pub receipt :
    StorageEnv → Storage → TicketRef → TicketOperation → Attempt (Option TicketMutationResult)
receipt env st ref operation = do
  current ← read env st ref
  elim (find_receipt operation.operation_id current.receipts) [
    | none ↦ ok none
    | some previous ↦ do
      require_digest previous operation.request_digest
      result ← receipt_result env.runtime previous true
      ok (some result)
  ]

abbrev pub with_document : Board → TicketRef → Document → Board
with_document board ref document = record board {
  documents = insert ref.ticket_id document board.documents;
}

-- write_record
unfoldable pub save :
    StorageEnv
    → Board
    → TicketRef
    → TicketRecord
    → TicketMutationResult
    → Attempt TicketMutationResult × Board
save env board ref t result =
    if not (leb (env.encoded_size t) max_ticket_bytes)
    then (raise (ticket ticket_too_large ticket_too_large_reason), board)
    else elim (env.write_outcome t) [
      | fails_before ↦ (raise (ticket storage_unavailable write_failed), board)
      | fails_after ↦ (
        raise (ticket storage_unavailable write_failed),
        with_document board ref (env.persisted t),
      )
      | completes ↦ (ok result, with_document board ref (env.persisted t))
    ]

unfoldable pub same_identity : TicketRecord → TicketRecord → Bool
same_identity current candidate =
    candidate.id == current.id
    && (holds (ℕ_discrete candidate.number current.number)
        && (holds (ℕ_discrete candidate.created_at current.created_at)
            && (holds (ref_discrete candidate.ref current.ref)
                && (holds (ℕ_discrete candidate.revision current.revision)
                    && holds (receipts_discrete candidate.receipts current.receipts)))))

-- _next_number, less the write of the number.
unfoldable pub next_number : StorageEnv → Board → TicketRef → Attempt ℕ
next_number env board ref = do
  require_safe_metadata env ref sequence_file
  elim board.sequence [
    | some last ↦ ok (last + 1)
    | none ↦ elim board.documents [ [] ↦ ok 1 | _ ↦ raise (ticket ticket_corrupt corrupt_sequence) ]
  ]

-- The replay of an operation that the ledger holds.
unfoldable pub replay :
    StorageEnv → TicketOperation → Fault → Option TicketReceipt → Attempt TicketMutationResult
replay env operation otherwise none = raise otherwise
replay env operation otherwise (some previous) = do
  require_digest previous operation.request_digest
  receipt_result env.runtime previous true

unfoldable pub open_record : TicketRecord → ℕ → Instant → TicketRecord
open_record t number now = record t {
  body = record t.body { number = number; revision = 1; created_at = now; updated_at = now };
}

-- The body of `create` under the namespace lock; the checks of the inner `read` have passed before.
unfoldable pub create_locked :
    StorageEnv
    → Instant
    → Board
    → TicketRef
    → TicketRecord
    → TicketOperation
    → Attempt TicketMutationResult × Board
unfolding open_record
create_locked env now board ref t operation =
    if has_key ref.ticket_id board.documents
    then (
      (do
        current ← read_document board ref
        replay env operation (ticket ticket_conflict duplicate_ticket)
            (find_receipt operation.operation_id current.receipts)),
      board,
    )
    else elim (next_number env board ref) [
      | raise e ↦ (raise e, board)
      | ok number ↦
          let numbered = record board { sequence = some number } in
          elim (commit_creation env.runtime (open_record t number now) operation now) [
            | raise e ↦ (raise e, numbered)
            | ok (sealed, result) ↦ save env numbered ref sealed result
          ]
    ]

unfoldable pub put_board : Storage → TicketRef → Board → Storage
put_board st ref board = record st {
  boards = λ team workflow.
      if team == ref.team_id && workflow == ref.workflow_id then board else st.boards team workflow;
}

unfoldable pub create :
    StorageEnv
    → Instant
    → Storage
    → TicketRecord
    → TicketOperation
    → Attempt TicketMutationResult × Storage
create env now st t operation = elim t.ref [
  | none ↦ (raise (ticket ticket_conflict unbound_record), st)
  | some ref ↦
      elim (admit_ref env st.root ref >> require_safe_metadata env ref namespace_lock_file) [
        | raise e ↦ (raise e, st)
        | ok _ ↦
            let (result, board) =
              create_locked env now (st.boards ref.team_id ref.workflow_id) ref t operation in
            (result, put_board st ref board)
      ]
]

-- From the current record to the one to write and the result: the part of `apply` that may raise.
unfoldable pub advance :
    StorageEnv
    → Instant
    → TicketRecord
    → ℕ
    → TicketOperation
    → (TicketRecord → Attempt TicketRecord)
    → Attempt (TicketRecord × TicketMutationResult)
unfolding same_identity
advance env now current expected_revision operation mutate = do
  require (num_eq current.revision expected_revision) (ticket ticket_conflict stale_ticket)
  changed ← mutate current
  body ← env.runtime.revalidate changed.body
  let candidate : TicketRecord = record { body = body; receipts = changed.receipts }
  require (same_identity current candidate) (ticket ticket_conflict identity_changed)
  commit_operation env.runtime candidate current operation now

-- The body of `apply` under the ticket's lock; the checks of the inner `read` have passed before.
unfoldable pub apply_locked :
    StorageEnv
    → Instant
    → Board
    → TicketRef
    → ℕ
    → TicketOperation
    → (TicketRecord → Attempt TicketRecord)
    → Attempt TicketMutationResult × Board
apply_locked env now board ref expected_revision operation mutate = elim (read_document board ref) [
  | raise e ↦ (raise e, board)
  | ok current ↦ elim (find_receipt operation.operation_id current.receipts) [
    | some previous ↦
        (replay env operation (ticket ticket_conflict stale_ticket) (some previous), board)
    | none ↦ elim (advance env now current expected_revision operation mutate) [
      | raise e ↦ (raise e, board)
      | ok (updated, result) ↦ save env board ref updated result
    ]
  ]
]

unfoldable pub apply :
    StorageEnv
    → Instant
    → Storage
    → TicketRef
    → ℕ
    → TicketOperation
    → (TicketRecord → Attempt TicketRecord)
    → Attempt TicketMutationResult × Storage
apply env now st ref expected_revision operation mutate =
    elim (do
      admit_ref env st.root ref
      require (has_key ref.ticket_id (st.boards ref.team_id ref.workflow_id).documents)
          (ticket ticket_not_found not_found)
      require_safe_metadata env ref (lock_file ref.ticket_id)) [
        | raise e ↦ (raise e, st)
        | ok _ ↦
            let (result, board) =
              apply_locked env now (st.boards ref.team_id ref.workflow_id) ref expected_revision
                operation mutate in
            (result, put_board st ref board)
      ]
