-- ===== src/Ticket/Storage/Commits.antt =====
-- The part of `apply` before the write, for a mutation that keeps the identity (storages/local.py).
use flowgency.Common.{
  ◌≡◌, refl, true, false, List, [], ◌∷◌, ◌++◌, eq_iff, num_eq_iff, holds, take-length-append,
  drop-length-append, ok, ℕ_discrete,
}
use flowgency.Ticket.Models.{
  Instant, Attempt, TicketEvent, TicketBody, TicketRecord, TicketOperation, TicketMutationResult,
  Runtime, load_snapshot, finalize_new, finalize_events, last_event_id, seal_operation,
  commit_operation, events_discrete, receipts_discrete, ref_discrete,
}
use flowgency.Ticket.Storage.{StorageEnv, same_identity, advance}
use flowgency.Ticket.Storage.Ledger.{SameIdentity, committed, receipt_of}

proof→holds {ℓ} : {A : Type ℓ} (d : Dec A) → A → holds d ≡ true
proof→holds (yes a) h = refl
proof→holds (no n) h = absurd (n h)

pub SameIdentity-same_identity :
    (current candidate : TicketRecord)
    → SameIdentity current candidate
    → same_identity current candidate ≡ true
unfolding same_identity
SameIdentity-same_identity current candidate s = rw (
  (eq_iff candidate.id current.id).1 s.id_kept,
  proof→holds (ℕ_discrete candidate.number current.number) s.number_kept,
  proof→holds (ℕ_discrete candidate.created_at current.created_at) s.creation_kept,
  proof→holds (ref_discrete candidate.ref current.ref) s.ref_kept,
  proof→holds (ℕ_discrete candidate.revision current.revision) s.revision_kept,
  proof→holds (receipts_discrete candidate.receipts current.receipts) s.receipts_kept,
)

-- A history that is extended is finalized.
finalize_events_total :
    (rt : Runtime) (now : Instant) (current news : List TicketEvent)
    → let final = current ++ finalize_new rt now 0 news in
      finalize_events rt now current (current ++ news) ≡ ok (final, last_event_id final)
unfolding finalize_events
finalize_events_total rt now current news = rw (
  take-length-append current news,
  proof→holds (events_discrete current current) refl,
  drop-length-append current news,
)

-- The record and the result that a commit makes of a ticket and its new events.
abbrev pub commit_of :
    Runtime
    → TicketRecord
    → TicketRecord
    → List TicketEvent
    → TicketOperation
    → Instant
    → TicketRecord × TicketMutationResult
commit_of rt candidate current news operation now =
    let final = current.events ++ finalize_new rt now 0 news in
    let sealed = committed candidate current now final in
    (
      record sealed {
        receipts =
            candidate.receipts ++ (receipt_of sealed operation now (last_event_id final) ∷ []);
      },
      record {
        ticket = record { body = sealed.body; receipts = [] };
        replayed = false;
        event_id = last_event_id final;
      },
    )

-- A body that validates to itself.
abbrev pub Validates : Runtime → TicketBody → Type 0
Validates rt b = rt.revalidate b ≡ ok b

-- A mutation that keeps the identity and extends the history is accepted.
pub advance_total :
    (env : StorageEnv) (now : Instant) (current changed : TicketRecord) (news : List TicketEvent)
    (operation : TicketOperation) (mutate : TicketRecord → Attempt TicketRecord)
    → Validates env.runtime changed.body
    → Validates env.runtime (commit_of env.runtime changed current news operation now).0.body
    → mutate current ≡ ok changed
    → SameIdentity current changed
    → changed.events ≡ current.events ++ news
    → advance env now current current.revision operation mutate
      ≡ ok (commit_of env.runtime changed current news operation now)
unfolding advance commit_operation seal_operation load_snapshot
advance_total env now current changed news operation mutate valid sealed mutates same extends = rw (
  (num_eq_iff current.revision current.revision).1 refl,
  mutates,
  valid,
  SameIdentity-same_identity current changed same,
  extends,
  finalize_events_total env.runtime now current.events news,
  sealed,
)
