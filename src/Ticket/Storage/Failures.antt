-- ===== src/Ticket/Storage/Failures.antt =====
-- What `apply` leaves behind when it raises (tickets/storages/local.py).
use flowgency.Common.{
  ℕ, String, ◌≡◌, refl, sym, ◌∙◌, ◌⊎◌, ap, arith, ok, raise, Outcome-cases, inl, inr,
}
use flowgency.Ticket.Models.{
  Instant, Fault, ticket, Attempt, storage_unavailable, write_failed, TicketRef, TicketRecord,
  TicketOperation, TicketMutationResult,
}
use flowgency.Ticket.Storage.{
  Board, Storage, StorageEnv, apply_locked, apply, put_board, with_document, fails_after,
}
use flowgency.Ticket.Storage.Replay.{
  Steps, Applied, failed, replayed, unconfirmed, unwritten, written, apply_locked-Applied,
}
use flowgency.Ticket.Storage.Apply.{board_of, opened, apply_refused, apply-opened, put_board_idle}

-- A call that raises changes no board; or it raised that the storage is unavailable when the one
-- document of its ticket was in place, and what is there is the sealed record of its step.
pub apply_raises :
    (env : StorageEnv) (now : Instant) (st : Storage) (ref : TicketRef) (expected : ℕ)
    (operation : TicketOperation) (mutate : TicketRecord → Attempt TicketRecord) (e : Fault)
    → (apply env now st ref expected operation mutate).0 ≡ raise e
    → let after = (apply env now st ref expected operation mutate).1 in
      ((team workflow : String) → after.boards team workflow ≡ st.boards team workflow)
      ⊎ ((current : TicketRecord) × (updated : TicketRecord) × (result : TicketMutationResult)
          × Steps env ref expected operation (board_of st ref) current updated result
          × (env.write_outcome updated ≡ fails_after)
          × (e ≡ ticket storage_unavailable write_failed)
          × (after
              ≡ put_board st ref (with_document (board_of st ref) ref (env.persisted updated))))
apply_raises env now st ref expected operation mutate e h =
    elim (Outcome-cases (opened env st ref)) [
      | inr (e', shut) ↦ inl (λ team workflow.
          rw (apply_refused env now st ref expected operation mutate e' shut) refl)
      | inl (u, open_now) ↦
          let first = apply-opened env now st ref expected operation mutate open_now in
          let locked = apply_locked env now (board_of st ref) ref expected operation mutate in
          let after : (apply env now st ref expected operation mutate).1
              ≡ put_board st ref locked.1 =
            ap (λ (p : Attempt TicketMutationResult × Storage). p.1) first in
          by_step locked
            (apply_locked-Applied env now (board_of st ref) ref expected operation mutate)
            (sym (ap (λ (p : Attempt TicketMutationResult × Storage). p.0) first) ∙ h) after
    ]
  where
    board_in : {x y : Attempt TicketMutationResult × Board} → x ≡ y → x.1 ≡ y.1
    board_in same = ap (λ (p : Attempt TicketMutationResult × Board). p.1) same

    unchanged :
        (answer : Attempt TicketMutationResult × Board)
        → answer.1 ≡ board_of st ref
        → (apply env now st ref expected operation mutate).1 ≡ put_board st ref answer.1
        → (team workflow : String)
        → (apply env now st ref expected operation mutate).1.boards team workflow
          ≡ st.boards team workflow
    unchanged answer stays after team workflow =
        ap (λ (x : Storage). x.boards team workflow) (after ∙ ap (put_board st ref) stays)
        ∙ put_board_idle st ref team workflow

    raised :
        ◌≡◌ {A = Attempt TicketMutationResult} (raise e) (raise unwritten)
        → e ≡ ticket storage_unavailable write_failed
    raised same = ground arith

    raised-ok : {x : TicketMutationResult} → ok x ≡ raise e → ⊥
    raised-ok absurd_equation = cc

    by_step :
        (answer : Attempt TicketMutationResult × Board)
        → Applied env ref expected operation (board_of st ref) answer
        → answer.0 ≡ raise e
        → (apply env now st ref expected operation mutate).1 ≡ put_board st ref answer.1
        → let after = (apply env now st ref expected operation mutate).1 in
          ((team workflow : String) → after.boards team workflow ≡ st.boards team workflow)
          ⊎ ((current : TicketRecord) × (updated : TicketRecord) × (result : TicketMutationResult)
              × Steps env ref expected operation (board_of st ref) current updated result
              × (env.write_outcome updated ≡ fails_after)
              × (e ≡ ticket storage_unavailable write_failed)
              × (after
                  ≡ put_board st ref (with_document (board_of st ref) ref (env.persisted updated))))
    by_step answer (failed x same) g after = inl (unchanged answer (board_in same) after)
    by_step answer (replayed current previous found old same) g after =
        inl (unchanged answer (board_in same) after)
    by_step answer (unconfirmed current updated result x late same) g after = inr (
      current,
      updated,
      result,
      x,
      late,
      raised (sym g ∙ ap (λ (p : Attempt TicketMutationResult × Board). p.0) same),
      after ∙ ap (put_board st ref) (board_in same),
    )
    by_step answer (written current updated result x same) g after =
        absurd (raised-ok (sym (ap (λ (p : Attempt TicketMutationResult × Board). p.0) same) ∙ g))
