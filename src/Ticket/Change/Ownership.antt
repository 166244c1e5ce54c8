-- ===== src/Ticket/Change/Ownership.antt =====
-- Who works on a ticket: runs, assignees, and the changes that touch them (tickets/service.py).
use flowgency.Common.{
  String, ◌≡◌, refl, ◌⊎◌, inl, inr, true, none, some, [], ◌∷◌, ◌++◌, arith, eq_iff, ok, Bool-cases,
  Option-cases,
}
use flowgency.Ticket.Models.{ActiveTicketRun, AgentTicketContext, TicketEvent, TicketRecord}
use flowgency.Ticket.Changes.{Context, is_run, require_active_owner}
use flowgency.Ticket.Storage.Ledger.{SameIdentity}
use flowgency.Ticket.Change.{
  Change, change, assigns, starts, ends, signs_off, updates, transitions, reports, cleans,
}
use flowgency.Ticket.Change.Effects.{Effect, change-Effect}

-- A ticket that is worked on has an assignee.
abbrev pub IsOwned : TicketRecord → Type 0
IsOwned t = (t.active_run ≡ none) ⊎ ((a : String) × (t.assignee ≡ some a))

Effect-IsOwned :
    (c : Context) (ch : Change) (t u : TicketRecord) → Effect c ch t u → IsOwned t → IsOwned u
Effect-IsOwned c (assigns actor assignee) t u (idle, e, same) o = rw same (inl idle)
Effect-IsOwned c (starts actor) t u (free, own, alone, e, same) o =
    rw same (inr (actor.agent_name, refl))
Effect-IsOwned c (ends actor) t u (owner, e, same) o = rw same (inl refl)
Effect-IsOwned c (signs_off actor) t u (owner, e, same) o = rw same (inl refl)
Effect-IsOwned c (updates actor patch) t u (owner, fine, e, same) o = rw same o
Effect-IsOwned c (transitions actor request) t u (owner, ev, evaluates, e, same) o = rw same o
Effect-IsOwned c (reports actor report) t u (owner, e, same) o = rw same o
Effect-IsOwned c (cleans pending active) t u (e, same) o = rw same (ground arith)

-- If a ticket with an active run has an assignee, then it has one after every accepted change.
pub change-IsOwned :
    (c : Context) (ch : Change) (t u : TicketRecord) → IsOwned t → change c ch t ≡ ok u → IsOwned u
change-IsOwned c ch t u o h = Effect-IsOwned c ch t u (change-Effect c ch t u h) o

-- The change comes from the run itself, or is a cleanup that was decided to end it.
abbrev pub FromRun : ActiveTicketRun → Change → Type 0
FromRun run (starts actor) = is_run run actor ≡ true
FromRun run (ends actor) = is_run run actor ≡ true
FromRun run (signs_off actor) = is_run run actor ≡ true
FromRun run (cleans pending active) = active ≡ true
FromRun run other = ⊥

owner-is_run :
    (t : TicketRecord) (actor : AgentTicketContext) (run : ActiveTicketRun)
    → t.active_run ≡ some run
    → require_active_owner t actor ≡ ok tt
    → is_run run actor ≡ true
unfolding require_active_owner
owner-is_run t actor run active h = ground arith

-- While a run is active, a change that is accepted either leaves the run and the assignee as they
-- are, or comes from that very run or from a cleanup that ends it.
pub change-FromRun :
    (c : Context) (ch : Change) (t u : TicketRecord) (run : ActiveTicketRun)
    → t.active_run ≡ some run
    → change c ch t ≡ ok u
    → ((u.active_run ≡ some run) × (u.assignee ≡ t.assignee)) ⊎ FromRun run ch
change-FromRun c ch t u run active h = by_effect c ch (change-Effect c ch t u h)
  where
    by_effect :
        (c : Context) (ch : Change)
        → Effect c ch t u
        → ((u.active_run ≡ some run) × (u.assignee ≡ t.assignee)) ⊎ FromRun run ch
    by_effect c (assigns actor assignee) (idle, e, same) = absurd (ground arith)
    by_effect c (starts actor) (free, own, alone, e, same) = inr (ground arith)
    by_effect c (ends actor) (owner, e, same) = inr (owner-is_run t actor run active owner)
    by_effect c (signs_off actor) (owner, e, same) = inr (owner-is_run t actor run active owner)
    by_effect c (updates actor patch) (owner, fine, e, same) = inl (ground arith, ground arith)
    by_effect c (transitions actor request) (owner, ev, evaluates, e, same) =
        inl (ground arith, ground arith)
    by_effect c (reports actor report) (owner, e, same) = inl (ground arith, ground arith)
    by_effect c (cleans pending active') (e, same) = elim (Bool-cases active') [
      | inl ends_it ↦ inr ends_it
      | inr keeps_it ↦ inl (ground arith, ground arith)
    ]

-- At most one agent, in one job and session, passes the owner check of a ticket.
pub require_active_owner_unique :
    (t : TicketRecord) (a b : AgentTicketContext)
    → require_active_owner t a ≡ ok tt
    → require_active_owner t b ≡ ok tt
    → (a.agent_name ≡ b.agent_name) × (a.job_id ≡ b.job_id) × (a.session_id ≡ b.session_id)
unfolding require_active_owner
require_active_owner_unique t a b ha hb = elim (Option-cases t.assignee) [
  | inl nobody ↦ absurd (ground arith)
  | inr (name, assigned) ↦ elim (Option-cases t.active_run) [
    | inl idle ↦ absurd (ground arith)
    | inr (run, active) ↦ (
      ground (arith, eq_iff name a.agent_name, eq_iff name b.agent_name),
      ground (arith, eq_iff run.job_id a.job_id, eq_iff run.job_id b.job_id),
      ground (arith, eq_iff run.session_id a.session_id, eq_iff run.session_id b.session_id),
    )
  ]
]

-- Everything of a ticket that a change may not touch is as it was, and its history has one more
-- event.
pub record Extends (t u : TicketRecord) : Type 0 where
  pub identity : SameIdentity t u
  pub event : TicketEvent
  pub history : u.events ≡ t.events ++ (event ∷ [])

Effect-Extends : (c : Context) (ch : Change) (t u : TicketRecord) → Effect c ch t u → Extends t u
Effect-Extends c (assigns actor assignee) t u (idle, e, same) = record {
  identity = ground arith;
  event = e;
  history = ground arith;
}
Effect-Extends c (starts actor) t u (free, own, alone, e, same) = record {
  identity = ground arith;
  event = e;
  history = ground arith;
}
Effect-Extends c (ends actor) t u (owner, e, same) = record {
  identity = ground arith;
  event = e;
  history = ground arith;
}
Effect-Extends c (signs_off actor) t u (owner, e, same) = record {
  identity = ground arith;
  event = e;
  history = ground arith;
}
Effect-Extends c (updates actor patch) t u (owner, fine, e, same) = record {
  identity = ground arith;
  event = e;
  history = ground arith;
}
Effect-Extends c (transitions actor request) t u (owner, ev, evaluates, e, same) = record {
  identity = ground arith;
  event = e;
  history = ground arith;
}
Effect-Extends c (reports actor report) t u (owner, e, same) = record {
  identity = ground arith;
  event = e;
  history = ground arith;
}
Effect-Extends c (cleans pending active) t u (e, same) = record {
  identity = ground arith;
  event = e;
  history = ground arith;
}

-- A change that is accepted keeps the ticket's id, number, creation time, ref, revision and ledger,
-- and appends exactly one event to its history.
pub change-Extends :
    (c : Context) (ch : Change) (t u : TicketRecord) → change c ch t ≡ ok u → Extends t u
change-Extends c ch t u h = Effect-Extends c ch t u (change-Effect c ch t u h)
