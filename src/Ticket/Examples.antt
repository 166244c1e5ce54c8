-- ===== src/Ticket/Examples.antt =====
-- A ticket of the small workflow in a store of one board, and the theorems of the tickets at work
-- on it.
use flowgency.Common.{
  arith, here, ℕ, String, ◌≡◌, refl, sym, ◌⊎◌, ◌↔◌, inr, false, none, some, List, [], ◌∷◌, ok,
  raise, All, contains, is_blank, is_space, ap, ◌++◌,
}
use flowgency.Common.Dict.{update, lookup, insert, has_key}
use flowgency.Workflow.Values.{text, boolean, validate_field_value, same_value, kind_matches_value}
use flowgency.Workflow.Definition.{state, transition, find_by, field, field_kinds, at_dollar}
use flowgency.Workflow.Rules.{
  EvaluatedTransition, evaluated, evaluate_transition, check_transition, check_use, check_declared,
  check_precondition, check_unlisted, check_operator, check_assessments, check_assessment,
  check_missing, present_inputs, sorted_set, insert_sorted, referenced_field_ids, field_defs,
}
use flowgency.Workflow.Examples.{review_passes, review, finish, is_ready, a_note, tested}
use flowgency.Ticket.Models.{
  storage_unavailable, write_failed, Attempt, TicketRef, ActiveTicketRun, AgentTicketContext,
  TicketRecord, TicketEvent, TicketOperation, job_data, Instant, ticket, TicketMutationResult,
  TicketReceipt, find_receipt,
}
use flowgency.Ticket.Changes.{
  Provider, Context, TransitionRequest, require_active_owner, make_event, with_event,
  stamp_field_provenance, end_work_record,
}
use flowgency.Ticket.Change.{change, ends, transitions}
use flowgency.Ticket.Change.Ownership.{
  IsOwned, change-IsOwned, FromRun, change-FromRun, Extends, change-Extends,
  require_active_owner_unique,
}
use flowgency.Ticket.Change.Commits.{change-advance, change-apply}
use flowgency.Ticket.Change.Moves.{Moves, change-IsMove}
use flowgency.Ticket.Change.Types.{change-IsTyped}
use flowgency.Ticket.Progress.{
  transition_event, transitioned, transition_record, require_trusted_git_values,
  require_trusted_git_value, is_git_field, internal_artifact_refs,
}
use flowgency.Ticket.Typing.{IsTyped, require_compatible, require_compatible-IsTyped}
use flowgency.Ticket.Storage.{
  StorageEnv, Storage, Board, Document, stored, broken, ready, advance, apply, read_document,
  admit_ref, require_safe_ref, is_slug, is_slug_rest, is_slug_start, verify_binding, require_root,
  require_safe_metadata, completes, fails_after, with_document, put_board, save, apply_locked,
}
use flowgency.Ticket.Storage.Ledger.{Advanced, advance-Advanced}
use flowgency.Ticket.Storage.Commits.{commit_of, advance_total}
use flowgency.Ticket.Storage.Replay.{again, KeepsLedger, Steps}
use flowgency.Ticket.Storage.Apply.{
  board_of, opened, apply-opened, apply-replays, put_board_same, read_after_write,
}
use flowgency.Ticket.Storage.Failures.{apply_raises}
use flowgency.Ticket.Storage.Writes.{apply_writes}
use flowgency.Ticket.Storage.Calls.{
  Call, creates, applies, run, run-IsSound, IsSoundStore, empty_storage, empty_storage-IsSoundStore,
}

abbrev pub ada : AgentTicketContext
ada = record { job_id = "job"; team_id = "team"; agent_name = "ada"; session_id = "session" }

abbrev pub anywhere : Provider
anywhere = record { read_artifact = λ namespace i. ok tt; validate_git_artifact = λ t i. ok tt }

abbrev pub today : Context
today = record {
  definition = review;
  team = record { agents = "ada" ∷ []; git_publication = false };
  provider = anywhere;
  now = 7;
  event_id = "event";
  operation_id = "operation";
  workflow_digest = "workflow";
  context_digest = "context";
  binding_id = "binding";
}

abbrev pub first_ref : TicketRef
first_ref = record {
  binding_id = "binding";
  team_id = "team";
  workflow_id = "review";
  ticket_id = "first";
}

abbrev ada_run : ActiveTicketRun
ada_run = record { job_id = "job"; session_id = "session"; started_at = 5 }

-- The ticket that ada works on.
abbrev pub first : TicketRecord
first = record {
  body = record {
    id = "first";
    number = 1;
    title = "First";
    description = "";
    state_id = "open";
    assignee = some "ada";
    pending_run = none;
    active_run = some ada_run;
    field_values = is_ready;
    field_provenance = [];
    revision = 1;
    events = [];
    created_at = 3;
    updated_at = 3;
    ref = some first_ref;
  };
  receipts = [];
}

abbrev pub released : TicketRecord
released =
    with_event (record first { body = record first.body { active_run = none } })
      (record {
        id = "event";
        kind = "ended-work";
        actor = "ada";
        summary = "Agent ended active work";
        details = job_data "job";
        at = some 7;
      })

pub first-released : change today (ends ada) first ≡ ok released
unfolding change end_work_record require_active_owner make_event
first-released = refl

change-IsOwned_example : IsOwned released
change-IsOwned_example =
    change-IsOwned today (ends ada) first released (inr ("ada", refl)) first-released

change-FromRun_example :
    ((released.active_run ≡ some ada_run) × (released.assignee ≡ some "ada"))
    ⊎ FromRun ada_run (ends ada)
change-FromRun_example = change-FromRun today (ends ada) first released ada_run refl first-released

change-Extends_example : Extends first released
change-Extends_example = change-Extends today (ends ada) first released first-released

ada_owns : require_active_owner first ada ≡ ok tt
unfolding require_active_owner
ada_owns = refl

require_active_owner_unique_example :
    (ada.agent_name ≡ ada.agent_name)
    × (ada.job_id ≡ ada.job_id)
    × (ada.session_id ≡ ada.session_id)
require_active_owner_unique_example = require_active_owner_unique first ada ada ada_owns ada_owns

abbrev pub env : StorageEnv
env = record {
  runtime = record { fresh_id = λ n. "fresh"; revalidate = λ b. ok b };
  binding_id_for = λ team workflow. "binding";
  escapes = λ team workflow i. false;
  crosses_link = λ team workflow name. false;
  encoded_size = λ t. 0;
  write_outcome = λ t. completes;
  persisted = λ t. stored t;
}

abbrev board : Board
board = record { documents = ("first", stored first) ∷ []; sequence = some 1 }

abbrev pub store : Storage
store = record { root = ready; boards = λ team workflow. board }

abbrev pub release : TicketOperation
release = record { operation_id = "release"; request_digest = "digest" }

abbrev pub event : TicketEvent
event = record {
  id = "event";
  kind = "ended-work";
  actor = "ada";
  summary = "Agent ended active work";
  details = job_data "job";
  at = some 7;
}

change-advance_example :
    (e : TicketEvent) × (released.events ≡ first.events ++ (e ∷ []))
    × (advance env 7 first first.revision release (change today (ends ada))
        ≡ ok (commit_of env.runtime released first (e ∷ []) release 7))
change-advance_example =
    change-advance env 7 today (ends ada) first released release refl (λ e x. refl) first-released

release_advances :
    advance env 7 first 1 release (change today (ends ada))
    ≡ ok (commit_of env.runtime released first (event ∷ []) release 7)
release_advances =
    advance_total env 7 first released (event ∷ []) release (change today (ends ada)) refl refl
      first-released (change-Extends today (ends ada) first released first-released).identity refl

advance-Advanced_example :
    (first.revision ≡ 1)
    × Advanced env.runtime release first
        (commit_of env.runtime released first (event ∷ []) release 7).0
        (commit_of env.runtime released first (event ∷ []) release 7).1
advance-Advanced_example =
    advance-Advanced env 7 first 1 release (change today (ends ada)) _ _ release_advances

pub store_opens : opened env store first_ref ≡ ok tt
unfolding admit_ref require_safe_ref is_slug is_slug_rest is_slug_start at_dollar verify_binding
    require_root require_safe_metadata has_key lookup
store_opens = refl

pub store_reads : read_document (board_of store first_ref) first_ref ≡ ok first
unfolding read_document lookup
store_reads = refl

release_applies :
    (apply env 7 store first_ref 1 release (change today (ends ada))).0
    ≡ ok (commit_of env.runtime released first (event ∷ []) release 7).1
unfolding find_receipt
release_applies =
    ap (λ (p : Attempt TicketMutationResult × Storage). p.0)
      (apply_writes env 7 store first_ref 1 release (change today (ends ada)) first
        (commit_of env.runtime released first (event ∷ []) release 7).0
        (commit_of env.runtime released first (event ∷ []) release 7).1 store_opens store_reads refl
        release_advances refl refl)

env-KeepsLedger : KeepsLedger env
env-KeepsLedger t u h = (sym (ap number_of h), sym (ap revision_of h), sym (ap receipts_of h))
  where
    number_of : Document → ℕ
    number_of (stored x) = x.number
    number_of (broken c r) = 0

    revision_of : Document → ℕ
    revision_of (stored x) = x.revision
    revision_of (broken c r) = 0

    receipts_of : Document → List TicketReceipt
    receipts_of (stored x) = x.receipts
    receipts_of (broken c r) = []

release_reads :
    read_document
      (board_of (apply env 7 store first_ref 1 release (change today (ends ada))).1 first_ref)
      first_ref
    ≡ ok (commit_of env.runtime released first (event ∷ []) release 7).0
unfolding find_receipt
release_reads =
    rw
      (
        apply_writes env 7 store first_ref 1 release (change today (ends ada)) first
            (commit_of env.runtime released first (event ∷ []) release 7).0
            (commit_of env.runtime released first (event ∷ []) release 7).1 store_opens store_reads
            refl release_advances refl refl,
        put_board_same store first_ref _,
      )
      (read_after_write board first_ref _ refl)

apply-replays_example :
    let st = (apply env 7 store first_ref 1 release (change today (ends ada))).1 in
    ((apply env 9 st first_ref 1 release (change today (ends ada))).0
      ≡ ok (again (commit_of env.runtime released first (event ∷ []) release 7).1))
    × ((team workflow : String)
        → (apply env 9 st first_ref 1 release (change today (ends ada))).1.boards team workflow
          ≡ st.boards team workflow)
apply-replays_example =
    apply-replays env 7 9 store first_ref 1 1 release (change today (ends ada))
      (change today (ends ada)) (commit_of env.runtime released first (event ∷ []) release 7).1
      (commit_of env.runtime released first (event ∷ []) release 7).0 env-KeepsLedger
      release_applies release_reads

-- Storage whose directory cannot be flushed once a document is in place.
abbrev late : StorageEnv
late = record env { write_outcome = λ t. fails_after }

late_opens : opened late store first_ref ≡ ok tt
unfolding admit_ref require_safe_ref is_slug is_slug_rest is_slug_start at_dollar verify_binding
    require_root require_safe_metadata has_key lookup
late_opens = refl

late_advances :
    advance late 7 first 1 release (change today (ends ada))
    ≡ ok (commit_of late.runtime released first (event ∷ []) release 7)
late_advances =
    advance_total late 7 first released (event ∷ []) release (change today (ends ada)) refl refl
      first-released (change-Extends today (ends ada) first released first-released).identity refl

late_raises :
    (apply late 7 store first_ref 1 release (change today (ends ada))).0
    ≡ raise (ticket storage_unavailable write_failed)
unfolding find_receipt apply_locked save
late_raises =
    rw
      (
        apply-opened late 7 store first_ref 1 release (change today (ends ada)) late_opens,
        apply_locked,
        store_reads,
        late_advances,
      )
      refl

apply_raises_example :
    let after = (apply late 7 store first_ref 1 release (change today (ends ada))).1 in
    ((team workflow : String) → after.boards team workflow ≡ store.boards team workflow)
    ⊎ ((current : TicketRecord) × (updated : TicketRecord) × (result : TicketMutationResult) × Steps
          late first_ref 1 release
          (board_of store first_ref)
          current
          updated
          result
        × (late.write_outcome updated ≡ fails_after)
        × (ticket storage_unavailable write_failed ≡ ticket storage_unavailable write_failed)
        × (after
            ≡ put_board store first_ref
                (with_document (board_of store first_ref) first_ref (late.persisted updated))))
apply_raises_example =
    apply_raises late 7 store first_ref 1 release (change today (ends ada))
      (ticket storage_unavailable write_failed) late_raises

abbrev newcomer : TicketRecord
newcomer = record { body = record first.body { revision = 0 }; receipts = [] }

abbrev opening : TicketOperation
opening = record { operation_id = "opening"; request_digest = "digest" }

abbrev calls : List (Instant × Call)
calls =
    (3, creates newcomer opening)
    ∷ (7, applies first_ref 1 release (change today (ends ada)))
    ∷ (9, applies first_ref 1 release (change today (ends ada)))
    ∷ []

run-IsSound_example : IsSoundStore (run env empty_storage calls)
run-IsSound_example =
    run-IsSound env empty_storage calls env-KeepsLedger (refl, (tt, (tt, tt)))
      empty_storage-IsSoundStore

require_compatible-IsTyped_example :
    (require_compatible review (first ∷ released ∷ []) ≡ ok tt)
    ↔ All (IsTyped review) (first ∷ released ∷ [])
require_compatible-IsTyped_example = require_compatible-IsTyped review (first ∷ released ∷ [])

change-apply_example :
    let answer = apply env 7 store first_ref first.revision release (change today (ends ada)) in
    (result : TicketMutationResult) × (answer.0 ≡ ok result)
    × (result.replayed ≡ false)
    × (after : TicketRecord) × (read_document (board_of answer.1 first_ref) first_ref ≡ ok after)
    × (after.state_id ≡ released.state_id)
    × (after.assignee ≡ released.assignee)
    × (after.active_run ≡ released.active_run)
    × (after.field_values ≡ released.field_values)
unfolding find_receipt
change-apply_example =
    change-apply env 7 today (ends ada) store first_ref first released release refl
      (λ e x. (refl, (refl, refl, refl))) store_opens store_reads refl first-released

abbrev finishing : TransitionRequest
finishing = record { transition_id = "finish"; inputs = []; outputs = a_note; assessments = tested }

abbrev finished : EvaluatedTransition
finished = evaluated finish is_ready a_note tested (
    ("note", record { id = "note"; label = "Note"; type = text; artifact_format = none })
    ∷ ("ready", record { id = "ready"; label = "Ready"; type = boolean; artifact_format = none })
    ∷ [])

abbrev closed : TicketRecord
closed =
    transitioned today ada first finished
      (transition_event today ada first finished "Open" "Closed")

first-closed : change today (transitions ada finishing) first ≡ ok closed
unfolding change transition_record require_active_owner evaluate_transition check_transition
    transition find_by check_use lookup field_kinds update insert validate_field_value
    check_declared contains is_blank is_space check_precondition check_unlisted check_operator
    same_value check_assessments check_assessment check_missing field_defs sorted_set insert_sorted
    referenced_field_ids present_inputs field state require_trusted_git_values
    require_trusted_git_value is_git_field internal_artifact_refs transition_event
    stamp_field_provenance
first-closed = refl

change-IsMove_example : Moves review ada finishing first closed
change-IsMove_example = change-IsMove today (transitions ada finishing) first closed first-closed

first-IsTyped : IsTyped review first
unfolding lookup field_kinds update insert kind_matches_value
first-IsTyped = record { placed = here; typed = (λ k declared. ground arith, tt) }

change-IsTyped_example : IsTyped review closed
unfolding has_key
change-IsTyped_example =
    change-IsTyped today (transitions ada finishing) first closed review_passes (refl, tt)
      first-IsTyped first-closed
