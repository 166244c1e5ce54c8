-- ===== src/Ticket/Change/Effects.antt =====
-- What each change that returned has checked, and what it has made of the ticket.
use flowgency.Common.{
  ◌≡◌, Bool, true, false, not, none, some, ◌++◌, arith, if◌then◌else◌, Outcome, ok, raise, require,
  each, >>=-eq-ok, require-eq-ok,
}
use flowgency.Common.Dict.{update}
use flowgency.Workflow.Values.{ContractError}
use flowgency.Workflow.Definition.{state}
use flowgency.Workflow.Rules.{EvaluatedTransition, evaluate_transition}
use flowgency.Ticket.Models.{
  AgentTicketContext, TicketActor, agent_actor, user_actor, no_data, TicketEvent, TicketRecord,
  or_else,
}
use flowgency.Ticket.Changes.{
  Context, TransitionRequest, TicketPatch, TicketReport, other_run, may_take, owns_reservation,
  require_active_owner, make_event, with_event, assign_record, start_work_record, end_work_record,
  sign_off_record, lift,
}
use flowgency.Ticket.Progress.{
  require_owner, check_patch, patched, stamped, scope, require_trusted_git_values,
  internal_artifact_refs, transition_event, transitioned, report_event, update_record,
  transition_record, report_record, cleanup_record,
}
use flowgency.Ticket.Change.{
  Change, change, assigns, starts, ends, signs_off, updates, transitions, reports, cleans,
}

lift-eq-ok : {A : Type 0} (m : Outcome ContractError A) {a : A} → lift m ≡ ok a → m ≡ ok a
lift-eq-ok (ok b) h = ground arith
lift-eq-ok (raise e) h = cc

not-eq-true : (b : Bool) → not b ≡ true → b ≡ false
not-eq-true b h = ground arith

-- The ticket itself as far as the ownership and the history are concerned.
abbrev pub Effect : Context → Change → TicketRecord → TicketRecord → Type 0
Effect c (assigns actor assignee) t u =
    (t.active_run ≡ none)
    × (e : TicketEvent) × (u
        ≡ with_event (record t { body = record t.body { assignee = assignee } }) e)
Effect c (starts actor) t u =
    (may_take t.assignee actor.agent_name ≡ true)
    × (owns_reservation t actor t.pending_run ≡ true)
    × (other_run t.active_run actor ≡ false)
    × (e : TicketEvent) × (u
        ≡ with_event
            (record t {
              body = record t.body {
                assignee = some actor.agent_name;
                pending_run = none;
                active_run = some (record {
                  job_id = actor.job_id;
                  session_id = actor.session_id;
                  started_at = c.now;
                });
              };
            })
            e)
Effect c (ends actor) t u =
    (require_active_owner t actor ≡ ok tt)
    × (e : TicketEvent) × (u
        ≡ with_event (record t { body = record t.body { active_run = none } }) e)
Effect c (signs_off actor) t u =
    (require_active_owner t actor ≡ ok tt)
    × (e : TicketEvent) × (u
        ≡ with_event (record t { body = record t.body { assignee = none; active_run = none } }) e)
Effect c (updates actor patch) t u =
    (require_owner t actor ≡ ok tt)
    × (check_patch c t patch.field_values ≡ ok tt)
    × (e : TicketEvent) × (u
        ≡ with_event
            (record t {
              body = record t.body {
                title = or_else patch.title t.title;
                description = or_else patch.description t.description;
                field_values = patched t.field_values patch.field_values;
                field_provenance = patched t.field_provenance (stamped c actor patch.field_values);
              };
            })
            e)
Effect c (transitions actor request) t u =
    (require_active_owner t actor ≡ ok tt)
    × (ev : EvaluatedTransition) × (evaluate_transition c.definition request.transition_id
          t.state_id t.field_values request.inputs request.outputs request.assessments
        ≡ ok ev)
    × (e : TicketEvent) × (u ≡ transitioned c actor t ev e)
Effect c (reports actor report) t u =
    (require_active_owner t actor ≡ ok tt) × (e : TicketEvent) × (u ≡ with_event t e)
Effect c (cleans pending active) t u =
    (e : TicketEvent) × (u
      ≡ with_event
          (record t {
            body = record t.body {
              pending_run = if pending then none else t.pending_run;
              active_run = if active then none else t.active_run;
            };
          })
          e)

transition-Effect :
    (c : Context) (actor : AgentTicketContext) (request : TransitionRequest) (t u : TicketRecord)
    → transition_record c actor request t ≡ ok u
    → Effect c (transitions actor request) t u
unfolding transition_record
transition-Effect c actor request t u h =
    let (_, owner, h₁) = >>=-eq-ok (require_active_owner t actor) _ h in
    let (ev, evaluates, h₂) =
      >>=-eq-ok
        (lift (
          evaluate_transition c.definition request.transition_id t.state_id t.field_values
            request.inputs request.outputs request.assessments))
        _ h₁ in
    let (scoped, _, h₃) = >>=-eq-ok (scope t) _ h₂ in
    let (_, _, h₄) =
      >>=-eq-ok (require_trusted_git_values c t (update ev.effective_inputs ev.effective_outputs)) _
        h₃ in
    let (_, _, h₅) =
      >>=-eq-ok
        (each (c.provider.read_artifact scoped) (
          internal_artifact_refs ev.effective_inputs
          ++ internal_artifact_refs ev.effective_outputs))
        _ h₄ in
    let (source, _, h₆) = >>=-eq-ok (lift (state c.definition t.state_id)) _ h₅ in
    let (destination, _, h₇) = >>=-eq-ok (lift (state c.definition ev.destination_state_id)) _ h₆ in
    (
      owner,
      ev,
      lift-eq-ok _ evaluates,
      transition_event c actor t ev source.name destination.name,
      ground arith,
    )

report-Effect :
    (c : Context) (actor : AgentTicketContext) (report : TicketReport) (t u : TicketRecord)
    → report_record c actor report t ≡ ok u
    → Effect c (reports actor report) t u
unfolding report_record
report-Effect c actor report t u h =
    let (_, owner, h₁) = >>=-eq-ok (require_active_owner t actor) _ h in
    let (current, _, h₂) = >>=-eq-ok (lift (state c.definition t.state_id)) _ h₁ in
    (owner, report_event c actor t report current.name, ground arith)

update-Effect :
    (c : Context) (actor : TicketActor) (patch : TicketPatch) (t u : TicketRecord)
    → update_record c actor patch t ≡ ok u
    → Effect c (updates actor patch) t u
unfolding update_record
update-Effect c actor patch t u h =
    let (_, owner, h₁) = >>=-eq-ok (require_owner t actor) _ h in
    let (_, fine, h₂) = >>=-eq-ok (check_patch c t patch.field_values) _ h₁ in
    (owner, fine, make_event c actor "updated" "Ticket content updated", ground arith)

pub change-Effect :
    (c : Context) (ch : Change) (t u : TicketRecord) → change c ch t ≡ ok u → Effect c ch t u
unfolding change assign_record start_work_record end_work_record sign_off_record cleanup_record
change-Effect c (assigns actor assignee) t u h = (
  ground arith,
  make_event c (user_actor actor) "assigned" "Ticket assignment changed",
  ground arith,
)
change-Effect c (starts actor) t u h =
    let (_, free, h₁) = >>=-eq-ok (require (may_take t.assignee actor.agent_name) _) _ h in
    let (_, own, h₂) = >>=-eq-ok (require (owns_reservation t actor t.pending_run) _) _ h₁ in
    let (_, alone, h₃) = >>=-eq-ok (require (not (other_run t.active_run actor)) _) _ h₂ in
    (
      require-eq-ok _ _ free,
      require-eq-ok _ _ own,
      not-eq-true _ (require-eq-ok _ _ alone),
      make_event c (agent_actor actor) "started-work" "Agent started work",
      ground arith,
    )
change-Effect c (ends actor) t u h =
    let (_, owner, rest) = >>=-eq-ok (require_active_owner t actor) _ h in
    (owner, make_event c (agent_actor actor) "ended-work" "Agent ended active work", ground arith)
change-Effect c (signs_off actor) t u h =
    let (_, owner, rest) = >>=-eq-ok (require_active_owner t actor) _ h in
    (
      owner,
      make_event c (agent_actor actor) "signed-off" "Agent signed off the ticket",
      ground arith,
    )
change-Effect c (updates actor patch) t u h = update-Effect c actor patch t u h
change-Effect c (transitions actor request) t u h = transition-Effect c actor request t u h
change-Effect c (reports actor report) t u h = report-Effect c actor report t u h
change-Effect c (cleans pending active) t u h = (
  record {
    id = "";
    kind = "ticket-run-cleanup";
    actor = "system";
    summary = "Ticket run cleanup confirmed";
    details = no_data;
    at = none;
  },
  ground arith,
)
