-- ===== src/Ticket/Change/Moves.antt =====
-- How a ticket leaves its state (tickets/service.py, `_transition_record`).
use flowgency.Common.{String, ◌≡◌, ◌∙◌, ap, List, arith, ok, In, >>=-eq-ok}
use flowgency.Common.Dict.{Dict, update}
use flowgency.Workflow.Values.{FieldValue}
use flowgency.Workflow.Definition.{
  WorkflowDefinition, TransitionDefinition, CriterionAssessment, transition,
}
use flowgency.Workflow.Lookup.{transition-In}
use flowgency.Workflow.Rules.{
  EvaluatedTransition, evaluate_transition, check_transition, field_defs, sorted_set,
  referenced_field_ids,
}
use flowgency.Workflow.Rules.Admits.{Admits, check_transition-Admits}
use flowgency.Ticket.Models.{AgentTicketContext, TicketRecord}
use flowgency.Ticket.Changes.{Context, TransitionRequest, require_active_owner}
use flowgency.Ticket.Change.{
  Change, change, assigns, starts, ends, signs_off, updates, transitions, reports, cleans,
}
use flowgency.Ticket.Change.Effects.{change-Effect}

-- An evaluation that returned names a transition of the definition, and leads where it leads.
pub evaluate_transition-ok :
    (d : WorkflowDefinition) (i s : String) (current supplied outputs : Dict FieldValue)
    (given : List CriterionAssessment) (ev : EvaluatedTransition)
    → evaluate_transition d i s current supplied outputs given ≡ ok ev
    → (tr : TransitionDefinition) × In tr d.transitions
      × (tr.id ≡ i)
      × Admits d tr s (update current supplied) outputs given
      × (ev.destination_state_id ≡ tr.to_state)
      × (ev.effective_outputs ≡ outputs)
unfolding evaluate_transition
evaluate_transition-ok d i s current supplied outputs given ev h =
    let (tr, found, h₁) = >>=-eq-ok (transition d i) _ h in
    let (u, checked, h₂) =
      >>=-eq-ok (check_transition d tr s (update current supplied) outputs given) _ h₁ in
    let (defs, _, h₃) = >>=-eq-ok (field_defs d (sorted_set (referenced_field_ids tr))) _ h₂ in
    let (member, named) = transition-In d i tr found in
    (
      tr,
      member,
      named,
      check_transition-Admits d tr s (update current supplied) outputs given checked,
      ground arith,
      ground arith,
    )

-- The move that a transition request makes.
pub record Moves (d : WorkflowDefinition) (actor : AgentTicketContext) (request : TransitionRequest)
    (t u : TicketRecord) : Type 0 where
  pub by_owner : require_active_owner t actor ≡ ok tt
  pub edge : TransitionDefinition
  pub declared : In edge d.transitions
  pub named : edge.id ≡ request.transition_id
  pub admitted :
      Admits d edge t.state_id
        (update t.field_values request.inputs)
        request.outputs
        request.assessments
  pub arrives : u.state_id ≡ edge.to_state
  pub writes : u.field_values ≡ update t.field_values request.outputs

pub transition-Moves :
    (c : Context) (actor : AgentTicketContext) (request : TransitionRequest) (t u : TicketRecord)
    → change c (transitions actor request) t ≡ ok u
    → Moves c.definition actor request t u
transition-Moves c actor request t u h =
    let (owner, ev, evaluates, e, same) = change-Effect c (transitions actor request) t u h in
    let (tr, member, named, admitted, arrives, outputs) =
      evaluate_transition-ok c.definition request.transition_id t.state_id t.field_values
        request.inputs request.outputs request.assessments ev evaluates in
    record {
      by_owner = owner;
      edge = tr;
      declared = member;
      named = named;
      admitted = admitted;
      arrives = ap (λ (x : TicketRecord). x.state_id) same ∙ arrives;
      writes = ap (λ (x : TicketRecord). x.field_values) same ∙ ap (update t.field_values) outputs;
    }

abbrev pub IsMove : WorkflowDefinition → Change → TicketRecord → TicketRecord → Type 0
IsMove d (transitions actor request) t u = Moves d actor request t u
IsMove d other t u = u.state_id ≡ t.state_id

-- A ticket leaves its state only by a transition request of its active owner, along a transition of
-- the definition that starts in that state and admits the request; the outputs are then written. Any
-- other change that is accepted leaves the state as it is.
pub change-IsMove :
    (c : Context) (ch : Change) (t u : TicketRecord)
    → change c ch t ≡ ok u
    → IsMove c.definition ch t u
change-IsMove c (transitions actor request) t u h = transition-Moves c actor request t u h
change-IsMove c (assigns actor assignee) t u h =
    let (idle, e, same) = change-Effect c (assigns actor assignee) t u h in ground arith
change-IsMove c (starts actor) t u h =
    let (free, own, alone, e, same) = change-Effect c (starts actor) t u h in ground arith
change-IsMove c (ends actor) t u h =
    let (owner, e, same) = change-Effect c (ends actor) t u h in ground arith
change-IsMove c (signs_off actor) t u h =
    let (owner, e, same) = change-Effect c (signs_off actor) t u h in ground arith
change-IsMove c (updates actor patch) t u h =
    let (owner, fine, e, same) = change-Effect c (updates actor patch) t u h in ground arith
change-IsMove c (reports actor report) t u h =
    let (owner, e, same) = change-Effect c (reports actor report) t u h in ground arith
change-IsMove c (cleans pending active) t u h =
    let (e, same) = change-Effect c (cleans pending active) t u h in ground arith
