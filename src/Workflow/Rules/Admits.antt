-- ===== src/Workflow/Rules/Admits.antt =====
-- When a transition is admitted, described without the loops of workflows/rules.py.
use flowgency.Common.{
  String, ◌≡◌, subst, All-both, ◌↔◌, List, [], ◌++◌, eq_iff, ok, require, each, All, In, Distinct,
  In→contains, All-In, All-each, each-All, All-mono, >>=-eq-ok, require-eq-ok, ◌==◌,
}
use flowgency.Common.Dict.{Dict, update, keys}
use flowgency.Workflow.Values.{FieldValue, undeclared_output, contract_error}
use flowgency.Workflow.Definition.{
  TransitionDefinition, CriterionAssessment, WorkflowDefinition, use_ids, criterion_ids,
  field_kinds, transition, model_validate,
}
use flowgency.Workflow.Validity.{IsWellFormed, model_validate-IsValid}
use flowgency.Workflow.Lookup.{transition-In, field_defs_total}
use flowgency.Workflow.Rules.{
  check_use, check_declared, check_precondition, check_assessments, check_missing, check_transition,
  EvaluatedTransition, evaluated, evaluate_transition,
}
use flowgency.Workflow.Rules.Uses.{
  UseFits, check_use-UseFits, UseFits-check_use, PreconditionHolds, check_precondition-holds,
  holds-check_precondition,
}
use flowgency.Workflow.Rules.Assessments.{
  Supports, assessed_ids, each-contains-All, check_assessments_sound, check_assessments_complete,
  Fresh→Distinct, Distinct→Fresh, check_missing-covers,
}

-- The request is admitted in the state, with the values in effect and the outputs offered.
pub record Admits (d : WorkflowDefinition) (t : TransitionDefinition) (state_id : String)
    (effective outputs : Dict FieldValue) (assessments : List CriterionAssessment) : Type 0 where
  pub at_source : t.from_state ≡ state_id
  pub inputs_fit : All (UseFits (field_kinds d) effective) t.inputs
  pub outputs_declared : All (λ k. In k (use_ids t.outputs)) (keys outputs)
  pub outputs_fit : All (UseFits (field_kinds d) outputs) t.outputs
  pub preconditions_hold : All (PreconditionHolds effective) t.preconditions
  pub supported :
      All (Supports (criterion_ids t.criteria) (keys effective ++ keys outputs)) assessments
  pub assessed_once : Distinct (assessed_ids assessments)
  pub all_assessed : All (λ c. In c (assessed_ids assessments)) (criterion_ids t.criteria)

module _ (d : WorkflowDefinition) (t : TransitionDefinition) (state_id : String)
    (effective outputs : Dict FieldValue) (assessments : List CriterionAssessment) where
  pub check_transition-Admits :
      check_transition d t state_id effective outputs assessments ≡ ok tt
      → Admits d t state_id effective outputs assessments
  unfolding check_transition check_declared
  check_transition-Admits h =
      let (u₁, e₁, h₁) = >>=-eq-ok (require (t.from_state == state_id) _) _ h in
      let (u₂, e₂, h₂) = >>=-eq-ok (each (check_use (field_kinds d) effective) t.inputs) _ h₁ in
      let (u₃, e₃, h₃) = >>=-eq-ok (check_declared (use_ids t.outputs) (keys outputs)) _ h₂ in
      let (u₄, e₄, h₄) = >>=-eq-ok (each (check_use (field_kinds d) outputs) t.outputs) _ h₃ in
      let (u₅, e₅, h₅) =
        >>=-eq-ok
          (each (check_precondition (field_kinds d) (use_ids t.inputs) effective) t.preconditions) _
          h₄ in
      let (done, e₆, h₆) =
        >>=-eq-ok
          (check_assessments (criterion_ids t.criteria) (keys effective ++ keys outputs) []
            assessments)
          _ h₅ in
      let (supported, fresh, eq) = check_assessments_sound _ _ [] assessments e₆ in
      record {
        at_source = (eq_iff t.from_state state_id).0 (require-eq-ok _ _ e₁);
        inputs_fit = All-mono _ _ (λ u. check_use-UseFits _ _ u) t.inputs (All-each _ t.inputs e₂);
        outputs_declared = (each-contains-All (use_ids t.outputs) _ (keys outputs)).0 e₃;
        outputs_fit =
            All-mono _ _ (λ u. check_use-UseFits _ _ u) t.outputs (All-each _ t.outputs e₄);
        preconditions_hold =
            All-mono _ _ (λ p. check_precondition-holds _ _ _ p) t.preconditions
              (All-each _ t.preconditions e₅);
        supported = supported;
        assessed_once = Fresh→Distinct [] assessments fresh;
        all_assessed =
            (check_missing-covers (criterion_ids t.criteria) assessments).0
              (subst (λ x. check_missing (criterion_ids t.criteria) x ≡ ok tt) eq h₆);
      }

  pub Admits-check_transition :
      IsWellFormed t
      → Admits d t state_id effective outputs assessments
      → check_transition d t state_id effective outputs assessments ≡ ok tt
  unfolding check_transition check_declared
  Admits-check_transition w a =
      rw
        (
          (eq_iff t.from_state state_id).1 a.at_source,
          each-All (check_use (field_kinds d) effective) t.inputs
              (All-mono _ _ (λ u. UseFits-check_use _ _ u) t.inputs a.inputs_fit),
          (each-contains-All (use_ids t.outputs) (contract_error undeclared_output)
                (keys outputs)).1
              a.outputs_declared,
          each-All (check_use (field_kinds d) outputs) t.outputs
              (All-mono _ _ (λ u. UseFits-check_use _ _ u) t.outputs a.outputs_fit),
          preconditions_pass,
          check_assessments_complete (criterion_ids t.criteria) (keys effective ++ keys outputs) []
              assessments a.supported
              (Distinct→Fresh [] assessments a.assessed_once (λ x i. elim i [ ])),
        )
        ((check_missing-covers (criterion_ids t.criteria) assessments).1 a.all_assessed)
    where
      preconditions_pass :
          each (check_precondition (field_kinds d) (use_ids t.inputs) effective) t.preconditions
          ≡ ok tt
      preconditions_pass = each-All _ t.preconditions (
          All-mono _ _
            (λ p both. holds-check_precondition _ _ effective p (In→contains _ _ both.0) both.1)
            t.preconditions
            (All-both _ _ t.preconditions w.preconditions_listed a.preconditions_hold))

-- A transition of a validated definition is evaluated exactly when it is admitted: the ticket is in
-- its source state, every declared input and output fits its field, no other output is offered, the
-- preconditions hold, and each criterion has one satisfied assessment that names known fields.
pub evaluate_transition-Admits :
    (d : WorkflowDefinition) (transition_id state_id : String) (t : TransitionDefinition)
    (current supplied outputs : Dict FieldValue) (assessments : List CriterionAssessment)
    → model_validate d ≡ ok tt
    → transition d transition_id ≡ ok t
    → ((ev : EvaluatedTransition) × (evaluate_transition d transition_id state_id current supplied
            outputs assessments
          ≡ ok ev))
      ↔ Admits d t state_id (update current supplied) outputs assessments
unfolding evaluate_transition
evaluate_transition-Admits d transition_id state_id t current supplied outputs assessments valid
      found =
    (
      λ (ev, h).
          let (u, e, _) =
            >>=-eq-ok (check_transition d t state_id (update current supplied) outputs assessments)
              _ (rw found at h) in
          check_transition-Admits d t state_id (update current supplied) outputs assessments e,
      λ a.
          let v = (model_validate-IsValid d).0 valid in
          let (member, _) = transition-In d transition_id t found in
          let (defs, resolved) = field_defs_total d t (All-In _ v.wired member) in
          (
            evaluated t (update current supplied) outputs assessments defs,
            rw (
              found,
              Admits-check_transition d t state_id (update current supplied) outputs assessments
                  (All-In _ v.well_formed member) a,
              resolved,
            ),
          ),
    )
