-- ===== src/Workflow/Rules/Totality.antt =====
-- The subscripts of the evaluation (workflows/rules.py).
use flowgency.Common.{
  String, ◌≡◌, refl, ◌≢◌, inl, inr, Bool, true, false, not, some, List, [], ◌∷◌, ◌++◌, map, ap,
  Outcome-cases, arith, eq_iff, ◌==◌, ok, raise, ◌>>=◌, require, each, All, In, In-cons, All-In,
  All-mono, contains, In→contains, Bool-cases,
}
use flowgency.Common.Dict.{Dict, lookup, insert, update, keys, lookup-insert}
use flowgency.Workflow.Values.{
  FieldKind, text, number, boolean, artifact, FieldValue, Code, ContractError, key_error,
  contract_error, wrong_source_state, undeclared_output, unknown_criterion, duplicate_assessment,
  criterion_not_satisfied, invalid_supporting_field, missing_assessment, validate_field_value,
}
use flowgency.Workflow.Definition.{
  FieldDefinition, FieldUse, Operator, equals, not_equals, is_present, Precondition,
  TransitionDefinition, CriterionAssessment, WorkflowDefinition, use_ids, criterion_ids, field_ids,
  field_kinds, transition, model_validate,
}
use flowgency.Workflow.Validity.{IsWellFormed, IsWired, model_validate-IsValid}
use flowgency.Workflow.Lookup.{transition-In, field_defs_total}
use flowgency.Workflow.Rules.{
  Attempt, naming_field, check_use, check_declared, check_unlisted, check_operator,
  check_precondition, check_assessment, check_assessments, check_missing, check_transition,
  evaluate_transition,
}

-- Whatever is raised, it is no KeyError.
pub record AvoidsKeyError {A : Type 0} (m : Attempt A) : Type 0 where
  pub avoided : (e : ContractError) → m ≡ raise e → e.code ≢ key_error

avoids_ok : {A : Type 0} (a : A) → AvoidsKeyError (ok a)
avoids_ok a = record { avoided = λ e h. cc }

avoids_raise :
    {A B : Type 0} (e : ContractError)
    → AvoidsKeyError {A = A} (raise e)
    → AvoidsKeyError {A = B} (raise e)
avoids_raise e h = record { avoided = λ e' h'. h.avoided e' (cc) }

avoids_then :
    {A B : Type 0} (m : Attempt A) (f : A → Attempt B)
    → AvoidsKeyError m
    → ((a : A) → AvoidsKeyError (f a))
    → AvoidsKeyError (m >>= f)
avoids_then (ok a) f h k = k a
avoids_then (raise e) f h k = record { avoided = λ e' h'. h.avoided e' (cc) }

avoids_require : (b : Bool) (e : ContractError) → e.code ≢ key_error → AvoidsKeyError (require b e)
avoids_require true e h = avoids_ok tt
avoids_require false e h = record { avoided = λ e' h' k. h (cc) }

avoids_each :
    {A : Type 0} (f : A → Attempt (Unit {0})) (xs : List A)
    → All (λ x. AvoidsKeyError (f x)) xs
    → AvoidsKeyError (each f xs)
avoids_each f [] h = avoids_ok tt
avoids_each f (x ∷ xs) h = avoids_then (f x) _ h.0 (λ _. avoids_each f xs h.1)

All-always : {A : Type 0} (P : A → Type 0) (xs : List A) → ((x : A) → P x) → All P xs
All-always P [] h = tt
All-always P (x ∷ xs) h = (h x, All-always P xs h)

avoids_value :
    (i : String) (k : FieldKind) (v : FieldValue) (r : Bool)
    → AvoidsKeyError (naming_field i (validate_field_value k v r))
unfolding validate_field_value
avoids_value i text v r = record { avoided = λ e h. ground arith }
avoids_value i number v r = record { avoided = λ e h. ground arith }
avoids_value i boolean v r = record { avoided = λ e h. ground arith }
avoids_value i artifact v r = record { avoided = λ e h. ground arith }

-- An update keeps every key, and adds those of the second dictionary.
module _ {V : Type 0} where
  update_keeps :
      (k : String) (d e : Dict V) {v : V}
      → lookup k d ≡ some v
      → (w : V) × (lookup k (update d e) ≡ some w)
  unfolding update
  update_keeps k d [] {v = v} h = (v, h)
  update_keeps k d ((j, u) ∷ e) {v = v} h = elim (Bool-cases (j == k)) [
    | inl same ↦ update_keeps k (insert j u d) e {v = u} (ground (arith, lookup-insert j k u d))
    | inr other ↦ update_keeps k (insert j u d) e {v = v} (ground (arith, lookup-insert j k u d))
  ]

  update_adds :
      (k : String) (d e : Dict V) → In k (keys e) → (w : V) × (lookup k (update d e) ≡ some w)
  unfolding update
  update_adds k d [] i = elim i [ ]
  update_adds k d ((j, u) ∷ e) i = elim (In-cons i) [
    | inl same ↦
        update_keeps k (insert j u d) e {v = u} (ground (arith, lookup-insert j k u d, eq_iff j k))
    | inr later ↦ update_adds k (insert j u d) e later
  ]

keys-map : (fs : List FieldDefinition) → keys (map (λ f. (f.id, f.type)) fs) ≡ map (λ f. f.id) fs
keys-map [] = refl
keys-map (f ∷ fs) = ap (◌∷◌ f.id) (keys-map fs)

-- Every declared field has a kind.
pub field_kinds_total :
    (d : WorkflowDefinition) (i : String)
    → In i (field_ids d)
    → (k : FieldKind) × (lookup i (field_kinds d) ≡ some k)
unfolding field_kinds
field_kinds_total d i j = update_adds i [] _ (rw (keys-map d.fields) j)

avoids_use :
    (d : WorkflowDefinition) (values : Dict FieldValue) (u : FieldUse)
    → In u.field_id (field_ids d)
    → AvoidsKeyError (check_use (field_kinds d) values u)
unfolding check_use
avoids_use d values u i =
    let (k, found) = field_kinds_total d u.field_id i in
    rw found (
      avoids_then (naming_field u.field_id (validate_field_value k _ u.required)) _
        (avoids_value u.field_id k _ u.required) (λ _. avoids_ok tt))

avoids_operator :
    (o : Operator) (v w : FieldValue) (i : String) → AvoidsKeyError (check_operator o v w i)
unfolding check_operator
avoids_operator equals v w i = record { avoided = λ e h. ground arith }
avoids_operator not_equals v w i = record { avoided = λ e h. ground arith }
avoids_operator is_present v w i = record { avoided = λ e h. ground arith }

avoids_precondition :
    (kinds : Dict FieldKind) (listed : List String) (values : Dict FieldValue) (p : Precondition)
    → In p.field_id listed
    → AvoidsKeyError (check_precondition kinds listed values p)
unfolding check_precondition
avoids_precondition kinds listed values p i =
    rw (In→contains p.field_id listed i, check_unlisted)
      (avoids_operator p.operator _ p.value p.field_id)

avoids_code : (b : Bool) (c : Code) → c ≢ key_error → AvoidsKeyError (require b (contract_error c))
avoids_code b c h = avoids_require b (contract_error c) h

avoids_guard :
    {B : Type 0} (b : Bool) (c : Code) (f : Unit {0} → Attempt B)
    → c ≢ key_error
    → AvoidsKeyError (f tt)
    → AvoidsKeyError (require b (contract_error c) >>= f)
avoids_guard b c f h k = avoids_then (require b (contract_error c)) f (avoids_code b c h) (λ _. k)

-- A loop of membership tests.
avoids_tests :
    (c : Code) (ys xs : List String)
    → c ≢ key_error
    → AvoidsKeyError (each (λ x. require (contains x ys) (contract_error c)) xs)
avoids_tests c ys xs h =
    avoids_each (λ x. require (contains x ys) (contract_error c)) xs
      (All-always _ xs (λ x. avoids_code (contains x ys) c h))

avoids_assessment :
    (criteria context before : List String) (a : CriterionAssessment)
    → AvoidsKeyError (check_assessment criteria context before a)
unfolding check_assessment
avoids_assessment criteria context before a =
    avoids_guard (contains a.criterion_id criteria) unknown_criterion _ (λ e. cc)
      (avoids_guard (not (contains a.criterion_id before)) duplicate_assessment _ (λ e. cc)
        (avoids_guard a.satisfied criterion_not_satisfied _ (λ e. cc)
          (avoids_tests invalid_supporting_field context a.supporting_fields (λ e. cc))))

avoids_assessments :
    (criteria context before : List String) (given : List CriterionAssessment)
    → AvoidsKeyError (check_assessments criteria context before given)
unfolding check_assessments
avoids_assessments criteria context before [] = avoids_ok before
avoids_assessments criteria context before (a ∷ rest) =
    avoids_then (check_assessment criteria context before a) _
      (avoids_assessment criteria context before a)
      (λ _. avoids_assessments criteria context (a.criterion_id ∷ before) rest)

avoids_check_transition :
    (d : WorkflowDefinition) (t : TransitionDefinition) (state_id : String)
    (effective outputs : Dict FieldValue) (given : List CriterionAssessment)
    → IsWellFormed t
    → IsWired d t
    → AvoidsKeyError (check_transition d t state_id effective outputs given)
unfolding check_transition check_declared check_missing
avoids_check_transition d t state_id effective outputs given f w =
    avoids_guard (t.from_state == state_id) wrong_source_state _ (λ e. cc)
      (avoids_then (each (check_use (field_kinds d) effective) t.inputs) _
        (avoids_each _ t.inputs (All-mono _ _ (λ u. avoids_use d effective u) _ w.inputs_declared))
        (λ _.
          avoids_then (check_declared (use_ids t.outputs) (keys outputs)) _
            (avoids_tests undeclared_output (use_ids t.outputs) (keys outputs) (λ e. cc))
            (λ _.
              avoids_then (each (check_use (field_kinds d) outputs) t.outputs) _
                (avoids_each _ t.outputs
                  (All-mono _ _ (λ u. avoids_use d outputs u) _ w.outputs_declared))
                (λ _.
                  avoids_then
                    (each (check_precondition (field_kinds d) (use_ids t.inputs) effective)
                      t.preconditions)
                    _
                    (avoids_each _ t.preconditions (
                      All-mono _ _ (λ p. avoids_precondition _ _ effective p) _
                        f.preconditions_listed))
                    (λ _.
                      avoids_then
                        (check_assessments (criterion_ids t.criteria)
                          (keys effective ++ keys outputs) [] given)
                        _ (avoids_assessments _ _ [] given)
                        (λ done.
                          avoids_tests missing_assessment done (criterion_ids t.criteria)
                            (λ e. cc)))))))

avoids_transition : (d : WorkflowDefinition) (i : String) → AvoidsKeyError (transition d i)
unfolding transition
avoids_transition d i = record { avoided = λ e h. ground arith }

-- Evaluating a transition of a validated definition never fails on a missing key, whatever the
-- values, outputs and assessments that the caller supplies.
pub evaluate_transition-AvoidsKeyError :
    (d : WorkflowDefinition) (transition_id state_id : String)
    (current supplied outputs : Dict FieldValue) (given : List CriterionAssessment)
    → model_validate d ≡ ok tt
    → AvoidsKeyError (evaluate_transition d transition_id state_id current supplied outputs given)
unfolding evaluate_transition
evaluate_transition-AvoidsKeyError d transition_id state_id current supplied outputs given valid =
    elim (Outcome-cases (transition d transition_id)) [
      | inl (t, found) ↦
          let v = (model_validate-IsValid d).0 valid in
          let (member, _) = transition-In d transition_id t found in
          let wired = All-In _ v.wired member in
          let (defs, resolved) = field_defs_total d t wired in
          rw (found, resolved)
            (avoids_then (check_transition d t state_id _ outputs given) _
              (avoids_check_transition d t state_id _ outputs given (All-In _ v.well_formed member)
                wired)
              (λ _. avoids_ok _))
      | inr (e, missing) ↦
          rw missing (avoids_raise e (rw missing at (avoids_transition d transition_id)))
    ]
