-- ===== src/Ticket/Change/Types.antt =====
-- The kinds of the values that a change writes (tickets/service.py).
use flowgency.Common.{
  String, ◌≡◌, refl, sym, subst, inl, inr, Bool, true, ◌||◌, Option, none, some, List, [], ◌∷◌,
  arith, ◌==◌, eq_iff, ok, All, In, here, there, All-In, All-each, each, >>=-eq-ok, Bool-cases,
}
use flowgency.Common.Dict.{
  Dict, lookup, update, keys, Entries, update-Entries, HasUniqueKeys, lookup-has_key,
}
use flowgency.Workflow.Values.{
  FieldKind, text, number, boolean, artifact, FieldValue, is_null, kind_matches_value,
}
use flowgency.Workflow.Definition.{
  WorkflowDefinition, FieldUse, CriterionAssessment, TransitionDefinition, state_ids, use_ids,
  field_kinds, model_validate,
}
use flowgency.Workflow.Validity.{model_validate-IsValid}
use flowgency.Workflow.Rules.{get_value}
use flowgency.Workflow.Rules.Uses.{Fits}
use flowgency.Workflow.Rules.Admits.{Admits}
use flowgency.Ticket.Models.{TicketRecord}
use flowgency.Ticket.Changes.{Context}
use flowgency.Ticket.Progress.{check_patch, patched, validate_field_values, check_field_value}
use flowgency.Ticket.Typing.{ValueTyped, IsTyped}
use flowgency.Ticket.Change.{
  Change, change, assigns, starts, ends, signs_off, updates, transitions, reports, cleans,
}
use flowgency.Ticket.Change.Effects.{change-Effect}
use flowgency.Ticket.Change.Moves.{transition-Moves}

Fits-kind :
    (k : FieldKind) (required : Bool) (v : FieldValue)
    → Fits k required v
    → (is_null v || kind_matches_value k v) ≡ true
unfolding kind_matches_value
Fits-kind text required v h = ground arith
Fits-kind number required v h = ground arith
Fits-kind boolean required v h = ground arith
Fits-kind artifact required v h = ground arith

module _ {V : Type 0} where
  -- With no key twice, what holds of every look-up holds of every entry.
  lookups-Entries :
      (P : String → V → Type 0) (d : Dict V)
      → HasUniqueKeys d
      → ((i : String) (v : V) → lookup i d ≡ some v → P i v)
      → Entries P d
  unfolding lookup
  lookups-Entries P [] unique each_one = tt
  lookups-Entries P ((k, v) ∷ d) unique each_one = (
    each_one k v (ground (arith, eq_iff k k)),
    lookups-Entries P d unique.1 (λ i w found. each_one i w (later i w found)),
  )
    where
      later : (i : String) (w : V) → lookup i d ≡ some w → lookup i ((k, v) ∷ d) ≡ some w
      later i w found = elim (Bool-cases (k == i)) [
        | inl same ↦
            ground (arith, eq_iff k i, lookup-has_key k d {v = w}, lookup-has_key i d {v = w})
        | inr other ↦ ground arith
      ]

  lookup-In : (i : String) (v : V) (d : Dict V) → lookup i d ≡ some v → In i (keys d)
  unfolding lookup
  lookup-In i v [] found = cc
  lookup-In i v ((k, w) ∷ d) found = elim (Bool-cases (k == i)) [
    | inl same ↦ subst (λ x. In x (k ∷ keys d)) ((eq_iff k i).0 same) here
    | inr other ↦ there (lookup-In i v d (ground arith))
  ]

use_ids-In :
    (i : String) (us : List FieldUse)
    → In i (use_ids us)
    → (u : FieldUse) × In u us × (u.field_id ≡ i)
use_ids-In i [] m = elim m [ ]
use_ids-In i (u ∷ us) here = (u, here, refl)
use_ids-In i (u ∷ us) (there m) =
    let (w, inside, named) = use_ids-In i us m in (w, there inside, named)

-- The outputs of an admitted request are typed.
outputs_typed :
    (d : WorkflowDefinition) (edge : TransitionDefinition) (s : String)
    (effective outputs : Dict FieldValue) (given : List CriterionAssessment)
    → Admits d edge s effective outputs given
    → HasUniqueKeys outputs
    → Entries (ValueTyped d) outputs
outputs_typed d edge s effective outputs given a unique =
    lookups-Entries (ValueTyped d) outputs unique (λ i v found. typed i v found)
  where
    typed : (i : String) (v : FieldValue) → lookup i outputs ≡ some v → ValueTyped d i v
    typed i v found k declared =
        let (u, inside, named) =
          use_ids-In i edge.outputs (All-In _ a.outputs_declared (lookup-In i v outputs found)) in
        let (k', declared', fits) = All-In _ a.outputs_fit inside in
        let same = subst (λ x. lookup x (field_kinds d) ≡ some k') named declared' in
        let fit = subst (λ x. Fits k' u.required (get_value x outputs)) named fits in
        let value : get_value i outputs ≡ v = rw found refl in
        subst (λ x. (is_null v || kind_matches_value x v) ≡ true) (ground arith)
          (Fits-kind k' u.required v (subst (Fits k' u.required) value fit))

pub checked-Entries :
    (d : WorkflowDefinition) (values : Dict FieldValue)
    → All (λ p. check_field_value (field_kinds d) p ≡ ok tt) values
    → Entries (ValueTyped d) values
unfolding check_field_value
checked-Entries d [] h = tt
checked-Entries d ((i, v) ∷ rest) h =
    (λ k declared. ground (arith, h.0, declared), checked-Entries d rest h.1)

-- A patch that passes its checks keeps the values typed.
patched-typed :
    (c : Context) (t : TicketRecord) (patch : Option (Dict FieldValue))
    → check_patch c t patch ≡ ok tt
    → Entries (ValueTyped c.definition) t.field_values
    → Entries (ValueTyped c.definition) (patched t.field_values patch)
unfolding check_patch validate_field_values
patched-typed c t none h typed = typed
patched-typed c t (some values) h typed =
    let (u, checked, rest) =
      >>=-eq-ok (each (check_field_value (field_kinds c.definition)) values) _ h in
    update-Entries (ValueTyped c.definition) t.field_values values typed
      (checked-Entries c.definition values (All-each _ values checked))

-- The outputs of a request come in a dict.
abbrev pub IsDictChange : Change → Type 0
IsDictChange (transitions actor request) = HasUniqueKeys request.outputs
IsDictChange other = Unit

-- The state and the values alone decide.
IsTyped-same :
    (d : WorkflowDefinition) (t u : TicketRecord)
    → u.state_id ≡ t.state_id
    → u.field_values ≡ t.field_values
    → IsTyped d t
    → IsTyped d u
IsTyped-same d t u same_state same_values typed = record {
  placed = subst (λ s. In s (state_ids d)) (sym same_state) typed.placed;
  typed = subst (Entries (ValueTyped d)) (sym same_values) typed.typed;
}

-- Under a validated definition, a change that is accepted keeps the ticket in a declared state and
-- every value of a declared field null or of its kind: the definition stays compatible with the
-- ticket. The outputs of a request are a dict, with no key twice.
pub change-IsTyped :
    (c : Context) (ch : Change) (t u : TicketRecord)
    → model_validate c.definition ≡ ok tt
    → IsDictChange ch
    → IsTyped c.definition t
    → change c ch t ≡ ok u
    → IsTyped c.definition u
change-IsTyped c (transitions actor request) t u valid unique typed h =
    let moves = transition-Moves c actor request t u h in
    let wired = All-In _ ((model_validate-IsValid c.definition).0 valid).wired moves.declared in
    record {
      placed = subst (λ s. In s (state_ids c.definition)) (sym moves.arrives) wired.target_declared;
      typed = subst (Entries (ValueTyped c.definition)) (sym moves.writes) (
          update-Entries (ValueTyped c.definition) t.field_values request.outputs typed.typed (
            outputs_typed c.definition moves.edge t.state_id (update t.field_values request.inputs)
              request.outputs request.assessments moves.admitted unique));
    }
change-IsTyped c (updates actor patch) t u valid unique typed h =
    let (owner, fine, e, same) = change-Effect c (updates actor patch) t u h in
    record {
      placed = rw same typed.placed;
      typed = rw same (patched-typed c t patch.field_values fine typed.typed);
    }
change-IsTyped c (assigns actor assignee) t u valid unique typed h =
    let (idle, e, same) = change-Effect c (assigns actor assignee) t u h in
    IsTyped-same c.definition t u (ground arith) (ground arith) typed
change-IsTyped c (starts actor) t u valid unique typed h =
    let (free, own, alone, e, same) = change-Effect c (starts actor) t u h in
    IsTyped-same c.definition t u (ground arith) (ground arith) typed
change-IsTyped c (ends actor) t u valid unique typed h =
    let (owner, e, same) = change-Effect c (ends actor) t u h in
    IsTyped-same c.definition t u (ground arith) (ground arith) typed
change-IsTyped c (signs_off actor) t u valid unique typed h =
    let (owner, e, same) = change-Effect c (signs_off actor) t u h in
    IsTyped-same c.definition t u (ground arith) (ground arith) typed
change-IsTyped c (reports actor report) t u valid unique typed h =
    let (owner, e, same) = change-Effect c (reports actor report) t u h in
    IsTyped-same c.definition t u (ground arith) (ground arith) typed
change-IsTyped c (cleans pending active) t u valid unique typed h =
    let (e, same) = change-Effect c (cleans pending active) t u h in
    IsTyped-same c.definition t u (ground arith) (ground arith) typed
