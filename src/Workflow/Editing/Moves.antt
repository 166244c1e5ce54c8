-- ===== src/Workflow/Editing/Moves.antt =====
-- Moving a state of a definition (workflows/editing.py, `move_state`).
use flowgency.Common.{
  String, ℕ, zero, suc, ◌≤◌, ◌<◌, ◌≡◌, refl, sym, ap, subst, inl, inr, true, Option, none, some,
  List, [], ◌∷◌, map, ok, ◌∙◌, All, All-In, All-mono, In, here, there, In-cons, Distinct, length,
  Bool-cases, arith, ◌==◌, eq_iff, leb, leb_iff,
}
use flowgency.Workflow.Values.{pos}
use flowgency.Workflow.Definition.{
  StateDefinition, WorkflowDefinition, state_ids, state, max_states,
}
use flowgency.Workflow.Validity.{IsValid, IsWired, ColorFits, model_validate-IsValid}
use flowgency.Workflow.Lookup.{find_by-In, state_total}
use flowgency.Workflow.Editing.{
  DefinitionEdit, rebuild, move_state, without, insert_at, checked_index,
}
use flowgency.Workflow.Editing.Keys.{move-Kept, state_key, without-In, In-insert_at}
use flowgency.Workflow.Editing.Preserved.{state-In}

-- Other states under the same ids leave a definition valid.
IsValid-states :
    (d : WorkflowDefinition) (ss : List StateDefinition)
    → IsValid d
    → All ColorFits ss
    → length ss ≤ max_states
    → Distinct (map state_key ss)
    → All (λ i. In i (map state_key ss)) (state_ids d)
    → IsValid (record d { states = ss })
IsValid-states d ss v colors bounded distinct kept = record {
  colors_fit = colors;
  formats_fit = v.formats_fit;
  well_formed = v.well_formed;
  states_bounded = bounded;
  fields_bounded = v.fields_bounded;
  transitions_bounded = v.transitions_bounded;
  states_distinct = distinct;
  fields_distinct = v.fields_distinct;
  transitions_distinct = v.transitions_distinct;
  initial_declared = All-In (λ i. In i (map state_key ss)) kept v.initial_declared;
  wired =
      All-mono (IsWired d) _
        (λ t w. record {
          source_declared = All-In (λ i. In i (map state_key ss)) kept w.source_declared;
          target_declared = All-In (λ i. In i (map state_key ss)) kept w.target_declared;
          inputs_declared = w.inputs_declared;
          outputs_declared = w.outputs_declared;
          preconditions_typed = w.preconditions_typed;
        })
        d.transitions v.wired;
}

rebuild_returns :
    (d : WorkflowDefinition) (created : Option String)
    → IsValid d
    → rebuild d created ≡ ok (record { definition = d; created_id = created })
unfolding rebuild
rebuild_returns d created v = rw ((model_validate-IsValid d).1 v) refl

-- The list without the state, and with it again.
module _ (i : String) where
  without-not_In : (ss : List StateDefinition) → ¬ In i (map state_key (without i ss))
  unfolding without
  without-not_In [] j = elim j [ ]
  without-not_In (s ∷ ss) j = elim (Bool-cases (s.id == i)) [
    | inl same ↦ without-not_In ss (rw same at j)
    | inr other ↦ elim (In-cons (rw other at j)) [
      | inl e ↦ ground (arith, eq_iff s.id i)
      | inr later ↦ without-not_In ss later
    ]
  ]

  without-Distinct :
      (ss : List StateDefinition)
      → Distinct (map state_key ss)
      → Distinct (map state_key (without i ss))
  unfolding without
  without-Distinct [] h = tt
  without-Distinct (s ∷ ss) h = elim (Bool-cases (s.id == i)) [
    | inl same ↦ rw same (without-Distinct ss h.1)
    | inr other ↦ rw other ((λ j. h.0 (without-In i s.id ss j)), without-Distinct ss h.1)
  ]

  without-All :
      (P : StateDefinition → Type 0) (ss : List StateDefinition) → All P ss → All P (without i ss)
  unfolding without
  without-All P [] h = tt
  without-All P (s ∷ ss) h = elim (Bool-cases (s.id == i)) [
    | inl same ↦ rw same (without-All P ss h.1)
    | inr other ↦ rw other (h.0, without-All P ss h.1)
  ]

  without_absent : (ss : List StateDefinition) → ¬ In i (map state_key ss) → without i ss ≡ ss
  unfolding without
  without_absent [] h = refl
  without_absent (s ∷ ss) h = elim (Bool-cases (s.id == i)) [
    | inl same ↦
        absurd (h (subst (λ z. In z (s.id ∷ map state_key ss)) ((eq_iff s.id i).0 same) here))
    | inr other ↦ rw other (ap (◌∷◌ s) (without_absent ss (λ j. h (there j))))
  ]

  length-without :
      (ss : List StateDefinition)
      → Distinct (map state_key ss)
      → In i (map state_key ss)
      → suc (length (without i ss)) ≡ length ss
  unfolding without
  length-without [] h j = elim j [ ]
  length-without (s ∷ ss) h j = elim (Bool-cases (s.id == i)) [
    | inl same ↦
        let gone =
          without_absent ss (subst (λ z. ¬ In z (map state_key ss)) ((eq_iff s.id i).0 same) h.0) in
        rw (same, gone) refl
    | inr other ↦ elim (In-cons j) [
      | inl e ↦ absurd (ground (arith, eq_iff s.id i))
      | inr later ↦ rw other (ap suc (length-without ss h.1 later))
    ]
  ]

  without-insert_at :
      (n : ℕ) (s : StateDefinition) (ss : List StateDefinition)
      → s.id ≡ i
      → without i (insert_at n s ss) ≡ without i ss
  unfolding without insert_at
  without-insert_at zero s ss e = ground (arith, eq_iff s.id i)
  without-insert_at (suc n) s [] e = ground (arith, eq_iff s.id i)
  without-insert_at (suc n) s (x ∷ ss) e = elim (Bool-cases (x.id == i)) [
    | inl same ↦ rw same (without-insert_at n s ss e)
    | inr other ↦ rw other (ap (◌∷◌ x) (without-insert_at n s ss e))
  ]

  without_twice : (ss : List StateDefinition) → without i (without i ss) ≡ without i ss
  without_twice ss = without_absent (without i ss) (without-not_In ss)

length-insert_at :
    {A : Type 0} (n : ℕ) (a : A) (xs : List A) → length (insert_at n a xs) ≡ suc (length xs)
unfolding insert_at
length-insert_at zero a xs = refl
length-insert_at (suc n) a [] = refl
length-insert_at (suc n) a (x ∷ xs) = ap suc (length-insert_at n a xs)

insert_at-Distinct :
    (n : ℕ) (s : StateDefinition) (ss : List StateDefinition)
    → ¬ In s.id (map state_key ss)
    → Distinct (map state_key ss)
    → Distinct (map state_key (insert_at n s ss))
unfolding insert_at
insert_at-Distinct zero s ss new h = (new, h)
insert_at-Distinct (suc n) s [] new h = (new, h)
insert_at-Distinct (suc n) s (x ∷ ss) new h = (
  λ j. elim (In-insert_at state_key n s ss x.id j) [
    | inl e ↦ new (subst (λ z. In z (x.id ∷ map state_key ss)) e here)
    | inr old ↦ h.0 old
  ],
  insert_at-Distinct n s ss (λ j. new (there j)) h.1,
)

insert_at-All :
    (P : StateDefinition → Type 0) (n : ℕ) (s : StateDefinition) (ss : List StateDefinition)
    → P s
    → All P ss
    → All P (insert_at n s ss)
unfolding insert_at
insert_at-All P zero s ss p h = (p, h)
insert_at-All P (suc n) s [] p h = (p, tt)
insert_at-All P (suc n) s (x ∷ ss) p h = (h.0, insert_at-All P n s ss p h.1)

-- xs[n]
abbrev pub get_elem? : {A : Type 0} → ℕ → List A → Option A
get_elem? n [] = none
get_elem? zero (x ∷ xs) = some x
get_elem? (suc n) (x ∷ xs) = get_elem? n xs

get_elem?-insert_at :
    {A : Type 0} (n : ℕ) (a : A) (xs : List A)
    → n ≤ length xs
    → get_elem? n (insert_at n a xs) ≡ some a
unfolding insert_at
get_elem?-insert_at zero a xs h = refl
get_elem?-insert_at (suc n) a [] h = absurd (omega arith)
get_elem?-insert_at (suc n) a (x ∷ xs) h = get_elem?-insert_at n a xs (omega arith)

state_listed :
    (d : WorkflowDefinition) (i : String) (s : StateDefinition)
    → state d i ≡ ok s
    → In s d.states × (s.id ≡ i)
unfolding state
state_listed d i s h = find_by-In (λ u. u.id) i d.states {x = s} (ground arith)

-- The state stands at the given place, and the others in the order they had.
pub record IsMoved (d : WorkflowDefinition) (i : String) (n : ℕ) (done : DefinitionEdit)
    : Type 0 where
  pub moved : StateDefinition
  pub was_there : In moved d.states
  pub named : moved.id ≡ i
  pub placed : get_elem? n done.definition.states ≡ some moved
  pub others_kept : without i done.definition.states ≡ without i d.states
  pub same_length : length done.definition.states ≡ length d.states

-- In a valid definition any declared state may be moved to any index of the list: the command
-- returns, the state is at that index, and the other states keep their order.
pub move_state-IsMoved :
    (d : WorkflowDefinition) (i : String) (n : ℕ)
    → IsValid d
    → In i (state_ids d)
    → n < length d.states
    → (done : DefinitionEdit) × (move_state d i (pos n) ≡ ok done) × IsMoved d i n done
unfolding move_state checked_index
move_state-IsMoved d i n v declared inside =
    let (s, found) = state_total d i declared in
    let (listed, same) = state_listed d i s found in
    let rest = without i d.states in
    let counted : suc (length rest) ≡ length d.states =
      length-without i d.states v.states_distinct declared in
    let fits : leb n (length rest) ≡ true = (leb_iff n (length rest)).1 (omega arith) in
    let moved = insert_at n s rest in
    let long : length moved ≡ length d.states = length-insert_at n s rest ∙ counted in
    let fresh : ¬ In s.id (map state_key rest) =
      λ j. without-not_In i d.states (subst (λ z. In z (map state_key rest)) same j) in
    let valid =
      IsValid-states d moved v
        (insert_at-All ColorFits n s rest (All-In ColorFits v.colors_fit listed)
          (without-All i ColorFits d.states v.colors_fit))
        (subst (λ l. l ≤ max_states) (sym long) v.states_bounded)
        (insert_at-Distinct n s rest fresh (without-Distinct i d.states v.states_distinct))
        (move-Kept i n s d.states (state-In d i s found).0 same).0 in
    (
      record { definition = record d { states = moved }; created_id = none },
      rw (found, fits) (rebuild_returns (record d { states = moved }) none valid),
      record {
        moved = s;
        was_there = listed;
        named = same;
        placed = get_elem?-insert_at n s rest (omega arith);
        others_kept = without-insert_at i n s rest same ∙ without_twice i d.states;
        same_length = long;
      },
    )
