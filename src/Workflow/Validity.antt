-- ===== src/Workflow/Validity.antt =====
-- What the validators of a workflow definition accept, described without the validators.
pub mod Colors
use flowgency.Common.{
  ◌≡◌, ◌≤◌, ◌⊎◌, ◌↔◌, inl, inr, Bool, true, false, none, some, arith, ok, Accepts, accepts_require,
  accepts_then, accepts_each, All, In, Distinct, contains_iff, not-has_duplicates_iff, leb_iff,
  length, Option-cases,
}
use flowgency.Workflow.Validity.Colors.{IsColor, codes, is_hex_color_iff}
use flowgency.Workflow.Values.{FieldKind, artifact, is_null, kind_matches_value}
use flowgency.Workflow.Definition.{
  FieldDefinition, StateDefinition, Operator, equals, not_equals, is_present, Precondition,
  TransitionDefinition, WorkflowDefinition, max_states, max_fields, max_transitions,
  max_criteria_per_transition, use_ids, criterion_ids, state_ids, field_ids, transition_ids,
  first_type, validate_artifact_format, validate_color, validate_value, validate_criteria_count,
  validate_transition, validate_comparison, validate_precondition, validate_references,
  validate_definition, model_validate,
}

abbrev pub ColorFits : StateDefinition → Type 0
ColorFits s = IsColor (codes s.color)

-- Only an artifact field has a format.
abbrev pub FormatFits : FieldDefinition → Type 0
FormatFits f = (f.artifact_format ≡ none) ⊎ (f.type ≡ artifact)

-- A comparison has a value to compare with, and a presence test has none.
abbrev pub ValueGiven : Operator → Bool → Type 0
ValueGiven equals no_value = no_value ≡ false
ValueGiven not_equals no_value = no_value ≡ false
ValueGiven is_present no_value = no_value ≡ true

-- A comparison's value has the type of its field.
abbrev pub ComparisonFits : WorkflowDefinition → Precondition → Type 0
ComparisonFits d p =
    (p.operator ≡ is_present)
    ⊎ ((kind : FieldKind) × (first_type p.field_id d.fields ≡ some kind)
        × (kind_matches_value kind p.value ≡ true))

-- A transition on its own.
pub record IsWellFormed (t : TransitionDefinition) : Type 0 where
  pub values_given : All (λ p. ValueGiven p.operator (is_null p.value)) t.preconditions
  pub criteria_bounded : length t.criteria ≤ max_criteria_per_transition
  pub criteria_distinct : Distinct (criterion_ids t.criteria)
  pub inputs_distinct : Distinct (use_ids t.inputs)
  pub outputs_distinct : Distinct (use_ids t.outputs)
  pub preconditions_listed : All (λ p. In p.field_id (use_ids t.inputs)) t.preconditions

-- A transition's references into its definition.
pub record IsWired (d : WorkflowDefinition) (t : TransitionDefinition) : Type 0 where
  pub source_declared : In t.from_state (state_ids d)
  pub target_declared : In t.to_state (state_ids d)
  pub inputs_declared : All (λ u. In u.field_id (field_ids d)) t.inputs
  pub outputs_declared : All (λ u. In u.field_id (field_ids d)) t.outputs
  pub preconditions_typed :
      All (λ p. In p.field_id (field_ids d) × ComparisonFits d p) t.preconditions

pub record IsValid (d : WorkflowDefinition) : Type 0 where
  pub colors_fit : All ColorFits d.states
  pub formats_fit : All FormatFits d.fields
  pub well_formed : All IsWellFormed d.transitions
  pub states_bounded : length d.states ≤ max_states
  pub fields_bounded : length d.fields ≤ max_fields
  pub transitions_bounded : length d.transitions ≤ max_transitions
  pub states_distinct : Distinct (state_ids d)
  pub fields_distinct : Distinct (field_ids d)
  pub transitions_distinct : Distinct (transition_ids d)
  pub initial_declared : In d.initial_state (state_ids d)
  pub wired : All (IsWired d) d.transitions

format_accepts : (f : FieldDefinition) → Accepts (validate_artifact_format f) (FormatFits f)
unfolding validate_artifact_format
format_accepts f = ground arith

value_accepts :
    (p : Precondition) → Accepts (validate_value p) (ValueGiven p.operator (is_null p.value))
unfolding validate_value
value_accepts p = ground arith

comparison_accepts :
    (d : WorkflowDefinition) (p : Precondition)
    → Accepts (validate_comparison d p) (ComparisonFits d p)
unfolding validate_comparison
comparison_accepts d p = elim (Option-cases (first_type p.field_id d.fields)) [
  | inl missing ↦ ground arith
  | inr (kind, found) ↦ ground arith
]

-- The same statements in the order of the checks.
abbrev FormedParts : TransitionDefinition → Type 0
FormedParts t =
    All (λ p. ValueGiven p.operator (is_null p.value)) t.preconditions
    × ((length t.criteria ≤ max_criteria_per_transition)
        × (Distinct (criterion_ids t.criteria)
            × (Distinct (use_ids t.inputs)
                × (Distinct (use_ids t.outputs)
                    × All (λ p. In p.field_id (use_ids t.inputs)) t.preconditions))))

formed_iff : (t : TransitionDefinition) → FormedParts t ↔ IsWellFormed t
formed_iff t = (
  λ (v, (b, (c, (i, (o, p))))). record {
    values_given = v;
    criteria_bounded = b;
    criteria_distinct = c;
    inputs_distinct = i;
    outputs_distinct = o;
    preconditions_listed = p;
  },
  λ w. (
    w.values_given,
    (
      w.criteria_bounded,
      (w.criteria_distinct, (w.inputs_distinct, (w.outputs_distinct, w.preconditions_listed))),
    ),
  ),
)

formed_accepts : (t : TransitionDefinition) → Accepts (validate_transition t) (FormedParts t)
unfolding validate_transition validate_criteria_count
formed_accepts t = accepts_then _ _ (accepts_each _ validate_value t.preconditions value_accepts) (
    accepts_then _ _ (accepts_require _ _ (leb_iff _ _)) (
      accepts_then _ _ (accepts_require _ _ (not-has_duplicates_iff _)) (
        accepts_then _ _ (accepts_require _ _ (not-has_duplicates_iff _)) (
          accepts_then _ _ (accepts_require _ _ (not-has_duplicates_iff _)) (
            accepts_each _ _ t.preconditions
              (λ p. accepts_require _ _ (contains_iff p.field_id (use_ids t.inputs))))))))

accepts_by {ℓ} : {M P Q : Type ℓ} → M ↔ P → P ↔ Q → M ↔ Q
accepts_by m iff = (λ h. iff.0 (m.0 h), λ q. m.1 (iff.1 q))

abbrev WiredParts : WorkflowDefinition → TransitionDefinition → Type 0
WiredParts d t =
    In t.from_state (state_ids d)
    × (In t.to_state (state_ids d)
        × (All (λ u. In u.field_id (field_ids d)) t.inputs
            × (All (λ u. In u.field_id (field_ids d)) t.outputs
                × All (λ p. In p.field_id (field_ids d) × ComparisonFits d p) t.preconditions)))

IsWired-iff : (d : WorkflowDefinition) (t : TransitionDefinition) → WiredParts d t ↔ IsWired d t
IsWired-iff d t = (
  λ (s, (g, (i, (o, p)))). record {
    source_declared = s;
    target_declared = g;
    inputs_declared = i;
    outputs_declared = o;
    preconditions_typed = p;
  },
  λ w. (
    w.source_declared,
    (w.target_declared, (w.inputs_declared, (w.outputs_declared, w.preconditions_typed))),
  ),
)

wired_accepts :
    (d : WorkflowDefinition) (t : TransitionDefinition)
    → Accepts (validate_references d t) (WiredParts d t)
unfolding validate_references validate_precondition
wired_accepts d t = accepts_then _ _ (accepts_require _ _ (contains_iff _ _)) (
    accepts_then _ _ (accepts_require _ _ (contains_iff _ _)) (
      accepts_then _ _ (accepts_each _ _ t.inputs (λ u. accepts_require _ _ (contains_iff _ _))) (
        accepts_then _ _ (accepts_each _ _ t.outputs (λ u. accepts_require _ _ (contains_iff _ _)))
          (accepts_each _ _ t.preconditions (λ p.
            accepts_then _ _ (accepts_require _ _ (contains_iff _ _)) (comparison_accepts d p))))))

abbrev ValidParts : WorkflowDefinition → Type 0
ValidParts d =
    All ColorFits d.states
    × (All FormatFits d.fields
        × (All IsWellFormed d.transitions
            × ((length d.states ≤ max_states)
                × ((length d.fields ≤ max_fields)
                    × ((length d.transitions ≤ max_transitions)
                        × (Distinct (state_ids d)
                            × (Distinct (field_ids d)
                                × (Distinct (transition_ids d)
                                    × (In d.initial_state (state_ids d)
                                        × All (IsWired d) d.transitions)))))))))

IsValid-iff : (d : WorkflowDefinition) → ValidParts d ↔ IsValid d
IsValid-iff d = (
  λ (c, (f, (w, (s, (n, (t, (ds, (df, (dt, (i, r)))))))))). record {
    colors_fit = c;
    formats_fit = f;
    well_formed = w;
    states_bounded = s;
    fields_bounded = n;
    transitions_bounded = t;
    states_distinct = ds;
    fields_distinct = df;
    transitions_distinct = dt;
    initial_declared = i;
    wired = r;
  },
  λ v. (
    v.colors_fit,
    (
      v.formats_fit,
      (
        v.well_formed,
        (
          v.states_bounded,
          (
            v.fields_bounded,
            (
              v.transitions_bounded,
              (
                v.states_distinct,
                (v.fields_distinct, (v.transitions_distinct, (v.initial_declared, v.wired))),
              ),
            ),
          ),
        ),
      ),
    ),
  ),
)

valid_accepts : (d : WorkflowDefinition) → Accepts (model_validate d) (ValidParts d)
unfolding model_validate validate_color validate_definition
valid_accepts d =
    accepts_then _ _
      (accepts_each _ _ d.states (λ s. accepts_require _ _ (is_hex_color_iff s.color)))
      (accepts_then _ _ (accepts_each _ _ d.fields format_accepts) (
        accepts_then _ _
          (accepts_each _ _ d.transitions (λ t. accepts_by (formed_accepts t) (formed_iff t)))
          (accepts_then _ _ (accepts_require _ _ (leb_iff _ _)) (
            accepts_then _ _ (accepts_require _ _ (leb_iff _ _)) (
              accepts_then _ _ (accepts_require _ _ (leb_iff _ _)) (
                accepts_then _ _ (accepts_require _ _ (not-has_duplicates_iff _)) (
                  accepts_then _ _ (accepts_require _ _ (not-has_duplicates_iff _)) (
                    accepts_then _ _ (accepts_require _ _ (not-has_duplicates_iff _)) (
                      accepts_then _ _ (accepts_require _ _ (contains_iff _ _)) (
                        accepts_each _ _ d.transitions
                          (λ t. accepts_by (wired_accepts d t) (IsWired-iff d t))))))))))))

-- A definition passes validation exactly when it is valid: each colour a number sign and six
-- hexadecimal digits, with a newline behind them or not; formats and sizes in bounds; ids distinct and
-- every state, field and precondition value that it names declared and typed.
pub model_validate-IsValid : (d : WorkflowDefinition) → (model_validate d ≡ ok tt) ↔ IsValid d
model_validate-IsValid d = accepts_by (valid_accepts d) (IsValid-iff d)
