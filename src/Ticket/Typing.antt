-- ===== src/Ticket/Typing.antt =====
-- flowgency/workflows/configuration.py, `require_compatible`: which tickets a definition can
-- interpret.
pub mod Edits
pub mod Examples
use flowgency.Common.{
  String, ◌≡◌, refl, subst, ◌↔◌, inl, inr, true, ◌||◌, none, some, List, [], ◌∷◌, ◌++◌, arith,
  if◌then◌else◌, Outcome, ok, raise, All, In, contains, contains→In, In→contains, Bool-cases,
  Option-cases,
}
use flowgency.Common.Dict.{Dict, lookup, Entries}
use flowgency.Workflow.Values.{FieldKind, FieldValue, is_null, kind_matches_value}
use flowgency.Workflow.Definition.{WorkflowDefinition, state_ids, field_kinds}
use flowgency.Ticket.Models.{TicketRecord}

-- A value of a declared field is null or of the field's kind; other fields are history.
abbrev pub ValueTyped : WorkflowDefinition → String → FieldValue → Type 0
ValueTyped d i v =
    (k : FieldKind)
    → lookup i (field_kinds d) ≡ some k
    → (is_null v || kind_matches_value k v) ≡ true

-- The ticket's state is declared and its values are typed.
pub record IsTyped (d : WorkflowDefinition) (t : TicketRecord) : Type 0 where
  pub placed : In t.state_id (state_ids d)
  pub typed : Entries (ValueTyped d) t.field_values

-- One issue of `require_compatible`: a state that is gone, or a value of another type.
pub data CompatibilityIssue : Type 0 where
  state_gone : String → CompatibilityIssue
  value_mistyped : String → String → CompatibilityIssue

unfoldable pub value_issues : Dict FieldKind → String → Dict FieldValue → List CompatibilityIssue
value_issues kinds ticket_id [] = []
value_issues kinds ticket_id ((i, v) ∷ rest) =
    let others = value_issues kinds ticket_id rest in
    elim (lookup i kinds) [
      | none ↦ others
      | some kind ↦
          if is_null v || kind_matches_value kind v
          then others
          else value_mistyped ticket_id i ∷ others
    ]

unfoldable pub record_issues : WorkflowDefinition → TicketRecord → List CompatibilityIssue
unfolding value_issues
record_issues d t =
    let mistyped = value_issues (field_kinds d) t.id t.field_values in
    if contains t.state_id (state_ids d) then mistyped else state_gone t.id ∷ mistyped

unfoldable pub compatibility_issues :
    WorkflowDefinition → List TicketRecord → List CompatibilityIssue
compatibility_issues d [] = []
compatibility_issues d (t ∷ ts) = record_issues d t ++ compatibility_issues d ts

-- `ValidationFailed` carries the issues.
unfoldable pub require_compatible :
    WorkflowDefinition → List TicketRecord → Outcome (List CompatibilityIssue) (Unit {0})
require_compatible d ts = elim (compatibility_issues d ts) [
  | [] ↦ ok tt
  | issue ∷ rest ↦ raise (issue ∷ rest)
]

value_issues-typed :
    (d : WorkflowDefinition) (i : String) (values : Dict FieldValue)
    → (value_issues (field_kinds d) i values ≡ []) ↔ Entries (ValueTyped d) values
unfolding value_issues
value_issues-typed d i [] = (λ h. tt, λ e. refl)
value_issues-typed d i ((k, v) ∷ rest) = elim (Option-cases (lookup k (field_kinds d))) [
  | inl undeclared ↦ (
    λ h. (λ kind found. absurd (ground arith), (value_issues-typed d i rest).0 (ground arith)),
    λ e. ground (arith, (value_issues-typed d i rest).1 e.1),
  )
  | inr (kind, declared) ↦ elim (Bool-cases (is_null v || kind_matches_value kind v)) [
    | inl fits ↦ (
      λ h. (
        λ other found.
            subst (λ x. (is_null v || kind_matches_value x v) ≡ true) (ground arith) fits,
        (value_issues-typed d i rest).0 (ground arith),
      ),
      λ e. ground (arith, (value_issues-typed d i rest).1 e.1),
    )
    | inr clashes ↦ (λ h. absurd (ground arith), λ e. ground (arith, e.0 kind declared))
  ]
]

-- One ticket raises no issue exactly when its state is declared and its values are typed.
record_issues-IsTyped :
    (d : WorkflowDefinition) (t : TicketRecord) → (record_issues d t ≡ []) ↔ IsTyped d t
unfolding record_issues
record_issues-IsTyped d t = elim (Bool-cases (contains t.state_id (state_ids d))) [
  | inl listed ↦ (
    λ h. record {
      placed = contains→In t.state_id (state_ids d) listed;
      typed = (value_issues-typed d t.id t.field_values).0 (ground arith);
    },
    λ e. ground (arith, (value_issues-typed d t.id t.field_values).1 e.typed),
  )
  | inr gone ↦ (
    λ h. absurd (ground arith),
    λ e. absurd (ground (arith, In→contains t.state_id (state_ids d) e.placed)),
  )
]

append_empty : {A : Type 0} → (xs ys : List A) → (xs ++ ys ≡ []) ↔ ((xs ≡ []) × (ys ≡ []))
append_empty [] ys = (λ h. (refl, h), λ e. e.1)
append_empty (x ∷ xs) ys = (λ h. absurd (ground arith), λ e. absurd (ground (arith, e.0)))

compatibility_issues-IsTyped :
    (d : WorkflowDefinition) (ts : List TicketRecord)
    → (compatibility_issues d ts ≡ []) ↔ All (IsTyped d) ts
unfolding compatibility_issues
compatibility_issues-IsTyped d [] = (λ h. tt, λ e. refl)
compatibility_issues-IsTyped d (t ∷ ts) =
    let split = append_empty (record_issues d t) (compatibility_issues d ts) in
    (
      λ h. (
        (record_issues-IsTyped d t).0 (split.0 h).0,
        (compatibility_issues-IsTyped d ts).0 (split.0 h).1,
      ),
      λ e. split.1 ((record_issues-IsTyped d t).1 e.0, (compatibility_issues-IsTyped d ts).1 e.1),
    )

-- `require_compatible` accepts a definition for the tickets of a project exactly when the state
-- of every ticket is declared and every value of a declared field is null or of its kind.
pub require_compatible-IsTyped :
    (d : WorkflowDefinition) (ts : List TicketRecord)
    → (require_compatible d ts ≡ ok tt) ↔ All (IsTyped d) ts
unfolding require_compatible
require_compatible-IsTyped d ts =
    let whole = compatibility_issues-IsTyped d ts in
    (λ h. whole.0 (ground arith), λ e. ground (arith, whole.1 e))
