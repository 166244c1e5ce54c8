-- ===== src/Workflow/Rules/Uses.antt =====
-- What the checks of field uses and preconditions accept, described without the checks.
use flowgency.Common.{
  String, ◌≡◌, Bool, true, false, inl, inr, ◌↔◌, some, List, arith, is_blank, contains, ok,
  >>=-eq-ok, Option-cases, Outcome-cases,
}
use flowgency.Common.Dict.{Dict, lookup}
use flowgency.Workflow.Values.{
  finite, FieldKind, text, number, boolean, artifact, FieldValue, null, bool, int, float, str, ref,
  is_null, same_value, validate_field_value,
}
use flowgency.Workflow.Definition.{FieldUse, Operator, equals, not_equals, is_present, Precondition}
use flowgency.Workflow.Rules.{
  get_value, check_use, check_unlisted, check_operator, check_precondition,
}

-- A value that a field of the kind may hold, required or not.
abbrev pub Fits : FieldKind → Bool → FieldValue → Type 0
Fits k required null = required ≡ false
Fits text required (str s) = required ≡ true → is_blank s ≡ false
Fits boolean required (bool b) = Unit
Fits number required (int i) = Unit
Fits number required (float (finite s n)) = Unit
Fits artifact required (ref r) = Unit
Fits _ required _ = ⊥

pub validate_field_value-Fits :
    (k : FieldKind) (v : FieldValue) (r : Bool) {w : FieldValue}
    → validate_field_value k v r ≡ ok w
    → Fits k r v
unfolding validate_field_value
validate_field_value-Fits text v r h = ground arith
validate_field_value-Fits number v r h = ground arith
validate_field_value-Fits boolean v r h = ground arith
validate_field_value-Fits artifact v r h = ground arith

pub Fits-validate_field_value :
    (k : FieldKind) (v : FieldValue) (r : Bool) → Fits k r v → validate_field_value k v r ≡ ok v
unfolding validate_field_value
Fits-validate_field_value text v r h = ground arith
Fits-validate_field_value number v r h = ground arith
Fits-validate_field_value boolean v r h = ground arith
Fits-validate_field_value artifact v r h = ground arith

-- The field is declared, and the value offered for it fits.
abbrev pub UseFits : Dict FieldKind → Dict FieldValue → FieldUse → Type 0
UseFits kinds values u =
    (k : FieldKind) × (lookup u.field_id kinds ≡ some k)
    × Fits k u.required (get_value u.field_id values)

pub check_use-UseFits :
    (kinds : Dict FieldKind) (values : Dict FieldValue) (u : FieldUse)
    → check_use kinds values u ≡ ok tt
    → UseFits kinds values u
unfolding check_use
check_use-UseFits kinds values u h = elim (Option-cases (lookup u.field_id kinds)) [
  | inl missing ↦ ground arith
  | inr (k, found) ↦
      elim (Outcome-cases (validate_field_value k (get_value u.field_id values) u.required)) [
        | inl (w, fine) ↦ (k, found, validate_field_value-Fits k _ u.required fine)
        | inr (e, raised) ↦ ground arith
      ]
]

pub UseFits-check_use :
    (kinds : Dict FieldKind) (values : Dict FieldValue) (u : FieldUse)
    → UseFits kinds values u
    → check_use kinds values u ≡ ok tt
unfolding check_use
UseFits-check_use kinds values u (k, found, fits) =
    ground (arith, found, Fits-validate_field_value k (get_value u.field_id values) u.required fits)

abbrev pub Holds : Operator → FieldValue → FieldValue → Type 0
Holds equals actual wanted = same_value actual wanted ≡ true
Holds not_equals actual wanted = (is_null actual ≡ false) × (same_value actual wanted ≡ false)
Holds is_present actual wanted = is_null actual ≡ false

pub check_operator-Holds :
    (o : Operator) (v w : FieldValue) (i : String) → (check_operator o v w i ≡ ok tt) ↔ Holds o v w
unfolding check_operator
check_operator-Holds equals v w i = ground arith
check_operator-Holds not_equals v w i = ground arith
check_operator-Holds is_present v w i = ground arith

-- The precondition holds of the value that its field has.
abbrev pub PreconditionHolds : Dict FieldValue → Precondition → Type 0
PreconditionHolds values p = Holds p.operator (get_value p.field_id values) p.value

pub check_precondition-holds :
    (kinds : Dict FieldKind) (listed : List String) (values : Dict FieldValue) (p : Precondition)
    → check_precondition kinds listed values p ≡ ok tt
    → PreconditionHolds values p
unfolding check_precondition
check_precondition-holds kinds listed values p h =
    (check_operator-Holds p.operator _ p.value p.field_id).0
      (>>=-eq-ok (check_unlisted kinds listed values p) _ h).2

pub holds-check_precondition :
    (kinds : Dict FieldKind) (listed : List String) (values : Dict FieldValue) (p : Precondition)
    → contains p.field_id listed ≡ true
    → PreconditionHolds values p
    → check_precondition kinds listed values p ≡ ok tt
unfolding check_precondition
holds-check_precondition kinds listed values p listed_here h =
    rw (listed_here, check_unlisted) ((check_operator-Holds p.operator _ p.value p.field_id).1 h)
