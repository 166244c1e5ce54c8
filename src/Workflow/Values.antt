-- ===== src/Workflow/Values.antt =====
-- flowgency/workflows/models.py and rules.py: field kinds, field values, and the check of one
-- value. A Python int is an unbounded integer. A Python float is a double: every finite one is a
-- whole number of units of 2^-1074, kept with its sign bit.
use flowgency.Common.{
  ℕ, String, Bool, true, false, not, ◌&&◌, Option, none, ◌==◌, num_eq, if◌then◌else◌, is_blank,
  Outcome, ok, raise,
}

pub data ℤ : Type 0 where
  pos : ℕ → ℤ
  negsuc : ℕ → ℤ

abbrev pub int_eq : ℤ → ℤ → Bool
int_eq (pos a) (pos b) = num_eq a b
int_eq (negsuc a) (negsuc b) = num_eq a b
int_eq _ _ = false

pub data Float : Type 0 where
  nan : Float
  infinity : Bool → Float
  finite : Bool → ℕ → Float

abbrev pub same_sign : Bool → Bool → Bool
same_sign true true = true
same_sign false false = true
same_sign _ _ = false

-- `==` on doubles: nan equals nothing, and the two zeros are equal.
abbrev pub float_eq : Float → Float → Bool
float_eq (infinity s) (infinity t) = same_sign s t
float_eq (finite s a) (finite t b) = num_eq a b && (if num_eq a 0 then true else same_sign s t)
float_eq _ _ = false

-- math.isfinite
abbrev pub is_finite : Float → Bool
is_finite (finite s a) = true
is_finite _ = false

pub data FieldKind : Type 0 where
  text number boolean artifact : FieldKind

pub data RefKind : Type 0 where
  id url : RefKind

pub record ArtifactRef : Type 0 where
  pub kind : RefKind
  pub value : String

abbrev pub ref_kind_eq : RefKind → RefKind → Bool
ref_kind_eq id id = true
ref_kind_eq url url = true
ref_kind_eq _ _ = false

abbrev pub artifact_eq : ArtifactRef → ArtifactRef → Bool
artifact_eq a b = ref_kind_eq a.kind b.kind && a.value == b.value

-- The strict union: a bool is no int. `null` is None.
pub data FieldValue : Type 0 where
  bool : Bool → FieldValue
  int : ℤ → FieldValue
  float : Float → FieldValue
  str : String → FieldValue
  ref : ArtifactRef → FieldValue
  null : FieldValue

abbrev pub is_null : FieldValue → Bool
is_null null = true
is_null _ = false

-- `type(a) is type(b) and a == b`
unfoldable pub same_value : FieldValue → FieldValue → Bool
same_value (bool a) (bool b) = same_sign a b
same_value (int a) (int b) = int_eq a b
same_value (float a) (float b) = float_eq a b
same_value (str a) (str b) = a == b
same_value (ref a) (ref b) = artifact_eq a b
same_value null null = true
same_value _ _ = false

unfoldable pub kind_matches_value : FieldKind → FieldValue → Bool
kind_matches_value text (str s) = true
kind_matches_value boolean (bool b) = true
kind_matches_value number (int i) = true
kind_matches_value number (float x) = true
kind_matches_value artifact (ref r) = true
kind_matches_value _ _ = false

-- The codes of ContractError, and the KeyError of a subscript that finds no key.
pub data Code : Type 0 where
  required_value invalid_number invalid_type unknown_reference wrong_source_state : Code
  undeclared_output precondition_failed unknown_criterion duplicate_assessment : Code
  criterion_not_satisfied invalid_supporting_field missing_assessment : Code
  blank_label invalid_index invalid_direction duplicate_use key_error : Code

-- The message text is left out.
pub record ContractError : Type 0 where
  pub code : Code
  pub field_id : Option String

abbrev pub contract_error : Code → ContractError
contract_error c = record { code = c; field_id = none }

unfoldable pub validate_field_value :
    FieldKind → FieldValue → Bool → Outcome ContractError FieldValue
validate_field_value kind null required =
    if required then raise (contract_error required_value) else ok null
validate_field_value text (str s) required =
    if required && is_blank s then raise (contract_error required_value) else ok (str s)
validate_field_value boolean (bool b) required = ok (bool b)
validate_field_value number (int i) required = ok (int i)
validate_field_value number (float x) required =
    if not (is_finite x) then raise (contract_error invalid_number) else ok (float x)
validate_field_value artifact (ref r) required = ok (ref r)
validate_field_value kind value required = raise (contract_error invalid_type)
