-- ===== src/GitEvidence/Refs.antt =====
-- flowgency/git_evidence/models.py: which texts name a ref, what a policy allows, and object ids.
use Prim.Native.Char.{code}
use text.Mathlib.Text.{starts_with}
use flowgency.Common.{
  ℕ, suc, String, Bool, true, false, not, ◌&&◌, ◌||◌, Option, none, some, List, [], ◌∷◌, ◌==◌, leb,
  num_eq, ltb, if◌then◌else◌, has_duplicates, any, Outcome, ok, raise,
}

unfoldable pub ends_with : String → String → Bool
ends_with String.[] t = t == ""
ends_with (String.◌∷◌ c s) t = (String.◌∷◌ c s) == t || ends_with s t

-- t in s
unfoldable pub has_text : String → String → Bool
has_text String.[] t = t == ""
has_text (String.◌∷◌ c s) t = starts_with (String.◌∷◌ c s) t || has_text s t

unfoldable pub some_code : (ℕ → Bool) → String → Bool
some_code p String.[] = false
some_code p (String.◌∷◌ c s) = p (code c) || some_code p s

-- s.count(c), of one character
unfoldable pub count_code : ℕ → String → ℕ
count_code c String.[] = 0
count_code c (String.◌∷◌ d s) =
    let rest = count_code c s in if num_eq (code d) c then suc rest else rest

unfoldable pub text_length : String → ℕ
text_length String.[] = 0
text_length (String.◌∷◌ c s) = suc (text_length s)

-- s[:-1]
unfoldable pub drop_last : String → String
drop_last String.[] = ""
drop_last (String.◌∷◌ c String.[]) = ""
drop_last (String.◌∷◌ c (String.◌∷◌ d s)) = String.◌∷◌ c (drop_last (String.◌∷◌ d s))

-- s.split(c), of one character
unfoldable pub split_on : ℕ → String → List String
split_on c String.[] = "" ∷ []
split_on c (String.◌∷◌ d s) =
    let rest = split_on c s in
    if num_eq (code d) c
    then "" ∷ rest
    else elim rest [ [] ↦ String.◌∷◌ d "" ∷ [] | first ∷ others ↦ String.◌∷◌ d first ∷ others ]

abbrev pub slash : ℕ
slash = b'/'

-- One path component of a ref: not empty, and `*` or none of the endings that Git refuses.
unfoldable pub is_component : String → Bool
unfolding ends_with
is_component part =
    not (part == "")
    && (part == "*"
        || (not (ends_with part ".lock") && not (starts_with part ".") && not (ends_with part ".")))

unfoldable pub all_components : List String → Bool
unfolding is_component
all_components [] = true
all_components (part ∷ parts) = is_component part && all_components parts

-- _CONTROL_CHARS_RE
unfoldable pub is_control : ℕ → Bool
is_control c = ltb c 32 || num_eq c 127

-- Under refs/heads/ or refs/tags/, with a name there.
unfoldable pub is_under_refs : String → Bool
is_under_refs ref =
    if starts_with ref "refs/heads/"
    then not (ref == "refs/heads/")
    else starts_with ref "refs/tags/" && not (ref == "refs/tags/")

-- Whether _validate_ref returns.
unfoldable pub is_ref : String → Bool
unfolding ends_with has_text some_code count_code split_on all_components is_control is_under_refs
is_ref ref =
    not (ref == "")
    && not (some_code is_control ref)
    && not (has_text ref "\\")
    && not (has_text ref "..")
    && not (has_text ref "@{")
    && not (has_text ref ":")
    && not (starts_with ref "/" || ends_with ref "/")
    && not (has_text ref "*" && not (ends_with ref "/*"))
    && not (ltb 1 (count_code b'*' ref))
    && all_components (split_on slash ref)
    && is_under_refs ref

-- Whether validate_exact_ref returns.
unfoldable pub is_exact_ref : String → Bool
unfolding is_ref has_text
is_exact_ref ref = is_ref ref && not (has_text ref "*")

pub record GitPublicationPolicy : Type 0 where
  pub allowed_refs : List String

-- Whether the policy passes its validator.
unfoldable pub is_policy : GitPublicationPolicy → Bool
unfolding is_ref
is_policy p = not (has_duplicates p.allowed_refs) && not (any (λ r. not (is_ref r)) p.allowed_refs)

unfoldable pub matches_pattern : String → String → Bool
unfolding ends_with drop_last text_length
matches_pattern ref pattern =
    if ends_with pattern "/*"
    then starts_with ref (drop_last pattern)
      && ltb (text_length (drop_last pattern)) (text_length ref)
    else ref == pattern

unfoldable pub ref_matches_allowlist : String → List String → Bool
unfolding matches_pattern
ref_matches_allowlist ref [] = false
ref_matches_allowlist ref (pattern ∷ patterns) =
    matches_pattern ref pattern || ref_matches_allowlist ref patterns

-- The codes that publication raises, and those of the commands that it runs.
pub data GitEvidenceError : Type 0 where
  policy_missing ref_required ref_denied not_published : GitEvidenceError
  verification_incomplete invalid_commit command_failed : GitEvidenceError

abbrev pub Evidence : Type 0 → Type 0
Evidence A = Outcome GitEvidenceError A

-- _OBJECT_ID_LENGTHS
unfoldable pub object_id_length : String → Option ℕ
object_id_length format =
    if format == "sha1" then some 40 else if format == "sha256" then some 64 else none

-- In the lowercase hexadecimal digits.
unfoldable pub is_hex_digit : ℕ → Bool
is_hex_digit c = (leb b'0' c && leb c b'9') || (leb b'a' c && leb c b'f')

unfoldable pub is_object_id : String → ℕ → Bool
unfolding text_length some_code is_hex_digit
is_object_id value expected =
    num_eq (text_length value) expected && not (some_code (λ c. not (is_hex_digit c)) value)

unfoldable pub validate_object_id : String → String → Evidence String
unfolding object_id_length is_object_id
validate_object_id value format = elim (object_id_length format) [
  | none ↦ raise invalid_commit
  | some expected ↦ if is_object_id value expected then ok value else raise invalid_commit
]
