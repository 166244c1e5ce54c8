-- ===== src/GitEvidence/Publication.antt =====
-- flowgency/git_evidence/publication.py: the proof that captured content is in this repository's
-- history. Links, files and the Git commands that are run are the environment's; what a command
-- prints is taken as text.
use Prim.Native.Char.{code}
use Prim.Native.String.{◌++◌ as append}
use text.Mathlib.Text.{starts_with}
use flowgency.Common.{
  ℕ, String, Bool, true, false, not, ◌&&◌, ◌||◌, Option, none, some, List, [], ◌∷◌, ◌==◌, num_eq,
  if◌then◌else◌, strip, Outcome, ok, raise, ◌>>=◌, ◌>>◌, require,
}
use flowgency.Workflow.Values.{ℤ, pos, negsuc}
use flowgency.GitEvidence.Refs.{
  GitPublicationPolicy, Evidence, GitEvidenceError, policy_missing, ref_required, ref_denied,
  not_published, verification_incomplete, invalid_commit, has_text, is_exact_ref, split_on,
  ref_matches_allowlist, validate_object_id,
}
pub mod Proof

-- The commands, each with the object ids that it names.
pub data GitCommand : Type 0 where
  cat_file_type cat_file_exists rev_parse_commit : String → GitCommand
  is_ancestor : String → String → GitCommand

pub record GitEnv : Type 0 where
  pub object_format : String
  -- Paths below the repository's common directory.
  pub is_link : String → Bool
  pub is_file : String → Bool
  pub read_bounded : String → Evidence String
  pub leaves_refs : String → Bool
  pub run_git : GitCommand → Evidence (ℤ × String)
  pub policy_digest : GitPublicationPolicy → String

unfoldable pub validated_ref : String → Evidence String
unfolding is_exact_ref has_text
validated_ref ref = do
  require (is_exact_ref ref) ref_denied
  require (not (has_text ref "*" || has_text ref "?" || has_text ref "[" || has_text ref "]"))
      ref_denied
  ok ref

-- Each directory above the ref, and the ref itself, from refs/ down.
unfoldable pub walk_parts : GitEnv → String → List String → Evidence (Unit {0})
walk_parts env current [] = ok tt
walk_parts env current (part ∷ parts) =
    let below = append current (append "/" part) in
    let rest = walk_parts env below parts in if env.is_link below then raise ref_denied else rest

-- The parts below refs/ of a ref, which starts there.
unfoldable pub parts_below_refs : List String → List String
parts_below_refs [] = []
parts_below_refs (refs ∷ parts) = parts

unfoldable pub reject_linked_ref_path : GitEnv → String → Evidence (Unit {0})
unfolding walk_parts parts_below_refs split_on
reject_linked_ref_path env ref = do
  require (not (env.is_link "refs")) ref_denied
  walk_parts env "refs" (parts_below_refs (split_on b'/' ref))

-- line.partition(" "), without the separator: none where there is no space.
unfoldable pub partition_space : String → Option (String × String)
partition_space String.[] = none
partition_space (String.◌∷◌ c s) =
    let rest = partition_space s in
    if num_eq (code c) 32
    then some ("", s)
    else elim rest [ none ↦ none | some (before, after) ↦ some (String.◌∷◌ c before, after) ]

-- The object id of a line of packed-refs that names the ref.
unfoldable pub packed_line : String → String → Option String
unfolding partition_space
packed_line ref line =
    if line == "" || starts_with line "#" || starts_with line "^"
    then none
    else elim (partition_space line) [
      | none ↦ none
      | some (object_id, name) ↦ if name == ref then some object_id else none
    ]

unfoldable pub find_packed : String → List String → Option String
unfolding packed_line strip
find_packed ref [] = none
find_packed ref (raw ∷ lines) =
    let rest = find_packed ref lines in
    elim (packed_line ref (strip raw)) [ some object_id ↦ some object_id | none ↦ rest ]

unfoldable pub read_loose : GitEnv → String → Evidence (Option String)
unfolding strip
read_loose env ref = do
  content ← env.read_bounded ref
  if starts_with (strip content) "ref:"
      then raise verification_incomplete
      else ok (some (strip content))

unfoldable pub read_packed : GitEnv → String → Evidence (Option String)
unfolding find_packed split_on
read_packed env ref =
    if env.is_link "packed-refs"
    then raise ref_denied
    else if not (env.is_file "packed-refs")
    then ok none
    else env.read_bounded "packed-refs" >>= λ content. ok (find_packed ref (split_on 10 content))

unfoldable pub read_source_ref : GitEnv → String → Evidence (Option String)
unfolding reject_linked_ref_path read_loose read_packed
read_source_ref env ref = do
  reject_linked_ref_path env ref
  require (not (env.leaves_refs ref)) ref_denied
  if env.is_file ref then read_loose env ref else read_packed env ref

pub record GitRefObservation : Type 0 where
  pub ref_object_id : String
  pub commit_id : String

abbrev pub is_zero : ℤ → Bool
is_zero (pos n) = num_eq n 0
is_zero (negsuc n) = false

-- A tag is peeled to its commit.
unfoldable pub peel : GitEnv → String → Evidence GitRefObservation
unfolding strip validate_object_id
peel env ref_object_id = env.run_git (rev_parse_commit ref_object_id) >>= λ (status, data_).
    require (is_zero status) verification_incomplete
    >> (validate_object_id (strip data_) env.object_format >>= λ commit.
        ok (record { ref_object_id = ref_object_id; commit_id = commit }))

unfoldable pub observe : GitEnv → String → Evidence GitRefObservation
unfolding peel strip
observe env ref_object_id = env.run_git (cat_file_type ref_object_id) >>= λ (status, data_).
    require (is_zero status) verification_incomplete
    >> (if strip data_ == "commit"
        then ok (record { ref_object_id = ref_object_id; commit_id = ref_object_id })
        else if strip data_ == "tag"
        then peel env ref_object_id
        else raise invalid_commit)

unfoldable pub resolve_publication_ref : GitEnv → String → Evidence GitRefObservation
unfolding validated_ref read_source_ref validate_object_id observe
resolve_publication_ref env ref_name = do
  ref ← validated_ref ref_name
  found ← read_source_ref env ref
  raw ← elim found [ none ↦ raise not_published | some text ↦ ok text ]
  ref_object_id ← validate_object_id raw env.object_format
  observe env ref_object_id

-- The exit status of merge-base: 0, 1, or a failure.
unfoldable pub ancestor_status : ℤ → Evidence (Unit {0})
ancestor_status (pos n) =
    if num_eq n 0
    then ok tt
    else if num_eq n 1
    then raise not_published
    else raise verification_incomplete
ancestor_status (negsuc n) = raise verification_incomplete

unfoldable pub require_ancestor : GitEnv → String → String → Evidence (Unit {0})
unfolding ancestor_status
require_ancestor env end_commit observed_commit =
    env.run_git (cat_file_exists observed_commit) >>= λ (status, _).
    require (is_zero status) verification_incomplete
    >> (env.run_git (is_ancestor end_commit observed_commit) >>= λ (answer, _).
        ancestor_status answer)

abbrev pub is_empty : List String → Bool
is_empty [] = true
is_empty (r ∷ rs) = false

unfoldable pub selected_ref : GitPublicationPolicy → Option String → Evidence (Option String)
unfolding validated_ref ref_matches_allowlist
selected_ref policy none = if is_empty policy.allowed_refs then ok none else raise ref_required
selected_ref policy (some publication_ref) = do
  ref ← validated_ref publication_ref
  require (is_empty policy.allowed_refs || ref_matches_allowlist ref policy.allowed_refs) ref_denied
  ok (some ref)

-- The mode is always local.
pub record GitPublicationReceipt : Type 0 where
  pub policy_digest : String
  pub publication_ref : Option String
  pub ref_object_id : Option String
  pub observed_commit : String
  pub verified_at : ℕ

-- The commit that the selected ref shows, and the ref's own object.
unfoldable pub observed_for : GitEnv → String → Option String → Evidence (String × Option String)
unfolding resolve_publication_ref validate_object_id require_ancestor
observed_for env end_commit none = ok (end_commit, none)
observed_for env end_commit (some ref) = do
  observation ← resolve_publication_ref env ref
  observed ← validate_object_id observation.commit_id env.object_format
  object_id ← validate_object_id observation.ref_object_id env.object_format
  if observed == end_commit then ok tt else require_ancestor env end_commit observed
  ok (observed, some object_id)

unfoldable pub verify_publication :
    GitEnv
    → String
    → Option GitPublicationPolicy
    → Option String
    → ℕ
    → Evidence GitPublicationReceipt
unfolding validate_object_id selected_ref observed_for
verify_publication env captured_end none publication_ref now = raise policy_missing
verify_publication env captured_end (some policy) publication_ref now = do
  end_commit ← validate_object_id captured_end env.object_format
  selected ← selected_ref policy publication_ref
  observed ← observed_for env end_commit selected
  ok (record {
    policy_digest = env.policy_digest policy;
    publication_ref = selected;
    ref_object_id = observed.1;
    observed_commit = observed.0;
    verified_at = now;
  })
