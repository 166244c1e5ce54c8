-- ===== src/Workflow/Library.antt =====
-- flowgency/workflows/library.py: the blueprints' sources on disk. YAML with pydantic's parsing of
-- the fields, sha256, the length of the encoded text and the links of the file system are the
-- environment's. A lock makes each call one step. The files are the sources by blueprint id.
use flowgency.Common.{
  String, Bool, true, false, not, ℕ, Option, none, some, List, [], ◌∷◌, ◌==◌, leb, if◌then◌else◌,
  Outcome, ok, raise, ◌>>=◌, ◌>>◌, require, or_raise,
}
use flowgency.Common.Dict.{Dict, lookup, insert, has_key, keys}
use flowgency.Workflow.Definition.{WorkflowDefinition, Violation, model_validate}
use flowgency.Workflow.Rules.{sorted_set}
use flowgency.Ticket.Storage.{is_slug}
pub mod Calls
pub mod Published
mod Examples

-- The codes of the library's ContractErrors, ConfigConflictError, and the ValueErrors of reading.
pub data LibraryError : Type 0 where
  unsafe_blueprint missing_blueprint source_too_large corrupt_blueprint : LibraryError
  identity_mismatch conflict unreadable_yaml : LibraryError
  invalid_definition : Violation → LibraryError

abbrev pub Reading : Type 0 → Type 0
Reading A = Outcome LibraryError A

-- What a source loads to: no YAML, or no mapping with the fields' types, or a definition whose
-- validators have not run.
pub data Loaded : Type 0 where
  malformed not_mapping : Loaded
  mapping : WorkflowDefinition → Loaded

pub record LibraryEnv : Type 0 where
  pub source_digest : String → String
  pub byte_length : String → ℕ
  pub safe_load : String → Loaded
  pub safe_dump : WorkflowDefinition → String
  -- Whether the resolved directory leaves the root; whether the directory or the source is a link.
  pub escapes : String → Bool
  pub crosses_link : String → Bool

abbrev pub Files : Type 0
Files = Dict String

pub record WorkflowSnapshot : Type 0 where
  pub definition : WorkflowDefinition
  pub digest : String
  pub source_id : String

abbrev pub max_blueprint_source_bytes : ℕ
max_blueprint_source_bytes = 1048576

unfoldable pub check_source_size : LibraryEnv → String → Reading (Unit {0})
check_source_size env source =
    require (leb (env.byte_length source) max_blueprint_source_bytes) source_too_large

-- WorkflowDefinition.model_validate of a dump: the validators run again.
unfoldable pub revalidate : WorkflowDefinition → Reading WorkflowDefinition
revalidate d = elim (model_validate d) [ ok _ ↦ ok d | raise v ↦ raise (invalid_definition v) ]

unfoldable pub blueprint_dir : LibraryEnv → String → Reading (Unit {0})
blueprint_dir env i = do
  require (is_slug i) unsafe_blueprint
  require (not (env.escapes i)) unsafe_blueprint

unfoldable pub guard_no_reparse : LibraryEnv → String → Reading (Unit {0})
unfolding blueprint_dir
guard_no_reparse env i = do require (not (env.crosses_link i)) unsafe_blueprint; blueprint_dir env i

unfoldable pub read_source : LibraryEnv → Files → String → Reading String
unfolding guard_no_reparse check_source_size
read_source env files i = do
  guard_no_reparse env i
  source ← or_raise (lookup i files) missing_blueprint
  check_source_size env source
  ok source

unfoldable pub load_definition : Loaded → Reading WorkflowDefinition
unfolding revalidate
load_definition malformed = raise unreadable_yaml
load_definition not_mapping = raise corrupt_blueprint
load_definition (mapping d) = revalidate d

unfoldable pub blueprint_snapshot :
    LibraryEnv → String → String → WorkflowDefinition → WorkflowSnapshot
blueprint_snapshot env i source d = record {
  definition = d;
  digest = env.source_digest source;
  source_id = i;
}

unfoldable pub validate_source : LibraryEnv → String → String → Reading WorkflowSnapshot
unfolding load_definition blueprint_snapshot
validate_source env i source = do
  d ← load_definition (env.safe_load source)
  ok (blueprint_snapshot env i source d)

unfoldable pub inspect : LibraryEnv → Files → String → Reading WorkflowSnapshot
unfolding read_source validate_source
inspect env files i = do source ← read_source env files i; validate_source env i source

-- What a listing shows of one blueprint: its snapshot, or the error of its inspection.
pub record WorkflowInspection : Type 0 where
  pub blueprint_id : String
  pub result : Reading WorkflowSnapshot

unfoldable pub inspections : LibraryEnv → Files → List String → List WorkflowInspection
unfolding inspect
inspections env files [] = []
inspections env files (i ∷ is) =
    let rest = inspections env files is in
    if is_slug i then record { blueprint_id = i; result = inspect env files i } ∷ rest else rest

-- WorkflowLibrary.list; a directory without a source is skipped.
unfoldable pub list_blueprints : LibraryEnv → Files → List WorkflowInspection
unfolding inspections
list_blueprints env files = inspections env files (sorted_set (keys files))

-- The checks of write_candidate up to the overwrite, in their order.
unfoldable pub check_write :
    LibraryEnv → Files → String → String → WorkflowDefinition → Reading WorkflowSnapshot
unfolding revalidate blueprint_dir check_source_size read_source blueprint_snapshot
check_write env files i expected d = do
  candidate ← revalidate d
  blueprint_dir env i
  require (candidate.id == i) identity_mismatch
  check_source_size env (env.safe_dump candidate)
  source ← read_source env files i
  require (env.source_digest source == expected) conflict
  ok (blueprint_snapshot env i (env.safe_dump candidate) candidate)

unfoldable pub check_create :
    LibraryEnv → Files → String → WorkflowDefinition → Reading WorkflowSnapshot
unfolding revalidate blueprint_dir guard_no_reparse check_source_size blueprint_snapshot
check_create env files i d = do
  candidate ← revalidate d
  require (candidate.id == i) identity_mismatch
  blueprint_dir env i
  require (not (has_key i files)) conflict
  guard_no_reparse env i
  check_source_size env (env.safe_dump candidate)
  ok (blueprint_snapshot env i (env.safe_dump candidate) candidate)

-- atomic_write_text of the source of an accepted candidate
unfoldable pub commit :
    LibraryEnv → Files → Reading WorkflowSnapshot → Reading WorkflowSnapshot × Files
commit env files (raise e) = (raise e, files)
commit env files (ok s) = (ok s, insert s.source_id (env.safe_dump s.definition) files)

unfoldable pub write_candidate :
    LibraryEnv → Files → String → String → WorkflowDefinition → Reading WorkflowSnapshot × Files
unfolding check_write commit
write_candidate env files i expected d = commit env files (check_write env files i expected d)

unfoldable pub create_candidate :
    LibraryEnv → Files → String → WorkflowDefinition → Reading WorkflowSnapshot × Files
unfolding check_create commit
create_candidate env files i d = commit env files (check_create env files i d)
