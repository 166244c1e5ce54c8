-- ===== src/Dispatch/Lost.antt =====
-- flowgency/dispatch/run.py: the occurrences whose job stopped before its runtime began. The maps of
-- the code, from a pair of agent and routine to a datetime, are functions here.
use flowgency.Common.{
  ℕ, String, Bool, true, false, not, ◌&&◌, ◌||◌, Option, none, some, List, [], ◌∷◌, ◌==◌, ltb,
  if◌then◌else◌,
}
use flowgency.Job.Store.{Status, failed, status_eq}
pub mod Newest

-- A value of the result's metadata, as it was read from YAML; a number by its text.
mutual
  pub data Json : Type 0 where
    null : Json
    bool : Bool → Json
    number : String → Json
    str : String → Json
    sequence : JsonItems → Json
    mapping : JsonEntries → Json

  pub data JsonItems : Type 0 where
    empty : JsonItems
    item : Json → JsonItems → JsonItems

  pub data JsonEntries : Type 0 where
    no_entries : JsonEntries
    entry : String → Json → JsonEntries → JsonEntries

-- d.get(key)
unfoldable pub get : String → JsonEntries → Option Json
get key no_entries = none
get key (entry k v rest) = if k == key then some v else get key rest

-- What a job in the record's file says about its routine.
pub record RoutineJob : Type 0 where
  pub trigger : String
  pub agent_name : String
  pub routine_id : Option String
  pub due_at : Option String
  pub status : Status
  pub launched_at : Option String
  pub worker_pid : Option ℕ
  pub result_metadata : Json

abbrev pub is_some {ℓ} : {A : Type ℓ} → Option A → Bool
is_some none = false
is_some (some a) = true

-- jobs.store._is_launched
unfoldable pub was_launched : RoutineJob → Bool
was_launched r = is_some r.launched_at || is_some r.worker_pid

-- v is flag
unfoldable pub is_flag : Bool → Option Json → Bool
is_flag true (some (bool true)) = true
is_flag false (some (bool false)) = true
is_flag _ _ = false

-- d.get(key) is None
unfoldable pub is_none : Option Json → Bool
is_none none = true
is_none (some null) = true
is_none _ = false

unfoldable pub is_settled_status : Option Json → Bool
is_settled_status (some (str s)) = s == "idle" || s == "cleared"
is_settled_status _ = false

unfoldable pub is_empty_list : Option Json → Bool
is_empty_list (some (sequence empty)) = true
is_empty_list _ = false

unfoldable pub is_settled_ticket_cleanup : Json → Bool
unfolding get is_flag is_none is_settled_status is_empty_list
is_settled_ticket_cleanup (mapping cleanup) =
    is_flag true (get "confirmed" cleanup)
    && is_flag false (get "requires_retry" cleanup)
    && is_none (get "error" cleanup)
    && is_settled_status (get "status" cleanup)
    && is_empty_list (get "pending_cleanup" cleanup)
is_settled_ticket_cleanup _ = false

-- execution_failure is a mapping whose phase is before the runtime
unfoldable pub failed_before_runtime : Option Json → Bool
unfolding get
failed_before_runtime (some (mapping failure)) = elim (get "phase" failure) [
  | some (str phase) ↦ phase == "before_runtime"
  | _ ↦ false
]
failed_before_runtime _ = false

unfoldable pub settled_if_present : Option Json → Bool
unfolding is_settled_ticket_cleanup
settled_if_present none = true
settled_if_present (some cleanup) = is_settled_ticket_cleanup cleanup

unfoldable pub confirmed_by_metadata : Json → Bool
unfolding get failed_before_runtime settled_if_present
confirmed_by_metadata (mapping metadata) =
    failed_before_runtime (get "execution_failure" metadata)
    && settled_if_present (get "ticket_cleanup" metadata)
confirmed_by_metadata _ = false

unfoldable pub recoverable_pre_runtime_failure : RoutineJob → Bool
unfolding was_launched confirmed_by_metadata
recoverable_pre_runtime_failure r =
    status_eq r.status failed && (not (was_launched r) || confirmed_by_metadata r.result_metadata)

-- datetime.fromisoformat, with none for its errors, is a parameter.
unfoldable pub occurrence_of : (String → Option ℕ) → RoutineJob → Option ℕ
occurrence_of fromisoformat r = elim r.due_at [ none ↦ none | some due ↦ fromisoformat due ]

abbrev pub Table : Type 0
Table = String → String → Option ℕ

abbrev pub no_table : Table
no_table = λ agent routine. none

-- newest is None or occurrence > newest
unfoldable pub later_of : Option ℕ → ℕ → ℕ
later_of none occurrence = occurrence
later_of (some newest) occurrence = if ltb newest occurrence then occurrence else newest

unfoldable pub assign_newest : String → String → ℕ → Table → Table
unfolding later_of
assign_newest agent_name routine_id occurrence table = λ agent routine.
    if agent_name == agent && routine_id == routine
    then some (later_of (table agent routine) occurrence)
    else table agent routine

-- The occurrence that a record counts for, and its routine: none for a record that is skipped.
unfoldable pub counted : (String → Option ℕ) → RoutineJob → Option (String × ℕ)
unfolding occurrence_of
counted fromisoformat r = elim r.routine_id [
  | none ↦ none
  | some routine ↦
      if r.trigger == "scheduled_prompt" && not (routine == "")
      then elim (occurrence_of fromisoformat r) [ none ↦ none | some o ↦ some (routine, o) ]
      else none
]

-- One pass of the loop over the two tables, lost and served.
unfoldable pub count_record : (String → Option ℕ) → RoutineJob → Table × Table → Table × Table
unfolding counted assign_newest recoverable_pre_runtime_failure
count_record fromisoformat r (lost, served) = elim (counted fromisoformat r) [
  | none ↦ (lost, served)
  | some (routine, o) ↦
      if recoverable_pre_runtime_failure r
      then (assign_newest r.agent_name routine o lost, served)
      else (lost, assign_newest r.agent_name routine o served)
]

unfoldable pub count_records : (String → Option ℕ) → List RoutineJob → Table × Table → Table × Table
unfolding count_record
count_records fromisoformat [] tables = tables
count_records fromisoformat (r ∷ rs) tables =
    count_records fromisoformat rs (count_record fromisoformat r tables)

-- key not in served or occurrence > served[key]
unfoldable pub unserved : Option ℕ → Option ℕ → Option ℕ
unserved none served = none
unserved (some o) none = some o
unserved (some o) (some s) = if ltb s o then some o else none

unfoldable pub lost_occurrences : (String → Option ℕ) → List RoutineJob → Table
unfolding count_records unserved
lost_occurrences fromisoformat rs = λ agent routine.
    let (lost, served) = count_records fromisoformat rs (no_table, no_table) in
    unserved (lost agent routine) (served agent routine)
