-- ===== src/Dispatch/Run.antt =====
-- flowgency/dispatch/run.py: which routines a dispatch cycle submits, and the markers it keeps. The
-- markers are the files of the log directories with the time they carry; submit_job_request accepts
-- or refuses. Each visit of a routine has the reading of the clock at that moment.
use Prim.Native.String.{◌++◌ as append}
use Prim.Native.Char.{code}
use flowgency.Common.{
  ℕ, ◌+◌, String, Bool, true, false, not, ◌&&◌, ◌||◌, Option, none, some, List, [], ◌∷◌, ◌==◌, leb,
  num_eq, if◌then◌else◌, Outcome, ok, raise, ◌>>=◌,
}
use flowgency.Common.Dict.{Dict, lookup, insert, has_key}
use flowgency.Dispatch.Schedule.{
  Clock, Timed, CatchUp, date, or_empty, parse_every, parse_catch_up, catch_up_allows,
  last_at_occurrence, last_every_occurrence, grace_window, second_us,
}
pub mod Fires
pub mod Once

-- _UNSAFE: what is not in [a-zA-Z0-9._-]
unfoldable pub is_unsafe : ℕ → Bool
is_unsafe c = not (
    (leb b'a' c && leb c b'z')
    || (leb b'A' c && leb c b'Z')
    || (leb b'0' c && leb c b'9')
    || num_eq c b'.'
    || num_eq c b'_'
    || num_eq c b'-')

-- _UNSAFE.sub("-", s): a run of unsafe characters becomes one dash.
unfoldable pub sub_unsafe : Bool → String → String
unfolding is_unsafe
sub_unsafe in_run String.[] = ""
sub_unsafe in_run (String.◌∷◌ c s) =
    let unsafe = is_unsafe (code c) in
    let rest = sub_unsafe unsafe s in
    if unsafe then (if in_run then rest else append "-" rest) else String.◌∷◌ c rest

unfoldable pub is_edge : ℕ → Bool
is_edge c = num_eq c b'.' || num_eq c b'-'

unfoldable pub is_all_edge : String → Bool
unfolding is_edge
is_all_edge String.[] = true
is_all_edge (String.◌∷◌ c s) = is_edge (code c) && is_all_edge s

-- strip(".-"): from the left, then from the right
unfoldable pub strip_left : String → String
unfolding is_edge
strip_left String.[] = ""
strip_left (String.◌∷◌ c s) =
    let rest = strip_left s in if is_edge (code c) then rest else String.◌∷◌ c s

unfoldable pub strip_right : String → String
unfolding is_edge is_all_edge
strip_right String.[] = ""
strip_right (String.◌∷◌ c s) =
    let rest = strip_right s in if is_edge (code c) && is_all_edge s then "" else String.◌∷◌ c rest

unfoldable pub marker_safe : String → String
unfolding sub_unsafe strip_left strip_right
marker_safe value =
    let safe = strip_right (strip_left (sub_unsafe false value)) in
    if safe == "" then "item" else safe

unfoldable pub marker_name : String → String → String → String
unfolding marker_safe
marker_name prefix agent_name routine_id =
    append prefix (append (marker_safe agent_name) (append "-" (marker_safe routine_id)))

unfoldable pub every_marker_path : String → String → String → String
unfolding marker_name
every_marker_path logs_root agent_name routine_id =
    append logs_root (append "/" (marker_name ".last-" agent_name routine_id))

unfoldable pub at_marker_path : String → String → String → String → String
unfolding marker_name
at_marker_path logs_root agent_name routine_id day = append logs_root (
    append "/" (
      append day
        (append "/" (append (marker_name ".event-" agent_name routine_id) (append "-" day)))))

pub record ScheduleRule : Type 0 where
  pub at : Option String
  pub every : Option String
  pub catch_up : Option String

pub record Routine : Type 0 where
  pub id : String
  pub schedule : ScheduleRule
  pub enabled : Bool
  pub condition : Option String

-- One turn of the loop over agents and routines.
pub record Visit : Type 0 where
  pub logs_root : String
  pub agent_name : String
  pub routine : Routine
  pub now : ℕ
  pub lost : Option ℕ

-- A request that was accepted, and the marker that records it.
pub record Submission : Type 0 where
  pub visit : Visit
  pub due_at : ℕ
  pub marker : String

pub record DispatchState : Type 0 where
  pub markers : Dict ℕ
  pub submitted : List Submission

-- What the cycle calls: the library, submit_job_request, and the time that a marker's float mtime
-- reads back as, for the time it was stamped with.
pub record DispatchEnv : Type 0 where
  pub clock : Clock
  pub interval : ℕ
  pub accepts : Submission → Bool
  pub read_back : ℕ → ℕ

-- abs(left - right) <= _OCCURRENCE_SLACK
unfoldable pub same_occurrence : Option ℕ → Option ℕ → Bool
same_occurrence (some l) (some r) = leb l (r + second_us) && leb r (l + second_us)
same_occurrence _ _ = false

abbrev pub Due : Type 0
Due = Option ℕ × Option String

unfoldable pub due_at_time : DispatchEnv → Visit → String → Timed Due
unfolding last_at_occurrence at_marker_path
due_at_time env v at = last_at_occurrence env.clock at v.now >>= λ occurrence. elim occurrence [
  | none ↦ ok (none, none)
  | some o ↦ ok (
    some o,
    some (at_marker_path v.logs_root v.agent_name v.routine.id (env.clock.format_day (date o))),
  )
]

-- The occurrence of an `every` rule: the anchor is the marker's time, and without one it is due.
unfoldable pub due_after : DispatchEnv → Visit → String → Option ℕ → String → Timed Due
unfolding last_every_occurrence same_occurrence
due_after env v every mtime marker = elim mtime [
  | none ↦ ok (some v.now, some marker)
  | some anchor ↦ last_every_occurrence env.clock anchor every v.now >>= λ occurrence.
      elim occurrence [
        | some o ↦ ok (some o, some marker)
        | none ↦ ok (if same_occurrence v.lost (some anchor) then v.lost else none, some marker)
      ]
]

unfoldable pub due_every : DispatchEnv → Dict ℕ → Visit → String → Timed Due
unfolding due_after every_marker_path
due_every env markers v every = parse_every env.clock (some every) >>= λ period. elim period [
  | none ↦ ok (none, none)
  | some p ↦
      if num_eq p 0
      then ok (none, none)
      else let marker = every_marker_path v.logs_root v.agent_name v.routine.id in
        due_after env v every (lookup marker markers) marker
]

unfoldable pub due_occurrence : DispatchEnv → Dict ℕ → Visit → Timed Due
unfolding due_at_time due_every or_empty
due_occurrence env markers v =
    let at = or_empty v.routine.schedule.at in
    let every = or_empty v.routine.schedule.every in
    if not (at == "")
    then due_at_time env v at
    else if not (every == "")
    then due_every env markers v every
    else ok (none, none)

-- The marker already records the occurrence of an `at` rule, and its job was not lost.
unfoldable pub is_settled : Dict ℕ → Visit → ℕ → String → Bool
unfolding same_occurrence or_empty
is_settled markers v o marker =
    not (or_empty v.routine.schedule.at == "")
    && has_key marker markers
    && not (same_occurrence (some o) v.lost)

unfoldable pub submit : DispatchEnv → DispatchState → Submission → DispatchState
submit env s request =
    if env.accepts request
    then record {
      markers = insert request.marker (env.read_back request.due_at) s.markers;
      submitted = request ∷ s.submitted;
    }
    else s

unfoldable pub consider : DispatchEnv → DispatchState → Visit → CatchUp → Due → DispatchState
unfolding is_settled submit catch_up_allows grace_window
consider env s v bound (some o, some marker) =
    if is_settled s.markers v o marker
    then s
    else if catch_up_allows o v.now bound (grace_window env.interval)
    then submit env s (record { visit = v; due_at = o; marker = marker })
    else s
consider env s v bound _ = s

-- The rest of a visit, once the bound was read.
unfoldable pub visit_bounded :
    DispatchEnv → DispatchState → Visit → Option CatchUp → Timed DispatchState
unfolding due_occurrence consider
visit_bounded env s v none = ok s
visit_bounded env s v (some bound) =
    due_occurrence env s.markers v >>= λ due. ok (consider env s v bound due)

-- The body of the loop over routines.
unfoldable pub visit_routine : DispatchEnv → DispatchState → Visit → Timed DispatchState
unfolding visit_bounded parse_catch_up or_empty
visit_routine env s v =
    if not v.routine.enabled || not (or_empty v.routine.condition == "")
    then ok s
    else parse_catch_up env.clock v.routine.schedule.catch_up >>= visit_bounded env s v

-- The loops over teams, agents and routines, one visit after the other; an error ends them.
unfoldable pub visit_routines : DispatchEnv → DispatchState → List Visit → Timed DispatchState
unfolding visit_routine
visit_routines env s [] = ok s
visit_routines env s (v ∷ vs) = visit_routine env s v >>= λ after. visit_routines env after vs
