-- ===== src/Dispatch/Examples.antt =====
-- A team with one routine in the morning and one every hour.
use Prim.Native.Char.{Char, code}
use flowgency.Common.{
  ℕ, strip, ◌+◌, ◌-◌, ◌*◌, ◌<◌, ◌≡◌, ◌↔◌, refl, true, false, ◌&&◌, Option, none, some, String, [],
  ◌∷◌, All, ok, leb, if◌then◌else◌, ◌==◌, arith,
}
use flowgency.Common.Dict.{insert, lookup, has_key}
use flowgency.Job.Store.{failed}
use flowgency.Dispatch.Schedule.{
  Clock, or_empty, second_us, day_us, parse_every, last_every_occurrence, last_at_occurrence,
}
use flowgency.Dispatch.Schedule.Bounds.{
  IsNewest, last_every_occurrence-IsNewest, IsLatest, last_at_occurrence-IsLatest,
}
use flowgency.Dispatch.Lost.{RoutineJob, null, lost_occurrences}
use flowgency.Dispatch.Lost.Newest.{IsGreatest, occurrences, lost_occurrences-IsGreatest}
use flowgency.Dispatch.Run.{Visit, DispatchState, DispatchEnv, visit_routine, visit_routines}
use flowgency.Dispatch.Run.Fires.{Fires, request_of, recorded, visit_routine-Fires}
use flowgency.Dispatch.Run.Once.{
  IsRecorded, day_paths, visit_routines-IsRecorded, visit_routine_once,
}

abbrev ascii_digit : Char → Option ℕ
ascii_digit c = if leb b'0' (code c) && leb (code c) b'9' then some (code c - b'0') else none

abbrev clock : Clock
clock = record {
  digit = ascii_digit;
  strptime = λ s. if s == "07:30" then some 450 else none;
  format_day = λ day. "2026-01-02";
}

abbrev env : DispatchEnv
env = record { clock = clock; interval = 5; accepts = λ q. true; read_back = λ t. t }

abbrev hour_us : ℕ
hour_us = 3600 * second_us

abbrev noon : ℕ
noon = 10 * day_us + 12 * hour_us

abbrev morning : Visit
morning = record {
  logs_root = "/logs";
  agent_name = "ada";
  routine = record {
    id = "digest";
    schedule = record { at = some "07:30"; every = none; catch_up = none };
    enabled = true;
    condition = none;
  };
  now = noon;
  lost = none;
}

abbrev hourly : Visit
hourly = record morning {
  routine = record {
    id = "sweep";
    schedule = record { at = none; every = some "1h"; catch_up = some "always" };
    enabled = true;
    condition = none;
  };
}

abbrev nothing_yet : DispatchState
nothing_yet = record { markers = []; submitted = [] }

hour_read : parse_every clock (some "1h") ≡ ok (some hour_us)
unfolding parse_every
hour_read = refl

last_every_occurrence-IsNewest_example :
    (last_every_occurrence clock noon "1h" (noon + 2 * hour_us + 7)
      ≡ ok (some (noon + 2 * hour_us)))
    ↔ IsNewest noon hour_us (noon + 2 * hour_us + 7) (noon + 2 * hour_us)
last_every_occurrence-IsNewest_example =
    last_every_occurrence-IsNewest clock noon "1h" (noon + 2 * hour_us + 7) hour_us
      (noon + 2 * hour_us) hour_read (omega arith)

half_past :
    last_at_occurrence clock "07:30" noon ≡ ok (some (noon - 4 * hour_us - 1800 * second_us))
unfolding last_at_occurrence
half_past = refl

last_at_occurrence-IsLatest_example : IsLatest 450 noon (noon - 4 * hour_us - 1800 * second_us)
unfolding strip
last_at_occurrence-IsLatest_example =
    last_at_occurrence-IsLatest clock "07:30" noon 450 (noon - 4 * hour_us - 1800 * second_us) refl
      (omega arith) half_past

abbrev job : RoutineJob
job = record {
  trigger = "scheduled_prompt";
  agent_name = "ada";
  routine_id = some "digest";
  due_at = some "then";
  status = failed;
  launched_at = none;
  worker_pid = none;
  result_metadata = null;
}

abbrev at_noon : String → Option ℕ
at_noon s = some noon

lost_occurrences-IsGreatest_example :
    (lost_occurrences at_noon (job ∷ []) "ada" "digest" ≡ some noon) ↔ (
      IsGreatest (occurrences at_noon true "ada" "digest" (job ∷ [])) noon
      × All (λ s. s < noon) (occurrences at_noon false "ada" "digest" (job ∷ [])))
lost_occurrences-IsGreatest_example =
    lost_occurrences-IsGreatest at_noon (job ∷ []) "ada" "digest" noon

sweep_submitted :
    visit_routine env nothing_yet hourly
    ≡ ok (recorded env nothing_yet (request_of hourly noon "/logs/.last-ada-sweep"))
unfolding visit_routine lookup
sweep_submitted = refl

sweep-Fires : Fires env nothing_yet hourly noon "/logs/.last-ada-sweep"
sweep-Fires =
    (visit_routine-Fires env nothing_yet hourly noon "/logs/.last-ada-sweep").0 sweep_submitted

abbrev swept : DispatchState
swept = recorded env nothing_yet (request_of hourly noon "/logs/.last-ada-sweep")

visit_routine_once_example :
    visit_routine env swept (record hourly { now = noon + 100; lost = none }) ≡ ok swept
unfolding or_empty
visit_routine_once_example =
    visit_routine_once env nothing_yet hourly noon "/logs/.last-ada-sweep" "1h" hour_us (noon + 100)
      refl refl hour_read sweep-Fires (omega arith)

nothing_yet-IsRecorded : IsRecorded env nothing_yet
unfolding day_paths
nothing_yet-IsRecorded = record { marked = tt; distinct = tt }

abbrev digested : DispatchState
digested = recorded env nothing_yet (
    request_of morning (noon - 4 * hour_us - 1800 * second_us)
      "/logs/2026-01-02/.event-ada-digest-2026-01-02")

digest_submitted_once : visit_routines env nothing_yet (morning ∷ morning ∷ []) ≡ ok digested
unfolding visit_routines insert has_key
digest_submitted_once = refl

visit_routines-IsRecorded_example : IsRecorded env digested
visit_routines-IsRecorded_example =
    visit_routines-IsRecorded env (morning ∷ morning ∷ []) nothing_yet digested
      nothing_yet-IsRecorded (refl, (refl, tt)) digest_submitted_once
