-- ===== src/Dispatch/Run/Once.antt =====
-- The submissions of a cycle and their markers (dispatch/run.py).
use flowgency.Common.{
  ℕ, ◌+◌, ◌<◌, String, Bool, true, false, not, ◌||◌, Option, none, some, List, [], ◌∷◌, ◌≡◌, refl,
  sym, subst, inl, inr, ◌==◌, if◌then◌else◌, Bool-cases, Option-cases, arith, ok, >>=-eq-ok, eq_iff,
  ◌∙◌, All, All-mono, All-In, Distinct, num_eq, ltb,
}
use flowgency.Common.Dict.{Dict, insert, lookup, has_key, lookup-insert, has_key-insert}
use flowgency.Dispatch.Schedule.{
  Timed, date, last_at_occurrence, or_empty, parse_every, step_from, last_every_occurrence,
}
use flowgency.Dispatch.Run.{
  Visit, Submission, DispatchState, DispatchEnv, is_settled, same_occurrence, visit_routine,
  visit_routines, Due, at_marker_path, due_at_time, due_occurrence, due_every, due_after,
  every_marker_path, consider, visit_bounded,
}
use flowgency.Dispatch.Run.Fires.{Fires, request_of, recorded, visit_routine-cases}

abbrev pub has_at : Submission → Bool
has_at q = not (or_empty q.visit.routine.schedule.at == "")

-- The path of the marker for the log directory, the agent and the routine of a submission, and the
-- day of its occurrence.
abbrev pub day_path : DispatchEnv → Submission → String
day_path env q =
    at_marker_path q.visit.logs_root q.visit.agent_name q.visit.routine.id
      (env.clock.format_day (date q.due_at))

-- Those paths for what was submitted for a time of day.
unfoldable pub day_paths : DispatchEnv → List Submission → List String
day_paths env [] = []
day_paths env (q ∷ qs) =
    let rest = day_paths env qs in if has_at q then day_path env q ∷ rest else rest

-- Every submission for a time of day has a marker for its routine and day, and no two have the same.
pub record IsRecorded (env : DispatchEnv) (s : DispatchState) : Type 0 where
  pub marked : All (λ m. has_key m s.markers ≡ true) (day_paths env s.submitted)
  pub distinct : Distinct (day_paths env s.submitted)

has_key-insert_other :
    (k j : String) (v : ℕ) (d : Dict ℕ) → has_key k d ≡ true → has_key k (insert j v d) ≡ true
unfolding has_key insert
has_key-insert_other k j v [] h = cc
has_key-insert_other k j v ((i, w) ∷ d) h =
    ground (arith, eq_iff i k, eq_iff i j, eq_iff j k, has_key-insert_other k j v d)

unsettled-fresh :
    (s : DispatchState) (v : Visit) (o : ℕ) (marker : String)
    → v.lost ≡ none
    → is_settled s.markers v o marker ≡ false
    → has_at (request_of v o marker) ≡ true
    → has_key marker s.markers ≡ false
unfolding is_settled same_occurrence
unsettled-fresh s v o marker found unsettled timed = ground (arith, found)

-- What is due at a time of day is marked for the routine and the day.
due_at_time_path :
    (env : DispatchEnv) (s : DispatchState) (v : Visit) (o : ℕ) (marker : String)
    → due_occurrence env s.markers v ≡ ok (some o, some marker)
    → has_at (request_of v o marker) ≡ true
    → marker ≡ day_path env (request_of v o marker)
unfolding due_occurrence due_at_time
due_at_time_path env s v o marker due timed =
    let given : (or_empty v.routine.schedule.at == "") ≡ false = ground arith in
    let at_time = rw given at due in
    let (found, read, rest) =
      >>=-eq-ok (last_at_occurrence env.clock (or_empty v.routine.schedule.at) v.now) _ at_time in
    elim (Option-cases found) [
      | inl never ↦ absurd (cc (rw never at rest))
      | inr (p, latest) ↦ path_of p (rw latest at rest)
    ]
  where
    path_at : ℕ → String
    path_at p = at_marker_path v.logs_root v.agent_name v.routine.id (env.clock.format_day (date p))

    path_of :
        (p : ℕ)
        → ◌≡◌ {A = Timed Due} (ok (some p, some (path_at p))) (ok (some o, some marker))
        → marker ≡ path_at o
    path_of p same = ground arith

IsRecorded-recorded :
    (env : DispatchEnv) (s : DispatchState) (v : Visit) (o : ℕ) (marker : String)
    → v.lost ≡ none
    → due_occurrence env s.markers v ≡ ok (some o, some marker)
    → is_settled s.markers v o marker ≡ false
    → IsRecorded env s
    → IsRecorded env (recorded env s (request_of v o marker))
unfolding day_paths
IsRecorded-recorded env s v o marker found due unsettled r =
    let kept =
      All-mono (λ m. has_key m s.markers ≡ true) _
        (λ m h. has_key-insert_other m marker (env.read_back o) s.markers h) _ r.marked in
    elim (Bool-cases (has_at (request_of v o marker))) [
      | inr timeless ↦ record { marked = rw timeless kept; distinct = rw timeless r.distinct }
      | inl timed ↦
          let path = due_at_time_path env s v o marker due timed in
          let stamped : has_key (day_path env (request_of v o marker))
                (insert marker (env.read_back o) s.markers)
              ≡ true =
            subst (λ m. has_key m (insert marker (env.read_back o) s.markers) ≡ true) path
              (has_key-insert marker (env.read_back o) s.markers) in
          let fresh : has_key (day_path env (request_of v o marker)) s.markers ≡ false =
            subst (λ m. has_key m s.markers ≡ false) path
              (unsettled-fresh s v o marker found unsettled timed) in
          record {
            marked = rw timed (stamped, kept);
            distinct = rw timed (
              (λ i. cc (All-In (λ m. has_key m s.markers ≡ true) r.marked i, fresh)),
              r.distinct,
            );
          }
    ]

-- Whatever visits are made, in any order and at any times, none of them for a lost occurrence: if the
-- submissions for a time of day were recorded before, they are afterwards. That is, each has a marker
-- at the path of its log directory, agent, routine and the day of its occurrence, and no two have the
-- same path.
pub visit_routines-IsRecorded :
    (env : DispatchEnv) (vs : List Visit) (s after : DispatchState)
    → IsRecorded env s
    → All (λ v. v.lost ≡ none) vs
    → visit_routines env s vs ≡ ok after
    → IsRecorded env after
unfolding visit_routines
visit_routines-IsRecorded env [] s after r found h = subst (IsRecorded env) (ground arith) r
visit_routines-IsRecorded env (v ∷ vs) s after r found h =
    let (next, once, rest) = >>=-eq-ok (visit_routine env s v) _ h in
    visit_routines-IsRecorded env vs next after
      (elim (visit_routine-cases env s next v once) [
        | inl same ↦ subst (IsRecorded env) (sym same) r
        | inr (o, marker, f, same) ↦
            subst (IsRecorded env) (sym same)
              (IsRecorded-recorded env s v o marker found.0 f.due f.unsettled r)
      ])
      found.1 rest

every_path : Visit → String
every_path v = every_marker_path v.logs_root v.agent_name v.routine.id

-- An occurrence comes with the marker that the rule was asked for.
due_after_marker :
    (env : DispatchEnv) (v : Visit) (every : String) (mtime : Option ℕ) (asked : String) (o : ℕ)
    (marker : String)
    → due_after env v every mtime asked ≡ ok (some o, some marker)
    → marker ≡ asked
unfolding due_after
due_after_marker env v every none asked o marker h = ground arith
due_after_marker env v every (some anchor) asked o marker h =
    let (found, read, rest) = >>=-eq-ok (last_every_occurrence env.clock anchor every v.now) _ h in
    elim (Option-cases found) [
      | inl waiting ↦ ground (arith, waiting)
      | inr (p, passed) ↦ ground (arith, passed)
    ]

due_after_waits :
    (env : DispatchEnv) (v : Visit) (every marker : String) (period anchor : ℕ)
    → parse_every env.clock (some every) ≡ ok (some period)
    → num_eq period 0 ≡ false
    → v.lost ≡ none
    → v.now < anchor + period
    → due_after env v every (some anchor) marker ≡ ok (none, some marker)
unfolding due_after last_every_occurrence step_from same_occurrence
due_after_waits env v every marker period anchor parsed positive found early =
    let soon : ltb v.now (anchor + period) ≡ true = ground arith in
    rw (parsed, positive, soon, found) refl

or_empty_given : {value : Option String} {text : String} → value ≡ some text → or_empty value ≡ text
unfolding or_empty
or_empty_given {value = value} {text = text} h = ground arith

-- What an `every` rule that is due says of its marker.
module _ (env : DispatchEnv) (v : Visit) (every : String) (period : ℕ)
    (timeless : or_empty v.routine.schedule.at ≡ "") (given : v.routine.schedule.every ≡ some every)
    (parsed : parse_every env.clock (some every) ≡ ok (some period)) where
  due_every_path :
      (markers : Dict ℕ) (o : ℕ) (marker : String)
      → due_occurrence env markers v ≡ ok (some o, some marker)
      → (marker ≡ every_path v) × (num_eq period 0 ≡ false) × ((every == "") ≡ false)
  unfolding due_occurrence due_every every_path
  due_every_path markers o marker due =
      let blank : (or_empty v.routine.schedule.at == "") ≡ true = (eq_iff _ "").1 timeless in
      let text : or_empty v.routine.schedule.every ≡ every = or_empty_given given in
      elim (Bool-cases (every == "")) [
        | inl empty ↦ absurd (cc (rw (blank, text, empty) at due))
        | inr readable ↦ elim (Bool-cases (num_eq period 0)) [
          | inl stopped ↦ absurd (cc (rw (blank, text, readable, parsed, stopped) at due))
          | inr positive ↦ (
            due_after_marker env v (or_empty v.routine.schedule.every)
                (lookup (every_path v) markers) (every_path v) o marker
                (rw (blank, text, readable, parsed, positive) at due),
            positive,
            readable,
          )
        ]
      ]

  due_every_waits :
      (markers : Dict ℕ) (anchor now : ℕ)
      → lookup (every_path v) markers ≡ some anchor
      → num_eq period 0 ≡ false
      → (every == "") ≡ false
      → now < anchor + period
      → due_occurrence env markers (record v { now = now; lost = none })
        ≡ ok (none, some (every_path v))
  unfolding due_occurrence due_every every_path
  due_every_waits markers anchor now stamped positive readable early =
      let blank : (or_empty v.routine.schedule.at == "") ≡ true = (eq_iff _ "").1 timeless in
      let text : or_empty v.routine.schedule.every ≡ every = or_empty_given given in
      let waits =
        due_after_waits env (record v { now = now; lost = none })
          (or_empty v.routine.schedule.every) (every_path v) period anchor
          (subst (λ z. parse_every env.clock (some z) ≡ ok (some period)) (sym text) parsed)
          positive refl early in
      rw (blank, text, readable, parsed, positive, stamped) waits

-- After an `every` routine was submitted, nothing is submitted for it until a period has passed
-- since the time its marker carries, when its job was not lost.
pub visit_routine_once :
    (env : DispatchEnv) (s : DispatchState) (v : Visit) (o : ℕ) (marker every : String)
    (period now : ℕ)
    → or_empty v.routine.schedule.at ≡ ""
    → v.routine.schedule.every ≡ some every
    → parse_every env.clock (some every) ≡ ok (some period)
    → Fires env s v o marker
    → now < env.read_back o + period
    → visit_routine env
        (recorded env s (request_of v o marker))
        (record v { now = now; lost = none })
      ≡ ok (recorded env s (request_of v o marker))
unfolding visit_routine visit_bounded consider
visit_routine_once env s v o marker every period now timeless given parsed f early =
    let (same, positive, readable) =
      due_every_path env v every period timeless given parsed s.markers o marker f.due in
    let after = recorded env s (request_of v o marker) in
    let stamped : lookup (every_path v) after.markers ≡ some (env.read_back o) =
      lookup-insert marker (every_path v) (env.read_back o) s.markers
      ∙ ground (arith, eq_iff marker (every_path v)) in
    let waits =
      due_every_waits env v every period timeless given parsed after.markers (env.read_back o) now
        stamped positive readable early in
    let taken : (not v.routine.enabled || not (or_empty v.routine.condition == "")) ≡ false =
      ground (arith, f.enabled, f.unconditional, eq_iff (or_empty v.routine.condition) "") in
    rw (taken, f.bounded, waits) refl
