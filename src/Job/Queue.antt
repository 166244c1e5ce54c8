-- ===== src/Job/Queue.antt =====
-- flowgency/jobs/queue.py: the queue and its pool of workers. The launcher is the environment's, and
-- so is what is done to the record of the job between a launch, that succeeds or fails, and the
-- queue's own update of it. The files are those of all
-- teams, in the order in which `_entries` reads them, by path.
use Prim.Native.String.{compare}
use Prim.Native.Nat.{Ordering}
use flowgency.Common.{
  ℕ, zero, suc, ◌-◌, String, Bool, true, false, Option, none, some, List, [], ◌∷◌, if◌then◌else◌,
  ok, raise,
}
use flowgency.Common.Dict.{Dict, lookup, insert}
use flowgency.Job.Store.{
  queued, failed, Progress, JobRecord, JobFile, JobEnv, transition_job, claim_job, occupies_slot,
  is_launchable,
}
use flowgency.Job.Progression.{JobCall, run}

-- The launcher fails, or reports a process id or none. The calls are those on the job's file that
-- come before the queue's own.
pub data Launch : Type 0 where
  no_launch : List JobCall → Launch
  launched : Option ℕ → List JobCall → Launch

pub record QueueEnv : Type 0 where
  pub jobs : JobEnv
  pub launch : String → JobRecord → Launch

abbrev pub Files : Type 0
Files = Dict JobFile

pub record QueueEntry : Type 0 where
  pub path : String
  pub record_read : JobRecord

-- The readable records.
unfoldable pub entries : Files → List QueueEntry
entries [] = []
entries ((path, file) ∷ rest) =
    let others = entries rest in
    elim file [ raise e ↦ others | ok r ↦ record { path = path; record_read = r } ∷ others ]

-- `record.due_at or record.spec.created_at or ""`: an empty text counts as absent.
abbrev pub order_time : JobRecord → String
order_time r = elim r.due_at [
  | none ↦ r.spec.created_at
  | some due ↦ elim (compare due "") [ Ordering.eq ↦ r.spec.created_at | _ ↦ due ]
]

-- Whether the first sorts after the second.
unfoldable pub sorts_after : QueueEntry → QueueEntry → Bool
sorts_after a b = elim (compare (order_time a.record_read) (order_time b.record_read)) [
  | Ordering.lt ↦ false
  | Ordering.gt ↦ true
  | Ordering.eq ↦ elim (compare a.record_read.spec.job_id b.record_read.spec.job_id) [
    | Ordering.gt ↦ true
    | _ ↦ false
  ]
]

-- sorted(…, key=_order_key), which keeps the order of equal keys.
unfoldable pub insert_entry : QueueEntry → List QueueEntry → List QueueEntry
unfolding sorts_after
insert_entry e [] = e ∷ []
insert_entry e (f ∷ rest) =
    let later = insert_entry e rest in if sorts_after e f then f ∷ later else e ∷ f ∷ rest

unfoldable pub launchable_entries : JobEnv → ℕ → List QueueEntry → List QueueEntry
launchable_entries env now [] = []
launchable_entries env now (e ∷ rest) =
    let others = launchable_entries env now rest in
    if is_launchable env now e.record_read then insert_entry e others else others

unfoldable pub occupied : JobEnv → ℕ → List QueueEntry → ℕ
occupied env now [] = 0
occupied env now (e ∷ rest) =
    let others = occupied env now rest in
    if occupies_slot env now e.record_read then suc others else others

pub record QueueView : Type 0 where
  pub in_use : ℕ
  pub waiting : List QueueEntry
  pub pool : ℕ

unfoldable pub queue_snapshot : JobEnv → ℕ → ℕ → Files → QueueView
unfolding entries launchable_entries occupied
queue_snapshot env now pool files = record {
  in_use = occupied env now (entries files);
  waiting = launchable_entries env now (entries files);
  pool = pool;
}

abbrev pub completed : JobEnv → ℕ → Progress → Progress
completed env now p = record p { completed_at = some (env.format_instant now) }

-- Recording that a launch failed: a job that has left the queue stays as it is.
unfoldable pub fail_launch : JobEnv → ℕ → JobFile → JobFile
fail_launch env now file = (transition_job env file queued failed (completed env now)).1

-- _start
unfoldable pub start : QueueEnv → ℕ → String → Files → Bool × Files
unfolding fail_launch
start env now path files = elim (lookup path files) [
  | none ↦ (false, files)
  | some (raise e) ↦ (false, files)
  | some (ok r) ↦
      if is_launchable env.jobs now r
      then elim (env.launch path r) [
        | no_launch others ↦
            (false, insert path (fail_launch env.jobs now (run env.jobs (ok r) others)) files)
        | launched pid worker ↦
            (true, insert path ((claim_job env.jobs now (run env.jobs (ok r) worker) pid).1) files)
      ]
      else (false, files)
]

-- The loop of `drain`, from the number of free slots; it returns how many jobs it started.
unfoldable pub start_waiting : QueueEnv → ℕ → ℕ → List QueueEntry → Files → ℕ × Files
unfolding start
start_waiting env now capacity [] files = (0, files)
start_waiting env now zero (e ∷ rest) files = (0, files)
start_waiting env now (suc capacity) (e ∷ rest) files =
    let (began, files') = start env now e.path files in
    let (count, files'') =
      start_waiting env now (if began then capacity else suc capacity) rest files' in
    (if began then suc count else count, files'')

-- `drain` once it holds the queue's lock; the records are reconciled first.
unfoldable pub drain : QueueEnv → (Files → Files) → ℕ → ℕ → Files → ℕ × Files
unfolding queue_snapshot start_waiting
drain env reconcile now pool files =
    let files' = reconcile files in
    let view = queue_snapshot env.jobs now pool files' in
    start_waiting env now (view.pool - view.in_use) view.waiting files'
