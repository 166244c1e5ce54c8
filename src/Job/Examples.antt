-- ===== src/Job/Examples.antt =====
-- A queue of two jobs and a pool of one, and the theorems of the queue at work on it.
use flowgency.Common.{
  In, ◌↔◌, ◌≤◌, ◌-◌, ◌+◌, ◌≡◌, refl, ap, subst, ◌⊎◌, inl, inr, true, false, not, none, some, List,
  [], ◌∷◌, ok, ℕ, String, All, Bool-cases, ◌==◌, if◌then◌else◌, arith,
}
use flowgency.Common.Dict.{lookup, insert}
use flowgency.Job.Store.{
  queued, running, complete, JobSpec, JobRecord, JobFile, is_launchable, occupies_slot, is_launched,
  launch_abandoned, is_active,
}
use flowgency.Job.Progression.{
  JobCall, transitions, claims, cancels, merges_result, merges_failure, fills_completed, run,
  Follows, run-Follows,
}
use flowgency.Job.Queue.{
  QueueEntry, queue_snapshot, Launch, launched, no_launch, QueueEnv, Files, start, drain,
}
use flowgency.Job.Pool.{in_use, OnlyCancelled, drain-in_use, active_exactly_once}
use flowgency.Job.Claims.{start_holds}
use flowgency.Job.Waiting.{queue_snapshot-In}

abbrev spec : JobSpec
spec = record { job_id = "job"; agent_name = "ada"; created_at = "2026-01-01" }

abbrev waiting_job : JobRecord
waiting_job = record {
  spec = spec;
  authority_digest = "digest";
  status = queued;
  progress = record {
    worker_pid = none;
    started_at = none;
    completed_at = none;
    due_at = none;
    launched_at = none;
  };
}

abbrev env : QueueEnv
env = record {
  jobs = record {
    immutable_digest = λ s. "digest";
    reread = λ r. ok r;
    worker_alive = λ p. some true;
    parse_instant = λ s. some 100;
    format_instant = λ n. "100";
  };
  launch = λ path r. launched none [];
}

abbrev files : Files
files = ("a.yaml", ok waiting_job) ∷ ("b.yaml", ok waiting_job) ∷ []

abbrev lifetime : List JobCall
lifetime =
    merges_result
    ∷ claims 100 none
    ∷ transitions queued running (λ p. p)
    ∷ cancels
    ∷ transitions running complete (λ p. p)
    ∷ fills_completed "100"
    ∷ merges_failure (some "100")
    ∷ []

run-Follows_example :
    (u : JobRecord) × (run env.jobs (ok waiting_job) lifetime ≡ ok u) × Follows waiting_job u
run-Follows_example = run-Follows env.jobs waiting_job lifetime (λ r. refl)

active_exactly_once_example :
    ((is_active waiting_job.status ≡ true)
      × (not (occupies_slot env.jobs 100 waiting_job) ≡ is_launchable env.jobs 100 waiting_job))
    ⊎ ((is_active waiting_job.status ≡ false)
        × (occupies_slot env.jobs 100 waiting_job ≡ false)
        × (is_launchable env.jobs 100 waiting_job ≡ false))
active_exactly_once_example = active_exactly_once env.jobs 100 waiting_job

-- A launcher that fails for one of the jobs, which is cancelled meanwhile.
abbrev flaky : QueueEnv
flaky = record env {
  launch = λ path r. if path == "a.yaml" then no_launch (cancels ∷ []) else launched none [];
}

flaky-OnlyCancelled : OnlyCancelled flaky
flaky-OnlyCancelled path r calls h = elim (Bool-cases (path == "a.yaml")) [
  | inl first ↦
      subst (All (λ c. c ≡ cancels)) {x = cancels ∷ []} (ap calls_of (rw first at h)) (refl, tt)
  | inr other ↦ absurd (ground arith)
]
  where
    calls_of : Launch → List JobCall
    calls_of (no_launch cs) = cs
    calls_of (launched pid cs) = cs

drain-in_use_example :
    let answer = drain flaky (λ fs. fs) 100 1 files in
    let before = in_use flaky.jobs 100 files in
    (answer.0 ≤ 1 - before)
    × ((in_use flaky.jobs 100 answer.1 ≤ 1) ⊎ (in_use flaky.jobs 100 answer.1 ≤ before))
drain-in_use_example = drain-in_use flaky 100 (λ r. refl) flaky-OnlyCancelled (λ fs. fs) 1 files

job_found : lookup "a.yaml" files ≡ some (ok waiting_job)
unfolding lookup
job_found = refl

job_ready : is_launchable env.jobs 100 waiting_job ≡ true
unfolding is_launchable is_launched launch_abandoned
job_ready = refl

start_holds_example :
    (u : JobRecord) × (start env 100 "a.yaml" files ≡ (true, insert "a.yaml" (ok u) files))
    × ((later : ℕ) → later ≤ 100 + 300 → is_launchable env.jobs later u ≡ false)
start_holds_example =
    start_holds env 100 "a.yaml" files waiting_job none [] (λ r. refl) refl tt job_found refl
      job_ready refl

abbrev waiting_entry : QueueEntry
waiting_entry = record { path = "a.yaml"; record_read = waiting_job }

queue_snapshot-In_example : In waiting_entry ((queue_snapshot env.jobs 100 1 files).waiting) ↔ (
    In {A = String × JobFile} ("a.yaml", ok waiting_job) files
    × (is_launchable env.jobs 100 waiting_job ≡ true))
queue_snapshot-In_example = queue_snapshot-In env.jobs 100 1 files waiting_entry
