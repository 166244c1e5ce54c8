-- ===== src/Job/Claims.antt =====
-- What the claim of a started job does to its record (jobs/queue.py, `_start`; jobs/store.py).
use flowgency.Common.{
  ℕ, ◌+◌, ◌≤◌, String, ◌≡◌, ◌≢◌, refl, sym, ap, ◌∙◌, inl, inr, true, false, Option, none, some,
  List, arith, eq_iff, ok, Option-cases, Outcome-cases,
}
use flowgency.Common.Dict.{lookup, insert}
use flowgency.Job.Store.{
  queued, status_eq, JobRecord, JobEnv, claim_job, claimed_record, update_job, write_job,
  is_launched, launch_abandoned, is_launchable,
}
use flowgency.Job.Progression.{ReadsBack, JobCall, run-Follows}
use flowgency.Job.Queue.{launched, QueueEnv, Files, start}

-- A process that the launcher reports is not known to be gone.
abbrev pub IsLive : JobEnv → Option ℕ → Type 0
IsLive env none = Unit
IsLive env (some p) = env.worker_alive p ≢ some false

-- Through the whole grace period of a launch. After it, a launch that left no process id and is still
-- queued counts as abandoned.
abbrev HeldFrom : JobEnv → ℕ → JobRecord → Type 0
HeldFrom env now u = (later : ℕ) → later ≤ now + 300 → is_launchable env later u ≡ false

module _ (env : JobEnv) (now : ℕ) (pid : Option ℕ)
    (stamps : env.parse_instant (env.format_instant now) ≡ some now) (live : IsLive env pid) where
  claimed_held : (r u : JobRecord) → claimed_record env now pid r ≡ ok u → HeldFrom env now u
  unfolding is_launchable is_launched launch_abandoned
  claimed_held r u h later within = elim (Option-cases pid) [
    | inl absent ↦ ground (arith, stamps)
    | inr (p, present) ↦ ground (arith, live)
  ]

  ended_held : (r : JobRecord) → status_eq r.status queued ≡ false → HeldFrom env now r
  unfolding is_launchable
  ended_held r h later within = ground arith

  -- Claiming an authentic record leaves one that may not be launched.
  claim_job-held :
      (r : JobRecord)
      → ReadsBack env
      → r.authority_digest ≡ env.immutable_digest r.spec
      → (u : JobRecord) × ((claim_job env now (ok r) pid).1 ≡ ok u) × HeldFrom env now u
  unfolding claim_job update_job
  claim_job-held r reads_back authentic = elim (Outcome-cases (claimed_record env now pid r)) [
    | inl (u, accepted) ↦ (
      u,
      rw
          (
            update_job,
            accepted,
            write_job,
            (eq_iff u.authority_digest (env.immutable_digest u.spec)).1 (ground arith),
            reads_back u,
          )
          refl,
      claimed_held r u accepted,
    )
    | inr (e, refused) ↦ (r, rw (update_job, refused) refl, ended_held r (ground arith))
  ]

-- Once the queue has started a job, the record that it leaves may not be launched again for 300
-- seconds, whatever its worker has done to the record in between: if the record was authentic, the
-- time stamp reads back as the time, the launcher's process is not known to be gone, and records read
-- back as they were written.
pub start_holds :
    (env : QueueEnv) (now : ℕ) (path : String) (files : Files) (r : JobRecord) (pid : Option ℕ)
    (worker : List JobCall)
    → ReadsBack env.jobs
    → env.jobs.parse_instant (env.jobs.format_instant now) ≡ some now
    → IsLive env.jobs pid
    → lookup path files ≡ some (ok r)
    → r.authority_digest ≡ env.jobs.immutable_digest r.spec
    → is_launchable env.jobs now r ≡ true
    → env.launch path r ≡ launched pid worker
    → (u : JobRecord) × (start env now path files ≡ (true, insert path (ok u) files))
      × ((later : ℕ) → later ≤ now + 300 → is_launchable env.jobs later u ≡ false)
unfolding start
start_holds env now path files r pid worker reads_back stamps live found authentic ready launches =
    let (v, ran, follows) = run-Follows env.jobs r worker reads_back in
    let (u, claimed, held) =
      claim_job-held env.jobs now pid stamps live v reads_back (
        follows.same_authority
        ∙ authentic
        ∙ ap env.jobs.immutable_digest (sym follows.same_spec)) in
    (u, rw (start, found, ready, launches, ran, claimed) refl, held)
