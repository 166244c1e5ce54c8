-- ===== src/Job/Progression.antt =====
-- How a job moves through its states: the calls that write the file of a job that exists, in
-- flowgency/jobs/store.py and flowgency/jobs/execution.py.
use flowgency.Common.{
  ℕ, String, ◌≤◌, ◌≡◌, refl, sym, subst, ap, ◌∙◌, ◌⊎◌, inl, inr, true, Option, none, some, List, [],
  ◌∷◌, arith, ok, Outcome-cases, Bool-cases, ◌==◌, if◌then◌else◌, raise,
}
use flowgency.Job.Store.{
  Status, queued, waiting_for_memory, running, complete, failed, cancelled, Progress, JobRecord,
  Attempt, JobFile, JobEnv, write_job, update_job, transitioned, transition_job, cancelled_record,
  cancel_job, claimed_record, claim_job, is_terminal, status_eq,
}

-- `started or given`
abbrev pub started_or : Option String → Option String → Option String
started_or (some text) given = if text == "" then given else some text
started_or none given = given

-- Of the fields that these writers merge, the record has `started_at` alone.
abbrev pub merged_failure : Option String → JobRecord → JobRecord
merged_failure started r = record r {
  progress = record r.progress { started_at = started_or r.started_at started };
}

abbrev pub filled_completed : String → JobRecord → JobRecord
filled_completed started r = record r { progress = record r.progress { started_at = some started } }

-- A record in another state than the writer's is not written.
unfoldable pub write_when : JobEnv → JobFile → Status → (JobRecord → JobRecord) → JobFile
unfolding write_job
write_when env (raise e) status merge = raise e
write_when env (ok r) status merge =
    if status_eq r.status status then (write_job env (ok r) (merge r)).1 else ok r

-- _merge_failed_terminal_metadata
unfoldable pub merge_failed_terminal_metadata : JobEnv → JobFile → Option String → JobFile
merge_failed_terminal_metadata env file started =
    write_when env file failed (merged_failure started)

-- The write that follows a finished publication.
unfoldable pub write_completed_metadata : JobEnv → JobFile → String → JobFile
write_completed_metadata env file started = write_when env file complete (filled_completed started)

-- _merge_result_metadata: the metadata is not a field of the model.
unfoldable pub merge_result_metadata : JobEnv → JobFile → JobFile
merge_result_metadata env file = (update_job env file (λ r. ok r)).1

-- What the code does to the file of a job.
pub data JobCall : Type 0 where
  transitions : Status → Status → (Progress → Progress) → JobCall
  cancels : JobCall
  claims : ℕ → Option ℕ → JobCall
  merges_failure : Option String → JobCall
  fills_completed : String → JobCall
  merges_result : JobCall

unfoldable pub step : JobEnv → JobFile → JobCall → JobFile
step env file (transitions expected status changes) =
    (transition_job env file expected status changes).1
step env file cancels = (cancel_job env file).1
step env file (claims now pid) = (claim_job env now file pid).1
step env file (merges_failure started) = merge_failed_terminal_metadata env file started
step env file (fills_completed started) = write_completed_metadata env file started
step env file merges_result = merge_result_metadata env file

unfoldable pub run : JobEnv → JobFile → List JobCall → JobFile
unfolding step
run env file [] = file
run env file (c ∷ cs) = run env (step env file c) cs

-- Records read back as they were written.
abbrev pub ReadsBack : JobEnv → Type 0
ReadsBack env = (r : JobRecord) → env.reread r ≡ ok r

-- A state's place on the way through the queue.
abbrev pub rank : Status → ℕ
rank queued = 0
rank waiting_for_memory = 1
rank running = 2
rank complete = 3
rank failed = 3
rank cancelled = 3

-- The record but for the time at which its work started.
abbrev pub but_start : JobRecord → JobRecord
but_start r = record r { progress = record r.progress { started_at = none } }

-- The record stays, or moves on, and an ended one changes in the time of its start at most.
pub record Follows (r u : JobRecord) : Type 0 where
  pub same_spec : u.spec ≡ r.spec
  pub same_authority : u.authority_digest ≡ r.authority_digest
  pub onward : rank r.status ≤ rank u.status
  pub stays_ended : is_terminal r.status ≡ true → but_start u ≡ but_start r

transitioned-Follows :
    (expected status : Status) (changes : Progress → Progress) (r u : JobRecord)
    → transitioned expected status changes r ≡ ok u
    → Follows r u
transitioned-Follows expected status changes r u h = record {
  same_spec = ground arith;
  same_authority = ground arith;
  onward = ground arith;
  stays_ended = λ ended. ground arith;
}

cancelled_record-Follows : (r u : JobRecord) → cancelled_record r ≡ ok u → Follows r u
cancelled_record-Follows r u h = record {
  same_spec = ground arith;
  same_authority = ground arith;
  onward = ground arith;
  stays_ended = λ ended. ground arith;
}

claimed_record-Follows :
    (env : JobEnv) (now : ℕ) (pid : Option ℕ) (r u : JobRecord)
    → claimed_record env now pid r ≡ ok u
    → Follows r u
claimed_record-Follows env now pid r u h = record {
  same_spec = ground arith;
  same_authority = ground arith;
  onward = ground arith;
  stays_ended = λ ended. ground arith;
}

Follows-same : (r : JobRecord) → Follows r r
Follows-same r = record {
  same_spec = refl;
  same_authority = refl;
  onward = omega arith;
  stays_ended = λ ended. refl;
}

Follows-both : (r u v : JobRecord) → Follows r u → Follows u v → Follows r v
Follows-both r u v f g = record {
  same_spec = g.same_spec ∙ f.same_spec;
  same_authority = g.same_authority ∙ f.same_authority;
  onward = ground (arith, f.onward, g.onward);
  stays_ended = λ ended.
      let same = f.stays_ended ended in
      let still : is_terminal u.status ≡ true =
        subst (λ (x : JobRecord). is_terminal x.status ≡ true) (sym same) ended in
      g.stays_ended still ∙ same;
}

-- An update either leaves the file, or writes the record that the change made.
pub update_job-cases :
    (env : JobEnv) (r : JobRecord) (change : JobRecord → Attempt JobRecord)
    → ReadsBack env
    → ((update_job env (ok r) change).1 ≡ ok r)
      ⊎ ((u : JobRecord) × (change r ≡ ok u) × (update_job env (ok r) change ≡ (ok u, ok u)))
unfolding update_job write_job
update_job-cases env r change reads_back = elim (Outcome-cases (change r)) [
  | inr (e, refused) ↦ inl (rw (update_job, refused) refl)
  | inl (u, accepted) ↦ elim (Bool-cases (u.authority_digest == env.immutable_digest u.spec)) [
    | inl authentic ↦
        inr (u, accepted, rw (update_job, accepted, write_job, authentic, reads_back u) refl)
    | inr forged ↦ inl (rw (update_job, accepted, write_job, forged) refl)
  ]
]

-- The file afterwards is readable, and its record follows.
abbrev Leads : JobRecord → JobFile → Type 0
Leads r file = (u : JobRecord) × (file ≡ ok u) × Follows r u

update_job-Leads :
    (env : JobEnv) (r : JobRecord) (change : JobRecord → Attempt JobRecord)
    → ReadsBack env
    → ((u : JobRecord) → change r ≡ ok u → Follows r u)
    → Leads r (update_job env (ok r) change).1
update_job-Leads env r change reads_back follows = elim (update_job-cases env r change reads_back) [
  | inl left ↦ (r, left, Follows-same r)
  | inr (u, accepted, wrote) ↦
      (u, ap (λ (p : Attempt JobRecord × JobFile). p.1) wrote, follows u accepted)
]

write_when-Leads :
    (env : JobEnv) (r : JobRecord) (status : Status) (merge : JobRecord → JobRecord)
    → ReadsBack env
    → Follows r (merge r)
    → Leads r (write_when env (ok r) status merge)
unfolding write_when write_job
write_when-Leads env r status merge reads_back follows =
    elim (Bool-cases (status_eq r.status status)) [
      | inr other ↦ (r, rw other refl, Follows-same r)
      | inl held ↦
          elim (Bool-cases ((merge r).authority_digest == env.immutable_digest (merge r).spec)) [
            | inl authentic ↦
                (merge r, rw (held, write_job, authentic, reads_back (merge r)) refl, follows)
            | inr forged ↦ (r, rw (held, write_job, forged) refl, Follows-same r)
          ]
    ]

restarted-Follows :
    (r : JobRecord) (started : Option String)
    → Follows r (record r { progress = record r.progress { started_at = started } })
restarted-Follows r started = record {
  same_spec = refl;
  same_authority = refl;
  onward = omega arith;
  stays_ended = λ ended. refl;
}

pub ok_inj : {r u : JobRecord} → ◌≡◌ {A = JobFile} (ok r) (ok u) → r ≡ u
ok_inj h = ground arith

step-Follows :
    (env : JobEnv) (r : JobRecord) (c : JobCall) → ReadsBack env → Leads r (step env (ok r) c)
unfolding step transition_job cancel_job claim_job merge_failed_terminal_metadata
    write_completed_metadata merge_result_metadata
step-Follows env r (transitions expected status changes) reads_back =
    update_job-Leads env r (transitioned expected status changes) reads_back
      (transitioned-Follows expected status changes r)
step-Follows env r cancels reads_back =
    update_job-Leads env r cancelled_record reads_back (cancelled_record-Follows r)
step-Follows env r (claims now pid) reads_back =
    update_job-Leads env r (claimed_record env now pid) reads_back
      (claimed_record-Follows env now pid r)
step-Follows env r (merges_failure started) reads_back =
    write_when-Leads env r failed (merged_failure started) reads_back
      (restarted-Follows r (started_or r.started_at started))
step-Follows env r (fills_completed started) reads_back =
    write_when-Leads env r complete (filled_completed started) reads_back
      (restarted-Follows r (some started))
step-Follows env r merges_result reads_back =
    update_job-Leads env r (λ x. ok x) reads_back
      (λ u h. subst (Follows r) (ok_inj h) (Follows-same r))

-- Whatever is called on a readable job, by the writers of the store and of the execution, and in
-- whatever order: it stays readable, keeps its specification and authority, never goes back in the
-- order queued, waiting, running, ended, and once ended keeps its status and every modelled field
-- but the time of its start. Records are taken to read back as they were written.
pub run-Follows :
    (env : JobEnv) (r : JobRecord) (calls : List JobCall)
    → ReadsBack env
    → (u : JobRecord) × (run env (ok r) calls ≡ ok u) × Follows r u
unfolding run
run-Follows env r [] reads_back = (r, refl, Follows-same r)
run-Follows env r (c ∷ cs) reads_back =
    let (u, stepped, follows) = step-Follows env r c reads_back in
    let (v, ran, follows_on) = run-Follows env u cs reads_back in
    (v, rw stepped ran, Follows-both r u v follows follows_on)
