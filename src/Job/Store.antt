-- ===== src/Job/Store.antt =====
-- flowgency/jobs/store.py and models.py: the record of a job, its states, and the operations on it.
-- Each works on one file under the job's lock. What a written record reads back as, the digest of a
-- specification, processes and times of day are the environment's.
use flowgency.Common.{
  ℕ, ◌+◌, String, Bool, true, false, not, ◌&&◌, ◌||◌, Option, none, some, List, [], ◌∷◌, ◌==◌, ltb,
  any, if◌then◌else◌, Outcome, ok, raise, ◌>>=◌, ◌>>◌, require,
}

pub data Status : Type 0 where
  queued waiting_for_memory running complete failed cancelled : Status

abbrev pub status_eq : Status → Status → Bool
status_eq queued queued = true
status_eq waiting_for_memory waiting_for_memory = true
status_eq running running = true
status_eq complete complete = true
status_eq failed failed = true
status_eq cancelled cancelled = true
status_eq _ _ = false

-- VALID_TRANSITIONS
abbrev pub valid_transitions : Status → List Status
valid_transitions queued = waiting_for_memory ∷ running ∷ failed ∷ cancelled ∷ []
valid_transitions waiting_for_memory = running ∷ failed ∷ cancelled ∷ complete ∷ []
valid_transitions running = complete ∷ failed ∷ []
valid_transitions complete = []
valid_transitions failed = []
valid_transitions cancelled = []

-- The fields of the specification that the store and the queue read.
pub record JobSpec : Type 0 where
  pub job_id : String
  pub agent_name : String
  pub created_at : String

-- The fields of the record that a transition may change besides the status.
pub record Progress : Type 0 where
  pub worker_pid : Option ℕ
  pub started_at : Option String
  pub completed_at : Option String
  pub due_at : Option String
  pub launched_at : Option String

pub record JobRecord : Type 0 where
  pub spec : JobSpec
  pub authority_digest : String
  pub status : Status
  pub progress : Progress
  pub open progress use *

pub data JobFault : Type 0 where
  unreadable_job digest_mismatch invalid_transition : JobFault

abbrev pub Attempt : Type 0 → Type 0
Attempt A = Outcome JobFault A

-- What reading the file of a job gives.
abbrev pub JobFile : Type 0
JobFile = Attempt JobRecord

pub record JobEnv : Type 0 where
  pub immutable_digest : JobSpec → String
  pub reread : JobRecord → JobFile
  -- Whether a process runs, if that can be told.
  pub worker_alive : ℕ → Option Bool
  -- datetime.fromisoformat and isoformat, in seconds.
  pub parse_instant : String → Option ℕ
  pub format_instant : ℕ → String

abbrev pub launch_grace_seconds : ℕ
launch_grace_seconds = 300

unfoldable pub write_job : JobEnv → JobFile → JobRecord → Attempt JobRecord × JobFile
write_job env file r =
    if r.authority_digest == env.immutable_digest r.spec
    then (ok r, env.reread r)
    else (raise digest_mismatch, file)

-- Read, update and write under the job's lock.
unfoldable pub update_job :
    JobEnv → JobFile → (JobRecord → Attempt JobRecord) → Attempt JobRecord × JobFile
unfolding write_job
update_job env file change = elim (file >>= change) [
  | raise e ↦ (raise e, file)
  | ok updated ↦ write_job env file updated
]

abbrev pub transitioned : Status → Status → (Progress → Progress) → JobRecord → Attempt JobRecord
transitioned expected status changes r = do
  require (status_eq r.status expected) invalid_transition
  require (any (status_eq status) (valid_transitions expected)) invalid_transition
  ok (record r { status = status; progress = changes r.progress })

unfoldable pub transition_job :
    JobEnv → JobFile → Status → Status → (Progress → Progress) → Attempt JobRecord × JobFile
transition_job env file expected status changes =
    update_job env file (transitioned expected status changes)

abbrev pub cancelled_record : JobRecord → Attempt JobRecord
cancelled_record r = do
  require (status_eq r.status queued || status_eq r.status waiting_for_memory) invalid_transition
  ok (record r { status = cancelled })

unfoldable pub cancel_job : JobEnv → JobFile → Attempt JobRecord × JobFile
cancel_job env file = update_job env file cancelled_record

abbrev pub claimed_record : JobEnv → ℕ → Option ℕ → JobRecord → Attempt JobRecord
claimed_record env now pid r = do
  require (status_eq r.status queued) invalid_transition
  ok (record r {
    progress = record r.progress { worker_pid = pid; launched_at = some (env.format_instant now) };
  })

unfoldable pub claim_job : JobEnv → ℕ → JobFile → Option ℕ → Attempt JobRecord × JobFile
claim_job env now file pid = update_job env file (claimed_record env now pid)

abbrev pub given {ℓ} : {A : Type ℓ} → Option A → Bool
given none = false
given (some a) = true

unfoldable pub is_launched : JobRecord → Bool
is_launched r = given r.launched_at || given r.worker_pid

unfoldable pub launch_abandoned : JobEnv → ℕ → JobRecord → Bool
launch_abandoned env now r = elim r.worker_pid [
  | some pid ↦ elim (env.worker_alive pid) [ some false ↦ true | _ ↦ false ]
  | none ↦ elim r.launched_at [
    | none ↦ false
    | some stamp ↦ elim (env.parse_instant stamp) [
      | none ↦ true
      | some launched ↦ ltb (launched + launch_grace_seconds) now
    ]
  ]
]

unfoldable pub occupies_slot : JobEnv → ℕ → JobRecord → Bool
occupies_slot env now r =
    if status_eq r.status running || status_eq r.status waiting_for_memory
    then true
    else if not (status_eq r.status queued)
    then false
    else is_launched r && not (launch_abandoned env now r)

unfoldable pub is_launchable : JobEnv → ℕ → JobRecord → Bool
is_launchable env now r =
    if not (status_eq r.status queued)
    then false
    else not (is_launched r) || launch_abandoned env now r

-- ACTIVE_STATUSES and TERMINAL_STATUSES
abbrev pub is_active : Status → Bool
is_active s = status_eq s queued || (status_eq s waiting_for_memory || status_eq s running)

abbrev pub is_terminal : Status → Bool
is_terminal s = status_eq s complete || (status_eq s failed || status_eq s cancelled)
