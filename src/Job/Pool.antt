-- ===== src/Job/Pool.antt =====
-- The slots of the pool, and how a drain takes them (jobs/queue.py, jobs/store.py).
use flowgency.Common.{
  ℕ, zero, suc, ◌+◌, ◌-◌, ◌≤◌, String, ◌≡◌, refl, sym, ap, subst, ◌⊎◌, inl, inr, Bool, true, false,
  not, some, List, [], ◌∷◌, arith, ◌==◌, if◌then◌else◌, ok, raise, Bool-cases, Option-cases, All,
}
use flowgency.Common.Dict.{lookup, insert}
use flowgency.Job.Store.{
  queued, failed, JobRecord, JobFile, Attempt, JobEnv, transition_job, cancel_job, cancelled_record,
  claim_job, transitioned, is_active, occupies_slot, is_launchable,
}
use flowgency.Job.Progression.{ReadsBack, update_job-cases, JobCall, cancels, step, run}
use flowgency.Job.Queue.{
  Launch, no_launch, launched, QueueEnv, Files, QueueEntry, entries, occupied, completed,
  fail_launch, start, start_waiting, drain, queue_snapshot,
}

-- An active job holds a slot or may be launched, and never both; an ended one does neither.
pub active_exactly_once :
    (env : JobEnv) (now : ℕ) (r : JobRecord)
    → ((is_active r.status ≡ true) × (not (occupies_slot env now r) ≡ is_launchable env now r))
      ⊎ ((is_active r.status ≡ false)
          × (occupies_slot env now r ≡ false)
          × (is_launchable env now r ≡ false))
unfolding occupies_slot is_launchable
active_exactly_once env now r = ground arith

module _ (env : JobEnv) (now : ℕ) where
  abbrev pub slot : JobFile → ℕ
  slot (raise e) = 0
  slot (ok r) = if occupies_slot env now r then 1 else 0

  abbrev pub in_use : Files → ℕ
  in_use files = occupied env now (entries files)

  pub in_use-cons :
      (path : String) (file : JobFile) (rest : Files)
      → in_use ((path, file) ∷ rest) ≡ slot file + in_use rest
  unfolding occupied entries
  in_use-cons path (raise e) rest = omega arith
  in_use-cons path (ok r) rest = ground arith

  -- Replacing a file exchanges its slot.
  pub in_use-insert :
      (path : String) (old new : JobFile) (files : Files)
      → lookup path files ≡ some old
      → in_use (insert path new files) + slot old ≡ in_use files + slot new
  unfolding lookup insert
  in_use-insert path old new [] found = cc
  in_use-insert path old new ((other, file) ∷ rest) found = elim (Bool-cases (other == path)) [
    | inl same ↦
        rw (same, in_use-cons other new rest, in_use-cons other file rest)
          (exchanged (ground arith))
    | inr different ↦
        rw (different, in_use-cons other file (insert path new rest), in_use-cons other file rest)
          (ground (arith, in_use-insert path old new rest (ground arith)))
  ]
    where
      exchanged :
          file ≡ old → slot new + in_use rest + slot old ≡ slot file + in_use rest + slot new
      exchanged e = rw e (omega arith)

  slot-bounded : (file : JobFile) → slot file ≤ 1
  slot-bounded (raise e) = omega arith
  slot-bounded (ok r) = ground arith

  launchable_free : (r : JobRecord) → is_launchable env now r ≡ true → slot (ok r) ≡ 0
  unfolding occupies_slot is_launchable
  launchable_free r h = ground arith

  failed_free :
      (r u : JobRecord) → transitioned queued failed (completed env now) r ≡ ok u → slot (ok u) ≡ 0
  unfolding occupies_slot
  failed_free r u h = ground arith

  abbrev file_of : {x y : Attempt JobRecord × JobFile} → x ≡ y → x.1 ≡ y.1
  file_of same = ap (λ (p : Attempt JobRecord × JobFile). p.1) same

  -- Recording a failed launch takes no slot.
  fail_free :
      (r : JobRecord) → ReadsBack env → slot (ok r) ≡ 0 → slot (fail_launch env now (ok r)) ≡ 0
  unfolding fail_launch transition_job
  fail_free r reads_back free =
      elim (update_job-cases env r (transitioned queued failed (completed env now)) reads_back) [
        | inl left ↦ rw left free
        | inr (u, accepted, wrote) ↦
            subst (λ f. slot f ≡ 0) (sym (file_of wrote)) (failed_free r u accepted)
      ]

  cancelled_free : (r u : JobRecord) → cancelled_record r ≡ ok u → slot (ok u) ≡ 0
  unfolding occupies_slot
  cancelled_free r u h = ground arith

  -- Cancellations take no slot.
  cancels_free :
      (r : JobRecord) (calls : List JobCall)
      → ReadsBack env
      → All (λ c. c ≡ cancels) calls
      → slot (ok r) ≡ 0
      → (u : JobRecord) × (run env (ok r) calls ≡ ok u) × (slot (ok u) ≡ 0)
  unfolding run step cancel_job
  cancels_free r [] reads_back only free = (r, refl, free)
  cancels_free r (c ∷ cs) reads_back (same, only) free =
      elim (update_job-cases env r cancelled_record reads_back) [
        | inl left ↦
            let (u, ran, none_taken) = cancels_free r cs reads_back only free in
            (u, rw (same, left) ran, none_taken)
        | inr (v, accepted, wrote) ↦
            let (u, ran, none_taken) =
              cancels_free v cs reads_back only (cancelled_free r v accepted) in
            (u, rw (same, file_of wrote) ran, none_taken)
      ]

-- A job whose launch fails is cancelled at most until the queue records the failure: no worker of it
-- runs.
abbrev pub OnlyCancelled : QueueEnv → Type 0
OnlyCancelled env =
    (path : String) (r : JobRecord) (calls : List JobCall)
    → env.launch path r ≡ no_launch calls
    → All (λ c. c ≡ cancels) calls

module _ (env : QueueEnv) (now : ℕ) (reads_back : ReadsBack env.jobs)
    (only_cancelled : OnlyCancelled env) where
  abbrev taken : Bool → ℕ
  taken began = if began then 1 else 0

  -- A start takes at most one slot, and none if it reports that it did not start.
  start-in_use :
      (path : String) (files : Files)
      → in_use env.jobs now (start env now path files).1
        ≤ in_use env.jobs now files + taken (start env now path files).0
  unfolding start
  start-in_use path files = elim (Option-cases (lookup path files)) [
    | inl missing ↦ rw (start, missing) (omega arith)
    | inr (raise e, found) ↦ rw (start, found) (omega arith)
    | inr (ok r, found) ↦ elim (Bool-cases (is_launchable env.jobs now r)) [
      | inr refused ↦ rw (start, found, refused) (omega arith)
      | inl ready ↦ launches r found ready (env.launch path r) refl
    ]
  ]
    where
      launches :
          (r : JobRecord)
          → lookup path files ≡ some (ok r)
          → is_launchable env.jobs now r ≡ true
          → (l : Launch) → env.launch path r ≡ l
          → in_use env.jobs now (start env now path files).1
            ≤ in_use env.jobs now files + taken (start env now path files).0
      launches r found ready (no_launch others) e =
          let free = launchable_free env.jobs now r ready in
          let (u, ran, still) =
            cancels_free env.jobs now r others reads_back (only_cancelled path r others e) free in
          let file = fail_launch env.jobs now (ok u) in
          let spent = fail_free env.jobs now u reads_back still in
          let swap = in_use-insert env.jobs now path (ok r) file files found in
          rw (start, found, ready, e, ran) (omega arith)
      launches r found ready (launched pid worker) e =
          let file = (claim_job env.jobs now (run env.jobs (ok r) worker) pid).1 in
          let free = launchable_free env.jobs now r ready in
          let bounded = slot-bounded env.jobs now file in
          let swap = in_use-insert env.jobs now path (ok r) file files found in
          rw (start, found, ready, e) (omega arith)

  -- The loop starts at most as many jobs as there are free slots, and takes at most that many.
  start_waiting-in_use :
      (capacity : ℕ) (waiting : List QueueEntry) (files : Files)
      → let answer = start_waiting env now capacity waiting files in
        (answer.0 ≤ capacity)
        × (in_use env.jobs now answer.1 ≤ in_use env.jobs now files + answer.0)
  unfolding start_waiting
  start_waiting-in_use capacity [] files = (omega arith, omega arith)
  start_waiting-in_use zero (e ∷ rest) files = (omega arith, omega arith)
  start_waiting-in_use (suc capacity) (e ∷ rest) files =
      let one = start-in_use e.path files in
      elim (Bool-cases (start env now e.path files).0) [
        | inl began ↦
            let (count, used) = start_waiting-in_use capacity rest (start env now e.path files).1 in
            rw began (ground arith, ground arith)
        | inr idle ↦
            let (count, used) =
              start_waiting-in_use (suc capacity) rest (start env now e.path files).1 in
            rw idle (ground arith, ground arith)
      ]

  -- After the records are reconciled, a drain starts no more jobs than there are free slots, and
  -- leaves no more slots in use than there were before and the pool has, whichever is more. Records
  -- are taken to read back as they were written, and a job whose launch fails to be cancelled at
  -- most before the queue records the failure.
  pub drain-in_use :
      (reconcile : Files → Files) (pool : ℕ) (files : Files)
      → let answer = drain env reconcile now pool files in
        let before = in_use env.jobs now (reconcile files) in
        (answer.0 ≤ pool - before)
        × ((in_use env.jobs now answer.1 ≤ pool) ⊎ (in_use env.jobs now answer.1 ≤ before))
  unfolding drain queue_snapshot
  drain-in_use reconcile pool files =
      let before = in_use env.jobs now (reconcile files) in
      let view = queue_snapshot env.jobs now pool (reconcile files) in
      let (count, used) = start_waiting-in_use (pool - before) view.waiting (reconcile files) in
      (count, ground arith)
