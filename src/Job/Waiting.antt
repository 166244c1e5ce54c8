-- ===== src/Job/Waiting.antt =====
-- The waiting jobs of the queue's snapshot (jobs/queue.py, `queue_snapshot`).
use flowgency.Common.{
  ℕ, String, ◌≡◌, sym, ap, subst, ok, raise, ◌⊎◌, inl, inr, ◌↔◌, true, List, [], ◌∷◌, In, here,
  there, In-cons, Bool-cases,
}
use flowgency.Job.Store.{JobEnv, JobFile, is_launchable}
use flowgency.Job.Progression.{ok_inj}
use flowgency.Job.Queue.{
  Files, QueueEntry, entries, sorts_after, insert_entry, launchable_entries, queue_snapshot,
}

insert_entry-In :
    (e x : QueueEntry) (xs : List QueueEntry) → In x (insert_entry e xs) ↔ ((x ≡ e) ⊎ In x xs)
unfolding insert_entry
insert_entry-In e x [] = (
  In-cons,
  λ s. elim s [ inl same ↦ subst (λ z. In z (e ∷ [])) (sym same) here | inr i ↦ elim i [ ] ],
)
insert_entry-In e x (f ∷ rest) = elim (Bool-cases (sorts_after e f)) [
  | inl later ↦ (
    λ i. elim (In-cons (rw later at i)) [
      | inl same ↦ inr (subst (λ z. In z (f ∷ rest)) (sym same) here)
      | inr deep ↦ elim ((insert_entry-In e x rest).0 deep) [
        | inl same ↦ inl same
        | inr inside ↦ inr (there inside)
      ]
    ],
    λ s. rw later (elim s [
      | inl same ↦ there ((insert_entry-In e x rest).1 (inl same))
      | inr i ↦ elim (In-cons i) [
        | inl same ↦ subst (λ z. In z (f ∷ insert_entry e rest)) (sym same) here
        | inr deep ↦ there ((insert_entry-In e x rest).1 (inr deep))
      ]
    ]),
  )
  | inr sooner ↦ (
    λ i. In-cons (rw sooner at i),
    λ s.
        rw sooner (elim s [
          | inl same ↦ subst (λ z. In z (e ∷ f ∷ rest)) (sym same) here
          | inr i ↦ there i
        ]),
  )
]

launchable_entries-In :
    (env : JobEnv) (now : ℕ) (x : QueueEntry) (es : List QueueEntry)
    → In x (launchable_entries env now es)
      ↔ (In x es × (is_launchable env now x.record_read ≡ true))
unfolding launchable_entries
launchable_entries-In env now x [] = (λ i. elim i [ ], λ both. elim both.0 [ ])
launchable_entries-In env now x (e ∷ rest) =
    elim (Bool-cases (is_launchable env now e.record_read)) [
      | inl ready ↦ (
        λ i. elim ((insert_entry-In e x (launchable_entries env now rest)).0 (rw ready at i)) [
          | inl same ↦ (
            subst (λ z. In z (e ∷ rest)) (sym same) here,
            subst (λ z. is_launchable env now z.record_read ≡ true) (sym same) ready,
          )
          | inr deep ↦
              let both = (launchable_entries-In env now x rest).0 deep in (there both.0, both.1)
        ],
        λ both. rw ready (
            (insert_entry-In e x (launchable_entries env now rest)).1 (elim (In-cons both.0) [
              | inl same ↦ inl same
              | inr deep ↦ inr ((launchable_entries-In env now x rest).1 (deep, both.1))
            ])),
      )
      | inr idle ↦ (
        λ i.
            let both = (launchable_entries-In env now x rest).0 (rw idle at i) in
            (there both.0, both.1),
        λ both. rw idle (elim (In-cons both.0) [
          | inl same ↦ absurd (cc (ready_of same both.1, idle))
          | inr deep ↦ (launchable_entries-In env now x rest).1 (deep, both.1)
        ]),
      )
    ]
  where
    ready_of :
        x ≡ e
        → is_launchable env now x.record_read ≡ true
        → is_launchable env now e.record_read ≡ true
    ready_of same h = subst (λ z. is_launchable env now z.record_read ≡ true) same h

-- A readable record is the content of a file, wherever the file stands among unreadable ones.
entries-In :
    (files : Files) (x : QueueEntry)
    → In x (entries files) ↔ In {A = String × JobFile} (x.path, ok x.record_read) files
unfolding entries
entries-In [] x = (λ i. elim i [ ], λ i. elim i [ ])
entries-In ((path, raise e) ∷ rest) x = (
  λ i. there ((entries-In rest x).0 i),
  λ i. elim (In-cons i) [
    | inl same ↦ absurd (unreadable (ap (λ (p : String × JobFile). p.1) same))
    | inr deep ↦ (entries-In rest x).1 deep
  ],
)
  where
    unreadable : ◌≡◌ {A = JobFile} (ok x.record_read) (raise e) → ⊥
    unreadable h = cc
entries-In ((path, ok r) ∷ rest) x = (
  λ i. elim (In-cons i) [
    | inl same ↦
        subst
          (λ (z : QueueEntry).
            In {A = String × JobFile} (z.path, ok z.record_read) ((path, ok r) ∷ rest))
          (sym same) here
    | inr deep ↦ there ((entries-In rest x).0 deep)
  ],
  λ i. elim (In-cons i) [
    | inl same ↦ subst (λ z. In z (entry ∷ entries rest)) (sym (named same)) here
    | inr deep ↦ there ((entries-In rest x).1 deep)
  ],
)
  where
    entry : QueueEntry
    entry = record { path = path; record_read = r }

    named : ◌≡◌ {A = String × JobFile} (x.path, ok x.record_read) (path, ok r) → x ≡ entry
    named same =
        let paths : x.path ≡ path = ap (λ (p : String × JobFile). p.0) same in
        let records : x.record_read ≡ r = ok_inj (ap (λ (p : String × JobFile). p.1) same) in
        λ i. record { path = paths i; record_read = records i }

-- The snapshot of the queue lists exactly the jobs that may be launched among the readable records of
-- the files, each with its path.
pub queue_snapshot-In :
    (env : JobEnv) (now pool : ℕ) (files : Files) (x : QueueEntry)
    → In x ((queue_snapshot env now pool files).waiting) ↔ (
        In {A = String × JobFile} (x.path, ok x.record_read) files
        × (is_launchable env now x.record_read ≡ true))
unfolding queue_snapshot
queue_snapshot-In env now pool files x =
    let listed = launchable_entries-In env now x (entries files) in
    let filed = entries-In files x in
    (
      λ i. let both = listed.0 i in (filed.0 both.0, both.1),
      λ both. listed.1 (filed.1 both.0, both.1),
    )
