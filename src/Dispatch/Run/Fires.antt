-- ===== src/Dispatch/Run/Fires.antt =====
-- The cases of a visit of a routine (dispatch/run.py).
use flowgency.Common.{
  ℕ, String, true, false, not, ◌||◌, Option, none, some, List, ◌∷◌, ◌≡◌, refl, sym, ap, subst, ◌↔◌,
  ◌⊎◌, inl, inr, ◌==◌, Bool-cases, arith, ok, >>=-eq-ok, eq_iff, length, ◌∙◌,
}
use flowgency.Common.Dict.{insert}
use flowgency.Dispatch.Schedule.{CatchUp, or_empty, parse_catch_up, catch_up_allows, grace_window}
use flowgency.Dispatch.Run.{
  Visit, Submission, DispatchState, DispatchEnv, Due, due_occurrence, is_settled, submit, consider,
  visit_bounded, visit_routine,
}

abbrev pub request_of : Visit → ℕ → String → Submission
request_of v o marker = record { visit = v; due_at = o; marker = marker }

-- The state after the submission: the request is noted, and its marker carries the occurrence.
abbrev pub recorded : DispatchEnv → DispatchState → Submission → DispatchState
recorded env s request = record {
  markers = insert request.marker (env.read_back request.due_at) s.markers;
  submitted = request ∷ s.submitted;
}

pub record Fires (env : DispatchEnv) (s : DispatchState) (v : Visit) (o : ℕ) (marker : String)
    : Type 0 where
  pub enabled : v.routine.enabled ≡ true
  pub unconditional : or_empty v.routine.condition ≡ ""
  pub bound : CatchUp
  pub bounded : parse_catch_up env.clock v.routine.schedule.catch_up ≡ ok (some bound)
  pub due : due_occurrence env s.markers v ≡ ok (some o, some marker)
  pub unsettled : is_settled s.markers v o marker ≡ false
  pub allowed : catch_up_allows o v.now bound (grace_window env.interval) ≡ true
  pub accepted : env.accepts (request_of v o marker) ≡ true

consider-cases :
    (env : DispatchEnv) (s : DispatchState) (v : Visit) (b : CatchUp) (due : Due)
    → (consider env s v b due ≡ s)
      ⊎ ((o : ℕ) × (marker : String) × (due ≡ (some o, some marker))
          × (is_settled s.markers v o marker ≡ false)
          × (catch_up_allows o v.now b (grace_window env.interval) ≡ true)
          × (env.accepts (request_of v o marker) ≡ true)
          × (consider env s v b due ≡ recorded env s (request_of v o marker)))
unfolding consider submit
consider-cases env s v b (none, m) = inl refl
consider-cases env s v b (some o, none) = inl refl
consider-cases env s v b (some o, some marker) =
    elim (Bool-cases (is_settled s.markers v o marker)) [
      | inl settled ↦ inl (rw settled refl)
      | inr unsettled ↦ elim (Bool-cases (catch_up_allows o v.now b (grace_window env.interval))) [
        | inr late ↦ inl (rw (unsettled, late) refl)
        | inl allowed ↦ elim (Bool-cases (env.accepts (request_of v o marker))) [
          | inr refused ↦ inl (rw (unsettled, allowed, refused) refl)
          | inl accepted ↦ inr (
            o,
            marker,
            refl,
            unsettled,
            allowed,
            accepted,
            rw (unsettled, allowed, accepted) refl,
          )
        ]
      ]
    ]

visit_bounded-cases :
    (env : DispatchEnv) (s after : DispatchState) (v : Visit) (bound : Option CatchUp)
    → v.routine.enabled ≡ true
    → or_empty v.routine.condition ≡ ""
    → parse_catch_up env.clock v.routine.schedule.catch_up ≡ ok bound
    → visit_bounded env s v bound ≡ ok after
    → (after ≡ s)
      ⊎ ((o : ℕ) × (marker : String) × Fires env s v o marker
          × (after ≡ recorded env s (request_of v o marker)))
unfolding visit_bounded
visit_bounded-cases env s after v none enabled plain read h = inl (ground arith)
visit_bounded-cases env s after v (some b) enabled plain read h =
    let (due, found, rest) = >>=-eq-ok (due_occurrence env s.markers v) _ h in
    let same : consider env s v b due ≡ after = ground arith in
    elim (consider-cases env s v b due) [
      | inl unchanged ↦ inl (sym same ∙ unchanged)
      | inr (o, marker, e, unsettled, allowed, accepted, written) ↦ inr (
        o,
        marker,
        record {
          enabled = enabled;
          unconditional = plain;
          bound = b;
          bounded = read;
          due = found ∙ ap ok e;
          unsettled = unsettled;
          allowed = allowed;
          accepted = accepted;
        },
        sym same ∙ written,
      )
    ]

pub visit_routine-cases :
    (env : DispatchEnv) (s after : DispatchState) (v : Visit)
    → visit_routine env s v ≡ ok after
    → (after ≡ s)
      ⊎ ((o : ℕ) × (marker : String) × Fires env s v o marker
          × (after ≡ recorded env s (request_of v o marker)))
unfolding visit_routine
visit_routine-cases env s after v h =
    elim (Bool-cases (not v.routine.enabled || not (or_empty v.routine.condition == ""))) [
      | inl skipped ↦ inl (ground arith)
      | inr taken ↦
          let (bound, read, rest) =
            >>=-eq-ok (parse_catch_up env.clock v.routine.schedule.catch_up) _ (rw taken at h) in
          visit_bounded-cases env s after v bound (ground arith)
            (ground (arith, eq_iff (or_empty v.routine.condition) "")) read rest
    ]

Fires-visit_routine :
    (env : DispatchEnv) (s : DispatchState) (v : Visit) (o : ℕ) (marker : String)
    → Fires env s v o marker
    → visit_routine env s v ≡ ok (recorded env s (request_of v o marker))
unfolding visit_routine visit_bounded consider submit
Fires-visit_routine env s v o marker f =
    let taken : (not v.routine.enabled || not (or_empty v.routine.condition == "")) ≡ false =
      ground (arith, f.enabled, f.unconditional, eq_iff (or_empty v.routine.condition) "") in
    rw (taken, f.bounded, f.due, f.unsettled, f.allowed, f.accepted) refl

longer : {A : Type 0} (x : A) (xs : List A) → ¬ (x ∷ xs ≡ xs)
longer x xs e = absurd (omega (arith, ap length e))

-- A visit submits an occurrence of a routine and writes its marker exactly when the routine is
-- enabled and has no condition, its bound and schedule are readable, the occurrence is due, its
-- marker does not settle it, the bound still allows it, and the request is accepted.
pub visit_routine-Fires :
    (env : DispatchEnv) (s : DispatchState) (v : Visit) (o : ℕ) (marker : String)
    → (visit_routine env s v ≡ ok (recorded env s (request_of v o marker))) ↔ Fires env s v o marker
visit_routine-Fires env s v o marker = (
  λ h. elim (visit_routine-cases env s _ v h) [
    | inl unchanged ↦
        absurd (longer (request_of v o marker) s.submitted (ap (λ t. t.submitted) unchanged))
    | inr (p, other, f, same) ↦
        let first : request_of v o marker ≡ request_of v p other =
          cc (ap (λ t. t.submitted) same) in
        subst (Fires env s v o) (sym (ap (λ r. r.marker) first))
          (subst (λ z. Fires env s v z other) (sym (ap (λ r. r.due_at) first)) f)
  ],
  λ f. Fires-visit_routine env s v o marker f,
)
