-- ===== src/Dispatch/Schedule/Bounds.antt =====
-- Where the newest occurrence of a schedule lies (dispatch/schedule.py).
use flowgency.Common.{
  ℕ, ◌+◌, ◌-◌, ◌*◌, ◌/◌, ◌≤◌, ◌<◌, ◌≡◌, ◌↔◌, ap, sym, inl, inr, String, strip, false, some, ltb,
  leb, leb→le, Bool-cases, arith, ok,
}
use native.Mathlib.Nat.{
  div-mul-le_self, lt-div-mul-add, le-div_iff_mul-le, mul-le-mul_right, div-eq_of_lt-le, add-mul,
}
use flowgency.Dispatch.Schedule.{
  Clock, second_us, day_us, date, parse_every, last_at_occurrence, step_from, last_every_occurrence,
}

-- The occurrence is on the grid of the anchor, after it, and the last one that is not after now.
pub record IsNewest (anchor period now occurrence : ℕ) : Type 0 where
  pub steps : ℕ
  pub after : 1 ≤ steps
  pub on_grid : occurrence ≡ anchor + steps * period
  pub passed : occurrence ≤ now
  pub newest : now < occurrence + period

step_from-IsNewest :
    (anchor period now occurrence : ℕ)
    → 0 < period
    → step_from anchor period now ≡ some occurrence
    → IsNewest anchor period now occurrence
unfolding step_from
step_from-IsNewest anchor period now occurrence positive h =
    elim (Bool-cases (ltb now (anchor + period))) [
      | inl early ↦ absurd (ground arith)
      | inr late ↦
          let steps = (now - anchor) / period in
          let below = div-mul-le_self (now - anchor) period in
          let above = lt-div-mul-add {a = now - anchor} positive in
          let enough : period ≤ now - anchor = ground arith in
          let some_step = (le-div_iff_mul-le {x = 1} {y = now - anchor} positive).1 (omega arith) in
          let same : anchor + steps * period ≡ occurrence = ground arith in
          record {
            steps = steps;
            after = some_step;
            on_grid = sym same;
            passed = ground arith;
            newest = ground arith;
          }
    ]

IsNewest-step_from :
    (anchor period now occurrence : ℕ)
    → 0 < period
    → IsNewest anchor period now occurrence
    → step_from anchor period now ≡ some occurrence
unfolding step_from
IsNewest-step_from anchor period now occurrence positive n =
    let far = mul-le-mul_right period n.after in
    let same : (now - anchor) / period ≡ n.steps =
      div-eq_of_lt-le {k = n.steps} period (omega (arith, n.on_grid, n.passed))
        (omega (arith, n.on_grid, n.newest, add-mul n.steps 1 period)) in
    let late : ltb now (anchor + period) ≡ false = ground (arith, n.on_grid, n.passed) in
    rw (late, same) (ap some (sym n.on_grid))

-- An `every` schedule that can be read gives, for an anchor, the newest occurrence on the anchor's
-- grid that is not after now and not the anchor itself, exactly when there is one.
pub last_every_occurrence-IsNewest :
    (clock : Clock) (anchor : ℕ) (every : String) (now period occurrence : ℕ)
    → parse_every clock (some every) ≡ ok (some period)
    → 0 < period
    → (last_every_occurrence clock anchor every now ≡ ok (some occurrence))
      ↔ IsNewest anchor period now occurrence
unfolding last_every_occurrence
last_every_occurrence-IsNewest clock anchor every now period occurrence parsed positive =
    rw parsed (
      λ h. step_from-IsNewest anchor period now occurrence positive (ground arith),
      λ n. ground (arith, IsNewest-step_from anchor period now occurrence positive n),
    )

-- The occurrence is at the minute of its day, and the last one that is not after now.
pub record IsLatest (minute now occurrence : ℕ) : Type 0 where
  pub day : ℕ
  pub at_minute : occurrence ≡ day * day_us + minute * 60 * second_us
  pub passed : occurrence ≤ now
  pub latest : now < occurrence + day_us

-- An `at` schedule gives the newest time of day that is not after now: today's or yesterday's.
pub last_at_occurrence-IsLatest :
    (clock : Clock) (at : String) (now minute occurrence : ℕ)
    → clock.strptime (strip at) ≡ some minute
    → minute < 1440
    → last_at_occurrence clock at now ≡ ok (some occurrence)
    → IsLatest minute now occurrence
unfolding last_at_occurrence
last_at_occurrence-IsLatest clock at now minute occurrence parsed inside h =
    let same_day = date now * day_us + minute * 60 * second_us in
    elim (Bool-cases (leb same_day now)) [
      | inl passed ↦
          let same : same_day ≡ occurrence = ground arith in
          record {
            day = date now;
            at_minute = sym same;
            passed = ground arith;
            latest = omega (arith, same);
          }
      | inr ahead ↦ elim (Bool-cases (leb day_us same_day)) [
        | inl later ↦
            let same : same_day - day_us ≡ occurrence = ground arith in
            record {
              day = date now - 1;
              at_minute = omega (arith, same, leb→le day_us same_day later);
              passed = omega (arith, same, leb→le day_us same_day later);
              latest = ground (arith, same);
            }
        | inr first_day ↦ absurd (ground arith)
      ]
    ]
