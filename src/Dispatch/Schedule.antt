-- ===== src/Dispatch/Schedule.antt =====
-- flowgency/dispatch/schedule.py: periods, catch-up bounds and the newest occurrence of a schedule.
-- A datetime is a number of microseconds since the first midnight that datetime has, in local time
-- without a zone; a timedelta that the code computes here is never negative. `total_seconds` gives
-- a float, which is exact for these comparisons below 2^33 seconds, or 272 years.
use Prim.Native.Char.{Char}
use flowgency.Common.{
  ℕ, zero, suc, ◌+◌, ◌-◌, ◌*◌, ◌/◌, String, Bool, true, false, Option, none, some, ◌==◌, ltb, leb,
  num_eq, if◌then◌else◌, strip, Outcome, ok, raise, ◌>>=◌, ◌>>◌, require,
}
pub mod Bounds

-- The OverflowError of timedelta and datetime, and the ValueError of int() on too long a text.
pub data TimeFault : Type 0 where
  overflow_error digits_error : TimeFault

abbrev pub Timed : Type 0 → Type 0
Timed A = Outcome TimeFault A

-- Python's library: the value of a decimal digit of Unicode, `%H:%M` as a minute of the day, and
-- the text of a day, counted from the first.
pub record Clock : Type 0 where
  pub digit : Char → Option ℕ
  pub strptime : String → Option ℕ
  pub format_day : ℕ → String

abbrev pub second_us : ℕ
second_us = 1000000

abbrev pub day_us : ℕ
day_us = 86400 * second_us

-- _UNIT_SECONDS
unfoldable pub unit_seconds : String → Option ℕ
unit_seconds unit =
    if unit == "m"
    then some 60
    else if unit == "h"
    then some 3600
    else if unit == "d"
    then some 86400
    else none

-- sys.get_int_max_str_digits() and timedelta.max
abbrev pub max_digits : ℕ
max_digits = 4300

abbrev pub max_timedelta_days : ℕ
max_timedelta_days = 999999999

-- timedelta(seconds=int(digits) * unit)
unfoldable pub period_of : ℕ → ℕ → ℕ → Timed (Option ℕ)
period_of count amount unit = do
  require (leb count max_digits) digits_error
  require (leb (amount * unit / 86400) max_timedelta_days) overflow_error
  ok (some (amount * unit * second_us))

-- The rest of a match of `(\d+)(m|h|d)` after some digits and the number they make.
unfoldable pub match_every : Clock → ℕ → ℕ → String → Timed (Option ℕ)
unfolding unit_seconds period_of
match_every clock count amount String.[] = ok none
match_every clock count amount (String.◌∷◌ c s) = elim (clock.digit c) [
  | some v ↦ match_every clock (suc count) (amount * 10 + v) s
  | none ↦ elim (unit_seconds (String.◌∷◌ c s)) [
    | none ↦ ok none
    | some unit ↦ if num_eq count 0 then ok none else period_of count amount unit
  ]
]

-- value or ""
unfoldable pub or_empty : Option String → String
or_empty none = ""
or_empty (some s) = s

unfoldable pub parse_every : Clock → Option String → Timed (Option ℕ)
unfolding match_every or_empty
parse_every clock value = match_every clock 0 0 (or_empty value)

pub data CatchUp : Type 0 where
  no_catch_up today always : CatchUp
  duration : ℕ → CatchUp

-- The text of a bound without the spaces around it, and "today" in place of an empty one.
unfoldable pub bound_text : Option String → String
unfolding or_empty strip
bound_text value = let text = strip (or_empty value) in if text == "" then "today" else text

-- _KEYWORDS
unfoldable pub keyword : String → Option CatchUp
keyword text =
    if text == "none"
    then some no_catch_up
    else if text == "today"
    then some today
    else if text == "always"
    then some always
    else none

unfoldable pub parse_catch_up : Clock → Option String → Timed (Option CatchUp)
unfolding parse_every bound_text keyword
parse_catch_up clock value = elim (keyword (bound_text value)) [
  | some bound ↦ ok (some bound)
  | none ↦ parse_every clock (some (bound_text value)) >>= λ period. elim period [
    | none ↦ ok none
    | some p ↦ ok (some (duration p))
  ]
]

-- datetime.date, by the number of the day
abbrev pub date : ℕ → ℕ
date t = t / day_us

unfoldable pub catch_up_allows : ℕ → ℕ → CatchUp → ℕ → Bool
catch_up_allows occurrence now always grace = true
catch_up_allows occurrence now today grace = num_eq (date occurrence) (date now)
catch_up_allows occurrence now (duration period) grace = leb now (occurrence + period)
catch_up_allows occurrence now no_catch_up grace = ltb now (occurrence + grace)

unfoldable pub last_at_occurrence : Clock → String → ℕ → Timed (Option ℕ)
unfolding strip
last_at_occurrence clock at now = elim (clock.strptime (strip at)) [
  | none ↦ ok none
  | some minute ↦
      let occurrence = date now * day_us + minute * 60 * second_us in
      if leb occurrence now
      then ok (some occurrence)
      else if leb day_us occurrence
      then ok (some (occurrence - day_us))
      else raise overflow_error
]

-- anchor + int(elapsed // period) * period, once a period has passed
unfoldable pub step_from : ℕ → ℕ → ℕ → Option ℕ
step_from anchor period now =
    if ltb now (anchor + period) then none else some (anchor + (now - anchor) / period * period)

unfoldable pub last_every_occurrence : Clock → ℕ → String → ℕ → Timed (Option ℕ)
unfolding parse_every step_from
last_every_occurrence clock anchor every now = parse_every clock (some every) >>= λ period.
    elim period [
      | none ↦ ok none
      | some p ↦ if num_eq p 0 then ok none else ok (step_from anchor p now)
    ]

-- health.grace_window, of the interval in minutes
unfoldable pub grace_window : ℕ → ℕ
grace_window interval = (interval + 2) * 60 * second_us
