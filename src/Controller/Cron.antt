-- ===== src/Controller/Cron.antt =====
-- The search for a schedule's next tick: Matches, Next and what FireDueSchedules hands to the store
-- (internal/controller/cron.go). Time is counted in minutes of the Unix clock. The package time,
-- which gives a minute's place in the UTC calendar, is a parameter. The parsing of an expression is
-- in Parse.
pub mod Search
pub mod Parse
pub mod Bits
pub mod Marked
pub mod Spans
pub mod Fields
pub mod Bounds
use proceed.Base.{
  ℕ, zero, suc, ◌+◌, ◌*◌, ◌/◌, ◌%◌, ◌^◌, String, Bool, true, false, not, ◌&&◌, ◌||◌, Option, none,
  some, Result, ok, err, graph_invalid, ◌>>=◌, ◌==◌, if◌then◌else◌,
}

-- CronSchedule: a field is a set of numbers below 64, as the bits of a word
pub record CronSchedule : Type 0 where
  pub minutes : ℕ
  pub hours : ℕ
  pub dom : ℕ
  pub months : ℕ
  pub dow : ℕ
  pub dom_star : Bool
  pub dow_star : Bool

-- what Matches reads of a time in UTC
pub record Clock : Type 0 where
  pub minute : ℕ
  pub hour : ℕ
  pub day : ℕ
  pub month : ℕ
  pub weekday : ℕ

-- bits & (1 << n) != 0
abbrev pub has_bit : ℕ → ℕ → Bool
has_bit bits n = (bits / 2 ^ n) % 2 == 1

-- Matches
unfoldable pub matches : (ℕ → Clock) → CronSchedule → ℕ → Bool
matches utc s t =
    let u = utc t in
    let dom_match = has_bit s.dom u.day in
    let dow_match = has_bit s.dow u.weekday in
    has_bit s.minutes u.minute
    && has_bit s.hours u.hour
    && has_bit s.months u.month
    && (if not s.dom_star && not s.dow_star then dom_match || dow_match else dom_match && dow_match)

-- cronSearchBound
abbrev pub cron_search_bound : ℕ
cron_search_bound = 4 * 366 * 24 * 60

-- the loop of Next, which has `left` turns to go
unfoldable pub search : ℕ → (ℕ → Bool) → ℕ → Option ℕ
search zero p cur = none
search (suc left) p cur = let rest = search left p (cur + 1) in if p cur then some cur else rest

-- Next, of a time in milliseconds
unfoldable pub next_minute : (ℕ → Clock) → CronSchedule → ℕ → Option ℕ
next_minute utc s after = search cron_search_bound (matches utc s) (after / 60000 + 1)

-- what the function that FireDueSchedules hands to the store does with an expression's fields, in
-- milliseconds
unfoldable pub cron_next : (ℕ → Clock) → CronSchedule → ℕ → Result (Option ℕ)
cron_next utc s after = elim (next_minute utc s after) [
  | none ↦ err graph_invalid
  | some t ↦ ok (some (t * 60000))
]
