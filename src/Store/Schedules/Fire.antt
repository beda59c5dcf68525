-- ===== src/Store/Schedules/Fire.antt =====
-- Firing the schedules that are due (internal/store/schedule.go), which starts a run at a tick or,
-- where a later tick is due too, skips to the first tick that is not. The search for the next tick
-- is the parameter `CronNext`, as it is in the code; `now` is the time of the firing, and a `Fresh`
-- holds a reading of the clock and new ULIDs.
use proceed.Base.{
  ℕ, zero, suc, ◌+◌, ◌/◌, String, Bool, ◌&&◌, Option, none, some, List, [], ◌∷◌, str_eq, str_le,
  leb, ltb, ◌==◌, if◌then◌else◌, Result, Error, ok, err, graph_invalid, no_tick_left, ◌>>=◌,
  update_where, select_where,
}
use proceed.Store.Payload.{Codec}
use proceed.Store.Start.{RunStart, start_run_tx}
use proceed.Store.Schedules.{Schedule, Timetable}

-- CronNextFunc: the first tick of an expression after a time, if there is one
abbrev pub CronNext : Type 0
CronNext = String → ℕ → Result (Option ℕ)

-- what a transaction takes from its surroundings
pub record Fresh : Type 0 where
  pub clock : ℕ
  pub run_id : String
  pub event_id : String

-- ScheduleFireOutcome; beside an error there are the schedule's id and name and the tick
pub record FireOutcome : Type 0 where
  pub schedule_id : String
  pub name : String
  pub run_id : String
  pub tick : ℕ
  pub skipped : ℕ
  pub skip_from : ℕ
  pub skip_to : ℕ
  pub next_fire_at : ℕ
  pub error : Option Error

-- `next`, where there being no tick is an error
unfoldable pub next_tick : CronNext → String → ℕ → Result ℕ
next_tick next cron after =
    next cron after >>= λ found. elim found [ none ↦ err graph_invalid | some n ↦ ok n ]

-- what the loop of skipScheduleTicks leaves in `cur`, `last` and `outcome.Skipped`
pub record Skip : Type 0 where
  pub cur : ℕ
  pub last : ℕ
  pub skipped : ℕ

-- the loop of skipScheduleTicks, on fuel
unfoldable pub skip_ticks : ℕ → CronNext → String → ℕ → Skip → Result Skip
unfolding next_tick
skip_ticks zero next cron now s = err no_tick_left
skip_ticks (suc fuel) next cron now s = next_tick next cron s.cur >>= λ n.
    let rest =
      skip_ticks fuel next cron now (record { cur = n; last = n; skipped = s.skipped + 1 }) in
    if ltb now n then ok (record s { cur = n }) else rest

-- WHERE id = ? AND next_fire_at = ?
abbrev pub is_at_tick : String → ℕ → Schedule → Bool
is_at_tick id tick s = str_eq s.id id && s.next_fire_at == tick

-- the update of skipScheduleTicks
abbrev pub skip_to_next : Codec → ℕ → ℕ → Skip → Schedule → Schedule
skip_to_next c now first k s = record s {
  next_fire_at = k.cur;
  skipped_count = s.skipped_count + k.skipped;
  last_skipped_at = if ltb 0 k.skipped then some now else s.last_skipped_at;
  last_skip_window =
      if ltb 0 k.skipped then some (c.skip_window first k.last k.skipped) else s.last_skip_window;
}

-- the fuel of the loop: every tick is a millisecond later at least
abbrev pub tick_fuel : ℕ → ℕ
tick_fuel now = now + 1

-- skipScheduleTicks
unfoldable pub skip_schedule_ticks :
    Codec → CronNext → ℕ → Timetable → Schedule → Result (FireOutcome × Timetable)
unfolding skip_ticks
skip_schedule_ticks c next now t sched = do
  let first = sched.next_fire_at
  k ←
      skip_ticks (tick_fuel now) next sched.cron now
        (record { cur = first; last = first; skipped = 1 })
  ok (
    record {
      schedule_id = sched.id;
      name = sched.name;
      run_id = "";
      tick = 0;
      skipped = k.skipped;
      skip_from = if ltb 0 k.skipped then first else 0;
      skip_to = if ltb 0 k.skipped then k.last else 0;
      next_fire_at = k.cur;
      error = none;
    },
    record t {
      schedules = update_where (is_at_tick sched.id first) (skip_to_next c now first k) t.schedules;
    },
  )

-- the run of a tick
abbrev pub tick_run : Codec → Fresh → Schedule → RunStart
tick_run c fresh sched = record {
  run_id = fresh.run_id;
  graph_version_id = sched.graph_version_id;
  definition_digest = sched.definition_digest;
  params = none;
  trigger_name = "";
  schedule_id = sched.id;
  schedule_tick = sched.next_fire_at;
  idempotency_key = c.schedule_key sched.id (sched.next_fire_at / 60000);
}

-- the transaction of fireOneSchedule
unfoldable pub fire_tick :
    Codec → Fresh → Timetable → Schedule → ℕ → Result (FireOutcome × Timetable)
fire_tick c fresh t sched next_ms = do
  db' ← start_run_tx c fresh.clock fresh.event_id t.db (tick_run c fresh sched)
  ok (
    record {
      schedule_id = sched.id;
      name = sched.name;
      run_id = fresh.run_id;
      tick = sched.next_fire_at;
      skipped = 0;
      skip_from = 0;
      skip_to = 0;
      next_fire_at = next_ms;
      error = none;
    },
    record {
      db = db';
      schedules =
          update_where (is_at_tick sched.id sched.next_fire_at)
            (λ s. record s { next_fire_at = next_ms; last_run_id = some fresh.run_id }) t.schedules;
    },
  )

-- fireOneSchedule
unfoldable pub fire_one_schedule :
    Codec → CronNext → ℕ → Fresh → Timetable → Schedule → Result (FireOutcome × Timetable)
unfolding fire_tick skip_schedule_ticks
fire_one_schedule c next now fresh t sched = do
  next_ms ← next_tick next sched.cron sched.next_fire_at
  (if leb next_ms now
      then skip_schedule_ticks c next now t sched
      else fire_tick c fresh t sched next_ms)

-- ORDER BY name
unfoldable pub insert_by_name : Schedule → List Schedule → List Schedule
insert_by_name s [] = s ∷ []
insert_by_name s (x ∷ xs) = if str_le s.name x.name then s ∷ x ∷ xs else x ∷ insert_by_name s xs

unfoldable pub by_name : List Schedule → List Schedule
unfolding insert_by_name
by_name [] = []
by_name (s ∷ ss) = insert_by_name s (by_name ss)

-- WHERE enabled = 1 AND next_fire_at <= ?
abbrev pub is_due : ℕ → Schedule → Bool
is_due now s = s.enabled && leb s.next_fire_at now

unfoldable pub due_schedules : ℕ → Timetable → List Schedule
unfolding by_name
due_schedules now t = by_name (select_where (is_due now) t.schedules)

-- the outcome of one that fails, which leaves the tables as they were
abbrev pub or_report :
    Timetable → Schedule → Result (FireOutcome × Timetable) → FireOutcome × Timetable
or_report t s (ok r) = r
or_report t s (err e) = (
  record {
    schedule_id = s.id;
    name = s.name;
    run_id = "";
    tick = s.next_fire_at;
    skipped = 0;
    skip_from = 0;
    skip_to = 0;
    next_fire_at = 0;
    error = some e;
  },
  t,
)

-- the loop of FireDueSchedules; `fresh i` is what the i-th transaction takes
unfoldable pub fire_each :
    Codec
    → CronNext
    → ℕ
    → (ℕ → Fresh)
    → ℕ
    → Timetable
    → List Schedule
    → List FireOutcome × Timetable
unfolding fire_one_schedule
fire_each c next now fresh i t [] = ([], t)
fire_each c next now fresh i t (s ∷ ss) =
    let (outcome, t') = or_report t s (fire_one_schedule c next now (fresh i) t s) in
    let (outcomes, last) = fire_each c next now fresh (i + 1) t' ss in (outcome ∷ outcomes, last)

-- FireDueSchedules
unfoldable pub fire_due_schedules :
    Codec → CronNext → ℕ → (ℕ → Fresh) → Timetable → List FireOutcome × Timetable
unfolding due_schedules fire_each
fire_due_schedules c next now fresh t = fire_each c next now fresh 0 t (due_schedules now t)
