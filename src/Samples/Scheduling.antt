-- ===== src/Samples/Scheduling.antt =====
-- The theorems on starting runs, schedules and the search for ticks, at concrete ones.
use proceed.Base.{
  ℕ, ◌+◌, ◌*◌, ◌/◌, ◌<◌, true, false, none, some, [], ◌∷◌, ◌≡◌, ◌≢◌, refl, ok, str_eq_iff,
  any_where, max_where, Extends-refl, arith,
}
use proceed.Store.Types.{Db}
use proceed.Store.Runs.{started_digest, ensure_run, insert_params, insert_param, on_run_started}
use proceed.Store.Projection.{handle, apply_projections}
use proceed.Store.Log.{is_duplicate, max_sequence, insert_event, append_event_tx}
use proceed.Store.Start.{insert_run, start_run_tx}
use proceed.Store.Start.Once.{HasStarted, start_run_tx-HasStarted, start_run_tx_once}
use proceed.Store.Schedules.{Schedule, Timetable}
use proceed.Store.Schedules.Fire.{
  CronNext, Fresh, FireOutcome, Skip, skip_ticks, tick_fuel, tick_run, fire_one_schedule,
}
use proceed.Store.Schedules.Ticks.{Skips, skip_ticks_total}
use proceed.Controller.Cron.{
  CronSchedule, Clock, matches, cron_search_bound, search, next_minute, cron_next,
}
use proceed.Controller.Cron.Search.{FirstOf, next_minute-FirstOf, cron_next_later}
use proceed.Samples.{codec, blank, from_ok}

-- a version and no run
abbrev idle : Db
idle = record blank { runs = [] }

-- a tick every ten milliseconds
abbrev every_ten : CronNext
every_ten cron t = ok (some (t + 10))

abbrev nightly : Schedule
nightly = record {
  id = "s1";
  name = "nightly";
  graph_version_id = "v1";
  definition_digest = "d1";
  cron = "* * * * *";
  enabled = true;
  next_fire_at = 10;
  last_run_id = none;
  skipped_count = 0;
  last_skipped_at = none;
  last_skip_window = none;
  created_at = 1;
}

abbrev timetable : Timetable
timetable = record { db = idle; schedules = nightly ∷ [] }

abbrev fresh : Fresh
fresh = record { clock = 16; run_id = "r2"; event_id = "e2" }

abbrev started : Db
started = from_ok idle (start_run_tx codec 16 "e2" idle (tick_run codec fresh nightly))

starts_it : start_run_tx codec 16 "e2" idle (tick_run codec fresh nightly) ≡ ok started
unfolding start_run_tx insert_run any_where append_event_tx is_duplicate max_sequence max_where
    insert_event apply_projections handle on_run_started started_digest ensure_run insert_params
    insert_param
starts_it = refl

start_run_tx-HasStarted_example :
    HasStarted codec 16 "e2" idle (tick_run codec fresh nightly) started
start_run_tx-HasStarted_example =
    start_run_tx-HasStarted codec 16 "e2" idle (tick_run codec fresh nightly) started starts_it

abbrev another : Fresh
another = record { clock = 17; run_id = "r3"; event_id = "e3" }

start_run_tx_once_example :
    start_run_tx codec 17 "e3" started (tick_run codec another nightly) ≢ ok idle
start_run_tx_once_example =
    start_run_tx_once codec 16 17 "e2" "e3" idle started started idle (tick_run codec fresh nightly)
      (tick_run codec another nightly) starts_it (λ e. ground (arith, str_eq_iff "s1" "")) refl
      (Extends-refl started.events)

abbrev fired : FireOutcome × Timetable
fired =
    from_ok
      (
        record {
          schedule_id = "";
          name = "";
          run_id = "";
          tick = 0;
          skipped = 0;
          skip_from = 0;
          skip_to = 0;
          next_fire_at = 0;
          error = none;
        },
        timetable,
      )
      (fire_one_schedule codec every_ten 15 fresh timetable nightly)

skip_ticks_total_example :
    (k : Skip) × (skip_ticks
        (tick_fuel 35)
        every_ten
        "* * * * *"
        35
        (record { cur = 10; last = 10; skipped = 1 })
      ≡ ok k)
    × Skips every_ten "* * * * *" 35 (record { cur = 10; last = 10; skipped = 1 }) k
skip_ticks_total_example =
    skip_ticks_total every_ten "* * * * *" 35 10 (λ t. (t + 10, refl, omega arith)) (omega arith)

-- noon of one day, over and over
abbrev noon : ℕ → Clock
noon t = record { minute = 0; hour = 12; day = 1; month = 1; weekday = 4 }

-- 0 12 * 1 *
abbrev at_noon : CronSchedule
at_noon = record {
  minutes = 1;
  hours = 4096;
  dom = 4294967294;
  months = 2;
  dow = 127;
  dom_star = true;
  dow_star = true;
}

next_minute-FirstOf_example :
    FirstOf
      (matches noon at_noon)
      (90000 / 60000 + 1)
      (90000 / 60000 + 1 + cron_search_bound)
      (next_minute noon at_noon 90000)
next_minute-FirstOf_example = next_minute-FirstOf noon at_noon 90000

noon_comes : cron_next noon at_noon 90000 ≡ ok (some 120000)
unfolding cron_next next_minute search matches
noon_comes = refl

cron_next_later_example :
    (90000 < 120000)
    × (t : ℕ) × (120000 ≡ t * 60000)
    × (matches noon at_noon t ≡ true)
    × ((u : ℕ) → 90000 < u * 60000 → u < t → matches noon at_noon u ≡ false)
cron_next_later_example = cron_next_later noon at_noon 90000 120000 noon_comes
