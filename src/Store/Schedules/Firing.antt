-- ===== src/Store/Schedules/Firing.antt =====
-- Firing a schedule: its tick is used up, by a run that is started or by skipping.
use proceed.Base.{ℕ, suc, ◌≤◌, ◌<◌, false, some, List, [], ◌∷◌, ◌≡◌, ◌⊎◌, ok, any_where, true, ◌+◌}
use proceed.Store.Payload.{Codec}
use proceed.Store.Start.Once.{HasStarted}
use proceed.Store.Schedules.{Schedule, Timetable}
use proceed.Store.Schedules.Fire.{CronNext, Fresh, FireOutcome, is_at_tick, tick_run}
use proceed.Store.Schedules.Ticks.{Ticks}

-- a run was started at the tick
abbrev pub Starts : Codec → Fresh → Timetable → Schedule → FireOutcome → Timetable → Type 0
Starts c fresh t sched o t' =
    (o.skipped ≡ 0) × HasStarted c fresh.clock fresh.event_id t.db (tick_run c fresh sched) t'.db

-- the tick and those after it were skipped, up to the last that is due
abbrev pub SkipsDue : CronNext → ℕ → Timetable → Schedule → FireOutcome → Timetable → Type 0
SkipsDue next now t sched o t' =
    (t'.db ≡ t.db)
    × (o.skip_from ≡ sched.next_fire_at)
    × (count : ℕ) × (o.skipped ≡ suc count)
    × Ticks next sched.cron sched.next_fire_at count o.skip_to
    × (o.skip_to ≤ now)
    × (next sched.cron o.skip_to ≡ ok (some o.next_fire_at))

-- a row at the tick moves to the next one, and counts what is skipped; every other row stays as it is
pub record Advances (sched : Schedule) (o : FireOutcome) (x y : Schedule) : Type 0 where
  pub next : is_at_tick sched.id sched.next_fire_at x ≡ true → y.next_fire_at ≡ o.next_fire_at
  pub counted :
      is_at_tick sched.id sched.next_fire_at x ≡ true
      → y.skipped_count ≡ x.skipped_count + o.skipped
  pub timetabled :
      (y.id ≡ x.id)
      × (y.cron ≡ x.cron)
      × (y.enabled ≡ x.enabled)
      × (y.graph_version_id ≡ x.graph_version_id)
  pub others : is_at_tick sched.id sched.next_fire_at x ≡ false → y ≡ x

-- each row of the one list has a row at its place in the other
abbrev pub Pairwise : (Schedule → Schedule → Type 0) → List Schedule → List Schedule → Type 0
Pairwise R [] [] = Unit
Pairwise R (x ∷ xs) (y ∷ ys) = R x y × Pairwise R xs ys
Pairwise R _ _ = ⊥

pub record Fired (c : Codec) (next : CronNext) (now : ℕ) (fresh : Fresh) (t : Timetable)
    (sched : Schedule) (r : FireOutcome × Timetable) : Type 0 where
  pub later : now < r.0.next_fire_at
  pub rows : Pairwise (Advances sched r.0) t.schedules r.1.schedules
  pub used_up : any_where (is_at_tick sched.id sched.next_fire_at) r.1.schedules ≡ false
  pub how : Starts c fresh t sched r.0 r.1 ⊎ SkipsDue next now t sched r.0 r.1
