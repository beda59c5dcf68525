-- ===== src/Store/Schedules.antt =====
-- Schedules (internal/store/schedule.go): adding one, enabling it and removing it.
pub mod Fire
pub mod Ticks
pub mod Firing
use proceed.Base.{
  ℕ, zero, suc, ◌+◌, ◌/◌, String, Bool, true, false, not, ◌&&◌, Option, none, some, List, [], ◌∷◌,
  ◌++◌, str_eq, str_le, leb, ltb, ◌==◌, if◌then◌else◌, Result, Error, ok, err, graph_invalid,
  constraint, no_tick_left, ◌>>=◌, ◌>>◌, require, any_where, update_where, select_where,
}
use proceed.Store.Types.{Db}
use proceed.Store.Payload.{Codec}
use proceed.Store.Start.{RunStart, start_run_tx, version_digest}

pub record Schedule : Type 0 where
  pub id : String
  pub name : String
  pub graph_version_id : String
  pub definition_digest : String
  pub cron : String
  pub enabled : Bool
  pub next_fire_at : ℕ
  pub last_run_id : Option String
  pub skipped_count : ℕ
  pub last_skipped_at : Option ℕ
  pub last_skip_window : Option String
  pub created_at : ℕ

-- the tables, with that of schedules
pub record Timetable : Type 0 where
  pub db : Db
  pub schedules : List Schedule

-- AddSchedule
unfoldable pub add_schedule :
    ℕ → String → Timetable → String → String → String → ℕ → Result Timetable
add_schedule clock id t name version cron next_fire_at = do
  digest ← version_digest t.db version
  require (not (any_where (λ s. str_eq s.name name) t.schedules)) graph_invalid
  require (not (any_where (λ s. str_eq s.id id) t.schedules)) constraint
  ok (record t {
    schedules =
        t.schedules
        ++ (record {
          id = id;
          name = name;
          graph_version_id = version;
          definition_digest = digest;
          cron = cron;
          enabled = true;
          next_fire_at = next_fire_at;
          last_run_id = none;
          skipped_count = 0;
          last_skipped_at = none;
          last_skip_window = none;
          created_at = clock;
        }
            ∷ []);
  })

-- SetScheduleEnabled; the Boolean says whether there is such a schedule
unfoldable pub set_schedule_enabled : Timetable → String → Bool → Bool × Timetable
set_schedule_enabled t name enabled = (
  any_where (λ s. str_eq s.name name) t.schedules,
  record t {
    schedules =
        update_where (λ s. str_eq s.name name) (λ s. record s { enabled = enabled }) t.schedules;
  },
)

-- RemoveSchedule
unfoldable pub remove_schedule : Timetable → String → Bool × Timetable
remove_schedule t name = (
  any_where (λ s. str_eq s.name name) t.schedules,
  record t { schedules = select_where (λ s. not (str_eq s.name name)) t.schedules },
)
