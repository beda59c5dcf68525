-- ===== src/Store/Start.antt =====
-- Starting a run: CreateRun and startRunTx (internal/store/projection.go). `now` is the clock's
-- reading in milliseconds, `run_id` and `event_id` are new ULIDs.
pub mod Once
use proceed.Base.{
  String, ℕ, not, ◌&&◌, ◌||◌, Option, none, some, List, [], ◌∷◌, ◌++◌, is_empty, str_eq,
  if◌then◌else◌, Result, ok, err, graph_invalid, constraint, ◌>>=◌, ◌>>◌, require, any_where,
  find_where,
}
use proceed.Store.Types.{Event, EventType, Db, GraphRun, RunStatus, GraphVersion}
use proceed.Store.Payload.{Codec, RunParamValue, RunStartedPayload}
use proceed.Store.Sql.{nullable_or, nullable_int, require_fk}
use proceed.Store.Log.{append_event_tx}

-- RunParamsStart
pub record RunParamsStart : Type 0 where
  pub values : List RunParamValue
  pub digest : String

-- runStart
pub record RunStart : Type 0 where
  pub run_id : String
  pub graph_version_id : String
  pub definition_digest : String
  pub params : Option RunParamsStart
  pub trigger_name : String
  pub schedule_id : String
  pub schedule_tick : ℕ
  pub idempotency_key : String

abbrev pub digest_of : Option RunParamsStart → String
digest_of none = ""
digest_of (some p) = p.digest

abbrev pub values_of : Option RunParamsStart → List RunParamValue
values_of none = []
values_of (some p) = p.values

-- the variable `started`
abbrev pub started_payload : RunStart → RunStartedPayload
started_payload rs = record {
  graph_version_id = rs.graph_version_id;
  definition_digest = rs.definition_digest;
  params_digest = digest_of rs.params;
  params = values_of rs.params;
  trigger_name = rs.trigger_name;
  schedule_id = rs.schedule_id;
  schedule_tick = if is_empty rs.schedule_id then 0 else rs.schedule_tick;
}

-- the variable `ev`
abbrev pub started_event : Codec → ℕ → String → RunStart → Event
started_event c now event_id rs = record {
  event_id = event_id;
  run_id = rs.run_id;
  sequence = 1;
  schema_version = "proceed/v1";
  type = EventType.run_started;
  occurred_at = now;
  recorded_at = now;
  actor_type = "controller";
  actor_id = "controller";
  causation_id = "";
  correlation_id = "";
  idempotency_key = rs.idempotency_key;
  payload_digest = c.sha256_hex (c.marshal_run_started (started_payload rs));
  payload = c.marshal_run_started (started_payload rs);
}

-- the row of graph_run
abbrev pub started_row : ℕ → RunStart → GraphRun
started_row now rs = record {
  id = rs.run_id;
  graph_version_id = rs.graph_version_id;
  definition_digest = rs.definition_digest;
  params_digest = if is_empty (digest_of rs.params) then "{}" else digest_of rs.params;
  schedule_id = nullable_or rs.schedule_id;
  schedule_tick = nullable_int rs.schedule_tick;
  trigger_name = nullable_or rs.trigger_name;
  status = RunStatus.running;
  created_at = now;
  started_at = none;
  finished_at = none;
}

-- INSERT INTO graph_run
unfoldable pub insert_run : Db → GraphRun → Result Db
insert_run db row = do
  require (not (any_where (λ r. str_eq r.id row.id) db.runs)) constraint
  require_fk db (any_where (λ v. str_eq v.id row.graph_version_id) db.versions)
  ok (record db { runs = db.runs ++ (row ∷ []) })

-- startRunTx
unfoldable pub start_run_tx : Codec → ℕ → String → Db → RunStart → Result Db
start_run_tx c now event_id db rs = do
  inserted ← insert_run db (started_row now rs)
  append_event_tx c inserted (started_event c now event_id rs)

-- SELECT definition_digest FROM graph_version WHERE id = ?
unfoldable pub version_digest : Db → String → Result String
version_digest db id = elim (find_where (λ v. str_eq v.id id) db.versions) [
  | none ↦ err graph_invalid
  | some v ↦ ok v.definition_digest
]

-- CreateRun
unfoldable pub create_run :
    Codec → ℕ → String → String → Db → String → Option RunParamsStart → String → Result Db
create_run c now run_id event_id db version params trigger_name = do
  digest ← version_digest db version
  start_run_tx c now event_id db (record {
    run_id = run_id;
    graph_version_id = version;
    definition_digest = digest;
    params = params;
    trigger_name = trigger_name;
    schedule_id = "";
    schedule_tick = 0;
    idempotency_key = "";
  })
