-- ===== src/Store/Runs.antt =====
-- The projections of run events and of edges: onRunStarted, onRunTerminal, onEdgeTraversed
-- (internal/store/projection.go).
use proceed.Base.{
  String, true, false, not, ◌&&◌, ◌||◌, none, some, List, [], ◌∷◌, ◌++◌, str_eq, is_empty, one_of,
  if◌then◌else◌, Result, ok, err, constraint, no_rows, ◌>>=◌, ◌>>◌, require, update_where,
  find_where, any_where,
}
use proceed.Store.Types.{GraphRun, RunEdge, RunStatus, Event, EventType, Db}
use proceed.Store.Payload.{Codec, RunParamValue, RunStartedPayload}
use proceed.Store.Sql.{nullable_or, nullable_int, decode_payload, require_fk, has_run}

-- SELECT … FROM graph_run WHERE id = ?
unfoldable pub find_run : Db → String → Result GraphRun
find_run db id = elim (find_where (λ r. str_eq r.id id) db.runs) [
  | none ↦ err no_rows
  | some r ↦ ok r
]

-- INSERT INTO run_param … ON CONFLICT(run_id, name) DO NOTHING, with the CHECKs on the type and
-- on a secret's value
unfoldable pub insert_param : Db → String → RunParamValue → Result Db
insert_param db run_id v =
    if any_where (λ p. str_eq p.run_id run_id && str_eq p.name v.name) db.params
    then ok db
    else (require (one_of v.type ("string" ∷ "int" ∷ "float" ∷ "bool" ∷ "secret" ∷ [])) constraint
        >> require (not (str_eq v.type "secret") || elim v.value [ none ↦ true | some _ ↦ false ])
            constraint
        >> require_fk db (has_run db run_id)
        >> ok (record db {
          params =
              db.params
              ++ (record { run_id = run_id; name = v.name; type = v.type; value = v.value } ∷ []);
        }))

-- the loop over the params of onRunStarted
unfoldable pub insert_params : Db → String → List RunParamValue → Result Db
unfolding insert_param
insert_params db run_id [] = ok db
insert_params db run_id (v ∷ vs) = insert_param db run_id v >>= λ db'. insert_params db' run_id vs

-- INSERT INTO graph_run … ON CONFLICT(id) DO NOTHING in onRunStarted
unfoldable pub ensure_run : Db → Event → RunStartedPayload → String → Result Db
ensure_run db ev p digest =
    if has_run db ev.run_id
    then ok db
    else (require_fk db (any_where (λ v. str_eq v.id p.graph_version_id) db.versions)
        >> ok (record db {
          runs =
              db.runs
              ++ (record {
                id = ev.run_id;
                graph_version_id = p.graph_version_id;
                definition_digest = digest;
                params_digest = if is_empty p.params_digest then "{}" else p.params_digest;
                schedule_id = nullable_or p.schedule_id;
                schedule_tick = nullable_int p.schedule_tick;
                trigger_name = nullable_or p.trigger_name;
                status = RunStatus.running;
                created_at = ev.occurred_at;
                started_at = none;
                finished_at = none;
              }
                  ∷ []);
        }))

-- the digest of the payload, or that of the run's row
unfoldable pub started_digest : Db → Event → RunStartedPayload → Result String
unfolding find_run
started_digest db ev p =
    if is_empty p.definition_digest
    then (find_run db ev.run_id >>= λ r. ok r.definition_digest)
    else ok p.definition_digest

-- onRunStarted
unfoldable pub on_run_started : Codec → Db → Event → Result Db
on_run_started c db ev = do
  p ← decode_payload (c.run_started ev.payload)
  digest ← started_digest db ev p
  db' ← ensure_run db ev p digest
  insert_params db' ev.run_id p.params

-- INSERT INTO run_edge … ON CONFLICT(id) DO NOTHING
unfoldable pub insert_edge : Db → RunEdge → Result Db
insert_edge db row =
    if any_where (λ e. str_eq e.id row.id) db.edges
    then ok db
    else (require_fk db
          (has_run db row.run_id && any_where (λ e. str_eq e.id row.edge_id) db.graph_edges)
        >> ok (record db { edges = db.edges ++ (row ∷ []) }))

-- onEdgeTraversed
unfoldable pub on_edge_traversed : Codec → Db → Event → Result Db
unfolding insert_edge
on_edge_traversed c db ev = do
  p ← decode_payload (c.edge_traversed ev.payload)
  insert_edge db (record {
    id = ev.event_id;
    run_id = ev.run_id;
    edge_id = p.edge_id;
    route = nullable_or p.route;
    sequence_in_run = p.sequence_in_run;
    traversed_at = ev.occurred_at;
  })

-- the map of onRunTerminal; no other type reaches it
abbrev pub terminal_run_status : EventType → RunStatus
terminal_run_status EventType.run_completed = RunStatus.completed
terminal_run_status EventType.run_failed = RunStatus.failed
terminal_run_status EventType.run_cancelled = RunStatus.cancelled
terminal_run_status _ = RunStatus.abandoned

-- UPDATE graph_run SET status = ?, finished_at = ? WHERE id = ?
unfoldable pub finish_run : Db → Event → Db
finish_run db ev = record db {
  runs =
      update_where (λ r. str_eq r.id ev.run_id)
        (λ r. record r { status = terminal_run_status ev.type; finished_at = some ev.occurred_at })
        db.runs;
}

-- INSERT INTO anchor … ON CONFLICT(id) DO NOTHING
unfoldable pub insert_anchor : Db → Event → String → Result Db
insert_anchor db ev version_id =
    if any_where (λ a. str_eq a.id ev.event_id) db.anchors
    then ok db
    else (require_fk db (any_where (λ v. str_eq v.id version_id) db.versions)
        >> ok (record db {
          anchors =
              db.anchors
              ++ (record {
                id = ev.event_id;
                graph_version_id = version_id;
                created_at = ev.occurred_at;
              }
                  ∷ []);
        }))

-- INSERT INTO outcome … ON CONFLICT(id) DO NOTHING: a run has one outcome, and so has an anchor
unfoldable pub insert_outcome : Db → Event → String → Result Db
insert_outcome db ev detail =
    if any_where (λ o. str_eq o.id ev.event_id) db.outcomes
    then ok db
    else (require
          (not (
            any_where (λ o. str_eq o.run_id ev.run_id || str_eq o.anchor_id ev.event_id)
              db.outcomes))
          constraint
        >> require_fk db
            (has_run db ev.run_id && any_where (λ a. str_eq a.id ev.event_id) db.anchors)
        >> ok (record db {
          outcomes =
              db.outcomes
              ++ (record {
                id = ev.event_id;
                run_id = ev.run_id;
                anchor_id = ev.event_id;
                result = terminal_run_status ev.type;
                detail = nullable_or detail;
                recorded_at = ev.occurred_at;
              }
                  ∷ []);
        }))

-- onRunTerminal
unfoldable pub on_run_terminal : Codec → Db → Event → Result Db
unfolding find_run finish_run insert_anchor insert_outcome
on_run_terminal c db ev = do
  detail ← decode_payload (c.run_detail ev.payload)
  run ← find_run db ev.run_id
  anchored ← insert_anchor (finish_run db ev) ev run.graph_version_id
  insert_outcome anchored ev detail
