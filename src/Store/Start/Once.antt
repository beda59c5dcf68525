-- ===== src/Store/Start/Once.antt =====
-- What starting a run leaves in the tables, and that a tick starts one run.
use proceed.Base.{
  any_where-append, ◌∙◌, ltb, any_where-append_one, String, ℕ, true, false, List, [], ◌∷◌, ◌++◌,
  ◌≡◌, ◌≢◌, refl, not, str_eq, str_eq_iff, str_eq_refl, ok, Ensures, Ensures-at, Ensures-bind,
  Ensures-require, Ensures-intro, holds, Extends, arith,
}
use proceed.Store.Types.{Event, EventType, Db}
use proceed.Store.Payload.{Codec, RunParamValue}
use proceed.Store.Sql.{decode_payload, has_run}
use proceed.Store.Runs.{insert_param, insert_params, ensure_run, started_digest, on_run_started}
use proceed.Store.Projection.{handle, apply_projections}
use proceed.Store.Log.{append_event_tx, insert_event, is_duplicate, has_key, max_sequence}
use proceed.Store.Log.Order.{append_event_tx-Appended}
use proceed.Store.Start.{RunStart, started_event, started_row, insert_run, start_run_tx}

insert_param-runs :
    (db : Db) (run_id : String) (v : RunParamValue)
    → Ensures (λ d. d.runs ≡ db.runs) (insert_param db run_id v)
unfolding insert_param
insert_param-runs db run_id v = Ensures-intro _ λ d h. ground arith

insert_params-runs :
    (db : Db) (run_id : String) (vs : List RunParamValue)
    → Ensures (λ d. d.runs ≡ db.runs) (insert_params db run_id vs)
unfolding insert_params
insert_params-runs db run_id [] = holds refl
insert_params-runs db run_id (v ∷ vs) = Ensures-bind (insert_param db run_id v) _ λ m first.
    Ensures-intro _ λ d rest. ground (
      arith,
      Ensures-at (insert_param-runs db run_id v) first,
      Ensures-at (insert_params-runs m run_id vs) rest,
    )

-- the projection of run_started, at a run whose row is there
on_run_started-runs :
    (c : Codec) (db : Db) (ev : Event)
    → has_run db ev.run_id ≡ true
    → Ensures (λ d. d.runs ≡ db.runs) (on_run_started c db ev)
unfolding on_run_started ensure_run
on_run_started-runs c db ev there =
    Ensures-bind (decode_payload (c.run_started ev.payload)) _ λ p read.
      Ensures-bind (started_digest db ev p) _ λ digest found.
        Ensures-bind (ensure_run db ev p digest) _ λ m same.
          Ensures-intro _
            λ d rest. ground (arith, Ensures-at (insert_params-runs m ev.run_id p.params) rest)

-- the state after a run was started
pub record HasStarted (c : Codec) (now : ℕ) (event_id : String) (db : Db) (rs : RunStart) (d : Db)
    : Type 0 where
  pub row : d.runs ≡ db.runs ++ (started_row now rs ∷ [])
  pub new_run : has_run db rs.run_id ≡ false
  pub events : d.events ≡ db.events ++ (started_event c now event_id rs ∷ [])
  pub first : max_sequence db rs.run_id ≡ 0

append_started-runs :
    (c : Codec) (db : Db) (ev : Event)
    → ev.type ≡ EventType.run_started
    → has_run db ev.run_id ≡ true
    → Ensures (λ d. d.runs ≡ db.runs) (append_event_tx c db ev)
unfolding append_event_tx insert_event apply_projections handle
append_started-runs c db ev started there =
    Ensures-require (not (is_duplicate db ev)) _ _ λ new_key.
      Ensures-require (ltb (max_sequence db ev.run_id) ev.sequence) _ _ λ later.
        Ensures-bind (insert_event db ev) _ λ m inserted. Ensures-intro _ λ d applied.
          let same : m.runs ≡ db.runs = ground arith in
          let known : has_run m ev.run_id ≡ true = ground (arith, same) in
          ground (arith, same, Ensures-at {a = d} (on_run_started-runs c m ev known) (ground arith))

-- If a run is started, it had no row and no event; it has a row with status running then, under
-- the version, the digests and the origin asked for, and the log ends in its first event, a
-- run_started; no row of another run and no other event changes.
pub start_run_tx-HasStarted :
    (c : Codec) (now : ℕ) (event_id : String) (db : Db) (rs : RunStart) (d : Db)
    → start_run_tx c now event_id db rs ≡ ok d
    → HasStarted c now event_id db rs d
unfolding start_run_tx insert_run max_sequence
start_run_tx-HasStarted c now event_id db rs d h =
    let ev = started_event c now event_id rs in
    Ensures-at {P = HasStarted c now event_id db rs}
      (Ensures-bind (insert_run db (started_row now rs)) _ λ m inserted.
        Ensures-intro _ λ e appended.
          let a = append_event_tx-Appended c m ev e appended in
          let rows : m.runs ≡ db.runs ++ (started_row now rs ∷ []) = ground arith in
          let log : m.events ≡ db.events = ground arith in
          let known : has_run m rs.run_id ≡ true = ground (
            arith,
            rows,
            str_eq_refl rs.run_id,
            any_where-append_one (λ r. str_eq r.id rs.run_id) db.runs (started_row now rs),
          ) in
          record {
            row = Ensures-at (append_started-runs c m ev refl known) appended ∙ rows;
            new_run = ground arith;
            events = ground (arith, a.events, log);
            first = ground (arith, a.later, log);
          })
      h

-- Once a run is started under an idempotency key, such as the one of a schedule's tick, no run is
-- started under the same key, however much has been appended to the log since.
pub start_run_tx_once :
    (c : Codec) (now now' : ℕ) (event_id event_id' : String) (db d later d' : Db)
    (rs rs' : RunStart)
    → start_run_tx c now event_id db rs ≡ ok d
    → rs.idempotency_key ≢ ""
    → rs'.idempotency_key ≡ rs.idempotency_key
    → Extends d.events later.events
    → start_run_tx c now' event_id' later rs' ≢ ok d'
unfolding start_run_tx insert_run is_duplicate
start_run_tx_once c now now' event_id event_id' db d later d' rs rs' first filled same grown again =
    let started = start_run_tx-HasStarted c now event_id db rs d first in
    let new_key =
      Ensures-at {P = λ _. is_duplicate later (started_event c now' event_id' rs') ≡ false}
        (Ensures-bind (insert_run later (started_row now' rs')) _ λ m inserted.
          Ensures-intro _ λ e appended.
            let a = append_event_tx-Appended c m (started_event c now' event_id' rs') e appended in
            let log : m.events ≡ later.events = ground arith in ground (arith, a.new_key, log))
        again in
    ground (
      arith,
      new_key,
      grown.eq,
      started.events,
      any_where-append (has_key rs'.idempotency_key)
          (db.events ++ (started_event c now event_id rs ∷ [])) grown.added,
      any_where-append_one (has_key rs'.idempotency_key) db.events
          (started_event c now event_id rs),
      str_eq_iff rs.idempotency_key "",
      str_eq_iff rs'.idempotency_key "",
      str_eq_iff rs.idempotency_key rs'.idempotency_key,
    )
