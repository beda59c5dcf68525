-- ===== src/Store/Waits.antt =====
-- The projections of external waits: onExternalWaitRequested, onExternalWaitCompleted,
-- onExternalWaitExpired and onExternalWaitCancelled (internal/store/projection.go).
use proceed.Base.{
  String, Bool, true, false, not, ◌&&◌, ◌||◌, Option, none, some, [], ◌∷◌, ◌++◌, str_eq, is_empty,
  coalesce, if◌then◌else◌, Result, ok, constraint, ◌>>=◌, ◌>>◌, require, update_where, any_where,
}
use proceed.Store.Types.{ExternalWait, WaitStatus, Event, Db}
use proceed.Store.Payload.{Codec}
use proceed.Store.Sql.{
  nullable_or, nullable_int, raw_or, decode_payload, require_fk, has_run, has_node,
}
use proceed.Store.Nodes.{ensure_run_node}
use proceed.Store.Runs.{find_run}

-- status = 'pending'
abbrev pub is_pending : WaitStatus → Bool
is_pending WaitStatus.pending = true
is_pending _ = false

-- p.WaitID, or the event's id where it is empty
abbrev pub wait_id_of : Event → String → String
wait_id_of ev id = if is_empty id then ev.event_id else id

-- the two unique indexes over pending waits: one for an event type and correlation key, one for
-- a run's node
unfoldable pub collides : ExternalWait → ExternalWait → Bool
collides row w =
    is_pending w.status
    && (str_eq w.event_type row.event_type && str_eq w.correlation_key row.correlation_key
        || str_eq w.run_id row.run_id && str_eq w.run_node_id row.run_node_id)

-- INSERT INTO external_wait … ON CONFLICT(id) DO NOTHING
unfoldable pub insert_wait : Db → ExternalWait → Result Db
unfolding collides
insert_wait db row =
    if any_where (λ w. str_eq w.id row.id) db.waits
    then ok db
    else (require (not (any_where (collides row) db.waits)) constraint
        >> require_fk db (
            has_run db row.run_id
            && has_node db row.run_node_id
            && any_where (λ v. str_eq v.id row.graph_version_id) db.versions)
        >> ok (record db { waits = db.waits ++ (row ∷ []) }))

-- onExternalWaitRequested
unfoldable pub on_wait_requested : Codec → Db → Event → Result Db
on_wait_requested c db ev = do
  p ← decode_payload (c.wait_requested ev.payload)
  (node_id, ensured) ← ensure_run_node c db ev.run_id p.node_key
  run ← find_run ensured ev.run_id
  insert_wait ensured (record {
    id = wait_id_of ev p.wait_id;
    run_id = ev.run_id;
    run_node_id = node_id;
    graph_version_id = run.graph_version_id;
    definition_digest = run.definition_digest;
    event_type = p.event_type;
    correlation_key = p.correlation_key;
    expected_condition = raw_or p.expected_condition "{}";
    status = WaitStatus.pending;
    expires_at = nullable_int p.expires_at;
    completed_event_id = none;
    payload_digest = none;
    created_at = ev.occurred_at;
    completed_at = none;
  })

-- WHERE id = ? AND status = 'pending'
abbrev pub is_pending_wait : String → ExternalWait → Bool
is_pending_wait id w = str_eq w.id id && is_pending w.status

abbrev pub update_waits : Db → (ExternalWait → Bool) → (ExternalWait → ExternalWait) → Db
update_waits db p f = record db { waits = update_where p f db.waits }

-- the constraints on completed_event_id: no other wait has it, and it is an event
unfoldable pub require_received : Db → String → Option String → Result (Unit {0})
require_received db wait_id none = ok tt
require_received db wait_id (some received) =
    if any_where (is_pending_wait wait_id) db.waits
    then (require
          (not (
            any_where
              (λ w.
                not (str_eq w.id wait_id)
                && elim w.completed_event_id [ none ↦ false | some e ↦ str_eq e received ])
              db.waits))
          constraint
        >> require_fk db (any_where (λ e. str_eq e.event_id received) db.events))
    else ok tt

-- onExternalWaitCompleted
unfoldable pub on_wait_completed : Codec → Db → Event → Result Db
unfolding require_received
on_wait_completed c db ev = do
  p ← decode_payload (c.wait_completed ev.payload)
  let wait_id = wait_id_of ev p.wait_id
  let received =
      nullable_or (if is_empty p.received_event_id then ev.causation_id else p.received_event_id)
  require_received db wait_id received
  ok (
      update_waits db (is_pending_wait wait_id) (λ w. record w {
        status = WaitStatus.completed;
        completed_event_id = coalesce received w.completed_event_id;
        payload_digest = coalesce (nullable_or p.payload_digest) w.payload_digest;
        completed_at = some ev.occurred_at;
      }))

-- onExternalWaitExpired
unfoldable pub on_wait_expired : Codec → Db → Event → Result Db
on_wait_expired c db ev = do
  id ← decode_payload (c.wait_closed ev.payload)
  ok (
      update_waits db (is_pending_wait (wait_id_of ev id.wait_id))
        (λ w. record w { status = WaitStatus.expired; completed_at = some ev.occurred_at }))

-- onExternalWaitCancelled
unfoldable pub on_wait_cancelled : Codec → Db → Event → Result Db
on_wait_cancelled c db ev = do
  id ← decode_payload (c.wait_closed ev.payload)
  ok (
      update_waits db (is_pending_wait (wait_id_of ev id.wait_id))
        (λ w. record w { status = WaitStatus.cancelled; completed_at = some ev.occurred_at }))
