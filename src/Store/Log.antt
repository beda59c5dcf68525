-- ===== src/Store/Log.antt =====
-- The append-only event log (internal/store/event.go): validation of an event, the two entry
-- points Append and AppendTx, and the insertion that both end in. `now` is the clock's reading in
-- milliseconds and `fresh` a new ULID. Numbers are int64 in the code; every test on a sequence or
-- a time treats a negative value as it does 0, so they are natural numbers here.
pub mod Order
use proceed.Base.{
  ℕ, ◌+◌, String, Bool, true, false, not, ◌&&◌, ◌||◌, Option, none, some, List, [], ◌∷◌, ◌++◌,
  str_eq, is_empty, one_of, ltb, leb, ◌==◌, if◌then◌else◌, Error, Result, ok, err, graph_invalid,
  store_conflict, constraint, ◌>>=◌, ◌>>◌, require, from_option, any_where, max_where,
}
use proceed.Store.Types.{Event, EventType, Db}
use proceed.Store.Payload.{Codec}
use proceed.Store.Sql.{has_run}
use proceed.Store.Projection.{apply_projections}

-- actorTypes
abbrev pub is_actor_type : String → Bool
is_actor_type t = one_of t ("controller" ∷ "executor" ∷ "node" ∷ "human" ∷ [])

-- `Type == ""`
abbrev pub is_untyped : EventType → Bool
is_untyped (EventType.other t) = is_empty t
is_untyped _ = false

-- the cases of validate's switch, and whether one of them holds
unfoldable pub is_malformed : Codec → ℕ → Event → Bool
is_malformed c now ev =
    is_empty ev.run_id
    || leb ev.sequence 0
    || is_empty ev.schema_version
    || is_untyped ev.type
    || leb ev.occurred_at 0
    || ltb now ev.occurred_at
    || not (is_actor_type ev.actor_type)
    || is_empty ev.actor_id
    || not (c.json_valid ev.payload)

-- validate
unfoldable pub validate : Codec → ℕ → Event → Result (Unit {0})
unfolding is_malformed
validate c now ev = require (not (is_malformed c now ev)) graph_invalid

-- SELECT COALESCE(MAX(sequence), 0) FROM event WHERE run_id = ?, also MaxSequence
unfoldable pub max_sequence : Db → String → ℕ
max_sequence db run_id = max_where (λ e. str_eq e.run_id run_id) (λ e. e.sequence) db.events

-- WHERE idempotency_key = ?, at a key that is not NULL
abbrev pub has_key : String → Event → Bool
has_key key e = not (is_empty e.idempotency_key) && str_eq e.idempotency_key key

-- whether the key of the event is recorded
unfoldable pub is_duplicate : Db → Event → Bool
is_duplicate db ev =
    not (is_empty ev.idempotency_key) && any_where (has_key ev.idempotency_key) db.events

-- INSERT INTO event: the primary key, UNIQUE (run_id, sequence), the CHECKs, and the references
-- to the run and to the causing event; a broken reference is reported as GRAPH_INVALID
unfoldable pub insert_event : Db → Event → Result Db
insert_event db ev = do
  require (not (any_where (λ e. str_eq e.event_id ev.event_id) db.events)) constraint
  require (not (any_where (λ e. str_eq e.run_id ev.run_id && e.sequence == ev.sequence) db.events))
      constraint
  require (is_actor_type ev.actor_type) constraint
  require (leb ev.occurred_at ev.recorded_at) constraint
  require
      (db.defer_fks
        || has_run db ev.run_id
          && (is_empty ev.causation_id
              || str_eq ev.causation_id ev.event_id
              || any_where (λ e. str_eq e.event_id ev.causation_id) db.events))
      graph_invalid
  ok (record db { events = db.events ++ (ev ∷ []) })

-- appendEventTx
unfoldable pub append_event_tx : Codec → Db → Event → Result Db
append_event_tx c db ev = do
  require (not (is_duplicate db ev)) store_conflict
  require (ltb (max_sequence db ev.run_id) ev.sequence) store_conflict
  logged ← insert_event db ev
  apply_projections c logged ev

-- the event's own id, or a new one where it is empty
abbrev pub with_id : String → Event → Event
with_id fresh ev = record ev { event_id = if is_empty ev.event_id then fresh else ev.event_id }

-- AppendTx; the result holds the event as it was recorded
unfoldable pub append_tx : Codec → ℕ → String → Db → Event → Result (Event × Db)
append_tx c now fresh db ev = do
  let numbered = record (with_id fresh ev) { sequence = max_sequence db ev.run_id + 1 }
  validate c now numbered
  canonical ← from_option graph_invalid (c.canonical_json ev.payload)
  let stored = record numbered {
    payload = canonical;
    payload_digest = c.sha256_hex canonical;
    recorded_at = if ev.recorded_at == 0 then now else ev.recorded_at;
  }
  db' ← append_event_tx c db stored
  ok (stored, db')

-- Append: the caller chose the sequence, and a digest that it gives must be the payload's
unfoldable pub append : Codec → ℕ → String → Db → Event → Result (Event × Db)
append c now fresh db ev = do
  validate c now (with_id fresh ev)
  canonical ← from_option graph_invalid (c.canonical_json ev.payload)
  require (is_empty ev.payload_digest || str_eq ev.payload_digest (c.sha256_hex canonical))
      graph_invalid
  let stored = record (with_id fresh ev) {
    payload = canonical;
    payload_digest = c.sha256_hex canonical;
    recorded_at = now;
  }
  db' ← append_event_tx c db stored
  ok (stored, db')
