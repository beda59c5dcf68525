-- ===== src/Store/Started.antt =====
-- The projection of node_started: onNodeStarted (internal/store/projection.go).
use proceed.Base.{
  ℕ, max, String, not, none, some, str_eq, is_empty, coalesce, leb, if◌then◌else◌, Result, ok,
  graph_invalid, ◌>>=◌, ◌>>◌, require, update_where, any_where,
}
use proceed.Store.Types.{RunNode, NodeStatus, AttemptStatus, Event, Db}
use proceed.Store.Payload.{Codec, NodeStartedPayload}
use proceed.Store.Sql.{nullable_or, nullable_int, decode_payload}
use proceed.Store.Nodes.{
  derived_node_id, is_node_of, run_node_id, insert_node, update_nodes, update_attempts,
  is_attempt_of, insert_attempt,
}

-- the update of a node that is there, and the row of one that is not
abbrev pub restart_node : Event → ℕ → RunNode → RunNode
restart_node ev nr n = record n {
  status = NodeStatus.running;
  attempt_count = max n.attempt_count nr;
  started_at = coalesce n.started_at (some ev.occurred_at);
}

abbrev pub started_node : Codec → Event → String → ℕ → RunNode
started_node c ev key nr = record {
  id = derived_node_id c ev.run_id key;
  run_id = ev.run_id;
  node_key = key;
  status = NodeStatus.running;
  attempt_count = nr;
  started_at = some ev.occurred_at;
  finished_at = none;
}

-- the upsert of run_node in onNodeStarted
unfoldable pub upsert_started : Codec → Db → Event → String → ℕ → Result Db
upsert_started c db ev key nr =
    if any_where (is_node_of ev.run_id key) db.nodes
    then ok (update_nodes db (is_node_of ev.run_id key) (restart_node ev nr))
    else insert_node db (started_node c ev key nr)

-- UPDATE graph_run SET started_at = ? WHERE id = ? AND started_at IS NULL
unfoldable pub stamp_run : Db → Event → Db
stamp_run db ev = record db {
  runs =
      update_where (λ r. str_eq r.id ev.run_id)
        (λ r. record r { started_at = coalesce r.started_at (some ev.occurred_at) }) db.runs;
}

-- the upsert of node_attempt in onNodeStarted
unfoldable pub upsert_attempt : Db → Event → NodeStartedPayload → String → ℕ → Result Db
upsert_attempt db ev p node_id nr =
    if any_where (is_attempt_of node_id nr) db.attempts
    then ok (
        update_attempts db (is_attempt_of node_id nr) (λ a. record a {
          lease_token = coalesce (nullable_or p.lease_token) a.lease_token;
          lease_expires_at = coalesce (nullable_int p.lease_expires_at) a.lease_expires_at;
          status = AttemptStatus.running;
          started_at = coalesce a.started_at (some ev.occurred_at);
        }))
    else insert_attempt db (record {
      id = ev.event_id;
      run_node_id = node_id;
      attempt_no = nr;
      operation_key = p.operation_key;
      executor = p.executor;
      side_effect_contract = p.side_effect_contract;
      lease_token = nullable_or p.lease_token;
      lease_expires_at = nullable_int p.lease_expires_at;
      status = AttemptStatus.running;
      result = none;
      started_at = some ev.occurred_at;
      finished_at = none;
    })

-- the last part of onNodeStarted: an event with no operation key records no attempt
unfoldable pub record_attempt : Db → Event → NodeStartedPayload → ℕ → Result Db
record_attempt db ev p nr =
    if is_empty p.operation_key
    then ok db
    else do node_id ← run_node_id db ev.run_id p.node_key; upsert_attempt db ev p node_id nr

-- onNodeStarted
unfoldable pub on_node_started : Codec → Db → Event → Result Db
on_node_started c db ev = do
  p ← decode_payload (c.node_started ev.payload)
  require (not (is_empty p.node_key)) graph_invalid
  let nr = if leb p.attempt_no 0 then 1 else p.attempt_no
  started ← upsert_started c db ev p.node_key nr
  record_attempt (stamp_run started ev) ev p nr
