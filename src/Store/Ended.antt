-- ===== src/Store/Ended.antt =====
-- The projection of the events that end a node: onNodeTerminal (internal/store/projection.go).
use proceed.Base.{
  ℕ, max, String, not, ◌&&◌, ◌||◌, Option, none, some, str_eq, is_empty, coalesce, ltb,
  if◌then◌else◌, Result, ok, graph_invalid, ◌>>=◌, ◌>>◌, require, any_where, max_where,
}
use proceed.Store.Types.{RunNode, NodeStatus, AttemptStatus, Event, EventType, Db}
use proceed.Store.Payload.{Codec, NodeTerminalPayload}
use proceed.Store.Sql.{nullable_or, raw_or, decode_payload}
use proceed.Store.Nodes.{
  ensure_run_node, update_nodes, update_attempts, is_attempt_cancelled, is_attempt_of,
  insert_attempt, is_uncancelled,
}

-- the two maps of onNodeTerminal; no other type reaches it
abbrev pub terminal_attempt_status : EventType → AttemptStatus
terminal_attempt_status EventType.node_finished = AttemptStatus.succeeded
terminal_attempt_status EventType.node_failed = AttemptStatus.failed
terminal_attempt_status _ = AttemptStatus.uncertain

abbrev pub terminal_node_status : EventType → NodeStatus
terminal_node_status EventType.node_finished = NodeStatus.succeeded
terminal_node_status EventType.node_failed = NodeStatus.failed
terminal_node_status _ = NodeStatus.uncertain

-- finishedAt
abbrev pub finished_at_of : Event → EventType → Option ℕ
finished_at_of ev EventType.node_finished = some ev.occurred_at
finished_at_of ev EventType.node_failed = some ev.occurred_at
finished_at_of ev _ = none

-- the rejected attempt that onNodeTerminal makes where none was started
unfoldable pub ensure_attempt : Db → Event → NodeTerminalPayload → String → Result Db
ensure_attempt db ev p node_id =
    if any_where (is_attempt_of node_id p.attempt_no) db.attempts || is_empty p.operation_key
    then ok db
    else do
      require (not (is_empty p.executor || is_empty p.side_effect_contract)) graph_invalid
      insert_attempt db (record {
        id = ev.event_id;
        run_node_id = node_id;
        attempt_no = p.attempt_no;
        operation_key = p.operation_key;
        executor = p.executor;
        side_effect_contract = p.side_effect_contract;
        lease_token = none;
        lease_expires_at = none;
        status = AttemptStatus.failed;
        result = nullable_or (raw_or p.result "");
        started_at = none;
        finished_at = finished_at_of ev ev.type;
      })

-- the update of one attempt in onNodeTerminal
unfoldable pub close_attempt : Db → Event → NodeTerminalPayload → String → ℕ → Db
close_attempt db ev p node_id nr =
    update_attempts db (λ a. is_attempt_of node_id nr a && not (is_attempt_cancelled a.status))
      (λ a. record a {
        status = terminal_attempt_status ev.type;
        finished_at = coalesce (finished_at_of ev ev.type) a.finished_at;
        result = coalesce (nullable_or (raw_or p.result "")) a.result;
      })

-- SELECT MAX(attempt_no) of a node's attempts
unfoldable pub latest_attempt_no : Db → String → ℕ
latest_attempt_no db node_id =
    max_where (λ a. str_eq a.run_node_id node_id) (λ a. a.attempt_no) db.attempts

-- which attempt a terminal event closes: the one that it names, or the latest
unfoldable pub close_attempts : Db → Event → NodeTerminalPayload → String → Result Db
unfolding close_attempt latest_attempt_no
close_attempts db ev p node_id =
    if ltb 0 p.attempt_no
    then (ensure_attempt db ev p node_id >>= λ with_attempt.
        ok (close_attempt with_attempt ev p node_id p.attempt_no))
    else ok (close_attempt db ev p node_id (latest_attempt_no db node_id))

-- the update of the node in onNodeTerminal
abbrev pub end_node : Event → NodeTerminalPayload → RunNode → RunNode
end_node ev p n = record n {
  status = terminal_node_status ev.type;
  attempt_count = max n.attempt_count p.attempt_no;
  finished_at = coalesce (finished_at_of ev ev.type) n.finished_at;
}

-- onNodeTerminal
unfoldable pub on_node_terminal : Codec → Db → Event → Result Db
on_node_terminal c db ev = do
  p ← decode_payload (c.node_terminal ev.payload)
  (node_id, ensured) ← ensure_run_node c db ev.run_id p.node_key
  closed ← close_attempts ensured ev p node_id
  ok (update_nodes closed (is_uncancelled node_id) (end_node ev p))
