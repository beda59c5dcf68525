-- ===== src/Store/Moved.antt =====
-- The projections of the other node events: onNodeCancelRequested, onNodeSkipped,
-- onNodeCancelled, onNodeRequeued, onNodeWaiting, onNodeReconciling and onNodeAttemptFailed
-- (internal/store/projection.go).
use proceed.Base.{
  ℕ, ◌-◌, String, Bool, not, ◌&&◌, none, some, str_eq, coalesce, ltb, if◌then◌else◌, Result, ok,
  ◌>>=◌,
}
use proceed.Store.Types.{RunNode, NodeStatus, AttemptStatus, Event, Db}
use proceed.Store.Payload.{Codec, NodeTerminalPayload, NodeRequeuedPayload}
use proceed.Store.Sql.{nullable_or, raw_or, decode_payload}
use proceed.Store.Nodes.{
  run_node_id, ensure_run_node, update_nodes, update_attempts, is_executing, is_attempt_closed,
  is_attempt_of, is_uncancelled, is_unclosed, set_status, finish_node,
}

-- onNodeCancelRequested
unfoldable pub on_node_cancel_requested : Codec → Db → Event → Result Db
on_node_cancel_requested c db ev = do
  p ← decode_payload (c.node_terminal ev.payload)
  node_id ← run_node_id db ev.run_id p.node_key
  ok (update_nodes db (is_unclosed node_id) (set_status NodeStatus.cancel_requested))

-- onNodeSkipped
unfoldable pub on_node_skipped : Codec → Db → Event → Result Db
on_node_skipped c db ev = do
  p ← decode_payload (c.node_terminal ev.payload)
  (node_id, ensured) ← ensure_run_node c db ev.run_id p.node_key
  ok (update_nodes ensured (is_uncancelled node_id) (finish_node NodeStatus.skipped ev.occurred_at))

-- the update of the named attempt in onNodeCancelled
unfoldable pub cancel_attempt : Db → Event → String → ℕ → Db
cancel_attempt db ev node_id nr =
    if ltb 0 nr
    then update_attempts db (λ a. is_attempt_of node_id nr a && not (is_attempt_closed a.status))
        (λ a. record a {
          status = AttemptStatus.cancelled;
          finished_at = coalesce (some ev.occurred_at) a.finished_at;
        })
    else db

-- onNodeCancelled
unfoldable pub on_node_cancelled : Codec → Db → Event → Result Db
on_node_cancelled c db ev = do
  p ← decode_payload (c.node_terminal ev.payload)
  (node_id, ensured) ← ensure_run_node c db ev.run_id p.node_key
  ok (
      update_nodes (cancel_attempt ensured ev node_id p.attempt_no) (is_unclosed node_id)
        (finish_node NodeStatus.cancelled ev.occurred_at))

-- the update of onNodeRequeued: a resumed attempt gives its number back
unfoldable pub requeue : NodeRequeuedPayload → RunNode → RunNode
requeue p n =
    if p.resume_attempt && ltb 0 p.attempt_no
    then record n {
      status = NodeStatus.eligible;
      finished_at = none;
      attempt_count = p.attempt_no - 1;
    }
    else record n { status = NodeStatus.eligible; finished_at = none }

-- onNodeRequeued
unfoldable pub on_node_requeued : Codec → Db → Event → Result Db
on_node_requeued c db ev = do
  p ← decode_payload (c.node_requeued ev.payload)
  (node_id, ensured) ← ensure_run_node c db ev.run_id p.node_key
  ok (update_nodes ensured (is_uncancelled node_id) (requeue p))

-- onNodeWaiting
unfoldable pub on_node_waiting : Codec → Db → Event → Result Db
on_node_waiting c db ev = do
  p ← decode_payload (c.node_terminal ev.payload)
  (node_id, ensured) ← ensure_run_node c db ev.run_id p.node_key
  ok (update_nodes ensured (is_uncancelled node_id) (set_status NodeStatus.waiting))

-- onNodeReconciling
unfoldable pub on_node_reconciling : Codec → Db → Event → Result Db
on_node_reconciling c db ev = do
  p ← decode_payload (c.node_terminal ev.payload)
  (node_id, ensured) ← ensure_run_node c db ev.run_id p.node_key
  ok (update_nodes ensured (is_uncancelled node_id) (set_status NodeStatus.reconciling))

-- the update of the named attempt in onNodeAttemptFailed
unfoldable pub fail_attempt : Db → Event → NodeTerminalPayload → String → Db
fail_attempt db ev p node_id = update_attempts db (is_attempt_of node_id p.attempt_no) (λ a.
    record a {
      status = AttemptStatus.failed;
      finished_at = some ev.occurred_at;
      result = coalesce (nullable_or (raw_or p.result "")) a.result;
    })

-- WHERE id = ? AND status IN ('running','leased')
abbrev pub is_executing_node : String → RunNode → Bool
is_executing_node node_id n = str_eq n.id node_id && is_executing n.status

-- onNodeAttemptFailed
unfoldable pub on_node_attempt_failed : Codec → Db → Event → Result Db
on_node_attempt_failed c db ev = do
  p ← decode_payload (c.node_terminal ev.payload)
  node_id ← run_node_id db ev.run_id p.node_key
  ok (
      update_nodes (fail_attempt db ev p node_id) (is_executing_node node_id)
        (set_status NodeStatus.eligible))
