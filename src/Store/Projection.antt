-- ===== src/Store/Projection.antt =====
-- The table of handlers and its dispatch: projectedHandlers and applyProjections
-- (internal/store/projection.go).
use proceed.Base.{Result, ok}
use proceed.Store.Types.{Event, EventType, Db}
use proceed.Store.Payload.{Codec}
use proceed.Store.Started.{on_node_started}
use proceed.Store.Ended.{on_node_terminal}
use proceed.Store.Moved.{
  on_node_cancel_requested, on_node_skipped, on_node_cancelled, on_node_requeued, on_node_waiting,
  on_node_reconciling, on_node_attempt_failed,
}
use proceed.Store.Runs.{on_run_started, on_edge_traversed, on_run_terminal}
use proceed.Store.Evidence.{
  on_artifact_published, on_evaluation_failed, on_effect_intent, on_effect_receipt,
  on_approval_requested, on_approval_decided, on_decision_recorded,
}
use proceed.Store.Waits.{on_wait_requested, on_wait_completed, on_wait_expired, on_wait_cancelled}

-- projectedHandlers: the handler of a type; the last three clauses are the two handlers that do
-- nothing and the types that have none
unfoldable pub handle : EventType → Codec → Db → Event → Result Db
handle EventType.run_started c db ev = on_run_started c db ev
handle EventType.node_started c db ev = on_node_started c db ev
handle EventType.node_finished c db ev = on_node_terminal c db ev
handle EventType.node_failed c db ev = on_node_terminal c db ev
handle EventType.node_uncertain c db ev = on_node_terminal c db ev
handle EventType.node_cancel_requested c db ev = on_node_cancel_requested c db ev
handle EventType.node_skipped c db ev = on_node_skipped c db ev
handle EventType.node_cancelled c db ev = on_node_cancelled c db ev
handle EventType.node_requeued c db ev = on_node_requeued c db ev
handle EventType.node_waiting c db ev = on_node_waiting c db ev
handle EventType.node_reconciling c db ev = on_node_reconciling c db ev
handle EventType.node_attempt_failed c db ev = on_node_attempt_failed c db ev
handle EventType.edge_traversed c db ev = on_edge_traversed c db ev
handle EventType.artifact_published c db ev = on_artifact_published c db ev
handle EventType.evaluation_failed c db ev = on_evaluation_failed c db ev
handle EventType.effect_intent c db ev = on_effect_intent c db ev
handle EventType.effect_receipt c db ev = on_effect_receipt c db ev
handle EventType.approval_requested c db ev = on_approval_requested c db ev
handle EventType.approval_granted c db ev = on_approval_decided c db ev
handle EventType.approval_denied c db ev = on_approval_decided c db ev
handle EventType.decision_recorded c db ev = on_decision_recorded c db ev
handle EventType.run_completed c db ev = on_run_terminal c db ev
handle EventType.run_failed c db ev = on_run_terminal c db ev
handle EventType.run_cancelled c db ev = on_run_terminal c db ev
handle EventType.run_abandoned c db ev = on_run_terminal c db ev
handle EventType.external_wait_requested c db ev = on_wait_requested c db ev
handle EventType.external_wait_completed c db ev = on_wait_completed c db ev
handle EventType.external_wait_expired c db ev = on_wait_expired c db ev
handle EventType.external_wait_cancelled c db ev = on_wait_cancelled c db ev
handle EventType.external_event_received c db ev = ok db
handle EventType.external_event_rejected c db ev = ok db
handle (EventType.other _) c db ev = ok db

-- applyProjections
unfoldable pub apply_projections : Codec → Db → Event → Result Db
unfolding handle
apply_projections c db ev = handle ev.type c db ev
