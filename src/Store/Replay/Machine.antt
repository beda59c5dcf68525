-- ===== src/Store/Replay/Machine.antt =====
-- The state machine of a node's status holds of every event and of every replayed log.
use proceed.Base.{◌≡◌, refl, ok, arith}
use proceed.Store.Types.{Event, EventType, Db}
use proceed.Store.Payload.{Codec}
use proceed.Store.Projection.{handle, apply_projections}
use proceed.Store.Frame.{
  Keeps, Adds-Keeps, on_run_started-Keeps, on_edge_traversed-Keeps, on_run_terminal-Keeps,
  on_artifact_published-Keeps, on_evaluation_failed-Keeps, on_effect_intent-Keeps,
  on_effect_receipt-Keeps, on_approval_requested-Keeps, on_approval_decided-Keeps,
  on_wait_completed-Keeps, on_wait_expired-Keeps, on_wait_cancelled-Keeps, on_wait_requested-Adds,
  on_decision_recorded-Adds,
}
use proceed.Store.StatusMachine.{Moves, Moves-Adds, Keeps-refl}
use proceed.Store.Conformance.{
  on_node_started-Moves, on_node_terminal-Moves, on_node_cancel_requested-Moves,
  on_node_skipped-Moves, on_node_cancelled-Moves, on_node_requeued-Moves, on_node_waiting-Moves,
  on_node_reconciling-Moves, on_node_attempt_failed-Moves,
}

module _ (c : Codec) (db : Db) (ev : Event) {d : Db} where
  kept : (t : EventType) → Keeps db d → Moves t db d
  kept t k = Moves-Adds t db d (Adds-Keeps k)

  unprojected : (t : EventType) → ok db ≡ ok d → Moves t db d
  unprojected t h = kept t (ground (arith, Keeps-refl db))

  pub handle-Moves : (t : EventType) → ev.type ≡ t → handle t c db ev ≡ ok d → Moves t db d
  unfolding handle
  handle-Moves EventType.run_started e h = kept _ (on_run_started-Keeps c db ev h)
  handle-Moves EventType.node_started e h = on_node_started-Moves c db ev h
  handle-Moves EventType.node_finished e h = on_node_terminal-Moves c db ev _ e refl h
  handle-Moves EventType.node_failed e h = on_node_terminal-Moves c db ev _ e refl h
  handle-Moves EventType.node_uncertain e h = on_node_terminal-Moves c db ev _ e refl h
  handle-Moves EventType.node_cancel_requested e h = on_node_cancel_requested-Moves c db ev h
  handle-Moves EventType.node_skipped e h = on_node_skipped-Moves c db ev h
  handle-Moves EventType.node_cancelled e h = on_node_cancelled-Moves c db ev h
  handle-Moves EventType.node_requeued e h = on_node_requeued-Moves c db ev h
  handle-Moves EventType.node_waiting e h = on_node_waiting-Moves c db ev h
  handle-Moves EventType.node_reconciling e h = on_node_reconciling-Moves c db ev h
  handle-Moves EventType.node_attempt_failed e h = on_node_attempt_failed-Moves c db ev h
  handle-Moves EventType.edge_traversed e h = kept _ (on_edge_traversed-Keeps c db ev h)
  handle-Moves EventType.artifact_published e h = kept _ (on_artifact_published-Keeps c db ev h)
  handle-Moves EventType.evaluation_failed e h = kept _ (on_evaluation_failed-Keeps c db ev h)
  handle-Moves EventType.effect_intent e h = kept _ (on_effect_intent-Keeps c db ev h)
  handle-Moves EventType.effect_receipt e h = kept _ (on_effect_receipt-Keeps c db ev h)
  handle-Moves EventType.approval_requested e h = kept _ (on_approval_requested-Keeps c db ev h)
  handle-Moves EventType.approval_granted e h = kept _ (on_approval_decided-Keeps c db ev h)
  handle-Moves EventType.approval_denied e h = kept _ (on_approval_decided-Keeps c db ev h)
  handle-Moves EventType.decision_recorded e h =
      Moves-Adds _ db d (on_decision_recorded-Adds c db ev h)
  handle-Moves EventType.run_completed e h = kept _ (on_run_terminal-Keeps c db ev h)
  handle-Moves EventType.run_failed e h = kept _ (on_run_terminal-Keeps c db ev h)
  handle-Moves EventType.run_cancelled e h = kept _ (on_run_terminal-Keeps c db ev h)
  handle-Moves EventType.run_abandoned e h = kept _ (on_run_terminal-Keeps c db ev h)
  handle-Moves EventType.external_wait_requested e h =
      Moves-Adds _ db d (on_wait_requested-Adds c db ev h)
  handle-Moves EventType.external_wait_completed e h = kept _ (on_wait_completed-Keeps c db ev h)
  handle-Moves EventType.external_wait_expired e h = kept _ (on_wait_expired-Keeps c db ev h)
  handle-Moves EventType.external_wait_cancelled e h = kept _ (on_wait_cancelled-Keeps c db ev h)
  handle-Moves EventType.external_event_received e h = unprojected _ h
  handle-Moves EventType.external_event_rejected e h = unprojected _ h
  handle-Moves (EventType.other x) e h = unprojected _ h

  -- The projection of any event, if it succeeds, leaves every row of run_node at its place with
  -- its id, run and key; the row's status stays or moves as `next_status` says for the event's
  -- type; its attempt count falls only under node_requeued; and the log and the graph definitions
  -- are as they were.
  pub apply_projections-Moves : apply_projections c db ev ≡ ok d → Moves ev.type db d
  unfolding apply_projections
  apply_projections-Moves h = handle-Moves ev.type refl h
