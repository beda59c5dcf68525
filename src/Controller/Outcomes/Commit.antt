-- ===== src/Controller/Outcomes/Commit.antt =====
-- What commitNodeSuccess leaves: the node's status, and exactly the edges that its route opens
-- (internal/controller/outcomes.go).
use proceed.Base.{
  String, Bool, true, false, Option, ◌≡◌, ◌≢◌, ◌⊎◌, inl, inr, ◌∙◌, refl, sym, subst, ap, ok,
  Ensures, Ensures-at, Ensures-bind, Ensures-map, arith,
}
use proceed.Store.Types.{EventType, NodeStatus}
use proceed.Store.StatusMachine.{next_status}
use proceed.Store.Projection.{handle}
use proceed.Store.Frame.Edges.{on_node_terminal-edges, on_node_cancelled-edges}
use proceed.Store.Named.{node_at, HasStatus, status_before}
use proceed.Controller.Cancel.Appended.{IsPrinted}
use proceed.Controller.Writer.{Writer, Tx}
use proceed.Controller.Routing.{edges_from}
use proceed.Controller.Routing.Traversed.{
  EdgesLogged, EdgesLogged-later, PrintsEdges, Traverses, opened,
}
use proceed.Controller.Outcomes.{
  ExecutorResult, Execution, finish_with, result_or_empty, is_known, succeed, commit_at,
  commit_node_success, status_of,
}
use proceed.Controller.Routing.Routed.{
  Routed, route_from-Routed, HasStatus-later, Traverses-from, edges_from-same,
}
use proceed.Controller.Outcomes.Ends.{PrintsEnd, Ends, finish_with-Ends, read_status}

module _ (w : Writer) (n : Execution) (result : Option ExecutorResult) (op_key : String) where
  -- what a success leaves
  abbrev pub Succeeds : String → Tx → Tx → Type 0
  Succeeds version t t' =
      HasStatus w.run_id n.node_key NodeStatus.succeeded t'.db
      × Traverses w.run_id
          (opened (is_known result) (result_or_empty result).route
            (edges_from t.db version n.node_key))
          t.db t'.db

  succeed-Succeeds :
      (t : Tx) (version digest : String) (s : NodeStatus)
      → IsPrinted w.codec
      → PrintsEdges w
      → PrintsEnd w EventType.node_finished n result
      → EdgesLogged t.db
      → status_of t.db w.run_id n.node_key ≡ ok s
      → next_status EventType.node_finished s ≡ NodeStatus.succeeded
      → Ensures (Succeeds version t) (succeed w t version digest n result op_key)
  unfolding succeed edges_from handle
  succeed-Succeeds t version digest s nodes edges prints l read next =
      Ensures-bind (finish_with w t EventType.node_finished n (result_or_empty result) op_key) _
        λ t1 first.
          let e =
            Ensures-at
              (finish_with-Ends w n result op_key t EventType.node_finished prints
                (on_node_terminal-edges w.codec))
              first in
          let done : HasStatus w.run_id n.node_key NodeStatus.succeeded t1.db =
            subst (λ x. HasStatus w.run_id n.node_key x t1.db)
              (ap (next_status EventType.node_finished) (read_status w n result op_key t s read)
                ∙ next)
              e.status in
          let there = EdgesLogged-later t.db t1.db e.events e.edges l in
          Ensures-map
            (λ t'
                (r : Routed w.run_id
                  (opened (is_known result) (result_or_empty result).route
                    (edges_from t1.db version n.node_key))
                  t1.db t'.db).
              (
                HasStatus-later w.run_id n.node_key NodeStatus.succeeded t1.db t'.db r.nodes done,
                Traverses-from e.edges
                    (ap (opened (is_known result) (result_or_empty result).route)
                      (edges_from-same t.db t1.db version n.node_key e.graph_edges))
                    r.traverses,
              ))
            (route_from-Routed w nodes edges t1 version digest n.node_key (is_known result)
              (result_or_empty result).route there)

  -- the statuses at which a success counts
  abbrev pub is_live : NodeStatus → Bool
  is_live NodeStatus.running = true
  is_live NodeStatus.reconciling = true
  is_live _ = false

  live_next :
      (s : NodeStatus)
      → is_live s ≡ true
      → next_status EventType.node_finished s ≡ NodeStatus.succeeded
  unfolding next_status
  live_next s h = ground arith

  live_commit :
      (t : Tx) (version digest : String) (s : NodeStatus)
      → is_live s ≡ true
      → commit_at w t version digest n result op_key s ≡ succeed w t version digest n result op_key
  unfolding commit_at
  live_commit t version digest s h = ground arith

  -- If commitNodeSuccess returns for a node that was running or reconciling, encoding/json printing
  -- what it reads back and every row of run_edge having its event in the log, the node has succeeded
  -- and run_edge has new rows at its end for exactly the edges that the node opens, in the order of
  -- their ids: its depends_on, produces and consumes edges, and, where there is a result, its
  -- routes_to edges that have no condition or whose condition is the result's route.
  pub commit_node_success-Succeeds :
      (t : Tx) (version digest : String) (s : NodeStatus) (t' : Tx)
      → IsPrinted w.codec
      → PrintsEdges w
      → PrintsEnd w EventType.node_finished n result
      → EdgesLogged t.db
      → status_of t.db w.run_id n.node_key ≡ ok s
      → is_live s ≡ true
      → commit_node_success w t version digest n result op_key ≡ ok t'
      → Succeeds version t t'
  unfolding commit_node_success
  commit_node_success-Succeeds t version digest s t' nodes edges prints l read live h =
      Ensures-at {a = t'}
        (succeed-Succeeds t version digest s nodes edges prints l read (live_next s live))
        (ground (arith, live_commit t version digest s live, read, h))

  -- what a success leaves of a node that it comes too late for
  abbrev pub Stays : NodeStatus → Tx → Tx → Type 0
  Stays s t t' =
      (t'.db.edges ≡ t.db.edges)
      × (s ≡ NodeStatus.cancel_requested → HasStatus w.run_id n.node_key NodeStatus.cancelled t'.db)
      × (s ≢ NodeStatus.cancel_requested → t' ≡ t)

  late_commit :
      (t : Tx) (version digest : String) (s : NodeStatus)
      → is_live s ≡ false
      → s ≢ NodeStatus.cancel_requested
      → commit_at w t version digest n result op_key s ≡ ok t
  unfolding commit_at
  late_commit t version digest NodeStatus.cancel_requested h other = absurd (other refl)
  late_commit t version digest NodeStatus.running h other = absurd (ground arith)
  late_commit t version digest NodeStatus.reconciling h other = absurd (ground arith)
  late_commit t version digest _ h other = refl

  cancelled_commit :
      (t : Tx) (version digest : String)
      → PrintsEnd w EventType.node_cancelled n result
      → status_of t.db w.run_id n.node_key ≡ ok NodeStatus.cancel_requested
      → Ensures
          (Stays NodeStatus.cancel_requested t)
          (commit_at w t version digest n result op_key NodeStatus.cancel_requested)
  unfolding commit_at next_status handle
  cancelled_commit t version digest prints read =
      Ensures-map
        (λ t'
            (e : Ends w.run_id n.node_key
              (next_status EventType.node_cancelled
                (status_before (node_at t.db w.run_id n.node_key)))
              t.db t'.db).
          (
            e.edges,
            (λ _.
                subst (λ x. HasStatus w.run_id n.node_key x t'.db)
                  (ap (next_status EventType.node_cancelled)
                    (read_status w n result op_key t NodeStatus.cancel_requested read))
                  e.status),
            (λ other. absurd (other refl)),
          ))
        (finish_with-Ends w n result op_key t EventType.node_cancelled prints
          (on_node_cancelled-edges w.codec))

  is_requested-cases :
      (s : NodeStatus) → (s ≡ NodeStatus.cancel_requested) ⊎ (s ≢ NodeStatus.cancel_requested)
  is_requested-cases NodeStatus.cancel_requested = inl refl
  is_requested-cases _ = inr (λ e. absurd (ground (arith, e)))

  -- If commitNodeSuccess returns for a node that is neither running nor reconciling, encoding/json
  -- printing what it reads back, no edge is traversed; where the node's cancelling was requested,
  -- the node is cancelled, and otherwise nothing is changed at all.
  pub commit_node_success_late :
      (t : Tx) (version digest : String) (s : NodeStatus) (t' : Tx)
      → PrintsEnd w EventType.node_cancelled n result
      → status_of t.db w.run_id n.node_key ≡ ok s
      → is_live s ≡ false
      → commit_node_success w t version digest n result op_key ≡ ok t'
      → Stays s t t'
  unfolding commit_node_success
  commit_node_success_late t version digest s t' prints read late h =
      let done : commit_at w t version digest n result op_key s ≡ ok t' = ground (arith, read, h) in
      elim (is_requested-cases s) [
        | inl e ↦
            subst (λ x. Stays x t t') (sym e)
              (Ensures-at {a = t'}
                (cancelled_commit t version digest prints
                  (subst (λ x. status_of t.db w.run_id n.node_key ≡ ok x) e read))
                (subst (λ x. commit_at w t version digest n result op_key x ≡ ok t') e done))
        | inr other ↦
            let same : t' ≡ t = ground (arith, done, late_commit t version digest s late other) in
            (ap (λ x. x.db.edges) same, (λ e. absurd (other e)), (λ _. same))
      ]
