-- ===== src/Controller/Execution/Settled.antt =====
-- An execution that timed out where its effect cannot be repeated is left uncertain, and is not
-- repeated (internal/controller/engine.go, internal/controller/recover.go).
use proceed.Base.{
  ℕ, String, true, false, none, some, List, [], ◌∷◌, ◌≡◌, ◌∙◌, refl, sym, subst, ap, ok,
  if◌then◌else◌, find_where, Ensures, Ensures-map, arith,
}
use proceed.Store.Types.{EventType, NodeStatus}
use proceed.Store.Nodes.{is_node_of, is_cancelling}
use proceed.Store.StatusMachine.{next_status}
use proceed.Store.Projection.{handle}
use proceed.Store.Frame.{on_effect_receipt-Keeps}
use proceed.Store.Named.{node_at, HasStatus, status_before}
use proceed.Controller.Writer.{Writer, Tx, Progress, transact, continue, note}
use proceed.Controller.Writer.Applied.{NamesNode, note-Applied, logged}
use proceed.Controller.Outcomes.{ArtifactRef, Execution, mark_effects_unknown, uncertain_node}
use proceed.Controller.Outcomes.Ends.{append_artifacts-Stores}
use proceed.Controller.Outcomes.Retry.{note-status}
use proceed.Controller.Recovery.{Contract, Surroundings, contract_for, recover_node}
use proceed.Controller.Writer.Finishes.{
  Finishes, transact-Finishes, continue-Finishes, and_then-Finishes,
}
use proceed.Controller.Recovery.Recovered.{PrintsRecovery}
use proceed.Controller.Recovery.Contracts.{recover_node-RecoversFrom}
use proceed.Controller.Approvals.{Desk}
use proceed.Controller.Execution.{
  ExecutionError, Report, is_induced, is_unrepeatable, asks_for_gate, classified_error,
  persist_artifacts, result_artifacts, settle_failure, settle_error, settle_by, settle_execution,
}

-- the table of nodes is as it was
abbrev SameNodes : Tx → Tx → Type 0
SameNodes t t' = t'.db.nodes ≡ t.db.nodes

-- the node is uncertain, unless its cancelling was requested or done
abbrev pub doubted : NodeStatus → NodeStatus
doubted x = if is_cancelling x then x else NodeStatus.uncertain

module _ (w : Writer) (key : String) where
  marks :
      (t : Tx) (ids : List String) (p : Progress)
      → Finishes (SameNodes t) p
      → Finishes (SameNodes t) (mark_effects_unknown w p ids)
  unfolding mark_effects_unknown handle
  marks t [] p f = f
  marks t (id ∷ ids) p f = marks t ids _ (
      and_then-Finishes (SameNodes t) (SameNodes t) p
        (λ x. note w x EventType.effect_receipt (w.print.receipt id "unknown")) f
        λ m same.
          Ensures-map
            (λ t' a.
              (on_effect_receipt-Keeps w.codec (logged m.db a.stored) a.stored a.projected).nodes
              ∙ same)
            (note-Applied w m EventType.effect_receipt (w.print.receipt id "unknown")))

  doubts : (x : NodeStatus) → next_status EventType.node_uncertain x ≡ doubted x
  unfolding next_status
  doubts x = refl

  pub uncertain_node-Finishes :
      (t : Tx) (nr : ℕ) (cause : String)
      → NamesNode w.codec EventType.node_uncertain (w.print.doubt key nr cause) key
      → Finishes
          (λ t'. HasStatus w.run_id key (doubted (status_before (node_at t.db w.run_id key))) t'.db)
          (uncertain_node w t key nr cause)
  unfolding uncertain_node node_at
  uncertain_node-Finishes t nr cause names =
      and_then-Finishes (SameNodes t) _ _ _ (marks t _ _ (record { finish = λ _. refl })) λ m same.
        Ensures-map
          (λ t' h.
            subst (λ x. HasStatus w.run_id key x t'.db)
              (doubts _
                ∙ ap (λ ns. doubted (status_before (find_where (is_node_of w.run_id key) ns))) same)
              h)
          (note-status w key m EventType.node_uncertain _ names)

persists :
    (w : Writer) (t : Tx) (key op_key : String) (refs : List ArtifactRef)
    → Ensures (SameNodes t) (persist_artifacts w t key op_key refs)
unfolding persist_artifacts
persists w t key op_key refs =
    Ensures-map (λ t' s. s.nodes) (append_artifacts-Stores w t key op_key refs)

-- a timeout, once the artifacts are stored
times_out :
    (w : Writer) (t : Tx) (n : Execution) (contract : Contract) (r : Report)
    → r.timed_out ≡ true
    → is_unrepeatable contract ≡ true
    → settle_error w n contract r ExecutionError.err_timeout t
      ≡ uncertain_node w t n.node_key n.attempt_no r.cause
unfolding settle_error settle_failure
times_out w t n contract r late unrepeatable = ground (arith, late, unrepeatable)

-- the status is settled after the artifacts are stored
settles :
    (w : Writer) (t : Tx) (n : Execution) (contract : Contract) (r : Report) (op_key : String)
    → r.timed_out ≡ true
    → is_unrepeatable contract ≡ true
    → NamesNode w.codec EventType.node_uncertain
        (w.print.doubt n.node_key n.attempt_no r.cause)
        n.node_key
    → Finishes
        (λ t'.
          HasStatus w.run_id n.node_key
            (doubted (status_before (node_at t.db w.run_id n.node_key)))
            t'.db)
        (continue
          (transact t (persist_artifacts w t n.node_key op_key (result_artifacts r.returned)))
          (settle_error w n contract r ExecutionError.err_timeout))
unfolding node_at
settles w t n contract r op_key late unrepeatable names =
    let key = n.node_key in
    continue-Finishes (SameNodes t) _ _ _
      (transact-Finishes (SameNodes t) t _ (persists w t key op_key (result_artifacts r.returned)))
      λ m same.
        subst
          (λ p.
            Finishes
              (λ t'.
                HasStatus w.run_id key (doubted (status_before (node_at t.db w.run_id key))) t'.db)
              p)
          (sym (times_out w m n contract r late unrepeatable))
          (subst
            (λ ns.
              Finishes
                (λ t'.
                  HasStatus w.run_id key
                    (doubted (status_before (find_where (is_node_of w.run_id key) ns))) t'.db)
                (uncertain_node w m key n.attempt_no r.cause))
            same (uncertain_node-Finishes w key m n.attempt_no r.cause names))

-- the executor answered no sooner than the timer, and says at most that it was cancelled
abbrev pub IsTimeout : Report → Type 0
IsTimeout r = (r.timed_out ≡ true) × (is_induced r.error ≡ true)

-- If executeNode ends without an error after the controller's timer fired, the executor having
-- answered with a result or with its cancellation, on a node whose contract is reconcilable or not
-- replayable, encoding/json printing what it reads back, the node is uncertain, or keeps its status
-- if its cancelling was requested or done.
pub settle_execution-HasStatus :
    (desk : Desk) (t : Tx) (version digest : String) (n : Execution) (contract : Contract)
    (r : Report) (op_key : String)
    → IsTimeout r
    → is_unrepeatable contract ≡ true
    → NamesNode desk.writer.codec EventType.node_uncertain
        (desk.writer.print.doubt n.node_key n.attempt_no r.cause)
        n.node_key
    → (settle_execution desk t version digest n contract r op_key).failure ≡ none
    → HasStatus desk.writer.run_id n.node_key
        (doubted (status_before (node_at t.db desk.writer.run_id n.node_key)))
        (settle_execution desk t version digest n contract r op_key).committed.db
unfolding settle_execution settle_by
settle_execution-HasStatus desk t version digest n contract r op_key late unrepeatable names =
    let w = desk.writer in
    let key = n.node_key in
    let timeout : classified_error r ≡ some ExecutionError.err_timeout = ground (arith, late) in
    let no_gate : asks_for_gate r.error ≡ false = ground (arith, late) in
    let run = settles w t n contract r op_key late.0 unrepeatable names in
    rw (no_gate, timeout) run.finish

-- An execution that cannot be replayed is not repeated. If executeNode ends without an error after the
-- controller's timer fired, as above, on a node that was not to be cancelled and whose contract is not
-- replayable, and a controller, the same or another, then recovers the node without an error,
-- encoding/json printing what both read back, the node waits for an operator and is not eligible.
pub settle_execution-recover_node :
    (desk : Desk) (t : Tx) (version digest : String) (n : Execution) (r : Report) (op_key : String)
    (s : Surroundings) (later : Writer) (config kind : String)
    → IsTimeout r
    → is_cancelling (status_before (node_at t.db desk.writer.run_id n.node_key)) ≡ false
    → NamesNode desk.writer.codec EventType.node_uncertain
        (desk.writer.print.doubt n.node_key n.attempt_no r.cause)
        n.node_key
    → PrintsRecovery s later n.node_key
    → later.run_id ≡ desk.writer.run_id
    → contract_for s config ≡ ok (kind, Contract.non_replayable)
    → (settle_execution desk t version digest n Contract.non_replayable r op_key).failure ≡ none
    → (recover_node s later
        (settle_execution desk t version digest n Contract.non_replayable r op_key).committed
        n.node_key
        config
        NodeStatus.uncertain).failure
      ≡ none
    → HasStatus later.run_id n.node_key NodeStatus.waiting
        (recover_node s later
          (settle_execution desk t version digest n Contract.non_replayable r op_key).committed
          n.node_key
          config
          NodeStatus.uncertain).committed.db
settle_execution-recover_node desk t version digest n r op_key s later config kind timeout free
      names prints same known settled recovered =
    let m = (settle_execution desk t version digest n Contract.non_replayable r op_key).committed in
    let before = status_before (node_at t.db desk.writer.run_id n.node_key) in
    let doubt =
      settle_execution-HasStatus desk t version digest n Contract.non_replayable r op_key timeout
        refl names settled in
    let is_uncertain : doubted before ≡ NodeStatus.uncertain = ground (arith, free) in
    let there : HasStatus later.run_id n.node_key NodeStatus.uncertain m.db =
      subst (λ x. HasStatus x n.node_key NodeStatus.uncertain m.db) (sym same)
        (subst (λ x. HasStatus desk.writer.run_id n.node_key x m.db) is_uncertain doubt) in
    (recover_node-RecoversFrom s later n.node_key prints m config kind Contract.non_replayable
        NodeStatus.uncertain known there recovered).1
      refl
