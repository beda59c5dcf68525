-- ===== src/Controller/Execution.antt =====
-- How an execution is settled: executeNode from the executor's answer on, and its treatment of a
-- router (internal/controller/engine.go). What the executor answered, whether the controller's timer
-- fired first and whether the context was cancelled are given. The messages of errors are texts.
pub mod Settled
use proceed.Base.{
  ℕ, String, Bool, true, false, not, ◌&&◌, ◌||◌, Option, none, some, List, [], ◌∷◌, Error, Result,
  ok, err, lease_lost, if◌then◌else◌, any_where,
}
use proceed.Store.Types.{Db, NodeStatus}
use proceed.Store.Nodes.{is_node_of, is_cancelling}
use proceed.Controller.Writer.{Writer, Tx, Progress, transact, and_then, continue}
use proceed.Controller.Outcomes.{
  ArtifactRef, ExecutorResult, Execution, append_artifacts, empty_result, cancelled_node, fail_node,
  uncertain_node, record_attempt_failure, commit_node_success,
}
use proceed.Controller.Recovery.{Contract}
use proceed.Controller.Approvals.{Desk}
use proceed.Controller.Approvals.Gates.{register_approval_gate}

-- the errors that errors.Is tells apart
pub data ExecutionError : Type 0 where
  err_wait_requested err_uncertain err_cancelled err_timeout other_error : ExecutionError

-- what executeNode knows when the executor has answered; `gate` is the scope and the expiry of the
-- node's gate, if its configuration has one
pub record Report : Type 0 where
  pub error : Option ExecutionError
  pub cause : String
  pub returned : Option ExecutorResult
  pub timed_out : Bool
  pub context_done : Bool
  pub lease_is_valid : Bool
  pub gate : Option (String × ℕ)

-- nodeCancelled
unfoldable pub node_cancelled : Db → String → String → Bool
node_cancelled db run_id key =
    any_where (λ n. is_node_of run_id key n && is_cancelling n.status) db.nodes

-- no error, or that of a cancellation
abbrev pub is_induced : Option ExecutionError → Bool
is_induced none = true
is_induced (some ExecutionError.err_cancelled) = true
is_induced (some _) = false

-- a cancellation that the controller's own timer brought about is a timeout
abbrev pub classified_error : Report → Option ExecutionError
classified_error r =
    if r.timed_out && is_induced r.error then some ExecutionError.err_timeout else r.error

-- the contracts whose effects cannot be repeated
abbrev pub is_unrepeatable : Contract → Bool
is_unrepeatable Contract.reconcilable = true
is_unrepeatable Contract.non_replayable = true
is_unrepeatable _ = false

-- resultArtifacts
abbrev pub result_artifacts : Option ExecutorResult → List ArtifactRef
result_artifacts none = []
result_artifacts (some r) = r.artifacts

-- persistArtifacts
unfoldable pub persist_artifacts : Writer → Tx → String → String → List ArtifactRef → Result Tx
persist_artifacts w t key op_key refs = append_artifacts w t key op_key refs

-- a failure, a cancellation by the context, or a timeout that leaves the effect open
unfoldable pub settle_failure : Writer → Execution → Contract → Report → Bool → Tx → Progress
settle_failure w n contract r is_timeout t =
    if not r.timed_out && r.context_done
    then transact t (cancelled_node w t n.node_key n.attempt_no)
    else if is_timeout && is_unrepeatable contract
    then uncertain_node w t n.node_key n.attempt_no r.cause
    else record_attempt_failure w t n r.cause

-- the branches on the error
unfoldable pub settle_error :
    Writer → Execution → Contract → Report → ExecutionError → Tx → Progress
settle_error w n contract r ExecutionError.err_uncertain t =
    uncertain_node w t n.node_key n.attempt_no r.cause
settle_error w n contract r ExecutionError.err_cancelled t =
    transact t (cancelled_node w t n.node_key n.attempt_no)
settle_error w n contract r ExecutionError.err_timeout t = settle_failure w n contract r true t
settle_error w n contract r _ t = settle_failure w n contract r false t

-- the end without an error
unfoldable pub settle_success :
    Writer → Tx → String → String → Execution → Report → String → Progress
settle_success w t version digest n r op_key =
    if not r.lease_is_valid
    then uncertain_node w t n.node_key n.attempt_no r.cause
    else if node_cancelled t.db w.run_id n.node_key
    then transact t (cancelled_node w t n.node_key n.attempt_no)
    else transact t (
        commit_node_success w t version digest n
          (some (elim r.returned [ none ↦ empty_result | some a ↦ a ])) op_key)

-- the error, if there is one
unfoldable pub settle_by :
    Writer
    → Tx
    → String
    → String
    → Execution
    → Contract
    → Report
    → String
    → Option ExecutionError
    → Progress
settle_by w t version digest n contract r op_key none = settle_success w t version digest n r op_key
settle_by w t version digest n contract r op_key (some e) =
    continue (transact t (persist_artifacts w t n.node_key op_key (result_artifacts r.returned)))
      (settle_error w n contract r e)

-- the gate that the executor asks for
unfoldable pub open_gate : Desk → Tx → Execution → Report → Progress
open_gate desk t n r = elim r.gate [
  | none ↦ transact t (fail_node desk.writer t n.node_key n.attempt_no r.cause)
  | some g ↦ transact t (register_approval_gate desk t n.node_key g.0 g.1)
]

abbrev pub asks_for_gate : Option ExecutionError → Bool
asks_for_gate (some ExecutionError.err_wait_requested) = true
asks_for_gate _ = false

-- executeNode, from the executor's answer on
unfoldable pub settle_execution :
    Desk → Tx → String → String → Execution → Contract → Report → String → Progress
settle_execution desk t version digest n contract r op_key =
    if asks_for_gate r.error
    then open_gate desk t n r
    else settle_by desk.writer t version digest n contract r op_key (classified_error r)

-- executeNode on a router that is claimed
unfoldable pub settle_router : Writer → Tx → String → String → Execution → Progress
settle_router w t version digest n =
    if node_cancelled t.db w.run_id n.node_key
    then transact t (cancelled_node w t n.node_key n.attempt_no)
    else transact t (commit_node_success w t version digest n (some empty_result) "")
