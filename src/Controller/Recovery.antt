-- ===== src/Controller/Recovery.antt =====
-- Recovering the nodes that a stopped controller left in flight: Recover and recoverNode
-- (internal/controller/recover.go), with recordReconciledEffect (internal/controller/effects.go).
-- What an executor answers to a reconciliation, and whether the parameters of a node can be filled
-- in, are parameters. Expiring waits and approvals, which Recover ends in, is left out.
pub mod Recovered
pub mod Contracts
use Prim.Native.String.{◌++◌ as str_append}
use proceed.Base.{
  ℕ, String, Bool, true, false, not, ◌&&◌, ◌||◌, Option, none, some, List, [], ◌∷◌, Error, Result,
  ok, err, run_not_found, no_rows, unclassified, ◌>>=◌, from_option, ltb, leb, str_eq, str_le,
  is_empty, one_of, if◌then◌else◌, any_where, find_where, select_where,
}
use proceed.Store.Types.{
  Db, EventType, GraphRun, GraphNode, RunNode, NodeStatus, NodeAttempt, Effect,
}
use proceed.Store.Nodes.{is_node_of}
use proceed.Store.Named.{node_at}
use proceed.Controller.Writer.{Writer, Tx, Progress, transact, and_then, continue, read_then, note}
use proceed.Controller.Outcomes.{
  Execution, ExecutorResult, requeued_node, waiting_node, cancelled_node, fail_node,
  commit_node_success,
}

-- executor.Contract
pub data Contract : Type 0 where
  pure idempotent reconcilable non_replayable : Contract

-- the fields of a node's configuration that are read here
pub record NodeConfig : Type 0 where
  pub kind : String
  pub contract : String

-- the answer of reconcileEffect: not able to, an error, or the state of the effect
pub data Reconciliation : Type 0 where
  not_reconcilable failed_to unknown rejected : Reconciliation
  confirmed : Option ExecutorResult → Reconciliation

-- The executors in the pool, encoding/json on a configuration and on the payloads made here (of an
-- attempt that is resumed, and of a reconciled effect), what interpolateNodeParams says of a node
-- (the error, if it fails), and what the executor of a node says of an attempt.
pub record Surroundings : Type 0 where
  pub has_executor : String → Bool
  pub read_config : String → Option NodeConfig
  pub resumed : String → ℕ → String
  pub reconciled : String → String → String → String
  pub interpolation_error : String → Option String
  pub reconcile : String → ℕ → Reconciliation

-- the switch of resolveExecutor
abbrev pub contract_of : String → Option Contract
contract_of s =
    if str_eq s "pure"
    then some Contract.pure
    else if str_eq s "idempotent"
    then some Contract.idempotent
    else if str_eq s "reconcilable"
    then some Contract.reconcilable
    else if str_eq s "non_replayable"
    then some Contract.non_replayable
    else none

-- resolveExecutor
unfoldable pub resolve_executor : Surroundings → NodeConfig → Result (String × Contract)
resolve_executor s cfg =
    if s.has_executor cfg.kind
    then (from_option unclassified (contract_of cfg.contract) >>= λ c. ok (cfg.kind, c))
    else err unclassified

-- parseNodeConfig and contractFor
unfoldable pub contract_for : Surroundings → String → Result (String × Contract)
unfolding resolve_executor
contract_for s config =
    from_option unclassified (s.read_config config) >>= λ cfg. resolve_executor s cfg

-- the JOIN of latestAttempt
abbrev pub is_attempt_at : Db → String → String → NodeAttempt → Bool
is_attempt_at db run_id key a =
    any_where (λ n. str_eq n.id a.run_node_id && is_node_of run_id key n) db.nodes

-- ORDER BY attempt_no DESC LIMIT 1
abbrev pub later_attempt : NodeAttempt → Option NodeAttempt → NodeAttempt
later_attempt a none = a
later_attempt a (some b) = if ltb a.attempt_no b.attempt_no then b else a

unfoldable pub last_attempt : (NodeAttempt → Bool) → List NodeAttempt → Option NodeAttempt
last_attempt p [] = none
last_attempt p (a ∷ rest) =
    let later = last_attempt p rest in if p a then some (later_attempt a later) else later

-- latestAttempt
unfoldable pub latest_attempt : Db → String → String → Result NodeAttempt
unfolding last_attempt
latest_attempt db run_id key =
    from_option no_rows (last_attempt (is_attempt_at db run_id key) db.attempts)

-- loadRun
unfoldable pub load_run : Db → String → Result GraphRun
load_run db run_id = from_option run_not_found (find_where (λ r. str_eq r.id run_id) db.runs)

-- nodeConfigForKey
unfoldable pub node_config_for_key : Db → String → String → String
node_config_for_key db version key =
    elim (find_where (λ n. str_eq n.graph_version_id version && str_eq n.node_key key)
      db.graph_nodes) [ none ↦ "" | some n ↦ n.config ]

-- nodeCancelRequested
unfoldable pub node_cancel_requested : Db → String → String → Bool
node_cancel_requested db run_id key =
    any_where
      (λ n.
        is_node_of run_id key n && elim n.status [ NodeStatus.cancel_requested ↦ true | _ ↦ false ])
      db.nodes

-- resumeIdempotentAttempt
unfoldable pub resume_idempotent_attempt : Surroundings → Writer → Tx → String → Result Tx
resume_idempotent_attempt s w t key = latest_attempt t.db w.run_id key >>= λ a.
    note w t EventType.node_requeued (s.resumed key a.attempt_no)

-- ORDER BY created_at DESC, id DESC LIMIT 1
abbrev pub later_effect : Effect → Option Effect → Effect
later_effect e none = e
later_effect e (some f) =
    if ltb e.created_at f.created_at || not (ltb f.created_at e.created_at) && str_le e.id f.id
    then f
    else e

unfoldable pub last_effect : (Effect → Bool) → List Effect → Option Effect
last_effect p [] = none
last_effect p (e ∷ es) =
    let rest = last_effect p es in if p e then some (later_effect e rest) else rest

-- the latest effect of an operation
unfoldable pub effect_of : Db → String → String → String → Option Effect
unfolding last_effect
effect_of db run_id key op_key =
    last_effect
      (λ e.
        any_where
          (λ a.
            str_eq a.id e.node_attempt_id
            && str_eq a.operation_key op_key
            && is_attempt_at db run_id key a)
          db.attempts)
      db.effects

-- its receipt, if there is one
unfoldable pub note_receipt :
    Surroundings → Writer → Tx → String → String → Option Effect → Result Tx
note_receipt s w t op_key status none = ok t
note_receipt s w t op_key status (some e) =
    note w t EventType.effect_receipt (s.reconciled e.id status op_key)

-- recordReconciledEffect
unfoldable pub record_reconciled_effect :
    Surroundings → Writer → Tx → String → String → String → Result Tx
unfolding effect_of
record_reconciled_effect s w t key op_key status =
    note_receipt s w t op_key status (effect_of t.db w.run_id key op_key)

-- interpolateNodeParams is called for two kinds of executor
abbrev pub interpolation : Surroundings → String → String → Option String
interpolation s kind key =
    if one_of kind ("shell" ∷ "http" ∷ []) then s.interpolation_error key else none

-- a node and the attempt that a reconciliation is about
abbrev pub execution_of : String → ℕ → Execution
execution_of key nr = record { node_key = key; attempt_no = nr; max_attempts = 0; backoff_ms = 0 }

-- the end of a reconciliation that says nothing: a node to be cancelled is left alone
unfoldable pub wait_unless_cancelled : Writer → Tx → String → Progress
wait_unless_cancelled w t key =
    if node_cancel_requested t.db w.run_id key
    then record { committed = t; failure = none }
    else transact t (waiting_node w t key)

-- the branches of reconcileNode on the answer
unfoldable pub reconcile_by :
    Surroundings → Writer → Tx → GraphRun → String → String → ℕ → Reconciliation → Progress
reconcile_by s w t run key op_key nr Reconciliation.not_reconcilable =
    transact t (waiting_node w t key)
reconcile_by s w t run key op_key nr Reconciliation.failed_to = wait_unless_cancelled w t key
reconcile_by s w t run key op_key nr Reconciliation.unknown = wait_unless_cancelled w t key
reconcile_by s w t run key op_key nr (Reconciliation.confirmed result) =
    and_then (transact t (record_reconciled_effect s w t key op_key "confirmed")) (λ t'.
      commit_node_success w t' run.graph_version_id run.definition_digest (execution_of key nr)
        result op_key)
reconcile_by s w t run key op_key nr Reconciliation.rejected =
    and_then (transact t (record_reconciled_effect s w t key op_key "rejected")) (λ t'.
      if node_cancel_requested t'.db w.run_id key
      then cancelled_node w t' key nr
      else requeued_node w t' key nr)

-- reconcileNode after its first event; that the pool has the executor is checked with the contract
unfoldable pub reconcile_started : Surroundings → Writer → String → Tx → Progress
reconcile_started s w key t = read_then t (load_run t.db w.run_id) λ run.
    read_then t (latest_attempt t.db w.run_id key) λ a.
      read_then t (contract_for s (node_config_for_key t.db run.graph_version_id key)) λ c.
        elim (interpolation s c.0 key) [
          | some cause ↦ transact t (fail_node w t key a.attempt_no cause)
          | none ↦
              reconcile_by s w t run key a.operation_key a.attempt_no (s.reconcile key a.attempt_no)
        ]

-- reconcileNode
unfoldable pub reconcile_node : Surroundings → Writer → Tx → String → Progress
reconcile_node s w t key =
    continue (transact t (note w t EventType.node_reconciling (w.codec.marshal_node key)))
      (reconcile_started s w key)

-- the branches of reconcileCancelledNode on the answer
unfoldable pub cancel_by :
    Surroundings → Writer → Tx → String → String → ℕ → Reconciliation → Progress
cancel_by s w t key op_key nr Reconciliation.not_reconcilable = transact t (waiting_node w t key)
cancel_by s w t key op_key nr Reconciliation.failed_to = wait_unless_cancelled w t key
cancel_by s w t key op_key nr Reconciliation.unknown = wait_unless_cancelled w t key
cancel_by s w t key op_key nr (Reconciliation.confirmed result) =
    and_then (transact t (record_reconciled_effect s w t key op_key "confirmed"))
      (λ t'. cancelled_node w t' key nr)
cancel_by s w t key op_key nr Reconciliation.rejected = transact t (cancelled_node w t key nr)

-- where the parameters could be filled in, or the error
unfoldable pub cancel_if_filled :
    Surroundings → Writer → Tx → String → String → ℕ → Option String → Progress
cancel_if_filled s w t key op_key nr (some cause) = transact t (fail_node w t key nr cause)
cancel_if_filled s w t key op_key nr none = cancel_by s w t key op_key nr (s.reconcile key nr)

-- reconcileCancelledNode; the attempt of before is the one that is stored, unless that is numbered 0
unfoldable pub reconcile_cancelled_node : Surroundings → Writer → Tx → String → ℕ → Progress
reconcile_cancelled_node s w t key nr = read_then t (load_run t.db w.run_id) λ run.
    read_then t (latest_attempt t.db w.run_id key) λ a.
      let known = if ltb 0 a.attempt_no then a.attempt_no else nr in
      read_then t (contract_for s (node_config_for_key t.db run.graph_version_id key))
        λ c. cancel_if_filled s w t key a.operation_key known (interpolation s c.0 key)

-- the switch of recoverCancelledNode
unfoldable pub cancel_under : Surroundings → Writer → Tx → String → ℕ → Contract → Progress
cancel_under s w t key nr Contract.pure = transact t (cancelled_node w t key nr)
cancel_under s w t key nr Contract.reconcilable = reconcile_cancelled_node s w t key nr
cancel_under s w t key nr _ = transact t (waiting_node w t key)

-- recoverCancelledNode
unfoldable pub recover_cancelled_node : Surroundings → Writer → Tx → String → Contract → Progress
recover_cancelled_node s w t key contract =
    read_then t (latest_attempt t.db w.run_id key) λ a. cancel_under s w t key a.attempt_no contract

-- the switch of recoverNode
unfoldable pub recover_by : Surroundings → Writer → Tx → String → Contract → Progress
recover_by s w t key Contract.pure = transact t (requeued_node w t key 0)
recover_by s w t key Contract.idempotent = transact t (resume_idempotent_attempt s w t key)
recover_by s w t key Contract.reconcilable = reconcile_node s w t key
recover_by s w t key Contract.non_replayable = transact t (waiting_node w t key)

-- the test on the status in recoverNode
unfoldable pub recover_under :
    Surroundings → Writer → Tx → String → Contract → NodeStatus → Progress
recover_under s w t key contract NodeStatus.cancel_requested =
    recover_cancelled_node s w t key contract
recover_under s w t key contract _ = recover_by s w t key contract

-- recoverNode
unfoldable pub recover_node : Surroundings → Writer → Tx → String → String → NodeStatus → Progress
recover_node s w t key config status =
    read_then t (contract_for s config) λ c. recover_under s w t key c.1 status

-- status IN ('uncertain', 'leased', 'running', 'reconciling', 'cancel_requested')
abbrev pub is_in_flight : NodeStatus → Bool
is_in_flight NodeStatus.uncertain = true
is_in_flight NodeStatus.leased = true
is_in_flight NodeStatus.running = true
is_in_flight NodeStatus.reconciling = true
is_in_flight NodeStatus.cancel_requested = true
is_in_flight _ = false

-- `u.expiry.Valid && u.expiry.Int64 > nowMs`, of the node's latest attempt
abbrev pub is_leased_after : ℕ → Option NodeAttempt → Bool
is_leased_after now none = false
is_leased_after now (some a) = elim a.lease_expires_at [ none ↦ false | some e ↦ ltb now e ]

abbrev pub is_leased : Db → ℕ → RunNode → Bool
is_leased db now n = is_leased_after now (last_attempt (λ a. str_eq a.run_node_id n.id) db.attempts)

-- the configuration of a node that is to be recovered
unfoldable pub candidate_config : Db → String → String → RunNode → Option String
candidate_config db run_id version n =
    if str_eq n.run_id run_id && is_in_flight n.status
    then (elim (find_where (λ g. str_eq g.graph_version_id version && str_eq g.node_key n.node_key)
        db.graph_nodes) [ none ↦ none | some g ↦ some g.config ])
    else none

-- the loop of Recover, on the rows and leases of its query
unfoldable pub recover_each :
    Surroundings → Writer → Db → ℕ → String → Progress → List RunNode → Progress
unfolding last_attempt
recover_each s w read now version p [] = p
recover_each s w read now version p (n ∷ ns) =
    let next : Progress = elim (candidate_config read w.run_id version n) [
      | none ↦ p
      | some config ↦
          if is_leased read now n
          then p
          else continue p λ t. recover_node s w t n.node_key config n.status
    ] in
    recover_each s w read now version next ns

-- Recover, up to the expiries
unfoldable pub recover : Surroundings → Writer → Tx → Progress
recover s w t = elim (find_where (λ r. str_eq r.id w.run_id) t.db.runs) [
  | none ↦ record { committed = t; failure = none }
  | some run ↦
      recover_each s w t.db w.at run.graph_version_id (record { committed = t; failure = none })
        t.db.nodes
]
