-- ===== src/Samples/Recovering.antt =====
-- The theorems on executions that time out and on recovery, at a node with one attempt.
use proceed.Base.{
  true, some, none, [], ◌∷◌, ◌≡◌, refl, ok, any_where, find_where, max_where, update_where,
}
use proceed.Store.Types.{NodeStatus, AttemptStatus}
use proceed.Store.Nodes.{run_node_id, ensure_run_node, insert_attempt}
use proceed.Store.Ended.{ensure_attempt, close_attempt, close_attempts, on_node_terminal}
use proceed.Store.Moved.{on_node_waiting, on_node_requeued, requeue}
use proceed.Store.Projection.{handle, apply_projections}
use proceed.Store.Log.{
  validate, is_malformed, is_duplicate, max_sequence, insert_event, append_event_tx, append_tx,
}
use proceed.Store.Named.{node_at, HasStatus}
use proceed.Store.Named.Events.{named_key}
use proceed.Controller.Writer.{Writer, Tx, append_within, note}
use proceed.Controller.Outcomes.{
  append_artifacts, status_of, append_node_transition, waiting_node, pending_effects,
  mark_effects_unknown, uncertain_node,
}
use proceed.Controller.Recovery.{
  Surroundings, Contract, Reconciliation, resolve_executor, contract_for, last_attempt,
  latest_attempt, resume_idempotent_attempt, recover_by, recover_under, recover_node,
}
use proceed.Controller.Recovery.Recovered.{PrintsRecovery}
use proceed.Controller.Recovery.Contracts.{RecoversFrom, recover_node-RecoversFrom}
use proceed.Controller.Execution.{
  Report, persist_artifacts, settle_failure, settle_error, settle_by, settle_execution,
}
use proceed.Controller.Execution.Settled.{settle_execution-HasStatus, settle_execution-recover_node}
use proceed.Samples.Outcomes.{forked, execution}
use proceed.Samples.Approvals.{desk}

-- a configuration is the name of its contract
abbrev surroundings : Surroundings
surroundings = record {
  has_executor = λ kind. true;
  read_config = λ s. some (record { kind = "shell"; contract = s });
  resumed = λ key nr. key;
  reconciled = λ id status op. id;
  interpolation_error = λ key. none;
  reconcile = λ key nr. Reconciliation.unknown;
}

abbrev report : Report
report = record {
  error = none;
  cause = "timeout";
  returned = none;
  timed_out = true;
  context_done = true;
  lease_is_valid = true;
  gate = none;
}

-- the writer of a later controller, whose stamps are others
abbrev later : Writer
later = record desk.writer { stamps = λ i. record { id = "z"; key = "z" } }

prints : PrintsRecovery surroundings later "step"
unfolding named_key
prints = record {
  requeued = ("step", refl, refl);
  resumed = λ nr. ("step", refl, refl);
  waiting = ("step", refl, refl);
  cancelled = λ nr. ("step", refl, refl);
  failure = λ nr cause. ("step", refl, refl);
}

times_out :
    (settle_execution desk
      (forked NodeStatus.running)
      "v1"
      "d1"
      execution
      Contract.non_replayable
      report
      "op").failure
    ≡ none
unfolding settle_execution settle_by settle_error settle_failure persist_artifacts append_artifacts
    uncertain_node mark_effects_unknown pending_effects note append_within append_tx validate
    is_malformed append_event_tx is_duplicate max_sequence max_where insert_event apply_projections
    handle on_node_terminal ensure_run_node run_node_id close_attempts close_attempt ensure_attempt
    insert_attempt find_where any_where update_where
times_out = refl

settle_execution-HasStatus_example :
    HasStatus "run" "step" NodeStatus.uncertain
      (settle_execution desk
        (forked NodeStatus.running)
        "v1"
        "d1"
        execution
        Contract.non_replayable
        report
        "op").committed.db
unfolding node_at find_where named_key
settle_execution-HasStatus_example =
    settle_execution-HasStatus desk (forked NodeStatus.running) "v1" "d1" execution
      Contract.non_replayable report "op" (refl, refl) refl ("step", refl, refl) times_out

abbrev timed : Tx
timed =
    (settle_execution desk (forked NodeStatus.running) "v1" "d1" execution Contract.non_replayable
      report "op").committed

contract_known : contract_for surroundings "non_replayable" ≡ ok ("shell", Contract.non_replayable)
unfolding contract_for resolve_executor
contract_known = refl

recovers :
    (recover_node surroundings later timed "step" "non_replayable" NodeStatus.uncertain).failure
    ≡ none
unfolding recover_node contract_for resolve_executor recover_under recover_by waiting_node
    append_node_transition status_of node_at settle_execution settle_by settle_error settle_failure
    persist_artifacts append_artifacts uncertain_node mark_effects_unknown pending_effects note
    append_within append_tx validate is_malformed append_event_tx is_duplicate max_sequence
    max_where insert_event apply_projections handle on_node_terminal on_node_waiting ensure_run_node
    run_node_id close_attempts close_attempt ensure_attempt insert_attempt find_where any_where
    update_where
recovers = refl

settle_execution-recover_node_example :
    HasStatus "run" "step" NodeStatus.waiting
      (recover_node surroundings later timed "step" "non_replayable"
        NodeStatus.uncertain).committed.db
unfolding node_at find_where named_key
settle_execution-recover_node_example =
    settle_execution-recover_node desk (forked NodeStatus.running) "v1" "d1" execution report "op"
      surroundings later "non_replayable" "shell" (refl, refl) refl ("step", refl, refl) prints refl
      contract_known times_out recovers

-- an execution that is recovered once it may be sent again
abbrev attempted : Tx
attempted = record (forked NodeStatus.running) {
  db = record (forked NodeStatus.running).db {
    attempts =
        record {
          id = "a1";
          run_node_id = "n1";
          attempt_no = 1;
          operation_key = "op";
          executor = "shell";
          side_effect_contract = "idempotent";
          lease_token = none;
          lease_expires_at = none;
          status = AttemptStatus.running;
          result = none;
          started_at = some 10;
          finished_at = none;
        }
        ∷ [];
  };
}

resumes :
    (recover_node surroundings later attempted "step" "idempotent" NodeStatus.running).failure
    ≡ none
unfolding recover_node contract_for resolve_executor recover_under recover_by
    resume_idempotent_attempt latest_attempt last_attempt note append_within append_tx validate
    is_malformed append_event_tx is_duplicate max_sequence max_where insert_event apply_projections
    handle on_node_requeued requeue ensure_run_node run_node_id find_where any_where update_where
resumes = refl

knows : contract_for surroundings "idempotent" ≡ ok ("shell", Contract.idempotent)
unfolding contract_for resolve_executor
knows = refl

has_row : HasStatus "run" "step" NodeStatus.running attempted.db
unfolding node_at find_where
has_row = record { row = _; found = refl; status = refl }

recover_node-RecoversFrom_example :
    RecoversFrom surroundings later "step" prints Contract.idempotent NodeStatus.running
      (recover_node surroundings later attempted "step" "idempotent" NodeStatus.running).committed
recover_node-RecoversFrom_example =
    recover_node-RecoversFrom surroundings later "step" prints attempted "idempotent" "shell"
      Contract.idempotent NodeStatus.running knows has_row resumes
