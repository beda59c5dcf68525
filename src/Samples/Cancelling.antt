-- ===== src/Samples/Cancelling.antt =====
-- The theorem on cancelling a run, at a run whose one node waits.
use proceed.Base.{
  ℕ, some, ◌≡◌, refl, ok, any_where, find_where, count_where, max_where, update_where, select_where,
}
use proceed.Store.Types.{Db, NodeStatus}
use proceed.Store.Payload.{Codec}
use proceed.Store.Nodes.{run_node_id, ensure_run_node}
use proceed.Store.Runs.{find_run, finish_run, insert_anchor, insert_outcome, on_run_terminal}
use proceed.Store.Moved.{cancel_attempt, on_node_cancelled}
use proceed.Store.Projection.{handle, apply_projections}
use proceed.Store.Log.{
  validate, is_malformed, is_duplicate, max_sequence, insert_event, append_event_tx, append_tx,
}
use proceed.Store.Named.{node_at}
use proceed.Controller.Cancel.{
  Stamp, append_event, cancellations, not_started, append_nodes, append_waits, cancel_if_idle,
  cancel_all,
}
use proceed.Controller.Cancel.Appended.{IsStopped}
use proceed.Controller.Cancel.Stopped.{cancel_all-IsStopped}
use proceed.Samples.{codec, with_step, step_row, from_ok}

-- a node's payload is its key
abbrev plain : Codec
plain = record codec {
  marshal_node = λ key. key;
  node_terminal = λ s. some (record {
    node_key = s;
    attempt_no = 0;
    executor = "";
    side_effect_contract = "";
    operation_key = "";
    result = "";
  });
}

abbrev stamps : ℕ → Stamp
stamps i = elim i [
  | ℕ.zero ↦ record { id = "e8"; key = "k8" }
  | _ ↦ record { id = "e9"; key = "k9" }
]

abbrev waiting : Db
waiting = with_step NodeStatus.waiting

abbrev cancelled : Db
cancelled = from_ok waiting (cancel_all plain 20 stamps "alice" waiting "run" "v1")

cancels_all : cancel_all plain 20 stamps "alice" waiting "run" "v1" ≡ ok cancelled
unfolding cancel_all cancellations not_started append_nodes append_waits cancel_if_idle append_event
    select_where count_where append_tx validate is_malformed append_event_tx is_duplicate
    max_sequence max_where insert_event apply_projections handle on_node_cancelled ensure_run_node
    run_node_id cancel_attempt find_where any_where update_where on_run_terminal find_run finish_run
    insert_anchor insert_outcome
cancels_all = refl

at_step : node_at waiting "run" "step" ≡ some (step_row NodeStatus.waiting)
unfolding node_at find_where
at_step = refl

cancel_all-IsStopped_example : IsStopped "run" "step" cancelled
cancel_all-IsStopped_example =
    cancel_all-IsStopped plain 20 stamps "alice" waiting "run" "v1" "step"
      (step_row NodeStatus.waiting) cancelled
      (λ key. (
        key,
        record {
          node_key = key;
          attempt_no = 0;
          executor = "";
          side_effect_contract = "";
          operation_key = "";
          result = "";
        },
        refl,
        refl,
        refl,
      ))
      at_step cancels_all
