-- ===== src/Samples/Outcomes.antt =====
-- The theorems on the outcomes of a node, at a node with a release edge and two conditional routes.
use Prim.Native.String.{◌++◌ as str_append}
use proceed.Base.{
  ℕ, zero, suc, String, true, some, none, [], ◌∷◌, ◌≡◌, refl, ok, any_where, find_where, max_where,
  update_where, select_where,
}
use proceed.Store.Types.{NodeStatus, GraphEdge}
use proceed.Store.Payload.{Codec, NodeTerminalPayload, EdgeTraversedPayload}
use proceed.Store.Nodes.{run_node_id, insert_node, ensure_run_node, derived_node_id, insert_attempt}
use proceed.Store.Ended.{
  ensure_attempt, close_attempt, latest_attempt_no, close_attempts, on_node_terminal,
}
use proceed.Store.Moved.{
  on_node_skipped, cancel_attempt, on_node_cancelled, requeue, on_node_requeued, fail_attempt,
  on_node_attempt_failed,
}
use proceed.Store.Runs.{insert_edge, on_edge_traversed}
use proceed.Store.Evidence.{insert_decision, record_links, on_decision_recorded}
use proceed.Store.Projection.{handle, apply_projections}
use proceed.Store.Log.{
  validate, is_malformed, is_duplicate, max_sequence, insert_event, append_event_tx, append_tx,
}
use proceed.Store.Named.{node_at, HasStatus}
use proceed.Store.Named.Events.{named_key}
use proceed.Controller.Writer.{Printer, Writer, Tx, append_within, note, note_at}
use proceed.Controller.Routing.{
  by_id, insert_by_id, edges_from, traverse_one, traverse_edges, distinct_targets,
  only_incoming_routes, skippable, skip_nodes,
}
use proceed.Controller.Routing.Decisions.{
  artifact_ids, node_artifact_refs, append_decision_event, decide_edges, blocked_targets,
  record_routing_decision,
}
use proceed.Controller.Routing.Eligibility.{
  dependencies, all_done, is_decided, node_produced_evidence, latest_of, latest_node_finished_event,
  release_attribution, release_links, release_inputs, record_one_eligibility, record_eligibilities,
  record_eligibility_decisions,
}
use proceed.Controller.Routing.Routes.{route_edges, route_from}
use proceed.Controller.Outcomes.{
  ExecutorResult, Execution, append_artifacts, append_end, finish_with, succeed, commit_at,
  status_of, commit_node_success, fail_node, append_node_transition, requeued_node,
  record_attempt_failure,
}
use proceed.Controller.Outcomes.Commit.{
  Succeeds, Stays, commit_node_success-Succeeds, commit_node_success_late,
}
use proceed.Controller.Outcomes.Retry.{record_attempt_failure-HasStatus}
use proceed.Samples.{codec, with_step, from_ok}

abbrev pub key_payload : String → NodeTerminalPayload
key_payload s = record {
  node_key = s;
  attempt_no = 0;
  executor = "";
  side_effect_contract = "";
  operation_key = "";
  result = "";
}

abbrev pub edge_payload : String → EdgeTraversedPayload
edge_payload s = record { edge_id = s; route = ""; sequence_in_run = 0 }

-- the payloads of nodes and of edges are their keys
abbrev pub keyed : Codec
keyed = record codec {
  marshal_node = λ key. key;
  marshal_claim = λ key nr. key;
  node_terminal = λ s. some (key_payload s);
  node_requeued = λ s. some (record { node_key = s; attempt_no = 1; resume_attempt = true });
  edge_traversed = λ s. some (edge_payload s);
  decision_recorded = λ s. some (record {
    node_key = "step";
    kind = "routing";
    candidate_edges = [];
    selected_edge_id = "";
    rejection = "";
    predicate_snapshot = "";
    input_references = "";
    policy_version = "d1";
    causal_links = [];
  });
}

abbrev pub printer : Printer
printer = record {
  result = λ key nr output route. key;
  passed = λ id. id;
  routed = λ id route. id;
  artifact = λ p. "artifact";
  decision = λ p. "decision";
  snapshot = λ s. "{}";
  failure = λ key nr cause. key;
  retry = λ key nr delay cause. key;
  doubt = λ key nr reason. key;
  rejection = λ key nr kind contract op cause. key;
  receipt = λ id status. id;
  node_key_of = λ s. some s;
}

abbrev pub unary : ℕ → String
unary zero = "s"
unary (suc i) = str_append "s" (unary i)

abbrev pub writer : Writer
writer = record {
  codec = keyed;
  print = printer;
  at = 20;
  now = 20;
  stamps = λ i. record { id = unary i; key = unary i };
  owner = "alice";
  run_id = "run";
}

abbrev pub edge_to : String → String → String → GraphEdge
edge_to id target type = record {
  id = id;
  graph_version_id = "v1";
  from_node_key = "step";
  to_node_key = target;
  type = type;
  condition = none;
}

abbrev pub forked : NodeStatus → Tx
forked s = record {
  db = record (with_step s) {
    graph_edges =
        edge_to "g1" "after" "depends_on"
        ∷ record (edge_to "g2" "left" "routes_to") { condition = some "l" }
        ∷ record (edge_to "g3" "right" "routes_to") { condition = some "r" }
        ∷ [];
  };
  drawn = 0;
}

abbrev pub execution : Execution
execution = record { node_key = "step"; attempt_no = 1; max_attempts = 2; backoff_ms = 5 }

abbrev pub went_left : ExecutorResult
went_left = record { output = "{}"; route = "l"; artifacts = [] }

abbrev ended : Tx
ended = from_ok (forked NodeStatus.running) (
    commit_node_success writer (forked NodeStatus.running) "v1" "d1" execution (some went_left)
      "op")

commits :
    commit_node_success writer (forked NodeStatus.running) "v1" "d1" execution (some went_left) "op"
    ≡ ok ended
unfolding commit_node_success status_of node_at commit_at succeed finish_with append_artifacts
    append_end note_at note append_within append_tx validate is_malformed append_event_tx
    is_duplicate max_sequence max_where insert_event apply_projections handle on_node_terminal
    ensure_run_node run_node_id insert_node derived_node_id close_attempts close_attempt
    latest_attempt_no ensure_attempt insert_attempt find_where any_where update_where select_where
    route_from route_edges edges_from by_id insert_by_id traverse_edges traverse_one
    on_edge_traversed insert_edge skippable distinct_targets only_incoming_routes skip_nodes
    on_node_skipped record_routing_decision node_artifact_refs artifact_ids blocked_targets
    decide_edges append_decision_event on_decision_recorded insert_decision record_links
    record_eligibility_decisions record_eligibilities record_one_eligibility dependencies all_done
    is_decided release_links release_attribution node_produced_evidence latest_node_finished_event
    latest_of release_inputs
commits = refl

reads_end : status_of (forked NodeStatus.running).db "run" "step" ≡ ok NodeStatus.running
unfolding status_of node_at find_where
reads_end = refl

commit_node_success-Succeeds_example :
    Succeeds writer execution (some went_left) "op" "v1" (forked NodeStatus.running) ended
unfolding named_key
commit_node_success-Succeeds_example =
    commit_node_success-Succeeds writer execution (some went_left) "op" (forked NodeStatus.running)
      "v1" "d1" NodeStatus.running ended (λ key. (key, key_payload key, refl, refl, refl))
      (record {
        passed = λ id. (id, edge_payload id, refl, refl, refl);
        routed = λ id route. (id, edge_payload id, refl, refl, refl);
      })
      ("step", refl, refl) tt reads_end refl commits

abbrev stopped : Tx
stopped = from_ok (forked NodeStatus.cancel_requested) (
    commit_node_success writer (forked NodeStatus.cancel_requested) "v1" "d1" execution
      (some went_left) "op")

comes_late :
    commit_node_success writer
      (forked NodeStatus.cancel_requested)
      "v1"
      "d1"
      execution
      (some went_left)
      "op"
    ≡ ok stopped
unfolding commit_node_success status_of node_at commit_at finish_with append_artifacts append_end
    note_at append_within append_tx validate is_malformed append_event_tx is_duplicate max_sequence
    max_where insert_event apply_projections handle on_node_cancelled ensure_run_node run_node_id
    cancel_attempt find_where any_where update_where
comes_late = refl

reads_request :
    status_of (forked NodeStatus.cancel_requested).db "run" "step" ≡ ok NodeStatus.cancel_requested
unfolding status_of node_at find_where
reads_request = refl

commit_node_success_late_example :
    Stays writer execution
      (some went_left)
      "op"
      NodeStatus.cancel_requested
      (forked NodeStatus.cancel_requested)
      stopped
unfolding named_key
commit_node_success_late_example =
    commit_node_success_late writer execution (some went_left) "op"
      (forked NodeStatus.cancel_requested) "v1" "d1" NodeStatus.cancel_requested stopped
      ("step", refl, refl) reads_request refl comes_late

abbrev retried : Tx
retried = (record_attempt_failure writer (forked NodeStatus.running) execution "boom").committed

fails :
    record_attempt_failure writer (forked NodeStatus.running) execution "boom"
    ≡ record { committed = retried; failure = none }
unfolding record_attempt_failure fail_node requeued_node append_node_transition status_of node_at
    note append_within append_tx validate is_malformed append_event_tx is_duplicate max_sequence
    max_where insert_event apply_projections handle on_node_attempt_failed fail_attempt
    on_node_requeued requeue ensure_run_node run_node_id find_where any_where update_where
fails = refl

record_attempt_failure-HasStatus_example : HasStatus "run" "step" NodeStatus.eligible retried.db
unfolding node_at find_where named_key
record_attempt_failure-HasStatus_example =
    record_attempt_failure-HasStatus writer (forked NodeStatus.running) execution "boom" retried
      (record {
        failure = ("step", refl, refl);
        retry = ("step", refl, refl);
        requeued = ("step", refl, refl);
      })
      fails
