-- ===== src/Samples/Approvals.antt =====
-- The theorems on approvals, at a gate with a release edge and two conditional routes.
use proceed.Base.{
  true, false, some, none, [], ◌∷◌, ◌≡◌, refl, ok, any_where, find_where, max_where, update_where,
  select_where, Extends-refl,
}
use proceed.Store.Types.{EventType, NodeStatus, Approval, Decision}
use proceed.Store.Payload.{ApprovalDecidedPayload}
use proceed.Store.Nodes.{run_node_id, insert_node, ensure_run_node, derived_node_id, insert_attempt}
use proceed.Store.Ended.{
  ensure_attempt, close_attempt, latest_attempt_no, close_attempts, on_node_terminal,
}
use proceed.Store.Moved.{on_node_skipped}
use proceed.Store.Runs.{find_run, insert_edge, on_edge_traversed}
use proceed.Store.Evidence.{
  insert_decision, record_links, on_decision_recorded, on_approval_decided,
}
use proceed.Store.Projection.{handle, apply_projections}
use proceed.Store.Log.{
  validate, is_malformed, is_duplicate, max_sequence, insert_event, append_event_tx, append_tx,
}
use proceed.Store.Named.Events.{named_key}
use proceed.Controller.Text.{has_control_chars}
use proceed.Controller.Writer.{Tx, append_within, note}
use proceed.Controller.Routing.{
  by_id, insert_by_id, edges_from, traverse_one, traverse_edges, distinct_targets,
  only_incoming_routes, skippable, skip_nodes,
}
use proceed.Controller.Routing.Decisions.{
  artifact_ids, node_artifact_refs, append_decision_event, decide_edges, blocked_targets,
  record_routing_decision,
}
use proceed.Controller.Routing.Eligibility.{
  dependencies, all_done, is_decided, node_produced_evidence, latest_of, latest_node_finished_event,
  release_attribution, release_links, release_inputs, record_one_eligibility, record_eligibilities,
  record_eligibility_decisions,
}
use proceed.Controller.Routing.Routes.{route_edges, route_from}
use proceed.Controller.Approvals.{
  Desk, ApprovalDecisionRequest, ApprovalDecisionResult, ApprovalCode, approval_at, event_with_key,
  is_acceptable, is_bounded_text, is_expired, route_among, decided_route, end_node_of, end_decided,
  apply_decision, decide_bound, decide_new, decide_found, decide_on, decide_approval, not_found,
  node_key_for_id,
}
use proceed.Controller.Approvals.Unchanged.{decide_approval_unchanged}
use proceed.Controller.Approvals.Once.{decide_approval_once, original_answer}
use proceed.Controller.Approvals.Decided.{Accepts, decide_approval-Accepts}
use proceed.Samples.Outcomes.{keyed, writer, forked, key_payload, edge_payload}
use proceed.Samples.{from_ok}

abbrev pub verdict : ApprovalDecidedPayload
verdict = record { approval_id = "ap"; decided_by = "bob"; decision_idempotency_key = "k" }

abbrev pub desk : Desk
desk = record {
  writer = record writer { codec = record keyed { approval_decided = λ s. some verdict } };
  papers = record {
    decided = λ id key actor idem reason. "verdict";
    output = λ decision actor reason. "{}";
    denial = λ key nr output. key;
    lapse = λ id key. "lapse";
    routed_end = λ key nr route. key;
    request = λ key action evidence scope expiry. "request";
    action = λ key scope. "{}";
  };
  sensitive = λ s. false;
}

abbrev asked : Approval
asked = record {
  id = "ap";
  run_id = "run";
  run_node_id = "n1";
  graph_version_id = "v1";
  requested_action = "{}";
  evidence_references = "[]";
  required_scope = "team";
  expires_at = 100;
  decision = none;
  decided_by = none;
  decided_at = none;
  decision_idempotency_key = none;
  created_at = 10;
}

abbrev gated : Tx
gated = record (forked NodeStatus.waiting) {
  db = record (forked NodeStatus.waiting).db {
    approvals = asked ∷ [];
    events =
        record {
          event_id = "ap";
          run_id = "run";
          sequence = 1;
          schema_version = "proceed/v1";
          type = EventType.approval_requested;
          occurred_at = 10;
          recorded_at = 10;
          actor_type = "controller";
          actor_id = "alice";
          causation_id = "";
          correlation_id = "";
          idempotency_key = "asked";
          payload_digest = "";
          payload = "request";
        }
        ∷ [];
  };
}

abbrev grant : ApprovalDecisionRequest
grant = record {
  approval_id = "ap";
  run_id = "";
  decision = "grant";
  actor = "bob";
  idempotency_key = "k";
  reason = "";
}

abbrev accepted : ApprovalDecisionResult
accepted = record {
  code = ApprovalCode.approval_decided;
  http_status = 202;
  approval_id = "ap";
  run_id = "run";
  node_key = "step";
  decision = "grant";
  actor = "bob";
}

abbrev granted : ApprovalDecisionResult × Tx
granted = from_ok (accepted, gated) (decide_approval desk gated grant)

grants : decide_approval desk gated grant ≡ ok (accepted, granted.1)
unfolding decide_approval decide_on decide_found decide_new decide_bound apply_decision end_decided
    end_node_of decided_route route_among approval_at event_with_key is_acceptable is_bounded_text
    has_control_chars is_expired find_run on_approval_decided append_within append_tx validate
    is_malformed append_event_tx is_duplicate max_sequence max_where insert_event apply_projections
    handle on_node_terminal ensure_run_node run_node_id insert_node derived_node_id close_attempts
    close_attempt latest_attempt_no ensure_attempt insert_attempt find_where any_where update_where
    select_where route_from route_edges edges_from by_id insert_by_id traverse_edges traverse_one
    on_edge_traversed insert_edge skippable distinct_targets only_incoming_routes skip_nodes
    on_node_skipped note record_routing_decision node_artifact_refs artifact_ids blocked_targets
    decide_edges append_decision_event on_decision_recorded insert_decision record_links
    record_eligibility_decisions record_eligibilities record_one_eligibility dependencies all_done
    is_decided release_links release_attribution node_produced_evidence latest_node_finished_event
    latest_of release_inputs
grants = refl

asks : approval_at gated.db "ap" ≡ some asked
unfolding approval_at find_where
asks = refl

decide_approval-Accepts_example :
    Accepts desk "run" (node_key_for_id gated.db "n1") gated grant asked (accepted, granted.1)
unfolding named_key find_where
decide_approval-Accepts_example =
    decide_approval-Accepts desk (λ key. (key, key_payload key, refl, refl, refl))
      (record {
        passed = λ id. (id, edge_payload id, refl, refl, refl);
        routed = λ id route. (id, edge_payload id, refl, refl, refl);
      })
      (record {
        finished = λ key output route nr. (key, refl, refl);
        failed = λ key output nr. (key, refl, refl);
      })
      gated grant asked accepted granted.1 tt asks grants

-- a denial of the same approval under the same key, sent later
abbrev denial : ApprovalDecisionRequest
denial = record grant { decision = "deny"; actor = "eve" }

abbrev settled : Approval
settled = record asked {
  decision = some Decision.grant;
  decided_by = some "bob";
  decided_at = some 20;
  decision_idempotency_key = some "k";
}

is_settled : approval_at granted.1.db "ap" ≡ some settled
unfolding approval_at find_where any_where update_where decide_approval decide_on decide_found
    decide_new decide_bound apply_decision end_decided end_node_of decided_route route_among
    event_with_key is_acceptable is_bounded_text has_control_chars is_expired find_run
    on_approval_decided append_within append_tx validate is_malformed append_event_tx is_duplicate
    max_sequence max_where insert_event apply_projections handle on_node_terminal ensure_run_node
    run_node_id insert_node derived_node_id close_attempts close_attempt latest_attempt_no
    ensure_attempt insert_attempt select_where route_from route_edges edges_from by_id insert_by_id
    traverse_edges traverse_one on_edge_traversed insert_edge skippable distinct_targets
    only_incoming_routes skip_nodes on_node_skipped note record_routing_decision node_artifact_refs
    artifact_ids blocked_targets decide_edges append_decision_event on_decision_recorded
    insert_decision record_links record_eligibility_decisions record_eligibilities
    record_one_eligibility dependencies all_done is_decided release_links release_attribution
    node_produced_evidence latest_node_finished_event latest_of release_inputs
is_settled = refl

is_fine : is_acceptable desk denial ≡ true
unfolding is_acceptable is_bounded_text has_control_chars
is_fine = refl

-- another controller, after the approval's time is over
abbrev late_desk : Desk
late_desk = record desk { writer = record desk.writer { at = 900; now = 900; owner = "bob" } }

late_is_fine : is_acceptable late_desk denial ≡ true
unfolding is_acceptable is_bounded_text has_control_chars
late_is_fine = refl

decide_approval_once_example :
    decide_approval late_desk granted.1 denial
    ≡ ok (original_answer grant denial settled (node_key_for_id granted.1.db "n1"), granted.1)
decide_approval_once_example =
    decide_approval_once desk late_desk gated grant accepted granted.1 granted.1 denial settled
      (λ key. ("verdict", verdict, refl, refl, refl, refl)) grants refl
      (Extends-refl granted.1.db.events) refl is_settled late_is_fine refl refl refl

abbrev stray : ApprovalDecisionRequest
stray = record grant { approval_id = "other" }

strays : decide_approval desk gated stray ≡ ok (not_found, gated)
unfolding decide_approval decide_on approval_at is_acceptable is_bounded_text has_control_chars
    find_where
strays = refl

decide_approval_unchanged_example : gated ≡ gated
decide_approval_unchanged_example =
    decide_approval_unchanged desk gated stray not_found gated strays (λ e. absurd (cc e))
