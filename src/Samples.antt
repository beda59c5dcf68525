-- ===== src/Samples.antt =====
-- A small run, its events and a codec, at which the theorems are used.
pub mod Projections
pub mod Control
pub mod Scheduling
pub mod Cancelling
pub mod Outcomes
pub mod Approvals
pub mod Recovering
pub mod Parsing
use proceed.Base.{
  ℕ, String, true, false, not, none, some, List, [], ◌∷◌, Result, ok, err, str_eq, is_empty,
  if◌then◌else◌,
}
use proceed.Store.Types.{Event, EventType, Db, RunStatus, NodeStatus, RunNode}
use proceed.Store.Payload.{
  Codec, RunStartedPayload, NodeStartedPayload, NodeTerminalPayload, NodeRequeuedPayload,
}

abbrev pub started_run : RunStartedPayload
started_run = record {
  graph_version_id = "v1";
  definition_digest = "d1";
  params_digest = "";
  params = [];
  trigger_name = "";
  schedule_id = "";
  schedule_tick = 0;
}

abbrev pub start_payload : NodeStartedPayload
start_payload = record {
  node_key = "step";
  attempt_no = 1;
  executor = "shell";
  side_effect_contract = "pure";
  operation_key = "op-1";
  lease_token = "";
  lease_expires_at = 0;
}

-- The payloads are told apart by their text; a text is its own canonical form and digest.
abbrev pub codec : Codec
codec = record {
  run_started = λ s. if str_eq s "started" then some started_run else none;
  node_started = λ s. if str_eq s "start" then some start_payload else none;
  node_terminal = λ s.
      if str_eq s "end"
      then some (record {
        node_key = "step";
        attempt_no = 1;
        executor = "shell";
        side_effect_contract = "pure";
        operation_key = "op-1";
        result = "";
      })
      else none;
  node_requeued = λ s.
      if str_eq s "resume"
      then some (record { node_key = "step"; attempt_no = 1; resume_attempt = true })
      else none;
  edge_traversed = λ s. none;
  artifact_published = λ s. none;
  evaluation_failed = λ s. none;
  effect_intent = λ s. none;
  effect_receipt = λ s. none;
  approval_requested = λ s. none;
  approval_decided = λ s. none;
  approval_partial =
      λ s. record { approval_id = ""; decided_by = ""; decision_idempotency_key = "" };
  run_detail = λ s. some "";
  wait_requested = λ s. none;
  wait_completed = λ s. none;
  wait_closed = λ s. none;
  decision_recorded = λ s. none;
  marshal_edges = λ s. "[]";
  marshal_run_started = λ p. "started";
  marshal_node_started = λ p. "start";
  marshal_claim = λ key nr. "start";
  marshal_node = λ key. "end";
  marshal_wait = λ id key. "wait";
  marshal_detail = λ detail. "detail";
  schedule_key = λ id minute. id;
  skip_window = λ first last count. "window";
  link_id = λ s n. s;
  json_valid = λ s. not (is_empty s);
  canonical_json = λ s. some s;
  sha256_hex = λ s. s;
}

-- an event of the run, under a key that is also its id
abbrev pub event : EventType → String → ℕ → String → Event
event type key sequence payload = record {
  event_id = key;
  run_id = "run";
  sequence = sequence;
  schema_version = "proceed/v1";
  type = type;
  occurred_at = 10;
  recorded_at = 10;
  actor_type = "controller";
  actor_id = "me";
  causation_id = "";
  correlation_id = "";
  idempotency_key = key;
  payload_digest = "";
  payload = payload;
}

abbrev pub starts : Event
starts = event EventType.node_started "e1" 1 "start"

abbrev pub finishes : Event
finishes = event EventType.node_finished "e2" 2 "end"

-- a running run of a version with one node, before any event
abbrev pub blank : Db
blank = record {
  versions = record { id = "v1"; definition_digest = "d1" } ∷ [];
  graph_nodes =
      record { graph_version_id = "v1"; node_key = "step"; type = "shell"; config = "{}" } ∷ [];
  graph_edges = [];
  events = [];
  runs =
      record {
        id = "run";
        graph_version_id = "v1";
        definition_digest = "d1";
        params_digest = "{}";
        schedule_id = none;
        schedule_tick = none;
        trigger_name = none;
        status = RunStatus.running;
        created_at = 5;
        started_at = none;
        finished_at = none;
      }
      ∷ [];
  params = [];
  nodes = [];
  edges = [];
  attempts = [];
  artifacts = [];
  evaluations = [];
  effects = [];
  decisions = [];
  causal_links = [];
  approvals = [];
  outcomes = [];
  anchors = [];
  waits = [];
  defer_fks = false;
}

-- the run's node, with a status
abbrev pub step_row : NodeStatus → RunNode
step_row s = record {
  id = "n1";
  run_id = "run";
  node_key = "step";
  status = s;
  attempt_count = 1;
  started_at = some 10;
  finished_at = none;
}

abbrev pub with_step : NodeStatus → Db
with_step s = record blank { nodes = step_row s ∷ [] }

-- the result of a computation that succeeds
abbrev pub from_ok {ℓ} : {A : Type ℓ} → A → Result A → A
from_ok d (ok a) = a
from_ok d (err e) = d
