-- ===== src/Store/Types.antt =====
-- The rows of the store's tables (internal/store/schema.go), and events (internal/store/event.go).
-- A status column that a CHECK confines to some words is a data type; NULL is `none`.
use proceed.Base.{ℕ, String, Bool, Option, List}

pub data RunStatus : Type 0 where
  running completed failed cancelled abandoned : RunStatus

pub data NodeStatus : Type 0 where
  pending eligible leased running succeeded failed uncertain waiting : NodeStatus
  reconciling cancel_requested cancelled skipped : NodeStatus

pub data AttemptStatus : Type 0 where
  leased running succeeded failed uncertain cancelled : AttemptStatus

pub data WaitStatus : Type 0 where
  pending completed expired cancelled : WaitStatus

pub data Decision : Type 0 where
  grant deny : Decision

-- `Event.Type`; `other` holds any text that has no projection.
pub data EventType : Type 0 where
  run_started node_started node_finished node_failed node_uncertain : EventType
  node_cancel_requested node_skipped node_cancelled node_requeued node_waiting : EventType
  node_reconciling node_attempt_failed edge_traversed artifact_published : EventType
  evaluation_failed effect_intent effect_receipt approval_requested : EventType
  approval_granted approval_denied decision_recorded run_completed run_failed : EventType
  run_cancelled run_abandoned external_wait_requested external_event_received : EventType
  external_wait_completed external_wait_expired external_wait_cancelled : EventType
  external_event_rejected : EventType
  other : String → EventType

pub record Event : Type 0 where
  pub event_id : String
  pub run_id : String
  pub sequence : ℕ
  pub schema_version : String
  pub type : EventType
  pub occurred_at : ℕ
  pub recorded_at : ℕ
  pub actor_type : String
  pub actor_id : String
  pub causation_id : String
  pub correlation_id : String
  pub idempotency_key : String
  pub payload_digest : String
  pub payload : String

pub record GraphRun : Type 0 where
  pub id : String
  pub graph_version_id : String
  pub definition_digest : String
  pub params_digest : String
  pub schedule_id : Option String
  pub schedule_tick : Option ℕ
  pub trigger_name : Option String
  pub status : RunStatus
  pub created_at : ℕ
  pub started_at : Option ℕ
  pub finished_at : Option ℕ

pub record RunParam : Type 0 where
  pub run_id : String
  pub name : String
  pub type : String
  pub value : Option String

pub record RunNode : Type 0 where
  pub id : String
  pub run_id : String
  pub node_key : String
  pub status : NodeStatus
  pub attempt_count : ℕ
  pub started_at : Option ℕ
  pub finished_at : Option ℕ

pub record RunEdge : Type 0 where
  pub id : String
  pub run_id : String
  pub edge_id : String
  pub route : Option String
  pub sequence_in_run : ℕ
  pub traversed_at : ℕ

pub record NodeAttempt : Type 0 where
  pub id : String
  pub run_node_id : String
  pub attempt_no : ℕ
  pub operation_key : String
  pub executor : String
  pub side_effect_contract : String
  pub lease_token : Option String
  pub lease_expires_at : Option ℕ
  pub status : AttemptStatus
  pub result : Option String
  pub started_at : Option ℕ
  pub finished_at : Option ℕ

pub record Artifact : Type 0 where
  pub id : String
  pub run_id : String
  pub produced_by_node_key : String
  pub name : String
  pub path : String
  pub content_hash : String
  pub media_type : String
  pub size_bytes : ℕ
  pub truncated : Bool
  pub created_at : ℕ

pub record Evaluation : Type 0 where
  pub id : String
  pub artifact_id : String
  pub evaluated_by_node_key : String
  pub run_id : String
  pub verdict : String
  pub evidence_ref : Option String
  pub evaluated_at : ℕ

pub record Effect : Type 0 where
  pub id : String
  pub node_attempt_id : String
  pub operation_key : String
  pub target : String
  pub status : String
  pub request_digest : String
  pub receipt : Option String
  pub reconciliation_ref : Option String
  pub created_at : ℕ
  pub updated_at : ℕ

pub record DecisionRow : Type 0 where
  pub id : String
  pub run_id : String
  pub run_node_id : String
  pub kind : String
  pub candidate_edges : String
  pub selected_edge_id : Option String
  pub rejection : Option String
  pub predicate_snapshot : String
  pub input_references : String
  pub policy_version : String
  pub decided_at : ℕ

pub record CausalLink : Type 0 where
  pub id : String
  pub decision_id : String
  pub target_run_node_id : String
  pub attribution : String
  pub source_kind : String
  pub source_id : String
  pub citation_type : Option String
  pub citation_id : Option String
  pub group_key : Option String

pub record Approval : Type 0 where
  pub id : String
  pub run_id : String
  pub run_node_id : String
  pub graph_version_id : String
  pub requested_action : String
  pub evidence_references : String
  pub required_scope : String
  pub expires_at : ℕ
  pub decision : Option Decision
  pub decided_by : Option String
  pub decided_at : Option ℕ
  pub decision_idempotency_key : Option String
  pub created_at : ℕ

pub record Outcome : Type 0 where
  pub id : String
  pub run_id : String
  pub anchor_id : String
  pub result : RunStatus
  pub detail : Option String
  pub recorded_at : ℕ

pub record Anchor : Type 0 where
  pub id : String
  pub graph_version_id : String
  pub created_at : ℕ

pub record ExternalWait : Type 0 where
  pub id : String
  pub run_id : String
  pub run_node_id : String
  pub graph_version_id : String
  pub definition_digest : String
  pub event_type : String
  pub correlation_key : String
  pub expected_condition : String
  pub status : WaitStatus
  pub expires_at : Option ℕ
  pub completed_event_id : Option String
  pub payload_digest : Option String
  pub created_at : ℕ
  pub completed_at : Option ℕ

pub record GraphVersion : Type 0 where
  pub id : String
  pub definition_digest : String

pub record GraphNode : Type 0 where
  pub graph_version_id : String
  pub node_key : String
  pub type : String
  pub config : String

pub record GraphEdge : Type 0 where
  pub id : String
  pub graph_version_id : String
  pub from_node_key : String
  pub to_node_key : String
  pub type : String
  pub condition : Option String

-- The tables that a transaction sees, rows in insertion order. `defer_fks` is the pragma
-- `defer_foreign_keys`, under which a statement's references are checked at the commit. The tables
-- that no operation here reads are left out: graph, policy, graph_param, metric, the proposals, the
-- webhooks and gc_record; those of schedules and of the lease stand with their operations.
pub record Db : Type 0 where
  pub versions : List GraphVersion
  pub graph_nodes : List GraphNode
  pub graph_edges : List GraphEdge
  pub events : List Event
  pub runs : List GraphRun
  pub params : List RunParam
  pub nodes : List RunNode
  pub edges : List RunEdge
  pub attempts : List NodeAttempt
  pub artifacts : List Artifact
  pub evaluations : List Evaluation
  pub effects : List Effect
  pub decisions : List DecisionRow
  pub causal_links : List CausalLink
  pub approvals : List Approval
  pub outcomes : List Outcome
  pub anchors : List Anchor
  pub waits : List ExternalWait
  pub defer_fks : Bool
