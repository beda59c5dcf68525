-- ===== src/Store/Payload.antt =====
-- The payloads of events (internal/store/projection.go), and the codecs of the standard library
-- that the store calls: encoding/json and crypto/sha256, which are parameters. A raw JSON field is
-- its text, empty where the field is absent.
use proceed.Base.{ℕ, String, Bool, Option, List}

pub record RunParamValue : Type 0 where
  pub name : String
  pub type : String
  pub value : Option String

pub record RunStartedPayload : Type 0 where
  pub graph_version_id : String
  pub definition_digest : String
  pub params_digest : String
  pub params : List RunParamValue
  pub trigger_name : String
  pub schedule_id : String
  pub schedule_tick : ℕ

pub record NodeStartedPayload : Type 0 where
  pub node_key : String
  pub attempt_no : ℕ
  pub executor : String
  pub side_effect_contract : String
  pub operation_key : String
  pub lease_token : String
  pub lease_expires_at : ℕ

pub record NodeTerminalPayload : Type 0 where
  pub node_key : String
  pub attempt_no : ℕ
  pub executor : String
  pub side_effect_contract : String
  pub operation_key : String
  pub result : String

pub record NodeRequeuedPayload : Type 0 where
  pub node_key : String
  pub attempt_no : ℕ
  pub resume_attempt : Bool

pub record EdgeTraversedPayload : Type 0 where
  pub edge_id : String
  pub route : String
  pub sequence_in_run : ℕ

pub record ArtifactPublishedPayload : Type 0 where
  pub node_key : String
  pub name : String
  pub path : String
  pub content_hash : String
  pub media_type : String
  pub size_bytes : ℕ
  pub truncated : Bool

pub record EvaluationFailedPayload : Type 0 where
  pub artifact_id : String
  pub evaluated_by_node_key : String
  pub evidence_ref : String

pub record EffectIntentPayload : Type 0 where
  pub node_attempt_id : String
  pub operation_key : String
  pub target : String
  pub request_digest : String

pub record EffectReceiptPayload : Type 0 where
  pub effect_id : String
  pub status : String
  pub receipt : String
  pub reconciliation_ref : String

pub record ApprovalRequestedPayload : Type 0 where
  pub node_key : String
  pub requested_action : String
  pub evidence_references : String
  pub required_scope : String
  pub expires_at : ℕ

pub record ApprovalDecidedPayload : Type 0 where
  pub approval_id : String
  pub decided_by : String
  pub decision_idempotency_key : String

pub record CausalLinkPayload : Type 0 where
  pub target_node_key : String
  pub attribution : String
  pub source_kind : String
  pub source_id : String
  pub citation_type : String
  pub citation_id : String
  pub group_key : String

pub record DecisionRecordedPayload : Type 0 where
  pub node_key : String
  pub kind : String
  pub candidate_edges : List String
  pub selected_edge_id : String
  pub rejection : String
  pub predicate_snapshot : String
  pub input_references : String
  pub policy_version : String
  pub causal_links : List CausalLinkPayload

pub record WaitRequestedPayload : Type 0 where
  pub wait_id : String
  pub node_key : String
  pub event_type : String
  pub correlation_key : String
  pub expected_condition : String
  pub expires_at : ℕ

pub record WaitCompletedPayload : Type 0 where
  pub wait_id : String
  pub received_event_id : String
  pub payload_digest : String

pub record WaitClosedPayload : Type 0 where
  pub wait_id : String

-- `json.Unmarshal` into each of the structs, `none` where it returns an error; `json.Valid`;
-- decoding and printing again (`canonicalJSON`); `json.Marshal` of a list of edge ids, of the
-- payloads that the controller makes, and of the window of skipped ticks; the
-- formats "%s#%d" of a causal link's id and "schedule:%s:%d" of a tick's key; and the hexadecimal
-- SHA-256 of a text.
pub record Codec : Type 0 where
  pub run_started : String → Option RunStartedPayload
  pub node_started : String → Option NodeStartedPayload
  pub node_terminal : String → Option NodeTerminalPayload
  pub node_requeued : String → Option NodeRequeuedPayload
  pub edge_traversed : String → Option EdgeTraversedPayload
  pub artifact_published : String → Option ArtifactPublishedPayload
  pub evaluation_failed : String → Option EvaluationFailedPayload
  pub effect_intent : String → Option EffectIntentPayload
  pub effect_receipt : String → Option EffectReceiptPayload
  pub approval_requested : String → Option ApprovalRequestedPayload
  pub approval_decided : String → Option ApprovalDecidedPayload
  -- what json.Unmarshal fills in of such a payload where it reports an error
  pub approval_partial : String → ApprovalDecidedPayload
  pub run_detail : String → Option String
  pub wait_requested : String → Option WaitRequestedPayload
  pub wait_completed : String → Option WaitCompletedPayload
  pub wait_closed : String → Option WaitClosedPayload
  pub decision_recorded : String → Option DecisionRecordedPayload
  pub marshal_edges : List String → String
  pub marshal_run_started : RunStartedPayload → String
  pub marshal_node_started : NodeStartedPayload → String
  pub marshal_claim : String → ℕ → String
  pub marshal_node : String → String
  pub marshal_wait : String → String → String
  pub marshal_detail : String → String
  pub schedule_key : String → ℕ → String
  pub skip_window : ℕ → ℕ → ℕ → String
  pub link_id : String → ℕ → String
  pub json_valid : String → Bool
  pub canonical_json : String → Option String
  pub sha256_hex : String → String
