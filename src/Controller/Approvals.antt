-- ===== src/Controller/Approvals.antt =====
-- Deciding an approval: DecideApproval (internal/controller/approval.go). The credential patterns of isSensitiveValue are regular
-- expressions, so `sensitive` stands for it; `print` stands for encoding/json on the maps made
-- here. The messages of the result are left out.
pub mod Gates
pub mod Unchanged
pub mod Recorded
pub mod Once
pub mod EndsBy
pub mod Decided
use Prim.Native.String.{len}
use Prim.Native.String.{◌++◌ as str_append}
use proceed.Base.{
  ℕ, String, Bool, true, false, not, ◌&&◌, ◌||◌, Option, none, some, List, [], ◌∷◌, Result, ok,
  graph_invalid, no_rows, ◌>>=◌, ◌>>◌, require, from_option, ltb, leb, ◌==◌, str_eq, is_empty,
  one_of, if◌then◌else◌, any_where, find_where,
}
use proceed.Store.Types.{Db, Event, EventType, Approval, GraphRun, GraphEdge, RunNode, Decision}
use proceed.Store.Payload.{ApprovalDecidedPayload, Codec}
use proceed.Store.Runs.{find_run}
use proceed.Store.Log.{has_key}
use proceed.Controller.Text.{has_control_chars}
use proceed.Controller.Completion.{is_running}
use proceed.Controller.Cancel.{key_of}
use proceed.Controller.Writer.{Writer, Tx, next_id, event_of, append_within}
use proceed.Controller.Routing.{is_route, condition_of}
use proceed.Controller.Routing.Routes.{route_from}

-- ApprovalDecisionRequest
pub record ApprovalDecisionRequest : Type 0 where
  pub approval_id : String
  pub run_id : String
  pub decision : String
  pub actor : String
  pub idempotency_key : String
  pub reason : String

-- the codes of ApprovalDecisionResult; `approval_not_found` is the code's "RUN_NOT_FOUND"
pub data ApprovalCode : Type 0 where
  approval_decided approval_already_decided approval_expired approval_conflict : ApprovalCode
  approval_not_found policy_denied : ApprovalCode

-- ApprovalDecisionResult
pub record ApprovalDecisionResult : Type 0 where
  pub code : ApprovalCode
  pub http_status : ℕ
  pub approval_id : String
  pub run_id : String
  pub node_key : String
  pub decision : String
  pub actor : String

-- The texts of the payloads: of a decision (approval, node, actor, key, reason), of its output
-- (decision, actor, reason), of a denial (node, attempt, output), of an expiry (approval, node), of
-- an end by a route (node, attempt, route), and of a request (node, action, evidence, scope,
-- expiry), with its action (node, scope).
pub record ApprovalPrinter : Type 0 where
  pub decided : String → String → String → String → String → String
  pub output : String → String → String → String
  pub denial : String → ℕ → String → String
  pub lapse : String → String → String
  pub routed_end : String → ℕ → String → String
  pub request : String → String → List String → String → ℕ → String
  pub action : String → String → String

-- the parameters that the operations share
pub record Desk : Type 0 where
  pub writer : Writer
  pub papers : ApprovalPrinter
  pub sensitive : String → Bool

-- a bounded text that is neither empty nor shaped like a credential
unfoldable pub is_bounded_text : (String → Bool) → ℕ → String → Bool
unfolding has_control_chars
is_bounded_text sensitive bound s =
    not (is_empty s || ltb bound (len s) || has_control_chars s || sensitive s)

-- the checks before the transaction
unfoldable pub is_acceptable : Desk → ApprovalDecisionRequest → Bool
unfolding is_bounded_text has_control_chars
is_acceptable desk req =
    not (is_empty req.approval_id || ltb 512 (len req.approval_id))
    && one_of req.decision ("grant" ∷ "deny" ∷ [])
    && is_bounded_text desk.sensitive 256 req.actor
    && is_bounded_text desk.sensitive 512 req.idempotency_key
    && not (ltb 1024 (len req.reason) || has_control_chars req.reason)

-- SELECT … FROM approval WHERE id = ?
unfoldable pub approval_at : Db → String → Option Approval
approval_at db id = find_where (λ a. str_eq a.id id) db.approvals

-- SELECT … FROM event WHERE idempotency_key = ?
unfoldable pub event_with_key : Db → String → Option Event
event_with_key db key = find_where (has_key key) db.events

-- nodeKeyForID
abbrev pub node_key_for_id : Db → String → String
node_key_for_id db id = key_of (find_where (λ n. str_eq n.id id) db.nodes)

abbrev pub not_found : ApprovalDecisionResult
not_found = record {
  code = ApprovalCode.approval_not_found;
  http_status = 404;
  approval_id = "";
  run_id = "";
  node_key = "";
  decision = "";
  actor = "";
}

-- the result that the code starts from, with a code
abbrev pub answer :
    ApprovalDecisionRequest → Approval → String → ApprovalCode → ℕ → ApprovalDecisionResult
answer req a node_key code http_status = record {
  code = code;
  http_status = http_status;
  approval_id = req.approval_id;
  run_id = a.run_id;
  node_key = node_key;
  decision = req.decision;
  actor = req.actor;
}

-- the decision that an event records, if it is one about the approval
abbrev pub original_decision : EventType → Option String
original_decision EventType.approval_granted = some "grant"
original_decision EventType.approval_denied = some "deny"
original_decision _ = none

-- json.Unmarshal, the error ignored
abbrev pub read_or_partial : Codec → String → ApprovalDecidedPayload
read_or_partial c payload = elim (c.approval_decided payload) [
  | none ↦ c.approval_partial payload
  | some p ↦ p
]

-- the answer to a key that is recorded
unfoldable pub replayed :
    Codec → ApprovalDecisionRequest → Approval → String → Event → ApprovalDecisionResult
replayed c req a node_key e =
    let conflict = answer req a node_key ApprovalCode.approval_conflict 409 in
    elim (original_decision e.type) [
      | none ↦ conflict
      | some original ↦
          let p = read_or_partial c e.payload in
          if str_eq p.approval_id req.approval_id
          then record {
            code = ApprovalCode.approval_already_decided;
            http_status = 200;
            approval_id = req.approval_id;
            run_id = a.run_id;
            node_key = node_key;
            decision = original;
            actor = p.decided_by;
          }
          else conflict
    ]

-- the key of an approval's expiry
abbrev pub expiry_key : String → String
expiry_key id = str_append "approval_expired:" id

-- the approval's time is over, or its expiry is recorded
unfoldable pub is_expired : Db → ℕ → Approval → String → Bool
is_expired db now a id = any_where (has_key (expiry_key id)) db.events || leb a.expires_at now

-- approvalVersionDigest
abbrev pub version_digest_or_empty : Db → String → String
version_digest_or_empty db id = elim (find_where (λ v. str_eq v.id id) db.versions) [
  | none ↦ ""
  | some v ↦ v.definition_digest
]

abbrev pub is_denial : ApprovalDecisionRequest → Bool
is_denial req = str_eq req.decision "deny"

-- SELECT condition … AND type = 'routes_to' AND condition IN (…) LIMIT 1
unfoldable pub route_among : List String → Db → String → String → String
route_among conditions db version node_key =
    elim (find_where
      (λ e.
        str_eq e.graph_version_id version
        && str_eq e.from_node_key node_key
        && is_route e
        && elim e.condition [ none ↦ false | some s ↦ one_of s conditions ])
      db.graph_edges) [ none ↦ "" | some e ↦ condition_of e ]

-- the variable `route`, with denyRoute
unfoldable pub decided_route : Db → Approval → String → ApprovalDecisionRequest → String
unfolding route_among
decided_route db a node_key req =
    if is_denial req
    then route_among ("denied" ∷ "failure" ∷ []) db a.graph_version_id node_key
    else "success"

-- the event of the decision
abbrev pub decision_event : Desk → Tx → ApprovalDecisionRequest → String → Event
decision_event desk t req node_key =
    record (event_of desk.writer t
      (if is_denial req then EventType.approval_denied else EventType.approval_granted)
      (desk.papers.decided req.approval_id node_key req.actor req.idempotency_key req.reason)) {
        actor_type = "human";
        actor_id = req.actor;
        causation_id = req.approval_id;
        correlation_id = node_key;
        idempotency_key = req.idempotency_key;
      }

-- the node's last event, caused by another
unfoldable pub end_node_of : Writer → Tx → EventType → String → String → String → Result Tx
end_node_of w t type cause node_key payload =
    append_within w t
      (record (event_of w t type payload) { causation_id = cause; correlation_id = node_key })

-- the node ends by its route, or fails where it has none
unfoldable pub end_decided :
    Desk
    → Tx
    → Approval
    → String
    → ℕ
    → String
    → String
    → String
    → ApprovalDecisionRequest
    → Result Tx
end_decided desk t a node_key nr cause digest route req =
    let w = desk.writer in
    let output = desk.papers.output req.decision req.actor req.reason in
    if is_empty route
    then end_node_of w t EventType.node_failed cause node_key
        (desk.papers.denial node_key nr output)
    else (end_node_of w t EventType.node_finished cause node_key
          (w.print.result node_key nr output route)
        >>= λ t'. route_from w t' a.graph_version_id digest node_key true route)

-- the decision and what it ends
unfoldable pub apply_decision :
    Desk → Tx → Approval → String → ℕ → String → ApprovalDecisionRequest → Result Tx
apply_decision desk t a node_key nr digest req =
    append_within desk.writer t (decision_event desk t req node_key) >>= λ t'.
    end_decided desk t' a node_key nr (next_id desk.writer t) digest
      (decided_route t'.db a node_key req) req

-- the checks of the run, and the decision
unfoldable pub decide_bound :
    Desk
    → Tx
    → ApprovalDecisionRequest
    → Approval
    → String
    → GraphRun
    → Result (ApprovalDecisionResult × Tx)
decide_bound desk t req a node_key run =
    if not (
      str_eq run.graph_version_id a.graph_version_id
      && str_eq run.definition_digest (version_digest_or_empty t.db a.graph_version_id))
    then ok (answer req a node_key ApprovalCode.policy_denied 409, t)
    else if not (is_running run.status)
    then ok (answer req a node_key ApprovalCode.approval_conflict 409, t)
    else (from_option no_rows (find_where (λ n. str_eq n.id a.run_node_id) t.db.nodes) >>= λ n.
        apply_decision desk t a node_key n.attempt_count run.definition_digest req >>= λ t'.
        ok (answer req a node_key ApprovalCode.approval_decided 202, t'))

-- `decision` is NULL
abbrev pub is_undecided : Option Decision → Bool
is_undecided none = true
is_undecided (some _) = false

-- the key is new
unfoldable pub decide_new :
    Desk → Tx → ApprovalDecisionRequest → Approval → String → Result (ApprovalDecisionResult × Tx)
decide_new desk t req a node_key =
    if not (is_undecided a.decision)
    then ok (answer req a node_key ApprovalCode.approval_conflict 409, t)
    else if is_expired t.db desk.writer.at a req.approval_id
    then ok (
      record (answer req a node_key ApprovalCode.approval_expired 202) {
        decision = "";
        actor = "";
      },
      t,
    )
    else (find_run t.db a.run_id >>= λ run. decide_bound desk t req a node_key run)

-- the approval is found
unfoldable pub decide_found :
    Desk → Tx → ApprovalDecisionRequest → Approval → Result (ApprovalDecisionResult × Tx)
decide_found desk t req a =
    let node_key = node_key_for_id t.db a.run_node_id in
    if not (is_empty req.run_id) && not (str_eq req.run_id a.run_id)
    then ok (not_found, t)
    else elim (event_with_key t.db req.idempotency_key) [
      | some e ↦ ok (replayed desk.writer.codec req a node_key e, t)
      | none ↦
          decide_new (record desk { writer = record desk.writer { run_id = a.run_id } }) t req a
            node_key
    ]

-- the two results of the query
unfoldable pub decide_on :
    Desk → Tx → ApprovalDecisionRequest → Option Approval → Result (ApprovalDecisionResult × Tx)
decide_on desk t req none = ok (not_found, t)
decide_on desk t req (some a) = decide_found desk t req a

-- DecideApproval
unfoldable pub decide_approval :
    Desk → Tx → ApprovalDecisionRequest → Result (ApprovalDecisionResult × Tx)
decide_approval desk t req =
    require (is_acceptable desk req) graph_invalid
    >> decide_on desk t req (approval_at t.db req.approval_id)
