-- ===== src/Controller/Approvals/Once.antt =====
-- A decision and the repetition of its request (internal/controller/approval.go).
use proceed.Base.{
  String, true, false, not, ◌&&◌, Option, none, some, [], ◌∷◌, ◌≡◌, ◌≢◌, ◌∙◌, ap, inl, inr, ok,
  no_rows, from_option, str_eq, str_eq_iff, is_empty, one_of, find_where, Option-cases, Ensures,
  Ensures-at, Ensures-bind, Ensures-if, Ensures-require, holds, arith,
}
use proceed.Store.Types.{Db, Event, Approval, GraphRun}
use proceed.Store.Payload.{Codec}
use proceed.Store.Runs.{find_run}
use proceed.Controller.Completion.{is_running}
use proceed.Controller.Writer.{Tx}
use proceed.Controller.Approvals.{
  Desk, ApprovalDecisionRequest, ApprovalDecisionResult, ApprovalCode, approval_at, event_with_key,
  is_expired, is_undecided, is_bounded_text, replayed, node_key_for_id, version_digest_or_empty,
  apply_decision, decide_bound, decide_new, decide_found, decide_on, decide_approval, is_acceptable,
}
use proceed.Controller.Approvals.Recorded.{
  Grows, PrintsDecision, IsRecorded, apply_decision-IsRecorded, event_with_key-Grows,
}

-- what an accepted decision leaves
abbrev pub Records : Desk → ApprovalDecisionRequest → ApprovalDecisionResult × Tx → Type 0
Records desk req r =
    r.0.code ≡ ApprovalCode.approval_decided → IsRecorded desk.writer.codec req r.1.db

decide_bound-Records :
    (desk : Desk) (t : Tx) (req : ApprovalDecisionRequest) (a : Approval) (key : String)
    (run : GraphRun)
    → PrintsDecision desk req
    → one_of req.decision ("grant" ∷ "deny" ∷ []) ≡ true
    → is_empty req.idempotency_key ≡ false
    → event_with_key t.db req.idempotency_key ≡ none
    → Ensures (Records desk req) (decide_bound desk t req a key run)
unfolding decide_bound
decide_bound-Records desk t req a key run prints legal filled fresh =
    Ensures-if
      (not (
        str_eq run.graph_version_id a.graph_version_id
        && str_eq run.definition_digest (version_digest_or_empty t.db a.graph_version_id)))
      (λ denied. holds (λ e. absurd (cc e)))
      λ bound.
        Ensures-if (not (is_running run.status)) (λ over. holds (λ e. absurd (cc e)))
          λ runs.
            Ensures-bind
              (from_option no_rows (find_where (λ n. str_eq n.id a.run_node_id) t.db.nodes)) _
              λ n _.
                Ensures-bind (apply_decision desk t a key n.attempt_count run.definition_digest req)
                  _
                  λ t' done. holds (λ e.
                    Ensures-at
                      (apply_decision-IsRecorded desk t a key n.attempt_count run.definition_digest
                        req prints legal filled fresh)
                      done)

decide_new-Records :
    (desk : Desk) (t : Tx) (req : ApprovalDecisionRequest) (a : Approval) (key : String)
    → PrintsDecision desk req
    → one_of req.decision ("grant" ∷ "deny" ∷ []) ≡ true
    → is_empty req.idempotency_key ≡ false
    → event_with_key t.db req.idempotency_key ≡ none
    → Ensures (Records desk req) (decide_new desk t req a key)
unfolding decide_new
decide_new-Records desk t req a key prints legal filled fresh =
    Ensures-if (not (is_undecided a.decision)) (λ decided. holds (λ e. absurd (cc e)))
      λ open_still.
        Ensures-if (is_expired t.db desk.writer.at a req.approval_id)
          (λ late. holds (λ e. absurd (cc e)))
          λ valid.
            Ensures-bind (find_run t.db a.run_id) _
              λ run _. decide_bound-Records desk t req a key run prints legal filled fresh

-- a recorded key is never answered with an acceptance
pub replayed-code :
    (c : Codec) (req : ApprovalDecisionRequest) (a : Approval) (key : String) (e : Event)
    → (replayed c req a key e).code ≢ ApprovalCode.approval_decided
unfolding replayed
replayed-code c req a key e h = absurd (ground (arith, h))

decide_on-Records :
    (desk : Desk) (t : Tx) (req : ApprovalDecisionRequest) (row : Option Approval)
    → PrintsDecision desk req
    → one_of req.decision ("grant" ∷ "deny" ∷ []) ≡ true
    → is_empty req.idempotency_key ≡ false
    → Ensures (Records desk req) (decide_on desk t req row)
unfolding decide_on decide_found
decide_on-Records desk t req none prints legal filled = holds (λ e. absurd (cc e))
decide_on-Records desk t req (some a) prints legal filled =
    Ensures-if (not (is_empty req.run_id) && not (str_eq req.run_id a.run_id))
      (λ wrong. holds (λ e. absurd (cc e)))
      λ right. elim (Option-cases (event_with_key t.db req.idempotency_key)) [
        | inr (e, used) ↦
            rw used (holds (λ h. absurd (replayed-code desk.writer.codec req a _ e h)))
        | inl fresh ↦ rw fresh (
            decide_new-Records (record desk { writer = record desk.writer { run_id = a.run_id } }) t
              req a _ prints legal filled fresh)
      ]

is_acceptable-filled :
    (desk : Desk) (req : ApprovalDecisionRequest)
    → is_acceptable desk req ≡ true
    → (one_of req.decision ("grant" ∷ "deny" ∷ []) ≡ true) × (is_empty req.idempotency_key ≡ false)
unfolding is_acceptable is_bounded_text
is_acceptable-filled desk req h = (ground (arith, h), ground (arith, h))

-- the answer to a request whose decision is recorded
abbrev pub original_answer :
    ApprovalDecisionRequest → ApprovalDecisionRequest → Approval → String → ApprovalDecisionResult
original_answer req again a node_key = record {
  code = ApprovalCode.approval_already_decided;
  http_status = 200;
  approval_id = again.approval_id;
  run_id = a.run_id;
  node_key = node_key;
  decision = req.decision;
  actor = req.actor;
}

recorded-answer :
    (c : Codec) (req again : ApprovalDecisionRequest) (a : Approval) (key : String) (d : Db)
    → (k : IsRecorded c req d) → again.approval_id ≡ req.approval_id
    → replayed c again a key k.event ≡ original_answer req again a key
unfolding replayed
recorded-answer c req again a key d k same = ground (
  arith,
  k.decision,
  k.read,
  k.approval_id,
  k.actor,
  same,
  str_eq_iff k.payload.approval_id again.approval_id,
)

-- If DecideApproval accepts a decision, encoding/json printing what it reads back, then every
-- acceptable request that comes later, at any time and to any controller with the same codec,
-- whatever was appended to the log since, with the same approval and the same key, for the approval's
-- run or for any, is answered with the decision and the actor of the first request, whatever it asks
-- for itself, and changes nothing.
pub decide_approval_once :
    (desk other : Desk) (t : Tx) (req : ApprovalDecisionRequest) (r : ApprovalDecisionResult)
    (t' later : Tx) (again : ApprovalDecisionRequest) (a : Approval)
    → PrintsDecision desk req
    → decide_approval desk t req ≡ ok (r, t')
    → r.code ≡ ApprovalCode.approval_decided
    → Grows t'.db later.db
    → other.writer.codec ≡ desk.writer.codec
    → approval_at later.db again.approval_id ≡ some a
    → is_acceptable other again ≡ true
    → again.approval_id ≡ req.approval_id
    → again.idempotency_key ≡ req.idempotency_key
    → (not (is_empty again.run_id) && not (str_eq again.run_id a.run_id)) ≡ false
    → decide_approval other later again
      ≡ ok (original_answer req again a (node_key_for_id later.db a.run_node_id), later)
unfolding decide_approval decide_on decide_found
decide_approval_once desk other t req r t' later again a prints h accepted g codec found fine
      same_id same_key own =
    let k =
      Ensures-at {P = Records desk req} {a = (r, t')}
        (Ensures-require (is_acceptable desk req) _ _ λ acceptable.
          let (legal, filled) = is_acceptable-filled desk req acceptable in
          decide_on-Records desk t req (approval_at t.db req.approval_id) prints legal filled)
        h accepted in
    let there : event_with_key later.db again.idempotency_key ≡ some k.event =
      ap (event_with_key later.db) same_key
      ∙ event_with_key-Grows t'.db later.db req.idempotency_key g k.found in
    let key = node_key_for_id later.db a.run_node_id in
    let answer =
      ap (λ c. replayed c again a key k.event) codec
      ∙ recorded-answer desk.writer.codec req again a key t'.db k same_id in
    rw (fine, found, own, there) (ap (λ x. ok (x, later)) answer)
