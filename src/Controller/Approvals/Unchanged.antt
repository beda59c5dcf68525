-- ===== src/Controller/Approvals/Unchanged.antt =====
-- Only an accepted decision writes: every other answer of DecideApproval leaves the tables alone
-- (internal/controller/approval.go).
use proceed.Base.{
  String, not, ◌&&◌, Option, none, some, ◌≡◌, ◌≢◌, refl, inl, inr, ok, no_rows, from_option, str_eq,
  is_empty, find_where, Option-cases, Ensures, Ensures-at, Ensures-bind, Ensures-require,
  Ensures-if, holds,
}
use proceed.Store.Types.{Approval, GraphRun}
use proceed.Store.Runs.{find_run}
use proceed.Controller.Completion.{is_running}
use proceed.Controller.Writer.{Tx}
use proceed.Controller.Approvals.{
  Desk, ApprovalDecisionRequest, ApprovalDecisionResult, ApprovalCode, approval_at, event_with_key,
  is_expired, is_undecided, version_digest_or_empty, apply_decision, decide_bound, decide_new,
  decide_found, decide_on, decide_approval, is_acceptable,
}

-- what an answer other than an accepted decision says of the tables
abbrev pub Unless : Tx → ApprovalDecisionResult × Tx → Type 0
Unless t r = r.0.code ≢ ApprovalCode.approval_decided → r.1 ≡ t

decide_bound-Unless :
    (desk : Desk) (t : Tx) (req : ApprovalDecisionRequest) (a : Approval) (key : String)
    (run : GraphRun)
    → Ensures (Unless t) (decide_bound desk t req a key run)
unfolding decide_bound
decide_bound-Unless desk t req a key run =
    Ensures-if
      (not (
        str_eq run.graph_version_id a.graph_version_id
        && str_eq run.definition_digest (version_digest_or_empty t.db a.graph_version_id)))
      (λ denied. holds (λ other. refl))
      λ bound.
        Ensures-if (not (is_running run.status)) (λ over. holds (λ other. refl))
          λ runs.
            Ensures-bind
              (from_option no_rows (find_where (λ n. str_eq n.id a.run_node_id) t.db.nodes)) _
              λ n _.
                Ensures-bind (apply_decision desk t a key n.attempt_count run.definition_digest req)
                  _ λ t' _. holds (λ other. absurd (other refl))

decide_new-Unless :
    (desk : Desk) (t : Tx) (req : ApprovalDecisionRequest) (a : Approval) (key : String)
    → Ensures (Unless t) (decide_new desk t req a key)
unfolding decide_new
decide_new-Unless desk t req a key =
    Ensures-if (not (is_undecided a.decision)) (λ decided. holds (λ other. refl))
      λ open_still.
        Ensures-if (is_expired t.db desk.writer.at a req.approval_id)
          (λ late. holds (λ other. refl))
          λ valid.
            Ensures-bind (find_run t.db a.run_id) _
              λ run _. decide_bound-Unless desk t req a key run

decide_found-Unless :
    (desk : Desk) (t : Tx) (req : ApprovalDecisionRequest) (a : Approval)
    → Ensures (Unless t) (decide_found desk t req a)
unfolding decide_found
decide_found-Unless desk t req a =
    Ensures-if (not (is_empty req.run_id) && not (str_eq req.run_id a.run_id))
      (λ wrong. holds (λ other. refl))
      λ right. elim (Option-cases (event_with_key t.db req.idempotency_key)) [
        | inr (e, used) ↦ rw used (holds (λ other. refl))
        | inl fresh ↦ rw fresh (decide_new-Unless _ t req a _)
      ]

decide_on-Unless :
    (desk : Desk) (t : Tx) (req : ApprovalDecisionRequest) (row : Option Approval)
    → Ensures (Unless t) (decide_on desk t req row)
unfolding decide_on
decide_on-Unless desk t req none = holds (λ other. refl)
decide_on-Unless desk t req (some a) = decide_found-Unless desk t req a

-- If DecideApproval returns an answer other than that the decision was accepted, the tables are as
-- they were.
pub decide_approval_unchanged :
    (desk : Desk) (t : Tx) (req : ApprovalDecisionRequest) (r : ApprovalDecisionResult) (t' : Tx)
    → decide_approval desk t req ≡ ok (r, t')
    → r.code ≢ ApprovalCode.approval_decided
    → t' ≡ t
unfolding decide_approval
decide_approval_unchanged desk t req r t' h =
    Ensures-at {P = Unless t} {a = (r, t')}
      (Ensures-require (is_acceptable desk req) _ _
        λ fine. decide_on-Unless desk t req (approval_at t.db req.approval_id))
      h
