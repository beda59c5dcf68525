-- ===== src/Controller/Approvals/Decided.antt =====
-- What an accepted decision does to the node that waits for it (internal/controller/approval.go).
use proceed.Base.{
  ℕ, String, true, false, not, ◌&&◌, some, ◌≡◌, inl, inr, ok, no_rows, from_option, str_eq,
  is_empty, find_where, Option-cases, Ensures, Ensures-at, Ensures-bind, Ensures-map, Ensures-if,
  Ensures-require, holds, arith,
}
use proceed.Store.Types.{Approval, GraphRun}
use proceed.Store.Runs.{find_run}
use proceed.Store.Named.{node_at, status_before}
use proceed.Controller.Completion.{is_running}
use proceed.Controller.Cancel.Appended.{IsPrinted}
use proceed.Controller.Writer.{Tx, append_within, next_id}
use proceed.Controller.Routing.Traversed.{EdgesLogged, EdgesLogged-later, PrintsEdges}
use proceed.Controller.Approvals.Once.{replayed-code}
use proceed.Controller.Approvals.{
  Desk, ApprovalDecisionRequest, ApprovalDecisionResult, ApprovalCode, approval_at, event_with_key,
  is_expired, is_undecided, node_key_for_id, version_digest_or_empty, apply_decision,
  decision_event, decided_route, decide_bound, decide_new, decide_found, decide_on, decide_approval,
  is_acceptable,
}
use proceed.Controller.Approvals.EndsBy.{
  decision-Notes, PrintsEnds, EndsBy, EndsBy-from, end_decided-EndsBy, decided_route-same,
}

-- what an answer says, if it is that the decision was accepted
abbrev Rules :
    String → String → Tx → ApprovalDecisionRequest → Approval → ApprovalDecisionResult × Tx → Type 0
Rules run_id key t req a r =
    r.0.code ≡ ApprovalCode.approval_decided
    → EndsBy run_id a.graph_version_id key (decided_route t.db a key req)
        (status_before (node_at t.db run_id key)) t.db r.1.db

-- the decision on an approval that was open, and what it does to the node
abbrev pub Accepts :
    Desk
    → String
    → String
    → Tx
    → ApprovalDecisionRequest
    → Approval
    → ApprovalDecisionResult × Tx
    → Type 0
Accepts desk run_id key t req a r =
    r.0.code ≡ ApprovalCode.approval_decided
    → (is_undecided a.decision ≡ true)
      × (is_expired t.db desk.writer.at a req.approval_id ≡ false)
      × EndsBy run_id a.graph_version_id key (decided_route t.db a key req)
          (status_before (node_at t.db run_id key)) t.db r.1.db

module _ (desk : Desk) (nodes : IsPrinted desk.writer.codec) (edges : PrintsEdges desk.writer)
    (ends : PrintsEnds desk) where
  apply_decision-EndsBy :
      (t : Tx) (a : Approval) (key : String) (nr : ℕ) (digest : String)
      (req : ApprovalDecisionRequest)
      → EdgesLogged t.db
      → Ensures
          (λ t'.
            EndsBy desk.writer.run_id a.graph_version_id key
              (decided_route t.db a key req)
              (status_before (node_at t.db desk.writer.run_id key))
              t.db
              t'.db)
          (apply_decision desk t a key nr digest req)
  unfolding apply_decision
  apply_decision-EndsBy t a key nr digest req l =
      Ensures-bind (append_within desk.writer t (decision_event desk t req key)) _ λ t1 first.
        let n = Ensures-at (decision-Notes desk t req key) first in
        Ensures-map
          (λ t' e.
            EndsBy-from desk.writer.run_id a.graph_version_id key (decided_route t1.db a key req)
              (decided_route t.db a key req) t.db t1.db t'.db n
              (decided_route-same t.db t1.db a key req n.graph_edges) e)
          (end_decided-EndsBy desk nodes edges ends t1 a key nr (next_id desk.writer t) digest
            (decided_route t1.db a key req) req (EdgesLogged-later t.db t1.db n.events n.edges l))

  decide_bound-Rules :
      (t : Tx) (req : ApprovalDecisionRequest) (a : Approval) (key : String) (run : GraphRun)
      → EdgesLogged t.db
      → Ensures (Rules desk.writer.run_id key t req a) (decide_bound desk t req a key run)
  unfolding decide_bound
  decide_bound-Rules t req a key run l =
      Ensures-if
        (not (
          str_eq run.graph_version_id a.graph_version_id
          && str_eq run.definition_digest (version_digest_or_empty t.db a.graph_version_id)))
        (λ denied. holds (λ e. absurd (cc e)))
        λ bound.
          Ensures-if (not (is_running run.status)) (λ over. holds (λ e. absurd (cc e)))
            λ runs.
              Ensures-bind
                (from_option no_rows (find_where (λ n. str_eq n.id a.run_node_id) t.db.nodes)) _
                λ n _.
                  Ensures-bind
                    (apply_decision desk t a key n.attempt_count run.definition_digest req) _
                    λ t' done. holds (λ e.
                      Ensures-at
                        (apply_decision-EndsBy t a key n.attempt_count run.definition_digest req l)
                        done)

  decide_new-Accepts :
      (t : Tx) (req : ApprovalDecisionRequest) (a : Approval) (key : String)
      → EdgesLogged t.db
      → Ensures (Accepts desk desk.writer.run_id key t req a) (decide_new desk t req a key)
  unfolding decide_new
  decide_new-Accepts t req a key l =
      Ensures-if (not (is_undecided a.decision)) (λ decided. holds (λ e. absurd (cc e)))
        λ open_still.
          Ensures-if (is_expired t.db desk.writer.at a req.approval_id)
            (λ late. holds (λ e. absurd (cc e)))
            λ valid. Ensures-bind (find_run t.db a.run_id) _ λ run _.
              Ensures-map (λ r x e. (ground (arith, open_still), valid, x e))
                (decide_bound-Rules t req a key run l)

module _ (desk : Desk) (nodes : IsPrinted desk.writer.codec) (edges : PrintsEdges desk.writer)
    (ends : PrintsEnds desk) where
  decide_found-Accepts :
      (t : Tx) (req : ApprovalDecisionRequest) (a : Approval)
      → EdgesLogged t.db
      → Ensures
          (Accepts desk a.run_id (node_key_for_id t.db a.run_node_id) t req a)
          (decide_found desk t req a)
  unfolding decide_found
  decide_found-Accepts t req a l =
      let key = node_key_for_id t.db a.run_node_id in
      Ensures-if (not (is_empty req.run_id) && not (str_eq req.run_id a.run_id))
        (λ wrong. holds (λ e. absurd (cc e)))
        λ right. elim (Option-cases (event_with_key t.db req.idempotency_key)) [
          | inr (x, used) ↦
              rw used (holds (λ e. absurd (replayed-code desk.writer.codec req a key x e)))
          | inl fresh ↦ rw fresh (
              decide_new-Accepts (record desk { writer = record desk.writer { run_id = a.run_id } })
                nodes (record { passed = edges.passed; routed = edges.routed })
                (record { finished = ends.finished; failed = ends.failed }) t req a key l)
        ]

  -- If DecideApproval accepts a decision, encoding/json printing what it reads back and every row of
  -- run_edge having its event in the log, the approval was undecided and had not expired. A grant has
  -- the route success and a denial the route of a routes_to edge with the condition denied or failure,
  -- if there is one. With a route the node has succeeded, and exactly the edges that the route opens
  -- are traversed; without one the node has failed and no edge is traversed. A node whose cancelling
  -- was requested or done keeps its status, but its edges are traversed all the same.
  pub decide_approval-Accepts :
      (t : Tx) (req : ApprovalDecisionRequest) (a : Approval) (r : ApprovalDecisionResult) (t' : Tx)
      → EdgesLogged t.db
      → approval_at t.db req.approval_id ≡ some a
      → decide_approval desk t req ≡ ok (r, t')
      → Accepts desk a.run_id (node_key_for_id t.db a.run_node_id) t req a (r, t')
  unfolding decide_approval decide_on
  decide_approval-Accepts t req a r t' l found h =
      Ensures-at {P = Accepts desk a.run_id (node_key_for_id t.db a.run_node_id) t req a}
        {a = (r, t')}
        (Ensures-require (is_acceptable desk req) _ _ λ fine. decide_found-Accepts t req a l)
        (rw found at h)
