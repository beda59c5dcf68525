-- ===== src/Controller/Approvals/EndsBy.antt =====
-- What the events of a decision do to the node that waits for it (internal/controller/approval.go).
use proceed.Base.{
  ℕ, String, Bool, true, false, [], ◌∷◌, ◌≡◌, ◌∙◌, subst, ap, ok, is_empty, if◌then◌else◌,
  find_where, Extends, Ensures, Ensures-at, Ensures-bind, Ensures-map, Ensures-if, arith,
}
use proceed.Store.Types.{Db, Event, EventType, NodeStatus, Approval}
use proceed.Store.Payload.{Codec}
use proceed.Store.Nodes.{is_node_of}
use proceed.Store.StatusMachine.{next_status}
use proceed.Store.Projection.{handle}
use proceed.Store.Evidence.{on_approval_decided}
use proceed.Store.Frame.{on_approval_decided-Keeps}
use proceed.Store.Frame.Edges.{on_approval_decided-edges, on_node_terminal-edges}
use proceed.Store.Named.{node_at, HasStatus, status_before}
use proceed.Controller.Cancel.Appended.{IsPrinted}
use proceed.Controller.Writer.{Tx, append_within}
use proceed.Controller.Writer.Applied.{NamesNode, append_within-Applied, logged}
use proceed.Controller.Routing.{edges_from}
use proceed.Controller.Routing.Traversed.{
  EdgesLogged, EdgesLogged-later, PrintsEdges, Traverses, opened,
}
use proceed.Controller.Routing.Routed.{
  Routed, route_from-Routed, HasStatus-later, Traverses-from, edges_from-same,
}
use proceed.Controller.Outcomes.Ends.{Applied-Ends}
use proceed.Controller.Approvals.{
  Desk, ApprovalDecisionRequest, end_decided, end_node_of, decision_event, decided_route,
  route_among, is_denial,
}

-- the decision itself touches neither nodes nor edges
pub record Notes (db d : Db) : Type 0 where
  pub nodes : d.nodes ≡ db.nodes
  pub edges : d.edges ≡ db.edges
  pub graph_edges : d.graph_edges ≡ db.graph_edges
  pub events : Extends db.events d.events

decided_by_handler :
    (b : Bool) (c : Codec) (m : Db) (ev : Event) (d : Db)
    → handle (if b then EventType.approval_denied else EventType.approval_granted) c m ev ≡ ok d
    → on_approval_decided c m ev ≡ ok d
unfolding handle
decided_by_handler true c m ev d h = h
decided_by_handler false c m ev d h = h

pub decision-Notes :
    (desk : Desk) (t : Tx) (req : ApprovalDecisionRequest) (key : String)
    → Ensures (λ t'. Notes t.db t'.db) (append_within desk.writer t (decision_event desk t req key))
decision-Notes desk t req key =
    Ensures-map
      (λ t' a.
        let c = desk.writer.codec in
        let m = logged t.db a.stored in
        let done = decided_by_handler (is_denial req) c m a.stored t'.db a.projected in
        let k = on_approval_decided-Keeps c m a.stored done in
        record {
          nodes = k.nodes;
          edges = Ensures-at (on_approval_decided-edges c m a.stored) done;
          graph_edges = k.fixed.graph_edges;
          events = record { added = a.stored ∷ []; eq = k.fixed.events };
        })
      (append_within-Applied desk.writer t (decision_event desk t req key))

-- encoding/json prints the payloads of the node's end and reads them back
pub record PrintsEnds (desk : Desk) : Type 0 where
  pub finished :
      (key output route : String) (nr : ℕ)
      → NamesNode desk.writer.codec EventType.node_finished
          (desk.writer.print.result key nr output route)
          key
  pub failed :
      (key output : String) (nr : ℕ)
      → NamesNode desk.writer.codec EventType.node_failed (desk.papers.denial key nr output) key

-- the node's status and the edges traversed, where it ends by a route or by none
pub record EndsBy (run_id version key route : String) (s : NodeStatus) (db d : Db) : Type 0 where
  pub failed :
      is_empty route ≡ true
      → HasStatus run_id key (next_status EventType.node_failed s) d × (d.edges ≡ db.edges)
  pub finished :
      is_empty route ≡ false
      → HasStatus run_id key (next_status EventType.node_finished s) d
        × Traverses run_id (opened true route (edges_from db version key)) db d

module _ (desk : Desk) (nodes : IsPrinted desk.writer.codec) (edges : PrintsEdges desk.writer)
    (ends : PrintsEnds desk) where
  pub end_decided-EndsBy :
      (t : Tx) (a : Approval) (key : String) (nr : ℕ) (cause digest route : String)
      (req : ApprovalDecisionRequest)
      → EdgesLogged t.db
      → Ensures
          (λ t'.
            EndsBy desk.writer.run_id a.graph_version_id key route
              (status_before (node_at t.db desk.writer.run_id key))
              t.db
              t'.db)
          (end_decided desk t a key nr cause digest route req)
  unfolding end_decided end_node_of handle
  end_decided-EndsBy t a key nr cause digest route req l =
      let w = desk.writer in
      let output = desk.papers.output req.decision req.actor req.reason in
      Ensures-if (is_empty route)
        (λ none_left.
          Ensures-map
            (λ t' x.
              let e =
                Applied-Ends w.codec t.db EventType.node_failed w.run_id _ key t'.db
                  (ends.failed key output nr) (on_node_terminal-edges w.codec) x in
              record {
                failed = λ _. (e.status, e.edges);
                finished = λ other. absurd (ground (arith, other, none_left));
              })
            (append_within-Applied w t _))
        λ some_left. Ensures-bind (append_within w t _) _ λ t1 first.
          let e =
            Applied-Ends w.codec t.db EventType.node_finished w.run_id _ key t1.db
              (ends.finished key output route nr) (on_node_terminal-edges w.codec)
              (Ensures-at (append_within-Applied w t _) first) in
          Ensures-map
            (λ t'
                (r : Routed w.run_id (opened true route (edges_from t1.db a.graph_version_id key))
                  t1.db t'.db).
              record {
                failed = λ other. absurd (ground (arith, other, some_left));
                finished = λ _. (
                  HasStatus-later w.run_id key _ t1.db t'.db r.nodes e.status,
                  Traverses-from e.edges
                      (ap (opened true route)
                        (edges_from-same t.db t1.db a.graph_version_id key e.graph_edges))
                      r.traverses,
                );
              })
            (route_from-Routed w nodes edges t1 a.graph_version_id digest key true route
              (EdgesLogged-later t.db t1.db e.events e.edges l))

-- the same, seen from before the decision
pub EndsBy-from :
    (run_id version key route more : String) (a b d : Db)
    → Notes a b
    → route ≡ more
    → EndsBy run_id version key route (status_before (node_at b run_id key)) b d
    → EndsBy run_id version key more (status_before (node_at a run_id key)) a d
unfolding node_at
EndsBy-from run_id version key route more a b d n same e =
    let statuses : status_before (node_at b run_id key) ≡ status_before (node_at a run_id key) =
      ap (λ ns. status_before (find_where (is_node_of run_id key) ns)) n.nodes in
    let moved : EndsBy run_id version key more (status_before (node_at a run_id key)) b d =
      subst (λ r. EndsBy run_id version key r (status_before (node_at a run_id key)) b d) same
        (subst (λ s. EndsBy run_id version key route s b d) statuses e) in
    record {
      failed = λ h. ((moved.failed h).0, (moved.failed h).1 ∙ n.edges);
      finished = λ h. (
        (moved.finished h).0,
        Traverses-from n.edges
            (ap (opened true more) (edges_from-same a b version key n.graph_edges))
            (moved.finished h).1,
      );
    }

pub decided_route-same :
    (a b : Db) (x : Approval) (key : String) (req : ApprovalDecisionRequest)
    → b.graph_edges ≡ a.graph_edges
    → decided_route b x key req ≡ decided_route a x key req
unfolding decided_route route_among
decided_route-same a b x key req same = ground (arith, same)
