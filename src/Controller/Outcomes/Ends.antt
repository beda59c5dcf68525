-- ===== src/Controller/Outcomes/Ends.antt =====
-- The last event of a node: its status, and that no edge is traversed yet
-- (internal/controller/outcomes.go).
use proceed.Base.{
  String, Option, List, [], ◌∷◌, ◌≡◌, ◌∙◌, refl, subst, ok, find_where, Extends, Extends-trans,
  Extends-eq, Ensures, Ensures-at, Ensures-bind, Ensures-map, holds, arith,
}
use proceed.Store.Types.{Db, Event, EventType, NodeStatus}
use proceed.Store.Payload.{Codec}
use proceed.Store.Nodes.{is_node_of}
use proceed.Store.StatusMachine.{next_status}
use proceed.Store.Projection.{handle}
use proceed.Store.Frame.{on_artifact_published-Keeps}
use proceed.Store.Frame.Edges.{SameEdges, on_artifact_published-edges}
use proceed.Store.Named.{node_at, HasStatus, status_before}
use proceed.Store.Replay.Machine.{handle-Moves}
use proceed.Controller.Writer.{Writer, Tx, note_at}
use proceed.Controller.Writer.Applied.{Applied, Applied-status, NamesNode, note_at-Applied, logged}
use proceed.Controller.Routing.Rows.{Leaves, Leaves-refl, Leaves-trans, logged-Leaves}
use proceed.Controller.Outcomes.{
  ArtifactRef, ExecutorResult, Execution, append_artifacts, append_end, finish_with,
  result_or_empty, status_of,
}

-- artifacts change neither nodes nor edges
pub record Stores (db d : Db) : Type 0 where
  pub leaves : Leaves db d
  pub nodes : d.nodes ≡ db.nodes

pub append_artifacts-Stores :
    (w : Writer) (t : Tx) (key op_key : String) (refs : List ArtifactRef)
    → Ensures (λ t'. Stores t.db t'.db) (append_artifacts w t key op_key refs)
unfolding append_artifacts handle
append_artifacts-Stores w t key op_key [] =
    holds (record { leaves = Leaves-refl t.db; nodes = refl })
append_artifacts-Stores w t key op_key (x ∷ rest) =
    Ensures-bind (note_at w t EventType.artifact_published op_key _) _ λ t1 first.
      let a = Ensures-at (note_at-Applied w t EventType.artifact_published op_key _) first in
      let k = on_artifact_published-Keeps w.codec (logged t.db a.stored) a.stored a.projected in
      let one : Leaves t.db t1.db = logged-Leaves t.db a.stored (record {
        nodes = Extends-eq k.nodes;
        edges =
            Ensures-at (on_artifact_published-edges w.codec (logged t.db a.stored) a.stored)
              a.projected;
        events = Extends-eq k.fixed.events;
        graph_edges = k.fixed.graph_edges;
      }) in
      Ensures-map
        (λ t' (s : Stores t1.db t'.db). record {
          leaves = Leaves-trans one s.leaves;
          nodes = s.nodes ∙ k.nodes;
        })
        (append_artifacts-Stores w t1 key op_key rest)

-- the payload of the node's last event is read back
abbrev pub PrintsEnd : Writer → EventType → Execution → Option ExecutorResult → Type 0
PrintsEnd w type n result =
    NamesNode w.codec type
      (w.print.result n.node_key n.attempt_no (result_or_empty result).output
        (result_or_empty result).route)
      n.node_key

-- the node after its last event
pub record Ends (run_id key : String) (s : NodeStatus) (db d : Db) : Type 0 where
  pub status : HasStatus run_id key s d
  pub edges : d.edges ≡ db.edges
  pub graph_edges : d.graph_edges ≡ db.graph_edges
  pub events : Extends db.events d.events

-- one event that ends a node, or tells it to
pub Applied-Ends :
    (c : Codec) (db : Db) (type : EventType) (run_id payload key : String) (d : Db)
    → NamesNode c type payload key
    → ((m : Db) (ev : Event) → Ensures (SameEdges m) (handle type c m ev))
    → Applied c db type run_id payload d
    → Ends run_id key (next_status type (status_before (node_at db run_id key))) db d
Applied-Ends c db type run_id payload key d names same a =
    let m = handle-Moves c (logged db a.stored) a.stored type a.same_type a.projected in
    record {
      status = Applied-status c db type run_id payload key names a;
      edges = Ensures-at (same (logged db a.stored) a.stored) a.projected;
      graph_edges = m.fixed.graph_edges;
      events = record { added = a.stored ∷ []; eq = m.fixed.events };
    }

module _ (w : Writer) (n : Execution) (result : Option ExecutorResult) (op_key : String) where
  append_end-Ends :
      (t : Tx) (type : EventType)
      → PrintsEnd w type n result
      → ((m : Db) (ev : Event) → Ensures (SameEdges m) (handle type w.codec m ev))
      → Ensures
          (λ t'.
            Ends w.run_id n.node_key
              (next_status type (status_before (node_at t.db w.run_id n.node_key)))
              t.db
              t'.db)
          (append_end w t type n (result_or_empty result) op_key)
  unfolding append_end
  append_end-Ends t type prints same =
      Ensures-map (λ t' a. Applied-Ends w.codec t.db type w.run_id _ n.node_key t'.db prints same a)
        (note_at-Applied w t type op_key _)

  pub finish_with-Ends :
      (t : Tx) (type : EventType)
      → PrintsEnd w type n result
      → ((m : Db) (ev : Event) → Ensures (SameEdges m) (handle type w.codec m ev))
      → Ensures
          (λ t'.
            Ends w.run_id n.node_key
              (next_status type (status_before (node_at t.db w.run_id n.node_key)))
              t.db
              t'.db)
          (finish_with w t type n (result_or_empty result) op_key)
  unfolding finish_with node_at
  finish_with-Ends t type prints same =
      Ensures-bind (append_artifacts w t n.node_key op_key (result_or_empty result).artifacts) _
        λ t1 first.
          let s = Ensures-at (append_artifacts-Stores w t n.node_key op_key _) first in
          Ensures-map
            (λ t'
                (e : Ends w.run_id n.node_key
                  (next_status type (status_before (node_at t1.db w.run_id n.node_key))) t1.db
                  t'.db).
              record {
                status =
                    subst
                      (λ ns.
                        HasStatus w.run_id n.node_key
                          (next_status type
                            (status_before (find_where (is_node_of w.run_id n.node_key) ns)))
                          t'.db)
                      s.nodes e.status;
                edges = e.edges ∙ s.leaves.edges;
                graph_edges = e.graph_edges ∙ s.leaves.graph_edges;
                events = Extends-trans s.leaves.events e.events;
              })
            (append_end-Ends t1 type prints same)

  -- the node's status, as the code reads it
  pub read_status :
      (t : Tx) (s : NodeStatus)
      → status_of t.db w.run_id n.node_key ≡ ok s
      → status_before (node_at t.db w.run_id n.node_key) ≡ s
  unfolding status_of
  read_status t s h = ground arith
