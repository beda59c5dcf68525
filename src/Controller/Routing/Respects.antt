-- ===== src/Controller/Routing/Respects.antt =====
-- What holds of a whole routing because it holds of each event that the routing may append.
use proceed.Base.{
  String, Bool, false, List, [], ◌∷◌, ◌≡◌, Result, ◌>>=◌, ◌||◌, ◌==◌, not, any_where, select_where,
  length, Ensures, Ensures-at, Ensures-bind, Ensures-map, Ensures-if, holds,
}
use proceed.Store.Types.{Db, EventType, GraphEdge}
use proceed.Store.Nodes.{is_node_of}
use proceed.Controller.Writer.{Writer, Tx, Snapshot, note}
use proceed.Store.Payload.{CausalLinkPayload}
use proceed.Controller.Routing.{is_route, is_chosen, traverse_edges, skip_nodes}
use proceed.Controller.Routing.Decisions.{
  Ruling, append_decision_event, decide_edges, record_routing_decision,
}
use proceed.Controller.Routing.Eligibility.{
  record_one_eligibility, record_eligibilities, record_eligibility_decisions, is_decided, all_done,
  dependencies,
}
use proceed.Controller.Routing.Routes.{route_edges, route_from}

-- a relation that the skips and the decisions stay in
pub record Respects (w : Writer) (R : Db → Db → Type 0) : Type 0 where
  pub same : (db : Db) → R db db
  pub join : {a b e : Db} → R a b → R b e → R a e
  pub skip :
      (t : Tx) (key : String)
      → any_where (is_node_of w.run_id key) t.db.nodes ≡ false
      → Ensures (λ t'. R t.db t'.db) (note w t EventType.node_skipped (w.codec.marshal_node key))
  pub decide :
      (t : Tx) (payload : String)
      → Ensures (λ t'. R t.db t'.db) (note w t EventType.decision_recorded payload)

module _ (w : Writer) (R : Db → Db → Type 0) (r : Respects w R) where
  abbrev Stays : Tx → Tx → Type 0
  Stays t t' = R t.db t'.db

  pub then-Stays :
      (t : Tx) (m : Result Tx) (k : Tx → Result Tx)
      → Ensures (Stays t) m
      → ((t' : Tx) → Ensures (Stays t') (k t'))
      → Ensures (Stays t) (m >>= k)
  then-Stays t m k first rest =
      Ensures-bind m k λ t' e. Ensures-map (λ d more. r.join (Ensures-at first e) more) (rest t')

  pub skip_nodes-Stays : (t : Tx) (keys : List String) → Ensures (Stays t) (skip_nodes w t keys)
  unfolding skip_nodes
  skip_nodes-Stays t [] = holds (r.same t.db)
  skip_nodes-Stays t (key ∷ keys) =
      then-Stays t _ _
        (Ensures-if (any_where (is_node_of w.run_id key) t.db.nodes) (λ there. holds (r.same t.db))
          λ missing. r.skip t key missing)
        λ t'. skip_nodes-Stays t' keys

  append_decision-Stays :
      (t : Tx) (q : Ruling) (edge_id rejection : String) (s : Snapshot)
      (links : List CausalLinkPayload)
      → Ensures (Stays t) (append_decision_event w t q edge_id rejection s links)
  unfolding append_decision_event
  append_decision-Stays t q edge_id rejection s links = r.decide t _

  decide_edges-Stays :
      (t : Tx) (q : Ruling) (route : String) (blocked : List String) (es : List GraphEdge)
      → Ensures (Stays t) (decide_edges w t q route blocked es)
  unfolding decide_edges
  decide_edges-Stays t q route blocked [] = holds (r.same t.db)
  decide_edges-Stays t q route blocked (e ∷ es) =
      then-Stays t _ _ (append_decision-Stays t q e.id "" _ _)
        λ t'. decide_edges-Stays t' q route [] es

  pub routing_decision-Stays :
      (t : Tx) (version node_key digest route : String) (known : Bool) (es : List GraphEdge)
      → Ensures (Stays t) (record_routing_decision w t version node_key digest route known es)
  unfolding record_routing_decision
  routing_decision-Stays t version node_key digest route known es =
      Ensures-if (length (select_where is_route es) == 0) (λ none_left. holds (r.same t.db))
        λ some_left.
          Ensures-if (length (select_where (is_chosen known route) es) == 0)
            (λ unmatched. append_decision-Stays t _ "" _ _ _)
            λ matched. decide_edges-Stays t _ route _ _

  one_eligibility-Stays :
      (t : Tx) (version digest key : String)
      → Ensures (Stays t) (record_one_eligibility w t version digest key)
  unfolding record_one_eligibility
  one_eligibility-Stays t version digest key =
      Ensures-if
        (length (dependencies t.db version key) == 0
          || not (all_done t.db w.run_id (dependencies t.db version key))
          || is_decided t.db w.run_id key)
        (λ settled. holds (r.same t.db)) λ due. append_decision-Stays t _ "" "" _ _

  eligibilities-Stays :
      (t : Tx) (version digest : String) (keys : List String)
      → Ensures (Stays t) (record_eligibilities w t version digest keys)
  unfolding record_eligibilities
  eligibilities-Stays t version digest [] = holds (r.same t.db)
  eligibilities-Stays t version digest (key ∷ keys) =
      then-Stays t _ _ (one_eligibility-Stays t version digest key)
        λ t'. eligibilities-Stays t' version digest keys

  pub eligibility_decisions-Stays :
      (t : Tx) (version digest : String) (es : List GraphEdge)
      → Ensures (Stays t) (record_eligibility_decisions w t version digest es)
  unfolding record_eligibility_decisions
  eligibility_decisions-Stays t version digest es = eligibilities-Stays t version digest _

  -- a routing, where its first loop stays in the relation too
  pub route_from-Stays :
      ((t : Tx) (known : Bool) (route : String) (es : List GraphEdge)
        → Ensures (Stays t) (traverse_edges w t known route es))
      → (t : Tx) (version digest key : String) (known : Bool) (route : String)
      → Ensures (Stays t) (route_from w t version digest key known route)
  unfolding route_from route_edges
  route_from-Stays traversing t version digest key known route =
      then-Stays t _ _ (traversing t known route _) λ t1.
        then-Stays t1 _ _ (skip_nodes-Stays t1 _) λ t2.
          then-Stays t2 _ _ (routing_decision-Stays t2 version key digest route known _)
            λ t3. eligibility_decisions-Stays t3 version digest _
