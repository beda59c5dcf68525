-- ===== src/Controller/Routing/Routes.antt =====
-- The whole of routeFromTx (internal/controller/outcomes.go): edges traversed, nodes skipped, and
-- the decisions recorded.
use proceed.Base.{String, Bool, List, Result, ◌>>=◌}
use proceed.Store.Types.{GraphEdge}
use proceed.Controller.Writer.{Writer, Tx}
use proceed.Controller.Routing.{edges_from, traverse_edges, skippable, skip_nodes}
use proceed.Controller.Routing.Decisions.{record_routing_decision}
use proceed.Controller.Routing.Eligibility.{record_eligibility_decisions}

-- routeFromTx, on the edges that it selects
unfoldable pub route_edges :
    Writer → Tx → String → String → String → Bool → String → List GraphEdge → Result Tx
route_edges w t version digest node_key route_known route edges = do
  traversed ← traverse_edges w t route_known route edges
  skipped ← skip_nodes w traversed (skippable traversed.db version node_key route_known route edges)
  decided ← record_routing_decision w skipped version node_key digest route route_known edges
  record_eligibility_decisions w decided version digest edges

-- routeFromTx
unfoldable pub route_from : Writer → Tx → String → String → String → Bool → String → Result Tx
unfolding edges_from
route_from w t version digest node_key route_known route =
    route_edges w t version digest node_key route_known route (edges_from t.db version node_key)
