-- ===== src/Controller/Routing.antt =====
-- The edges that a node opens when it succeeds, and the nodes that its route leaves out: routeFromTx
-- (internal/controller/outcomes.go).
pub mod Decisions
pub mod Eligibility
pub mod Routes
pub mod Respects
pub mod Rows
pub mod Traversed
pub mod Routed
use proceed.Base.{
  ℕ, String, Bool, true, false, not, ◌&&◌, ◌||◌, Option, none, some, List, [], ◌∷◌, Result, ok,
  ◌>>=◌, str_eq, str_le, one_of, is_empty, if◌then◌else◌, any_where, select_where,
}
use proceed.Store.Types.{Db, EventType, GraphEdge}
use proceed.Store.Nodes.{is_node_of}
use proceed.Controller.Writer.{Writer, Tx, note}

-- ORDER BY id
unfoldable pub insert_by_id : GraphEdge → List GraphEdge → List GraphEdge
insert_by_id e [] = e ∷ []
insert_by_id e (x ∷ xs) = if str_le e.id x.id then e ∷ x ∷ xs else x ∷ insert_by_id e xs

unfoldable pub by_id : List GraphEdge → List GraphEdge
unfolding insert_by_id
by_id [] = []
by_id (e ∷ es) = insert_by_id e (by_id es)

-- the edges that leave a node
unfoldable pub edges_from : Db → String → String → List GraphEdge
unfolding by_id
edges_from db version node_key = by_id (
    select_where (λ e. str_eq e.graph_version_id version && str_eq e.from_node_key node_key)
      db.graph_edges)

-- the first case of the switch
abbrev pub is_release : GraphEdge → Bool
is_release e = one_of e.type ("depends_on" ∷ "produces" ∷ "consumes" ∷ [])

abbrev pub is_route : GraphEdge → Bool
is_route e = str_eq e.type "routes_to"

-- `Cond.String`, the empty text where the condition is NULL
abbrev pub condition_of : GraphEdge → String
condition_of e = elim e.condition [ none ↦ "" | some s ↦ s ]

-- the variable `selected`
abbrev pub is_selected : String → GraphEdge → Bool
is_selected route e = is_empty (condition_of e) || str_eq route (condition_of e)

-- a route that is known and that the edge's condition matches
abbrev pub is_chosen : Bool → String → GraphEdge → Bool
is_chosen route_known route e = is_route e && (route_known && is_selected route e)

-- one round of the first loop
unfoldable pub traverse_one : Writer → Tx → Bool → String → GraphEdge → Result Tx
traverse_one w t route_known route e =
    if is_release e
    then note w t EventType.edge_traversed (w.print.passed e.id)
    else if is_chosen route_known route e
    then note w t EventType.edge_traversed (w.print.routed e.id (condition_of e))
    else ok t

-- the first loop
unfoldable pub traverse_edges : Writer → Tx → Bool → String → List GraphEdge → Result Tx
traverse_edges w t route_known route [] = ok t
traverse_edges w t route_known route (e ∷ es) =
    traverse_one w t route_known route e >>= λ t'. traverse_edges w t' route_known route es

abbrev pub targets : List GraphEdge → List String
targets [] = []
targets (e ∷ es) = e.to_node_key ∷ targets es

-- the targets of such edges, each once
unfoldable pub distinct_targets : (GraphEdge → Bool) → List String → List GraphEdge → List String
distinct_targets p seen [] = []
distinct_targets p seen (e ∷ es) = elim (p e && not (one_of e.to_node_key seen)) [
  | true ↦ e.to_node_key ∷ distinct_targets p (e.to_node_key ∷ seen) es
  | false ↦ distinct_targets p seen es
]

-- onlyIncomingRoutesFromNode
unfoldable pub only_incoming_routes : Db → String → String → String → Bool
only_incoming_routes db version node_key from = not (
    any_where
      (λ e.
        str_eq e.graph_version_id version
        && str_eq e.to_node_key node_key
        && is_route e
        && not (str_eq e.from_node_key from))
      db.graph_edges)

-- the second loop
unfoldable pub skippable : Db → String → String → Bool → String → List GraphEdge → List String
unfolding distinct_targets only_incoming_routes
skippable db version node_key route_known route edges =
    let opened = targets (select_where (is_chosen route_known route) edges) in
    distinct_targets
      (λ e.
        is_route e
        && not (one_of e.to_node_key opened)
        && only_incoming_routes db version e.to_node_key node_key)
      [] edges

-- the third loop
unfoldable pub skip_nodes : Writer → Tx → List String → Result Tx
skip_nodes w t [] = ok t
skip_nodes w t (key ∷ keys) =
    (if any_where (is_node_of w.run_id key) t.db.nodes
      then ok t
      else note w t EventType.node_skipped (w.codec.marshal_node key))
    >>= λ t'. skip_nodes w t' keys
