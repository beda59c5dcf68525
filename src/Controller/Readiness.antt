-- ===== src/Controller/Readiness.antt =====
-- The nodes of a run that may be started: eligibleNodes, and the key of an operation
-- (internal/controller/engine.go, internal/controller/controller.go).
pub mod Laws
pub mod Startable
use Prim.Native.String.{◌++◌ as str_append}
use proceed.Base.{
  ℕ, ◌+◌, String, Bool, true, false, not, ◌&&◌, ◌||◌, Option, none, some, List, [], ◌∷◌, str_eq,
  str_le, one_of, if◌then◌else◌, any_where, find_where, select_where,
}
use proceed.Store.Types.{Db, GraphNode, GraphEdge, RunNode, NodeStatus}
use proceed.Store.Nodes.{is_node_of}

-- runnableNode, without the retry policy that executeNode fills in
pub record RunnableNode : Type 0 where
  pub node_key : String
  pub node_type : String
  pub config : String
  pub attempt_no : ℕ

-- ORDER BY node_key
unfoldable pub insert_by_key : GraphNode → List GraphNode → List GraphNode
insert_by_key n [] = n ∷ []
insert_by_key n (m ∷ ms) =
    if str_le n.node_key m.node_key then n ∷ m ∷ ms else m ∷ insert_by_key n ms

unfoldable pub by_key : List GraphNode → List GraphNode
unfolding insert_by_key
by_key [] = []
by_key (n ∷ ns) = insert_by_key n (by_key ns)

-- the definitions of a version
unfoldable pub nodes_of_version : Db → String → List GraphNode
unfolding by_key
nodes_of_version db version =
    by_key (select_where (λ n. str_eq n.graph_version_id version) db.graph_nodes)

-- the LEFT JOIN with run_node
abbrev pub row_of : Db → String → String → Option RunNode
row_of db run_id key = find_where (is_node_of run_id key) db.nodes

-- status IN ('succeeded', 'skipped')
abbrev pub is_done_status : NodeStatus → Bool
is_done_status NodeStatus.succeeded = true
is_done_status NodeStatus.skipped = true
is_done_status _ = false

abbrev pub row_is_done : Option RunNode → Bool
row_is_done none = false
row_is_done (some n) = is_done_status n.status

-- the closure `done`
unfoldable pub done : Db → String → String → String → Bool
done db run_id version key =
    any_where (λ n. str_eq n.graph_version_id version && str_eq n.node_key key) db.graph_nodes
    && row_is_done (row_of db run_id key)

-- the map `traversed`
unfoldable pub traversed : Db → String → String → Bool
traversed db run_id edge_id =
    any_where (λ e. str_eq e.run_id run_id && str_eq e.edge_id edge_id) db.edges

-- an edge into the node that holds it back
unfoldable pub blocks : Db → String → String → String → GraphEdge → Bool
unfolding done traversed
blocks db run_id version key e =
    str_eq e.graph_version_id version
    && str_eq e.to_node_key key
    && (one_of e.type ("depends_on" ∷ "produces" ∷ "consumes" ∷ [])
          && not (done db run_id version e.from_node_key)
        || str_eq e.type "routes_to" && not (traversed db run_id e.id))

-- the variable `ready`
unfoldable pub ready : Db → String → String → String → Bool
unfolding blocks
ready db run_id version key = not (any_where (blocks db run_id version key) db.graph_edges)

-- whether the loop takes a node: by its status, or by its edges where it has not started
unfoldable pub is_taken : Db → String → String → String → Option RunNode → Bool
is_taken db run_id version key none = ready db run_id version key
is_taken db run_id version key (some n) = elim n.status [
  | NodeStatus.pending ↦ ready db run_id version key
  | NodeStatus.eligible ↦ true
  | _ ↦ false
]

-- COALESCE(rn.attempt_count, 0) + 1
abbrev pub next_attempt : Option RunNode → ℕ
next_attempt none = 1
next_attempt (some n) = n.attempt_count + 1

unfoldable pub runnable_nodes : Db → String → String → List GraphNode → List RunnableNode
runnable_nodes db run_id version [] = []
runnable_nodes db run_id version (n ∷ ns) =
    let rest = runnable_nodes db run_id version ns in
    if is_taken db run_id version n.node_key (row_of db run_id n.node_key)
    then record {
      node_key = n.node_key;
      node_type = n.type;
      config = n.config;
      attempt_no = next_attempt (row_of db run_id n.node_key);
    }
      ∷ rest
    else rest

-- eligibleNodes
unfoldable pub eligible_nodes : Db → String → String → List RunnableNode
eligible_nodes db run_id version = runnable_nodes db run_id version (nodes_of_version db version)
