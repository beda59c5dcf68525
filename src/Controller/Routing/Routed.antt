-- ===== src/Controller/Routing/Routed.antt =====
-- What routeFromTx leaves: the rows of run_edge that it adds, and the rows of run_node as they were
-- (internal/controller/outcomes.go).
use proceed.Base.{
  String, Bool, some, List, [], ◌∷◌, ◌++◌, ◌≡◌, ◌∙◌, subst, ap, find_where, select_where, str_eq,
  ◌&&◌, Extends, Ensures, Ensures-at, Ensures-bind, Ensures-map, arith,
}
use proceed.Store.Types.{Db, NodeStatus}
use proceed.Store.Nodes.{is_node_of}
use proceed.Store.Named.{node_at, HasStatus}
use proceed.Controller.Cancel.Appended.{IsPrinted}
use proceed.Controller.Writer.{Writer, Tx}
use proceed.Controller.Routing.{edges_from, by_id, traverse_edges}
use proceed.Controller.Routing.Routes.{route_edges, route_from}
use proceed.Controller.Routing.Respects.{
  skip_nodes-Stays, routing_decision-Stays, eligibility_decisions-Stays, then-Stays,
}
use proceed.Controller.Routing.Rows.{Leaves, Respects-Leaves}
use proceed.Controller.Routing.Traversed.{
  EdgesLogged, PrintsEdges, Traverses, opened, traverse_edges-Opens,
}

-- what a routing leaves
pub record Routed (run_id : String) (ids : List String) (db d : Db) : Type 0 where
  pub traverses : Traverses run_id ids db d
  pub nodes : Extends db.nodes d.nodes

Traverses-Leaves :
    {run_id : String} {ids : List String} {a b e : Db}
    → Traverses run_id ids a b
    → Leaves b e
    → Traverses run_id ids a e
Traverses-Leaves k l = record {
  added = k.added;
  edges = l.edges ∙ k.edges;
  same_run = k.same_run;
  same_ids = k.same_ids;
}

module _ (w : Writer) (nodes : IsPrinted w.codec) (edges : PrintsEdges w) where
  pub route_from-Routed :
      (t : Tx) (version digest key : String) (known : Bool) (route : String)
      → EdgesLogged t.db
      → Ensures
          (λ t'. Routed w.run_id (opened known route (edges_from t.db version key)) t.db t'.db)
          (route_from w t version digest key known route)
  unfolding route_from route_edges
  route_from-Routed t version digest key known route l =
      let es = edges_from t.db version key in
      let r = Respects-Leaves w nodes in
      Ensures-bind (traverse_edges w t known route es) _ λ t1 first.
        let o = Ensures-at (traverse_edges-Opens w t known route es edges l) first in
        Ensures-map
          (λ t' (m : Leaves t1.db t'.db). record {
            traverses = Traverses-Leaves o.traverses m;
            nodes = subst (λ ns. Extends ns t'.db.nodes) o.nodes m.nodes;
          })
          (then-Stays w Leaves r t1 _ _ (skip_nodes-Stays w Leaves r t1 _) λ t2.
            then-Stays w Leaves r t2 _ _
              (routing_decision-Stays w Leaves r t2 version key digest route known es)
              λ t3. eligibility_decisions-Stays w Leaves r t3 version digest es)

-- a row that is found is found when rows are added
pub find_where-Extends :
    {A : Type 0} (q : A → Bool) (xs ys : List A) {x : A}
    → find_where q xs ≡ some x
    → find_where q (xs ++ ys) ≡ some x
unfolding find_where
find_where-Extends q [] ys h = absurd (ground (arith, h))
find_where-Extends q (y ∷ xs) ys {x} h = ground (arith, find_where-Extends q xs ys {x = x})

pub HasStatus-later :
    (run_id key : String) (s : NodeStatus) (db d : Db)
    → Extends db.nodes d.nodes
    → HasStatus run_id key s db
    → HasStatus run_id key s d
unfolding node_at
HasStatus-later run_id key s db d e h = record {
  row = h.row;
  found =
      ap (find_where (is_node_of run_id key)) e.eq
      ∙ find_where-Extends (is_node_of run_id key) db.nodes e.added h.found;
  status = h.status;
}

-- rows added to a table that an earlier step left alone
pub Traverses-from :
    {run_id : String} {ids more : List String} {a b e : Db}
    → b.edges ≡ a.edges
    → ids ≡ more
    → Traverses run_id ids b e
    → Traverses run_id more a e
Traverses-from same eq k = record {
  added = k.added;
  edges = k.edges ∙ ap (λ es. es ++ k.added) same;
  same_run = k.same_run;
  same_ids = k.same_ids ∙ eq;
}

pub edges_from-same :
    (a b : Db) (version key : String)
    → b.graph_edges ≡ a.graph_edges
    → edges_from b version key ≡ edges_from a version key
unfolding edges_from
edges_from-same a b version key same =
    ap
      (λ es.
        by_id
          (select_where (λ e. str_eq e.graph_version_id version && str_eq e.from_node_key key) es))
      same
