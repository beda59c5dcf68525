-- ===== src/Controller/Routing/Rows.antt =====
-- Routing changes no row of run_node and no row of run_edge that is there: it adds some.
use proceed.Base.{
  String, Bool, false, some, List, [], ◌∷◌, ◌++◌, ◌≡◌, ◌∙◌, refl, ap, str_eq, str_eq_refl,
  any_where, update_where, Extends, Extends-refl, Extends-trans, Extends-eq, Ensures, Ensures-at,
  Ensures-bind, Ensures-map, Ensures-intro, holds, arith,
}
use proceed.Store.Types.{Db, Event, EventType, RunNode, NodeStatus}
use proceed.Store.Payload.{Codec, NodeTerminalPayload}
use proceed.Store.Sql.{decode_payload}
use proceed.Store.Nodes.{
  is_node_of, is_uncancelled, finish_node, run_node_id, insert_node, ensure_run_node, pending_node,
}
use proceed.Store.Moved.{on_node_skipped}
use proceed.Store.Projection.{handle}
use proceed.Store.Frame.{on_decision_recorded-Adds}
use proceed.Store.Frame.Edges.{ensure_run_node-edges, on_decision_recorded-edges}
use proceed.Store.Evidence.{on_decision_recorded}
use proceed.Store.Named.{find_where-none, find_where-append_one}
use proceed.Controller.Cancel.Appended.{IsPrinted}
use proceed.Controller.Writer.{Writer}
use proceed.Controller.Writer.Applied.{note-Applied, logged}
use proceed.Controller.Routing.Respects.{Respects}

-- rows are added to run_node and to the log; run_edge and the definitions are as they were
pub record Leaves (db d : Db) : Type 0 where
  pub nodes : Extends db.nodes d.nodes
  pub edges : d.edges ≡ db.edges
  pub events : Extends db.events d.events
  pub graph_edges : d.graph_edges ≡ db.graph_edges

pub Leaves-refl : (db : Db) → Leaves db db
Leaves-refl db = record {
  nodes = Extends-refl db.nodes;
  edges = refl;
  events = Extends-refl db.events;
  graph_edges = refl;
}

pub Leaves-trans : {a b e : Db} → Leaves a b → Leaves b e → Leaves a e
Leaves-trans k l = record {
  nodes = Extends-trans k.nodes l.nodes;
  edges = l.edges ∙ k.edges;
  events = Extends-trans k.events l.events;
  graph_edges = l.graph_edges ∙ k.graph_edges;
}

pub update_where-none :
    {A : Type 0} (p : A → Bool) (f : A → A) (xs ys : List A)
    → any_where p xs ≡ false
    → update_where p f (xs ++ ys) ≡ xs ++ update_where p f ys
unfolding update_where any_where
update_where-none p f [] ys h = refl
update_where-none p f (x ∷ xs) ys h = ground (arith, update_where-none p f xs ys)

any_where_weaker :
    {A : Type 0} (p q : A → Bool) (xs : List A)
    → ((x : A) → p x ≡ false → q x ≡ false)
    → any_where p xs ≡ false
    → any_where q xs ≡ false
unfolding any_where
any_where_weaker p q [] f h = refl
any_where_weaker p q (x ∷ xs) f h = ground (arith, f x, any_where_weaker p q xs f)

-- where the node has no row, the one that is made has an id that no row had
record Made (c : Codec) (db : Db) (run_id key : String) (r : String × Db) : Type 0 where
  pub row : RunNode
  pub nodes : r.1.nodes ≡ db.nodes ++ (row ∷ [])
  pub new_id : any_where (λ n. str_eq n.id r.0) db.nodes ≡ false
  pub events : r.1.events ≡ db.events
  pub graph_edges : r.1.graph_edges ≡ db.graph_edges

ensure_run_node-Made :
    (c : Codec) (db : Db) (run_id key : String)
    → any_where (is_node_of run_id key) db.nodes ≡ false
    → Ensures (Made c db run_id key) (ensure_run_node c db run_id key)
unfolding ensure_run_node insert_node run_node_id
ensure_run_node-Made c db run_id key missing = Ensures-intro _ λ r h. record {
  row = pending_node c run_id key;
  nodes = ground (arith, find_where-none (is_node_of run_id key) db.nodes missing);
  new_id = ground (
    arith,
    str_eq_refl run_id,
    str_eq_refl key,
    find_where-none (is_node_of run_id key) db.nodes missing,
    find_where-append_one (is_node_of run_id key) db.nodes (pending_node c run_id key),
  );
  events = ground (arith, find_where-none (is_node_of run_id key) db.nodes missing);
  graph_edges = ground (arith, find_where-none (is_node_of run_id key) db.nodes missing);
}

-- a node that has no row is skipped
skipped-Leaves :
    (c : Codec) (db : Db) (ev : Event) (p : NodeTerminalPayload)
    → c.node_terminal ev.payload ≡ some p
    → any_where (is_node_of ev.run_id p.node_key) db.nodes ≡ false
    → Ensures (Leaves db) (on_node_skipped c db ev)
unfolding on_node_skipped
skipped-Leaves c db ev p read missing =
    Ensures-bind (decode_payload (c.node_terminal ev.payload)) _ λ q same.
      let keys : q ≡ p = ground arith in
      Ensures-bind (ensure_run_node c db ev.run_id q.node_key) _ λ r made.
        let m =
          Ensures-at (ensure_run_node-Made c db ev.run_id q.node_key (ground (arith, keys))) made in
        holds (record {
          nodes = record {
            added =
                update_where (is_uncancelled r.0) (finish_node NodeStatus.skipped ev.occurred_at)
                  (m.row ∷ []);
            eq =
                ap
                  (update_where (is_uncancelled r.0)
                    (finish_node NodeStatus.skipped ev.occurred_at))
                  m.nodes
                ∙ update_where-none (is_uncancelled r.0)
                    (finish_node NodeStatus.skipped ev.occurred_at) db.nodes (m.row ∷ [])
                    (any_where_weaker (λ n. str_eq n.id r.0) (is_uncancelled r.0) db.nodes
                      (λ x h. ground arith) m.new_id);
          };
          edges = Ensures-at (ensure_run_node-edges c db ev.run_id q.node_key) made;
          events = Extends-eq m.events;
          graph_edges = m.graph_edges;
        })

pub logged-Leaves : (db : Db) (ev : Event) {d : Db} → Leaves (logged db ev) d → Leaves db d
logged-Leaves db ev l =
    Leaves-trans
      (record {
        nodes = Extends-refl db.nodes;
        edges = refl;
        events = record { added = ev ∷ []; eq = refl };
        graph_edges = refl;
      })
      l

decided-Leaves :
    (c : Codec) (db : Db) (ev : Event) → Ensures (Leaves db) (on_decision_recorded c db ev)
decided-Leaves c db ev = Ensures-intro _ λ d h.
    let a = on_decision_recorded-Adds c db ev h in
    record {
      nodes = a.nodes;
      edges = Ensures-at (on_decision_recorded-edges c db ev) h;
      events = Extends-eq a.fixed.events;
      graph_edges = a.fixed.graph_edges;
    }

-- the payloads of skips are read back, so that a skip is of a node that has no row
pub Respects-Leaves : (w : Writer) → IsPrinted w.codec → Respects w Leaves
unfolding handle
Respects-Leaves w prints = record {
  same = Leaves-refl;
  join = Leaves-trans;
  skip = λ t key missing.
      let (text, p, printed, read, same) = prints key in
      Ensures-map
        (λ t' a. logged-Leaves t.db a.stored (
          Ensures-at
            (skipped-Leaves w.codec (logged t.db a.stored) a.stored p
              (ground (arith, a.printed, printed, read))
              (ground (arith, a.same_run, same, missing)))
            a.projected))
        (note-Applied w t EventType.node_skipped (w.codec.marshal_node key));
  decide = λ t payload.
      Ensures-map
        (λ t' a.
          logged-Leaves t.db a.stored
            (Ensures-at (decided-Leaves w.codec (logged t.db a.stored) a.stored) a.projected))
        (note-Applied w t EventType.decision_recorded payload);
}
