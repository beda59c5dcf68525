-- ===== src/Controller/Routing/Traversed.antt =====
-- The rows of run_edge that the first loop of routeFromTx adds: one for each edge that the node
-- opens, in the order of the edges (internal/controller/outcomes.go).
use proceed.Base.{
  String, Bool, true, false, ◌||◌, some, List, [], ◌∷◌, ◌++◌, ◌≡◌, ◌∙◌, any_where-Extends, refl,
  sym, subst, ap, inl, inr, ok, str_eq, str_eq_iff, str_eq_refl, if◌then◌else◌, any_where, All,
  All-map, any_where-append, Extends, Extends-refl, Extends-trans, Ensures, Ensures-at,
  Ensures-bind, Ensures-map, Ensures-intro, Ensures-if, holds, Bool-cases, arith,
}
use mathlib.Core.List.{append-nil, append_assoc}
use proceed.Store.Types.{Db, Event, EventType, RunEdge, GraphEdge}
use proceed.Store.Payload.{Codec, EdgeTraversedPayload}
use proceed.Store.Sql.{nullable_or}
use proceed.Store.Runs.{insert_edge, on_edge_traversed}
use proceed.Store.Projection.{handle}
use proceed.Store.Frame.{on_edge_traversed-Keeps}
use proceed.Controller.Writer.{Writer, Tx, note}
use proceed.Controller.Writer.Applied.{note-Applied, logged}
use proceed.Controller.Routing.{is_release, is_chosen, traverse_one, traverse_edges}

-- every row of run_edge was made by an event of the log
abbrev pub EdgesLogged : Db → Type 0
EdgesLogged db = All (λ e. any_where (λ v. str_eq v.event_id e.id) db.events ≡ true) db.edges

-- encoding/json prints the payload of an edge and reads it back
abbrev pub ReadsBack : Codec → String → String → Type 0
ReadsBack c payload edge_id =
    (text : String) × (p : EdgeTraversedPayload) × (c.canonical_json payload ≡ some text)
    × (c.edge_traversed text ≡ some p)
    × (p.edge_id ≡ edge_id)

pub record PrintsEdges (w : Writer) : Type 0 where
  pub passed : (id : String) → ReadsBack w.codec (w.print.passed id) id
  pub routed : (id route : String) → ReadsBack w.codec (w.print.routed id route) id

abbrev pub row_ids : List RunEdge → List String
row_ids [] = []
row_ids (e ∷ es) = e.edge_id ∷ row_ids es

-- rows for these edges are added to run_edge
pub record Traverses (run_id : String) (ids : List String) (db d : Db) : Type 0 where
  pub added : List RunEdge
  pub edges : d.edges ≡ db.edges ++ added
  pub same_run : All (λ e. e.run_id ≡ run_id) added
  pub same_ids : row_ids added ≡ ids

-- what is left of the tables
pub record Opens (run_id : String) (ids : List String) (db d : Db) : Type 0 where
  pub traverses : Traverses run_id ids db d
  pub nodes : d.nodes ≡ db.nodes
  pub graph_edges : d.graph_edges ≡ db.graph_edges
  pub events : Extends db.events d.events
  pub kept : EdgesLogged d

pub EdgesLogged-later :
    (db d : Db) → Extends db.events d.events → d.edges ≡ db.edges → EdgesLogged db → EdgesLogged d
EdgesLogged-later db d e same l =
    subst (All (λ x. any_where (λ v. str_eq v.event_id x.id) d.events ≡ true)) (sym same)
      (All-map _ _ (λ x h. any_where-Extends _ db.events e h) db.edges l)

unused_id :
    (events : List Event) (id : String) (es : List RunEdge)
    → any_where (λ v. str_eq v.event_id id) events ≡ false
    → All (λ e. any_where (λ v. str_eq v.event_id e.id) events ≡ true) es
    → any_where (λ e. str_eq e.id id) es ≡ false
unfolding any_where
unused_id events id [] new_id l = refl
unused_id events id (e ∷ es) new_id l = elim (Bool-cases (str_eq e.id id)) [
  | inl same ↦
      let eq : e.id ≡ id = (str_eq_iff e.id id).0 same in
      let used : any_where (λ v. str_eq v.event_id id) events ≡ true =
        subst (λ i. any_where (λ v. str_eq v.event_id i) events ≡ true) eq l.0 in
      absurd (ground (arith, used, new_id))
  | inr other ↦ ground (arith, other, unused_id events id es new_id l.1)
]

All-snoc :
    {A : Type 0} (P : A → Type 0) (xs : List A) (y : A) → All P xs → P y → All P (xs ++ (y ∷ []))
All-snoc P [] y h p = (p, tt)
All-snoc P (x ∷ xs) y h p = (h.0, All-snoc P xs y h.1 p)

-- the projection adds the row
inserted_edge :
    (db : Db) (row : RunEdge)
    → any_where (λ e. str_eq e.id row.id) db.edges ≡ false
    → Ensures (λ d. d.edges ≡ db.edges ++ (row ∷ [])) (insert_edge db row)
unfolding insert_edge
inserted_edge db row free = Ensures-intro _ λ d h. ground arith

-- the id of the event that is last in the log is found there
last_logged :
    (db : Db) (ev : Event)
    → any_where (λ v. str_eq v.event_id ev.event_id) (db.events ++ (ev ∷ [])) ≡ true
unfolding any_where
last_logged db ev =
    any_where-append (λ v. str_eq v.event_id ev.event_id) db.events (ev ∷ [])
    ∙ ground (arith, str_eq_refl ev.event_id)

edge_traversed-Opens :
    (c : Codec) (db : Db) (ev : Event) (p : EdgeTraversedPayload)
    → c.edge_traversed ev.payload ≡ some p
    → any_where (λ e. str_eq e.event_id ev.event_id) db.events ≡ false
    → EdgesLogged db
    → Ensures (Opens ev.run_id (p.edge_id ∷ []) db) (on_edge_traversed c (logged db ev) ev)
unfolding on_edge_traversed
edge_traversed-Opens c db ev p read new_id l = Ensures-intro _ λ d h.
    let row : RunEdge = record {
      id = ev.event_id;
      run_id = ev.run_id;
      edge_id = p.edge_id;
      route = nullable_or p.route;
      sequence_in_run = p.sequence_in_run;
      traversed_at = ev.occurred_at;
    } in
    let done : insert_edge (logged db ev) row ≡ ok d = ground (arith, read, h) in
    let free = unused_id db.events ev.event_id db.edges new_id l in
    let same = Ensures-at (inserted_edge (logged db ev) row free) done in
    let k = on_edge_traversed-Keeps c (logged db ev) ev h in
    record {
      traverses = record { added = row ∷ []; edges = same; same_run = (refl, tt); same_ids = refl };
      nodes = k.nodes;
      graph_edges = k.fixed.graph_edges;
      events = record { added = ev ∷ []; eq = k.fixed.events };
      kept = subst (All (λ e. any_where (λ v. str_eq v.event_id e.id) d.events ≡ true)) (sym same) (
          All-snoc _ db.edges row
            (All-map _ _
              (λ x h.
                any_where-Extends _ db.events (record { added = ev ∷ []; eq = k.fixed.events }) h)
              db.edges l)
            (subst (λ es. any_where (λ v. str_eq v.event_id ev.event_id) es ≡ true)
              (sym k.fixed.events) (last_logged db ev)));
    }

note-Opens :
    (w : Writer) (t : Tx) (payload id : String)
    → ReadsBack w.codec payload id
    → EdgesLogged t.db
    → Ensures
        (λ t'. Opens w.run_id (id ∷ []) t.db t'.db)
        (note w t EventType.edge_traversed payload)
unfolding handle
note-Opens w t payload id (text, p, printed, read, same) l =
    Ensures-map
      (λ t' a.
        let o =
          Ensures-at
            (edge_traversed-Opens w.codec t.db a.stored p (ground (arith, a.printed, printed, read))
              a.new_id l)
            a.projected in
        subst (λ r. Opens r (id ∷ []) t.db t'.db) a.same_run
          (subst (λ i. Opens a.stored.run_id (i ∷ []) t.db t'.db) same o))
      (note-Applied w t EventType.edge_traversed payload)

-- an edge that the node opens
abbrev pub opens : Bool → String → GraphEdge → Bool
opens known route e = is_release e || is_chosen known route e

Opens-none : (run_id : String) (db : Db) → EdgesLogged db → Opens run_id [] db db
Opens-none run_id db l = record {
  traverses = record {
    added = [];
    edges = sym (append-nil db.edges);
    same_run = tt;
    same_ids = refl;
  };
  nodes = refl;
  graph_edges = refl;
  events = Extends-refl db.events;
  kept = l;
}

row_ids-append : (xs ys : List RunEdge) → row_ids (xs ++ ys) ≡ row_ids xs ++ row_ids ys
row_ids-append [] ys = refl
row_ids-append (x ∷ xs) ys = ap (λ l. x.edge_id ∷ l) (row_ids-append xs ys)

All-append : {A : Type 0} (P : A → Type 0) (xs ys : List A) → All P xs → All P ys → All P (xs ++ ys)
All-append P [] ys h k = k
All-append P (x ∷ xs) ys h k = (h.0, All-append P xs ys h.1 k)

Opens-trans :
    {run_id : String} {ids more : List String} {a b e : Db}
    → Opens run_id ids a b
    → Opens run_id more b e
    → Opens run_id (ids ++ more) a e
Opens-trans {ids = ids} {a = a} k l = record {
  traverses = record {
    added = k.traverses.added ++ l.traverses.added;
    edges =
        l.traverses.edges
        ∙ ap (λ es. es ++ l.traverses.added) k.traverses.edges
        ∙ append_assoc a.edges k.traverses.added l.traverses.added;
    same_run =
        All-append _ k.traverses.added l.traverses.added k.traverses.same_run l.traverses.same_run;
    same_ids =
        row_ids-append k.traverses.added l.traverses.added
        ∙ ap (λ i. i ++ row_ids l.traverses.added) k.traverses.same_ids
        ∙ ap (λ i. ids ++ i) l.traverses.same_ids;
  };
  nodes = l.nodes ∙ k.nodes;
  graph_edges = l.graph_edges ∙ k.graph_edges;
  events = Extends-trans k.events l.events;
  kept = l.kept;
}

-- what one round adds
abbrev opened_by : Bool → String → GraphEdge → List String
opened_by known route e = if opens known route e then e.id ∷ [] else []

traverse_one-Opens :
    (w : Writer) (t : Tx) (known : Bool) (route : String) (e : GraphEdge)
    → PrintsEdges w
    → EdgesLogged t.db
    → Ensures
        (λ t'. Opens w.run_id (opened_by known route e) t.db t'.db)
        (traverse_one w t known route e)
unfolding traverse_one
traverse_one-Opens w t known route e prints l =
    Ensures-if (is_release e)
      (λ released. rw released (note-Opens w t _ e.id (prints.passed e.id) l))
      λ conditional.
        Ensures-if (is_chosen known route e)
          (λ chosen. rw (conditional, chosen) (note-Opens w t _ e.id (prints.routed e.id _) l))
          λ passed. holds (rw (conditional, passed) (Opens-none w.run_id t.db l))

-- the edges that the node opens, of those that leave it
abbrev pub opened : Bool → String → List GraphEdge → List String
opened known route [] = []
opened known route (e ∷ es) = opened_by known route e ++ opened known route es

pub traverse_edges-Opens :
    (w : Writer) (t : Tx) (known : Bool) (route : String) (es : List GraphEdge)
    → PrintsEdges w
    → EdgesLogged t.db
    → Ensures
        (λ t'. Opens w.run_id (opened known route es) t.db t'.db)
        (traverse_edges w t known route es)
unfolding traverse_edges
traverse_edges-Opens w t known route [] prints l = holds (Opens-none w.run_id t.db l)
traverse_edges-Opens w t known route (e ∷ es) prints l =
    Ensures-bind (traverse_one w t known route e) _ λ t' first.
      let o = Ensures-at (traverse_one-Opens w t known route e prints l) first in
      Ensures-map (λ d more. Opens-trans o more)
        (traverse_edges-Opens w t' known route es prints o.kept)
