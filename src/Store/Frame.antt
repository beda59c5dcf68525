-- ===== src/Store/Frame.antt =====
-- What the projections leave alone: no handler writes the event log, and run_node is written by
-- the node events, and extended by the handlers that need a node's row.
pub mod Edges
use proceed.Base.{
  ℕ, ◌+◌, String, List, [], ◌∷◌, ◌≡◌, ◌∙◌, refl, ok, ◌>>=◌, >>=-eq-ok, inl, inr, Result-cases,
  Extends, Extends-refl, Extends-eq, Extends-trans, Ensures-at, Ensures-bind, Ensures-intro, arith,
}
use proceed.Store.Types.{Event, Db, CausalLink, RunNode, DecisionRow, ExternalWait}
use proceed.Store.Payload.{Codec, CausalLinkPayload, RunParamValue, RunStartedPayload}
use proceed.Store.Sql.{decode_payload}
use proceed.Store.Nodes.{run_node_id, insert_node, ensure_run_node, pending_node}
use proceed.Store.Runs.{
  on_run_started, insert_param, insert_params, ensure_run, on_edge_traversed, on_run_terminal,
  find_run,
}
use proceed.Store.Evidence.{
  on_artifact_published, on_evaluation_failed, on_effect_intent, on_effect_receipt,
  on_approval_requested, on_approval_decided, insert_decision, insert_link, record_link,
  record_links, on_decision_recorded,
}
use proceed.Store.Waits.{
  insert_wait, on_wait_requested, on_wait_completed, on_wait_expired, on_wait_cancelled,
}

-- what no projection writes: the definitions, the log, and the pragma
pub record Fixed (db d : Db) : Type 0 where
  pub versions : d.versions ≡ db.versions
  pub graph_nodes : d.graph_nodes ≡ db.graph_nodes
  pub graph_edges : d.graph_edges ≡ db.graph_edges
  pub events : d.events ≡ db.events
  pub defer_fks : d.defer_fks ≡ db.defer_fks

pub Fixed-refl : (db : Db) → Fixed db db
Fixed-refl db = record {
  versions = refl;
  graph_nodes = refl;
  graph_edges = refl;
  events = refl;
  defer_fks = refl;
}

pub Fixed-trans : {db d e : Db} → Fixed db d → Fixed d e → Fixed db e
Fixed-trans k l = record {
  versions = l.versions ∙ k.versions;
  graph_nodes = l.graph_nodes ∙ k.graph_nodes;
  graph_edges = l.graph_edges ∙ k.graph_edges;
  events = l.events ∙ k.events;
  defer_fks = l.defer_fks ∙ k.defer_fks;
}

-- nor is run_node written
pub record Keeps (db d : Db) : Type 0 where
  pub nodes : d.nodes ≡ db.nodes
  pub fixed : Fixed db d

pub Keeps-trans : {db d e : Db} → Keeps db d → Keeps d e → Keeps db e
Keeps-trans k l = record { nodes = l.nodes ∙ k.nodes; fixed = Fixed-trans k.fixed l.fixed }

-- rows may be added to run_node
pub record Adds (db d : Db) : Type 0 where
  pub nodes : Extends db.nodes d.nodes
  pub fixed : Fixed db d

pub Adds-Keeps : {db d : Db} → Keeps db d → Adds db d
Adds-Keeps k = record { nodes = Extends-eq k.nodes; fixed = k.fixed }

pub Adds-refl : (db : Db) → Adds db db
Adds-refl db = record { nodes = Extends-refl db.nodes; fixed = Fixed-refl db }

pub Adds-trans : {db d e : Db} → Adds db d → Adds d e → Adds db e
Adds-trans k l = record {
  nodes = Extends-trans k.nodes l.nodes;
  fixed = Fixed-trans k.fixed l.fixed;
}

pub insert_node-Adds : (db : Db) (row : RunNode) (d : Db) → insert_node db row ≡ ok d → Adds db d
unfolding insert_node
insert_node-Adds db row d h = record {
  nodes = record { added = row ∷ []; eq = ground arith };
  fixed = ground arith;
}

insert_param-Keeps :
    (db : Db) (r : String) (v : RunParamValue) (d : Db) → insert_param db r v ≡ ok d → Keeps db d
unfolding insert_param
insert_param-Keeps db r v d h = ground arith

insert_params-Keeps :
    (db : Db) (r : String) (vs : List RunParamValue) (d : Db)
    → insert_params db r vs ≡ ok d
    → Keeps db d
unfolding insert_params
insert_params-Keeps db r [] d h = ground arith
insert_params-Keeps db r (v ∷ vs) d h =
    let (m, first, rest) = >>=-eq-ok (insert_param db r v) (λ db'. insert_params db' r vs) h in
    let one = insert_param-Keeps db r v m first in
    let more = insert_params-Keeps m r vs d rest in
    record { nodes = more.nodes ∙ one.nodes; fixed = Fixed-trans one.fixed more.fixed }

module _ (db : Db) (ev : Event) where
  ensure_run-Keeps :
      (p : RunStartedPayload) (digest : String) (d : Db)
      → ensure_run db ev p digest ≡ ok d
      → Keeps db d
  unfolding ensure_run
  ensure_run-Keeps p digest d h = ground arith

pub ensure_run_node-Adds :
    (c : Codec) (db : Db) (run_id key : String) (r : String × Db)
    → ensure_run_node c db run_id key ≡ ok r
    → Adds db r.1
unfolding ensure_run_node
ensure_run_node-Adds c db run_id key r h = elim (Result-cases (run_node_id db run_id key)) [
  | inl (id, e) ↦ let same : r.1 ≡ db = ground arith in rw same (Adds-refl db)
  | inr (e, missing) ↦
      let (m, made, found) =
        >>=-eq-ok (insert_node db (pending_node c run_id key))
          (λ db'. run_node_id db' run_id key >>= λ id. ok (id, db'))
          (rw (missing, ensure_run_node) at h) in
      let same : r.1 ≡ m = ground arith in rw same (insert_node-Adds db _ m made)
]

module _ (c : Codec) (db : Db) (ev : Event) {d : Db} where
  pub on_run_started-Keeps : on_run_started c db ev ≡ ok d → Keeps db d
  unfolding on_run_started
  on_run_started-Keeps h = grind (arith, insert_params-Keeps, ensure_run-Keeps)

  pub on_edge_traversed-Keeps : on_edge_traversed c db ev ≡ ok d → Keeps db d
  unfolding on_edge_traversed
  on_edge_traversed-Keeps h = ground arith

  pub on_run_terminal-Keeps : on_run_terminal c db ev ≡ ok d → Keeps db d
  unfolding on_run_terminal
  on_run_terminal-Keeps h = ground arith

  pub on_artifact_published-Keeps : on_artifact_published c db ev ≡ ok d → Keeps db d
  unfolding on_artifact_published
  on_artifact_published-Keeps h = ground arith

  pub on_evaluation_failed-Keeps : on_evaluation_failed c db ev ≡ ok d → Keeps db d
  unfolding on_evaluation_failed
  on_evaluation_failed-Keeps h = ground arith

  pub on_effect_intent-Keeps : on_effect_intent c db ev ≡ ok d → Keeps db d
  unfolding on_effect_intent
  on_effect_intent-Keeps h = ground arith

  pub on_effect_receipt-Keeps : on_effect_receipt c db ev ≡ ok d → Keeps db d
  unfolding on_effect_receipt
  on_effect_receipt-Keeps h = ground arith

  pub on_approval_requested-Keeps : on_approval_requested c db ev ≡ ok d → Keeps db d
  unfolding on_approval_requested
  on_approval_requested-Keeps h = ground arith

  pub on_approval_decided-Keeps : on_approval_decided c db ev ≡ ok d → Keeps db d
  unfolding on_approval_decided
  on_approval_decided-Keeps h = ground arith

  pub on_wait_completed-Keeps : on_wait_completed c db ev ≡ ok d → Keeps db d
  unfolding on_wait_completed
  on_wait_completed-Keeps h = ground arith

  pub on_wait_expired-Keeps : on_wait_expired c db ev ≡ ok d → Keeps db d
  unfolding on_wait_expired
  on_wait_expired-Keeps h = ground arith

  pub on_wait_cancelled-Keeps : on_wait_cancelled c db ev ≡ ok d → Keeps db d
  unfolding on_wait_cancelled
  on_wait_cancelled-Keeps h = ground arith

insert_wait-Adds : (db : Db) (w : ExternalWait) (d : Db) → insert_wait db w ≡ ok d → Adds db d
unfolding insert_wait
insert_wait-Adds db w d h = Adds-Keeps (ground arith)

insert_link-Adds : (db : Db) (l : CausalLink) (d : Db) → insert_link db l ≡ ok d → Adds db d
unfolding insert_link
insert_link-Adds db l d h = Adds-Keeps (ground arith)

insert_decision-Adds :
    (db : Db) (row : DecisionRow) (d : Db) → insert_decision db row ≡ ok d → Adds db d
unfolding insert_decision
insert_decision-Adds db row d h = Adds-Keeps (ground arith)

pub on_wait_requested-Adds :
    (c : Codec) (db : Db) (ev : Event) {d : Db} → on_wait_requested c db ev ≡ ok d → Adds db d
unfolding on_wait_requested
on_wait_requested-Adds c db ev h =
    Ensures-at
      (Ensures-bind (decode_payload (c.wait_requested ev.payload)) _ λ p _.
        Ensures-bind (ensure_run_node c db ev.run_id p.node_key) _ λ r made.
          Ensures-bind (find_run r.1 ev.run_id) _ λ run _. Ensures-intro _ λ d wrote.
            Adds-trans (ensure_run_node-Adds c db _ _ r made) (insert_wait-Adds r.1 _ d wrote))
      h

record_link-Adds :
    (c : Codec) (db : Db) (ev : Event) (i : ℕ) (l : CausalLinkPayload) (d : Db)
    → record_link c db ev i l ≡ ok d
    → Adds db d
unfolding record_link
record_link-Adds c db ev i l d h =
    Ensures-at
      (Ensures-bind (ensure_run_node c db ev.run_id l.target_node_key) _ λ r made.
        Ensures-intro _ λ d wrote.
          Adds-trans (ensure_run_node-Adds c db _ _ r made) (insert_link-Adds r.1 _ d wrote))
      h

record_links-Adds :
    (c : Codec) (db : Db) (ev : Event) (i : ℕ) (ls : List CausalLinkPayload) (d : Db)
    → record_links c db ev i ls ≡ ok d
    → Adds db d
unfolding record_links
record_links-Adds c db ev i [] d h = let same : d ≡ db = ground arith in rw same (Adds-refl db)
record_links-Adds c db ev i (l ∷ ls) d h =
    let (m, first, rest) =
      >>=-eq-ok (record_link c db ev i l) (λ db'. record_links c db' ev (i + 1) ls) h in
    Adds-trans (record_link-Adds c db ev i l m first) (record_links-Adds c m ev (i + 1) ls d rest)

pub on_decision_recorded-Adds :
    (c : Codec) (db : Db) (ev : Event) {d : Db} → on_decision_recorded c db ev ≡ ok d → Adds db d
unfolding on_decision_recorded
on_decision_recorded-Adds c db ev h =
    Ensures-at
      (Ensures-bind (decode_payload (c.decision_recorded ev.payload)) _ λ p _.
        Ensures-bind (ensure_run_node c db ev.run_id p.node_key) _ λ r made.
          Ensures-bind (insert_decision r.1 _) _ λ m decided. Ensures-intro _ λ d wrote.
            Adds-trans (ensure_run_node-Adds c db _ _ r made) (
              Adds-trans (insert_decision-Adds r.1 _ m decided)
                (record_links-Adds c m ev 0 p.causal_links d wrote)))
      h
