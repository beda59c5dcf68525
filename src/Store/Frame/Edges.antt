-- ===== src/Store/Frame/Edges.antt =====
-- Which projections leave run_edge alone: those of a node's end and skip, of an artifact and of a
-- decision.
use proceed.Base.{
  ℕ, ◌+◌, String, List, [], ◌∷◌, ◌≡◌, ◌∙◌, refl, Ensures, Ensures-at, Ensures-bind, Ensures-map,
  Ensures-intro, holds, arith,
}
use proceed.Store.Types.{Event, Db, DecisionRow}
use proceed.Store.Payload.{Codec, CausalLinkPayload, NodeTerminalPayload}
use proceed.Store.Sql.{decode_payload}
use proceed.Store.Nodes.{insert_node, ensure_run_node, insert_attempt}
use proceed.Store.Ended.{ensure_attempt, close_attempt, close_attempts, on_node_terminal}
use proceed.Store.Moved.{on_node_skipped, cancel_attempt, on_node_cancelled}
use proceed.Store.Evidence.{
  on_artifact_published, on_approval_decided, insert_decision, insert_link, record_link,
  record_links, on_decision_recorded,
}

abbrev pub SameEdges : Db → Db → Type 0
SameEdges db d = d.edges ≡ db.edges

module _ (c : Codec) where
  pub ensure_run_node-edges :
      (db : Db) (run_id key : String)
      → Ensures (λ r. SameEdges db r.1) (ensure_run_node c db run_id key)
  unfolding ensure_run_node insert_node
  ensure_run_node-edges db run_id key = Ensures-intro _ λ r h. ground arith

  record_links-edges :
      (db : Db) (ev : Event) (i : ℕ) (ls : List CausalLinkPayload)
      → Ensures (SameEdges db) (record_links c db ev i ls)
  unfolding record_links record_link insert_link
  record_links-edges db ev i [] = holds refl
  record_links-edges db ev i (l ∷ ls) = Ensures-bind (record_link c db ev i l) _ λ m first.
      let linked =
        Ensures-at {P = SameEdges db}
          (Ensures-bind (ensure_run_node c db ev.run_id l.target_node_key) _ λ r made.
            Ensures-intro _ λ d wrote.
              ground
                (arith, Ensures-at (ensure_run_node-edges db ev.run_id l.target_node_key) made))
          first in
      Ensures-map (λ d more. more ∙ linked) (record_links-edges m ev (i + 1) ls)

  insert_decision-edges :
      (db : Db) (row : DecisionRow) → Ensures (SameEdges db) (insert_decision db row)
  unfolding insert_decision
  insert_decision-edges db row = Ensures-intro _ λ d h. ground arith

  module _ (db : Db) (ev : Event) where
    pub on_decision_recorded-edges : Ensures (SameEdges db) (on_decision_recorded c db ev)
    unfolding on_decision_recorded
    on_decision_recorded-edges =
        Ensures-bind (decode_payload (c.decision_recorded ev.payload)) _ λ p _.
          Ensures-bind (ensure_run_node c db ev.run_id p.node_key) _ λ r made.
            Ensures-bind (insert_decision r.1 _) _ λ m decided.
              Ensures-map
                (λ d more.
                  more
                  ∙ Ensures-at (insert_decision-edges r.1 _) decided
                  ∙ Ensures-at (ensure_run_node-edges db ev.run_id p.node_key) made)
                (record_links-edges m ev 0 p.causal_links)

    pub on_node_skipped-edges : Ensures (SameEdges db) (on_node_skipped c db ev)
    unfolding on_node_skipped
    on_node_skipped-edges = Ensures-bind (decode_payload (c.node_terminal ev.payload)) _ λ p _.
        Ensures-bind (ensure_run_node c db ev.run_id p.node_key) _
          λ r made. holds (Ensures-at (ensure_run_node-edges db ev.run_id p.node_key) made)

    pub on_node_cancelled-edges : Ensures (SameEdges db) (on_node_cancelled c db ev)
    unfolding on_node_cancelled cancel_attempt
    on_node_cancelled-edges = Ensures-bind (decode_payload (c.node_terminal ev.payload)) _ λ p _.
        Ensures-bind (ensure_run_node c db ev.run_id p.node_key) _ λ r made.
          let same = Ensures-at (ensure_run_node-edges db ev.run_id p.node_key) made in
          holds (ground arith)

    close_attempts-edges :
        (p : NodeTerminalPayload) (id : String) → Ensures (SameEdges db) (close_attempts db ev p id)
    unfolding close_attempts ensure_attempt insert_attempt close_attempt
    close_attempts-edges p id = Ensures-intro _ λ d h. ground arith

    pub on_artifact_published-edges : Ensures (SameEdges db) (on_artifact_published c db ev)
    unfolding on_artifact_published
    on_artifact_published-edges = Ensures-intro _ λ d h. ground arith

  pub on_approval_decided-edges :
      (db : Db) (ev : Event) → Ensures (SameEdges db) (on_approval_decided c db ev)
  unfolding on_approval_decided
  on_approval_decided-edges db ev = Ensures-intro _ λ d h. ground arith

  pub on_node_terminal-edges :
      (db : Db) (ev : Event) → Ensures (SameEdges db) (on_node_terminal c db ev)
  unfolding on_node_terminal
  on_node_terminal-edges db ev = Ensures-bind (decode_payload (c.node_terminal ev.payload)) _ λ p _.
      Ensures-bind (ensure_run_node c db ev.run_id p.node_key) _ λ r made.
        Ensures-bind (close_attempts r.1 ev p r.0) _ λ m closed. holds (
          Ensures-at (close_attempts-edges r.1 ev p r.0) closed
          ∙ Ensures-at (ensure_run_node-edges db ev.run_id p.node_key) made)
