-- ===== src/Store/References.antt =====
-- The references of the schema that SQLite checks at the commit of a rebuild
-- (internal/store/schema.go): those from and to the tables that a rebuild wipes.
use proceed.Base.{String, Bool, true, not, ◌&&◌, Option, none, some, List, str_eq, any_where}
use proceed.Store.Types.{Db}
use proceed.Store.Sql.{has_run, has_node}

-- The references into the wiped tables from those that Db leaves out: anchor_id of metric, approval_id
-- of policy_change_proposal and last_run_id of schedule.
pub record Referrers : Type 0 where
  pub metric_anchors : List String
  pub proposal_approvals : List String
  pub schedule_runs : List String

-- whether all rows have p
abbrev pub each_where {ℓ} : {A : Type ℓ} → (A → Bool) → List A → Bool
each_where p xs = not (any_where (λ x. not (p x)) xs)

-- NULL refers to nothing
abbrev pub if_any : (String → Bool) → Option String → Bool
if_any p none = true
if_any p (some id) = p id

abbrev pub has_version : Db → String → Bool
has_version db id = any_where (λ v. str_eq v.id id) db.versions

abbrev pub has_graph_edge : Db → String → Bool
has_graph_edge db id = any_where (λ e. str_eq e.id id) db.graph_edges

abbrev pub has_anchor : Db → String → Bool
has_anchor db id = any_where (λ a. str_eq a.id id) db.anchors

-- graph_run, run_param, run_node, run_edge, node_attempt, event
unfoldable pub run_references_hold : Db → Bool
run_references_hold db =
    each_where (λ r. has_version db r.graph_version_id) db.runs
    && each_where (λ p. has_run db p.run_id) db.params
    && each_where (λ n. has_run db n.run_id) db.nodes
    && each_where (λ e. has_run db e.run_id && has_graph_edge db e.edge_id) db.edges
    && each_where (λ a. has_node db a.run_node_id) db.attempts
    && each_where (λ e. has_run db e.run_id) db.events

-- artifact, evaluation, effect, decision, causal_link
unfoldable pub evidence_references_hold : Db → Bool
evidence_references_hold db =
    each_where (λ a. has_run db a.run_id) db.artifacts
    && each_where
        (λ e. any_where (λ a. str_eq a.id e.artifact_id) db.artifacts && has_run db e.run_id)
        db.evaluations
    && each_where (λ e. any_where (λ a. str_eq a.id e.node_attempt_id) db.attempts) db.effects
    && each_where
        (λ d.
          has_run db d.run_id
          && has_node db d.run_node_id
          && if_any (has_graph_edge db) d.selected_edge_id)
        db.decisions
    && each_where
        (λ l.
          any_where (λ d. str_eq d.id l.decision_id) db.decisions
          && has_node db l.target_run_node_id)
        db.causal_links

-- approval, anchor, outcome, external_wait, and the tables that Db leaves out
unfoldable pub end_references_hold : Referrers → Db → Bool
end_references_hold refs db =
    each_where
      (λ a. has_run db a.run_id && has_node db a.run_node_id && has_version db a.graph_version_id)
      db.approvals
    && each_where (λ a. has_version db a.graph_version_id) db.anchors
    && each_where (λ o. has_run db o.run_id && has_anchor db o.anchor_id) db.outcomes
    && each_where
        (λ w.
          has_run db w.run_id
          && has_node db w.run_node_id
          && has_version db w.graph_version_id
          && if_any (λ id. any_where (λ e. str_eq e.event_id id) db.events) w.completed_event_id)
        db.waits
    && each_where (has_anchor db) refs.metric_anchors
    && each_where (λ id. any_where (λ a. str_eq a.id id) db.approvals) refs.proposal_approvals
    && each_where (has_run db) refs.schedule_runs

-- the check at the commit
unfoldable pub references_hold : Referrers → Db → Bool
references_hold refs db =
    run_references_hold db && evidence_references_hold db && end_references_hold refs db
