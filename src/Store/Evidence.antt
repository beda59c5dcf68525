-- ===== src/Store/Evidence.antt =====
-- The projections of the evidence that a run leaves: onArtifactPublished, onEvaluationFailed,
-- onEffectIntent, onEffectReceipt, onApprovalRequested, onApprovalDecided and onDecisionRecorded
-- (internal/store/projection.go).
use proceed.Base.{
  ℕ, ◌+◌, String, Bool, true, false, not, ◌&&◌, ◌||◌, Option, none, some, List, [], ◌∷◌, ◌++◌,
  str_eq, one_of, coalesce, if◌then◌else◌, Result, ok, constraint, ◌>>=◌, ◌>>◌, require,
  update_where, any_where,
}
use proceed.Store.Types.{
  Artifact, Evaluation, Effect, Approval, DecisionRow, CausalLink, Decision, Event, EventType, Db,
}
use proceed.Store.Payload.{Codec, CausalLinkPayload}
use proceed.Store.Sql.{nullable_or, raw_or, decode_payload, require_fk, has_run, has_node}
use proceed.Store.Nodes.{run_node_id, ensure_run_node}
use proceed.Store.Runs.{find_run}

-- the UNIQUE of the artifact table
abbrev pub is_same_artifact : Artifact → Artifact → Bool
is_same_artifact a b =
    str_eq a.run_id b.run_id
    && str_eq a.produced_by_node_key b.produced_by_node_key
    && str_eq a.name b.name
    && str_eq a.content_hash b.content_hash

-- INSERT INTO artifact … ON CONFLICT(id) DO NOTHING
unfoldable pub insert_artifact : Db → Artifact → Result Db
insert_artifact db row =
    if any_where (λ a. str_eq a.id row.id) db.artifacts
    then ok db
    else (require (not (any_where (is_same_artifact row) db.artifacts)) constraint
        >> require_fk db (has_run db row.run_id)
        >> ok (record db { artifacts = db.artifacts ++ (row ∷ []) }))

-- onArtifactPublished
unfoldable pub on_artifact_published : Codec → Db → Event → Result Db
unfolding insert_artifact
on_artifact_published c db ev = do
  p ← decode_payload (c.artifact_published ev.payload)
  insert_artifact db (record {
    id = ev.event_id;
    run_id = ev.run_id;
    produced_by_node_key = p.node_key;
    name = p.name;
    path = p.path;
    content_hash = p.content_hash;
    media_type = p.media_type;
    size_bytes = p.size_bytes;
    truncated = p.truncated;
    created_at = ev.occurred_at;
  })

-- INSERT INTO evaluation … ON CONFLICT(id) DO NOTHING
unfoldable pub insert_evaluation : Db → Evaluation → Result Db
insert_evaluation db row =
    if any_where (λ e. str_eq e.id row.id) db.evaluations
    then ok db
    else (require_fk db
          (has_run db row.run_id && any_where (λ a. str_eq a.id row.artifact_id) db.artifacts)
        >> ok (record db { evaluations = db.evaluations ++ (row ∷ []) }))

-- onEvaluationFailed
unfoldable pub on_evaluation_failed : Codec → Db → Event → Result Db
unfolding insert_evaluation
on_evaluation_failed c db ev = do
  p ← decode_payload (c.evaluation_failed ev.payload)
  insert_evaluation db (record {
    id = ev.event_id;
    artifact_id = p.artifact_id;
    evaluated_by_node_key = p.evaluated_by_node_key;
    run_id = ev.run_id;
    verdict = "failed";
    evidence_ref = nullable_or p.evidence_ref;
    evaluated_at = ev.occurred_at;
  })

-- INSERT INTO effect … ON CONFLICT(id) DO NOTHING
unfoldable pub insert_effect : Db → Effect → Result Db
insert_effect db row =
    if any_where (λ e. str_eq e.id row.id) db.effects
    then ok db
    else (require_fk db (any_where (λ a. str_eq a.id row.node_attempt_id) db.attempts)
        >> ok (record db { effects = db.effects ++ (row ∷ []) }))

-- onEffectIntent
unfoldable pub on_effect_intent : Codec → Db → Event → Result Db
unfolding insert_effect
on_effect_intent c db ev = do
  p ← decode_payload (c.effect_intent ev.payload)
  insert_effect db (record {
    id = ev.event_id;
    node_attempt_id = p.node_attempt_id;
    operation_key = p.operation_key;
    target = p.target;
    status = "pending";
    request_digest = p.request_digest;
    receipt = none;
    reconciliation_ref = none;
    created_at = ev.occurred_at;
    updated_at = ev.occurred_at;
  })

-- onEffectReceipt: the CHECK on the status binds where the effect is there
unfoldable pub on_effect_receipt : Codec → Db → Event → Result Db
on_effect_receipt c db ev = do
  p ← decode_payload (c.effect_receipt ev.payload)
  require
      (not (any_where (λ e. str_eq e.id p.effect_id) db.effects)
        || one_of p.status ("pending" ∷ "confirmed" ∷ "rejected" ∷ "unknown" ∷ []))
      constraint
  ok (record db {
    effects =
        update_where (λ e. str_eq e.id p.effect_id)
          (λ e. record e {
            status = p.status;
            receipt = coalesce (nullable_or (raw_or p.receipt "")) e.receipt;
            reconciliation_ref = coalesce (nullable_or p.reconciliation_ref) e.reconciliation_ref;
            updated_at = ev.occurred_at;
          })
          db.effects;
  })

-- INSERT INTO approval … ON CONFLICT(id) DO NOTHING
unfoldable pub insert_approval : Db → Approval → Result Db
insert_approval db row =
    if any_where (λ a. str_eq a.id row.id) db.approvals
    then ok db
    else (require_fk db (
          has_run db row.run_id
          && has_node db row.run_node_id
          && any_where (λ v. str_eq v.id row.graph_version_id) db.versions)
        >> ok (record db { approvals = db.approvals ++ (row ∷ []) }))

-- onApprovalRequested
unfoldable pub on_approval_requested : Codec → Db → Event → Result Db
unfolding run_node_id find_run insert_approval
on_approval_requested c db ev = do
  p ← decode_payload (c.approval_requested ev.payload)
  node_id ← run_node_id db ev.run_id p.node_key
  run ← find_run db ev.run_id
  insert_approval db (record {
    id = ev.event_id;
    run_id = ev.run_id;
    run_node_id = node_id;
    graph_version_id = run.graph_version_id;
    requested_action = raw_or p.requested_action "{}";
    evidence_references = raw_or p.evidence_references "[]";
    required_scope = p.required_scope;
    expires_at = p.expires_at;
    decision = none;
    decided_by = none;
    decided_at = none;
    decision_idempotency_key = none;
    created_at = ev.occurred_at;
  })

abbrev pub decision_of : EventType → Decision
decision_of EventType.approval_granted = Decision.grant
decision_of _ = Decision.deny

-- the key is another approval's: the UNIQUE of decision_idempotency_key
abbrev pub has_decision_key : String → String → Approval → Bool
has_decision_key id key a =
    not (str_eq a.id id) && elim a.decision_idempotency_key [ none ↦ false | some k ↦ str_eq k key ]

-- onApprovalDecided
unfoldable pub on_approval_decided : Codec → Db → Event → Result Db
on_approval_decided c db ev = do
  p ← decode_payload (c.approval_decided ev.payload)
  require
      (not (
        any_where (λ a. str_eq a.id p.approval_id) db.approvals
        && any_where (has_decision_key p.approval_id p.decision_idempotency_key) db.approvals))
      constraint
  ok (record db {
    approvals =
        update_where (λ a. str_eq a.id p.approval_id)
          (λ a. record a {
            decision = some (decision_of ev.type);
            decided_by = some p.decided_by;
            decided_at = some ev.occurred_at;
            decision_idempotency_key = some p.decision_idempotency_key;
          })
          db.approvals;
  })

-- a selected edge is an edge of a graph
abbrev pub edge_found : Db → Option String → Bool
edge_found db none = true
edge_found db (some id) = any_where (λ e. str_eq e.id id) db.graph_edges

-- INSERT INTO decision … ON CONFLICT(id) DO NOTHING
unfoldable pub insert_decision : Db → DecisionRow → Result Db
insert_decision db row =
    if any_where (λ d. str_eq d.id row.id) db.decisions
    then ok db
    else (require (one_of row.kind ("routing" ∷ "gate" ∷ "retry" ∷ [])) constraint
        >> require_fk db (
            has_run db row.run_id
            && has_node db row.run_node_id
            && edge_found db row.selected_edge_id)
        >> ok (record db { decisions = db.decisions ++ (row ∷ []) }))

-- the CHECKs of the causal_link table
unfoldable pub is_legal_link : CausalLink → Bool
is_legal_link row =
    one_of row.attribution
      ("necessary" ∷ "sufficient" ∷ "contributing" ∷ "blocked_by" ∷ "unknown" ∷ [])
    && one_of row.source_kind ("decision" ∷ "evaluation" ∷ "approval" ∷ "artifact" ∷ "event" ∷ [])
    && elim row.citation_type [
      | none ↦ elim row.citation_id [ none ↦ true | some _ ↦ false ]
      | some t ↦
          one_of t ("artifact" ∷ "evaluation" ∷ "approval" ∷ "event" ∷ [])
          && elim row.citation_id [ none ↦ false | some _ ↦ true ]
    ]

-- INSERT INTO causal_link … ON CONFLICT(id) DO NOTHING
unfoldable pub insert_link : Db → CausalLink → Result Db
insert_link db row =
    if any_where (λ l. str_eq l.id row.id) db.causal_links
    then ok db
    else (require (is_legal_link row) constraint
        >> require_fk db (
            any_where (λ d. str_eq d.id row.decision_id) db.decisions
            && has_node db row.target_run_node_id)
        >> ok (record db { causal_links = db.causal_links ++ (row ∷ []) }))

-- one round of the loop over the causal links, `i` its index
unfoldable pub record_link : Codec → Db → Event → ℕ → CausalLinkPayload → Result Db
record_link c db ev i link = do
  (target_id, ensured) ← ensure_run_node c db ev.run_id link.target_node_key
  insert_link ensured (record {
    id = c.link_id ev.event_id i;
    decision_id = ev.event_id;
    target_run_node_id = target_id;
    attribution = link.attribution;
    source_kind = link.source_kind;
    source_id = link.source_id;
    citation_type = nullable_or link.citation_type;
    citation_id = nullable_or link.citation_id;
    group_key = nullable_or link.group_key;
  })

unfoldable pub record_links : Codec → Db → Event → ℕ → List CausalLinkPayload → Result Db
record_links c db ev i [] = ok db
record_links c db ev i (l ∷ ls) =
    record_link c db ev i l >>= λ db'. record_links c db' ev (i + 1) ls

-- onDecisionRecorded
unfoldable pub on_decision_recorded : Codec → Db → Event → Result Db
on_decision_recorded c db ev = do
  p ← decode_payload (c.decision_recorded ev.payload)
  (node_id, ensured) ← ensure_run_node c db ev.run_id p.node_key
  decided ← insert_decision ensured (record {
    id = ev.event_id;
    run_id = ev.run_id;
    run_node_id = node_id;
    kind = p.kind;
    candidate_edges = c.marshal_edges p.candidate_edges;
    selected_edge_id = nullable_or p.selected_edge_id;
    rejection = nullable_or p.rejection;
    predicate_snapshot = raw_or p.predicate_snapshot "{}";
    input_references = raw_or p.input_references "[]";
    policy_version = p.policy_version;
    decided_at = ev.occurred_at;
  })
  record_links c decided ev 0 p.causal_links
