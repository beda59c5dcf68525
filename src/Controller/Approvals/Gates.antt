-- ===== src/Controller/Approvals/Gates.antt =====
-- Requesting an approval, and approvals that expire: RegisterApprovalGate and ExpireApprovals
-- (internal/controller/approval.go), with isTerminalNodeStatus
-- (internal/controller/external_wait.go) and ListExpiredApprovals (internal/store/approval.go).
use proceed.Base.{
  ℕ, zero, suc, ◌+◌, String, Bool, true, false, not, ◌&&◌, ◌||◌, Option, none, some, List, [], ◌∷◌,
  Error, Result, ok, err, graph_invalid, store_conflict, no_rows, ◌>>=◌, ◌>>◌, require, from_option,
  leb, ◌==◌, str_eq, is_empty, if◌then◌else◌, any_where, find_where, select_where,
}
use proceed.Store.Types.{Db, Event, EventType, Approval, Artifact, GraphEdge, RunNode, NodeStatus}
use proceed.Store.Runs.{find_run}
use proceed.Store.Named.{node_at}
use proceed.Controller.Completion.{is_running}
use proceed.Controller.Writer.{Tx, Progress, and_then, next_id, event_of, append_within, note}
use proceed.Controller.Routing.{is_release, is_route}
use proceed.Controller.Routing.Decisions.{insert_text, cite}
use proceed.Controller.Routing.Routes.{route_from}
use proceed.Controller.Approvals.{
  Desk, approval_at, node_key_for_id, route_among, expiry_key, is_undecided,
}

-- isTerminalNodeStatus
abbrev pub is_terminal_node_status : NodeStatus → Bool
is_terminal_node_status NodeStatus.succeeded = true
is_terminal_node_status NodeStatus.failed = true
is_terminal_node_status NodeStatus.skipped = true
is_terminal_node_status NodeStatus.cancelled = true
is_terminal_node_status NodeStatus.cancel_requested = true
is_terminal_node_status _ = false

-- an edge of a type that approvalEvidenceRefs names, from the node that made the artifact
abbrev pub feeds : String → String → Artifact → GraphEdge → Bool
feeds version node_key a e =
    str_eq e.graph_version_id version
    && str_eq e.to_node_key node_key
    && (is_release e || is_route e)
    && str_eq e.from_node_key a.produced_by_node_key

unfoldable pub evidence_ids :
    List GraphEdge → String → String → String → List Artifact → List String
unfolding insert_text
evidence_ids edges version run_id node_key [] = []
evidence_ids edges version run_id node_key (a ∷ rest) =
    let ids = evidence_ids edges version run_id node_key rest in
    if str_eq a.run_id run_id && any_where (feeds version node_key a) edges
    then insert_text a.id ids
    else ids

-- LIMIT
abbrev pub limit : ℕ → List String → List String
limit zero ids = []
limit (suc n) [] = []
limit (suc n) (id ∷ ids) = id ∷ limit n ids

-- approvalEvidenceRefs
unfoldable pub approval_evidence_refs : Db → String → String → String → List String
unfolding evidence_ids
approval_evidence_refs db run_id version node_key =
    cite (limit 64 (evidence_ids db.graph_edges version run_id node_key db.artifacts))

-- the default of expiresInMs: seven days
abbrev pub expires_in : ℕ → ℕ
expires_in ms = if ms == 0 then 604800000 else ms

-- the two events of the request
unfoldable pub request_approval : Desk → Tx → String → String → String → ℕ → Result Tx
unfolding approval_evidence_refs
request_approval desk t version node_key scope expires_in_ms =
    let w = desk.writer in
    note w t EventType.approval_requested (
      desk.papers.request node_key (desk.papers.action node_key scope)
        (approval_evidence_refs t.db w.run_id version node_key) scope
        (w.at + expires_in expires_in_ms))
    >>= λ t'.
        append_within w t'
          (record (event_of w t' EventType.node_waiting (w.codec.marshal_node node_key)) {
            causation_id = next_id w t;
          })

-- RegisterApprovalGate
unfoldable pub register_approval_gate : Desk → Tx → String → String → ℕ → Result Tx
register_approval_gate desk t node_key scope expires_in_ms = do
  run ← find_run t.db desk.writer.run_id
  require (is_running run.status) store_conflict
  n ← from_option graph_invalid (node_at t.db desk.writer.run_id node_key)
  require (not (is_terminal_node_status n.status)) store_conflict
  if any_where (λ a. str_eq a.run_node_id n.id && is_undecided a.decision) t.db.approvals
      then ok t
      else request_approval desk t run.graph_version_id node_key scope expires_in_ms

-- ORDER BY expires_at
unfoldable pub insert_by_expiry : Approval → List Approval → List Approval
insert_by_expiry a [] = a ∷ []
insert_by_expiry a (b ∷ bs) =
    if leb a.expires_at b.expires_at then a ∷ b ∷ bs else b ∷ insert_by_expiry a bs

unfoldable pub by_expiry : List Approval → List Approval
unfolding insert_by_expiry
by_expiry [] = []
by_expiry (a ∷ rest) = insert_by_expiry a (by_expiry rest)

-- ListExpiredApprovals
unfoldable pub list_expired_approvals : Db → ℕ → List Approval
unfolding by_expiry
list_expired_approvals db now =
    by_expiry (select_where (λ a. is_undecided a.decision && leb a.expires_at now) db.approvals)

abbrev pub is_store_conflict : Error → Bool
is_store_conflict store_conflict = true
is_store_conflict _ = false

-- the event of the expiry
abbrev pub expiry_event : Desk → Tx → Approval → String → Event
expiry_event desk t a node_key =
    record (event_of desk.writer t (EventType.other "approval_expired")
      (desk.papers.lapse a.id node_key)) { idempotency_key = expiry_key a.id }

abbrev pub attempt_count_of : Option RunNode → ℕ
attempt_count_of none = 0
attempt_count_of (some n) = n.attempt_count

-- the node ends by its expiry route, or fails where it has none; `cause` is the event of the expiry
unfoldable pub end_expired : Desk → Tx → Approval → String → String → String → Result Tx
unfolding route_among
end_expired desk t a node_key cause digest =
    let w = desk.writer in
    let nr = attempt_count_of (find_where (λ n. str_eq n.id a.run_node_id) t.db.nodes) in
    let route = route_among ("expired" ∷ "timeout" ∷ []) t.db a.graph_version_id node_key in
    if is_empty route
    then append_within w t
        (record (event_of w t EventType.node_failed
          (w.print.failure node_key nr "APPROVAL_EXPIRED")) { causation_id = cause })
    else (append_within w t
          (record (event_of w t EventType.node_finished
            (desk.papers.routed_end node_key nr route)) { causation_id = cause })
        >>= λ t'. route_from w t' a.graph_version_id digest node_key true route)

-- the expiry, unless it is recorded already
unfoldable pub record_expiry : Desk → Tx → Approval → String → String → Result Tx
record_expiry desk t a node_key digest =
    elim (append_within desk.writer t (expiry_event desk t a node_key)) [
      | ok t' ↦ end_expired desk t' a node_key (next_id desk.writer t) digest
      | err e ↦ if is_store_conflict e then ok t else err e
    ]

-- one round of the loop of ExpireApprovals, in the writer of the approval's run
unfoldable pub expire_one : Desk → Tx → Approval → Result Tx
expire_one desk t a = do
  row ← from_option no_rows (approval_at t.db a.id)
  if not (is_undecided row.decision)
      then ok t
      else (find_run t.db a.run_id >>= λ run.
          if is_running run.status
          then record_expiry (record desk { writer = record desk.writer { run_id = a.run_id } }) t a
              (node_key_for_id t.db a.run_node_id) run.definition_digest
          else ok t)

-- the loop: a transaction for each
unfoldable pub expire_each : Desk → Progress → List Approval → Progress
expire_each desk p [] = p
expire_each desk p (a ∷ rest) = expire_each desk (and_then p λ t. expire_one desk t a) rest

-- `nowMs`, or the reading of the clock
abbrev pub expiry_time : ℕ → ℕ → ℕ
expiry_time now current = if now == 0 then current else now

-- ExpireApprovals; the events occur no later than the reading of the clock
unfoldable pub expire_approvals : Desk → Tx → ℕ → Progress
unfolding list_expired_approvals
expire_approvals desk t now =
    let current = desk.writer.now in
    let until = expiry_time now current in
    expire_each
      (record desk {
        writer = record desk.writer { at = if leb until current then until else current };
      })
      (record { committed = t; failure = none }) (list_expired_approvals t.db until)
