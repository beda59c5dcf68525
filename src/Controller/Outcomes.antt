-- ===== src/Controller/Outcomes.antt =====
-- How an attempt ends: a success is committed with its artifacts and routes, a failure is retried
-- or ends the node, an uncertain end leaves its effects unknown (internal/controller/outcomes.go,
-- and retryPolicy of internal/controller/engine.go). `result` is `none` where the code's pointer is
-- nil.
pub mod Ends
pub mod Commit
pub mod Retry
use proceed.Base.{
  ℕ, ◌+◌, ◌≤◌, String, Bool, true, false, not, ◌&&◌, ◌||◌, Option, none, some, List, [], ◌∷◌,
  Result, ok, err, no_rows, ◌>>=◌, from_option, leb, ltb, ◌==◌, str_eq, if◌then◌else◌, any_where,
  find_where,
}
use proceed.Store.Types.{Db, EventType, NodeStatus, RunNode, Effect, NodeAttempt}
use proceed.Store.Payload.{ArtifactPublishedPayload}
use proceed.Store.Nodes.{is_node_of, is_cancelling}
use proceed.Store.Named.{node_at}
use proceed.Controller.Writer.{Writer, Tx, Progress, transact, and_then, note, note_at}
use proceed.Controller.Routing.Routes.{route_from}

-- executor.ArtifactRef
pub record ArtifactRef : Type 0 where
  pub name : String
  pub path : String
  pub content_hash : String
  pub media_type : String
  pub size_bytes : ℕ
  pub truncated : Bool

-- the fields of executor.Result that are read; the output is printed JSON
pub record ExecutorResult : Type 0 where
  pub output : String
  pub route : String
  pub artifacts : List ArtifactRef

abbrev pub empty_result : ExecutorResult
empty_result = record { output = "null"; route = ""; artifacts = [] }

-- the fields of runnableNode that are read
pub record Execution : Type 0 where
  pub node_key : String
  pub attempt_no : ℕ
  pub max_attempts : ℕ
  pub backoff_ms : ℕ

-- appendArtifactEventsTx
unfoldable pub append_artifacts : Writer → Tx → String → String → List ArtifactRef → Result Tx
append_artifacts w t node_key op_key [] = ok t
append_artifacts w t node_key op_key (a ∷ rest) =
    note_at w t EventType.artifact_published op_key (
      w.print.artifact (record {
        node_key = node_key;
        name = a.name;
        path = a.path;
        content_hash = a.content_hash;
        media_type = a.media_type;
        size_bytes = a.size_bytes;
        truncated = a.truncated;
      }))
    >>= λ t'. append_artifacts w t' node_key op_key rest

-- SELECT status FROM run_node WHERE run_id = ? AND node_key = ?
unfoldable pub status_of : Db → String → String → Result NodeStatus
unfolding node_at
status_of db run_id node_key = from_option no_rows (node_at db run_id node_key) >>= λ n. ok n.status

-- the last event of the node
unfoldable pub append_end :
    Writer → Tx → EventType → Execution → ExecutorResult → String → Result Tx
append_end w t type n result op_key =
    note_at w t type op_key (w.print.result n.node_key n.attempt_no result.output result.route)

-- the artifacts and the last event
unfoldable pub finish_with :
    Writer → Tx → EventType → Execution → ExecutorResult → String → Result Tx
finish_with w t type n result op_key =
    append_artifacts w t n.node_key op_key result.artifacts >>= λ t'.
    append_end w t' type n result op_key

-- `result`, or an empty one
abbrev pub result_or_empty : Option ExecutorResult → ExecutorResult
result_or_empty none = empty_result
result_or_empty (some r) = r

-- `result != nil`
abbrev pub is_known : Option ExecutorResult → Bool
is_known none = false
is_known (some _) = true

-- the node ends and its edges are routed
unfoldable pub succeed :
    Writer → Tx → String → String → Execution → Option ExecutorResult → String → Result Tx
succeed w t version digest n result op_key =
    finish_with w t EventType.node_finished n (result_or_empty result) op_key >>= λ t'.
    route_from w t' version digest n.node_key (is_known result) (result_or_empty result).route

-- the branches of commitNodeSuccess on the status
unfoldable pub commit_at :
    Writer
    → Tx
    → String
    → String
    → Execution
    → Option ExecutorResult
    → String
    → NodeStatus
    → Result Tx
commit_at w t version digest n result op_key NodeStatus.cancel_requested =
    finish_with w t EventType.node_cancelled n (result_or_empty result) op_key
commit_at w t version digest n result op_key NodeStatus.running =
    succeed w t version digest n result op_key
commit_at w t version digest n result op_key NodeStatus.reconciling =
    succeed w t version digest n result op_key
commit_at w t version digest n result op_key _ = ok t

-- commitNodeSuccess
unfoldable pub commit_node_success :
    Writer → Tx → String → String → Execution → Option ExecutorResult → String → Result Tx
commit_node_success w t version digest n result op_key =
    status_of t.db w.run_id n.node_key >>= λ s. commit_at w t version digest n result op_key s

-- failNode
unfoldable pub fail_node : Writer → Tx → String → ℕ → String → Result Tx
fail_node w t node_key nr cause = note w t EventType.node_failed (w.print.failure node_key nr cause)

-- rejectNode
unfoldable pub reject_node :
    Writer → Tx → String → ℕ → String → String → String → String → Result Tx
reject_node w t node_key nr kind contract op_key cause =
    note w t EventType.node_failed (w.print.rejection node_key nr kind contract op_key cause)

-- cancelledNode
unfoldable pub cancelled_node : Writer → Tx → String → ℕ → Result Tx
cancelled_node w t node_key nr =
    note w t EventType.node_cancelled (w.codec.marshal_claim node_key nr)

-- appendNodeTransition
unfoldable pub append_node_transition : Writer → Tx → String → EventType → String → Result Tx
append_node_transition w t node_key type payload = status_of t.db w.run_id node_key >>= λ s.
    if is_cancelling s then ok t else note w t type payload

-- requeuedNode
unfoldable pub requeued_node : Writer → Tx → String → ℕ → Result Tx
requeued_node w t node_key nr =
    append_node_transition w t node_key EventType.node_requeued (w.codec.marshal_claim node_key nr)

-- waitingNode
unfoldable pub waiting_node : Writer → Tx → String → Result Tx
waiting_node w t node_key =
    append_node_transition w t node_key EventType.node_waiting (w.codec.marshal_node node_key)

-- recordAttemptFailure: one transaction, or two
unfoldable pub record_attempt_failure : Writer → Tx → Execution → String → Progress
record_attempt_failure w t n cause =
    if ltb 0 n.max_attempts && leb n.max_attempts n.attempt_no
    then transact t (fail_node w t n.node_key n.attempt_no cause)
    else and_then
        (transact t (
          note w t EventType.node_attempt_failed
            (w.print.retry n.node_key n.attempt_no n.backoff_ms cause)))
        (λ t'. requeued_node w t' n.node_key n.attempt_no)

-- the effect is pending, of this attempt of this node
unfoldable pub is_pending_effect : Db → String → String → ℕ → Effect → Bool
is_pending_effect db run_id node_key nr e =
    str_eq e.status "pending"
    && any_where
        (λ a.
          str_eq a.id e.node_attempt_id
          && a.attempt_no == nr
          && any_where (λ n. str_eq n.id a.run_node_id && is_node_of run_id node_key n) db.nodes)
        db.attempts

unfoldable pub pending_effects : Db → String → String → ℕ → List Effect → List String
unfolding is_pending_effect
pending_effects db run_id node_key nr [] = []
pending_effects db run_id node_key nr (e ∷ es) =
    let rest = pending_effects db run_id node_key nr es in
    if is_pending_effect db run_id node_key nr e then e.id ∷ rest else rest

-- markPendingEffectsUnknown: a transaction for each
unfoldable pub mark_effects_unknown : Writer → Progress → List String → Progress
mark_effects_unknown w p [] = p
mark_effects_unknown w p (id ∷ ids) =
    mark_effects_unknown w
      (and_then p λ t. note w t EventType.effect_receipt (w.print.receipt id "unknown")) ids

-- uncertainNode
unfoldable pub uncertain_node : Writer → Tx → String → ℕ → String → Progress
unfolding pending_effects
uncertain_node w t node_key nr cause =
    and_then
      (mark_effects_unknown w (record { committed = t; failure = none })
        (pending_effects t.db w.run_id node_key nr t.db.effects))
      (λ t'. note w t' EventType.node_uncertain (w.print.doubt node_key nr cause))

-- the map `retry` of a node's configuration: its numbers as int64, 0 for one below
pub record RetryConfig : Type 0 where
  pub max_attempts_set : Option ℕ
  pub backoff_set : Option ℕ

abbrev pub at_least_one : Option ℕ → ℕ
at_least_one none = 1
at_least_one (some v) = if leb 1 v then v else 1

abbrev pub or_zero : Option ℕ → ℕ
or_zero none = 0
or_zero (some v) = v

-- retryPolicy: the attempts and the delay
unfoldable pub retry_policy : Option RetryConfig → ℕ × ℕ
retry_policy none = (1, 0)
retry_policy (some r) = (at_least_one r.max_attempts_set, or_zero r.backoff_set)
