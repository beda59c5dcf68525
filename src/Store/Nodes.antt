-- ===== src/Store/Nodes.antt =====
-- The projections of node events onto run_node and node_attempt (internal/store/projection.go):
-- the rows themselves, their keys, and the statements that the handlers share.
use Prim.Native.String.{slice}
use Prim.Native.String.{◌++◌ as str_append}
use proceed.Base.{
  ℕ, String, Bool, true, false, not, ◌&&◌, ◌||◌, none, some, [], ◌∷◌, ◌++◌, str_eq, one_of, ◌==◌,
  Result, ok, err, graph_invalid, constraint, ◌>>=◌, ◌>>◌, require, update_where, find_where,
  any_where,
}
use proceed.Store.Types.{RunNode, NodeAttempt, NodeStatus, AttemptStatus, Db}
use proceed.Store.Payload.{Codec}
use proceed.Store.Sql.{require_fk, has_run, has_node}

-- derivedNodeID: the first 26 digits of the hash of the run and the key, a NUL between them
unfoldable pub derived_node_id : Codec → String → String → String
derived_node_id c run_id node_key =
    slice (c.sha256_hex (str_append run_id (str_append "\0" node_key))) 0 26

-- WHERE run_id = ? AND node_key = ?
abbrev pub is_node_of : String → String → RunNode → Bool
is_node_of run_id node_key n = str_eq n.run_id run_id && str_eq n.node_key node_key

-- runNodeID
unfoldable pub run_node_id : Db → String → String → Result String
run_node_id db run_id node_key = elim (find_where (is_node_of run_id node_key) db.nodes) [
  | none ↦ err graph_invalid
  | some n ↦ ok n.id
]

-- INSERT INTO run_node, where the row's key is not taken
unfoldable pub insert_node : Db → RunNode → Result Db
insert_node db row = do
  require (not (any_where (λ n. str_eq n.id row.id) db.nodes)) constraint
  require_fk db (has_run db row.run_id)
  ok (record db { nodes = db.nodes ++ (row ∷ []) })

-- the row that ensureRunNode inserts
abbrev pub pending_node : Codec → String → String → RunNode
pending_node c run_id node_key = record {
  id = derived_node_id c run_id node_key;
  run_id = run_id;
  node_key = node_key;
  status = NodeStatus.pending;
  attempt_count = 0;
  started_at = none;
  finished_at = none;
}

-- ensureRunNode: the node's id, the node made with status pending if it is not there
unfoldable pub ensure_run_node : Codec → Db → String → String → Result (String × Db)
ensure_run_node c db run_id node_key = elim (run_node_id db run_id node_key) [
  | ok id ↦ ok (id, db)
  | err _ ↦ do
    db' ← insert_node db (pending_node c run_id node_key)
    id ← run_node_id db' run_id node_key
    ok (id, db')
]

-- UPDATE run_node
abbrev pub update_nodes : Db → (RunNode → Bool) → (RunNode → RunNode) → Db
update_nodes db p f = record db { nodes = update_where p f db.nodes }

-- UPDATE node_attempt
abbrev pub update_attempts : Db → (NodeAttempt → Bool) → (NodeAttempt → NodeAttempt) → Db
update_attempts db p f = record db { attempts = update_where p f db.attempts }

-- status IN ('cancel_requested', 'cancelled')
abbrev pub is_cancelling : NodeStatus → Bool
is_cancelling NodeStatus.cancel_requested = true
is_cancelling NodeStatus.cancelled = true
is_cancelling _ = false

-- status IN ('succeeded', 'failed', 'skipped', 'cancelled')
abbrev pub is_closed : NodeStatus → Bool
is_closed NodeStatus.succeeded = true
is_closed NodeStatus.failed = true
is_closed NodeStatus.skipped = true
is_closed NodeStatus.cancelled = true
is_closed _ = false

-- status IN ('running', 'leased')
abbrev pub is_executing : NodeStatus → Bool
is_executing NodeStatus.running = true
is_executing NodeStatus.leased = true
is_executing _ = false

abbrev pub is_attempt_cancelled : AttemptStatus → Bool
is_attempt_cancelled AttemptStatus.cancelled = true
is_attempt_cancelled _ = false

-- status IN ('succeeded', 'failed', 'cancelled')
abbrev pub is_attempt_closed : AttemptStatus → Bool
is_attempt_closed AttemptStatus.succeeded = true
is_attempt_closed AttemptStatus.failed = true
is_attempt_closed AttemptStatus.cancelled = true
is_attempt_closed _ = false

-- WHERE run_node_id = ? AND attempt_no = ?
abbrev pub is_attempt_of : String → ℕ → NodeAttempt → Bool
is_attempt_of node_id nr a = str_eq a.run_node_id node_id && a.attempt_no == nr

-- WHERE id = ? AND status NOT IN ('cancel_requested', 'cancelled')
abbrev pub is_uncancelled : String → RunNode → Bool
is_uncancelled node_id n = str_eq n.id node_id && not (is_cancelling n.status)

-- WHERE id = ? AND status NOT IN ('succeeded', 'failed', 'skipped', 'cancelled')
abbrev pub is_unclosed : String → RunNode → Bool
is_unclosed node_id n = str_eq n.id node_id && not (is_closed n.status)

-- SET status = ?
abbrev pub set_status : NodeStatus → RunNode → RunNode
set_status s n = record n { status = s }

-- SET status = ?, finished_at = ?
abbrev pub finish_node : NodeStatus → ℕ → RunNode → RunNode
finish_node s at n = record n { status = s; finished_at = some at }

-- the CHECKs on the executor and on the side-effect contract
unfoldable pub is_executor : String → Bool
is_executor e = one_of e ("shell" ∷ "http" ∷ "human_approval" ∷ "agent_cli" ∷ [])

unfoldable pub is_contract : String → Bool
is_contract e = one_of e ("pure" ∷ "idempotent" ∷ "reconcilable" ∷ "non_replayable" ∷ [])

-- INSERT INTO node_attempt, where the pair of node and number is not taken: the primary key, the
-- unique operation key and the CHECKs of the schema
unfoldable pub insert_attempt : Db → NodeAttempt → Result Db
insert_attempt db row = do
  require
      (not (
        any_where (λ a. str_eq a.id row.id || str_eq a.operation_key row.operation_key)
          db.attempts))
      constraint
  require (is_executor row.executor) constraint
  require (is_contract row.side_effect_contract) constraint
  require_fk db (has_node db row.run_node_id)
  ok (record db { attempts = db.attempts ++ (row ∷ []) })
