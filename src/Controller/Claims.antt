-- ===== src/Controller/Claims.antt =====
-- Claiming a node before it is executed: the transactions of claimNonExecutable and of
-- beginClaimedAttempt (internal/controller/engine.go). The table of executions in flight, which
-- beginClaimedAttempt keeps in memory, and the contexts that it returns are not modelled. `id` and
-- `key` are new ULIDs.
pub mod Exclusive
use proceed.Base.{
  ℕ, String, Bool, true, false, Option, none, some, Result, ok, ◌>>=◌, if◌then◌else◌, find_where,
}
use proceed.Store.Types.{Db, Event, EventType, RunNode, NodeStatus}
use proceed.Store.Payload.{Codec, NodeStartedPayload}
use proceed.Store.Nodes.{is_node_of}
use proceed.Store.Log.{append_tx}
use proceed.Controller.Completion.{controller_event}

-- the row of the node, of which both read the status
abbrev pub claimed_row : Db → String → String → Option RunNode
claimed_row db run_id key = find_where (is_node_of run_id key) db.nodes

-- no row, or a status that is 'eligible' or 'pending'
abbrev pub is_claimable : Option RunNode → Bool
is_claimable none = true
is_claimable (some n) = elim n.status [
  | NodeStatus.pending ↦ true
  | NodeStatus.eligible ↦ true
  | _ ↦ false
]

-- the event appended where the node may be claimed, and whether it was claimed
unfoldable pub claim : Codec → ℕ → String → Db → String → Event → Result (Bool × Db)
claim c now id db node_key ev =
    if is_claimable (claimed_row db ev.run_id node_key)
    then (append_tx c now id db ev >>= λ (stored, db'). ok (true, db'))
    else ok (false, db)

-- the event of claimNonExecutable
abbrev pub claim_event : Codec → ℕ → String → String → String → String → String → Event
claim_event c now id key owner run_id node_key =
    record (controller_event id key owner now EventType.node_started run_id) {
      payload = c.marshal_claim node_key 1;
    }

-- claimNonExecutable
unfoldable pub claim_non_executable :
    Codec → ℕ → String → String → String → Db → String → String → Result (Bool × Db)
claim_non_executable c now id key owner db run_id node_key =
    claim c now id db node_key (claim_event c now id key owner run_id node_key)

-- the event of beginClaimedAttempt
abbrev pub attempt_event :
    Codec → ℕ → String → String → String → String → NodeStartedPayload → Event
attempt_event c now id key owner run_id p =
    record (controller_event id key owner now EventType.node_started run_id) {
      recorded_at = now;
      correlation_id = p.operation_key;
      payload = c.marshal_node_started p;
    }

-- beginClaimedAttempt
unfoldable pub begin_claimed_attempt :
    Codec → ℕ → String → String → String → Db → String → NodeStartedPayload → Result (Bool × Db)
begin_claimed_attempt c now id key owner db run_id p =
    claim c now id db p.node_key (attempt_event c now id key owner run_id p)
