-- ===== src/Controller/Cancel.antt =====
-- Cancelling and abandoning a run: the transactions of CancelRun and AbandonRun
-- (internal/controller/cancel.go). That the executions in flight are told is not modelled. The
-- i-th event that is appended takes its id and key, two new ULIDs, from `stamps i`.
pub mod Appended
pub mod Stopped
use proceed.Base.{
  ℕ, ◌+◌, String, Bool, true, false, not, ◌&&◌, List, [], ◌∷◌, Option, none, some, Result, ok,
  ◌>>=◌, ◌==◌, str_eq, is_empty, if◌then◌else◌, any_where, find_where, select_where, length,
}
use proceed.Store.Types.{Db, Event, EventType, RunNode, NodeStatus, GraphNode, ExternalWait}
use proceed.Store.Payload.{Codec}
use proceed.Store.Nodes.{is_closed}
use proceed.Store.Runs.{find_run}
use proceed.Store.Waits.{is_pending}
use proceed.Store.Log.{append_tx}
use proceed.Controller.Completion.{controller_event, is_active, is_running, tally}

-- the ids of the events
pub record Stamp : Type 0 where
  pub id : String
  pub key : String

-- one event of the controller, with a payload
unfoldable pub append_event :
    Codec → ℕ → Stamp → String → String → Db → EventType → String → Result Db
append_event c now stamp owner run_id db type payload =
    append_tx c now stamp.id db
      (record (controller_event stamp.id stamp.key owner now type run_id) { payload = payload })
    >>= λ (stored, db'). ok db'

-- the column that says whether a node is in flight
abbrev pub is_inflight : NodeStatus → Bool
is_inflight NodeStatus.running = true
is_inflight NodeStatus.leased = true
is_inflight NodeStatus.uncertain = true
is_inflight NodeStatus.reconciling = true
is_inflight NodeStatus.cancel_requested = true
is_inflight _ = false

abbrev pub is_requested : NodeStatus → Bool
is_requested NodeStatus.cancel_requested = true
is_requested _ = false

-- an event for a node: its type and the node's key
abbrev pub cancellation : RunNode → EventType × String
cancellation n = (
  if is_inflight n.status then EventType.node_cancel_requested else EventType.node_cancelled,
  n.node_key,
)

-- the entries for which the first loop appends
unfoldable pub cancellations : String → List RunNode → List (EventType × String)
cancellations run_id [] = []
cancellations run_id (n ∷ ns) =
    let rest = cancellations run_id ns in
    if str_eq n.run_id run_id && (not (is_closed n.status) && not (is_requested n.status))
    then cancellation n ∷ rest
    else rest

-- the defined nodes that have no row
unfoldable pub not_started : Db → String → String → List GraphNode → List (EventType × String)
not_started db run_id version [] = []
not_started db run_id version (g ∷ gs) =
    let rest = not_started db run_id version gs in
    if str_eq g.graph_version_id version
      && not (any_where (λ n. str_eq n.run_id run_id && str_eq n.node_key g.node_key) db.nodes)
    then (EventType.node_cancelled, g.node_key) ∷ rest
    else rest

-- the first two loops
unfoldable pub append_nodes :
    Codec → ℕ → (ℕ → Stamp) → ℕ → String → String → Db → List (EventType × String) → Result Db
append_nodes c now stamps i owner run_id db [] = ok db
append_nodes c now stamps i owner run_id db (e ∷ es) =
    append_event c now (stamps i) owner run_id db e.0 (c.marshal_node e.1) >>= λ db'.
    append_nodes c now stamps (i + 1) owner run_id db' es

-- nodeKeyForID, which reads what is committed
abbrev pub key_of : Option RunNode → String
key_of none = ""
key_of (some n) = n.node_key

-- the loop over the pending waits
unfoldable pub append_waits :
    Codec → ℕ → (ℕ → Stamp) → ℕ → String → String → Db → Db → List ExternalWait → Result Db
append_waits c now stamps i owner run_id committed db [] = ok db
append_waits c now stamps i owner run_id committed db (w ∷ ws) =
    append_event c now (stamps i) owner run_id db EventType.external_wait_cancelled
      (c.marshal_wait w.id (key_of (find_where (λ n. str_eq n.id w.run_node_id) committed.nodes)))
    >>= λ db'. append_waits c now stamps (i + 1) owner run_id committed db' ws

abbrev pub pending_waits : Db → String → List ExternalWait
pending_waits db run_id = select_where (λ w. str_eq w.run_id run_id && is_pending w.status) db.waits

-- the end of the transaction: no node is left to wait for
unfoldable pub cancel_if_idle : Codec → ℕ → Stamp → String → String → Db → Result Db
cancel_if_idle c now stamp owner run_id db =
    if tally is_active db run_id == 0
    then append_event c now stamp owner run_id db EventType.run_cancelled "{}"
    else ok db

-- the transaction of CancelRun, where the run is running
unfoldable pub cancel_all : Codec → ℕ → (ℕ → Stamp) → String → Db → String → String → Result Db
cancel_all c now stamps owner db run_id version = do
  let rows = cancellations run_id db.nodes
  cancelled ← append_nodes c now stamps 0 owner run_id db rows
  let others = not_started db run_id version cancelled.graph_nodes
  all ← append_nodes c now stamps (length rows) owner run_id cancelled others
  let ws = pending_waits all run_id
  let done = length rows + length others
  closed ← append_waits c now stamps done owner run_id db all ws
  cancel_if_idle c now (stamps (done + length ws)) owner run_id closed

-- the transaction of CancelRun; the version is the one that loadRun read
unfoldable pub cancel_run : Codec → ℕ → (ℕ → Stamp) → String → Db → String → String → Result Db
cancel_run c now stamps owner db run_id version = find_run db run_id >>= λ run.
    if is_running run.status then cancel_all c now stamps owner db run_id version else ok db

-- the transaction of AbandonRun
unfoldable pub abandon_run : Codec → ℕ → Stamp → String → Db → String → String → Result Db
abandon_run c now stamp owner db run_id detail = find_run db run_id >>= λ run.
    if is_running run.status
    then append_event c now stamp owner run_id db EventType.run_abandoned
        (if is_empty detail then "{}" else c.marshal_detail detail)
    else ok db
