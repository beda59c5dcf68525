-- ===== src/Controller/Completion.antt =====
-- The completion of a run: tryCompleteRun (internal/controller/reconciler.go). The controller's
-- memory of parameter references, which tryCompleteRun clears, is not modelled.
pub mod Verdict
pub mod Once
pub mod Failed
use proceed.Base.{
  ℕ, ◌+◌, String, Bool, true, false, not, ◌&&◌, ◌||◌, Option, none, some, List, str_eq, is_empty,
  ltb, ◌==◌, if◌then◌else◌, Result, ok, err, run_not_found, ◌>>=◌, from_option, any_where,
  find_where, count_where,
}
use proceed.Store.Types.{Db, Event, EventType, GraphRun, RunNode, RunStatus, NodeStatus}
use proceed.Store.Payload.{Codec}
use proceed.Store.Runs.{find_run}
use proceed.Store.Log.{append_tx}

-- the event of the controller, as it hands one to AppendTx: the idempotency key is a new ULID
abbrev pub controller_event : String → String → String → ℕ → EventType → String → Event
controller_event id key owner now type run_id = record {
  event_id = id;
  run_id = run_id;
  sequence = 0;
  schema_version = "proceed/v1";
  type = type;
  occurred_at = now;
  recorded_at = 0;
  actor_type = "controller";
  actor_id = owner;
  causation_id = "";
  correlation_id = "";
  idempotency_key = key;
  payload_digest = "";
  payload = "{}";
}

-- the four sums of the query, by status
abbrev pub is_active : NodeStatus → Bool
is_active NodeStatus.pending = true
is_active NodeStatus.eligible = true
is_active NodeStatus.leased = true
is_active NodeStatus.running = true
is_active NodeStatus.uncertain = true
is_active NodeStatus.waiting = true
is_active NodeStatus.reconciling = true
is_active NodeStatus.cancel_requested = true
is_active _ = false

abbrev pub is_failed : NodeStatus → Bool
is_failed NodeStatus.failed = true
is_failed _ = false

abbrev pub is_cancelled : NodeStatus → Bool
is_cancelled NodeStatus.cancelled = true
is_cancelled _ = false

abbrev pub is_done : NodeStatus → Bool
is_done NodeStatus.succeeded = true
is_done NodeStatus.skipped = true
is_done _ = false

-- the number of the run's nodes with such a status
abbrev pub tally : (NodeStatus → Bool) → Db → String → ℕ
tally p db run_id = count_where (λ n. str_eq n.run_id run_id && p n.status) db.nodes

-- the number of the version's nodes
abbrev pub defined_total : Db → String → ℕ
defined_total db version = count_where (λ n. str_eq n.graph_version_id version) db.graph_nodes

-- the switch
unfoldable pub terminal_event : Db → String → String → Option EventType
terminal_event db run_id version =
    if ltb 0 (tally is_failed db run_id)
    then some EventType.run_failed
    else if ltb 0 (tally is_active db run_id)
    then none
    else if ltb 0 (tally is_cancelled db run_id)
    then some EventType.run_cancelled
    else if tally is_done db run_id == defined_total db version && ltb 0 (defined_total db version)
    then some EventType.run_completed
    else none

-- type IN ('run_completed','run_failed','run_cancelled')
abbrev pub is_terminal_type : EventType → Bool
is_terminal_type EventType.run_completed = true
is_terminal_type EventType.run_failed = true
is_terminal_type EventType.run_cancelled = true
is_terminal_type _ = false

abbrev pub already_terminal : Db → String → Bool
already_terminal db run_id =
    any_where (λ e. str_eq e.run_id run_id && is_terminal_type e.type) db.events

abbrev pub is_running : RunStatus → Bool
is_running RunStatus.running = true
is_running _ = false

-- the event of the switch, if there is one, appended
unfoldable pub append_verdict :
    Codec → ℕ → String → String → String → Db → String → Option EventType → Result Db
append_verdict c now id key owner db run_id none = ok db
append_verdict c now id key owner db run_id (some t) =
    if already_terminal db run_id
    then ok db
    else (append_tx c now id db (controller_event id key owner now t run_id) >>= λ (ev, db').
        ok db')

-- tryCompleteRun's transaction; `id` and `key` are new ULIDs
unfoldable pub try_complete_run :
    Codec → ℕ → String → String → String → Db → String → String → Result Db
try_complete_run c now id key owner db run_id version = find_run db run_id >>= λ run.
    if is_running run.status
    then append_verdict c now id key owner db run_id (terminal_event db run_id version)
    else ok db
