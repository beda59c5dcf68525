-- ===== src/Samples/Control.antt =====
-- The theorems on the controller at concrete leases and runs.
use proceed.Base.{
  ◌<◌, true, some, ◌≡◌, ◌≢◌, ◌↔◌, refl, ok, err, store_busy, str_eq_iff, ◌||◌, arith,
}
use proceed.Base.{find_where, any_where, count_where, update_where}
use proceed.Store.Types.{Event, EventType, Db, NodeStatus, RunStatus}
use proceed.Store.Nodes.{run_node_id, ensure_run_node}
use proceed.Store.Moved.{requeue, on_node_requeued}
use proceed.Store.Named.{node_at}
use proceed.Base.{max_where, Bool, false}
use proceed.Store.Runs.{find_run, finish_run, insert_anchor, insert_outcome, on_run_terminal}
use proceed.Store.Projection.{handle, apply_projections}
use proceed.Store.Log.{
  validate, is_malformed, is_duplicate, max_sequence, insert_event, append_event_tx, append_tx,
}
use proceed.Controller.Completion.{append_verdict, try_complete_run}
use proceed.Controller.Completion.Once.{HasRow, HasStatus, try_complete_run_once}
use proceed.Controller.Completion.Failed.{HasFailedNode, try_complete_run_fails}
use proceed.Controller.Completion.{already_terminal}
use proceed.Controller.Readiness.Startable.{IsStartable, IsNext, offers-IsStartable}
use proceed.Base.{none, [], ◌∷◌, ◌++◌, select_where}
use proceed.Store.Nodes.{insert_node, insert_attempt, is_executor, is_contract, derived_node_id}
use proceed.Store.Started.{
  on_node_started, upsert_started, stamp_run, record_attempt, upsert_attempt,
}
use proceed.Controller.Claims.{claim, claim_non_executable, begin_claimed_attempt}
use proceed.Controller.Claims.Exclusive.{
  Claimed, begin_claimed_attempt-Claimed, claim_non_executable-Claimed,
}
use proceed.Controller.Lease.{Config, LeaseRow, Mode, own_row, acquire_lease}
use proceed.Controller.Lease.Exclusive.{
  Act, Attempts, Held, attempt, Attempts-exclusive, acquire_lease-Held, acquire_lease-refused,
}
use proceed.Controller.Readiness.Laws.{attempt_after, is_defined, offers, on_node_requeued-offers}
use proceed.Controller.Readiness.{
  eligible_nodes, runnable_nodes, nodes_of_version, by_key, insert_by_key, is_taken, ready, blocks,
  done,
}
use proceed.Controller.Completion.{terminal_event, is_done, is_cancelled, tally, defined_total}
use proceed.Controller.Completion.Verdict.{
  AllNodes, SomeNode, terminal_event-completed, terminal_event-cancelled,
}
use proceed.Samples.{start_payload, blank, codec, event, with_step, step_row, from_ok}

abbrev alice : Config
alice = record { owner_id = "alice"; mode = Mode.serve; lease_ttl = 15 }

abbrev bob : Config
bob = record { owner_id = "bob"; mode = Mode.run; lease_ttl = 15 }

-- alice's lease, made at 100
abbrev held : LeaseRow
held = own_row alice 100

-- bob tries everything
abbrev tries :
    Attempts (some held) (attempt Act.acquires bob 110 (attempt Act.releases bob 105 (some held)))
tries = Attempts.next Act.acquires bob 110 (Attempts.next Act.releases bob 105 Attempts.here)

alice_is_not_bob : alice.owner_id ≢ bob.owner_id
alice_is_not_bob e = ground (arith, str_eq_iff "alice" "bob")

Attempts-exclusive_example :
    attempt Act.acquires bob 110 (attempt Act.releases bob 105 (some held)) ≡ some held
Attempts-exclusive_example =
    Attempts-exclusive held tries
      (alice_is_not_bob, omega arith, (alice_is_not_bob, omega arith, tt))

takes_over : acquire_lease bob 115 (some held) ≡ ok (some (own_row bob 115))
unfolding acquire_lease
takes_over = refl

acquire_lease-Held_example : Held bob 115 (some (own_row bob 115))
acquire_lease-Held_example =
    acquire_lease-Held bob 115 (some held) (some (own_row bob 115)) takes_over

acquire_lease-refused_example :
    (acquire_lease bob 114 (some held) ≡ err store_busy)
    ↔ ((alice.owner_id ≢ bob.owner_id) × (114 < held.lease_expires_at))
acquire_lease-refused_example = acquire_lease-refused bob 114 held

-- a node that depends on one that has succeeded
abbrev chained : Db
chained = record (with_step NodeStatus.succeeded) {
  graph_nodes =
      record { graph_version_id = "v1"; node_key = "step"; type = "shell"; config = "{}" }
      ∷ record { graph_version_id = "v1"; node_key = "last"; type = "shell"; config = "{}" }
      ∷ [];
  graph_edges =
      record {
        id = "d1";
        graph_version_id = "v1";
        from_node_key = "step";
        to_node_key = "last";
        type = "depends_on";
        condition = none;
      }
      ∷ [];
}

offers_last : offers chained "run" "v1" "last" 1 ≡ true
unfolding any_where eligible_nodes runnable_nodes nodes_of_version by_key insert_by_key select_where
    is_taken ready blocks done find_where
offers_last = refl

offers-IsStartable_example : (offers chained "run" "v1" "last" 1 ≡ true) ↔ (
    (is_defined chained "v1" "last" ≡ true)
    × IsStartable chained "run" "v1" "last"
    × IsNext chained "run" "last" 1)
offers-IsStartable_example = offers-IsStartable chained "run" "v1" "last" 1

-- a waiting node whose first attempt is resumed
abbrev waiting : Db
waiting = with_step NodeStatus.waiting

abbrev resumes : Event
resumes = event EventType.node_requeued "e3" 3 "resume"

abbrev resumed : Db
resumed = from_ok waiting (on_node_requeued codec waiting resumes)

resumes_it : on_node_requeued codec waiting resumes ≡ ok resumed
unfolding on_node_requeued ensure_run_node run_node_id find_where update_where requeue
resumes_it = refl

at_step : node_at waiting "run" "step" ≡ some (step_row NodeStatus.waiting)
unfolding node_at find_where
at_step = refl

defined_step : is_defined waiting "v1" "step" ≡ true
unfolding any_where
defined_step = refl

on_node_requeued-offers_example :
    offers resumed "run" "v1" "step" (
      attempt_after
        (record { node_key = "step"; attempt_no = 1; resume_attempt = true })
        (step_row NodeStatus.waiting))
    ≡ true
on_node_requeued-offers_example =
    on_node_requeued-offers codec waiting resumes resumed
      (record { node_key = "step"; attempt_no = 1; resume_attempt = true })
      (step_row NodeStatus.waiting) "v1" refl at_step refl defined_step resumes_it

completes :
    terminal_event (with_step NodeStatus.succeeded) "run" "v1" ≡ some EventType.run_completed
unfolding terminal_event count_where
completes = refl

terminal_event-completed_example :
    AllNodes is_done (with_step NodeStatus.succeeded) "run"
    × (tally is_done (with_step NodeStatus.succeeded) "run"
        ≡ defined_total (with_step NodeStatus.succeeded) "v1")
    × (0 < defined_total (with_step NodeStatus.succeeded) "v1")
terminal_event-completed_example =
    terminal_event-completed (with_step NodeStatus.succeeded) "run" "v1" completes

cancels : terminal_event (with_step NodeStatus.cancelled) "run" "v1" ≡ some EventType.run_cancelled
unfolding terminal_event count_where
cancels = refl

terminal_event-cancelled_example :
    SomeNode is_cancelled (with_step NodeStatus.cancelled) "run"
    × AllNodes (λ s. is_cancelled s || is_done s) (with_step NodeStatus.cancelled) "run"
terminal_event-cancelled_example =
    terminal_event-cancelled (with_step NodeStatus.cancelled) "run" "v1" cancels

abbrev decided : Db
decided =
    from_ok blank
      (try_complete_run codec 20 "e9" "k9" "alice" (with_step NodeStatus.failed) "run" "v1")

decides :
    try_complete_run codec 20 "e9" "k9" "alice" (with_step NodeStatus.failed) "run" "v1"
    ≡ ok decided
unfolding try_complete_run find_run find_where terminal_event count_where append_verdict any_where
    append_tx validate is_malformed append_event_tx is_duplicate max_sequence max_where insert_event
    apply_projections handle on_run_terminal finish_run insert_anchor insert_outcome update_where
decides = refl

runs : HasStatus RunStatus.running "run" (with_step NodeStatus.failed)
unfolding find_where
runs = (_, refl, refl)

no_verdict_yet : already_terminal (with_step NodeStatus.failed) "run" ≡ false
unfolding any_where
no_verdict_yet = refl

try_complete_run_fails_example :
    HasStatus RunStatus.failed "run" decided ↔ HasFailedNode "run" (with_step NodeStatus.failed)
try_complete_run_fails_example =
    try_complete_run_fails codec 20 "e9" "k9" "alice" (with_step NodeStatus.failed) decided "run"
      "v1" runs no_verdict_yet decides

-- the tables later on, with the node ended by another event and the run's row as it was at first
abbrev moved_on : Db
moved_on = record (with_step NodeStatus.succeeded) {
  events = decided.events ++ (event (EventType.other "note") "e12" 2 "{}" ∷ []);
}

has_verdict : terminal_event (with_step NodeStatus.failed) "run" "v1" ≡ some EventType.run_failed
unfolding terminal_event count_where
has_verdict = refl

has_row : HasRow "run" moved_on
unfolding find_where
has_row = (_, refl)

try_complete_run_once_example :
    try_complete_run codec 30 "e10" "k10" "bob" moved_on "run" "v1" ≡ ok moved_on
try_complete_run_once_example =
    try_complete_run_once codec 20 30 "e9" "e10" "k9" "k10" "alice" "bob"
      (with_step NodeStatus.failed) decided moved_on "run" "v1" "v1" EventType.run_failed runs
      no_verdict_yet has_verdict decides
      (record { added = event (EventType.other "note") "e12" 2 "{}" ∷ []; eq = refl }) has_row

-- the one node of the run, claimed at once
abbrev claimed : Bool × Db
claimed =
    from_ok (false, blank)
      (begin_claimed_attempt codec 20 "e9" "k9" "alice" blank "run" start_payload)

claims_it :
    begin_claimed_attempt codec 20 "e9" "k9" "alice" blank "run" start_payload
    ≡ ok (true, claimed.1)
unfolding begin_claimed_attempt claim find_where append_tx validate is_malformed append_event_tx
    is_duplicate max_sequence max_where insert_event apply_projections handle on_node_started
    upsert_started any_where insert_node update_where stamp_run record_attempt run_node_id
    upsert_attempt insert_attempt is_executor is_contract derived_node_id
claims_it = refl

begin_claimed_attempt-Claimed_example : Claimed codec blank "run" "step" claimed.1
begin_claimed_attempt-Claimed_example =
    begin_claimed_attempt-Claimed codec 20 "e9" "k9" "alice" blank "run" "start" start_payload
      claimed.1 refl refl claims_it

abbrev gate_claimed : Bool × Db
gate_claimed =
    from_ok (false, blank) (claim_non_executable codec 20 "e9" "k9" "alice" blank "run" "step")

claims_gate :
    claim_non_executable codec 20 "e9" "k9" "alice" blank "run" "step" ≡ ok (true, gate_claimed.1)
unfolding claim_non_executable claim find_where append_tx validate is_malformed append_event_tx
    is_duplicate max_sequence max_where insert_event apply_projections handle on_node_started
    upsert_started any_where insert_node update_where stamp_run record_attempt run_node_id
    upsert_attempt insert_attempt is_executor is_contract derived_node_id
claims_gate = refl

claim_non_executable-Claimed_example : Claimed codec blank "run" "step" gate_claimed.1
claim_non_executable-Claimed_example =
    claim_non_executable-Claimed codec 20 "e9" "k9" "alice" blank "run" "step" "start" start_payload
      gate_claimed.1 refl refl refl claims_gate
