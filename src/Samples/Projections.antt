-- ===== src/Samples/Projections.antt =====
-- The theorems on the log and its projections at concrete runs.
use proceed.Base.{
  ◌+◌, some, List, [], ◌∷◌, ◌++◌, ◌≡◌, refl, ok, err, store_conflict, Evolves, str_eq_iff, arith,
}
use proceed.Base.{update_where, find_where, any_where, max_where, count_where}
use proceed.Store.Types.{Event, EventType, Db, NodeStatus}
use proceed.Store.Nodes.{
  derived_node_id, run_node_id, insert_node, ensure_run_node, is_executor, is_contract,
  insert_attempt,
}
use proceed.Store.Started.{
  upsert_started, stamp_run, upsert_attempt, record_attempt, on_node_started,
}
use proceed.Store.Ended.{ensure_attempt, close_attempt, close_attempts, on_node_terminal}
use proceed.Store.Projection.{apply_projections}
use proceed.Store.StatusMachine.{Moves}
use proceed.Store.Replay.{replay, wipe, in_order, insert_ordered, is_before, rebuild}
use proceed.Store.References.{
  Referrers, references_hold, run_references_hold, evidence_references_hold, end_references_hold,
}
use proceed.Store.Runs.{on_run_started, started_digest, ensure_run, insert_params}
use proceed.Store.Replay.Machine.{apply_projections-Moves}
use proceed.Store.Replay.Final.{Final, replay-Final, rebuild-rebuild}
use proceed.Store.Named.{After}
use proceed.Store.Named.Events.{named_key, apply_projections-status}
use proceed.Store.Log.{
  validate, is_malformed, is_duplicate, max_sequence, insert_event, append_event_tx, append_tx,
}
use proceed.Store.Log.Order.{
  IsLog, IsDense, append_event_tx-IsLog, append_event_tx_retry, append_tx-IsDense,
}
use proceed.Samples.{codec, event, starts, finishes, blank, with_step, from_ok}

-- a node that was not known is started
abbrev started : Db
started = from_ok blank (apply_projections codec blank starts)

applied_start : apply_projections codec blank starts ≡ ok started
unfolding apply_projections on_node_started upsert_started any_where insert_node update_where
    stamp_run record_attempt run_node_id find_where upsert_attempt insert_attempt is_executor
    is_contract derived_node_id
applied_start = refl

abbrev finished : Db
finished = from_ok blank (apply_projections codec started finishes)

applied_finish : apply_projections codec started finishes ≡ ok finished
unfolding apply_projections on_node_started upsert_started any_where insert_node update_where
    stamp_run record_attempt run_node_id find_where upsert_attempt insert_attempt is_executor
    is_contract derived_node_id on_node_terminal ensure_run_node close_attempts close_attempt
    ensure_attempt
applied_finish = refl

apply_projections-Moves_example : Moves EventType.node_finished started finished
apply_projections-Moves_example = apply_projections-Moves codec started finishes applied_finish

names_step : named_key EventType.node_finished codec "end" ≡ some "step"
unfolding named_key
names_step = refl

apply_projections-status_example : After EventType.node_finished codec started "run" "step" finished
apply_projections-status_example =
    apply_projections-status codec started finishes "step" names_step applied_finish

-- a result that arrives after the cancelling was requested
abbrev late : List Event
late = finishes ∷ []

abbrev cancelling : Db
cancelling = with_step NodeStatus.cancel_requested

abbrev after_late : Db
after_late = from_ok cancelling (replay codec cancelling late)

late_replayed : replay codec cancelling late ≡ ok after_late
unfolding replay apply_projections on_node_terminal ensure_run_node run_node_id find_where any_where
    update_where close_attempts close_attempt ensure_attempt insert_attempt is_executor is_contract
late_replayed = refl

replay-Final_example : Evolves Final cancelling.nodes after_late.nodes
replay-Final_example = replay-Final codec late cancelling after_late (λ e. cc, tt) late_replayed

-- a run that was started and whose node ran and ended, with projections that are out of step
abbrev logged : Db
logged = record (with_step NodeStatus.waiting) {
  events =
      event EventType.run_started "e0" 1 "started"
      ∷ event EventType.node_started "e1" 2 "start"
      ∷ event EventType.node_finished "e2" 3 "end"
      ∷ [];
}

-- a schedule has started the run
abbrev referrers : Referrers
referrers = record { metric_anchors = []; proposal_approvals = []; schedule_runs = "run" ∷ [] }

abbrev rebuilt : Db
rebuilt = from_ok logged (rebuild codec referrers logged)

logged_rebuilds : rebuild codec referrers logged ≡ ok rebuilt
unfolding rebuild replay wipe in_order insert_ordered is_before apply_projections on_run_started
    started_digest ensure_run insert_params on_node_started upsert_started any_where insert_node
    update_where stamp_run record_attempt run_node_id find_where upsert_attempt insert_attempt
    is_executor is_contract derived_node_id on_node_terminal ensure_run_node close_attempts
    close_attempt ensure_attempt references_hold run_references_hold evidence_references_hold
    end_references_hold
logged_rebuilds = refl

-- the same log under the tables of a run that has only begun
abbrev behind : Db
behind = record blank { events = logged.events }

rebuild-rebuild_example :
    (rebuild codec referrers behind ≡ ok rebuilt) × (rebuild codec referrers rebuilt ≡ ok rebuilt)
rebuild-rebuild_example =
    rebuild-rebuild codec referrers logged behind rebuilt
      (record {
        versions = refl;
        graph_nodes = refl;
        graph_edges = refl;
        events = refl;
        defer_fks = refl;
      })
      logged_rebuilds

-- the log after the first event
abbrev appended : Db
appended = from_ok blank (append_event_tx codec blank starts)

append_start : append_event_tx codec blank starts ≡ ok appended
unfolding append_event_tx is_duplicate max_sequence max_where insert_event apply_projections
    on_node_started upsert_started any_where insert_node update_where stamp_run record_attempt
    run_node_id find_where upsert_attempt insert_attempt is_executor is_contract derived_node_id
append_start = refl

append_event_tx-IsLog_example :
    (appended.events ≡ blank.events ++ (starts ∷ [])) × IsLog appended.events
append_event_tx-IsLog_example = append_event_tx-IsLog codec blank starts appended tt append_start

abbrev again : Event
again = event EventType.node_started "e1" 2 "start"

append_event_tx_retry_example : append_event_tx codec appended again ≡ err store_conflict
append_event_tx_retry_example =
    append_event_tx_retry codec blank starts appended again append_start
      (λ e. ground (arith, str_eq_iff "e1" "")) refl

abbrev recorded : Event × Db
recorded = from_ok (starts, blank) (append_tx codec 20 "e9" blank starts)

append_tx_start : append_tx codec 20 "e9" blank starts ≡ ok recorded
unfolding append_tx validate is_malformed append_event_tx is_duplicate max_sequence max_where
    insert_event apply_projections on_node_started upsert_started any_where insert_node update_where
    stamp_run record_attempt run_node_id find_where upsert_attempt insert_attempt is_executor
    is_contract derived_node_id
append_tx_start = refl

blank-IsDense : IsDense blank
unfolding max_sequence max_where count_where
blank-IsDense run_id = refl

append_tx-IsDense_example :
    (recorded.0.sequence ≡ max_sequence blank "run" + 1) × IsDense recorded.1
append_tx-IsDense_example =
    append_tx-IsDense codec 20 "e9" blank starts recorded.0 recorded.1 blank-IsDense append_tx_start
