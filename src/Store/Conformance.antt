-- ===== src/Store/Conformance.antt =====
-- The handlers of the node events follow the state machine (internal/store/projection.go).
use proceed.Base.{
  ℕ, String, Bool, true, false, not, ◌≡◌, ok, ◌>>=◌, Ensures, holds, Ensures-at, Ensures-bind,
  Ensures-intro, Ensures-if, Ensures-require, is_empty, any_where, arith,
}
use proceed.Store.Types.{Event, EventType, Db, RunNode, NodeStatus}
use proceed.Store.Payload.{Codec, NodeTerminalPayload, NodeStartedPayload}
use proceed.Store.Sql.{decode_payload}
use proceed.Store.Nodes.{
  is_node_of, run_node_id, ensure_run_node, update_nodes, is_uncancelled, is_unclosed, set_status,
  finish_node, insert_attempt,
}
use proceed.Store.Started.{
  restart_node, upsert_started, stamp_run, record_attempt, upsert_attempt, on_node_started,
}
use proceed.Store.Ended.{close_attempts, ensure_attempt, end_node, on_node_terminal}
use proceed.Store.Moved.{
  on_node_cancel_requested, on_node_skipped, cancel_attempt, on_node_cancelled, requeue,
  on_node_requeued, on_node_waiting, on_node_reconciling, on_node_attempt_failed, fail_attempt,
  is_executing_node,
}
use proceed.Store.Frame.{
  Keeps, Keeps-trans, Adds-refl, Adds-Keeps, ensure_run_node-Adds, insert_node-Adds,
}
use proceed.Store.StatusMachine.{
  next_status, Follows, Moves, Moves-Adds, Moves-update, Keeps-refl, Adds-after, Moves-after,
}

-- the types whose handler is onNodeTerminal
abbrev pub is_ending : EventType → Bool
is_ending EventType.node_finished = true
is_ending EventType.node_failed = true
is_ending EventType.node_uncertain = true
is_ending _ = false

ensure_attempt-Keeps :
    (db : Db) (ev : Event) (p : NodeTerminalPayload) (id : String) (d : Db)
    → ensure_attempt db ev p id ≡ ok d
    → Keeps db d
unfolding ensure_attempt insert_attempt
ensure_attempt-Keeps db ev p id d h = ground arith

pub close_attempts-Keeps :
    (db : Db) (ev : Event) (p : NodeTerminalPayload) (id : String) (d : Db)
    → close_attempts db ev p id ≡ ok d
    → Keeps db d
unfolding close_attempts
close_attempts-Keeps db ev p id d h = grind (arith, ensure_attempt-Keeps)

pub fail_attempt-Keeps :
    (db : Db) (ev : Event) (p : NodeTerminalPayload) (id : String)
    → Keeps db (fail_attempt db ev p id)
unfolding fail_attempt
fail_attempt-Keeps db ev p id = ground arith

pub cancel_attempt-Keeps :
    (db : Db) (ev : Event) (id : String) (nr : ℕ) → Keeps db (cancel_attempt db ev id nr)
unfolding cancel_attempt
cancel_attempt-Keeps db ev id nr = ground arith

-- a handler that ensures the node's row, writes other tables and updates run_node
ensured-Moves :
    (t : EventType) (c : Codec) (db : Db) (run_id key : String) (p : String → RunNode → Bool)
    (f : RunNode → RunNode) (g : Db → String → Db)
    → ((m : Db) (id : String) → Keeps m (g m id))
    → ((id : String) (x : RunNode) → p id x ≡ true → Follows t x (f x))
    → Ensures
        (Moves t db)
        (ensure_run_node c db run_id key >>= λ r. ok (update_nodes (g r.1 r.0) (p r.0) f))
ensured-Moves t c db run_id key p f g keep step =
    Ensures-bind (ensure_run_node c db run_id key) _ λ r made. holds (
      Moves-update t db (g r.1 r.0) (p r.0) f
        (Adds-after (ensure_run_node-Adds c db run_id key r made) (keep r.1 r.0)) (step r.0))

upsert_started-Moves :
    (c : Codec) (db : Db) (ev : Event) (key : String) (nr : ℕ)
    → Ensures (Moves EventType.node_started db) (upsert_started c db ev key nr)
unfolding upsert_started next_status
upsert_started-Moves c db ev key nr =
    Ensures-if (any_where (is_node_of ev.run_id key) db.nodes)
      (λ _. holds (
        Moves-update EventType.node_started db db (is_node_of ev.run_id key) (restart_node ev nr)
          (Adds-refl db) λ x q. ground arith))
      λ _.
        Ensures-intro _
          λ d made. Moves-Adds EventType.node_started db d (insert_node-Adds db _ d made)

pub stamp_run-Keeps : (db : Db) (ev : Event) → Keeps db (stamp_run db ev)
unfolding stamp_run
stamp_run-Keeps db ev = ground arith

pub record_attempt-Keeps :
    (db : Db) (ev : Event) (p : NodeStartedPayload) (nr : ℕ) (d : Db)
    → record_attempt db ev p nr ≡ ok d
    → Keeps db d
unfolding record_attempt upsert_attempt insert_attempt
record_attempt-Keeps db ev p nr d h = ground arith

module _ (c : Codec) (db : Db) (ev : Event) {d : Db} where
  pub on_node_started-Moves : on_node_started c db ev ≡ ok d → Moves EventType.node_started db d
  unfolding on_node_started
  on_node_started-Moves h =
      Ensures-at {P = Moves EventType.node_started db}
        (Ensures-bind (decode_payload (c.node_started ev.payload)) _ λ p _.
          Ensures-require (not (is_empty p.node_key)) _ _ λ _.
            Ensures-bind (upsert_started c db ev p.node_key _) _ λ m started.
              Ensures-intro _ λ e wrote.
                Moves-after (Ensures-at (upsert_started-Moves c db ev p.node_key _) started) (
                  Keeps-trans (stamp_run-Keeps m ev)
                    (record_attempt-Keeps (stamp_run m ev) ev p _ e wrote)))
        h

  pub on_node_terminal-Moves :
      (t : EventType)
      → ev.type ≡ t
      → is_ending t ≡ true
      → on_node_terminal c db ev ≡ ok d
      → Moves t db d
  unfolding on_node_terminal next_status
  on_node_terminal-Moves t e ending h =
      Ensures-at {P = Moves t db}
        (Ensures-bind (decode_payload (c.node_terminal ev.payload)) _ λ p _.
          Ensures-bind (ensure_run_node c db ev.run_id p.node_key) _ λ r made.
            Ensures-bind (close_attempts r.1 ev p r.0) _ λ m closed. holds (
              Moves-update t db m (is_uncancelled r.0) (end_node ev p)
                (Adds-after (ensure_run_node-Adds c db _ _ r made)
                  (close_attempts-Keeps r.1 ev p r.0 m closed))
                λ x q. ground arith))
        h

  pub on_node_cancel_requested-Moves :
      on_node_cancel_requested c db ev ≡ ok d → Moves EventType.node_cancel_requested db d
  unfolding on_node_cancel_requested next_status
  on_node_cancel_requested-Moves h =
      Ensures-at {P = Moves EventType.node_cancel_requested db}
        (Ensures-bind (decode_payload (c.node_terminal ev.payload)) _ λ p _.
          Ensures-bind (run_node_id db ev.run_id p.node_key) _ λ id _. holds (
            Moves-update EventType.node_cancel_requested db db (is_unclosed id)
              (set_status NodeStatus.cancel_requested) (Adds-refl db) λ x q. ground arith))
        h

  pub on_node_skipped-Moves : on_node_skipped c db ev ≡ ok d → Moves EventType.node_skipped db d
  unfolding on_node_skipped next_status
  on_node_skipped-Moves h =
      Ensures-at {P = Moves EventType.node_skipped db}
        (Ensures-bind (decode_payload (c.node_terminal ev.payload)) _ λ p _.
          ensured-Moves EventType.node_skipped c db ev.run_id p.node_key is_uncancelled
            (finish_node NodeStatus.skipped ev.occurred_at) (λ m _. m) (λ m id. Keeps-refl m)
            λ id x q. ground arith)
        h

  pub on_node_cancelled-Moves :
      on_node_cancelled c db ev ≡ ok d → Moves EventType.node_cancelled db d
  unfolding on_node_cancelled next_status
  on_node_cancelled-Moves h =
      Ensures-at {P = Moves EventType.node_cancelled db}
        (Ensures-bind (decode_payload (c.node_terminal ev.payload)) _ λ p _.
          ensured-Moves EventType.node_cancelled c db ev.run_id p.node_key is_unclosed
            (finish_node NodeStatus.cancelled ev.occurred_at)
            (λ m id. cancel_attempt m ev id p.attempt_no)
            (λ m id. cancel_attempt-Keeps m ev id p.attempt_no) λ id x q. ground arith)
        h

  pub on_node_requeued-Moves : on_node_requeued c db ev ≡ ok d → Moves EventType.node_requeued db d
  unfolding on_node_requeued next_status requeue
  on_node_requeued-Moves h =
      Ensures-at {P = Moves EventType.node_requeued db}
        (Ensures-bind (decode_payload (c.node_requeued ev.payload)) _ λ p _.
          ensured-Moves EventType.node_requeued c db ev.run_id p.node_key is_uncancelled (requeue p)
            (λ m _. m) (λ m id. Keeps-refl m) λ id x q. ground arith)
        h

  pub on_node_waiting-Moves : on_node_waiting c db ev ≡ ok d → Moves EventType.node_waiting db d
  unfolding on_node_waiting next_status
  on_node_waiting-Moves h =
      Ensures-at {P = Moves EventType.node_waiting db}
        (Ensures-bind (decode_payload (c.node_terminal ev.payload)) _ λ p _.
          ensured-Moves EventType.node_waiting c db ev.run_id p.node_key is_uncancelled
            (set_status NodeStatus.waiting) (λ m _. m) (λ m id. Keeps-refl m)
            λ id x q. ground arith)
        h

  pub on_node_reconciling-Moves :
      on_node_reconciling c db ev ≡ ok d → Moves EventType.node_reconciling db d
  unfolding on_node_reconciling next_status
  on_node_reconciling-Moves h =
      Ensures-at {P = Moves EventType.node_reconciling db}
        (Ensures-bind (decode_payload (c.node_terminal ev.payload)) _ λ p _.
          ensured-Moves EventType.node_reconciling c db ev.run_id p.node_key is_uncancelled
            (set_status NodeStatus.reconciling) (λ m _. m) (λ m id. Keeps-refl m)
            λ id x q. ground arith)
        h

  pub on_node_attempt_failed-Moves :
      on_node_attempt_failed c db ev ≡ ok d → Moves EventType.node_attempt_failed db d
  unfolding on_node_attempt_failed next_status fail_attempt
  on_node_attempt_failed-Moves h =
      Ensures-at {P = Moves EventType.node_attempt_failed db}
        (Ensures-bind (decode_payload (c.node_terminal ev.payload)) _ λ p _.
          Ensures-bind (run_node_id db ev.run_id p.node_key) _ λ id _. holds (
            Moves-update EventType.node_attempt_failed db (fail_attempt db ev p id)
              (is_executing_node id) (set_status NodeStatus.eligible)
              (Adds-Keeps (fail_attempt-Keeps db ev p id)) λ x q. ground arith))
        h
