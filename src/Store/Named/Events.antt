-- ===== src/Store/Named/Events.antt =====
-- Every node event sets the status of the node that it names as the state machine says.
use proceed.Base.{
  ℕ, String, true, not, Option, none, some, ◌≡◌, refl, sym, subst, ok, if◌then◌else◌, str_eq_iff,
  str_eq_refl, is_empty, any_where, find_where, Ensures, holds, Ensures-at, Ensures-bind,
  Ensures-map, Ensures-intro, Ensures-if, Ensures-require, arith,
}
use mathlib.Core.Option
use proceed.Store.Types.{Event, EventType, Db, NodeStatus}
use proceed.Store.Payload.{Codec}
use proceed.Store.Sql.{decode_payload}
use proceed.Store.Nodes.{
  is_node_of, run_node_id, insert_node, ensure_run_node, is_uncancelled, is_unclosed, set_status,
  finish_node,
}
use proceed.Store.Started.{restart_node, started_node, upsert_started, stamp_run, on_node_started}
use proceed.Store.Ended.{close_attempts, end_node, on_node_terminal}
use proceed.Store.Moved.{
  on_node_cancel_requested, on_node_skipped, cancel_attempt, on_node_cancelled, requeue,
  on_node_requeued, on_node_waiting, on_node_reconciling, fail_attempt, is_executing_node,
  on_node_attempt_failed,
}
use proceed.Store.Projection.{handle, apply_projections}
use proceed.Store.Frame.{Keeps, Keeps-trans}
use proceed.Store.StatusMachine.{next_status, Keeps-refl}
use proceed.Store.Conformance.{
  is_ending, close_attempts-Keeps, cancel_attempt-Keeps, fail_attempt-Keeps, stamp_run-Keeps,
  record_attempt-Keeps,
}
use proceed.Store.Named.{
  node_at, After, Ensured-After, ensured-After, ensure_run_node-Ensured, found-Ensured,
  find_where-update_where, find_where-append_one, find_where-any_where, find_where-holds,
  find_where-none,
}

-- the key in the payload of a node event
unfoldable pub named_key : EventType → Codec → String → Option String
named_key EventType.node_started c s = Option.map (λ p. p.node_key) (c.node_started s)
named_key EventType.node_requeued c s = Option.map (λ p. p.node_key) (c.node_requeued s)
named_key EventType.node_finished c s = Option.map (λ p. p.node_key) (c.node_terminal s)
named_key EventType.node_failed c s = Option.map (λ p. p.node_key) (c.node_terminal s)
named_key EventType.node_uncertain c s = Option.map (λ p. p.node_key) (c.node_terminal s)
named_key EventType.node_cancel_requested c s = Option.map (λ p. p.node_key) (c.node_terminal s)
named_key EventType.node_skipped c s = Option.map (λ p. p.node_key) (c.node_terminal s)
named_key EventType.node_cancelled c s = Option.map (λ p. p.node_key) (c.node_terminal s)
named_key EventType.node_waiting c s = Option.map (λ p. p.node_key) (c.node_terminal s)
named_key EventType.node_reconciling c s = Option.map (λ p. p.node_key) (c.node_terminal s)
named_key EventType.node_attempt_failed c s = Option.map (λ p. p.node_key) (c.node_terminal s)
named_key _ c s = none

-- what the event says of the node that it names, if it names one
abbrev Names : EventType → Codec → Db → Event → Db → Type 0
Names t c db ev d =
    (key : String) → named_key t c ev.payload ≡ some key → After t c db ev.run_id key d

retarget :
    (t : EventType) (c : Codec) (db : Db) (run_id k key : String) (d : Db)
    → k ≡ key
    → After t c db run_id k d
    → After t c db run_id key d
retarget t c db run_id k key d e a = subst (λ j. After t c db run_id j d) e a

-- the upsert of onNodeStarted leaves the node running
upsert_started-After :
    (c : Codec) (db : Db) (ev : Event) (key : String) (nr : ℕ)
    → Ensures (After EventType.node_started c db ev.run_id key) (upsert_started c db ev key nr)
unfolding upsert_started next_status node_at insert_node
upsert_started-After c db ev key nr =
    Ensures-if (any_where (is_node_of ev.run_id key) db.nodes)
      (λ there.
        let (row, found) = find_where-any_where (is_node_of ev.run_id key) db.nodes there in
        holds (record {
          row = if is_node_of ev.run_id key row then restart_node ev nr row else row;
          found =
              find_where-update_where (is_node_of ev.run_id key) (is_node_of ev.run_id key)
                (restart_node ev nr) (λ x. refl) db.nodes found;
          status = rw (find_where-holds (is_node_of ev.run_id key) db.nodes found) refl;
        }))
      λ absent. Ensures-intro _ λ d made. record {
        row = started_node c ev key nr;
        found = ground (
          arith,
          str_eq_refl ev.run_id,
          str_eq_refl key,
          find_where-append_one (is_node_of ev.run_id key) db.nodes (started_node c ev key nr),
          find_where-none (is_node_of ev.run_id key) db.nodes absent,
        );
        status = refl;
      }

-- a later step that leaves run_node alone
After-Keeps :
    (t : EventType) (c : Codec) (db m d : Db) (run_id key : String)
    → Keeps m d
    → After t c db run_id key m
    → After t c db run_id key d
unfolding node_at
After-Keeps t c db m d run_id key k a = record {
  row = a.row;
  found = subst (λ l. find_where (is_node_of run_id key) l ≡ some a.row) (sym k.nodes) a.found;
  status = a.status;
}

module _ (c : Codec) (db : Db) (ev : Event) {d : Db} where
  on_node_started-Names : on_node_started c db ev ≡ ok d → Names EventType.node_started c db ev d
  unfolding on_node_started named_key
  on_node_started-Names h =
      Ensures-at {P = Names EventType.node_started c db ev}
        (Ensures-bind (decode_payload (c.node_started ev.payload)) _ λ p read.
          Ensures-require (not (is_empty p.node_key)) _ _ λ _.
            Ensures-bind (upsert_started c db ev p.node_key _) _ λ m started.
              Ensures-intro _ λ e wrote key named.
                retarget EventType.node_started c db ev.run_id p.node_key key e (ground arith) (
                  After-Keeps EventType.node_started c db m e ev.run_id p.node_key
                    (Keeps-trans (stamp_run-Keeps m ev)
                      (record_attempt-Keeps (stamp_run m ev) ev p _ e wrote))
                    (Ensures-at (upsert_started-After c db ev p.node_key _) started)))
        h

  on_node_terminal-Names :
      (t : EventType)
      → ev.type ≡ t
      → is_ending t ≡ true
      → on_node_terminal c db ev ≡ ok d
      → Names t c db ev d
  unfolding on_node_terminal next_status named_key
  on_node_terminal-Names t e ending h =
      Ensures-at {P = Names t c db ev}
        (Ensures-bind (decode_payload (c.node_terminal ev.payload)) _ λ p read.
          Ensures-bind (ensure_run_node c db ev.run_id p.node_key) _ λ r made.
            Ensures-bind (close_attempts r.1 ev p r.0) _ λ m closed. holds λ key named.
              retarget t c db ev.run_id p.node_key key _ (ground arith) (
                Ensured-After t c db ev.run_id p.node_key r.0 r.1 m (is_uncancelled r.0)
                  (end_node ev p)
                  (Ensures-at (ensure_run_node-Ensured c db ev.run_id p.node_key) made)
                  (close_attempts-Keeps r.1 ev p r.0 m closed) (λ x. ground arith)
                  λ x i. ground (arith, str_eq_iff x.id r.0)))
        h

  on_node_cancel_requested-Names :
      on_node_cancel_requested c db ev ≡ ok d → Names EventType.node_cancel_requested c db ev d
  unfolding on_node_cancel_requested next_status named_key
  on_node_cancel_requested-Names h =
      Ensures-at {P = Names EventType.node_cancel_requested c db ev}
        (Ensures-bind (decode_payload (c.node_terminal ev.payload)) _ λ p read.
          Ensures-map
            (λ e a key named.
              retarget EventType.node_cancel_requested c db ev.run_id p.node_key key e
                (ground arith) a)
            (Ensures-bind (run_node_id db ev.run_id p.node_key) _ λ id found. holds (
              Ensured-After EventType.node_cancel_requested c db ev.run_id p.node_key id db db
                (is_unclosed id) (set_status NodeStatus.cancel_requested)
                (found-Ensured db ev.run_id p.node_key id found) (Keeps-refl db) (λ x. ground arith)
                λ x e. ground (arith, str_eq_iff x.id id))))
        h

  on_node_skipped-Names : on_node_skipped c db ev ≡ ok d → Names EventType.node_skipped c db ev d
  unfolding on_node_skipped next_status named_key
  on_node_skipped-Names h =
      Ensures-at {P = Names EventType.node_skipped c db ev}
        (Ensures-bind (decode_payload (c.node_terminal ev.payload)) _ λ p read.
          Ensures-map
            (λ e a key named.
              retarget EventType.node_skipped c db ev.run_id p.node_key key e (ground arith) a)
            (ensured-After EventType.node_skipped c db ev.run_id p.node_key is_uncancelled
              (finish_node NodeStatus.skipped ev.occurred_at) (λ m _. m) (λ m id. Keeps-refl m)
              (λ x. ground arith) λ id x e. ground (arith, str_eq_iff x.id id)))
        h

  on_node_cancelled-Names :
      on_node_cancelled c db ev ≡ ok d → Names EventType.node_cancelled c db ev d
  unfolding on_node_cancelled next_status named_key
  on_node_cancelled-Names h =
      Ensures-at {P = Names EventType.node_cancelled c db ev}
        (Ensures-bind (decode_payload (c.node_terminal ev.payload)) _ λ p read.
          Ensures-map
            (λ e a key named.
              retarget EventType.node_cancelled c db ev.run_id p.node_key key e (ground arith) a)
            (ensured-After EventType.node_cancelled c db ev.run_id p.node_key is_unclosed
              (finish_node NodeStatus.cancelled ev.occurred_at)
              (λ m id. cancel_attempt m ev id p.attempt_no)
              (λ m id. cancel_attempt-Keeps m ev id p.attempt_no) (λ x. ground arith)
              λ id x e. ground (arith, str_eq_iff x.id id)))
        h

  on_node_requeued-Names : on_node_requeued c db ev ≡ ok d → Names EventType.node_requeued c db ev d
  unfolding on_node_requeued next_status named_key requeue
  on_node_requeued-Names h =
      Ensures-at {P = Names EventType.node_requeued c db ev}
        (Ensures-bind (decode_payload (c.node_requeued ev.payload)) _ λ p read.
          Ensures-map
            (λ e a key named.
              retarget EventType.node_requeued c db ev.run_id p.node_key key e (ground arith) a)
            (ensured-After EventType.node_requeued c db ev.run_id p.node_key is_uncancelled
              (requeue p) (λ m _. m) (λ m id. Keeps-refl m) (λ x. ground arith)
              λ id x e. ground (arith, str_eq_iff x.id id)))
        h

  on_node_waiting-Names : on_node_waiting c db ev ≡ ok d → Names EventType.node_waiting c db ev d
  unfolding on_node_waiting next_status named_key
  on_node_waiting-Names h =
      Ensures-at {P = Names EventType.node_waiting c db ev}
        (Ensures-bind (decode_payload (c.node_terminal ev.payload)) _ λ p read.
          Ensures-map
            (λ e a key named.
              retarget EventType.node_waiting c db ev.run_id p.node_key key e (ground arith) a)
            (ensured-After EventType.node_waiting c db ev.run_id p.node_key is_uncancelled
              (set_status NodeStatus.waiting) (λ m _. m) (λ m id. Keeps-refl m) (λ x. ground arith)
              λ id x e. ground (arith, str_eq_iff x.id id)))
        h

  on_node_reconciling-Names :
      on_node_reconciling c db ev ≡ ok d → Names EventType.node_reconciling c db ev d
  unfolding on_node_reconciling next_status named_key
  on_node_reconciling-Names h =
      Ensures-at {P = Names EventType.node_reconciling c db ev}
        (Ensures-bind (decode_payload (c.node_terminal ev.payload)) _ λ p read.
          Ensures-map
            (λ e a key named.
              retarget EventType.node_reconciling c db ev.run_id p.node_key key e (ground arith) a)
            (ensured-After EventType.node_reconciling c db ev.run_id p.node_key is_uncancelled
              (set_status NodeStatus.reconciling) (λ m _. m) (λ m id. Keeps-refl m)
              (λ x. ground arith) λ id x e. ground (arith, str_eq_iff x.id id)))
        h

  on_node_attempt_failed-Names :
      on_node_attempt_failed c db ev ≡ ok d → Names EventType.node_attempt_failed c db ev d
  unfolding on_node_attempt_failed next_status named_key
  on_node_attempt_failed-Names h =
      Ensures-at {P = Names EventType.node_attempt_failed c db ev}
        (Ensures-bind (decode_payload (c.node_terminal ev.payload)) _ λ p read.
          Ensures-map
            (λ e a key named.
              retarget EventType.node_attempt_failed c db ev.run_id p.node_key key e (ground arith)
                a)
            (Ensures-bind (run_node_id db ev.run_id p.node_key) _ λ id found. holds (
              Ensured-After EventType.node_attempt_failed c db ev.run_id p.node_key id db
                (fail_attempt db ev p id) (is_executing_node id) (set_status NodeStatus.eligible)
                (found-Ensured db ev.run_id p.node_key id found) (fail_attempt-Keeps db ev p id)
                (λ x. ground arith) λ x e. ground (arith, str_eq_iff x.id id))))
        h

  handle-Names : (t : EventType) → ev.type ≡ t → handle t c db ev ≡ ok d → Names t c db ev d
  unfolding handle
  handle-Names EventType.node_started e h = on_node_started-Names h
  handle-Names EventType.node_finished e h = on_node_terminal-Names _ e refl h
  handle-Names EventType.node_failed e h = on_node_terminal-Names _ e refl h
  handle-Names EventType.node_uncertain e h = on_node_terminal-Names _ e refl h
  handle-Names EventType.node_cancel_requested e h = on_node_cancel_requested-Names h
  handle-Names EventType.node_skipped e h = on_node_skipped-Names h
  handle-Names EventType.node_cancelled e h = on_node_cancelled-Names h
  handle-Names EventType.node_requeued e h = on_node_requeued-Names h
  handle-Names EventType.node_waiting e h = on_node_waiting-Names h
  handle-Names EventType.node_reconciling e h = on_node_reconciling-Names h
  handle-Names EventType.node_attempt_failed e h = on_node_attempt_failed-Names h
  handle-Names _ e h = unfold named_key in λ key named. absurd (cc named)

  -- If the projection of a node event succeeds, the node that its payload names has a row in the
  -- event's run afterwards, also where it had none, and the row's status is the one that the
  -- state machine gives for the event's type at the status of before, pending where there was
  -- no row.
  pub apply_projections-status :
      (key : String)
      → named_key ev.type c ev.payload ≡ some key
      → apply_projections c db ev ≡ ok d
      → After ev.type c db ev.run_id key d
  unfolding apply_projections
  apply_projections-status key named h = handle-Names ev.type refl h key named
