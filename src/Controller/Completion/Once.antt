-- ===== src/Controller/Completion/Once.antt =====
-- The verdict on a run and the status that it gives (internal/controller/reconciler.go).
use proceed.Base.{
  ℕ, ◌+◌, String, Bool, true, false, not, ◌&&◌, some, ◌≡◌, inl, inr, refl, sym, subst, ok,
  from_option, if◌then◌else◌, ltb, str_eq, str_eq_refl, any_where-append_one, any_where-Extends,
  find_where, update_where, Option-cases, Extends, Ensures, Ensures-at, Ensures-bind, Ensures-then,
  Ensures-require, Ensures-intro, holds, arith,
}
use proceed.Store.Types.{Event, EventType, Db, GraphRun, RunStatus}
use proceed.Store.Payload.{Codec}
use proceed.Store.Sql.{decode_payload}
use proceed.Store.Runs.{
  find_run, finish_run, insert_anchor, insert_outcome, on_run_terminal, terminal_run_status,
}
use proceed.Store.Projection.{handle, apply_projections}
use proceed.Store.Named.{find_where-update_where, find_where-holds}
use proceed.Store.Log.{
  append_event_tx, insert_event, is_duplicate, max_sequence, append_tx, validate, with_id,
}
use proceed.Store.Log.Order.{append_event_tx-events}
use proceed.Controller.Completion.{
  controller_event, terminal_event, is_terminal_type, already_terminal, append_verdict,
  try_complete_run,
}

-- the run has a row
abbrev pub HasRow : String → Db → Type 0
HasRow run_id d = (r : GraphRun) × (find_where (λ r. str_eq r.id run_id) d.runs ≡ some r)

-- the run has a row, with a status
abbrev pub HasStatus : RunStatus → String → Db → Type 0
HasStatus status run_id d =
    (r : GraphRun) × (find_where (λ r. str_eq r.id run_id) d.runs ≡ some r) × (r.status ≡ status)

find_run-row :
    (db : Db) (run_id : String) (run : GraphRun) → find_run db run_id ≡ ok run → HasRow run_id db
unfolding find_run
find_run-row db run_id run h = elim (Option-cases (find_where (λ r. str_eq r.id run_id) db.runs)) [
  | inl missing ↦ absurd (ground (arith, missing))
  | inr found ↦ found
]

on_run_terminal-HasStatus :
    (c : Codec) (db : Db) (ev : Event)
    → HasRow ev.run_id db
    → Ensures (HasStatus (terminal_run_status ev.type) ev.run_id) (on_run_terminal c db ev)
unfolding on_run_terminal finish_run insert_anchor insert_outcome
on_run_terminal-HasStatus c db ev (r, found) =
    let finish : GraphRun → GraphRun =
      λ x. record x { status = terminal_run_status ev.type; finished_at = some ev.occurred_at } in
    let row : GraphRun = if str_eq r.id ev.run_id then finish r else r in
    let moved =
      find_where-update_where (λ x. str_eq (GraphRun.id x) ev.run_id)
        (λ x. str_eq (GraphRun.id x) ev.run_id) finish (λ x. refl) db.runs found in
    Ensures-bind (decode_payload (c.run_detail ev.payload)) _ λ detail read.
      Ensures-bind (find_run db ev.run_id) _ λ run known.
        Ensures-bind (insert_anchor (finish_run db ev) ev run.graph_version_id) _ λ m anchored.
          Ensures-intro _ λ d recorded.
            let same : d.runs ≡ update_where (λ x. str_eq x.id ev.run_id) finish db.runs =
              ground arith in
            (
              row,
              subst (λ l. find_where (λ x. str_eq x.id ev.run_id) l ≡ some row) (sym same) moved,
              ground
                  (arith, find_where-holds (λ x. str_eq (GraphRun.id x) ev.run_id) db.runs found),
            )

terminal-handle :
    (c : Codec) (db : Db) (ev : Event)
    → is_terminal_type ev.type ≡ true
    → apply_projections c db ev ≡ on_run_terminal c db ev
unfolding apply_projections handle
terminal-handle c db ev ends = ground arith

append_event_tx-HasStatus :
    (c : Codec) (db : Db) (ev : Event)
    → is_terminal_type ev.type ≡ true
    → HasRow ev.run_id db
    → Ensures (HasStatus (terminal_run_status ev.type) ev.run_id) (append_event_tx c db ev)
unfolding append_event_tx insert_event
append_event_tx-HasStatus c db ev ends (r, found) =
    Ensures-require (not (is_duplicate db ev)) _ _ λ new_key.
      Ensures-require (ltb (max_sequence db ev.run_id) ev.sequence) _ _ λ later.
        Ensures-bind (insert_event db ev) _ λ m inserted.
          let same : m.runs ≡ db.runs = ground arith in
          subst (Ensures (HasStatus (terminal_run_status ev.type) ev.run_id))
            (sym (terminal-handle c m ev ends))
            (on_run_terminal-HasStatus c m ev
              (r, subst (λ l. find_where (λ x. str_eq x.id ev.run_id) l ≡ some r) (sym same) found))

-- after the event of a verdict: the run has its status, and the event is recorded
pub record Decided (t : EventType) (run_id : String) (d : Db) : Type 0 where
  pub row : HasStatus (terminal_run_status t) run_id d
  pub ended : already_terminal d run_id ≡ true

append_event_tx-Decided :
    (c : Codec) (db : Db) (ev : Event)
    → is_terminal_type ev.type ≡ true
    → HasRow ev.run_id db
    → Ensures (Decided ev.type ev.run_id) (append_event_tx c db ev)
append_event_tx-Decided c db ev ends row =
    let of_run : Event → Bool = λ x. str_eq x.run_id ev.run_id && is_terminal_type x.type in
    Ensures-intro _ λ d appended. record {
      row = Ensures-at (append_event_tx-HasStatus c db ev ends row) appended;
      ended = ground (
        arith,
        append_event_tx-events c db ev d appended,
        ends,
        str_eq_refl ev.run_id,
        any_where-append_one of_run db.events ev,
      );
    }

append_tx-Decided :
    (c : Codec) (now : ℕ) (fresh : String) (db : Db) (ev stored : Event) (d : Db)
    → is_terminal_type ev.type ≡ true
    → HasRow ev.run_id db
    → append_tx c now fresh db ev ≡ ok (stored, d)
    → Decided ev.type ev.run_id d
unfolding append_tx
append_tx-Decided c now fresh db ev stored d ends row h =
    let numbered : Event = record (with_id fresh ev) { sequence = max_sequence db ev.run_id + 1 } in
    Ensures-at {P = λ (r : Event × Db). Decided ev.type ev.run_id r.1}
      (Ensures-then (validate c now numbered) _ (
        Ensures-bind (from_option _ (c.canonical_json ev.payload)) _ λ canonical read.
          Ensures-bind (append_event_tx c db _) _
            λ e appended. holds (Ensures-at (append_event_tx-Decided c db _ ends row) appended)))
      h

append_verdict-Decided :
    (c : Codec) (now : ℕ) (id key owner : String) (db : Db) (run_id : String) (t : EventType)
    → is_terminal_type t ≡ true
    → HasRow run_id db
    → already_terminal db run_id ≡ false
    → Ensures (Decided t run_id) (append_verdict c now id key owner db run_id (some t))
unfolding append_verdict
append_verdict-Decided c now id key owner db run_id t ends row first = rw first (
    Ensures-bind (append_tx c now id db (controller_event id key owner now t run_id)) _
      λ r appended. holds (
        append_tx-Decided c now id db (controller_event id key owner now t run_id) r.0 r.1 ends row
          appended))

pub terminal_event-ends :
    (db : Db) (run_id version : String) (t : EventType)
    → terminal_event db run_id version ≡ some t
    → is_terminal_type t ≡ true
unfolding terminal_event
terminal_event-ends db run_id version t h = ground arith

-- a call of tryCompleteRun that finds a verdict on a run without one
pub try_complete_run-Decided :
    (c : Codec) (now : ℕ) (id key owner : String) (db d : Db) (run_id version : String)
    (t : EventType)
    → HasStatus RunStatus.running run_id db
    → already_terminal db run_id ≡ false
    → terminal_event db run_id version ≡ some t
    → try_complete_run c now id key owner db run_id version ≡ ok d
    → Decided t run_id d
unfolding try_complete_run find_run
try_complete_run-Decided c now id key owner db d run_id version t (r, found, runs) first verdict h =
    Ensures-at {a = d}
      (append_verdict-Decided c now id key owner db run_id t
        (terminal_event-ends db run_id version t verdict) (r, found) first)
      (ground (arith, found, runs, verdict, h))

-- If tryCompleteRun finds a verdict on a run that is running and has none, and succeeds, then at any
-- later tables, whatever was appended to the log and changed since, at any time, by any controller
-- and under any version, it succeeds and changes nothing as long as the run has a row: the run gets
-- no second verdict.
pub try_complete_run_once :
    (c : Codec) (now now' : ℕ) (id id' key key' owner owner' : String) (db d later : Db)
    (run_id version version' : String) (t : EventType)
    → HasStatus RunStatus.running run_id db
    → already_terminal db run_id ≡ false
    → terminal_event db run_id version ≡ some t
    → try_complete_run c now id key owner db run_id version ≡ ok d
    → Extends d.events later.events
    → HasRow run_id later
    → try_complete_run c now' id' key' owner' later run_id version' ≡ ok later
unfolding try_complete_run append_verdict find_run
try_complete_run_once c now now' id id' key key' owner owner' db d later run_id version version' t
      running first verdict h grown (r, found) =
    let decided =
      try_complete_run-Decided c now id key owner db d run_id version t running first verdict h in
    let ended : already_terminal later run_id ≡ true =
      any_where-Extends (λ e. str_eq (Event.run_id e) run_id && is_terminal_type e.type) d.events
        grown decided.ended in
    elim (Option-cases (terminal_event later run_id version')) [
      | inl none_yet ↦ ground (arith, found, none_yet)
      | inr (u, ends) ↦ ground (arith, found, ends, ended)
    ]
