-- ===== src/Controller/Writer/Applied.antt =====
-- What an appended event of the controller leaves: the log with the event at its end, and the
-- projection of the event on the tables.
use proceed.Base.{
  ℕ, ◌+◌, String, false, not, [], ◌∷◌, ◌++◌, some, ◌≡◌, refl, subst, sym, ok, from_option, ltb,
  any_where, str_eq, Ensures, Ensures-at, Ensures-bind, Ensures-require, Ensures-then,
  Ensures-intro, holds, arith,
}
use proceed.Store.Types.{Db, Event, EventType}
use proceed.Store.Payload.{Codec}
use proceed.Store.StatusMachine.{next_status}
use proceed.Store.Named.{node_at, status_before, HasStatus}
use proceed.Store.Named.Events.{named_key, apply_projections-status}
use proceed.Store.Projection.{handle, apply_projections}
use proceed.Store.Log.{
  append_event_tx, insert_event, is_duplicate, max_sequence, append_tx, validate, with_id,
}
use proceed.Controller.Writer.{Writer, Tx, append_within, note, note_at, event_of}

-- the tables with one more event in the log
abbrev pub logged : Db → Event → Db
logged db ev = record db { events = db.events ++ (ev ∷ []) }

pub record Applied (c : Codec) (db : Db) (type : EventType) (run_id payload : String) (d : Db)
    : Type 0 where
  pub stored : Event
  pub same_type : stored.type ≡ type
  pub same_run : stored.run_id ≡ run_id
  pub printed : c.canonical_json payload ≡ some stored.payload
  pub new_id : any_where (λ e. str_eq e.event_id stored.event_id) db.events ≡ false
  pub projected : handle type c (logged db stored) stored ≡ ok d

insert_event-logged :
    (db : Db) (ev : Event) (m : Db)
    → insert_event db ev ≡ ok m
    → (m ≡ logged db ev) × (any_where (λ e. str_eq e.event_id ev.event_id) db.events ≡ false)
unfolding insert_event
insert_event-logged db ev m h = ground arith

append_event_tx-projected :
    (c : Codec) (db : Db) (ev : Event)
    → Ensures
        (λ d.
          (any_where (λ e. str_eq e.event_id ev.event_id) db.events ≡ false)
          × (handle ev.type c (logged db ev) ev ≡ ok d))
        (append_event_tx c db ev)
unfolding append_event_tx apply_projections
append_event_tx-projected c db ev = Ensures-require (not (is_duplicate db ev)) _ _ λ new_key.
    Ensures-require (ltb (max_sequence db ev.run_id) ev.sequence) _ _ λ later.
      Ensures-bind (insert_event db ev) _ λ m inserted. Ensures-intro _ λ d applied.
        let (same, fresh) = insert_event-logged db ev m inserted in
        (fresh, subst (λ l. handle ev.type c l ev ≡ ok d) same applied)

append_tx-Applied :
    (c : Codec) (now : ℕ) (fresh : String) (db : Db) (ev : Event)
    → Ensures
        (λ (r : Event × Db). Applied c db ev.type ev.run_id ev.payload r.1)
        (append_tx c now fresh db ev)
unfolding append_tx
append_tx-Applied c now fresh db ev =
    let numbered : Event = record (with_id fresh ev) { sequence = max_sequence db ev.run_id + 1 } in
    Ensures-then (validate c now numbered) _ (
      Ensures-bind (from_option _ (c.canonical_json ev.payload)) _ λ text read.
        Ensures-bind (append_event_tx c db _) _ λ d appended.
          let (unused, projected) = Ensures-at (append_event_tx-projected c db _) appended in
          holds (record {
            stored = _;
            same_type = refl;
            same_run = refl;
            printed = ground arith;
            new_id = unused;
            projected = projected;
          }))

-- what an event of a type with a payload does in a transaction of the writer
abbrev pub Does : Writer → Tx → EventType → String → Tx → Type 0
Does w t type payload t' = Applied w.codec t.db type w.run_id payload t'.db

pub append_within-Applied :
    (w : Writer) (t : Tx) (ev : Event)
    → Ensures (λ t'. Applied w.codec t.db ev.type ev.run_id ev.payload t'.db) (append_within w t ev)
unfolding append_within
append_within-Applied w t ev =
    Ensures-bind (append_tx w.codec w.now _ t.db ev) _
      λ r appended. holds (Ensures-at (append_tx-Applied w.codec w.now _ t.db ev) appended)

pub note-Applied :
    (w : Writer) (t : Tx) (type : EventType) (payload : String)
    → Ensures (Does w t type payload) (note w t type payload)
unfolding note
note-Applied w t type payload = append_within-Applied w t (event_of w t type payload)

pub note_at-Applied :
    (w : Writer) (t : Tx) (type : EventType) (op_key payload : String)
    → Ensures (Does w t type payload) (note_at w t type op_key payload)
unfolding note_at
note_at-Applied w t type op_key payload =
    append_within-Applied w t
      (record (event_of w t type payload) { recorded_at = w.at; correlation_id = op_key })

-- the payload is printed and read back as one that names the node
abbrev pub NamesNode : Codec → EventType → String → String → Type 0
NamesNode c type payload key =
    (text : String) × (c.canonical_json payload ≡ some text) × (named_key type c text ≡ some key)

-- an appended event for a node moves the node's status as the state machine says
pub Applied-status :
    (c : Codec) (db : Db) (type : EventType) (run_id payload key : String) {d : Db}
    → NamesNode c type payload key
    → Applied c db type run_id payload d
    → HasStatus run_id key (next_status type (status_before (node_at db run_id key))) d
unfolding apply_projections node_at
Applied-status c db type run_id payload key {d} (text, printed, named) a =
    let texts : text ≡ a.stored.payload = ground (arith, printed, a.printed) in
    let after =
      apply_projections-status c (logged db a.stored) a.stored key
        (subst (λ ty. named_key ty c a.stored.payload ≡ some key) (sym a.same_type)
          (subst (λ s. named_key type c s ≡ some key) texts named))
        (subst (λ ty. handle ty c (logged db a.stored) a.stored ≡ ok d) (sym a.same_type)
          a.projected) in
    subst (λ r. HasStatus r key (next_status type (status_before (node_at db r key))) d) a.same_run
      (subst
        (λ ty.
          HasStatus a.stored.run_id key
            (next_status ty (status_before (node_at db a.stored.run_id key))) d)
        a.same_type after)
