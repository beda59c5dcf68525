-- ===== src/Controller/Cancel/Appended.antt =====
-- What one event of a cancellation does: the nodes that have stopped stay so, and the one that it
-- names stops.
use proceed.Base.{
  ℕ, ◌+◌, String, Bool, true, false, not, ◌||◌, List, [], ◌∷◌, Option, some, ◌≡◌, inl, inr, sym,
  subst, ok, from_option, ltb, find_where, Evolves, Bool-cases, Ensures, Ensures-at, Ensures-bind,
  Ensures-require, Ensures-then, Ensures-intro, holds, arith,
}
use proceed.Store.Types.{Db, Event, EventType, RunNode, NodeStatus}
use proceed.Store.Payload.{Codec, NodeTerminalPayload}
use proceed.Store.Nodes.{is_node_of, is_closed}
use proceed.Store.Log.{
  append_event_tx, insert_event, is_duplicate, max_sequence, append_tx, validate, with_id,
}
use proceed.Store.StatusMachine.{next_status, Follows}
use proceed.Store.Replay.Machine.{apply_projections-Moves}
use proceed.Store.Named.{node_at, status_before}
use proceed.Store.Named.Events.{named_key, apply_projections-status}
use proceed.Controller.Completion.{controller_event}
use proceed.Controller.Cancel.{Stamp, append_event, is_requested}

-- the node has ended, or is told to
abbrev pub is_stopped : NodeStatus → Bool
is_stopped s = is_closed s || is_requested s

abbrev pub IsStopped : String → String → Db → Type 0
IsStopped run_id key d =
    (n : RunNode) × (node_at d run_id key ≡ some n) × (is_stopped n.status ≡ true)

-- the types of event that a cancellation appends
abbrev is_cancelling_type : EventType → Bool
is_cancelling_type EventType.node_cancelled = true
is_cancelling_type EventType.node_cancel_requested = true
is_cancelling_type EventType.external_wait_cancelled = true
is_cancelling_type EventType.run_cancelled = true
is_cancelling_type _ = false

stays_stopped :
    (t : EventType) (s : NodeStatus)
    → is_cancelling_type t ≡ true
    → is_stopped s ≡ true
    → is_stopped (next_status t s) ≡ true
unfolding next_status
stays_stopped t s cancels stopped = ground arith

find_where-Evolves :
    (t : EventType) (run_id key : String) (xs ys : List RunNode) {x : RunNode}
    → Evolves (Follows t) xs ys
    → find_where (is_node_of run_id key) xs ≡ some x
    → (y : RunNode) × (find_where (is_node_of run_id key) ys ≡ some y) × Follows t x y
unfolding find_where
find_where-Evolves t run_id key [] ys e h = absurd (ground arith)
find_where-Evolves t run_id key (x ∷ xs) [] e h = absurd e
find_where-Evolves t run_id key (x ∷ xs) (y ∷ ys) {x = z} e h =
    elim (Bool-cases (is_node_of run_id key x)) [
      | inl hit ↦
          let same : x ≡ z = ground arith in
          (y, ground (arith, e.0.run_id, e.0.node_key), subst (λ w. Follows t w y) same e.0)
      | inr miss ↦
          let (w, found, follows) =
            find_where-Evolves t run_id key xs ys {x = z} e.1 (ground arith) in
          (w, ground (arith, e.0.run_id, e.0.node_key, found), follows)
    ]

-- what an appended event of such a type does
record Cancels (run_id : String) (named : Option String) (db d : Db) : Type 0 where
  pub keeps : (key : String) → IsStopped run_id key db → IsStopped run_id key d
  pub stops : (key : String) → named ≡ some key → IsStopped run_id key d

insert_event-nodes :
    (db : Db) (ev : Event) (m : Db) → insert_event db ev ≡ ok m → m.nodes ≡ db.nodes
unfolding insert_event
insert_event-nodes db ev m h = ground arith

-- an event that names a node is for its status
named-stops :
    (c : Codec) (t : EventType) (s : NodeStatus) (text key : String)
    → is_cancelling_type t ≡ true
    → named_key t c text ≡ some key
    → is_stopped (next_status t s) ≡ true
unfolding next_status named_key
named-stops c t s text key cancels named = ground arith

append_event_tx-Cancels :
    (c : Codec) (db : Db) (ev : Event)
    → is_cancelling_type ev.type ≡ true
    → Ensures (Cancels ev.run_id (named_key ev.type c ev.payload) db) (append_event_tx c db ev)
unfolding append_event_tx node_at
append_event_tx-Cancels c db ev cancels = Ensures-require (not (is_duplicate db ev)) _ _ λ new_key.
    Ensures-require (ltb (max_sequence db ev.run_id) ev.sequence) _ _ λ later.
      Ensures-bind (insert_event db ev) _ λ m inserted. Ensures-intro _ λ d applied.
        let same = insert_event-nodes db ev m inserted in
        let moved = apply_projections-Moves c m ev applied in
        record {
          keeps = λ key (n, found, stopped).
              let (y, there, f) =
                find_where-Evolves ev.type ev.run_id key m.nodes d.nodes moved.nodes (
                  subst (λ l. find_where (is_node_of ev.run_id key) l ≡ some n) (sym same) found) in
              (y, there, ground (arith, f.status, stays_stopped ev.type n.status cancels stopped));
          stops = λ key named.
              let a = apply_projections-status c m ev key named applied in
              (
                a.row,
                a.found,
                ground (
                  arith,
                  a.status,
                  named-stops c ev.type (status_before (node_at m ev.run_id key)) ev.payload key
                      cancels named,
                ),
              );
        }

append_tx-Cancels :
    (c : Codec) (now : ℕ) (fresh : String) (db : Db) (ev : Event)
    → is_cancelling_type ev.type ≡ true
    → Ensures
        (λ (r : Event × Db).
          (text : String) × (c.canonical_json ev.payload ≡ some text)
          × Cancels ev.run_id (named_key ev.type c text) db r.1)
        (append_tx c now fresh db ev)
unfolding append_tx
append_tx-Cancels c now fresh db ev cancels =
    let numbered : Event = record (with_id fresh ev) { sequence = max_sequence db ev.run_id + 1 } in
    Ensures-then (validate c now numbered) _ (
      Ensures-bind (from_option _ (c.canonical_json ev.payload)) _ λ text read.
        Ensures-bind (append_event_tx c db _) _ λ d appended.
          holds (text, ground arith, Ensures-at (append_event_tx-Cancels c db _ cancels) appended))

-- encoding/json prints the payload of a node's event and reads it back
abbrev pub IsPrinted : Codec → Type 0
IsPrinted c =
    (key : String)
    → (text : String) × (p : NodeTerminalPayload) × (c.canonical_json (c.marshal_node key)
        ≡ some text)
      × (c.node_terminal text ≡ some p)
      × (p.node_key ≡ key)

abbrev pub Keeps : String → Db → Db → Type 0
Keeps run_id db d = (key : String) → IsStopped run_id key db → IsStopped run_id key d

pub append_event-Keeps :
    (c : Codec) (now : ℕ) (stamp : Stamp) (owner run_id : String) (db : Db) (t : EventType)
    (payload : String)
    → is_cancelling_type t ≡ true
    → Ensures (Keeps run_id db) (append_event c now stamp owner run_id db t payload)
unfolding append_event
append_event-Keeps c now stamp owner run_id db t payload cancels =
    let ev : Event = record (controller_event stamp.id stamp.key owner now t run_id) {
      payload = payload;
    } in
    Ensures-bind (append_tx c now stamp.id db ev) _ λ r appended.
      let (text, printed, cut) =
        Ensures-at (append_tx-Cancels c now stamp.id db ev cancels) appended in
      holds cut.keeps

-- an event for a node
abbrev pub is_node_type : EventType → Bool
is_node_type EventType.node_cancelled = true
is_node_type EventType.node_cancel_requested = true
is_node_type _ = false

named_node :
    (c : Codec) (t : EventType) (text key : String) (p : NodeTerminalPayload)
    → is_node_type t ≡ true
    → c.node_terminal text ≡ some p
    → p.node_key ≡ key
    → named_key t c text ≡ some key
unfolding named_key
named_node c t text key p node read same = ground arith

pub append_event-Stops :
    (c : Codec) (now : ℕ) (stamp : Stamp) (owner run_id : String) (db : Db) (t : EventType)
    (key : String)
    → IsPrinted c
    → is_node_type t ≡ true
    → Ensures
        (IsStopped run_id key)
        (append_event c now stamp owner run_id db t (c.marshal_node key))
unfolding append_event
append_event-Stops c now stamp owner run_id db t key prints node =
    let ev : Event = record (controller_event stamp.id stamp.key owner now t run_id) {
      payload = c.marshal_node key;
    } in
    Ensures-bind (append_tx c now stamp.id db ev) _ λ r appended.
      let (text, printed, cut) =
        Ensures-at (append_tx-Cancels c now stamp.id db ev (ground arith)) appended in
      let (text', p, canonical, read, same) = prints key in
      let texts : text ≡ text' = ground (arith, printed, canonical) in
      holds (cut.stops key (named_node c t text key p node (ground (arith, read, texts)) same))

pub node-cancels : (t : EventType) → is_node_type t ≡ true → is_cancelling_type t ≡ true
node-cancels t node = ground arith
