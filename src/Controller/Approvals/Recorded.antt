-- ===== src/Controller/Approvals/Recorded.antt =====
-- What a decision leaves in the log: an event under the request's key, with the decision and who
-- made it (internal/controller/approval.go).
use proceed.Base.{
  ℕ, ◌+◌, String, Bool, true, false, none, some, List, [], ◌∷◌, ◌++◌, ◌≡◌, ◌∙◌, refl, sym, subst,
  ap, inl, inr, from_option, str_eq_iff, str_eq_refl, is_empty, one_of, if◌then◌else◌, find_where,
  Bool-cases, Extends, Extends-refl, Extends-trans, Ensures, Ensures-at, Ensures-bind, Ensures-then,
  Ensures-map, Ensures-if, holds, arith,
}
use proceed.Store.Types.{Db, Event, EventType, Approval, GraphEdge}
use proceed.Store.Payload.{Codec, ApprovalDecidedPayload}
use proceed.Store.Log.{append_tx, append_event_tx, has_key, validate, with_id, max_sequence}
use proceed.Store.Log.Order.{append_event_tx-events}
use proceed.Store.Named.{find_where-append_one}
use proceed.Controller.Routing.Routed.{find_where-Extends}
use proceed.Controller.Writer.{Writer, Tx, append_within, note, next_id}
use proceed.Controller.Routing.{traverse_one, traverse_edges, is_release, is_chosen}
use proceed.Controller.Routing.Respects.{Respects, route_from-Stays, then-Stays}
use proceed.Controller.Approvals.{
  Desk, ApprovalDecisionRequest, event_with_key, original_decision, apply_decision, end_decided,
  end_node_of, decision_event, is_denial,
}

-- events are added to the log
abbrev pub Grows : Db → Db → Type 0
Grows db d = Extends db.events d.events

-- the event that an append records
record Recorded (c : Codec) (db : Db) (ev : Event) (d : Db) : Type 0 where
  pub stored : Event
  pub events : d.events ≡ db.events ++ (stored ∷ [])
  pub key : stored.idempotency_key ≡ ev.idempotency_key
  pub type : stored.type ≡ ev.type
  pub printed : c.canonical_json ev.payload ≡ some stored.payload

append_within-Recorded :
    (w : Writer) (t : Tx) (ev : Event)
    → Ensures (λ t'. Recorded w.codec t.db ev t'.db) (append_within w t ev)
unfolding append_within append_tx
append_within-Recorded w t ev =
    let numbered : Event = record (with_id (next_id w t) ev) {
      sequence = max_sequence t.db ev.run_id + 1;
    } in
    Ensures-bind (append_tx w.codec w.now (next_id w t) t.db ev) _ λ r appended. holds (
      Ensures-at {P = λ (q : Event × Db). Recorded w.codec t.db ev q.1} {a = r}
        (Ensures-then (validate w.codec w.now numbered) _ (
          Ensures-bind (from_option _ (w.codec.canonical_json ev.payload)) _ λ text read.
            Ensures-bind (append_event_tx w.codec t.db _) _ λ d done. holds (record {
              stored = _;
              events = append_event_tx-events w.codec t.db _ d done;
              key = refl;
              type = refl;
              printed = ground arith;
            })))
        appended)

append_within-Grows :
    (w : Writer) (t : Tx) (ev : Event) → Ensures (λ t'. Grows t.db t'.db) (append_within w t ev)
append_within-Grows w t ev =
    Ensures-map (λ t' a. record { added = a.stored ∷ []; eq = a.events })
      (append_within-Recorded w t ev)

note-Grows :
    (w : Writer) (t : Tx) (type : EventType) (payload : String)
    → Ensures (λ t'. Grows t.db t'.db) (note w t type payload)
unfolding note
note-Grows w t type payload = append_within-Grows w t _

Respects-Grows : (w : Writer) → Respects w Grows
Respects-Grows w = record {
  same = λ db. Extends-refl db.events;
  join = Extends-trans;
  skip = λ t key missing. note-Grows w t EventType.node_skipped _;
  decide = λ t payload. note-Grows w t EventType.decision_recorded payload;
}

traverse_edges-Grows :
    (w : Writer) (t : Tx) (known : Bool) (route : String) (es : List GraphEdge)
    → Ensures (λ t'. Grows t.db t'.db) (traverse_edges w t known route es)
unfolding traverse_edges traverse_one
traverse_edges-Grows w t known route [] = holds (Extends-refl t.db.events)
traverse_edges-Grows w t known route (e ∷ es) =
    then-Stays w Grows (Respects-Grows w) t _ _
      (Ensures-if (is_release e) (λ _. note-Grows w t EventType.edge_traversed _)
        λ _.
          Ensures-if (is_chosen known route e) (λ _. note-Grows w t EventType.edge_traversed _)
            λ _. holds (Extends-refl t.db.events))
      λ t'. traverse_edges-Grows w t' known route es

end_decided-Grows :
    (desk : Desk) (t : Tx) (a : Approval) (key : String) (nr : ℕ) (cause digest route : String)
    (req : ApprovalDecisionRequest)
    → Ensures (λ t'. Grows t.db t'.db) (end_decided desk t a key nr cause digest route req)
unfolding end_decided end_node_of
end_decided-Grows desk t a key nr cause digest route req =
    let w = desk.writer in
    Ensures-if (is_empty route) (λ _. append_within-Grows w t _)
      λ _. then-Stays w Grows (Respects-Grows w) t _ _ (append_within-Grows w t _) λ t'.
        route_from-Stays w Grows (Respects-Grows w) (traverse_edges-Grows w) t' a.graph_version_id
          digest key true route

-- the payload of the decision is printed and read back, whatever the node's key
abbrev pub PrintsDecision : Desk → ApprovalDecisionRequest → Type 0
PrintsDecision desk req =
    (key : String)
    → (text : String) × (p : ApprovalDecidedPayload) × (desk.writer.codec.canonical_json
          (desk.papers.decided req.approval_id key req.actor req.idempotency_key req.reason)
        ≡ some text)
      × (desk.writer.codec.approval_decided text ≡ some p)
      × (p.approval_id ≡ req.approval_id)
      × (p.decided_by ≡ req.actor)

-- the log has the decision under its key
pub record IsRecorded (c : Codec) (req : ApprovalDecisionRequest) (d : Db) : Type 0 where
  pub event : Event
  pub payload : ApprovalDecidedPayload
  pub found : event_with_key d req.idempotency_key ≡ some event
  pub decision : original_decision event.type ≡ some req.decision
  pub read : c.approval_decided event.payload ≡ some payload
  pub approval_id : payload.approval_id ≡ req.approval_id
  pub actor : payload.decided_by ≡ req.actor

-- an event that is last under a new key is found under it
newly_found :
    (c : Codec) (db : Db) (ev : Event) (d : Db) (key : String)
    → is_empty key ≡ false
    → ev.idempotency_key ≡ key
    → event_with_key db key ≡ none
    → (r : Recorded c db ev d) → event_with_key d key ≡ some r.stored
unfolding event_with_key
newly_found c db ev d key filled same fresh r =
    ap (find_where (has_key key)) r.events
    ∙ find_where-append_one (has_key key) db.events r.stored fresh
        (ground (arith, r.key, same, filled, str_eq_refl key))

-- an event that is found stays found when the log grows
pub event_with_key-Grows :
    (db d : Db) (key : String) {e : Event}
    → Grows db d
    → event_with_key db key ≡ some e
    → event_with_key d key ≡ some e
unfolding event_with_key
event_with_key-Grows db d key g h =
    ap (find_where (has_key key)) g.eq ∙ find_where-Extends (has_key key) db.events g.added h

decision_type :
    (req : ApprovalDecisionRequest)
    → one_of req.decision ("grant" ∷ "deny" ∷ []) ≡ true
    → original_decision
        (if is_denial req then EventType.approval_denied else EventType.approval_granted)
      ≡ some req.decision
decision_type req legal = elim (Bool-cases (is_denial req)) [
  | inl denied ↦ rw denied (ap some (sym ((str_eq_iff req.decision "deny").0 denied)))
  | inr granted ↦
      rw granted
        (ap some (sym ((str_eq_iff req.decision "grant").0 (ground (arith, granted, legal)))))
]

pub apply_decision-IsRecorded :
    (desk : Desk) (t : Tx) (a : Approval) (key : String) (nr : ℕ) (digest : String)
    (req : ApprovalDecisionRequest)
    → PrintsDecision desk req
    → one_of req.decision ("grant" ∷ "deny" ∷ []) ≡ true
    → is_empty req.idempotency_key ≡ false
    → event_with_key t.db req.idempotency_key ≡ none
    → Ensures
        (λ t'. IsRecorded desk.writer.codec req t'.db)
        (apply_decision desk t a key nr digest req)
unfolding apply_decision
apply_decision-IsRecorded desk t a key nr digest req prints legal filled fresh =
    Ensures-bind (append_within desk.writer t (decision_event desk t req key)) _ λ t1 first.
      let r =
        Ensures-at (append_within-Recorded desk.writer t (decision_event desk t req key)) first in
      let (text, p, printed, read, same_id, same_actor) = prints key in
      let texts : text ≡ r.stored.payload = ground (arith, printed, r.printed) in
      Ensures-map
        (λ t' g. record {
          event = r.stored;
          payload = p;
          found =
              event_with_key-Grows t1.db t'.db req.idempotency_key g (
                newly_found desk.writer.codec t.db _ t1.db req.idempotency_key filled refl fresh r);
          decision = ap original_decision r.type ∙ decision_type req legal;
          read = subst (λ s. desk.writer.codec.approval_decided s ≡ some p) texts read;
          approval_id = same_id;
          actor = same_actor;
        })
        (end_decided-Grows desk t1 a key nr _ digest _ req)
