-- ===== src/Store/Log/Order.antt =====
-- The order of the log: appended events come last, number their run's events upwards without
-- gaps, and no idempotency key is recorded twice (internal/store/event.go).
use proceed.Base.{
  ℕ, ◌+◌, ◌≤◌, ◌<◌, String, true, false, not, List, [], ◌∷◌, ◌++◌, ◌≡◌, ◌≢◌, sym, subst, ◌∙◌,
  Bool-cases, inl, inr, ltb, All-const, ok, err, store_conflict, str_eq, str_eq_iff, is_empty, All,
  All-map, All-zip, All-any_where, All-max_where, Chain, Chain-append_one, any_where-append_one,
  max_where-append_one, count_where-append_one, any_where, count_where, Ensures-at, Ensures-require,
  Ensures-intro, Ensures-bind, arith,
}
use proceed.Store.Types.{Event, Db}
use proceed.Store.Payload.{Codec}
use proceed.Store.Replay.Machine.{apply_projections-Moves}
use proceed.Store.Log.{
  max_sequence, has_key, is_duplicate, insert_event, append_event_tx, append_tx,
}

-- what two events of the log have to do with one another, the first being the earlier
pub record Precedes (x y : Event) : Type 0 where
  pub event_id : y.event_id ≢ x.event_id
  pub sequence : x.run_id ≡ y.run_id → x.sequence < y.sequence
  pub key : y.idempotency_key ≢ "" → y.idempotency_key ≢ x.idempotency_key

abbrev pub IsLog : List Event → Type 0
IsLog = Chain Precedes

-- what a successful insertion tells of the log
record Fresh (db : Db) (ev : Event) (d : Db) : Type 0 where
  pub events : d.events ≡ db.events ++ (ev ∷ [])
  pub new_id : any_where (λ e. str_eq e.event_id ev.event_id) db.events ≡ false

insert_event-Fresh : (db : Db) (ev : Event) (d : Db) → insert_event db ev ≡ ok d → Fresh db ev d
unfolding insert_event
insert_event-Fresh db ev d h = ground arith

pub record Appended (db : Db) (ev : Event) (d : Db) : Type 0 where
  pub events : d.events ≡ db.events ++ (ev ∷ [])
  pub new_id : any_where (λ e. str_eq e.event_id ev.event_id) db.events ≡ false
  pub new_key : is_duplicate db ev ≡ false
  pub later : max_sequence db ev.run_id < ev.sequence

pub append_event_tx-Appended :
    (c : Codec) (db : Db) (ev : Event) (d : Db) → append_event_tx c db ev ≡ ok d → Appended db ev d
unfolding append_event_tx
append_event_tx-Appended c db ev d h =
    Ensures-at {P = Appended db ev}
      (Ensures-require (not (is_duplicate db ev)) _ _ λ new_key.
        Ensures-require (ltb (max_sequence db ev.run_id) ev.sequence) _ _ λ later.
          Ensures-bind (insert_event db ev) _ λ m inserted. Ensures-intro _ λ e applied.
            let fresh = insert_event-Fresh db ev m inserted in
            let kept = (apply_projections-Moves c m ev applied).fixed.events in
            record {
              events = kept ∙ fresh.events;
              new_id = fresh.new_id;
              new_key = ground arith;
              later = ground arith;
            })
      h

pub append_event_tx-events :
    (c : Codec) (db : Db) (ev : Event) (d : Db)
    → append_event_tx c db ev ≡ ok d
    → d.events ≡ db.events ++ (ev ∷ [])
append_event_tx-events c db ev d h = (append_event_tx-Appended c db ev d h).events

-- Precedes at one earlier event, from the three tests
precedes :
    (x y : Event)
    → str_eq x.event_id y.event_id ≡ false
    → (str_eq x.run_id y.run_id ≡ true → x.sequence < y.sequence)
    → (is_empty y.idempotency_key ≡ false → has_key y.idempotency_key x ≡ false)
    → Precedes x y
precedes x y i s k = record {
  event_id = λ e. ground (arith, str_eq_iff x.event_id y.event_id);
  sequence = λ e. s ((str_eq_iff x.run_id y.run_id).1 e);
  key = λ filled e. ground (
    arith,
    str_eq_iff x.idempotency_key y.idempotency_key,
    str_eq_iff y.idempotency_key "",
    str_eq_iff x.idempotency_key "",
  );
}

keys_differ :
    (db : Db) (ev : Event)
    → is_duplicate db ev ≡ false
    → All
        (λ x. is_empty ev.idempotency_key ≡ false → has_key ev.idempotency_key x ≡ false)
        db.events
unfolding is_duplicate
keys_differ db ev h = elim (Bool-cases (is_empty ev.idempotency_key)) [
  | inl e ↦ All-const _ (λ x f. cc) db.events
  | inr f ↦
      All-map (λ x. has_key ev.idempotency_key x ≡ false) _ (λ x p _. p) db.events
        (All-any_where (has_key ev.idempotency_key) db.events (ground arith))
]

sequences_below :
    (db : Db) (ev : Event)
    → max_sequence db ev.run_id < ev.sequence
    → All (λ x. str_eq x.run_id ev.run_id ≡ true → x.sequence < ev.sequence) db.events
unfolding max_sequence
sequences_below db ev later =
    All-map (λ x. str_eq x.run_id ev.run_id ≡ true → x.sequence ≤ max_sequence db ev.run_id) _
      (λ x le e. omega (arith, le e)) db.events
      (All-max_where (λ x. str_eq x.run_id ev.run_id) (λ x. x.sequence) db.events)

-- An event that is appended becomes the last of the log, and nothing else of the log changes; if
-- in the log no id and no key stood twice and the sequences of each run rose, so they do after.
pub append_event_tx-IsLog :
    (c : Codec) (db : Db) (ev : Event) (d : Db)
    → IsLog db.events
    → append_event_tx c db ev ≡ ok d
    → (d.events ≡ db.events ++ (ev ∷ [])) × IsLog d.events
append_event_tx-IsLog c db ev d log h =
    let a = append_event_tx-Appended c db ev d h in
    let ids = All-any_where (λ e. str_eq e.event_id ev.event_id) db.events a.new_id in
    let all =
      All-zip (λ x. str_eq x.event_id ev.event_id ≡ false) _ (λ x. Precedes x ev)
        (λ x i (s, k). precedes x ev i s k) db.events ids
        (All-zip _ _
          (λ x.
            (str_eq x.run_id ev.run_id ≡ true → x.sequence < ev.sequence)
            × (is_empty ev.idempotency_key ≡ false → has_key ev.idempotency_key x ≡ false))
          (λ x s k. (s, k)) db.events (sequences_below db ev a.later)
          (keys_differ db ev a.new_key)) in
    (a.events, subst IsLog (sym a.events) (Chain-append_one Precedes db.events ev log all))

-- Once an event with an idempotency key is appended, any event with the same key is refused as
-- STORE_CONFLICT, so that a retry records nothing twice.
pub append_event_tx_retry :
    (c : Codec) (db : Db) (ev : Event) (d : Db) (again : Event)
    → append_event_tx c db ev ≡ ok d
    → ev.idempotency_key ≢ ""
    → again.idempotency_key ≡ ev.idempotency_key
    → append_event_tx c d again ≡ err store_conflict
unfolding append_event_tx is_duplicate
append_event_tx_retry c db ev d again h filled same =
    let a = append_event_tx-Appended c db ev d h in
    ground (
      arith,
      a.events,
      any_where-append_one (has_key again.idempotency_key) db.events ev,
      str_eq_iff ev.idempotency_key "",
      str_eq_iff again.idempotency_key "",
      str_eq_iff ev.idempotency_key again.idempotency_key,
    )

-- the events of a run are numbered 1, 2, … without a gap
abbrev pub IsDense : Db → Type 0
IsDense db =
    (run_id : String) → max_sequence db run_id ≡ count_where (λ e. str_eq e.run_id run_id) db.events

record Numbered (db : Db) (ev stored : Event) (d : Db) : Type 0 where
  pub run_id : stored.run_id ≡ ev.run_id
  pub sequence : stored.sequence ≡ max_sequence db ev.run_id + 1
  pub events : d.events ≡ db.events ++ (stored ∷ [])

append_tx-Numbered :
    (c : Codec) (now : ℕ) (fresh : String) (db : Db) (ev stored : Event) (d : Db)
    → append_tx c now fresh db ev ≡ ok (stored, d)
    → Numbered db ev stored d
unfolding append_tx
append_tx-Numbered c now fresh db ev stored d h = grind (arith, append_event_tx-events)

-- AppendTx gives an event the number that follows the greatest of its run, and so keeps the
-- numbering of every run free of gaps.
pub append_tx-IsDense :
    (c : Codec) (now : ℕ) (fresh : String) (db : Db) (ev stored : Event) (d : Db)
    → IsDense db
    → append_tx c now fresh db ev ≡ ok (stored, d)
    → (stored.sequence ≡ max_sequence db ev.run_id + 1) × IsDense d
unfolding max_sequence
append_tx-IsDense c now fresh db ev stored d dense h =
    let n = append_tx-Numbered c now fresh db ev stored d h in
    (
      n.sequence,
      λ run_id. ground (
        arith,
        n.events,
        n.run_id,
        n.sequence,
        dense run_id,
        dense ev.run_id,
        str_eq_iff ev.run_id run_id,
        max_where-append_one (λ e. str_eq e.run_id run_id) (λ e. e.sequence) db.events stored,
        count_where-append_one (λ e. str_eq e.run_id run_id) db.events stored,
      ),
    )
