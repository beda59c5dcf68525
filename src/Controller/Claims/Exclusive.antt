-- ===== src/Controller/Claims/Exclusive.antt =====
-- A node is claimed once, and not if it is cancelled.
use proceed.Base.{
  ℕ, ◌+◌, String, Bool, true, false, not, some, ◌≡◌, refl, sym, subst, ok, ◌>>=◌, ltb, from_option,
  Ensures, Ensures-at, Ensures-bind, Ensures-require, Ensures-then, Ensures-intro, holds, arith,
}
use proceed.Store.Types.{Db, Event, EventType, RunNode, NodeStatus}
use proceed.Store.Payload.{Codec, NodeStartedPayload}
use proceed.Store.Log.{
  append_event_tx, insert_event, is_duplicate, max_sequence, append_tx, validate, with_id,
}
use proceed.Store.StatusMachine.{next_status}
use proceed.Store.Named.{node_at}
use proceed.Store.Named.Events.{named_key, apply_projections-status}
use proceed.Controller.Claims.{
  claimed_row, is_claimable, claim, claim_event, claim_non_executable, attempt_event,
  begin_claimed_attempt,
}

-- the node is running
abbrev pub IsRunning : String → String → Db → Type 0
IsRunning run_id key d =
    (n : RunNode) × (claimed_row d run_id key ≡ some n) × (n.status ≡ NodeStatus.running)

append_event_tx-IsRunning :
    (c : Codec) (db : Db) (ev : Event) (key : String)
    → ev.type ≡ EventType.node_started
    → named_key ev.type c ev.payload ≡ some key
    → Ensures (IsRunning ev.run_id key) (append_event_tx c db ev)
unfolding append_event_tx node_at next_status
append_event_tx-IsRunning c db ev key starts named =
    Ensures-require (not (is_duplicate db ev)) _ _ λ new_key.
      Ensures-require (ltb (max_sequence db ev.run_id) ev.sequence) _ _ λ later.
        Ensures-bind (insert_event db ev) _ λ m inserted. Ensures-intro _ λ d applied.
          let a = apply_projections-status c m ev key named applied in
          (a.row, a.found, ground (arith, a.status, starts))

append_tx-IsRunning :
    (c : Codec) (now : ℕ) (fresh : String) (db : Db) (ev : Event) (key text : String)
    → ev.type ≡ EventType.node_started
    → c.canonical_json ev.payload ≡ some text
    → named_key ev.type c text ≡ some key
    → Ensures (λ (r : Event × Db). IsRunning ev.run_id key r.1) (append_tx c now fresh db ev)
unfolding append_tx
append_tx-IsRunning c now fresh db ev key text starts printed named =
    let numbered : Event = record (with_id fresh ev) { sequence = max_sequence db ev.run_id + 1 } in
    Ensures-then (validate c now numbered) _ (
      Ensures-bind (from_option _ (c.canonical_json ev.payload)) _ λ canonical read.
        Ensures-bind (append_event_tx c db _) _ λ d appended.
          let same : canonical ≡ text = ground (arith, printed) in
          holds (
            Ensures-at
              (append_event_tx-IsRunning c db _ key starts
                (subst (λ s. named_key ev.type c s ≡ some key) (sym same) named))
              appended))

-- what a successful claim tells: of the node before, of the node after, and of later claims
pub record Claimed (c : Codec) (db : Db) (run_id node_key : String) (d : Db) : Type 0 where
  pub was_open : is_claimable (claimed_row db run_id node_key) ≡ true
  pub runs : IsRunning run_id node_key d
  pub no_attempt :
      (now : ℕ) (id key owner : String) (p : NodeStartedPayload)
      → p.node_key ≡ node_key
      → begin_claimed_attempt c now id key owner d run_id p ≡ ok (false, d)
  pub no_claim :
      (now : ℕ) (id key owner : String)
      → claim_non_executable c now id key owner d run_id node_key ≡ ok (false, d)

claim-Claimed :
    (c : Codec) (now : ℕ) (id : String) (db : Db) (node_key text : String) (ev : Event) (d : Db)
    → ev.type ≡ EventType.node_started
    → c.canonical_json ev.payload ≡ some text
    → named_key ev.type c text ≡ some node_key
    → claim c now id db node_key ev ≡ ok (true, d)
    → Claimed c db ev.run_id node_key d
unfolding claim begin_claimed_attempt claim_non_executable
claim-Claimed c now id db node_key text ev d starts printed named h =
    let was_open : is_claimable (claimed_row db ev.run_id node_key) ≡ true = ground (arith, h) in
    let runs : Ensures (λ (r : Bool × Db). IsRunning ev.run_id node_key r.1)
        (append_tx c now id db ev >>= λ (stored, db'). ok (true, db')) =
      Ensures-bind (append_tx c now id db ev) _ λ r appended. holds (
        Ensures-at (append_tx-IsRunning c now id db ev node_key text starts printed named)
          appended) in
    let running = Ensures-at {a = (true, d)} runs (ground (arith, h, was_open)) in
    let (n, found, status) = running in
    record {
      was_open = was_open;
      runs = running;
      no_attempt = λ now' id' key' owner' p same. ground (arith, same, found, status);
      no_claim = λ now' id' key' owner'. ground (arith, found, status);
    }

-- If an attempt on a node is claimed, its payload being one that encoding/json prints and reads
-- back, the node had no row, was pending or was eligible, and so was not cancelled or to be
-- cancelled; it is running then; and whoever claims it again, for an attempt or otherwise, is told
-- that it is taken and changes nothing.
pub begin_claimed_attempt-Claimed :
    (c : Codec) (now : ℕ) (id key owner : String) (db : Db) (run_id text : String)
    (p : NodeStartedPayload) (d : Db)
    → c.canonical_json (c.marshal_node_started p) ≡ some text
    → c.node_started text ≡ some p
    → begin_claimed_attempt c now id key owner db run_id p ≡ ok (true, d)
    → Claimed c db run_id p.node_key d
unfolding begin_claimed_attempt named_key
begin_claimed_attempt-Claimed c now id key owner db run_id text p d printed read h =
    claim-Claimed c now id db p.node_key text (attempt_event c now id key owner run_id p) d refl
      printed (ground (arith, read)) h

-- If a node of a type that no executor runs is claimed, its payload being one that encoding/json
-- prints and reads back, the node had no row, was pending or was eligible; it is running then; and
-- whoever claims it again is told that it is taken and changes nothing.
pub claim_non_executable-Claimed :
    (c : Codec) (now : ℕ) (id key owner : String) (db : Db) (run_id node_key text : String)
    (p : NodeStartedPayload) (d : Db)
    → c.canonical_json (c.marshal_claim node_key 1) ≡ some text
    → c.node_started text ≡ some p
    → p.node_key ≡ node_key
    → claim_non_executable c now id key owner db run_id node_key ≡ ok (true, d)
    → Claimed c db run_id node_key d
unfolding claim_non_executable named_key
claim_non_executable-Claimed c now id key owner db run_id node_key text p d printed read same h =
    claim-Claimed c now id db node_key text (claim_event c now id key owner run_id node_key) d refl
      printed (ground (arith, read, same)) h
