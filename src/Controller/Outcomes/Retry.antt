-- ===== src/Controller/Outcomes/Retry.antt =====
-- What a failed attempt leaves: the node may start again, until its attempts are used up
-- (internal/controller/outcomes.go).
use proceed.Base.{
  String, Bool, true, false, ◌&&◌, none, ◌≡◌, ◌∙◌, refl, sym, subst, ap, inl, inr, Result, ok, err,
  if◌then◌else◌, ltb, leb, Bool-cases, Ensures, Ensures-at, Ensures-bind, Ensures-map, Ensures-if,
  holds, arith,
}
use proceed.Store.Types.{EventType, NodeStatus}
use proceed.Store.Nodes.{is_cancelling}
use proceed.Store.StatusMachine.{next_status}
use proceed.Store.Named.{node_at, HasStatus, status_before}
use proceed.Controller.Writer.{Writer, Tx, Progress, transact, and_then, note}
use proceed.Controller.Writer.Applied.{Applied-status, NamesNode, note-Applied}
use proceed.Controller.Outcomes.{
  Execution, fail_node, requeued_node, append_node_transition, status_of, record_attempt_failure,
}

-- no attempt is left
abbrev pub is_exhausted : Execution → Bool
is_exhausted n = ltb 0 n.max_attempts && leb n.max_attempts n.attempt_no

-- the status that a failed attempt leaves
abbrev pub failed_status : Bool → NodeStatus → NodeStatus
failed_status exhausted s =
    if is_cancelling s then s else if exhausted then NodeStatus.failed else NodeStatus.eligible

-- encoding/json prints the payloads and reads them back
pub record PrintsFailure (w : Writer) (n : Execution) (cause : String) : Type 0 where
  pub failure :
      NamesNode w.codec EventType.node_failed
        (w.print.failure n.node_key n.attempt_no cause)
        n.node_key
  pub retry :
      NamesNode w.codec EventType.node_attempt_failed
        (w.print.retry n.node_key n.attempt_no n.backoff_ms cause)
        n.node_key
  pub requeued :
      NamesNode w.codec EventType.node_requeued
        (w.codec.marshal_claim n.node_key n.attempt_no)
        n.node_key

-- transactions that all succeeded
abbrev pub succeeded_with : Tx → Progress
succeeded_with t = record { committed = t; failure = none }

pub transact-done : (t t' : Tx) (r : Result Tx) → transact t r ≡ succeeded_with t' → r ≡ ok t'
transact-done t t' (ok m) h = ap (λ p. ok p.committed) h
transact-done t t' (err e) h = absurd (cc (ap (λ p. p.failure) h))

pub and_then-done :
    (t t' : Tx) (r : Result Tx) (next : Tx → Result Tx)
    → and_then (transact t r) next ≡ succeeded_with t'
    → (m : Tx) × (r ≡ ok m) × (next m ≡ ok t')
and_then-done t t' (ok m) next h = (m, refl, transact-done m t' (next m) h)
and_then-done t t' (err e) next h = absurd (cc h)

module _ (w : Writer) (key : String) where
  abbrev status_at : Tx → NodeStatus
  status_at t = status_before (node_at t.db w.run_id key)

  pub note-status :
      (t : Tx) (type : EventType) (payload : String)
      → NamesNode w.codec type payload key
      → Ensures
          (λ t'. HasStatus w.run_id key (next_status type (status_at t)) t'.db)
          (note w t type payload)
  note-status t type payload names =
      Ensures-map (λ t' a. Applied-status w.codec t.db type w.run_id payload key names a)
        (note-Applied w t type payload)

  HasStatus-before : (s : NodeStatus) (t : Tx) → HasStatus w.run_id key s t.db → status_at t ≡ s
  HasStatus-before s t h = ground (arith, h.found, h.status)

  -- a transition, where the node has a row
  pub transition-status :
      (t : Tx) (type : EventType) (payload : String) (s : NodeStatus)
      → NamesNode w.codec type payload key
      → HasStatus w.run_id key s t.db
      → Ensures
          (λ t'. HasStatus w.run_id key (if is_cancelling s then s else next_status type s) t'.db)
          (append_node_transition w t key type payload)
  unfolding append_node_transition status_of
  transition-status t type payload s names h =
      Ensures-bind (status_of t.db w.run_id key) _ λ s' read.
        let same : s' ≡ s = ground (arith, read, h.found, h.status) in
        Ensures-if (is_cancelling s')
          (λ stopped.
            let stops : is_cancelling s ≡ true = ground (arith, same, stopped) in
            holds (rw stops h))
          λ free.
            let goes : is_cancelling s ≡ false = ground (arith, same, free) in
            rw goes (
              Ensures-map
                (λ t' a.
                  subst (λ x. HasStatus w.run_id key (next_status type x) t'.db)
                    (HasStatus-before s t h) a)
                (note-status t type payload names))

  -- both events of a failed attempt that is retried
  retried :
      (s : NodeStatus)
      → (if is_cancelling (next_status EventType.node_attempt_failed s)
          then next_status EventType.node_attempt_failed s
          else next_status EventType.node_requeued (next_status EventType.node_attempt_failed s))
        ≡ failed_status false s
  unfolding next_status
  retried s = ground arith

  failed : (s : NodeStatus) → next_status EventType.node_failed s ≡ failed_status true s
  unfolding next_status
  failed s = ground arith

-- If recordAttemptFailure ends without an error, encoding/json printing what it reads back, the node
-- has a row whose status is the one it had, if its cancelling was requested or done, and otherwise
-- failed, if the policy bounds the attempts and this one was the last, and eligible, so that it may
-- start again, if not.
pub record_attempt_failure-HasStatus :
    (w : Writer) (t : Tx) (n : Execution) (cause : String) (t' : Tx)
    → PrintsFailure w n cause
    → record_attempt_failure w t n cause ≡ record { committed = t'; failure = none }
    → HasStatus w.run_id n.node_key
        (failed_status (is_exhausted n) (status_before (node_at t.db w.run_id n.node_key)))
        t'.db
unfolding record_attempt_failure fail_node requeued_node
record_attempt_failure-HasStatus w t n cause t' prints h =
    let key = n.node_key in
    let s = status_before (node_at t.db w.run_id key) in
    elim (Bool-cases (is_exhausted n)) [
      | inl used ↦
          let done =
            transact-done t t'
              (note w t EventType.node_failed (w.print.failure key n.attempt_no cause))
              (rw used at h) in
          subst (λ x. HasStatus w.run_id key x t'.db)
            (failed w key s ∙ ap (λ b. failed_status b s) (sym used))
            (Ensures-at (note-status w key t EventType.node_failed _ prints.failure) done)
      | inr left ↦
          let (m, first, second) =
            and_then-done t t'
              (note w t EventType.node_attempt_failed
                (w.print.retry key n.attempt_no n.backoff_ms cause))
              (λ m. requeued_node w m key n.attempt_no) (rw left at h) in
          subst (λ x. HasStatus w.run_id key x t'.db)
            (retried w key s ∙ ap (λ b. failed_status b s) (sym left))
            (Ensures-at
              (transition-status w key m EventType.node_requeued _ _ prints.requeued (
                Ensures-at (note-status w key t EventType.node_attempt_failed _ prints.retry)
                  first))
              second)
    ]
