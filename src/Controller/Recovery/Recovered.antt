-- ===== src/Controller/Recovery/Recovered.antt =====
-- What recoverCancelledNode makes of a node whose cancelling was requested: whatever the executor
-- answers, it is cancelled or still to be (internal/controller/recover.go).
use proceed.Base.{
  ℕ, String, true, Option, none, some, ◌≡◌, ◌∙◌, subst, ap, inl, inr, find_where, Ensures,
  Ensures-map, holds, Bool-cases, arith,
}
use proceed.Store.Types.{EventType, NodeStatus, Effect}
use proceed.Store.Nodes.{is_node_of, is_cancelling}
use proceed.Store.StatusMachine.{next_status}
use proceed.Store.Projection.{handle}
use proceed.Store.Frame.{on_effect_receipt-Keeps}
use proceed.Store.Named.{node_at, HasStatus, status_before}
use proceed.Controller.Writer.{Writer, Tx, transact, note}
use proceed.Controller.Writer.Finishes.{
  Finishes, transact-Finishes, and_then-Finishes, read_then-Finishes,
}
use proceed.Controller.Writer.Applied.{NamesNode, note-Applied, logged}
use proceed.Controller.Outcomes.{waiting_node, cancelled_node, fail_node}
use proceed.Controller.Outcomes.Retry.{note-status, transition-status}
use proceed.Controller.Recovery.{
  Surroundings, Contract, Reconciliation, contract_for, latest_attempt, load_run,
  node_config_for_key, interpolation, node_cancel_requested, note_receipt, cancel_if_filled,
  cancel_under, record_reconciled_effect, wait_unless_cancelled, cancel_by,
  reconcile_cancelled_node, recover_cancelled_node,
}

-- encoding/json prints the payloads and reads them back
pub record PrintsRecovery (s : Surroundings) (w : Writer) (key : String) : Type 0 where
  pub requeued : NamesNode w.codec EventType.node_requeued (w.codec.marshal_claim key 0) key
  pub resumed : (nr : ℕ) → NamesNode w.codec EventType.node_requeued (s.resumed key nr) key
  pub waiting : NamesNode w.codec EventType.node_waiting (w.codec.marshal_node key) key
  pub cancelled :
      (nr : ℕ) → NamesNode w.codec EventType.node_cancelled (w.codec.marshal_claim key nr) key
  pub failure :
      (nr : ℕ) (cause : String)
      → NamesNode w.codec EventType.node_failed (w.print.failure key nr cause) key

-- the node is cancelled, or is to be
abbrev pub IsCancelling : Writer → String → Tx → Type 0
IsCancelling w key t = (x : NodeStatus) × HasStatus w.run_id key x t.db × (is_cancelling x ≡ true)

module _ (s : Surroundings) (w : Writer) (key : String) (prints : PrintsRecovery s w key) where
  status_of_row :
      (t : Tx) (x : NodeStatus)
      → HasStatus w.run_id key x t.db
      → status_before (node_at t.db w.run_id key) ≡ x
  status_of_row t x h = ground (arith, h.found, h.status)

  -- an event for the node, at a status that is known
  pub note-at :
      (t : Tx) (type : EventType) (payload : String) (x : NodeStatus)
      → NamesNode w.codec type payload key
      → HasStatus w.run_id key x t.db
      → Ensures (λ t'. HasStatus w.run_id key (next_status type x) t'.db) (note w t type payload)
  note-at t type payload x names h =
      Ensures-map
        (λ t' a.
          subst (λ y. HasStatus w.run_id key (next_status type y) t'.db) (status_of_row t x h) a)
        (note-status w key t type payload names)

  waits : (t : Tx) → IsCancelling w key t → Ensures (IsCancelling w key) (waiting_node w t key)
  unfolding waiting_node
  waits t (x, h, cancels) =
      Ensures-map
        (λ t' a.
          (x, subst (λ y. HasStatus w.run_id key y t'.db) (ground (arith, cancels)) a, cancels))
        (transition-status w key t EventType.node_waiting _ x prints.waiting h)

  still_cancelling :
      (x : NodeStatus)
      → is_cancelling x ≡ true
      → (is_cancelling (next_status EventType.node_cancelled x) ≡ true)
        × (is_cancelling (next_status EventType.node_failed x) ≡ true)
  unfolding next_status
  still_cancelling x h = (ground (arith, h), ground (arith, h))

  cancels_node :
      (t : Tx) (nr : ℕ)
      → IsCancelling w key t
      → Ensures (IsCancelling w key) (cancelled_node w t key nr)
  unfolding cancelled_node
  cancels_node t nr (x, h, cancels) =
      Ensures-map
        (λ t' a. (next_status EventType.node_cancelled x, a, (still_cancelling x cancels).0))
        (note-at t EventType.node_cancelled _ x (prints.cancelled nr) h)

  fails_node :
      (t : Tx) (nr : ℕ) (cause : String)
      → IsCancelling w key t
      → Ensures (IsCancelling w key) (fail_node w t key nr cause)
  unfolding fail_node
  fails_node t nr cause (x, h, cancels) =
      Ensures-map (λ t' a. (next_status EventType.node_failed x, a, (still_cancelling x cancels).1))
        (note-at t EventType.node_failed _ x (prints.failure nr cause) h)

  receipts :
      (t : Tx) (op_key status : String) (e : Option Effect)
      → IsCancelling w key t
      → Ensures (IsCancelling w key) (note_receipt s w t op_key status e)
  unfolding note_receipt node_at handle
  receipts t op_key status none c = holds c
  receipts t op_key status (some e) (x, h, cancels) =
      Ensures-map
        (λ t' a.
          let k = on_effect_receipt-Keeps w.codec (logged t.db a.stored) a.stored a.projected in
          (
            x,
            record {
              row = h.row;
              found = ap (find_where (is_node_of w.run_id key)) k.nodes ∙ h.found;
              status = h.status;
            },
            cancels,
          ))
        (note-Applied w t EventType.effect_receipt _)

  waits_unless :
      (t : Tx)
      → IsCancelling w key t
      → Finishes (IsCancelling w key) (wait_unless_cancelled w t key)
  unfolding wait_unless_cancelled
  waits_unless t c = elim (Bool-cases (node_cancel_requested t.db w.run_id key)) [
    | inl e ↦ rw e (record { finish = λ _. c })
    | inr e ↦ rw e (transact-Finishes (IsCancelling w key) t (waiting_node w t key) (waits t c))
  ]

  cancel_by-Finishes :
      (t : Tx) (op_key : String) (nr : ℕ) (answer : Reconciliation)
      → IsCancelling w key t
      → Finishes (IsCancelling w key) (cancel_by s w t key op_key nr answer)
  unfolding cancel_by record_reconciled_effect
  cancel_by-Finishes t op_key nr Reconciliation.not_reconcilable c =
      transact-Finishes (IsCancelling w key) t _ (waits t c)
  cancel_by-Finishes t op_key nr Reconciliation.failed_to c = waits_unless t c
  cancel_by-Finishes t op_key nr Reconciliation.unknown c = waits_unless t c
  cancel_by-Finishes t op_key nr (Reconciliation.confirmed result) c =
      and_then-Finishes (IsCancelling w key) (IsCancelling w key) (transact t _) _
        (transact-Finishes (IsCancelling w key) t _ (receipts t op_key "confirmed" _ c))
        (λ m k. cancels_node m nr k)
  cancel_by-Finishes t op_key nr Reconciliation.rejected c =
      transact-Finishes (IsCancelling w key) t _ (cancels_node t nr c)

  filled_in :
      (t : Tx) (op_key : String) (nr : ℕ) (cause : Option String)
      → IsCancelling w key t
      → Finishes (IsCancelling w key) (cancel_if_filled s w t key op_key nr cause)
  unfolding cancel_if_filled
  filled_in t op_key nr (some cause) c =
      transact-Finishes (IsCancelling w key) t _ (fails_node t nr cause c)
  filled_in t op_key nr none c = cancel_by-Finishes t op_key nr (s.reconcile key nr) c

  reconcile_cancelled-Finishes :
      (t : Tx) (nr : ℕ)
      → IsCancelling w key t
      → Finishes (IsCancelling w key) (reconcile_cancelled_node s w t key nr)
  unfolding reconcile_cancelled_node
  reconcile_cancelled-Finishes t nr c =
      read_then-Finishes (IsCancelling w key) t (load_run t.db w.run_id) _ λ run _.
        read_then-Finishes (IsCancelling w key) t (latest_attempt t.db w.run_id key) _ λ a _.
          read_then-Finishes (IsCancelling w key) t
            (contract_for s (node_config_for_key t.db run.graph_version_id key)) _
            λ k _. filled_in t a.operation_key _ (interpolation s k.0 key) c

  cancel_under-Finishes :
      (t : Tx) (nr : ℕ) (contract : Contract)
      → IsCancelling w key t
      → Finishes (IsCancelling w key) (cancel_under s w t key nr contract)
  unfolding cancel_under
  cancel_under-Finishes t nr Contract.pure c =
      transact-Finishes (IsCancelling w key) t _ (cancels_node t nr c)
  cancel_under-Finishes t nr Contract.reconcilable c = reconcile_cancelled-Finishes t nr c
  cancel_under-Finishes t nr Contract.idempotent c =
      transact-Finishes (IsCancelling w key) t _ (waits t c)
  cancel_under-Finishes t nr Contract.non_replayable c =
      transact-Finishes (IsCancelling w key) t _ (waits t c)

  pub recover_cancelled-Finishes :
      (t : Tx) (contract : Contract)
      → IsCancelling w key t
      → Finishes (IsCancelling w key) (recover_cancelled_node s w t key contract)
  unfolding recover_cancelled_node
  recover_cancelled-Finishes t contract c =
      read_then-Finishes (IsCancelling w key) t (latest_attempt t.db w.run_id key) _
        λ a _. cancel_under-Finishes t a.attempt_no contract c
