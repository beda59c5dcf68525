-- ===== src/Controller/Recovery/Contracts.antt =====
-- What recoverNode makes of a node, by the side-effect contract of its executor
-- (internal/controller/recover.go).
use proceed.Base.{
  String, false, ◌≡◌, refl, sym, subst, none, ok, Ensures, Ensures-bind, Ensures-map, arith,
}
use proceed.Store.Types.{EventType, NodeStatus}
use proceed.Store.Nodes.{is_cancelling}
use proceed.Store.StatusMachine.{next_status}
use proceed.Store.Named.{HasStatus}
use proceed.Controller.Writer.{Writer, Tx}
use proceed.Controller.Writer.Finishes.{Finishes, transact-Finishes, read_then-Finishes}
use proceed.Controller.Writer.Applied.{NamesNode}
use proceed.Controller.Outcomes.{requeued_node, waiting_node, append_node_transition}
use proceed.Controller.Outcomes.Retry.{transition-status}
use proceed.Controller.Recovery.{
  Surroundings, Contract, contract_for, latest_attempt, resume_idempotent_attempt, recover_by,
  recover_under, recover_node,
}
use proceed.Controller.Recovery.Recovered.{
  PrintsRecovery, IsCancelling, note-at, recover_cancelled-Finishes,
}

-- what is known of a node after its recovery; a reconcilable one depends on the answer
abbrev pub Recovers : Writer → String → Contract → Tx → Type 0
Recovers w key Contract.pure t = HasStatus w.run_id key NodeStatus.eligible t.db
Recovers w key Contract.idempotent t = HasStatus w.run_id key NodeStatus.eligible t.db
Recovers w key Contract.reconcilable t = Unit
Recovers w key Contract.non_replayable t = HasStatus w.run_id key NodeStatus.waiting t.db

module _ (s : Surroundings) (w : Writer) (key : String) (prints : PrintsRecovery s w key) where
  transition-free :
      (t : Tx) (type : EventType) (payload : String) (x : NodeStatus) (y : NodeStatus)
      → NamesNode w.codec type payload key
      → HasStatus w.run_id key x t.db
      → is_cancelling x ≡ false
      → next_status type x ≡ y
      → Ensures (λ t'. HasStatus w.run_id key y t'.db) (append_node_transition w t key type payload)
  transition-free t type payload x y names h free next =
      Ensures-map
        (λ t' a. subst (λ z. HasStatus w.run_id key z t'.db) (ground (arith, free, next)) a)
        (transition-status w key t type payload x names h)

  next_free :
      (x : NodeStatus)
      → is_cancelling x ≡ false
      → (next_status EventType.node_requeued x ≡ NodeStatus.eligible)
        × (next_status EventType.node_waiting x ≡ NodeStatus.waiting)
  unfolding next_status
  next_free x free = (ground (arith, free), ground (arith, free))

  resumes :
      (t : Tx) (x : NodeStatus)
      → HasStatus w.run_id key x t.db
      → is_cancelling x ≡ false
      → Ensures (Recovers w key Contract.idempotent) (resume_idempotent_attempt s w t key)
  unfolding resume_idempotent_attempt
  resumes t x h free = Ensures-bind (latest_attempt t.db w.run_id key) _ λ a _.
      Ensures-map (λ t' d. subst (λ z. HasStatus w.run_id key z t'.db) (next_free x free).0 d)
        (note-at s w key prints t EventType.node_requeued _ x (prints.resumed a.attempt_no) h)

  recover_by-Recovers :
      (t : Tx) (x : NodeStatus) (contract : Contract)
      → HasStatus w.run_id key x t.db
      → is_cancelling x ≡ false
      → Finishes (Recovers w key contract) (recover_by s w t key contract)
  unfolding recover_by requeued_node waiting_node
  recover_by-Recovers t x Contract.pure h free =
      transact-Finishes (Recovers w key Contract.pure) t _ (
        transition-free t EventType.node_requeued _ x NodeStatus.eligible prints.requeued h free
          (next_free x free).0)
  recover_by-Recovers t x Contract.idempotent h free =
      transact-Finishes (Recovers w key Contract.idempotent) t _ (resumes t x h free)
  recover_by-Recovers t x Contract.reconcilable h free = record { finish = λ _. tt }
  recover_by-Recovers t x Contract.non_replayable h free =
      transact-Finishes (Recovers w key Contract.non_replayable) t _ (
        transition-free t EventType.node_waiting _ x NodeStatus.waiting prints.waiting h free
          (next_free x free).1)

  -- what is known of a node after its recovery, by its status before
  abbrev pub RecoversFrom : Contract → NodeStatus → Tx → Type 0
  RecoversFrom contract x t =
      (x ≡ NodeStatus.cancel_requested → IsCancelling w key t)
      × (is_cancelling x ≡ false → Recovers w key contract t)

  recover_under-Finishes :
      (t : Tx) (contract : Contract) (x : NodeStatus)
      → HasStatus w.run_id key x t.db
      → Finishes (RecoversFrom contract x) (recover_under s w t key contract x)
  unfolding recover_under
  recover_under-Finishes t contract NodeStatus.cancel_requested h = record {
    finish = λ e. (
      (λ _.
          (recover_cancelled-Finishes s w key prints t contract
              (NodeStatus.cancel_requested, h, refl)).finish
            e),
      (λ free. absurd (ground (arith, free))),
    );
  }
  recover_under-Finishes t contract x h = record {
    finish = λ e. (
      (λ same. absurd (ground (arith, same))),
      (λ free. (recover_by-Recovers t _ contract h free).finish e),
    );
  }

  -- If recoverNode ends without an error for a node at the status of its row, encoding/json printing
  -- what it reads back, then: a node whose cancelling was requested is cancelled or still to be,
  -- whatever its executor answers, and never starts again; and of the other nodes that were not
  -- cancelled, one with a pure or an idempotent contract is eligible to start again, and one with a
  -- contract that is not replayable waits.
  pub recover_node-RecoversFrom :
      (t : Tx) (config kind : String) (contract : Contract) (x : NodeStatus)
      → contract_for s config ≡ ok (kind, contract)
      → HasStatus w.run_id key x t.db
      → (recover_node s w t key config x).failure ≡ none
      → RecoversFrom contract x (recover_node s w t key config x).committed
  unfolding recover_node
  recover_node-RecoversFrom t config kind contract x known h done =
      (read_then-Finishes (RecoversFrom contract x) t (contract_for s config) _ λ c same.
          let contracts : c.1 ≡ contract = ground (arith, same, known) in
          subst (λ k. Finishes (RecoversFrom contract x) (recover_under s w t key k x))
            (sym contracts) (recover_under-Finishes t contract x h)).finish
        done
