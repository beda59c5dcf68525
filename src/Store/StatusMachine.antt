-- ===== src/Store/StatusMachine.antt =====
-- The state machine of a node's status, and that the projections of all events follow it
-- (internal/store/projection.go).
use proceed.Base.{
  ◌≤◌, Bool, true, ◌≡◌, ◌⊎◌, inl, inr, refl, if◌then◌else◌, Extends, Evolves, Evolves-Extends,
  Evolves-update, subst, sym, arith,
}
use proceed.Store.Types.{EventType, Db, RunNode, NodeStatus}
use proceed.Store.Nodes.{update_nodes, is_cancelling, is_closed, is_executing}
use proceed.Store.Frame.{Fixed, Fixed-refl, Fixed-trans, Keeps, Adds}

-- the status that an event of a type moves a node to
unfoldable pub next_status : EventType → NodeStatus → NodeStatus
next_status EventType.node_started s = NodeStatus.running
next_status EventType.node_finished s = if is_cancelling s then s else NodeStatus.succeeded
next_status EventType.node_failed s = if is_cancelling s then s else NodeStatus.failed
next_status EventType.node_uncertain s = if is_cancelling s then s else NodeStatus.uncertain
next_status EventType.node_cancel_requested s =
    if is_closed s then s else NodeStatus.cancel_requested
next_status EventType.node_skipped s = if is_cancelling s then s else NodeStatus.skipped
next_status EventType.node_cancelled s = if is_closed s then s else NodeStatus.cancelled
next_status EventType.node_requeued s = if is_cancelling s then s else NodeStatus.eligible
next_status EventType.node_waiting s = if is_cancelling s then s else NodeStatus.waiting
next_status EventType.node_reconciling s = if is_cancelling s then s else NodeStatus.reconciling
next_status EventType.node_attempt_failed s = if is_executing s then NodeStatus.eligible else s
next_status _ s = s

-- How a row may follow another under an event of a type: it keeps its keys, its status stays or
-- moves by the machine, and its count of attempts falls at most when it is requeued.
pub record Follows (t : EventType) (x y : RunNode) : Type 0 where
  pub id : y.id ≡ x.id
  pub run_id : y.run_id ≡ x.run_id
  pub node_key : y.node_key ≡ x.node_key
  pub status : (y.status ≡ x.status) ⊎ (y.status ≡ next_status t x.status)
  pub count : (t ≡ EventType.node_requeued) ⊎ (x.attempt_count ≤ y.attempt_count)

pub Follows-refl : (t : EventType) (x : RunNode) → Follows t x x
Follows-refl t x = record {
  id = refl;
  run_id = refl;
  node_key = refl;
  status = inl refl;
  count = inr (omega arith);
}

-- every row of run_node has a follower, and what no projection writes is as it was
pub record Moves (t : EventType) (db d : Db) : Type 0 where
  pub nodes : Evolves (Follows t) db.nodes d.nodes
  pub fixed : Fixed db d

pub Moves-Adds : (t : EventType) (db d : Db) → Adds db d → Moves t db d
Moves-Adds t db d a = record {
  nodes = Evolves-Extends (Follows t) (Follows-refl t) db.nodes a.nodes;
  fixed = a.fixed;
}

-- rows added, then an UPDATE of run_node whose every step follows
pub Moves-update :
    (t : EventType) (db m : Db) (p : RunNode → Bool) (f : RunNode → RunNode)
    → Adds db m
    → ((x : RunNode) → p x ≡ true → Follows t x (f x))
    → Moves t db (update_nodes m p f)
Moves-update t db m p f a h = record {
  nodes = Evolves-update (Follows t) (Follows-refl t) p f db.nodes a.nodes h;
  fixed = ground arith;
}

pub Keeps-refl : (db : Db) → Keeps db db
Keeps-refl db = record { nodes = refl; fixed = Fixed-refl db }

-- an operation that leaves run_node alone, after one that adds to it or moves it
pub Adds-after : {db m d : Db} → Adds db m → Keeps m d → Adds db d
Adds-after {db} a k = record {
  nodes = subst (Extends db.nodes) (sym k.nodes) a.nodes;
  fixed = Fixed-trans a.fixed k.fixed;
}

pub Moves-after : {t : EventType} {db m d : Db} → Moves t db m → Keeps m d → Moves t db d
Moves-after {t} {db} a k = record {
  nodes = subst (Evolves (Follows t) db.nodes) (sym k.nodes) a.nodes;
  fixed = Fixed-trans a.fixed k.fixed;
}
