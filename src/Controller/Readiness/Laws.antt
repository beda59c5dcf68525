-- ===== src/Controller/Readiness/Laws.antt =====
-- Which nodes the controller may start, and that a resumed attempt is started under its old
-- number.
use proceed.Base.{
  ℕ, ◌+◌, String, Bool, true, false, ◌&&◌, ◌||◌, some, List, [], ◌∷◌, ◌≡◌, inl, inr, refl, ok,
  str_eq, str_eq_iff, ◌==◌, if◌then◌else◌, any_where, select_where, Bool-cases, Ensures, Ensures-at,
  Ensures-bind, holds, ltb, ◌>>=◌, arith,
}
use proceed.Store.Types.{Db, Event, GraphNode, RunNode, NodeStatus}
use proceed.Store.Payload.{Codec, NodeRequeuedPayload}
use proceed.Store.Nodes.{is_cancelling, is_node_of, is_uncancelled, ensure_run_node, update_nodes}
use proceed.Store.Conformance.{on_node_requeued-Moves}
use proceed.Store.Moved.{requeue, on_node_requeued}
use proceed.Store.Named.{node_at, ensure_run_node-Ensured, find_where-update_where}
use proceed.Controller.Readiness.{
  insert_by_key, by_key, nodes_of_version, row_of, is_taken, next_attempt, runnable_nodes,
  eligible_nodes,
}

-- a version has a definition of the node
abbrev pub is_defined : Db → String → String → Bool
is_defined db version key =
    any_where (λ n. str_eq n.graph_version_id version && str_eq n.node_key key) db.graph_nodes

-- the controller offers the node, under an attempt number
abbrev pub offers : Db → String → String → String → ℕ → Bool
offers db run_id version key attempt =
    any_where (λ r. str_eq r.node_key key && r.attempt_no == attempt)
      (eligible_nodes db run_id version)

any_where-insert_by_key :
    (p : GraphNode → Bool) (n : GraphNode) (ns : List GraphNode)
    → any_where p (insert_by_key n ns) ≡ (p n || any_where p ns)
unfolding any_where insert_by_key
any_where-insert_by_key p n [] = refl
any_where-insert_by_key p n (m ∷ ms) = ground (arith, any_where-insert_by_key p n ms)

any_where-by_key :
    (p : GraphNode → Bool) (ns : List GraphNode) → any_where p (by_key ns) ≡ any_where p ns
unfolding any_where by_key
any_where-by_key p [] = refl
any_where-by_key p (n ∷ ns) =
    ground (arith, any_where-insert_by_key p n (by_key ns), any_where-by_key p ns)

any_where-select_where {ℓ} :
    {A : Type ℓ} (p q : A → Bool) (xs : List A)
    → any_where q (select_where p xs) ≡ any_where (λ x. p x && q x) xs
unfolding any_where select_where
any_where-select_where p q [] = refl
any_where-select_where p q (x ∷ xs) = ground (arith, any_where-select_where p q xs)

-- whether the loop takes the node
abbrev pub may_start : Db → String → String → String → Bool
may_start db run_id version key = is_taken db run_id version key (row_of db run_id key)

any_where-runnable_nodes :
    (db : Db) (run_id version key : String) (attempt : ℕ) (ns : List GraphNode)
    → any_where
        (λ r. str_eq r.node_key key && r.attempt_no == attempt)
        (runnable_nodes db run_id version ns)
      ≡ (any_where (λ n. str_eq n.node_key key) ns
          && may_start db run_id version key
          && next_attempt (row_of db run_id key) == attempt)
unfolding any_where runnable_nodes
any_where-runnable_nodes db run_id version key attempt [] = refl
any_where-runnable_nodes db run_id version key attempt (n ∷ ns) =
    elim (Bool-cases (str_eq n.node_key key)) [
      | inl same ↦
          let e = (str_eq_iff n.node_key key).0 same in
          ground (arith, e, any_where-runnable_nodes db run_id version key attempt ns)
      | inr other ↦ ground (arith, any_where-runnable_nodes db run_id version key attempt ns)
    ]

-- the rows that are offered, by the tests of the loop
pub offers-may_start :
    (db : Db) (run_id version key : String) (attempt : ℕ)
    → offers db run_id version key attempt ≡ (
        is_defined db version key
        && may_start db run_id version key
        && next_attempt (row_of db run_id key) == attempt)
unfolding eligible_nodes nodes_of_version
offers-may_start db run_id version key attempt = ground (
  arith,
  any_where-runnable_nodes db run_id version key attempt (nodes_of_version db version),
  any_where-by_key (λ n. str_eq n.node_key key)
      (select_where (λ n. str_eq n.graph_version_id version) db.graph_nodes),
  any_where-select_where (λ n. str_eq n.graph_version_id version) (λ n. str_eq n.node_key key)
      db.graph_nodes,
)

-- the attempt that follows a requeueing: a resumed one keeps its number
unfoldable pub attempt_after : NodeRequeuedPayload → RunNode → ℕ
attempt_after p n =
    if p.resume_attempt && ltb 0 p.attempt_no then p.attempt_no else n.attempt_count + 1

-- the row of a requeued node
record Offered (db : Db) (ev : Event) (p : NodeRequeuedPayload) (n : RunNode) (d : Db)
    : Type 0 where
  pub row : RunNode
  pub found : node_at d ev.run_id p.node_key ≡ some row
  pub status : row.status ≡ NodeStatus.eligible
  pub count : row.attempt_count + 1 ≡ attempt_after p n

on_node_requeued-Offered :
    (c : Codec) (db : Db) (ev : Event) (p : NodeRequeuedPayload) (n : RunNode)
    → node_at db ev.run_id p.node_key ≡ some n
    → is_cancelling n.status ≡ false
    → Ensures (Offered db ev p n) (
        ensure_run_node c db ev.run_id p.node_key >>= λ r.
        ok (update_nodes r.1 (is_uncancelled r.0) (requeue p)))
unfolding node_at requeue attempt_after
on_node_requeued-Offered c db ev p n found open_before =
    Ensures-bind (ensure_run_node c db ev.run_id p.node_key) _ λ r made.
      let e = Ensures-at (ensure_run_node-Ensured c db ev.run_id p.node_key) made in
      let row = e.row in
      let same : row ≡ n = e.kept n found in
      holds (record {
        row = if is_uncancelled r.0 row then requeue p row else row;
        found =
            find_where-update_where (is_node_of ev.run_id p.node_key) (is_uncancelled r.0)
              (requeue p) (λ x. ground arith) r.1.nodes e.found;
        status = ground (arith, same, e.same_id, str_eq_iff row.id r.0);
        count = ground (arith, same, e.same_id, str_eq_iff row.id r.0);
      })

-- A node that is requeued, and was not cancelled or to be cancelled, is offered by the controller
-- again at once, in any version that defines it: under the number of the attempt that the event
-- resumes, if it resumes one, and under the number after its attempt count otherwise.
pub on_node_requeued-offers :
    (c : Codec) (db : Db) (ev : Event) (d : Db) (p : NodeRequeuedPayload) (n : RunNode)
    (version : String)
    → c.node_requeued ev.payload ≡ some p
    → node_at db ev.run_id p.node_key ≡ some n
    → is_cancelling n.status ≡ false
    → is_defined db version p.node_key ≡ true
    → on_node_requeued c db ev ≡ ok d
    → offers d ev.run_id version p.node_key (attempt_after p n) ≡ true
unfolding on_node_requeued node_at is_taken
on_node_requeued-offers c db ev d p n version read found open_before defined h =
    let fixed = (on_node_requeued-Moves c db ev h).fixed in
    let r =
      Ensures-at {a = d} (on_node_requeued-Offered c db ev p n found open_before)
        (ground (arith, read, h)) in
    let row = r.row in
    ground (
      arith,
      r.found,
      r.status,
      r.count,
      fixed.graph_nodes,
      offers-may_start d ev.run_id version p.node_key (attempt_after p n),
    )
