-- ===== src/Controller/Cancel/Stopped.antt =====
-- After a cancellation no node of the run is left to start.
use proceed.Base.{
  All, length, ℕ, ◌+◌, String, Bool, true, false, List, [], ◌∷◌, some, ◌≡◌, inl, inr, refl, subst,
  ok, ◌==◌, str_eq, str_eq_iff, if◌then◌else◌, any_where, find_where, Bool-cases, Ensures,
  Ensures-at, Ensures-bind, Ensures-map, Ensures-if, holds, arith,
}
use proceed.Store.Types.{Db, EventType, RunNode, GraphNode, ExternalWait}
use proceed.Store.Payload.{Codec}
use proceed.Store.Nodes.{is_node_of}
use proceed.Store.Named.{node_at}
use proceed.Controller.Completion.{is_active, tally}
use proceed.Controller.Cancel.{
  Stamp, append_event, cancellation, cancellations, not_started, pending_waits, append_nodes,
  append_waits, cancel_if_idle, cancel_all,
}
use proceed.Controller.Cancel.Appended.{
  is_stopped, IsStopped, IsPrinted, Keeps, is_node_type, append_event-Keeps, append_event-Stops,
  node-cancels,
}

-- the first two loops
record Stops (run_id : String) (es : List (EventType × String)) (db d : Db) : Type 0 where
  pub keeps : Keeps run_id db d
  pub stops : (key : String) → any_where (λ e. str_eq e.1 key) es ≡ true → IsStopped run_id key d

append_nodes-Stops :
    (c : Codec) (now : ℕ) (stamps : ℕ → Stamp) (i : ℕ) (owner run_id : String) (db : Db)
    (es : List (EventType × String))
    → IsPrinted c
    → All (λ e. is_node_type e.0 ≡ true) es
    → Ensures (Stops run_id es db) (append_nodes c now stamps i owner run_id db es)
unfolding append_nodes any_where
append_nodes-Stops c now stamps i owner run_id db [] prints nodes =
    holds (record { keeps = λ key s. s; stops = λ key h. absurd (ground arith) })
append_nodes-Stops c now stamps i owner run_id db (e ∷ es) prints nodes =
    Ensures-bind (append_event c now (stamps i) owner run_id db e.0 (c.marshal_node e.1)) _
      λ m first.
        let kept =
          Ensures-at
            (append_event-Keeps c now (stamps i) owner run_id db e.0 (c.marshal_node e.1)
              (node-cancels e.0 nodes.0))
            first in
        let hit =
          Ensures-at (append_event-Stops c now (stamps i) owner run_id db e.0 e.1 prints nodes.0)
            first in
        Ensures-map
          (λ d r. record {
            keeps = λ key s. r.keeps key (kept key s);
            stops = λ key h. elim (Bool-cases (str_eq e.1 key)) [
              | inl same ↦
                  r.keeps key (subst (λ k. IsStopped run_id k m) ((str_eq_iff e.1 key).0 same) hit)
              | inr other ↦ r.stops key (ground arith)
            ];
          })
          (append_nodes-Stops c now stamps (i + 1) owner run_id m es prints nodes.1)

-- the other two steps
append_waits-Keeps :
    (c : Codec) (now : ℕ) (stamps : ℕ → Stamp) (i : ℕ) (owner run_id : String) (committed db : Db)
    (ws : List ExternalWait)
    → Ensures (Keeps run_id db) (append_waits c now stamps i owner run_id committed db ws)
unfolding append_waits
append_waits-Keeps c now stamps i owner run_id committed db [] = holds (λ key s. s)
append_waits-Keeps c now stamps i owner run_id committed db (w ∷ ws) =
    Ensures-bind (append_event c now (stamps i) owner run_id db EventType.external_wait_cancelled _)
      _
      λ m first.
        let kept =
          Ensures-at
            (append_event-Keeps c now (stamps i) owner run_id db EventType.external_wait_cancelled _
              refl)
            first in
        Ensures-map (λ d keep key s. keep key (kept key s))
          (append_waits-Keeps c now stamps (i + 1) owner run_id committed m ws)

cancel_if_idle-Keeps :
    (c : Codec) (now : ℕ) (stamp : Stamp) (owner run_id : String) (db : Db)
    → Ensures (Keeps run_id db) (cancel_if_idle c now stamp owner run_id db)
unfolding cancel_if_idle
cancel_if_idle-Keeps c now stamp owner run_id db =
    Ensures-if (tally is_active db run_id == 0)
      (λ idle. append_event-Keeps c now stamp owner run_id db EventType.run_cancelled "{}" refl)
      λ busy. holds (λ key s. s)

All-if :
    (b : Bool) (e : EventType × String) (es : List (EventType × String))
    → is_node_type e.0 ≡ true
    → All (λ x. is_node_type x.0 ≡ true) es
    → All (λ x. is_node_type x.0 ≡ true) (if b then e ∷ es else es)
All-if true e es h hs = (h, hs)
All-if false e es h hs = hs

cancellation-node : (n : RunNode) → is_node_type (cancellation n).0 ≡ true
cancellation-node n = ground arith

cancellations-nodes :
    (run_id : String) (ns : List RunNode)
    → All (λ e. is_node_type e.0 ≡ true) (cancellations run_id ns)
unfolding cancellations
cancellations-nodes run_id [] = tt
cancellations-nodes run_id (n ∷ ns) =
    All-if _ (cancellation n) (cancellations run_id ns) (cancellation-node n)
      (cancellations-nodes run_id ns)

not_started-nodes :
    (db : Db) (run_id version : String) (gs : List GraphNode)
    → All (λ e. is_node_type e.0 ≡ true) (not_started db run_id version gs)
unfolding not_started
not_started-nodes db run_id version [] = tt
not_started-nodes db run_id version (g ∷ gs) =
    All-if _ (EventType.node_cancelled, g.node_key) (not_started db run_id version gs) refl
      (not_started-nodes db run_id version gs)

-- a node that has not stopped is in the list
listed :
    (run_id key : String) (ns : List RunNode) {n : RunNode}
    → find_where (is_node_of run_id key) ns ≡ some n
    → is_stopped n.status ≡ false
    → any_where (λ e. str_eq e.1 key) (cancellations run_id ns) ≡ true
unfolding cancellations find_where any_where
listed run_id key [] h open_still = absurd (ground arith)
listed run_id key (x ∷ xs) {n = n} h open_still = elim (Bool-cases (is_node_of run_id key x)) [
  | inl hit ↦ let same : x ≡ n = ground arith in ground (arith, same)
  | inr miss ↦ ground (arith, listed run_id key xs {n = n} (ground arith) open_still)
]

-- If CancelRun's transaction succeeds on a running run, encoding/json printing what it reads back,
-- each node that the run had has ended then, or is told to: none is pending, eligible, leased,
-- running, waiting, uncertain or reconciling.
pub cancel_all-IsStopped :
    (c : Codec) (now : ℕ) (stamps : ℕ → Stamp) (owner : String) (db : Db)
    (run_id version key : String) (n : RunNode) (d : Db)
    → IsPrinted c
    → node_at db run_id key ≡ some n
    → cancel_all c now stamps owner db run_id version ≡ ok d
    → IsStopped run_id key d
unfolding cancel_all node_at
cancel_all-IsStopped c now stamps owner db run_id version key n d prints found h =
    let rows = cancellations run_id db.nodes in
    Ensures-at {P = IsStopped run_id key}
      (Ensures-bind (append_nodes c now stamps 0 owner run_id db rows) _ λ d1 first.
        let cut =
          Ensures-at
            (append_nodes-Stops c now stamps 0 owner run_id db rows prints
              (cancellations-nodes run_id db.nodes))
            first in
        let stopped : IsStopped run_id key d1 = elim (Bool-cases (is_stopped n.status)) [
          | inl already ↦ cut.keeps key (n, found, already)
          | inr open_still ↦ cut.stops key (listed run_id key db.nodes {n = n} found open_still)
        ] in
        let others = not_started db run_id version d1.graph_nodes in
        Ensures-bind (append_nodes c now stamps (length rows) owner run_id d1 others) _ λ d2 second.
          let more =
            Ensures-at
              (append_nodes-Stops c now stamps (length rows) owner run_id d1 others prints
                (not_started-nodes db run_id version d1.graph_nodes))
              second in
          let ws = pending_waits d2 run_id in
          Ensures-bind
            (append_waits c now stamps (length rows + length others) owner run_id db d2 ws) _
            λ d3 third.
              let kept =
                Ensures-at
                  (append_waits-Keeps c now stamps (length rows + length others) owner run_id db d2
                    ws)
                  third in
              Ensures-map (λ d4 last. last key (kept key (more.keeps key stopped)))
                (cancel_if_idle-Keeps c now (stamps (length rows + length others + length ws)) owner
                  run_id d3))
      h
