-- ===== src/Controller/Readiness/Startable.antt =====
-- Which nodes the controller offers, by what the statuses and the edges mean
-- (internal/controller/engine.go).
use mathlib.Core.List.{Memᴰ}
use proceed.Base.{
  ℕ, ◌+◌, String, Bool, true, not, ◌&&◌, none, some, List, [], ◌∷◌, ◌≡◌, ◌∙◌, ◌↔◌, ◌⊎◌, inl, inr,
  refl, sym, ap, str_eq, str_eq_iff, str_eq_refl, ◌==◌, one_of, any_where, All, Bool-cases,
  Option-cases, arith,
}
use proceed.Store.Types.{Db, GraphEdge, RunEdge, RunNode, NodeStatus}
use proceed.Controller.Readiness.{
  row_of, row_is_done, done, traversed, blocks, ready, is_taken, next_attempt,
}
use proceed.Controller.Readiness.Laws.{is_defined, may_start, offers, offers-may_start}

-- a node that the version defines has succeeded in the run or was skipped
abbrev pub HasEnded : Db → String → String → String → Type 0
HasEnded db run_id version key =
    (is_defined db version key ≡ true)
    × (n : RunNode) × (row_of db run_id key ≡ some n)
    × ((n.status ≡ NodeStatus.succeeded) ⊎ (n.status ≡ NodeStatus.skipped))

-- the run has traversed an edge
abbrev pub IsTraversed : Db → String → String → Type 0
IsTraversed db run_id edge_id =
    (e : RunEdge) × Memᴰ e db.edges × (e.run_id ≡ run_id) × (e.edge_id ≡ edge_id)

-- what an edge asks for by its type: that its source has ended, or that it was traversed
pub record IsSatisfied (db : Db) (run_id version : String) (e : GraphEdge) : Type 0 where
  pub depends_on : e.type ≡ "depends_on" → HasEnded db run_id version e.from_node_key
  pub produces : e.type ≡ "produces" → HasEnded db run_id version e.from_node_key
  pub consumes : e.type ≡ "consumes" → HasEnded db run_id version e.from_node_key
  pub routes_to : e.type ≡ "routes_to" → IsTraversed db run_id e.id

-- the node is eligible; or it has not started, and the version's edges into it have what they ask for
pub data IsStartable (db : Db) (run_id version key : String) : Type 0 where
  eligible :
      (n : RunNode)
      → row_of db run_id key ≡ some n
      → n.status ≡ NodeStatus.eligible
      → IsStartable db run_id version key
  satisfied :
      (row_of db run_id key ≡ none)
        ⊎ ((n : RunNode) × (row_of db run_id key ≡ some n) × (n.status ≡ NodeStatus.pending))
      → All
          (λ e.
            e.graph_version_id ≡ version → e.to_node_key ≡ key → IsSatisfied db run_id version e)
          db.graph_edges
      → IsStartable db run_id version key

-- the number of the node's next attempt
pub data IsNext (db : Db) (run_id key : String) (attempt : ℕ) : Type 0 where
  first : row_of db run_id key ≡ none → attempt ≡ 1 → IsNext db run_id key attempt
  later :
      (n : RunNode)
      → row_of db run_id key ≡ some n
      → attempt ≡ n.attempt_count + 1
      → IsNext db run_id key attempt

next_attempt-IsNext :
    (db : Db) (run_id key : String) (attempt : ℕ)
    → ((next_attempt (row_of db run_id key) == attempt) ≡ true) ↔ IsNext db run_id key attempt
next_attempt-IsNext db run_id key attempt = (
  λ h. elim (Option-cases (row_of db run_id key)) [
    | inl missing ↦ first missing (ground (arith, missing))
    | inr (n, found) ↦ later n found (ground (arith, found))
  ],
  λ next. elim next [
    | first missing is ↦ ground (arith, missing, is)
    | later n found is ↦ ground (arith, found, is)
  ],
)

done-HasEnded :
    (db : Db) (run_id version key : String)
    → (done db run_id version key ≡ true) ↔ HasEnded db run_id version key
unfolding done
done-HasEnded db run_id version key = (
  λ h. elim (Option-cases (row_of db run_id key)) [
    | inl missing ↦ absurd (ground (arith, missing))
    | inr (n, found) ↦ (ground arith, n, found, ended n.status (ground (arith, found)))
  ],
  λ (defined, n, found, has_ended). elim has_ended [
    | inl is ↦ ground (arith, defined, found, is)
    | inr is ↦ ground (arith, defined, found, is)
  ],
)
  where
    ended :
        (s : NodeStatus)
        → row_is_done (
            some (record {
              id = "";
              run_id = "";
              node_key = "";
              status = s;
              attempt_count = 0;
              started_at = none;
              finished_at = none;
            }))
          ≡ true
        → (s ≡ NodeStatus.succeeded) ⊎ (s ≡ NodeStatus.skipped)
    ended s h = ground arith

traversed-Mem :
    (run_id edge_id : String) (es : List RunEdge)
    → (any_where (λ e. str_eq e.run_id run_id && str_eq e.edge_id edge_id) es ≡ true)
      ↔ ((e : RunEdge) × Memᴰ e es × (e.run_id ≡ run_id) × (e.edge_id ≡ edge_id))
unfolding any_where
traversed-Mem run_id edge_id [] =
    (λ h. absurd (ground arith), λ (e, listed, own, same). elim listed [ ])
traversed-Mem run_id edge_id (e ∷ es) = (
  λ h. elim (Bool-cases (str_eq e.run_id run_id && str_eq e.edge_id edge_id)) [
    | inl hit ↦ (
      e,
      Memᴰ.head refl,
      (str_eq_iff e.run_id run_id).0 (ground (arith, hit)),
      (str_eq_iff e.edge_id edge_id).0 (ground (arith, hit)),
    )
    | inr miss ↦
        let (x, listed, own, same) =
          (traversed-Mem run_id edge_id es).0 (ground (arith, h, miss)) in
        (x, Memᴰ.tail listed, own, same)
  ],
  λ (x, listed, own, same). elim listed [
    | Memᴰ.head is ↦ ground (arith, sym is, own, same, str_eq_refl run_id, str_eq_refl edge_id)
    | Memᴰ.tail more ↦ ground (arith, (traversed-Mem run_id edge_id es).1 (x, more, own, same))
  ],
)

traversed-IsTraversed :
    (db : Db) (run_id edge_id : String)
    → (traversed db run_id edge_id ≡ true) ↔ IsTraversed db run_id edge_id
unfolding traversed
traversed-IsTraversed db run_id edge_id = traversed-Mem run_id edge_id db.edges

-- the two tests of the switch on an edge's type
waits_for_end : GraphEdge → Bool
waits_for_end e = one_of e.type ("depends_on" ∷ "produces" ∷ "consumes" ∷ [])

IsSatisfied-tests :
    (db : Db) (run_id version : String) (e : GraphEdge)
    → (waits_for_end e ≡ true → done db run_id version e.from_node_key ≡ true)
    → (str_eq e.type "routes_to" ≡ true → traversed db run_id e.id ≡ true)
    → IsSatisfied db run_id version e
unfolding waits_for_end
IsSatisfied-tests db run_id version e ends routes = record {
  depends_on = λ is. (done-HasEnded db run_id version e.from_node_key).0 (ends (rw is refl));
  produces = λ is. (done-HasEnded db run_id version e.from_node_key).0 (ends (rw is refl));
  consumes = λ is. (done-HasEnded db run_id version e.from_node_key).0 (ends (rw is refl));
  routes_to = λ is. (traversed-IsTraversed db run_id e.id).0 (routes (rw is refl));
}

tests-IsSatisfied :
    (db : Db) (run_id version : String) (e : GraphEdge)
    → IsSatisfied db run_id version e
    → (waits_for_end e ≡ true → done db run_id version e.from_node_key ≡ true)
      × (str_eq e.type "routes_to" ≡ true → traversed db run_id e.id ≡ true)
unfolding waits_for_end
tests-IsSatisfied db run_id version e s = (
  λ waits.
      (done-HasEnded db run_id version e.from_node_key).1
        (elim (Bool-cases (str_eq e.type "depends_on")) [
          | inl is ↦ s.depends_on ((str_eq_iff e.type "depends_on").0 is)
          | inr is_not ↦ elim (Bool-cases (str_eq e.type "produces")) [
            | inl is ↦ s.produces ((str_eq_iff e.type "produces").0 is)
            | inr nor ↦
                s.consumes ((str_eq_iff e.type "consumes").0 (ground (arith, is_not, nor, waits)))
          ]
        ]),
  λ is.
      (traversed-IsTraversed db run_id e.id).1 (s.routes_to ((str_eq_iff e.type "routes_to").0 is)),
)

blocks-IsSatisfied :
    (db : Db) (run_id version key : String) (e : GraphEdge)
    → (not (blocks db run_id version key e) ≡ true)
      ↔ (e.graph_version_id ≡ version → e.to_node_key ≡ key → IsSatisfied db run_id version e)
unfolding blocks waits_for_end
blocks-IsSatisfied db run_id version key e = (
  λ free own into.
      let same_version : str_eq e.graph_version_id version ≡ true =
        (str_eq_iff e.graph_version_id version).1 own in
      let same_key : str_eq e.to_node_key key ≡ true = (str_eq_iff e.to_node_key key).1 into in
      IsSatisfied-tests db run_id version e
        (λ waits. ground (arith, free, same_version, same_key, waits))
        (λ routes. ground (arith, free, same_version, same_key, routes)),
  λ satisfied. elim (Bool-cases (str_eq e.graph_version_id version && str_eq e.to_node_key key)) [
    | inr elsewhere ↦ ground (arith, elsewhere)
    | inl concerns ↦
        let tests = tests-IsSatisfied db run_id version e (
          satisfied ((str_eq_iff e.graph_version_id version).0 (ground (arith, concerns)))
            ((str_eq_iff e.to_node_key key).0 (ground (arith, concerns)))) in
        ground (arith, concerns, tests.0, tests.1)
  ],
)

none_blocks :
    (P : GraphEdge → Type 0) (p : GraphEdge → Bool)
    → ((e : GraphEdge) → (not (p e) ≡ true) ↔ P e)
    → (es : List GraphEdge) → (not (any_where p es) ≡ true) ↔ All P es
unfolding any_where
none_blocks P p each [] = (λ h. tt, λ h. refl)
none_blocks P p each (e ∷ es) = (
  λ h. ((each e).0 (ground (arith, h)), (none_blocks P p each es).0 (ground (arith, h))),
  λ (one, rest). ground (arith, (each e).1 one, (none_blocks P p each es).1 rest),
)

-- what holds of the edges of a node that may start by them
abbrev EdgesSatisfied : Db → String → String → String → Type 0
EdgesSatisfied db run_id version key =
    All (λ e. e.graph_version_id ≡ version → e.to_node_key ≡ key → IsSatisfied db run_id version e)
      db.graph_edges

ready-EdgesSatisfied :
    (db : Db) (run_id version key : String)
    → (ready db run_id version key ≡ true) ↔ EdgesSatisfied db run_id version key
unfolding ready
ready-EdgesSatisfied db run_id version key =
    none_blocks
      (λ e. e.graph_version_id ≡ version → e.to_node_key ≡ key → IsSatisfied db run_id version e)
      (blocks db run_id version key) (blocks-IsSatisfied db run_id version key) db.graph_edges

taken_status :
    (db : Db) (run_id version key : String) (n : RunNode)
    → is_taken db run_id version key (some n) ≡ true
    → (n.status ≡ NodeStatus.eligible)
      ⊎ ((n.status ≡ NodeStatus.pending) × (ready db run_id version key ≡ true))
unfolding is_taken
taken_status db run_id version key n h = ground (arith, h)

may_start-IsStartable :
    (db : Db) (run_id version key : String)
    → (may_start db run_id version key ≡ true) ↔ IsStartable db run_id version key
unfolding is_taken
may_start-IsStartable db run_id version key = (
  λ h. elim (Option-cases (row_of db run_id key)) [
    | inl missing ↦
        satisfied (inl missing)
          ((ready-EdgesSatisfied db run_id version key).0 (ground (arith, missing, h)))
    | inr (n, found) ↦
        elim (taken_status db run_id version key n
          (ap (is_taken db run_id version key) (sym found) ∙ h)) [
            | inl is ↦ eligible n found is
            | inr (is, free) ↦
                satisfied (inr (n, found, is)) ((ready-EdgesSatisfied db run_id version key).0 free)
          ]
  ],
  λ may. elim may [
    | eligible n found is ↦ ground (arith, found, is)
    | satisfied (inl missing) all ↦
        ground (arith, missing, (ready-EdgesSatisfied db run_id version key).1 all)
    | satisfied (inr (n, found, is)) all ↦
        ground (arith, found, is, (ready-EdgesSatisfied db run_id version key).1 all)
  ],
)

-- The controller offers a node, under an attempt number, exactly if the version defines the node; the
-- node is eligible, or it has no row or a pending one and each edge of the version into it has what it
-- asks for: a depends_on, produces or consumes edge a source that the version defines and that has
-- succeeded or was skipped, a routes_to edge to be traversed in the run; and the number is one more
-- than the count of the node's attempts.
pub offers-IsStartable :
    (db : Db) (run_id version key : String) (attempt : ℕ)
    → (offers db run_id version key attempt ≡ true) ↔ (
        (is_defined db version key ≡ true)
        × IsStartable db run_id version key
        × IsNext db run_id key attempt)
offers-IsStartable db run_id version key attempt =
    let tests = offers-may_start db run_id version key attempt in
    (
      λ h.
          let three = and-three (sym tests ∙ h) in
          (
            three.0,
            (may_start-IsStartable db run_id version key).0 three.1,
            (next_attempt-IsNext db run_id key attempt).0 three.2,
          ),
      λ (defined, startable, next).
          tests
          ∙ three-and defined ((may_start-IsStartable db run_id version key).1 startable)
              ((next_attempt-IsNext db run_id key attempt).1 next),
    )
  where
    and-three : {a b c : Bool} → (a && b && c) ≡ true → (a ≡ true) × (b ≡ true) × (c ≡ true)
    and-three {a} {b} {c} h = (ground arith, ground arith, ground arith)

    three-and : {a b c : Bool} → a ≡ true → b ≡ true → c ≡ true → (a && b && c) ≡ true
    three-and {a} {b} {c} x y z = ground arith
