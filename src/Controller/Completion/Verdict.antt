-- ===== src/Controller/Completion/Verdict.antt =====
-- What the verdict on a run says of its nodes.
use proceed.Base.{
  ◌<◌, String, Bool, true, not, ◌&&◌, ◌||◌, some, List, [], ◌∷◌, ◌≡◌, refl, ◌↔◌, str_eq,
  count_where, All, arith,
}
use proceed.Store.Types.{Db, EventType, RunNode, NodeStatus}
use proceed.Controller.Completion.{
  is_active, is_failed, is_cancelled, is_done, tally, defined_total, terminal_event,
}

-- every node of the run has such a status
abbrev pub AllNodes : (NodeStatus → Bool) → Db → String → Type 0
AllNodes p db run_id = All (λ n. str_eq n.run_id run_id ≡ true → p n.status ≡ true) db.nodes

-- a node of the run has such a status
abbrev pub SomeNode : (NodeStatus → Bool) → Db → String → Type 0
SomeNode p db run_id = ¬ AllNodes (λ s. not (p s)) db run_id

none_counted {ℓ} :
    {A : Type ℓ} (r : A → Bool) (p : A → Bool) (xs : List A)
    → (count_where (λ x. r x && p x) xs ≡ 0) ↔ All (λ x. r x ≡ true → not (p x) ≡ true) xs
unfolding count_where
none_counted r p [] = (λ h. tt, λ h. refl)
none_counted r p (x ∷ xs) = (
  λ h. (λ e. ground arith, (none_counted r p xs).0 (ground arith)),
  λ h. ground (arith, h.0, (none_counted r p xs).1 h.1),
)

-- The four sums count each status once.
one_class :
    (s : NodeStatus)
    → not (is_failed s) ≡ true
    → not (is_active s) ≡ true
    → not (is_cancelled s) ≡ true
    → is_done s ≡ true
one_class NodeStatus.pending f a c = ground arith
one_class NodeStatus.eligible f a c = ground arith
one_class NodeStatus.leased f a c = ground arith
one_class NodeStatus.running f a c = ground arith
one_class NodeStatus.succeeded f a c = refl
one_class NodeStatus.failed f a c = ground arith
one_class NodeStatus.uncertain f a c = ground arith
one_class NodeStatus.waiting f a c = ground arith
one_class NodeStatus.reconciling f a c = ground arith
one_class NodeStatus.cancel_requested f a c = ground arith
one_class NodeStatus.cancelled f a c = ground arith
one_class NodeStatus.skipped f a c = refl

one_class-All :
    (run_id : String) (ns : List RunNode)
    → All (λ n. str_eq n.run_id run_id ≡ true → not (is_failed n.status) ≡ true) ns
    → All (λ n. str_eq n.run_id run_id ≡ true → not (is_active n.status) ≡ true) ns
    → All (λ n. str_eq n.run_id run_id ≡ true → not (is_cancelled n.status) ≡ true) ns
    → All (λ n. str_eq n.run_id run_id ≡ true → is_done n.status ≡ true) ns
one_class-All run_id [] f a c = tt
one_class-All run_id (n ∷ ns) f a c =
    (λ e. one_class n.status (f.0 e) (a.0 e) (c.0 e), one_class-All run_id ns f.1 a.1 c.1)

-- If a run is declared completed, each node of it has succeeded or was skipped, and there is a
-- node of it for each of the nodes that its version defines, of which there are some.
pub terminal_event-completed :
    (db : Db) (run_id version : String)
    → terminal_event db run_id version ≡ some EventType.run_completed
    → AllNodes is_done db run_id
      × (tally is_done db run_id ≡ defined_total db version)
      × (0 < defined_total db version)
unfolding terminal_event
terminal_event-completed db run_id version h =
    let none_of : (p : NodeStatus → Bool)
        → tally p db run_id ≡ 0
        → AllNodes (λ s. not (p s)) db run_id =
      λ p. (none_counted (λ n. str_eq n.run_id run_id) (λ n. p n.status) db.nodes).0 in
    (
      one_class-All run_id db.nodes (none_of is_failed (ground arith))
          (none_of is_active (ground arith)) (none_of is_cancelled (ground arith)),
      ground arith,
      ground arith,
    )

rest_class :
    (s : NodeStatus)
    → not (is_failed s) ≡ true
    → not (is_active s) ≡ true
    → (is_cancelled s || is_done s) ≡ true
rest_class NodeStatus.pending f a = ground arith
rest_class NodeStatus.eligible f a = ground arith
rest_class NodeStatus.leased f a = ground arith
rest_class NodeStatus.running f a = ground arith
rest_class NodeStatus.succeeded f a = refl
rest_class NodeStatus.failed f a = ground arith
rest_class NodeStatus.uncertain f a = ground arith
rest_class NodeStatus.waiting f a = ground arith
rest_class NodeStatus.reconciling f a = ground arith
rest_class NodeStatus.cancel_requested f a = ground arith
rest_class NodeStatus.cancelled f a = refl
rest_class NodeStatus.skipped f a = refl

rest_class-All :
    (run_id : String) (ns : List RunNode)
    → All (λ n. str_eq n.run_id run_id ≡ true → not (is_failed n.status) ≡ true) ns
    → All (λ n. str_eq n.run_id run_id ≡ true → not (is_active n.status) ≡ true) ns
    → All
        (λ n. str_eq n.run_id run_id ≡ true → (is_cancelled n.status || is_done n.status) ≡ true)
        ns
rest_class-All run_id [] f a = tt
rest_class-All run_id (n ∷ ns) f a =
    (λ e. rest_class n.status (f.0 e) (a.0 e), rest_class-All run_id ns f.1 a.1)

-- If a run is declared cancelled, a node of it is cancelled, and each of its nodes is cancelled,
-- has succeeded or was skipped.
pub terminal_event-cancelled :
    (db : Db) (run_id version : String)
    → terminal_event db run_id version ≡ some EventType.run_cancelled
    → SomeNode is_cancelled db run_id × AllNodes (λ s. is_cancelled s || is_done s) db run_id
unfolding terminal_event
terminal_event-cancelled db run_id version h =
    let counted : (p : NodeStatus → Bool)
        → (tally p db run_id ≡ 0) ↔ AllNodes (λ s. not (p s)) db run_id =
      λ p. none_counted (λ n. str_eq n.run_id run_id) (λ n. p n.status) db.nodes in
    (
      λ all. ground (arith, (counted is_cancelled).1 all),
      rest_class-All run_id db.nodes ((counted is_failed).0 (ground arith))
          ((counted is_active).0 (ground arith)),
    )
