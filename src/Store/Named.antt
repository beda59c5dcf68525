-- ===== src/Store/Named.antt =====
-- What a node event does to the node that it names (internal/store/projection.go): the node's row
-- is there afterwards, with the status that the state machine gives.
pub mod Events
use proceed.Base.{
  ℕ, ◌≤◌, String, Bool, true, false, not, ◌&&◌, ◌||◌, Option, none, some, List, [], ◌∷◌, ◌++◌, ◌≡◌,
  ◌⊎◌, inl, inr, refl, sym, subst, ap, ◌∙◌, Result, Result-cases, ok, err, ◌>>=◌, >>=-eq-ok,
  if◌then◌else◌, str_eq, str_eq_iff, str_eq_refl, find_where, update_where, any_where, Ensures,
  holds, Ensures-at, Ensures-bind, Ensures-intro, Ensures-if, Ensures-require, Option-cases,
  Bool-cases, arith,
}
use mathlib.Core.Option
use proceed.Store.Types.{Event, EventType, Db, RunNode, NodeStatus}
use proceed.Store.Payload.{Codec, NodeTerminalPayload, NodeStartedPayload, NodeRequeuedPayload}
use proceed.Store.Sql.{decode_payload}
use proceed.Store.Nodes.{
  is_node_of, run_node_id, insert_node, ensure_run_node, pending_node, update_nodes, is_cancelling,
  is_closed, is_executing, is_uncancelled, is_unclosed, set_status, finish_node,
}
use proceed.Store.Frame.{Keeps}
use proceed.Store.StatusMachine.{next_status}

-- SELECT … FROM run_node WHERE run_id = ? AND node_key = ?
unfoldable pub node_at : Db → String → String → Option RunNode
node_at db run_id key = find_where (is_node_of run_id key) db.nodes

module _ {ℓ} {A : Type ℓ} where
  -- a row that is looked up by what an UPDATE leaves alone is found updated
  pub find_where-update_where :
      (q p : A → Bool) (f : A → A)
      → ((x : A) → q (f x) ≡ q x)
      → (xs : List A) {x : A} → find_where q xs ≡ some x
      → find_where q (update_where p f xs) ≡ some (if p x then f x else x)
  unfolding find_where update_where
  find_where-update_where q p f same [] h = ground arith
  find_where-update_where q p f same (y ∷ ys) {x} h =
      ground (arith, same y, find_where-update_where q p f same ys {x = x})

  pub find_where-append_one :
      (q : A → Bool) (xs : List A) (y : A)
      → find_where q xs ≡ none
      → q y ≡ true
      → find_where q (xs ++ (y ∷ [])) ≡ some y
  unfolding find_where
  find_where-append_one q [] y h e = ground arith
  find_where-append_one q (x ∷ xs) y h e = ground (arith, find_where-append_one q xs y)

  pub find_where-any_where :
      (q : A → Bool) (xs : List A) → any_where q xs ≡ true → (x : A) × (find_where q xs ≡ some x)
  unfolding find_where any_where
  find_where-any_where q [] h = absurd (ground arith)
  find_where-any_where q (x ∷ xs) h = elim (Bool-cases (q x)) [
    | inl e ↦ (x, ground arith)
    | inr e ↦ let (y, found) = find_where-any_where q xs (ground arith) in (y, ground arith)
  ]

module _ {ℓ} {A : Type ℓ} where
  pub find_where-holds :
      (q : A → Bool) (xs : List A) {x : A} → find_where q xs ≡ some x → q x ≡ true
  unfolding find_where
  find_where-holds q [] h = absurd (cc h)
  find_where-holds q (y ∷ ys) {x} h = ground (arith, find_where-holds q ys {x = x})

  pub find_where-none :
      (q : A → Bool) (xs : List A) → any_where q xs ≡ false → find_where q xs ≡ none
  unfolding find_where any_where
  find_where-none q [] h = refl
  find_where-none q (y ∷ ys) h = ground (arith, find_where-none q ys)

-- the status that the event finds: that of the node's row, or that of the row that is made
abbrev pub status_before : Option RunNode → NodeStatus
status_before none = NodeStatus.pending
status_before (some n) = n.status

-- the node has a row, with this id, and it is the row of before or a pending one
pub record Ensured (db : Db) (run_id key id : String) (m : Db) : Type 0 where
  pub row : RunNode
  pub found : node_at m run_id key ≡ some row
  pub same_id : row.id ≡ id
  pub kept : (n : RunNode) → node_at db run_id key ≡ some n → row ≡ n
  pub status : row.status ≡ status_before (node_at db run_id key)

run_node_id-row :
    (db : Db) (run_id key id : String)
    → run_node_id db run_id key ≡ ok id
    → (row : RunNode) × (node_at db run_id key ≡ some row) × (row.id ≡ id)
unfolding run_node_id node_at
run_node_id-row db run_id key id h =
    elim (Option-cases (find_where (is_node_of run_id key) db.nodes)) [
      | inl e ↦ absurd (ground arith)
      | inr (row, e) ↦ (row, e, ground arith)
    ]

missing-node_at :
    (db : Db) (run_id key : String) {e : _}
    → run_node_id db run_id key ≡ err e
    → node_at db run_id key ≡ none
unfolding run_node_id node_at
missing-node_at db run_id key h = ground arith

pending-node_at :
    (c : Codec) (db m : Db) (run_id key : String)
    → node_at db run_id key ≡ none
    → insert_node db (pending_node c run_id key) ≡ ok m
    → node_at m run_id key ≡ some (pending_node c run_id key)
unfolding node_at insert_node
pending-node_at c db m run_id key h made = ground (
  arith,
  str_eq_refl run_id,
  str_eq_refl key,
  find_where-append_one (is_node_of run_id key) db.nodes (pending_node c run_id key),
)

pub ensure_run_node-Ensured :
    (c : Codec) (db : Db) (run_id key : String)
    → Ensures (λ r. Ensured db run_id key r.0 r.1) (ensure_run_node c db run_id key)
unfolding ensure_run_node
ensure_run_node-Ensured c db run_id key = elim (Result-cases (run_node_id db run_id key)) [
  | inl (id, e) ↦
      let (row, found, same) = run_node_id-row db run_id key id e in
      rw (e, ensure_run_node)
        (holds (record {
          row = row;
          found = found;
          same_id = same;
          kept = λ n h. ground arith;
          status = ground arith;
        }))
  | inr (x, missing) ↦
      rw (missing, ensure_run_node)
        (Ensures-bind (insert_node db (pending_node c run_id key)) _ λ m made.
          Ensures-bind (run_node_id m run_id key) _ λ id e.
            let none_before = missing-node_at db run_id key missing in
            let (row, found, same) = run_node_id-row m run_id key id e in
            holds (record {
              row = row;
              found = found;
              same_id = same;
              kept = λ n h. absurd (ground arith);
              status = ground (arith, pending-node_at c db m run_id key none_before made);
            }))
]

pub found-Ensured :
    (db : Db) (run_id key id : String)
    → run_node_id db run_id key ≡ ok id
    → Ensured db run_id key id db
found-Ensured db run_id key id e =
    let (row, found, same) = run_node_id-row db run_id key id e in
    record {
      row = row;
      found = found;
      same_id = same;
      kept = λ n h. ground arith;
      status = ground arith;
    }

-- the node's row is there with this status
pub record HasStatus (run_id key : String) (s : NodeStatus) (d : Db) : Type 0 where
  pub row : RunNode
  pub found : node_at d run_id key ≡ some row
  pub status : row.status ≡ s

-- the row is found, as an UPDATE leaves it
updated-HasStatus :
    (t : EventType) (m : Db) (run_id key : String) (row : RunNode) (p : RunNode → Bool)
    (f : RunNode → RunNode)
    → node_at m run_id key ≡ some row
    → ((x : RunNode) → is_node_of run_id key (f x) ≡ is_node_of run_id key x)
    → (if p row then f row else row).status ≡ next_status t row.status
    → HasStatus run_id key (next_status t row.status) (update_nodes m p f)
unfolding node_at
updated-HasStatus t m run_id key row p f found keys step = record {
  row = if p row then f row else row;
  found = find_where-update_where (is_node_of run_id key) p f keys m.nodes found;
  status = step;
}

module _ (t : EventType) (c : Codec) (db : Db) (run_id key : String) where
  abbrev pub After : Db → Type 0
  After = HasStatus run_id key (next_status t (status_before (node_at db run_id key)))

  -- an UPDATE after the node's row was ensured
  pub Ensured-After :
      (id : String) (m k : Db) (p : RunNode → Bool) (f : RunNode → RunNode)
      → Ensured db run_id key id m
      → Keeps m k
      → ((x : RunNode) → is_node_of run_id key (f x) ≡ is_node_of run_id key x)
      → ((x : RunNode) → x.id ≡ id → (if p x then f x else x).status ≡ next_status t x.status)
      → After (update_nodes k p f)
  unfolding node_at
  Ensured-After id m k p f e keep keys step =
      subst (λ s. HasStatus run_id key (next_status t s) (update_nodes k p f)) e.status
        (updated-HasStatus t k run_id key e.row p f
          (subst (λ l. find_where (is_node_of run_id key) l ≡ some e.row) (sym keep.nodes) e.found)
          keys (step e.row e.same_id))

  pub ensured-After :
      (p : String → RunNode → Bool) (f : RunNode → RunNode) (g : Db → String → Db)
      → ((m : Db) (id : String) → Keeps m (g m id))
      → ((x : RunNode) → is_node_of run_id key (f x) ≡ is_node_of run_id key x)
      → ((id : String) (x : RunNode)
          → x.id ≡ id
          → (if p id x then f x else x).status ≡ next_status t x.status)
      → Ensures After
          (ensure_run_node c db run_id key >>= λ r. ok (update_nodes (g r.1 r.0) (p r.0) f))
  ensured-After p f g keep keys step = Ensures-bind (ensure_run_node c db run_id key) _ λ r made.
      holds (
        Ensured-After r.0 r.1 (g r.1 r.0) (p r.0) f
          (Ensures-at (ensure_run_node-Ensured c db run_id key) made) (keep r.1 r.0) keys
          (step r.0))
