-- ===== src/Store/Replay/Final.antt =====
-- What replayed events keep, and what a rebuild reads (internal/store/projection.go).
use proceed.Base.{
  true, List, [], ◌∷◌, ◌≡◌, ◌≢◌, ◌⊎◌, inl, refl, sym, ok, >>=-eq-ok, ◌>>◌, require, foreign_key,
  Evolves, Evolves-trans, Evolves-map, Evolves-refl, subst, arith,
}
use proceed.Store.Types.{Event, EventType, Db, RunNode, NodeStatus}
use proceed.Store.Payload.{Codec}
use proceed.Store.References.{Referrers, references_hold}
use proceed.Store.Projection.{apply_projections}
use proceed.Store.Frame.{Fixed, Fixed-refl, Fixed-trans}
use proceed.Store.StatusMachine.{next_status, Follows}
use proceed.Store.Replay.{replay, wipe, in_order, rebuild}
use proceed.Store.Replay.Machine.{apply_projections-Moves}

-- no event of the list starts a node
abbrev pub HasNoStart : List Event → Type 0
HasNoStart [] = Unit
HasNoStart (ev ∷ evs) = (ev.type ≢ EventType.node_started) × HasNoStart evs

-- tables with the same log and definitions
pub record SharesLog (db other : Db) : Type 0 where
  pub versions : other.versions ≡ db.versions
  pub graph_nodes : other.graph_nodes ≡ db.graph_nodes
  pub graph_edges : other.graph_edges ≡ db.graph_edges
  pub events : other.events ≡ db.events
  pub defer_fks : other.defer_fks ≡ db.defer_fks

-- a cancelled row stays cancelled, and a row whose cancelling was requested stays so or is cancelled
pub record Final (x y : RunNode) : Type 0 where
  pub node_key : y.node_key ≡ x.node_key
  pub cancelled : x.status ≡ NodeStatus.cancelled → y.status ≡ NodeStatus.cancelled
  pub requested :
      x.status ≡ NodeStatus.cancel_requested
      → (y.status ≡ NodeStatus.cancel_requested) ⊎ (y.status ≡ NodeStatus.cancelled)

Final-trans : (x y z : RunNode) → Final x y → Final y z → Final x z
Final-trans x y z f g =
    ground (arith, f.node_key, g.node_key, f.cancelled, g.cancelled, f.requested, g.requested)

Final-refl : (x : RunNode) → Final x x
Final-refl x = record { node_key = refl; cancelled = λ h. h; requested = inl }

next_status-cancelled :
    (t : EventType)
    → t ≢ EventType.node_started
    → next_status t NodeStatus.cancelled ≡ NodeStatus.cancelled
unfolding next_status
next_status-cancelled t h = ground arith

next_status-requested :
    (t : EventType)
    → t ≢ EventType.node_started
    → (next_status t NodeStatus.cancel_requested ≡ NodeStatus.cancel_requested)
      ⊎ (next_status t NodeStatus.cancel_requested ≡ NodeStatus.cancelled)
unfolding next_status
next_status-requested t h = ground arith

Final-Follows :
    (t : EventType) → t ≢ EventType.node_started → (x y : RunNode) → Follows t x y → Final x y
Final-Follows t h x y f = record {
  node_key = f.node_key;
  cancelled = λ e. ground (arith, next_status-cancelled t h, f.status);
  requested = λ e. ground (arith, next_status-requested t h, f.status);
}

module _ (c : Codec) where
  -- Whatever events are applied, a node_started apart, a node that is cancelled stays cancelled
  -- and one whose cancelling was requested is not moved but to cancelled, also by a result that
  -- arrives late.
  pub replay-Final :
      (evs : List Event) (db d : Db)
      → HasNoStart evs
      → replay c db evs ≡ ok d
      → Evolves Final db.nodes d.nodes
  unfolding replay
  replay-Final [] db d none h =
      let same : d ≡ db = ground arith in
      subst (λ e. Evolves Final db.nodes e.nodes) (sym same)
        (Evolves-refl Final Final-refl db.nodes)
  replay-Final (ev ∷ evs) db d none h =
      let (m, first, rest) = >>=-eq-ok (apply_projections c db ev) (λ db'. replay c db' evs) h in
      Evolves-trans Final Final Final Final-trans db.nodes m.nodes d.nodes
        (Evolves-map (Follows ev.type) Final (Final-Follows ev.type none.0) db.nodes m.nodes
          (apply_projections-Moves c db ev first).nodes)
        (replay-Final evs m d none.1 rest)

  pub replay-Fixed : (evs : List Event) (db d : Db) → replay c db evs ≡ ok d → Fixed db d
  unfolding replay
  replay-Fixed [] db d h =
      let same : d ≡ db = ground arith in subst (Fixed db) (sym same) (Fixed-refl db)
  replay-Fixed (ev ∷ evs) db d h =
      let (m, first, rest) = >>=-eq-ok (apply_projections c db ev) (λ db'. replay c db' evs) h in
      Fixed-trans (apply_projections-Moves c db ev first).fixed (replay-Fixed evs m d rest)

  -- what a rebuild starts from is made of the log and the graph definitions
  start-eq :
      (db d : Db)
      → d.versions ≡ db.versions
      → d.graph_nodes ≡ db.graph_nodes
      → d.graph_edges ≡ db.graph_edges
      → d.events ≡ db.events
      → wipe (record d { defer_fks = true }) ≡ wipe (record db { defer_fks = true })
  unfolding wipe
  start-eq db d v n e l = ground arith

  -- a rebuild leaves the log, the definitions and the pragma
  pub rebuild-Fixed : (refs : Referrers) (db d : Db) → rebuild c refs db ≡ ok d → Fixed db d
  unfolding rebuild wipe
  rebuild-Fixed refs db d h =
      let (m, run, end) =
        >>=-eq-ok (replay c (wipe (record db { defer_fks = true })) (in_order db.events))
          (λ e.
            require (references_hold refs e) foreign_key
            >> ok (record e { defer_fks = db.defer_fks }))
          h in
      ground
        (arith, replay-Fixed (in_order db.events) (wipe (record db { defer_fks = true })) m run)

  -- If a rebuild succeeds, its references holding at the commit, then a rebuild of any tables with the
  -- same log and graph definitions, whatever their projections are, and with the same rows in the
  -- tables that it does not touch, succeeds with the same tables; so does a second rebuild of the
  -- tables that the first one left.
  pub rebuild-rebuild :
      (refs : Referrers) (db other d : Db)
      → SharesLog db other
      → rebuild c refs db ≡ ok d
      → (rebuild c refs other ≡ ok d) × (rebuild c refs d ≡ ok d)
  unfolding rebuild
  rebuild-rebuild refs db other d shares h =
      let fixed = rebuild-Fixed refs db d h in
      let start = start-eq db d fixed.versions fixed.graph_nodes fixed.graph_edges fixed.events in
      let begun =
        start-eq db other shares.versions shares.graph_nodes shares.graph_edges shares.events in
      (
        ground (arith, h, begun, shares.events, shares.defer_fks),
        ground (arith, h, start, fixed.events, fixed.defer_fks),
      )
