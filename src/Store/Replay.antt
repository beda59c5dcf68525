-- ===== src/Store/Replay.antt =====
-- The rebuilding of the projections (internal/store/projection.go): wiping the projected tables
-- and applying the log again, in the order of run and sequence.
pub mod Machine
pub mod Final
use proceed.Base.{
  ℕ, String, Bool, true, false, ◌||◌, ◌&&◌, List, [], ◌∷◌, Result, ok, ◌>>=◌, ◌>>◌, require,
  foreign_key, leb, if◌then◌else◌, str_eq, str_le,
}
use proceed.Store.Types.{Event, Db}
use proceed.Store.Payload.{Codec}
use proceed.Store.References.{Referrers, references_hold}
use proceed.Store.Projection.{apply_projections}

-- the loop that applies the rows of the event table
unfoldable pub replay : Codec → Db → List Event → Result Db
replay c db [] = ok db
replay c db (ev ∷ evs) = apply_projections c db ev >>= λ db'. replay c db' evs

-- DELETE FROM each table of wipeOrder
unfoldable pub wipe : Db → Db
wipe db = record db {
  waits = [];
  causal_links = [];
  decisions = [];
  evaluations = [];
  effects = [];
  artifacts = [];
  outcomes = [];
  anchors = [];
  approvals = [];
  attempts = [];
  edges = [];
  nodes = [];
  params = [];
  runs = [];
}

-- ORDER BY run_id, sequence
unfoldable pub is_before : Event → Event → Bool
is_before a b =
    if str_eq a.run_id b.run_id then leb a.sequence b.sequence else str_le a.run_id b.run_id

unfoldable pub insert_ordered : Event → List Event → List Event
insert_ordered ev [] = ev ∷ []
insert_ordered ev (e ∷ es) = if is_before ev e then ev ∷ e ∷ es else e ∷ insert_ordered ev es

unfoldable pub in_order : List Event → List Event
in_order [] = []
in_order (e ∷ es) = insert_ordered e (in_order es)

-- RebuildProjections without its report: `defer_foreign_keys` holds until the transaction ends, which
-- checks the references then. `refs` are those from tables that Db leaves out.
unfoldable pub rebuild : Codec → Referrers → Db → Result Db
rebuild c refs db = replay c (wipe (record db { defer_fks = true })) (in_order db.events) >>= λ d.
    require (references_hold refs d) foreign_key >> ok (record d { defer_fks = db.defer_fks })
