-- ===== src/Controller/Writer.antt =====
-- What a transaction of the controller appends with: appendWithin (internal/controller/controller.go),
-- the payloads that payloadJSON prints, and a chain of transactions of which one may fail
-- (internal/controller/outcomes.go, internal/controller/decisions.go). `print` stands for
-- encoding/json on the maps that the controller makes. The i-th event appended takes its id and
-- key, two new ULIDs, from `stamps i`.
pub mod Applied
pub mod Finishes
use proceed.Base.{ℕ, ◌+◌, String, Option, none, some, List, Error, Result, ok, err, ◌>>=◌}
use proceed.Store.Types.{Db, Event, EventType}
use proceed.Store.Payload.{Codec, ArtifactPublishedPayload, DecisionRecordedPayload}
use proceed.Store.Log.{append_tx}
use proceed.Controller.Completion.{controller_event}
use proceed.Controller.Cancel.{Stamp}

-- the maps of a predicate snapshot
pub data Snapshot : Type 0 where
  unmatched : String → Snapshot
  matched : String → String → Snapshot
  eligibility : ℕ → String → Snapshot

-- The texts of the payloads: of a node's end (key, attempt, output, route), of an edge without and
-- with its route, of an artifact, of a decision with its snapshot, of an error (key, attempt,
-- error), of a failed attempt (key, attempt, delay, error), of an uncertain end (key, attempt,
-- reason), of a refusal (key, attempt, executor, contract, operation, error) and of a receipt
-- (effect, status). `node_key_of` is json_extract(payload, '$.node_key').
pub record Printer : Type 0 where
  pub result : String → ℕ → String → String → String
  pub passed : String → String
  pub routed : String → String → String
  pub artifact : ArtifactPublishedPayload → String
  pub decision : DecisionRecordedPayload → String
  pub snapshot : Snapshot → String
  pub failure : String → ℕ → String → String
  pub retry : String → ℕ → ℕ → String → String
  pub doubt : String → ℕ → String → String
  pub rejection : String → ℕ → String → String → String → String → String
  pub receipt : String → String → String
  pub node_key_of : String → Option String

-- `at` is the reading of the clock that the events carry, `now` the one at the append.
pub record Writer : Type 0 where
  pub codec : Codec
  pub print : Printer
  pub at : ℕ
  pub now : ℕ
  pub stamps : ℕ → Stamp
  pub owner : String
  pub run_id : String

-- the tables, and how many stamps are used up
pub record Tx : Type 0 where
  pub db : Db
  pub drawn : ℕ

-- the id that the next event takes
abbrev pub next_id : Writer → Tx → String
next_id w t = (w.stamps t.drawn).id

-- the fields that the events of the controller share
abbrev pub event_of : Writer → Tx → EventType → String → Event
event_of w t type payload =
    record (controller_event (next_id w t) (w.stamps t.drawn).key w.owner w.at type w.run_id) {
      payload = payload;
    }

-- appendWithin
unfoldable pub append_within : Writer → Tx → Event → Result Tx
append_within w t ev = append_tx w.codec w.now (next_id w t) t.db ev >>= λ (stored, db).
    ok (record { db = db; drawn = t.drawn + 1 })

-- an event that is recorded when it is appended
unfoldable pub note : Writer → Tx → EventType → String → Result Tx
note w t type payload = append_within w t (event_of w t type payload)

-- an event that carries the time of its record and an operation's key
unfoldable pub note_at : Writer → Tx → EventType → String → String → Result Tx
note_at w t type op_key payload =
    append_within w t
      (record (event_of w t type payload) { recorded_at = w.at; correlation_id = op_key })

-- what is committed by a chain of transactions, and the error that ended it, if one did
pub record Progress : Type 0 where
  pub committed : Tx
  pub failure : Option Error

-- one transaction: an error rolls it back
abbrev pub transact : Tx → Result Tx → Progress
transact t (ok t') = record { committed = t'; failure = none }
transact t (err e) = record { committed = t; failure = some e }

-- the next transaction, where none has failed yet
abbrev pub and_then : Progress → (Tx → Result Tx) → Progress
and_then p next = elim p.failure [ none ↦ transact p.committed (next p.committed) | some e ↦ p ]

-- the steps that follow, where none has failed yet
abbrev pub continue : Progress → (Tx → Progress) → Progress
continue p next = elim p.failure [ none ↦ next p.committed | some e ↦ p ]

-- a read between transactions, which may fail
abbrev pub read_then {ℓ} : {A : Type ℓ} → Tx → Result A → (A → Progress) → Progress
read_then t (ok a) next = next a
read_then t (err e) next = record { committed = t; failure = some e }
