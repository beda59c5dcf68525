-- ===== src/Store.antt =====
-- The event store (internal/store): the tables, the append-only event log and the projections
-- that every appended event drives.
pub mod Types
pub mod Payload
pub mod Sql
pub mod Nodes
pub mod Started
pub mod Ended
pub mod Moved
pub mod Runs
pub mod Evidence
pub mod Waits
pub mod Projection
pub mod Log
pub mod Start
pub mod Schedules
pub mod Frame
pub mod StatusMachine
pub mod Conformance
pub mod References
pub mod Replay
pub mod Named
