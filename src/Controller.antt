-- ===== src/Controller.antt =====
-- The controller (internal/controller): its lease, the nodes that may run, their claims, outcomes and
-- routes, approvals, cancellation and recovery, the completion of runs, and the search for a tick.
pub mod Lease
pub mod Readiness
pub mod Completion
pub mod Cron
pub mod Claims
pub mod Cancel
pub mod Writer
pub mod Routing
pub mod Outcomes
pub mod Approvals
pub mod Text
pub mod Recovery
pub mod Execution
