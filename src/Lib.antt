-- ===== src/Lib.antt =====
-- A model of proceed, a durable workflow engine: a graph of nodes is run, every change is an event
-- in an append-only log, and the tables that the controller reads are projections of the log.
--
-- The parts, and the files that model them:
-- - internal/store/schema.go: the rows of the tables (Store/Types) and, where a statement inserts a
--   row, the CHECKs, keys and references that the schema puts on it (in the file of the statement).
--   A table is a list of rows in insertion order; a transaction is a function from the tables to
--   a result, and an error undoes it, since the result then holds no tables.
-- - internal/store/event.go: Append, AppendTx and appendEventTx are `append`, `append_tx` and
--   `append_event_tx` of Store/Log; Store/Log/Order has the order of the log.
-- - internal/store/projection.go: the payloads (Store/Payload), what the handlers share (Store/Sql,
--   Store/Nodes), a handler for each type of event (onNodeStarted is `on_node_started`, and so on:
--   Store/Started, Store/Ended, Store/Moved, Store/Runs, Store/Evidence, Store/Waits), the dispatch
--   applyProjections (Store/Projection), and the rebuilding of the tables (Store/Replay, with the
--   check of the references at its commit in Store/References).
--   The specification of the handlers is the state machine of a node's status, `next_status` of
--   Store/StatusMachine; Store/Frame has what each operation leaves alone, Store/Conformance and
--   Store/Named that the handlers follow the machine.
-- - internal/controller/controller.go: the lease of the one controller of a store
--   (Controller/Lease). internal/controller/engine.go: eligibleNodes (Controller/Readiness), and the
--   transactions of claimNonExecutable and beginClaimedAttempt (Controller/Claims).
--   internal/controller/reconciler.go: tryCompleteRun (Controller/Completion).
--   internal/controller/cancel.go: CancelRun and AbandonRun (Controller/Cancel).
-- - The writes of the controller are chains of statements on a transaction, with the clock, the new
--   identifiers and the printers of payloads as arguments (Controller/Writer). On them stand
--   routeFromTx of internal/controller/outcomes.go with recordRoutingDecision and
--   recordEligibilityDecisions of internal/controller/decisions.go (Controller/Routing);
--   commitNodeSuccess, recordAttemptFailure and what is around them in outcomes.go, with retryPolicy
--   of engine.go (Controller/Outcomes); executeNode of engine.go from the executor's answer on
--   (Controller/Execution); RegisterApprovalGate, DecideApproval and ExpireApprovals of
--   internal/controller/approval.go (Controller/Approvals, with a test of its texts in
--   Controller/Text); and internal/controller/recover.go with recordReconciledEffect of
--   internal/controller/effects.go (Controller/Recovery).
-- - CreateRun and startRunTx of projection.go (Store/Start); internal/store/schedule.go
--   (Store/Schedules, and Store/Schedules/Fire for FireDueSchedules and what it calls), with the
--   search for the next tick as a parameter, as in the code; internal/controller/cron.go is that
--   search and the parsing of expressions (Controller/Cron), with the calendar of the package time as
--   a parameter.
-- Base has what all share: texts and numbers, errors as values, statements on tables. Samples has a
-- small run at which the theorems are used.
--
-- The controller reads the projections, decides, and appends an event by AppendTx inside a
-- transaction; appending applies the event's projection in the same transaction. So the theorems on
-- projections speak of every change of the tables that they cover.
--
-- Conventions. An int64 is a natural number: every test of the code treats a negative value as it
-- does 0 but nullableInt, which stores it, so that negative values are not modelled; neither is the
-- wrap-around at 2^63 but for the counter of a cron field's loop. Times are
-- milliseconds. The readings of the clock and new ULIDs are arguments. encoding/json and
-- crypto/sha256 are the parameter `Codec`, of which nothing is assumed but where a theorem says
-- that a payload is read back as it was printed. The text of an error is left out and its class is
-- kept. Recursion is on the rows or events at hand, with three exceptions: the loop over the ticks
-- to skip has `now + 1` as fuel, enough where each tick is later than the one before, and the
-- search for a tick has the bound of the code. The loop over the numbers of a cron field's element
-- has as many turns as the element has numbers, enough since each step is 1 at least.
--
-- A writer is a record of the printers and of the times and identifiers it stamps events with; the
-- printers are parameters as the codec is. A function that commits more than one transaction is a
-- `Progress`: the tables after the last one that committed, and the error that ended it, if one
-- did. What an executor answers, and what it says of an effect after a restart, are arguments. The
-- transactions of such a function follow one another: what other goroutines or requests commit
-- between them is not modelled.
--
-- Not modelled: the digests that RebuildProjections reports; the preparation of an executor's
-- request and the goroutine, timer and contexts it runs under; deliveries to external waits; the
-- binding of parameters; the compiler of definitions and their import; capability profiles; the
-- executors; garbage collection and backup; and what only reads or prints (queries, the HTTP API,
-- the command line).
pub mod Base
pub mod Store
pub mod Controller
pub mod Samples
