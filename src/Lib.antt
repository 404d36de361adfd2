-- ===== src/Lib.antt =====
-- AgentKnot: a control plane that delegates work to agents. Jobs, orchestrations and the evidence on
-- them (WorkOrders, Candidates, Reviews, Dispositions) are records in SQLite databases, one for each
-- kind; Jobs run under leases and a durable capacity limit; controllers follow them by their events.
--
-- Store, with the modules below it, is src/durable-record-store.ts.
--   Store.Types: the record types, the errors, the checks on arguments, `#materialize` and its checks,
--     with materializePersistedRecord of src/record-version.ts and serializeBoundedRecord of
--     src/record-limits.ts.
--   Store.Sql: the tables of `open` and its prepared statements.
--   Store.Records: `create`, `save`, `bindExecutorJob`, `get`, `eventsAfter`, `requestCancellation`.
--   Store.Leases: `claimLease`, `renewLease`, `releaseLease`, `getLease`.
--   Store.Capacity: `tryAcquireCapacity`, `releaseCapacity`.
--   Store.Admission: `admit`, `findIdempotent`.
--   Store.RoutePool: `admitRoutePool`.
--   Store.Steps: histories. One step is one call of any store object on one database: SQLite runs each
--     call as one transaction, so calls of several processes are a sequence of steps.
--   The other modules of Store are proofs; Store.Scenario, Store.Replay and Store.Examples are concrete
--   calls.
--
-- Subscription is `subscribe` of src/durable-subscription.ts, run on the store: one round of its loop
-- after another, each with the database as its two reads find it. What wakes the loop is not modelled,
-- since it decides only when the next round comes. An aborted signal ends a subscription with the error
-- that it throws, after the events that it has sent.
--
-- Delegation is `composeDelegationPlan` of src/delegation-policy.ts: Delegation.Types has the types of
-- src/orchestration-types.ts and src/config.ts that it reads, Delegation.Prompt the text for a worker,
-- Delegation.Plan the policy. The validation of an assessment that arrives as JSON is not modelled.
--
-- Activity is `projectJobActivity` of src/job-activity.ts, over the events of a Job. It cuts texts, so
-- its texts are UTF-16 code units.
--
-- Semaphore is src/semaphore.ts. Its promises and callbacks are events on one state, and the identity of
-- a call stands for its waiter and its release handle.
--
-- Listing is `buildJobList` of src/job-list.ts, and Output `readJobOutputRecord` of src/job-output.ts,
-- over the bytes of an output in UTF-8.
--
-- Execution is the execution of one Job in src/orchestrator.ts: Execution.Log has `#appendEvent`,
-- `#notifyObserver` and `#emit`, Execution.Attempts one attempt of `#execute`, Execution.Rounds the rest
-- of `#execute` and the error handler of `#activate`. A step that throws keeps what it has done to the
-- Job object in memory. The answers of the store, the clock, the observer, whether the data of an event
-- is over its limit as JSON text, and what a worker does in an attempt are given. Data over the limit is
-- replaced, which matters for the events of controls, whose data alone is modelled. Execution.EmitRule and Execution.Rule say which predicates an execution keeps, and
-- Execution.Triples what a step returns and throws. Not modelled of it: the reading of
-- artifacts by a worker, the callback after it and the release of the route.
--
-- Execution.Recovery is `#recoverInterruptedJob` of src/orchestrator.ts with `#settleRecoveredJob` and
-- `#deliverCallback`: what it finds (the lease, the stored Job, a cancellation, the adapter and the
-- snapshot) is given, and its steps run on the same log. Execution.Restarts is how recoveries and the
-- executions that they activate follow each other over one stored Job, where a process that stops is one
-- whose saves fail from some call on; Execution.RecoveryOutcome runs a recovery with its execution.
--
-- Execution.Channel is src/worker-control.ts, and Execution.Control, Execution.ControlReceipts and
-- Execution.ControlLoss are the worker controls of src/orchestrator.ts (`control`, `#deliverControl`,
-- `#settleUntrackedControl`, `#markPendingControlsLost`) on the same log. What a handler is given is
-- kept beside the Job. The calls on one attempt follow each other, as `controlTail` makes them, and a
-- call that joins one in flight is no step of its own.
--
-- Coordinator is src/durable-execution.ts on the durable record store: Coordinator.Operations has the
-- constructor, `admit`, `admitRoutePool`, `save`, `claim`, one beat of `monitor` and `release`,
-- Coordinator.Waiting `waitForCapacity`, one round of its loop after another, each with the database as
-- it finds it. A coordinator is its options and its map of leases. A store without leases and the
-- capacity that one process keeps for itself are left out.
--
-- Usage.Evidence is src/worker-usage.ts over JSON values (Common.Values), and Usage.Downstream the
-- downstream usage of src/usage-report.ts, where the addition of costs in floating point is a
-- parameter. Route selections, route pools and quality reviews of that file are not modelled.
--
-- Ledger is the services on WorkOrders, Candidates, Reviews and Dispositions: Ledger.Requests has the
-- requests of src/work-order.ts, src/candidate.ts, src/review.ts and src/disposition.ts with their
-- validation, Ledger.Entries the records over the durable record store, Ledger.Services `issue`,
-- `bindExecutorJob`, the two `create` and `record`. A service reads the stores of the others one call at
-- a time, and here all of its calls are one step: no call of the services changes what another has
-- checked, since records of these kinds are never deleted and a binding never changes. Ledger.Steps is
-- runs of the services. Ledger.Bodies has formats in which bodies are read back, for the concrete calls.
--
-- A call is a function of the database that returns its value with the new database, or the error
-- that it throws; the transaction of a call that throws is rolled back, so an error carries no
-- database. A table is an association list under its primary key. The clock is an argument, and times
-- are milliseconds. Common has the functions on lists, results, tables and texts.
--
-- Parameters, for code that is not in the repository: `record_bytes` of a store is the length of a
-- record's JSON text in UTF-8, `reference_json` and `plan_sha256` of Delegation.Types.Encoding are the
-- JSON text of a context reference and the hash of a plan, and Listing.Page.Json is the length of the
-- JSON text of a page. Formats of Ledger.Services has the JSON text of the bodies of records, the
-- artifacts in the body of a Job, `path.resolve` and the SHA-256 digest that names a disposition. JSON
-- that was written is read back unchanged. What the store does not look at in a record is one field
-- `body`. Texts are sequences of code points: lone surrogates are not modelled.
--
-- Every loop is structural recursion on its list; `select_from` counts the rounds that are left and
-- gets as many as there are candidates, `decimal` gets one round more than its number, and
-- `run_attempts` gets as many as there are attempts left.
--
-- Not modelled, for their size: the rest of the orchestrator, the orchestrations that drive these parts,
-- configuration and metadata. Not modelled, since they are process, file or network I/O: workers,
-- workspaces, brokers, HTTP, MCP and the command line.
pub mod Common
pub mod Store
pub mod Delegation
pub mod Activity
pub mod Subscription
pub mod Semaphore
pub mod Ledger
pub mod Listing
pub mod Output
pub mod Execution
pub mod Coordinator
pub mod Usage
