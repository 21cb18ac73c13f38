-- ===== src/Lib.antt =====
-- Verification library of minimax-proxy: a proxy that queues video tasks, hands them to upstream nodes
-- of several protocols, and tells clients of their progress. Its core is the SQLite store
-- (internal/store/sqlite): every state change of a task is one transaction there, and the workers,
-- the schedulers and the HTTP API are clients of it.
--
-- The parts, and the files that model them:
--  * Base: Boolean tests, SQL statements as functions on lists of rows, and operations that take a
--    database and give a database with a result or an error.
--  * Domain.Status, Domain.Capability: internal/domain/task.go, task_routing.go and model_routing.go,
--    and the SQL expression of internal/store/sqlite/task_status.go. The Go constants are the
--    constructors of data types; the methods keep their names in snake case.
--  * Domain.Request: internal/domain/generation_request.go, what a client asks for.
--  * Protocol.Media, Protocol.H3, Protocol.Tk2sd, Protocol.Normalize: internal/protocol, the requests that
--    each protocol takes and what its normaliser makes of them. `url.Parse` and the strict Base64 decoder
--    of Go's library are parameters, the record Decoders; Base.Texts has the functions of the packages
--    strings and unicode.
--  * Routing: internal/routing/service.go, the choice of a protocol and a node for a request.
--  * Store.Tables, Store.Db: the rows, with a nullable column as an Option, and the database as a record
--    of tables. `immediate` is a transaction that an error rolls back. `commits` is one of an operation
--    whose returned error does not reach its deferred `completeTransaction`: MarkSucceeded, MarkFailed,
--    FinishCancelled and BindStageExecution declare no named result, so their transactions commit.
--  * Store.Queue: `rebalance` of store.go. Queue.Ranks and Queue.Fifo describe it as one pass.
--  * Store.Callbacks: callback_store.go. Store.Callbacks.History has sequences of its calls.
--  * Store.Eligible: nextEligibleTask and taskEligibleForNode of task_routing_store.go, and catalogWith
--    of model_catalog_store.go. The loop over pages runs on fuel, one round for each row and one more;
--    that is enough since every full page moves behind its last row (Eligible.Paging).
--  * Store.Routes, Store.NewTasks, Store.Details, Store.Create: prepareTaskRouting of
--    task_routing_store.go, and Create of store.go with the rows that it inserts, the input files of
--    input_spool_store.go among them. Create.Frame says what a Create that inserts a task went through.
--  * Store.Claim: ClaimNext of store.go and ClaimNextOfficial of official_task_store.go.
--  * Store.Tasks, Store.Tasks.Official: the operations of store.go and of official_task_store.go on a
--    task that an upstream works on.
--  * Store.Barriers, Store.Cancel: dispatch_barrier.go, and the cancellation by an administrator in
--    store.go and remote_task_store.go.
--  * Store.Remote, Remote.Claim, Remote.Complete: the leases and phases of a run in remote_task_store.go,
--    its start and its end; Remote.History has sequences of calls.
--  * Store.Queries: queries of several stores, and CreateTaskCallbackDelivery.
--  * Store.Stages, Store.Stages.Complete, Store.Stages.Attempts: stage_store.go, for the stages of a task
--    on an h3-node-v1 node.
--  * Store.Evolution: the state machine of a task as a relation of two tables, and rules to show that an
--    operation obeys it; its children do so for the operations, one by one and in sequences.
--  * Store.Uploads, Store.Uploads.Ends: the upload jobs of result_delivery_store.go; Uploads.History and
--    Uploads.Budget have sequences of their calls.
--  * ResultDelivery: internal/resultdelivery/worker.go over Store.Uploads. What the secrets, the object
--    storage, the temporary files and the download answer is a parameter, the record Outside.
--  * Callback: internal/callback/worker.go and service.go, over Store.Callbacks.
--  * Scheduler: internal/scheduler/scheduler.go, the loop of one slot; what the context, the checks, the
--    processor and the timer answer in an iteration is a parameter of it.
--  * Tests: sample rows, and the theorems at these.
--
-- The clock, fresh identifiers, the JSON text of an event and the SHA-256 of a body come in with each
-- operation (the record Env); what an HTTP receiver answers is a parameter of the worker. Numbers are
-- natural numbers: counts, times and versions of the program are never negative. Statements on one row
-- see the table's keys only where a theorem says so; the task table stands in the order of its key
-- queue_seq. Failures of SQLite itself, foreign keys of rows that are never deleted, and the columns
-- that no modelled operation reads are left out, as are the workers' goroutines, the HTTP API, the
-- clients of the nodes, the configuration of the object storage and the deletion of tasks.
pub mod Base
pub mod Domain
pub mod Callback
pub mod ResultDelivery
pub mod Protocol
pub mod Routing
pub mod Scheduler
pub mod Store
pub mod Tests
