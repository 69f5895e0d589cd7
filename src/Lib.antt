-- ===== src/Lib.antt =====
-- DuraGraph runs graphs of nodes as durable workflows. The development models the domain core of
-- the Go server: the aggregates, which record an event for every change, the engine that executes
-- a graph, the tables of runs, events and task assignments, and the service of the workers.
--
-- Parts and how they meet:
--   Run        internal/domain/run: the run aggregate. `Run.antt` has the record and its methods,
--              `Run.Statuses` the status type and `CanTransitionTo`, `Run.Events` the events,
--              `Run.Replay` `Reconstruct` and `applyEvent`, `Run.Load` `ReconstructFromData`,
--              `Run.Commands` any sequence of the methods.
--   Workflow   internal/domain/workflow/graph.go: the graph aggregate, `validateGraph` and
--              `NewGraph` in `Workflow.antt`, nodes and edges in `Workflow.Nodes`, `Update` in
--              `Workflow.Update`.
--   Execution  internal/domain/execution: the state of an execution, the executors of the node
--              types in `Execution.Executors`, the comparison of interface values in
--              `Execution.Compare`, `Clone` in `Execution.Clones`.
--   Engine     internal/infrastructure/graph/engine.go: `buildExecutionPlan` and `getNextNodes` in
--              `Engine.antt`, one round of `executePlan` in `Engine.Machine`, `Execute` and the
--              subgraphs in `Engine.Execute`. The engine reads a graph of Workflow and keeps a
--              state of Execution; a subgraph node calls it again.
--   Tenant     internal/domain/tenant: the tenant aggregate, `dbname.go` in `Tenant.Name`.
--   User       internal/domain/user: the user aggregate, with the registrations.
--   Worker     internal/domain/worker/worker.go: the registry of workers and the selection of one.
--   Persistence  internal/infrastructure/persistence/postgres/run_repository.go and event_store.go:
--              the rows of runs, the event streams with their trigger, the events and the outbox
--              rows, each method as one transaction; clients with copies of a run in
--              `Persistence.Sessions`. A row is a `RunData` of `Run.Load`.
--   Task       internal/infrastructure/persistence/postgres/task_assignment_repository.go: the
--              table of task assignments, each statement as one step; a history of statements in
--              `Task.Claims`.
--   Service    internal/application/service/worker_service.go: `UpdateRunStatus`, `PollTasks` and
--              `MonitorExpiredLeases`, which call the run aggregate and both tables; in
--              `Service.Multitask` the strategies for concurrent runs of
--              internal/application/service/run_service.go, in `Service.Dispatch` `DispatchRun`, in
--              `Service.Execute` `ExecuteRun` and `ResumeRun`, which call the engine, the runs, the
--              tasks and the interrupts, and in `Service.Execute.Resume` `ResumeRunWithInput`.
--   Interrupt  internal/domain/humanloop: the interrupt aggregate, and the table of internal/
--              infrastructure/persistence/postgres/interrupt_repository.go; in
--              `Interrupt.Submission` the handler of internal/application/command/
--              submit_tool_outputs.go, which resolves an interrupt and resumes its run.
--   Outbox     internal/infrastructure/persistence/postgres/outbox.go and internal/infrastructure/
--              messaging/outbox_relay.go: the table of events to publish, and one round of the
--              relay, `processOutbox`.
--   Admission  internal/application/command: the commands of an administrator, which approve, reject,
--              suspend and resume a user and provision the tenant; the repositories of
--              internal/infrastructure/persistence/postgres/user_repository.go and
--              tenant_repository.go in `Admission.Users` and `Admission.Tenants`, where a save may
--              fail. They call the methods of User and Tenant.
--   Base       what all share; `Base.Errors` is internal/pkg/errors/errors.go.
--
-- How the code is written down. A method that changes its receiver returns the new record, with
-- the error as an option. `time.Now()` and a new UUID are arguments. A time is a natural number,
-- and 0 is the zero time. A Go `int` counter is its 64-bit pattern, and `Base.inc_int` wraps. A Go
-- map is an association list in the order in which a `range` visits it, and a map that may be nil
-- is an option. A string type with constants is a data type with a constructor for each constant
-- and `other` for every other text. A `float64` is its 64-bit pattern. Comparing two interface
-- values is a Boolean, or no value where Go panics. An unknown node type runs as a start node.
-- What a transaction hands to the database is stored as it is: the losses of JSON and of the
-- precision of a time are left out, a 32-bit column is a number without a bound, and the time of
-- the last update of a run, which a trigger sets, is the one that the run has. `UpdateRunStatus`
-- is one step, but `apply_report`, which is what it does with the copy it has loaded, takes any
-- copy. The registry of workers is a list in an order that one `range` may visit.
--
-- Bounds. The loop of `executePlan` is on fuel `enough plan`: 100 rounds for each id that can come
-- into the queue, and one, since a round counts a visit and the 101st visit of an id is an error.
-- `Execute` is on fuel for the depth of nested subgraphs, one for each level; the result
-- `out_of_fuel` is no result of the code, and `ExecuteRun` is shown not to meet it when the fuel
-- `Services.depth` exceeds the nesting. The version of a run is a 64-bit `int` in memory and a
-- number without a bound in the row; statements that need it assume that it stays below 2^64.
--
-- Parameters: the UUID parser (`Tenant.Name`), the bcrypt comparison (`User.verify_password`), the
-- graph repository and the context (`Engine.Execute.Env`), the commands of a history, the NATS
-- publisher (`Outbox.process`), the texts of errors and values and the lookups of assistants,
-- graphs and workers (`Service.Execute.Services`), the faults of a save (`Admission.Context`), the
-- new ids that a transaction draws, and the rows that other transactions lock during a claim.
--
-- Not modelled: the events that the engine publishes and the debug output, whose results are not
-- read; the cycle test of the plan, whose answer is not used; goroutines and locks; failures of the
-- database, but for those of `Admission`; the waiting for a run, the other command handlers, the
-- other repositories, the rest of messaging, HTTP and the control plane; the dashboard, the SDKs
-- and the documents.
pub mod Base
pub mod Run
pub mod Workflow
pub mod Execution
pub mod Engine
pub mod Tenant
pub mod User
pub mod Worker
pub mod Persistence
pub mod Task
pub mod Service
pub mod Outbox
pub mod Interrupt
pub mod Admission
