-- ===== src/Lib.antt =====
-- Keviq Core: what four of its services and a part of the gateway keep and do.
--
-- The orchestrator (apps/orchestrator/src) owns four entities: tasks, their runs, the steps of a
-- run, and approval requests. Handlers change them, each within one transaction of a unit of work
-- that also writes events to an outbox; an execution loop takes a pending task through one run with
-- one step while it calls execution-service for a sandbox and agent-runtime for the work; a sweep
-- recovers what got stuck. The artifact service (apps/artifact-service/src) keeps what runs produce:
-- artifacts with their provenance, and the lineage between them as a graph that may not have cycles.
-- The execution service (apps/execution-service/src) provisions and terminates sandboxes, runs the
-- commands of registered tools in them, with an attempt on record for each, and sweeps up sandboxes
-- that are stuck; it shares its contracts with agent-runtime. agent-runtime (apps/agent-runtime/src)
-- takes one invocation of an agent through a loop of model calls and tools, and pauses it where a
-- tool needs the approval of a human. The gateway (apps/api-gateway/src) limits the rate of requests.
-- The services have the shape of the unit of work in common, which is one module here.
--
-- Prelude.antt: Boolean tests, lists, texts, and tables as lists of rows under a numeric key.
--   Prelude/Doubles.antt has the arithmetic of doubles with which run.py computes a duration.
-- Errors.antt: domain/errors.py of the services and code that may raise.
-- Machine.antt: the guard that the `_transition` methods of the entities share.
-- Transaction.antt: infrastructure/db/unit_of_work.py of each service. A handler is a function from
--   a session to its result and the session afterwards; `db` is what the open transaction sees,
--   `committed` what the database keeps. Returns.antt, Outcomes.antt and Keeps.antt below it have the
--   logic of such code: it returns, or it returns or raises, or whichever it does, and what it leaves
--   satisfies a condition.
-- Orchestrator/Task.antt and Task/Brief.antt: domain/task.py, each method a function of the same
--   name, `_transition` as `transition`, the constructor as `new`.
-- Orchestrator/Run.antt, Step.antt, Approval.antt: domain/run.py, step.py, approval_request.py.
-- Orchestrator/Events.antt: application/events.py and approval_events.py.
-- Orchestrator/Session.antt: the tables of the orchestrator, and what it asks of other services.
-- Orchestrator/Repositories.antt: infrastructure/db/repositories.py and approval_repository.py.
-- Orchestrator/Handlers.antt and Cancellation.antt: application/handlers.py.
-- Orchestrator/Execution.antt and Dispatch.antt: application/execution_loop.py; Moves.antt has what
--   its steps share.
-- Orchestrator/Recovery.antt and Recovery/Sweep.antt: application/recovery.py; Sweeping.antt has the
--   law of the loop over the active steps, which the recovery and the cancellation share.
-- Orchestrator/ApprovalHandlers.antt: application/approval_handlers.py and approval_commands.py.
-- Orchestrator/Samples.antt and Examples.antt: concrete entities, and the theorems at them.
-- Artifacts/Artifact.antt, Provenance.antt, Edge.antt: domain/artifact.py, provenance.py, lineage.py
--   of the artifact service; Hex.antt is Python's reading of a hexadecimal number.
-- Artifacts/Lineage.antt: `detect_cycle`; below it the graph that it searches (Correct, Acyclic,
--   Scoped) and its end (Ends).
-- Artifacts/Store.antt and Events.antt: infrastructure/db, outbox/writer.py, application/events.py.
-- Artifacts/Services.antt and Upload.antt: application/services.py.
-- Artifacts/Routes.antt: api/routes_lineage.py, with the graph of the tables in Routes/Dag.antt.
-- Artifacts/Histories.antt: the requests one after another from empty tables.
-- Sandboxes/Sandbox.antt, Contracts.antt, Provisioning.antt: domain/sandbox.py, domain/contracts.py
--   and application/sandbox_service.py of the execution service.
-- Sandboxes/Store.antt: infrastructure/db/repositories.py and models.py, application/events.py.
-- Sandboxes/Tools.antt, Execution.antt, Recovery.antt: application/tool_registry.py,
--   tool_execution_service.py and recovery_service.py.
-- Sandboxes/Exclusion.antt: the transactions of all of these, interleaved.
-- Agents/Invocation.antt, Policy.antt: domain/agent_invocation.py and tool_approval_policy.py of
--   agent-runtime.
-- Agents/Store.antt: infrastructure/db of agent-runtime. Agents/Tools.antt: application/tool_helpers.py
--   and shared_execution.py; its record World has what agent-runtime asks of others.
-- Agents/Contracts.antt: domain/execution_contracts.py, and the results of the tool loop.
-- Agents/Failures.antt, Approvals.antt: application/loop_errors.py with gateway_errors.py, and
--   approval_gate.py. Agents/Calls.antt, Loop.antt: application/tool_loop.py.
-- Agents/Handler.antt: application/execution_handler.py and artifact_integration.py; Gate.antt is about
--   the tools that need an approval.
-- Gateway/RateLimit.antt: api/rate_limit_middleware.py of the gateway.
-- Examples.antt in each part: the theorems at concrete inputs, and tests.
--
-- A task is sound if its constructor accepts it: the title is not blank, and the risk level is
-- absent, empty or known. A row that its constructor refuses cannot be read, in the code as in the
-- model.
--
-- Times are natural numbers of microseconds, identifiers natural numbers, a JSON object a list of
-- keys with values. The clock and the source of identifiers are functions of the session, so that
-- nothing is assumed of either. Loops are recursions on lists, but for the search for a cycle: it
-- has one round more than there are edges, and it ends within them. What other services, the
-- storage of contents and the backend of sandboxes answer is a parameter, as are the hash of a
-- content and the text of an identifier; what other transactions commit while the orchestrator
-- waits is a parameter as well. A checksum is the list of its code points, and digits outside
-- ASCII are not read. Of a call to another service the record keeps the identifiers and the
-- reason of a termination, not the instruction, the model and the time limit. While a command
-- runs in a sandbox, its backend, which is a parameter, may change the database, as others may.
-- Where transactions are interleaved each of them is one step: a claim and a recovery lock the
-- row of the sandbox; overlaps of the others, which do not lock it, are left out. The tool loop
-- recurs on the turns that are left; texts for the user, JSON and the settings of the environment
-- are in World; the durations that agent-runtime and execution-service measure are left out. Of the
-- types of columns, the model has the 32 bits of runs.duration_ms, of attempt_index and of exit_code,
-- and that the texts of an attempt may not have a NUL: a save that breaks these raises. Other texts
-- are taken to have no NUL, and the BIGINT sizes of artifacts to be in range.
--
-- Not modelled: the SQL engine, log lines and metrics, the texts of exceptions, the HTTP routes
-- but the one for lineage edges, the read queries, the outbox relays, terminal sessions, the
-- resume of an invocation after a decision, and the other services.
pub mod Prelude
pub mod Errors
pub mod Machine
pub mod Transaction
pub mod Orchestrator
pub mod Artifacts
pub mod Sandboxes
pub mod Agents
pub mod Gateway
