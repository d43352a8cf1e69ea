-- ===== src/Lib.antt =====
-- A model of the remote jobs app for Nautobot: how jobs are submitted to execution zones, claimed by
-- worker agents, kept alive by leases, completed, abandoned and retried, with the parts of the
-- gateway and of the agent that the protocol depends on.
--
-- Parts, and the code that each file is about:
--   Shared          helpers: tests over numbers (Tests), lists (Lists), JSON values (Json)
--   App.Choices     nautobot_remote_jobs/choices.py
--   App.Records     the rows of nautobot_remote_jobs/models, the tables (`World`) and what a handler
--                   only reads (`Env`: settings, one reading of the clock, definitions, zones, and
--                   the rows that other transactions hold locked)
--   App.Runs        nautobot_remote_jobs/models/runs.py: `transition`, `sync_job_result`; Machine is
--                   about the state machine, Mirror about the JobResult, Frame about what stays
--   App.Store       queries and saves; models/workers.py, dispatch/tokens.py, dispatch/notify.py;
--                   Rows and Sound hold the invariant of the table of runs, `WellFormed`
--   App.Reaper      dispatch/reaper.py and `refresh_parent_state`
--   App.Claims      dispatch/claims.py: `claim_runs` and what it calls
--   App.Completion  dispatch/claims.py: `report_status`, `complete_run`, `reconcile_in_flight`;
--                   Settle and Complete are about a completion, Status and Keeps about the table
--   App.Zones       dispatch/zones.py and `matches_device` of models/zones.py; the location tree, the
--                   dynamic groups and the prefixes of core Nautobot are an `Inventory`
--   App.Submission  dispatch/submission.py: `redact_inputs`, the choice of a zone, `_fail_dispatch`;
--                   Targets has a new row and the devices that the inputs name, Submit `submit_run` and
--                   the fan-out; core Nautobot, `jsonschema` and `uuid` are a `Core`
--   App.Cancel      cancel.py: `cancel_run`; the fuel of its recursion counts the levels of children,
--                   of which a submission makes one
--   App.Enrollment  enrollment tokens of models/workers.py and EnrollView of api/worker_views.py
--   App.Schedules   models/schedules.py and the beat `dispatch_scheduled` of tasks.py
--   App.Ingestion   api/ingestion.py
--   App.Rpc         rpc/handlers.py: Params reads the parameters, Handlers has the five handlers,
--                   Dispatch `dispatch_rpc`; how the database reads a JSON value is a `Wire`
--   App.Api         api/authentication.py and the views of api/worker_views.py for batches and (in
--                   Artifacts) for artifacts; the storage backend is a parameter
--   App.System      all calls that change the table of runs, as a step relation; Reach is about the
--                   tables that they lead to
--   Gateway.Frames  gateway/remote_jobs_gateway/rpc.py
--   Gateway.RateLimiter  `RateLimiter` of gateway/remote_jobs_gateway/bridge.py
--   Gateway.Handshake  gateway/remote_jobs_gateway/auth.py and the handshake of `ws_worker` in main.py;
--                   Redis, HTTP and pydantic are its `Peers`
--   Gateway.Bridge  `WorkerBridge` of gateway/remote_jobs_gateway/bridge.py
--   Worker.Rpc      worker/remote_worker/rpc.py; the module `json` is a `Codec`
--   Worker.Journal  worker/remote_worker/journal.py, with the names of its files in Worker.Paths
--   Worker.Agent    `WorkerAgent` of worker/remote_worker/agent.py: its table of runs, claiming and
--                   recovery, and what a `RunTask` does to the journal
--   Worker.RunTask  `RunTask` of worker/remote_worker/agent.py: the life of one run, as a sequence of
--                   what the runtime and the server do
--   Worker.Connection  `GatewayConnection` of worker/remote_worker/connection.py: its pending calls and
--                   the reconnecting loop
--   Worker.Reports  `_classify` and `_send_complete` of worker/remote_worker/agent.py
--   Worker.Sinks    `BatchingLogSink` of worker/remote_worker/sinks/base.py
--   Sdk.Redaction   sdk/nautobot_remote_jobs_sdk/redaction.py
--   Sdk.Logging     `LogClient` and `JobLogger` of sdk/nautobot_remote_jobs_sdk/logging.py
--   Sdk.Secrets     sdk/nautobot_remote_jobs_sdk/secrets/registry.py; the providers are parameters
--   Tests           closed applications of the theorems, on the rows of Tests.Fixtures
--
-- How they interact: the agent's reports reach `report_status` and `complete_run`, which change a
-- run by `transition`, delete its token, and derive its parent; the reaper does the same to runs
-- whose lease has run out, and puts them back into the queue that `claim_runs` serves. A frame of
-- the agent (Worker.Rpc) passes the gateway (Gateway.Bridge) to `dispatch_rpc` (App.Rpc), which calls
-- the handlers; App.System puts these calls, the beat of the reaper, cancellations and submissions in
-- sequence.
--
-- How the model stands to the code. A table is a list of rows; a foreign key is the primary key of
-- its row; a handler takes the tables and returns them, or an error and no change, as its database
-- transaction does. Transactions run one after another; a row that is locked elsewhere is skipped
-- where the code has SKIP LOCKED (`Env.locked`). Several saves of one row in a transaction are one
-- save, and a handler reads the clock once. Moments are seconds as natural numbers. The fields of a
-- model that no modelled operation reads or writes are left out, and a logged text is a constructor
-- with the values that are put into it. The fields of a JobResult belong to its run, one-to-one. The
-- rate limiter counts in whole fractions of a token, the agent's delays are in half seconds. A loop
-- `while len(offers) < budget` is recursion on the offers still wanted; the candidates of a claim are
-- the first 20 by `queued_at`, as in the code. Every loop is over a list, but for the recursion of
-- `cancel_run`, which is on fuel. A call that raises is rolled back; only worker.hello commits its
-- saves of the worker before it reconciles, and job.claim each offer, after some of which an exception
-- may end it (`Env.claim_stops`). The event loops of the gateway and of the agent are sequences of
-- events. Beats of the scheduler and writes of batches do not overlap. A key for a new row is answered
-- by a parameter, given the keys in use.
--
-- Not modelled: the web framework's declarations (views, forms, tables, serializers, migrations),
-- process entry points and configuration, the transport of frames over Redis and websockets, the
-- container runtime and the container spec, the HTTP and secret services that the SDK calls, the
-- publishing of images, cryptographic hashing, and the third-party croniter, which is a parameter of
-- App.Schedules.
pub mod Shared
pub mod App
pub mod Gateway
pub mod Worker
pub mod Sdk
pub mod Tests
