-- ===== src/App/Records.antt =====
-- The rows of the app's tables (nautobot_remote_jobs/models) and what a handler reads and writes.
-- A foreign key is the primary key of its row, a moment is a number of seconds, and the core
-- JobResult that a run owns one-to-one is a field of the run.
use nautobot_app_remote_jobs.Shared.{ℕ, String, Bool, Option, List}
use nautobot_app_remote_jobs.Shared.Json.{Json, Fields}
use nautobot_app_remote_jobs.App.Choices.{ZonePolicy, FailoverPolicy, RunState, CancelMode}

-- nautobot.extras.choices.JobResultStatusChoices, the values that the app assigns
pub data JobStatus : Type 0 where
  status_pending status_started status_success status_failure status_revoked : JobStatus

pub data RevocationType : Type 0 where
  type_terminated type_abandoned : RevocationType

pub data LogLevel : Type 0 where
  log_info log_warning log_error : LogLevel

-- Why a run ends as FAILED_DISPATCH, or a submission is refused.
pub data DispatchFailure : Type 0 where
  no_target_field no_target_devices unknown_devices no_zone_for_devices : DispatchFailure
  too_many_devices : ℕ → ℕ → DispatchFailure
  no_capacity_fail_fast no_capacity_zone_local : ℕ → DispatchFailure
  no_waiting_allowed no_zone_resolved : DispatchFailure
  definition_disabled dryrun_unsupported invalid_inputs : DispatchFailure

-- One constructor for each text that the dispatcher logs, with the values put into it.
pub data LogMessage : Type 0 where
  progress_message : String → LogMessage
  worker_error : String → LogMessage
  container_exit_code : String → LogMessage
  lease_expired_message worker_restarted : LogMessage
  cancel_worker_offline cancelled_before_claim core_cancel_reaped : LogMessage
  requeued : ℕ → ℕ → LogMessage
  wait_budget_spent : ℕ → LogMessage
  cancelled_parent : ℕ → LogMessage
  terminate_requested : CancelMode → LogMessage
  singleton_queued : LogMessage
  dispatch_failed : DispatchFailure → LogMessage
  child_queued_for_device : ℕ → ℕ → ℕ → LogMessage
  child_queued_in_zone : ℕ → ℕ → ℕ → LogMessage

-- JobLogEntry, in the order of writing
pub record LogEntry : Type 0 where
  pub level : LogLevel
  pub grouping : String
  pub message : LogMessage

-- extras.JobResult: the fields that the app reads or writes. `cancel_requested` is the flag of that
-- name in `celery_kwargs`; `revoked_at` is `date_revoked` or `terminated_at`.
pub record JobResult : Type 0 where
  pub status : JobStatus
  pub worker : String
  pub user : ℕ
  pub date_started : Option ℕ
  pub date_done : Option ℕ
  pub revocation_type : Option RevocationType
  pub revoked_by : Option ℕ
  pub revoked_at : Option ℕ
  pub cancel_requested : Bool
  pub logs : List LogEntry

-- JobDefinition; `input_schema` is a JSON object, empty where it is null.
pub record JobDefinition : Type 0 where
  pub name : String
  pub enabled : Bool
  pub image : List ℕ
  pub image_digest : List ℕ
  pub zone_policy : ZonePolicy
  pub default_zone : Option ℕ
  pub input_schema : Fields
  pub secrets_groups : List String
  pub capabilities : List ℕ
  pub timeout_seconds : ℕ
  pub grace_seconds : ℕ
  pub retry_max : ℕ
  pub singleton : Bool
  pub dryrun_supported : Bool
  pub requires_zone_local : Bool

-- ExecutionZone; `ordered_failover_zones` are the targets of its ZoneFailover rows by `order`
pub record ExecutionZone : Type 0 where
  pub name : String
  pub enabled : Bool
  pub priority : ℕ
  pub failover_policy : FailoverPolicy
  pub max_wait_seconds : ℕ
  pub ordered_failover_zones : List ℕ

-- Worker
pub record Worker : Type 0 where
  pub pk : ℕ
  pub name : String
  pub zone : ℕ
  pub enabled : Bool
  pub draining : Bool
  pub capabilities : List ℕ
  pub capacity : ℕ
  pub agent_version : String
  pub secret_generation : ℕ
  pub last_seen : Option ℕ

-- RemoteJobRun
pub record Run : Type 0 where
  pub pk : ℕ
  pub job_definition : ℕ
  pub job_result : JobResult
  pub parent : Option ℕ
  pub zone : Option ℕ
  pub worker : Option ℕ
  pub device : Option ℕ
  pub state : RunState
  pub inputs : List (String × Json)
  pub dryrun : Bool
  pub lease_expires_at : Option ℕ
  pub attempt : ℕ
  pub image_digest_executed : String
  pub scoped_token : Option ℕ
  pub queued_at : Option ℕ
  pub offered_at : Option ℕ
  pub claimed_at : Option ℕ
  pub started_at : Option ℕ
  pub finished_at : Option ℕ

-- users.Token, as minted for a run
pub record Token : Type 0 where
  pub pk : ℕ
  pub user : ℕ
  pub expires : ℕ
  pub run : ℕ

-- What the app publishes: lifecycle events (the topic's last word) and frames to the gateway.
pub data Topic : Type 0 where
  queued claimed started completed terminated abandoned : Topic

pub data Message : Type 0 where
  run_event : Topic → ℕ → RunState → Message
  work_available : ℕ → Message
  job_cancel : ℕ → ℕ → CancelMode → Message

-- The tables that handlers write, and what has been published, newest first.
pub record World : Type 0 where
  pub runs : List Run
  pub workers : List Worker
  pub tokens : List Token
  pub next_token : ℕ
  pub outbox : List Message

-- PLUGINS_CONFIG["nautobot_remote_jobs"]
pub record Settings : Type 0 where
  pub lease_seconds : ℕ
  pub worker_ttl_seconds : ℕ
  pub last_seen_throttle_seconds : ℕ
  pub token_extra_ttl_seconds : ℕ
  pub fanout_max_devices : ℕ
  pub nautobot_url : String

-- What a handler reads and does not write: the settings, the clock (one reading for a handler), the
-- tables of definitions and zones, and the rows that other transactions hold locked (SKIP LOCKED).
pub record Env : Type 0 where
  pub settings : Settings
  pub now : ℕ
  pub definition : ℕ → JobDefinition
  pub zone : ℕ → ExecutionZone
  pub zone_pks : List ℕ
  pub locked : ℕ → Bool
  pub claim_stops : Option ℕ

-- ClaimError with its code, ValueError of an illegal transition, SubmissionError.
pub data Error : Type 0 where
  unknown_run illegal_transition_code lease_expired : Error
  illegal_transition : RunState → RunState → Error
  submission_error : DispatchFailure → Error
  does_not_exist : Error
  nested_children : Error

pub data Result {ℓ} (A : Type ℓ) : Type ℓ where
  ok : A → Result A
  err : Error → Result A

infixl 5 ◌>>=◌
abbrev pub ◌>>=◌ {ℓ κ} : {A : Type ℓ} {B : Type κ} → Result A → (A → Result B) → Result B
ok a >>= f = f a
err e >>= f = err e
