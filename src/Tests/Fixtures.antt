-- ===== src/Tests/Fixtures.antt =====
-- Rows and tables that the tests are about: a zone 1 with one worker 4, and the definition 2.
use nautobot_app_remote_jobs.Shared.{ℕ, true, false, refl, none, some, List, [], ◌∷◌, arith}
use nautobot_app_remote_jobs.Shared.Json.{str, obj, end, field}
use nautobot_app_remote_jobs.App.Choices
use nautobot_app_remote_jobs.App.Choices.{RunState, pending, claimed, running}
use nautobot_app_remote_jobs.App.Records.{
  JobStatus, status_pending, status_started, JobResult, JobDefinition, ExecutionZone, Worker, Run,
  World, Settings, Env,
}
use nautobot_app_remote_jobs.App.Runs.{is_terminal}
use nautobot_app_remote_jobs.App.Store.Sound.{IsSound, WellFormed}

abbrev pub settings : Settings
settings = record {
  lease_seconds = 60;
  worker_ttl_seconds = 90;
  last_seen_throttle_seconds = 15;
  token_extra_ttl_seconds = 300;
  fanout_max_devices = 500;
  nautobot_url = "https://nautobot";
}

abbrev pub definition : JobDefinition
definition = record {
  name = "backup";
  enabled = true;
  image = 7 ∷ [];
  image_digest = [];
  zone_policy = Choices.pinned;
  default_zone = some 1;
  input_schema =
      field "properties"
        (obj (field "devices" (obj (field "x-remote-jobs-target" (str "device") end)) end)) end;
  secrets_groups = [];
  capabilities = [];
  timeout_seconds = 600;
  grace_seconds = 30;
  retry_max = 1;
  singleton = true;
  dryrun_supported = true;
  requires_zone_local = false;
}

abbrev pub zone : ExecutionZone
zone = record {
  name = "east";
  enabled = true;
  priority = 100;
  failover_policy = Choices.wait;
  max_wait_seconds = 900;
  ordered_failover_zones = [];
}

abbrev pub env : Env
env = record {
  settings = settings;
  now = 1000;
  definition = λ _. definition;
  zone = λ _. zone;
  zone_pks = 1 ∷ [];
  locked = λ _. false;
  claim_stops = none;
}

abbrev pub agent : Worker
agent = record {
  pk = 4;
  name = "agent";
  zone = 1;
  enabled = true;
  draining = false;
  capabilities = [];
  capacity = 2;
  agent_version = "1.0";
  secret_generation = 1;
  last_seen = some 990;
}

abbrev pub job_result : JobStatus → JobResult
job_result status = record {
  status = status;
  worker = "";
  user = 9;
  date_started = none;
  date_done = none;
  revocation_type = none;
  revoked_by = none;
  revoked_at = none;
  cancel_requested = false;
  logs = [];
}

-- A run of the definition in the zone, not claimed yet.
abbrev pub queued_run : ℕ → Run
queued_run pk = record {
  pk = pk;
  job_definition = 2;
  job_result = job_result status_pending;
  parent = none;
  zone = some 1;
  worker = none;
  device = none;
  state = pending;
  inputs = [];
  dryrun = false;
  lease_expires_at = none;
  attempt = 1;
  image_digest_executed = "";
  scoped_token = none;
  queued_at = some 900;
  offered_at = none;
  claimed_at = none;
  started_at = none;
  finished_at = none;
}

-- A run that the agent executes.
abbrev pub running_run : ℕ → Run
running_run pk = record (queued_run pk) {
  job_result = job_result status_started;
  worker = some 4;
  state = running;
  lease_expires_at = some 1020;
  scoped_token = some 3;
  claimed_at = some 950;
  started_at = some 960;
}

abbrev pub world : List Run → World
world runs = record { runs = runs; workers = agent ∷ []; tokens = []; next_token = 8; outbox = [] }

pub queued_run-IsSound : (pk : ℕ) → IsSound env (queued_run pk)
unfolding is_terminal
queued_run-IsSound pk = record {
  mirrored = record {
    status_mirrored = refl;
    finish_set = λ e. ground arith;
    finish_mirrored = λ e. ground arith;
    revocation_mirrored = λ e. ground arith;
  };
  token_held = λ e. ground arith;
  lease_held = λ p q. ground arith;
  worker_set = λ e. ground arith;
  zoneless_token = λ e. ground arith;
  zoneless_worker = λ e. ground arith;
  attempts = omega arith;
}

pub running_run-IsSound : (pk : ℕ) → IsSound env (running_run pk)
unfolding is_terminal
running_run-IsSound pk = record {
  mirrored = record {
    status_mirrored = refl;
    finish_set = λ e. ground arith;
    finish_mirrored = λ e. ground arith;
    revocation_mirrored = λ e. ground arith;
  };
  token_held = λ e. refl;
  lease_held = λ p q. refl;
  worker_set = λ e. refl;
  zoneless_token = λ e. ground arith;
  zoneless_worker = λ e. ground arith;
  attempts = omega arith;
}

pub both-WellFormed : WellFormed env (running_run 10 ∷ queued_run 11 ∷ [])
both-WellFormed = record {
  keys = ((λ e. ground arith, tt), (tt, tt));
  parents = (
    (λ e. ground arith, (λ e. ground arith, tt)),
    ((λ e. ground arith, (λ e. ground arith, tt)), tt),
  );
  sound = (running_run-IsSound 10, (queued_run-IsSound 11, tt));
}
