-- ===== src/Tests/Calls.antt =====
-- The theorems on the calls of the app: submissions, the worker's RPC and REST endpoints, the dispatcher.
use nautobot_app_remote_jobs.Shared.{
  ℕ, suc, ◌+◌, ◌≤◌, true, false, ◌≡◌, refl, none, some, List, [], ◌∷◌, ◌==◌, arith, if◌then◌else◌,
}
use nautobot_app_remote_jobs.Shared.Json.{str, num, arr, nil, cons, Fields, end, field}
use nautobot_app_remote_jobs.Shared.Lists.{contains, count, any}
use nautobot_app_remote_jobs.App.Choices.{fan_out}
use nautobot_app_remote_jobs.App.Records.{Run, Token, World, Env, ok}
use nautobot_app_remote_jobs.App.Store.{find_run}
use nautobot_app_remote_jobs.App.Store.Sound.{IsSound, WellFormed}
use nautobot_app_remote_jobs.App.Reaper.{reap_expired}
use nautobot_app_remote_jobs.App.Zones.{Device}
use nautobot_app_remote_jobs.App.Submission.Targets.{Core, Request}
use nautobot_app_remote_jobs.App.Submission.Submit.{children_of, notified_zones, submit_run}
use nautobot_app_remote_jobs.App.Submission.Submit.Children.{KeysAreNew}
use nautobot_app_remote_jobs.App.Submission.Submit.Whole.{OkSubmits, submit_run-WellFormed}
use nautobot_app_remote_jobs.App.Submission.Submit.Groups.{
  resolved_to, devices_for, fan_out_partition,
}
use nautobot_app_remote_jobs.App.Rpc.Params.{Wire, get}
use nautobot_app_remote_jobs.App.Rpc.Dispatch.{request_id, dispatch_rpc}
use nautobot_app_remote_jobs.App.Rpc.Answers.{is_call, Replied, dispatch_rpc_answers}
use nautobot_app_remote_jobs.App.System.{
  Moment, at_moment, Outside, frame_from, Reachable, here, then_step,
}
use nautobot_app_remote_jobs.App.System.Reach.{Reachable-IsSound}
use nautobot_app_remote_jobs.App.Api.{by_token, get_authorized_run}
use nautobot_app_remote_jobs.App.Api.Artifacts.{safe_name}
use nautobot_app_remote_jobs.App.Api.Names.{begins_well, safe_name_stays}
use nautobot_app_remote_jobs.App.Api.Authorized.{Holds, get_authorized_run-Holds}
use nautobot_app_remote_jobs.Tests.Fixtures.{
  env, definition, world, queued_run, running_run, both-WellFormed,
}

abbrev both : World
both = world (running_run 10 ∷ queued_run 11 ∷ [])

-- A key that is greater than each of those in use.
abbrev new_key : List ℕ → ℕ
new_key [] = 0
new_key (k ∷ ks) = suc (k + new_key ks)

new_key-above : (ks : List ℕ) (m : ℕ) → new_key ks ≤ m → contains ks m ≡ false
new_key-above [] m h = refl
new_key-above (k ∷ ks) m h = let rest = new_key-above ks m (omega arith) in ground (arith, rest, h)

abbrev device : ℕ → Device
device pk = record { pk = pk; location = some 21; role = 5; primary_ip = none }

abbrev core : Core
core = record {
  inventory = record {
    ancestors = λ l. l ∷ [];
    in_group = λ _ _. false;
    in_prefix = λ _ _. false;
    membership_rules = λ _.
        record {
          locations = 21 ∷ [];
          include_descendant_locations = false;
          roles = [];
          prefixes = [];
          dynamic_group = none;
        }
        ∷ [];
  };
  validate = λ _ _. true;
  filter_devices = λ _. ok (device 30 ∷ device 31 ∷ []);
  device_id = λ _. "a device";
  new_key = new_key;
}

keys_are_new : KeysAreNew core
keys_are_new ks = new_key-above ks (new_key ks) (omega arith)

abbrev fan_out_env : Env
fan_out_env = record env { definition = λ _. record definition { zone_policy = fan_out } }

abbrev submission_request : Request
submission_request = record {
  job_definition = 2;
  user = 9;
  inputs = ("devices", arr (cons (str "a") (cons (str "b") nil))) ∷ [];
  dryrun = false;
}

empty-WellFormed : WellFormed fan_out_env (world []).runs
empty-WellFormed = record { keys = tt; parents = tt; sound = tt }

submit_run-WellFormed_example :
    OkSubmits fan_out_env
      (world []).runs
      (submit_run fan_out_env core submission_request (world []))
submit_run-WellFormed_example =
    submit_run-WellFormed fan_out_env core submission_request (world []) keys_are_new
      empty-WellFormed

abbrev resolved : List (Device × ℕ)
resolved = (device 30, 1) ∷ (device 31, 2) ∷ (device 32, 1) ∷ []

fan_out_partition_example :
    (count (λ c. c.zone == 1) (children_of fan_out resolved)
      ≡ (if any (λ p. p.1 == 1) resolved then 1 else 0))
    × (devices_for 1 (children_of fan_out resolved) ≡ resolved_to 1 resolved)
    × (count (λ x. x == 1) (notified_zones [] (children_of fan_out resolved))
        ≡ (if any (λ c. c.zone == 1) (children_of fan_out resolved) then 1 else 0))
fan_out_partition_example = fan_out_partition resolved 1

abbrev wire : Wire
wire = record {
  run_key = λ v. elim v [ num n ↦ some n | _ ↦ none ];
  text = λ _. "";
  int = λ v. elim v [ num n ↦ some n | _ ↦ none ];
  agent_version = λ _. none;
  capabilities = λ _. none;
  capacity = λ _. none;
  secret = λ _ _. "secret";
}

abbrev claim_frame : Fields
claim_frame =
    field "jsonrpc" (str "2.0") (field "id" (str "7") (field "method" (str "job.claim") end))

dispatch_rpc_answers_example :
    Replied env
      (some 4)
      (request_id (get "id" claim_frame))
      (is_call claim_frame)
      both
      (dispatch_rpc env wire (some 4) claim_frame both)
dispatch_rpc_answers_example = dispatch_rpc_answers env wire (some 4) claim_frame both

abbrev outside : Outside
outside = record { core = core; wire = wire }

abbrev moment : Moment
moment = record { now = 1000; locked = λ _. false; claim_stops = none }

abbrev after_claim : World
after_claim = (dispatch_rpc (at_moment env moment) wire (some 4) claim_frame (world [])).0

claimed_once : Reachable env outside (world []) after_claim
claimed_once = then_step (here (world [])) (frame_from moment (some 4) claim_frame (world []))

Reachable-IsSound_example :
    ((k : ℕ) (r : Run) → find_run k after_claim.runs ≡ some r → IsSound env r)
    × ((m : Moment) → (s : World × ℕ) × (reap_expired (at_moment env m) after_claim ≡ ok s))
Reachable-IsSound_example =
    Reachable-IsSound env outside (world []) after_claim keys_are_new refl claimed_once

abbrev token : Token
token = record { pk = 3; user = 9; expires = 2000; run = 10 }

authorized : get_authorized_run (by_token token) 10 both ≡ some (running_run 10)
unfolding get_authorized_run find_run
authorized = refl

get_authorized_run-Holds_example :
    ((running_run 10).pk ≡ 10) × Holds (by_token token) (running_run 10)
get_authorized_run-Holds_example =
    get_authorized_run-Holds env (by_token token) 10 (running_run 10) both both-WellFormed
      authorized

-- The name "../x".
abbrev climbing : List ℕ
climbing = b'.' ∷ b'.' ∷ b'/' ∷ b'x' ∷ []

safe_name_stays_example :
    (contains (safe_name climbing) b'/' ≡ false)
    × (contains (safe_name climbing) b'\\' ≡ false)
    × (begins_well (safe_name climbing) ≡ true)
safe_name_stays_example = safe_name_stays climbing
