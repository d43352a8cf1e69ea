-- ===== src/Tests/Dispatch.antt =====
-- The theorems on zones, submissions and the reaper, on the rows of the fixtures.
use nautobot_app_remote_jobs.Shared.{ℕ, true, false, ◌≡◌, ◌↔◌, refl, none, some, [], ◌∷◌}
use nautobot_app_remote_jobs.Shared.Json.{Json, bool, str, obj, Fields, end, field}
use nautobot_app_remote_jobs.App.Choices.{pending, graceful}
use nautobot_app_remote_jobs.App.Records.{Run, World, ok, lease_expired_message}
use nautobot_app_remote_jobs.App.Cancel.{CancelOutcome, cancel_single}
use nautobot_app_remote_jobs.App.Cancel.Single.{cancel_single-Preserved}
use nautobot_app_remote_jobs.App.Runs.{is_terminal}
use nautobot_app_remote_jobs.App.Store.{find_run, worker_status, free_capacity}
use nautobot_app_remote_jobs.App.Store.Sound.{Preserved}
use nautobot_app_remote_jobs.App.Reaper.{abandon_run, reap_expired}
use nautobot_app_remote_jobs.App.Reaper.Outcome.{has_retry, abandon_run_outcome}
use nautobot_app_remote_jobs.App.Reaper.Pass.{reap_expired-Preserved}
use nautobot_app_remote_jobs.App.Zones.{
  Device, Rule, Inventory, matches_device, is_match, resolve_zone, serves, zone_has_online_capacity,
}
use nautobot_app_remote_jobs.App.Enrollment.{Enrollment, Attempt, generate, enroll_all}
use nautobot_app_remote_jobs.App.Enrollment.Single.{remaining, enroll_all-once}
use nautobot_app_remote_jobs.Shared.Lists.{length}
use nautobot_app_remote_jobs.Shared.{String, ◌≤◌, ◌+◌}
use nautobot_app_remote_jobs.App.Zones.Membership.{Satisfies, matches_device_iff}
use nautobot_app_remote_jobs.App.Zones.Resolution.{IsResolution, resolve_zone_best}
use nautobot_app_remote_jobs.App.Submission.{Inputs, place}
use nautobot_app_remote_jobs.App.Submission.Placement.{place_sound}
use nautobot_app_remote_jobs.Tests.Fixtures.{
  env, definition, world, queued_run, running_run, both-WellFormed,
}

abbrev both : World
both = world (running_run 10 ∷ queued_run 11 ∷ [])

reap_expired-Preserved_example :
    (s : World × ℕ) × (reap_expired env both ≡ ok s) × Preserved env both.runs s.0.runs
reap_expired-Preserved_example = reap_expired-Preserved env both both-WellFormed

found : find_run 10 both.runs ≡ some (running_run 10)
unfolding find_run
found = refl

abandon_run_outcome_example :
    (w' : World) × (r' : Run) × (abandon_run env lease_expired_message (running_run 10) both
      ≡ ok w')
    × (find_run 10 w'.runs ≡ some r')
    × (r'.scoped_token ≡ none)
    × (r'.state ≡ pending)
    × (r'.attempt ≡ 2)
    × (r'.worker ≡ none)
    × (has_retry env (running_run 10) ≡ true → r'.lease_expires_at ≡ none)
abandon_run_outcome_example =
    abandon_run_outcome env lease_expired_message (running_run 10) both both-WellFormed found refl
      (λ e. cc)

-- A rule for the devices below the location 20, and a device at its child 21.
abbrev rule : Rule
rule = record {
  locations = 20 ∷ [];
  include_descendant_locations = true;
  roles = [];
  prefixes = [];
  dynamic_group = none;
}

abbrev device : Device
device = record { pk = 30; location = some 21; role = 5; primary_ip = none }

abbrev inventory : Inventory
inventory = record {
  ancestors = λ l. l ∷ 20 ∷ [];
  in_group = λ _ _. false;
  in_prefix = λ _ _. false;
  membership_rules = λ _. rule ∷ [];
}

matches_device_iff_example :
    (matches_device inventory rule device ≡ true) ↔ Satisfies inventory rule device
matches_device_iff_example = matches_device_iff inventory rule device

resolves : resolve_zone inventory env device ≡ some 1
unfolding resolve_zone matches_device is_match
resolves = refl

resolve_zone_best_example : IsResolution inventory env device (resolve_zone inventory env device)
resolve_zone_best_example = resolve_zone_best inventory env device

abbrev properties : Fields
properties = field "password" (obj (field "writeOnly" (bool true) end)) end

abbrev inputs : Inputs
inputs = ("user", str "admin") ∷ ("password", str "hunter2") ∷ []

serves_now : zone_has_online_capacity env both [] 1 ≡ true
unfolding zone_has_online_capacity serves worker_status free_capacity
serves_now = refl

place_sound_example : place env both definition ≡ (some 1, none)
place_sound_example = (place_sound env both definition).2 1 refl refl serves_now

running_on : is_terminal (running_run 10) ≡ false
unfolding is_terminal
running_on = refl

cancel_single-Preserved_example :
    (s : World × CancelOutcome) × (cancel_single env (some 9) graceful (running_run 10) both ≡ ok s)
    × Preserved env both.runs s.0.runs
cancel_single-Preserved_example =
    cancel_single-Preserved env (some 9) graceful 10 (running_run 10) both both-WellFormed found
      running_on

abbrev bootstrap : Enrollment
bootstrap = record { token = generate 100 1 24 true; workers = [] }

abbrev attempt : ℕ → String → Attempt
attempt now name = record {
  at = now;
  pk = now;
  authenticated = true;
  request = record { name = name; capabilities = []; capacity = 0; agent_version = "" };
}

unused : bootstrap.token.single_use ≡ true
unfolding generate
unused = refl

enroll_all-once_example :
    length (enroll_all (attempt 200 "a" ∷ attempt 201 "b" ∷ []) bootstrap).workers
    ≤ 0 + remaining bootstrap.token
enroll_all-once_example = enroll_all-once (attempt 200 "a" ∷ attempt 201 "b" ∷ []) bootstrap unused
