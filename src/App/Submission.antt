-- ===== src/App/Submission.antt =====
-- nautobot_remote_jobs/dispatch/submission.py: the inputs that are stored, the zone that a submission
-- goes to, and the end of a run that cannot be dispatched. `jsonschema` is not needed for these.
pub mod Redaction
pub mod Placement
pub mod Targets
pub mod Submit
use nautobot_app_remote_jobs.Shared.{
  ℕ, String, Bool, true, false, ◌&&◌, not, Option, none, some, List, [], ◌∷◌, if◌then◌else◌, str_eq,
  is_some,
}
use nautobot_app_remote_jobs.Shared.Json.{
  Json, null, bool, num, str, arr, obj, Fields, end, field, truthy,
}
use nautobot_app_remote_jobs.Shared.Lists.{any, first}
use nautobot_app_remote_jobs.App.Choices.{
  ZonePolicy, pinned, FailoverPolicy, wait, failover, failed_dispatch,
}
use nautobot_app_remote_jobs.App.Records.{
  Run, World, Env, JobDefinition, DispatchFailure, dispatch_failed, no_waiting_allowed,
  no_capacity_fail_fast, no_capacity_zone_local, no_zone_resolved, log_error,
}
use nautobot_app_remote_jobs.App.Runs.{sync_job_result, log_to_result}
use nautobot_app_remote_jobs.App.Store.{save_run, worker_name}
use nautobot_app_remote_jobs.App.Zones.{zone_has_online_capacity, cheapest_zone_with_capacity}

-- REDACTED_PLACEHOLDER
abbrev pub placeholder : Json
placeholder = str "__redacted__"

-- subschema.get("writeOnly"); a later member of a name overrides.
unfoldable pub write_only_member : Fields → Option Json
write_only_member end = none
write_only_member (field k v fs) =
    let rest = write_only_member fs in
    if is_some rest then rest else if str_eq k "writeOnly" then some v else none

-- The same as a truth value
abbrev pub has_write_only : Option Json → Bool
has_write_only none = false
has_write_only (some v) = truthy v

unfoldable pub is_write_only : Json → Bool
unfolding write_only_member
is_write_only (obj fs) = has_write_only (write_only_member fs)
is_write_only _ = false

abbrev pub Inputs : Type 0
Inputs = List (String × Json)

-- redacted[key] = REDACTED_PLACEHOLDER, where the key is there
unfoldable pub redact_key : String → Inputs → Inputs
redact_key k [] = []
redact_key k (p ∷ ps) = (if str_eq p.0 k then (p.0, placeholder) else p) ∷ redact_key k ps

-- `redact_inputs`, over the schema's "properties"
unfoldable pub redact_inputs : Fields → Inputs → Inputs
unfolding redact_key is_write_only
redact_inputs end inputs = inputs
redact_inputs (field k subschema properties) inputs =
    redact_inputs properties (if is_write_only subschema then redact_key k inputs else inputs)

-- A zone, or why there is none.
abbrev pub Placed : Type 0
Placed = Option ℕ × Option DispatchFailure

-- The default zone of the policy `any`, if its own policy is to wait.
abbrev pub fall_back : Env → Option ℕ → Placed
fall_back env none = (none, some no_waiting_allowed)
fall_back env (some z) = elim ((env.zone z).failover_policy) [
  | wait ↦ (some z, none)
  | failover ↦ (none, some no_waiting_allowed)
  | FailoverPolicy.none ↦ (none, some no_waiting_allowed)
]

abbrev pub cheapest_or : Placed → Option ℕ → Placed
cheapest_or other none = other
cheapest_or other (some z) = (some z, none)

-- `_resolve_submission_zone`
unfoldable pub resolve_submission_zone : Env → World → JobDefinition → Placed
resolve_submission_zone env w d = elim (d.zone_policy) [
  | pinned ↦ (d.default_zone, none)
  | _ ↦
      cheapest_or (fall_back env d.default_zone) (cheapest_zone_with_capacity env w d.capabilities)
]

-- A failover target that can take the run now.
abbrev pub takes_over : Env → World → JobDefinition → ℕ → Bool
takes_over env w d t = (env.zone t).enabled && zone_has_online_capacity env w d.capabilities t

-- The walk over the targets; without one the run waits in its own zone.
abbrev pub fail_over : ℕ → Option ℕ → Placed
fail_over z none = (some z, none)
fail_over z (some t) = (some t, none)

-- `_apply_failover`
unfoldable pub apply_failover : Env → World → JobDefinition → ℕ → Placed
apply_failover env w d z =
    if zone_has_online_capacity env w d.capabilities z
    then (some z, none)
    else elim ((env.zone z).failover_policy) [
      | FailoverPolicy.none ↦ (none, some (no_capacity_fail_fast z))
      | wait ↦ (some z, none)
      | failover ↦
          if d.requires_zone_local
          then (none, some (no_capacity_zone_local z))
          else fail_over z (first (takes_over env w d) (env.zone z).ordered_failover_zones)
    ]

abbrev pub then_failover : Env → World → JobDefinition → Placed → Placed
then_failover env w d (none, e) = (none, e)
then_failover env w d (some z, none) = apply_failover env w d z
then_failover env w d (some z, some e) = (some z, some e)

-- The zone that `submit_run` puts a run of the policies `pinned` and `any` into.
unfoldable pub place : Env → World → JobDefinition → Placed
unfolding resolve_submission_zone apply_failover
place env w d = then_failover env w d (resolve_submission_zone env w d)

-- The row that `_fail_dispatch` leaves.
unfoldable pub failed_run : Env → World → DispatchFailure → Run → Run
failed_run env w failure r =
    sync_job_result env.now (worker_name w r) none
      (record (log_to_result log_error "dispatch" (dispatch_failed failure) r) {
        state = failed_dispatch;
        finished_at = some env.now;
      })

-- `_fail_dispatch`
unfoldable pub fail_dispatch : Env → DispatchFailure → Run → World → World
unfolding failed_run
fail_dispatch env failure r w = save_run (failed_run env w failure r) w
