-- ===== src/App/Submission/Submit.antt =====
-- nautobot_remote_jobs/dispatch/submission.py: `submit_run` as a whole, with the fan-out into children.
pub mod Insert
pub mod Children
pub mod Committed
pub mod Created
pub mod Whole
pub mod Groups
use nautobot_app_remote_jobs.Shared.{
  ℕ, suc, String, Bool, true, false, ◌&&◌, ◌||◌, not, Option, none, some, List, [], ◌∷◌, ◌++◌, ◌==◌,
  map, if◌then◌else◌, str_eq, is_some, or_else,
}
use nautobot_app_remote_jobs.Shared.Json.{Json, str, arr, Items, nil, cons, end, field}
use nautobot_app_remote_jobs.Shared.Lists.{length, select, any}
use nautobot_app_remote_jobs.App.Choices.{
  ZonePolicy, per_device, fan_out, running, in_non_terminal_states,
}
use nautobot_app_remote_jobs.App.Records.{
  Run, World, Env, JobDefinition, Topic, DispatchFailure, no_target_devices, no_zone_for_devices,
  definition_disabled, dryrun_unsupported, invalid_inputs, no_zone_resolved, log_info, LogMessage,
  singleton_queued, child_queued_for_device, child_queued_in_zone, Error, submission_error,
  work_available, Result, ok, err, ◌>>=◌,
}
use nautobot_app_remote_jobs.App.Runs.{sync_job_result, log_to_result}
use nautobot_app_remote_jobs.App.Store.{save_run, worker_name, publish, publish_run_event}
use nautobot_app_remote_jobs.App.Zones.{Device, resolve_zone}
use nautobot_app_remote_jobs.App.Submission.{
  Inputs, redact_inputs, Placed, place, failed_run, fail_dispatch,
}
use nautobot_app_remote_jobs.App.Submission.Targets.{
  Core, mentioned, Request, new_run, insert_run, schema_properties, extract_target_devices,
}

-- child_inputs[field] = value
unfoldable pub put_input : String → Json → Inputs → Inputs
put_input k v [] = (k, v) ∷ []
put_input k v (p ∷ ps) = if str_eq p.0 k then (k, v) ∷ ps else p ∷ put_input k v ps

-- [str(device.pk) for device in devices]
abbrev pub device_ids : Core → List Device → Items
device_ids core [] = nil
device_ids core (d ∷ ds) = cons (str (core.device_id d.pk)) (device_ids core ds)

-- A child run to create: its zone, its devices, whether it is for one device, the line that is logged.
pub record Child : Type 0 where
  pub zone : ℕ
  pub device : Option ℕ
  pub devices : List Device
  pub message : ℕ → LogMessage

-- The devices with their zones; a device without one ends the walk.
unfoldable pub resolutions : Env → Core → List Device → Option (List (Device × ℕ))
resolutions env core [] = some []
resolutions env core (d ∷ ds) = elim (resolve_zone core.inventory env d) [
  | none ↦ none
  | some z ↦ elim (resolutions env core ds) [ none ↦ none | some rest ↦ some ((d, z) ∷ rest) ]
]

abbrev pub device_child : Device × ℕ → Child
device_child (d, z) = record {
  zone = z;
  device = some d.pk;
  devices = d ∷ [];
  message = λ pk. child_queued_for_device pk d.pk z;
}

-- by_zone.setdefault(zone.pk, (zone, []))[1].append(device)
unfoldable pub add_to_zone : Device → ℕ → List (ℕ × List Device) → List (ℕ × List Device)
add_to_zone d z [] = (z, d ∷ []) ∷ []
add_to_zone d z ((y, ds) ∷ groups) =
    if y == z then (y, ds ++ d ∷ []) ∷ groups else (y, ds) ∷ add_to_zone d z groups

-- The loop that fills `by_zone`.
unfoldable pub group_by_zone : List (ℕ × List Device) → List (Device × ℕ) → List (ℕ × List Device)
unfolding add_to_zone
group_by_zone groups [] = groups
group_by_zone groups ((d, z) ∷ rest) = group_by_zone (add_to_zone d z groups) rest

abbrev pub zone_child : ℕ × List Device → Child
zone_child (z, ds) = record {
  zone = z;
  device = none;
  devices = ds;
  message = λ pk. child_queued_in_zone pk z (length ds);
}

-- The children of a fan-out, in the order of their creation.
unfoldable pub children_of : ZonePolicy → List (Device × ℕ) → List Child
unfolding group_by_zone
children_of per_device resolved = map device_child resolved
children_of _ resolved = map zone_child (group_by_zone [] resolved)

-- notified_zones[zone.pk] = zone
unfoldable pub notified_zones : List ℕ → List Child → List ℕ
notified_zones zones [] = zones
notified_zones zones (c ∷ cs) =
    notified_zones (if any (λ z. z == c.zone) zones then zones else zones ++ c.zone ∷ []) cs

-- One child: its row, and the line in the parent's log.
unfoldable pub add_child :
    Env → Core → Request → Inputs → String → Child → World × Run → World × Run
unfolding new_run insert_run put_input
add_child env core q stored key c (w, parent) =
    let pk = core.new_key (mentioned w.runs) in
    let inputs = put_input key (arr (device_ids core c.devices)) stored in
    (
      insert_run (new_run env q inputs (some parent.pk) (some c.zone) c.device pk) w,
      log_to_result log_info "dispatch" (c.message pk) parent,
    )

unfoldable pub add_children :
    Env → Core → Request → Inputs → String → List Child → World × Run → World × Run
unfolding add_child
add_children env core q stored key [] s = s
add_children env core q stored key (c ∷ cs) s =
    add_children env core q stored key cs (add_child env core q stored key c s)

-- The parent aggregates: it is RUNNING once its children exist.
unfoldable pub aggregating : Env → World → Run → Run
aggregating env w r =
    sync_job_result env.now (worker_name w r) none
      (record r { state = running; started_at = some env.now })

-- What is committed, and the zones to notify after it.
abbrev pub Submitted : Type 0
Submitted = World × Run × List ℕ

unfoldable pub fan_out_to :
    Env → Core → Request → Inputs → String → List Child → World × Run → Submitted
unfolding add_children aggregating notified_zones
fan_out_to env core q stored key cs s =
    let t = add_children env core q stored key cs s in
    let parent = aggregating env t.0 t.1 in (save_run parent t.0, parent, notified_zones [] cs)

-- `_fail_dispatch`, with no zone to notify
unfoldable pub undispatched : Env → DispatchFailure → World × Run → Submitted
undispatched env failure (w, r) =
    let w' = fail_dispatch env failure r w in (w', failed_run env w failure r, [])

abbrev pub fan_out_devices :
    Env → Core → Request → Inputs → String → List Device → World × Run → Submitted
fan_out_devices env core q stored key [] s = undispatched env no_target_devices s
fan_out_devices env core q stored key (d ∷ ds) s = elim (resolutions env core (d ∷ ds)) [
  | none ↦ undispatched env no_zone_for_devices s
  | some resolved ↦
      fan_out_to env core q stored key
        (children_of (env.definition q.job_definition).zone_policy resolved) s
]

-- `_submit_fanout`: a SubmissionError of the target devices ends the run; any other is raised.
abbrev pub fan_out_targets :
    Env → Core → Request → Inputs → World × Run → Result (String × List Device) → Result Submitted
fan_out_targets env core q stored s (ok (key, devices)) =
    ok (fan_out_devices env core q stored key devices s)
fan_out_targets env core q stored s (err (submission_error f)) = ok (undispatched env f s)
fan_out_targets env core q stored s (err e) = err e

unfoldable pub submit_fanout : Env → Core → Request → Inputs → World × Run → Result Submitted
unfolding undispatched resolutions children_of fan_out_to extract_target_devices
submit_fanout env core q stored s =
    fan_out_targets env core q stored s
      (extract_target_devices env core (env.definition q.job_definition) q.inputs)

abbrev pub notify_all : List ℕ → World → World
notify_all [] w = w
notify_all (z ∷ zones) w = notify_all zones (publish (work_available z) w)

-- The end of `submit_run`: the event, and after the commit the notifications.
unfoldable pub announced : Submitted → World × ℕ
announced (w, r, zones) = (notify_all zones (publish_run_event Topic.queued r w), r.pk)

-- The policies `pinned` and `any`: the run goes into its zone, or ends without an event.
unfoldable pub submit_placed : Env → World × Run → Placed → World × ℕ
unfolding announced
submit_placed env (w, r) (none, e) = (fail_dispatch env (or_else e no_zone_resolved) r w, r.pk)
submit_placed env (w, r) (some z, e) =
    let r' = record r { zone = some z } in announced (save_run r' w, r', z ∷ [])

abbrev pub fans_out : ZonePolicy → Bool
fans_out per_device = true
fans_out fan_out = true
fans_out _ = false

-- Another run of the definition that has not ended.
abbrev pub has_active_run : List Run → Run → Bool
has_active_run rows r =
    any
      (λ s.
        s.job_definition == r.job_definition
        && in_non_terminal_states s.state
        && not (s.pk == r.pk))
      rows

unfoldable pub note_singleton : Env → World → Run → Run
note_singleton env w r =
    if (env.definition r.job_definition).singleton && has_active_run w.runs r
    then log_to_result log_info "dispatch" singleton_queued r
    else r

-- The dispatch of a run that has been created.
unfoldable pub dispatch_run : Env → Core → Request → Inputs → World × Run → Result (World × ℕ)
unfolding submit_fanout submit_placed
dispatch_run env core q stored s =
    let d = env.definition q.job_definition in
    if fans_out d.zone_policy
    then (submit_fanout env core q stored s >>= λ t. ok (announced t))
    else ok (submit_placed env s (place env s.0 d))

-- The run is created with its stored inputs, and dispatched.
unfoldable pub create_run : Env → Core → Request → World → Result (World × ℕ)
unfolding new_run insert_run note_singleton dispatch_run
create_run env core q w =
    let stored =
      redact_inputs (schema_properties (env.definition q.job_definition).input_schema) q.inputs in
    let r = new_run env q stored none none none (core.new_key (mentioned w.runs)) in
    let w1 = insert_run r w in
    let r1 = note_singleton env w1 r in dispatch_run env core q stored (save_run r1 w1, r1)

abbrev pub is_valid : Core → JobDefinition → Inputs → Bool
is_valid core d inputs = elim (d.input_schema) [
  | end ↦ true
  | field k v fs ↦ core.validate (field k v fs) inputs
]

-- `submit_run`
unfoldable pub submit_run : Env → Core → Request → World → Result (World × ℕ)
unfolding create_run
submit_run env core q w =
    let d = env.definition q.job_definition in
    if not d.enabled
    then err (submission_error definition_disabled)
    else if q.dryrun && not d.dryrun_supported
    then err (submission_error dryrun_unsupported)
    else if not (is_valid core d q.inputs)
    then err (submission_error invalid_inputs)
    else create_run env core q w
