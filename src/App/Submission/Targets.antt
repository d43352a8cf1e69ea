-- ===== src/App/Submission/Targets.antt =====
-- nautobot_remote_jobs/dispatch/submission.py: a new run, and the devices that the inputs of a submission
-- name. What core Nautobot, `jsonschema` and `uuid` answer is a parameter.

use nautobot_app_remote_jobs.Shared.{
  ℕ, suc, String, Bool, true, false, Option, none, some, List, [], ◌∷◌, ◌++◌, ◌==◌, ltb,
  if◌then◌else◌, str_eq, is_some,
}
use nautobot_app_remote_jobs.Shared.Json.{
  Json, null, bool, num, str, arr, obj, Items, nil, cons, Fields, end, field, truthy,
}
use nautobot_app_remote_jobs.Shared.Lists.{length, any}
use nautobot_app_remote_jobs.App.Choices.{pending}
use nautobot_app_remote_jobs.App.Records.{
  Run, World, Env, JobResult, status_pending, JobDefinition, no_target_field, unknown_devices,
  too_many_devices, submission_error, Result, ok, err, ◌>>=◌,
}
use nautobot_app_remote_jobs.App.Zones.{Device, Inventory}
use nautobot_app_remote_jobs.App.Submission.{Inputs}

-- `validate` is `jsonschema.validate` as a test; `filter_devices` is the query `pk__in`, or what it
-- raises; `device_id` is `str(device.pk)`; `new_key` is a key for a new row, given those in use.
pub record Core : Type 0 where
  pub inventory : Inventory
  pub validate : Fields → Inputs → Bool
  pub filter_devices : List Json → Result (List Device)
  pub device_id : ℕ → String
  pub new_key : List ℕ → ℕ

-- The keys that the table mentions.
abbrev pub keys_of : Option ℕ → List ℕ
keys_of none = []
keys_of (some k) = k ∷ []

abbrev pub mentioned : List Run → List ℕ
mentioned [] = []
mentioned (r ∷ rows) = r.pk ∷ (keys_of r.parent ++ mentioned rows)

-- `_create_job_result`
abbrev pub create_job_result : ℕ → JobResult
create_job_result user = record {
  status = status_pending;
  worker = "";
  user = user;
  date_started = none;
  date_done = none;
  revocation_type = none;
  revoked_by = none;
  revoked_at = none;
  cancel_requested = false;
  logs = [];
}

-- What a submission asks for: the arguments of `submit_run`.
pub record Request : Type 0 where
  pub job_definition : ℕ
  pub user : ℕ
  pub inputs : Inputs
  pub dryrun : Bool

-- RemoteJobRun.objects.create(...)
unfoldable pub new_run : Env → Request → Inputs → Option ℕ → Option ℕ → Option ℕ → ℕ → Run
new_run env q stored parent z device pk = record {
  pk = pk;
  job_definition = q.job_definition;
  job_result = create_job_result q.user;
  parent = parent;
  zone = z;
  worker = none;
  device = device;
  state = pending;
  inputs = stored;
  dryrun = q.dryrun;
  lease_expires_at = none;
  attempt = 1;
  image_digest_executed = "";
  scoped_token = none;
  queued_at = some env.now;
  offered_at = none;
  claimed_at = none;
  started_at = none;
  finished_at = none;
}

unfoldable pub insert_run : Run → World → World
insert_run r w = record w { runs = r ∷ w.runs }

-- The member of an object; a later one overrides.
abbrev pub get : String → Fields → Option Json
get k end = none
get k (field j v fs) =
    let rest = get k fs in if is_some rest then rest else if str_eq j k then some v else none

abbrev object_fields : Option Json → Fields
object_fields (some (obj fs)) = fs
object_fields _ = end

-- `(schema or {}).get("properties", {})`
unfoldable pub schema_properties : Fields → Fields
schema_properties schema = object_fields (get "properties" schema)

abbrev is_device : Option Json → Bool
is_device (some (str s)) = str_eq s "device"
is_device _ = false

-- subschema.get(TARGET_ANNOTATION) == "device"
unfoldable pub is_target : Json → Bool
is_target (obj fs) = is_device (get "x-remote-jobs-target" fs)
is_target _ = false

-- `target_device_field`, over the schema's "properties"
unfoldable pub target_device_field : Fields → Option String
unfolding is_target
target_device_field end = none
target_device_field (field k subschema properties) =
    let rest = target_device_field properties in if is_target subschema then some k else rest

abbrev items : Items → List Json
items nil = []
items (cons x xs) = x ∷ items xs

-- `inputs.get(field) or []`, in a list if it is none
unfoldable pub as_list : Option Json → List Json
as_list none = []
as_list (some (arr xs)) = items xs
as_list (some v) = if truthy v then v ∷ [] else []

abbrev pub input : String → Inputs → Option Json
input k [] = none
input k (p ∷ ps) = let rest = input k ps in if str_eq p.0 k then some p.1 else rest

-- Equality of two identifiers as Python's `set` takes it; a list or an object is unhashable.
abbrev pub same_id : Json → Json → Bool
same_id (str a) (str b) = str_eq a b
same_id (num a) (num b) = a == b
same_id (num a) (bool b) = a == (if b then 1 else 0)
same_id (bool a) (num b) = (if a then 1 else 0) == b
same_id (bool a) (bool b) = (if a then 1 else 0) == (if b then 1 else 0)
same_id null null = true
same_id _ _ = false

-- `len(set(device_ids))`
unfoldable pub count_distinct : List Json → ℕ
count_distinct [] = 0
count_distinct (x ∷ xs) =
    let rest = count_distinct xs in if any (same_id x) xs then rest else suc rest

-- The check of the number of rows found against the identifiers asked for.
all_found : List Json → List Device → Result (List Device)
all_found ids devices =
    if length devices == count_distinct ids
    then ok devices
    else err (submission_error unknown_devices)

targets_in : Env → Core → String → List Json → Result (String × List Device)
unfolding all_found
targets_in env core key ids =
    if ltb env.settings.fanout_max_devices (length ids)
    then err (submission_error (too_many_devices (length ids) env.settings.fanout_max_devices))
    else core.filter_devices ids >>= all_found ids >>= λ devices. ok (key, devices)

targets_of : Env → Core → Inputs → Option String → Result (String × List Device)
unfolding targets_in as_list
targets_of env core inputs none = err (submission_error no_target_field)
targets_of env core inputs (some key) = targets_in env core key (as_list (input key inputs))

-- `extract_target_devices`
unfoldable pub extract_target_devices :
    Env → Core → JobDefinition → Inputs → Result (String × List Device)
unfolding targets_of target_device_field schema_properties
extract_target_devices env core d inputs =
    targets_of env core inputs (target_device_field (schema_properties d.input_schema))
