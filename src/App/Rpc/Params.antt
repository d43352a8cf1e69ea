-- ===== src/App/Rpc/Params.antt =====
-- nautobot_remote_jobs/rpc/handlers.py: what the handlers read of the parameters of a call.
use nautobot_app_remote_jobs.Shared.{
  ℕ, String, Option, none, some, List, [], ◌∷◌, if◌then◌else◌, str_eq, is_some,
}
use nautobot_app_remote_jobs.Shared.Json.{
  Json, null, str, arr, obj, Items, nil, cons, Fields, end, field, truthy,
}
use nautobot_app_remote_jobs.App.Choices.{
  RunState, pending, offered, claimed, running, success, failure, terminated, abandoned, cancelled,
  failed_dispatch,
}
use nautobot_app_remote_jobs.App.Records.{Worker}
use nautobot_app_remote_jobs.App.Completion.{Outcome}

-- How Python and the database read a JSON value, `none` where that raises: the key of a run, `str`,
-- `int`, the columns of a worker; and `derive_session_secret` of a worker's key and generation.
pub record Wire : Type 0 where
  pub run_key : Json → Option ℕ
  pub text : Json → String
  pub int : Json → Option ℕ
  pub agent_version : Json → Option String
  pub capabilities : Json → Option (List ℕ)
  pub capacity : Json → Option ℕ
  pub secret : ℕ → ℕ → String

-- params.get(key); a later member of a name overrides.
abbrev pub get : String → Fields → Option Json
get k end = none
get k (field j v fs) =
    let rest = get k fs in if is_some rest then rest else if str_eq j k then some v else none

-- RunStateChoices, by their values
abbrev pub state_named : String → Option RunState
state_named s =
    if str_eq s "PENDING"
    then some pending
    else if str_eq s "OFFERED"
    then some offered
    else if str_eq s "CLAIMED"
    then some claimed
    else if str_eq s "RUNNING"
    then some running
    else if str_eq s "SUCCESS"
    then some success
    else if str_eq s "FAILURE"
    then some failure
    else if str_eq s "TERMINATED"
    then some terminated
    else if str_eq s "ABANDONED"
    then some abandoned
    else if str_eq s "CANCELLED"
    then some cancelled
    else if str_eq s "FAILED_DISPATCH"
    then some failed_dispatch
    else none

-- The state that a value is equal to, if it is to one.
abbrev pub state_of : Json → Option RunState
state_of (str s) = state_named s
state_of _ = none

-- params.get("state", RUNNING)
unfoldable pub status_state : Option Json → Option RunState
status_state none = some running
status_state (some v) = state_of v

-- A value that is only looked at where it is true.
unfoldable pub if_true : Wire → Option Json → Option String
if_true wire none = none
if_true wire (some v) = if truthy v then some (wire.text v) else none

-- progress and progress.get("message"); `none` where `progress` has no `get`
unfoldable pub progress_of : Wire → Option Json → Option (Option String)
unfolding if_true
progress_of wire none = some none
progress_of wire (some (obj fs)) = some (if_true wire (get "message" fs))
progress_of wire (some v) = if truthy v then none else some none

not_null : Wire → Option Json → Option String
not_null wire none = none
not_null wire (some null) = none
not_null wire (some v) = some (wire.text v)

abbrev or_empty : Option String → String
or_empty none = ""
or_empty (some s) = s

-- The optional parameters of job.complete.
unfoldable pub outcome_of : Wire → Fields → Outcome
unfolding if_true not_null
outcome_of wire params = record {
  exit_code = not_null wire (get "exit_code" params);
  image_digest_executed = or_empty (if_true wire (get "image_digest_executed" params));
  error = if_true wire (get "error" params);
}

-- Each of the identifiers as a key, or none where one of them is malformed.
abbrev and_key : Option ℕ → Option (List ℕ) → Option (List ℕ)
and_key none ks = none
and_key (some k) none = none
and_key (some k) (some ks) = some (k ∷ ks)

item_keys : Wire → Items → Option (List ℕ)
item_keys wire nil = some []
item_keys wire (cons x xs) = and_key (wire.run_key (str (wire.text x))) (item_keys wire xs)

member_keys : Wire → Fields → Option (List ℕ)
member_keys wire end = some []
member_keys wire (field k v fs) = and_key (wire.run_key (str k)) (member_keys wire fs)

-- `params.get("in_flight") or []` as the keys that `reconcile_in_flight` looks for: the elements of a
-- list or the names of an object; the characters of a text are no keys, and the rest has no elements.
unfoldable pub known_runs : Wire → Option Json → Option (List ℕ)
unfolding item_keys member_keys
known_runs wire none = some []
known_runs wire (some (arr xs)) = item_keys wire xs
known_runs wire (some (obj fs)) = member_keys wire fs
known_runs wire (some v) = if truthy v then none else some []

abbrev column {ℓ} : {A : Type ℓ} → (Json → Option A) → A → Option Json → Option A
column read old none = some old
column read old (some v) = read v

-- The fields of the worker that worker.hello sets; `none` where the save raises.
abbrev set_columns : Worker → Option String → Option (List ℕ) → Option ℕ → Option Worker
set_columns x (some v) (some c) (some n) =
    some (record x { agent_version = v; capabilities = c; capacity = n })
set_columns x none c n = none
set_columns x (some v) none n = none
set_columns x (some v) (some c) none = none

unfoldable pub updated_worker : Wire → Fields → Worker → Option Worker
updated_worker wire params x =
    set_columns x (column wire.agent_version x.agent_version (get "agent_version" params))
      (column wire.capabilities x.capabilities (get "capabilities" params))
      (column wire.capacity x.capacity (get "capacity" params))
