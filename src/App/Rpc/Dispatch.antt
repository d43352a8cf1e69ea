-- ===== src/App/Rpc/Dispatch.antt =====
-- nautobot_remote_jobs/rpc/handlers.py: the methods, and `dispatch_rpc`.
use nautobot_app_remote_jobs.Shared.{
  ℕ, String, Bool, false, not, Option, none, some, if◌then◌else◌, str_eq,
}
use nautobot_app_remote_jobs.Shared.Json.{Json, null, str, obj, Fields, end, truthy}
use nautobot_app_remote_jobs.App.Records.{Worker, World, Env}
use nautobot_app_remote_jobs.App.Store.{find_worker}
use nautobot_app_remote_jobs.App.Rpc.Params.{Wire, get}
use nautobot_app_remote_jobs.App.Rpc.Handlers.{
  Code, invalid_request, method_not_found, invalid_params, internal_error, unauthorized, Reply,
  Handled, returned, rpc_error, crashed, handle_worker_hello, handle_job_claim, handle_job_status,
  handle_job_complete, handle_worker_rotate,
}

pub data Method : Type 0 where
  worker_hello job_claim job_status job_complete worker_rotate : Method

-- METHODS.get(method)
unfoldable pub method_named : String → Option Method
method_named m =
    if str_eq m "worker.hello"
    then some worker_hello
    else if str_eq m "job.claim"
    then some job_claim
    else if str_eq m "job.status"
    then some job_status
    else if str_eq m "job.complete"
    then some job_complete
    else if str_eq m "worker.rotate"
    then some worker_rotate
    else none

unfoldable pub handle : Method → Env → Wire → Worker → Fields → World → World × Handled
unfolding handle_worker_hello handle_job_claim handle_job_status handle_job_complete
    handle_worker_rotate
handle worker_hello env wire x params w = handle_worker_hello env wire x params w
handle job_claim env wire x params w = handle_job_claim env wire x params w
handle job_status env wire x params w = handle_job_status env wire x params w
handle job_complete env wire x params w = handle_job_complete env wire x params w
handle worker_rotate env wire x params w = handle_worker_rotate wire x w

-- What is in a response, besides the `id` it answers.
pub data Body : Type 0 where
  result : Reply → Body
  error : Code → Body

pub record Response : Type 0 where
  pub id : Json
  pub body : Body

-- frame.get("id"), where null is None
abbrev pub request_id : Option Json → Option Json
request_id none = none
request_id (some null) = none
request_id (some v) = some v

-- A notification has no response.
abbrev pub respond : Option Json → Body → Option Response
respond none b = none
respond (some i) b = some (record { id = i; body = b })

-- A response or none, or an exception that leaves `dispatch_rpc`.
pub data Answer : Type 0 where
  answered : Option Response → Answer
  raised_out : Answer

abbrev pub answer_of : Option Json → Option Body → Answer
answer_of id none = raised_out
answer_of id (some b) = answered (respond id b)

abbrev pub body_of : Handled → Body
body_of (returned r) = result r
body_of (rpc_error c) = error c
body_of crashed = error internal_error

-- `frame.get("params") or {}`, where it is an object
abbrev pub params_of : Option Json → Option Fields
params_of none = some end
params_of (some (obj fs)) = some fs
params_of (some v) = if truthy v then none else some end

abbrev pub called : Env → Wire → Method → World → Worker → Option Fields → World × Body
called env wire m w x none = (w, error invalid_params)
called env wire m w x (some params) = let s = handle m env wire x params w in (s.0, body_of s.1)

abbrev pub called_by : Env → Wire → Fields → Method → World → Option Worker → World × Body
called_by env wire frame m w none = (w, error unauthorized)
called_by env wire frame m w (some x) = called env wire m w x (params_of (get "params" frame))

-- The query of the worker; the ValidationError of a key that is no UUID is not caught.
abbrev pub called_for : Env → Wire → Option ℕ → Fields → World → Method → World × Option Body
called_for env wire none frame w m = (w, none)
called_for env wire (some worker_id) frame w m =
    let s = called_by env wire frame m w (find_worker worker_id w.workers) in (s.0, some s.1)

abbrev pub called_method :
    Env → Wire → Option ℕ → Fields → World → Option Method → World × Option Body
called_method env wire worker_id frame w none = (w, some (error method_not_found))
called_method env wire worker_id frame w (some m) = called_for env wire worker_id frame w m

abbrev pub is_version : Option Json → Bool
is_version (some (str s)) = str_eq s "2.0"
is_version _ = false

abbrev pub dispatch_named :
    Env → Wire → Option ℕ → Fields → World → Option Json → World × Option Body
dispatch_named env wire worker_id frame w (some (str name)) =
    called_method env wire worker_id frame w (method_named name)
dispatch_named env wire worker_id frame w _ = (w, some (error invalid_request))

-- What `dispatch_rpc` does, and what it answers to a request; `none` where it raises. The key of the
-- worker is none where it is no UUID.
unfoldable pub dispatch_body : Env → Wire → Option ℕ → Fields → World → World × Option Body
unfolding handle method_named
dispatch_body env wire worker_id frame w =
    if not (is_version (get "jsonrpc" frame))
    then (w, some (error invalid_request))
    else dispatch_named env wire worker_id frame w (get "method" frame)

-- `dispatch_rpc`
unfoldable pub dispatch_rpc : Env → Wire → Option ℕ → Fields → World → World × Answer
unfolding dispatch_body
dispatch_rpc env wire worker_id frame w =
    let s = dispatch_body env wire worker_id frame w in
    (s.0, answer_of (request_id (get "id" frame)) s.1)
