-- ===== src/App/Rpc/Keeps.antt =====
-- `dispatch_rpc` of rpc/handlers.py keeps the table of runs, whatever frame it is given.
use nautobot_app_remote_jobs.Shared.{
  ℕ, min, refl, Option, none, some, List, String, not, if_both, or_else,
}
use nautobot_app_remote_jobs.Shared.Json.{
  Json, Fields, null, bool, num, negative, float, str, arr, obj,
}
use nautobot_app_remote_jobs.App.Choices.{RunState}
use nautobot_app_remote_jobs.App.Records.{Worker, World, Env, Result, ok, err}
use nautobot_app_remote_jobs.App.Store.{find_worker, touch}
use nautobot_app_remote_jobs.App.Store.Sound.{WellFormed, Preserved}
use nautobot_app_remote_jobs.App.Store.Keeps.{OkKeeps}
use nautobot_app_remote_jobs.App.Claims.Grant.{claim_runs-Preserved}
use nautobot_app_remote_jobs.App.Completion.{StatusReply, report_status, complete_run}
use nautobot_app_remote_jobs.App.Completion.Status.{report_status-OkKeeps}
use nautobot_app_remote_jobs.App.Completion.Keeps.{
  complete_run-OkKeeps, reconcile_in_flight-Preserved,
}
use nautobot_app_remote_jobs.App.Rpc.Params.{
  Wire, get, state_of, status_state, progress_of, outcome_of, known_runs, updated_worker,
}
use nautobot_app_remote_jobs.App.Rpc.Handlers.{
  Handled, save_worker, hello_known, hello_updated, handle_worker_hello, claims_ended,
  claimed_up_to, handle_job_claim, status_handled, status_for, status_call, complete_call,
  handle_job_status, complete_handled, may_complete, complete_for, handle_job_complete,
  handle_worker_rotate,
}
use nautobot_app_remote_jobs.App.Rpc.Dispatch.{
  Method, worker_hello, job_claim, job_status, job_complete, worker_rotate, method_named, handle,
  Body, params_of, called, called_by, called_for, called_method, is_version, dispatch_named,
  dispatch_body, dispatch_rpc,
}

abbrev Keeps {ℓ} : {A : Type ℓ} → Env → World → World × A → Type 0
Keeps env w s = Preserved env w.runs s.0.runs

hello_known-Keeps :
    (env : Env) (x : Worker) (w : World) (known : Option (List ℕ))
    → WellFormed env w.runs
    → Keeps env w (hello_known env x w known)
hello_known-Keeps env x w none h = (h, refl)
hello_known-Keeps env x w (some ks) h =
    let (v, done, p) = reconcile_in_flight-Preserved env x ks w h in rw done p

hello-Keeps :
    (env : Env) (wire : Wire) (params : Fields) (w : World) (o : Option Worker)
    → WellFormed env w.runs
    → Keeps env w (hello_updated env wire params w o)
hello-Keeps env wire params w none h = (h, refl)
hello-Keeps env wire params w (some x) h =
    unfold touch save_worker in
    hello_known-Keeps env x (touch env x.pk (save_worker x w))
      (known_runs wire (get "in_flight" params)) h

claims_ended-Keeps :
    (env : Env) (x : Worker) (n : ℕ) (w : World) (o : Option ℕ)
    → WellFormed env w.runs
    → Keeps env w (claims_ended env x n w o)
claims_ended-Keeps env x n w none h = claim_runs-Preserved env x n w h
claims_ended-Keeps env x n w (some made) h = claim_runs-Preserved env x (min made n) w h

claimed_up_to-Keeps :
    (env : Env) (x : Worker) (w : World) (o : Option ℕ)
    → WellFormed env w.runs
    → Keeps env w (claimed_up_to env x w o)
claimed_up_to-Keeps env x w none h = (h, refl)
claimed_up_to-Keeps env x w (some n) h = claims_ended-Keeps env x n w env.claim_stops h

claim-Keeps :
    (env : Env) (wire : Wire) (x : Worker) (params : Fields) (w : World)
    → WellFormed env w.runs
    → Keeps env w (handle_job_claim env wire x params w)
unfolding handle_job_claim
claim-Keeps env wire x params w h =
    if_both {A = World × Handled} (Keeps env w) x.draining (h, refl)
      (if_both {A = World × Handled} (Keeps env w) (not x.enabled) (h, refl)
        (claimed_up_to-Keeps env x w (wire.int (or_else (get "max" params) (num 1))) h))

status_handled-Keeps :
    (env : Env) (w : World) (p : Option (Option String)) (res : Result (World × StatusReply))
    → WellFormed env w.runs
    → OkKeeps (λ s. s.0) env w.runs res
    → Keeps env w (status_handled w p res)
status_handled-Keeps env w p (err e) h k = (h, refl)
status_handled-Keeps env w none (ok s) h k = (h, refl)
status_handled-Keeps env w (some p) (ok s) h k = k

status_for-Keeps :
    (env : Env) (x : Worker) (state : Option RunState) (p : Option (Option String)) (w : World)
    (o : Option ℕ)
    → WellFormed env w.runs
    → Keeps env w (status_for env x state p w o)
status_for-Keeps env x state p w none h = (h, refl)
status_for-Keeps env x state p w (some k) h =
    status_handled-Keeps env w p (report_status env x k state (or_else p none) w) h
      (report_status-OkKeeps env x k state (or_else p none) w h)

status_call-Keeps :
    (env : Env) (wire : Wire) (x : Worker) (params : Fields) (w : World) (o : Option Json)
    → WellFormed env w.runs
    → Keeps env w (status_call env wire x params w o)
status_call-Keeps env wire x params w none h = (h, refl)
status_call-Keeps env wire x params w (some k) h =
    status_for-Keeps env x (status_state (get "state" params))
      (progress_of wire (get "progress" params)) w (wire.run_key k) h

complete_handled-Keeps :
    (env : Env) (w : World) (res : Result World)
    → WellFormed env w.runs
    → OkKeeps (λ v. v) env w.runs res
    → Keeps env w (complete_handled w res)
complete_handled-Keeps env w (err e) h k = (h, refl)
complete_handled-Keeps env w (ok v) h k = k

complete_for-Keeps :
    (env : Env) (wire : Wire) (x : Worker) (params : Fields) (state : Option RunState) (w : World)
    (o : Option ℕ)
    → WellFormed env w.runs
    → Keeps env w (complete_for env wire x params state w o)
complete_for-Keeps env wire x params state w (some k) h =
    complete_handled-Keeps env w (complete_run env x k state (outcome_of wire params) w) h
      (complete_run-OkKeeps env x k state (outcome_of wire params) w h)
complete_for-Keeps env wire x params state w none h =
    if_both {A = World × Handled} (Keeps env w) (may_complete state) (h, refl) (h, refl)

complete_call-Keeps :
    (env : Env) (wire : Wire) (x : Worker) (params : Fields) (w : World) (o p : Option Json)
    → WellFormed env w.runs
    → Keeps env w (complete_call env wire x params w o p)
complete_call-Keeps env wire x params w none p h = (h, refl)
complete_call-Keeps env wire x params w (some k) none h = (h, refl)
complete_call-Keeps env wire x params w (some k) (some s) h =
    complete_for-Keeps env wire x params (state_of s) w (wire.run_key k) h

handle-Keeps :
    (m : Method) (env : Env) (wire : Wire) (x : Worker) (params : Fields) (w : World)
    → WellFormed env w.runs
    → Keeps env w (handle m env wire x params w)
unfolding handle
handle-Keeps worker_hello env wire x params w h =
    unfold handle_worker_hello in hello-Keeps env wire params w (updated_worker wire params x) h
handle-Keeps job_claim env wire x params w h = claim-Keeps env wire x params w h
handle-Keeps job_status env wire x params w h =
    unfold handle_job_status in status_call-Keeps env wire x params w (get "run_id" params) h
handle-Keeps job_complete env wire x params w h =
    unfold handle_job_complete in
    complete_call-Keeps env wire x params w (get "run_id" params) (get "state" params) h
handle-Keeps worker_rotate env wire x params w h =
    unfold handle_worker_rotate save_worker in (h, refl)

called-Keeps :
    (env : Env) (wire : Wire) (m : Method) (w : World) (x : Worker) (o : Option Fields)
    → WellFormed env w.runs
    → Keeps env w (called env wire m w x o)
called-Keeps env wire m w x none h = (h, refl)
called-Keeps env wire m w x (some params) h = handle-Keeps m env wire x params w h

called_by-Keeps :
    (env : Env) (wire : Wire) (frame : Fields) (m : Method) (w : World) (o : Option Worker)
    → WellFormed env w.runs
    → Keeps env w (called_by env wire frame m w o)
called_by-Keeps env wire frame m w none h = (h, refl)
called_by-Keeps env wire frame m w (some x) h =
    called-Keeps env wire m w x (params_of (get "params" frame)) h

called_for-Keeps :
    (env : Env) (wire : Wire) (k : Option ℕ) (frame : Fields) (w : World) (m : Method)
    → WellFormed env w.runs
    → Keeps env w (called_for env wire k frame w m)
called_for-Keeps env wire none frame w m h = (h, refl)
called_for-Keeps env wire (some k) frame w m h =
    called_by-Keeps env wire frame m w (find_worker k w.workers) h

called_method-Keeps :
    (env : Env) (wire : Wire) (k : Option ℕ) (frame : Fields) (w : World) (o : Option Method)
    → WellFormed env w.runs
    → Keeps env w (called_method env wire k frame w o)
called_method-Keeps env wire k frame w none h = (h, refl)
called_method-Keeps env wire k frame w (some m) h = called_for-Keeps env wire k frame w m h

dispatch_named-Keeps :
    (env : Env) (wire : Wire) (k : Option ℕ) (frame : Fields) (w : World) (o : Option Json)
    → WellFormed env w.runs
    → Keeps env w (dispatch_named env wire k frame w o)
dispatch_named-Keeps env wire k frame w none h = (h, refl)
dispatch_named-Keeps env wire k frame w (some (str s)) h =
    called_method-Keeps env wire k frame w (method_named s) h
dispatch_named-Keeps env wire k frame w (some null) h = (h, refl)
dispatch_named-Keeps env wire k frame w (some (bool b)) h = (h, refl)
dispatch_named-Keeps env wire k frame w (some (num n)) h = (h, refl)
dispatch_named-Keeps env wire k frame w (some (negative n)) h = (h, refl)
dispatch_named-Keeps env wire k frame w (some (float b m e)) h = (h, refl)
dispatch_named-Keeps env wire k frame w (some (arr xs)) h = (h, refl)
dispatch_named-Keeps env wire k frame w (some (obj fs)) h = (h, refl)

-- Whatever frame a worker sends, its handler leaves a well-formed table of runs well-formed, with the
-- same rows up to what handlers change.
pub dispatch_rpc-Preserved :
    (env : Env) (wire : Wire) (worker_id : Option ℕ) (frame : Fields) (w : World)
    → WellFormed env w.runs
    → Preserved env w.runs (dispatch_rpc env wire worker_id frame w).0.runs
unfolding dispatch_rpc dispatch_body
dispatch_rpc-Preserved env wire k frame w h =
    if_both {A = World × Option Body} (Keeps env w) (not (is_version (get "jsonrpc" frame)))
      (h, refl) (dispatch_named-Keeps env wire k frame w (get "method" frame) h)
