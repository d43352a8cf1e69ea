-- ===== src/App/Rpc/Handlers.antt =====
-- nautobot_remote_jobs/rpc/handlers.py: the handlers of the worker's calls. The texts
-- of errors and the log sink's settings in the reply of worker.hello are left out.
use nautobot_app_remote_jobs.Shared.{
  ℕ, suc, min, String, Bool, false, not, Option, none, some, List, [], ◌∷◌, ◌==◌, if◌then◌else◌,
  or_else,
}
use nautobot_app_remote_jobs.Shared.Json.{Json, num, Fields}
use nautobot_app_remote_jobs.App.Choices.{RunState}
use nautobot_app_remote_jobs.App.Records.{
  Worker, World, Env, Error, unknown_run, illegal_transition_code, lease_expired,
  illegal_transition, submission_error, does_not_exist, nested_children, Result, ok, err,
}
use nautobot_app_remote_jobs.App.Store.{touch}
use nautobot_app_remote_jobs.App.Claims.{JobOffer, claim_runs}
use nautobot_app_remote_jobs.App.Completion.{
  StatusReply, is_completion, report_status, complete_run, reconcile_in_flight,
}
use nautobot_app_remote_jobs.App.Rpc.Params.{
  Wire, get, state_of, status_state, progress_of, outcome_of, known_runs, updated_worker,
}

-- The error codes, JSON-RPC's and the app's (constants.py).
pub data Code : Type 0 where
  invalid_request method_not_found invalid_params internal_error : Code
  unauthorized unknown_run_code illegal_transition_rpc lease_expired_rpc draining : Code

-- The results of the methods.
pub data Reply : Type 0 where
  hello_reply : ℕ → Bool → ℕ → Reply
  offers_reply : List JobOffer → Reply
  status_reply : StatusReply → Reply
  complete_reply : Reply
  secret_reply : String → Reply

-- A handler returns, raises RPCError, or raises anything else.
pub data Handled : Type 0 where
  returned : Reply → Handled
  rpc_error : Code → Handled
  crashed : Handled

-- ClaimError becomes RPCError; any other exception is left to `dispatch_rpc`.
abbrev pub raised : Error → Handled
raised unknown_run = rpc_error unknown_run_code
raised illegal_transition_code = rpc_error illegal_transition_rpc
raised lease_expired = rpc_error lease_expired_rpc
raised (illegal_transition a b) = crashed
raised (submission_error d) = crashed
raised does_not_exist = crashed
raised nested_children = crashed

abbrev pub set_worker : Worker → List Worker → List Worker
set_worker x [] = []
set_worker x (y ∷ rows) = (if y.pk == x.pk then x else y) ∷ set_worker x rows

-- worker.save()
unfoldable pub save_worker : Worker → World → World
save_worker x w = record w { workers = set_worker x w.workers }

-- claims.hello_result
abbrev pub hello_result : Env → Worker → Reply
hello_result env x = hello_reply env.now x.draining env.settings.lease_seconds

abbrev pub reconciled : Env → Worker → World → Result World → World × Handled
reconciled env x w (ok w') = (w', returned (hello_result env x))
reconciled env x w (err e) = (w, crashed)

abbrev pub hello_known : Env → Worker → World → Option (List ℕ) → World × Handled
hello_known env x w none = (w, crashed)
hello_known env x w (some known) = reconciled env x w (reconcile_in_flight env x known w)

abbrev pub hello_updated : Env → Wire → Fields → World → Option Worker → World × Handled
hello_updated env wire params w none = (w, crashed)
hello_updated env wire params w (some x) =
    hello_known env x (touch env x.pk (save_worker x w)) (known_runs wire (get "in_flight" params))

-- `handle_worker_hello`: the saves of the worker are committed before the reconciliation.
unfoldable pub handle_worker_hello : Env → Wire → Worker → Fields → World → World × Handled
unfolding save_worker known_runs updated_worker
handle_worker_hello env wire x params w =
    hello_updated env wire params w (updated_worker wire params x)

-- Each offer is a transaction of its own: where an exception ends the loop, as malformed capabilities of
-- a later candidate do, the offers made before it stay and are not answered.
abbrev pub claims_ended : Env → Worker → ℕ → World → Option ℕ → World × Handled
claims_ended env x max_offers w none =
    let s = claim_runs env x max_offers w in (s.0, returned (offers_reply s.1))
claims_ended env x max_offers w (some made) =
    ((claim_runs env x (min made max_offers) w).0, crashed)

abbrev pub claimed_up_to : Env → Worker → World → Option ℕ → World × Handled
claimed_up_to env x w none = (w, crashed)
claimed_up_to env x w (some max_offers) = claims_ended env x max_offers w env.claim_stops

-- `handle_job_claim`
unfoldable pub handle_job_claim : Env → Wire → Worker → Fields → World → World × Handled
handle_job_claim env wire x params w =
    if x.draining
    then (w, rpc_error draining)
    else if not x.enabled
    then (w, rpc_error unauthorized)
    else claimed_up_to env x w (wire.int (or_else (get "max" params) (num 1)))

-- Malformed progress raises within the transaction, once the run has passed its tests.
abbrev pub status_handled :
    World → Option (Option String) → Result (World × StatusReply) → World × Handled
status_handled w progress (err e) = (w, raised e)
status_handled w none (ok s) = (w, crashed)
status_handled w (some p) (ok s) = (s.0, returned (status_reply s.1))

abbrev pub status_for :
    Env → Worker → Option RunState → Option (Option String) → World → Option ℕ → World × Handled
status_for env x state progress w none = (w, crashed)
status_for env x state progress w (some run_id) =
    status_handled w progress (report_status env x run_id state (or_else progress none) w)

abbrev pub status_call : Env → Wire → Worker → Fields → World → Option Json → World × Handled
status_call env wire x params w none = (w, rpc_error invalid_params)
status_call env wire x params w (some run_id) =
    status_for env x (status_state (get "state" params)) (progress_of wire (get "progress" params))
      w (wire.run_key run_id)

-- `handle_job_status`
unfoldable pub handle_job_status : Env → Wire → Worker → Fields → World → World × Handled
unfolding status_state progress_of
handle_job_status env wire x params w = status_call env wire x params w (get "run_id" params)

abbrev pub complete_handled : World → Result World → World × Handled
complete_handled w (err e) = (w, raised e)
complete_handled w (ok w') = (w', returned complete_reply)

abbrev pub may_complete : Option RunState → Bool
may_complete none = false
may_complete (some s) = is_completion s

-- The state is tested before the run is looked up by its key.
abbrev pub complete_for :
    Env → Wire → Worker → Fields → Option RunState → World → Option ℕ → World × Handled
complete_for env wire x params state w (some run_id) =
    complete_handled w (complete_run env x run_id state (outcome_of wire params) w)
complete_for env wire x params state w none =
    if may_complete state then (w, crashed) else (w, raised illegal_transition_code)

abbrev pub complete_call :
    Env → Wire → Worker → Fields → World → Option Json → Option Json → World × Handled
complete_call env wire x params w none state = (w, rpc_error invalid_params)
complete_call env wire x params w (some run_id) none = (w, rpc_error invalid_params)
complete_call env wire x params w (some run_id) (some state) =
    complete_for env wire x params (state_of state) w (wire.run_key run_id)

-- `handle_job_complete`
unfoldable pub handle_job_complete : Env → Wire → Worker → Fields → World → World × Handled
unfolding outcome_of
handle_job_complete env wire x params w =
    complete_call env wire x params w (get "run_id" params) (get "state" params)

-- `handle_worker_rotate`; the fingerprint of the secret is not kept.
unfoldable pub handle_worker_rotate : Wire → Worker → World → World × Handled
unfolding save_worker
handle_worker_rotate wire x w =
    let x' = record x { secret_generation = suc x.secret_generation } in
    (save_worker x' w, returned (secret_reply (wire.secret x'.pk x'.secret_generation)))
