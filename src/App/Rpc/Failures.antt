-- ===== src/App/Rpc/Failures.antt =====
-- What a handler of rpc/handlers.py leaves where it raises.
use nautobot_app_remote_jobs.Shared.{
  ℕ, min, List, String, ◌≡◌, ◌≢◌, ◌⊎◌, inl, inr, refl, Option, none, some, not, if_both,
}
use nautobot_app_remote_jobs.Shared.Json.{Json, Fields}
use nautobot_app_remote_jobs.App.Choices.{RunState}
use nautobot_app_remote_jobs.App.Records.{
  Worker, World, Env, Error, unknown_run, illegal_transition_code, lease_expired,
  illegal_transition, submission_error, does_not_exist, nested_children, Result, ok, err,
}
use nautobot_app_remote_jobs.App.Store.{touch}
use nautobot_app_remote_jobs.App.Claims.{claim_runs}
use nautobot_app_remote_jobs.App.Completion.{StatusReply, reconcile_in_flight}
use nautobot_app_remote_jobs.App.Rpc.Params.{
  Wire, get, state_of, status_state, progress_of, known_runs, updated_worker,
}
use nautobot_app_remote_jobs.App.Rpc.Handlers.{
  internal_error, Handled, returned, rpc_error, crashed, raised, save_worker, reconciled,
  hello_known, hello_updated, handle_worker_hello, claims_ended, claimed_up_to, handle_job_claim,
  status_handled, status_for, status_call, complete_call, handle_job_status, complete_handled,
  may_complete, complete_for, handle_job_complete, handle_worker_rotate,
}
use nautobot_app_remote_jobs.App.Rpc.Dispatch.{
  Method, worker_hello, job_claim, job_status, job_complete, worker_rotate, handle,
}

-- A call that raises RPCError changes nothing, and one that crashes no run.
abbrev pub Failed : World → World × Handled → Type 0
Failed w (v, returned r) = Unit
Failed w (v, rpc_error c) = (v ≡ w) × (c ≢ internal_error)
Failed w (v, crashed) = v.runs ≡ w.runs

raised-Failed : (w : World) (e : Error) → Failed w (w, raised e)
raised-Failed w unknown_run = (refl, λ t. cc)
raised-Failed w illegal_transition_code = (refl, λ t. cc)
raised-Failed w lease_expired = (refl, λ t. cc)
raised-Failed w (illegal_transition a b) = refl
raised-Failed w (submission_error d) = refl
raised-Failed w does_not_exist = refl
raised-Failed w nested_children = refl

reconciled-Failed :
    (env : Env) (x : Worker) (w v : World) (res : Result World)
    → v.runs ≡ w.runs
    → Failed w (reconciled env x v res)
reconciled-Failed env x w v (ok u) e = tt
reconciled-Failed env x w v (err c) e = e

hello_known-Failed :
    (env : Env) (x : Worker) (w v : World) (known : Option (List ℕ))
    → v.runs ≡ w.runs
    → Failed w (hello_known env x v known)
hello_known-Failed env x w v none e = e
hello_known-Failed env x w v (some ks) e =
    reconciled-Failed env x w v (reconcile_in_flight env x ks v) e

hello-Failed :
    (env : Env) (wire : Wire) (params : Fields) (w : World) (o : Option Worker)
    → Failed w (hello_updated env wire params w o)
hello-Failed env wire params w none = refl
hello-Failed env wire params w (some x) =
    hello_known-Failed env x w (touch env x.pk (save_worker x w))
      (known_runs wire (get "in_flight" params)) (unfold touch save_worker in refl)

-- The claims of a call that an exception ended.
abbrev pub Stopped : Env → Option Worker → World → World → Type 0
Stopped env o w v =
    (x : Worker) × (made : ℕ) × (max_offers : ℕ) × (o ≡ some x)
    × (env.claim_stops ≡ some made)
    × (v ≡ (claim_runs env x (min made max_offers) w).0)

claims_ended-Failed :
    (env : Env) (x : Worker) (n : ℕ) (w : World) (o : Option ℕ)
    → env.claim_stops ≡ o
    → Failed w (claims_ended env x n w o)
      ⊎ (((claims_ended env x n w o).1 ≡ crashed)
          × Stopped env (some x) w (claims_ended env x n w o).0)
claims_ended-Failed env x n w none e = inl tt
claims_ended-Failed env x n w (some made) e = inr (refl, (x, made, n, refl, e, refl))

abbrev pub Ended : Env → Worker → World → World × Handled → Type 0
Ended env x w s = Failed w s ⊎ ((s.1 ≡ crashed) × Stopped env (some x) w s.0)

claimed_up_to-Ended :
    (env : Env) (x : Worker) (w : World) (o : Option ℕ) → Ended env x w (claimed_up_to env x w o)
claimed_up_to-Ended env x w none = inl refl
claimed_up_to-Ended env x w (some n) = claims_ended-Failed env x n w env.claim_stops refl

claim-Ended :
    (env : Env) (wire : Wire) (x : Worker) (params : Fields) (w : World)
    → Ended env x w (handle_job_claim env wire x params w)
unfolding handle_job_claim
claim-Ended env wire x params w =
    if_both (Ended env x w) x.draining (inl (refl, λ t. cc)) (
      if_both (Ended env x w) (not x.enabled) (inl (refl, λ t. cc)) (claimed_up_to-Ended env x w _))

status_handled-Failed :
    (w : World) (p : Option (Option String)) (res : Result (World × StatusReply))
    → Failed w (status_handled w p res)
status_handled-Failed w p (err e) = raised-Failed w e
status_handled-Failed w none (ok s) = refl
status_handled-Failed w (some p) (ok s) = tt

status_for-Failed :
    (env : Env) (x : Worker) (state : Option RunState) (p : Option (Option String)) (w : World)
    (o : Option ℕ)
    → Failed w (status_for env x state p w o)
status_for-Failed env x state p w none = refl
status_for-Failed env x state p w (some k) = status_handled-Failed w p _

status_call-Failed :
    (env : Env) (wire : Wire) (x : Worker) (params : Fields) (w : World) (o : Option Json)
    → Failed w (status_call env wire x params w o)
status_call-Failed env wire x params w none = (refl, λ t. cc)
status_call-Failed env wire x params w (some k) =
    status_for-Failed env x (status_state (get "state" params))
      (progress_of wire (get "progress" params)) w (wire.run_key k)

complete_handled-Failed : (w : World) (res : Result World) → Failed w (complete_handled w res)
complete_handled-Failed w (err e) = raised-Failed w e
complete_handled-Failed w (ok v) = tt

complete_for-Failed :
    (env : Env) (wire : Wire) (x : Worker) (params : Fields) (state : Option RunState) (w : World)
    (o : Option ℕ)
    → Failed w (complete_for env wire x params state w o)
complete_for-Failed env wire x params state w (some k) = complete_handled-Failed w _
complete_for-Failed env wire x params state w none =
    if_both (Failed w) (may_complete state) refl (raised-Failed w illegal_transition_code)

complete_call-Failed :
    (env : Env) (wire : Wire) (x : Worker) (params : Fields) (w : World) (o p : Option Json)
    → Failed w (complete_call env wire x params w o p)
complete_call-Failed env wire x params w none p = (refl, λ t. cc)
complete_call-Failed env wire x params w (some k) none = (refl, λ t. cc)
complete_call-Failed env wire x params w (some k) (some s) =
    complete_for-Failed env wire x params (state_of s) w (wire.run_key k)

pub handle-Ended :
    (m : Method) (env : Env) (wire : Wire) (x : Worker) (params : Fields) (w : World)
    → Ended env x w (handle m env wire x params w)
unfolding handle
handle-Ended worker_hello env wire x params w =
    unfold handle_worker_hello in
    inl (hello-Failed env wire params w (updated_worker wire params x))
handle-Ended job_claim env wire x params w = claim-Ended env wire x params w
handle-Ended job_status env wire x params w =
    unfold handle_job_status in inl (status_call-Failed env wire x params w (get "run_id" params))
handle-Ended job_complete env wire x params w =
    unfold handle_job_complete in
    inl (complete_call-Failed env wire x params w (get "run_id" params) (get "state" params))
handle-Ended worker_rotate env wire x params w = unfold handle_worker_rotate in inl tt
