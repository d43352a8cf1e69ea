-- ===== src/App/Completion/Status.antt =====
-- `report_status` and `reconcile_in_flight` of dispatch/claims.py keep the table of runs.
use nautobot_app_remote_jobs.Shared.{
  ℕ, ◌+◌, String, Bool, true, false, ◌≡◌, ◌⊎◌, refl, Option, none, some, arith, ◌&&◌, Bool-cases,
  inl, inr, is_key, str_eq, if_both,
}
use nautobot_app_remote_jobs.App.Choices.{RunState, claimed, running}
use nautobot_app_remote_jobs.App.Records.{
  Run, Worker, World, Env, Result, ok, ◌>>=◌, log_info, progress_message,
}
use nautobot_app_remote_jobs.App.Runs.{state_eq, is_terminal, enter, transition, log_to_result}
use nautobot_app_remote_jobs.App.Runs.Mirror.{IsMirrored, transition-IsMirrored}
use nautobot_app_remote_jobs.App.Store.{
  in_flight, find_run, set_run, save_run, worker_name, publish_run_event, touch,
}
use nautobot_app_remote_jobs.App.Store.Rows.{shape, Listed, All-find_run, find_run-Listed}
use nautobot_app_remote_jobs.App.Store.Sound.{IsSound, WellFormed, Preserved, set_run-Preserved}
use nautobot_app_remote_jobs.App.Store.Keeps.{OkKeeps}
use nautobot_app_remote_jobs.App.Store.Result.{log-IsSound, lease-IsSound}
use nautobot_app_remote_jobs.App.Completion.{
  owned_by, get_worker_run, start_claimed, log_progress, renewed_run, finish_status, status_of,
  report_status,
}

log_progress-IsSound :
    (env : Env) (progress : Option String) (r : Run)
    → IsSound env r
    → IsSound env (log_progress progress r)
unfolding log_progress
log_progress-IsSound env none r h = h
log_progress-IsSound env (some m) r h =
    if_both (IsSound env) (str_eq m "") h
      (log-IsSound env log_info "progress" (progress_message m) r h)

shape-log_progress :
    (progress : Option String) (r : Run) → shape (log_progress progress r) ≡ shape r
unfolding log_progress log_to_result
shape-log_progress none r = refl
shape-log_progress (some m) r = if_both (λ x. shape x ≡ shape r) (str_eq m "") refl refl

finish_status-Preserved :
    (env : Env) (x : Worker) (progress : Option String) (w : World) (r : Run) (started : Bool)
    → WellFormed env w.runs
    → Listed r w.runs
    → IsSound env r
    → Preserved env w.runs (finish_status env x progress w (r, started)).0.runs
unfolding finish_status touch publish_run_event save_run renewed_run
finish_status-Preserved env x progress w r started h m s =
    let r1 : Run = record r { lease_expires_at = some (env.now + env.settings.lease_seconds) } in
    let r2 : Run = log_progress progress r1 in
    let p : Preserved env w.runs (set_run r2 w.runs) =
      set_run-Preserved env r2 w.runs h (rw (shape-log_progress progress r1) m)
        (log_progress-IsSound env progress r1 (lease-IsSound env _ r s)) in
    if_both {A = World} (λ v. Preserved env w.runs v.runs) started p p

started_run-IsSound :
    (env : Env) (name : Option String) (r : Run)
    → state_eq r.state claimed ≡ true
    → IsSound env r
    → IsSound env (enter env.now name running r)
unfolding enter
started_run-IsSound env name r c h =
    let m : IsMirrored (enter env.now name running r) =
      transition-IsMirrored env.now name running r h.mirrored
        (unfold transition in ground (arith, c)) in
    record {
      mirrored = record {
        status_mirrored = m.status_mirrored;
        finish_set = λ e. m.finish_set (unfold is_terminal in e);
        finish_mirrored = λ e. m.finish_mirrored (unfold is_terminal in e);
        revocation_mirrored = m.revocation_mirrored;
      };
      token_held = λ e. refl;
      lease_held = λ p q. h.lease_held p (ground (arith, c));
      worker_set = λ e. ground arith;
      zoneless_token = h.zoneless_token;
      zoneless_worker = h.zoneless_worker;
      attempts = h.attempts;
    }

abbrev started_run : Env → World → Run → Run
started_run env w r = enter env.now (worker_name w r) running r

start_claimed-cases :
    (env : Env) (w : World) (state : Option RunState) (r : Run)
    → (start_claimed env w state r ≡ ok (r, false))
      ⊎ ((start_claimed env w state r ≡ ok (started_run env w r, true))
          × (state_eq r.state claimed ≡ true))
unfolding start_claimed transition
start_claimed-cases env w none r = inl refl
start_claimed-cases env w (some s) r =
    elim (Bool-cases (state_eq s running && state_eq r.state claimed)) [
      | inl e ↦ inr (ground (arith, e), ground (arith, e))
      | inr e ↦ inl (ground (arith, e))
    ]

status_of-OkKeeps :
    (env : Env) (x : Worker) (state : Option RunState) (progress : Option String) (w : World)
    (r : Run)
    → WellFormed env w.runs
    → Listed r w.runs
    → IsSound env r
    → OkKeeps (λ s. s.0) env w.runs (status_of env x state progress w r)
unfolding status_of
status_of-OkKeeps env x state progress w r h m s = elim (Bool-cases (in_flight r.state)) [
  | inl f ↦ rw f (elim (start_claimed-cases env w state r) [
    | inl e ↦ rw e (finish_status-Preserved env x progress w r false h m s)
    | inr (e, c) ↦ rw e (
        finish_status-Preserved env x progress w (started_run env w r) true h (unfold enter in m)
          (started_run-IsSound env (worker_name w r) r c s))
  ])
  | inr f ↦ rw f tt
]

pub bound-OkKeeps {ℓ} :
    {A : Type ℓ} (f : A → World) (env : Env) (w : World) (x : Worker) (run_id : ℕ) (o : Option Run)
    (next : Run → Result A)
    → find_run run_id w.runs ≡ o
    → WellFormed env w.runs
    → ((r : Run) → Listed r w.runs → IsSound env r → OkKeeps f env w.runs (next r))
    → OkKeeps f env w.runs (owned_by x o >>= next)
unfolding owned_by
bound-OkKeeps f env w x run_id none next e h k = tt
bound-OkKeeps f env w x run_id (some r) next e h k = elim (Bool-cases (is_key r.worker x.pk)) [
  | inl t ↦
      rw t
        (k r (find_run-Listed run_id w.runs e) (All-find_run (IsSound env) run_id w.runs h.sound e))
  | inr t ↦ rw t tt
]

pub report_status-OkKeeps :
    (env : Env) (x : Worker) (run_id : ℕ) (state : Option RunState) (progress : Option String)
    (w : World)
    → WellFormed env w.runs
    → OkKeeps (λ s. s.0) env w.runs (report_status env x run_id state progress w)
unfolding report_status get_worker_run
report_status-OkKeeps env x run_id state progress w h =
    bound-OkKeeps (λ s. s.0) env w x run_id (find_run run_id w.runs) _ refl h
      (λ r m s. status_of-OkKeeps env x state progress w r h m s)
