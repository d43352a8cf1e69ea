-- ===== src/App/Reaper/Abandon.antt =====
-- What `abandon_run` of dispatch/reaper.py does, on both branches of the retry policy.
use nautobot_app_remote_jobs.Shared.{
  ℕ, ◌+◌, ◌<◌, String, true, ◌≡◌, refl, Option, none, arith, ltb, Bool-cases, inl, inr,
}
use nautobot_app_remote_jobs.App.Choices.{pending, abandoned}
use nautobot_app_remote_jobs.App.Records.{
  Run, World, Env, Topic, LogMessage, log_info, log_warning, requeued, ok,
}
use nautobot_app_remote_jobs.App.Runs.{
  is_terminal, enter, transition, sync_job_result, log_to_result,
}
use nautobot_app_remote_jobs.App.Runs.Mirror.{
  IsMirrored, sync-IsMirrored, log-IsMirrored, transition-IsMirrored,
}
use nautobot_app_remote_jobs.App.Store.{
  in_flight, save_run, worker_name, publish, publish_run_event, delete_scoped_token,
}
use nautobot_app_remote_jobs.App.Store.Rows.{Listed}
use nautobot_app_remote_jobs.App.Store.Sound.{
  IsSound, WellFormed, Preserved, set_run-Preserved, Preserved-trans, Listed-Preserved,
  without_token, runs-delete_scoped_token,
}
use nautobot_app_remote_jobs.App.Reaper.{
  requeued_run, notify_zone, retry_or_finish, after_abandon, abandon_run,
}
use nautobot_app_remote_jobs.App.Reaper.Parents.{refresh_parent_state-Preserved}

abbrev again : Run → Run
again r = record r {
  attempt = r.attempt + 1;
  worker = none;
  lease_expires_at = none;
  finished_at = none;
  state = pending;
}

requeued_run-IsMirrored : (env : Env) (r : Run) → IsMirrored (requeued_run env r)
unfolding requeued_run
requeued_run-IsMirrored env r =
    log-IsMirrored log_info "dispatch"
      (requeued (r.attempt + 1) ((env.definition r.job_definition).retry_max + 1))
      {r = sync_job_result env.now none none (again r)}
      (sync-IsMirrored env.now none none (again r) (unfold is_terminal in λ e. cc))

requeued_run-IsSound :
    (env : Env) (r : Run)
    → IsSound env r
    → r.scoped_token ≡ none
    → r.attempt < (env.definition r.job_definition).retry_max + 1
    → IsSound env (requeued_run env r)
unfolding requeued_run
requeued_run-IsSound env r h t a = record {
  mirrored = requeued_run-IsMirrored env r;
  token_held = λ e. ground arith;
  lease_held = λ e. ground arith;
  worker_set = λ e. ground arith;
  zoneless_token = λ e. t;
  zoneless_worker = λ e. refl;
  attempts = ground arith;
}

pub runs-notify_zone : (r : Run) (w : World) → (notify_zone r w).runs ≡ w.runs
unfolding notify_zone publish
runs-notify_zone r w = ground arith

retry_or_finish-Preserved :
    (env : Env) (r : Run) (w : World)
    → WellFormed env w.runs
    → Listed r w.runs
    → IsSound env r
    → r.scoped_token ≡ none
    → Preserved env w.runs (retry_or_finish env r w).runs
unfolding retry_or_finish
retry_or_finish-Preserved env r w h m s t =
    elim (Bool-cases (ltb r.attempt ((env.definition r.job_definition).retry_max + 1))) [
      | inl e ↦
          rw (e, runs-notify_zone)
            (unfold save_run in
              set_run-Preserved env (requeued_run env r) w.runs h (unfold requeued_run in m)
                (requeued_run-IsSound env r s t (ground (arith, e))))
      | inr e ↦ rw e (refresh_parent_state-Preserved env r w h m)
    ]

after_abandon-Preserved :
    (env : Env) (r : Run) (w : World)
    → WellFormed env w.runs
    → Listed r w.runs
    → IsSound env (without_token r)
    → Preserved env w.runs (after_abandon env r w).runs
unfolding after_abandon publish_run_event
after_abandon-Preserved env r w h m s =
    let (saved, bare) = runs-delete_scoped_token r w in
    let w' : World = (delete_scoped_token r (save_run r w)).0 in
    let first : Preserved env w.runs w'.runs =
      rw saved (set_run-Preserved env (without_token r) w.runs h m s) in
    rw bare (
      Preserved-trans env w.runs w'.runs _ first (
        retry_or_finish-Preserved env (without_token r)
          (publish_run_event Topic.abandoned (without_token r) w') first.0
          (Listed-Preserved env (without_token r) w.runs w'.runs m first.1) s refl))

-- The row in state ABANDONED that the transition of `abandon_run` yields.
abbrev pub abandoned_run : Env → LogMessage → World → Run → Run
abandoned_run env reason w r =
    enter env.now (worker_name w r) abandoned (log_to_result log_warning "dispatch" reason r)

transition_abandoned :
    (now : ℕ) (name : Option String) (r : Run)
    → in_flight r.state ≡ true
    → transition now name abandoned r ≡ ok (enter now name abandoned r)
unfolding transition
transition_abandoned now name r f = ground arith

pub abandon_run-eq :
    (env : Env) (reason : LogMessage) (r : Run) (w : World)
    → in_flight r.state ≡ true
    → abandon_run env reason r w ≡ ok (after_abandon env (abandoned_run env reason w r) w)
unfolding abandon_run
abandon_run-eq env reason r w f = rw (
    transition_abandoned env.now (worker_name w r) (log_to_result log_warning "dispatch" reason r)
      (unfold log_to_result in f))

abandoned_run-IsSound :
    (env : Env) (reason : LogMessage) (w : World) (r : Run)
    → in_flight r.state ≡ true
    → IsSound env r
    → IsSound env (without_token (abandoned_run env reason w r))
unfolding enter log_to_result
abandoned_run-IsSound env reason w r f h =
    let m : IsMirrored (abandoned_run env reason w r) =
      transition-IsMirrored env.now (worker_name w r) abandoned
        (log_to_result log_warning "dispatch" reason r)
        (log-IsMirrored log_warning "dispatch" reason h.mirrored)
        (transition_abandoned env.now (worker_name w r)
          (log_to_result log_warning "dispatch" reason r) f) in
    record {
      mirrored = record {
        status_mirrored = m.status_mirrored;
        finish_set = λ e. m.finish_set (unfold is_terminal in e);
        finish_mirrored = λ e. m.finish_mirrored (unfold is_terminal in e);
        revocation_mirrored = m.revocation_mirrored;
      };
      token_held = λ e. ground arith;
      lease_held = λ p q. ground arith;
      worker_set = λ e. ground arith;
      zoneless_token = λ e. refl;
      zoneless_worker = λ e. h.zoneless_worker e;
      attempts = h.attempts;
    }

-- Abandoning a claimed or running run of a well-formed table never raises, and the table stays
-- well-formed with the same rows.
pub abandon_run-Preserved :
    (env : Env) (reason : LogMessage) (r : Run) (w : World)
    → WellFormed env w.runs
    → Listed r w.runs
    → IsSound env r
    → in_flight r.state ≡ true
    → (w' : World) × (abandon_run env reason r w ≡ ok w') × Preserved env w.runs w'.runs
abandon_run-Preserved env reason r w h m s f = (
  after_abandon env (abandoned_run env reason w r) w,
  abandon_run-eq env reason r w f,
  after_abandon-Preserved env (abandoned_run env reason w r) w h (unfold enter log_to_result in m)
      (abandoned_run-IsSound env reason w r f s),
)
