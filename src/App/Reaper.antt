-- ===== src/App/Reaper.antt =====
-- nautobot_remote_jobs/dispatch/reaper.py, with `refresh_parent_state` of models/runs.py.
pub mod Parents
pub mod Abandon
pub mod Pass
pub mod Outcome
use nautobot_app_remote_jobs.Shared.{
  ℕ, suc, ◌+◌, Bool, true, false, ◌&&◌, ◌||◌, not, Option, none, some, List, [], ◌∷◌, ◌==◌, leb,
  ltb, if◌then◌else◌, is_key, is_some, map,
}
use nautobot_app_remote_jobs.Shared.Lists.{any, all, select}
use nautobot_app_remote_jobs.App.Choices.{
  RunState, pending, offered, claimed, running, success, failure, abandoned, failed_dispatch,
  in_terminal_states, FailoverPolicy, wait, failover,
}
use nautobot_app_remote_jobs.App.Records.{
  Run, World, Env, Topic, work_available, log_info, log_warning, log_error, LogMessage, requeued,
  lease_expired_message, wait_budget_spent, Error, Result, ok, err, ◌>>=◌,
}
use nautobot_app_remote_jobs.App.Runs.{state_eq, sync_job_result, transition, log_to_result}
use nautobot_app_remote_jobs.App.Store.{
  in_flight, find_run, save_run, worker_name, publish, publish_run_event, delete_scoped_token,
}

-- `terminal_like`
abbrev pub terminal_like : RunState → Bool
terminal_like s = in_terminal_states s || state_eq s abandoned

-- `parent.children.values_list("state")`
unfoldable pub child_states : ℕ → List Run → List RunState
child_states pk rows = map (λ r. r.state) (select (λ r. is_key r.parent pk) rows)

-- The parent's row as the children's states force it.
unfoldable pub derive_parent : Env → World → List RunState → Run → Run
derive_parent env w states parent =
    sync_job_result env.now (worker_name w parent) none (record parent {
      state = if all (λ s. state_eq s success) states then success else failure;
      finished_at = some env.now;
    })

refresh_parent : Env → Run → List RunState → World → World
unfolding derive_parent
refresh_parent env parent [] w = w
refresh_parent env parent (s ∷ states) w =
    if not (all terminal_like (s ∷ states))
    then w
    else if state_eq parent.state pending
        || state_eq parent.state running
        || state_eq parent.state claimed
        || state_eq parent.state offered
    then save_run (derive_parent env w (s ∷ states) parent) w
    else w

refresh_found : Env → ℕ → Option Run → World → World
unfolding child_states refresh_parent
refresh_found env k none w = w
refresh_found env k (some parent) w = refresh_parent env parent (child_states k w.runs) w

refresh_key : Env → Option ℕ → World → World
unfolding refresh_found
refresh_key env none w = w
refresh_key env (some k) w = refresh_found env k (find_run k w.runs) w

-- RemoteJobRun.refresh_parent_state
unfoldable pub refresh_parent_state : Env → Run → World → World
unfolding refresh_key
refresh_parent_state env r w = refresh_key env r.parent w

-- The row of the retry branch of `abandon_run`: back to PENDING for one more attempt.
pub requeued_run : Env → Run → Run
unfolding sync_job_result log_to_result
requeued_run env r =
    let again = record r {
      attempt = r.attempt + 1;
      worker = none;
      lease_expires_at = none;
      finished_at = none;
      state = pending;
    } in
    log_to_result log_info "dispatch"
      (requeued again.attempt ((env.definition r.job_definition).retry_max + 1))
      (sync_job_result env.now none none again)

-- `notify.publish_work_available(run.zone)`, if the run has a zone
pub notify_zone : Run → World → World
notify_zone r w = elim (r.zone) [ none ↦ w | some z ↦ publish (work_available z) w ]

pub retry_or_finish : Env → Run → World → World
unfolding requeued_run notify_zone
retry_or_finish env r w =
    if ltb r.attempt ((env.definition r.job_definition).retry_max + 1)
    then notify_zone r (save_run (requeued_run env r) w)
    else refresh_parent_state env r w

pub after_abandon : Env → Run → World → World
unfolding retry_or_finish
after_abandon env r w =
    let (w', r') = delete_scoped_token r (save_run r w) in
    retry_or_finish env r' (publish_run_event Topic.abandoned r' w')

unfoldable pub abandon_run : Env → LogMessage → Run → World → Result World
unfolding after_abandon
abandon_run env reason r w = do
  r' ←
      transition env.now (worker_name w r) abandoned (log_to_result log_warning "dispatch" reason r)
  ok (after_abandon env r' w)

-- `lease_expires_at__lt=now`, which a null never passes
unfoldable pub is_expired : Env → Run → Bool
is_expired env r =
    in_flight r.state && elim (r.lease_expires_at) [ none ↦ false | some t ↦ ltb t env.now ]

-- The body of the loop of `reap_expired`: a row that another transaction holds, or that has moved on
-- since the query, is left. The count is of the runs reaped.
unfoldable pub reap_one : Env → ℕ → World × ℕ → Result (World × ℕ)
reap_one env pk (w, reaped) = elim (find_run pk w.runs) [
  | none ↦ ok (w, reaped)
  | some r ↦
      if env.locked pk || not (in_flight r.state)
      then ok (w, reaped)
      else abandon_run env lease_expired_message r w >>= λ w'. ok (w', suc reaped)
]

unfoldable pub reap_all : Env → List ℕ → World × ℕ → Result (World × ℕ)
reap_all env [] s = ok s
reap_all env (pk ∷ pks) s = reap_one env pk s >>= λ s'. reap_all env pks s'

-- The tests of `_reap_wait_timeouts` before it locks the row.
unfoldable pub has_waited_out : Env → Run → Bool
has_waited_out env r = state_eq r.state pending && elim (r.zone) [
  | none ↦ false
  | some z ↦ elim (r.queued_at) [
    | none ↦ false
    | some queued ↦ elim ((env.zone z).failover_policy) [
      | FailoverPolicy.none ↦ false
      | wait ↦ ltb (queued + (env.zone z).max_wait_seconds) env.now
      | failover ↦ ltb (queued + (env.zone z).max_wait_seconds) env.now
    ]
  ]
]

-- The row that a wait timeout leaves.
unfoldable pub timed_out_run : Env → World → Run → Run
unfolding sync_job_result log_to_result
timed_out_run env w r =
    sync_job_result env.now (worker_name w r) none
      (record (log_to_result log_error "dispatch"
        (wait_budget_spent (elim (r.zone) [ none ↦ 0 | some z ↦ (env.zone z).max_wait_seconds ]))
        r) { state = failed_dispatch; finished_at = some env.now })

unfoldable pub time_out_one : Env → ℕ → World × ℕ → World × ℕ
unfolding timed_out_run
time_out_one env pk (w, failed) = elim (find_run pk w.runs) [
  | none ↦ (w, failed)
  | some r ↦
      if env.locked pk || not (state_eq r.state pending)
      then (w, failed)
      else let r' = timed_out_run env w r in
        (refresh_parent_state env r' (save_run r' w), suc failed)
]

unfoldable pub time_out_all : Env → List ℕ → World × ℕ → World × ℕ
time_out_all env [] s = s
time_out_all env (pk ∷ pks) s = time_out_all env pks (time_out_one env pk s)

-- `_reap_wait_timeouts`
unfoldable pub reap_wait_timeouts : Env → World × ℕ → World × ℕ
reap_wait_timeouts env (w, reaped) =
    time_out_all env (map (λ r. r.pk) (select (has_waited_out env) w.runs)) (w, reaped)

unfoldable pub reap_expired : Env → World → Result (World × ℕ)
reap_expired env w = do
  s ← reap_all env (map (λ r. r.pk) (select (is_expired env) w.runs)) (w, 0)
  ok (reap_wait_timeouts env s)
