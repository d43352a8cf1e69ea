-- ===== src/App/Completion.antt =====
-- nautobot_remote_jobs/dispatch/claims.py: `report_status`, `complete_run`, `reconcile_in_flight`.
-- A state that a worker sends is a text; `none` is any text that names no state.
pub mod Settle
pub mod Complete
pub mod Status
pub mod Keeps
pub mod Decide
use nautobot_app_remote_jobs.Shared.{
  ℕ, suc, ◌+◌, String, Bool, true, false, ◌&&◌, ◌||◌, not, Option, none, some, List, [], ◌∷◌, ◌==◌,
  if◌then◌else◌, is_key, is_some, map, str_eq,
}
use nautobot_app_remote_jobs.Shared.Lists.{select, contains}
use nautobot_app_remote_jobs.App.Choices.{
  RunState, claimed, running, success, failure, terminated, abandoned,
}
use nautobot_app_remote_jobs.App.Records.{
  Run, Worker, World, Env, Topic, log_info, log_error, progress_message, worker_error,
  container_exit_code, worker_restarted, Error, unknown_run, illegal_transition_code, lease_expired,
  Result, ok, err, ◌>>=◌,
}
use nautobot_app_remote_jobs.App.Runs.{state_eq, transition, log_to_result}
use nautobot_app_remote_jobs.App.Store.{
  in_flight, find_run, save_run, worker_name, publish_run_event, delete_scoped_token, touch,
}
use nautobot_app_remote_jobs.App.Reaper.{abandon_run, refresh_parent_state}

-- `_get_worker_run`: the run must exist and be claimed by this worker.
pub owned_by : Worker → Option Run → Result Run
owned_by x none = err unknown_run
owned_by x (some r) = if is_key r.worker x.pk then ok r else err unknown_run

unfoldable pub get_worker_run : Worker → ℕ → World → Result Run
unfolding owned_by
get_worker_run x run_id w = owned_by x (find_run run_id w.runs)

-- The reply of job.status.
pub record StatusReply : Type 0 where
  pub lease_expires_at : ℕ
  pub cancel_requested : Bool

-- `if state == RUNNING and run.state == CLAIMED`
start_claimed : Env → World → Option RunState → Run → Result (Run × Bool)
start_claimed env w state r =
    let started = transition env.now (worker_name w r) running r >>= λ r'. ok (r', true) in
    elim state [
      | none ↦ ok (r, false)
      | some s ↦ if state_eq s running && state_eq r.state claimed then started else ok (r, false)
    ]

-- The progress is given by its message; its `current` and `total` only stand in the text.
log_progress : Option String → Run → Run
log_progress none r = r
log_progress (some message) r =
    if str_eq message "" then r else log_to_result log_info "progress" (progress_message message) r

-- The lease is renewed, and the progress is logged.
renewed_run : Env → Option String → Run → Run
unfolding log_progress
renewed_run env progress r =
    log_progress progress
      (record r { lease_expires_at = some (env.now + env.settings.lease_seconds) })

finish_status : Env → Worker → Option String → World → Run × Bool → World × StatusReply
unfolding renewed_run
finish_status env x progress w (r, started) =
    let r' = renewed_run env progress r in
    let w' = save_run r' w in
    (
      touch env x.pk (if started then publish_run_event Topic.started r' w' else w'),
      record {
        lease_expires_at = env.now + env.settings.lease_seconds;
        cancel_requested = r'.job_result.cancel_requested;
      },
    )

status_of :
    Env → Worker → Option RunState → Option String → World → Run → Result (World × StatusReply)
unfolding start_claimed finish_status
status_of env x state progress w r =
    if not (in_flight r.state)
    then err (if state_eq r.state abandoned then lease_expired else illegal_transition_code)
    else start_claimed env w state r >>= λ s. ok (finish_status env x progress w s)

-- `report_status`
unfoldable pub report_status :
    Env → Worker → ℕ → Option RunState → Option String → World → Result (World × StatusReply)
unfolding get_worker_run status_of
report_status env x run_id state progress w =
    get_worker_run x run_id w >>= status_of env x state progress w

-- SUCCESS, FAILURE, TERMINATED: what job.complete may report
abbrev pub is_completion : RunState → Bool
is_completion success = true
is_completion failure = true
is_completion terminated = true
is_completion _ = false

record_digest : String → Run → Run
record_digest digest r = if str_eq digest "" then r else record r { image_digest_executed = digest }

log_error_text : Option String → Run → Run
log_error_text none r = r
log_error_text (some e) r =
    if str_eq e "" then r else log_to_result log_error "dispatch" (worker_error e) r

log_exit_code : Option String → Run → Run
log_exit_code none r = r
log_exit_code (some c) r = log_to_result log_info "post_run" (container_exit_code c) r

-- What job.complete reports besides the state; an exit code is given as the text it is shown by.
pub record Outcome : Type 0 where
  pub exit_code : Option String
  pub image_digest_executed : String
  pub error : Option String

-- What `complete_run` writes before the final transition.
record_outcome : Outcome → Run → Run
unfolding record_digest log_error_text log_exit_code
record_outcome o r =
    log_exit_code o.exit_code (log_error_text o.error (record_digest o.image_digest_executed r))

-- A fast job completes with no RUNNING status in between.
catch_up : Env → World → RunState → Run → Result Run
catch_up env w state r =
    if state_eq r.state claimed && not (state_eq state terminated)
    then transition env.now (worker_name w r) running r
    else ok r

-- The row that the final transition leaves, from a claimed or running one.
pub completed_row : Env → World → RunState → Outcome → Run → Result Run
unfolding catch_up record_outcome
completed_row env w state o r = catch_up env w state r >>= λ r1.
    transition env.now (worker_name w r) state (record_outcome o r1)

-- The saves of the row, its token's deletion, the parent, the event and the worker's `last_seen`.
-- Several saves of one row within a transaction are one.
pub settle : Env → Worker → RunState → World → Run → World
settle env x state w r =
    let (w', r') = delete_scoped_token r (save_run r w) in
    touch env x.pk (
      publish_run_event (if state_eq state terminated then Topic.terminated else Topic.completed) r'
        (refresh_parent_state env r' w'))

pub complete_of : Env → Worker → RunState → Outcome → World → Run → Result World
unfolding completed_row settle
complete_of env x state o w r =
    if state_eq r.state state
    then ok w
    else if not (in_flight r.state)
    then err illegal_transition_code
    else completed_row env w state o r >>= λ r'. ok (settle env x state w r')

complete_known : Env → Worker → ℕ → RunState → Outcome → World → Result World
unfolding complete_of get_worker_run
complete_known env x run_id state o w =
    if not (is_completion state)
    then err illegal_transition_code
    else get_worker_run x run_id w >>= complete_of env x state o w

-- `complete_run`
unfoldable pub complete_run : Env → Worker → ℕ → Option RunState → Outcome → World → Result World
unfolding complete_known
complete_run env x run_id none o w = err illegal_transition_code
complete_run env x run_id (some state) o w = complete_known env x run_id state o w

-- The runs of the worker that the agent no longer tracks.
unfoldable pub is_stale : Worker → List ℕ → Run → Bool
is_stale x known r = is_key r.worker x.pk && in_flight r.state && not (contains known r.pk)

unfoldable pub abandon_all : Env → List Run → World → Result World
abandon_all env [] w = ok w
abandon_all env (r ∷ rows) w = abandon_run env worker_restarted r w >>= abandon_all env rows

pub extend_lease : Env → Worker → List ℕ → Run → Run
extend_lease env x known r =
    if is_key r.worker x.pk && in_flight r.state && contains known r.pk
    then record r { lease_expires_at = some (env.now + env.settings.lease_seconds) }
    else r

-- `reconcile_in_flight`
unfoldable pub reconcile_in_flight : Env → Worker → List ℕ → World → Result World
unfolding is_stale abandon_all extend_lease
reconcile_in_flight env x known w = abandon_all env (select (is_stale x known) w.runs) w >>= λ w'.
    ok (record w' { runs = map (extend_lease env x known) w'.runs })
