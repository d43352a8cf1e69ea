-- ===== src/App/Runs.antt =====
-- nautobot_remote_jobs/models/runs.py: the state machine of a RemoteJobRun and the mirror that it
-- keeps in the core JobResult. A method that saves `self` returns the new row.
pub mod Machine
pub mod Mirror
pub mod Frame
use nautobot_app_remote_jobs.Shared.{
  ℕ, String, Bool, true, false, ◌||◌, not, Option, none, some, List, [], ◌∷◌, ◌++◌, ◌==◌,
  if◌then◌else◌, or_else,
}
use nautobot_app_remote_jobs.Shared.Lists.{any}
use nautobot_app_remote_jobs.App.Choices.{
  RunState, pending, offered, claimed, running, success, failure, terminated, abandoned, cancelled,
  failed_dispatch, in_terminal_states,
}
use nautobot_app_remote_jobs.App.Records.{
  JobStatus, status_pending, status_started, status_success, status_failure, status_revoked,
  type_terminated, type_abandoned, JobResult, Run, Result, ok, err, illegal_transition, LogLevel,
  LogMessage, LogEntry,
}

-- Equality of two states, which Python compares as texts.
abbrev ordinal : RunState → ℕ
ordinal pending = 0
ordinal offered = 1
ordinal claimed = 2
ordinal running = 3
ordinal success = 4
ordinal failure = 5
ordinal terminated = 6
ordinal abandoned = 7
ordinal cancelled = 8
ordinal failed_dispatch = 9

abbrev pub state_eq : RunState → RunState → Bool
state_eq s t = ordinal s == ordinal t

-- STATE_TO_JOB_RESULT_STATUS
abbrev pub job_result_status : RunState → JobStatus
job_result_status pending = status_pending
job_result_status offered = status_pending
job_result_status claimed = status_pending
job_result_status running = status_started
job_result_status success = status_success
job_result_status failure = status_failure
job_result_status terminated = status_revoked
job_result_status abandoned = status_revoked
job_result_status cancelled = status_failure
job_result_status failed_dispatch = status_failure

-- LEGAL_TRANSITIONS
unfoldable pub legal_transitions : RunState → List RunState
legal_transitions pending = offered ∷ claimed ∷ cancelled ∷ failed_dispatch ∷ []
legal_transitions offered = claimed ∷ pending ∷ cancelled ∷ []
legal_transitions claimed = running ∷ pending ∷ abandoned ∷ terminated ∷ []
legal_transitions running = success ∷ failure ∷ terminated ∷ abandoned ∷ []
legal_transitions abandoned = pending ∷ []
legal_transitions _ = []

unfoldable pub is_terminal : Run → Bool
is_terminal r = in_terminal_states r.state || state_eq r.state abandoned

unfoldable pub can_transition_to : RunState → RunState → Bool
unfolding legal_transitions
can_transition_to s t = any (λ u. state_eq u t) (legal_transitions s)

-- SUCCESS, FAILURE, CANCELLED, FAILED_DISPATCH
abbrev pub in_done_states : RunState → Bool
in_done_states success = true
in_done_states failure = true
in_done_states cancelled = true
in_done_states failed_dispatch = true
in_done_states _ = false

-- TERMINATED, ABANDONED
abbrev pub in_revoked_states : RunState → Bool
in_revoked_states terminated = true
in_revoked_states abandoned = true
in_revoked_states _ = false

-- `if self.state in (SUCCESS, FAILURE, CANCELLED, FAILED_DISPATCH)`
mark_done : ℕ → Run → JobResult → JobResult
mark_done now r j =
    if in_done_states r.state then record j { date_done = some (or_else r.finished_at now) } else j

-- `if self.state in (TERMINATED, ABANDONED)`
mark_revoked : ℕ → Option ℕ → Run → JobResult → JobResult
mark_revoked now revoked_by r j =
    if in_revoked_states r.state
    then record j {
      revocation_type =
          some (if state_eq r.state terminated then type_terminated else type_abandoned);
      revoked_by = elim revoked_by [ none ↦ j.revoked_by | some u ↦ some u ];
      revoked_at = some (or_else r.finished_at now);
      date_done = some (or_else r.finished_at now);
    }
    else j

-- `if self.state == RUNNING and job_result.date_started is None`
mark_started : ℕ → Run → JobResult → JobResult
mark_started now r j =
    if state_eq r.state running
    then record j { date_started = some (or_else j.date_started (or_else r.started_at now)) }
    else j

-- `worker_name` is the name of `self.worker`, where that is set.
unfoldable pub sync_job_result : ℕ → Option String → Option ℕ → Run → Run
unfolding mark_done mark_revoked mark_started
sync_job_result now worker_name revoked_by r =
    let j = record r.job_result {
      status = job_result_status r.state;
      worker = or_else worker_name r.job_result.worker;
    } in
    record r { job_result = mark_revoked now revoked_by r (mark_done now r (mark_started now r j)) }

-- The `auto_stamps` of `transition`: the first entry into a state is stamped.
auto_stamp : ℕ → RunState → Run → Run
auto_stamp now offered r = record r { offered_at = some (or_else r.offered_at now) }
auto_stamp now claimed r = record r { claimed_at = some (or_else r.claimed_at now) }
auto_stamp now running r = record r { started_at = some (or_else r.started_at now) }
auto_stamp now _ r = r

stamp_finished : ℕ → RunState → Run → Run
stamp_finished now s r =
    if in_terminal_states s || state_eq s abandoned then record r { finished_at = some now } else r

-- The part of `transition` below its two guards. No caller passes further timestamps.
unfoldable pub enter : ℕ → Option String → RunState → Run → Run
unfolding auto_stamp stamp_finished sync_job_result
enter now worker_name s r =
    sync_job_result now worker_name none
      (stamp_finished now s (auto_stamp now s (record r { state = s })))

unfoldable pub transition : ℕ → Option String → RunState → Run → Result Run
unfolding can_transition_to enter
transition now worker_name s r =
    if state_eq s r.state
    then ok r
    else if not (can_transition_to r.state s)
    then err (illegal_transition r.state s)
    else ok (enter now worker_name s r)

-- submission.log_to_result
unfoldable pub log_to_result : LogLevel → String → LogMessage → Run → Run
log_to_result level grouping message r = record r {
  job_result = record (r.job_result) {
    logs =
        r.job_result.logs ++ record { level = level; grouping = grouping; message = message } ∷ [];
  };
}
