-- ===== src/App/Runs/Mirror.antt =====
-- The JobResult of a run shows the run's state (SPEC 4.6, 6.3).
use nautobot_app_remote_jobs.Shared.{
  ℕ, String, true, ◌≡◌, Option, some, arith, is_some, if◌then◌else◌,
}
use nautobot_app_remote_jobs.App.Choices.{RunState, terminated}
use nautobot_app_remote_jobs.App.Records.{
  Run, ok, type_terminated, type_abandoned, LogLevel, LogMessage,
}
use nautobot_app_remote_jobs.App.Runs.{
  state_eq, job_result_status, in_revoked_states, is_terminal, sync_job_result, transition,
  log_to_result,
}

pub record IsMirrored (r : Run) : Type 0 where
  pub status_mirrored : r.job_result.status ≡ job_result_status r.state
  pub finish_set : is_terminal r ≡ true → is_some r.finished_at ≡ true
  pub finish_mirrored : is_terminal r ≡ true → r.job_result.date_done ≡ r.finished_at
  pub revocation_mirrored :
      in_revoked_states r.state ≡ true
      → r.job_result.revocation_type
        ≡ some (if state_eq r.state terminated then type_terminated else type_abandoned)

-- Mirroring makes a run mirrored, if a terminal run has its `finished_at`.
pub sync-IsMirrored :
    (now : ℕ) (name : Option String) (by : Option ℕ) (r : Run)
    → (is_terminal r ≡ true → is_some r.finished_at ≡ true)
    → IsMirrored (sync_job_result now name by r)
unfolding sync_job_result is_terminal
sync-IsMirrored now name by r h = ground arith

-- A transition that succeeds keeps a mirrored run mirrored: the status of its JobResult is that of its
-- state, and where it has ended the time and the type of its end are shown.
pub transition-IsMirrored :
    (now : ℕ) (name : Option String) (s : RunState) (r : Run) {r' : Run}
    → IsMirrored r
    → transition now name s r ≡ ok r'
    → IsMirrored r'
unfolding transition is_terminal
transition-IsMirrored now name s r m h = ground arith

pub log-IsMirrored :
    (level : LogLevel) (grouping : String) (message : LogMessage) {r : Run}
    → IsMirrored r
    → IsMirrored (log_to_result level grouping message r)
unfolding log_to_result is_terminal
log-IsMirrored level grouping message m = ground arith
