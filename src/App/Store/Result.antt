-- ===== src/App/Store/Result.antt =====
-- Changes of a run that leave alone what its row is sound by.
use nautobot_app_remote_jobs.Shared.{ℕ, String, ◌≡◌, refl, ◌∙◌, some}
use nautobot_app_remote_jobs.App.Records.{Run, Env, JobResult, LogLevel, LogMessage}
use nautobot_app_remote_jobs.App.Runs.{is_terminal, log_to_result}
use nautobot_app_remote_jobs.App.Store.Sound.{IsSound}

-- A change of the JobResult that leaves alone what shows the run.
pub record SameMirror (a b : JobResult) : Type 0 where
  pub status_same : b.status ≡ a.status
  pub done_same : b.date_done ≡ a.date_done
  pub type_same : b.revocation_type ≡ a.revocation_type

pub with_result-IsSound :
    (env : Env) (r : Run) (j : JobResult)
    → SameMirror r.job_result j
    → IsSound env r
    → IsSound env (record r { job_result = j })
unfolding is_terminal
with_result-IsSound env r j s h = record {
  mirrored = record {
    status_mirrored = s.status_same ∙ h.mirrored.status_mirrored;
    finish_set = h.mirrored.finish_set;
    finish_mirrored = λ e. s.done_same ∙ h.mirrored.finish_mirrored e;
    revocation_mirrored = λ e. s.type_same ∙ h.mirrored.revocation_mirrored e;
  };
  token_held = h.token_held;
  lease_held = h.lease_held;
  worker_set = h.worker_set;
  zoneless_token = h.zoneless_token;
  zoneless_worker = h.zoneless_worker;
  attempts = h.attempts;
}

pub log-IsSound :
    (env : Env) (level : LogLevel) (grouping : String) (message : LogMessage) (r : Run)
    → IsSound env r
    → IsSound env (log_to_result level grouping message r)
unfolding log_to_result
log-IsSound env level grouping message r h =
    with_result-IsSound env r _ (record { status_same = refl; done_same = refl; type_same = refl })
      h

-- A lease is set.
pub lease-IsSound :
    (env : Env) (t : ℕ) (r : Run)
    → IsSound env r
    → IsSound env (record r { lease_expires_at = some t })
unfolding is_terminal
lease-IsSound env t r h = record {
  mirrored = record {
    status_mirrored = h.mirrored.status_mirrored;
    finish_set = h.mirrored.finish_set;
    finish_mirrored = h.mirrored.finish_mirrored;
    revocation_mirrored = h.mirrored.revocation_mirrored;
  };
  token_held = h.token_held;
  lease_held = λ p q. refl;
  worker_set = h.worker_set;
  zoneless_token = h.zoneless_token;
  zoneless_worker = h.zoneless_worker;
  attempts = h.attempts;
}
