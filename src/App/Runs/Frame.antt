-- ===== src/App/Runs/Frame.antt =====
-- What a transition leaves alone.
use nautobot_app_remote_jobs.Shared.{ℕ, String, ◌≡◌, ◌∙◌, refl, Option, if_both, ◌||◌}
use nautobot_app_remote_jobs.App.Choices.{
  RunState, offered, claimed, running, abandoned, in_terminal_states,
}
use nautobot_app_remote_jobs.App.Records.{Run}
use nautobot_app_remote_jobs.App.Runs.{state_eq, auto_stamp, stamp_finished, sync_job_result, enter}

-- What a transition leaves alone.
pub record Identity : Type 0 where
  pub pk : ℕ
  pub job_definition : ℕ
  pub parent : Option ℕ
  pub zone : Option ℕ
  pub worker : Option ℕ
  pub attempt : ℕ
  pub scoped_token : Option ℕ

abbrev pub identity : Run → Identity
identity r = record {
  pk = r.pk;
  job_definition = r.job_definition;
  parent = r.parent;
  zone = r.zone;
  worker = r.worker;
  attempt = r.attempt;
  scoped_token = r.scoped_token;
}

-- The same row, given to the same worker in the same attempt.
abbrev pub SameRun : Run → Run → Type 0
SameRun r r' = identity r' ≡ identity r

identity-auto_stamp : (now : ℕ) (s : RunState) (r : Run) → SameRun r (auto_stamp now s r)
unfolding auto_stamp
identity-auto_stamp now offered r = refl
identity-auto_stamp now claimed r = refl
identity-auto_stamp now running r = refl
identity-auto_stamp now _ r = refl

identity-stamp_finished : (now : ℕ) (s : RunState) (r : Run) → SameRun r (stamp_finished now s r)
unfolding stamp_finished
identity-stamp_finished now s r =
    if_both (SameRun r) (in_terminal_states s || state_eq s abandoned) refl refl

pub identity-enter :
    (now : ℕ) (name : Option String) (s : RunState) (r : Run) → SameRun r (enter now name s r)
unfolding enter sync_job_result
identity-enter now name s r =
    identity-stamp_finished now s (auto_stamp now s (record r { state = s }))
    ∙ identity-auto_stamp now s (record r { state = s })

state-auto_stamp :
    (now : ℕ) (s t : RunState) (r : Run) → r.state ≡ t → (auto_stamp now s r).state ≡ t
unfolding auto_stamp
state-auto_stamp now offered t r e = e
state-auto_stamp now claimed t r e = e
state-auto_stamp now running t r e = e
state-auto_stamp now _ t r e = e

pub state-enter :
    (now : ℕ) (name : Option String) (s : RunState) (r : Run) → (enter now name s r).state ≡ s
unfolding enter sync_job_result stamp_finished
state-enter now name s r =
    if_both {A = Run} (λ x. x.state ≡ s) (in_terminal_states s || state_eq s abandoned)
      (state-auto_stamp now s s (record r { state = s }) refl)
      (state-auto_stamp now s s (record r { state = s }) refl)
