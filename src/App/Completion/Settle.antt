-- ===== src/App/Completion/Settle.antt =====
-- What job.complete and job.status do to the table of runs, and which error each refusal has.
use nautobot_app_remote_jobs.Shared.{
  ℕ, String, Bool, true, false, ◌≡◌, refl, sym, ap, subst, Option, arith, ◌&&◌, not, Bool-cases,
  inl, inr, if_both, if◌then◌else◌, ◌∙◌,
}
use nautobot_app_remote_jobs.App.Choices.{RunState, claimed, running, success, failure, terminated}
use nautobot_app_remote_jobs.App.Records.{Run, World, Env, ok}
use nautobot_app_remote_jobs.App.Runs.{
  state_eq, is_terminal, enter, transition, sync_job_result, log_to_result,
}
use nautobot_app_remote_jobs.App.Runs.Mirror.{IsMirrored, transition-IsMirrored}
use nautobot_app_remote_jobs.App.Runs.Frame.{Identity, SameRun, identity-enter, state-enter}
use nautobot_app_remote_jobs.App.Store.{in_flight, worker_name}
use nautobot_app_remote_jobs.App.Store.Sound.{IsSound, without_token}
use nautobot_app_remote_jobs.App.Completion.{
  Outcome, is_completion, record_outcome, catch_up, completed_row,
}

caught_up : Env → World → RunState → Run → Run
caught_up env w state r =
    if state_eq r.state claimed && not (state_eq state terminated)
    then enter env.now (worker_name w r) running r
    else r

-- The row that a completion leaves, its token not yet deleted.
pub finished_row : Env → World → RunState → Outcome → Run → Run
finished_row env w state o r =
    enter env.now (worker_name w r) state (record_outcome o (caught_up env w state r))

catch_up-eq :
    (env : Env) (w : World) (state : RunState) (r : Run)
    → catch_up env w state r ≡ ok (caught_up env w state r)
unfolding catch_up caught_up transition
catch_up-eq env w state r = ground arith

state-record_outcome : (o : Outcome) (r : Run) → (record_outcome o r).state ≡ r.state
unfolding record_outcome log_to_result
state-record_outcome o r = ground arith

-- The states from which a run completes in the given state.
abbrev transition_ok : RunState → RunState → Bool
transition_ok terminated claimed = true
transition_ok success running = true
transition_ok failure running = true
transition_ok terminated running = true
transition_ok _ _ = false

state-caught_up :
    (env : Env) (w : World) (state : RunState) (r : Run)
    → is_completion state ≡ true
    → in_flight r.state ≡ true
    → transition_ok state (caught_up env w state r).state ≡ true
unfolding caught_up enter sync_job_result
state-caught_up env w state r c f = ground arith

transition_final :
    (now : ℕ) (name : Option String) (state : RunState) (r : Run)
    → transition_ok state r.state ≡ true
    → transition now name state r ≡ ok (enter now name state r)
unfolding transition
transition_final now name state r h = ground arith

pub completed_row-eq :
    (env : Env) (w : World) (state : RunState) (o : Outcome) (r : Run)
    → is_completion state ≡ true
    → in_flight r.state ≡ true
    → completed_row env w state o r ≡ ok (finished_row env w state o r)
unfolding completed_row finished_row
completed_row-eq env w state o r c f = rw catch_up-eq (
    transition_final env.now (worker_name w r) state (record_outcome o (caught_up env w state r))
      (rw state-record_outcome (state-caught_up env w state r c f)))

identity-record_outcome : (o : Outcome) (r : Run) → SameRun r (record_outcome o r)
unfolding record_outcome log_to_result
identity-record_outcome o r = ground arith

identity-caught_up :
    (env : Env) (w : World) (state : RunState) (r : Run) → SameRun r (caught_up env w state r)
unfolding caught_up
identity-caught_up env w state r =
    if_both (SameRun r) (state_eq r.state claimed && not (state_eq state terminated))
      (identity-enter env.now (worker_name w r) running r) refl

pub identity-finished_row :
    (env : Env) (w : World) (state : RunState) (o : Outcome) (r : Run)
    → SameRun r (finished_row env w state o r)
unfolding finished_row
identity-finished_row env w state o r =
    let r1 = caught_up env w state r in
    identity-enter env.now (worker_name w r) state (record_outcome o r1)
    ∙ (identity-record_outcome o r1 ∙ identity-caught_up env w state r)

pub state-finished_row :
    (env : Env) (w : World) (state : RunState) (o : Outcome) (r : Run)
    → (finished_row env w state o r).state ≡ state
unfolding finished_row
state-finished_row env w state o r =
    state-enter env.now (worker_name w r) state (record_outcome o (caught_up env w state r))

bare-IsMirrored : (r : Run) → IsMirrored r → IsMirrored (without_token r)
unfolding is_terminal
bare-IsMirrored r m = record {
  status_mirrored = m.status_mirrored;
  finish_set = m.finish_set;
  finish_mirrored = m.finish_mirrored;
  revocation_mirrored = m.revocation_mirrored;
}

completion_settled : (state : RunState) → is_completion state ≡ true → ¬ (in_flight state ≡ true)
completion_settled state c f = ground arith

pub bare-IsSound :
    (env : Env) (state : RunState) (r r' : Run)
    → is_completion state ≡ true
    → IsSound env r
    → SameRun r r'
    → r'.state ≡ state
    → IsMirrored r'
    → IsSound env (without_token r')
bare-IsSound env state r r' c h f e m = record {
  mirrored = bare-IsMirrored r' m;
  token_held = λ t. cc;
  lease_held = λ p q. absurd (completion_settled state c (subst (λ s. in_flight s ≡ true) e q));
  worker_set = λ p. absurd (completion_settled state c (subst (λ s. in_flight s ≡ true) e (rw p)));
  zoneless_token = λ z. refl;
  zoneless_worker = λ z.
      ap (λ (i : Identity). i.worker) f
      ∙ h.zoneless_worker (sym (ap (λ (i : Identity). i.zone) f) ∙ z);
  attempts =
      rw (ap (λ (i : Identity). i.attempt) f, ap (λ (i : Identity). i.job_definition) f) h.attempts;
}

caught_up-IsMirrored :
    (env : Env) (w : World) (state : RunState) (r : Run)
    → IsMirrored r
    → IsMirrored (caught_up env w state r)
unfolding caught_up
caught_up-IsMirrored env w state r m =
    elim (Bool-cases (state_eq r.state claimed && not (state_eq state terminated))) [
      | inl e ↦ rw e (
          transition-IsMirrored env.now (worker_name w r) running r m
            (unfold transition in ground (arith, e)))
      | inr e ↦ rw e m
    ]

record_outcome-IsMirrored : (o : Outcome) (r : Run) → IsMirrored r → IsMirrored (record_outcome o r)
unfolding record_outcome log_to_result is_terminal
record_outcome-IsMirrored o r m = ground arith

pub finished_row-IsMirrored :
    (env : Env) (w : World) (state : RunState) (o : Outcome) (r : Run)
    → is_completion state ≡ true
    → in_flight r.state ≡ true
    → IsMirrored r
    → IsMirrored (finished_row env w state o r)
unfolding finished_row
finished_row-IsMirrored env w state o r c f m =
    transition-IsMirrored env.now (worker_name w r) state
      (record_outcome o (caught_up env w state r))
      (record_outcome-IsMirrored o (caught_up env w state r) (caught_up-IsMirrored env w state r m))
      (transition_final env.now (worker_name w r) state (record_outcome o (caught_up env w state r))
        (rw state-record_outcome (state-caught_up env w state r c f)))
