-- ===== src/Tests/Runs.antt =====
-- The theorems on runs, claims and completions, on the rows of the fixtures.
use nautobot_app_remote_jobs.Shared.{◌≡◌, ◌↔◌, refl, none, some, [], ◌∷◌, inl}
use nautobot_app_remote_jobs.App.Choices.{success}
use nautobot_app_remote_jobs.App.Records.{
  Run, World, ok, err, unknown_run, illegal_transition_code, lease_expired_message,
}
use nautobot_app_remote_jobs.App.Runs.{enter, transition}
use nautobot_app_remote_jobs.App.Runs.Machine.{succeed, transition_decides}
use nautobot_app_remote_jobs.App.Store.{find_run}
use nautobot_app_remote_jobs.App.Store.Sound.{Preserved}
use nautobot_app_remote_jobs.App.Reaper.{abandon_run}
use nautobot_app_remote_jobs.App.Reaper.Abandon.{abandon_run-Preserved}
use nautobot_app_remote_jobs.App.Claims.{pick, claim_runs}
use nautobot_app_remote_jobs.App.Claims.Grant.{claim_runs-Preserved}
use nautobot_app_remote_jobs.App.Completion.{Outcome, complete_run}
use nautobot_app_remote_jobs.App.Completion.Complete.{
  complete_run_succeeds, complete_run_idempotent,
}
use nautobot_app_remote_jobs.App.Completion.Decide.{
  Accepted, Unknown, Illegal, complete_run_decides,
}
use nautobot_app_remote_jobs.Tests.Fixtures.{
  env, agent, world, queued_run, running_run, running_run-IsSound, both-WellFormed,
}

abbrev both : World
both = world (running_run 10 ∷ queued_run 11 ∷ [])

found : find_run 10 both.runs ≡ some (running_run 10)
unfolding find_run
found = refl

abbrev report : Outcome
report = record { exit_code = some "0"; image_digest_executed = "sha"; error = none }

-- A run that has ended.
abbrev ended : Run
ended = record (running_run 10) { state = success; finished_at = some 990 }

ends :
    transition 1000 (some "agent") success (running_run 10)
    ≡ ok (enter 1000 (some "agent") success (running_run 10))
unfolding transition
ends = refl

stays : transition 1000 none success ended ≡ ok ended
unfolding transition
stays = refl

transition_decides_example :
    (r' : Run) × (transition 1000 none success (running_run 10) ≡ ok r') × (r'.state ≡ success)
transition_decides_example = (transition_decides 1000 none success (running_run 10)).1 (inl succeed)

claim_runs-Preserved_example : Preserved env both.runs (claim_runs env agent 5 both).0.runs
claim_runs-Preserved_example = claim_runs-Preserved env agent 5 both both-WellFormed

abandon_run-Preserved_example :
    (w' : World) × (abandon_run env lease_expired_message (running_run 10) both ≡ ok w')
    × Preserved env both.runs w'.runs
abandon_run-Preserved_example =
    abandon_run-Preserved env lease_expired_message (running_run 10) both both-WellFormed (inl refl)
      (running_run-IsSound 10) refl

complete_run_succeeds_example :
    (w' : World) × (r' : Run) × (complete_run env agent 10 (some success) report both ≡ ok w')
    × Preserved env both.runs w'.runs
    × (find_run 10 w'.runs ≡ some r')
    × (r'.state ≡ success)
    × (r'.scoped_token ≡ none)
    × (r'.worker ≡ some 4)
complete_run_succeeds_example =
    complete_run_succeeds env agent 10 success report both (running_run 10) both-WellFormed found
      refl refl refl

complete_run_idempotent_example :
    (w' : World) × (complete_run env agent 10 (some success) report both ≡ ok w')
    × (complete_run env agent 10 (some success) report w' ≡ ok w')
complete_run_idempotent_example =
    complete_run_idempotent env agent 10 success report report both (running_run 10) both-WellFormed
      found refl refl refl

found_queued : find_run 11 both.runs ≡ some (queued_run 11)
unfolding find_run
found_queued = refl

complete_run_decides_example :
    (((w' : World) × (complete_run env agent 11 (some success) report both ≡ ok w'))
      ↔ Accepted agent 11 (some success) both)
    × ((complete_run env agent 11 (some success) report both ≡ err unknown_run)
        ↔ Unknown agent 11 (some success) both)
    × ((complete_run env agent 11 (some success) report both ≡ err illegal_transition_code)
        ↔ Illegal agent 11 (some success) both)
complete_run_decides_example =
    complete_run_decides env agent 11 (some success) report both both-WellFormed

-- A queued run of another singleton definition.
abbrev other_run : Run
other_run = record (queued_run 12) { job_definition = 3 }

picked : pick env both.runs [] [] (queued_run 11 ∷ other_run ∷ []) ≡ some other_run
unfolding pick
picked = refl
