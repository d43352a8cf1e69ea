-- ===== src/App/System.antt =====
-- The dispatcher: its calls that change the table of runs, one after another. These are the frames of
-- workers (rpc/handlers.py), the beat of the reaper (tasks.py), cancellations (cancel.py) and submissions
-- (dispatch/submission.py). A beat, cancellation or submission that raises is rolled back and is no step.
-- The cancel strategy's own `reap` and the deletion of rows over REST are no calls of the model.
pub mod Reach
use nautobot_app_remote_jobs.Shared.{ℕ, Bool, Option, ◌≡◌}
use nautobot_app_remote_jobs.Shared.Json.{Fields}
use nautobot_app_remote_jobs.App.Choices.{CancelMode}
use nautobot_app_remote_jobs.App.Records.{World, Env, ok}
use nautobot_app_remote_jobs.App.Reaper.{reap_expired}
use nautobot_app_remote_jobs.App.Cancel.{CancelOutcome, cancel_run}
use nautobot_app_remote_jobs.App.Submission.Targets.{Core, Request}
use nautobot_app_remote_jobs.App.Submission.Submit.{submit_run}
use nautobot_app_remote_jobs.App.Rpc.Params.{Wire}
use nautobot_app_remote_jobs.App.Rpc.Dispatch.{dispatch_rpc}

-- What differs from one call to the next: the clock, the rows that others hold locked, and after how
-- many offers an exception ends the claims.
pub record Moment : Type 0 where
  pub now : ℕ
  pub locked : ℕ → Bool
  pub claim_stops : Option ℕ

abbrev pub at_moment : Env → Moment → Env
at_moment env m = record env { now = m.now; locked = m.locked; claim_stops = m.claim_stops }

-- What the environment of the app answers.
pub record Outside : Type 0 where
  pub core : Core
  pub wire : Wire

module _ (env : Env) (outside : Outside) where
  -- One call.
  pub data Step : World → World → Type 0 where
    frame_from :
        (m : Moment) (worker_id : Option ℕ) (frame : Fields) (w : World)
        → Step w (dispatch_rpc (at_moment env m) outside.wire worker_id frame w).0
    beat :
        (m : Moment) (w : World) (s : World × ℕ)
        → reap_expired (at_moment env m) w ≡ ok s
        → Step w s.0
    cancel_call :
        (m : Moment) (fuel : ℕ) (user : Option ℕ) (mode : CancelMode) (run_id : ℕ) (w : World)
        (s : World × CancelOutcome)
        → cancel_run fuel (at_moment env m) user mode run_id w ≡ ok s
        → Step w s.0
    submission :
        (m : Moment) (q : Request) (w : World) (s : World × ℕ)
        → submit_run (at_moment env m) outside.core q w ≡ ok s
        → Step w s.0

  -- Any number of calls.
  pub data Reachable : World → World → Type 0 where
    here : (w : World) → Reachable w w
    then_step : {u v w : World} → Reachable u v → Step v w → Reachable u w
