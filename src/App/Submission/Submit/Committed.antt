-- ===== src/App/Submission/Submit/Committed.antt =====
-- `_submit_fanout` of dispatch/submission.py: what it leaves in the table of runs.
use nautobot_app_remote_jobs.Shared.{
  ℕ, String, ◌≡◌, refl, ap, none, some, List, [], ◌∷◌, arith, map, Option-cases, inl, inr,
}
use nautobot_app_remote_jobs.App.Choices.{running, failed_dispatch}
use nautobot_app_remote_jobs.App.Records.{
  Run, World, Env, Result, ok, err, unknown_run, illegal_transition_code, lease_expired,
  illegal_transition, submission_error, does_not_exist, nested_children, log_error, DispatchFailure,
  dispatch_failed, no_target_devices, no_zone_for_devices,
}
use nautobot_app_remote_jobs.App.Runs.{sync_job_result, log_to_result, is_terminal}
use nautobot_app_remote_jobs.App.Runs.Mirror.{IsMirrored, sync-IsMirrored}
use nautobot_app_remote_jobs.App.Store.{set_run, save_run, worker_name}
use nautobot_app_remote_jobs.App.Store.Rows.{shape, All-Member, Listed}
use nautobot_app_remote_jobs.App.Store.Sound.{
  IsSound, WellFormed, set_run-Preserved, Listed-Preserved,
}
use nautobot_app_remote_jobs.App.Zones.{Device}
use nautobot_app_remote_jobs.App.Submission.{Inputs, failed_run, fail_dispatch}
use nautobot_app_remote_jobs.App.Submission.Targets.{Core, Request}
use nautobot_app_remote_jobs.App.Submission.Submit.{
  Child, add_children, aggregating, Submitted, resolutions, children_of, fan_out_to, undispatched,
  fan_out_devices, fan_out_targets, notified_zones,
}
use nautobot_app_remote_jobs.App.Submission.Submit.Children.{
  Extends, set_run-Extends, KeysAreNew, Growing, add_children-Growing,
}

aggregating-IsMirrored : (env : Env) (w : World) (p : Run) → IsMirrored (aggregating env w p)
unfolding aggregating is_terminal
aggregating-IsMirrored env w p =
    sync-IsMirrored env.now (worker_name w p) none
      (record p { state = running; started_at = some env.now }) (λ e. ground arith)

-- The parent's row once its children exist.
aggregating-IsSound :
    (env : Env) (w : World) (p : Run)
    → IsSound env p
    → p.worker ≡ none
    → IsSound env (aggregating env w p)
unfolding aggregating sync_job_result
aggregating-IsSound env w p h e = record {
  mirrored = aggregating-IsMirrored env w p;
  token_held = λ t. refl;
  lease_held = λ a b. ground (arith, a, e);
  worker_set = λ t. ground arith;
  zoneless_token = h.zoneless_token;
  zoneless_worker = h.zoneless_worker;
  attempts = h.attempts;
}

failed_run-IsMirrored :
    (env : Env) (w : World) (f : DispatchFailure) (p : Run) → IsMirrored (failed_run env w f p)
unfolding failed_run
failed_run-IsMirrored env w f p =
    sync-IsMirrored env.now (worker_name w p) none
      (record (log_to_result log_error "dispatch" (dispatch_failed f) p) {
        state = failed_dispatch;
        finished_at = some env.now;
      })
      (λ e. refl)

failed_run-IsSound :
    (env : Env) (w : World) (f : DispatchFailure) (p : Run)
    → IsSound env p
    → p.scoped_token ≡ none
    → IsSound env (failed_run env w f p)
unfolding failed_run sync_job_result log_to_result
failed_run-IsSound env w f p h e = record {
  mirrored = failed_run-IsMirrored env w f p;
  token_held = λ t. ground (arith, t, e);
  lease_held = λ a b. ground arith;
  worker_set = λ t. ground arith;
  zoneless_token = h.zoneless_token;
  zoneless_worker = h.zoneless_worker;
  attempts = h.attempts;
}

-- What a submission leaves: the table, the rows that were there, and the new run.
pub record Committed (env : Env) (base : List Run) (t : Submitted) : Type 0 where
  pub well_formed : WellFormed env t.0.runs
  pub extends : Extends base t.0.runs
  pub listed : Listed t.1 t.0.runs

parent_zone :
    (env : Env) (base : List Run) (w : World) (p : Run) → Growing env base w p → p.zone ≡ none
parent_zone env base w p g =
    All-Member (λ s. s.pk ≡ p.pk → s.zone ≡ none) (shape p) (map shape w.runs) g.parent_listed
      g.parent_zoneless refl

-- A save of the parent, whose shape is the same.
saved-Committed :
    (env : Env) (base : List Run) (w : World) (p r : Run) (zones : List ℕ)
    → Growing env base w p
    → shape r ≡ shape p
    → IsSound env r
    → Committed env base (save_run r w, r, zones)
unfolding save_run
saved-Committed env base w p r zones g e s =
    let m : Listed r w.runs = rw e g.parent_listed in
    let q = set_run-Preserved env r w.runs g.well_formed m s in
    record {
      well_formed = q.0;
      extends = set_run-Extends r base w.runs (rw (ap (λ x. x.pk) e) g.parent_new) g.extends;
      listed = Listed-Preserved env r w.runs (set_run r w.runs) m q.1;
    }

fan_out_to-Committed :
    (env : Env) (core : Core) (q : Request) (stored : Inputs) (key : String) (cs : List Child)
    (base : List Run) (w : World) (p : Run)
    → KeysAreNew core
    → Growing env base w p
    → Committed env base (fan_out_to env core q stored key cs (w, p))
unfolding fan_out_to
fan_out_to-Committed env core q stored key cs base w p n g =
    let t : World × Run = add_children env core q stored key cs (w, p) in
    let h = add_children-Growing env core q stored key cs base w p n g in
    saved-Committed env base t.0 t.1 (aggregating env t.0 t.1) (notified_zones [] cs) h
      (unfold aggregating sync_job_result in refl)
      (aggregating-IsSound env t.0 t.1 h.parent_sound
        (h.parent_sound.zoneless_worker (parent_zone env base t.0 t.1 h)))

pub undispatched-Committed :
    (env : Env) (f : DispatchFailure) (base : List Run) (w : World) (p : Run)
    → Growing env base w p
    → Committed env base (undispatched env f (w, p))
unfolding undispatched fail_dispatch
undispatched-Committed env f base w p g =
    saved-Committed env base w p (failed_run env w f p) [] g
      (unfold failed_run sync_job_result log_to_result in refl)
      (failed_run-IsSound env w f p g.parent_sound
        (g.parent_sound.zoneless_token (parent_zone env base w p g)))

fan_out_devices-Committed :
    (env : Env) (core : Core) (q : Request) (stored : Inputs) (key : String) (ds : List Device)
    (base : List Run) (w : World) (p : Run)
    → KeysAreNew core
    → Growing env base w p
    → Committed env base (fan_out_devices env core q stored key ds (w, p))
fan_out_devices-Committed env core q stored key [] base w p n g =
    undispatched-Committed env no_target_devices base w p g
fan_out_devices-Committed env core q stored key (d ∷ ds) base w p n g =
    elim (Option-cases (resolutions env core (d ∷ ds))) [
      | inl e ↦ rw (e, fan_out_devices) (undispatched-Committed env no_zone_for_devices base w p g)
      | inr (resolved, e) ↦
          rw (e, fan_out_devices)
            (fan_out_to-Committed env core q stored key
              (children_of (env.definition q.job_definition).zone_policy resolved) base w p n g)
    ]

-- A refusal says nothing.
abbrev pub OkCommits : Env → List Run → Result Submitted → Type 0
OkCommits env base (ok t) = Committed env base t
OkCommits env base (err e) = Unit

pub fan_out_targets-OkCommits :
    (env : Env) (core : Core) (q : Request) (stored : Inputs) (base : List Run) (w : World)
    (p : Run) (res : Result (String × List Device))
    → KeysAreNew core
    → Growing env base w p
    → OkCommits env base (fan_out_targets env core q stored (w, p) res)
fan_out_targets-OkCommits env core q stored base w p (ok (key, ds)) n g =
    fan_out_devices-Committed env core q stored key ds base w p n g
fan_out_targets-OkCommits env core q stored base w p (err (submission_error f)) n g =
    undispatched-Committed env f base w p g
fan_out_targets-OkCommits env core q stored base w p (err unknown_run) n g = tt
fan_out_targets-OkCommits env core q stored base w p (err illegal_transition_code) n g = tt
fan_out_targets-OkCommits env core q stored base w p (err lease_expired) n g = tt
fan_out_targets-OkCommits env core q stored base w p (err (illegal_transition a b)) n g = tt
fan_out_targets-OkCommits env core q stored base w p (err does_not_exist) n g = tt
fan_out_targets-OkCommits env core q stored base w p (err nested_children) n g = tt
