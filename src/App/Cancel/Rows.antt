-- ===== src/App/Cancel/Rows.antt =====
-- The rows that a cancelled run leaves, and its saves.
use nautobot_app_remote_jobs.Shared.{ℕ, true, ◌≡◌, refl, Option, none, some, List, arith, ◌||◌}
use nautobot_app_remote_jobs.App.Choices.{pending, offered, cancelled}
use nautobot_app_remote_jobs.App.Records.{Run, World, Env, log_info, cancelled_before_claim, ok}
use nautobot_app_remote_jobs.App.Runs.{state_eq, is_terminal, enter, transition, log_to_result}
use nautobot_app_remote_jobs.App.Runs.Mirror.{IsMirrored, transition-IsMirrored, log-IsMirrored}
use nautobot_app_remote_jobs.App.Store.{save_run, worker_name, delete_scoped_token}
use nautobot_app_remote_jobs.App.Store.Rows.{shape, Listed}
use nautobot_app_remote_jobs.App.Store.Sound.{
  IsSound, WellFormed, Preserved, Preserved-trans, set_run-Preserved, Listed-Preserved,
  without_token, runs-delete_scoped_token,
}
use nautobot_app_remote_jobs.App.Reaper.Parents.{refresh_parent_state-Preserved}
use nautobot_app_remote_jobs.App.Store.Result.{with_result-IsSound}
use nautobot_app_remote_jobs.App.Cancel.{record_revoked_by, settle_cancelled}

pub record_revoked_by-IsSound :
    (env : Env) (user : Option ℕ) (r : Run) → IsSound env r → IsSound env (record_revoked_by user r)
unfolding record_revoked_by
record_revoked_by-IsSound env none r h = h
record_revoked_by-IsSound env (some u) r h =
    with_result-IsSound env r (record r.job_result { revoked_by = some u })
      (record { status_same = refl; done_same = refl; type_same = refl }) h

shape-record_revoked_by : (user : Option ℕ) (r : Run) → shape (record_revoked_by user r) ≡ shape r
unfolding record_revoked_by
shape-record_revoked_by none r = refl
shape-record_revoked_by (some u) r = refl

pub Listed-record_revoked_by :
    (user : Option ℕ) (r : Run) (rows : List Run)
    → Listed r rows
    → Listed (record_revoked_by user r) rows
Listed-record_revoked_by user r rows m = rw (shape-record_revoked_by user r) m

pub settle_cancelled-Preserved :
    (env : Env) (user : Option ℕ) (w : World) (r : Run)
    → WellFormed env w.runs
    → Listed r w.runs
    → IsSound env (without_token r)
    → Preserved env w.runs (settle_cancelled env user w r).runs
unfolding settle_cancelled
settle_cancelled-Preserved env user w r h m s =
    let (saved, bare) = runs-delete_scoped_token r w in
    let w1 : World = (delete_scoped_token r (save_run r w)).0 in
    let r2 : Run = record_revoked_by user (without_token r) in
    let p : Preserved env w.runs w1.runs =
      rw saved (set_run-Preserved env (without_token r) w.runs h m s) in
    let listed : Listed r2 w1.runs =
      Listed-record_revoked_by user (without_token r) w1.runs
        (Listed-Preserved env (without_token r) w.runs w1.runs m p.1) in
    let q : Preserved env w1.runs (save_run r2 w1).runs =
      unfold save_run in
      set_run-Preserved env r2 w1.runs p.0 listed
        (record_revoked_by-IsSound env user (without_token r) s) in
    rw bare (
      Preserved-trans env w.runs w1.runs _ p (
        Preserved-trans env w1.runs (save_run r2 w1).runs _ q (
          refresh_parent_state-Preserved env r2 (save_run r2 w1) q.0
            (Listed-Preserved env r2 w1.runs (save_run r2 w1).runs listed q.1))))

abbrev pub cancelled_run : Env → World → Run → Run
cancelled_run env w r =
    enter env.now (worker_name w r) cancelled
      (log_to_result log_info "dispatch" cancelled_before_claim r)

pub transition_cancelled :
    (env : Env) (w : World) (r : Run)
    → (state_eq r.state pending || state_eq r.state offered) ≡ true
    → transition env.now
        (worker_name w r)
        cancelled
        (log_to_result log_info "dispatch" cancelled_before_claim r)
      ≡ ok (cancelled_run env w r)
unfolding transition log_to_result
transition_cancelled env w r q = ground (arith, q)

pub cancelled_run-IsSound :
    (env : Env) (w : World) (r : Run)
    → (state_eq r.state pending || state_eq r.state offered) ≡ true
    → IsSound env r
    → IsSound env (without_token (cancelled_run env w r))
unfolding enter log_to_result
cancelled_run-IsSound env w r q h =
    let m : IsMirrored (cancelled_run env w r) =
      transition-IsMirrored env.now (worker_name w r) cancelled
        (log_to_result log_info "dispatch" cancelled_before_claim r)
        (log-IsMirrored log_info "dispatch" cancelled_before_claim h.mirrored)
        (transition_cancelled env w r q) in
    record {
      mirrored = record {
        status_mirrored = m.status_mirrored;
        finish_set = λ e. m.finish_set (unfold is_terminal in e);
        finish_mirrored = λ e. m.finish_mirrored (unfold is_terminal in e);
        revocation_mirrored = m.revocation_mirrored;
      };
      token_held = λ e. ground arith;
      lease_held = λ a b. ground arith;
      worker_set = λ e. ground arith;
      zoneless_token = λ e. refl;
      zoneless_worker = λ e. h.zoneless_worker e;
      attempts = h.attempts;
    }
