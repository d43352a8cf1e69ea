-- ===== src/App/Cancel/Single.antt =====
-- Cancelling one run that has no children: it never raises, and keeps the table.
use nautobot_app_remote_jobs.Shared.{
  ℕ, true, false, ◌≡◌, refl, Option, none, some, arith, ◌||◌, Bool-cases, inl, inr,
}
use nautobot_app_remote_jobs.App.Choices.{pending, offered, CancelMode}
use nautobot_app_remote_jobs.App.Records.{
  Run, Worker, World, Env, cancel_worker_offline, Result, ok,
}
use nautobot_app_remote_jobs.App.Runs.{state_eq, is_terminal, log_to_result, enter}
use nautobot_app_remote_jobs.App.Store.{
  in_flight, find_run, save_run, run_worker, worker_status, publish,
}
use nautobot_app_remote_jobs.App.Store.Rows.{Listed, All-find_run, find_run-Listed}
use nautobot_app_remote_jobs.App.Store.Sound.{
  IsSound, WellFormed, Preserved, Preserved-trans, set_run-Preserved,
}
use nautobot_app_remote_jobs.App.Reaper.Abandon.{abandon_run-Preserved}
use nautobot_app_remote_jobs.App.Cancel.{
  CancelOutcome, before_claim, run_reaped, record_revoked_by, settle_cancelled, cancel_queued,
  record_on, cancel_orphan, flagged_run, cancel_live, is_offline, cancel_held, cancel_single,
}
use nautobot_app_remote_jobs.App.Store.Result.{with_result-IsSound}
use nautobot_app_remote_jobs.App.Cancel.Rows.{
  record_revoked_by-IsSound, Listed-record_revoked_by, settle_cancelled-Preserved, cancelled_run,
  transition_cancelled, cancelled_run-IsSound,
}

-- The call returns, and keeps the table.
abbrev pub Cancels : Env → World → Result (World × CancelOutcome) → Type 0
Cancels env w res = (s : World × CancelOutcome) × (res ≡ ok s) × Preserved env w.runs s.0.runs

cancel_queued-Cancels :
    (env : Env) (user : Option ℕ) (r : Run) (w : World)
    → WellFormed env w.runs
    → Listed r w.runs
    → IsSound env r
    → (state_eq r.state pending || state_eq r.state offered) ≡ true
    → Cancels env w (cancel_queued env user r w)
unfolding cancel_queued
cancel_queued-Cancels env user r w h m s q =
    let r1 : Run = cancelled_run env w r in
    (
      (settle_cancelled env user w r1, before_claim),
      rw (transition_cancelled env w r q) refl,
      settle_cancelled-Preserved env user w r1 h (unfold enter log_to_result in m)
          (cancelled_run-IsSound env w r q s),
    )

record_on-Preserved :
    (env : Env) (user : Option ℕ) (k : ℕ) (o : Option Run) (w : World)
    → WellFormed env w.runs
    → find_run k w.runs ≡ o
    → Preserved env w.runs (record_on user o w).runs
unfolding record_on save_run
record_on-Preserved env user k none w h e = (h, refl)
record_on-Preserved env user k (some r) w h e =
    set_run-Preserved env (record_revoked_by user r) w.runs h
      (Listed-record_revoked_by user r w.runs (find_run-Listed k w.runs e))
      (record_revoked_by-IsSound env user r (All-find_run (IsSound env) k w.runs h.sound e))

cancel_orphan-Cancels :
    (env : Env) (user : Option ℕ) (r : Run) (w : World)
    → WellFormed env w.runs
    → Listed r w.runs
    → IsSound env r
    → in_flight r.state ≡ true
    → Cancels env w (cancel_orphan env user r w)
unfolding cancel_orphan
cancel_orphan-Cancels env user r w h m s f =
    let (w1, done, p) = abandon_run-Preserved env cancel_worker_offline r w h m s f in
    (
      (record_on user (find_run r.pk w1.runs) w1, run_reaped),
      rw done refl,
      Preserved-trans env w.runs w1.runs _ p
          (record_on-Preserved env user r.pk (find_run r.pk w1.runs) w1 p.0 refl),
    )

flagged_run-IsSound :
    (env : Env) (user : Option ℕ) (mode : CancelMode) (r : Run)
    → IsSound env r
    → IsSound env (flagged_run user mode r)
unfolding flagged_run log_to_result
flagged_run-IsSound env user mode r h =
    let r1 : Run =
      record_revoked_by user
        (record r { job_result = record r.job_result { cancel_requested = true } }) in
    with_result-IsSound env r1 _ (record { status_same = refl; done_same = refl; type_same = refl })
      (record_revoked_by-IsSound env user _ (
        with_result-IsSound env r (record r.job_result { cancel_requested = true })
          (record { status_same = refl; done_same = refl; type_same = refl }) h))

cancel_live-Cancels :
    (env : Env) (user : Option ℕ) (mode : CancelMode) (r : Run) (x : Worker) (w : World)
    → WellFormed env w.runs
    → Listed r w.runs
    → IsSound env r
    → Cancels env w (cancel_live user mode r x w)
unfolding cancel_live publish save_run flagged_run log_to_result
cancel_live-Cancels env user mode r x w h m s = (
  _,
  refl,
  set_run-Preserved env (flagged_run user mode r) w.runs h
      (Listed-record_revoked_by user
        (record r { job_result = record r.job_result { cancel_requested = true } }) w.runs m)
      (flagged_run-IsSound env user mode r s),
)

cancel_held-Cancels :
    (env : Env) (user : Option ℕ) (mode : CancelMode) (r : Run) (o : Option Worker) (w : World)
    → WellFormed env w.runs
    → Listed r w.runs
    → IsSound env r
    → in_flight r.state ≡ true
    → Cancels env w (cancel_held env user mode r o w)
unfolding cancel_held
cancel_held-Cancels env user mode r none w h m s f = cancel_orphan-Cancels env user r w h m s f
cancel_held-Cancels env user mode r (some x) w h m s f =
    elim (Bool-cases (is_offline (worker_status env x))) [
      | inl e ↦ rw e (cancel_orphan-Cancels env user r w h m s f)
      | inr e ↦ rw e (cancel_live-Cancels env user mode r x w h m s)
    ]

-- Cancelling a run that has not ended and has no children never raises, whether it is queued, held by
-- a live worker or left behind by a worker that is gone; the table stays well-formed, with the same
-- rows up to what handlers change.
pub cancel_single-Preserved :
    (env : Env) (user : Option ℕ) (mode : CancelMode) (k : ℕ) (r : Run) (w : World)
    → WellFormed env w.runs
    → find_run k w.runs ≡ some r
    → is_terminal r ≡ false
    → (s : World × CancelOutcome) × (cancel_single env user mode r w ≡ ok s)
      × Preserved env w.runs s.0.runs
unfolding cancel_single is_terminal
cancel_single-Preserved env user mode k r w h f t =
    let m = find_run-Listed k w.runs f in
    let s = All-find_run (IsSound env) k w.runs h.sound f in
    elim (Bool-cases (state_eq r.state pending || state_eq r.state offered)) [
      | inl e ↦ rw e (cancel_queued-Cancels env user r w h m s e)
      | inr e ↦
          rw e (cancel_held-Cancels env user mode r (run_worker w r) w h m s (ground (arith, e, t)))
    ]
