-- ===== src/App/Cancel.antt =====
-- nautobot_remote_jobs/cancel.py: `cancel_run`. A child is cancelled in its own transaction, after its
-- parent's. The recursion into children is on fuel; a submission makes children of one level only.
pub mod Rows
pub mod Single
pub mod Parent
use nautobot_app_remote_jobs.Shared.{
  ℕ, zero, suc, String, Bool, true, false, ◌&&◌, ◌||◌, not, Option, none, some, List, [], ◌∷◌,
  if◌then◌else◌, is_key, map,
}
use nautobot_app_remote_jobs.Shared.Lists.{length, select}
use nautobot_app_remote_jobs.App.Choices.{
  RunState, pending, offered, terminated, cancelled, WorkerStatus, online, draining, offline,
  CancelMode,
}
use nautobot_app_remote_jobs.App.Records.{
  Run, Worker, World, Env, job_cancel, log_info, cancelled_before_claim, cancel_worker_offline,
  cancelled_parent, terminate_requested, does_not_exist, nested_children, Result, ok, err, ◌>>=◌,
}
use nautobot_app_remote_jobs.App.Runs.{
  state_eq, is_terminal, transition, sync_job_result, log_to_result,
}
use nautobot_app_remote_jobs.App.Store.{
  find_run, save_run, run_worker, worker_name, worker_status, publish, delete_scoped_token,
}
use nautobot_app_remote_jobs.App.Reaper.{abandon_run, refresh_parent_state}

-- What `cancel_run` reports, one constructor for each text.
pub data CancelOutcome : Type 0 where
  already_ended : RunState → CancelOutcome
  before_claim run_reaped : CancelOutcome
  cancel_sent : ℕ → CancelOutcome
  parent_cancelled : ℕ → CancelOutcome

-- `_record_revoked_by`
unfoldable pub record_revoked_by : Option ℕ → Run → Run
record_revoked_by none r = r
record_revoked_by (some u) r = record r { job_result = record r.job_result { revoked_by = some u } }

-- A run in PENDING or OFFERED, once it is CANCELLED.
unfoldable pub settle_cancelled : Env → Option ℕ → World → Run → World
settle_cancelled env user w r =
    let s = delete_scoped_token r (save_run r w) in
    refresh_parent_state env (record_revoked_by user s.1)
      (save_run (record_revoked_by user s.1) s.0)

unfoldable pub cancel_queued : Env → Option ℕ → Run → World → Result (World × CancelOutcome)
unfolding settle_cancelled
cancel_queued env user r w =
    transition env.now (worker_name w r) cancelled
      (log_to_result log_info "dispatch" cancelled_before_claim r)
    >>= λ r1. ok (settle_cancelled env user w r1, before_claim)

-- The row after `abandon_run`, with the user that asked.
unfoldable pub record_on : Option ℕ → Option Run → World → World
record_on user none w = w
record_on user (some r) w = save_run (record_revoked_by user r) w

unfoldable pub cancel_orphan : Env → Option ℕ → Run → World → Result (World × CancelOutcome)
unfolding record_on
cancel_orphan env user r w = abandon_run env cancel_worker_offline r w >>= λ w1.
    ok (record_on user (find_run r.pk w1.runs) w1, run_reaped)

-- The flag for the poll of job.status.
unfoldable pub flagged_run : Option ℕ → CancelMode → Run → Run
flagged_run user mode r = log_to_result log_info "dispatch" (terminate_requested mode) (
    record_revoked_by user
      (record r { job_result = record r.job_result { cancel_requested = true } }))

unfoldable pub cancel_live :
    Option ℕ → CancelMode → Run → Worker → World → Result (World × CancelOutcome)
unfolding flagged_run
cancel_live user mode r x w =
    ok
      (publish (job_cancel x.pk r.pk mode) (save_run (flagged_run user mode r) w), cancel_sent x.pk)

abbrev pub is_offline : WorkerStatus → Bool
is_offline offline = true
is_offline online = false
is_offline draining = false

unfoldable pub cancel_held :
    Env → Option ℕ → CancelMode → Run → Option Worker → World → Result (World × CancelOutcome)
cancel_held env user mode r none w = cancel_orphan env user r w
cancel_held env user mode r (some x) w =
    if is_offline (worker_status env x)
    then cancel_orphan env user r w
    else cancel_live user mode r x w

-- A run that is not terminal and has no children.
unfoldable pub cancel_single :
    Env → Option ℕ → CancelMode → Run → World → Result (World × CancelOutcome)
unfolding cancel_queued cancel_held
cancel_single env user mode r w =
    if state_eq r.state pending || state_eq r.state offered
    then cancel_queued env user r w
    else cancel_held env user mode r (run_worker w r) w

-- The transaction of an aggregating parent, with `n` children to cancel.
unfoldable pub terminate_parent : Env → Option ℕ → ℕ → Run → World → World
terminate_parent env user n r w =
    let r1 = record (log_to_result log_info "dispatch" (cancelled_parent n) r) {
      state = terminated;
      finished_at = some env.now;
    } in
    let s = delete_scoped_token r1 (save_run r1 w) in
    save_run (sync_job_result env.now (worker_name w r) user s.1) s.0

-- run.children
unfoldable pub children : ℕ → List Run → List Run
children pk rows = select (λ c. is_key c.parent pk) rows

-- `_cancel_children`: a child that is gone by now is passed over.
unfoldable pub passed_over : World → Result (World × CancelOutcome) → Result World
passed_over w (ok s) = ok s.0
passed_over w (err does_not_exist) = ok w
passed_over w (err e) = err e

unfoldable pub cancel_children :
    (ℕ → World → Result (World × CancelOutcome)) → List ℕ → World → Result World
unfolding passed_over
cancel_children cancel [] w = ok w
cancel_children cancel (pk ∷ pks) w = passed_over w (cancel pk w) >>= cancel_children cancel pks

-- What is done with the row that is found; `cancel` is the call for a child.
unfoldable pub cancel_found :
    (ℕ → World → Result (World × CancelOutcome))
    → Env
    → Option ℕ
    → CancelMode
    → Run
    → List Run
    → World
    → Result (World × CancelOutcome)
unfolding cancel_single terminate_parent cancel_children
cancel_found cancel env user mode r [] w = cancel_single env user mode r w
cancel_found cancel env user mode r (c ∷ cs) w =
    let live = map (λ x. x.pk) (select (λ x. not (is_terminal x)) (c ∷ cs)) in
    cancel_children cancel live (terminate_parent env user (length live) r w) >>= λ w1.
    ok (w1, parent_cancelled (length live))

pub cancel_row :
    (ℕ → World → Result (World × CancelOutcome))
    → Env
    → Option ℕ
    → CancelMode
    → Option Run
    → World
    → Result (World × CancelOutcome)
unfolding cancel_found children
cancel_row cancel env user mode none w = err does_not_exist
cancel_row cancel env user mode (some r) w =
    if is_terminal r
    then ok (w, already_ended r.state)
    else cancel_found cancel env user mode r (children r.pk w.runs) w

-- `cancel_run`
unfoldable pub cancel_run :
    ℕ → Env → Option ℕ → CancelMode → ℕ → World → Result (World × CancelOutcome)
unfolding cancel_row
cancel_run zero env user mode pk w = err nested_children
cancel_run (suc fuel) env user mode pk w =
    cancel_row (cancel_run fuel env user mode) env user mode (find_run pk w.runs) w
