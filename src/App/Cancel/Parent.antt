-- ===== src/App/Cancel/Parent.antt =====
-- Cancelling a run with its children: `cancel_run` of cancel.py as a whole keeps the table.
use nautobot_app_remote_jobs.Shared.{
  ℕ, zero, suc, false, ◌≡◌, refl, Option, none, some, List, [], ◌∷◌, arith, not, map, Bool-cases,
  inl, inr,
}
use nautobot_app_remote_jobs.Shared.Lists.{length, select}
use nautobot_app_remote_jobs.App.Choices.{terminated, CancelMode}
use nautobot_app_remote_jobs.App.Records.{
  Run, World, Env, unknown_run, illegal_transition_code, lease_expired, illegal_transition,
  submission_error, nested_children, does_not_exist, Result, ok, err, log_info, cancelled_parent,
}
use nautobot_app_remote_jobs.App.Runs.{is_terminal, sync_job_result, log_to_result}
use nautobot_app_remote_jobs.App.Runs.Mirror.{IsMirrored, sync-IsMirrored}
use nautobot_app_remote_jobs.App.Store.{find_run, set_run, save_run, worker_name}
use nautobot_app_remote_jobs.App.Store.Rows.{Listed, All-find_run, find_run-Listed, set_run-set_run}
use nautobot_app_remote_jobs.App.Store.Sound.{
  IsSound, WellFormed, Preserved, set_run-Preserved, without_token, runs-delete_scoped_token,
}
use nautobot_app_remote_jobs.App.Store.Keeps.{OkKeeps, OkKeeps-trans, OkKeeps-bind}
use nautobot_app_remote_jobs.App.Cancel.{
  CancelOutcome, terminate_parent, children, passed_over, cancel_children, cancel_found, cancel_row,
  cancel_run,
}
use nautobot_app_remote_jobs.App.Cancel.Single.{cancel_single-Preserved}

-- The parent's row, its JobResult not yet mirrored and its token not yet deleted.
abbrev ended_parent : Env → ℕ → Run → Run
ended_parent env n r = record (log_to_result log_info "dispatch" (cancelled_parent n) r) {
  state = terminated;
  finished_at = some env.now;
}

abbrev parent_row : Env → World → Option ℕ → ℕ → Run → Run
parent_row env w user n r =
    sync_job_result env.now (worker_name w r) user (without_token (ended_parent env n r))

parent_row-IsMirrored :
    (env : Env) (w : World) (user : Option ℕ) (n : ℕ) (r : Run)
    → IsMirrored (parent_row env w user n r)
parent_row-IsMirrored env w user n r =
    sync-IsMirrored env.now (worker_name w r) user (without_token (ended_parent env n r))
      (λ _. refl)

parent_row-IsSound :
    (env : Env) (w : World) (user : Option ℕ) (n : ℕ) (r : Run)
    → IsSound env r
    → IsSound env (parent_row env w user n r)
unfolding sync_job_result log_to_result
parent_row-IsSound env w user n r h = record {
  mirrored = parent_row-IsMirrored env w user n r;
  token_held = λ e. ground arith;
  lease_held = λ p q. ground arith;
  worker_set = λ e. ground arith;
  zoneless_token = λ e. refl;
  zoneless_worker = h.zoneless_worker;
  attempts = h.attempts;
}

terminate_parent-Preserved :
    (env : Env) (user : Option ℕ) (n : ℕ) (r : Run) (w : World)
    → WellFormed env w.runs
    → Listed r w.runs
    → IsSound env r
    → Preserved env w.runs (terminate_parent env user n r w).runs
unfolding terminate_parent save_run
terminate_parent-Preserved env user n r w h m s =
    let (saved, bare) = runs-delete_scoped_token (ended_parent env n r) w in
    let p : Preserved env w.runs (set_run (parent_row env w user n r) w.runs) =
      set_run-Preserved env (parent_row env w user n r) w.runs h
        (unfold sync_job_result log_to_result in m) (parent_row-IsSound env w user n r s) in
    let e : set_run (parent_row env w user n r)
          (set_run (without_token (ended_parent env n r)) w.runs)
        ≡ set_run (parent_row env w user n r) w.runs =
      set_run-set_run (parent_row env w user n r) (without_token (ended_parent env n r)) w.runs
        (unfold sync_job_result log_to_result in refl) in
    rw (bare, saved, e) p

-- The children that are gone are passed over.
passed_over-OkKeeps :
    (env : Env) (w : World) (res : Result (World × CancelOutcome))
    → WellFormed env w.runs
    → OkKeeps (λ s. s.0) env w.runs res
    → OkKeeps (λ v. v) env w.runs (passed_over w res)
unfolding passed_over
passed_over-OkKeeps env w (ok s) h k = k
passed_over-OkKeeps env w (err does_not_exist) h k = (h, refl)
passed_over-OkKeeps env w (err unknown_run) h k = tt
passed_over-OkKeeps env w (err illegal_transition_code) h k = tt
passed_over-OkKeeps env w (err lease_expired) h k = tt
passed_over-OkKeeps env w (err (illegal_transition a b)) h k = tt
passed_over-OkKeeps env w (err (submission_error d)) h k = tt
passed_over-OkKeeps env w (err nested_children) h k = tt

-- Each call for one row keeps the table.
abbrev EachKeeps : Env → (ℕ → World → Result (World × CancelOutcome)) → Type 0
EachKeeps env cancel =
    (k : ℕ) (w : World) → WellFormed env w.runs → OkKeeps (λ s. s.0) env w.runs (cancel k w)

cancel_children-OkKeeps :
    (env : Env) (cancel : ℕ → World → Result (World × CancelOutcome)) (pks : List ℕ) (w : World)
    → EachKeeps env cancel
    → WellFormed env w.runs
    → OkKeeps (λ v. v) env w.runs (cancel_children cancel pks w)
unfolding cancel_children
cancel_children-OkKeeps env cancel [] w c h = (h, refl)
cancel_children-OkKeeps env cancel (pk ∷ pks) w c h =
    OkKeeps-bind (λ v. v) (λ v. v) env w.runs (passed_over w (cancel pk w))
      (cancel_children cancel pks) (passed_over-OkKeeps env w (cancel pk w) h (c pk w h))
      (λ v g. cancel_children-OkKeeps env cancel pks v c g)

cancel_found-OkKeeps :
    (cancel : ℕ → World → Result (World × CancelOutcome)) (env : Env) (user : Option ℕ)
    (mode : CancelMode) (k : ℕ) (r : Run) (cs : List Run) (w : World)
    → EachKeeps env cancel
    → WellFormed env w.runs
    → find_run k w.runs ≡ some r
    → is_terminal r ≡ false
    → OkKeeps (λ s. s.0) env w.runs (cancel_found cancel env user mode r cs w)
unfolding cancel_found
cancel_found-OkKeeps cancel env user mode k r [] w c h e t =
    let (s, done, p) = cancel_single-Preserved env user mode k r w h e t in rw done p
cancel_found-OkKeeps cancel env user mode k r (x ∷ cs) w c h e t =
    let live = map (λ x. x.pk) (select (λ x. not (is_terminal x)) (x ∷ cs)) in
    let v = terminate_parent env user (length live) r w in
    let p =
      terminate_parent-Preserved env user (length live) r w h (find_run-Listed k w.runs e)
        (All-find_run (IsSound env) k w.runs h.sound e) in
    OkKeeps-trans (λ s. s.0) env w.runs v.runs _ p
      (OkKeeps-bind (λ u. u) (λ s. s.0) env v.runs (cancel_children cancel live v) _
        (cancel_children-OkKeeps env cancel live v c p.0) (λ u g. (g, refl)))

cancel_row-OkKeeps :
    (cancel : ℕ → World → Result (World × CancelOutcome)) (env : Env) (user : Option ℕ)
    (mode : CancelMode) (k : ℕ) (o : Option Run) (w : World)
    → EachKeeps env cancel
    → WellFormed env w.runs
    → find_run k w.runs ≡ o
    → OkKeeps (λ s. s.0) env w.runs (cancel_row cancel env user mode o w)
unfolding cancel_row
cancel_row-OkKeeps cancel env user mode k none w c h e = tt
cancel_row-OkKeeps cancel env user mode k (some r) w c h e = elim (Bool-cases (is_terminal r)) [
  | inl t ↦ rw t (h, refl)
  | inr t ↦ rw t (cancel_found-OkKeeps cancel env user mode k r (children r.pk w.runs) w c h e t)
]

pub cancel_run-OkKeeps :
    (fuel : ℕ) (env : Env) (user : Option ℕ) (mode : CancelMode) (k : ℕ) (w : World)
    → WellFormed env w.runs
    → OkKeeps (λ s. s.0) env w.runs (cancel_run fuel env user mode k w)
unfolding cancel_run
cancel_run-OkKeeps zero env user mode k w h = tt
cancel_run-OkKeeps (suc fuel) env user mode k w h =
    cancel_row-OkKeeps (cancel_run fuel env user mode) env user mode k (find_run k w.runs) w
      (λ j v g. cancel_run-OkKeeps fuel env user mode j v g) h refl
