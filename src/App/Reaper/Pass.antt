-- ===== src/App/Reaper/Pass.antt =====
-- A whole pass of the reaper: `reap_expired` of dispatch/reaper.py.
use nautobot_app_remote_jobs.Shared.{
  ℕ, suc, true, ◌≡◌, ◌⊎◌, refl, none, some, List, [], ◌∷◌, arith, ◌||◌, not, Bool-cases,
  Option-cases, inl, inr, map,
}
use nautobot_app_remote_jobs.Shared.Lists.{select}
use nautobot_app_remote_jobs.App.Choices.{pending, failed_dispatch}
use nautobot_app_remote_jobs.App.Records.{
  Run, World, Env, Result, ok, lease_expired_message, log_error, wait_budget_spent,
}
use nautobot_app_remote_jobs.App.Runs.{state_eq, is_terminal, sync_job_result, log_to_result}
use nautobot_app_remote_jobs.App.Runs.Mirror.{IsMirrored, sync-IsMirrored}
use nautobot_app_remote_jobs.App.Store.{in_flight, find_run, set_run, save_run, worker_name}
use nautobot_app_remote_jobs.App.Store.Rows.{Listed, All-find_run, find_run-Listed}
use nautobot_app_remote_jobs.App.Store.Sound.{
  IsSound, WellFormed, Preserved, Preserved-trans, set_run-Preserved, Listed-Preserved,
}
use nautobot_app_remote_jobs.App.Reaper.{
  is_expired, reap_one, reap_all, has_waited_out, timed_out_run, time_out_one, time_out_all,
  reap_wait_timeouts, reap_expired, refresh_parent_state,
}
use nautobot_app_remote_jobs.App.Reaper.Parents.{refresh_parent_state-Preserved}
use nautobot_app_remote_jobs.App.Reaper.Abandon.{abandon_run-Preserved}

-- A step of the pass returns, and keeps the table.
abbrev pub Returns : Env → World → Result (World × ℕ) → Type 0
Returns env w res = (s : World × ℕ) × (res ≡ ok s) × Preserved env w.runs s.0.runs

reap_one-Returns :
    (env : Env) (pk : ℕ) (w : World) (n : ℕ)
    → WellFormed env w.runs
    → Returns env w (reap_one env pk (w, n))
unfolding reap_one
reap_one-Returns env pk w n h = elim (Option-cases (find_run pk w.runs)) [
  | inl e ↦ ((w, n), ground (arith, e), (h, refl))
  | inr (r, e) ↦ elim (Bool-cases (env.locked pk || not (in_flight r.state))) [
    | inl t ↦ ((w, n), ground (arith, e, t), (h, refl))
    | inr t ↦
        let (w', done, p) =
          abandon_run-Preserved env lease_expired_message r w h (find_run-Listed pk w.runs e)
            (All-find_run (IsSound env) pk w.runs h.sound e) (ground (arith, t)) in
        ((w', suc n), ground (arith, e, t, done), p)
  ]
]

reap_all-Returns :
    (env : Env) (pks : List ℕ) (w : World) (n : ℕ)
    → WellFormed env w.runs
    → Returns env w (reap_all env pks (w, n))
unfolding reap_all
reap_all-Returns env [] w n h = ((w, n), refl, (h, refl))
reap_all-Returns env (pk ∷ pks) w n h =
    let (s, done, p) = reap_one-Returns env pk w n h in
    let (t, all_done, q) = reap_all-Returns env pks s.0 s.1 p.0 in
    (t, rw done all_done, Preserved-trans env w.runs s.0.runs t.0.runs p q)

timed_out_run-IsMirrored : (env : Env) (w : World) (r : Run) → IsMirrored (timed_out_run env w r)
unfolding timed_out_run is_terminal
timed_out_run-IsMirrored env w r =
    sync-IsMirrored env.now (worker_name w r) none
      (record (log_to_result log_error "dispatch"
        (wait_budget_spent (elim (r.zone) [ none ↦ 0 | some z ↦ (env.zone z).max_wait_seconds ]))
        r) { state = failed_dispatch; finished_at = some env.now })
      (λ _. refl)

timed_out_run-IsSound :
    (env : Env) (w : World) (r : Run)
    → state_eq r.state pending ≡ true
    → IsSound env r
    → IsSound env (timed_out_run env w r)
unfolding timed_out_run sync_job_result log_to_result
timed_out_run-IsSound env w r t h = record {
  mirrored = unfold timed_out_run in timed_out_run-IsMirrored env w r;
  token_held = λ e. ground (arith, h.token_held, t);
  lease_held = λ p q. ground arith;
  worker_set = λ e. ground arith;
  zoneless_token = h.zoneless_token;
  zoneless_worker = h.zoneless_worker;
  attempts = h.attempts;
}

time_out-Preserved :
    (env : Env) (pk : ℕ) (w : World) (r : Run)
    → WellFormed env w.runs
    → find_run pk w.runs ≡ some r
    → state_eq r.state pending ≡ true
    → Preserved env w.runs
        (refresh_parent_state env (timed_out_run env w r) (save_run (timed_out_run env w r) w)).runs
unfolding save_run
time_out-Preserved env pk w r h e t =
    let r' : Run = timed_out_run env w r in
    let listed : Listed r' w.runs =
      unfold timed_out_run sync_job_result log_to_result in find_run-Listed pk w.runs e in
    let p : Preserved env w.runs (set_run r' w.runs) =
      set_run-Preserved env r' w.runs h listed
        (timed_out_run-IsSound env w r t (All-find_run (IsSound env) pk w.runs h.sound e)) in
    Preserved-trans env w.runs (set_run r' w.runs) _ p (
      refresh_parent_state-Preserved env r' (save_run r' w) p.0
        (Listed-Preserved env r' w.runs (set_run r' w.runs) listed p.1))

time_out_one-eq :
    (env : Env) (pk : ℕ) (w : World) (n : ℕ)
    → ((time_out_one env pk (w, n)).0.runs ≡ w.runs)
      ⊎ ((r : Run) × (find_run pk w.runs ≡ some r)
          × (state_eq r.state pending ≡ true)
          × ((time_out_one env pk (w, n)).0.runs
              ≡ (refresh_parent_state env
                  (timed_out_run env w r)
                  (save_run (timed_out_run env w r) w)).runs))
unfolding time_out_one
time_out_one-eq env pk w n = elim (Option-cases (find_run pk w.runs)) [
  | inl e ↦ inl (ground (arith, e))
  | inr (r, e) ↦ elim (Bool-cases (env.locked pk || not (state_eq r.state pending))) [
    | inl t ↦ inl (ground (arith, e, t))
    | inr t ↦ inr (r, e, ground (arith, t), ground (arith, e, t))
  ]
]

time_out_one-Preserved :
    (env : Env) (pk : ℕ) (w : World) (n : ℕ)
    → WellFormed env w.runs
    → Preserved env w.runs (time_out_one env pk (w, n)).0.runs
time_out_one-Preserved env pk w n h = elim (time_out_one-eq env pk w n) [
  | inl e ↦ rw e (h, refl)
  | inr (r, e, t, q) ↦ rw q (time_out-Preserved env pk w r h e t)
]

time_out_all-Preserved :
    (env : Env) (pks : List ℕ) (w : World) (n : ℕ)
    → WellFormed env w.runs
    → Preserved env w.runs (time_out_all env pks (w, n)).0.runs
unfolding time_out_all
time_out_all-Preserved env [] w n h = (h, refl)
time_out_all-Preserved env (pk ∷ pks) w n h =
    let s : World × ℕ = time_out_one env pk (w, n) in
    let p = time_out_one-Preserved env pk w n h in
    Preserved-trans env w.runs s.0.runs _ p (time_out_all-Preserved env pks s.0 s.1 p.0)

-- A pass of the reaper over a well-formed table never raises, whatever rows are locked, and leaves a
-- well-formed table with the same rows up to what handlers change.
pub reap_expired-Preserved :
    (env : Env) (w : World)
    → WellFormed env w.runs
    → (s : World × ℕ) × (reap_expired env w ≡ ok s) × Preserved env w.runs s.0.runs
unfolding reap_expired
reap_expired-Preserved env w h =
    let (s, done, p) =
      reap_all-Returns env (map (λ r. r.pk) (select (is_expired env) w.runs)) w 0 h in
    let q : Preserved env s.0.runs (reap_wait_timeouts env s).0.runs =
      unfold reap_wait_timeouts in
      time_out_all-Preserved env (map (λ r. r.pk) (select (has_waited_out env) s.0.runs)) s.0 s.1
        p.0 in
    (reap_wait_timeouts env s, rw done refl, Preserved-trans env w.runs s.0.runs _ p q)
