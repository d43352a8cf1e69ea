-- ===== src/App/Reaper/Parents.antt =====
-- What `refresh_parent_state` of models/runs.py does to a parent run.
use nautobot_app_remote_jobs.Shared.{
  ℕ, true, false, ◌≡◌, ◌≢◌, refl, sym, subst, Option, none, some, List, [], ◌∷◌, arith, not,
  Bool-cases, inl, inr, map, is_key, if_both, if◌then◌else◌, ◌==◌,
}
use nautobot_app_remote_jobs.Shared.Lists.{all}
use nautobot_app_remote_jobs.App.Choices.{RunState, success, failure}
use nautobot_app_remote_jobs.App.Records.{Run, World, Env}
use nautobot_app_remote_jobs.App.Runs.{state_eq, sync_job_result}
use nautobot_app_remote_jobs.App.Runs.Mirror.{IsMirrored, sync-IsMirrored}
use nautobot_app_remote_jobs.App.Store.{find_run, set_run, save_run, worker_name}
use nautobot_app_remote_jobs.App.Store.Rows.{
  shape, Listed, All-Member, find_run-Listed, pk-find_run, All-find_run, find_run-set_run,
}
use nautobot_app_remote_jobs.App.Store.Sound.{IsSound, WellFormed, Preserved, set_run-Preserved}
use nautobot_app_remote_jobs.App.Reaper.{
  child_states, derive_parent, refresh_parent, refresh_found, refresh_key, refresh_parent_state,
  terminal_like,
}
use nautobot_app_remote_jobs.Shared.Lists.{All}

derive_parent-IsMirrored :
    (env : Env) (w : World) (states : List RunState) (p : Run)
    → IsMirrored (derive_parent env w states p)
unfolding derive_parent
derive_parent-IsMirrored env w states p =
    sync-IsMirrored env.now (worker_name w p) none
      (record p {
        state = if all (λ s. state_eq s success) states then success else failure;
        finished_at = some env.now;
      })
      (λ _. refl)

derive_parent-IsSound :
    (env : Env) (w : World) (states : List RunState) (p : Run)
    → p.zone ≡ none
    → IsSound env p
    → IsSound env (derive_parent env w states p)
unfolding derive_parent sync_job_result
derive_parent-IsSound env w states p z h = record {
  mirrored = unfold derive_parent sync_job_result in derive_parent-IsMirrored env w states p;
  token_held = λ e. ground (arith, h.zoneless_token z);
  lease_held = λ e. ground (arith, h.zoneless_worker z);
  worker_set = λ e. ground arith;
  zoneless_token = λ e. h.zoneless_token z;
  zoneless_worker = λ e. h.zoneless_worker z;
  attempts = h.attempts;
}

zone_of_parent :
    (env : Env) (r : Run) (k : ℕ) (p : Run) (rows : List Run)
    → WellFormed env rows
    → Listed r rows
    → find_run k rows ≡ some p
    → is_key r.parent p.pk ≡ true
    → p.zone ≡ none
zone_of_parent env r j p rows h m e k =
    All-Member (λ y. is_key r.parent y.pk ≡ true → y.zone ≡ none) (shape p) (map shape rows)
      (find_run-Listed j rows e)
      (All-Member (λ c. All (λ y. is_key c.parent y.pk ≡ true → y.zone ≡ none) (map shape rows))
        (shape r) (map shape rows) m h.parents)
      k

refresh_parent-Preserved :
    (env : Env) (p : Run) (states : List RunState) (w : World)
    → WellFormed env w.runs
    → Listed p w.runs
    → p.zone ≡ none
    → IsSound env p
    → Preserved env w.runs (refresh_parent env p states w).runs
unfolding refresh_parent save_run
refresh_parent-Preserved env p [] w h m z s = (h, refl)
refresh_parent-Preserved env p (t ∷ states) w h m z s =
    if_both {A = World} (λ x. Preserved env w.runs x.runs) (not (all terminal_like (t ∷ states)))
      (h, refl)
      (if_both {A = World} (λ x. Preserved env w.runs x.runs) _
        (set_run-Preserved env (derive_parent env w (t ∷ states) p) w.runs h
          (unfold derive_parent sync_job_result in m)
          (derive_parent-IsSound env w (t ∷ states) p z s))
        (h, refl))

refresh_found-Preserved :
    (env : Env) (r : Run) (k : ℕ) (o : Option Run) (w : World)
    → WellFormed env w.runs
    → Listed r w.runs
    → r.parent ≡ some k
    → find_run k w.runs ≡ o
    → Preserved env w.runs (refresh_found env k o w).runs
unfolding refresh_found
refresh_found-Preserved env r k none w h m e f = (h, refl)
refresh_found-Preserved env r k (some p) w h m e f =
    refresh_parent-Preserved env p (child_states k w.runs) w h (find_run-Listed k w.runs f)
      (zone_of_parent env r k p w.runs h m f (ground (arith, pk-find_run k w.runs f)))
      (All-find_run (IsSound env) k w.runs h.sound f)

refresh_key-Preserved :
    (env : Env) (r : Run) (o : Option ℕ) (w : World)
    → WellFormed env w.runs
    → Listed r w.runs
    → r.parent ≡ o
    → Preserved env w.runs (refresh_key env o w).runs
unfolding refresh_key
refresh_key-Preserved env r none w h m e = (h, refl)
refresh_key-Preserved env r (some k) w h m e =
    refresh_found-Preserved env r k (find_run k w.runs) w h m e refl

-- Deriving the state of the parent of a run of a well-formed table keeps the table well-formed, with
-- the same rows up to what handlers change.
pub refresh_parent_state-Preserved :
    (env : Env) (r : Run) (w : World)
    → WellFormed env w.runs
    → Listed r w.runs
    → Preserved env w.runs (refresh_parent_state env r w).runs
unfolding refresh_parent_state
refresh_parent_state-Preserved env r w h m = refresh_key-Preserved env r r.parent w h m refl

missed_derived :
    (env : Env) (k : ℕ) (p : Run) (states : List RunState) (w : World)
    → (p.pk == k) ≡ false
    → find_run k (set_run (derive_parent env w states p) w.runs) ≡ find_run k w.runs
unfolding derive_parent sync_job_result
missed_derived env k p states w h = rw find_run-set_run (rw h)

find_run-refresh_parent :
    (env : Env) (k : ℕ) (p : Run) (states : List RunState) (w : World)
    → (p.pk == k) ≡ false
    → find_run k (refresh_parent env p states w).runs ≡ find_run k w.runs
unfolding refresh_parent save_run
find_run-refresh_parent env k p [] w h = refl
find_run-refresh_parent env k p (t ∷ states) w h =
    if_both {A = World} (λ x. find_run k x.runs ≡ find_run k w.runs)
      (not (all terminal_like (t ∷ states))) refl
      (if_both {A = World} (λ x. find_run k x.runs ≡ find_run k w.runs) _
        (missed_derived env k p (t ∷ states) w h) refl)

find_run-refresh_found :
    (env : Env) (k j : ℕ) (o : Option Run) (w : World)
    → (j == k) ≡ false
    → find_run j w.runs ≡ o
    → find_run k (refresh_found env j o w).runs ≡ find_run k w.runs
unfolding refresh_found
find_run-refresh_found env k j none w h f = refl
find_run-refresh_found env k j (some p) w h f =
    find_run-refresh_parent env k p (child_states j w.runs) w
      (subst (λ n. (n == k) ≡ false) (sym (pk-find_run j w.runs f)) h)

find_run-refresh_key :
    (env : Env) (k : ℕ) (o : Option ℕ) (w : World)
    → is_key o k ≡ false
    → find_run k (refresh_key env o w).runs ≡ find_run k w.runs
unfolding refresh_key
find_run-refresh_key env k none w h = refl
find_run-refresh_key env k (some j) w h =
    find_run-refresh_found env k j (find_run j w.runs) w h refl

-- Only the parent's row can change.
pub find_run-refresh_parent_state :
    (env : Env) (k : ℕ) (r : Run) (w : World)
    → is_key r.parent k ≡ false
    → find_run k (refresh_parent_state env r w).runs ≡ find_run k w.runs
unfolding refresh_parent_state
find_run-refresh_parent_state env k r w h = find_run-refresh_key env k r.parent w h

-- A run with a zone is not its own parent.
pub not_own_parent :
    (env : Env) (r : Run) (rows : List Run)
    → WellFormed env rows
    → Listed r rows
    → r.zone ≢ none
    → is_key r.parent r.pk ≡ false
not_own_parent env r rows h m z = elim (Bool-cases (is_key r.parent r.pk)) [
  | inl e ↦ absurd (
      z (
        All-Member (λ y. is_key r.parent y.pk ≡ true → y.zone ≡ none) (shape r) (map shape rows) m
          (All-Member (λ c. All (λ y. is_key c.parent y.pk ≡ true → y.zone ≡ none) (map shape rows))
            (shape r) (map shape rows) m h.parents)
          e))
  | inr e ↦ e
]
