-- ===== src/App/Reaper/Outcome.antt =====
-- What has become of a run once `abandon_run` of dispatch/reaper.py has returned.
use nautobot_app_remote_jobs.Shared.{
  ℕ, ◌+◌, Bool, true, false, ◌≡◌, ◌≢◌, refl, ◌∙◌, sym, none, some, arith, ltb, is_key, is_some,
  Bool-cases, inl, inr, if◌then◌else◌,
}
use nautobot_app_remote_jobs.App.Choices.{pending, abandoned}
use nautobot_app_remote_jobs.App.Records.{Run, World, Env, Topic, LogMessage, ok}
use nautobot_app_remote_jobs.App.Runs.{enter, sync_job_result, log_to_result}
use nautobot_app_remote_jobs.App.Store.{
  in_flight, find_run, save_run, publish_run_event, delete_scoped_token,
}
use nautobot_app_remote_jobs.App.Store.Rows.{Listed, find_run-set_run, find_run-Listed}
use nautobot_app_remote_jobs.App.Store.Sound.{WellFormed, without_token, runs-delete_scoped_token}
use nautobot_app_remote_jobs.App.Reaper.{requeued_run, retry_or_finish, after_abandon, abandon_run}
use nautobot_app_remote_jobs.App.Reaper.Parents.{find_run-refresh_parent_state, not_own_parent}
use nautobot_app_remote_jobs.App.Reaper.Abandon.{runs-notify_zone, abandoned_run, abandon_run-eq}

-- The retry policy leaves an attempt.
abbrev pub has_retry : Env → Run → Bool
has_retry env r = ltb r.attempt ((env.definition r.job_definition).retry_max + 1)

find_run-retry_or_finish :
    (env : Env) (k : ℕ) (r : Run) (w : World)
    → r.pk ≡ k
    → is_some (find_run k w.runs) ≡ true
    → find_run k w.runs ≡ some r
    → is_key r.parent k ≡ false
    → find_run k (retry_or_finish env r w).runs
      ≡ some (if has_retry env r then requeued_run env r else r)
unfolding retry_or_finish
find_run-retry_or_finish env k r w p f g n = elim (Bool-cases (has_retry env r)) [
  | inl e ↦
      rw (e, runs-notify_zone)
        (unfold save_run in
          find_run-set_run k (requeued_run env r) w.runs
          ∙ unfold requeued_run sync_job_result log_to_result in ground (arith, f, p))
  | inr e ↦ rw e (find_run-refresh_parent_state env k r w n ∙ g)
]

find_run-after_abandon :
    (env : Env) (k : ℕ) (r : Run) (w : World)
    → WellFormed env w.runs
    → Listed r w.runs
    → r.zone ≢ none
    → r.pk ≡ k
    → is_some (find_run k w.runs) ≡ true
    → find_run k (after_abandon env r w).runs
      ≡ some (if has_retry env r then requeued_run env (without_token r) else without_token r)
unfolding after_abandon publish_run_event
find_run-after_abandon env k r w h m z p f =
    let (saved, bare) = runs-delete_scoped_token r w in
    let w' : World = (delete_scoped_token r (save_run r w)).0 in
    let found : find_run k w'.runs ≡ some (without_token r) =
      rw saved (find_run-set_run k (without_token r) w.runs ∙ ground (arith, f, p)) in
    rw bare (
      find_run-retry_or_finish env k (without_token r)
        (publish_run_event Topic.abandoned (without_token r) w') p (rw found refl) found
        (rw (sym p) (not_own_parent env (without_token r) w.runs h m z)))

-- Abandoning a claimed or running run of a zone leaves it without its scoped token: with a retry left
-- it is PENDING again for one more attempt, with no worker and no lease; with none left it is
-- ABANDONED, with its attempts and its worker kept.
pub abandon_run_outcome :
    (env : Env) (reason : LogMessage) (r : Run) (w : World)
    → WellFormed env w.runs
    → find_run r.pk w.runs ≡ some r
    → in_flight r.state ≡ true
    → r.zone ≢ none
    → (w' : World) × (r' : Run) × (abandon_run env reason r w ≡ ok w')
      × (find_run r.pk w'.runs ≡ some r')
      × (r'.scoped_token ≡ none)
      × (r'.state ≡ (if has_retry env r then pending else abandoned))
      × (r'.attempt ≡ (if has_retry env r then r.attempt + 1 else r.attempt))
      × (r'.worker ≡ (if has_retry env r then none else r.worker))
      × (has_retry env r ≡ true → r'.lease_expires_at ≡ none)
unfolding enter log_to_result requeued_run sync_job_result
abandon_run_outcome env reason r w h f i z =
    let r1 : Run = abandoned_run env reason w r in
    let found : find_run r.pk (after_abandon env r1 w).runs
        ≡ some
            (if has_retry env r1 then requeued_run env (without_token r1) else without_token r1) =
      find_run-after_abandon env r.pk r1 w h (find_run-Listed r.pk w.runs f) z refl (rw f refl) in
    elim (Bool-cases (has_retry env r)) [
      | inl e ↦ (
        after_abandon env r1 w,
        requeued_run env (without_token r1),
        abandon_run-eq env reason r w i,
        ground (arith, found, e),
        refl,
        ground (arith, e),
        ground (arith, e),
        ground (arith, e),
        λ _. refl,
      )
      | inr e ↦ (
        after_abandon env r1 w,
        without_token r1,
        abandon_run-eq env reason r w i,
        ground (arith, found, e),
        refl,
        ground (arith, e),
        ground (arith, e),
        ground (arith, e),
        λ t. ground (arith, e, t),
      )
    ]
