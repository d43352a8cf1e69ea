-- ===== src/App/Schedules.antt =====
-- nautobot_remote_jobs/models/schedules.py, and the step of `dispatch_scheduled` (tasks.py) on one
-- schedule. `croniter` is a parameter: `cron base` is the next occurrence after `base`. Beats do not
-- overlap in the model; the task takes no lock.
pub mod Pace
use nautobot_app_remote_jobs.Shared.{
  ℕ, suc, List, [], ◌∷◌, ◌+◌, ◌≤◌, Bool, true, false, ◌≡◌, ◌&&◌, not, Option, none, some, arith,
  leb, ltb, is_some, if◌then◌else◌, or_else,
}
use nautobot_app_remote_jobs.App.Choices.{ScheduleInterval, once, hourly, daily, weekly, custom}

-- RemoteJobSchedule
pub record Schedule : Type 0 where
  pub enabled : Bool
  pub interval : ScheduleInterval
  pub start_time : ℕ
  pub last_run_at : Option ℕ

-- INTERVAL_DELTAS, in seconds; only the three intervals are looked up.
abbrev pub interval_delta : ScheduleInterval → ℕ
interval_delta hourly = 3600
interval_delta daily = 86400
interval_delta weekly = 604800
interval_delta _ = 0

every : ℕ → Schedule → Option ℕ
every delta s = elim (s.last_run_at) [ none ↦ some s.start_time | some last ↦ some (last + delta) ]

next_of : (ℕ → ℕ) → ScheduleInterval → Schedule → Option ℕ
unfolding every
next_of cron once s = if is_some s.last_run_at then none else some s.start_time
next_of cron custom s = some (cron (or_else s.last_run_at s.start_time))
next_of cron hourly s = every (interval_delta hourly) s
next_of cron daily s = every (interval_delta daily) s
next_of cron weekly s = every (interval_delta weekly) s

-- RemoteJobSchedule.next_run_after
unfoldable pub next_run_after : (ℕ → ℕ) → Schedule → Option ℕ
unfolding next_of
next_run_after cron s = next_of cron s.interval s

due_at : ℕ → Option ℕ → Bool
due_at now none = false
due_at now (some t) = leb t now

due_of : ScheduleInterval → ℕ → Schedule → Option ℕ → Bool
unfolding due_at
due_of once now s next = not (is_some s.last_run_at) && due_at now next
due_of _ now s next = due_at now next

-- RemoteJobSchedule.is_due
unfoldable pub is_due : (ℕ → ℕ) → ℕ → Schedule → Bool
unfolding next_run_after due_of
is_due cron now s =
    if not s.enabled
    then false
    else if ltb now s.start_time
    then false
    else due_of s.interval now s (next_run_after cron s)

-- `dispatch_scheduled` on one schedule: whether it submits, and the schedule after. `last_run_at` is
-- set in the `finally` clause, so also when the submission is refused.
unfoldable pub dispatch_one : (ℕ → ℕ) → ℕ → Schedule → Schedule × Bool
unfolding is_due
dispatch_one cron now s =
    if is_due cron now s then (record s { last_run_at = some now }, true) else (s, false)

-- Beats one after another at the given moments, with the number of submissions.
unfoldable pub beats : (ℕ → ℕ) → List ℕ → Schedule → Schedule × ℕ
unfolding dispatch_one
beats cron [] s = (s, 0)
beats cron (now ∷ moments) s =
    let (t, submits) = dispatch_one cron now s in
    let (u, n) = beats cron moments t in (u, if submits then suc n else n)

-- After a dispatch, a schedule that recurs by a fixed interval is due at a later moment exactly when
-- that interval has passed, and a one-shot schedule never.
pub due_after_dispatch :
    (cron : ℕ → ℕ) (now t : ℕ) (s : Schedule)
    → is_due cron now s ≡ true
    → now ≤ t
    → (s.interval ≡ once → is_due cron t (dispatch_one cron now s).0 ≡ false)
      × (s.interval ≡ hourly → is_due cron t (dispatch_one cron now s).0 ≡ leb (now + 3600) t)
      × (s.interval ≡ daily → is_due cron t (dispatch_one cron now s).0 ≡ leb (now + 86400) t)
      × (s.interval ≡ weekly → is_due cron t (dispatch_one cron now s).0 ≡ leb (now + 604800) t)
unfolding dispatch_one
due_after_dispatch cron now t s d l =
    (λ e. ground arith, λ e. ground arith, λ e. ground arith, λ e. ground arith)
