-- ===== src/App/Schedules/Pace.antt =====
-- How often the beats of `dispatch_scheduled` (tasks.py) submit a schedule that recurs.
use nautobot_app_remote_jobs.Shared.{
  ℕ, suc, ◌+◌, ◌*◌, ◌≤◌, Bool, true, false, ◌≡◌, refl, some, List, [], ◌∷◌, arith, Bool-cases, inl,
  inr,
}
use native.Mathlib.Nat.{suc-mul}
use nautobot_app_remote_jobs.App.Choices.{ScheduleInterval, hourly, daily, weekly}
use nautobot_app_remote_jobs.App.Schedules.{Schedule, interval_delta, is_due, dispatch_one, beats}

-- The moments do not go back, and stay between the two.
abbrev pub Between : ℕ → ℕ → List ℕ → Type 0
Between from until [] = from ≤ until
Between from until (t ∷ moments) = (from ≤ t) × Between t until moments

-- The intervals with a fixed length.
abbrev pub is_fixed : ScheduleInterval → Bool
is_fixed hourly = true
is_fixed daily = true
is_fixed weekly = true
is_fixed _ = false

due_spaced :
    (cron : ℕ → ℕ) (t last : ℕ) (s : Schedule)
    → is_fixed s.interval ≡ true
    → s.last_run_at ≡ some last
    → is_due cron t s ≡ true
    → last + interval_delta s.interval ≤ t
unfolding is_due
due_spaced cron t last s f l d = ground (arith, f, l, d)

Between-le : (from until : ℕ) (moments : List ℕ) → Between from until moments → from ≤ until
Between-le from until [] h = h
Between-le from until (t ∷ moments) h = omega (arith, h.0, Between-le t until moments h.1)

one_more : (a t n d u : ℕ) → a + d ≤ t → t + n * d ≤ u → a + suc n * d ≤ u
one_more a t n d u g h = let e = suc-mul n d in omega (arith, e, g, h)

-- Submissions after the one at `last`.
beats_after :
    (cron : ℕ → ℕ) (last from until : ℕ) (moments : List ℕ) (s : Schedule)
    → is_fixed s.interval ≡ true
    → s.last_run_at ≡ some last
    → last ≤ from
    → Between from until moments
    → last + (beats cron moments s).1 * interval_delta s.interval ≤ until
unfolding beats dispatch_one
beats_after cron last from until [] s f l a h = omega (arith, a, h)
beats_after cron last from until (t ∷ moments) s f l a h = elim (Bool-cases (is_due cron t s)) [
  | inl d ↦
      let gap = due_spaced cron t last s f l d in
      let rest =
        beats_after cron t t until moments (record s { last_run_at = some t }) f refl (omega arith)
          h.1 in
      rw d (
        one_more last t (beats cron moments (record s { last_run_at = some t })).1
          (interval_delta s.interval) until gap rest)
  | inr d ↦ rw d (beats_after cron last t until moments s f l (omega (arith, a, h.0)) h.1)
]

-- Beats that come one after another between two moments, however often and at whatever moments, submit an
-- hourly, daily or weekly schedule at most once for each whole interval in between and once more.
pub beats_bounded :
    (cron : ℕ → ℕ) (from until : ℕ) (moments : List ℕ) (s : Schedule)
    → is_fixed s.interval ≡ true
    → Between from until moments
    → from + (beats cron moments s).1 * interval_delta s.interval
      ≤ until + interval_delta s.interval
unfolding beats dispatch_one
beats_bounded cron from until [] s f h = omega (arith, h)
beats_bounded cron from until (t ∷ moments) s f h = elim (Bool-cases (is_due cron t s)) [
  | inl d ↦
      let rest =
        beats_after cron t t until moments (record s { last_run_at = some t }) f refl (omega arith)
          h.1 in
      rw d (
        one_more from (t + interval_delta s.interval)
          (beats cron moments (record s { last_run_at = some t })).1 (interval_delta s.interval)
          (until + interval_delta s.interval) (omega (arith, h.0)) (omega (arith, rest)))
  | inr d ↦ rw d (let rest = beats_bounded cron t until moments s f h.1 in omega (arith, h.0, rest))
]
