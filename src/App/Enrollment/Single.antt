-- ===== src/App/Enrollment/Single.antt =====
-- A single-use token enrolls one worker.
use nautobot_app_remote_jobs.Shared.{
  ℕ, suc, ◌+◌, ◌≤◌, Bool, true, ◌≡◌, refl, List, [], ◌∷◌, ◌++◌, arith, is_some, if◌then◌else◌,
}
use nautobot_app_remote_jobs.Shared.Lists.{length}
use nautobot_app_remote_jobs.App.Records.{Worker}
use nautobot_app_remote_jobs.App.Enrollment.{
  EnrollmentToken, EnrollRequest, Enrollment, enroll, Attempt, enroll_all, new_worker,
}

-- How many workers the token may still enroll.
abbrev pub remaining : EnrollmentToken → ℕ
remaining t = if is_some t.used_at then 0 else 1

length-snoc : (xs : List Worker) (x : Worker) → length (xs ++ x ∷ []) ≡ suc (length xs)
length-snoc [] x = refl
length-snoc (y ∷ xs) x = ground (arith, length-snoc xs x)

enroll-spends :
    (now pk : ℕ) (authenticated : Bool) (q : EnrollRequest) (s : Enrollment)
    → s.token.single_use ≡ true
    → ((enroll now pk authenticated q s).0.token.single_use ≡ true)
      × (length (enroll now pk authenticated q s).0.workers
            + remaining (enroll now pk authenticated q s).0.token
          ≤ length s.workers + remaining s.token)
unfolding enroll
enroll-spends now pk authenticated q s u =
    (ground (arith, u), ground (arith, u, length-snoc s.workers (new_worker now pk q s.token)))

enroll_all-spends :
    (attempts : List Attempt) (s : Enrollment)
    → s.token.single_use ≡ true
    → length (enroll_all attempts s).workers + remaining (enroll_all attempts s).token
      ≤ length s.workers + remaining s.token
unfolding enroll_all
enroll_all-spends [] s u = omega arith
enroll_all-spends (a ∷ rest) s u =
    let step = enroll-spends a.at a.pk a.authenticated a.request s u in
    omega (
      arith,
      step.1,
      enroll_all-spends rest (enroll a.at a.pk a.authenticated a.request s).0 step.0,
    )

-- However many requests present a single-use token, and whenever they do, at most one worker is
-- enrolled by them all, and none if the token was used before.
pub enroll_all-once :
    (attempts : List Attempt) (s : Enrollment)
    → s.token.single_use ≡ true
    → length (enroll_all attempts s).workers ≤ length s.workers + remaining s.token
enroll_all-once attempts s u = omega (arith, enroll_all-spends attempts s u)
