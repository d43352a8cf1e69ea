-- ===== src/App/Api/Authorized.antt =====
-- Which run a caller of the worker's REST endpoints may touch, and for how long.
use nautobot_app_remote_jobs.Shared.{
  ℕ, true, false, ◌≡◌, subst, Option, none, some, arith, is_key, Bool-cases, inl, inr,
}
use nautobot_app_remote_jobs.App.Records.{Run, World, Env}
use nautobot_app_remote_jobs.App.Runs.{is_terminal}
use nautobot_app_remote_jobs.App.Store.{find_run}
use nautobot_app_remote_jobs.App.Store.Rows.{All-find_run, some_eq, pk-find_run}
use nautobot_app_remote_jobs.App.Store.Sound.{IsSound, WellFormed}
use nautobot_app_remote_jobs.App.Api.{
  Caller, by_worker, by_token, anonymous, refused_caller, may_touch, if_allowed, get_authorized_run,
}

if_allowed-may_touch :
    (c : Caller) (o : Option Run) (r : Run) → if_allowed c o ≡ some r → may_touch c r ≡ true
if_allowed-may_touch c none r e = cc
if_allowed-may_touch c (some s) r e = elim (Bool-cases (may_touch c s)) [
  | inl t ↦ subst (λ x. may_touch c x ≡ true) (some_eq s r (ground (arith, e, t))) t
  | inr t ↦ ground (arith, e, t)
]

if_allowed-eq : (c : Caller) (o : Option Run) (r : Run) → if_allowed c o ≡ some r → o ≡ some r
if_allowed-eq c none r e = e
if_allowed-eq c (some s) r e = elim (Bool-cases (may_touch c s)) [
  | inl t ↦ ground (arith, e, t)
  | inr t ↦ ground (arith, e, t)
]

-- What the caller is to the run that it may touch.
abbrev pub Holds : Caller → Run → Type 0
Holds (by_worker x) r = is_key r.worker x.pk ≡ true
Holds (by_token t) r = (is_key r.scoped_token t.pk ≡ true) × (is_terminal r ≡ false)
Holds anonymous r = ⊥
Holds refused_caller r = ⊥

may_touch-Holds :
    (env : Env) (c : Caller) (r : Run) → IsSound env r → may_touch c r ≡ true → Holds c r
may_touch-Holds env (by_worker x) r h e = e
may_touch-Holds env (by_token t) r h e =
    let held = h.token_held (ground (arith, e)) in (e, unfold is_terminal in ground (arith, held))
may_touch-Holds env anonymous r h e = absurd (cc)
may_touch-Holds env refused_caller r h e = absurd (cc)

-- In a well-formed table, the run that a caller is let at is the one that is addressed, and either the
-- caller is its worker, or the caller presented its scoped token and the run has not ended; so a token
-- opens nothing once its run has ended, and nobody else is let at any run.
pub get_authorized_run-Holds :
    (env : Env) (c : Caller) (run_id : ℕ) (r : Run) (w : World)
    → WellFormed env w.runs
    → get_authorized_run c run_id w ≡ some r
    → (r.pk ≡ run_id) × Holds c r
unfolding get_authorized_run
get_authorized_run-Holds env c k r w h e =
    let f = if_allowed-eq c (find_run k w.runs) r e in
    (
      pk-find_run k w.runs f,
      may_touch-Holds env c r (All-find_run (IsSound env) k w.runs h.sound f)
          (if_allowed-may_touch c (find_run k w.runs) r e),
    )
