-- ===== src/App/System/Reach.antt =====
-- What holds of the table of runs after any calls of the dispatcher.
use nautobot_app_remote_jobs.Shared.{ℕ, ◌≡◌, sym, ◌∙◌, subst, some, List, [], ◌∷◌}
use nautobot_app_remote_jobs.Shared.Lists.{All}
use nautobot_app_remote_jobs.App.Records.{Run, World, Env, ok}
use nautobot_app_remote_jobs.App.Reaper.{reap_expired}
use nautobot_app_remote_jobs.App.Reaper.Pass.{reap_expired-Preserved}
use nautobot_app_remote_jobs.App.Cancel.{CancelOutcome}
use nautobot_app_remote_jobs.App.Cancel.Parent.{cancel_run-OkKeeps}
use nautobot_app_remote_jobs.App.Store.{find_run}
use nautobot_app_remote_jobs.App.Store.Rows.{All-find_run}
use nautobot_app_remote_jobs.App.Store.Sound.{IsSound, WellFormed}
use nautobot_app_remote_jobs.App.Store.Keeps.{OkKeeps}
use nautobot_app_remote_jobs.App.Submission.Submit.Children.{KeysAreNew}
use nautobot_app_remote_jobs.App.Submission.Submit.Whole.{OkSubmits, submit_run-WellFormed}
use nautobot_app_remote_jobs.App.Rpc.Keeps.{dispatch_rpc-Preserved}
use nautobot_app_remote_jobs.App.System.{
  Moment, at_moment, Outside, Step, frame_from, beat, cancel_call, submission, Reachable, here,
  then_step,
}

-- Soundness looks at the definitions only, not at the clock.
IsSound-at : (env : Env) (m : Moment) (r : Run) → IsSound env r → IsSound (at_moment env m) r
IsSound-at env m r h = record {
  mirrored = h.mirrored;
  token_held = h.token_held;
  lease_held = h.lease_held;
  worker_set = h.worker_set;
  zoneless_token = h.zoneless_token;
  zoneless_worker = h.zoneless_worker;
  attempts = h.attempts;
}

IsSound-from : (env : Env) (m : Moment) (r : Run) → IsSound (at_moment env m) r → IsSound env r
IsSound-from env m r h = record {
  mirrored = h.mirrored;
  token_held = h.token_held;
  lease_held = h.lease_held;
  worker_set = h.worker_set;
  zoneless_token = h.zoneless_token;
  zoneless_worker = h.zoneless_worker;
  attempts = h.attempts;
}

All-weaken :
    (P Q : Run → Type 0) (rows : List Run) → ((r : Run) → P r → Q r) → All P rows → All Q rows
All-weaken P Q [] f h = tt
All-weaken P Q (r ∷ rows) f h = (f r h.0, All-weaken P Q rows f h.1)

WellFormed-at :
    (env : Env) (m : Moment) (rows : List Run)
    → WellFormed env rows
    → WellFormed (at_moment env m) rows
WellFormed-at env m rows h = record {
  keys = h.keys;
  parents = h.parents;
  sound = All-weaken (IsSound env) (IsSound (at_moment env m)) rows (IsSound-at env m) h.sound;
}

WellFormed-from :
    (env : Env) (m : Moment) (rows : List Run)
    → WellFormed (at_moment env m) rows
    → WellFormed env rows
WellFormed-from env m rows h = record {
  keys = h.keys;
  parents = h.parents;
  sound = All-weaken (IsSound (at_moment env m)) (IsSound env) rows (IsSound-from env m) h.sound;
}

beat-WellFormed :
    (env : Env) (w : World) (s : World × ℕ)
    → reap_expired env w ≡ ok s
    → WellFormed env w.runs
    → WellFormed env s.0.runs
beat-WellFormed env w s e h =
    let (t, done, p) = reap_expired-Preserved env w h in
    (subst (OkKeeps {A = World × ℕ} (λ u. u.0) env w.runs) {x = ok t} {y = ok s} (sym done ∙ e) p).0

Step-WellFormed :
    (env : Env) (outside : Outside) (v w : World)
    → KeysAreNew outside.core
    → Step env outside v w
    → WellFormed env v.runs
    → WellFormed env w.runs
Step-WellFormed env outside v w n (frame_from m k frame _) h =
    WellFormed-from env m _
      (dispatch_rpc-Preserved (at_moment env m) outside.wire k frame v
        (WellFormed-at env m v.runs h)).0
Step-WellFormed env outside v w n (beat m _ s e) h =
    WellFormed-from env m s.0.runs
      (beat-WellFormed (at_moment env m) v s e (WellFormed-at env m v.runs h))
Step-WellFormed env outside v w n (cancel_call m fuel user mode k _ s e) h =
    let p =
      subst (OkKeeps {A = World × CancelOutcome} (λ u. u.0) (at_moment env m) v.runs) e
        (cancel_run-OkKeeps fuel (at_moment env m) user mode k v (WellFormed-at env m v.runs h)) in
    WellFormed-from env m s.0.runs p.0
Step-WellFormed env outside v w n (submission m q _ s e) h =
    let p =
      subst (OkSubmits (at_moment env m) v.runs) e (
        submit_run-WellFormed (at_moment env m) outside.core q v n
          (WellFormed-at env m v.runs h)) in
    WellFormed-from env m s.0.runs p.0

Reachable-WellFormed :
    (env : Env) (outside : Outside) (u w : World)
    → KeysAreNew outside.core
    → Reachable env outside u w
    → WellFormed env u.runs
    → WellFormed env w.runs
Reachable-WellFormed env outside u w n (here _) h = h
Reachable-WellFormed env outside u w n (then_step {v = v} p s) h =
    Step-WellFormed env outside v w n s (Reachable-WellFormed env outside u v n p h)

-- After any calls of the dispatcher, from a table with no runs, whatever the clock and the locks of each
-- call: every run is sound, and the next beat of the reaper does not raise; the keys of new rows have to
-- be new.
pub Reachable-IsSound :
    (env : Env) (outside : Outside) (u w : World)
    → KeysAreNew outside.core
    → u.runs ≡ []
    → Reachable env outside u w
    → ((k : ℕ) (r : Run) → find_run k w.runs ≡ some r → IsSound env r)
      × ((m : Moment) → (s : World × ℕ) × (reap_expired (at_moment env m) w ≡ ok s))
Reachable-IsSound env outside u w n e p =
    let start : WellFormed env u.runs = rw e (record { keys = tt; parents = tt; sound = tt }) in
    let h = Reachable-WellFormed env outside u w n p start in
    (
      λ k r f. All-find_run (IsSound env) k w.runs h.sound f,
      λ m.
          let (s, done, q) =
            reap_expired-Preserved (at_moment env m) w (WellFormed-at env m w.runs h) in
          (s, done),
    )
