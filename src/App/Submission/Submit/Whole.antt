-- ===== src/App/Submission/Submit/Whole.antt =====
-- `submit_run` of dispatch/submission.py as a whole: what it leaves in the table of runs.
use nautobot_app_remote_jobs.Shared.{
  ℕ, true, ◌≡◌, refl, ap, sym, ◌∙◌, subst, Option, none, some, List, [], ◌∷◌, arith, ◌==◌, inl, inr,
  is_some, if_both, not, ◌&&◌, or_else,
}
use nautobot_app_remote_jobs.App.Records.{
  Run, World, Env, Result, ok, err, ◌>>=◌, log_info, DispatchFailure, singleton_queued,
  no_zone_resolved, Topic, work_available,
}
use nautobot_app_remote_jobs.App.Runs.{sync_job_result, log_to_result, is_terminal}
use nautobot_app_remote_jobs.App.Store.{find_run, set_run, save_run, publish, publish_run_event}
use nautobot_app_remote_jobs.App.Store.Rows.{shape, Listed}
use nautobot_app_remote_jobs.App.Store.Sound.{IsSound, WellFormed}
use nautobot_app_remote_jobs.App.Store.Result.{log-IsSound}
use nautobot_app_remote_jobs.App.Submission.{
  Inputs, Placed, place, fail_dispatch, failed_run, redact_inputs,
}
use nautobot_app_remote_jobs.App.Submission.Targets.{
  Core, mentioned, Request, new_run, insert_run, schema_properties, extract_target_devices,
}
use nautobot_app_remote_jobs.App.Submission.Submit.{
  Submitted, undispatched, submit_fanout, announced, notify_all, submit_placed, fans_out,
  has_active_run, note_singleton, dispatch_run, create_run, submit_run, is_valid,
}
use nautobot_app_remote_jobs.App.Submission.Submit.Insert.{Fresh, mentioned-Fresh, new_run-IsSound}
use nautobot_app_remote_jobs.App.Submission.Submit.Children.{Extends, KeysAreNew}
use nautobot_app_remote_jobs.App.Submission.Submit.Committed.{
  Committed, undispatched-Committed, OkCommits, fan_out_targets-OkCommits,
}
use nautobot_app_remote_jobs.App.Submission.Submit.Created.{
  set_run-Fresh, Created, Created-Growing, placed-Committed,
}

-- The table is well-formed, each row that was there is still found unchanged, and the new run is found.
abbrev pub Submits : Env → List Run → World × ℕ → Type 0
Submits env rows (w, pk) =
    WellFormed env w.runs × Extends rows w.runs × (is_some (find_run pk w.runs) ≡ true)

Listed-found : (r : Run) (rows : List Run) → Listed r rows → is_some (find_run r.pk rows) ≡ true
unfolding find_run
Listed-found r [] m = absurd m
Listed-found r (s ∷ rows) (inl e) = let q = ap (λ x. x.pk) e in ground (arith, q)
Listed-found r (s ∷ rows) (inr m) =
    if_both {A = Option Run} (λ o. is_some o ≡ true) (s.pk == r.pk) refl (Listed-found r rows m)

runs-notify_all : (zones : List ℕ) (w : World) → (notify_all zones w).runs ≡ w.runs
unfolding publish
runs-notify_all [] w = refl
runs-notify_all (z ∷ zones) w = runs-notify_all zones (publish (work_available z) w)

announced-Submits :
    (env : Env) (rows : List Run) (t : Submitted)
    → Committed env rows t
    → Submits env rows (announced t)
unfolding announced publish_run_event publish
announced-Submits env rows (w, r, zones) c =
    let e = runs-notify_all zones (publish_run_event Topic.queued r w) in
    (rw e c.well_formed, rw e c.extends, rw e (Listed-found r w.runs c.listed))

submit_placed-Submits :
    (env : Env) (rows : List Run) (w : World) (p : Run) (o : Placed)
    → Created env rows w p
    → Submits env rows (submit_placed env (w, p) o)
unfolding submit_placed sync_job_result
submit_placed-Submits env rows w p (some z, e) c =
    announced-Submits env rows
      (save_run (record p { zone = some z }) w, record p { zone = some z }, z ∷ [])
      (placed-Committed env z rows w p c)
submit_placed-Submits env rows w p (none, e) c =
    let f : DispatchFailure = or_else e no_zone_resolved in
    let d : Committed env rows (fail_dispatch env f p w, failed_run env w f p, []) =
      unfold undispatched in
      undispatched-Committed env f rows w p (Created-Growing env rows w p c) in
    (
      d.well_formed,
      d.extends,
      unfold failed_run log_to_result is_terminal in
          Listed-found (failed_run env w f p) (fail_dispatch env f p w).runs d.listed,
    )

-- A submission that is refused leaves nothing.
abbrev pub OkSubmits : Env → List Run → Result (World × ℕ) → Type 0
OkSubmits env rows (ok s) = Submits env rows s
OkSubmits env rows (err e) = Unit

announced-OkSubmits :
    (env : Env) (rows : List Run) (res : Result Submitted)
    → OkCommits env rows res
    → OkSubmits env rows (res >>= λ t. ok (announced t))
announced-OkSubmits env rows (ok t) c = announced-Submits env rows t c
announced-OkSubmits env rows (err e) c = tt

dispatch_run-OkSubmits :
    (env : Env) (core : Core) (q : Request) (stored : Inputs) (rows : List Run) (w : World)
    (p : Run)
    → KeysAreNew core
    → Created env rows w p
    → OkSubmits env rows (dispatch_run env core q stored (w, p))
unfolding dispatch_run submit_fanout
dispatch_run-OkSubmits env core q stored rows w p n c =
    if_both (OkSubmits env rows) (fans_out (env.definition q.job_definition).zone_policy)
      (announced-OkSubmits env rows _ (
        fan_out_targets-OkCommits env core q stored rows w p
          (extract_target_devices env core (env.definition q.job_definition) q.inputs) n
          (Created-Growing env rows w p c)))
      (submit_placed-Submits env rows w p (place env w (env.definition q.job_definition)) c)

note_singleton-IsSound :
    (env : Env) (w : World) (p : Run) → IsSound env p → IsSound env (note_singleton env w p)
unfolding note_singleton
note_singleton-IsSound env w p h =
    if_both (IsSound env) ((env.definition p.job_definition).singleton && has_active_run w.runs p)
      (log-IsSound env log_info "dispatch" singleton_queued p h) h

shape-note_singleton : (env : Env) (w : World) (p : Run) → shape (note_singleton env w p) ≡ shape p
unfolding note_singleton log_to_result
shape-note_singleton env w p =
    if_both {A = Run} (λ r. shape r ≡ shape p)
      ((env.definition p.job_definition).singleton && has_active_run w.runs p) refl refl

saved-Created :
    (env : Env) (rows : List Run) (w : World) (p r : Run)
    → w.runs ≡ rows
    → WellFormed env rows
    → IsSound env r
    → shape r ≡ shape p
    → Fresh p.pk rows
    → p.zone ≡ none
    → p.parent ≡ none
    → Created env rows (save_run r (insert_run p w)) r
unfolding save_run insert_run
saved-Created env rows w p r e h s q f z o =
    let k : r.pk ≡ p.pk = ap (λ x. x.pk) q in
    let g : Fresh r.pk rows = subst (λ j. Fresh j rows) (sym k) f in
    record {
      table = rw e (unfold set_run in ground (arith, k, set_run-Fresh r rows g));
      is_sound = s;
      is_new = g;
      zoneless = ap (λ x. x.zone) q ∙ z;
      orphan = ap (λ x. x.parent) q ∙ o;
      rows_kept = h;
    }

create_run-OkSubmits :
    (env : Env) (core : Core) (q : Request) (w : World)
    → KeysAreNew core
    → WellFormed env w.runs
    → OkSubmits env w.runs (create_run env core q w)
unfolding create_run new_run
create_run-OkSubmits env core q w n h =
    let stored : Inputs =
      redact_inputs (schema_properties (env.definition q.job_definition).input_schema) q.inputs in
    let p : Run = new_run env q stored none none none (core.new_key (mentioned w.runs)) in
    let w1 : World = insert_run p w in
    let r : Run = note_singleton env w1 p in
    dispatch_run-OkSubmits env core q stored w.runs (save_run r w1) r n (
      saved-Created env w.runs w p r refl h
        (note_singleton-IsSound env w1 p
          (new_run-IsSound env q stored none none none (core.new_key (mentioned w.runs))))
        (shape-note_singleton env w1 p)
        (mentioned-Fresh (core.new_key (mentioned w.runs)) w.runs (n (mentioned w.runs))) refl refl)

-- A submission that is not refused leaves a well-formed table, in which every run that was there is
-- found as it was and the new run is found, whether it was placed in a zone, fanned out into children
-- or ended undispatched; the keys of new rows have to be new.
pub submit_run-WellFormed :
    (env : Env) (core : Core) (q : Request) (w : World)
    → KeysAreNew core
    → WellFormed env w.runs
    → OkSubmits env w.runs (submit_run env core q w)
unfolding submit_run
submit_run-WellFormed env core q w n h =
    let d = env.definition q.job_definition in
    if_both (OkSubmits env w.runs) (not d.enabled) tt (
      if_both (OkSubmits env w.runs) (q.dryrun && not d.dryrun_supported) tt (
        if_both (OkSubmits env w.runs) (not (is_valid core d q.inputs)) tt
          (create_run-OkSubmits env core q w n h)))
