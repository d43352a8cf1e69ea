-- ===== src/App/Submission/Submit/Created.antt =====
-- A run that `submit_run` of dispatch/submission.py has just created, and its zone.
use nautobot_app_remote_jobs.Shared.{
  ℕ, true, false, ◌≡◌, ◌≢◌, refl, Option, none, some, List, [], ◌∷◌, arith, map, is_key, inl,
}
use nautobot_app_remote_jobs.Shared.Lists.{All}
use nautobot_app_remote_jobs.App.Records.{Run, World, Env}
use nautobot_app_remote_jobs.App.Runs.{is_terminal}
use nautobot_app_remote_jobs.App.Store.{set_run, save_run}
use nautobot_app_remote_jobs.App.Store.Rows.{Shape, shape}
use nautobot_app_remote_jobs.App.Store.Sound.{IsSound, WellFormed}
use nautobot_app_remote_jobs.App.Submission.Submit.Insert.{Fresh, insert-WellFormed}
use nautobot_app_remote_jobs.App.Submission.Submit.Children.{insert-Extends, Growing}
use nautobot_app_remote_jobs.App.Submission.Submit.Committed.{Committed}

-- A save of a row that is not there does nothing.
pub set_run-Fresh : (r : Run) (rows : List Run) → Fresh r.pk rows → set_run r rows ≡ rows
unfolding set_run
set_run-Fresh r [] f = refl
set_run-Fresh r (s ∷ rows) f = ground (arith, f.0.0, set_run-Fresh r rows f.1)

-- A new run that is alone with the rows that were there.
pub record Created (env : Env) (rows : List Run) (w : World) (p : Run) : Type 0 where
  pub table : w.runs ≡ p ∷ rows
  pub is_sound : IsSound env p
  pub is_new : Fresh p.pk rows
  pub zoneless : p.zone ≡ none
  pub orphan : p.parent ≡ none
  pub rows_kept : WellFormed env rows

no_parent :
    (shs : List Shape) (o : Option ℕ)
    → o ≡ none
    → All (λ s. is_key o s.pk ≡ true → s.zone ≡ none) shs
no_parent [] o e = tt
no_parent (s ∷ shs) o e = (λ t. ground (arith, t, e), no_parent shs o e)

Fresh-zoneless :
    (k : ℕ) (shs : List Shape)
    → All (λ s. (s.pk ≢ k) × (is_key s.parent k ≡ false)) shs
    → All (λ s. s.pk ≡ k → s.zone ≡ none) shs
Fresh-zoneless k [] f = tt
Fresh-zoneless k (s ∷ shs) f = (λ e. absurd (f.0.0 e), Fresh-zoneless k shs f.1)

alone-WellFormed :
    (env : Env) (rows : List Run) (p : Run)
    → IsSound env p
    → Fresh p.pk rows
    → p.parent ≡ none
    → WellFormed env rows
    → WellFormed env (p ∷ rows)
alone-WellFormed env rows p s f e h =
    insert-WellFormed env p rows h f (ground (arith, e), no_parent (map shape rows) p.parent e) s

pub Created-Growing :
    (env : Env) (rows : List Run) (w : World) (p : Run)
    → Created env rows w p
    → Growing env rows w p
Created-Growing env rows w p c = record {
  well_formed = rw c.table (alone-WellFormed env rows p c.is_sound c.is_new c.orphan c.rows_kept);
  parent_sound = c.is_sound;
  parent_listed = rw c.table (inl refl);
  parent_zoneless = rw c.table (λ _. c.zoneless, Fresh-zoneless p.pk (map shape rows) c.is_new);
  parent_new = c.is_new;
  extends = rw c.table (insert-Extends p rows c.is_new);
}

-- A row with its zone set.
zoned-IsSound :
    (env : Env) (z : ℕ) (p : Run)
    → IsSound env p
    → p.zone ≡ none
    → IsSound env (record p { zone = some z })
unfolding is_terminal
zoned-IsSound env z p h e = record {
  mirrored = record {
    status_mirrored = h.mirrored.status_mirrored;
    finish_set = h.mirrored.finish_set;
    finish_mirrored = h.mirrored.finish_mirrored;
    revocation_mirrored = h.mirrored.revocation_mirrored;
  };
  token_held = h.token_held;
  lease_held = h.lease_held;
  worker_set = h.worker_set;
  zoneless_token = λ t. h.zoneless_token e;
  zoneless_worker = λ t. h.zoneless_worker e;
  attempts = h.attempts;
}

pub placed-Committed :
    (env : Env) (z : ℕ) (rows : List Run) (w : World) (p : Run)
    → Created env rows w p
    → Committed env rows
        (save_run (record p { zone = some z }) w, record p { zone = some z }, z ∷ [])
unfolding save_run
placed-Committed env z rows w p c =
    let r : Run = record p { zone = some z } in
    let e : set_run r w.runs ≡ r ∷ rows =
      rw c.table (unfold set_run in ground (arith, set_run-Fresh r rows c.is_new)) in
    record {
      well_formed = rw e (
          alone-WellFormed env rows r (zoned-IsSound env z p c.is_sound c.zoneless) c.is_new
            c.orphan c.rows_kept);
      extends = rw e (insert-Extends r rows c.is_new);
      listed = rw e (inl refl);
    }
