-- ===== src/App/Submission/Submit/Insert.antt =====
-- A new row in the table of runs: `RemoteJobRun.objects.create` of dispatch/submission.py.
use nautobot_app_remote_jobs.Shared.{
  ℕ, true, false, ◌≡◌, ◌≢◌, refl, Option, none, some, List, [], ◌∷◌, ◌++◌, ◌||◌, arith, map, is_key,
}
use nautobot_app_remote_jobs.Shared.Lists.{All, contains}
use nautobot_app_remote_jobs.App.Records.{Run, Env}
use nautobot_app_remote_jobs.App.Runs.{is_terminal}
use nautobot_app_remote_jobs.App.Store.Rows.{Shape, shape}
use nautobot_app_remote_jobs.App.Store.Sound.{IsSound, WellFormed}
use nautobot_app_remote_jobs.App.Submission.{Inputs}
use nautobot_app_remote_jobs.App.Submission.Targets.{keys_of, mentioned, Request, new_run}

-- No row has the key, as its own or as its parent's.
abbrev pub Fresh : ℕ → List Run → Type 0
Fresh k rows = All (λ s. (s.pk ≢ k) × (is_key s.parent k ≡ false)) (map shape rows)

contains-keys_of :
    (o : Option ℕ) (ks : List ℕ) (k : ℕ)
    → contains (keys_of o ++ ks) k ≡ (is_key o k || contains ks k)
contains-keys_of none ks k = refl
contains-keys_of (some j) ks k = refl

pub mentioned-Fresh : (k : ℕ) (rows : List Run) → contains (mentioned rows) k ≡ false → Fresh k rows
mentioned-Fresh k [] h = tt
mentioned-Fresh k (r ∷ rows) h =
    let e = contains-keys_of r.parent (mentioned rows) k in
    (
      (λ q. ground (arith, h, q), ground (arith, h, e)),
      mentioned-Fresh k rows (ground (arith, h, e)),
    )

Fresh-Distinct :
    (k : ℕ) (shs : List Shape)
    → All (λ s. (s.pk ≢ k) × (is_key s.parent k ≡ false)) shs
    → All (λ s. s.pk ≢ k) shs
Fresh-Distinct k [] h = tt
Fresh-Distinct k (s ∷ shs) h = (h.0.0, Fresh-Distinct k shs h.1)

-- No row is a child of the new one.
add-column :
    (n : Shape) (shs all : List Shape)
    → All (λ s. (s.pk ≢ n.pk) × (is_key s.parent n.pk ≡ false)) shs
    → All (λ c. All (λ p. is_key c.parent p.pk ≡ true → p.zone ≡ none) all) shs
    → All (λ c. All (λ p. is_key c.parent p.pk ≡ true → p.zone ≡ none) (n ∷ all)) shs
add-column n [] all f h = tt
add-column n (s ∷ shs) all f h =
    ((λ e. ground (arith, e, f.0.1), h.0), add-column n shs all f.1 h.1)

-- The rows that the new one is a child of have no zone.
abbrev pub ParentZoneless : Run → List Run → Type 0
ParentZoneless r rows =
    (is_key r.parent r.pk ≡ false)
    × All (λ s. is_key r.parent s.pk ≡ true → s.zone ≡ none) (map shape rows)

pub insert-WellFormed :
    (env : Env) (r : Run) (rows : List Run)
    → WellFormed env rows
    → Fresh r.pk rows
    → ParentZoneless r rows
    → IsSound env r
    → WellFormed env (r ∷ rows)
insert-WellFormed env r rows h f p s = record {
  keys = (Fresh-Distinct r.pk (map shape rows) f, h.keys);
  parents = (
    (λ e. ground (arith, e, p.0), p.1),
    add-column (shape r) (map shape rows) (map shape rows) f h.parents,
  );
  sound = (s, h.sound);
}

pub new_run-IsSound :
    (env : Env) (q : Request) (stored : Inputs) (parent z device : Option ℕ) (pk : ℕ)
    → IsSound env (new_run env q stored parent z device pk)
unfolding new_run is_terminal
new_run-IsSound env q stored parent z device pk = record {
  mirrored = record {
    status_mirrored = refl;
    finish_set = λ e. ground arith;
    finish_mirrored = λ e. ground arith;
    revocation_mirrored = λ e. ground arith;
  };
  token_held = λ e. ground arith;
  lease_held = λ a b. ground arith;
  worker_set = λ e. ground arith;
  zoneless_token = λ e. refl;
  zoneless_worker = λ e. refl;
  attempts = omega arith;
}
