-- ===== src/App/Store/Sound.antt =====
-- What holds of every row of the table of runs between two handlers.
use nautobot_app_remote_jobs.Shared.{
  ◌+◌, ◌≤◌, true, ◌≡◌, inl, inr, refl, sym, ◌∙◌, subst, none, List, arith, Option-cases, map,
  is_some, is_key,
}
use nautobot_app_remote_jobs.Shared.Lists.{All}
use nautobot_app_remote_jobs.App.Choices.{claimed}
use nautobot_app_remote_jobs.App.Records.{Run, World, Env}
use nautobot_app_remote_jobs.App.Runs.Mirror.{IsMirrored}
use nautobot_app_remote_jobs.App.Store.{in_flight, set_run, save_run, delete_scoped_token}
use nautobot_app_remote_jobs.App.Store.Rows.{
  Shape, shape, DistinctKeys, Member, Listed, Member-Agrees, All-set_run, shapes-set_run,
  set_run-set_run,
}

-- A run is mirrored in its JobResult; only a claimed or running run has a scoped token; a run that a
-- worker holds has a lease; a run with no zone was never given to a worker; the attempts are within
-- the retry policy.
pub record IsSound (env : Env) (r : Run) : Type 0 where
  pub mirrored : IsMirrored r
  pub token_held : is_some r.scoped_token ≡ true → in_flight r.state ≡ true
  pub lease_held :
      is_some r.worker ≡ true → in_flight r.state ≡ true → is_some r.lease_expires_at ≡ true
  pub worker_set : r.state ≡ claimed → is_some r.worker ≡ true
  pub zoneless_token : r.zone ≡ none → r.scoped_token ≡ none
  pub zoneless_worker : r.zone ≡ none → r.worker ≡ none
  pub attempts : r.attempt ≤ (env.definition r.job_definition).retry_max + 1

-- The parent of a run is an aggregator: it has no zone.
abbrev pub ZonelessParents : List Shape → Type 0
ZonelessParents shs = All (λ c. All (λ p. is_key c.parent p.pk ≡ true → p.zone ≡ none) shs) shs

pub record WellFormed (env : Env) (rows : List Run) : Type 0 where
  pub keys : DistinctKeys (map shape rows)
  pub parents : ZonelessParents (map shape rows)
  pub sound : All (IsSound env) rows

pub set_run-shapes :
    (env : Env) (r : Run) (rows : List Run)
    → WellFormed env rows
    → Listed r rows
    → map shape (set_run r rows) ≡ map shape rows
set_run-shapes env r rows h m =
    shapes-set_run r rows (Member-Agrees (shape r) (map shape rows) h.keys m)

pub set_run-WellFormed :
    (env : Env) (r : Run) (rows : List Run)
    → WellFormed env rows
    → Listed r rows
    → IsSound env r
    → WellFormed env (set_run r rows)
set_run-WellFormed env r rows h m s =
    let e = set_run-shapes env r rows h m in
    record {
      keys = subst DistinctKeys (sym e) h.keys;
      parents = subst ZonelessParents (sym e) h.parents;
      sound = All-set_run (IsSound env) r rows s h.sound;
    }

abbrev pub without_token : Run → Run
without_token r = record r { scoped_token = none }

without_token_eq : (r : Run) → r.scoped_token ≡ none → r ≡ without_token r
without_token_eq r e = ground arith

-- Saving a run and then deleting its token leaves the table with the run without its token.
pub runs-delete_scoped_token :
    (r : Run) (w : World)
    → ((delete_scoped_token r (save_run r w)).0.runs ≡ set_run (without_token r) w.runs)
      × ((delete_scoped_token r (save_run r w)).1 ≡ without_token r)
unfolding delete_scoped_token save_run
runs-delete_scoped_token r w = elim (Option-cases (r.scoped_token)) [
  | inl e ↦ ground (arith, without_token_eq r e)
  | inr (k, e) ↦ ground (arith, e, set_run-set_run (without_token r) r w.runs refl)
]

-- The table is still well-formed, and holds the same rows up to what handlers change.
abbrev pub Preserved : Env → List Run → List Run → Type 0
Preserved env rows rows' = WellFormed env rows' × (map shape rows' ≡ map shape rows)

pub set_run-Preserved :
    (env : Env) (r : Run) (rows : List Run)
    → WellFormed env rows
    → Listed r rows
    → IsSound env r
    → Preserved env rows (set_run r rows)
set_run-Preserved env r rows h m s =
    (set_run-WellFormed env r rows h m s, set_run-shapes env r rows h m)

pub Listed-Preserved :
    (env : Env) (r : Run) (rows rows' : List Run)
    → Listed r rows
    → map shape rows' ≡ map shape rows
    → Listed r rows'
Listed-Preserved env r rows rows' m e = subst (Member (shape r)) (sym e) m

pub Preserved-trans :
    (env : Env) (a b c : List Run) → Preserved env a b → Preserved env b c → Preserved env a c
Preserved-trans env a b c p q = (q.0, q.1 ∙ p.1)
