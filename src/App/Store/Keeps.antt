-- ===== src/App/Store/Keeps.antt =====
-- Handlers that keep the table of runs, in sequence.
use nautobot_app_remote_jobs.Shared.{List}
use nautobot_app_remote_jobs.App.Records.{Run, World, Env, Result, ok, err, ◌>>=◌}
use nautobot_app_remote_jobs.App.Store.Sound.{WellFormed, Preserved, Preserved-trans}

-- A result that is a world keeps the table; a refusal says nothing.
abbrev pub OkKeeps {ℓ} : {A : Type ℓ} → (A → World) → Env → List Run → Result A → Type 0
OkKeeps f env rows (ok a) = Preserved env rows (f a).runs
OkKeeps f env rows (err e) = Unit

pub OkKeeps-trans {ℓ} :
    {A : Type ℓ} (f : A → World) (env : Env) (a b : List Run) (res : Result A)
    → Preserved env a b
    → OkKeeps f env b res
    → OkKeeps f env a res
OkKeeps-trans f env a b (ok x) p q = Preserved-trans env a b (f x).runs p q
OkKeeps-trans f env a b (err e) p q = tt

pub OkKeeps-bind {ℓ κ} :
    {A : Type ℓ} {B : Type κ} (f : A → World) (g : B → World) (env : Env) (rows : List Run)
    (m : Result A) (k : A → Result B)
    → OkKeeps f env rows m
    → ((a : A) → WellFormed env (f a).runs → OkKeeps g env (f a).runs (k a))
    → OkKeeps g env rows (m >>= k)
OkKeeps-bind f g env rows (ok a) k p q = OkKeeps-trans g env rows (f a).runs (k a) p (q a p.0)
OkKeeps-bind f g env rows (err e) k p q = tt
