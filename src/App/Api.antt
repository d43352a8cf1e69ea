-- ===== src/App/Api.antt =====
-- nautobot_remote_jobs/api: who calls the worker's REST endpoints (authentication.py), which run a caller
-- may touch, and the batches that are posted for it (worker_views.py). A header that is no key of a worker
-- and the texts of answers are left out.
pub mod Authorized
pub mod Artifacts
pub mod Names
use nautobot_app_remote_jobs.Shared.{
  ℕ, String, Bool, true, false, not, Option, none, some, List, [], ◌∷◌, ◌==◌, ltb, if◌then◌else◌,
  str_eq, is_key,
}
use nautobot_app_remote_jobs.Shared.Lists.{first}
use nautobot_app_remote_jobs.App.Records.{Run, Worker, Token, World, Env}
use nautobot_app_remote_jobs.App.Store.{find_run, find_worker, touch}
use nautobot_app_remote_jobs.App.Ingestion.{Kind, Store, Insert, validate_batch_limits, write_batch}

-- `derive_session_secret` of a worker's key and generation, and the key of the row of `users.Token` that
-- has a text as its key.
pub record Secrets : Type 0 where
  pub secret : ℕ → ℕ → String
  pub token_pk : String → Option ℕ

-- The token of the header Authorization, where it is not empty, and the header X-RemoteJobs-Worker-ID.
pub record Credentials : Type 0 where
  pub token : Option String
  pub worker_id : Option ℕ

-- request.worker, request.scoped_token, neither; or AuthenticationFailed
pub data Caller : Type 0 where
  by_worker : Worker → Caller
  by_token : Token → Caller
  anonymous refused_caller : Caller

-- crypto.verify_session_secret
unfoldable pub verify_session_secret : Secrets → Worker → String → Bool
verify_session_secret secrets x presented =
    str_eq (secrets.secret x.pk x.secret_generation) presented

abbrev pub session_of : Secrets → String → Option Worker → Caller
session_of secrets presented none = refused_caller
session_of secrets presented (some x) =
    if not (verify_session_secret secrets x presented)
    then refused_caller
    else if not x.enabled
    then refused_caller
    else by_worker x

-- WorkerSessionAuthentication.authenticate; `anonymous` stands for None.
unfoldable pub authenticate_worker : Secrets → Credentials → World → Caller
unfolding verify_session_secret
authenticate_worker secrets c w = elim (c.token) [
  | none ↦ anonymous
  | some presented ↦ elim (c.worker_id) [
    | none ↦ anonymous
    | some k ↦ session_of secrets presented (find_worker k w.workers)
  ]
]

abbrev pub unexpired : Env → Option Token → Caller
unexpired env none = anonymous
unexpired env (some t) = if ltb t.expires env.now then refused_caller else by_token t

abbrev pub find_token : Option ℕ → List Token → Option Token
find_token none rows = none
find_token (some k) rows = first (λ t. t.pk == k) rows

-- ScopedRunTokenAuthentication.authenticate
unfoldable pub authenticate_token : Env → Secrets → Credentials → World → Caller
authenticate_token env secrets c w = elim (c.token) [
  | none ↦ anonymous
  | some key ↦ unexpired env (find_token (secrets.token_pk key) w.tokens)
]

abbrev pub or_token : Caller → Caller → Caller
or_token anonymous c = c
or_token (by_worker x) c = by_worker x
or_token (by_token t) c = by_token t
or_token refused_caller c = refused_caller

-- The classes of WorkerRunScopedView, in their order.
unfoldable pub authenticate : Env → Secrets → Credentials → World → Caller
unfolding authenticate_worker authenticate_token
authenticate env secrets c w =
    or_token (authenticate_worker secrets c w) (authenticate_token env secrets c w)

-- The worker that authenticates is seen: worker.touch()
unfoldable pub seen : Env → Caller → World → World
seen env (by_worker x) w = touch env x.pk w
seen env _ w = w

abbrev pub may_touch : Caller → Run → Bool
may_touch (by_worker x) r = is_key r.worker x.pk
may_touch (by_token t) r = is_key r.scoped_token t.pk
may_touch anonymous r = false
may_touch refused_caller r = false

abbrev pub if_allowed : Caller → Option Run → Option Run
if_allowed c none = none
if_allowed c (some r) = if may_touch c r then some r else none

-- `get_authorized_run`
unfoldable pub get_authorized_run : Caller → ℕ → World → Option Run
get_authorized_run c run_id w = if_allowed c (find_run run_id w.runs)

-- The HTTP status of an answer; an insert that raises is a 500.
pub data Status : Type 0 where
  http_200 http_400 http_401 http_404 http_413 http_500 : Status

abbrev pub is_refused : Caller → Bool
is_refused refused_caller = true
is_refused _ = false

module _ {ℓ} {E : Type ℓ} where
  abbrev pub written : Store E × Option ℕ → Store E × Status
  written (s, none) = (s, http_500)
  written (s, some count) = (s, http_200)

  -- The batch, where its entries are a list within the limits.
  abbrev pub write_valid :
      Insert → ℕ → Kind → Option (List E) → ℕ → Option ℕ → Store E → Run → Store E × Status
  write_valid outcome now kind none bytes sequence s r = (s, http_400)
  write_valid outcome now kind (some entries) bytes sequence s r =
      elim (validate_batch_limits entries bytes) [
        | some e ↦ (s, http_400)
        | none ↦ written (write_batch outcome now r.pk kind entries sequence s)
      ]

  abbrev pub post_for :
      Insert → ℕ → Kind → Option (List E) → ℕ → Option ℕ → Store E → Option Run → Store E × Status
  post_for outcome now kind entries bytes sequence s none = (s, http_404)
  post_for outcome now kind entries bytes sequence s (some r) =
      write_valid outcome now kind entries bytes sequence s r

  -- `_BatchIngestView.post`, once the caller is known
  unfoldable pub post_batch :
      Insert
      → ℕ
      → Caller
      → ℕ
      → Kind
      → Option (List E)
      → ℕ
      → Option ℕ
      → World
      → Store E
      → Store E × Status
  unfolding get_authorized_run
  post_batch outcome now c run_id kind entries bytes sequence w s =
      if is_refused c
      then (s, http_401)
      else post_for outcome now kind entries bytes sequence s (get_authorized_run c run_id w)
