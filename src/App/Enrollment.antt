-- ===== src/App/Enrollment.antt =====
-- The enrollment of a worker: WorkerEnrollmentToken of models/workers.py and EnrollView of
-- api/worker_views.py. The credentials that are derived for the new worker are left out; the key of
-- its row is an argument.
pub mod Single
use nautobot_app_remote_jobs.Shared.{
  ℕ, suc, ◌+◌, ◌*◌, String, Bool, true, false, ◌&&◌, ◌||◌, not, Option, none, some, List, [], ◌∷◌,
  ◌++◌, leb, ◌==◌, if◌then◌else◌, is_some, str_eq,
}
use nautobot_app_remote_jobs.Shared.Lists.{any}
use nautobot_app_remote_jobs.App.Records.{Worker}

-- WorkerEnrollmentToken
pub record EnrollmentToken : Type 0 where
  pub zone : ℕ
  pub expires : ℕ
  pub single_use : Bool
  pub used_at : Option ℕ
  pub worker : Option ℕ

-- WorkerEnrollmentToken.generate
unfoldable pub generate : ℕ → ℕ → ℕ → Bool → EnrollmentToken
generate now zone ttl_hours single_use = record {
  zone = zone;
  expires = now + ttl_hours * 3600;
  single_use = single_use;
  used_at = none;
  worker = none;
}

-- WorkerEnrollmentToken.is_valid
unfoldable pub is_valid : ℕ → EnrollmentToken → Bool
is_valid now t =
    if leb t.expires now then false else if t.single_use && is_some t.used_at then false else true

-- The body of the request; an absent or empty name is the empty text.
pub record EnrollRequest : Type 0 where
  pub name : String
  pub capabilities : List ℕ
  pub capacity : ℕ
  pub agent_version : String

-- The HTTP status of the response, with the key of the new worker.
pub data EnrollReply : Type 0 where
  http_201 : ℕ → EnrollReply
  http_400 http_401 http_409 : EnrollReply

-- The token that the request presents, and the table of workers.
pub record Enrollment : Type 0 where
  pub token : EnrollmentToken
  pub workers : List Worker

-- `request.data.get("capacity") or 4`, where an absent capacity is 0
abbrev pub or_four : ℕ → ℕ
or_four c = if c == 0 then 4 else c

unfoldable pub new_worker : ℕ → ℕ → EnrollRequest → EnrollmentToken → Worker
new_worker now pk q t = record {
  pk = pk;
  name = q.name;
  zone = t.zone;
  enabled = true;
  draining = false;
  capabilities = q.capabilities;
  capacity = or_four q.capacity;
  agent_version = q.agent_version;
  secret_generation = 0;
  last_seen = some now;
}

abbrev pub is_taken : List Worker → String → Bool
is_taken workers name = any (λ x. str_eq x.name name) workers

-- EnrollView.post, for a request that presents this token, which EnrollmentTokenAuthentication found valid
-- before or not
unfoldable pub enroll : ℕ → ℕ → Bool → EnrollRequest → Enrollment → Enrollment × EnrollReply
unfolding is_valid new_worker
enroll now pk authenticated q s =
    if not authenticated
    then (s, http_401)
    else if str_eq q.name ""
    then (s, http_400)
    else if is_taken s.workers q.name
    then (s, http_409)
    else if not (is_valid now s.token)
    then (s, http_401)
    else (
      record {
        token = record s.token { used_at = some now; worker = some pk };
        workers = s.workers ++ new_worker now pk q s.token ∷ [];
      },
      http_201 pk,
    )

-- A request at its moment, with the key that its worker would get, and whether its token was valid when
-- it was authenticated.
pub record Attempt : Type 0 where
  pub at : ℕ
  pub pk : ℕ
  pub authenticated : Bool
  pub request : EnrollRequest

-- Requests one after another, as the lock on the token's row orders them.
unfoldable pub enroll_all : List Attempt → Enrollment → Enrollment
enroll_all [] s = s
enroll_all (a ∷ rest) s = enroll_all rest (enroll a.at a.pk a.authenticated a.request s).0
