-- ===== src/App/Store.antt =====
-- The queries and saves of the app on its tables, and the small methods of its models that they
-- serve: Worker (models/workers.py), scoped tokens (dispatch/tokens.py), published messages
-- (dispatch/notify.py, `_publish_run_event` of dispatch/submission.py).
pub mod Rows
pub mod Sound
pub mod Result
pub mod Keeps
use nautobot_app_remote_jobs.Shared.{
  ℕ, suc, ◌+◌, ◌-◌, String, Bool, true, false, ◌&&◌, ◌||◌, not, Option, none, some, List, [], ◌∷◌,
  ◌==◌, leb, ltb, if◌then◌else◌, is_key, is_some, or_else,
}
use nautobot_app_remote_jobs.Shared.Lists.{any, all, select, first, count, contains}
use nautobot_app_remote_jobs.App.Choices.{
  RunState, claimed, running, WorkerStatus, online, draining, offline,
}
use nautobot_app_remote_jobs.App.Records.{
  Run, Worker, Token, World, Env, Message, Topic, run_event, work_available, LogLevel, LogMessage,
}

-- state__in=[CLAIMED, RUNNING]
abbrev pub in_flight : RunState → Bool
in_flight claimed = true
in_flight running = true
in_flight _ = false

-- objects.get(pk=...)
unfoldable pub find_run : ℕ → List Run → Option Run
find_run pk [] = none
find_run pk (r ∷ rows) = let rest = find_run pk rows in if r.pk == pk then some r else rest

-- row.save()
unfoldable pub set_run : Run → List Run → List Run
set_run r [] = []
set_run r (s ∷ rows) = (if s.pk == r.pk then r else s) ∷ set_run r rows

unfoldable pub save_run : Run → World → World
save_run r w = record w { runs = set_run r w.runs }

unfoldable pub find_worker : ℕ → List Worker → Option Worker
find_worker pk rows = first (λ x. x.pk == pk) rows

-- `run.worker`, where it is set and its row exists
unfoldable pub run_worker : World → Run → Option Worker
unfolding find_worker
run_worker w r = elim (r.worker) [ none ↦ none | some k ↦ find_worker k w.workers ]

-- `run.worker.name`
unfoldable pub worker_name : World → Run → Option String
unfolding run_worker
worker_name w r = elim (run_worker w r) [ none ↦ none | some x ↦ some x.name ]

-- Worker.status: `last_seen >= now - ttl`
unfoldable pub worker_status : Env → Worker → WorkerStatus
worker_status env x =
    let alive : Bool = elim (x.last_seen) [
      | none ↦ false
      | some seen ↦ leb env.now (seen + env.settings.worker_ttl_seconds)
    ] in
    if not alive || not x.enabled then offline else if x.draining then draining else online

-- The test and the write of Worker.touch on one row.
unfoldable pub touch_row : Env → Worker → Worker
touch_row env x =
    if elim (x.last_seen) [
      | none ↦ true
      | some seen ↦ leb (seen + env.settings.last_seen_throttle_seconds) env.now
    ]
    then record x { last_seen = some env.now }
    else x

touch_rows : Env → ℕ → List Worker → List Worker
touch_rows env pk [] = []
touch_rows env pk (x ∷ rows) = (if x.pk == pk then touch_row env x else x) ∷ touch_rows env pk rows

-- Worker.touch
unfoldable pub touch : Env → ℕ → World → World
unfolding touch_rows touch_row
touch env pk w = record w { workers = touch_rows env pk w.workers }

-- Worker.free_capacity
unfoldable pub free_capacity : World → Worker → ℕ
free_capacity w x = x.capacity - count (λ r. is_key r.worker x.pk && in_flight r.state) w.runs

unfoldable pub publish : Message → World → World
publish m w = record w { outbox = m ∷ w.outbox }

-- `_publish_run_event`
unfoldable pub publish_run_event : Topic → Run → World → World
unfolding publish
publish_run_event topic r w = publish (run_event topic r.pk r.state) w

-- tokens.mint_scoped_token: the row, its key is its `pk`, and the run that now refers to it
unfoldable pub mint_scoped_token : Env → Run → World → World × Run
unfolding save_run
mint_scoped_token env r w =
    let d = env.definition r.job_definition in
    let ttl = d.timeout_seconds + d.grace_seconds + env.settings.token_extra_ttl_seconds in
    let t : Token = record {
      pk = w.next_token;
      user = r.job_result.user;
      expires = env.now + ttl;
      run = r.pk;
    } in
    let r' = record r { scoped_token = some w.next_token } in
    (save_run r' (record w { tokens = t ∷ w.tokens; next_token = suc w.next_token }), r')

-- tokens.delete_scoped_token
unfoldable pub delete_scoped_token : Run → World → World × Run
unfolding save_run
delete_scoped_token r w = elim (r.scoped_token) [
  | none ↦ (w, r)
  | some k ↦ (
    save_run (record r { scoped_token = none })
        (record w { tokens = select (λ t. not (t.pk == k)) w.tokens }),
    record r { scoped_token = none },
  )
]
