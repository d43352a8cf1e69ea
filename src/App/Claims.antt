-- ===== src/App/Claims.antt =====
-- nautobot_remote_jobs/dispatch/claims.py: claiming, lease renewal, completion, reconciliation.
pub mod Pick
pub mod Grant
use nautobot_app_remote_jobs.Shared.{
  ℕ, zero, suc, ◌+◌, ◌*◌, ◌≤◌, String, Bool, true, false, ◌&&◌, ◌||◌, not, Option, none, some, List,
  [], ◌∷◌, ◌++◌, ◌==◌, leb, ltb, if◌then◌else◌, is_key, is_some, min, str_eq, map,
}
use nautobot_app_remote_jobs.Shared.Json.{Json, Fields}
use nautobot_app_remote_jobs.Shared.Lists.{any, all, select, take, contains, length}
use nautobot_app_remote_jobs.App.Choices.{
  RunState, pending, claimed, running, success, failure, terminated, abandoned,
}
use nautobot_app_remote_jobs.App.Records.{
  Run, Worker, World, Env, Topic, log_info, log_error, LogMessage, progress_message, worker_error,
  container_exit_code, worker_restarted, Error, unknown_run, illegal_transition_code, lease_expired,
  Result, ok, err, ◌>>=◌,
}
use nautobot_app_remote_jobs.App.Runs.{state_eq, sync_job_result, transition, log_to_result}
use nautobot_app_remote_jobs.App.Store.{
  in_flight, find_run, save_run, worker_name, publish_run_event, mint_scoped_token,
  delete_scoped_token, touch, free_capacity,
}
use nautobot_app_remote_jobs.App.Reaper.{abandon_run, refresh_parent_state}

-- `required.issubset(worker_capabilities)`
abbrev pub issubset : List ℕ → List ℕ → Bool
issubset required advertised = all (λ c. contains advertised c) required

-- `_singleton_held`
unfoldable pub singleton_held : List Run → Run → Bool
singleton_held rows run =
    any (λ r. r.job_definition == run.job_definition && in_flight r.state && not (r.pk == run.pk))
      rows

-- order_by("queued_at"): a null comes last.
abbrev queued_before : Run → Run → Bool
queued_before r s = elim (r.queued_at) [
  | none ↦ not (is_some s.queued_at)
  | some a ↦ elim (s.queued_at) [ none ↦ true | some b ↦ leb a b ]
]

insert_by_queued : Run → List Run → List Run
insert_by_queued r [] = r ∷ []
insert_by_queued r (s ∷ rows) =
    let rest = insert_by_queued r rows in if queued_before r s then r ∷ s ∷ rows else s ∷ rest

unfoldable pub order_by_queued : List Run → List Run
unfolding insert_by_queued
order_by_queued [] = []
order_by_queued (r ∷ rows) = insert_by_queued r (order_by_queued rows)

-- The filter of the candidates: PENDING, in the worker's zone, not locked by another transaction.
unfoldable pub is_candidate : Env → ℕ → Run → Bool
is_candidate env zone r = state_eq r.state pending && is_key r.zone zone && not (env.locked r.pk)

unfoldable pub candidates : Env → ℕ → List Run → List Run
unfolding order_by_queued is_candidate
candidates env zone rows = take 20 (order_by_queued (select (is_candidate env zone) rows))

-- `required and not required.issubset(worker_capabilities)`
unfoldable pub lacks_capabilities : Env → List ℕ → Run → Bool
lacks_capabilities env advertised r =
    let required = (env.definition r.job_definition).capabilities in
    not (length required == 0) && not (issubset required advertised)

-- The loop over the candidates, with `held_singletons`.
unfoldable pub pick : Env → List Run → List ℕ → List ℕ → List Run → Option Run
unfolding lacks_capabilities singleton_held
pick env rows advertised held [] = none
pick env rows advertised held (c ∷ rest) =
    let skip = pick env rows advertised held rest in
    let remember = pick env rows advertised (c.job_definition ∷ held) rest in
    if lacks_capabilities env advertised c
    then skip
    else if (env.definition c.job_definition).singleton
    then if contains held c.job_definition
      then skip
      else if singleton_held rows c
      then remember
      else some c
    else some c

-- The text after the last `/`, and that before the last `:`, of `image_with_digest`.
unfoldable pub after_last : ℕ → List ℕ → List ℕ → List ℕ
after_last sep acc [] = acc
after_last sep acc (c ∷ cs) = after_last sep (if c == sep then [] else acc ++ c ∷ []) cs

unfoldable pub before_last : ℕ → List ℕ → List ℕ
before_last sep [] = []
before_last sep (c ∷ cs) =
    let rest = before_last sep cs in
    if contains cs sep then c ∷ rest else if c == sep then [] else c ∷ rest

-- JobDefinition.image_with_digest
unfoldable pub image_with_digest : List ℕ → List ℕ → List ℕ
unfolding after_last before_last
image_with_digest image digest =
    (if contains (after_last b'/' [] image) b':' then before_last b':' image else image)
    ++ b'@' ∷ digest

-- The JobOffer payload of `build_job_offer`; `token` is the key of the minted token.
pub record JobOffer : Type 0 where
  pub run_id : ℕ
  pub definition : String
  pub image : List ℕ
  pub inputs : List (String × Json)
  pub input_schema : Fields
  pub timeout_seconds : ℕ
  pub grace_seconds : ℕ
  pub nautobot_url : String
  pub token : Option ℕ
  pub secrets_groups : List String
  pub zone_name : String
  pub dryrun : Bool

unfoldable pub build_job_offer : Env → Run → JobOffer
unfolding image_with_digest
build_job_offer env r =
    let d = env.definition r.job_definition in
    record {
      run_id = r.pk;
      definition = d.name;
      image = image_with_digest d.image d.image_digest;
      inputs = r.inputs;
      input_schema = d.input_schema;
      timeout_seconds = d.timeout_seconds;
      grace_seconds = d.grace_seconds;
      nautobot_url = env.settings.nautobot_url;
      token = r.scoped_token;
      secrets_groups = d.secrets_groups;
      zone_name = elim (r.zone) [ none ↦ "" | some z ↦ (env.zone z).name ];
      dryrun = r.dryrun;
    }

-- The claimed row: worker, stamps, lease, state, and the mirror. The worker's name is that of the
-- claiming worker, which is in the table.
unfoldable pub claimed_run : Env → Worker → Run → Run
unfolding sync_job_result
claimed_run env x r = sync_job_result env.now (some x.name) none (record r {
  worker = some x.pk;
  claimed_at = some env.now;
  lease_expires_at = some (env.now + env.settings.lease_seconds);
  state = claimed;
})

-- The part of `_claim_one` after the choice of a run.
unfoldable pub grant : Env → Worker → Run → World → World × JobOffer
unfolding claimed_run
grant env x r w =
    let r' = claimed_run env x r in
    let (w', r'') = mint_scoped_token env r' (save_run r' w) in
    (touch env x.pk (publish_run_event Topic.claimed r'' w'), build_job_offer env r'')

claim_picked : Env → Worker → Option Run → World → World × Option JobOffer
unfolding grant
claim_picked env x none w = (w, none)
claim_picked env x (some r) w = let (w', offer) = grant env x r w in (w', some offer)

-- `_claim_one`
unfoldable pub claim_one : Env → Worker → World → World × Option JobOffer
unfolding claim_picked pick candidates
claim_one env x w =
    claim_picked env x (pick env w.runs x.capabilities [] (candidates env x.zone w.runs)) w

-- `while len(offers) < budget`, over the offers still wanted; `rest` is the loop's next round.
claim_next : Option JobOffer → (World → World × List JobOffer) → World → World × List JobOffer
claim_next none rest w = (w, [])
claim_next (some offer) rest w = let (w', offers) = rest w in (w', offer ∷ offers)

unfoldable pub claim_loop : Env → Worker → ℕ → World → World × List JobOffer
unfolding claim_next
claim_loop env x zero w = (w, [])
claim_loop env x (suc budget) w =
    let (w', offered) = claim_one env x w in claim_next offered (claim_loop env x budget) w'

-- `claim_runs`
unfoldable pub claim_runs : Env → Worker → ℕ → World → World × List JobOffer
claim_runs env x max_offers w =
    if not x.enabled || x.draining
    then (w, [])
    else claim_loop env x (min max_offers (free_capacity w x)) w
