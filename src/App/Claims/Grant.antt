-- ===== src/App/Claims/Grant.antt =====
-- Claiming keeps the table of runs well-formed.
use nautobot_app_remote_jobs.Shared.{
  ℕ, zero, suc, ◌+◌, true, ◌≡◌, refl, Option, none, some, List, [], ◌∷◌, arith, ◌||◌, not,
  Bool-cases, inl, inr, map, min, if_both,
}
use nautobot_app_remote_jobs.Shared.Lists.{All, select}
use nautobot_app_remote_jobs.App.Choices.{claimed}
use nautobot_app_remote_jobs.App.Records.{Run, Worker, World, Env}
use nautobot_app_remote_jobs.App.Runs.{is_terminal}
use nautobot_app_remote_jobs.App.Runs.Mirror.{IsMirrored, sync-IsMirrored}
use nautobot_app_remote_jobs.App.Store.{
  set_run, mint_scoped_token, publish_run_event, touch, free_capacity,
}
use nautobot_app_remote_jobs.App.Store.Rows.{Shape, shape, Listed, Member, set_run-set_run}
use nautobot_app_remote_jobs.App.Store.Sound.{
  IsSound, WellFormed, Preserved, set_run-Preserved, Preserved-trans,
}
use nautobot_app_remote_jobs.App.Claims.{
  JobOffer, is_candidate, order_by_queued, candidates, pick, claimed_run, grant, claim_picked,
  claim_one, claim_next, claim_loop, claim_runs,
}
use nautobot_app_remote_jobs.App.Claims.Pick.{pick-All, All-order, All-take}

-- The row that a claim leaves.
abbrev pub granted_run : Env → Worker → World → Run → Run
granted_run env x w r = record (claimed_run env x r) { scoped_token = some w.next_token }

pub runs-grant :
    (env : Env) (x : Worker) (r : Run) (w : World)
    → (grant env x r w).0.runs ≡ set_run (granted_run env x w r) w.runs
unfolding grant mint_scoped_token publish_run_event touch
runs-grant env x r w = set_run-set_run (granted_run env x w r) (claimed_run env x r) w.runs refl

-- What the query for candidates gives of each of them.
pub record IsChoice (env : Env) (zone : ℕ) (rows : List Run) (r : Run) : Type 0 where
  pub is_sound : IsSound env r
  pub is_listed : Listed r rows
  pub passes : is_candidate env zone r ≡ true

All-Listed :
    (seen rows : List Run)
    → ((s : Shape) → Member s (map shape seen) → Member s (map shape rows))
    → All (λ r. Listed r rows) seen
All-Listed [] rows h = tt
All-Listed (r ∷ seen) rows h = (h (shape r) (inl refl), All-Listed seen rows (λ s m. h s (inr m)))

All-IsChoice :
    (env : Env) (zone : ℕ) (all seen : List Run)
    → All (IsSound env) seen
    → All (λ r. Listed r all) seen
    → All (IsChoice env zone all) (select (is_candidate env zone) seen)
All-IsChoice env zone all [] s l = tt
All-IsChoice env zone all (r ∷ seen) s l = elim (Bool-cases (is_candidate env zone r)) [
  | inl e ↦ rw e (
    record { is_sound = s.0; is_listed = l.0; passes = e },
    All-IsChoice env zone all seen s.1 l.1,
  )
  | inr e ↦ rw e (All-IsChoice env zone all seen s.1 l.1)
]

pub candidates-IsChoice :
    (env : Env) (zone : ℕ) (rows : List Run)
    → WellFormed env rows
    → All (IsChoice env zone rows) (candidates env zone rows)
unfolding candidates
candidates-IsChoice env zone rows h =
    All-take (IsChoice env zone rows) 20 (order_by_queued (select (is_candidate env zone) rows)) (
      All-order (IsChoice env zone rows) (select (is_candidate env zone) rows)
        (All-IsChoice env zone rows rows h.sound (All-Listed rows rows (λ s m. m))))

claimed_run-IsMirrored : (env : Env) (x : Worker) (r : Run) → IsMirrored (claimed_run env x r)
unfolding claimed_run
claimed_run-IsMirrored env x r =
    sync-IsMirrored env.now (some x.name) none
      (record r {
        worker = some x.pk;
        claimed_at = some env.now;
        lease_expires_at = some (env.now + env.settings.lease_seconds);
        state = claimed;
      })
      (unfold is_terminal in λ e. cc)

pub granted_run-IsSound :
    (env : Env) (x : Worker) (w : World) (r : Run) (rows : List Run)
    → IsChoice env x.zone rows r
    → IsSound env (granted_run env x w r)
unfolding claimed_run is_candidate
granted_run-IsSound env x w r rows c =
    let m : IsMirrored (claimed_run env x r) = claimed_run-IsMirrored env x r in
    let passes = c.passes in
    record {
      mirrored = record {
        status_mirrored = m.status_mirrored;
        finish_set = λ e. m.finish_set (unfold is_terminal in e);
        finish_mirrored = λ e. m.finish_mirrored (unfold is_terminal in e);
        revocation_mirrored = m.revocation_mirrored;
      };
      token_held = λ e. refl;
      lease_held = λ p q. refl;
      worker_set = λ e. refl;
      zoneless_token = λ e. ground (arith, passes);
      zoneless_worker = λ e. ground (arith, passes);
      attempts = c.is_sound.attempts;
    }

pub grant-Preserved :
    (env : Env) (x : Worker) (r : Run) (w : World)
    → WellFormed env w.runs
    → IsChoice env x.zone w.runs r
    → Preserved env w.runs (grant env x r w).0.runs
grant-Preserved env x r w h c = rw runs-grant (
    set_run-Preserved env (granted_run env x w r) w.runs h (unfold claimed_run in c.is_listed)
      (granted_run-IsSound env x w r w.runs c))

claim_picked-Preserved :
    (env : Env) (x : Worker) (o : Option Run) (w : World)
    → WellFormed env w.runs
    → pick env w.runs x.capabilities [] (candidates env x.zone w.runs) ≡ o
    → Preserved env w.runs (claim_picked env x o w).0.runs
unfolding claim_picked
claim_picked-Preserved env x none w h e = (h, refl)
claim_picked-Preserved env x (some r) w h e = grant-Preserved env x r w h (
    pick-All (IsChoice env x.zone w.runs) env w.runs x.capabilities (candidates env x.zone w.runs)
      (candidates-IsChoice env x.zone w.runs h) e)

pub claim_one-Preserved :
    (env : Env) (x : Worker) (w : World)
    → WellFormed env w.runs
    → Preserved env w.runs (claim_one env x w).0.runs
unfolding claim_one
claim_one-Preserved env x w h =
    claim_picked-Preserved env x (pick env w.runs x.capabilities [] (candidates env x.zone w.runs))
      w h refl

claim_next-Preserved :
    (env : Env) (o : Option JobOffer) (rest : World → World × List JobOffer) (rows : List Run)
    (w : World)
    → Preserved env rows w.runs
    → Preserved env w.runs (rest w).0.runs
    → Preserved env rows (claim_next o rest w).0.runs
unfolding claim_next
claim_next-Preserved env none rest rows w p q = p
claim_next-Preserved env (some offer) rest rows w p q =
    Preserved-trans env rows w.runs (rest w).0.runs p q

claim_loop-Preserved :
    (env : Env) (x : Worker) (budget : ℕ) (w : World)
    → WellFormed env w.runs
    → Preserved env w.runs (claim_loop env x budget w).0.runs
unfolding claim_loop
claim_loop-Preserved env x zero w h = (h, refl)
claim_loop-Preserved env x (suc budget) w h =
    let w' : World = (claim_one env x w).0 in
    let p = claim_one-Preserved env x w h in
    claim_next-Preserved env (claim_one env x w).1 (claim_loop env x budget) w.runs w' p
      (claim_loop-Preserved env x budget w' p.0)

-- Claiming keeps a well-formed table well-formed, with the same rows up to what handlers change.
pub claim_runs-Preserved :
    (env : Env) (x : Worker) (max_offers : ℕ) (w : World)
    → WellFormed env w.runs
    → Preserved env w.runs (claim_runs env x max_offers w).0.runs
unfolding claim_runs
claim_runs-Preserved env x max_offers w h =
    if_both {A = World × List JobOffer} (λ s. Preserved env w.runs s.0.runs)
      (not x.enabled || x.draining) (h, refl)
      (claim_loop-Preserved env x (min max_offers (free_capacity w x)) w h)
