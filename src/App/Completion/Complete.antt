-- ===== src/App/Completion/Complete.antt =====
-- `complete_run` of dispatch/claims.py as a whole: success, replay and refusals.
use nautobot_app_remote_jobs.Shared.{
  ℕ, true, false, ◌≡◌, ◌≢◌, refl, sym, ap, subst, Option, none, some, arith, Bool-cases, inl, inr,
  map, is_some, ◌∙◌,
}
use nautobot_app_remote_jobs.App.Choices.{RunState}
use nautobot_app_remote_jobs.App.Records.{Run, Worker, World, Env, ok, err, illegal_transition_code}
use nautobot_app_remote_jobs.App.Runs.{state_eq}
use nautobot_app_remote_jobs.App.Runs.Machine.{state_eq_refl, state_eq_sound}
use nautobot_app_remote_jobs.App.Runs.Frame.{Identity, identity}
use nautobot_app_remote_jobs.App.Store.{
  in_flight, find_run, save_run, delete_scoped_token, publish_run_event, touch,
}
use nautobot_app_remote_jobs.App.Store.Rows.{
  Shape, shape, Listed, Member, find_run-Listed, pk-find_run, All-find_run, find_run-set_run,
}
use nautobot_app_remote_jobs.App.Store.Sound.{
  IsSound, WellFormed, Preserved, set_run-Preserved, Preserved-trans, Listed-Preserved,
  without_token, runs-delete_scoped_token,
}
use nautobot_app_remote_jobs.App.Reaper.Parents.{
  refresh_parent_state-Preserved, find_run-refresh_parent_state, not_own_parent,
}
use nautobot_app_remote_jobs.App.Completion.{
  get_worker_run, Outcome, is_completion, settle, complete_of, complete_run,
}
use nautobot_app_remote_jobs.App.Completion.Settle.{
  finished_row, completed_row-eq, state-finished_row, identity-finished_row,
  finished_row-IsMirrored, bare-IsSound,
}

some≢none : {k : ℕ} → ¬ (◌≡◌ {A = Option ℕ} (some k) none)
some≢none e = cc

pub settle-Preserved :
    (env : Env) (x : Worker) (state : RunState) (w : World) (r : Run)
    → WellFormed env w.runs
    → Listed r w.runs
    → IsSound env (without_token r)
    → Preserved env w.runs (settle env x state w r).runs
unfolding settle publish_run_event touch
settle-Preserved env x state w r h m s =
    let (saved, bare) = runs-delete_scoped_token r w in
    let w' : World = (delete_scoped_token r (save_run r w)).0 in
    let first : Preserved env w.runs w'.runs =
      rw saved (set_run-Preserved env (without_token r) w.runs h m s) in
    rw bare (
      Preserved-trans env w.runs w'.runs _ first (
        refresh_parent_state-Preserved env (without_token r) w' first.0
          (Listed-Preserved env (without_token r) w.runs w'.runs m first.1)))

find_run-settle :
    (env : Env) (x : Worker) (state : RunState) (w : World) (r : Run)
    → WellFormed env w.runs
    → Listed r w.runs
    → r.zone ≢ none
    → is_some (find_run r.pk w.runs) ≡ true
    → find_run r.pk (settle env x state w r).runs ≡ some (without_token r)
unfolding settle publish_run_event touch
find_run-settle env x state w r h m z f =
    let (saved, bare) = runs-delete_scoped_token r w in
    rw bare (
      find_run-refresh_parent_state env r.pk (without_token r)
        (delete_scoped_token r (save_run r w)).0 (not_own_parent env (without_token r) w.runs h m z)
      ∙ rw saved (find_run-set_run r.pk (without_token r) w.runs ∙ ground (arith, f)))

get_worker_run-eq :
    (x : Worker) (run_id : ℕ) (w : World) (r : Run)
    → find_run run_id w.runs ≡ some r
    → r.worker ≡ some x.pk
    → get_worker_run x run_id w ≡ ok r
unfolding get_worker_run
get_worker_run-eq x run_id w r f o = ground arith

complete_of-eq :
    (env : Env) (x : Worker) (state : RunState) (o : Outcome) (w : World) (r : Run)
    → is_completion state ≡ true
    → in_flight r.state ≡ true
    → complete_of env x state o w r ≡ ok (settle env x state w (finished_row env w state o r))
unfolding complete_of
complete_of-eq env x state o w r c f =
    let apart : state_eq r.state state ≡ false = ground arith in
    rw (apart, f) (rw (completed_row-eq env w state o r c f))

pub complete_run-eq :
    (env : Env) (x : Worker) (run_id : ℕ) (state : RunState) (o : Outcome) (w : World) (r : Run)
    → is_completion state ≡ true
    → find_run run_id w.runs ≡ some r
    → r.worker ≡ some x.pk
    → complete_run env x run_id (some state) o w ≡ complete_of env x state o w r
unfolding complete_run
complete_run-eq env x run_id state o w r c f k = rw (c, get_worker_run-eq x run_id w r f k)

-- When a worker completes a claimed or running run of its own with SUCCESS, FAILURE or TERMINATED in
-- a well-formed table, the call succeeds: the run is then in that state, without its scoped token
-- and still the worker's, and the table is well-formed with the same rows.
pub complete_run_succeeds :
    (env : Env) (x : Worker) (run_id : ℕ) (state : RunState) (o : Outcome) (w : World) (r : Run)
    → WellFormed env w.runs
    → find_run run_id w.runs ≡ some r
    → r.worker ≡ some x.pk
    → in_flight r.state ≡ true
    → is_completion state ≡ true
    → (w' : World) × (r' : Run) × (complete_run env x run_id (some state) o w ≡ ok w')
      × Preserved env w.runs w'.runs
      × (find_run run_id w'.runs ≡ some r')
      × (r'.state ≡ state)
      × (r'.scoped_token ≡ none)
      × (r'.worker ≡ some x.pk)
complete_run_succeeds env x run_id state o w r h f k i c =
    let r1 = finished_row env w state o r in
    let id : identity r1 ≡ identity r = identity-finished_row env w state o r in
    let sound : IsSound env r = All-find_run (IsSound env) run_id w.runs h.sound f in
    let listed : Listed r1 w.runs =
      subst (λ (s : Shape). Member s (map shape w.runs))
        (sym (
          ap
            (λ (j : Identity). record {
              pk = j.pk;
              job_definition = j.job_definition;
              parent = j.parent;
              zone = j.zone;
            })
            id))
        (find_run-Listed run_id w.runs f) in
    let zoned : r1.zone ≢ none =
      λ z. some≢none (sym k ∙ sound.zoneless_worker (sym (ap (λ (j : Identity). j.zone) id) ∙ z)) in
    let key : r1.pk ≡ run_id = ap (λ (j : Identity). j.pk) id ∙ pk-find_run run_id w.runs f in
    (
      settle env x state w r1,
      without_token r1,
      complete_run-eq env x run_id state o w r c f k ∙ complete_of-eq env x state o w r c i,
      settle-Preserved env x state w r1 h listed (
          bare-IsSound env state r r1 c sound id (state-finished_row env w state o r)
            (finished_row-IsMirrored env w state o r c i sound.mirrored)),
      subst (λ n. find_run n (settle env x state w r1).runs ≡ some (without_token r1)) key
          (find_run-settle env x state w r1 h listed zoned
            (subst (λ n. is_some (find_run n w.runs) ≡ true) (sym key) (rw f))),
      state-finished_row env w state o r,
      refl,
      ap (λ (j : Identity). j.worker) id ∙ k,
    )

-- A replay of a completion that the run is already in changes nothing and succeeds.
pub complete_run_replay :
    (env : Env) (x : Worker) (run_id : ℕ) (state : RunState) (o : Outcome) (w : World) (r : Run)
    → is_completion state ≡ true
    → find_run run_id w.runs ≡ some r
    → r.worker ≡ some x.pk
    → r.state ≡ state
    → complete_run env x run_id (some state) o w ≡ ok w
unfolding complete_of
complete_run_replay env x run_id state o w r c f k e =
    complete_run-eq env x run_id state o w r c f k
    ∙ rw (subst (λ s. state_eq r.state s ≡ true) e (state_eq_refl r.state))

-- A second completion of the same run with the same state, whatever else it reports, finds the first
-- one done: both succeed and the second changes nothing.
pub complete_run_idempotent :
    (env : Env) (x : Worker) (run_id : ℕ) (state : RunState) (o o' : Outcome) (w : World) (r : Run)
    → WellFormed env w.runs
    → find_run run_id w.runs ≡ some r
    → r.worker ≡ some x.pk
    → in_flight r.state ≡ true
    → is_completion state ≡ true
    → (w' : World) × (complete_run env x run_id (some state) o w ≡ ok w')
      × (complete_run env x run_id (some state) o' w' ≡ ok w')
complete_run_idempotent env x run_id state o o' w r h f k i c =
    let (w', r', done, _, found, s, _, k') =
      complete_run_succeeds env x run_id state o w r h f k i c in
    (w', done, complete_run_replay env x run_id state o' w' r' c found k' s)

state_eq_of_ne : (s t : RunState) → s ≢ t → state_eq s t ≡ false
state_eq_of_ne s t n = elim (Bool-cases (state_eq s t)) [
  | inl e ↦ absurd (n (state_eq_sound s t e))
  | inr e ↦ e
]

pub complete_of-settled :
    (env : Env) (x : Worker) (state : RunState) (o : Outcome) (w : World) (r : Run)
    → in_flight r.state ≡ false
    → r.state ≢ state
    → complete_of env x state o w r ≡ err illegal_transition_code
unfolding complete_of
complete_of-settled env x state o w r i n = rw (state_eq_of_ne r.state state n, i)
