-- ===== src/App/Completion/Keeps.antt =====
-- `complete_run` and `reconcile_in_flight` of dispatch/claims.py keep the table of runs.
use nautobot_app_remote_jobs.Shared.{
  ℕ, ◌+◌, true, ◌≡◌, refl, sym, ap, subst, ◌∙◌, Option, none, some, List, [], ◌∷◌, arith, ◌&&◌,
  Bool-cases, inl, inr, map, is_key, if_both,
}
use nautobot_app_remote_jobs.Shared.Lists.{All, select, contains}
use nautobot_app_remote_jobs.App.Choices.{RunState}
use nautobot_app_remote_jobs.App.Records.{Run, Worker, World, Env, ok, worker_restarted}
use nautobot_app_remote_jobs.App.Runs.{state_eq}
use nautobot_app_remote_jobs.App.Runs.Frame.{Identity}
use nautobot_app_remote_jobs.App.Store.{in_flight, find_run}
use nautobot_app_remote_jobs.App.Store.Rows.{Shape, shape, Listed, Member, DistinctKeys}
use nautobot_app_remote_jobs.App.Store.Sound.{
  IsSound, WellFormed, ZonelessParents, Preserved, Preserved-trans, Listed-Preserved,
}
use nautobot_app_remote_jobs.App.Store.Result.{lease-IsSound}
use nautobot_app_remote_jobs.App.Reaper.Abandon.{abandon_run-Preserved}
use nautobot_app_remote_jobs.App.Completion.{
  get_worker_run, Outcome, is_completion, complete_of, complete_run, is_stale, abandon_all,
  extend_lease, reconcile_in_flight,
}
use nautobot_app_remote_jobs.App.Completion.Settle.{
  finished_row, completed_row-eq, state-finished_row, identity-finished_row,
  finished_row-IsMirrored, bare-IsSound,
}
use nautobot_app_remote_jobs.App.Completion.Complete.{settle-Preserved}
use nautobot_app_remote_jobs.App.Store.Keeps.{OkKeeps}
use nautobot_app_remote_jobs.App.Completion.Status.{bound-OkKeeps}

finished_row-shape :
    (env : Env) (w : World) (state : RunState) (o : Outcome) (r : Run)
    → shape (finished_row env w state o r) ≡ shape r
finished_row-shape env w state o r =
    ap
      (λ (j : Identity). record {
        pk = j.pk;
        job_definition = j.job_definition;
        parent = j.parent;
        zone = j.zone;
      })
      (identity-finished_row env w state o r)

complete_of-OkKeeps :
    (env : Env) (x : Worker) (state : RunState) (o : Outcome) (w : World) (r : Run)
    → is_completion state ≡ true
    → WellFormed env w.runs
    → Listed r w.runs
    → IsSound env r
    → OkKeeps (λ v. v) env w.runs (complete_of env x state o w r)
unfolding complete_of
complete_of-OkKeeps env x state o w r c h m s = elim (Bool-cases (state_eq r.state state)) [
  | inl e ↦ rw e (h, refl)
  | inr e ↦ elim (Bool-cases (in_flight r.state)) [
    | inl f ↦
        rw (e, f)
          (rw (completed_row-eq env w state o r c f) (
            settle-Preserved env x state w (finished_row env w state o r) h
              (rw (finished_row-shape env w state o r) m)
              (bare-IsSound env state r (finished_row env w state o r) c s
                (identity-finished_row env w state o r) (state-finished_row env w state o r)
                (finished_row-IsMirrored env w state o r c f s.mirrored))))
    | inr f ↦ rw (e, f) tt
  ]
]

pub complete_run-OkKeeps :
    (env : Env) (x : Worker) (run_id : ℕ) (state : Option RunState) (o : Outcome) (w : World)
    → WellFormed env w.runs
    → OkKeeps (λ v. v) env w.runs (complete_run env x run_id state o w)
unfolding complete_run get_worker_run
complete_run-OkKeeps env x run_id none o w h = tt
complete_run-OkKeeps env x run_id (some state) o w h = elim (Bool-cases (is_completion state)) [
  | inl c ↦ rw c (
      bound-OkKeeps (λ v. v) env w x run_id (find_run run_id w.runs) (complete_of env x state o w)
        refl h (λ r m s. complete_of-OkKeeps env x state o w r c h m s))
  | inr c ↦ rw c tt
]

-- A row that `abandon_run` can be called with.
record IsHeld (env : Env) (rows : List Run) (r : Run) : Type 0 where
  is_sound : IsSound env r
  is_listed : Listed r rows
  is_held : in_flight r.state ≡ true

abandon_all-Preserved :
    (env : Env) (rs all : List Run) (w : World)
    → WellFormed env w.runs
    → map shape w.runs ≡ map shape all
    → All (IsHeld env all) rs
    → (w' : World) × (abandon_all env rs w ≡ ok w') × Preserved env w.runs w'.runs
unfolding abandon_all
abandon_all-Preserved env [] all w h e k = (w, refl, (h, refl))
abandon_all-Preserved env (r ∷ rs) all w h e k =
    let (w1, done, p) =
      abandon_run-Preserved env worker_restarted r w h
        (Listed-Preserved env r all w.runs k.0.is_listed e) k.0.is_sound k.0.is_held in
    let (w2, rest, q) = abandon_all-Preserved env rs all w1 p.0 (p.1 ∙ e) k.1 in
    (w2, rw done rest, Preserved-trans env w.runs w1.runs w2.runs p q)

stale-IsHeld :
    (env : Env) (x : Worker) (known : List ℕ) (all rows : List Run)
    → All (IsSound env) rows
    → ((s : Shape) → Member s (map shape rows) → Member s (map shape all))
    → All (IsHeld env all) (select (is_stale x known) rows)
stale-IsHeld env x known all [] s m = tt
stale-IsHeld env x known all (r ∷ rows) s m =
    let rest = stale-IsHeld env x known all rows s.1 (λ t k. m t (inr k)) in
    elim (Bool-cases (is_stale x known r)) [
      | inl e ↦ rw e (
        record {
          is_sound = s.0;
          is_listed = m (shape r) (inl refl);
          is_held = unfold is_stale in ground (arith, e);
        },
        rest,
      )
      | inr e ↦ rw e rest
    ]

extend_lease-IsSound :
    (env : Env) (x : Worker) (known : List ℕ) (r : Run)
    → IsSound env r
    → IsSound env (extend_lease env x known r)
unfolding extend_lease
extend_lease-IsSound env x known r h =
    if_both (IsSound env) (is_key r.worker x.pk && in_flight r.state && contains known r.pk)
      (lease-IsSound env (env.now + env.settings.lease_seconds) r h) h

shape-extend_lease :
    (env : Env) (x : Worker) (known : List ℕ) (r : Run)
    → shape (extend_lease env x known r) ≡ shape r
unfolding extend_lease
shape-extend_lease env x known r =
    if_both (λ s. shape s ≡ shape r)
      (is_key r.worker x.pk && in_flight r.state && contains known r.pk) refl refl

extend-IsSound :
    (env : Env) (x : Worker) (known : List ℕ) (rows : List Run)
    → All (IsSound env) rows
    → All (IsSound env) (map (extend_lease env x known) rows)
extend-IsSound env x known [] h = tt
extend-IsSound env x known (r ∷ rows) h =
    (extend_lease-IsSound env x known r h.0, extend-IsSound env x known rows h.1)

extend-shapes :
    (env : Env) (x : Worker) (known : List ℕ) (rows : List Run)
    → map shape (map (extend_lease env x known) rows) ≡ map shape rows
extend-shapes env x known [] = refl
extend-shapes env x known (r ∷ rows) =
    cc (shape-extend_lease env x known r, extend-shapes env x known rows)

extend-Preserved :
    (env : Env) (x : Worker) (known : List ℕ) (rows : List Run)
    → WellFormed env rows
    → Preserved env rows (map (extend_lease env x known) rows)
extend-Preserved env x known rows h =
    let e = extend-shapes env x known rows in
    (
      record {
        keys = subst DistinctKeys (sym e) h.keys;
        parents = subst ZonelessParents (sym e) h.parents;
        sound = extend-IsSound env x known rows h.sound;
      },
      e,
    )

pub reconcile_in_flight-Preserved :
    (env : Env) (x : Worker) (known : List ℕ) (w : World)
    → WellFormed env w.runs
    → (w' : World) × (reconcile_in_flight env x known w ≡ ok w') × Preserved env w.runs w'.runs
unfolding reconcile_in_flight
reconcile_in_flight-Preserved env x known w h =
    let (w1, done, p) =
      abandon_all-Preserved env (select (is_stale x known) w.runs) w.runs w h refl
        (stale-IsHeld env x known w.runs w.runs h.sound (λ s m. m)) in
    (
      record w1 { runs = map (extend_lease env x known) w1.runs },
      rw done refl,
      Preserved-trans env w.runs w1.runs _ p (extend-Preserved env x known w1.runs p.0),
    )
