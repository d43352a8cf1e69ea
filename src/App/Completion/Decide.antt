-- ===== src/App/Completion/Decide.antt =====
-- Which answer `complete_run` of dispatch/claims.py gives, and when.
use nautobot_app_remote_jobs.Shared.{
  ℕ, true, false, ◌≡◌, ◌≢◌, ◌↔◌, ◌⊎◌, refl, sym, ap, ◌∙◌, Option, none, some, arith, Bool-cases,
  inl, inr, is_key, ==_iff,
}
use nautobot_app_remote_jobs.App.Choices.{RunState}
use nautobot_app_remote_jobs.App.Records.{
  Run, Worker, World, Env, Error, Result, ok, err, unknown_run, illegal_transition_code,
}
use nautobot_app_remote_jobs.App.Runs.{state_eq}
use nautobot_app_remote_jobs.App.Runs.Machine.{state_eq_sound}
use nautobot_app_remote_jobs.App.Store.{in_flight, find_run}
use nautobot_app_remote_jobs.App.Store.Sound.{WellFormed}
use nautobot_app_remote_jobs.App.Completion.{
  get_worker_run, owned_by, Outcome, is_completion, complete_run,
}
use nautobot_app_remote_jobs.App.Completion.Complete.{
  complete_run_succeeds, complete_run_replay, complete_run-eq, complete_of-settled,
}

-- The run is this worker's.
abbrev pub Owns : Worker → ℕ → World → Run → Type 0
Owns x run_id w r = (find_run run_id w.runs ≡ some r) × (r.worker ≡ some x.pk)

-- SUCCESS, FAILURE or TERMINATED is reported.
abbrev pub Completes : Option RunState → RunState → Type 0
Completes state s = (state ≡ some s) × (is_completion s ≡ true)

abbrev pub Accepted : Worker → ℕ → Option RunState → World → Type 0
Accepted x run_id state w =
    (s : RunState) × (r : Run) × Completes state s
    × Owns x run_id w r
    × ((in_flight r.state ≡ true) ⊎ (r.state ≡ s))

abbrev pub Unknown : Worker → ℕ → Option RunState → World → Type 0
Unknown x run_id state w = ((s : RunState) × Completes state s) × ((r : Run) → ¬ Owns x run_id w r)

abbrev pub Illegal : Worker → ℕ → Option RunState → World → Type 0
Illegal x run_id state w =
    ((s : RunState) → ¬ Completes state s)
    ⊎ ((s : RunState) × (r : Run) × Completes state s
        × Owns x run_id w r
        × (in_flight r.state ≡ false)
        × (r.state ≢ s))

Accepted-ok :
    (env : Env) (x : Worker) (run_id : ℕ) (state : Option RunState) (o : Outcome) (w : World)
    → WellFormed env w.runs
    → Accepted x run_id state w
    → (w' : World) × (complete_run env x run_id state o w ≡ ok w')
Accepted-ok env x run_id state o w h (s, r, (e, c), (f, k), inl i) =
    let (w', _, done, _, _, _, _, _) = complete_run_succeeds env x run_id s o w r h f k i c in
    (w', rw e done)
Accepted-ok env x run_id state o w h (s, r, (e, c), (f, k), inr i) =
    (w, rw e (complete_run_replay env x run_id s o w r c f k i))

eq_key : (o : Option ℕ) (k : ℕ) → is_key o k ≡ true → o ≡ some k
eq_key none k e = ground (arith, e)
eq_key (some j) k e = rw ((==_iff j k).0 e) refl

not_owned :
    (x : Worker) (o : Option Run)
    → ((r : Run) → ¬ ((o ≡ some r) × (r.worker ≡ some x.pk)))
    → owned_by x o ≡ err unknown_run
unfolding owned_by
not_owned x none n = refl
not_owned x (some r) n = elim (Bool-cases (is_key r.worker x.pk)) [
  | inl e ↦ absurd (n r (refl, eq_key r.worker x.pk e))
  | inr e ↦ rw e refl
]

Unknown-err :
    (env : Env) (x : Worker) (run_id : ℕ) (state : Option RunState) (o : Outcome) (w : World)
    → Unknown x run_id state w
    → complete_run env x run_id state o w ≡ err unknown_run
unfolding complete_run get_worker_run
Unknown-err env x run_id state o w ((s, (e, c)), n) =
    rw e (rw c (rw (not_owned x (find_run run_id w.runs) n) refl))

not_completion :
    (env : Env) (x : Worker) (run_id : ℕ) (state : Option RunState) (o : Outcome) (w : World)
    → ((s : RunState) → ¬ Completes state s)
    → complete_run env x run_id state o w ≡ err illegal_transition_code
unfolding complete_run
not_completion env x run_id none o w n = refl
not_completion env x run_id (some s) o w n = elim (Bool-cases (is_completion s)) [
  | inl c ↦ absurd (n s (refl, c))
  | inr c ↦ rw c refl
]

Illegal-err :
    (env : Env) (x : Worker) (run_id : ℕ) (state : Option RunState) (o : Outcome) (w : World)
    → Illegal x run_id state w
    → complete_run env x run_id state o w ≡ err illegal_transition_code
Illegal-err env x run_id state o w (inl n) = not_completion env x run_id state o w n
Illegal-err env x run_id state o w (inr (s, r, (e, c), (f, k), i, n)) =
    rw e (complete_run-eq env x run_id s o w r c f k ∙ complete_of-settled env x s o w r i n)

-- One of the three holds.
owned_cases :
    (x : Worker) (run_id : ℕ) (s : RunState) (w : World) (r : Run)
    → is_completion s ≡ true
    → Owns x run_id w r
    → Accepted x run_id (some s) w ⊎ Illegal x run_id (some s) w
owned_cases x run_id s w r c k = elim (Bool-cases (in_flight r.state)) [
  | inl i ↦ inl (s, r, (refl, c), k, inl i)
  | inr i ↦ elim (Bool-cases (state_eq r.state s)) [
    | inl e ↦ inl (s, r, (refl, c), k, inr (state_eq_sound r.state s e))
    | inr e ↦ inr (inr (s, r, (refl, c), k, i, λ q. ground (arith, e, q)))
  ]
]

ok≢err : (v : World) (c : Error) → ¬ (◌≡◌ {A = Result World} (ok v) (err c))
ok≢err v c e = cc

unknown≢illegal : ¬ (◌≡◌ {A = Result World} (err unknown_run) (err illegal_transition_code))
unknown≢illegal e = cc

worker_in : Option Run → Option ℕ
worker_in none = none
worker_in (some r) = r.worker

key_differs : (o : Option ℕ) (k : ℕ) → is_key o k ≡ false → o ≡ some k → ⊥
key_differs o k e s = ground (arith, e, s)

-- A run with another worker is not this worker's.
not_key :
    (x : Worker) (q r : Run)
    → is_key r.worker x.pk ≡ false
    → some q ≡ some r
    → q.worker ≡ some x.pk
    → ⊥
unfolding worker_in
not_key x q r e s k =
    let w : r.worker ≡ some x.pk = sym (ap worker_in s) ∙ k in key_differs r.worker x.pk e w

differ : (s t : RunState) → is_completion s ≡ false → some s ≡ some t → is_completion t ≡ true → ⊥
differ s t c e d = ground (arith, c, e, d)

by_owner :
    (x : Worker) (run_id : ℕ) (s : RunState) (w : World) (o : Option Run)
    → is_completion s ≡ true
    → find_run run_id w.runs ≡ o
    → (Unknown x run_id (some s) w) ⊎ (Accepted x run_id (some s) w ⊎ Illegal x run_id (some s) w)
by_owner x run_id s w none c f =
    inl ((s, (refl, c)), λ r k. let n : none ≡ some r = sym f ∙ k.0 in ground (arith, n))
by_owner x run_id s w (some r) c f = elim (Bool-cases (is_key r.worker x.pk)) [
  | inl e ↦ inr (owned_cases x run_id s w r c (f, eq_key r.worker x.pk e))
  | inr e ↦ inl (
    (s, (refl, c)),
    λ q k. let same : some q ≡ some r = sym k.0 ∙ f in let j = k.1 in not_key x q r e same j,
  )
]

verdict :
    (x : Worker) (run_id : ℕ) (state : Option RunState) (w : World)
    → (Unknown x run_id state w) ⊎ (Accepted x run_id state w ⊎ Illegal x run_id state w)
verdict x run_id none w = inr (inr (inl (λ s e. let n : none ≡ some s = e.0 in ground (arith, n))))
verdict x run_id (some s) w = elim (Bool-cases (is_completion s)) [
  | inl c ↦ by_owner x run_id s w (find_run run_id w.runs) c refl
  | inr c ↦ inr (inr (inl (λ t e. differ s t c e.0 e.1)))
]

-- In a well-formed table the call of a worker succeeds exactly where it reports SUCCESS, FAILURE or
-- TERMINATED of a run of its own that is claimed or running or has that state already; it is answered
-- unknown_run exactly where it reports one of these of no run of its own; and illegal_transition exactly
-- where it reports another state, or a run of its own is neither in flight nor in the reported state.
pub complete_run_decides :
    (env : Env) (x : Worker) (run_id : ℕ) (state : Option RunState) (o : Outcome) (w : World)
    → WellFormed env w.runs
    → (((w' : World) × (complete_run env x run_id state o w ≡ ok w')) ↔ Accepted x run_id state w)
      × ((complete_run env x run_id state o w ≡ err unknown_run) ↔ Unknown x run_id state w)
      × ((complete_run env x run_id state o w ≡ err illegal_transition_code)
          ↔ Illegal x run_id state w)
complete_run_decides env x run_id state o w h = elim (verdict x run_id state w) [
  | inl u ↦
      let e = Unknown-err env x run_id state o w u in
      (
        (
          λ q. absurd (ok≢err q.0 unknown_run (sym q.1 ∙ e)),
          λ a. let (v, d) = Accepted-ok env x run_id state o w h a in (v, d),
        ),
        (λ _. u, λ _. e),
        (λ q. absurd (unknown≢illegal (sym e ∙ q)), λ l. Illegal-err env x run_id state o w l),
      )
  | inr (inl a) ↦
      let (v, d) = Accepted-ok env x run_id state o w h a in
      (
        (λ _. a, λ _. (v, d)),
        (λ q. absurd (ok≢err v unknown_run (sym d ∙ q)), λ u. Unknown-err env x run_id state o w u),
        (
          λ q. absurd (ok≢err v illegal_transition_code (sym d ∙ q)),
          λ l. Illegal-err env x run_id state o w l,
        ),
      )
  | inr (inr l) ↦
      let e = Illegal-err env x run_id state o w l in
      (
        (
          λ q. absurd (ok≢err q.0 illegal_transition_code (sym q.1 ∙ e)),
          λ a. let (v, d) = Accepted-ok env x run_id state o w h a in (v, d),
        ),
        (λ q. absurd (unknown≢illegal (sym q ∙ e)), λ u. Unknown-err env x run_id state o w u),
        (λ _. l, λ _. e),
      )
]
