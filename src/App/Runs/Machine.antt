-- ===== src/App/Runs/Machine.antt =====
-- The transition diagram of a run, and what `transition` can and cannot do.
use nautobot_app_remote_jobs.Shared.{
  ℕ, suc, ◌+◌, ◌≤◌, String, true, false, ◌≡◌, ◌≢◌, ◌⊎◌, refl, inl, inr, Option, arith, Bool-cases,
}
use nautobot_app_remote_jobs.App.Choices.{
  RunState, pending, offered, claimed, running, success, failure, terminated, abandoned, cancelled,
  failed_dispatch, in_terminal_states,
}
use nautobot_app_remote_jobs.App.Records.{Run, ok, err, illegal_transition}
use nautobot_app_remote_jobs.App.Runs.{state_eq, can_transition_to, enter, transition}

-- The arrows of the diagram of SPEC 6.1, and the retry of the sentence below it.
pub data Drawn : RunState → RunState → Type 0 where
  offer : Drawn pending offered
  cancel_pending : Drawn pending cancelled
  fail_dispatch : Drawn pending failed_dispatch
  claim_offer : Drawn offered claimed
  withdraw : Drawn offered pending
  start : Drawn claimed running
  release : Drawn claimed pending
  succeed : Drawn running success
  fail : Drawn running failure
  terminate_running : Drawn running terminated
  abandon_running : Drawn running abandoned
  retry : Drawn abandoned pending

-- The transitions that LEGAL_TRANSITIONS allows besides: a claim with no offer, and the ends of a run that
-- is offered or claimed.
pub data Undrawn : RunState → RunState → Type 0 where
  pull_claim : Undrawn pending claimed
  cancel_offered : Undrawn offered cancelled
  abandon_claimed : Undrawn claimed abandoned
  terminate_claimed : Undrawn claimed terminated

abbrev pub Legal : RunState → RunState → Type 0
Legal s t = Drawn s t ⊎ Undrawn s t

ruleset arrows = (
  inl, inr, offer, pull_claim, cancel_pending, fail_dispatch, claim_offer, withdraw, cancel_offered,
  start, release, abandon_claimed, terminate_claimed, succeed, fail, terminate_running,
  abandon_running, retry,
)

Legal-can_transition_to : {s t : RunState} → Legal s t → can_transition_to s t ≡ true
unfolding can_transition_to
Legal-can_transition_to (inl offer) = refl
Legal-can_transition_to (inr pull_claim) = refl
Legal-can_transition_to (inl cancel_pending) = refl
Legal-can_transition_to (inl fail_dispatch) = refl
Legal-can_transition_to (inl claim_offer) = refl
Legal-can_transition_to (inl withdraw) = refl
Legal-can_transition_to (inr cancel_offered) = refl
Legal-can_transition_to (inl start) = refl
Legal-can_transition_to (inl release) = refl
Legal-can_transition_to (inr abandon_claimed) = refl
Legal-can_transition_to (inr terminate_claimed) = refl
Legal-can_transition_to (inl succeed) = refl
Legal-can_transition_to (inl fail) = refl
Legal-can_transition_to (inl terminate_running) = refl
Legal-can_transition_to (inl abandon_running) = refl
Legal-can_transition_to (inl retry) = refl

can_transition_to-Legal : (s t : RunState) → can_transition_to s t ≡ true → Legal s t
unfolding can_transition_to
can_transition_to-Legal s t h = grind (arith, arrows)

pub state_eq_sound : (s t : RunState) → state_eq s t ≡ true → s ≡ t
state_eq_sound s t h = ground arith

pub state_eq_refl : (s : RunState) → state_eq s s ≡ true
state_eq_refl s = ground arith

not-Legal-can_transition_to : (s t : RunState) → ¬ Legal s t → can_transition_to s t ≡ false
not-Legal-can_transition_to s t h = elim (Bool-cases (can_transition_to s t)) [
  | inl e ↦ absurd (h (can_transition_to-Legal s t e))
  | inr e ↦ e
]

-- A call of `transition` for a state that the run is in already returns the run as it is; for a state that
-- an arrow of the diagram of SPEC 6.1 leads to, and for the four transitions that the diagram does not have
-- (from PENDING to CLAIMED, from OFFERED to CANCELLED, and from CLAIMED to ABANDONED or TERMINATED), it
-- returns a run in that state; for any other it raises the ValueError that names the two states.
pub transition_decides :
    (now : ℕ) (name : Option String) (s : RunState) (r : Run)
    → (s ≡ r.state → transition now name s r ≡ ok r)
      × (Drawn r.state s ⊎ Undrawn r.state s
          → (r' : Run) × (transition now name s r ≡ ok r') × (r'.state ≡ s))
      × (s ≢ r.state
          → ¬ Drawn r.state s
          → ¬ Undrawn r.state s
          → transition now name s r ≡ err (illegal_transition r.state s))
unfolding transition
transition_decides now name s r = (
  λ e. ground arith,
  λ l. (enter now name s r, ground (arith, Legal-can_transition_to l), ground arith),
  λ n d u. ground (
    arith,
    not-Legal-can_transition_to r.state s (λ l. elim l [ inl x ↦ d x | inr x ↦ u x ]),
    state_eq_sound s r.state,
  ),
)

-- A run that has reached a terminal state is left as it is by every call of `transition`: it returns
-- the run or raises.
pub transition_terminal :
    (now : ℕ) (name : Option String) (s : RunState) (r r' : Run)
    → in_terminal_states r.state ≡ true
    → transition now name s r ≡ ok r'
    → r' ≡ r
unfolding transition
transition_terminal now name s r r' t h = ground arith

-- Several transitions in a row, none of them back to PENDING.
pub data Forward (s : RunState) : RunState → ℕ → Type 0 where
  here : Forward s s 0
  next : {t u : RunState} {n : ℕ} → Forward s t n → Legal t u → u ≢ pending → Forward s u (suc n)

-- How far a state is along the life of a run.
abbrev pub depth : RunState → ℕ
depth pending = 0
depth offered = 1
depth claimed = 2
depth running = 3
depth _ = 4

depth-Legal : {s t : RunState} → Legal s t → t ≢ pending → depth s + 1 ≤ depth t
depth-Legal (inl offer) h = omega arith
depth-Legal (inr pull_claim) h = omega arith
depth-Legal (inl cancel_pending) h = omega arith
depth-Legal (inl fail_dispatch) h = omega arith
depth-Legal (inl claim_offer) h = omega arith
depth-Legal (inl withdraw) h = absurd (h refl)
depth-Legal (inr cancel_offered) h = omega arith
depth-Legal (inl start) h = omega arith
depth-Legal (inl release) h = absurd (h refl)
depth-Legal (inr abandon_claimed) h = omega arith
depth-Legal (inr terminate_claimed) h = omega arith
depth-Legal (inl succeed) h = omega arith
depth-Legal (inl fail) h = omega arith
depth-Legal (inl terminate_running) h = omega arith
depth-Legal (inl abandon_running) h = omega arith
depth-Legal (inl retry) h = absurd (h refl)

depth-Forward : {s t : RunState} {n : ℕ} → Forward s t n → depth s + n ≤ depth t
depth-Forward here = omega arith
depth-Forward (next f l h) = omega (arith, depth-Forward f, depth-Legal l h)

depth_le : (s : RunState) → depth s ≤ 4
depth_le s = ground arith

-- Between two returns to PENDING a run makes at most four transitions.
pub Forward-bounded : {s t : RunState} {n : ℕ} → Forward s t n → n ≤ 4
Forward-bounded {t = t} f = omega (arith, depth-Forward f, depth_le t)
