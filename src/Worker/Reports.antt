-- ===== src/Worker/Reports.antt =====
-- worker/remote_worker/agent.py: how a run's end is classified, and how it is reported to the server
-- until the report is acknowledged.
use nautobot_app_remote_jobs.Shared.{
  ℕ, suc, ◌*◌, String, Bool, true, false, ◌≡◌, ◌≢◌, ◌↔◌, refl, Option, none, some, List, [], ◌∷◌,
  ◌++◌, arith, ◌==◌, min, if◌then◌else◌,
}
use nautobot_app_remote_jobs.Shared.Lists.{length, All}

-- STATE_SUCCESS, STATE_FAILURE, STATE_TERMINATED
pub data WireState : Type 0 where
  success failure terminated : WireState

-- The error texts of `_classify`.
pub data Cause : Type 0 where
  timeout lease_expired : Cause
  runtime_error : String → Cause
  exit_code : Option ℕ → Cause

-- The flags of a RunTask that `_classify` reads.
pub record Flags : Type 0 where
  pub terminated_flag : Bool
  pub timed_out : Bool
  pub lease_lost : Bool

-- RunTask._classify; `none` is an exit code that is not known
unfoldable pub classify : Flags → Option ℕ → Option String → WireState × Option Cause
classify f code error =
    if f.terminated_flag
    then (terminated, none)
    else if f.timed_out
    then (failure, some timeout)
    else if f.lease_lost
    then (failure, some lease_expired)
    else elim error [
      | some e ↦ (failure, some (runtime_error e))
      | none ↦ elim code [
        | none ↦ (failure, some (exit_code none))
        | some c ↦ if c == 0 then (success, none) else (failure, some (exit_code (some c)))
      ]
    ]

-- SUCCESS is reported exactly for a container that exited with 0 of itself: no cancel, no timeout, no
-- lost lease, no runtime error; and TERMINATED exactly after a cancel. Exactly these two carry no
-- error text.
pub classify_iff :
    (f : Flags) (code : Option ℕ) (error : Option String)
    → (((classify f code error).0 ≡ success) ↔ (
        (f.terminated_flag ≡ false)
        × (f.timed_out ≡ false)
        × (f.lease_lost ≡ false)
        × (error ≡ none)
        × (code ≡ some 0)))
      × (((classify f code error).0 ≡ terminated) ↔ (f.terminated_flag ≡ true))
      × (((classify f code error).1 ≡ none) ↔ ((classify f code error).0 ≢ failure))
unfolding classify
classify_iff f code error = (
  (λ h. ground arith, λ h. ground arith),
  (λ h. ground arith, λ h. ground arith),
  (λ h. ground arith, λ h. ground arith),
)

-- What a call of job.complete comes to: a reply, a JSON-RPC error, or a connection that is lost.
pub data CallOutcome : Type 0 where
  acked rejected connection_closed : CallOutcome

pub record Sent : Type 0 where
  pub complete_acked : Bool
  pub calls : ℕ
  pub delays : List ℕ

-- The loop of `_send_complete`, in half seconds (so 1.0 is 2 and the 30 seconds are 60), over the
-- outcomes of the calls until the agent closes.
send_loop : ℕ → List CallOutcome → Sent
send_loop delay [] = record { complete_acked = false; calls = 0; delays = [] }
send_loop delay (acked ∷ rest) = record { complete_acked = true; calls = 1; delays = [] }
send_loop delay (rejected ∷ rest) = record { complete_acked = true; calls = 1; delays = [] }
send_loop delay (connection_closed ∷ rest) =
    let s = send_loop (min 60 (delay * 2)) rest in
    record { complete_acked = s.complete_acked; calls = suc s.calls; delays = delay ∷ s.delays }

-- RunTask._send_complete of a task that has not sent yet, or has
unfoldable pub send_complete : Bool → List CallOutcome → Sent
unfolding send_loop
send_complete complete_sent outcomes =
    if complete_sent
    then record { complete_acked = false; calls = 0; delays = [] }
    else send_loop 2 outcomes

abbrev pub is_reply : CallOutcome → Bool
is_reply connection_closed = false
is_reply acked = true
is_reply rejected = true

loop_retries :
    (delay : ℕ) (lost : List CallOutcome) (reply : CallOutcome) (rest : List CallOutcome)
    → All (λ o. is_reply o ≡ false) lost
    → is_reply reply ≡ true
    → ((send_loop delay (lost ++ reply ∷ rest)).complete_acked ≡ true)
      × ((send_loop delay (lost ++ reply ∷ rest)).calls ≡ suc (length lost))
unfolding send_loop
loop_retries delay [] acked rest h e = (refl, refl)
loop_retries delay [] rejected rest h e = (refl, refl)
loop_retries delay [] connection_closed rest h e = ground arith
loop_retries delay (connection_closed ∷ lost) reply rest h e =
    let ih = loop_retries (min 60 (delay * 2)) lost reply rest h.1 e in (ih.0, ground arith)
loop_retries delay (acked ∷ lost) reply rest h e = let h0 = h.0 in ground arith
loop_retries delay (rejected ∷ lost) reply rest h e = let h0 = h.0 in ground arith

-- A task that has not sent retries until the first call that is answered, and only until it: if the
-- first `n` calls lose the connection and the next one is acknowledged or rejected, there are `n + 1`
-- calls, and the completion counts as acknowledged.
pub send_complete_retries :
    (lost : List CallOutcome) (reply : CallOutcome) (rest : List CallOutcome)
    → All (λ o. is_reply o ≡ false) lost
    → is_reply reply ≡ true
    → ((send_complete false (lost ++ reply ∷ rest)).complete_acked ≡ true)
      × ((send_complete false (lost ++ reply ∷ rest)).calls ≡ suc (length lost))
unfolding send_complete
send_complete_retries lost reply rest = loop_retries 2 lost reply rest
