-- ===== src/Worker/Connection.antt =====
-- worker/remote_worker/connection.py: GatewayConnection, its reconnecting loop and its pending calls. The
-- socket is events. The id of a call is the number of calls before it, where the source draws a uuid4;
-- `random.uniform` is a parameter, whose last argument is what chance gives. A future that is resolved or
-- failed and the coroutine that goes on with it are one step.
pub mod Calls
use nautobot_app_remote_jobs.Shared.{
  ℕ, suc, ◌*◌, ◌^◌, min, max, Bool, true, false, not, ◌&&◌, Option, none, some, List, [], ◌∷◌, ◌++◌,
  map, ◌==◌, ltb, leb, if◌then◌else◌,
}
use nautobot_app_remote_jobs.Shared.Lists.{select, any}

-- backoff_min, backoff_max and STABLE_CONNECTION_SECONDS
pub record Backoff : Type 0 where
  pub backoff_min : ℕ
  pub backoff_max : ℕ
  pub stable : ℕ

-- `_backoff_delay`, in halves of the unit of the bounds. The least backoff is a float, and the product
-- raises OverflowError where 2 ** attempt is too large for one.
unfoldable pub backoff_delay : (ℕ → ℕ → ℕ → ℕ) → Backoff → ℕ → ℕ → Option ℕ
backoff_delay uniform b chance attempt =
    let ceiling = min b.backoff_max (b.backoff_min * 2 ^ attempt) in
    if ltb attempt 1024
    then some (uniform (max b.backoff_min ceiling) (2 * ceiling) chance)
    else none

-- Where run_forever stands: in `_connect_once` before or after the handshake, in the sleep, at its end, or
-- ended by the OverflowError, which it does not catch.
pub data Link : Type 0 where
  connecting joined sleeping over broken : Link

abbrev pub is_open : Link → Bool
is_open joined = true
is_open _ = false

-- How a call ends: the result or the error of a response, or ConnectionClosedError.
pub data CallEnd : Type 0 where
  result_of error_of closed_error : CallEnd

-- The fields of GatewayConnection and of its loop, with the calls made, how calls ended and the delays.
pub record Connection : Type 0 where
  pub link : Link
  pub closing : Bool
  pub attempt : ℕ
  pub pending : List ℕ
  pub calls : ℕ
  pub ended : List (ℕ × CallEnd)
  pub delays : List ℕ

-- `lost` is the end of `_connect_once`, with how long it lasted and what chance gives; the Boolean of
-- `called` is whether the socket took the frame, that of `responded` whether it is an error.
pub data Event : Type 0 where
  opened woke close_called : Event
  lost : ℕ → ℕ → Event
  called : Bool → Event
  responded : ℕ → Bool → Event
  timed_out : ℕ → Event

-- GatewayConnection.__init__ and the start of run_forever
unfoldable pub new_connection : Connection
new_connection = record {
  link = connecting;
  closing = false;
  attempt = 0;
  pending = [];
  calls = 0;
  ended = [];
  delays = [];
}

-- `_pending.pop` and the end of the call that waits for it; an id that is not pending does nothing.
unfoldable pub end_call : ℕ → CallEnd → Connection → Connection
end_call i e c =
    if any (λ k. k == i) c.pending
    then record c { pending = select (λ k. not (k == i)) c.pending; ended = (i, e) ∷ c.ended }
    else c

-- `_fail_pending`
unfoldable pub fail_pending : Connection → Connection
fail_pending c = record c {
  pending = [];
  ended = map (λ i. (i, closed_error)) c.pending ++ c.ended;
}

-- `call` up to its wait; a frame that is not sent ends it.
unfoldable pub call : Bool → Connection → Connection
call sent c =
    let d = record c { calls = suc c.calls } in
    if is_open c.link && sent
    then record d { pending = c.calls ∷ c.pending }
    else record d { ended = (c.calls, closed_error) ∷ c.ended }

-- The sleep before the next attempt, or the exception.
abbrev pub wait_for : Option ℕ → ℕ → Connection → Connection
wait_for none attempt c = record c { link = broken; attempt = attempt }
wait_for (some delay) attempt c = record c {
  link = sleeping;
  attempt = suc attempt;
  delays = delay ∷ c.delays;
}

-- run_forever after `_connect_once`
unfoldable pub reconnect : (ℕ → ℕ → ℕ → ℕ) → Backoff → ℕ → ℕ → Connection → Connection
unfolding backoff_delay
reconnect uniform b lasted chance c =
    if c.closing
    then record c { link = over }
    else let attempt = if leb b.stable lasted then 0 else c.attempt in
      wait_for (backoff_delay uniform b chance attempt) attempt c

abbrev pub is_up : Link → Bool
is_up connecting = true
is_up joined = true
is_up _ = false

abbrev pub is_connecting : Link → Bool
is_connecting connecting = true
is_connecting _ = false

abbrev pub is_sleeping : Link → Bool
is_sleeping sleeping = true
is_sleeping _ = false

unfoldable pub occur : (ℕ → ℕ → ℕ → ℕ) → Backoff → Event → Connection → Connection
unfolding end_call fail_pending call reconnect
occur uniform b opened c = if is_connecting c.link then record c { link = joined } else c
occur uniform b woke c =
    if is_sleeping c.link then record c { link = if c.closing then over else connecting } else c
occur uniform b close_called c = record c { closing = true }
occur uniform b (lost lasted chance) c =
    if is_up c.link then reconnect uniform b lasted chance (fail_pending c) else c
occur uniform b (called sent) c = call sent c
occur uniform b (responded i is_error) c = end_call i (if is_error then error_of else result_of) c
occur uniform b (timed_out i) c = end_call i closed_error c

unfoldable pub occur_all : (ℕ → ℕ → ℕ → ℕ) → Backoff → List Event → Connection → Connection
unfolding occur
occur_all uniform b [] c = c
occur_all uniform b (x ∷ xs) c = occur_all uniform b xs (occur uniform b x c)
