-- ===== src/Tests/Jobs.antt =====
-- The theorems on the job SDK, at a job that logs its secret and looks up providers, and on the worker's connection.
use nautobot_app_remote_jobs.Shared.{
  ℕ, true, false, refl, ◌≡◌, String, some, none, List, [], ◌∷◌, arith,
}
use nautobot_app_remote_jobs.Sdk.Redaction.{
  redact, register, redact_all, redact_value, replace_past, registered_values, insert_longest,
}
use nautobot_app_remote_jobs.Sdk.Logging.{
  Limits, Op, add_entry, flush_now, run_ops, new_client, Act, register_value, log_message,
  flush_log, acts,
}
use nautobot_app_remote_jobs.Sdk.Logging.Order.{Carries, added, run_ops_ship}
use nautobot_app_remote_jobs.Sdk.Logging.Secrecy.{IsClean, logged-IsClean}
use nautobot_app_remote_jobs.Sdk.Secrets.{
  EntryPoint, ProviderRegistry, get_provider, get_all, register_provider, put_provider,
}
use nautobot_app_remote_jobs.Sdk.Secrets.Explicit.{registered_wins}
use nautobot_app_remote_jobs.Worker.Connection.{
  Backoff, Event, opened, called, responded, lost, woke, timed_out, occur_all, new_connection,
  occur, backoff_delay, end_call, fail_pending, call, reconnect,
}
use nautobot_app_remote_jobs.Worker.Connection.Calls.{IsUniform, IsSettled, occur_all-IsSettled}

abbrev limits : Limits
limits = record { flush_interval = 2; max_entries = 2; max_bytes = 65536 }

abbrev ops : List (Op ℕ)
ops = add_entry 1 10 ∷ add_entry 1 11 ∷ flush_now 2 ∷ add_entry 2 12 ∷ []

run_ops_ship_example : Carries limits (added ops) (run_ops limits (λ e. 8) ops (new_client 0))
run_ops_ship_example = run_ops_ship limits (λ e. 8) 0 ops (omega arith) (omega arith)

abbrev secret : List ℕ
secret = b'd' ∷ b'3' ∷ b'a' ∷ b'r' ∷ []

abbrev longer : List ℕ
longer = b'd' ∷ b'3' ∷ b'a' ∷ b'r' ∷ b'!' ∷ []

abbrev said : List ℕ
said = b'x' ∷ b'd' ∷ b'3' ∷ b'a' ∷ b'r' ∷ b'!' ∷ []

abbrev job_acts : List Act
job_acts =
    register_value longer
    ∷ log_message 1 "info" said none
    ∷ flush_log 2
    ∷ log_message 3 "loud" said none
    ∷ []

logged-IsClean_example :
    IsClean secret
      (acts limits
        (λ e. 8)
        job_acts
        (record { values = register secret []; client = new_client 0 })).client
logged-IsClean_example =
    logged-IsClean limits (λ e. 8) 0 secret [] job_acts (omega arith) (refl, refl)

redacted_once :
    redact (secret ∷ longer ∷ []) said
    ≡ b'x' ∷ b'(' ∷ b'r' ∷ b'e' ∷ b'd' ∷ b'a' ∷ b'c' ∷ b't' ∷ b'e' ∷ b'd' ∷ b')' ∷ []
unfolding redact redact_all redact_value replace_past registered_values insert_longest
redacted_once = refl

abbrev backoff : Backoff
backoff = record { backoff_min = 1; backoff_max = 60; stable = 30 }

abbrev lowest : ℕ → ℕ → ℕ → ℕ
lowest low high chance = low

lowest-IsUniform : IsUniform lowest
lowest-IsUniform low high chance h = (omega arith, h)

-- Two calls, of which one is answered; then the connection is lost for a while.
abbrev events : List Event
events =
    opened
    ∷ called true
    ∷ called true
    ∷ responded 0 false
    ∷ lost 5 0
    ∷ called true
    ∷ woke
    ∷ lost 1 0
    ∷ timed_out 9
    ∷ []

occur_all-IsSettled_example : IsSettled backoff (occur_all lowest backoff events new_connection)
occur_all-IsSettled_example =
    occur_all-IsSettled lowest backoff events lowest-IsUniform (omega arith)

delays_double : (occur_all lowest backoff events new_connection).delays ≡ 2 ∷ 1 ∷ []
unfolding occur_all occur new_connection backoff_delay end_call fail_pending call reconnect
delays_double = refl

-- A provider is its slug with a number.
abbrev slug : String × ℕ → String
slug p = p.0

abbrev named : String → String × ℕ → String × ℕ
named name p = (name, p.1)

abbrev points : List (EntryPoint (String × ℕ))
points =
    record { name = "env"; loaded = some ("", 7) }
    ∷ record { name = "vault"; loaded = some ("vault", 8) }
    ∷ record { name = "broken"; loaded = none }
    ∷ []

abbrev registry : ProviderRegistry (String × ℕ)
registry = record { providers = ("env", ("env", 1)) ∷ []; entry_points_loaded = false }

registered_wins_example :
    (get_provider slug named points "env"
      (get_all slug named points ("vault" ∷ "none" ∷ []) registry)).0
    ≡ some ("env", 1)
registered_wins_example =
    registered_wins slug named points ("vault" ∷ "none" ∷ []) ("env", 1)
      (record { providers = []; entry_points_loaded = false }) registry (refl, (refl, (refl, tt)))
      (unfold register_provider put_provider in refl)
