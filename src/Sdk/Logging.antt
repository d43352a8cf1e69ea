-- ===== src/Sdk/Logging.antt =====
-- sdk/nautobot_remote_jobs_sdk/logging.py: LogClient and JobLogger. The lock makes each operation of the
-- client one step; a batch whose request fails is gone all the same, so `posted` holds every call of
-- `post`, newest first. The length of an entry's JSON text is given by `size`. Moments and the interval
-- are counted in one unit. The echo to stdout and the thread, which calls `flush`, are left out.
pub mod Order
pub mod Secrecy
use nautobot_app_remote_jobs.Shared.{
  ℕ, suc, ◌+◌, ◌-◌, Bool, true, false, ◌||◌, Option, none, some, String, str_eq, List, [], ◌∷◌,
  ◌++◌, leb, if◌then◌else◌,
}
use nautobot_app_remote_jobs.Shared.Lists.{length, any}
use nautobot_app_remote_jobs.Sdk.Redaction.{register, redact}

-- flush_interval, max_entries, max_bytes
pub record Limits : Type 0 where
  pub flush_interval : ℕ
  pub max_entries : ℕ
  pub max_bytes : ℕ

-- LOG_LEVELS
abbrev pub log_levels : List String
log_levels = "debug" ∷ "info" ∷ "success" ∷ "warning" ∷ "error" ∷ "failure" ∷ []

-- The entry of `JobLogger.log`.
pub record Entry : Type 0 where
  pub level : String
  pub message : List ℕ
  pub grouping : String
  pub timestamp : ℕ

-- The payload of `_flush_locked`.
pub record Payload (E : Type 0) : Type 0 where
  pub client_sequence : ℕ
  pub entries : List E

-- LogClient
pub record LogClient (E : Type 0) : Type 0 where
  pub entries : List E
  pub buffered_bytes : ℕ
  pub sequence : ℕ
  pub last_flush : ℕ
  pub posted : List (Payload E)

-- An operation of the client, with its moment; `stop` and the thread call `flush`.
pub data Op (E : Type 0) : Type 0 where
  add_entry : ℕ → E → Op E
  flush_now : ℕ → Op E

module _ {E : Type 0} where
  -- LogClient.__init__
  unfoldable pub new_client : ℕ → LogClient E
  new_client now = record {
    entries = [];
    buffered_bytes = 0;
    sequence = 0;
    last_flush = now;
    posted = [];
  }

  unfoldable pub post_batch : List E → LogClient E → LogClient E
  post_batch [] c = c
  post_batch (e ∷ es) c = record c {
    entries = [];
    buffered_bytes = 0;
    sequence = suc c.sequence;
    posted = record { client_sequence = suc c.sequence; entries = e ∷ es } ∷ c.posted;
  }

  -- `_flush_locked`, and with it `flush`
  unfoldable pub flush_locked : ℕ → LogClient E → LogClient E
  unfolding post_batch
  flush_locked now c = post_batch c.entries (record c { last_flush = now })

  abbrev pub is_due : Limits → ℕ → LogClient E → Bool
  is_due l now c =
      leb l.max_entries (length c.entries)
      || leb l.max_bytes c.buffered_bytes
      || leb l.flush_interval (now - c.last_flush)

  -- `add`
  unfoldable pub add_to : Limits → (E → ℕ) → ℕ → E → LogClient E → LogClient E
  unfolding flush_locked
  add_to l size now e c =
      let d = record c {
        entries = c.entries ++ e ∷ [];
        buffered_bytes = c.buffered_bytes + size e;
      } in
      if is_due l now d then flush_locked now d else d

  unfoldable pub run_op : Limits → (E → ℕ) → Op E → LogClient E → LogClient E
  unfolding add_to flush_locked
  run_op l size (add_entry now e) c = add_to l size now e c
  run_op l size (flush_now now) c = flush_locked now c

  unfoldable pub run_ops : Limits → (E → ℕ) → List (Op E) → LogClient E → LogClient E
  unfolding run_op
  run_ops l size [] c = c
  run_ops l size (o ∷ os) c = run_ops l size os (run_op l size o c)

-- The job's process: the registered values and the client of its logger.
pub record Job : Type 0 where
  pub values : List (List ℕ)
  pub client : LogClient Entry

abbrev pub or_run : Option String → String
or_run none = "run"
or_run (some grouping) = if str_eq grouping "" then "run" else grouping

-- `JobLogger.log`; `none` is the ValueError of an unknown level.
unfoldable pub log : Limits → (Entry → ℕ) → ℕ → String → List ℕ → Option String → Job → Option Job
unfolding redact add_to
log l size now level message grouping j =
    if any (str_eq level) log_levels
    then some (record j {
      client =
          add_to l size now
            (record {
              level = level;
              message = redact j.values message;
              grouping = or_run grouping;
              timestamp = now;
            })
            j.client;
    })
    else none

-- What a job does with its secrets and its logger.
pub data Act : Type 0 where
  register_value : List ℕ → Act
  log_message : ℕ → String → List ℕ → Option String → Act
  flush_log : ℕ → Act

abbrev or_same : Option Job → Job → Job
or_same none j = j
or_same (some k) j = k

unfoldable pub act : Limits → (Entry → ℕ) → Act → Job → Job
unfolding register log flush_locked
act l size (register_value v) j = record j { values = register v j.values }
act l size (log_message now level message grouping) j =
    or_same (log l size now level message grouping j) j
act l size (flush_log now) j = record j { client = flush_locked now j.client }

unfoldable pub acts : Limits → (Entry → ℕ) → List Act → Job → Job
unfolding act
acts l size [] j = j
acts l size (a ∷ as_) j = acts l size as_ (act l size a j)
