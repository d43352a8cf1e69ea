-- ===== src/App/Choices.antt =====
-- nautobot_remote_jobs/choices.py: the enumerations of the app.
use nautobot_app_remote_jobs.Shared.{Bool, true, false}

pub data ZonePolicy : Type 0 where
  pinned any per_device fan_out : ZonePolicy

pub data FailoverPolicy : Type 0 where
  none wait failover : FailoverPolicy

pub data RunState : Type 0 where
  pending offered claimed running success failure terminated abandoned cancelled : RunState
  failed_dispatch : RunState

pub data WorkerStatus : Type 0 where
  online draining offline : WorkerStatus

pub data ScheduleInterval : Type 0 where
  once hourly daily weekly custom : ScheduleInterval

pub data CancelMode : Type 0 where
  graceful kill : CancelMode

-- RunStateChoices.TERMINAL_STATES
abbrev pub in_terminal_states : RunState → Bool
in_terminal_states success = true
in_terminal_states failure = true
in_terminal_states terminated = true
in_terminal_states cancelled = true
in_terminal_states failed_dispatch = true
in_terminal_states _ = false

-- RunStateChoices.NON_TERMINAL_STATES
abbrev pub in_non_terminal_states : RunState → Bool
in_non_terminal_states pending = true
in_non_terminal_states offered = true
in_non_terminal_states claimed = true
in_non_terminal_states running = true
in_non_terminal_states _ = false
