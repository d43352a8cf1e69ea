-- ===== src/Worker/RunTask.antt =====
-- worker/remote_worker/agent.py: RunTask, the life of one run on a worker. The container runtime and the
-- server are events: what the runtime answers to a launch or a wait, and what the server answers to a
-- status or sends as a cancel. The end of a wait and the classification are one step. Logs, the streaming
-- of the console and calls of the runtime that fail where the source does not catch it are left out.
pub mod Orderly
pub mod Life
use nautobot_app_remote_jobs.Shared.{
  ℕ, suc, String, Bool, true, false, not, ◌||◌, ◌&&◌, Option, none, some, List, [], ◌∷◌,
  if◌then◌else◌, is_some,
}
use nautobot_app_remote_jobs.App.Choices.{CancelMode, graceful, kill}
use nautobot_app_remote_jobs.Worker.Reports.{
  WireState, failure, Cause, Flags, classify, CallOutcome, send_complete,
}

-- The error texts of a run that does not come to be supervised.
pub data LaunchError : Type 0 where
  bad_image failed_to_start recovery_failed container_lost : String → LaunchError

pub data RunError : Type 0 where
  from_launch : LaunchError → RunError
  from_end : Cause → RunError

-- The parameters of job.complete that the outcome decides.
pub record Completion : Type 0 where
  pub state : WireState
  pub exit_code : Option ℕ
  pub error : Option RunError

-- Where the coroutine of the task stands.
pub data Phase : Type 0 where
  created launching looking_up supervising : Phase
  finalizing : Completion → Phase
  finished crashed : Phase

-- The fields of RunTask, with what it has done: whether its journal entry is there, the signals sent to
-- the container, the completions it set out to report (an agent that is closing makes no call), and
-- whether the container was removed.
pub record Task : Type 0 where
  pub phase : Phase
  pub has_handle : Bool
  pub flags : Flags
  pub cancel_task : Bool
  pub complete_sent : Bool
  pub complete_acked : Bool
  pub detached : Bool
  pub journaled : Bool
  pub kills : ℕ
  pub terminates : ℕ
  pub reports : List Completion
  pub removed : Bool

-- RunTask.__init__, for an offer (no entry) or for an entry of the journal
unfoldable pub new_task : Bool → Task
new_task has_entry = record {
  phase = created;
  has_handle = false;
  flags = record { terminated_flag = false; timed_out = false; lease_lost = false };
  cancel_task = false;
  complete_sent = false;
  complete_acked = false;
  detached = false;
  journaled = has_entry;
  kills = 0;
  terminates = 0;
  reports = [];
  removed = false;
}

-- handle.kill()
unfoldable pub kill_container : Task → Task
kill_container t = record t { kills = suc t.kills }

-- How the wait of `_supervise` ends; a code is `none` where `_safe_wait` gives up.
pub data WaitEnd : Type 0 where
  exited : ℕ → WaitEnd
  timed_out_with runtime_failed_with : Option ℕ → WaitEnd

-- What job.status is answered.
pub data StatusAnswer : Type 0 where
  renewed cancel_asked run_rejected other_error not_connected : StatusAnswer

-- What happens to a task. `cancelled` is job.cancel; its Boolean says whether the container outlived
-- the grace period. `completed_with` are the outcomes of the calls of job.complete.
pub data Happening : Type 0 where
  begun recovered container_created : Happening
  launched : Option LaunchError → Happening
  found : Option LaunchError → Happening
  waited : WaitEnd → String → Happening
  status_answered : StatusAnswer → Bool → Happening
  cancelled : CancelMode → Bool → Happening
  detach_called : Happening
  completed_with : List CallOutcome → Happening

abbrev pub failed_launch : LaunchError → Completion
failed_launch e = record { state = failure; exit_code = none; error = some (from_launch e) }

-- RunTask.run from the start of the container to `_supervise`: a task that was cancelled meanwhile kills what it has started.
abbrev pub launch : Option LaunchError → Task → Task
launch (some e) t = record t { phase = finalizing (failed_launch e) }
launch none t =
    let u = record t { has_handle = true; phase = supervising } in
    if t.flags.terminated_flag then kill_container u else u

-- RunTask.recover up to `_supervise`
abbrev pub reattach : Option LaunchError → Task → Task
reattach (some e) t = record t { phase = finalizing (failed_launch e) }
reattach none t = record t { has_handle = true; phase = supervising }

abbrev pub from_cause : Option Cause → Option RunError
from_cause none = none
from_cause (some c) = some (from_end c)

-- `_classify` and what is passed to `_finalize`
unfoldable pub settled : Flags → Option ℕ → Option String → Completion
settled f code error =
    let s = classify f code error in
    record { state = s.0; exit_code = code; error = from_cause s.1 }

-- The end of the wait in `_supervise`; the text is that of a runtime error.
abbrev pub supervise : WaitEnd → String → Task → Task
supervise (exited code) e t = record t { phase = finalizing (settled t.flags (some code) none) }
supervise (timed_out_with code) e t =
    let f = if t.flags.terminated_flag then t.flags else record t.flags { timed_out = true } in
    record (kill_container t) { flags = f; phase = finalizing (settled f code none) }
supervise (runtime_failed_with code) e t = record (kill_container t) {
  phase = finalizing (settled t.flags code (some e));
}

-- The signals of a cancel.
abbrev pub signal : CancelMode → Bool → Task → Task
signal kill outlives t = kill_container t
signal graceful outlives t =
    let u = record t { terminates = suc t.terminates } in if outlives then kill_container u else u

-- RunTask.cancel
unfoldable pub cancel : CancelMode → Bool → Task → Task
unfolding kill_container
cancel mode outlives t =
    let u = record t { flags = record t.flags { terminated_flag = true } } in
    if t.has_handle then signal mode outlives u else u

-- One round of `_status_loop`
unfoldable pub status_round : StatusAnswer → Bool → Task → Task
unfolding cancel kill_container
status_round renewed outlives t = t
status_round other_error outlives t = t
status_round not_connected outlives t = t
status_round run_rejected outlives t =
    let u = record t { flags = record t.flags { lease_lost = true } } in
    if t.has_handle then kill_container u else u
status_round cancel_asked outlives t =
    if t.cancel_task then t else cancel graceful outlives (record t { cancel_task = true })

-- `_cleanup`
unfoldable pub cleanup_task : Task → Task
cleanup_task t = record t {
  removed = t.removed || t.has_handle;
  journaled = t.journaled && not t.complete_acked;
}

-- `_finalize`, over the outcomes of the calls until the agent closes
unfoldable pub finalize : Completion → List CallOutcome → Task → Task
unfolding cleanup_task
finalize c outcomes t =
    if t.detached
    then record t { phase = finished }
    else cleanup_task (record t {
      phase = finished;
      complete_sent = true;
      complete_acked = t.complete_acked || (send_complete t.complete_sent outcomes).complete_acked;
      reports = if t.complete_sent then t.reports else c ∷ t.reports;
    })

abbrev pub is_created : Phase → Bool
is_created created = true
is_created _ = false

abbrev pub is_launching : Phase → Bool
is_launching launching = true
is_launching _ = false

abbrev pub is_looking_up : Phase → Bool
is_looking_up looking_up = true
is_looking_up _ = false

abbrev pub is_supervising : Phase → Bool
is_supervising supervising = true
is_supervising _ = false

-- The task is no longer in the agent's table.
abbrev pub is_over : Phase → Bool
is_over finished = true
is_over crashed = true
is_over _ = false

abbrev pub completion_of : Phase → Option Completion
completion_of (finalizing c) = some c
completion_of _ = none

abbrev pub finalize_if : Option Completion → List CallOutcome → Task → Task
finalize_if none outcomes t = t
finalize_if (some c) outcomes t = finalize c outcomes t

-- One happening; one that does not fit the phase of the coroutine does nothing. RunTask.recover raises
-- without an entry; the loop of job.status ends with the lease.
unfoldable pub happen : Happening → Task → Task
unfolding kill_container settled status_round finalize cancel
happen begun t = if is_created t.phase then record t { phase = launching; journaled = true } else t
happen recovered t =
    if is_created t.phase
    then record t { phase = if t.journaled then looking_up else crashed }
    else t
happen container_created t = if is_launching t.phase then record t { has_handle = true } else t
happen (launched e) t = if is_launching t.phase then launch e t else t
happen (found e) t = if is_looking_up t.phase then reattach e t else t
happen (waited e text) t = if is_supervising t.phase then supervise e text t else t
happen (status_answered a outlives) t =
    if is_supervising t.phase && not t.detached && not t.flags.lease_lost
    then status_round a outlives t
    else t
happen (cancelled mode outlives) t = if is_over t.phase then t else cancel mode outlives t
happen detach_called t = if is_over t.phase then t else record t { detached = true }
happen (completed_with outcomes) t = finalize_if (completion_of t.phase) outcomes t

unfoldable pub live : List Happening → Task → Task
unfolding happen
live [] t = t
live (h ∷ hs) t = live hs (happen h t)
