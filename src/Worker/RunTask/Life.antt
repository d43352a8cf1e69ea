-- ===== src/Worker/RunTask/Life.antt =====
-- What holds of a RunTask whatever happens to it.
use nautobot_app_remote_jobs.Shared.{
  suc, String, Bool, true, false, ◌≡◌, inl, inr, refl, not, ◌||◌, ◌&&◌, Option, none, some, List,
  [], ◌∷◌, arith, if_both, Bool-cases, if◌then◌else◌,
}
use nautobot_app_remote_jobs.App.Choices.{CancelMode, graceful, kill}
use nautobot_app_remote_jobs.Worker.Reports.{CallOutcome, send_complete}
use nautobot_app_remote_jobs.Worker.RunTask.{
  LaunchError, failed_launch, settled, Completion, supervising, finalizing, finished, Task,
  new_task, kill_container, WaitEnd, exited, timed_out_with, runtime_failed_with, StatusAnswer,
  renewed, cancel_asked, run_rejected, other_error, not_connected, Happening, begun, recovered,
  container_created, launched, found, waited, status_answered, cancelled, detach_called,
  completed_with, launch, reattach, supervise, signal, cancel, status_round, cleanup_task, finalize,
  is_launching, is_looking_up, is_supervising, is_over, completion_of, finalize_if, happen, live,
}
use nautobot_app_remote_jobs.Worker.RunTask.Orderly.{
  is_finished, has_begun, IsOrderly, in_journal_yet, onward-IsOrderly, enters-IsOrderly,
  touched-IsOrderly, begun-IsOrderly, recovered-IsOrderly,
}

launch-IsOrderly :
    (e : Option LaunchError) (t : Task)
    → IsOrderly t
    → is_finished t.phase ≡ false
    → has_begun t.phase ≡ true
    → IsOrderly (launch e t)
unfolding kill_container
launch-IsOrderly (some x) t h un b =
    enters-IsOrderly t (finalizing (failed_launch x)) t.flags t.kills t.has_handle h un b refl
      h.killed (λ q. ground arith)
launch-IsOrderly none t h un b =
    if_both IsOrderly t.flags.terminated_flag
      (enters-IsOrderly t supervising t.flags (suc t.kills) true h un b refl (λ _. omega arith)
        (λ _. refl))
      (enters-IsOrderly t supervising t.flags t.kills true h un b refl h.killed (λ _. refl))

reattach-IsOrderly :
    (e : Option LaunchError) (t : Task)
    → IsOrderly t
    → is_finished t.phase ≡ false
    → has_begun t.phase ≡ true
    → IsOrderly (reattach e t)
reattach-IsOrderly (some x) t h un b =
    enters-IsOrderly t (finalizing (failed_launch x)) t.flags t.kills t.has_handle h un b refl
      h.killed (λ q. ground arith)
reattach-IsOrderly none t h un b =
    enters-IsOrderly t supervising t.flags t.kills true h un b refl h.killed (λ _. refl)

supervise-IsOrderly :
    (w : WaitEnd) (e : String) (t : Task)
    → IsOrderly t
    → is_finished t.phase ≡ false
    → has_begun t.phase ≡ true
    → IsOrderly (supervise w e t)
unfolding kill_container
supervise-IsOrderly (exited code) e t h un b =
    let p = finalizing (settled t.flags (some code) none) in
    enters-IsOrderly t p t.flags t.kills t.has_handle h un b refl h.killed (λ q. ground arith)
supervise-IsOrderly (timed_out_with code) e t h un b =
    let f = if t.flags.terminated_flag then t.flags else record t.flags { timed_out = true } in
    let p = finalizing (settled f code none) in
    enters-IsOrderly t p f (suc t.kills) t.has_handle h un b refl (λ _. omega arith)
      (λ q. ground arith)
supervise-IsOrderly (runtime_failed_with code) e t h un b =
    let p = finalizing (settled t.flags code (some e)) in
    enters-IsOrderly t p t.flags (suc t.kills) t.has_handle h un b refl (λ _. omega arith)
      (λ q. ground arith)

signal-IsOrderly :
    (m : CancelMode) (outlives : Bool) (t : Task)
    → IsOrderly t
    → is_finished t.phase ≡ false
    → IsOrderly (signal m outlives t)
unfolding kill_container
signal-IsOrderly kill outlives t h un =
    touched-IsOrderly t t.flags (suc t.kills) t.terminates t.cancel_task h un (λ _. omega arith)
signal-IsOrderly graceful outlives t h un =
    if_both IsOrderly outlives
      (touched-IsOrderly t t.flags (suc t.kills) (suc t.terminates) t.cancel_task h un
        (λ _. omega arith))
      (touched-IsOrderly t t.flags t.kills (suc t.terminates) t.cancel_task h un h.killed)

cancel-IsOrderly :
    (m : CancelMode) (outlives : Bool) (t : Task)
    → IsOrderly t
    → is_finished t.phase ≡ false
    → IsOrderly (cancel m outlives t)
unfolding cancel
cancel-IsOrderly m outlives t h un =
    let f = record t.flags { terminated_flag = true } in
    let marked = touched-IsOrderly t f t.kills t.terminates t.cancel_task h un h.killed in
    if_both IsOrderly t.has_handle (signal-IsOrderly m outlives (record t { flags = f }) marked un)
      marked

status_round-IsOrderly :
    (a : StatusAnswer) (outlives : Bool) (t : Task)
    → IsOrderly t
    → is_supervising t.phase ≡ true
    → is_finished t.phase ≡ false
    → IsOrderly (status_round a outlives t)
unfolding status_round kill_container
status_round-IsOrderly renewed outlives t h s un = h
status_round-IsOrderly other_error outlives t h s un = h
status_round-IsOrderly not_connected outlives t h s un = h
status_round-IsOrderly run_rejected outlives t h s un =
    let f = record t.flags { lease_lost = true } in
    rw (h.attached s) (
      onward-IsOrderly t t.phase f (suc t.kills) t.terminates t.cancel_task t.detached true h un un
        (λ b. b) (λ _. omega arith) (λ _. refl))
status_round-IsOrderly cancel_asked outlives t h s un =
    let asked = touched-IsOrderly t t.flags t.kills t.terminates true h un h.killed in
    if_both IsOrderly t.cancel_task h
      (cancel-IsOrderly graceful outlives (record t { cancel_task = true }) asked un)

-- The report of an end that is not detached, for the answers `s` to the calls.
reported-IsOrderly :
    (t : Task) (c : Completion) (acked : Bool)
    → IsOrderly t
    → is_finished t.phase ≡ false
    → has_begun t.phase ≡ true
    → IsOrderly (record t {
      phase = finished;
      complete_sent = true;
      complete_acked = acked;
      detached = false;
      reports = c ∷ [];
      removed = t.removed || t.has_handle;
      journaled = t.journaled && not acked;
    })
reported-IsOrderly t c acked h un b = record {
  reports_once = omega arith;
  unreported = λ n. ground (arith, n);
  unsent = λ n. ground (arith, n);
  unacked = λ n. ground (arith, n);
  journal_kept = λ _ n. rw (n, in_journal_yet t h un b) refl;
  settled_end = λ _ _. refl;
  killed = h.killed;
  attached = λ n. ground (arith, n);
}

left-IsOrderly :
    (t : Task)
    → IsOrderly t
    → is_finished t.phase ≡ false
    → has_begun t.phase ≡ true
    → IsOrderly (record t { phase = finished; detached = true })
left-IsOrderly t h un b = record {
  reports_once = h.reports_once;
  unreported = λ n. ground (arith, n);
  unsent = λ n. ground (arith, n);
  unacked = λ n. ground (arith, n);
  journal_kept = λ _ _. in_journal_yet t h un b;
  settled_end = λ _ n. ground (arith, n);
  killed = h.killed;
  attached = λ n. ground (arith, n);
}

finalize-IsOrderly :
    (c : Completion) (outcomes : List CallOutcome) (t : Task)
    → IsOrderly t
    → is_finished t.phase ≡ false
    → has_begun t.phase ≡ true
    → IsOrderly (finalize c outcomes t)
unfolding finalize cleanup_task
finalize-IsOrderly c outcomes t h un b = elim (Bool-cases t.detached) [
  | inl d ↦ rw d (left-IsOrderly t h un b)
  | inr d ↦
      rw (d, h.unsent un, h.unreported un)
        (reported-IsOrderly t c (t.complete_acked || (send_complete false outcomes).complete_acked)
          h un b)
]

finalize_if-IsOrderly :
    (o : Option Completion) (outcomes : List CallOutcome) (t : Task)
    → IsOrderly t
    → completion_of t.phase ≡ o
    → IsOrderly (finalize_if o outcomes t)
finalize_if-IsOrderly none outcomes t h e = h
finalize_if-IsOrderly (some c) outcomes t h e =
    finalize-IsOrderly c outcomes t h (ground (arith, e)) (ground (arith, e))

happen-IsOrderly : (x : Happening) (t : Task) → IsOrderly t → IsOrderly (happen x t)
unfolding happen
happen-IsOrderly begun t h = begun-IsOrderly t h
happen-IsOrderly recovered t h = recovered-IsOrderly t h
happen-IsOrderly container_created t h = elim (Bool-cases (is_launching t.phase)) [
  | inl e ↦ rw e (
      onward-IsOrderly t t.phase t.flags t.kills t.terminates t.cancel_task t.detached true h
        (ground (arith, e)) (ground (arith, e)) (λ b. b) h.killed (λ _. refl))
  | inr e ↦ rw e h
]
happen-IsOrderly (launched x) t h = elim (Bool-cases (is_launching t.phase)) [
  | inl e ↦ rw e (launch-IsOrderly x t h (ground (arith, e)) (ground (arith, e)))
  | inr e ↦ rw e h
]
happen-IsOrderly (found x) t h = elim (Bool-cases (is_looking_up t.phase)) [
  | inl e ↦ rw e (reattach-IsOrderly x t h (ground (arith, e)) (ground (arith, e)))
  | inr e ↦ rw e h
]
happen-IsOrderly (waited w x) t h = elim (Bool-cases (is_supervising t.phase)) [
  | inl e ↦ rw e (supervise-IsOrderly w x t h (ground (arith, e)) (ground (arith, e)))
  | inr e ↦ rw e h
]
happen-IsOrderly (status_answered a o) t h = elim (Bool-cases (is_supervising t.phase)) [
  | inl e ↦ rw e (
      if_both IsOrderly (not t.detached && not t.flags.lease_lost)
        (status_round-IsOrderly a o t h e (ground (arith, e))) h)
  | inr e ↦ rw e h
]
happen-IsOrderly (cancelled m o) t h = elim (Bool-cases (is_over t.phase)) [
  | inl e ↦ rw e h
  | inr e ↦ rw e (cancel-IsOrderly m o t h (ground (arith, e)))
]
happen-IsOrderly detach_called t h = elim (Bool-cases (is_over t.phase)) [
  | inl e ↦ rw e h
  | inr e ↦ rw e (
      onward-IsOrderly t t.phase t.flags t.kills t.terminates t.cancel_task true t.has_handle h
        (ground (arith, e)) (ground (arith, e)) (λ b. b) h.killed h.attached)
]
happen-IsOrderly (completed_with outcomes) t h =
    finalize_if-IsOrderly (completion_of t.phase) outcomes t h refl

new_task-IsOrderly : (entry : Bool) → IsOrderly (new_task entry)
unfolding new_task
new_task-IsOrderly entry = record {
  reports_once = omega arith;
  unreported = λ _. refl;
  unsent = λ _. refl;
  unacked = λ _. refl;
  journal_kept = λ b _. ground (arith, b);
  settled_end = λ n. ground (arith, n);
  killed = λ n. ground (arith, n);
  attached = λ n. ground (arith, n);
}

keeps-IsOrderly : (xs : List Happening) (t : Task) → IsOrderly t → IsOrderly (live xs t)
unfolding live
keeps-IsOrderly [] t h = h
keeps-IsOrderly (x ∷ xs) t h = keeps-IsOrderly xs (happen x t) (happen-IsOrderly x t h)

-- A run task starts with or without an entry of the journal, and the runtime, the server and the agent do
-- anything to it in any order: it reports a completion at most once, and exactly once where it has
-- finished without being detached; nothing is reported, sent or acknowledged before the end; from the
-- start of run or the lookup of recover its entry stays in the journal while no completion was
-- acknowledged; while supervised it has its container, and a lost lease or a timeout has sent a kill.
pub live-IsOrderly : (entry : Bool) (xs : List Happening) → IsOrderly (live xs (new_task entry))
live-IsOrderly entry xs = keeps-IsOrderly xs (new_task entry) (new_task-IsOrderly entry)
