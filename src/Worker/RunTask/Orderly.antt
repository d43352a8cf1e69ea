-- ===== src/Worker/RunTask/Orderly.antt =====
-- A RunTask in order, and the steps of its coroutine that keep it so.
use nautobot_app_remote_jobs.Shared.{
  ℕ, ◌≤◌, Bool, true, false, ◌≡◌, inl, inr, refl, ◌∙◌, ◌||◌, [], arith, Bool-cases,
}
use nautobot_app_remote_jobs.Shared.Lists.{length}
use nautobot_app_remote_jobs.Worker.Reports.{Flags}
use nautobot_app_remote_jobs.Worker.RunTask.{
  Phase, created, launching, looking_up, finished, crashed, Task, begun, recovered, is_created,
  is_supervising, happen,
}

abbrev pub is_finished : Phase → Bool
is_finished finished = true
is_finished _ = false

-- The coroutine is past the point where the run is in the journal.
abbrev pub has_begun : Phase → Bool
has_begun created = false
has_begun crashed = false
has_begun _ = true

pub record IsOrderly (t : Task) : Type 0 where
  pub reports_once : length t.reports ≤ 1
  pub unreported : is_finished t.phase ≡ false → t.reports ≡ []
  pub unsent : is_finished t.phase ≡ false → t.complete_sent ≡ false
  pub unacked : is_finished t.phase ≡ false → t.complete_acked ≡ false
  pub journal_kept : has_begun t.phase ≡ true → t.complete_acked ≡ false → t.journaled ≡ true
  pub settled_end : is_finished t.phase ≡ true → t.detached ≡ false → length t.reports ≡ 1
  pub killed : (t.flags.lease_lost || t.flags.timed_out) ≡ true → 1 ≤ t.kills
  pub attached : is_supervising t.phase ≡ true → t.has_handle ≡ true

-- A task that has not finished goes on, and nothing is reported.
record Moves (t u : Task) : Type 0 where
  from_unfinished : is_finished t.phase ≡ false
  to_unfinished : is_finished u.phase ≡ false
  same_reports : u.reports ≡ t.reports
  same_sent : u.complete_sent ≡ t.complete_sent
  same_acked : u.complete_acked ≡ t.complete_acked
  in_journal : has_begun u.phase ≡ true → u.journaled ≡ true
  killed_then : (u.flags.lease_lost || u.flags.timed_out) ≡ true → 1 ≤ u.kills
  attached_then : is_supervising u.phase ≡ true → u.has_handle ≡ true

Moves-IsOrderly : (t u : Task) → IsOrderly t → Moves t u → IsOrderly u
Moves-IsOrderly t u h m =
    let none_yet = m.same_reports ∙ h.unreported m.from_unfinished in
    record {
      reports_once = rw none_yet (omega arith);
      unreported = λ _. none_yet;
      unsent = λ _. m.same_sent ∙ h.unsent m.from_unfinished;
      unacked = λ _. m.same_acked ∙ h.unacked m.from_unfinished;
      journal_kept = λ b _. m.in_journal b;
      settled_end = λ f. let n = m.to_unfinished in ground (arith, f, n);
      killed = m.killed_then;
      attached = m.attached_then;
    }

created_moves :
    (t : Task) (p : Phase) (j : Bool)
    → IsOrderly t
    → is_created t.phase ≡ true
    → is_finished p ≡ false
    → is_supervising p ≡ false
    → (has_begun p ≡ true → j ≡ true)
    → IsOrderly (record t { phase = p; journaled = j })
created_moves t p j h e f s b =
    Moves-IsOrderly t (record t { phase = p; journaled = j }) h
      (record {
        from_unfinished = ground (arith, e);
        to_unfinished = f;
        same_reports = refl;
        same_sent = refl;
        same_acked = refl;
        in_journal = b;
        killed_then = h.killed;
        attached_then = λ q. ground (arith, q, s);
      })

pub begun-IsOrderly : (t : Task) → IsOrderly t → IsOrderly (happen begun t)
unfolding happen
begun-IsOrderly t h = elim (Bool-cases (is_created t.phase)) [
  | inl e ↦ rw e (created_moves t launching true h e refl refl (λ _. refl))
  | inr e ↦ rw e h
]

pub recovered-IsOrderly : (t : Task) → IsOrderly t → IsOrderly (happen recovered t)
unfolding happen
recovered-IsOrderly t h = elim (Bool-cases (is_created t.phase)) [
  | inl e ↦ elim (Bool-cases t.journaled) [
    | inl j ↦ rw (e, j) (created_moves t looking_up true h e refl refl (λ _. refl))
    | inr j ↦ rw (e, j) (created_moves t crashed false h e refl refl (λ b. ground (arith, b)))
  ]
  | inr e ↦ rw e h
]

-- A task that has begun and has not finished is in the journal.
pub in_journal_yet :
    (t : Task)
    → IsOrderly t
    → is_finished t.phase ≡ false
    → has_begun t.phase ≡ true
    → t.journaled ≡ true
in_journal_yet t h f b = h.journal_kept b (h.unacked f)

-- A step that neither ends the task nor reports anything.
pub onward-IsOrderly :
    (t : Task) (p : Phase) (f : Flags) (k n : ℕ) (c d hh : Bool)
    → IsOrderly t
    → is_finished t.phase ≡ false
    → is_finished p ≡ false
    → (has_begun p ≡ true → has_begun t.phase ≡ true)
    → ((f.lease_lost || f.timed_out) ≡ true → 1 ≤ k)
    → (is_supervising p ≡ true → hh ≡ true)
    → IsOrderly (record t {
      phase = p;
      flags = f;
      kills = k;
      terminates = n;
      cancel_task = c;
      detached = d;
      has_handle = hh;
    })
onward-IsOrderly t p f k n c d hh h un un2 b kd at =
    let u = record t {
      phase = p;
      flags = f;
      kills = k;
      terminates = n;
      cancel_task = c;
      detached = d;
      has_handle = hh;
    } in
    Moves-IsOrderly t u h (record {
      from_unfinished = un;
      to_unfinished = un2;
      same_reports = refl;
      same_sent = refl;
      same_acked = refl;
      in_journal = λ q. in_journal_yet t h un (b q);
      killed_then = kd;
      attached_then = at;
    })

-- The task goes to another phase.
pub enters-IsOrderly :
    (t : Task) (p : Phase) (f : Flags) (k : ℕ) (hh : Bool)
    → IsOrderly t
    → is_finished t.phase ≡ false
    → has_begun t.phase ≡ true
    → is_finished p ≡ false
    → ((f.lease_lost || f.timed_out) ≡ true → 1 ≤ k)
    → (is_supervising p ≡ true → hh ≡ true)
    → IsOrderly (record t { phase = p; flags = f; kills = k; has_handle = hh })
enters-IsOrderly t p f k hh h un b un2 kd at =
    onward-IsOrderly t p f k t.terminates t.cancel_task t.detached hh h un un2 (λ _. b) kd at

-- The task stays in its phase.
pub touched-IsOrderly :
    (t : Task) (f : Flags) (k n : ℕ) (c : Bool)
    → IsOrderly t
    → is_finished t.phase ≡ false
    → ((f.lease_lost || f.timed_out) ≡ true → 1 ≤ k)
    → IsOrderly (record t { flags = f; kills = k; terminates = n; cancel_task = c })
touched-IsOrderly t f k n c h un kd =
    onward-IsOrderly t t.phase f k n c t.detached t.has_handle h un un (λ b. b) kd h.attached
