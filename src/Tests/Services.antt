-- ===== src/Tests/Services.antt =====
-- The theorems on the gateway, the worker agent, the schedules and the ingestion of batches.
use nautobot_app_remote_jobs.Shared.{
  ℕ, ◌+◌, ◌*◌, ◌≤◌, true, false, ◌≡◌, ◌↔◌, refl, Option, none, some, [], ◌∷◌, ◌++◌, leb, arith,
  String,
}
use nautobot_app_remote_jobs.Shared.Json.{num, str, Fields, end, field}
use nautobot_app_remote_jobs.App.Choices
use nautobot_app_remote_jobs.App.Schedules.{
  Schedule, is_due, dispatch_one, interval_delta, beats, due_after_dispatch,
}
use nautobot_app_remote_jobs.App.Schedules.Pace.{beats_bounded}
use nautobot_app_remote_jobs.App.Ingestion.{
  Store, logs, inserted, insert_failed, Write, already_ingested, write_batch, write_all, rows_of,
}
use nautobot_app_remote_jobs.App.Ingestion.Once.{replay_dropped, retry_after_failure}
use nautobot_app_remote_jobs.Gateway.RateLimiter.{Limits, fresh, allow_all, allowed_bound}
use nautobot_app_remote_jobs.Gateway.Frames.{
  ok, request, classify_frame, classify_frame_iff, members, IsRequest,
}
use nautobot_app_remote_jobs.Worker.Reports.{
  Flags, success, classify, classify_iff, acked, connection_closed, send_complete,
  send_complete_retries,
}
use nautobot_app_remote_jobs.Worker.Sinks.{BufferKey, kind_logs, emit, tick, new_sink, perform_all}
use nautobot_app_remote_jobs.Worker.Sinks.Order.{IsOrderly, perform_all-IsOrderly}

abbrev limits : Limits
limits = record { rate = 2; burst = 10; unit = 5 }

allowed_bound_example : (allow_all limits (0 ∷ 0 ∷ 0 ∷ 3 ∷ []) (fresh limits 0)).1 * 5 ≤ 10 + 3 * 2
allowed_bound_example =
    allowed_bound limits 0 (0 ∷ 0 ∷ 0 ∷ 3 ∷ [])
      (omega arith, (omega arith, (omega arith, (omega arith, tt))))

abbrev frame : Fields
frame = field "jsonrpc" (str "2.0") (field "id" (num 1) (field "method" (str "job.claim") end))

classify_frame_iff_example : (classify_frame frame ≡ ok request) ↔ IsRequest (members frame)
classify_frame_iff_example = (classify_frame_iff frame).0

abbrev empty : Store String
empty = record { cache = []; rows = [] }

abbrev other : Write String
other = record {
  insert = inserted;
  now = 200;
  run = 10;
  kind = logs;
  entries = "c" ∷ [];
  sequence = some 2;
}

abbrev after_two : Store String
after_two = write_all (other ∷ []) (write_batch inserted 100 10 logs ("a" ∷ []) (some 1) empty).0

replay_dropped_example :
    write_batch insert_failed 86499 10 logs ("b" ∷ []) (some 1) after_two ≡ (after_two, some 0)
replay_dropped_example =
    replay_dropped 100 86499 10 logs 1 ("a" ∷ []) ("b" ∷ []) insert_failed (other ∷ []) empty
      (unfold already_ingested in refl) (omega arith, tt) (omega arith)

fails : (write_batch insert_failed 100 10 logs ("a" ∷ []) (some 1) empty).1 ≡ none
unfolding write_batch
fails = refl

retry_after_failure_example :
    (t : Store String) × (write_batch inserted 130 10 logs
        ("a" ∷ [])
        (some 1)
        (write_batch insert_failed 100 10 logs ("a" ∷ []) (some 1) empty).0
      ≡ (t, some 1))
    × (t.rows ≡ empty.rows ++ rows_of 10 logs ("a" ∷ []))
retry_after_failure_example =
    retry_after_failure 100 130 10 logs (some 1) ("a" ∷ []) empty (omega arith) fails

abbrev daily_backup : Schedule
daily_backup = record {
  enabled = true;
  interval = Choices.daily;
  start_time = 500;
  last_run_at = none;
}

-- The next full hour.
abbrev hourly_cron : ℕ → ℕ
hourly_cron base = base + 3600

due_now : is_due hourly_cron 1000 daily_backup ≡ true
unfolding is_due
due_now = refl

beats_bounded_example :
    1000
      + (beats hourly_cron (1000 ∷ 1030 ∷ 90000 ∷ []) daily_backup).1 * interval_delta Choices.daily
    ≤ 90000 + interval_delta Choices.daily
beats_bounded_example =
    beats_bounded hourly_cron 1000 90000 (1000 ∷ 1030 ∷ 90000 ∷ []) daily_backup refl
      (omega arith, (omega arith, (omega arith, omega arith)))

due_after_dispatch_example :
    is_due hourly_cron 90000 (dispatch_one hourly_cron 1000 daily_backup).0 ≡ leb 87400 90000
due_after_dispatch_example =
    (due_after_dispatch hourly_cron 1000 90000 daily_backup due_now (omega arith)).2 refl

abbrev untouched : Flags
untouched = record { terminated_flag = false; timed_out = false; lease_lost = false }

classify_iff_example : ((classify untouched (some 0) none).0 ≡ success) ↔ (
    (untouched.terminated_flag ≡ false)
    × (untouched.timed_out ≡ false)
    × (untouched.lease_lost ≡ false)
    × (◌≡◌ {A = Option String} none none)
    × (◌≡◌ {A = Option ℕ} (some 0) (some 0)))
classify_iff_example = (classify_iff untouched (some 0) none).0

send_complete_retries_example :
    ((send_complete false (connection_closed ∷ acked ∷ [])).complete_acked ≡ true)
    × ((send_complete false (connection_closed ∷ acked ∷ [])).calls ≡ 2)
send_complete_retries_example =
    send_complete_retries (connection_closed ∷ []) acked [] (refl, tt) refl

abbrev log_key : BufferKey
log_key = record { run = 10; kind = kind_logs }

perform_all-IsOrderly_example : IsOrderly (
    perform_all
      (λ _. 70000)
      (emit 0 log_key "a" ∷ emit 1 log_key "b" ∷ tick 4 ∷ [])
      (new_sink {E = String}))
perform_all-IsOrderly_example =
    perform_all-IsOrderly (λ _. 70000) (emit 0 log_key "a" ∷ emit 1 log_key "b" ∷ tick 4 ∷ [])
