-- ===== src/Gateway/Bridge/Conservation.antt =====
-- No frame and no request of a worker is lost or answered twice by WorkerBridge of bridge.py.
use nautobot_app_remote_jobs.Shared.{
  ℕ, suc, ◌+◌, String, Bool, true, false, ◌≡◌, refl, ap, Option, none, some, List, [], ◌∷◌, ◌==◌,
  ltb, arith, if_both, if◌then◌else◌,
}
use Prim.Native.String.{len}
use nautobot_app_remote_jobs.Shared.Json.{
  Json, null, bool, num, negative, float, str, arr, obj, Fields,
}
use nautobot_app_remote_jobs.Shared.Lists.{length, count}
use nautobot_app_remote_jobs.Gateway.Frames.{
  request, notification, response, Classified, ok, frame_error, get, classify_frame,
}
use nautobot_app_remote_jobs.Gateway.RateLimiter.{Limits, Bucket, allow}
use nautobot_app_remote_jobs.Gateway.Bridge.{
  Text, GatewayError, Sent, rejected, relayed, timed_out, Waiter, Bridge, send, publish,
  publish_request, publish_with, behind, relay, routed, parsed, limited, handle_worker_frame,
  set_result, answered, on_response, take_waiter, woken, expired, Event, worker_frame, app_response,
  server_frame, wake, time_out, step, run_events, pending_at, drop_pending, new_bridge,
}

abbrev pub is_answer : Sent → Bool
is_answer (relayed p) = true
is_answer (timed_out i) = true
is_answer _ = false

abbrev pub is_rejection : Sent → Bool
is_rejection (rejected i e) = true
is_rejection _ = false

abbrev pub is_worker_frame : Event → Bool
is_worker_frame (worker_frame now raw) = true
is_worker_frame _ = false

-- The requests that are answered or waited for, and the frames that are rejected or published.
abbrev pub settled : Bridge → ℕ
settled b = count is_answer b.sent + length b.waiters

abbrev pub handled : Bridge → ℕ
handled b = count is_rejection b.sent + length b.published

-- From one state to the next: requests and frames are accounted for.
record Accounts (frames : ℕ) (b c : Bridge) : Type 0 where
  requests : b.started + settled c ≡ c.started + settled b
  frames_handled : handled c ≡ frames + handled b

with-Accounts :
    (text : Text) (frame : Fields) (b : Bridge) (o : Option Json)
    → Accounts 1 b (publish_with text frame b o)
unfolding publish publish_request
with-Accounts text frame b none = record { requests = refl; frames_handled = omega arith }
with-Accounts text frame b (some id) = record {
  requests = omega arith;
  frames_handled = omega arith;
}

routed-Accounts :
    (text : Text) (frame : Fields) (c : Classified) (b : Bridge)
    → Accounts 1 b (routed text frame c b)
unfolding send publish
routed-Accounts text frame (frame_error id) b = record {
  requests = refl;
  frames_handled = omega arith;
}
routed-Accounts text frame (ok request) b = with-Accounts text frame b (get "id" frame)
routed-Accounts text frame (ok notification) b = record {
  requests = refl;
  frames_handled = omega arith;
}
routed-Accounts text frame (ok response) b = record {
  requests = refl;
  frames_handled = omega arith;
}

sent-Accounts :
    (i : Option Json) (e : GatewayError) (b : Bridge) → Accounts 1 b (send (rejected i e) b)
unfolding send
sent-Accounts i e b = record { requests = refl; frames_handled = omega arith }

parsed-Accounts : (text : Text) (o : Option Json) (b : Bridge) → Accounts 1 b (parsed text o b)
parsed-Accounts text none b = sent-Accounts _ _ b
parsed-Accounts text (some (obj frame)) b = routed-Accounts text frame (classify_frame frame) b
parsed-Accounts text (some null) b = sent-Accounts _ _ b
parsed-Accounts text (some (bool v)) b = sent-Accounts _ _ b
parsed-Accounts text (some (num v)) b = sent-Accounts _ _ b
parsed-Accounts text (some (negative v)) b = sent-Accounts _ _ b
parsed-Accounts text (some (float s m e)) b = sent-Accounts _ _ b
parsed-Accounts text (some (str v)) b = sent-Accounts _ _ b
parsed-Accounts text (some (arr v)) b = sent-Accounts _ _ b

limited-Accounts :
    (text : Text) (raw : String) (passes : Bool) (b : Bridge)
    → Accounts 1 b (limited text raw passes b)
limited-Accounts text raw true b = parsed-Accounts text (text.loads raw) b
limited-Accounts text raw false b = sent-Accounts _ _ b

frame-Accounts :
    (text : Text) (l : Limits) (max_frame_bytes now : ℕ) (raw : String) (b : Bridge)
    → Accounts 1 b (handle_worker_frame text l max_frame_bytes now raw b)
unfolding handle_worker_frame
frame-Accounts text l max_frame_bytes now raw b =
    let r = allow l now b.bucket in
    if_both (Accounts 1 b) (ltb max_frame_bytes (len raw)) (sent-Accounts _ _ b) (
      let a = limited-Accounts text raw r.1 (record b { bucket = r.0 }) in
      record { requests = a.requests; frames_handled = a.frames_handled })

length-set_result : (n : ℕ) (d : String) (xs : List Waiter) → length (set_result n d xs) ≡ length xs
unfolding set_result
length-set_result n d [] = refl
length-set_result n d (x ∷ xs) = ap suc (length-set_result n d xs)

answered-Accounts : (d : String) (b : Bridge) (o : Option ℕ) → Accounts 0 b (answered d b o)
answered-Accounts d b none = record { requests = refl; frames_handled = omega arith }
answered-Accounts d b (some n) =
    let e = length-set_result n d b.waiters in
    record { requests = omega arith; frames_handled = omega arith }

-- The task that is taken is one of those that wait.
Taken : List Waiter → Option (Waiter × List Waiter) → Type 0
Taken xs none = Unit
Taken xs (some p) = length xs ≡ suc (length p.1)

behind-Taken :
    (x : Waiter) (xs : List Waiter) (o : Option (Waiter × List Waiter))
    → Taken xs o
    → Taken (x ∷ xs) (behind x o)
unfolding Taken
behind-Taken x xs none t = tt
behind-Taken x xs (some p) t = ap suc t

take_waiter-Taken : (n : ℕ) (xs : List Waiter) → Taken xs (take_waiter n xs)
unfolding take_waiter
take_waiter-Taken n [] = unfold Taken in tt
take_waiter-Taken n (x ∷ xs) =
    let rest = behind-Taken x xs (take_waiter n xs) (take_waiter-Taken n xs) in
    if_both {A = Option (Waiter × List Waiter)} (Taken (x ∷ xs)) (x.number == n)
      (unfold Taken in refl) rest

relay-Accounts :
    (b : Bridge) (xs : List Waiter) (c : Bridge) (o : Option String)
    → length b.waiters ≡ suc (length xs)
    → Accounts 0 b c
    → Accounts 0 b (relay b xs c o)
unfolding send
relay-Accounts b xs c none t a = a
relay-Accounts b xs c (some payload) t a = record {
  requests = omega arith;
  frames_handled = omega arith;
}

woken-Accounts :
    (b : Bridge) (o : Option (Waiter × List Waiter)) → Taken b.waiters o → Accounts 0 b (woken b o)
unfolding Taken
woken-Accounts b none t = record { requests = refl; frames_handled = omega arith }
woken-Accounts b (some (x, xs)) t =
    relay-Accounts b xs b x.result t (record { requests = refl; frames_handled = omega arith })

expired-Accounts :
    (b : Bridge) (o : Option (Waiter × List Waiter))
    → Taken b.waiters o
    → Accounts 0 b (expired b o)
unfolding send Taken
expired-Accounts b none t = record { requests = refl; frames_handled = omega arith }
expired-Accounts b (some (x, xs)) t =
    let c : Bridge =
      send (timed_out x.original_id)
        (record b { waiters = xs; pending = drop_pending x.request_id b.pending }) in
    relay-Accounts b xs c x.result t
      (record { requests = omega arith; frames_handled = omega arith })

abbrev frames_of : Event → ℕ
frames_of e = if is_worker_frame e then 1 else 0

step-Accounts :
    (text : Text) (l : Limits) (max_frame_bytes : ℕ) (e : Event) (b : Bridge)
    → Accounts (frames_of e) b (step text l max_frame_bytes e b)
unfolding step
step-Accounts text l m (worker_frame now raw) b = frame-Accounts text l m now raw b
step-Accounts text l m (app_response k d) b =
    let a =
      answered-Accounts d (record b { pending = drop_pending k b.pending })
        (pending_at k b.pending) in
    unfold on_response in record { requests = a.requests; frames_handled = a.frames_handled }
step-Accounts text l m (server_frame d) b =
    unfold send in record { requests = refl; frames_handled = omega arith }
step-Accounts text l m (wake n) b =
    woken-Accounts b (take_waiter n b.waiters) (take_waiter-Taken n b.waiters)
step-Accounts text l m (time_out n) b =
    expired-Accounts b (take_waiter n b.waiters) (take_waiter-Taken n b.waiters)

run_events-Accounts :
    (text : Text) (l : Limits) (m : ℕ) (es : List Event) (b : Bridge)
    → Accounts (count is_worker_frame es) b (run_events text l m es b)
unfolding run_events
run_events-Accounts text l m [] b = record { requests = refl; frames_handled = omega arith }
run_events-Accounts text l m (e ∷ es) b =
    let a = step-Accounts text l m e b in
    let c = run_events-Accounts text l m es (step text l m e b) in
    let p = a.requests in
    let q = a.frames_handled in
    let r = c.requests in
    let s = c.frames_handled in
    record { requests = omega arith; frames_handled = ground (arith, q, s) }

-- After any events of a new bridge, the requests that were published are exactly as many as those
-- answered, by the app's response or by the time-out, together with those still waited for; and the
-- frames of the worker are exactly as many as those rejected with an error together with those published
-- to the app.
pub bridge_conserves :
    (text : Text) (l : Limits) (max_frame_bytes : ℕ) (es : List Event) (bucket : Bucket)
    → ((run_events text l max_frame_bytes es (new_bridge bucket)).started
        ≡ settled (run_events text l max_frame_bytes es (new_bridge bucket)))
      × (count is_worker_frame es
          ≡ handled (run_events text l max_frame_bytes es (new_bridge bucket)))
unfolding new_bridge
bridge_conserves text l m es bucket =
    let b : Bridge = new_bridge bucket in
    let a = run_events-Accounts text l m es b in
    let p = a.requests in let q = a.frames_handled in (omega arith, omega arith)
