-- ===== src/Gateway/Bridge.antt =====
-- gateway/remote_jobs_gateway/bridge.py: WorkerBridge, which routes the frames of one worker. The event
-- loop is a sequence of events; `json.loads` and `str` of an id that is no text are parameters. Metrics and
-- the closing of the bridge are left out.
pub mod Conservation
use nautobot_app_remote_jobs.Shared.{
  ℕ, suc, String, Bool, true, false, not, Option, none, some, List, [], ◌∷◌, ◌++◌, ◌==◌, ltb,
  if◌then◌else◌, str_eq, is_some,
}
use Prim.Native.String.{len}
use nautobot_app_remote_jobs.Shared.Json.{Json, null, bool, num, str, arr, obj, Fields}
use nautobot_app_remote_jobs.Gateway.Frames.{
  FrameType, request, notification, response, Classified, ok, frame_error, get, is_id,
  classify_frame,
}
use nautobot_app_remote_jobs.Gateway.RateLimiter.{Limits, Bucket, allow}

pub record Text : Type 0 where
  pub loads : String → Option Json
  pub shown : Json → String

-- The codes of the gateway's own errors.
pub data GatewayError : Type 0 where
  frame_too_large rate_limited parse_error invalid_request upstream_timeout : GatewayError

-- What is sent to the worker: an error about its frame, the answer to a request or the error of its
-- time-out, and a frame of the server.
pub data Sent : Type 0 where
  rejected : Option Json → GatewayError → Sent
  relayed : String → Sent
  timed_out : Json → Sent
  forwarded : String → Sent

-- A task of `_await_response` with its future: the result, once it is set.
pub record Waiter : Type 0 where
  pub number : ℕ
  pub original_id : Json
  pub request_id : String
  pub result : Option String

-- `pending` refers to waiters by their numbers; what was sent and published is newest first.
pub record Bridge : Type 0 where
  pub bucket : Bucket
  pub pending : List (String × ℕ)
  pub waiters : List Waiter
  pub started : ℕ
  pub published : List Fields
  pub sent : List Sent

unfoldable pub send : Sent → Bridge → Bridge
send s b = record b { sent = s ∷ b.sent }

unfoldable pub publish : Fields → Bridge → Bridge
publish frame b = record b { published = frame ∷ b.published }

-- self._pending[request_id] = future
unfoldable pub put_pending : String → ℕ → List (String × ℕ) → List (String × ℕ)
put_pending k n [] = (k, n) ∷ []
put_pending k n (p ∷ ps) = if str_eq p.0 k then (k, n) ∷ ps else p ∷ put_pending k n ps

-- self._pending.pop(request_id, None)
unfoldable pub pending_at : String → List (String × ℕ) → Option ℕ
pending_at k [] = none
pending_at k (p ∷ ps) = let rest = pending_at k ps in if str_eq p.0 k then some p.1 else rest

unfoldable pub drop_pending : String → List (String × ℕ) → List (String × ℕ)
drop_pending k [] = []
drop_pending k (p ∷ ps) = let rest = drop_pending k ps in if str_eq p.0 k then rest else p ∷ rest

-- str(frame["id"])
abbrev id_text : Text → Json → String
id_text text (str s) = s
id_text text v = text.shown v

-- `_publish_request`
unfoldable pub publish_request : Text → Json → Fields → Bridge → Bridge
unfolding publish put_pending
publish_request text id frame b =
    let k = id_text text id in
    let c = publish frame b in
    record c {
      pending = put_pending k b.started b.pending;
      waiters =
          record { number = b.started; original_id = id; request_id = k; result = none }
          ∷ b.waiters;
      started = suc b.started;
    }

-- `_extract_id`
abbrev id_in : Option Json → Option Json
id_in none = none
id_in (some v) = if is_id v then some v else none

abbrev extract_id : Option Json → Option Json
extract_id (some (obj o)) = id_in (get "id" o)
extract_id _ = none

abbrev pub publish_with : Text → Fields → Bridge → Option Json → Bridge
publish_with text frame b none = publish frame b
publish_with text frame b (some id) = publish_request text id frame b

abbrev pub routed : Text → Fields → Classified → Bridge → Bridge
routed text frame (frame_error id) b = send (rejected id invalid_request) b
routed text frame (ok request) b = publish_with text frame b (get "id" frame)
routed text frame (ok notification) b = publish frame b
routed text frame (ok response) b = publish frame b

-- The frame once it is parsed.
abbrev pub parsed : Text → Option Json → Bridge → Bridge
parsed text none b = send (rejected none parse_error) b
parsed text (some (obj frame)) b = routed text frame (classify_frame frame) b
parsed text (some _) b = send (rejected none invalid_request) b

-- The rate limiter's decision on the frame.
abbrev pub limited : Text → String → Bool → Bridge → Bridge
limited text raw true b = parsed text (text.loads raw) b
limited text raw false b = send (rejected (extract_id (text.loads raw)) rate_limited) b

-- `handle_worker_frame`
unfoldable pub handle_worker_frame : Text → Limits → ℕ → ℕ → String → Bridge → Bridge
unfolding send publish_request
handle_worker_frame text l max_frame_bytes now raw b =
    if ltb max_frame_bytes (len raw)
    then send (rejected none frame_too_large) b
    else let r = allow l now b.bucket in limited text raw r.1 (record b { bucket = r.0 })

-- future.set_result(data), if it is not done
unfoldable pub set_result : ℕ → String → List Waiter → List Waiter
set_result n data_text [] = []
set_result n data_text (x ∷ xs) =
    (if x.number == n
      then (if is_some x.result then x else record x { result = some data_text })
      else x)
    ∷ set_result n data_text xs

-- A message on the response channel of a request: `_redis_reader`.
abbrev pub answered : String → Bridge → Option ℕ → Bridge
answered data_text b none = b
answered data_text b (some n) = record b { waiters = set_result n data_text b.waiters }

unfoldable pub on_response : String → String → Bridge → Bridge
unfolding pending_at drop_pending set_result
on_response request_id data_text b =
    answered data_text (record b { pending = drop_pending request_id b.pending })
      (pending_at request_id b.pending)

abbrev pub behind : Waiter → Option (Waiter × List Waiter) → Option (Waiter × List Waiter)
behind x none = none
behind x (some (y, ys)) = some (y, x ∷ ys)

-- The task with the number, and the others.
unfoldable pub take_waiter : ℕ → List Waiter → Option (Waiter × List Waiter)
take_waiter n [] = none
take_waiter n (x ∷ xs) =
    let rest = take_waiter n xs in if x.number == n then some (x, xs) else behind x rest

abbrev pub relay : Bridge → List Waiter → Bridge → Option String → Bridge
relay b xs c none = c
relay b xs c (some payload) = send (relayed payload) (record b { waiters = xs })

-- The task goes on with its result.
abbrev pub woken : Bridge → Option (Waiter × List Waiter) → Bridge
woken b none = b
woken b (some (x, xs)) = relay b xs b x.result

-- `wait_for` gives the result if there is one, and else the time-out.
abbrev pub expired : Bridge → Option (Waiter × List Waiter) → Bridge
expired b none = b
expired b (some (x, xs)) =
    let c =
      send (timed_out x.original_id)
        (record b { waiters = xs; pending = drop_pending x.request_id b.pending }) in
    relay b xs c x.result

pub data Event : Type 0 where
  worker_frame : ℕ → String → Event
  app_response : String → String → Event
  server_frame : String → Event
  wake time_out : ℕ → Event

-- One event of the loop: `_ws_reader`, `_redis_reader` and the tasks of `_await_response`.
unfoldable pub step : Text → Limits → ℕ → Event → Bridge → Bridge
unfolding handle_worker_frame on_response take_waiter send
step text l max_frame_bytes (worker_frame now raw) b =
    handle_worker_frame text l max_frame_bytes now raw b
step text l max_frame_bytes (app_response request_id data_text) b =
    on_response request_id data_text b
step text l max_frame_bytes (server_frame data_text) b = send (forwarded data_text) b
step text l max_frame_bytes (wake n) b = woken b (take_waiter n b.waiters)
step text l max_frame_bytes (time_out n) b = expired b (take_waiter n b.waiters)

unfoldable pub run_events : Text → Limits → ℕ → List Event → Bridge → Bridge
unfolding step
run_events text l max_frame_bytes [] b = b
run_events text l max_frame_bytes (e ∷ es) b =
    run_events text l max_frame_bytes es (step text l max_frame_bytes e b)

-- WorkerBridge.__init__
unfoldable pub new_bridge : Bucket → Bridge
new_bridge bucket = record {
  bucket = bucket;
  pending = [];
  waiters = [];
  started = 0;
  published = [];
  sent = [];
}
