-- ===== src/Gateway/Frames.antt =====
-- gateway/remote_jobs_gateway/rpc.py: the validation and the routing class of a JSON-RPC frame. A
-- frame is a JSON object.
use nautobot_app_remote_jobs.Shared.{
  Bool, true, false, ◌≡◌, ◌↔◌, ◌⊎◌, ◌&&◌, not, Option, none, some, arith, if◌then◌else◌, is_some,
  str_eq, String,
}
use nautobot_app_remote_jobs.Shared.Json.{
  Json, null, bool, num, negative, str, arr, obj, Fields, end, field,
}

pub data FrameType : Type 0 where
  request notification response : FrameType

-- FrameError of `classify_frame`, with the `id` to answer; its code is always INVALID_REQUEST.
pub data Classified : Type 0 where
  ok : FrameType → Classified
  frame_error : Option Json → Classified

-- frame.get(key), which is `none` where the key is absent; a later member of a name overrides.
unfoldable pub get : String → Fields → Option Json
get k end = none
get k (field j v fs) =
    let rest = get k fs in if is_some rest then rest else if str_eq j k then some v else none

-- isinstance(value, (str, int)); Python's booleans are integers
abbrev pub is_id : Json → Bool
is_id (str s) = true
is_id (num n) = true
is_id (negative n) = true
is_id (bool b) = true
is_id _ = false

abbrev pub is_null : Option Json → Bool
is_null none = true
is_null (some null) = true
is_null (some _) = false

-- `_safe_id`
safe_id : Option Json → Option Json
safe_id none = none
safe_id (some v) = if is_id v then some v else none

-- isinstance(method, str) and method
abbrev pub is_name : Option Json → Bool
is_name (some (str s)) = not (str_eq s "")
is_name _ = false

-- "params" absent, or an object or array
abbrev pub is_params : Option Json → Bool
is_params none = true
is_params (some (obj fs)) = true
is_params (some (arr xs)) = true
is_params (some _) = false

abbrev pub is_object : Option Json → Bool
is_object (some (obj fs)) = true
is_object _ = false

abbrev pub is_version : Option Json → Bool
is_version (some (str s)) = str_eq s "2.0"
is_version _ = false

-- "id" absent, null, a string or an integer
abbrev pub is_legal_id : Option Json → Bool
is_legal_id none = true
is_legal_id (some null) = true
is_legal_id (some v) = is_id v

-- The members that `classify_frame` reads.
pub record Members : Type 0 where
  pub jsonrpc : Option Json
  pub id : Option Json
  pub method : Option Json
  pub params : Option Json
  pub result : Option Json
  pub error : Option Json

unfoldable pub members : Fields → Members
unfolding get
members frame = record {
  jsonrpc = get "jsonrpc" frame;
  id = get "id" frame;
  method = get "method" frame;
  params = get "params" frame;
  result = get "result" frame;
  error = get "error" frame;
}

-- A frame with a `method`.
classify_call : Members → Classified
classify_call m =
    if not (is_name m.method)
    then frame_error (safe_id m.id)
    else if not (is_params m.params)
    then frame_error (safe_id m.id)
    else if is_null m.id
    then ok notification
    else ok request

same : Bool → Bool → Bool
same true b = b
same false b = not b

-- A frame with no `method`.
classify_response : Members → Classified
unfolding same
classify_response m =
    if same (is_some m.result) (is_some m.error)
    then frame_error (safe_id m.id)
    else if not (is_some m.id)
    then frame_error none
    else if is_some m.error && not (is_object m.error)
    then frame_error (safe_id m.id)
    else ok response

classify : Members → Classified
unfolding classify_call classify_response safe_id
classify m =
    if not (is_version m.jsonrpc)
    then frame_error (safe_id m.id)
    else if not (is_legal_id m.id)
    then frame_error none
    else if is_some m.method
    then classify_call m
    else classify_response m

-- `classify_frame`
unfoldable pub classify_frame : Fields → Classified
unfolding classify members
classify_frame frame = classify (members frame)

-- The ids that the docstring of `classify_frame` names: texts and integers.
abbrev pub is_documented_id : Json → Bool
is_documented_id (str s) = true
is_documented_id (num n) = true
is_documented_id (negative n) = true
is_documented_id _ = false

-- The ids that are accepted besides: Python's truth values are integers.
abbrev pub is_truth_value : Json → Bool
is_truth_value (bool b) = true
is_truth_value _ = false

abbrev pub IsId : Json → Type 0
IsId j = (is_documented_id j ≡ true) ⊎ (is_truth_value j ≡ true)

-- The rules of the docstring, for these ids.
pub record IsCall (m : Members) : Type 0 where
  pub version : is_version m.jsonrpc ≡ true
  pub named : is_name m.method ≡ true
  pub structured : is_params m.params ≡ true

abbrev pub IsRequest : Members → Type 0
IsRequest m = IsCall m × ((j : Json) × (m.id ≡ some j) × IsId j)

abbrev pub IsNotification : Members → Type 0
IsNotification m = IsCall m × (is_null m.id ≡ true)

pub record IsResponse (m : Members) : Type 0 where
  pub version : is_version m.jsonrpc ≡ true
  pub no_method : m.method ≡ none
  pub has_id : (j : Json) × (m.id ≡ some j) × ((j ≡ null) ⊎ IsId j)
  pub one_of :
      ((is_some m.result ≡ true) × (is_some m.error ≡ false))
      ⊎ ((is_some m.result ≡ false) × (is_object m.error ≡ true))

classify-request : (m : Members) → (classify m ≡ ok request) ↔ IsRequest m
unfolding classify
classify-request m = (λ h. ground arith, λ h. ground arith)

classify-notification : (m : Members) → (classify m ≡ ok notification) ↔ IsNotification m
unfolding classify
classify-notification m = (λ h. ground arith, λ h. ground arith)

response_sound : (m : Members) → classify m ≡ ok response → IsResponse m
unfolding classify
response_sound m h = ground arith

response_complete : (m : Members) → IsResponse m → classify m ≡ ok response
unfolding classify
response_complete m h = ground (arith, h.one_of)

-- A frame is routed as a request exactly when it has version 2.0, a method that is a non-empty text,
-- parameters that are an object or an array if there are any, and an `id` that is a text or an integer,
-- as documented, or a truth value; as a notification exactly when the same holds but the `id` is absent or
-- null; and as a response exactly when it has version 2.0, no method, an `id` that is null or one of these,
-- and either a
-- result and no error, or an error that is an object and no result.
pub classify_frame_iff :
    (frame : Fields)
    → ((classify_frame frame ≡ ok request) ↔ IsRequest (members frame))
      × ((classify_frame frame ≡ ok notification) ↔ IsNotification (members frame))
      × ((classify_frame frame ≡ ok response) ↔ IsResponse (members frame))
unfolding classify_frame
classify_frame_iff frame = (
  classify-request (members frame),
  classify-notification (members frame),
  (response_sound (members frame), response_complete (members frame)),
)
