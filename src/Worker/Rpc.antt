-- ===== src/Worker/Rpc.antt =====
-- worker/remote_worker/rpc.py: the frames that the worker builds and reads. `json.dumps` and `json.loads`
-- are parameters, as is `str` of a value that is no text; a fresh id is given by the caller.
use nautobot_app_remote_jobs.Shared.{
  String, Bool, false, not, ◌||◌, ◌≡◌, refl, Option, none, some, if◌then◌else◌, is_some, str_eq,
}
use nautobot_app_remote_jobs.Shared.Json.{Json, null, str, obj, Fields, end, field, truthy}

-- The codes, by their names; `other` is any other number.
pub data ErrorCode : Type 0 where
  parse_error invalid_request method_not_found invalid_params internal_error : ErrorCode
  unauthorized unknown_run illegal_transition lease_expired singleton_held draining : ErrorCode
  other : Json → ErrorCode

-- ERROR_MESSAGES.get(code, "error")
abbrev pub error_message : ErrorCode → String
error_message parse_error = "parse error"
error_message invalid_request = "invalid request"
error_message method_not_found = "method not found"
error_message invalid_params = "invalid params"
error_message internal_error = "internal error"
error_message unauthorized = "unauthorized"
error_message unknown_run = "unknown_run"
error_message illegal_transition = "illegal_transition"
error_message lease_expired = "lease_expired"
error_message singleton_held = "singleton_held"
error_message draining = "draining"
error_message (other v) = "error"

-- `dumps` and `loads` of the module `json` between values and texts, `str`, and the numbers of the codes.
pub record Codec (T : Type 0) : Type 0 where
  pub dumps : Json → T
  pub loads : T → Option Json
  pub shown : Json → String
  pub number : ErrorCode → Json

-- RpcError
pub record RpcError : Type 0 where
  pub code : ErrorCode
  pub message : String
  pub data_member : Option Json

-- RpcError.__init__: an absent or empty message is the code's.
unfoldable pub rpc_error : ErrorCode → Option String → Option Json → RpcError
rpc_error code none d = record { code = code; message = error_message code; data_member = d }
rpc_error code (some m) d = record {
  code = code;
  message = if str_eq m "" then error_message code else m;
  data_member = d;
}

-- The data, where it is not None.
abbrev pub data_field : Option Json → Fields
data_field none = end
data_field (some null) = end
data_field (some d) = field "data" d end

-- RpcError.to_error_object
unfoldable pub to_error_object : {T : Type 0} → Codec T → RpcError → Fields
to_error_object codec e =
    field "code" (codec.number e.code) (field "message" (str e.message) (data_field e.data_member))

-- RpcRequest and RpcResponse, and the refusals of `decode` by their codes.
pub data Decoded : Type 0 where
  rpc_request : String → Fields → Option String → Decoded
  rpc_response : Option String → Option Json → Option Fields → Decoded
  refused : ErrorCode → Decoded

-- `request_frame`
unfoldable pub request_frame : String → Fields → String → Fields
request_frame method params id =
    field "jsonrpc" (str "2.0")
      (field "id" (str id) (field "method" (str method) (field "params" (obj params) end)))

-- `notification_frame`
unfoldable pub notification_frame : String → Fields → Fields
notification_frame method params =
    field "jsonrpc" (str "2.0") (field "method" (str method) (field "params" (obj params) end))

-- `result_frame`
unfoldable pub result_frame : String → Json → Fields
result_frame id result =
    field "jsonrpc" (str "2.0") (field "id" (str id) (field "result" result end))

abbrev optional_text : Option String → Json
optional_text none = null
optional_text (some s) = str s

-- `error_frame`
unfoldable pub error_frame :
    {T : Type 0} → Codec T → Option String → ErrorCode → Option String → Option Json → Fields
unfolding rpc_error to_error_object
error_frame codec id code message d = field "jsonrpc" (str "2.0") (
    field "id" (optional_text id)
      (field "error" (obj (to_error_object codec (rpc_error code message d))) end))

-- `encode`
unfoldable pub encode : {T : Type 0} → Codec T → Fields → T
encode codec frame = codec.dumps (obj frame)

-- obj.get(key); a later member of a name overrides.
abbrev get : String → Fields → Option Json
get k end = none
get k (field j v fs) =
    let rest = get k fs in if is_some rest then rest else if str_eq j k then some v else none

abbrev is_version : Option Json → Bool
is_version (some (str s)) = str_eq s "2.0"
is_version _ = false

-- `str(value) if value is not None else None`
abbrev id_text : {T : Type 0} → Codec T → Option Json → Option String
id_text codec none = none
id_text codec (some null) = none
id_text codec (some (str s)) = some s
id_text codec (some v) = some (codec.shown v)

-- obj.get("params") or {}
abbrev params_of : Option Json → Option Fields
params_of none = some end
params_of (some (obj fs)) = some fs
params_of (some v) = if truthy v then none else some end

abbrev decode_call : {T : Type 0} → Codec T → Option Json → Option Json → Option Fields → Decoded
decode_call codec id (some (str method)) (some params) =
    rpc_request method params (id_text codec id)
decode_call codec id _ _ = refused invalid_request

-- The member "error": `None`, an object, or anything else.
abbrev decode_result : {T : Type 0} → Codec T → Option Json → Option Json → Option Json → Decoded
decode_result codec id r none = rpc_response (id_text codec id) r none
decode_result codec id r (some null) = rpc_response (id_text codec id) r none
decode_result codec id r (some (obj fs)) = rpc_response (id_text codec id) r (some fs)
decode_result codec id r (some _) = refused invalid_request

unfoldable pub decode_object : {T : Type 0} → Codec T → Fields → Decoded
decode_object codec o =
    if not (is_version (get "jsonrpc" o))
    then refused invalid_request
    else if is_some (get "method" o)
    then decode_call codec (get "id" o) (get "method" o) (params_of (get "params" o))
    else if is_some (get "result" o) || is_some (get "error" o)
    then decode_result codec (get "id" o) (get "result" o) (get "error" o)
    else refused invalid_request

abbrev decode_value : {T : Type 0} → Codec T → Option Json → Decoded
decode_value codec none = refused parse_error
decode_value codec (some (obj fs)) = decode_object codec fs
decode_value codec (some _) = refused invalid_request

-- `decode`
unfoldable pub decode : {T : Type 0} → Codec T → T → Decoded
unfolding decode_object
decode codec text = decode_value codec (codec.loads text)

-- What a decoded request expects: RpcRequest.is_notification.
unfoldable pub is_notification : Option String → Bool
is_notification id = not (is_some id)

-- `raise_for_error`: the result of a response, or its error.
pub data Answer : Type 0 where
  answer_result : Option Json → Answer
  answer_error : Fields → Answer

unfoldable pub raise_for_error : Option Json → Option Fields → Answer
raise_for_error r none = answer_result r
raise_for_error r (some e) = answer_error e

-- `json.loads` reads what `json.dumps` writes.
abbrev pub ReadsBack : {T : Type 0} → Codec T → Type 0
ReadsBack codec = (v : Json) → codec.loads (codec.dumps v) ≡ some v

decode-error_frame :
    {T : Type 0} (codec : Codec T) (i : Option String) (c : ErrorCode) (m : Option String)
    (d : Option Json)
    → ReadsBack codec
    → decode codec (encode codec (error_frame codec i c m d))
      ≡ rpc_response i none (some (to_error_object codec (rpc_error c m d)))
unfolding decode encode error_frame
decode-error_frame codec none c m d h = rw (h (obj (error_frame codec none c m d))) refl
decode-error_frame codec (some i) c m d h = rw (h (obj (error_frame codec (some i) c m d))) refl

-- Frames that are encoded and decoded again: a request comes back with its method, parameters and id, a
-- notification with none, a result and an error with their id; this needs `json.loads` to read what
-- `json.dumps` writes.
pub decode-encode :
    {T : Type 0} (codec : Codec T)
    → ReadsBack codec
    → ((m : String) (p : Fields) (i : String)
        → decode codec (encode codec (request_frame m p i)) ≡ rpc_request m p (some i))
      × ((m : String) (p : Fields)
          → decode codec (encode codec (notification_frame m p)) ≡ rpc_request m p none)
      × ((i : String) (v : Json)
          → decode codec (encode codec (result_frame i v)) ≡ rpc_response (some i) (some v) none)
      × ((i : Option String) (c : ErrorCode) (m : Option String) (d : Option Json)
          → decode codec (encode codec (error_frame codec i c m d))
            ≡ rpc_response i none (some (to_error_object codec (rpc_error c m d))))
unfolding decode encode request_frame notification_frame result_frame
decode-encode codec h = (
  λ m p i. rw (h (obj (request_frame m p i))) refl,
  λ m p. rw (h (obj (notification_frame m p))) refl,
  λ i v. rw (h (obj (result_frame i v))) refl,
  λ i c m d. decode-error_frame codec i c m d h,
)
