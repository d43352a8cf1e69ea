-- ===== src/Gateway/Handshake.antt =====
-- gateway/remote_jobs_gateway/auth.py, with `ws_worker` of main.py: which handshakes are let through.
-- Redis, the app's answer to the HTTP request and pydantic's reading of an integer are parameters; a
-- moment is a number of seconds. The texts of errors are left out.
pub mod Once
use nautobot_app_remote_jobs.Shared.{
  ℕ, ◌+◌, ◌-◌, ◌*◌, ◌≤◌, String, Bool, true, false, ◌&&◌, not, ◌≡◌, refl, ap, ◌∙◌, Option, none,
  some, List, [], ◌∷◌, ◌==◌, leb, ltb, if◌then◌else◌, arith, str_eq, Bool-cases, inl, inr, if_both,
}
use Prim.Native.String.{count, ◌++◌ as append}
use nautobot_app_remote_jobs.Shared.Json.{
  Json, null, bool, num, str, arr, obj, Fields, end, field, truthy,
}
use nautobot_app_remote_jobs.Gateway.Frames.{get}

-- Handshake
pub record Handshake : Type 0 where
  pub worker_id : String
  pub timestamp : ℕ
  pub nonce : String
  pub signature : String

-- GatewaySettings, as far as handshakes go
pub record Settings : Type 0 where
  pub timestamp_skew_seconds : ℕ
  pub nonce_ttl_seconds : ℕ

-- SET key NX EX ttl at a moment: whether the key was claimed; an HTTP request to the app: the status and
-- the JSON of the answer, or none where there is none; pydantic's `int`.
pub record Peers {ℓ} (Store : Type ℓ) : Type ℓ where
  pub set_nx : ℕ → ℕ → String → Store → Bool × Store
  pub post : Handshake → Option (ℕ × Option Json)
  pub read_int : Json → Option ℕ

-- Field(min_length=..., max_length=...)
unfoldable pub text_field : ℕ → ℕ → Option Json → Option String
text_field low high (some (str s)) =
    if leb low (count s) && leb (count s) high then some s else none
text_field low high _ = none

abbrev int_field {ℓ} : {Store : Type ℓ} → Peers Store → Option Json → Option ℕ
int_field peers none = none
int_field peers (some v) = peers.read_int v

abbrev handshake_of : Option String → Option ℕ → Option String → Option String → Option Handshake
handshake_of (some w) (some t) (some n) (some g) =
    some (record { worker_id = w; timestamp = t; nonce = n; signature = g })
handshake_of none t n g = none
handshake_of (some w) none n g = none
handshake_of (some w) (some t) none g = none
handshake_of (some w) (some t) (some n) none = none

-- `parse_handshake`
unfoldable pub parse_handshake {ℓ} : {Store : Type ℓ} → Peers Store → Json → Option Handshake
unfolding text_field
parse_handshake peers (obj o) =
    handshake_of (text_field 1 255 (get "worker_id" o)) (int_field peers (get "timestamp" o))
      (text_field 8 255 (get "nonce" o)) (text_field 1 512 (get "signature" o))
parse_handshake peers _ = none

-- abs(current - handshake.timestamp)
abbrev distance : ℕ → ℕ → ℕ
distance a b = if leb a b then b - a else a - b

-- `check_timestamp`
unfoldable pub check_timestamp : Handshake → ℕ → ℕ → Bool
check_timestamp h skew_seconds now = not (ltb skew_seconds (distance now h.timestamp))

-- `nonce_key` of config.py
unfoldable pub nonce_key : String → String → String
nonce_key worker_id nonce =
    append "remote-jobs:gateway:nonce:" (append worker_id (append ":" nonce))

-- `check_nonce`
unfoldable pub check_nonce {ℓ} :
    {Store : Type ℓ} → Peers Store → ℕ → Handshake → ℕ → Store → Bool × Store
unfolding nonce_key
check_nonce peers now h ttl_seconds s =
    peers.set_nx now ttl_seconds (nonce_key h.worker_id h.nonce) s

-- The part of `ws_worker` before the app is asked.
unfoldable pub admit {ℓ} :
    {Store : Type ℓ} → Peers Store → Settings → ℕ → Handshake → Store → Bool × Store
unfolding check_timestamp check_nonce
admit peers settings now h s =
    if check_timestamp h settings.timestamp_skew_seconds now
    then check_nonce peers now h settings.nonce_ttl_seconds s
    else (false, s)

-- VerifiedSession
pub record VerifiedSession : Type 0 where
  pub worker_id : String
  pub zone_id : String

abbrev non_empty : Option Json → Option String
non_empty (some (str s)) = if str_eq s "" then none else some s
non_empty _ = none

abbrev session_of : Option String → Option String → Option VerifiedSession
session_of (some w) (some z) = some (record { worker_id = w; zone_id = z })
session_of none z = none
session_of (some w) none = none

abbrev is_true : Option Json → Bool
is_true none = false
is_true (some v) = truthy v

abbrev session_in : Option Json → Option VerifiedSession
session_in (some (obj body)) =
    if is_true (get "valid" body)
    then session_of (non_empty (get "worker_id" body)) (non_empty (get "zone_id" body))
    else none
session_in _ = none

abbrev session_from : Option (ℕ × Option Json) → Option VerifiedSession
session_from none = none
session_from (some (status, body)) = if status == 200 then session_in body else none

-- SessionVerifier.verify
unfoldable pub verify {ℓ} : {Store : Type ℓ} → Peers Store → Handshake → Option VerifiedSession
verify peers h = session_from (peers.post h)

abbrev admitted {ℓ} :
    {Store : Type ℓ}
    → Peers Store
    → Settings
    → ℕ
    → Store
    → Option Handshake
    → Option VerifiedSession × Store
admitted peers settings now s none = (none, s)
admitted peers settings now s (some h) =
    let r = admit peers settings now h s in (if r.0 then verify peers h else none, r.1)

-- The handshake of `ws_worker`, given the JSON of the first frame
unfoldable pub shake_hands {ℓ} :
    {Store : Type ℓ} → Peers Store → Settings → ℕ → Json → Store → Option VerifiedSession × Store
unfolding admit verify parse_handshake
shake_hands peers settings now payload s =
    admitted peers settings now s (parse_handshake peers payload)

-- The first frames that other connections send, each at its moment.
unfoldable pub shake_all {ℓ} :
    {Store : Type ℓ} → Peers Store → Settings → List (ℕ × Json) → Store → Store
unfolding shake_hands
shake_all peers settings [] s = s
shake_all peers settings (p ∷ ps) s =
    shake_all peers settings ps (shake_hands peers settings p.0 p.1 s).1
