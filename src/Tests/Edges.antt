-- ===== src/Tests/Edges.antt =====
-- The theorems on the gateway's connections and on the worker's frames and journal.
use nautobot_app_remote_jobs.Shared.{
  ℕ, ◌+◌, ◌≤◌, String, Bool, true, false, ◌≡◌, inl, inr, refl, none, some, Option, List, [], ◌∷◌,
  ◌&&◌, arith, leb, str_eq, if◌then◌else◌, Bool-cases, eq_iff,
}
use Prim.Native.Char.{Char}
use nautobot_app_remote_jobs.Shared.Json.{Json, str, num, obj, Fields, end, field}
use nautobot_app_remote_jobs.Shared.Lists.{count, any}
use nautobot_app_remote_jobs.Gateway.Handshake.{Handshake, Settings, Peers, admit, shake_all}
use nautobot_app_remote_jobs.Gateway.Handshake.Once.{Expires, handshake_once}
use nautobot_app_remote_jobs.Gateway.RateLimiter.{Limits, Bucket}
use nautobot_app_remote_jobs.Gateway.Bridge.{
  Text, Event, worker_frame, app_response, wake, time_out, run_events, new_bridge,
}
use nautobot_app_remote_jobs.Gateway.Bridge.Conservation.{
  is_worker_frame, settled, handled, bridge_conserves,
}
use nautobot_app_remote_jobs.Worker.Rpc.{
  Codec, ErrorCode, rpc_request, rpc_response, rpc_error, to_error_object, request_frame,
  notification_frame, result_frame, error_frame, encode, decode, decode-encode,
}
use nautobot_app_remote_jobs.Worker.Paths.{path_of}
use nautobot_app_remote_jobs.Worker.Journal.{Offer, JournalEntry, get, add, remove}
use nautobot_app_remote_jobs.Worker.Journal.Kept.{journal_refines_map}
use nautobot_app_remote_jobs.Worker.Agent.{
  Agent, holds, recover_journaled_runs, journal_offer, restarted,
}
use nautobot_app_remote_jobs.Worker.Agent.Recovery.{journaled_run_recovered}
use nautobot_app_remote_jobs.Worker.Reports.{connection_closed, acked}
use nautobot_app_remote_jobs.Worker.RunTask.{
  finished, Happening, begun, container_created, launched, status_answered, cancel_asked, waited,
  exited, completed_with, live, new_task, happen, kill_container, settled as settled_as,
  status_round, finalize, cancel, cleanup_task,
}
use nautobot_app_remote_jobs.Worker.RunTask.Life.{live-IsOrderly}
use nautobot_app_remote_jobs.Worker.RunTask.Orderly.{IsOrderly}

-- A wire that carries the values themselves.
abbrev codec : Codec Json
codec = record { dumps = λ v. v; loads = λ v. some v; shown = λ _. ""; number = λ _. num 1 }

decode-encode_example :
    ((m : String) (p : Fields) (i : String)
      → decode codec (encode codec (request_frame m p i)) ≡ rpc_request m p (some i))
    × ((m : String) (p : Fields)
        → decode codec (encode codec (notification_frame m p)) ≡ rpc_request m p none)
    × ((i : String) (v : Json)
        → decode codec (encode codec (result_frame i v)) ≡ rpc_response (some i) (some v) none)
    × ((i : Option String) (c : ErrorCode) (m : Option String) (d : Option Json)
        → decode codec (encode codec (error_frame codec i c m d))
          ≡ rpc_response i none (some (to_error_object codec (rpc_error c m d))))
decode-encode_example = decode-encode codec (λ v. refl)

-- Redis as a list of the keys with the last second they are held.
abbrev is_held : ℕ → String → List (String × ℕ) → Bool
is_held now k s = any (λ p. str_eq p.0 k && leb now p.1) s

abbrev peers : Peers (List (String × ℕ))
peers = record {
  set_nx = λ now ttl k s. if is_held now k s then (false, s) else (true, (k, now + ttl) ∷ s);
  post = λ _. none;
  read_int = λ v. elim v [ num n ↦ some n | _ ↦ none ];
}

held_before :
    (t u : ℕ) (k : String) (s : List (String × ℕ))
    → is_held u k s ≡ true
    → t ≤ u
    → is_held t k s ≡ true
held_before t u k [] h e = h
held_before t u k (p ∷ s) h e = elim (Bool-cases (str_eq p.0 k && leb u p.1)) [
  | inl a ↦ ground (arith, a, e)
  | inr a ↦ let rest = held_before t u k s (ground (arith, h, a)) e in ground (arith, rest)
]

str_eq_refl : (s : String) → str_eq s s ≡ true
str_eq_refl s = (eq_iff s s).1 refl

redis : Expires peers
redis = record {
  Held = λ s k u. is_held u k s ≡ true;
  claimed = λ t ttl k s e. elim (Bool-cases (is_held t k s)) [
    | inl h ↦ absurd (ground (arith, e, h))
    | inr h ↦ let q = str_eq_refl k in rw h (ground (arith, q))
  ];
  kept = λ t ttl j k u s held. elim (Bool-cases (is_held t j s)) [
    | inl h ↦ rw h held
    | inr h ↦ rw h (ground (arith, held))
  ];
  refused = λ t ttl k u s held e. let h = held_before t u k s held e in rw h refl;
}

abbrev handshake : Handshake
handshake = record { worker_id = "w"; timestamp = 1000; nonce = "12345678"; signature = "s" }

abbrev settings : Settings
settings = record { timestamp_skew_seconds = 300; nonce_ttl_seconds = 600 }

let_through : (admit peers settings 900 handshake []).0 ≡ true
unfolding admit
let_through = refl

handshake_once_example :
    (admit peers settings 1300 handshake
      (shake_all peers settings ((950, str "x") ∷ []) (admit peers settings 900 handshake []).1)).0
    ≡ false
handshake_once_example =
    handshake_once peers redis settings 900 1300 handshake ((950, str "x") ∷ []) [] (omega arith)
      let_through

abbrev call : Fields
call = field "jsonrpc" (str "2.0") (field "id" (str "7") (field "method" (str "job.claim") end))

abbrev text : Text
text = record { loads = λ _. some (obj call); shown = λ _. "" }

abbrev limits : Limits
limits = record { rate = 10; burst = 20; unit = 1 }

abbrev bucket : Bucket
bucket = record { tokens = 20; updated = 0 }

abbrev events : List Event
events =
    worker_frame 1 "a" ∷ app_response "7" "done" ∷ wake 0 ∷ worker_frame 2 "b" ∷ time_out 1 ∷ []

bridge_conserves_example :
    ((run_events text limits 1000 events (new_bridge bucket)).started
      ≡ settled (run_events text limits 1000 events (new_bridge bucket)))
    × (count is_worker_frame events
        ≡ handled (run_events text limits 1000 events (new_bridge bucket)))
bridge_conserves_example = bridge_conserves text limits 1000 events bucket

abbrev offer : Offer
offer = record { run_id = "r1"; members = end }

abbrev is_alnum : Char → Bool
is_alnum c = true

journal_refines_map_example :
    (get is_alnum "r1" (add is_alnum offer 50 []).0 ≡ some (add is_alnum offer 50 []).1)
    × ((e : JournalEntry) → get is_alnum "r1" [] ≡ some e → add is_alnum offer 50 [] ≡ ([], e))
    × (get is_alnum "r2" (remove is_alnum "r2" []) ≡ none)
    × (str_eq (path_of is_alnum "r1") (path_of is_alnum "r2") ≡ false
        → (get is_alnum "r2" (add is_alnum offer 50 []).0 ≡ get is_alnum "r2" [])
          × (get is_alnum "r2" (remove is_alnum "r1" []) ≡ get is_alnum "r2" []))
journal_refines_map_example = journal_refines_map is_alnum offer 50 "r2" []

abbrev entry : JournalEntry
entry = record { run_id = "r2"; offer = record { run_id = "r2"; members = end }; started_at = 40 }

abbrev agent : Agent
agent = record {
  capacity = 2;
  active = "r2" ∷ [];
  journal = record { path = "r2.json"; content = some entry } ∷ [];
  draining = false;
  closing = false;
  connected = true;
  claim_wanted = false;
}

journaled_run_recovered_example :
    (get is_alnum "r2" agent.journal ≡ some entry
      → holds "r2" (recover_journaled_runs (restarted agent)).active ≡ true)
    × (holds
          (add is_alnum offer 50 agent.journal).1.run_id
          (recover_journaled_runs (restarted (journal_offer is_alnum 50 offer agent))).active
        ≡ true)
journaled_run_recovered_example = journaled_run_recovered is_alnum agent "r2" entry 50 offer

-- A run that is started, asked to cancel while it runs, and reported on the second call.
abbrev happenings : List Happening
happenings =
    begun
    ∷ container_created
    ∷ launched none
    ∷ status_answered cancel_asked true
    ∷ waited (exited 137) ""
    ∷ completed_with (connection_closed ∷ acked ∷ [])
    ∷ []

live-IsOrderly_example : IsOrderly (live happenings (new_task false))
live-IsOrderly_example = live-IsOrderly false happenings

happenings_end : (live happenings (new_task false)).phase ≡ finished
unfolding live happen new_task kill_container settled_as status_round finalize cancel cleanup_task
happenings_end = refl
