-- ===== src/App/Rpc/Answers.antt =====
-- What `dispatch_rpc` of rpc/handlers.py answers, and what a call that fails leaves.
use nautobot_app_remote_jobs.Shared.{
  ℕ, Bool, true, false, ap, ◌≡◌, ◌≢◌, ◌⊎◌, inl, inr, refl, Option, none, some, ◌&&◌, subst, arith,
  Bool-cases, sym, ◌↔◌, false≢true,
}
use nautobot_app_remote_jobs.Shared.Json.{
  Json, Fields, null, bool, num, negative, float, str, arr, obj,
}
use nautobot_app_remote_jobs.App.Records.{Worker, World, Env}
use nautobot_app_remote_jobs.App.Store.{find_worker}
use nautobot_app_remote_jobs.App.Rpc.Params.{Wire, get}
use nautobot_app_remote_jobs.App.Rpc.Handlers.{
  Code, internal_error, Handled, returned, rpc_error, crashed,
}
use nautobot_app_remote_jobs.App.Rpc.Dispatch.{
  Method, method_named, handle, Body, result, error, Response, request_id, respond, Answer,
  answered, raised_out, answer_of, body_of, params_of, called, called_by, called_method, is_version,
  dispatch_named, dispatch_body, dispatch_rpc,
}
use nautobot_app_remote_jobs.App.Rpc.Failures.{Failed, Stopped, Ended, handle-Ended}

-- What an error leaves: every run as it was, and unless the code is INTERNAL_ERROR everything; or the
-- claims that an exception ended.
abbrev pub IsUndone : Env → Option Worker → Code → World → World → Type 0
IsUndone env o c w v =
    ((v.runs ≡ w.runs) × (c ≢ internal_error → v ≡ w)) ⊎ ((c ≡ internal_error) × Stopped env o w v)

abbrev Leaves : Env → Option Worker → World → World × Option Body → Type 0
Leaves env o w (v, none) = v ≡ w
Leaves env o w (v, some (result r)) = Unit
Leaves env o w (v, some (error c)) = IsUndone env o c w v

Failed-Leaves :
    (env : Env) (o : Option Worker) (w v : World) (h : Handled)
    → Failed w (v, h)
    → Leaves env o w (v, some (body_of h))
Failed-Leaves env o w v (returned r) f = tt
Failed-Leaves env o w v (rpc_error c) f = inl (ap (λ u. u.runs) f.0, λ _. f.0)
Failed-Leaves env o w v crashed f = inl (f, λ ne. absurd (ne refl))

Ended-Leaves :
    (env : Env) (x : Worker) (w v : World) (h : Handled)
    → Ended env x w (v, h)
    → Leaves env (some x) w (v, some (body_of h))
Ended-Leaves env x w v h (inl f) = Failed-Leaves env (some x) w v h f
Ended-Leaves env x w v (returned r) (inr q) = tt
Ended-Leaves env x w v (rpc_error c) (inr q) = ground (arith, q.0)
Ended-Leaves env x w v crashed (inr q) = inr (refl, q.1)

called-Leaves :
    (env : Env) (wire : Wire) (m : Method) (w : World) (x : Worker) (o : Option Fields)
    → let s = called env wire m w x o in Leaves env (some x) w (s.0, some s.1)
called-Leaves env wire m w x none = inl (refl, λ _. refl)
called-Leaves env wire m w x (some params) =
    let s : World × Handled = handle m env wire x params w in
    Ended-Leaves env x w s.0 s.1 (handle-Ended m env wire x params w)

called_by-Leaves :
    (env : Env) (wire : Wire) (frame : Fields) (m : Method) (w : World) (o : Option Worker)
    → let s = called_by env wire frame m w o in Leaves env o w (s.0, some s.1)
called_by-Leaves env wire frame m w none = inl (refl, λ _. refl)
called_by-Leaves env wire frame m w (some x) =
    called-Leaves env wire m w x (params_of (get "params" frame))

-- Worker.objects.get, for a key that is a UUID
abbrev pub worker_of : Option ℕ → World → Option Worker
worker_of none w = none
worker_of (some k) w = find_worker k w.workers

abbrev is_method : Option Method → Bool
is_method none = false
is_method (some m) = true

-- A method of METHODS is named.
abbrev names_method : Option Json → Bool
names_method (some (str name)) = is_method (method_named name)
names_method _ = false

abbrev pub is_call : Fields → Bool
is_call frame = is_version (get "jsonrpc" frame) && names_method (get "method" frame)

abbrev is_unkeyed : Option ℕ → Bool
is_unkeyed none = true
is_unkeyed (some k) = false

abbrev escapes : Option Body → Bool
escapes none = true
escapes (some b) = false

-- What is proved of the body, for the key of the worker and the test that the frame is a call.
abbrev Decided : Env → Option ℕ → World → Bool → World × Option Body → Type 0
Decided env k w call s = (escapes s.1 ≡ (call && is_unkeyed k)) × Leaves env (worker_of k w) w s

called_method-Decided :
    (env : Env) (wire : Wire) (k : Option ℕ) (frame : Fields) (w : World) (o : Option Method)
    → Decided env k w (is_method o) (called_method env wire k frame w o)
called_method-Decided env wire k frame w none = (refl, inl (refl, λ _. refl))
called_method-Decided env wire none frame w (some m) = (refl, refl)
called_method-Decided env wire (some k) frame w (some m) =
    (refl, called_by-Leaves env wire frame m w (find_worker k w.workers))

dispatch_named-Decided :
    (env : Env) (wire : Wire) (k : Option ℕ) (frame : Fields) (w : World) (o : Option Json)
    → Decided env k w (names_method o) (dispatch_named env wire k frame w o)
dispatch_named-Decided env wire k frame w none = (refl, inl (refl, λ _. refl))
dispatch_named-Decided env wire k frame w (some (str s)) =
    called_method-Decided env wire k frame w (method_named s)
dispatch_named-Decided env wire k frame w (some null) = (refl, inl (refl, λ _. refl))
dispatch_named-Decided env wire k frame w (some (bool b)) = (refl, inl (refl, λ _. refl))
dispatch_named-Decided env wire k frame w (some (num n)) = (refl, inl (refl, λ _. refl))
dispatch_named-Decided env wire k frame w (some (negative n)) = (refl, inl (refl, λ _. refl))
dispatch_named-Decided env wire k frame w (some (float b m e)) = (refl, inl (refl, λ _. refl))
dispatch_named-Decided env wire k frame w (some (arr xs)) = (refl, inl (refl, λ _. refl))
dispatch_named-Decided env wire k frame w (some (obj fs)) = (refl, inl (refl, λ _. refl))

dispatch_body-Decided :
    (env : Env) (wire : Wire) (k : Option ℕ) (frame : Fields) (w : World)
    → Decided env k w (is_call frame) (dispatch_body env wire k frame w)
unfolding dispatch_body
dispatch_body-Decided env wire k frame w = elim (Bool-cases (is_version (get "jsonrpc" frame))) [
  | inl e ↦ rw e (dispatch_named-Decided env wire k frame w (get "method" frame))
  | inr e ↦ rw e (refl, inl (refl, λ _. refl))
]

-- What is proved of a frame with the `id` and the key of the worker, for what was done and answered.
abbrev pub Replied : Env → Option ℕ → Option Json → Bool → World → World × Answer → Type 0
Replied env k id call w s =
    ((s.1 ≡ raised_out) ↔ ((k ≡ none) × (call ≡ true)))
    × (s.1 ≡ raised_out → s.0 ≡ w)
    × (s.1 ≢ raised_out → id ≡ none → s.1 ≡ answered none)
    × ((i : Json)
        → s.1 ≢ raised_out
        → id ≡ some i
        → (b : Body) × (s.1 ≡ answered (some (record { id = i; body = b }))))
    × ((i : Json) (c : Code)
        → s.1 ≡ answered (some (record { id = i; body = error c }))
        → IsUndone env (worker_of k w) c w s.0)

is_answered : Answer → Bool
is_answered (answered r) = true
is_answered raised_out = false

not_raised : (r : Option Response) → ¬ (answered r ≡ raised_out)
unfolding is_answered
not_raised r e = false≢true (sym (ap is_answered e))

body_in : Body → Answer → Body
body_in b (answered (some r)) = r.body
body_in b (answered none) = b
body_in b raised_out = b

keyed : (k : Option ℕ) (call : Bool) → false ≡ (call && is_unkeyed k) → k ≡ none → call ≡ true → ⊥
keyed none call e n c = false≢true (rw c at e)
keyed (some k) call e n c = ground (arith, n)

unkeyed : (k : Option ℕ) (call : Bool) → true ≡ (call && is_unkeyed k) → (k ≡ none) × (call ≡ true)
unkeyed none call e = (refl, ground (arith, e))
unkeyed (some k) call e = ground (arith, e)

body_of_answer :
    (id : Option Json) (b : Body) (i : Json) (d : Body)
    → answered (respond id b) ≡ answered (some (record { id = i; body = d }))
    → b ≡ d
unfolding body_in
body_of_answer none b i d e = cc
body_of_answer (some j) b i d e = ap (body_in b) e

Decided-Replied :
    (env : Env) (k : Option ℕ) (id : Option Json) (call : Bool) (w v : World) (o : Option Body)
    → Decided env k w call (v, o)
    → Replied env k id call w (v, answer_of id o)
unfolding body_in
Decided-Replied env k id call w v none d = (
  (λ _. unkeyed k call d.0, λ _. refl),
  λ _. d.1,
  λ n _. absurd (n refl),
  λ i n _. absurd (n refl),
  λ i c e. absurd (not_raised (some (record { id = i; body = error c })) (sym e)),
)
Decided-Replied env k id call w v (some b) d = (
  (λ e. absurd (not_raised (respond id b) e), λ q. absurd (keyed k call d.0 q.0 q.1)),
  λ e. absurd (not_raised (respond id b) e),
  λ _ e. rw e refl,
  λ i _ e. (b, rw e refl),
  λ i c e.
      subst (λ a. Leaves env (worker_of k w) w (v, some a)) (body_of_answer id b i (error c) e) d.1,
)

-- A frame that is a call of a method raises out of `dispatch_rpc` exactly where the key of the worker is
-- no UUID, and then changes nothing. Of all other frames, exactly those that carry an `id` other than null
-- are answered, each with its own `id`. A frame that is answered with an error leaves every run as it was,
-- and unless the code is INTERNAL_ERROR it leaves everything as it was; but where an exception ends the
-- claims of the worker, the offers made before it stay though the answer is INTERNAL_ERROR.
pub dispatch_rpc_answers :
    (env : Env) (wire : Wire) (worker_id : Option ℕ) (frame : Fields) (w : World)
    → Replied env worker_id
        (request_id (get "id" frame))
        (is_call frame)
        w
        (dispatch_rpc env wire worker_id frame w)
unfolding dispatch_rpc
dispatch_rpc_answers env wire k frame w =
    let s : World × Option Body = dispatch_body env wire k frame w in
    Decided-Replied env k (request_id (get "id" frame)) (is_call frame) w s.0 s.1
      (dispatch_body-Decided env wire k frame w)
