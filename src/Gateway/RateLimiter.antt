-- ===== src/Gateway/RateLimiter.antt =====
-- The token bucket of gateway/remote_jobs_gateway/bridge.py. Tokens are counted in fractions, `unit`
-- of them to a token, and time in ticks, so that `rate` fractions a tick and `burst` are whole
-- numbers; the source has floats.
use nautobot_app_remote_jobs.Shared.{
  ℕ, suc, ◌+◌, ◌-◌, ◌*◌, ◌≤◌, Bool, true, false, ◌≡◌, sym, subst, min, List, [], ◌∷◌, arith, leb,
  if◌then◌else◌,
}

-- The constructor's arguments, and what a token is worth.
pub record Limits : Type 0 where
  pub rate : ℕ
  pub burst : ℕ
  pub unit : ℕ

pub record Bucket : Type 0 where
  pub tokens : ℕ
  pub updated : ℕ

unfoldable pub fresh : Limits → ℕ → Bucket
fresh l now = record { tokens = l.burst; updated = now }

-- The refill at the head of `allow`.
refilled : Limits → ℕ → Bucket → ℕ
refilled l now b = min l.burst (b.tokens + (now - b.updated) * l.rate)

-- RateLimiter.allow
unfoldable pub allow : Limits → ℕ → Bucket → Bucket × Bool
unfolding refilled
allow l now b =
    let t = refilled l now b in
    if leb l.unit t
    then (record { tokens = t - l.unit; updated = now }, true)
    else (record { tokens = t; updated = now }, false)

-- The calls at the given moments: how many are allowed, and the bucket after.
unfoldable pub allow_all : Limits → List ℕ → Bucket → Bucket × ℕ
allow_all l [] b = (b, 0)
allow_all l (now ∷ times) b =
    let (b1, passed) = allow l now b in
    let (b2, n) = allow_all l times b1 in (b2, if passed then suc n else n)

-- Moments that do not go back, from `t` on, and the last of them.
abbrev pub IsClock : ℕ → List ℕ → Type 0
IsClock t [] = Unit
IsClock t (now ∷ times) = (t ≤ now) × IsClock now times

abbrev pub last_from : ℕ → List ℕ → ℕ
last_from t [] = t
last_from t (now ∷ times) = last_from now times

pub allow-le-burst : (l : Limits) (now : ℕ) (b : Bucket) → (allow l now b).0.tokens ≤ l.burst
unfolding allow
allow-le-burst l now b = ground arith

-- One call spends at most what it adds by the clock.
allow_step :
    (l : Limits) (now : ℕ) (b : Bucket)
    → (if (allow l now b).1 then l.unit else 0) + (allow l now b).0.tokens
      ≤ b.tokens + (now - b.updated) * l.rate
unfolding allow
allow_step l now b = ground arith

allow-updated : (l : Limits) (now : ℕ) (b : Bucket) → (allow l now b).0.updated ≡ now
unfolding allow
allow-updated l now b = ground arith

le-last_from : (t : ℕ) (times : List ℕ) → IsClock t times → t ≤ last_from t times
le-last_from t [] h = omega arith
le-last_from t (now ∷ times) h = omega (arith, le-last_from now times h.1)

elapsed_mul : (u v w r : ℕ) → u ≤ v → v ≤ w → (v - u) * r + (w - v) * r ≡ (w - u) * r
elapsed_mul u v w r p q = let e : w - u ≡ (v - u) + (w - v) = omega arith in rw e (omega arith)

spent_more :
    (passed : Bool) (n unit t1 t2 before gained later : ℕ)
    → (if passed then unit else 0) + t1 ≤ before + gained
    → n * unit + t2 ≤ t1 + later
    → (if passed then suc n else n) * unit + t2 ≤ before + (gained + later)
spent_more true n unit t1 t2 before gained later p q = omega arith
spent_more false n unit t1 t2 before gained later p q = omega arith

allow_all-spent :
    (l : Limits) (times : List ℕ) (b : Bucket)
    → IsClock b.updated times
    → (allow_all l times b).1 * l.unit + (allow_all l times b).0.tokens
      ≤ b.tokens + (last_from b.updated times - b.updated) * l.rate
unfolding allow_all
allow_all-spent l [] b h = omega arith
allow_all-spent l (now ∷ times) b h =
    let b1 : Bucket = (allow l now b).0 in
    let clock : b1.updated ≡ now = allow-updated l now b in
    let rest =
      subst
        (λ u.
          (allow_all l times b1).1 * l.unit + (allow_all l times b1).0.tokens
          ≤ b1.tokens + (last_from u times - u) * l.rate)
        clock (allow_all-spent l times b1 (subst (λ u. IsClock u times) (sym clock) h.1)) in
    subst
      (λ g.
        (if (allow l now b).1 then suc (allow_all l times b1).1 else (allow_all l times b1).1)
            * l.unit
          + (allow_all l times b1).0.tokens
        ≤ b.tokens + g)
      (elapsed_mul b.updated now (last_from now times) l.rate h.0 (le-last_from now times h.1))
      (spent_more (allow l now b).1 (allow_all l times b1).1 l.unit b1.tokens
        (allow_all l times b1).0.tokens b.tokens ((now - b.updated) * l.rate)
        ((last_from now times - now) * l.rate) (allow_step l now b) rest)

-- However the calls fall, from a fresh bucket on no more are allowed than the burst and what the
-- elapsed time adds at the rate; the clock is assumed not to go back.
pub allowed_bound :
    (l : Limits) (start : ℕ) (times : List ℕ)
    → IsClock start times
    → (allow_all l times (fresh l start)).1 * l.unit
      ≤ l.burst + (last_from start times - start) * l.rate
unfolding fresh
allowed_bound l start times h = omega (arith, allow_all-spent l times (fresh l start) h)
