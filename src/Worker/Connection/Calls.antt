-- ===== src/Worker/Connection/Calls.antt =====
-- How the calls of a GatewayConnection end, and how long it waits between attempts.
use nautobot_app_remote_jobs.Shared.{
  ℕ, zero, suc, ◌+◌, ◌*◌, ◌^◌, ◌≤◌, min, max, Bool, true, false, ◌≡◌, refl, not, ◌&&◌, Option, none,
  some, List, [], ◌∷◌, ◌++◌, map, ◌==◌, ltb, leb, arith, if◌then◌else◌, if_both, Bool-cases, inl,
  inr,
}
use native.Mathlib.Nat.{mul_assoc}
use native.Mathlib.Numerals.{unary_clauses}
use nautobot_app_remote_jobs.Shared.Lists.{length, select, any, count, All}
use nautobot_app_remote_jobs.Worker.Connection.{
  Backoff, backoff_delay, broken, wait_for, is_open, CallEnd, result_of, error_of, closed_error,
  Connection, Event, opened, woke, close_called, lost, called, responded, timed_out, new_connection,
  end_call, fail_pending, call, reconnect, is_up, is_connecting, is_sleeping, occur, occur_all,
}

-- How often a call is pending, and how often it has ended.
abbrev waits : ℕ → List ℕ → ℕ
waits i = count (λ k. k == i)

abbrev ends : ℕ → List (ℕ × CallEnd) → ℕ
ends i = count (λ p. p.0 == i)

-- Every call that was made either waits or has ended, and only once; none waits while there is no
-- connection; each delay is at least half the least and at most the greatest backoff; and the loop is
-- ended by an OverflowError only after 1024 delays.
pub record IsSettled (b : Backoff) (c : Connection) : Type 0 where
  pub once : (i : ℕ) → waits i c.pending + ends i c.ended ≡ (if ltb i c.calls then 1 else 0)
  pub none_lost : is_open c.link ≡ false → c.pending ≡ []
  pub paced : All (λ d. (b.backoff_min ≤ d) × (d ≤ 2 * b.backoff_max)) c.delays
  pub attempted : c.attempt ≤ length c.delays
  pub broken_late : c.link ≡ broken → 1024 ≤ length c.delays

waits-select :
    (i j : ℕ) (ks : List ℕ)
    → waits j (select (λ k. not (k == i)) ks) ≡ (if j == i then 0 else waits j ks)
waits-select i j [] = ground arith
waits-select i j (k ∷ ks) = let r = waits-select i j ks in ground (arith, r)

waits-any : (i : ℕ) (ks : List ℕ) → any (λ k. k == i) ks ≡ true → 1 ≤ waits i ks
waits-any i [] h = ground (arith, h)
waits-any i (k ∷ ks) h = let r = waits-any i ks in ground (arith, r, h)

ends-failed :
    (i : ℕ) (ks : List ℕ) (es : List (ℕ × CallEnd))
    → ends i (map (λ k. (k, closed_error)) ks ++ es) ≡ waits i ks + ends i es
ends-failed i [] es = omega arith
ends-failed i (k ∷ ks) es = let r = ends-failed i ks es in ground (arith, r)

end_call-IsSettled :
    (b : Backoff) (i : ℕ) (e : CallEnd) (c : Connection)
    → IsSettled b c
    → IsSettled b (end_call i e c)
unfolding end_call
end_call-IsSettled b i e c h = elim (Bool-cases (any (λ k. k == i) c.pending)) [
  | inl f ↦ rw f (record {
    once = λ j.
        let s = waits-select i j c.pending in
        let o = h.once j in
        let one = h.once i in let w = waits-any i c.pending f in ground (arith, s, o, one, w);
    none_lost = λ n. rw (h.none_lost n) refl;
    paced = h.paced;
    attempted = h.attempted;
    broken_late = h.broken_late;
  })
  | inr f ↦ rw f h
]

call-IsSettled :
    (b : Backoff) (sent : Bool) (c : Connection) → IsSettled b c → IsSettled b (call sent c)
unfolding call
call-IsSettled b sent c h = elim (Bool-cases (is_open c.link && sent)) [
  | inl f ↦ rw f (record {
    once = λ j. let o = h.once j in ground (arith, o);
    none_lost = λ n. ground (arith, f, n);
    paced = h.paced;
    attempted = h.attempted;
    broken_late = h.broken_late;
  })
  | inr f ↦ rw f (record {
    once = λ j. let o = h.once j in ground (arith, o);
    none_lost = h.none_lost;
    paced = h.paced;
    attempted = h.attempted;
    broken_late = h.broken_late;
  })
]

le-shifted : (m n : ℕ) → m ≤ m * 2 ^ n
le-shifted m zero = omega arith
le-shifted m (suc n) =
    let r = le-shifted m n in
    let e = mul_assoc m (2 ^ n) 2 in simp unary_clauses (omega (arith, r, e))

-- `random.uniform` of an interval lies in it.
abbrev pub IsUniform : (ℕ → ℕ → ℕ → ℕ) → Type 0
IsUniform uniform =
    (low high chance : ℕ)
    → low ≤ high
    → (low ≤ uniform low high chance) × (uniform low high chance ≤ high)

-- A delay is in the bounds, and there is none only after 1024 attempts.
abbrev Paced : Backoff → ℕ → Option ℕ → Type 0
Paced b attempt none = 1024 ≤ attempt
Paced b attempt (some d) = (b.backoff_min ≤ d) × (d ≤ 2 * b.backoff_max)

backoff_delay-bounds :
    (uniform : ℕ → ℕ → ℕ → ℕ) (b : Backoff) (chance attempt : ℕ)
    → IsUniform uniform
    → b.backoff_min ≤ b.backoff_max
    → Paced b attempt (backoff_delay uniform b chance attempt)
unfolding backoff_delay
backoff_delay-bounds uniform b chance attempt u m =
    let ceiling = min b.backoff_max (b.backoff_min * 2 ^ attempt) in
    let r = le-shifted b.backoff_min attempt in
    let low : max b.backoff_min ceiling ≤ 2 * ceiling = omega (arith, r, m) in
    let q = u (max b.backoff_min ceiling) (2 * ceiling) chance low in
    elim (Bool-cases (ltb attempt 1024)) [
      | inl f ↦ rw f (omega (arith, q.0), omega (arith, q.1))
      | inr f ↦ rw f (ground (arith, f))
    ]

wait_for-IsSettled :
    (b : Backoff) (o : Option ℕ) (attempt : ℕ) (c : Connection)
    → c.pending ≡ []
    → attempt ≤ length c.delays
    → Paced b attempt o
    → IsSettled b c
    → IsSettled b (wait_for o attempt c)
wait_for-IsSettled b none attempt c e a p h = record {
  once = h.once;
  none_lost = λ _. e;
  paced = h.paced;
  attempted = a;
  broken_late = λ _. omega (arith, a, p);
}
wait_for-IsSettled b (some d) attempt c e a p h = record {
  once = h.once;
  none_lost = λ _. e;
  paced = (p, h.paced);
  attempted = omega (arith, a);
  broken_late = λ n. ground (arith, n);
}

module _ (uniform : ℕ → ℕ → ℕ → ℕ) (b : Backoff) (u : IsUniform uniform)
    (m : b.backoff_min ≤ b.backoff_max) where
  reconnect-IsSettled :
      (lasted chance : ℕ) (c : Connection)
      → c.pending ≡ []
      → IsSettled b c
      → IsSettled b (reconnect uniform b lasted chance c)
  unfolding reconnect
  reconnect-IsSettled lasted chance c e h =
      let attempt : ℕ = if leb b.stable lasted then 0 else c.attempt in
      let kept = h.attempted in
      if_both (IsSettled b) c.closing
        (record {
          once = h.once;
          none_lost = λ _. e;
          paced = h.paced;
          attempted = h.attempted;
          broken_late = λ n. ground (arith, n);
        })
        (wait_for-IsSettled b (backoff_delay uniform b chance attempt) attempt c e
          (ground (arith, kept)) (backoff_delay-bounds uniform b chance attempt u m) h)

  fail_pending-IsSettled : (c : Connection) → IsSettled b c → IsSettled b (fail_pending c)
  unfolding fail_pending
  fail_pending-IsSettled c h = record {
    once = λ i. let f = ends-failed i c.pending c.ended in let o = h.once i in ground (arith, f, o);
    none_lost = λ _. refl;
    paced = h.paced;
    attempted = h.attempted;
    broken_late = h.broken_late;
  }

  occur-IsSettled : (x : Event) (c : Connection) → IsSettled b c → IsSettled b (occur uniform b x c)
  unfolding occur
  occur-IsSettled opened c h =
      if_both (IsSettled b) (is_connecting c.link)
        (record {
          once = h.once;
          none_lost = λ n. ground (arith, n);
          paced = h.paced;
          attempted = h.attempted;
          broken_late = λ n. ground (arith, n);
        })
        h
  occur-IsSettled woke c h = elim (Bool-cases (is_sleeping c.link)) [
    | inl f ↦ rw f (record {
      once = h.once;
      none_lost = λ _. h.none_lost (ground (arith, f));
      paced = h.paced;
      attempted = h.attempted;
      broken_late = λ n. ground (arith, n);
    })
    | inr f ↦ rw f h
  ]
  occur-IsSettled close_called c h = record {
    once = h.once;
    none_lost = h.none_lost;
    paced = h.paced;
    attempted = h.attempted;
    broken_late = h.broken_late;
  }
  occur-IsSettled (lost lasted chance) c h =
      if_both (IsSettled b) (is_up c.link)
        (reconnect-IsSettled lasted chance (fail_pending c) (unfold fail_pending in refl)
          (fail_pending-IsSettled c h))
        h
  occur-IsSettled (called sent) c h = call-IsSettled b sent c h
  occur-IsSettled (responded i is_error) c h =
      end_call-IsSettled b i (if is_error then error_of else result_of) c h
  occur-IsSettled (timed_out i) c h = end_call-IsSettled b i closed_error c h

  keeps-IsSettled :
      (xs : List Event) (c : Connection) → IsSettled b c → IsSettled b (occur_all uniform b xs c)
  unfolding occur_all
  keeps-IsSettled [] c h = h
  keeps-IsSettled (x ∷ xs) c h = keeps-IsSettled xs (occur uniform b x c) (occur-IsSettled x c h)

-- Whatever happens to a new connection, responses to unknown ids, time-outs, losses and reconnections in
-- any order: each call that was made either is pending or has ended, and once; while there is no
-- connection no call is pending; and each delay before a new attempt is at least half the least backoff
-- and at most the greatest, which must not be the smaller, for `random.uniform` stays in its interval. The
-- loop is ended by the OverflowError of the delay only after 1024 delays.
pub occur_all-IsSettled :
    (uniform : ℕ → ℕ → ℕ → ℕ) (b : Backoff) (xs : List Event)
    → IsUniform uniform
    → b.backoff_min ≤ b.backoff_max
    → IsSettled b (occur_all uniform b xs new_connection)
unfolding new_connection
occur_all-IsSettled uniform b xs u m = keeps-IsSettled uniform b u m xs new_connection (record {
  once = λ i. ground arith;
  none_lost = λ _. refl;
  paced = tt;
  attempted = omega arith;
  broken_late = λ n. ground (arith, n);
})
