-- ===== src/Sdk/Logging/Secrecy.antt =====
-- What a job logs after it has registered a secret.
use nautobot_app_remote_jobs.Shared.{
  ℕ, ◌+◌, ◌≤◌, true, false, ◌≡◌, str_eq, List, [], ◌∷◌, ◌++◌, Bool-cases, inl, inr,
}
use nautobot_app_remote_jobs.Shared.Lists.{length, any, All}
use nautobot_app_remote_jobs.Sdk.Redaction.{is_in, is_registered, register, redact}
use nautobot_app_remote_jobs.Sdk.Redaction.Hidden.{
  IsApart, redact-IsHidden, register_keeps, is_registered-register,
}
use nautobot_app_remote_jobs.Sdk.Logging.{
  Limits, log_levels, Entry, LogClient, new_client, post_batch, flush_locked, is_due, add_to, Job,
  or_run, log, Act, register_value, log_message, flush_log, act, acts,
}

module _ (v : List ℕ) where
  abbrev pub Lacks : List Entry → Type 0
  Lacks = All (λ e. is_in v e.message ≡ false)

  -- No entry of the client has a message with the value in it.
  pub record IsClean (c : LogClient Entry) : Type 0 where
    pub sent : All (λ p. Lacks p.entries) c.posted
    pub buffered : Lacks c.entries

  Lacks-append : (xs ys : List Entry) → Lacks xs → Lacks ys → Lacks (xs ++ ys)
  Lacks-append [] ys h g = g
  Lacks-append (x ∷ xs) ys h g = (h.0, Lacks-append xs ys h.1 g)

  post_batch-IsClean :
      (xs : List Entry) (c : LogClient Entry) → Lacks xs → IsClean c → IsClean (post_batch xs c)
  unfolding post_batch
  post_batch-IsClean [] c l h = h
  post_batch-IsClean (x ∷ xs) c l h = record { sent = (l, h.sent); buffered = tt }

  flush_locked-IsClean : (now : ℕ) (c : LogClient Entry) → IsClean c → IsClean (flush_locked now c)
  unfolding flush_locked
  flush_locked-IsClean now c h =
      post_batch-IsClean c.entries (record c { last_flush = now }) h.buffered
        (record { sent = h.sent; buffered = h.buffered })

  add_to-IsClean :
      (l : Limits) (size : Entry → ℕ) (now : ℕ) (e : Entry) (c : LogClient Entry)
      → is_in v e.message ≡ false
      → IsClean c
      → IsClean (add_to l size now e c)
  unfolding add_to
  add_to-IsClean l size now e c n h =
      let d : LogClient Entry = record c {
        entries = c.entries ++ e ∷ [];
        buffered_bytes = c.buffered_bytes + size e;
      } in
      let g : IsClean d = record {
        sent = h.sent;
        buffered = Lacks-append c.entries (e ∷ []) h.buffered (n, tt);
      } in
      elim (Bool-cases (is_due l now d)) [
        | inl f ↦ rw f (flush_locked-IsClean now d g)
        | inr f ↦ rw f g
      ]

  act-IsClean :
      (l : Limits) (size : Entry → ℕ) (a : Act) (j : Job)
      → 4 ≤ length v
      → IsApart v
      → is_registered v j.values ≡ true
      → IsClean j.client
      → (is_registered v (act l size a j).values ≡ true) × IsClean (act l size a j).client
  unfolding act log
  act-IsClean l size (register_value w) j n p r h = (register_keeps v w j.values r, h)
  act-IsClean l size (log_message now level message grouping) j n p r h =
      elim (Bool-cases (any (str_eq level) log_levels)) [
        | inl f ↦ rw f (
          r,
          add_to-IsClean l size now
              (record {
                level = level;
                message = redact j.values message;
                grouping = or_run grouping;
                timestamp = now;
              })
              j.client (redact-IsHidden v j.values message n p r) h,
        )
        | inr f ↦ rw f (r, h)
      ]
  act-IsClean l size (flush_log now) j n p r h = (r, flush_locked-IsClean now j.client h)

  acts-IsClean :
      (l : Limits) (size : Entry → ℕ) (as_ : List Act) (j : Job)
      → 4 ≤ length v
      → IsApart v
      → is_registered v j.values ≡ true
      → IsClean j.client
      → IsClean (acts l size as_ j).client
  unfolding acts
  acts-IsClean l size [] j n p r h = h
  acts-IsClean l size (a ∷ as_) j n p r h =
      let (r', h') = act-IsClean l size a j n p r h in
      acts-IsClean l size as_ (act l size a j) n p r' h'

-- A secret of at least four characters that cannot overlap the mask `(redacted)` - no end of it begins the
-- mask, none of its beginnings ends the mask, and neither is in the other - and that is registered before
-- the job logs: whatever other values are registered and whatever the job logs and flushes after that, no
-- message that was posted or is buffered has the secret in it.
pub logged-IsClean :
    (l : Limits) (size : Entry → ℕ) (now : ℕ) (v : List ℕ) (values : List (List ℕ)) (as_ : List Act)
    → 4 ≤ length v
    → IsApart v
    → IsClean v
        (acts l size as_ (record { values = register v values; client = new_client now })).client
unfolding new_client
logged-IsClean l size now v values as_ n p =
    acts-IsClean v l size as_ (record { values = register v values; client = new_client now }) n p
      (is_registered-register v values n) (record { sent = tt; buffered = tt })
