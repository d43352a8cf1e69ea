-- ===== src/Sdk/Logging/Order.antt =====
-- What becomes of the entries that are added to a LogClient.
use nautobot_app_remote_jobs.Shared.{
  ℕ, suc, ◌+◌, ◌<◌, Bool, true, false, ◌≡◌, refl, sym, ap, subst, ◌∙◌, List, [], ◌∷◌, ◌++◌, arith,
  Bool-cases, inl, inr,
}
use mathlib.Core.List.{append-nil, append_assoc}
use nautobot_app_remote_jobs.Shared.Lists.{length}
use nautobot_app_remote_jobs.Sdk.Logging.{
  Limits, Payload, LogClient, Op, add_entry, flush_now, new_client, post_batch, flush_locked,
  is_due, add_to, run_op, run_ops,
}

module _ {E : Type 0} where
  -- The entries of the batches, the oldest first.
  abbrev pub shipped : List (Payload E) → List E
  shipped [] = []
  shipped (p ∷ ps) = shipped ps ++ p.entries

  abbrev pub added : List (Op E) → List E
  added [] = []
  added (add_entry now e ∷ os) = e ∷ added os
  added (flush_now now ∷ os) = added os

  -- The batches have the numbers 1, 2, 3, ... and none is empty.
  abbrev pub IsNumbered : List (Payload E) → Type 0
  IsNumbered [] = Unit
  IsNumbered (p ∷ ps) =
      (p.client_sequence ≡ suc (length ps)) × ((0 < length p.entries) × IsNumbered ps)

  -- A client that was given the entries `es`.
  pub record Carries (l : Limits) (es : List E) (c : LogClient E) : Type 0 where
    pub in_order : shipped c.posted ++ c.entries ≡ es
    pub counted : c.sequence ≡ length c.posted
    pub numbered : IsNumbered c.posted
    pub few_entries : length c.entries < l.max_entries
    pub few_bytes : c.buffered_bytes < l.max_bytes

  abbrev is_empty : List E → Bool
  is_empty [] = true
  is_empty (e ∷ es) = false

  is_empty-append : (xs : List E) (e : E) → is_empty (xs ++ e ∷ []) ≡ false
  is_empty-append [] e = refl
  is_empty-append (x ∷ xs) e = refl

  post_batch-Carries :
      (l : Limits) (es xs : List E) (c : LogClient E)
      → 0 < l.max_entries
      → 0 < l.max_bytes
      → shipped c.posted ++ xs ≡ es
      → c.entries ≡ xs
      → c.sequence ≡ length c.posted
      → IsNumbered c.posted
      → (is_empty xs ≡ true → c.buffered_bytes < l.max_bytes)
      → Carries l es (post_batch xs c)
  unfolding post_batch
  post_batch-Carries l es [] c me mb o e q n few = record {
    in_order = rw e o;
    counted = q;
    numbered = n;
    few_entries = rw e me;
    few_bytes = few refl;
  }
  post_batch-Carries l es (x ∷ xs) c me mb o e q n few = record {
    in_order = append-nil (shipped c.posted ++ x ∷ xs) ∙ o;
    counted = rw q refl;
    numbered = (rw q refl, (omega arith, n));
    few_entries = me;
    few_bytes = mb;
  }

  flush_locked-Carries :
      (l : Limits) (now : ℕ) (es : List E) (c : LogClient E)
      → 0 < l.max_entries
      → 0 < l.max_bytes
      → Carries l es c
      → Carries l es (flush_locked now c)
  unfolding flush_locked
  flush_locked-Carries l now es c me mb h =
      post_batch-Carries l es c.entries (record c { last_flush = now }) me mb h.in_order refl
        h.counted h.numbered (λ _. h.few_bytes)

  add_to-Carries :
      (l : Limits) (size : E → ℕ) (now : ℕ) (e : E) (es : List E) (c : LogClient E)
      → 0 < l.max_entries
      → 0 < l.max_bytes
      → Carries l es c
      → Carries l (es ++ e ∷ []) (add_to l size now e c)
  unfolding add_to flush_locked
  add_to-Carries l size now e es c me mb h =
      let xs = c.entries ++ e ∷ [] in
      let d : LogClient E = record c { entries = xs; buffered_bytes = c.buffered_bytes + size e } in
      let o : shipped c.posted ++ xs ≡ es ++ e ∷ [] =
        sym (append_assoc (shipped c.posted) c.entries (e ∷ []))
        ∙ ap (λ ys. ys ++ e ∷ []) h.in_order in
      elim (Bool-cases (is_due l now d)) [
        | inl f ↦ rw f (
            post_batch-Carries l (es ++ e ∷ []) xs (record d { last_flush = now }) me mb o refl
              h.counted h.numbered
              (λ z. let w = is_empty-append c.entries e in ground (arith, z, w)))
        | inr f ↦ rw f (record {
          in_order = o;
          counted = h.counted;
          numbered = h.numbered;
          few_entries = ground (arith, f);
          few_bytes = ground (arith, f);
        })
      ]

  run_ops-Carries :
      (l : Limits) (size : E → ℕ) (es : List E) (os : List (Op E)) (c : LogClient E)
      → 0 < l.max_entries
      → 0 < l.max_bytes
      → Carries l es c
      → Carries l (es ++ added os) (run_ops l size os c)
  unfolding run_ops run_op
  run_ops-Carries l size es [] c me mb h = rw (append-nil es) h
  run_ops-Carries l size es (add_entry now e ∷ os) c me mb h =
      subst (λ ys. Carries l ys (run_ops l size os (add_to l size now e c)))
        (append_assoc es (e ∷ []) (added os))
        (run_ops-Carries l size (es ++ e ∷ []) os (add_to l size now e c) me mb
          (add_to-Carries l size now e es c me mb h))
  run_ops-Carries l size es (flush_now now ∷ os) c me mb h =
      run_ops-Carries l size es os (flush_locked now c) me mb
        (flush_locked-Carries l now es c me mb h)

  -- Whatever is added to a new client and however often it is flushed, at whatever moments: the batches
  -- that were posted and then the buffer are the added entries, each once and in their order; the batches
  -- are numbered 1, 2, 3 and on, none is empty; and the buffer is below the limits of entries and of bytes,
  -- which have to be positive.
  pub run_ops_ship :
      (l : Limits) (size : E → ℕ) (now : ℕ) (os : List (Op E))
      → 0 < l.max_entries
      → 0 < l.max_bytes
      → Carries l (added os) (run_ops l size os (new_client now))
  unfolding new_client
  run_ops_ship l size now os me mb =
      run_ops-Carries l size [] os (new_client now) me mb (record {
        in_order = refl;
        counted = refl;
        numbered = tt;
        few_entries = me;
        few_bytes = mb;
      })
