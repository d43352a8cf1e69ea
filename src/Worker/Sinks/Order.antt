-- ===== src/Worker/Sinks/Order.antt =====
-- The numbering of a sink's batches and the bound on its buffers.
use nautobot_app_remote_jobs.Shared.{
  ℕ, suc, true, false, ◌≡◌, refl, Option, none, some, List, [], ◌∷◌, ◌==◌, arith, Bool-cases, inl,
  inr,
}
use nautobot_app_remote_jobs.Shared.Lists.{All, count}
use nautobot_app_remote_jobs.Worker.Sinks.{
  BufferKey, same_key, Buffer, Batch, Sink, Op, emit, flush_all, flush_run, tick, new_sink,
  find_buffer, put_buffer, drop_buffer, send_batch, flush_popped, flush_locked, flush_keys,
  with_entry, is_full, add, flush, maybe_flush_expired, perform, perform_all,
}

same_key_refl : (key : BufferKey) → same_key key key ≡ true
same_key_refl key = ground arith

module _ {E : Type 0} where
  abbrev pub batches_of : ℕ → List (Batch E) → ℕ
  batches_of run sent = count (λ b. b.run == run) sent

  -- Each batch has the number after the last earlier one of its run, and the first has 1.
  abbrev pub IsNumbered : List (Batch E) → Type 0
  IsNumbered [] = Unit
  IsNumbered (b ∷ sent) = (b.sequence ≡ suc (batches_of b.run sent)) × IsNumbered sent

  pub record IsOrderly (s : Sink E) : Type 0 where
    pub numbered : IsNumbered s.sent
    pub counted : (run : ℕ) → s.sequences run ≡ batches_of run s.sent
    pub bounded : All (λ p. is_full p.1 ≡ false) s.buffers

  send_batch-IsNumbered :
      (key : BufferKey) (es : List E) (s : Sink E)
      → IsNumbered s.sent
      → ((run : ℕ) → s.sequences run ≡ batches_of run s.sent)
      → IsNumbered (send_batch key es s).sent
        × ((run : ℕ)
            → (send_batch key es s).sequences run ≡ batches_of run (send_batch key es s).sent)
  unfolding send_batch
  send_batch-IsNumbered key [] s n c = (n, c)
  send_batch-IsNumbered key (e ∷ es) s n c =
      ((ground (arith, c key.run), n), λ run. ground (arith, c run, c key.run))

  flush_popped-IsNumbered :
      (key : BufferKey) (o : Option (Buffer E)) (s : Sink E)
      → IsNumbered s.sent
      → ((run : ℕ) → s.sequences run ≡ batches_of run s.sent)
      → IsNumbered (flush_popped key o s).sent
        × ((run : ℕ)
            → (flush_popped key o s).sequences run ≡ batches_of run (flush_popped key o s).sent)
  unfolding flush_popped
  flush_popped-IsNumbered key none s n c = (n, c)
  flush_popped-IsNumbered key (some b) s n c = send_batch-IsNumbered key b.entries s n c

  buffers-send_batch :
      (key : BufferKey) (es : List E) (s : Sink E) → (send_batch key es s).buffers ≡ s.buffers
  unfolding send_batch
  buffers-send_batch key [] s = refl
  buffers-send_batch key (e ∷ es) s = refl

  buffers-flush_popped :
      (key : BufferKey) (o : Option (Buffer E)) (s : Sink E)
      → (flush_popped key o s).buffers ≡ s.buffers
  unfolding flush_popped
  buffers-flush_popped key none s = refl
  buffers-flush_popped key (some b) s = buffers-send_batch key b.entries s

  -- All buffers but those of the key.
  abbrev Others : BufferKey → List (BufferKey × Buffer E) → Type 0
  Others key = All (λ p. same_key p.0 key ≡ false → is_full p.1 ≡ false)

  drop-bounded :
      (key : BufferKey) (ps : List (BufferKey × Buffer E))
      → Others key ps
      → All (λ p. is_full p.1 ≡ false) (drop_buffer key ps)
  unfolding drop_buffer
  drop-bounded key [] h = tt
  drop-bounded key (p ∷ ps) h = elim (Bool-cases (same_key p.0 key)) [
    | inl e ↦ rw e (drop-bounded key ps h.1)
    | inr e ↦ rw e (h.0 e, drop-bounded key ps h.1)
  ]

  Others-weaken :
      (key : BufferKey) (ps : List (BufferKey × Buffer E))
      → All (λ p. is_full p.1 ≡ false) ps
      → Others key ps
  Others-weaken key [] h = tt
  Others-weaken key (p ∷ ps) h = (λ _. h.0, Others-weaken key ps h.1)

  put-Others :
      (key : BufferKey) (b : Buffer E) (ps : List (BufferKey × Buffer E))
      → All (λ p. is_full p.1 ≡ false) ps
      → Others key (put_buffer key b ps)
  unfolding put_buffer
  put-Others key b [] h = (λ e. ground (arith, e, same_key_refl key), tt)
  put-Others key b (p ∷ ps) h = elim (Bool-cases (same_key p.0 key)) [
    | inl e ↦ rw e (λ q. ground (arith, q, same_key_refl key), Others-weaken key ps h.1)
    | inr e ↦ rw e (λ _. h.0, put-Others key b ps h.1)
  ]

  put-bounded :
      (key : BufferKey) (b : Buffer E) (ps : List (BufferKey × Buffer E))
      → is_full b ≡ false
      → All (λ p. is_full p.1 ≡ false) ps
      → All (λ p. is_full p.1 ≡ false) (put_buffer key b ps)
  unfolding put_buffer
  put-bounded key b [] f h = (f, tt)
  put-bounded key b (p ∷ ps) f h = elim (Bool-cases (same_key p.0 key)) [
    | inl e ↦ rw e (f, h.1)
    | inr e ↦ rw e (h.0, put-bounded key b ps f h.1)
  ]

  flush_locked-IsOrderly :
      (key : BufferKey) (s : Sink E)
      → IsNumbered s.sent
      → ((run : ℕ) → s.sequences run ≡ batches_of run s.sent)
      → Others key s.buffers
      → IsOrderly (flush_locked key s)
  unfolding flush_locked
  flush_locked-IsOrderly key s n c h =
      let s1 : Sink E = record s { buffers = drop_buffer key s.buffers } in
      let (n', c') = flush_popped-IsNumbered key (find_buffer key s.buffers) s1 n c in
      record {
        numbered = n';
        counted = c';
        bounded =
            rw (buffers-flush_popped key (find_buffer key s.buffers) s1)
              (drop-bounded key s.buffers h);
      }

  flush_keys-IsOrderly :
      (keys : List BufferKey) (s : Sink E) → IsOrderly s → IsOrderly (flush_keys keys s)
  unfolding flush_keys
  flush_keys-IsOrderly [] s h = h
  flush_keys-IsOrderly (key ∷ keys) s h =
      flush_keys-IsOrderly keys (flush_locked key s)
        (flush_locked-IsOrderly key s h.numbered h.counted (Others-weaken key s.buffers h.bounded))

  add-IsOrderly :
      (size : E → ℕ) (now : ℕ) (key : BufferKey) (e : E) (s : Sink E)
      → IsOrderly s
      → IsOrderly (add size now key e s)
  unfolding add
  add-IsOrderly size now key e s h =
      let b : Buffer E = with_entry size now e (find_buffer key s.buffers) in
      elim (Bool-cases (is_full b)) [
        | inl f ↦ rw f (
            flush_locked-IsOrderly key (record s { buffers = put_buffer key b s.buffers })
              h.numbered h.counted (put-Others key b s.buffers h.bounded))
        | inr f ↦ rw f (record {
          numbered = h.numbered;
          counted = h.counted;
          bounded = put-bounded key b s.buffers f h.bounded;
        })
      ]

  perform-IsOrderly :
      (size : E → ℕ) (op : Op E) (s : Sink E) → IsOrderly s → IsOrderly (perform size op s)
  unfolding perform flush maybe_flush_expired
  perform-IsOrderly size (emit now key e) s h = add-IsOrderly size now key e s h
  perform-IsOrderly size flush_all s h = flush_keys-IsOrderly _ s h
  perform-IsOrderly size (flush_run run) s h = flush_keys-IsOrderly _ s h
  perform-IsOrderly size (tick now) s h = flush_keys-IsOrderly _ s h

  perform_all-kept :
      (size : E → ℕ) (ops : List (Op E)) (s : Sink E)
      → IsOrderly s
      → IsOrderly (perform_all size ops s)
  unfolding perform_all
  perform_all-kept size [] s h = h
  perform_all-kept size (op ∷ ops) s h =
      perform_all-kept size ops (perform size op s) (perform-IsOrderly size op s h)

  -- Whatever is emitted and flushed, from a new sink on the batches of each run are numbered 1, 2, 3 and
  -- so on in the order in which they are sent, and no buffer holds 100 entries or 64 KiB after an
  -- operation.
  pub perform_all-IsOrderly :
      (size : E → ℕ) (ops : List (Op E)) → IsOrderly (perform_all size ops new_sink)
  unfolding new_sink
  perform_all-IsOrderly size ops =
      perform_all-kept size ops new_sink
        (record { numbered = tt; counted = λ _. refl; bounded = tt })
