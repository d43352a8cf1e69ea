-- ===== src/Worker/Sinks.antt =====
-- worker/remote_worker/sinks/base.py: BatchingLogSink. An entry is a value of any type, with the number
-- of bytes of its JSON text given by `size`. The sink's lock makes each operation one step; a batch
-- whose delivery fails has its sequence number all the same, so `sent` holds every call of `_send`,
-- newest first. Moments are counted in seconds.
pub mod Order
use nautobot_app_remote_jobs.Shared.{
  ℕ, suc, ◌+◌, Bool, true, false, ◌&&◌, ◌||◌, not, Option, none, some, List, [], ◌∷◌, ◌++◌, ◌==◌,
  leb, if◌then◌else◌, map,
}
use nautobot_app_remote_jobs.Shared.Lists.{length, select}

-- KIND_LOGS, KIND_CONSOLE
pub data BatchKind : Type 0 where
  kind_logs kind_console : BatchKind

-- (run_id, kind)
pub record BufferKey : Type 0 where
  pub run : ℕ
  pub kind : BatchKind

abbrev pub same_kind : BatchKind → BatchKind → Bool
same_kind kind_logs kind_logs = true
same_kind kind_console kind_console = true
same_kind _ _ = false

abbrev pub same_key : BufferKey → BufferKey → Bool
same_key a b = a.run == b.run && same_kind a.kind b.kind

-- _Buffer
pub record Buffer (E : Type 0) : Type 0 where
  pub first_at : ℕ
  pub entries : List E
  pub byte_size : ℕ

-- The arguments of a call of `_send`.
pub record Batch (E : Type 0) : Type 0 where
  pub run : ℕ
  pub kind : BatchKind
  pub sequence : ℕ
  pub entries : List E

-- `_sequences` is 0 at a run that it has no number of.
pub record Sink (E : Type 0) : Type 0 where
  pub buffers : List (BufferKey × Buffer E)
  pub sequences : ℕ → ℕ
  pub sent : List (Batch E)

-- An operation of the sink, with its moment where it reads the clock.
pub data Op (E : Type 0) : Type 0 where
  emit : ℕ → BufferKey → E → Op E
  flush_all : Op E
  flush_run : ℕ → Op E
  tick : ℕ → Op E

module _ {E : Type 0} where
  unfoldable pub new_sink : Sink E
  new_sink = record { buffers = []; sequences = λ _. 0; sent = [] }

  unfoldable pub find_buffer : BufferKey → List (BufferKey × Buffer E) → Option (Buffer E)
  find_buffer key [] = none
  find_buffer key (p ∷ ps) =
      let rest = find_buffer key ps in if same_key p.0 key then some p.1 else rest

  unfoldable pub put_buffer :
      BufferKey → Buffer E → List (BufferKey × Buffer E) → List (BufferKey × Buffer E)
  put_buffer key b [] = (key, b) ∷ []
  put_buffer key b (p ∷ ps) =
      let rest = put_buffer key b ps in if same_key p.0 key then (key, b) ∷ ps else p ∷ rest

  unfoldable pub drop_buffer : BufferKey → List (BufferKey × Buffer E) → List (BufferKey × Buffer E)
  drop_buffer key ps = select (λ p. not (same_key p.0 key)) ps

  -- The rest of `_flush_locked`, for the buffer that was popped.
  unfoldable pub send_batch : BufferKey → List E → Sink E → Sink E
  send_batch key [] s = s
  send_batch key (e ∷ es) s =
      let n = suc (s.sequences key.run) in
      record s {
        sequences = λ run. if run == key.run then n else s.sequences run;
        sent = record { run = key.run; kind = key.kind; sequence = n; entries = e ∷ es } ∷ s.sent;
      }

  unfoldable pub flush_popped : BufferKey → Option (Buffer E) → Sink E → Sink E
  unfolding send_batch
  flush_popped key none s = s
  flush_popped key (some b) s = send_batch key b.entries s

  -- `_flush_locked`
  unfoldable pub flush_locked : BufferKey → Sink E → Sink E
  unfolding find_buffer drop_buffer flush_popped
  flush_locked key s =
      flush_popped key (find_buffer key s.buffers)
        (record s { buffers = drop_buffer key s.buffers })

  unfoldable pub flush_keys : List BufferKey → Sink E → Sink E
  flush_keys [] s = s
  flush_keys (key ∷ keys) s = flush_keys keys (flush_locked key s)

  -- The buffer of `_add` with the entry appended.
  unfoldable pub with_entry : (E → ℕ) → ℕ → E → Option (Buffer E) → Buffer E
  with_entry size now e none = record { first_at = now; entries = e ∷ []; byte_size = size e }
  with_entry size now e (some b) = record b {
    entries = b.entries ++ e ∷ [];
    byte_size = b.byte_size + size e;
  }

  -- FLUSH_MAX_ENTRIES, FLUSH_MAX_BYTES
  abbrev pub is_full : Buffer E → Bool
  is_full b = leb 100 (length b.entries) || leb 65536 b.byte_size

  -- `_add`
  unfoldable pub add : (E → ℕ) → ℕ → BufferKey → E → Sink E → Sink E
  unfolding with_entry put_buffer flush_locked
  add size now key e s =
      let b = with_entry size now e (find_buffer key s.buffers) in
      let s1 = record s { buffers = put_buffer key b s.buffers } in
      if is_full b then flush_locked key s1 else s1

  -- `flush`
  unfoldable pub flush : Option ℕ → Sink E → Sink E
  flush none s = flush_keys (map (λ p. p.0) s.buffers) s
  flush (some run) s = flush_keys (map (λ p. p.0) (select (λ p. p.0.run == run) s.buffers)) s

  -- `maybe_flush_expired`: FLUSH_INTERVAL_SECONDS is 2.
  unfoldable pub maybe_flush_expired : ℕ → Sink E → Sink E
  maybe_flush_expired now s =
      flush_keys (map (λ p. p.0) (select (λ p. leb (p.1.first_at + 2) now) s.buffers)) s

  unfoldable pub perform : (E → ℕ) → Op E → Sink E → Sink E
  unfolding add flush maybe_flush_expired
  perform size (emit now key e) s = add size now key e s
  perform size flush_all s = flush none s
  perform size (flush_run run) s = flush (some run) s
  perform size (tick now) s = maybe_flush_expired now s

  unfoldable pub perform_all : (E → ℕ) → List (Op E) → Sink E → Sink E
  perform_all size [] s = s
  perform_all size (op ∷ ops) s = perform_all size ops (perform size op s)

  -- `next_sequence_hint`
  unfoldable pub next_sequence_hint : ℕ → Sink E → ℕ
  next_sequence_hint run s = s.sequences run

  -- `forget_run`
  unfoldable pub forget_run : ℕ → Sink E → Sink E
  forget_run run s = record s { sequences = λ r. if r == run then 0 else s.sequences r }
