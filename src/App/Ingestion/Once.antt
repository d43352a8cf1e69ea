-- ===== src/App/Ingestion/Once.antt =====
-- A batch is written once while its key is held, and one that failed is written by its retry.
use nautobot_app_remote_jobs.Shared.{
  ℕ, ◌+◌, ◌≤◌, ◌<◌, true, false, ◌≡◌, refl, not, Option, none, some, List, [], ◌∷◌, ◌++◌, arith,
  Bool-cases, inl, inr, if_both,
}
use nautobot_app_remote_jobs.Shared.Lists.{length, any, select}
use nautobot_app_remote_jobs.App.Ingestion.{
  Kind, DedupeKey, key_eq, key_eq_refl, sequence_dedupe_ttl, Cached, Store, Insert, inserted,
  insert_failed, holds_at, cache_set, already_ingested, mark_ingested, rows_of, bulk_create,
  write_batch, Write, write_all,
}

-- The cache holds the key up to a moment.
abbrev HoldsUntil : ℕ → DedupeKey → List Cached → Type 0
HoldsUntil until key cache = (u : ℕ) → u < until → any (holds_at u key) cache ≡ true

-- Marking another key, or this one later, keeps it.
any-select :
    (u : ℕ) (key other : DedupeKey) (cache : List Cached)
    → key_eq other key ≡ false
    → any (holds_at u key) (select (λ c. not (key_eq c.0 other)) cache) ≡ any (holds_at u key) cache
any-select u key other [] n = refl
any-select u key other (c ∷ cache) n =
    let r = any-select u key other cache n in ground (arith, r, n)

cache_set-HoldsUntil :
    (until now : ℕ) (key other : DedupeKey) (cache : List Cached)
    → until ≤ now + sequence_dedupe_ttl
    → HoldsUntil until key cache
    → HoldsUntil until key (cache_set now other cache)
unfolding cache_set
cache_set-HoldsUntil until now key other cache l h u b = elim (Bool-cases (key_eq other key)) [
  | inl e ↦ ground (arith, e, l, b)
  | inr e ↦ let r = any-select u key other cache e in let s = h u b in ground (arith, r, s, e)
]

gone-later :
    (now u : ℕ) (key : DedupeKey) (cache : List Cached)
    → now ≤ u
    → any (holds_at now key) cache ≡ false
    → any (holds_at u key) cache ≡ false
gone-later now u key [] l h = refl
gone-later now u key (c ∷ cache) l h =
    let r = gone-later now u key cache l in ground (arith, r, l, h)

module _ {ℓ} {E : Type ℓ} where
  mark-HoldsUntil :
      (until now run : ℕ) (kind : Kind) (sequence : Option ℕ) (key : DedupeKey) (s : Store E)
      → until ≤ now + sequence_dedupe_ttl
      → HoldsUntil until key s.cache
      → HoldsUntil until key (mark_ingested now run kind sequence s).cache
  unfolding mark_ingested
  mark-HoldsUntil until now run kind none key s l h = h
  mark-HoldsUntil until now run kind (some n) key s l h =
      cache_set-HoldsUntil until now key (record { run = run; kind = kind; sequence = n }) s.cache l
        h

  write-HoldsUntil :
      (until : ℕ) (key : DedupeKey) (i : Insert) (now run : ℕ) (kind : Kind) (entries : List E)
      (sequence : Option ℕ) (s : Store E)
      → until ≤ now + sequence_dedupe_ttl
      → HoldsUntil until key s.cache
      → HoldsUntil until key (write_batch i now run kind entries sequence s).0.cache
  unfolding write_batch bulk_create
  write-HoldsUntil until key insert_failed now run kind entries sequence s l h =
      if_both {A = Store E × Option ℕ} (λ r. HoldsUntil until key r.0.cache)
        (already_ingested now s run kind sequence) h h
  write-HoldsUntil until key inserted now run kind entries sequence s l h =
      if_both {A = Store E × Option ℕ} (λ r. HoldsUntil until key r.0.cache)
        (already_ingested now s run kind sequence) h
        (mark-HoldsUntil until now run kind sequence key
          (record s { rows = s.rows ++ rows_of run kind entries }) l h)

  -- The writes happen at a moment or later.
  abbrev pub AllAfter : ℕ → List (Write E) → Type 0
  AllAfter t [] = Unit
  AllAfter t (b ∷ bs) = (t ≤ b.now) × AllAfter t bs

  write_all-HoldsUntil :
      (t : ℕ) (key : DedupeKey) (bs : List (Write E)) (s : Store E)
      → AllAfter t bs
      → HoldsUntil (t + sequence_dedupe_ttl) key s.cache
      → HoldsUntil (t + sequence_dedupe_ttl) key (write_all bs s).cache
  unfolding write_all
  write_all-HoldsUntil t key [] s a h = h
  write_all-HoldsUntil t key (b ∷ bs) s a h =
      write_all-HoldsUntil t key bs
        (write_batch b.insert b.now b.run b.kind b.entries b.sequence s).0 a.1
        (write-HoldsUntil (t + sequence_dedupe_ttl) key b.insert b.now b.run b.kind b.entries
          b.sequence s (omega (arith, a.0)) h)

  fresh-HoldsUntil :
      (now run : ℕ) (kind : Kind) (n : ℕ) (entries : List E) (s : Store E)
      → already_ingested now s run kind (some n) ≡ false
      → HoldsUntil
          (now + sequence_dedupe_ttl)
          (record { run = run; kind = kind; sequence = n })
          (write_batch inserted now run kind entries (some n) s).0.cache
  unfolding write_batch bulk_create mark_ingested cache_set
  fresh-HoldsUntil now run kind n entries s e u b =
      let r = key_eq_refl (record { run = run; kind = kind; sequence = n }) in
      rw e (ground (arith, r, b))

  -- A batch that was written is not written again within the 24 hours after: whatever batches are written
  -- after it in between, one by one, at no earlier moments, a batch with its run, kind and sequence that
  -- comes before they are over is answered with the count 0 and changes nothing, whatever it holds.
  pub replay_dropped :
      (now u run : ℕ) (kind : Kind) (n : ℕ) (entries later : List E) (outcome : Insert)
      (between : List (Write E)) (s : Store E)
      → already_ingested now s run kind (some n) ≡ false
      → AllAfter now between
      → u < now + sequence_dedupe_ttl
      → let v = write_all between (write_batch inserted now run kind entries (some n) s).0 in
        write_batch outcome u run kind later (some n) v ≡ (v, some 0)
  unfolding write_batch already_ingested
  replay_dropped now u run kind n entries later outcome between s e a b =
      rw
        (write_all-HoldsUntil now (record { run = run; kind = kind; sequence = n }) between
          (write_batch inserted now run kind entries (some n) s).0 a
          (fresh-HoldsUntil now run kind n entries s e) u b)
        refl

  not_yet :
      (now u run : ℕ) (kind : Kind) (sequence : Option ℕ) (s : Store E)
      → now ≤ u
      → already_ingested now s run kind sequence ≡ false
      → already_ingested u s run kind sequence ≡ false
  unfolding already_ingested
  not_yet now u run kind none s l h = refl
  not_yet now u run kind (some n) s l h =
      gone-later now u (record { run = run; kind = kind; sequence = n }) s.cache l h

  rows-mark :
      (now run : ℕ) (kind : Kind) (sequence : Option ℕ) (s : Store E)
      → (mark_ingested now run kind sequence s).rows ≡ s.rows
  unfolding mark_ingested
  rows-mark now run kind none s = refl
  rows-mark now run kind (some n) s = refl

  -- An insert that raises leaves a store in which the retry of the batch, then or later, writes all of it
  -- behind what was written before and counts it.
  pub retry_after_failure :
      (now u run : ℕ) (kind : Kind) (sequence : Option ℕ) (entries : List E) (s : Store E)
      → now ≤ u
      → (write_batch insert_failed now run kind entries sequence s).1 ≡ none
      → (t : Store E) × (write_batch inserted u run kind entries sequence
            (write_batch insert_failed now run kind entries sequence s).0
          ≡ (t, some (length entries)))
        × (t.rows ≡ s.rows ++ rows_of run kind entries)
  unfolding write_batch bulk_create
  retry_after_failure now u run kind sequence entries s l h =
      elim (Bool-cases (already_ingested now s run kind sequence)) [
        | inl e ↦ let c : some 0 ≡ none = rw e at h in ground (arith, c)
        | inr e ↦
            let s1 : Store E = record s { rows = s.rows ++ rows_of run kind entries } in
            (
              mark_ingested u run kind sequence s1,
              rw (e, not_yet now u run kind sequence s l e) refl,
              rows-mark u run kind sequence s1,
            )
      ]
