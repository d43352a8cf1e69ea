-- ===== src/App/Ingestion.antt =====
-- nautobot_remote_jobs/api/ingestion.py: batches of log and console entries are written once for each
-- (run, kind, client sequence) while the cache holds its key. Batches are written one after another; a
-- write returns what it leaves also where it raises. An entry is a value of any type, already normalised.
pub mod Once
use nautobot_app_remote_jobs.Shared.{
  ℕ, ◌+◌, Bool, true, false, ◌≡◌, not, ◌&&◌, Option, none, some, List, [], ◌∷◌, ◌++◌, arith, ◌==◌,
  ltb, if◌then◌else◌,
}
use nautobot_app_remote_jobs.Shared.Lists.{length, any, select}

-- `kind` of the dedupe key
pub data Kind : Type 0 where
  logs console : Kind

abbrev pub kind_eq : Kind → Kind → Bool
kind_eq logs logs = true
kind_eq console console = true
kind_eq _ _ = false

-- `_dedupe_key`
pub record DedupeKey : Type 0 where
  pub run : ℕ
  pub kind : Kind
  pub sequence : ℕ

abbrev pub key_eq : DedupeKey → DedupeKey → Bool
key_eq a b = (a.run == b.run) && (kind_eq a.kind b.kind && (a.sequence == b.sequence))

-- What `validate_batch_limits` answers: the two limits of constants.py, or no objection.
pub data LimitError : Type 0 where
  too_many_entries too_many_bytes : LimitError

-- `validate_batch_limits` of a list of entries whose JSON text has `bytes` characters
unfoldable pub validate_batch_limits {ℓ} : {E : Type ℓ} → List E → ℕ → Option LimitError
validate_batch_limits entries bytes =
    if ltb 500 (length entries)
    then some too_many_entries
    else if ltb 262144 bytes
    then some too_many_bytes
    else none

-- SEQUENCE_DEDUPE_TTL, in seconds
abbrev pub sequence_dedupe_ttl : ℕ
sequence_dedupe_ttl = 86400

-- A key of the cache, with the moment from which it is gone.
abbrev pub Cached : Type 0
Cached = DedupeKey × ℕ

-- The cache of ingested keys, and the entries written, each with its run and kind, in order.
pub record Store {ℓ} (E : Type ℓ) : Type ℓ where
  pub cache : List Cached
  pub rows : List (ℕ × Kind × E)

-- Whether the bulk insert of this batch fails is the database's doing.
pub data Insert : Type 0 where
  inserted insert_failed : Insert

pub key_eq_refl : (k : DedupeKey) → key_eq k k ≡ true
key_eq_refl k = ground arith

-- The cache has the key at a moment.
abbrev pub holds_at : ℕ → DedupeKey → Cached → Bool
holds_at now key c = key_eq c.0 key && ltb now c.1

-- cache.set(key, 1, timeout)
unfoldable pub cache_set : ℕ → DedupeKey → List Cached → List Cached
cache_set now key cache =
    (key, now + sequence_dedupe_ttl) ∷ select (λ c. not (key_eq c.0 key)) cache

module _ {ℓ} {E : Type ℓ} where
  -- `_already_ingested`
  unfoldable pub already_ingested : ℕ → Store E → ℕ → Kind → Option ℕ → Bool
  already_ingested now s run kind none = false
  already_ingested now s run kind (some sequence) =
      any (holds_at now (record { run = run; kind = kind; sequence = sequence })) s.cache

  -- `_mark_ingested`
  unfoldable pub mark_ingested : ℕ → ℕ → Kind → Option ℕ → Store E → Store E
  unfolding cache_set
  mark_ingested now run kind none s = s
  mark_ingested now run kind (some sequence) s = record s {
    cache = cache_set now (record { run = run; kind = kind; sequence = sequence }) s.cache;
  }

  abbrev pub rows_of : ℕ → Kind → List E → List (ℕ × Kind × E)
  rows_of run kind [] = []
  rows_of run kind (e ∷ entries) = (run, kind, e) ∷ rows_of run kind entries

  -- bulk_create, and whether it returned
  unfoldable pub bulk_create : Insert → ℕ → Kind → List E → Store E → Store E × Bool
  bulk_create insert_failed run kind entries s = (s, false)
  bulk_create inserted run kind entries s =
      (record s { rows = s.rows ++ rows_of run kind entries }, true)

  -- `write_log_batch` and `write_console_batch`, for a run that exists: the store that is left, and the
  -- count, or `none` where the insert raises.
  unfoldable pub write_batch :
      Insert → ℕ → ℕ → Kind → List E → Option ℕ → Store E → Store E × Option ℕ
  unfolding already_ingested mark_ingested bulk_create
  write_batch insert now run kind entries sequence s =
      if already_ingested now s run kind sequence
      then (s, some 0)
      else let (s1, returned) = bulk_create insert run kind entries s in
        if returned
        then (mark_ingested now run kind sequence s1, some (length entries))
        else (s1, none)

-- A batch that is written, with its moment.
pub record Write {ℓ} (E : Type ℓ) : Type ℓ where
  pub insert : Insert
  pub now : ℕ
  pub run : ℕ
  pub kind : Kind
  pub entries : List E
  pub sequence : Option ℕ

module _ {ℓ} {E : Type ℓ} where
  unfoldable pub write_all : List (Write E) → Store E → Store E
  unfolding write_batch
  write_all [] s = s
  write_all (b ∷ bs) s =
      write_all bs (write_batch b.insert b.now b.run b.kind b.entries b.sequence s).0
