-- ===== src/Worker/Journal.antt =====
-- worker/remote_worker/journal.py: the journal of the runs that a worker has accepted. The state volume is a
-- list of files; what a file holds is an entry, or nothing that can be read. A moment is a number of seconds.
pub mod Kept
use nautobot_app_remote_jobs.Shared.{
  ℕ, String, Bool, true, false, ◌||◌, Option, none, some, List, [], ◌∷◌, leb, if◌then◌else◌, str_eq,
  map, or_else,
}
use Prim.Native.Char.{Char}
use nautobot_app_remote_jobs.Shared.Json.{Fields}
use nautobot_app_remote_jobs.Worker.Paths.{path_of}

-- The JobOffer of job.claim: its `run_id` as a text, and the rest.
pub record Offer : Type 0 where
  pub run_id : String
  pub members : Fields

-- JournalEntry
pub record JournalEntry : Type 0 where
  pub run_id : String
  pub offer : Offer
  pub started_at : ℕ

-- One file of the directory.
pub record File : Type 0 where
  pub path : String
  pub content : Option JournalEntry

abbrev pub Disk : Type 0
Disk = List File

-- path.read_text(), parsed; none where there is no such file or nothing that can be read
unfoldable pub read_path : String → Disk → Option JournalEntry
read_path path [] = none
read_path path (f ∷ files) =
    let rest = read_path path files in if str_eq f.path path then f.content else rest

-- os.replace of a temporary file onto the path
unfoldable pub write_path : String → JournalEntry → Disk → Disk
write_path path entry [] = record { path = path; content = some entry } ∷ []
write_path path entry (f ∷ files) =
    let rest = write_path path entry files in
    if str_eq f.path path then record { path = path; content = some entry } ∷ files else f ∷ rest

-- unlink
unfoldable pub unlink_path : String → Disk → Disk
unlink_path path [] = []
unlink_path path (f ∷ files) =
    let rest = unlink_path path files in if str_eq f.path path then rest else f ∷ rest

module _ (is_alnum : Char → Bool) where
  -- RunJournal.get
  unfoldable pub get : String → Disk → Option JournalEntry
  unfolding read_path
  get run_id d = read_path (path_of is_alnum run_id) d

  abbrev pub new_entry : Offer → ℕ → JournalEntry
  new_entry o at_time = record { run_id = o.run_id; offer = o; started_at = at_time }

  abbrev pub add_new : Offer → ℕ → Disk → Option JournalEntry → Disk × JournalEntry
  add_new o at_time d (some entry) = (d, entry)
  add_new o at_time d none =
      (write_path (path_of is_alnum o.run_id) (new_entry o at_time) d, new_entry o at_time)

  -- RunJournal.add; `at_time` is `started_at`, or the clock where that is None
  unfoldable pub add : Offer → ℕ → Disk → Disk × JournalEntry
  unfolding get write_path
  add o at_time d = add_new o at_time d (get o.run_id d)

  -- RunJournal.remove
  unfoldable pub remove : String → Disk → Disk
  unfolding unlink_path
  remove run_id d = unlink_path (path_of is_alnum run_id) d

-- The entries that can be read, in the order of the files' names.
unfoldable pub readable : Disk → List JournalEntry
readable [] = []
readable (f ∷ files) = elim (f.content) [
  | none ↦ readable files
  | some entry ↦ entry ∷ readable files
]

unfoldable pub insert_entry : JournalEntry → List JournalEntry → List JournalEntry
insert_entry e [] = e ∷ []
insert_entry e (x ∷ xs) =
    let rest = insert_entry e xs in if leb e.started_at x.started_at then e ∷ x ∷ xs else x ∷ rest

-- entries.sort(key=lambda entry: entry.started_at)
unfoldable pub sort_entries : List JournalEntry → List JournalEntry
unfolding insert_entry
sort_entries [] = []
sort_entries (e ∷ es) = insert_entry e (sort_entries es)

-- RunJournal.load_all; the disk lists its files by name.
unfoldable pub load_all : Disk → List JournalEntry
unfolding readable sort_entries
load_all d = sort_entries (readable d)

-- RunJournal.run_ids
unfoldable pub run_ids : Disk → List String
run_ids d = map (λ e. e.run_id) (load_all d)
