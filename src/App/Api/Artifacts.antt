-- ===== src/App/Api/Artifacts.antt =====
-- nautobot_remote_jobs/api/worker_views.py: the artifacts of a run, from the upload slot to the record of
-- the upload. A text is a list of code points; the storage backend is a parameter.
use nautobot_app_remote_jobs.Shared.{
  ℕ, Bool, true, false, ◌&&◌, Option, none, some, List, [], ◌∷◌, ◌==◌, ltb, if◌then◌else◌, or_else,
}
use nautobot_app_remote_jobs.Shared.Lists.{first}
use nautobot_app_remote_jobs.App.Records.{Run, World}
use nautobot_app_remote_jobs.App.Claims.{after_last}
use nautobot_app_remote_jobs.App.Api.{
  Caller, get_authorized_run, is_refused, Status, http_200, http_400, http_401, http_404, http_413,
}

-- Where an artifact is stored: the path given to the backend, or the one that it answered.
pub data StoragePath : Type 0 where
  under_run : ℕ → List ℕ → StoragePath
  saved_at : List ℕ → StoragePath

-- RunArtifact
pub record Artifact : Type 0 where
  pub pk : ℕ
  pub run : ℕ
  pub name : List ℕ
  pub content_type : List ℕ
  pub size_bytes : ℕ
  pub storage_path : StoragePath
  pub sha256 : List ℕ
  pub uploaded : Bool

-- str(name).replace("\\", "/")
unfoldable pub slashes : List ℕ → List ℕ
slashes [] = []
slashes (c ∷ cs) = (if c == b'\\' then b'/' else c) ∷ slashes cs

-- text.lstrip(".")
unfoldable pub lstrip_dots : List ℕ → List ℕ
lstrip_dots [] = []
lstrip_dots (c ∷ cs) = let rest = lstrip_dots cs in if c == b'.' then rest else c ∷ cs

abbrev pub or_artifact : List ℕ → List ℕ
or_artifact [] = b'a' ∷ b'r' ∷ b't' ∷ b'i' ∷ b'f' ∷ b'a' ∷ b'c' ∷ b't' ∷ []
or_artifact (c ∷ cs) = c ∷ cs

-- `safe_name` of RunArtifactsView.post
unfoldable pub safe_name : List ℕ → List ℕ
unfolding slashes lstrip_dots
safe_name name = or_artifact (lstrip_dots (after_last b'/' [] (slashes name)))

abbrev pub same_text : List ℕ → List ℕ → Bool
same_text [] [] = true
same_text (a ∷ as_) (b ∷ bs) = (a == b) && same_text as_ bs
same_text [] (b ∷ bs) = false
same_text (a ∷ as_) [] = false

-- The row of the run with the name.
unfoldable pub find_slot : ℕ → List ℕ → List Artifact → Option Artifact
find_slot run name rows = first (λ a. (a.run == run) && same_text a.name name) rows

-- The body of the request for a slot; `size_bytes` is none where it is absent or false.
pub record SlotRequest : Type 0 where
  pub name : List ℕ
  pub content_type : List ℕ
  pub size_bytes : Option ℕ

unfoldable pub new_artifact : ℕ → ℕ → SlotRequest → Artifact
unfolding safe_name
new_artifact pk run q = record {
  pk = pk;
  run = run;
  name = q.name;
  content_type = q.content_type;
  size_bytes = or_else q.size_bytes 0;
  storage_path = under_run run (safe_name q.name);
  sha256 = [];
  uploaded = false;
}

abbrev pub get_or_create : ℕ → ℕ → SlotRequest → List Artifact → Option Artifact → List Artifact × ℕ
get_or_create pk run q rows (some a) = (rows, a.pk)
get_or_create pk run q rows none = (new_artifact pk run q ∷ rows, pk)

-- An answer, with the key of the artifact.
abbrev pub slot_for :
    ℕ → SlotRequest → List Artifact → Option Run → List Artifact × Status × Option ℕ
slot_for pk q rows none = (rows, http_404, none)
slot_for pk q rows (some r) = elim (q.name) [
  | [] ↦ (rows, http_400, none)
  | _ ∷ _ ↦
      let s = get_or_create pk r.pk q rows (find_slot r.pk q.name rows) in (s.0, http_200, some s.1)
]

-- RunArtifactsView.post, with the key of a new row
unfoldable pub post_artifact :
    Caller → ℕ → ℕ → SlotRequest → World → List Artifact → List Artifact × Status × Option ℕ
unfolding find_slot new_artifact
post_artifact c run_id pk q w rows =
    if is_refused c
    then (rows, http_401, none)
    else slot_for pk q rows (get_authorized_run c run_id w)

unfoldable pub set_artifact : Artifact → List Artifact → List Artifact
set_artifact a [] = []
set_artifact a (b ∷ rows) = (if b.pk == a.pk then a else b) ∷ set_artifact a rows

-- RunArtifact.objects.get(pk=artifact_id, run=run)
unfoldable pub find_artifact : ℕ → Run → List Artifact → Option Artifact
find_artifact k r rows = first (λ a. (a.pk == k) && (a.run == r.pk)) rows

-- storage.save(path, content), which answers the path it used
abbrev pub Storage : Type 0
Storage = StoragePath → ℕ → List ℕ

-- `declared` is the header CONTENT_LENGTH where it is a number, `bytes` the length of the body.
abbrev pub stored :
    Storage → ℕ → Option ℕ → ℕ → List Artifact → Option Artifact → List Artifact × Status
stored save max_bytes declared bytes rows none = (rows, http_404)
stored save max_bytes declared bytes rows (some a) =
    if ltb max_bytes (or_else declared 0)
    then (rows, http_413)
    else if ltb max_bytes bytes
    then (rows, http_413)
    else (
      set_artifact
          (record a { storage_path = saved_at (save a.storage_path bytes); size_bytes = bytes })
          rows,
      http_200,
    )

abbrev pub stored_for :
    Storage → ℕ → ℕ → Option ℕ → ℕ → List Artifact → Option Run → List Artifact × Status
stored_for save max_bytes k declared bytes rows none = (rows, http_404)
stored_for save max_bytes k declared bytes rows (some r) =
    stored save max_bytes declared bytes rows (find_artifact k r rows)

-- RunArtifactContentView.put
unfoldable pub put_content :
    Storage → ℕ → Caller → ℕ → ℕ → Option ℕ → ℕ → World → List Artifact → List Artifact × Status
unfolding set_artifact find_artifact
put_content save max_bytes c run_id k declared bytes w rows =
    if is_refused c
    then (rows, http_401)
    else stored_for save max_bytes k declared bytes rows (get_authorized_run c run_id w)

abbrev pub completed : List ℕ → List Artifact → Option Artifact → List Artifact × Status
completed sha256 rows none = (rows, http_404)
completed sha256 rows (some a) =
    (set_artifact (record a { sha256 = sha256; uploaded = true }) rows, http_200)

abbrev pub completed_for : ℕ → List ℕ → List Artifact → Option Run → List Artifact × Status
completed_for k sha256 rows none = (rows, http_404)
completed_for k sha256 rows (some r) = completed sha256 rows (find_artifact k r rows)

-- RunArtifactCompleteView.put
unfoldable pub put_complete :
    Caller → ℕ → ℕ → List ℕ → World → List Artifact → List Artifact × Status
unfolding set_artifact find_artifact
put_complete c run_id k sha256 w rows =
    if is_refused c
    then (rows, http_401)
    else completed_for k sha256 rows (get_authorized_run c run_id w)
