-- ===== src/App/Submission/Redaction.antt =====
-- What `redact_inputs` of dispatch/submission.py hides, and what it keeps.
use nautobot_app_remote_jobs.Shared.{String, Bool, true, false, ◌≡◌, ◌||◌, ◌&&◌, str_eq}
use nautobot_app_remote_jobs.Shared.Json.{Json, Fields, end, field}
use nautobot_app_remote_jobs.Shared.Lists.{All}
use nautobot_app_remote_jobs.App.Submission.{placeholder, Inputs, is_write_only}

-- The schema marks the key `writeOnly`.
abbrev pub is_secret : Fields → String → Bool
is_secret end k = false
is_secret (field j subschema properties) k =
    (is_write_only subschema && str_eq k j) || is_secret properties k

-- Every input that the schema marks is the placeholder.
abbrev pub IsHidden : Fields → Inputs → Type 0
IsHidden properties = All (λ p. is_secret properties p.0 ≡ true → p.1 ≡ placeholder)

abbrev KeyHidden : String → Inputs → Type 0
KeyHidden k = All (λ p. str_eq p.0 k ≡ true → p.1 ≡ placeholder)

-- The same but for one key.
abbrev pub IsHiddenBut : String → Fields → Inputs → Type 0
IsHiddenBut key properties =
    All (λ p. str_eq p.0 key ≡ false → is_secret properties p.0 ≡ true → p.1 ≡ placeholder)
