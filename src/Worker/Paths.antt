-- ===== src/Worker/Paths.antt =====
-- worker/remote_worker/journal.py: `_path`, the name of the file of a run. `str.isalnum` is a parameter.
use nautobot_app_remote_jobs.Shared.{Bool, ◌||◌, ◌==◌, if◌then◌else◌}
use Prim.Native.String.{String, [], ◌∷◌, ◌++◌}
use Prim.Native.Char.{Char, code}

-- c.isalnum() or c in "-_"
abbrev pub is_safe : (Char → Bool) → Char → Bool
is_safe is_alnum c = is_alnum c || (code c == b'-' || code c == b'_')

unfoldable pub sanitized : (Char → Bool) → String → String
sanitized is_alnum [] = []
sanitized is_alnum (c ∷ s) =
    let rest = sanitized is_alnum s in if is_safe is_alnum c then c ∷ rest else rest

-- `_path`
unfoldable pub path_of : (Char → Bool) → String → String
unfolding sanitized
path_of is_alnum run_id = sanitized is_alnum run_id ++ ".json"
