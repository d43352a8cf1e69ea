-- ===== src/Sdk/Redaction.antt =====
-- sdk/nautobot_remote_jobs_sdk/redaction.py: the registry of secret values and `redact`. A text is a list
-- of code points. The set of values is a list without duplicates; `clear`, for tests, is left out.
pub mod Hidden
use nautobot_app_remote_jobs.Shared.{
  ℕ, zero, suc, ◌-◌, Bool, true, false, ◌&&◌, ◌||◌, List, [], ◌∷◌, ◌++◌, ◌==◌, ltb, leb,
  if◌then◌else◌,
}
use nautobot_app_remote_jobs.Shared.Lists.{length, any}

-- MASK
abbrev pub mask : List ℕ
mask = b'(' ∷ b'r' ∷ b'e' ∷ b'd' ∷ b'a' ∷ b'c' ∷ b't' ∷ b'e' ∷ b'd' ∷ b')' ∷ []

abbrev pub same_value : List ℕ → List ℕ → Bool
same_value [] [] = true
same_value (a ∷ as_) (b ∷ bs) = (a == b) && same_value as_ bs
same_value [] (b ∷ bs) = false
same_value (a ∷ as_) [] = false

abbrev pub starts_with : List ℕ → List ℕ → Bool
starts_with [] text = true
starts_with (a ∷ v) [] = false
starts_with (a ∷ v) (c ∷ text) = (a == c) && starts_with v text

-- v in text
abbrev pub is_in : List ℕ → List ℕ → Bool
is_in v [] = starts_with v []
is_in v (c ∷ text) = starts_with v (c ∷ text) || is_in v text

-- text.replace(v, MASK) for a value that is not empty, past the next `n` code points, which belong to an
-- occurrence that was found.
unfoldable pub replace_past : ℕ → List ℕ → List ℕ → List ℕ
replace_past n v [] = []
replace_past (suc n) v (c ∷ text) = replace_past n v text
replace_past zero v (c ∷ text) =
    let found = starts_with v (c ∷ text) in
    let rest = replace_past (if found then length v - 1 else 0) v text in
    if found then mask ++ rest else c ∷ rest

abbrev pub is_registered : List ℕ → List (List ℕ) → Bool
is_registered v values = any (λ x. same_value v x) values

-- `register`, with MIN_LENGTH
unfoldable pub register : List ℕ → List (List ℕ) → List (List ℕ)
register v values =
    if ltb (length v) 4 then values else if is_registered v values then values else v ∷ values

-- `register_many`
unfoldable pub register_many : List (List ℕ) → List (List ℕ) → List (List ℕ)
register_many [] values = values
register_many (v ∷ vs) values = register_many vs (register v values)

unfoldable pub insert_longest : List ℕ → List (List ℕ) → List (List ℕ)
insert_longest v [] = v ∷ []
insert_longest v (x ∷ xs) =
    let rest = insert_longest v xs in if leb (length x) (length v) then v ∷ x ∷ xs else x ∷ rest

-- `registered_values`: the longest first
unfoldable pub registered_values : List (List ℕ) → List (List ℕ)
unfolding insert_longest
registered_values [] = []
registered_values (v ∷ vs) = insert_longest v (registered_values vs)

unfoldable pub redact_value : List ℕ → List ℕ → List ℕ
unfolding replace_past
redact_value v text = if is_in v text then replace_past 0 v text else text

unfoldable pub redact_all : List (List ℕ) → List ℕ → List ℕ
unfolding redact_value
redact_all [] text = text
redact_all (v ∷ vs) text = redact_all vs (redact_value v text)

-- `redact`
unfoldable pub redact : List (List ℕ) → List ℕ → List ℕ
unfolding redact_all registered_values
redact values text = redact_all (registered_values values) text
