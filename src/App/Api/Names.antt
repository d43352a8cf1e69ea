-- ===== src/App/Api/Names.antt =====
-- The names under which artifacts are stored stay in the directory of their run.
use nautobot_app_remote_jobs.Shared.{
  ℕ, not, Bool, true, false, ◌≡◌, refl, List, [], ◌∷◌, ◌++◌, ◌==◌, ◌||◌, arith, Bool-cases, inl,
  inr,
}
use nautobot_app_remote_jobs.Shared.Lists.{contains}
use nautobot_app_remote_jobs.App.Claims.{after_last}
use nautobot_app_remote_jobs.App.Api.Artifacts.{slashes, lstrip_dots, or_artifact, safe_name}

slashes-clean : (cs : List ℕ) → contains (slashes cs) b'\\' ≡ false
unfolding slashes
slashes-clean [] = refl
slashes-clean (c ∷ cs) = ground (arith, slashes-clean cs)

contains-snoc : (xs : List ℕ) (c k : ℕ) → contains (xs ++ c ∷ []) k ≡ (contains xs k || (c == k))
contains-snoc [] c k = ground arith
contains-snoc (x ∷ xs) c k = ground (arith, contains-snoc xs c k)

-- A character that is in neither the accumulator nor the text, or is the separator, is not in the result.
after_last-clean :
    (sep k : ℕ) (acc cs : List ℕ)
    → contains acc k ≡ false
    → contains cs k ≡ false
    → contains (after_last sep acc cs) k ≡ false
unfolding after_last
after_last-clean sep k acc [] a h = a
after_last-clean sep k acc (c ∷ cs) a h = elim (Bool-cases (c == sep)) [
  | inl e ↦ rw e (after_last-clean sep k [] cs refl (ground (arith, h)))
  | inr e ↦ rw e (
      after_last-clean sep k (acc ++ c ∷ []) cs
        (let s = contains-snoc acc c k in ground (arith, s, a, h)) (ground (arith, h)))
]

after_last-sep :
    (sep : ℕ) (acc cs : List ℕ)
    → contains acc sep ≡ false
    → contains (after_last sep acc cs) sep ≡ false
unfolding after_last
after_last-sep sep acc [] a = a
after_last-sep sep acc (c ∷ cs) a = elim (Bool-cases (c == sep)) [
  | inl e ↦ rw e (after_last-sep sep [] cs refl)
  | inr e ↦ rw e (
      after_last-sep sep (acc ++ c ∷ []) cs
        (let s = contains-snoc acc c sep in ground (arith, s, a, e)))
]

lstrip-clean : (k : ℕ) (cs : List ℕ) → contains cs k ≡ false → contains (lstrip_dots cs) k ≡ false
unfolding lstrip_dots
lstrip-clean k [] h = refl
lstrip-clean k (c ∷ cs) h =
    let rest = lstrip-clean k cs (ground (arith, h)) in ground (arith, h, rest)

-- A text that is not empty and does not begin with a dot.
abbrev pub begins_well : List ℕ → Bool
begins_well [] = false
begins_well (c ∷ cs) = not (c == b'.')

abbrev well_or_empty : List ℕ → Bool
well_or_empty [] = true
well_or_empty (c ∷ cs) = not (c == b'.')

lstrip-begins : (cs : List ℕ) → well_or_empty (lstrip_dots cs) ≡ true
unfolding lstrip_dots
lstrip-begins [] = refl
lstrip-begins (c ∷ cs) = let rest = lstrip-begins cs in ground (arith, rest)

or_artifact-clean :
    (k : ℕ) (cs : List ℕ)
    → contains (or_artifact []) k ≡ false
    → contains cs k ≡ false
    → contains (or_artifact cs) k ≡ false
or_artifact-clean k [] d h = d
or_artifact-clean k (c ∷ cs) d h = h

or_artifact-begins : (cs : List ℕ) → well_or_empty cs ≡ true → begins_well (or_artifact cs) ≡ true
or_artifact-begins [] h = refl
or_artifact-begins (c ∷ cs) h = h

-- Whatever name a job gives, the name that its artifact is stored under has no slash and no backslash, is
-- not empty and does not begin with a dot, so that it leads to no other directory.
pub safe_name_stays :
    (name : List ℕ)
    → (contains (safe_name name) b'/' ≡ false)
      × (contains (safe_name name) b'\\' ≡ false)
      × (begins_well (safe_name name) ≡ true)
unfolding safe_name
safe_name_stays name =
    let base : List ℕ = after_last b'/' [] (slashes name) in
    (
      or_artifact-clean b'/' (lstrip_dots base) refl
          (lstrip-clean b'/' base (after_last-sep b'/' [] (slashes name) refl)),
      or_artifact-clean b'\\' (lstrip_dots base) refl (
          lstrip-clean b'\\' base
            (after_last-clean b'/' b'\\' [] (slashes name) refl (slashes-clean name))),
      or_artifact-begins (lstrip_dots base) (lstrip-begins base),
    )
