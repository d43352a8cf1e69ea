-- ===== src/App/Claims/Pick.antt =====
-- The choice of the run to claim: the cache of held singletons changes nothing, and what is chosen
-- passes every test.
use nautobot_app_remote_jobs.Shared.{
  ℕ, zero, suc, Bool, true, false, ◌≡◌, refl, sym, subst, Option, none, some, List, [], ◌∷◌, arith,
  ◌&&◌, not, ◌==◌, ==_iff, Bool-cases, inl, inr, if_both, ◌∙◌,
}
use nautobot_app_remote_jobs.App.Store.Rows.{some_eq}
use nautobot_app_remote_jobs.Shared.Lists.{All, any, first, take, contains}
use nautobot_app_remote_jobs.App.Records.{Run, Env}
use nautobot_app_remote_jobs.App.Store.{in_flight}
use nautobot_app_remote_jobs.App.Claims.{
  singleton_held, lacks_capabilities, pick, queued_before, insert_by_queued, order_by_queued,
}

-- A claimed or running run of the definition exists.
abbrev pub has_holder : List Run → ℕ → Bool
has_holder rows d = any (λ r. r.job_definition == d && in_flight r.state) rows

-- What a candidate must pass, with no cache.
abbrev pub is_eligible : Env → List Run → List ℕ → Run → Bool
is_eligible env rows advertised c =
    not (lacks_capabilities env advertised c)
    && not ((env.definition c.job_definition).singleton && singleton_held rows c)

-- No claimed or running row has the key of `c`.
abbrev pub IsIdle : List Run → Run → Type 0
IsIdle rows c = All (λ r. in_flight r.state ≡ true → (r.pk == c.pk) ≡ false) rows

singleton_held-eq :
    (rows : List Run) (c : Run)
    → IsIdle rows c
    → singleton_held rows c ≡ has_holder rows c.job_definition
unfolding singleton_held
singleton_held-eq [] c h = refl
singleton_held-eq (r ∷ rows) c h = ground (arith, h.0, singleton_held-eq rows c h.1)

contains-holder :
    (rows : List Run) (held : List ℕ) (d : ℕ)
    → All (λ k. has_holder rows k ≡ true) held
    → contains held d ≡ true
    → has_holder rows d ≡ true
contains-holder rows [] d h e = cc
contains-holder rows (k ∷ held) d h e = elim (Bool-cases (k == d)) [
  | inl t ↦ subst (λ j. has_holder rows j ≡ true) ((==_iff k d).0 t) h.0
  | inr t ↦ contains-holder rows held d h.1 (ground (arith, t))
]

pick-eq-first :
    (env : Env) (rows : List Run) (advertised held : List ℕ) (cands : List Run)
    → All (IsIdle rows) cands
    → All (λ k. has_holder rows k ≡ true) held
    → pick env rows advertised held cands ≡ first (is_eligible env rows advertised) cands
unfolding pick
pick-eq-first env rows advertised held [] h k = refl
pick-eq-first env rows advertised held (c ∷ cands) h k =
    let e = singleton_held-eq rows c h.0 in
    let skip = pick-eq-first env rows advertised held cands h.1 k in
    elim (Bool-cases (has_holder rows c.job_definition)) [
      | inl t ↦ ground (
        arith,
        e,
        t,
        skip,
        pick-eq-first env rows advertised (c.job_definition ∷ held) cands h.1 (t, k),
      )
      | inr t ↦ ground (arith, e, t, skip, contains-holder rows held c.job_definition k)
    ]

pub pick_refines :
    (env : Env) (rows : List Run) (advertised : List ℕ) (cands : List Run)
    → All (IsIdle rows) cands
    → pick env rows advertised [] cands ≡ first (is_eligible env rows advertised) cands
pick_refines env rows advertised cands h = pick-eq-first env rows advertised [] cands h tt

abbrev OnSome : (Run → Type 0) → Option Run → Type 0
OnSome P none = Unit
OnSome P (some r) = P r

pick-OnSome :
    (P : Run → Type 0) (env : Env) (rows : List Run) (advertised held : List ℕ) (cands : List Run)
    → All P cands
    → OnSome P (pick env rows advertised held cands)
unfolding pick
pick-OnSome P env rows advertised held [] h = tt
pick-OnSome P env rows advertised held (c ∷ cands) h =
    let skip = pick-OnSome P env rows advertised held cands h.1 in
    let remember = pick-OnSome P env rows advertised (c.job_definition ∷ held) cands h.1 in
    if_both (OnSome P) (lacks_capabilities env advertised c) skip (
      if_both (OnSome P) (env.definition c.job_definition).singleton
        (if_both (OnSome P) (contains held c.job_definition) skip
          (if_both (OnSome P) (singleton_held rows c) remember h.0))
        h.0)

-- Whatever holds of every candidate holds of the one that is chosen.
pub pick-All :
    (P : Run → Type 0) (env : Env) (rows : List Run) (advertised : List ℕ) (cands : List Run)
    {r : Run}
    → All P cands
    → pick env rows advertised [] cands ≡ some r
    → P r
pick-All P env rows advertised cands {r} h e =
    subst (OnSome P) e (pick-OnSome P env rows advertised [] cands h)

first-passes : (p : Run → Bool) (rows : List Run) (r : Run) → first p rows ≡ some r → p r ≡ true
first-passes p [] r e = cc
first-passes p (s ∷ rows) r e = elim (Bool-cases (p s)) [
  | inl t ↦ subst (λ x. p x ≡ true) (some_eq s r (ground (arith, e, t))) t
  | inr t ↦ first-passes p rows r (ground (arith, e, t))
]

-- The chosen run passes the tests.
pub pick-is_eligible :
    (env : Env) (rows : List Run) (advertised : List ℕ) (cands : List Run) (r : Run)
    → All (IsIdle rows) cands
    → pick env rows advertised [] cands ≡ some r
    → is_eligible env rows advertised r ≡ true
pick-is_eligible env rows advertised cands r h e =
    first-passes (is_eligible env rows advertised) cands r
      (sym (pick_refines env rows advertised cands h) ∙ e)

All-insert :
    (P : Run → Type 0) (r : Run) (rows : List Run)
    → P r
    → All P rows
    → All P (insert_by_queued r rows)
unfolding insert_by_queued
All-insert P r [] p h = (p, tt)
All-insert P r (s ∷ rows) p h = elim (Bool-cases (queued_before r s)) [
  | inl e ↦ rw e (p, h)
  | inr e ↦ rw e (h.0, All-insert P r rows p h.1)
]

pub All-order : (P : Run → Type 0) (rows : List Run) → All P rows → All P (order_by_queued rows)
unfolding order_by_queued
All-order P [] h = h
All-order P (r ∷ rows) h = All-insert P r (order_by_queued rows) h.0 (All-order P rows h.1)

pub All-take : (P : Run → Type 0) (n : ℕ) (rows : List Run) → All P rows → All P (take n rows)
All-take P zero rows h = tt
All-take P (suc n) [] h = tt
All-take P (suc n) (r ∷ rows) h = (h.0, All-take P n rows h.1)
