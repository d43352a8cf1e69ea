-- ===== src/App/Store/Rows.antt =====
-- What a save keeps of a table of runs.
use nautobot_app_remote_jobs.Shared.{
  ℕ, ◌≡◌, refl, sym, ap, subst, ◌≢◌, ◌⊎◌, Option, none, some, List, [], ◌∷◌, arith, ◌==◌, ==_iff,
  Bool-cases, inl, inr, map, if◌then◌else◌, is_some,
}
use nautobot_app_remote_jobs.Shared.Lists.{All}
use nautobot_app_remote_jobs.App.Records.{Run, World}
use nautobot_app_remote_jobs.App.Store.{find_run, set_run}

pub some_eq : (s r : Run) → some s ≡ some r → s ≡ r
some_eq s r e = cc

module _ (P : Run → Type 0) where
  pub All-set_run : (r : Run) (rows : List Run) → P r → All P rows → All P (set_run r rows)
  unfolding set_run
  All-set_run r [] p h = h
  All-set_run r (s ∷ rows) p h = elim (Bool-cases (s.pk == r.pk)) [
    | inl e ↦ rw e (p, All-set_run r rows p h.1)
    | inr e ↦ rw e (h.0, All-set_run r rows p h.1)
  ]

  pub All-find_run :
      (k : ℕ) (rows : List Run) {r : Run} → All P rows → find_run k rows ≡ some r → P r
  unfolding find_run
  All-find_run k [] h e = cc
  All-find_run k (s ∷ rows) {r} h e = elim (Bool-cases (s.pk == k)) [
    | inl t ↦ subst P (some_eq s r (ground (arith, t))) h.0
    | inr t ↦ All-find_run k rows h.1 (ground arith)
  ]

-- What of a run no handler changes once the row exists.
pub record Shape : Type 0 where
  pub pk : ℕ
  pub job_definition : ℕ
  pub parent : Option ℕ
  pub zone : Option ℕ

abbrev pub shape : Run → Shape
shape r = record { pk = r.pk; job_definition = r.job_definition; parent = r.parent; zone = r.zone }

abbrev pub shapes : World → List Shape
shapes w = map shape w.runs

-- The row with the key of `s`, if there is one, has the shape `s`.
abbrev pub Agrees : Shape → List Shape → Type 0
Agrees s = All (λ x. x.pk ≡ s.pk → x ≡ s)

-- Primary keys are unique.
abbrev pub DistinctKeys : List Shape → Type 0
DistinctKeys [] = Unit
DistinctKeys (s ∷ rest) = All (λ x. x.pk ≢ s.pk) rest × DistinctKeys rest

-- A save of a row that agrees with its table keeps the shapes.
pub shapes-set_run :
    (r : Run) (rows : List Run)
    → Agrees (shape r) (map shape rows)
    → map shape (set_run r rows) ≡ map shape rows
unfolding set_run
shapes-set_run r [] h = refl
shapes-set_run r (s ∷ rows) h = elim (Bool-cases (s.pk == r.pk)) [
  | inl e ↦ rw (e, shapes-set_run r rows h.1, h.0 ((==_iff s.pk r.pk).0 e)) refl
  | inr e ↦ rw (e, shapes-set_run r rows h.1) refl
]

Agrees-ne : (s : Shape) (rest : List Shape) → All (λ x. x.pk ≢ s.pk) rest → Agrees s rest
Agrees-ne s [] h = tt
Agrees-ne s (x ∷ rest) h = (λ e. absurd (h.0 e), Agrees-ne s rest h.1)

All-map :
    (P : Shape → Type 0) (rows : List Run) → All P (map shape rows) → All (λ r. P (shape r)) rows
All-map P [] h = tt
All-map P (r ∷ rows) h = (h.0, All-map P rows h.1)

abbrev pub Member : {A : Type 0} → A → List A → Type 0
Member x [] = ⊥
Member x (y ∷ ys) = (y ≡ x) ⊎ Member x ys

pub All-Member {κ} :
    {A : Type 0} (P : A → Type κ) (x : A) (xs : List A) → Member x xs → All P xs → P x
All-Member P x [] m h = absurd m
All-Member P x (y ∷ ys) (inl e) h = subst P e h.0
All-Member P x (y ∷ ys) (inr m) h = All-Member P x ys m h.1

-- A row of the table, up to what handlers change.
abbrev pub Listed : Run → List Run → Type 0
Listed r rows = Member (shape r) (map shape rows)

pub find_run-Listed : (k : ℕ) (rows : List Run) {r : Run} → find_run k rows ≡ some r → Listed r rows
unfolding find_run
find_run-Listed k [] e = cc
find_run-Listed k (s ∷ rows) {r} e = elim (Bool-cases (s.pk == k)) [
  | inl t ↦ inl (ap shape (some_eq s r (ground (arith, t))))
  | inr t ↦ inr (find_run-Listed k rows {r = r} (ground (arith, t)))
]

pub Member-Agrees : (s : Shape) (shs : List Shape) → DistinctKeys shs → Member s shs → Agrees s shs
Member-Agrees s [] d m = absurd m
Member-Agrees s (x ∷ rest) d (inl e) =
    subst (λ y. Agrees y (x ∷ rest)) e (λ _. refl, Agrees-ne x rest d.0)
Member-Agrees s (x ∷ rest) d (inr m) =
    (λ q. absurd (All-Member (λ y. y.pk ≢ x.pk) s rest m d.0 (sym q)), Member-Agrees s rest d.1 m)

pub pk-find_run : (k : ℕ) (rows : List Run) {r : Run} → find_run k rows ≡ some r → r.pk ≡ k
unfolding find_run
pk-find_run k [] e = cc
pk-find_run k (s ∷ rows) {r} e = elim (Bool-cases (s.pk == k)) [
  | inl t ↦ subst (λ x. x.pk ≡ k) (some_eq s r (ground (arith, t))) ((==_iff s.pk k).0 t)
  | inr t ↦ pk-find_run k rows {r = r} (ground (arith, t))
]

-- Only the last of two saves of a row counts.
pub set_run-set_run :
    (r s : Run) (rows : List Run) → s.pk ≡ r.pk → set_run r (set_run s rows) ≡ set_run r rows
unfolding set_run
set_run-set_run r s [] e = refl
set_run-set_run r s (x ∷ rows) e = ground (arith, set_run-set_run r s rows e)

-- A query by key after a save.
pub find_run-set_run :
    (k : ℕ) (r : Run) (rows : List Run)
    → find_run k (set_run r rows) ≡ (
        if r.pk == k then (if is_some (find_run k rows) then some r else none) else find_run k rows)
unfolding find_run set_run
find_run-set_run k r [] = ground arith
find_run-set_run k r (s ∷ rows) = ground (arith, find_run-set_run k r rows)
