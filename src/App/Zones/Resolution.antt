-- ===== src/App/Zones/Resolution.antt =====
-- Which zone a device resolves to.
use nautobot_app_remote_jobs.Shared.{
  ℕ, ◌≤◌, Bool, true, false, ◌≡◌, Option, none, some, List, [], ◌∷◌, arith, inl, inr, Bool-cases,
  subst, refl,
}
use nautobot_app_remote_jobs.Shared.Lists.{All, select}
use nautobot_app_remote_jobs.App.Records.{Env}
use nautobot_app_remote_jobs.App.Store.Rows.{Member}
use nautobot_app_remote_jobs.App.Zones.{
  Device, Inventory, is_match, matching_zones, zone_le, insert_zone, sort_zones, head, resolve_zone,
}

-- The first of a sorted list: no zone of the list has a lower priority value.
abbrev Winner : Env → List ℕ → Option ℕ → Type 0
Winner env zs none = All (λ _. ⊥) zs
Winner env zs (some z) = Member z zs × All (λ y. (env.zone z).priority ≤ (env.zone y).priority) zs

All-imp : {P Q : ℕ → Type 0} (xs : List ℕ) → ((x : ℕ) → P x → Q x) → All P xs → All Q xs
All-imp [] f h = tt
All-imp (x ∷ xs) f h = (f x h.0, All-imp xs f h.1)

zone_le-priority :
    (env : Env) (a b : ℕ) → zone_le env a b ≡ true → (env.zone a).priority ≤ (env.zone b).priority
unfolding zone_le
zone_le-priority env a b h = ground arith

not-zone_le :
    (env : Env) (a b : ℕ) → zone_le env a b ≡ false → (env.zone b).priority ≤ (env.zone a).priority
unfolding zone_le
not-zone_le env a b h = ground arith

insert-Winner :
    (env : Env) (z : ℕ) (sorted zs : List ℕ)
    → Winner env zs (head sorted)
    → Winner env (z ∷ zs) (head (insert_zone env z sorted))
unfolding insert_zone
insert-Winner env z [] zs h = (inl refl, (omega arith, All-imp zs (λ x b. absurd b) h))
insert-Winner env z (y ∷ sorted) zs h = elim (Bool-cases (zone_le env z y)) [
  | inl e ↦ rw e (
    inl refl,
    (omega arith, All-imp zs (λ x p. omega (arith, p, zone_le-priority env z y e)) h.1),
  )
  | inr e ↦ rw e (inr h.0, (not-zone_le env z y e, h.1))
]

sort-Winner : (env : Env) (zs : List ℕ) → Winner env zs (head (sort_zones env zs))
unfolding sort_zones
sort-Winner env [] = tt
sort-Winner env (z ∷ zs) = insert-Winner env z (sort_zones env zs) zs (sort-Winner env zs)

Member-select :
    (p : ℕ → Bool) (z : ℕ) (zs : List ℕ) → Member z (select p zs) → Member z zs × (p z ≡ true)
Member-select p z [] m = absurd m
Member-select p z (y ∷ zs) m = elim (Bool-cases (p y)) [
  | inl e ↦ elim (rw e at m) [
    | inl q ↦ (inl q, subst (λ x. p x ≡ true) q e)
    | inr q ↦ let (a, b) = Member-select p z zs q in (inr a, b)
  ]
  | inr e ↦ let (a, b) = Member-select p z zs (rw e at m) in (inr a, b)
]

All-of_select :
    (P : ℕ → Type 0) (p : ℕ → Bool) (zs : List ℕ)
    → All P (select p zs)
    → All (λ y. p y ≡ true → P y) zs
All-of_select P p [] h = tt
All-of_select P p (y ∷ zs) h = elim (Bool-cases (p y)) [
  | inl e ↦ let h' = rw e at h in (λ _. h'.0, All-of_select P p zs h'.1)
  | inr e ↦ (λ t. absurd (cc), All-of_select P p zs (rw e at h))
]

-- What `resolve_zone` promises of its answer.
abbrev pub IsResolution : Inventory → Env → Device → Option ℕ → Type 0
IsResolution inv env device none = All (λ y. is_match inv env device y ≡ true → ⊥) env.zone_pks
IsResolution inv env device (some z) =
    Member z env.zone_pks
    × (is_match inv env device z ≡ true)
    × All (λ y. is_match inv env device y ≡ true → (env.zone z).priority ≤ (env.zone y).priority)
        env.zone_pks

resolved :
    (inv : Inventory) (env : Env) (device : Device) (o : Option ℕ)
    → Winner env (select (is_match inv env device) env.zone_pks) o
    → IsResolution inv env device o
resolved inv env device none h = All-of_select (λ _. ⊥) (is_match inv env device) env.zone_pks h
resolved inv env device (some z) h =
    let (m, t) = Member-select (is_match inv env device) z env.zone_pks h.0 in
    (
      m,
      t,
      All-of_select (λ y. (env.zone z).priority ≤ (env.zone y).priority) (is_match inv env device)
          env.zone_pks h.1,
    )

-- A device resolves to an enabled zone with a rule that matches it, and no such zone has a lower
-- priority value; it resolves to none only if no enabled zone has a rule that matches.
pub resolve_zone_best :
    (inv : Inventory) (env : Env) (device : Device)
    → IsResolution inv env device (resolve_zone inv env device)
unfolding resolve_zone
resolve_zone_best inv env device =
    resolved inv env device (resolve_zone inv env device)
      (unfold matching_zones in sort-Winner env (matching_zones inv env device))
