-- ===== src/App/Submission/Placement.antt =====
-- Which zone a submission of the policies `pinned` and `any` goes to.
use nautobot_app_remote_jobs.Shared.{
  ℕ, Bool, true, false, ◌≡◌, ◌≢◌, ◌⊎◌, inl, inr, refl, ap, subst, Option, none, some, List, [], ◌∷◌,
  arith, Bool-cases,
}
use nautobot_app_remote_jobs.Shared.Lists.{first}
use nautobot_app_remote_jobs.App.Choices.{pinned, FailoverPolicy, wait, failover}
use nautobot_app_remote_jobs.App.Records.{
  Env, World, JobDefinition, no_capacity_fail_fast, no_capacity_zone_local,
}
use nautobot_app_remote_jobs.App.Zones.{zone_has_online_capacity}
use nautobot_app_remote_jobs.App.Submission.{
  Placed, takes_over, fail_over, resolve_submission_zone, apply_failover, then_failover, place,
}

-- The run can be claimed in the zone now, or the zone's policy lets it wait.
abbrev pub CanServe : Env → World → JobDefinition → ℕ → Type 0
CanServe env w d z =
    (zone_has_online_capacity env w d.capabilities z ≡ true)
    ⊎ ((env.zone z).failover_policy ≢ FailoverPolicy.none)

some_inj : (a b : ℕ) → ◌≡◌ {A = Option ℕ} (some a) (some b) → a ≡ b
some_inj a b e = cc

first_passes : (p : ℕ → Bool) (zs : List ℕ) (z : ℕ) → first p zs ≡ some z → p z ≡ true
first_passes p [] z e = cc
first_passes p (y ∷ zs) z e = elim (Bool-cases (p y)) [
  | inl t ↦ subst (λ x. p x ≡ true) (some_inj y z (ground (arith, e, t))) t
  | inr t ↦ first_passes p zs z (ground (arith, e, t))
]

-- What holds of the zone that `_apply_failover` gives for the zone `z`.
abbrev Served : Env → World → JobDefinition → ℕ → Option ℕ → Type 0
Served env w d z none = Unit
Served env w d z (some y) = CanServe env w d y × (d.requires_zone_local ≡ true → z ≡ y)

fail_over-Served :
    (env : Env) (w : World) (d : JobDefinition) (z : ℕ) (o : Option ℕ)
    → first (takes_over env w d) (env.zone z).ordered_failover_zones ≡ o
    → (env.zone z).failover_policy ≡ failover
    → d.requires_zone_local ≡ false
    → Served env w d z (fail_over z o).0
fail_over-Served env w d z none e q f = (inr (λ t. ground (arith, t, q)), λ _. refl)
fail_over-Served env w d z (some t) e q f =
    let b = first_passes (takes_over env w d) (env.zone z).ordered_failover_zones t e in
    (inl (ground (arith, b)), λ g. ground (arith, f, g))

Policy-cases : (p : FailoverPolicy) → (p ≡ FailoverPolicy.none) ⊎ ((p ≡ wait) ⊎ (p ≡ failover))
Policy-cases FailoverPolicy.none = inl refl
Policy-cases wait = inr (inl refl)
Policy-cases failover = inr (inr refl)

apply_failover-Served :
    (env : Env) (w : World) (d : JobDefinition) (z : ℕ)
    → Served env w d z (apply_failover env w d z).0
apply_failover-Served env w d z =
    let S : Placed → Type 0 = λ p. Served env w d z p.0 in
    let o : Option ℕ = first (takes_over env w d) (env.zone z).ordered_failover_zones in
    elim (Bool-cases (zone_has_online_capacity env w d.capabilities z)) [
      | inl e ↦
          subst S {x = (some z, none)} {y = apply_failover env w d z}
            (unfold apply_failover in ground (arith, e)) (inl e, λ _. refl)
      | inr e ↦ elim (Policy-cases (env.zone z).failover_policy) [
        | inl q ↦
            subst S {x = (none, some (no_capacity_fail_fast z))} {y = apply_failover env w d z}
              (unfold apply_failover in ground (arith, e, q)) tt
        | inr (inl q) ↦
            subst S {x = (some z, none)} {y = apply_failover env w d z}
              (unfold apply_failover in ground (arith, e, q))
              (inr (λ t. ground (arith, t, q)), λ _. refl)
        | inr (inr q) ↦ elim (Bool-cases d.requires_zone_local) [
          | inl f ↦
              subst S {x = (none, some (no_capacity_zone_local z))} {y = apply_failover env w d z}
                (unfold apply_failover in ground (arith, e, q, f)) tt
          | inr f ↦
              subst S {x = fail_over z o} {y = apply_failover env w d z}
                (unfold apply_failover in ground (arith, e, q, f))
                (fail_over-Served env w d z o refl q f)
        ]
      ]
    ]

-- A resolution is a zone or an objection, never both.
Consistent : (p : Placed) → Type 0
Consistent p = (p.0 ≡ none) ⊎ (p.1 ≡ none)

resolve-Consistent :
    (env : Env) (w : World) (d : JobDefinition) → Consistent (resolve_submission_zone env w d)
unfolding Consistent resolve_submission_zone
resolve-Consistent env w d = ground arith

then_failover_sound :
    (env : Env) (w : World) (d : JobDefinition) (p : Placed) (z : ℕ)
    → Consistent p
    → (then_failover env w d p).0 ≡ some z
    → CanServe env w d z × (d.requires_zone_local ≡ true → p.0 ≡ some z)
unfolding Consistent
then_failover_sound env w d (none, e) z c h = absurd (cc)
then_failover_sound env w d (some y, none) z c h =
    let s = subst (Served env w d y) h (apply_failover-Served env w d y) in
    (s.0, λ t. ap some (s.1 t))
then_failover_sound env w d (some y, some e) z c h = absurd (ground (arith, c))

pinned_zone :
    (env : Env) (w : World) (d : JobDefinition) (z : ℕ)
    → d.zone_policy ≡ pinned
    → (resolve_submission_zone env w d).0 ≡ some z
    → d.default_zone ≡ some z
unfolding resolve_submission_zone
pinned_zone env w d z q h = ground (arith, q, h)

pinned_goes :
    (env : Env) (w : World) (d : JobDefinition) (z : ℕ)
    → d.zone_policy ≡ pinned
    → d.default_zone ≡ some z
    → zone_has_online_capacity env w d.capabilities z ≡ true
    → place env w d ≡ (some z, none)
unfolding place resolve_submission_zone apply_failover
pinned_goes env w d z q e t = ground (arith, q, e, t)

-- A zone that a run of the policies `pinned` and `any` is put into has a worker that can take the run
-- now, or its failover policy is not to fail fast. A pinned definition that must stay zone-local stays
-- in its default zone, and one whose default zone has capacity goes there.
pub place_sound :
    (env : Env) (w : World) (d : JobDefinition)
    → ((z : ℕ) → (place env w d).0 ≡ some z → CanServe env w d z)
      × ((z : ℕ)
          → d.zone_policy ≡ pinned
          → d.requires_zone_local ≡ true
          → (place env w d).0 ≡ some z
          → d.default_zone ≡ some z)
      × ((z : ℕ)
          → d.zone_policy ≡ pinned
          → d.default_zone ≡ some z
          → zone_has_online_capacity env w d.capabilities z ≡ true
          → place env w d ≡ (some z, none))
unfolding place
place_sound env w d =
    let p = resolve_submission_zone env w d in
    let c = resolve-Consistent env w d in
    (
      λ z h. (then_failover_sound env w d p z c h).0,
      λ z q t h. pinned_zone env w d z q ((then_failover_sound env w d p z c h).1 t),
      λ z q e t. pinned_goes env w d z q e t,
    )
