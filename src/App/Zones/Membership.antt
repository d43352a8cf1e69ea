-- ===== src/App/Zones/Membership.antt =====
-- When a rule of a zone matches a device.
use nautobot_app_remote_jobs.Shared.{
  ℕ, true, false, ◌≡◌, ◌≢◌, ◌↔◌, Option, none, some, refl, List, [], arith,
}
use nautobot_app_remote_jobs.Shared.Lists.{contains}
use nautobot_app_remote_jobs.App.Zones.{
  Device, Rule, Inventory, passes_group, passes_location, passes_prefix, is_unset, is_empty,
  matches_device,
}

-- A device satisfies every criterion that a rule has, and the rule has one (SPEC 4.3).
pub record Satisfies (inv : Inventory) (rule : Rule) (device : Device) : Type 0 where
  pub some_criterion : is_unset rule ≡ false
  pub by_group : (g : ℕ) → rule.dynamic_group ≡ some g → inv.in_group g device.pk ≡ true
  pub by_location : rule.locations ≢ [] → passes_location inv rule device.location ≡ true
  pub by_role : rule.roles ≢ [] → contains rule.roles device.role ≡ true
  pub by_prefix : rule.prefixes ≢ [] → passes_prefix inv rule device.primary_ip ≡ true

nil-is_empty : (xs : List ℕ) → is_empty xs ≡ false → xs ≢ []
nil-is_empty xs e p = ground (arith, e, p)

passes_group_of :
    (inv : Inventory) (o : Option ℕ) (device : Device)
    → ((g : ℕ) → o ≡ some g → inv.in_group g device.pk ≡ true)
    → passes_group inv o device ≡ true
passes_group_of inv none device h = refl
passes_group_of inv (some g) device h = h g refl

-- A rule matches a device exactly when it has a criterion at all and the device satisfies each that it
-- has; an empty rule matches nothing.
pub matches_device_iff :
    (inv : Inventory) (rule : Rule) (device : Device)
    → (matches_device inv rule device ≡ true) ↔ Satisfies inv rule device
unfolding matches_device
matches_device_iff inv rule device = (
  λ h. record {
    some_criterion = ground arith;
    by_group = λ g e. ground arith;
    by_location = λ n. ground arith;
    by_role = λ n. ground arith;
    by_prefix = λ n. ground arith;
  },
  λ h. ground (
    arith,
    h.some_criterion,
    passes_group_of inv rule.dynamic_group device h.by_group,
    nil-is_empty rule.locations,
    nil-is_empty rule.roles,
    nil-is_empty rule.prefixes,
    h.by_location,
    h.by_role,
    h.by_prefix,
  ),
)
