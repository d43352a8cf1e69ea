-- ===== src/App/Zones.antt =====
-- nautobot_remote_jobs/dispatch/zones.py, with `matches_device` of models/zones.py: the zone of a
-- device and the zones that have capacity.
pub mod Membership
pub mod Resolution
use nautobot_app_remote_jobs.Shared.{
  ℕ, String, Bool, true, false, ◌&&◌, not, Option, none, some, List, [], ◌∷◌, ◌==◌, ltb,
  if◌then◌else◌, is_key,
}
use Prim.Native.String.{compare}
use Prim.Native.Nat.{Ordering}
use nautobot_app_remote_jobs.Shared.Lists.{length, any, select, first, contains}
use nautobot_app_remote_jobs.App.Choices.{WorkerStatus, online, draining, offline}
use nautobot_app_remote_jobs.App.Records.{Worker, World, Env}
use nautobot_app_remote_jobs.App.Store.{worker_status, free_capacity}
use nautobot_app_remote_jobs.App.Claims.{issubset}

-- What a rule reads of dcim.Device.
pub record Device : Type 0 where
  pub pk : ℕ
  pub location : Option ℕ
  pub role : ℕ
  pub primary_ip : Option ℕ

-- ZoneMembershipRule
pub record Rule : Type 0 where
  pub locations : List ℕ
  pub include_descendant_locations : Bool
  pub roles : List ℕ
  pub prefixes : List ℕ
  pub dynamic_group : Option ℕ

-- What core Nautobot answers: a location with its ancestors, whether a device is in a dynamic group,
-- whether an address is in a prefix. `membership_rules` are the rules of a zone.
pub record Inventory : Type 0 where
  pub ancestors : ℕ → List ℕ
  pub in_group : ℕ → ℕ → Bool
  pub in_prefix : ℕ → ℕ → Bool
  pub membership_rules : ℕ → List Rule

abbrev pub is_empty : List ℕ → Bool
is_empty [] = true
is_empty (x ∷ xs) = false

-- The tests of `matches_device`, each true where its criterion is not set.
abbrev pub passes_group : Inventory → Option ℕ → Device → Bool
passes_group inv none device = true
passes_group inv (some g) device = inv.in_group g device.pk

abbrev pub passes_location : Inventory → Rule → Option ℕ → Bool
passes_location inv rule none = false
passes_location inv rule (some l) =
    if rule.include_descendant_locations
    then any (contains rule.locations) (inv.ancestors l)
    else contains rule.locations l

abbrev pub passes_prefix : Inventory → Rule → Option ℕ → Bool
passes_prefix inv rule none = false
passes_prefix inv rule (some ip) = any (inv.in_prefix ip) rule.prefixes

abbrev pub is_unset : Rule → Bool
is_unset rule =
    (elim (rule.dynamic_group) [ none ↦ true | some _ ↦ false ])
    && is_empty rule.locations
    && is_empty rule.roles
    && is_empty rule.prefixes

-- ZoneMembershipRule.matches_device
unfoldable pub matches_device : Inventory → Rule → Device → Bool
matches_device inv rule device =
    if not (passes_group inv rule.dynamic_group device)
    then false
    else if not (is_empty rule.locations) && not (passes_location inv rule device.location)
    then false
    else if not (is_empty rule.roles) && not (contains rule.roles device.role)
    then false
    else if not (is_empty rule.prefixes) && not (passes_prefix inv rule device.primary_ip)
    then false
    else if is_unset rule
    then false
    else true

-- An enabled zone with a rule that matches.
unfoldable pub is_match : Inventory → Env → Device → ℕ → Bool
is_match inv env device z =
    (env.zone z).enabled && any (λ rule. matches_device inv rule device) (inv.membership_rules z)

-- `matching_zones`
unfoldable pub matching_zones : Inventory → Env → Device → List ℕ
matching_zones inv env device = select (is_match inv env device) env.zone_pks

-- The order of the key (zone.priority, zone.name).
unfoldable pub zone_le : Env → ℕ → ℕ → Bool
zone_le env a b =
    if (env.zone a).priority == (env.zone b).priority
    then elim (compare (env.zone a).name (env.zone b).name) [ Ordering.gt ↦ false | _ ↦ true ]
    else ltb (env.zone a).priority (env.zone b).priority

unfoldable pub insert_zone : Env → ℕ → List ℕ → List ℕ
unfolding zone_le
insert_zone env z [] = z ∷ []
insert_zone env z (y ∷ zs) =
    let rest = insert_zone env z zs in if zone_le env z y then z ∷ y ∷ zs else y ∷ rest

-- sorted(zones, key=...), which is stable
unfoldable pub sort_zones : Env → List ℕ → List ℕ
unfolding insert_zone
sort_zones env [] = []
sort_zones env (z ∷ zs) = insert_zone env z (sort_zones env zs)

abbrev pub head : List ℕ → Option ℕ
head [] = none
head (z ∷ zs) = some z

-- `resolve_zone`
unfoldable pub resolve_zone : Inventory → Env → Device → Option ℕ
unfolding matching_zones sort_zones
resolve_zone inv env device = head (sort_zones env (matching_zones inv env device))

abbrev pub is_online : WorkerStatus → Bool
is_online online = true
is_online draining = false
is_online offline = false

-- A worker that counts for `zone_has_online_capacity`.
unfoldable pub serves : Env → World → ℕ → List ℕ → Worker → Bool
serves env w z required x =
    x.zone == z
    && x.enabled
    && not x.draining
    && is_online (worker_status env x)
    && not (not (is_empty required) && not (issubset required x.capabilities))
    && ltb 0 (free_capacity w x)

-- `zone_has_online_capacity`
unfoldable pub zone_has_online_capacity : Env → World → List ℕ → ℕ → Bool
zone_has_online_capacity env w required z = any (serves env w z required) w.workers

-- `cheapest_zone_with_capacity`
unfoldable pub cheapest_zone_with_capacity : Env → World → List ℕ → Option ℕ
unfolding sort_zones zone_has_online_capacity
cheapest_zone_with_capacity env w required =
    first (zone_has_online_capacity env w required)
      (sort_zones env (select (λ z. (env.zone z).enabled) env.zone_pks))
