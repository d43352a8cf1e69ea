-- ===== src/App/Submission/Submit/Groups.antt =====
-- How `_submit_fanout` of dispatch/submission.py groups the devices of a fan-out by their zones.
use mathlib.Core.List.{append-nil}
use nautobot_app_remote_jobs.Shared.{
  ℕ, suc, Bool, true, false, ◌≡◌, refl, sym, not, List, [], ◌∷◌, ◌++◌, ◌==◌, ◌∙◌, arith, map, max,
  if◌then◌else◌, Bool-cases, inl, inr,
}
use nautobot_app_remote_jobs.Shared.Lists.{any, count}
use nautobot_app_remote_jobs.App.Choices.{fan_out}
use nautobot_app_remote_jobs.App.Zones.{Device}
use nautobot_app_remote_jobs.App.Submission.Submit.{
  Child, add_to_zone, group_by_zone, zone_child, children_of, notified_zones,
}

-- The devices that resolve to the zone, in their order.
abbrev pub resolved_to : ℕ → List (Device × ℕ) → List Device
resolved_to z [] = []
resolved_to z ((d, y) ∷ rest) = let tail = resolved_to z rest in if y == z then d ∷ tail else tail

-- The devices of the first child for the zone.
abbrev pub devices_for : ℕ → List Child → List Device
devices_for z [] = []
devices_for z (c ∷ cs) = let rest = devices_for z cs in if c.zone == z then c.devices else rest

abbrev once : Bool → ℕ → ℕ
once true n = max 1 n
once false n = n

devices_in : ℕ → List (ℕ × List Device) → List Device
devices_in z [] = []
devices_in z ((y, ds) ∷ groups) = let rest = devices_in z groups in if y == z then ds else rest

append_assoc :
    (xs : List Device) (y : Device) (zs : List Device) → (xs ++ y ∷ []) ++ zs ≡ xs ++ y ∷ zs
append_assoc [] y zs = refl
append_assoc (x ∷ xs) y zs = rw (append_assoc xs y zs) refl

devices_in-add_to_zone :
    (z y : ℕ) (d : Device) (gs : List (ℕ × List Device))
    → devices_in z (add_to_zone d y gs)
      ≡ (if y == z then devices_in z gs ++ d ∷ [] else devices_in z gs)
unfolding devices_in add_to_zone
devices_in-add_to_zone z y d [] = refl
devices_in-add_to_zone z y d ((x, ds) ∷ gs) = ground (arith, devices_in-add_to_zone z y d gs)

devices_in-group_by_zone :
    (z : ℕ) (gs : List (ℕ × List Device)) (rs : List (Device × ℕ))
    → devices_in z (group_by_zone gs rs) ≡ devices_in z gs ++ resolved_to z rs
unfolding group_by_zone
devices_in-group_by_zone z gs [] = sym (append-nil (devices_in z gs))
devices_in-group_by_zone z gs ((d, y) ∷ rs) =
    let ih = devices_in-group_by_zone z (add_to_zone d y gs) rs in
    let e = devices_in-add_to_zone z y d gs in
    elim (Bool-cases (y == z)) [
      | inl t ↦ rw (ih, e, t) (append_assoc (devices_in z gs) d (resolved_to z rs))
      | inr t ↦ rw (ih, e, t) refl
    ]

count-add_to_zone :
    (z y : ℕ) (d : Device) (gs : List (ℕ × List Device))
    → count (λ g. g.0 == z) (add_to_zone d y gs) ≡ once (y == z) (count (λ g. g.0 == z) gs)
unfolding add_to_zone
count-add_to_zone z y d [] = ground arith
count-add_to_zone z y d ((x, ds) ∷ gs) = ground (arith, count-add_to_zone z y d gs)

count-group_by_zone :
    (z : ℕ) (gs : List (ℕ × List Device)) (rs : List (Device × ℕ))
    → count (λ g. g.0 == z) (group_by_zone gs rs)
      ≡ once (any (λ p. p.1 == z) rs) (count (λ g. g.0 == z) gs)
unfolding group_by_zone
count-group_by_zone z gs [] = refl
count-group_by_zone z gs ((d, y) ∷ rs) =
    let ih = count-group_by_zone z (add_to_zone d y gs) rs in
    let e = count-add_to_zone z y d gs in ground (arith, ih, e)

zone_children-devices :
    (z : ℕ) (gs : List (ℕ × List Device)) → devices_for z (map zone_child gs) ≡ devices_in z gs
unfolding devices_in
zone_children-devices z [] = refl
zone_children-devices z ((y, ds) ∷ gs) = rw (zone_children-devices z gs) refl

zone_children-count :
    (z : ℕ) (gs : List (ℕ × List Device))
    → count (λ c. c.zone == z) (map zone_child gs) ≡ count (λ g. g.0 == z) gs
zone_children-count z [] = refl
zone_children-count z ((y, ds) ∷ gs) = rw (zone_children-count z gs) refl

count-append :
    (z y : ℕ) (zs : List ℕ)
    → count (λ x. x == z) (zs ++ y ∷ [])
      ≡ (if y == z then suc (count (λ x. x == z) zs) else count (λ x. x == z) zs)
count-append z y [] = refl
count-append z y (x ∷ zs) = ground (arith, count-append z y zs)

any-count : (z : ℕ) (zs : List ℕ) → any (λ x. x == z) zs ≡ not (count (λ x. x == z) zs == 0)
any-count z [] = refl
any-count z (x ∷ zs) = ground (arith, any-count z zs)

count-notified_zones :
    (z : ℕ) (zs : List ℕ) (cs : List Child)
    → count (λ x. x == z) (notified_zones zs cs)
      ≡ once (any (λ c. c.zone == z) cs) (count (λ x. x == z) zs)
unfolding notified_zones
count-notified_zones z zs [] = refl
count-notified_zones z zs (c ∷ cs) =
    let ih =
      count-notified_zones z (if any (λ x. x == c.zone) zs then zs else zs ++ c.zone ∷ []) cs in
    let e = count-append z c.zone zs in let a = any-count c.zone zs in ground (arith, ih, e, a)

-- The policy `fan_out` makes exactly one child for each zone that a target device resolves to, with the
-- devices of that zone in their order, and none for another zone; each zone of the children is notified
-- once, and no other.
pub fan_out_partition :
    (resolved : List (Device × ℕ)) (z : ℕ)
    → (count (λ c. c.zone == z) (children_of fan_out resolved)
        ≡ (if any (λ p. p.1 == z) resolved then 1 else 0))
      × (devices_for z (children_of fan_out resolved) ≡ resolved_to z resolved)
      × (count (λ x. x == z) (notified_zones [] (children_of fan_out resolved))
          ≡ (if any (λ c. c.zone == z) (children_of fan_out resolved) then 1 else 0))
unfolding children_of devices_in
fan_out_partition resolved z =
    let gs : List (ℕ × List Device) = group_by_zone [] resolved in
    (
      zone_children-count z gs ∙ count-group_by_zone z [] resolved ∙ ground arith,
      zone_children-devices z gs ∙ devices_in-group_by_zone z [] resolved,
      count-notified_zones z [] (map zone_child gs) ∙ ground arith,
    )
