-- ===== src/Sdk/Secrets.antt =====
-- sdk/nautobot_remote_jobs_sdk/secrets/registry.py: ProviderRegistry. A provider is a value of any type
-- with a slug; `named` sets the slug of one that has none. What an entry point loads is a parameter.
pub mod Explicit
use nautobot_app_remote_jobs.Shared.{
  String, str_eq, Bool, true, false, Option, none, some, List, [], ◌∷◌, if◌then◌else◌, is_some,
}

-- An entry point, with what `load` and the call of its class give.
pub record EntryPoint (P : Type 0) : Type 0 where
  pub name : String
  pub loaded : Option P

pub record ProviderRegistry (P : Type 0) : Type 0 where
  pub providers : List (String × P)
  pub entry_points_loaded : Bool

module _ {P : Type 0} where
  unfoldable pub find_provider : String → List (String × P) → Option P
  find_provider s [] = none
  find_provider s (p ∷ ps) =
      let rest = find_provider s ps in if str_eq p.0 s then some p.1 else rest

  -- self._providers[slug] = provider
  unfoldable pub put_provider : String → P → List (String × P) → List (String × P)
  put_provider s q [] = (s, q) ∷ []
  put_provider s q (p ∷ ps) =
      let rest = put_provider s q ps in if str_eq p.0 s then (s, q) ∷ ps else p ∷ rest

  module _ (slug : P → String) (named : String → P → P) where
    abbrev pub with_slug : String → P → P
    with_slug name p = if str_eq (slug p) "" then named name p else p

    -- `register`; `none` is the ValueError of a provider without a slug.
    unfoldable pub register_provider : P → ProviderRegistry P → Option (ProviderRegistry P)
    unfolding put_provider
    register_provider p r =
        if str_eq (slug p) ""
        then none
        else some (record r { providers = put_provider (slug p) p r.providers })

    unfoldable pub load_provider : String → Option P → List (String × P) → List (String × P)
    unfolding put_provider
    load_provider name none ps = ps
    load_provider name (some p) ps = let q = with_slug name p in put_provider (slug q) q ps

    -- The loop of `_load_entry_points`
    unfoldable pub load_all_points : List (EntryPoint P) → List (String × P) → List (String × P)
    unfolding find_provider load_provider
    load_all_points [] ps = ps
    load_all_points (e ∷ es) ps =
        load_all_points es
          (if is_some (find_provider e.name ps) then ps else load_provider e.name e.loaded ps)

    unfoldable pub load_entry_points : List (EntryPoint P) → ProviderRegistry P → ProviderRegistry P
    unfolding load_all_points
    load_entry_points es r =
        if r.entry_points_loaded
        then r
        else record { providers = load_all_points es r.providers; entry_points_loaded = true }

    -- `get`; `none` is UnknownProviderError.
    unfoldable pub get_provider :
        List (EntryPoint P) → String → ProviderRegistry P → Option P × ProviderRegistry P
    unfolding find_provider load_entry_points
    get_provider es s r =
        let u = if is_some (find_provider s r.providers) then r else load_entry_points es r in
        (find_provider s u.providers, u)

    unfoldable pub get_all :
        List (EntryPoint P) → List String → ProviderRegistry P → ProviderRegistry P
    unfolding get_provider
    get_all es [] r = r
    get_all es (s ∷ ss) r = get_all es ss (get_provider es s r).1
