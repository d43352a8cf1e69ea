-- ===== src/Sdk/Secrets/Explicit.antt =====
-- Which provider a slug leads to once a provider was registered for it.
use nautobot_app_remote_jobs.Shared.{
  String, str_eq, eq_iff, Bool, true, false, ◌≡◌, refl, sym, ap, ◌∙◌, not, ◌&&◌, Option, none, some,
  List, [], ◌∷◌, if◌then◌else◌, is_some, arith, Bool-cases, inl, inr, if_both,
}
use nautobot_app_remote_jobs.Shared.Lists.{All}
use nautobot_app_remote_jobs.Sdk.Secrets.{
  EntryPoint, ProviderRegistry, find_provider, put_provider, with_slug, register_provider,
  load_provider, load_all_points, load_entry_points, get_provider, get_all,
}

module _ {P : Type 0} where
  find_provider-put_same :
      (s : String) (q : P) (ps : List (String × P)) → find_provider s (put_provider s q ps) ≡ some q
  unfolding find_provider put_provider
  find_provider-put_same s q [] = rw ((eq_iff s s).1 refl) refl
  find_provider-put_same s q (p ∷ ps) = elim (Bool-cases (str_eq p.0 s)) [
    | inl e ↦ rw (e, (eq_iff s s).1 refl) refl
    | inr e ↦ rw (e, e, find_provider-put_same s q ps) refl
  ]

  find_provider-put_other :
      (s t : String) (q : P) (ps : List (String × P))
      → str_eq t s ≡ false
      → find_provider s (put_provider t q ps) ≡ find_provider s ps
  unfolding find_provider put_provider
  find_provider-put_other s t q [] n = rw n refl
  find_provider-put_other s t q (p ∷ ps) n = elim (Bool-cases (str_eq p.0 t)) [
    | inl e ↦ rw (e, n, (eq_iff p.0 t).0 e, n) refl
    | inr e ↦ rw (e, find_provider-put_other s t q ps n) refl
  ]

  module _ (slug : P → String) (named : String → P → P) (s : String) where
    -- The entry point's provider has the slug `s` and the entry point another name.
    abbrev pub clashes : String → Option P → Bool
    clashes name none = false
    clashes name (some p) = str_eq (slug (with_slug slug named name p)) s && not (str_eq name s)

    load_provider-find :
        (name : String) (o : Option P) (ps : List (String × P))
        → str_eq name s ≡ false
        → clashes name o ≡ false
        → find_provider s (load_provider slug named name o ps) ≡ find_provider s ps
    unfolding load_provider
    load_provider-find name none ps n c = refl
    load_provider-find name (some p) ps n c =
        let q = with_slug slug named name p in
        find_provider-put_other s (slug q) q ps (ground (arith, n, c))

    load_all_points-find :
        (p : P) (es : List (EntryPoint P)) (ps : List (String × P))
        → All (λ e. clashes e.name e.loaded ≡ false) es
        → find_provider s ps ≡ some p
        → find_provider s (load_all_points slug named es ps) ≡ some p
    unfolding load_all_points
    load_all_points-find p [] ps h f = f
    load_all_points-find p (e ∷ es) ps h f = elim (Bool-cases (str_eq e.name s)) [
      | inl n ↦
          let there : is_some (find_provider e.name ps) ≡ true =
            rw ((eq_iff e.name s).0 n, f) refl in
          rw there (load_all_points-find p es ps h.1 f)
      | inr n ↦
          load_all_points-find p es
            (if is_some (find_provider e.name ps)
              then ps
              else load_provider slug named e.name e.loaded ps)
            h.1
            (if_both (λ qs. find_provider s qs ≡ some p) (is_some (find_provider e.name ps)) f
              (load_provider-find e.name e.loaded ps n h.0 ∙ f))
    ]

    get_provider-find :
        (p : P) (es : List (EntryPoint P)) (t : String) (r : ProviderRegistry P)
        → All (λ e. clashes e.name e.loaded ≡ false) es
        → find_provider s r.providers ≡ some p
        → find_provider s (get_provider slug named es t r).1.providers ≡ some p
    unfolding get_provider load_entry_points
    get_provider-find p es t r h f =
        if_both (λ (u : ProviderRegistry P). find_provider s u.providers ≡ some p)
          (is_some (find_provider t r.providers)) f
          (if_both (λ (u : ProviderRegistry P). find_provider s u.providers ≡ some p)
            r.entry_points_loaded f (load_all_points-find p es r.providers h f))

    get_all-find :
        (p : P) (es : List (EntryPoint P)) (ts : List String) (r : ProviderRegistry P)
        → All (λ e. clashes e.name e.loaded ≡ false) es
        → find_provider s r.providers ≡ some p
        → find_provider s (get_all slug named es ts r).providers ≡ some p
    unfolding get_all
    get_all-find p es [] r h f = f
    get_all-find p es (t ∷ ts) r h f =
        get_all-find p es ts (get_provider slug named es t r).1 h (get_provider-find p es t r h f)

abbrev found_in : {P : Type 0} → String → Option (ProviderRegistry P) → Option P
found_in s none = none
found_in s (some r) = find_provider s r.providers

find_provider-register :
    {P : Type 0} (slug : P → String) (named : String → P → P) (p : P) (r u : ProviderRegistry P)
    → register_provider slug named p r ≡ some u
    → find_provider (slug p) u.providers ≡ some p
unfolding register_provider
find_provider-register slug named p r u e = elim (Bool-cases (str_eq (slug p) "")) [
  | inl f ↦ let n : none ≡ some u = rw f at e in ground (arith, n)
  | inr f ↦ sym (ap (found_in (slug p)) (rw f at e)) ∙ find_provider-put_same (slug p) p r.providers
]

-- A provider that was registered under its slug: after lookups of any slugs, with what they load from the
-- entry points, the lookup of its slug gives it, if no entry point of another name loads a provider of
-- that slug.
pub registered_wins :
    {P : Type 0} (slug : P → String) (named : String → P → P) (es : List (EntryPoint P))
    (ts : List String) (p : P) (r u : ProviderRegistry P)
    → All (λ e. clashes slug named (slug p) e.name e.loaded ≡ false) es
    → register_provider slug named p r ≡ some u
    → (get_provider slug named es (slug p) (get_all slug named es ts u)).0 ≡ some p
unfolding register_provider get_provider
registered_wins slug named es ts p r u h e =
    let f =
      get_all-find slug named (slug p) p es ts u h (find_provider-register slug named p r u e) in
    let there : is_some (find_provider (slug p) (get_all slug named es ts u).providers) ≡ true =
      rw f refl in
    rw there f
