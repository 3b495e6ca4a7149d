-- ===== src/Manager/Refuse.antt =====
-- The errors of the methods of internal/pool/manager.go that come before any change.
use proxy_gateway.Prelude.{
  ℕ, ◌≡◌, refl, String, Bool, true, false, Option, none, some, if_cases, option_cases, ◌||◌, str_eq,
}
use proxy_gateway.Prelude.Dict.{lookup}
use proxy_gateway.Prelude.Float.{Float64}
use proxy_gateway.Config.{ProviderCfg}
use proxy_gateway.Manager.{
  Fetch, fetch_failed, fetched, ManagedProvider, Manager, Fault, load_failed, name_required,
  unsupported_type, duplicate_name, already_exists, not_found, bad_ratio, new_provider,
}
use proxy_gateway.Manager.Change.{
  add_provider, remove_provider, update_provider, set_provider_enabled, set_provider_public,
  set_provider_weight, set_provider_priority, refresh_provider, after_refresh, reload, is_bool,
}
use proxy_gateway.Manager.History.{
  Op, adds_provider, removes_provider, updates_provider, enables, publishes, weighs, prioritises,
  refreshes, loads_initial, attaches, syncs, uses_pool, perform,
}

-- Any error but that of a provider that could not be loaded.
unfoldable pub refuses : Option Fault → Bool
refuses none = false
refuses (some (load_failed e)) = false
refuses (some name_required) = true
refuses (some unsupported_type) = true
refuses (some duplicate_name) = true
refuses (some already_exists) = true
refuses (some not_found) = true
refuses (some bad_ratio) = true

module _ ⦃fl : Float64⦄ (m : Manager) where
  abbrev Untouched : Manager × Option Fault → Type 0
  Untouched out = refuses out.1 ≡ true → out.0 ≡ m

  reload-Untouched :
      (ok : Bool) (cfg : ProviderCfg) (answer : Fetch) (n : Manager)
      → Untouched (reload ok cfg answer n)
  unfolding reload refuses
  reload-Untouched ok cfg (fetch_failed e) n r = absurd (cc)
  reload-Untouched ok cfg (fetched prs) n r = absurd (cc)

  after_refresh-Untouched :
      (now : ℕ) (name : String) (mp : ManagedProvider) (answer : Fetch)
      → Untouched (after_refresh now m name mp answer)
  unfolding after_refresh refuses
  after_refresh-Untouched now name mp (fetch_failed e) r = absurd (cc)
  after_refresh-Untouched now name mp (fetched none) r = refl
  after_refresh-Untouched now name mp (fetched (some prs)) r = absurd (cc)

  -- A call that ends in an error, other than that of a provider that could not be loaded, has changed
  -- nothing: neither the providers, nor the pool, nor the file.
  pub perform-refuses : (o : Op) → refuses (perform m o).1 ≡ true → (perform m o).0 ≡ m
  unfolding perform refuses add_provider remove_provider update_provider set_provider_enabled
      set_provider_public set_provider_weight set_provider_priority refresh_provider
  perform-refuses (adds_provider ok answer cfg) =
      if_cases Untouched (str_eq cfg.name "") (λ _ _. refl)
        (λ _.
          option_cases Untouched (new_provider cfg) (λ _ _. refl)
            (λ made _.
              option_cases Untouched (lookup cfg.name m.provs) (λ _ r. absurd (cc))
                (λ mp _ _. refl)))
  perform-refuses (removes_provider ok name) =
      option_cases Untouched (lookup name m.provs) (λ _ _. refl) (λ mp _ r. absurd (cc))
  perform-refuses (updates_provider ok answer name given) =
      let cfg = record given { name = name } in
      if_cases Untouched (str_eq name "") (λ _ _. refl)
        (λ _.
          option_cases Untouched (new_provider cfg) (λ _ _. refl)
            (λ made _.
              option_cases Untouched (lookup name m.provs) (λ _ _. refl)
                (λ mp _.
                  if_cases Untouched mp.enabled (λ _. reload-Untouched ok cfg answer _)
                    (λ _ r. absurd (cc)))))
  perform-refuses (enables ok answer name enabled) =
      option_cases Untouched (lookup name m.provs) (λ _ _. refl)
        (λ mp _.
          if_cases Untouched (is_bool mp.enabled enabled) (λ _ _. refl)
            (λ _.
              if_cases Untouched enabled (λ _. reload-Untouched ok _ answer _)
                (λ _ r. absurd (cc))))
  perform-refuses (publishes ok name b) =
      option_cases Untouched (lookup name m.provs) (λ _ _. refl)
        (λ mp _. if_cases Untouched (is_bool mp.cfg.is_public b) (λ _ _. refl) (λ _ r. absurd (cc)))
  perform-refuses (weighs ok name w) =
      option_cases Untouched (lookup name m.provs) (λ _ _. refl) (λ mp _ r. absurd (cc))
  perform-refuses (prioritises ok name p ratio) =
      if_cases Untouched (fl.less ratio fl.zero_f || fl.less fl.one_f ratio) (λ _ _. refl)
        (λ _. option_cases Untouched (lookup name m.provs) (λ _ _. refl) (λ mp _ r. absurd (cc)))
  perform-refuses (refreshes now answer name) =
      option_cases Untouched (lookup name m.provs) (λ _ _. refl)
        (λ mp _. after_refresh-Untouched now name mp answer)
  perform-refuses (loads_initial now answers) = λ r. absurd (cc)
  perform-refuses (attaches f) = λ r. absurd (cc)
  perform-refuses (syncs ok) = λ r. absurd (cc)
  perform-refuses (uses_pool c) = λ r. absurd (cc)
