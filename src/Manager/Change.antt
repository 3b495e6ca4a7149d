-- ===== src/Manager/Change.antt =====
-- The methods of internal/pool/manager.go that change providers. Each returns the manager afterwards
-- and its error, `none` for nil.
use proxy_gateway.Prelude.{
  ℕ, String, Bool, not, ◌||◌, List, [], ◌∷◌, Option, none, some, str_eq, if◌then◌else◌, ℤ, int32_of,
}
use proxy_gateway.Prelude.Dict.{lookup, insert, delete}
use proxy_gateway.Prelude.Float.{Float64}
use proxy_gateway.Model.{Proxy}
use proxy_gateway.Config.{ProviderCfg}
use proxy_gateway.Pool.State.{Pool}
use proxy_gateway.Pool.Change.{remove_expired}
use proxy_gateway.Manager.{
  new_provider, Fetch, fetch_failed, fetched, ManagedProvider, Manager, Fault, name_required,
  unsupported_type, already_exists, not_found, bad_ratio, load_failed, managed, save_cfg,
  delete_cfg, positive_weight, add_proxies, load_proxies, remove_provided, retuned,
}

abbrev pub put_provider : String → ManagedProvider → Manager → Manager
put_provider name mp m = record m { provs = insert name mp m.provs }

abbrev pub with_pool : Manager → Pool → Manager
with_pool m p = record m { pool = p }

abbrev pub is_bool : Bool → Bool → Bool
is_bool a b = if a then b else not b

module _ ⦃fl : Float64⦄ where
  -- The initial load of `AddProvider`: an error is only logged.
  unfoldable pub load_new : ProviderCfg → Fetch → Pool → Pool
  load_new cfg (fetch_failed e) p = p
  load_new cfg (fetched prs) p = load_proxies cfg prs p

  -- `AddProvider`
  unfoldable pub add_provider : Bool → Fetch → Manager → ProviderCfg → Manager × Option Fault
  add_provider ok answer m cfg =
      if str_eq cfg.name "" then (m, some name_required) else elim (new_provider cfg) [
        | none ↦ (m, some unsupported_type)
        | some made ↦ elim (lookup cfg.name m.provs) [
          | some mp ↦ (m, some already_exists)
          | none ↦
              let mp = managed made cfg (positive_weight (int32_of cfg.weight)) in
              let n = put_provider cfg.name mp m in
              let p = if cfg.enabled then load_new cfg answer m.pool else m.pool in
              (save_cfg ok cfg (with_pool n p), none)
        ]
      ]

  -- `RemoveProvider`
  unfoldable pub remove_provider : Bool → Manager → String → Manager × Option Fault
  remove_provider ok m name = elim (lookup name m.provs) [
    | none ↦ (m, some not_found)
    | some mp ↦
        let n = record m { provs = delete name m.provs; pool = remove_provided name m.pool } in
        (delete_cfg ok name n, none)
  ]

  -- What follows the new configuration in `UpdateProvider`, for a provider that was enabled.
  unfoldable pub reload : Bool → ProviderCfg → Fetch → Manager → Manager × Option Fault
  reload ok cfg (fetch_failed e) m = (m, some (load_failed e))
  reload ok cfg (fetched prs) m =
      (save_cfg ok cfg (with_pool m (load_proxies cfg prs m.pool)), none)

  -- `UpdateProvider`
  unfoldable pub update_provider :
      Bool → Fetch → Manager → String → ProviderCfg → Manager × Option Fault
  update_provider ok answer m name given =
      if str_eq name ""
      then (m, some name_required)
      else let cfg = record given { name = name } in
        elim (new_provider cfg) [
          | none ↦ (m, some unsupported_type)
          | some made ↦ elim (lookup name m.provs) [
            | none ↦ (m, some not_found)
            | some mp ↦
                let changed = record mp {
                  provider = made;
                  cfg = cfg;
                  weight = positive_weight (int32_of cfg.weight);
                } in
                let n = with_pool (put_provider name changed m) (remove_provided name m.pool) in
                if mp.enabled then reload ok cfg answer n else (save_cfg ok cfg n, none)
          ]
        ]

  -- `SetProviderEnabled`
  unfoldable pub set_provider_enabled :
      Bool → Fetch → Manager → String → Bool → Manager × Option Fault
  set_provider_enabled ok answer m name enabled = elim (lookup name m.provs) [
    | none ↦ (m, some not_found)
    | some mp ↦
        if is_bool mp.enabled enabled
        then (m, none)
        else let cfg = record mp.cfg { enabled = enabled } in
          let n = put_provider name (record mp { enabled = enabled; cfg = cfg }) m in
          if enabled
          then reload ok cfg answer n
          else (save_cfg ok cfg (with_pool n (remove_provided name m.pool)), none)
  ]

  -- `SetProviderPublic`
  unfoldable pub set_provider_public : Bool → Manager → String → Bool → Manager × Option Fault
  set_provider_public ok m name is_public = elim (lookup name m.provs) [
    | none ↦ (m, some not_found)
    | some mp ↦
        if is_bool mp.cfg.is_public is_public
        then (m, none)
        else let cfg = record mp.cfg { is_public = is_public } in
          (save_cfg ok cfg (put_provider name (record mp { cfg = cfg }) m), none)
  ]

  -- `SetProviderWeight`
  unfoldable pub set_provider_weight : Bool → Manager → String → ℤ → Manager × Option Fault
  set_provider_weight ok m name given = elim (lookup name m.provs) [
    | none ↦ (m, some not_found)
    | some mp ↦
        let weight = positive_weight given in
        let cfg = record mp.cfg { weight = weight } in
        let n = put_provider name (record mp { weight = weight; cfg = cfg }) m in
        let p = retuned name (λ (pr : Proxy). record pr { weight = weight }) m.pool in
        (save_cfg ok cfg (with_pool n p), none)
  ]

  -- `SetProviderPriority`; the ratio is a float64.
  unfoldable pub set_provider_priority : Bool → Manager → String → ℤ → ℕ → Manager × Option Fault
  set_provider_priority ok m name priority ratio =
      if fl.less ratio fl.zero_f || fl.less fl.one_f ratio
      then (m, some bad_ratio)
      else elim (lookup name m.provs) [
        | none ↦ (m, some not_found)
        | some mp ↦
            let cfg = record mp.cfg { priority = priority; min_alive_ratio = ratio } in
            let n = put_provider name (record mp { cfg = cfg }) m in
            let tune = λ (pr : Proxy). record pr { priority = priority; min_alive_ratio = ratio } in
            (save_cfg ok cfg (with_pool n (retuned name tune m.pool)), none)
      ]

  -- What follows the answer in `RefreshProvider`, at a time for the expiry and one for the entry.
  unfoldable pub after_refresh :
      ℕ → Manager → String → ManagedProvider → Fetch → Manager × Option Fault
  after_refresh now m name mp (fetch_failed e) =
      (put_provider name (record mp { last_err = e }) m, some (load_failed e))
  after_refresh now m name mp (fetched none) = (m, none)
  after_refresh now m name mp (fetched (some prs)) =
      let p = (remove_expired now (add_proxies mp.cfg prs m.pool)).0 in
      (with_pool (put_provider name (record mp { last_err = ""; last_ok = now }) m) p, none)

  -- `RefreshProvider`
  unfoldable pub refresh_provider : ℕ → Fetch → Manager → String → Manager × Option Fault
  refresh_provider now answer m name = elim (lookup name m.provs) [
    | none ↦ (m, some not_found)
    | some mp ↦ after_refresh now m name mp answer
  ]

  -- The load of one provider by `LoadInitial`.
  unfoldable pub load_provider : ℕ → String → Fetch → ManagedProvider → Manager → Manager
  load_provider now name (fetch_failed e) mp m = put_provider name (record mp { last_err = e }) m
  load_provider now name (fetched prs) mp m =
      with_pool (put_provider name (record mp { last_ok = now }) m) (load_proxies mp.cfg prs m.pool)

  -- `LoadInitial`, for the providers in the order in which their loads end.
  unfoldable pub load_initial :
      ℕ → (String → Fetch) → List (String × ManagedProvider) → Manager → Manager
  load_initial now answers [] m = m
  load_initial now answers ((name, mp) ∷ rest) m =
      load_initial now answers rest
        (if mp.enabled then load_provider now name (answers name) mp m else m)
