-- ===== src/Manager/Methods.antt =====
-- The methods of internal/pool/manager.go keep a sound manager, and a new one is sound.
use proxy_gateway.Prelude.{
  ◌||◌, int32_of, Option-cases, ℕ, ◌≡◌, refl, subst, inl, inr, String, Bool, List, [], ◌∷◌, Option,
  none, some, str_eq, ℤ, if_cases, option_cases,
}
use proxy_gateway.Prelude.Dict.{lookup, insert, Distinct, insert-Distinct, delete-Distinct}
use proxy_gateway.Prelude.Float.{Float64}
use proxy_gateway.Model.{Proxy}
use proxy_gateway.Config.{ProviderCfg}
use proxy_gateway.Pool.State.{Pool}
use proxy_gateway.Pool.Coherent.{Coherent}
use proxy_gateway.Pool.Keeps.{remove_expired-Coherent}
use proxy_gateway.Manager.{
  new_provider, Fetch, fetch_failed, fetched, ManagedProvider, Manager, Fault, managed, manage_all,
  positive_weight, provider_ids,
}
use proxy_gateway.Manager.Change.{
  add_provider, remove_provider, load_new, reload, update_provider, set_provider_enabled,
  set_provider_public, set_provider_weight, set_provider_priority, after_refresh, refresh_provider,
  load_provider, load_initial, is_bool,
}
use proxy_gateway.Manager.Keeps.{
  Named, IsSound, insert-Named, delete-Named, lookup-Named, positive, add_proxies-Coherent,
  load_proxies-Coherent, remove_ids-Coherent, retuned-Coherent, put-Sound, save_cfg-IsSound,
  delete_cfg-IsSound,
}

module _ ⦃fl : Float64⦄ where
  abbrev Kept : Manager × Option Fault → Type 0
  Kept out = IsSound out.0

  load_new-Coherent :
      (cfg : ProviderCfg) (answer : Fetch) (p : Pool)
      → Coherent p
      → Coherent (load_new cfg answer p)
  unfolding load_new
  load_new-Coherent cfg (fetch_failed e) p c = c
  load_new-Coherent cfg (fetched prs) p c = load_proxies-Coherent cfg prs p c

  pub add_provider-IsSound :
      (ok : Bool) (answer : Fetch) (m : Manager) (cfg : ProviderCfg)
      → IsSound m
      → IsSound (add_provider ok answer m cfg).0
  unfolding add_provider
  add_provider-IsSound ok answer m cfg s =
      if_cases Kept (str_eq cfg.name "") (λ _. s)
        (λ _.
          option_cases Kept (new_provider cfg) (λ _. s)
            (λ made _.
              option_cases Kept (lookup cfg.name m.provs)
                (λ _. save_cfg-IsSound ok cfg _ (
                  put-Sound m cfg.name _ _ refl
                    (if_cases Coherent cfg.enabled
                      (λ _. load_new-Coherent cfg answer m.pool s.coherent) (λ _. s.coherent))
                    s))
                (λ mp _. s)))

  pub remove_provider-IsSound :
      (ok : Bool) (m : Manager) (name : String) → IsSound m → IsSound (remove_provider ok m name).0
  unfolding remove_provider
  remove_provider-IsSound ok m name s =
      option_cases Kept (lookup name m.provs) (λ _. s)
        (λ mp _. delete_cfg-IsSound ok name _ (record {
          coherent = remove_ids-Coherent (provider_ids name m.pool) m.pool s.coherent;
          distinct = delete-Distinct name m.provs s.distinct;
          well_named = delete-Named name m.provs s.well_named;
        }))

  reload-IsSound :
      (ok : Bool) (cfg : ProviderCfg) (answer : Fetch) (m : Manager)
      → IsSound m
      → IsSound (reload ok cfg answer m).0
  unfolding reload
  reload-IsSound ok cfg (fetch_failed e) m s = s
  reload-IsSound ok cfg (fetched prs) m s = save_cfg-IsSound ok cfg _ (record {
    coherent = load_proxies-Coherent cfg prs m.pool s.coherent;
    distinct = s.distinct;
    well_named = s.well_named;
  })

  pub update_provider-IsSound :
      (ok : Bool) (answer : Fetch) (m : Manager) (name : String) (given : ProviderCfg)
      → IsSound m
      → IsSound (update_provider ok answer m name given).0
  unfolding update_provider
  update_provider-IsSound ok answer m name given s =
      let cfg = record given { name = name } in
      if_cases Kept (str_eq name "") (λ _. s)
        (λ _.
          option_cases Kept (new_provider cfg) (λ _. s)
            (λ made _.
              option_cases Kept (lookup name m.provs) (λ _. s)
                (λ mp _.
                  let after =
                    put-Sound m name
                      (record mp {
                        provider = made;
                        cfg = cfg;
                        weight = positive_weight (int32_of cfg.weight);
                      })
                      _ refl (remove_ids-Coherent (provider_ids name m.pool) m.pool s.coherent) s in
                  if_cases Kept mp.enabled (λ _. reload-IsSound ok cfg answer _ after)
                    (λ _. save_cfg-IsSound ok cfg _ after))))

  pub set_provider_enabled-IsSound :
      (ok : Bool) (answer : Fetch) (m : Manager) (name : String) (enabled : Bool)
      → IsSound m
      → IsSound (set_provider_enabled ok answer m name enabled).0
  unfolding set_provider_enabled
  set_provider_enabled-IsSound ok answer m name enabled s =
      option_cases Kept (lookup name m.provs) (λ _. s)
        (λ mp found.
          let e = lookup-Named name m.provs s.well_named found in
          let cfg = record mp.cfg { enabled = enabled } in
          let after = record mp { enabled = enabled; cfg = cfg } in
          if_cases Kept (is_bool mp.enabled enabled) (λ _. s)
            (λ _.
              if_cases Kept enabled
                (λ _. reload-IsSound ok cfg answer _ (put-Sound m name after m.pool e s.coherent s))
                (λ _. save_cfg-IsSound ok cfg _ (
                  put-Sound m name after _ e
                    (remove_ids-Coherent (provider_ids name m.pool) m.pool s.coherent) s))))

  pub set_provider_public-IsSound :
      (ok : Bool) (m : Manager) (name : String) (is_public : Bool)
      → IsSound m
      → IsSound (set_provider_public ok m name is_public).0
  unfolding set_provider_public
  set_provider_public-IsSound ok m name is_public s =
      option_cases Kept (lookup name m.provs) (λ _. s)
        (λ mp found.
          let cfg = record mp.cfg { is_public = is_public } in
          if_cases Kept (is_bool mp.cfg.is_public is_public) (λ _. s)
            (λ _. save_cfg-IsSound ok cfg _ (
              put-Sound m name (record mp { cfg = cfg }) m.pool
                (lookup-Named name m.provs s.well_named found) s.coherent s)))

  pub set_provider_weight-IsSound :
      (ok : Bool) (m : Manager) (name : String) (given : ℤ)
      → IsSound m
      → IsSound (set_provider_weight ok m name given).0
  unfolding set_provider_weight
  set_provider_weight-IsSound ok m name given s =
      option_cases Kept (lookup name m.provs) (λ _. s)
        (λ mp found.
          let w = positive_weight given in
          let cfg = record mp.cfg { weight = w } in
          save_cfg-IsSound ok cfg _ (
            put-Sound m name (record mp { weight = w; cfg = cfg }) _
              (lookup-Named name m.provs s.well_named found)
              (retuned-Coherent name (λ (pr : Proxy). record pr { weight = w }) m.pool (λ pr. refl)
                (λ pr _. positive given) s.coherent)
              s))

  pub set_provider_priority-IsSound :
      (ok : Bool) (m : Manager) (name : String) (priority : ℤ) (ratio : ℕ)
      → IsSound m
      → IsSound (set_provider_priority ok m name priority ratio).0
  unfolding set_provider_priority
  set_provider_priority-IsSound ok m name priority ratio s =
      if_cases Kept (fl.less ratio fl.zero_f || fl.less fl.one_f ratio) (λ _. s)
        (λ _.
          option_cases Kept (lookup name m.provs) (λ _. s)
            (λ mp found.
              let cfg = record mp.cfg { priority = priority; min_alive_ratio = ratio } in
              save_cfg-IsSound ok cfg _ (
                put-Sound m name (record mp { cfg = cfg }) _
                  (lookup-Named name m.provs s.well_named found)
                  (retuned-Coherent name
                    (λ (pr : Proxy). record pr { priority = priority; min_alive_ratio = ratio })
                    m.pool (λ pr. refl) (λ pr w. w) s.coherent)
                  s)))

  after_refresh-IsSound :
      (now : ℕ) (m : Manager) (name : String) (mp : ManagedProvider) (answer : Fetch)
      → mp.cfg.name ≡ name
      → IsSound m
      → IsSound (after_refresh now m name mp answer).0
  unfolding after_refresh
  after_refresh-IsSound now m name mp (fetch_failed e) n s =
      put-Sound m name (record mp { last_err = e }) m.pool n s.coherent s
  after_refresh-IsSound now m name mp (fetched none) n s = s
  after_refresh-IsSound now m name mp (fetched (some prs)) n s =
      put-Sound m name (record mp { last_err = ""; last_ok = now }) _ n
        (remove_expired-Coherent now _ (add_proxies-Coherent mp.cfg prs m.pool s.coherent)) s

  pub refresh_provider-IsSound :
      (now : ℕ) (answer : Fetch) (m : Manager) (name : String)
      → IsSound m
      → IsSound (refresh_provider now answer m name).0
  unfolding refresh_provider
  refresh_provider-IsSound now answer m name s =
      option_cases Kept (lookup name m.provs) (λ _. s)
        (λ mp found.
          after_refresh-IsSound now m name mp answer (lookup-Named name m.provs s.well_named found)
            s)

  load_provider-IsSound :
      (now : ℕ) (name : String) (answer : Fetch) (mp : ManagedProvider) (m : Manager)
      → mp.cfg.name ≡ name
      → IsSound m
      → IsSound (load_provider now name answer mp m)
  unfolding load_provider
  load_provider-IsSound now name (fetch_failed e) mp m n s =
      put-Sound m name (record mp { last_err = e }) m.pool n s.coherent s
  load_provider-IsSound now name (fetched prs) mp m n s =
      put-Sound m name (record mp { last_ok = now }) _ n
        (load_proxies-Coherent mp.cfg prs m.pool s.coherent) s

  pub load_initial-IsSound :
      (now : ℕ) (answers : String → Fetch) (entries : List (String × ManagedProvider)) (m : Manager)
      → Named entries
      → IsSound m
      → IsSound (load_initial now answers entries m)
  unfolding load_initial
  load_initial-IsSound now answers [] m n s = s
  load_initial-IsSound now answers ((name, mp) ∷ rest) m (e, n) s =
      load_initial-IsSound now answers rest _ n (
        if_cases IsSound mp.enabled (λ _. load_provider-IsSound now name (answers name) mp m e s)
          (λ _. s))

pub manage_all-Sound :
    (pcs : List ProviderCfg) (provs : List (String × ManagedProvider))
    {out : List (String × ManagedProvider)}
    → Distinct provs
    → Named provs
    → manage_all pcs provs ≡ some out
    → Distinct out × Named out
unfolding manage_all
manage_all-Sound [] provs d n e = (subst Distinct (cc) d, subst Named (cc) n)
manage_all-Sound (pc ∷ pcs) provs d n e = elim (Option-cases (lookup pc.name provs)) [
  | inr (mp, taken) ↦ absurd (cc (rw (taken, manage_all) at e))
  | inl free ↦ elim (Option-cases (new_provider pc)) [
    | inl unknown ↦ absurd (cc (rw (free, unknown, manage_all) at e))
    | inr (made, k) ↦
        manage_all-Sound pcs (insert pc.name (managed made pc (int32_of pc.weight)) provs)
          (insert-Distinct pc.name _ provs d) (insert-Named pc.name _ provs refl n)
          (rw (free, k, manage_all) at e)
  ]
]
