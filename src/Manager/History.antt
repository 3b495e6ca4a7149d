-- ===== src/Manager/History.antt =====
-- Histories of internal/pool/manager.go: any sequence of calls of the manager and of its pool.
use proxy_gateway.Prelude.{
  ℕ, ◌≡◌, subst, String, Bool, List, [], ◌∷◌, Option, none, some, ℤ, All, option_cases,
  Option-cases, inl, inr,
}
use proxy_gateway.Prelude.Float.{Float64}
use proxy_gateway.Config.{ProviderCfg}
use proxy_gateway.Persist.{Content}
use proxy_gateway.Pool.State.{new_pool}
use proxy_gateway.Pool.History as Pools
use proxy_gateway.Manager.{
  Fetch, Manager, Fault, new_manager, manage_all, attach_store, sync_providers,
}
use proxy_gateway.Manager.Change.{
  add_provider, remove_provider, update_provider, set_provider_enabled, set_provider_public,
  set_provider_weight, set_provider_priority, refresh_provider, load_initial,
}
use proxy_gateway.Manager.Keeps.{IsSound}
use proxy_gateway.Manager.Methods.{
  add_provider-IsSound, remove_provider-IsSound, update_provider-IsSound,
  set_provider_enabled-IsSound, set_provider_public-IsSound, set_provider_weight-IsSound,
  set_provider_priority-IsSound, refresh_provider-IsSound, load_initial-IsSound, manage_all-Sound,
}

-- A call, with whether a write succeeds, what the provider answers, and the time.
pub data Op : Type 0 where
  adds_provider : Bool → Fetch → ProviderCfg → Op
  removes_provider : Bool → String → Op
  updates_provider : Bool → Fetch → String → ProviderCfg → Op
  enables : Bool → Fetch → String → Bool → Op
  publishes : Bool → String → Bool → Op
  weighs : Bool → String → ℤ → Op
  prioritises : Bool → String → ℤ → ℕ → Op
  refreshes : ℕ → Fetch → String → Op
  loads_initial : ℕ → (String → Fetch) → Op
  attaches : Option (Content ProviderCfg) → Op
  syncs : Bool → Op
  uses_pool : Pools.Call → Op

-- The random numbers that a call of the pool meets stay below their bounds.
abbrev pub IsFairOp : Op → Type 0
IsFairOp (uses_pool c) = Pools.IsFairCall c
IsFairOp (adds_provider ok answer cfg) = Unit
IsFairOp (removes_provider ok name) = Unit
IsFairOp (updates_provider ok answer name cfg) = Unit
IsFairOp (enables ok answer name enabled) = Unit
IsFairOp (publishes ok name b) = Unit
IsFairOp (weighs ok name w) = Unit
IsFairOp (prioritises ok name p r) = Unit
IsFairOp (refreshes now answer name) = Unit
IsFairOp (loads_initial now answers) = Unit
IsFairOp (attaches f) = Unit
IsFairOp (syncs ok) = Unit

module _ ⦃fl : Float64⦄ where
  unfoldable pub perform : Manager → Op → Manager × Option Fault
  perform m (adds_provider ok answer cfg) = add_provider ok answer m cfg
  perform m (removes_provider ok name) = remove_provider ok m name
  perform m (updates_provider ok answer name cfg) = update_provider ok answer m name cfg
  perform m (enables ok answer name enabled) = set_provider_enabled ok answer m name enabled
  perform m (publishes ok name b) = set_provider_public ok m name b
  perform m (weighs ok name w) = set_provider_weight ok m name w
  perform m (prioritises ok name p r) = set_provider_priority ok m name p r
  perform m (refreshes now answer name) = refresh_provider now answer m name
  perform m (loads_initial now answers) = (load_initial now answers m.provs m, none)
  perform m (attaches f) = (attach_store m f, none)
  perform m (syncs ok) = (sync_providers ok m, none)
  perform m (uses_pool c) = (record m { pool = Pools.step m.pool c }, none)

  unfoldable pub perform_all : Manager → List Op → Manager
  perform_all m [] = m
  perform_all m (o ∷ os) = perform_all (perform m o).0 os

  perform-IsSound : (m : Manager) (o : Op) → IsFairOp o → IsSound m → IsSound (perform m o).0
  unfolding perform attach_store sync_providers
  perform-IsSound m (adds_provider ok answer cfg) f s = add_provider-IsSound ok answer m cfg s
  perform-IsSound m (removes_provider ok name) f s = remove_provider-IsSound ok m name s
  perform-IsSound m (updates_provider ok answer name cfg) f s =
      update_provider-IsSound ok answer m name cfg s
  perform-IsSound m (enables ok answer name enabled) f s =
      set_provider_enabled-IsSound ok answer m name enabled s
  perform-IsSound m (publishes ok name b) f s = set_provider_public-IsSound ok m name b s
  perform-IsSound m (weighs ok name w) f s = set_provider_weight-IsSound ok m name w s
  perform-IsSound m (prioritises ok name p r) f s = set_provider_priority-IsSound ok m name p r s
  perform-IsSound m (refreshes now answer name) f s = refresh_provider-IsSound now answer m name s
  perform-IsSound m (loads_initial now answers) f s =
      load_initial-IsSound now answers m.provs m s.well_named s
  perform-IsSound m (attaches x) f s = s
  perform-IsSound m (syncs ok) f s = option_cases IsSound m.file (λ _. s) (λ x _. s)
  perform-IsSound m (uses_pool c) f s = record {
    coherent = Pools.step-Coherent m.pool c f s.coherent;
    distinct = s.distinct;
    well_named = s.well_named;
  }

  perform_all-IsSound :
      (os : List Op) (m : Manager) → All IsFairOp os → IsSound m → IsSound (perform_all m os)
  unfolding perform_all
  perform_all-IsSound [] m f s = s
  perform_all-IsSound (o ∷ os) m (f, fs) s =
      perform_all-IsSound os (perform m o).0 fs (perform-IsSound m o f s)

  new_manager-IsSound :
      (pcs : List ProviderCfg) {m : Manager} → new_manager pcs ≡ some m → IsSound m
  unfolding new_manager
  new_manager-IsSound pcs {m} e = elim (Option-cases (manage_all pcs [])) [
    | inl bad ↦ absurd (cc (rw (bad, new_manager) at e))
    | inr (provs, good) ↦
        let (d, n) = manage_all-Sound pcs [] tt tt good in
        let same : record { pool = new_pool; provs = provs; file = none } ≡ m =
          cc (rw (good, new_manager) at e) in
        subst IsSound same
          (record { coherent = Pools.new_pool-Coherent; distinct = d; well_named = n })
  ]

  -- After any sequence of calls of the manager and of its pool on a new manager, whatever the
  -- providers answer and whether or not the writes succeed, the pool is coherent, no name is listed
  -- twice, and each provider is listed under the name of its configuration.
  pub perform_all-new_manager-IsSound :
      (pcs : List ProviderCfg) (os : List Op) {m : Manager}
      → All IsFairOp os
      → new_manager pcs ≡ some m
      → IsSound (perform_all m os)
  perform_all-new_manager-IsSound pcs os {m} f e =
      perform_all-IsSound os m f (new_manager-IsSound pcs e)
