-- ===== src/Manager.antt =====
-- internal/pool/manager.go: the providers, whose proxies the manager puts into the pool. Each method is
-- a function that runs to its end; what other calls do between its two critical sections is not
-- modelled. What a provider fetches, and whether a write of the file succeeds, are arguments.
pub mod Change
pub mod Keeps
pub mod Methods
pub mod History
pub mod Refuse
pub mod Purge
pub mod Weight
pub mod Report
pub mod Enrich
pub mod Start
use proxy_gateway.Prelude.{
  ℕ, String, Bool, true, false, not, ◌&&◌, ◌||◌, List, [], ◌∷◌, Option, none, some, str_eq,
  if◌then◌else◌, ℤ, pos, is_pos, int32_of, ◌*◌, pos_part, map,
}
use proxy_gateway.Prelude.Dict.{lookup, insert, delete, values}
use proxy_gateway.Prelude.Float.{Float64}
use proxy_gateway.Model.{Proxy}
use proxy_gateway.Config.{ProviderCfg}
use proxy_gateway.Persist.{Content, save_provider, delete_provider, replace_providers}
use proxy_gateway.Pool.State.{Pool, new_pool}
use proxy_gateway.Pool.Rebuild.{rebuild}
use proxy_gateway.Pool.Change.{add, remove, remove_expired, set_country, ids_where, of_provider}

-- What `provider.New` makes, each with the configuration it was made from.
pub data Made : Type 0 where
  static_urls tunnel ip_pool free_pool : ProviderCfg → Made

abbrev has_urls : ProviderCfg → Bool
has_urls cfg = elim cfg.urls [ [] ↦ false | u ∷ us ↦ true ]

-- `provider.New`; `none` for a type that is not supported.
unfoldable pub new_provider : ProviderCfg → Option Made
new_provider cfg =
    if has_urls cfg && (str_eq cfg.provider_type "tunnel" || str_eq cfg.provider_type "sticky")
    then some (static_urls cfg)
    else if str_eq cfg.provider_type "tunnel"
    then some (tunnel cfg)
    else if str_eq cfg.provider_type "ip_pool" || str_eq cfg.provider_type "sticky"
    then some (ip_pool cfg)
    else if str_eq cfg.provider_type "free"
    then some (free_pool cfg)
    else none

-- What a call of `Initial` or `Refresh` returns: an error, or proxies; a nil list is `none`.
pub data Fetch : Type 0 where
  fetch_failed : String → Fetch
  fetched : Option (List Proxy) → Fetch

-- `managedProvider`. A zero time is 0.
pub record ManagedProvider : Type 0 where
  pub provider : Made
  pub cfg : ProviderCfg
  pub enabled : Bool
  pub weight : ℤ
  pub last_err : String
  pub last_ok : ℕ

-- `file` is the store of providers, `none` without one.
pub record Manager : Type 0 where
  pub pool : Pool
  pub provs : List (String × ManagedProvider)
  pub file : Option (Content ProviderCfg)

-- The errors of the methods.
pub data Fault : Type 0 where
  name_required unsupported_type duplicate_name already_exists not_found bad_ratio : Fault
  load_failed : String → Fault

abbrev pub managed : Made → ProviderCfg → ℤ → ManagedProvider
managed made cfg weight = record {
  provider = made;
  cfg = cfg;
  enabled = cfg.enabled;
  weight = weight;
  last_err = "";
  last_ok = 0;
}

-- The loop of `NewManager`, with the map so far.
unfoldable pub manage_all :
    List ProviderCfg → List (String × ManagedProvider) → Option (List (String × ManagedProvider))
manage_all [] provs = some provs
manage_all (pc ∷ pcs) provs = elim (lookup pc.name provs) [
  | some mp ↦ none
  | none ↦ elim (new_provider pc) [
    | none ↦ none
    | some made ↦ manage_all pcs (insert pc.name (managed made pc (int32_of pc.weight)) provs)
  ]
]

-- `NewManager`; `none` for an error.
unfoldable pub new_manager : List ProviderCfg → Option Manager
new_manager pcs = elim (manage_all pcs []) [
  | none ↦ none
  | some provs ↦ some (record { pool = new_pool; provs = provs; file = none })
]

-- `AttachStore`
unfoldable pub attach_store : Manager → Option (Content ProviderCfg) → Manager
attach_store m f = record m { file = f }

-- The calls of the store, whose errors are only logged.
unfoldable pub save_cfg : Bool → ProviderCfg → Manager → Manager
save_cfg ok cfg m = elim m.file [
  | none ↦ m
  | some f ↦ record m { file = some (save_provider ok cfg f).0 }
]

unfoldable pub delete_cfg : Bool → String → Manager → Manager
delete_cfg ok name m = elim m.file [
  | none ↦ m
  | some f ↦ record m { file = some (delete_provider ok name f).0 }
]

-- `SyncProvidersToStore`
unfoldable pub sync_providers : Bool → Manager → Manager
sync_providers ok m = elim m.file [
  | none ↦ m
  | some f ↦ record m {
    file =
        some (replace_providers ok (map (λ (mp : ManagedProvider). mp.cfg) (values m.provs)) f).0;
  }
]

-- A weight that is not positive becomes 1.
abbrev pub positive_weight : ℤ → ℤ
positive_weight w = if is_pos w then w else pos 1

-- The country of the configuration, where it has one.
unfoldable pub stamped : ProviderCfg → Proxy → Proxy
stamped cfg pr = if str_eq cfg.country "" then pr else record pr { country = cfg.country }

-- The objects of a provider, changed in place.
unfoldable pub retune : String → (Proxy → Proxy) → List (String × Proxy) → List (String × Proxy)
retune name f [] = []
retune name f ((id, pr) ∷ m) = (id, if of_provider name pr then f pr else pr) ∷ retune name f m

abbrev pub provider_ids : String → Pool → List String
provider_ids name p = ids_where (of_provider name) p.proxies

module _ ⦃fl : Float64⦄ where
  -- `addProxies`
  unfoldable pub add_proxies : ProviderCfg → List Proxy → Pool → Pool
  add_proxies cfg [] p = p
  add_proxies cfg (pr ∷ prs) p = add_proxies cfg prs (add p (stamped cfg pr))

  -- The loop with `Remove`.
  unfoldable pub remove_ids : List String → Pool → Pool
  remove_ids [] p = p
  remove_ids (id ∷ ids) p = remove_ids ids (remove p id).0

  abbrev pub remove_provided : String → Pool → Pool
  remove_provided name p = remove_ids (provider_ids name p) p

  -- The proxies of an answer, put into the pool; a nil list has none.
  abbrev pub load_proxies : ProviderCfg → Option (List Proxy) → Pool → Pool
  load_proxies cfg none p = p
  load_proxies cfg (some prs) p = add_proxies cfg prs p

  -- A loop over the proxies of a provider, and `Rebuild`.
  unfoldable pub retuned : String → (Proxy → Proxy) → Pool → Pool
  retuned name f p = rebuild (record p { proxies = retune name f p.proxies })
