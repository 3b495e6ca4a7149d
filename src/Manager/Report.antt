-- ===== src/Manager/Report.antt =====
-- The countries and the reports of internal/pool/manager.go.
use proxy_gateway.Prelude.{
  ℕ, ◌+◌, String, Bool, List, [], ◌∷◌, Option, none, some, str_eq, if◌then◌else◌, is_pos, pos_part,
}
use proxy_gateway.Prelude.Dict.{lookup, insert, values, keys}
use proxy_gateway.Geo.{GeoResult, country_in, lookup_countries}
use proxy_gateway.Prelude.Float.{Float64}
use proxy_gateway.Model.{Proxy, Kind}
use proxy_gateway.Config.{ProviderCfg}
use proxy_gateway.Pool.State.{Pool}
use proxy_gateway.Pool.Change.{set_country, of_provider}
use proxy_gateway.Pool.Report.{unresolved_countries}
use proxy_gateway.Manager.{Made, static_urls, tunnel, ip_pool, free_pool, Manager}

-- `Kind` of a provider.
unfoldable pub made_kind : Made → Kind
made_kind (static_urls cfg) = if str_eq cfg.provider_type "sticky" then Kind.sticky else Kind.tunnel
made_kind (tunnel cfg) = Kind.tunnel
made_kind (ip_pool cfg) = if str_eq cfg.provider_type "sticky" then Kind.sticky else Kind.ip_pool
made_kind (free_pool cfg) = Kind.ip_pool

-- `GetProvider` and `ProviderConfig`
unfoldable pub get_provider : Manager → String → Option Made
get_provider m name = elim (lookup name m.provs) [ none ↦ none | some mp ↦ some mp.provider ]

unfoldable pub provider_config : Manager → String → Option ProviderCfg
provider_config m name = elim (lookup name m.provs) [ none ↦ none | some mp ↦ some mp.cfg ]

-- `out[country]++` of `countryDistribution`
abbrev pub count_in : String → List (String × ℕ) → ℕ
count_in k m = elim (lookup k m) [ none ↦ 0 | some n ↦ n ]

abbrev pub country_key : Proxy → String
country_key pr = if str_eq pr.country "" then "unknown" else pr.country

unfoldable pub count_countries : String → List (String × ℕ) → List Proxy → List (String × ℕ)
count_countries name out [] = out
count_countries name out (pr ∷ prs) =
    count_countries name
      (if of_provider name pr
        then insert (country_key pr) (count_in (country_key pr) out + 1) out
        else out)
      prs

-- `countryDistribution`
abbrev pub country_distribution : Pool → String → List (String × ℕ)
country_distribution p name = count_countries name [] (values p.proxies)

-- `providerRefreshInterval`, in seconds.
unfoldable pub provider_refresh_interval : ProviderCfg → ℕ
provider_refresh_interval cfg =
    let free : ℕ = elim cfg.free [
      | none ↦ 0
      | some f ↦ if is_pos f.refresh_seconds then pos_part f.refresh_seconds else 0
    ] in
    elim cfg.ip_pool [
      | none ↦ free
      | some i ↦ if is_pos i.refresh_seconds then pos_part i.refresh_seconds else free
    ]

-- The inner loop of `enrichOnce`.
unfoldable pub set_countries : ⦃fl : Float64⦄ → List String → String → Pool → Pool
set_countries [] country p = p
set_countries (id ∷ ids) country p = set_countries ids country (set_country p id country)

-- Its outer loop, over the addresses without a country.
unfoldable pub enrich_loop :
    ⦃fl : Float64⦄ → List (String × String) → List (String × List String) → Pool → Pool
enrich_loop resolved [] p = p
enrich_loop resolved ((ip, ids) ∷ rest) p =
    enrich_loop resolved rest (
      if str_eq (country_in resolved ip) ""
      then p
      else set_countries ids (country_in resolved ip) p)

-- `enrichOnce`, with the cache of the client afterwards.
unfoldable pub enrich_once :
    ⦃fl : Float64⦄
    → (String → Bool)
    → Option (List GeoResult)
    → List (String × String)
    → Pool
    → Pool × List (String × String)
enrich_once is_public answer cache p = elim (unresolved_countries p) [
  | [] ↦ (p, cache)
  | entry ∷ rest ↦
      let (resolved, after) = lookup_countries is_public answer cache (keys (entry ∷ rest)) in
      (enrich_loop resolved (entry ∷ rest) p, after)
]
