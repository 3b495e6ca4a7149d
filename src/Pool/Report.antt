-- ===== src/Pool/Report.antt =====
-- The views of internal/pool/pool.go: `UnresolvedCountries`, `Stats`, `GroupStats`
-- and `StatsByProvider`.
use proxy_gateway.Prelude.{
  ℕ, ◌+◌, String, Bool, ◌&&◌, List, [], ◌∷◌, ◌++◌, map, none, some, ltb, str_eq, if◌then◌else◌,
  length,
}
use proxy_gateway.Prelude.Dict.{lookup, insert, values}
use proxy_gateway.Prelude.Float.{Float64}
use proxy_gateway.Model.{Proxy}
use proxy_gateway.Config.{GroupCfg}
use proxy_gateway.Pool.State.{Pool, LayerSnap, GroupSnap}

abbrev pub ids_at : String → List (String × List String) → List String
ids_at host m = elim (lookup host m) [ none ↦ [] | some l ↦ l ]

unfoldable pub unresolved_loop :
    List (String × List String) → List (String × Proxy) → List (String × List String)
unresolved_loop out [] = out
unresolved_loop out ((id, pr) ∷ m) =
    unresolved_loop
      (if str_eq pr.country "" then insert pr.host (ids_at pr.host out ++ (id ∷ [])) out else out) m

-- `UnresolvedCountries`
unfoldable pub unresolved_countries : Pool → List (String × List String)
unresolved_countries p = unresolved_loop [] p.proxies

-- `Stats`: all proxies, and those of the snapshot.
unfoldable pub stats : Pool → ℕ × ℕ
stats p = (length p.proxies, length p.snap.proxies)

pub record TierStat : Type 0 where
  pub name : String
  pub alive_total : ℕ
  pub alive_count : ℕ
  pub min_ratio : ℕ
  pub usable : Bool

pub record GroupStat : Type 0 where
  pub group : String
  pub group_type : String
  pub tiers : List TierStat

unfoldable pub group_type_of : List GroupCfg → String → String
group_type_of [] name = ""
group_type_of (c ∷ cs) name = if str_eq c.name name then c.group_type else group_type_of cs name

module _ ⦃fl : Float64⦄ where
  unfoldable pub is_usable : LayerSnap → Bool
  is_usable l =
      ltb 0 l.alive_count
      && fl.at_least (fl.div (fl.of_int l.alive_count) (fl.of_int l.alive_total)) l.min_ratio

  unfoldable pub tier_stat : LayerSnap → TierStat
  tier_stat l = record {
    name = l.name;
    alive_total = l.alive_total;
    alive_count = l.alive_count;
    min_ratio = l.min_ratio;
    usable = is_usable l;
  }

  unfoldable pub group_stats : Pool → List GroupStat
  group_stats p =
      map
        (λ (g : GroupSnap). record {
          group = g.name;
          group_type = group_type_of p.groups_cfg g.name;
          tiers = map tier_stat g.layers;
        })
        p.snap.groups

pub record ProviderStat : Type 0 where
  pub total : ℕ
  pub alive : ℕ

abbrev pub stat_at : String → List (String × ProviderStat) → ProviderStat
stat_at k m = elim (lookup k m) [ none ↦ record { total = 0; alive = 0 } | some st ↦ st ]

-- The first loop of `StatsByProvider`, over the map.
unfoldable pub count_totals :
    List (String × ProviderStat) → List Proxy → List (String × ProviderStat)
count_totals by [] = by
count_totals by (pr ∷ rest) =
    let st = stat_at pr.provider by in
    count_totals (insert pr.provider (record st { total = st.total + 1 }) by) rest

-- One turn of the second, over the snapshot.
unfoldable pub count_alive_one : List (String × ProviderStat) → Proxy → List (String × ProviderStat)
count_alive_one by pr = elim (lookup pr.provider by) [
  | none ↦ by
  | some st ↦ insert pr.provider (record st { alive = st.alive + 1 }) by
]

unfoldable pub count_alive :
    Pool → List (String × ProviderStat) → List String → List (String × ProviderStat)
count_alive p by [] = by
count_alive p by (id ∷ ids) =
    count_alive p (elim (lookup id p.proxies) [ none ↦ by | some pr ↦ count_alive_one by pr ]) ids

unfoldable pub stats_by_provider : Pool → List (String × ProviderStat)
stats_by_provider p = count_alive p (count_totals [] (values p.proxies)) p.snap.proxies
